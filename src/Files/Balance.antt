-- ===== src/Files/Balance.antt =====
-- References, locks and transactions of inodes that the calls of ex5/bonus/sysfile.c hold: what they
-- rely on for giving back all that they take.
pub mod Link
pub mod Unlink
pub mod Create
use os_course.Prelude.{
  ◌+◌, ◌-◌, ◌/◌, ℕ, zero, suc, ◌≡◌, Bool, true, false, Option, none, some, List, [], ◌∷◌, CharList,
  ◌==◌, ◌&&◌, ◌||◌, if◌then◌else◌, ltb,
}
use os_course.Prelude.Int.{ℤ, pos, ltb_ℤ}
use os_course.Prelude.Word.{int_eq, int_succ, int_pred}
use os_course.Fs.{DiskInode}
use os_course.Directory.{dirent_size, namecmp_equal}
use os_course.Files.Open.{FileSystem, give_up}
use os_course.Files.Links.{
  Links, short_of, dot, dotdot, with_nlink, undo_link, after_dirlink, link_into, with_parent,
  link_locked, with_old, sys_link, if_free, free_entries, isdirempty, after_clear, if_empty,
  unlink_target, unlink_found, unlink_from, unlink_in, sys_unlink, fail_create, entered,
  with_dotdot, with_dot, fill, with_new, existing, create_unless, create_in, create, created,
  sys_mkdir, sys_mknod, chdir_locked, chdir_to, sys_chdir,
}

-- What holds after a call that may give a pointer.
abbrev pub Gives : {W X : Type 0} → (W → Type 0) → (W → Type 0) → Option X × W → Type 0
Gives nothing something (none, w) = nothing w
Gives nothing something (some x, w) = something w

-- Where a call does not panic.
abbrev pub Returns : {W X : Type 0} → (W → Type 0) → Option (X × W) → Type 0
Returns after none = Unit {0}
Returns after (some (x, w)) = after w

-- An `if` of which both branches hold.
pub either : {A : Type 0} (P : A → Type 0) (b : Bool) (x y : A) → P x → P y → P (if b then x else y)
either P true x y hx hy = hx
either P false x y hx hy = hy

-- `Holds r l o w`: `r` references and `l` locks of inodes and `o` transactions are held.
module _ {W : Type 0} (fs : FileSystem W) (ls : Links W) (Holds : ℕ → ℕ → ℕ → W → Type 0) where
  pub record Balanced : Type 0 where
    pub begins : (r l o : ℕ) (w : W) → Holds r l o w → Holds r l (suc o) (fs.begin_op w)
    pub ends : (r l o : ℕ) (w : W) → Holds r l (suc o) w → Holds r l o (fs.end_op w)
    pub finds :
        (r l o : ℕ) (p : CharList) (w : W)
        → Holds r l o w
        → Gives (Holds r l o) (Holds (suc r) l o) (fs.namei p w)
    pub finds_parent :
        (r l o : ℕ) (p : CharList) (w : W)
        → Holds r l o w
        → Gives (Holds r l o) (Holds (suc r) l o) (ls.nameiparent p w)
    pub looks_up :
        (r l o dp : ℕ) (name : List ℕ) (w : W)
        → Holds r l o w
        → Gives (Holds r l o) (Holds (suc r) l o) (ls.dirlookup dp name w)
    pub allocates :
        (r l o dev : ℕ) (kind : ℤ) (w : W)
        → Holds r l o w
        → Gives (Holds r l o) (Holds (suc r) l o) (ls.ialloc dev kind w)
    pub locks : (r l o k : ℕ) (w : W) → Holds r l o w → Holds r (suc l) o (fs.ilock k w)
    pub unlocks : (r l o k : ℕ) (w : W) → Holds r (suc l) o w → Holds r l o (fs.iunlock k w)
    pub puts : (r l o k : ℕ) (w : W) → Holds (suc r) l o w → Holds r l o (ls.iput k w)
    pub unlocks_puts :
        (r l o k : ℕ) (w : W) → Holds (suc r) (suc l) o w → Holds r l o (fs.iunlockput k w)
    pub updates : (r l o k : ℕ) (w : W) → Holds r l o w → Holds r l o (ls.iupdate k w)
    pub sets :
        (r l o k : ℕ) (c : DiskInode) (w : W) → Holds r l o w → Holds r l o (ls.set_content k c w)
    pub enters :
        (r l o k : ℕ) (name : List ℕ) (inum : ℕ) (w : W)
        → Holds r l o w
        → Holds r l o (ls.dirlink k name inum w).1
    pub reads : (r l o k off : ℕ) (w : W) → Holds r l o w → Holds r l o (ls.read_entry k off w).1
    pub clears : (r l o k off : ℕ) (w : W) → Holds r l o w → Holds r l o (ls.clear_entry k off w).1

  module _ (laws : Balanced) where
    pub with_nlink-Holds :
        (r l o : ℕ) (f : ℤ → ℤ) (k : ℕ) (w : W)
        → Holds r l o w
        → Holds r l o (with_nlink fs ls f k w)
    with_nlink-Holds r l o f k w h =
        let c = (fs.inode k w).content in
        let c' = record c { nlink = short_of (f c.nlink) } in
        laws.updates r l o k (ls.set_content k c' w) (laws.sets r l o k c' w h)

    pub give_up-Holds :
        (r l o k : ℕ) (w : W) → Holds (suc r) (suc l) (suc o) w → Holds r l o (give_up fs k w).1
    give_up-Holds r l o k w h =
        laws.ends r l o (fs.iunlockput k w) (laws.unlocks_puts r l (suc o) k w h)
