-- ===== src/Files/Balance/Unlink.antt =====
-- `sys_unlink` of ex5/bonus/sysfile.c gives back what it takes.
use os_course.Prelude.{
  ◌+◌, ◌-◌, ◌/◌, ℕ, zero, suc, Bool, true, false, Option, none, some, List, CharList, ◌==◌, ◌||◌,
  if◌then◌else◌,
}
use os_course.Prelude.Int.{pos, ltb_ℤ}
use os_course.Prelude.Word.{int_eq, int_pred}
use os_course.Directory.{dirent_size, namecmp_equal}
use os_course.Files.Open.{FileSystem, give_up}
use os_course.Files.Links.{
  Links, dot, dotdot, with_nlink, if_free, free_entries, isdirempty, after_clear, if_empty,
  unlink_target, unlink_found, unlink_from, unlink_in, sys_unlink,
}
use os_course.Files.Balance.{Gives, Returns, either, Balanced, with_nlink-Holds, give_up-Holds}

module _ {W : Type 0} (fs : FileSystem W) (ls : Links W) (Holds : ℕ → ℕ → ℕ → W → Type 0)
    (laws : Balanced fs ls Holds) where
  if_free-Holds :
      (r l o : ℕ) (next : W → Option (Bool × W)) (x : Option ℕ × W)
      → ((v : W) → Holds r l o v → Returns (Holds r l o) (next v))
      → Holds r l o x.1
      → Returns (Holds r l o) (if_free fs ls next x)
  if_free-Holds r l o next (none, w) go h = tt
  if_free-Holds r l o next (some inum, w) go h =
      either (Returns (Holds r l o)) (inum == 0) (next w) (some (false, w)) (go w h) h

  free_entries-Holds :
      (r l o dp n off : ℕ) (w : W)
      → Holds r l o w
      → Returns (Holds r l o) (free_entries fs ls dp n off w)
  unfolding free_entries
  free_entries-Holds r l o dp zero off w h = h
  free_entries-Holds r l o dp (suc n) off w h =
      let next : W → Option (Bool × W) = λ v. free_entries fs ls dp n (off + dirent_size) v in
      if_free-Holds r l o next (ls.read_entry dp off w)
        (λ v hv. free_entries-Holds r l o dp n (off + dirent_size) v hv)
        (laws.reads r l o dp off w h)

  after_clear-Holds :
      (r l o dp ip : ℕ) (x : Bool × W)
      → Holds (suc (suc r)) (suc (suc l)) (suc o) x.1
      → Returns (Holds r l o) (after_clear fs ls dp ip x)
  after_clear-Holds r l o dp ip (false, w) h = tt
  after_clear-Holds r l o dp ip (true, w) h =
      let is_dir = int_eq (fs.inode ip w).content.type fs.t_dir in
      let w1 = if is_dir then with_nlink fs ls int_pred dp w else w in
      let h1 =
        either (Holds (suc (suc r)) (suc (suc l)) (suc o)) is_dir (with_nlink fs ls int_pred dp w) w
          (with_nlink-Holds fs ls Holds laws (suc (suc r)) (suc (suc l)) (suc o) int_pred dp w h)
          h in
      let w2 = fs.iunlockput dp w1 in
      let w3 = with_nlink fs ls int_pred ip w2 in
      laws.ends r l o (fs.iunlockput ip w3) (
        laws.unlocks_puts r l (suc o) ip w3 (
          with_nlink-Holds fs ls Holds laws (suc r) (suc l) (suc o) int_pred ip w2
            (laws.unlocks_puts (suc r) (suc l) (suc o) dp w1 h1)))

  if_empty-Holds :
      (r l o dp ip off : ℕ) (x : Option (Bool × W))
      → Returns (Holds (suc (suc r)) (suc (suc l)) (suc o)) x
      → Returns (Holds r l o) (if_empty fs ls dp ip off x)
  if_empty-Holds r l o dp ip off none h = tt
  if_empty-Holds r l o dp ip off (some (false, w)) h =
      give_up-Holds fs ls Holds laws r l o dp (fs.iunlockput ip w)
        (laws.unlocks_puts (suc r) (suc l) (suc o) ip w h)
  if_empty-Holds r l o dp ip off (some (true, w)) h =
      after_clear-Holds r l o dp ip (ls.clear_entry dp off w)
        (laws.clears (suc (suc r)) (suc (suc l)) (suc o) dp off w h)

  unlink_target-Holds :
      (r l o dp ip off : ℕ) (w : W)
      → Holds (suc (suc r)) (suc (suc l)) (suc o) w
      → Returns (Holds r l o) (unlink_target fs ls dp ip off w)
  unlink_target-Holds r l o dp ip off w h =
      let is_dir = int_eq (fs.inode ip w).content.type fs.t_dir in
      let start = dirent_size + dirent_size in
      let n = ((fs.inode ip w).content.size + (dirent_size - 1) - start) / dirent_size in
      let empty = if is_dir then isdirempty fs ls ip w else some (true, w) in
      either (Returns (Holds r l o)) (ltb_ℤ (fs.inode ip w).content.nlink (pos 1)) none
        (if_empty fs ls dp ip off empty) tt
        (if_empty-Holds r l o dp ip off empty (
          either (Returns (Holds (suc (suc r)) (suc (suc l)) (suc o))) is_dir
            (isdirempty fs ls ip w) (some (true, w))
            (free_entries-Holds (suc (suc r)) (suc (suc l)) (suc o) ip n start w h) h))

  unlink_from-Holds :
      (r l o dp : ℕ) (name : List ℕ) (w : W)
      → Holds (suc r) (suc l) (suc o) w
      → Returns (Holds r l o) (unlink_from fs ls dp name w)
  unlink_from-Holds r l o dp name w h =
      either (Returns (Holds r l o)) (namecmp_equal name dot || namecmp_equal name dotdot)
        (some (give_up fs dp w)) (unlink_found fs ls dp (ls.dirlookup dp name w))
        (give_up-Holds fs ls Holds laws r l o dp w h)
        (found (ls.dirlookup dp name w) (laws.looks_up (suc r) (suc l) (suc o) dp name w h))
    where
      found :
          (x : Option (ℕ × ℕ) × W)
          → Gives (Holds (suc r) (suc l) (suc o)) (Holds (suc (suc r)) (suc l) (suc o)) x
          → Returns (Holds r l o) (unlink_found fs ls dp x)
      found (none, v) hv = give_up-Holds fs ls Holds laws r l o dp v hv
      found (some (ip, off), v) hv =
          unlink_target-Holds r l o dp ip off (fs.ilock ip v)
            (laws.locks (suc (suc r)) (suc l) (suc o) ip v hv)

  unlink_in-Holds :
      (r l o : ℕ) (x : Option (ℕ × List ℕ) × W)
      → Gives (Holds r l (suc o)) (Holds (suc r) l (suc o)) x
      → Returns (Holds r l o) (unlink_in fs ls x)
  unlink_in-Holds r l o (none, w) h = laws.ends r l o w h
  unlink_in-Holds r l o (some (dp, name), w) h =
      unlink_from-Holds r l o dp name (fs.ilock dp w) (laws.locks (suc r) l (suc o) dp w h)

  pub sys_unlink-Holds :
      (r l o : ℕ) (path : Option CharList) (w : W)
      → Holds r l o w
      → Returns (Holds r l o) (sys_unlink fs ls path w)
  unfolding sys_unlink
  sys_unlink-Holds r l o none w h = h
  sys_unlink-Holds r l o (some path) w h =
      unlink_in-Holds r l o (ls.nameiparent path (fs.begin_op w))
        (laws.finds_parent r l (suc o) path (fs.begin_op w) (laws.begins r l o w h))
