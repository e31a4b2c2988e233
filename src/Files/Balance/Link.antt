-- ===== src/Files/Balance/Link.antt =====
-- `sys_link` of ex5/bonus/sysfile.c gives back what it takes.
use os_course.Prelude.{ℕ, suc, Bool, true, false, Option, none, some, List, CharList, ◌==◌}
use os_course.Prelude.Word.{int_eq, int_succ, int_pred}
use os_course.Files.Open.{FileSystem, give_up}
use os_course.Files.Links.{
  Links, with_nlink, undo_link, after_dirlink, link_into, with_parent, link_locked, with_old,
  sys_link,
}
use os_course.Files.Balance.{Gives, either, Balanced, with_nlink-Holds, give_up-Holds}

module _ {W : Type 0} (fs : FileSystem W) (ls : Links W) (Holds : ℕ → ℕ → ℕ → W → Type 0)
    (laws : Balanced fs ls Holds) where
  undo_link-Holds :
      (r l o ip : ℕ) (w : W) → Holds (suc r) l (suc o) w → Holds r l o (undo_link fs ls ip w).1
  undo_link-Holds r l o ip w h =
      give_up-Holds fs ls Holds laws r l o ip (with_nlink fs ls int_pred ip (fs.ilock ip w)) (
        with_nlink-Holds fs ls Holds laws (suc r) (suc l) (suc o) int_pred ip (fs.ilock ip w)
          (laws.locks (suc r) l (suc o) ip w h))

  after_dirlink-Holds :
      (r l o ip dp : ℕ) (x : Bool × W)
      → Holds (suc (suc r)) (suc l) (suc o) x.1
      → Holds r l o (after_dirlink fs ls ip dp x).1
  after_dirlink-Holds r l o ip dp (false, w) h =
      undo_link-Holds r l o ip (fs.iunlockput dp w) (laws.unlocks_puts (suc r) l (suc o) dp w h)
  after_dirlink-Holds r l o ip dp (true, w) h =
      laws.ends r l o (ls.iput ip (fs.iunlockput dp w))
        (laws.puts r l (suc o) ip (fs.iunlockput dp w) (laws.unlocks_puts (suc r) l (suc o) dp w h))

  link_into-Holds :
      (r l o ip dp : ℕ) (name : List ℕ) (w : W)
      → Holds (suc (suc r)) (suc l) (suc o) w
      → Holds r l o (link_into fs ls ip dp name w).1
  link_into-Holds r l o ip dp name w h =
      let inum = (fs.inode ip w).inum in
      either (λ x. Holds r l o x.1) ((fs.inode dp w).dev == (fs.inode ip w).dev)
        (after_dirlink fs ls ip dp (ls.dirlink dp name inum w))
        (undo_link fs ls ip (fs.iunlockput dp w))
        (after_dirlink-Holds r l o ip dp (ls.dirlink dp name inum w)
          (laws.enters (suc (suc r)) (suc l) (suc o) dp name inum w h))
        (undo_link-Holds r l o ip (fs.iunlockput dp w) (laws.unlocks_puts (suc r) l (suc o) dp w h))

  with_parent-Holds :
      (r l o ip : ℕ) (x : Option (ℕ × List ℕ) × W)
      → Gives (Holds (suc r) l (suc o)) (Holds (suc (suc r)) l (suc o)) x
      → Holds r l o (with_parent fs ls ip x).1
  with_parent-Holds r l o ip (none, w) h = undo_link-Holds r l o ip w h
  with_parent-Holds r l o ip (some (dp, name), w) h =
      link_into-Holds r l o ip dp name (fs.ilock dp w) (laws.locks (suc (suc r)) l (suc o) dp w h)

  link_locked-Holds :
      (r l o ip : ℕ) (new : CharList) (w : W)
      → Holds (suc r) (suc l) (suc o) w
      → Holds r l o (link_locked fs ls new ip w).1
  link_locked-Holds r l o ip new w h =
      let w' = fs.iunlock ip (with_nlink fs ls int_succ ip w) in
      let h' =
        laws.unlocks (suc r) l (suc o) ip (with_nlink fs ls int_succ ip w)
          (with_nlink-Holds fs ls Holds laws (suc r) (suc l) (suc o) int_succ ip w h) in
      either (λ x. Holds r l o x.1) (int_eq (fs.inode ip w).content.type fs.t_dir) (give_up fs ip w)
        (with_parent fs ls ip (ls.nameiparent new w')) (give_up-Holds fs ls Holds laws r l o ip w h)
        (with_parent-Holds r l o ip (ls.nameiparent new w')
          (laws.finds_parent (suc r) l (suc o) new w' h'))

  with_old-Holds :
      (r l o : ℕ) (new : CharList) (x : Option ℕ × W)
      → Gives (Holds r l (suc o)) (Holds (suc r) l (suc o)) x
      → Holds r l o (with_old fs ls new x).1
  with_old-Holds r l o new (none, w) h = laws.ends r l o w h
  with_old-Holds r l o new (some ip, w) h =
      link_locked-Holds r l o ip new (fs.ilock ip w) (laws.locks (suc r) l (suc o) ip w h)

  pub sys_link-Holds :
      (r l o : ℕ) (old new : Option CharList) (w : W)
      → Holds r l o w
      → Holds r l o (sys_link fs ls old new w).1
  unfolding sys_link
  sys_link-Holds r l o none new w h = h
  sys_link-Holds r l o (some old) none w h = h
  sys_link-Holds r l o (some old) (some new) w h =
      with_old-Holds r l o new (fs.namei old (fs.begin_op w))
        (laws.finds r l (suc o) old (fs.begin_op w) (laws.begins r l o w h))
