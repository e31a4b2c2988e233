-- ===== src/Files/Balance/Create.antt =====
-- The calls of ex5/bonus/sysfile.c that link, unlink, create and change the directory give back what they take.
use os_course.Prelude.{
  ℕ, suc, Bool, true, false, Option, none, some, List, CharList, ◌&&◌, ◌||◌, if◌then◌else◌,
}
use os_course.Prelude.Int.{ℤ, pos}
use os_course.Prelude.Word.{success, failure, int_eq, int_succ}
use os_course.Files.Open.{FileSystem}
use os_course.Files.Links.{
  Links, short_of, dot, dotdot, with_nlink, sys_link, sys_unlink, fail_create, entered, with_dotdot,
  with_dot, fill, with_new, create_unless, create_in, create, created, sys_mkdir, sys_mknod,
  chdir_to, sys_chdir,
}
use os_course.Files.Balance.{Gives, Returns, either, Balanced, with_nlink-Holds}
use os_course.Files.Balance.Link.{sys_link-Holds}
use os_course.Files.Balance.Unlink.{sys_unlink-Holds}

module _ {W : Type 0} (fs : FileSystem W) (ls : Links W) (Holds : ℕ → ℕ → ℕ → W → Type 0)
    (laws : Balanced fs ls Holds) where
  fail_create-Holds :
      (r l o dp ip : ℕ) (w : W)
      → Holds (suc (suc r)) (suc (suc l)) o w
      → Holds r l o (fail_create fs ls dp ip w).1
  fail_create-Holds r l o dp ip w h =
      let w1 = with_nlink fs ls (λ n. pos 0) ip w in
      laws.unlocks_puts r l o dp (fs.iunlockput ip w1) (
        laws.unlocks_puts (suc r) (suc l) o ip w1
          (with_nlink-Holds fs ls Holds laws (suc (suc r)) (suc (suc l)) o (λ n. pos 0) ip w h))

  -- The inode that `create` gives is held and locked.
  abbrev Created : ℕ → ℕ → ℕ → Option ℕ × W → Type 0
  Created r l o x = Gives (Holds r l o) (Holds (suc r) (suc l) o) x

  entered-Created :
      (r l o : ℕ) (kind : ℤ) (dp ip : ℕ) (x : Bool × W)
      → Holds (suc (suc r)) (suc (suc l)) o x.1
      → Created r l o (entered fs ls kind dp ip x)
  entered-Created r l o kind dp ip (false, w) h = fail_create-Holds r l o dp ip w h
  entered-Created r l o kind dp ip (true, w) h =
      let is_dir = int_eq kind fs.t_dir in
      let w1 = if is_dir then with_nlink fs ls int_succ dp w else w in
      laws.unlocks_puts (suc r) (suc l) o dp w1 (
        either (Holds (suc (suc r)) (suc (suc l)) o) is_dir (with_nlink fs ls int_succ dp w) w
          (with_nlink-Holds fs ls Holds laws (suc (suc r)) (suc (suc l)) o int_succ dp w h) h)

  with_dotdot-Created :
      (r l o : ℕ) (kind : ℤ) (dp ip : ℕ) (name : List ℕ) (x : Bool × W)
      → Holds (suc (suc r)) (suc (suc l)) o x.1
      → Created r l o (with_dotdot fs ls kind dp ip name x)
  with_dotdot-Created r l o kind dp ip name (false, w) h = fail_create-Holds r l o dp ip w h
  with_dotdot-Created r l o kind dp ip name (true, w) h =
      let inum = (fs.inode ip w).inum in
      entered-Created r l o kind dp ip (ls.dirlink dp name inum w)
        (laws.enters (suc (suc r)) (suc (suc l)) o dp name inum w h)

  with_dot-Created :
      (r l o : ℕ) (kind : ℤ) (dp ip : ℕ) (name : List ℕ) (x : Bool × W)
      → Holds (suc (suc r)) (suc (suc l)) o x.1
      → Created r l o (with_dot fs ls kind dp ip name x)
  with_dot-Created r l o kind dp ip name (false, w) h = fail_create-Holds r l o dp ip w h
  with_dot-Created r l o kind dp ip name (true, w) h =
      let inum = (fs.inode dp w).inum in
      with_dotdot-Created r l o kind dp ip name (ls.dirlink ip dotdot inum w)
        (laws.enters (suc (suc r)) (suc (suc l)) o ip dotdot inum w h)

  fill-Created :
      (r l o : ℕ) (kind major' minor' : ℤ) (dp ip : ℕ) (name : List ℕ) (w : W)
      → Holds (suc (suc r)) (suc (suc l)) o w
      → Created r l o (fill fs ls kind major' minor' dp ip name w)
  fill-Created r l o kind major' minor' dp ip name w h =
      let c' = record (fs.inode ip w).content { major = major'; minor = minor'; nlink = pos 1 } in
      let w' = ls.iupdate ip (ls.set_content ip c' w) in
      let h' =
        laws.updates (suc (suc r)) (suc (suc l)) o ip (ls.set_content ip c' w)
          (laws.sets (suc (suc r)) (suc (suc l)) o ip c' w h) in
      let inum = (fs.inode ip w').inum in
      either (Created r l o) (int_eq kind fs.t_dir)
        (with_dot fs ls kind dp ip name (ls.dirlink ip dot inum w'))
        (entered fs ls kind dp ip (ls.dirlink dp name inum w'))
        (with_dot-Created r l o kind dp ip name (ls.dirlink ip dot inum w')
          (laws.enters (suc (suc r)) (suc (suc l)) o ip dot inum w' h'))
        (entered-Created r l o kind dp ip (ls.dirlink dp name inum w')
          (laws.enters (suc (suc r)) (suc (suc l)) o dp name inum w' h'))

  with_new-Created :
      (r l o : ℕ) (kind major' minor' : ℤ) (dp : ℕ) (name : List ℕ) (x : Option ℕ × W)
      → Gives (Holds (suc r) (suc l) o) (Holds (suc (suc r)) (suc l) o) x
      → Created r l o (with_new fs ls kind major' minor' dp name x)
  with_new-Created r l o kind major' minor' dp name (none, w) h = laws.unlocks_puts r l o dp w h
  with_new-Created r l o kind major' minor' dp name (some ip, w) h =
      fill-Created r l o kind major' minor' dp ip name (fs.ilock ip w)
        (laws.locks (suc (suc r)) (suc l) o ip w h)

  create_unless-Created :
      (r l o : ℕ) (kind major' minor' : ℤ) (dp : ℕ) (name : List ℕ) (x : Option (ℕ × ℕ) × W)
      → Gives (Holds (suc r) (suc l) o) (Holds (suc (suc r)) (suc l) o) x
      → Created r l o (create_unless fs ls kind major' minor' dp name x)
  create_unless-Created r l o kind major' minor' dp name (none, w) h =
      let dev = (fs.inode dp w).dev in
      with_new-Created r l o kind major' minor' dp name (ls.ialloc dev kind w)
        (laws.allocates (suc r) (suc l) o dev kind w h)
  create_unless-Created r l o kind major' minor' dp name (some (ip, off), w) h =
      let w' = fs.ilock ip (fs.iunlockput dp w) in
      let h' =
        laws.locks (suc r) l o ip (fs.iunlockput dp w) (laws.unlocks_puts (suc r) l o dp w h) in
      let kind' = (fs.inode ip w').content.type in
      either (Created r l o)
        (int_eq kind fs.t_file && (int_eq kind' fs.t_file || int_eq kind' fs.t_device))
        (some ip, w') (none, fs.iunlockput ip w') h' (laws.unlocks_puts r l o ip w' h')

  create-Created :
      (r l o : ℕ) (path : CharList) (kind major' minor' : ℤ) (w : W)
      → Holds r l o w
      → Created r l o (create fs ls path kind major' minor' w)
  unfolding create
  create-Created r l o path kind major' minor' w h =
      parent (ls.nameiparent path w) (laws.finds_parent r l o path w h)
    where
      parent :
          (x : Option (ℕ × List ℕ) × W)
          → Gives (Holds r l o) (Holds (suc r) l o) x
          → Created r l o (create_in fs ls kind major' minor' x)
      parent (none, v) hv = hv
      parent (some (dp, name), v) hv =
          create_unless-Created r l o kind major' minor' dp name
            (ls.dirlookup dp name (fs.ilock dp v))
            (laws.looks_up (suc r) (suc l) o dp name (fs.ilock dp v)
              (laws.locks (suc r) l o dp v hv))

  created-Holds :
      (r l o : ℕ) (x : Option ℕ × W) → Created r l (suc o) x → Holds r l o (created fs ls x).1
  created-Holds r l o (none, w) h = laws.ends r l o w h
  created-Holds r l o (some ip, w) h =
      laws.ends r l o (fs.iunlockput ip w) (laws.unlocks_puts r l (suc o) ip w h)

  sys_mkdir-Holds :
      (r l o : ℕ) (path : Option CharList) (w : W)
      → Holds r l o w
      → Holds r l o (sys_mkdir fs ls path w).1
  unfolding sys_mkdir
  sys_mkdir-Holds r l o none w h = laws.ends r l o (fs.begin_op w) (laws.begins r l o w h)
  sys_mkdir-Holds r l o (some path) w h =
      created-Holds r l o (create fs ls path fs.t_dir (pos 0) (pos 0) (fs.begin_op w)) (
        create-Created r l (suc o) path fs.t_dir (pos 0) (pos 0) (fs.begin_op w)
          (laws.begins r l o w h))

  sys_mknod-Holds :
      (r l o : ℕ) (path : Option CharList) (major' minor' : ℤ) (w : W)
      → Holds r l o w
      → Holds r l o (sys_mknod fs ls path major' minor' w).1
  unfolding sys_mknod
  sys_mknod-Holds r l o none major' minor' w h =
      laws.ends r l o (fs.begin_op w) (laws.begins r l o w h)
  sys_mknod-Holds r l o (some path) major' minor' w h =
      created-Holds r l o
        (create fs ls path fs.t_device (short_of major') (short_of minor') (fs.begin_op w))
        (create-Created r l (suc o) path fs.t_device (short_of major') (short_of minor')
          (fs.begin_op w) (laws.begins r l o w h))

  -- The reference to the working directory is one of those held.
  sys_chdir-Holds :
      (r l o : ℕ) (path : Option CharList) (cwd : ℕ) (w : W)
      → Holds (suc r) l o w
      → Holds (suc r) l o (sys_chdir fs ls path cwd w).2
  unfolding sys_chdir
  sys_chdir-Holds r l o none cwd w h =
      laws.ends (suc r) l o (fs.begin_op w) (laws.begins (suc r) l o w h)
  sys_chdir-Holds r l o (some path) cwd w h =
      to (fs.namei path (fs.begin_op w))
        (laws.finds (suc r) l (suc o) path (fs.begin_op w) (laws.begins (suc r) l o w h))
    where
      to :
          (x : Option ℕ × W)
          → Gives (Holds (suc r) l (suc o)) (Holds (suc (suc r)) l (suc o)) x
          → Holds (suc r) l o (chdir_to fs ls cwd x).2
      to (none, v) hv = laws.ends (suc r) l o v hv
      to (some ip, v) hv =
          let v' = fs.ilock ip v in
          let hv' = laws.locks (suc (suc r)) l (suc o) ip v hv in
          let free = fs.iunlock ip v' in
          either (λ (x : ℤ × ℕ × W). Holds (suc r) l o x.2)
            (int_eq (fs.inode ip v').content.type fs.t_dir)
            (success, ip, fs.end_op (ls.iput cwd free))
            (failure, cwd, fs.end_op (fs.iunlockput ip v'))
            (laws.ends (suc r) l o (ls.iput cwd free) (
              laws.puts (suc r) l (suc o) cwd free
                (laws.unlocks (suc (suc r)) l (suc o) ip v' hv')))
            (laws.ends (suc r) l o (fs.iunlockput ip v')
              (laws.unlocks_puts (suc r) l (suc o) ip v' hv'))

  -- `link`, `unlink`, `mkdir`, `mknod` and `chdir` give back what they take: on every path through them,
  -- errors included, there are afterwards as many references to inodes, locks of inodes and open
  -- transactions as before, `chdir` with the reference to the working directory counted among them; `unlink`
  -- where it does not panic.
  pub calls_balanced :
      (r l o : ℕ) (path path' : Option CharList) (major' minor' : ℤ) (cwd : ℕ) (w : W)
      → Holds (suc r) l o w
      → Holds (suc r) l o (sys_link fs ls path path' w).1
        × Returns (Holds (suc r) l o) (sys_unlink fs ls path w)
        × Holds (suc r) l o (sys_mkdir fs ls path w).1
        × Holds (suc r) l o (sys_mknod fs ls path major' minor' w).1
        × Holds (suc r) l o (sys_chdir fs ls path cwd w).2
  calls_balanced r l o path path' major' minor' cwd w h = (
    sys_link-Holds fs ls Holds laws (suc r) l o path path' w h,
    sys_unlink-Holds fs ls Holds laws (suc r) l o path w h,
    sys_mkdir-Holds (suc r) l o path w h,
    sys_mknod-Holds (suc r) l o path major' minor' w h,
    sys_chdir-Holds r l o path cwd w h,
  )
