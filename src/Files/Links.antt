-- ===== src/Files/Links.antt =====
-- `sys_link`, `sys_unlink`, `create`, `sys_mkdir`, `sys_mknod` and `sys_chdir` of ex5/bonus/sysfile.c, from
-- their arguments on, over the rest of the file system. A path is nothing where `argstr` fails.
use os_course.Prelude.{
  ℕ, zero, suc, ◌+◌, ◌-◌, ◌/◌, ◌%◌, ◌^◌, Bool, true, false, Option, none, some, List, [], ◌∷◌,
  CharList, ltb, ◌==◌, ◌&&◌, ◌||◌, if◌then◌else◌,
}
use os_course.Prelude.Int.{ℤ, pos, negsuc, ltb_ℤ}
use os_course.Prelude.Word.{int_eq, int_succ, int_pred, success, failure}
use os_course.Fs.{DiskInode}
use os_course.Files.Open.{FileSystem, give_up}
use os_course.Directory.{dirent_size, namecmp_equal}

-- What these calls use besides. `set_content` is an assignment to fields of the inode in memory;
-- `nameiparent` gives the name with the directory, and `dirlookup` the offset with the inode; `read_entry` is
-- a whole `readi` of an entry and gives its number; `clear_entry` is a `writei` of a zeroed entry, and
-- whether it was whole.
pub record Links (W : Type 0) : Type 0 where
  pub nameiparent : CharList → W → Option (ℕ × List ℕ) × W
  pub iput : ℕ → W → W
  pub iupdate : ℕ → W → W
  pub set_content : ℕ → DiskInode → W → W
  pub dirlookup : ℕ → List ℕ → W → Option (ℕ × ℕ) × W
  pub dirlink : ℕ → List ℕ → ℕ → W → Bool × W
  pub read_entry : ℕ → ℕ → W → Option ℕ × W
  pub clear_entry : ℕ → ℕ → W → Bool × W
  pub ialloc : ℕ → ℤ → W → Option ℕ × W

-- An integer stored in a `short`.
abbrev short_word : ℕ → ℤ
short_word m = if ltb m (2 ^ 15) then pos m else negsuc (2 ^ 16 - 1 - m)

abbrev pub short_of : ℤ → ℤ
short_of (pos n) = short_word (n % 2 ^ 16)
short_of (negsuc n) = short_word (2 ^ 16 - 1 - n % 2 ^ 16)

abbrev pub dot : List ℕ
dot = 46 ∷ []

abbrev pub dotdot : List ℕ
dotdot = 46 ∷ 46 ∷ []

module _ {W : Type 0} (fs : FileSystem W) (ls : Links W) where
  abbrev pub type_of : ℕ → W → ℤ
  type_of k w = (fs.inode k w).content.type

  -- A change of `nlink`, and the `iupdate` after it.
  abbrev pub with_nlink : (ℤ → ℤ) → ℕ → W → W
  with_nlink f k w =
      let c = (fs.inode k w).content in
      ls.iupdate k (ls.set_content k (record c { nlink = short_of (f c.nlink) }) w)

  abbrev pub undo_link : ℕ → W → ℤ × W
  undo_link ip w = give_up fs ip (with_nlink int_pred ip (fs.ilock ip w))

  abbrev pub after_dirlink : ℕ → ℕ → Bool × W → ℤ × W
  after_dirlink ip dp (false, w) = undo_link ip (fs.iunlockput dp w)
  after_dirlink ip dp (true, w) = (success, fs.end_op (ls.iput ip (fs.iunlockput dp w)))

  abbrev pub link_into : ℕ → ℕ → List ℕ → W → ℤ × W
  link_into ip dp name w =
      if (fs.inode dp w).dev == (fs.inode ip w).dev
      then after_dirlink ip dp (ls.dirlink dp name (fs.inode ip w).inum w)
      else undo_link ip (fs.iunlockput dp w)

  abbrev pub with_parent : ℕ → Option (ℕ × List ℕ) × W → ℤ × W
  with_parent ip (none, w) = undo_link ip w
  with_parent ip (some (dp, name), w) = link_into ip dp name (fs.ilock dp w)

  abbrev pub link_locked : CharList → ℕ → W → ℤ × W
  link_locked new ip w =
      if int_eq (type_of ip w) fs.t_dir
      then give_up fs ip w
      else with_parent ip (ls.nameiparent new (fs.iunlock ip (with_nlink int_succ ip w)))

  abbrev pub with_old : CharList → Option ℕ × W → ℤ × W
  with_old new (none, w) = (failure, fs.end_op w)
  with_old new (some ip, w) = link_locked new ip (fs.ilock ip w)

  unfoldable pub sys_link : Option CharList → Option CharList → W → ℤ × W
  sys_link none new w = (failure, w)
  sys_link (some old) none w = (failure, w)
  sys_link (some old) (some new) w = with_old new (fs.namei old (fs.begin_op w))

  -- `isdirempty`: the loop over the `n` entries from `off` on; `none` is the panic, here and below.
  abbrev pub if_free : (W → Option (Bool × W)) → Option ℕ × W → Option (Bool × W)
  if_free next (none, w) = none
  if_free next (some inum, w) = let rest = next w in if inum == 0 then rest else some (false, w)

  unfoldable pub free_entries : ℕ → ℕ → ℕ → W → Option (Bool × W)
  free_entries dp zero off w = some (true, w)
  free_entries dp (suc n) off w =
      let next : W → Option (Bool × W) = λ v. free_entries dp n (off + dirent_size) v in
      if_free next (ls.read_entry dp off w)

  abbrev pub isdirempty : ℕ → W → Option (Bool × W)
  isdirempty dp w =
      let start = dirent_size + dirent_size in
      free_entries dp (((fs.inode dp w).content.size + (dirent_size - 1) - start) / dirent_size)
        start w

  abbrev pub after_clear : ℕ → ℕ → Bool × W → Option (ℤ × W)
  after_clear dp ip (false, w) = none
  after_clear dp ip (true, w) =
      let w' = if int_eq (type_of ip w) fs.t_dir then with_nlink int_pred dp w else w in
      some (success, fs.end_op (fs.iunlockput ip (with_nlink int_pred ip (fs.iunlockput dp w'))))

  abbrev pub if_empty : ℕ → ℕ → ℕ → Option (Bool × W) → Option (ℤ × W)
  if_empty dp ip off none = none
  if_empty dp ip off (some (false, w)) = some (give_up fs dp (fs.iunlockput ip w))
  if_empty dp ip off (some (true, w)) = after_clear dp ip (ls.clear_entry dp off w)

  abbrev pub unlink_target : ℕ → ℕ → ℕ → W → Option (ℤ × W)
  unlink_target dp ip off w =
      let empty = if int_eq (type_of ip w) fs.t_dir then isdirempty ip w else some (true, w) in
      if ltb_ℤ (fs.inode ip w).content.nlink (pos 1) then none else if_empty dp ip off empty

  abbrev pub unlink_found : ℕ → Option (ℕ × ℕ) × W → Option (ℤ × W)
  unlink_found dp (none, w) = some (give_up fs dp w)
  unlink_found dp (some (ip, off), w) = unlink_target dp ip off (fs.ilock ip w)

  abbrev pub unlink_from : ℕ → List ℕ → W → Option (ℤ × W)
  unlink_from dp name w =
      if namecmp_equal name dot || namecmp_equal name dotdot
      then some (give_up fs dp w)
      else unlink_found dp (ls.dirlookup dp name w)

  abbrev pub unlink_in : Option (ℕ × List ℕ) × W → Option (ℤ × W)
  unlink_in (none, w) = some (failure, fs.end_op w)
  unlink_in (some (dp, name), w) = unlink_from dp name (fs.ilock dp w)

  unfoldable pub sys_unlink : Option CharList → W → Option (ℤ × W)
  sys_unlink none w = some (failure, w)
  sys_unlink (some path) w = unlink_in (ls.nameiparent path (fs.begin_op w))

  -- `create`, from its end.
  abbrev pub fail_create : ℕ → ℕ → W → Option ℕ × W
  fail_create dp ip w = (none, fs.iunlockput dp (fs.iunlockput ip (with_nlink (λ n. pos 0) ip w)))

  abbrev pub entered : ℤ → ℕ → ℕ → Bool × W → Option ℕ × W
  entered kind dp ip (false, w) = fail_create dp ip w
  entered kind dp ip (true, w) =
      (some ip, fs.iunlockput dp (if int_eq kind fs.t_dir then with_nlink int_succ dp w else w))

  abbrev pub with_dotdot : ℤ → ℕ → ℕ → List ℕ → Bool × W → Option ℕ × W
  with_dotdot kind dp ip name (false, w) = fail_create dp ip w
  with_dotdot kind dp ip name (true, w) =
      entered kind dp ip (ls.dirlink dp name (fs.inode ip w).inum w)

  abbrev pub with_dot : ℤ → ℕ → ℕ → List ℕ → Bool × W → Option ℕ × W
  with_dot kind dp ip name (false, w) = fail_create dp ip w
  with_dot kind dp ip name (true, w) =
      with_dotdot kind dp ip name (ls.dirlink ip dotdot (fs.inode dp w).inum w)

  abbrev pub fill : ℤ → ℤ → ℤ → ℕ → ℕ → List ℕ → W → Option ℕ × W
  fill kind major' minor' dp ip name w =
      let c = (fs.inode ip w).content in
      let w' =
        ls.iupdate ip
          (ls.set_content ip (record c { major = major'; minor = minor'; nlink = pos 1 }) w) in
      if int_eq kind fs.t_dir
      then with_dot kind dp ip name (ls.dirlink ip dot (fs.inode ip w').inum w')
      else entered kind dp ip (ls.dirlink dp name (fs.inode ip w').inum w')

  abbrev pub with_new : ℤ → ℤ → ℤ → ℕ → List ℕ → Option ℕ × W → Option ℕ × W
  with_new kind major' minor' dp name (none, w) = (none, fs.iunlockput dp w)
  with_new kind major' minor' dp name (some ip, w) =
      fill kind major' minor' dp ip name (fs.ilock ip w)

  abbrev pub existing : ℤ → ℕ → W → Option ℕ × W
  existing kind ip w =
      if int_eq kind fs.t_file
        && (int_eq (type_of ip w) fs.t_file || int_eq (type_of ip w) fs.t_device)
      then (some ip, w)
      else (none, fs.iunlockput ip w)

  abbrev pub create_unless : ℤ → ℤ → ℤ → ℕ → List ℕ → Option (ℕ × ℕ) × W → Option ℕ × W
  create_unless kind major' minor' dp name (some (ip, off), w) =
      existing kind ip (fs.ilock ip (fs.iunlockput dp w))
  create_unless kind major' minor' dp name (none, w) =
      with_new kind major' minor' dp name (ls.ialloc (fs.inode dp w).dev kind w)

  abbrev pub create_in : ℤ → ℤ → ℤ → Option (ℕ × List ℕ) × W → Option ℕ × W
  create_in kind major' minor' (none, w) = (none, w)
  create_in kind major' minor' (some (dp, name), w) =
      create_unless kind major' minor' dp name (ls.dirlookup dp name (fs.ilock dp w))

  unfoldable pub create : CharList → ℤ → ℤ → ℤ → W → Option ℕ × W
  create path kind major' minor' w = create_in kind major' minor' (ls.nameiparent path w)

  abbrev pub created : Option ℕ × W → ℤ × W
  created (none, w) = (failure, fs.end_op w)
  created (some ip, w) = (success, fs.end_op (fs.iunlockput ip w))

  unfoldable pub sys_mkdir : Option CharList → W → ℤ × W
  sys_mkdir none w = (failure, fs.end_op (fs.begin_op w))
  sys_mkdir (some path) w = created (create path fs.t_dir (pos 0) (pos 0) (fs.begin_op w))

  unfoldable pub sys_mknod : Option CharList → ℤ → ℤ → W → ℤ × W
  sys_mknod none major' minor' w = (failure, fs.end_op (fs.begin_op w))
  sys_mknod (some path) major' minor' w =
      created (create path fs.t_device (short_of major') (short_of minor') (fs.begin_op w))

  -- With the working directory before and after.
  abbrev pub chdir_locked : ℕ → ℕ → W → ℤ × ℕ × W
  chdir_locked cwd ip w =
      if int_eq (type_of ip w) fs.t_dir
      then (success, ip, fs.end_op (ls.iput cwd (fs.iunlock ip w)))
      else (failure, cwd, fs.end_op (fs.iunlockput ip w))

  abbrev pub chdir_to : ℕ → Option ℕ × W → ℤ × ℕ × W
  chdir_to cwd (none, w) = (failure, cwd, fs.end_op w)
  chdir_to cwd (some ip, w) = chdir_locked cwd ip (fs.ilock ip w)

  unfoldable pub sys_chdir : Option CharList → ℕ → W → ℤ × ℕ × W
  sys_chdir none cwd w = (failure, cwd, fs.end_op (fs.begin_op w))
  sys_chdir (some path) cwd w = chdir_to cwd (fs.namei path (fs.begin_op w))
