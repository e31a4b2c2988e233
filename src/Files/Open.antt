-- ===== src/Files/Open.antt =====
-- `sys_open` of ex5/bonus/sysfile.c, from its two arguments on, over the rest of the file system.
pub use os_course.Prelude.{CharList}
use os_course.Prelude.{
  ℕ, ◌/◌, ◌%◌, ◌^◌, Bool, true, false, Option, none, some, ◌==◌, ◌&&◌, ◌||◌, is_unset,
  if◌then◌else◌,
}
use os_course.Prelude.Int.{ℤ, pos, ltb_ℤ}
use os_course.Prelude.Word.{int_eq, failure}
use os_course.Fs.{Inode, check_permission}

-- What `sys_open` sets of `struct file`; a device has its major number, and an inode the offset 0.
pub data Kind : Type 0 where
  fd_inode : Kind
  fd_device : ℤ → Kind

pub record File : Type 0 where
  pub kind : Kind
  pub ip : ℕ
  pub readable : Bool
  pub writable : Bool

-- The file system with the state `W`. `create` is for a file, and gives its inode locked; `inode` is the
-- inode that a pointer points to. The flags are bits of the mode; they and the types are of headers that
-- are not in the repository.
pub record FileSystem (W : Type 0) : Type 0 where
  pub begin_op : W → W
  pub end_op : W → W
  pub namei : CharList → W → Option ℕ × W
  pub create : CharList → W → Option ℕ × W
  pub ilock : ℕ → W → W
  pub iunlock : ℕ → W → W
  pub iunlockput : ℕ → W → W
  pub itrunc : ℕ → W → W
  pub inode : ℕ → W → Inode
  pub filealloc : W → Option ℕ × W
  pub fdalloc : ℕ → W → Option ℕ × W
  pub fileclose : ℕ → W → W
  pub set_file : ℕ → File → W → W
  pub t_dir : ℤ
  pub t_file : ℤ
  pub t_device : ℤ
  pub ndev : ℤ
  pub o_create : ℕ
  pub o_trunc : ℕ

-- `omode & 1 << k`
abbrev pub has : ℕ → ℕ → Bool
has k omode = omode / 2 ^ k % 2 == 1

abbrev pub kind_of : Bool → ℤ → Kind
kind_of true major = fd_device major
kind_of false major = fd_inode

module _ {W : Type 0} (fs : FileSystem W) where
  abbrev pub give_up : ℕ → W → ℤ × W
  give_up ip w = (failure, fs.end_op (fs.iunlockput ip w))

  -- O_WRONLY is bit 0, and O_RDWR bit 1.
  abbrev pub new_file : ℕ → ℕ → W → File
  new_file ip omode w = record {
    kind = kind_of (int_eq (fs.inode ip w).content.type fs.t_device) (fs.inode ip w).content.major;
    ip = ip;
    readable = is_unset (has 0 omode);
    writable = has 0 omode || has 1 omode;
  }

  abbrev pub truncated : ℕ → ℕ → W → W
  truncated ip omode w =
      if has fs.o_trunc omode && int_eq (fs.inode ip w).content.type fs.t_file
      then fs.itrunc ip w
      else w

  abbrev pub with_fd : ℕ → ℕ → ℕ → Option ℕ × W → ℤ × W
  with_fd ip omode f (none, w) = give_up ip (fs.fileclose f w)
  with_fd ip omode f (some fd, w) = (
    pos fd,
    fs.end_op (fs.iunlock ip (truncated ip omode (fs.set_file f (new_file ip omode w) w))),
  )

  abbrev pub with_file : ℕ → ℕ → Option ℕ × W → ℤ × W
  with_file ip omode (none, w) = give_up ip w
  with_file ip omode (some f, w) = with_fd ip omode f (fs.fdalloc f w)

  abbrev pub bad_device : Inode → Bool
  bad_device ip =
      int_eq ip.content.type fs.t_device
      && (ltb_ℤ ip.content.major (pos 0) || is_unset (ltb_ℤ ip.content.major fs.ndev))

  abbrev pub open_locked : ℕ → ℕ → W → ℤ × W
  open_locked ip omode w =
      if ltb_ℤ (check_permission (fs.inode ip w) omode) (pos 0)
      then give_up ip w
      else (if bad_device (fs.inode ip w)
          then give_up ip w
          else with_file ip omode (fs.filealloc w))

  abbrev pub after_create : ℕ → Option ℕ × W → ℤ × W
  after_create omode (none, w) = (failure, fs.end_op w)
  after_create omode (some ip, w) = open_locked ip omode w

  abbrev pub after_namei : ℕ → Option ℕ × W → ℤ × W
  after_namei omode (none, w) = (failure, fs.end_op w)
  after_namei omode (some ip, w) =
      let w' = fs.ilock ip w in
      if int_eq (fs.inode ip w').content.type fs.t_dir && is_unset (omode == 0)
      then give_up ip w'
      else open_locked ip omode w'

  -- `path` is nothing where `argstr` fails.
  unfoldable pub sys_open : Option CharList → ℕ → W → ℤ × W
  sys_open none omode w = (failure, w)
  sys_open (some path) omode w =
      let w' = fs.begin_op w in
      if has fs.o_create omode
      then after_create omode (fs.create path w')
      else after_namei omode (fs.namei path w')
