-- ===== src/Copytree.antt =====
-- ex5/copytree.c over the system calls that it makes. A path and a name are texts without their final
-- 0; an `int` flag is whether it is set.
pub mod Tree
pub mod Blocks
pub mod Entries
pub mod Whole
pub mod Main
mod Tests
use os_course.Prelude.{
  ℕ, zero, suc, ◌+◌, ◌-◌, ◌≡◌, Bool, true, false, Option, none, some, List, [], ◌∷◌, ◌++◌, CharList,
  ◌==◌, ◌&&◌, ◌||◌, is_unset, if◌then◌else◌, length, take,
}
use os_course.Prelude.Int.{ℤ, pos}
use os_course.Prelude.Word.{int_eq}

-- What the code asks of a `st_mode`.
pub data Kind : Type 0 where
  is_link : Kind
  is_dir : Kind
  is_other : Kind

pub record Stat : Type 0 where
  pub kind : Kind
  pub mode : ℕ

-- The calls of `perror`, in the order of the code.
pub data Error : Type 0 where
  lstat_failed readlink_failed symlink_failed open_src_failed open_dest_failed : Error
  write_failed read_failed chmod_failed stat_failed : Error
  stat_dir_failed mkdir_failed opendir_failed lstat_entry_failed : Error

-- The system with the state `W`. `readlink` and `read` are given the size of the buffer; `read` is nothing
-- on an error, and no bytes at the end of the file; `open_dest` is the call with O_WRONLY, O_CREAT, O_TRUNC
-- and 0644. `opendir` gives the names that the calls of `readdir` on it will give.
pub record Posix (W : Type 0) : Type 0 where
  pub lstat : CharList → W → Option Stat
  pub stat : CharList → W → Option Stat
  pub readlink : CharList → ℕ → W → Option CharList
  pub symlink : CharList → CharList → W → Bool × W
  pub open_src : CharList → W → Option ℕ × W
  pub open_dest : CharList → W → Option ℕ × W
  pub read : ℕ → ℕ → W → Option CharList × W
  pub write : ℕ → CharList → W → ℤ × W
  pub close : ℕ → W → W
  pub chmod : CharList → ℕ → W → Bool × W
  pub mkdir : CharList → ℕ → W → Bool × W
  pub opendir : CharList → W → Option (List CharList) × W
  pub closedir : CharList → W → W
  pub perror : Error → W → W

abbrev pub path_max : ℕ
path_max = 4096

abbrev pub kind_link : Kind → Bool
kind_link is_link = true
kind_link _ = false

abbrev pub kind_dir : Kind → Bool
kind_dir is_dir = true
kind_dir _ = false

-- `snprintf` of "%s/%s"
abbrev pub join : CharList → CharList → CharList
join dir name = take (path_max - 1) (dir ++ 47 ∷ name)

-- "." and ".."
abbrev pub is_dots : CharList → Bool
is_dots (a ∷ []) = a == 46
is_dots (a ∷ b ∷ []) = a == 46 && b == 46
is_dots _ = false

abbrev pub leads_to_dir : Option Stat → Bool
leads_to_dir none = false
leads_to_dir (some st) = kind_dir st.kind

module _ {W : Type 0} (os : Posix W) (copy_symlinks copy_permissions : Bool) where
  -- A call without a result, and the report if it failed.
  abbrev pub checked : Error → Bool × W → W
  checked e (true, w) = w
  checked e (false, w) = os.perror e w

  abbrev pub copy_link : CharList → W → Option CharList → W
  copy_link dest w none = os.perror readlink_failed w
  copy_link dest w (some target) = checked symlink_failed (os.symlink target dest w)

  -- The loop over the blocks of a file, with the way on as `next`; `false` is the early return.
  abbrev pub after_write : (W → Option (Bool × W)) → ℕ → ℤ × W → Option (Bool × W)
  after_write next n (count, w) =
      if int_eq count (pos n) then next w else some (false, os.perror write_failed w)

  abbrev pub after_read : (W → Option (Bool × W)) → ℕ → Option CharList × W → Option (Bool × W)
  after_read next dest_fd (none, w) = some (true, os.perror read_failed w)
  after_read next dest_fd (some [], w) = some (true, w)
  after_read next dest_fd (some (b ∷ bs), w) =
      after_write next (suc (length bs)) (os.write dest_fd (b ∷ bs) w)

  -- `none` once the turns are used up.
  unfoldable pub copy_blocks : ℕ → ℕ → ℕ → W → Option (Bool × W)
  copy_blocks zero src_fd dest_fd w = none
  copy_blocks (suc turns) src_fd dest_fd w =
      let next : W → Option (Bool × W) = λ v. copy_blocks turns src_fd dest_fd v in
      after_read next dest_fd (os.read src_fd 4096 w)

  abbrev pub set_mode_of : CharList → W → Option Stat → W
  set_mode_of dest w none = os.perror stat_failed w
  set_mode_of dest w (some st) = checked chmod_failed (os.chmod dest st.mode w)

  -- The end of `copy_file`.
  abbrev pub after_blocks : CharList → CharList → ℕ → ℕ → Option (Bool × W) → Option W
  after_blocks src dest src_fd dest_fd none = none
  after_blocks src dest src_fd dest_fd (some (done, w)) =
      let w' = os.close dest_fd (os.close src_fd w) in
      some (if done && copy_permissions then set_mode_of dest w' (os.stat src w') else w')

  abbrev pub with_dest : ℕ → CharList → CharList → ℕ → Option ℕ × W → Option W
  with_dest turns src dest src_fd (none, w) = some (os.close src_fd (os.perror open_dest_failed w))
  with_dest turns src dest src_fd (some dest_fd, w) =
      after_blocks src dest src_fd dest_fd (copy_blocks turns src_fd dest_fd w)

  abbrev pub with_src : ℕ → CharList → CharList → Option ℕ × W → Option W
  with_src turns src dest (none, w) = some (os.perror open_src_failed w)
  with_src turns src dest (some src_fd, w) = with_dest turns src dest src_fd (os.open_dest dest w)

  abbrev pub copy_stat : ℕ → CharList → CharList → W → Option Stat → Option W
  copy_stat turns src dest w none = some (os.perror lstat_failed w)
  copy_stat turns src dest w (some st) =
      if kind_link st.kind && copy_symlinks
      then some (copy_link dest w (os.readlink src (path_max - 1) w))
      else with_src turns src dest (os.open_src src w)

  unfoldable pub copy_file : ℕ → CharList → CharList → W → Option W
  copy_file turns src dest w = copy_stat turns src dest w (os.lstat src w)

  -- Whether an entry is copied as a directory.
  abbrev pub is_directory : CharList → Stat → W → Bool
  is_directory src st w =
      kind_dir st.kind
      || kind_link st.kind && is_unset copy_symlinks && leads_to_dir (os.stat src w)

  -- `down` is `copy_directory`.
  abbrev pub copy_entry_stat :
      (CharList → CharList → W → Option W) → ℕ → CharList → CharList → W → Option Stat → Option W
  copy_entry_stat down turns src dest w none = some (os.perror lstat_entry_failed w)
  copy_entry_stat down turns src dest w (some st) =
      if is_directory src st w then down src dest w else copy_file turns src dest w

  abbrev pub copy_entry :
      (CharList → CharList → W → Option W) → ℕ → CharList → CharList → CharList → W → Option W
  copy_entry down turns src dest name w =
      if is_dots name
      then some w
      else copy_entry_stat down turns (join src name) (join dest name) w
          (os.lstat (join src name) w)

  abbrev pub and_then : Option W → (W → Option W) → Option W
  and_then none next = none
  and_then (some w) next = next w

  unfoldable pub copy_entries :
      (CharList → CharList → W → Option W) → ℕ → CharList → CharList → List CharList → W → Option W
  copy_entries down turns src dest [] w = some (os.closedir src w)
  copy_entries down turns src dest (name ∷ names) w =
      let next : W → Option W = λ v. copy_entries down turns src dest names v in
      and_then (copy_entry down turns src dest name w) next

  abbrev pub with_entries :
      (CharList → CharList → W → Option W)
      → ℕ
      → CharList
      → CharList
      → Option (List CharList) × W
      → Option W
  with_entries down turns src dest (none, w) = some (os.perror opendir_failed w)
  with_entries down turns src dest (some names, w) = copy_entries down turns src dest names w

  abbrev pub with_directory :
      (CharList → CharList → W → Option W) → ℕ → CharList → CharList → Bool × W → Option W
  with_directory down turns src dest (false, w) = some (os.perror mkdir_failed w)
  with_directory down turns src dest (true, w) = with_entries down turns src dest (os.opendir src w)

  abbrev pub copy_directory_stat :
      (CharList → CharList → W → Option W) → ℕ → CharList → CharList → W → Option Stat → Option W
  copy_directory_stat down turns src dest w none = some (os.perror stat_dir_failed w)
  copy_directory_stat down turns src dest w (some st) =
      with_directory down turns src dest
        (os.mkdir dest (if copy_permissions then st.mode else 493) w)

  -- `depth` bounds how deep the recursion goes.
  unfoldable pub copy_directory : ℕ → ℕ → CharList → CharList → W → Option W
  copy_directory zero turns src dest w = none
  copy_directory (suc depth) turns src dest w =
      let down : CharList → CharList → W → Option W = λ s d v. copy_directory depth turns s d v in
      copy_directory_stat down turns src dest w (os.stat src w)
