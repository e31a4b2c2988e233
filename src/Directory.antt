-- ===== src/Directory.antt =====
-- Directories and paths of ex5/bonus/fs.c. The kernel's memory is a function from addresses to bytes, and
-- `de` is where the local `struct dirent` stands in it. A directory that is locked is held apart from its
-- entry of the table, which keeps the count of references.
pub mod Slots
pub mod Lookup
pub mod Written
pub mod Empty
pub mod Named
pub mod Link
pub mod Paths
pub mod Elements
pub mod Turns
pub mod Walk
mod Tests
use os_course.Prelude.{
  ℕ, zero, suc, ◌+◌, ◌-◌, ◌*◌, ◌/◌, ◌%◌, Bool, true, false, ◌&&◌, ◌||◌, Option, none, some, List,
  [], ◌∷◌, CharList, ltb, leb, ◌==◌, if◌then◌else◌, get_or,
}
use os_course.Prelude.Int.{ℤ, pos}
use os_course.Prelude.Word.{int_eq, success, failure}
use os_course.Fs.{Inode, iget}
use os_course.Fs.Blocks.{SuperBlock}
use os_course.Fs.Content.{Held, readi, writei}
use os_course.Files.Chmod.{Store, iput}

abbrev pub dirsiz : ℕ
dirsiz = 14

-- The size of a `struct dirent`.
abbrev pub dirent_size : ℕ
dirent_size = dirsiz + 2

abbrev pub Memory : Type 0
Memory = ℕ → ℕ

unfoldable pub bytes_from : Memory → ℕ → ℕ → List ℕ
bytes_from m a zero = []
bytes_from m a (suc n) = m a ∷ bytes_from m (suc a) n

-- `strncmp(s, t, n) == 0` on texts; a text without its final 0 ends where its list does.
abbrev pub first : List ℕ → ℕ
first [] = 0
first (a ∷ s) = a

abbrev pub others : List ℕ → List ℕ
others [] = []
others (a ∷ s) = s

unfoldable pub strncmp_equal : ℕ → List ℕ → List ℕ → Bool
strncmp_equal zero s t = true
strncmp_equal (suc n) s t =
    let rest = strncmp_equal n (others s) (others t) in first s == first t && (first s == 0 || rest)

-- `namecmp(s, t) == 0`
abbrev pub namecmp_equal : List ℕ → List ℕ → Bool
namecmp_equal s t = strncmp_equal dirsiz s t

-- `strncpy` pads with zeros.
abbrev pub strncpy : ℕ → List ℕ → List ℕ
strncpy zero s = []
strncpy (suc n) s = first s ∷ strncpy n (others s)

abbrev pub inum_in : Memory → ℕ → ℕ
inum_in m de = m de + 256 * m (de + 1)

abbrev pub name_in : Memory → ℕ → List ℕ
name_in m de = bytes_from m (de + 2) dirsiz

-- `de.name` and `de.inum`, a `ushort`, are set.
abbrev pub with_entry : ℕ → CharList → ℕ → Memory → Memory
with_entry de name inum m x =
    if leb (de + 2) x && ltb x (de + dirent_size)
    then get_or (strncpy dirsiz name) (x - (de + 2)) 0
    else (if x == de then inum % 256 else (if x == de + 1 then inum / 256 % 256 else m x))

module _ (copyout : ℕ → List ℕ → Memory → Option Memory) (copyin : ℕ → ℕ → Memory → Option (List ℕ))
    (sb : SuperBlock) (de : ℕ) (t_dir : ℤ) where
  -- `readi` of an entry; `none` is a panic, here and below.
  abbrev pub with_whole :
      {A : Type 0} → (Held Memory → Option A) → Option (ℤ × Held Memory) → Option A
  with_whole next none = none
  with_whole next (some (r, h)) =
      let rest = next h in if int_eq r (pos dirent_size) then rest else none

  abbrev pub compared :
      (Held Memory → Option (Option (ℕ × ℕ) × Held Memory))
      → CharList
      → ℕ
      → Held Memory
      → Option (Option (ℕ × ℕ) × Held Memory)
  compared next name off h =
      let rest = next h in
      let inum = inum_in h.memory de in
      if inum == 0
      then rest
      else (if namecmp_equal name (name_in h.memory de) then some (some (off, inum), h) else rest)

  -- The offset and the number of the entry.
  unfoldable pub lookup_from :
      ℕ → CharList → ℕ → Held Memory → Option (Option (ℕ × ℕ) × Held Memory)
  lookup_from zero name off h = none
  lookup_from (suc turns) name off h =
      let next : Held Memory → Option (Option (ℕ × ℕ) × Held Memory) =
        λ v. lookup_from turns name (off + dirent_size) v in
      let turn =
        with_whole (λ v. compared next name off v) (readi copyout copyin sb de off dirent_size h) in
      if ltb off h.ip.content.size then turn else some (none, h)

  abbrev pub got_inode :
      ℕ → Held Memory → Option (ℕ × List Inode) → Option (Option (ℕ × ℕ) × Held Memory × List Inode)
  got_inode off h none = none
  got_inode off h (some (k, t)) = some (some (off, k), h, t)

  abbrev pub with_found :
      List Inode
      → Option (Option (ℕ × ℕ) × Held Memory)
      → Option (Option (ℕ × ℕ) × Held Memory × List Inode)
  with_found t none = none
  with_found t (some (none, h)) = some (none, h, t)
  with_found t (some (some (off, inum), h)) = got_inode off h (iget h.ip.dev inum t)

  -- A turn passes over an entry, so that the size of the directory is fuel enough.
  unfoldable pub dirlookup :
      CharList → Held Memory → List Inode → Option (Option (ℕ × ℕ) × Held Memory × List Inode)
  dirlookup name h t =
      let run = with_found t (lookup_from (suc h.ip.content.size) name 0 h) in
      if int_eq h.ip.content.type t_dir then run else none

  -- `dirlink`: the loop that looks for an empty entry.
  abbrev pub if_used :
      (Held Memory → Option (ℕ × Held Memory)) → ℕ → Held Memory → Option (ℕ × Held Memory)
  if_used next off h = let rest = next h in if inum_in h.memory de == 0 then some (off, h) else rest

  unfoldable pub empty_from : ℕ → ℕ → Held Memory → Option (ℕ × Held Memory)
  empty_from zero off h = none
  empty_from (suc turns) off h =
      let next : Held Memory → Option (ℕ × Held Memory) =
        λ v. empty_from turns (off + dirent_size) v in
      let turn =
        with_whole (λ v. if_used next off v) (readi copyout copyin sb de off dirent_size h) in
      if ltb off h.ip.content.size then turn else some (off, h)

  abbrev pub entry_written :
      List Inode → Option (ℤ × Held Memory) → Option (ℤ × Held Memory × List Inode)
  entry_written t none = none
  entry_written t (some (r, h)) =
      some (if int_eq r (pos dirent_size) then success else failure, h, t)

  abbrev pub write_entry :
      CharList → ℕ → List Inode → Option (ℕ × Held Memory) → Option (ℤ × Held Memory × List Inode)
  write_entry name inum t none = none
  write_entry name inum t (some (off, h)) = entry_written t (
      writei copyout copyin sb de off dirent_size
        (record h { memory = with_entry de name inum h.memory }))

  module _ (itrunc : ℕ → Store → Store) where
    abbrev pub link_unless :
        CharList
        → ℕ
        → Option (Option (ℕ × ℕ) × Held Memory × List Inode)
        → Option (ℤ × Held Memory × List Inode)
    link_unless name inum none = none
    link_unless name inum (some (some (off, k), h, t)) =
        let s = iput itrunc k (record { table = t; disk = h.disk }) in
        some (failure, record h { disk = s.disk }, s.table)
    link_unless name inum (some (none, h, t)) =
        write_entry name inum t (empty_from (suc h.ip.content.size) 0 h)

    unfoldable pub dirlink :
        CharList → ℕ → Held Memory → List Inode → Option (ℤ × Held Memory × List Inode)
    dirlink name inum h t = link_unless name inum (dirlookup name h t)
