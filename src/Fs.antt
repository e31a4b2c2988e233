-- ===== src/Fs.antt =====
-- The inodes of ex5/bonus/fs.c, and the permission test of sysfile.c. A pointer to an entry of the table
-- is its index; what the buffer cache shows of the inode blocks is a function of device and number.
pub mod Unique
pub mod Blocks
pub mod Bitmap
pub mod Balloc
pub mod Bfree
pub mod Content
pub mod Copy
pub mod Allocate
mod Tests
mod BlockTests
use os_course.Prelude.{
  ℕ, zero, suc, ◌+◌, ◌-◌, ◌%◌, ◌/◌, ◌^◌, ◌||◌, is_unset, ◌≡◌, Bool, true, false, Option, none, some,
  List, [], ◌∷◌, ltb, ◌==◌, ◌/◌, ◌%◌, ◌^◌, ◌||◌, is_unset, ◌&&◌, if◌then◌else◌, get_or, set,
  replicate,
}
use os_course.Prelude.Int.{ℤ, pos, negsuc, ltb_ℤ}
use os_course.Prelude.Word.{int_eq, int_succ, success, failure}

-- `struct dinode` without its padding.
pub record DiskInode : Type 0 where
  pub type : ℤ
  pub major : ℤ
  pub minor : ℤ
  pub nlink : ℤ
  pub size : ℕ
  pub addrs : List ℕ
  pub permissions : ℤ

-- `struct inode` without its lock; `content` is the copy of the disk inode.
pub record Inode : Type 0 where
  pub dev : ℕ
  pub inum : ℕ
  pub ref : ℤ
  pub valid : Bool
  pub content : DiskInode

abbrev pub Disk : Type 0
Disk = ℕ → ℕ → DiskInode

-- `NDIRECT`
abbrev pub ndirect : ℕ
ndirect = 12

-- the zeros of `memset`
abbrev pub blank : DiskInode
blank = record {
  type = pos 0;
  major = pos 0;
  minor = pos 0;
  nlink = pos 0;
  size = 0;
  addrs = replicate (ndirect + 1) 0;
  permissions = pos 0;
}

abbrev pub no_inode : Inode
no_inode = record { dev = 0; inum = 0; ref = pos 0; valid = false; content = blank }

abbrev pub inode : List Inode → ℕ → Inode
inode t k = get_or t k no_inode

-- `iget`: the test of an entry, and the free entry that the loop remembers.
abbrev pub is_used : Inode → Bool
is_used ip = ltb_ℤ (pos 0) ip.ref

abbrev pub matches : ℕ → ℕ → Inode → Bool
matches dev inum ip = is_used ip && ip.dev == dev && ip.inum == inum

abbrev pub remember : Option ℕ → ℕ → Inode → Option ℕ
remember none k ip = if int_eq ip.ref (pos 0) then some k else none
remember (some e) k ip = some e

pub data Found : Type 0 where
  hit : ℕ → Found
  recycle : ℕ → Found
  full : Found

abbrev pub end_of_table : Option ℕ → Found
end_of_table none = full
end_of_table (some e) = recycle e

-- The loop, from entry `k` on.
unfoldable pub search : ℕ → ℕ → ℕ → Option ℕ → List Inode → Found
search dev inum k empty [] = end_of_table empty
search dev inum k empty (ip ∷ t) =
    let rest = search dev inum (suc k) (remember empty k ip) t in
    if matches dev inum ip then hit k else rest

abbrev pub referenced : Inode → Inode
referenced ip = record ip { ref = int_succ ip.ref }

abbrev pub recycled : ℕ → ℕ → Inode → Inode
recycled dev' inum' ip = record ip { dev = dev'; inum = inum'; ref = pos 1; valid = false }

-- `none` is the panic.
abbrev pub take_entry : ℕ → ℕ → Found → List Inode → Option (ℕ × List Inode)
take_entry dev inum (hit k) t = some (k, set t k (referenced (inode t k)))
take_entry dev inum (recycle k) t = some (k, set t k (recycled dev inum (inode t k)))
take_entry dev inum full t = none

unfoldable pub iget : ℕ → ℕ → List Inode → Option (ℕ × List Inode)
iget dev inum t = take_entry dev inum (search dev inum 0 none t) t

unfoldable pub idup : ℕ → List Inode → List Inode
idup k t = set t k (referenced (inode t k))

-- `iupdate`
unfoldable pub iupdate : Inode → Disk → Disk
iupdate ip disk dev inum = if dev == ip.dev && inum == ip.inum then ip.content else disk dev inum

-- `ilock` of a non-null pointer, once it has the sleep lock; `none` is a panic.
abbrev pub load : Inode → Disk → Option Inode
load ip disk =
    let dip = disk ip.dev ip.inum in
    if int_eq dip.type (pos 0) then none else some (record ip { content = dip; valid = true })

unfoldable pub ilock : Inode → Disk → Option Inode
ilock ip disk = if ltb_ℤ ip.ref (pos 1) then none else (if ip.valid then some ip else load ip disk)

-- `ialloc`: the loop from inode `inum` on, with `n` left; `nothing` is its null pointer. The outer
-- `none` is the panic of `iget`.
abbrev pub fresh_inode : ℤ → DiskInode
fresh_inode kind = record blank { type = kind; permissions = pos 448 }

abbrev pub write_inode : ℕ → ℕ → DiskInode → Disk → Disk
write_inode dev inum dip disk d i = if d == dev && i == inum then dip else disk d i

abbrev pub referenced_at : Disk → Option (ℕ × List Inode) → Option (Option ℕ × Disk × List Inode)
referenced_at disk none = none
referenced_at disk (some (k, t)) = some (some k, disk, t)

unfoldable pub ialloc_from :
    ℕ → ℕ → ℕ → ℤ → Disk → List Inode → Option (Option ℕ × Disk × List Inode)
ialloc_from zero inum dev kind disk t = some (none, disk, t)
ialloc_from (suc n) inum dev kind disk t =
    let rest = ialloc_from n (suc inum) dev kind disk t in
    if int_eq (disk dev inum).type (pos 0)
    then referenced_at (write_inode dev inum (fresh_inode kind) disk) (iget dev inum t)
    else rest

unfoldable pub ialloc : ℕ → ℕ → ℤ → Disk → List Inode → Option (Option ℕ × Disk × List Inode)
ialloc ninodes dev kind disk t = ialloc_from (ninodes - 1) 1 dev kind disk t

-- Bit `n` of a short, as `>> n & 1` reads it.
abbrev pub bit_at : ℕ → ℤ → Bool
bit_at n (pos k) = (k / 2 ^ n) % 2 == 1
bit_at n (negsuc k) = (k / 2 ^ n) % 2 == 0

-- `check_permission` of ex5/bonus/sysfile.c; O_RDONLY is 0, O_WRONLY 1 and O_RDWR 2.
unfoldable pub check_permission : Inode → ℕ → ℤ
check_permission ip mode =
    let owner_read = bit_at 8 ip.content.permissions in
    let owner_write = bit_at 7 ip.content.permissions in
    if (mode == 0 || mode == 2) && is_unset owner_read
    then failure
    else (if (mode == 1 || mode == 2) && is_unset owner_write then failure else success)
