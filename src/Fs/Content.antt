-- ===== src/Fs/Content.antt =====
-- The contents of files in ex5/bonus/fs.c: `bmap`, `itrunc`, `readi` and `writei`, over the blocks that the
-- buffer cache shows. The memory that is copied from and to, `M`, is the process's or the kernel's.
pub mod Bytes
pub mod Map
pub mod Memory
pub mod Write
pub mod Read
pub mod Plain
pub mod Owned
pub mod Growth
pub mod Entry
pub mod Indirect
pub mod Allocation
pub mod Truncate
mod Tests
use os_course.Prelude.{
  ℕ, zero, suc, ◌+◌, ◌-◌, ◌*◌, ◌/◌, ◌%◌, ◌^◌, Bool, true, false, ◌||◌, Option, none, some, List, [],
  ◌∷◌, ltb, ◌==◌, if◌then◌else◌, get_or, set, take, drop,
}
use Prim.Native.Nat.{min}
use os_course.Prelude.Int.{ℤ, pos}
use os_course.Prelude.Word.{as_int, failure}
use os_course.Fs.{DiskInode, Inode, Disk, ndirect, iupdate}
use os_course.Fs.Blocks.{SuperBlock, Blocks, bsize, write, balloc, bfree}

abbrev pub nindirect : ℕ
nindirect = 256

abbrev pub maxfile : ℕ
maxfile = ndirect + nindirect

-- Entry `k` of a block that is read as an array of `uint`.
unfoldable pub uint_at : List ℕ → ℕ → ℕ
uint_at a k =
    get_or a (4 * k) 0
    + 256 * get_or a (4 * k + 1) 0
    + 65536 * get_or a (4 * k + 2) 0
    + 16777216 * get_or a (4 * k + 3) 0

unfoldable pub with_uint : List ℕ → ℕ → ℕ → List ℕ
with_uint a k n =
    set
      (set (set (set a (4 * k) (n % 256)) (4 * k + 1) (n / 256 % 256)) (4 * k + 2)
        (n / 65536 % 256))
      (4 * k + 3) (n / 16777216 % 256)

-- Entry `i` of `ip->addrs`, and a new block for it where it is 0.
abbrev pub with_addr : ℕ → ℕ → DiskInode → DiskInode
with_addr i addr ip = record ip { addrs = set ip.addrs i addr }

abbrev pub placed : ℕ → DiskInode → ℕ × Blocks → ℕ × DiskInode × Blocks
placed i ip (addr, blocks) =
    if addr == 0 then (0, ip, blocks) else (addr, with_addr i addr ip, blocks)

abbrev pub own_block : SuperBlock → ℕ → DiskInode → Blocks → ℕ × DiskInode × Blocks
own_block sb i ip blocks =
    let addr = get_or ip.addrs i 0 in
    if addr == 0 then placed i ip (balloc sb blocks) else (addr, ip, blocks)

-- Entry `k` of the indirect block `ind`, and a new block for it where it is 0.
abbrev pub placed_in : ℕ → ℕ → DiskInode → ℕ × Blocks → ℕ × DiskInode × Blocks
placed_in ind k ip (addr, blocks) =
    if addr == 0
    then (0, ip, blocks)
    else (addr, ip, write ind (with_uint (blocks ind) k addr) blocks)

abbrev pub in_indirect : SuperBlock → ℕ → ℕ × DiskInode × Blocks → ℕ × DiskInode × Blocks
in_indirect sb k (ind, ip, blocks) =
    let addr = uint_at (blocks ind) k in
    if ind == 0
    then (0, ip, blocks)
    else (if addr == 0 then placed_in ind k ip (balloc sb blocks) else (addr, ip, blocks))

-- `none` is the panic, here and below.
unfoldable pub bmap : SuperBlock → ℕ → DiskInode → Blocks → Option (ℕ × DiskInode × Blocks)
bmap sb bn ip blocks =
    if ltb bn ndirect
    then some (own_block sb bn ip blocks)
    else (if ltb (bn - ndirect) nindirect
        then some (in_indirect sb (bn - ndirect) (own_block sb ndirect ip blocks))
        else none)

abbrev pub and_then : Option Blocks → (Blocks → Option Blocks) → Option Blocks
and_then none next = none
and_then (some blocks) next = next blocks

abbrev pub free_if_set : SuperBlock → ℕ → Blocks → Option Blocks
free_if_set sb addr blocks = if addr == 0 then some blocks else bfree sb addr blocks

-- The loops of `itrunc`, over the entries of `addrs` and over those of the indirect block from `j` on.
unfoldable pub free_direct : SuperBlock → List ℕ → Blocks → Option Blocks
free_direct sb [] blocks = some blocks
free_direct sb (addr ∷ addrs) blocks =
    let next : Blocks → Option Blocks = λ v. free_direct sb addrs v in
    and_then (free_if_set sb addr blocks) next

unfoldable pub free_indirect : SuperBlock → ℕ → ℕ → ℕ → Blocks → Option Blocks
free_indirect sb ind zero j blocks = some blocks
free_indirect sb ind (suc n) j blocks =
    let next : Blocks → Option Blocks = λ v. free_indirect sb ind n (suc j) v in
    and_then (free_if_set sb (uint_at (blocks ind) j) blocks) next

abbrev pub free_tree : SuperBlock → ℕ → Blocks → Option Blocks
free_tree sb ind blocks =
    let all = and_then (free_indirect sb ind nindirect 0 blocks) (λ v. bfree sb ind v) in
    if ind == 0 then some blocks else all

abbrev pub zeros : List ℕ → List ℕ
zeros [] = []
zeros (addr ∷ addrs) = 0 ∷ zeros addrs

abbrev pub truncated_inode : Inode → Inode
truncated_inode ip = record ip {
  content = record ip.content { addrs = zeros ip.content.addrs; size = 0 };
}

abbrev pub truncated : Inode → Disk → Option Blocks → Option (Inode × Disk × Blocks)
truncated ip disk none = none
truncated ip disk (some blocks) =
    some (truncated_inode ip, iupdate (truncated_inode ip) disk, blocks)

unfoldable pub itrunc : SuperBlock → Inode → Disk → Blocks → Option (Inode × Disk × Blocks)
itrunc sb ip disk blocks = truncated ip disk (
    and_then (free_direct sb (take ndirect ip.content.addrs) blocks)
      (λ v. free_tree sb (get_or ip.content.addrs ndirect 0) v))

-- An inode that its caller has locked, with what it is read from and copied to.
pub record Held (M : Type 0) : Type 0 where
  pub ip : Inode
  pub disk : Disk
  pub blocks : Blocks
  pub memory : M

-- `memmove` onto the bytes from `o` on
abbrev pub overlay : List ℕ → ℕ → List ℕ → List ℕ
overlay [] o bytes = []
overlay (x ∷ xs) zero [] = x ∷ xs
overlay (x ∷ xs) zero (b ∷ bytes) = b ∷ overlay xs zero bytes
overlay (x ∷ xs) (suc o) bytes = x ∷ overlay xs o bytes

abbrev pub with_content : {M : Type 0} → DiskInode → Blocks → Held M → Held M
with_content c blocks h = record h { ip = record h.ip { content = c }; blocks = blocks }

module _ {M : Type 0} (copyout : ℕ → List ℕ → M → Option M) (copyin : ℕ → ℕ → M → Option (List ℕ))
    (sb : SuperBlock) where
  -- The tests before the loops keep `off` from wrapping in them.
  abbrev pub copied_out : (M → Option (ℤ × Held M)) → Held M → Option M → Option (ℤ × Held M)
  copied_out next h none = some (failure, h)
  copied_out next h (some memory) = next memory

  abbrev pub read_turn :
      (ℕ → Held M → Option (ℤ × Held M))
      → ℕ
      → ℕ
      → ℕ
      → ℕ
      → Held M
      → Option (ℕ × DiskInode × Blocks)
      → Option (ℤ × Held M)
  read_turn next n tot off dst h none = none
  read_turn next n tot off dst h (some (addr, c, blocks)) =
      let h' = with_content c blocks h in
      let m = min (n - tot) (bsize - off % bsize) in
      let chunk = take m (drop (off % bsize) (blocks addr)) in
      let rest =
        copied_out (λ v. next m (record h' { memory = v })) h' (copyout dst chunk h.memory) in
      if addr == 0 then some (as_int tot, h') else rest

  unfoldable pub read_loop : ℕ → ℕ → ℕ → ℕ → ℕ → Held M → Option (ℤ × Held M)
  read_loop zero n tot off dst h = none
  read_loop (suc turns) n tot off dst h =
      let next : ℕ → Held M → Option (ℤ × Held M) =
        λ m h'. read_loop turns n (tot + m) (off + m) ((dst + m) % 2 ^ 64) h' in
      let turn = read_turn next n tot off dst h (bmap sb (off / bsize) h.ip.content h.blocks) in
      if ltb tot n then turn else some (as_int tot, h)

  -- A turn reads at least one byte, so that one turn more than there are bytes is enough.
  unfoldable pub readi : ℕ → ℕ → ℕ → Held M → Option (ℤ × Held M)
  readi dst off n h =
      let size = h.ip.content.size in
      let n' = if ltb size ((off + n) % 2 ^ 32) then size - off else n in
      if ltb size off || ltb ((off + n) % 2 ^ 32) off
      then some (pos 0, h)
      else read_loop (suc n') n' 0 off dst h

  -- The end of `writei`.
  abbrev pub written : ℕ → ℕ → Held M → ℤ × Held M
  written tot off h =
      let c = h.ip.content in
      let ip' = record h.ip {
        content = record c { size = if ltb c.size off then off else c.size };
      } in
      (as_int tot, record h { ip = ip'; disk = iupdate ip' h.disk })

  abbrev pub copied_in :
      (List ℕ → Option (ℤ × Held M)) → ℕ → ℕ → Held M → Option (List ℕ) → Option (ℤ × Held M)
  copied_in next tot off h none = some (written tot off h)
  copied_in next tot off h (some bytes) = next bytes

  abbrev pub write_turn :
      (ℕ → Held M → Option (ℤ × Held M))
      → ℕ
      → ℕ
      → ℕ
      → ℕ
      → Held M
      → Option (ℕ × DiskInode × Blocks)
      → Option (ℤ × Held M)
  write_turn next n tot off src h none = none
  write_turn next n tot off src h (some (addr, c, blocks)) =
      let h' = with_content c blocks h in
      let m = min (n - tot) (bsize - off % bsize) in
      let put : List ℕ → Blocks =
        λ bytes. write addr (overlay (blocks addr) (off % bsize) bytes) blocks in
      let rest =
        copied_in (λ bytes. next m (record h' { blocks = put bytes })) tot off h'
          (copyin src m h.memory) in
      if addr == 0 then some (written tot off h') else rest

  unfoldable pub write_loop : ℕ → ℕ → ℕ → ℕ → ℕ → Held M → Option (ℤ × Held M)
  write_loop zero n tot off src h = none
  write_loop (suc turns) n tot off src h =
      let next : ℕ → Held M → Option (ℤ × Held M) =
        λ m h'. write_loop turns n (tot + m) (off + m) ((src + m) % 2 ^ 64) h' in
      let turn = write_turn next n tot off src h (bmap sb (off / bsize) h.ip.content h.blocks) in
      if ltb tot n then turn else some (written tot off h)

  unfoldable pub writei : ℕ → ℕ → ℕ → Held M → Option (ℤ × Held M)
  writei src off n h =
      let end = (off + n) % 2 ^ 32 in
      let run = write_loop (suc n) n 0 off src h in
      if ltb h.ip.content.size off || ltb end off
      then some (failure, h)
      else (if ltb (maxfile * bsize) end then some (failure, h) else run)
