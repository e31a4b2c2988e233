-- ===== src/Fs/Blocks.antt =====
-- The blocks of ex5/bonus/fs.c and their bitmap: `bzero`, `balloc` and `bfree`. What the buffer cache shows
-- of the one device is a function from the number of a block to its bytes; a write is logged.
use os_course.Prelude.{
  ℕ, zero, suc, ◌+◌, ◌-◌, ◌*◌, ◌/◌, ◌%◌, ◌^◌, Bool, Option, none, some, List, ltb, ◌==◌,
  if◌then◌else◌, get_or, set, replicate,
}

-- What the allocator uses of `struct superblock`.
pub record SuperBlock : Type 0 where
  pub size : ℕ
  pub bmapstart : ℕ

abbrev pub Blocks : Type 0
Blocks = ℕ → List ℕ

abbrev pub bsize : ℕ
bsize = 1024

-- `BPB`
abbrev pub bpb : ℕ
bpb = bsize * 8

-- `BBLOCK(b, sb)`
abbrev pub bblock : SuperBlock → ℕ → ℕ
bblock sb b = (b / bpb + sb.bmapstart) % 2 ^ 32

-- `BBLOCK(b, sb)` where `b` is an `int`, given by its 32 bits: the division is signed.
abbrev pub int_bblock : SuperBlock → ℕ → ℕ
int_bblock sb b =
    if ltb b (2 ^ 31) then bblock sb b else (sb.bmapstart + 2 ^ 32 - (2 ^ 32 - b) / bpb) % 2 ^ 32

-- `n >> k & 1`, `n | 1 << k` and `n & ~(1 << k)`
abbrev pub bit_of : ℕ → ℕ → Bool
bit_of n zero = n % 2 == 1
bit_of n (suc k) = bit_of (n / 2) k

abbrev pub with_bit : ℕ → ℕ → ℕ
with_bit n zero = n / 2 * 2 + 1
with_bit n (suc k) = with_bit (n / 2) k * 2 + n % 2

abbrev pub without_bit : ℕ → ℕ → ℕ
without_bit n zero = n / 2 * 2
without_bit n (suc k) = without_bit (n / 2) k * 2 + n % 2

-- Bit `bi` of a block of the bitmap.
unfoldable pub marked : List ℕ → ℕ → Bool
marked bytes bi = bit_of (get_or bytes (bi / 8) 0) (bi % 8)

unfoldable pub mark : List ℕ → ℕ → List ℕ
mark bytes bi = set bytes (bi / 8) (with_bit (get_or bytes (bi / 8) 0) (bi % 8))

unfoldable pub unmark : List ℕ → ℕ → List ℕ
unmark bytes bi = set bytes (bi / 8) (without_bit (get_or bytes (bi / 8) 0) (bi % 8))

abbrev pub write : ℕ → List ℕ → Blocks → Blocks
write bno bytes blocks b = if b == bno then bytes else blocks b

abbrev pub bzero : ℕ → Blocks → Blocks
bzero bno blocks = write bno (replicate bsize 0) blocks

-- The loop over the bits of a block of the bitmap, from `bi` on with `n` left.
unfoldable pub find_free : List ℕ → ℕ → ℕ → ℕ → ℕ → Option ℕ
find_free bytes size b zero bi = none
find_free bytes size b (suc n) bi =
    let rest = find_free bytes size b n (suc bi) in
    if ltb (b + bi) size then (if marked bytes bi then rest else some bi) else none

abbrev pub taken : SuperBlock → ℕ → Blocks → ℕ × Blocks → Option ℕ → ℕ × Blocks
taken sb b blocks rest none = rest
taken sb b blocks rest (some bi) =
    (b + bi, bzero (b + bi) (write (int_bblock sb b) (mark (blocks (int_bblock sb b)) bi) blocks))

-- The loop over the blocks of the bitmap, from block `b` of the disk on; `b` is an `int`, and its sums wrap.
unfoldable pub balloc_from : SuperBlock → ℕ → ℕ → Blocks → ℕ × Blocks
balloc_from sb zero b blocks = (0, blocks)
balloc_from sb (suc fuel) b blocks =
    let rest = balloc_from sb fuel ((b + bpb) % 2 ^ 32) blocks in
    if ltb b sb.size
    then taken sb b blocks rest (find_free (blocks (int_bblock sb b)) sb.size b bpb 0)
    else (0, blocks)

-- A turn passes over at least one block, so that `size` of them are enough.
abbrev pub balloc : SuperBlock → Blocks → ℕ × Blocks
balloc sb blocks = balloc_from sb sb.size 0 blocks

-- `none` is the panic.
unfoldable pub bfree : SuperBlock → ℕ → Blocks → Option Blocks
bfree sb b blocks =
    let bytes = blocks (bblock sb b) in
    let bi = b % bpb in
    if marked bytes bi then some (write (bblock sb b) (unmark bytes bi) blocks) else none
