-- ===== src/Fs/Content/Map.antt =====
-- Which block holds which byte of a file in ex5/bonus/fs.c.
use os_course.Prelude.{
  ℕ, ◌+◌, ◌-◌, ◌*◌, ◌/◌, ◌%◌, ◌<◌, ◌≤◌, ◌≡◌, ◌≢◌, ◌∙◌, sym, ap, arith, false, some, List, ltb, leb,
  ◌==◌, ◌&&◌, if◌then◌else◌, length, get_or, Bool-cases, inl, inr,
}
use mathlib.Core.Path.{subst}
use os_course.Fs.{DiskInode, ndirect}
use os_course.Fs.Blocks.{SuperBlock, Blocks, bsize, write}
use os_course.Fs.Content.{maxfile, uint_at, bmap, overlay}
use os_course.Fs.Content.Bytes.{length-overlay, get_or-overlay}

abbrev pub addr_of : DiskInode → Blocks → ℕ → ℕ
addr_of c blocks bn =
    if ltb bn ndirect
    then get_or c.addrs bn 0
    else uint_at (blocks (get_or c.addrs ndirect 0)) (bn - ndirect)

-- Byte `x` of the file, counted from 0.
abbrev pub byte_at : DiskInode → Blocks → ℕ → ℕ
byte_at c blocks x = get_or (blocks (addr_of c blocks (x / bsize))) (x % bsize) 0

-- The first `limit` blocks of the file are there, each for itself and apart from the indirect block.
pub record Mapped (c : DiskInode) (blocks : Blocks) (limit : ℕ) : Type 0 where
  pub small : limit ≤ maxfile
  pub found : (bn : ℕ) → bn < limit → 0 < addr_of c blocks bn
  pub tree : ndirect < limit → 0 < get_or c.addrs ndirect 0
  pub apart : (a b : ℕ) → a < limit → b < limit → addr_of c blocks a ≡ addr_of c blocks b → a ≡ b
  pub clear :
      (bn : ℕ)
      → bn < limit
      → ndirect < limit
      → (get_or c.addrs ndirect 0 == addr_of c blocks bn) ≡ false
  pub whole : (b : ℕ) → length (blocks b) ≡ bsize

pub bmap-Mapped :
    (sb : SuperBlock) (c : DiskInode) (blocks : Blocks) (limit bn : ℕ)
    → Mapped c blocks limit
    → bn < limit
    → bmap sb bn c blocks ≡ some (addr_of c blocks bn, c, blocks)
unfolding bmap
bmap-Mapped sb c blocks limit bn m h = ground (arith, m.small, m.found bn h, m.tree, h)

-- A window whose bytes are given in another way.
pub chosen :
    (f g : ℕ → ℕ) (d src off m n x : ℕ)
    → n ≡ m
    → ((i : ℕ) → i < m → f i ≡ g (src + i))
    → (if leb off x && ltb x (off + n) then f (x - off) else d)
      ≡ (if leb off x && ltb x (off + m) then g (src + (x - off)) else d)
chosen f g d src off m n x long same = elim (Bool-cases (ltb (x - off) m)) [
  | inl e ↦ ground (arith, long, same (x - off) (ground (arith, e)))
  | inr e ↦ ground (arith, long, e)
]

-- A window of `n` bytes at `o` of a block, seen from the block and from the file.
window :
    (f : ℕ → ℕ) (d base r o n x : ℕ)
    → x ≡ base + r
    → (if leb o r && ltb r (o + n) then f (r - o) else d)
      ≡ (if leb (base + o) x && ltb x (base + o + n) then f (x - (base + o)) else d)
window f d base r o n x e = ground (arith, e, ap f {x = r - o} {y = x - (base + o)} (omega arith))

outside_window :
    (a d bn o n x : ℕ)
    → x / bsize ≢ bn
    → o + n ≤ bsize
    → d ≡ (if leb (bn * bsize + o) x && ltb x (bn * bsize + o + n) then a else d)
outside_window a d bn o n x other fits = ground (arith, other, fits)

module _ (c : DiskInode) (blocks : Blocks) (limit bn o : ℕ) (bytes : List ℕ)
    (m : Mapped c blocks limit) (h : bn < limit) where
  abbrev pub after : Blocks
  after = write (addr_of c blocks bn) (overlay (blocks (addr_of c blocks bn)) o bytes) blocks

  pub addr_of-after : (b : ℕ) → b < limit → addr_of c after b ≡ addr_of c blocks b
  addr_of-after b hb =
      let tree = get_or c.addrs ndirect 0 in
      let both =
        λ (z : List ℕ). if ltb b ndirect then get_or c.addrs b 0 else uint_at z (b - ndirect) in
      elim (Bool-cases (ltb b ndirect)) [
        | inl e ↦
            ap (λ t. if t then get_or c.addrs b 0 else uint_at (after tree) (b - ndirect)) e
            ∙ ap (λ t. if t then get_or c.addrs b 0 else uint_at (blocks tree) (b - ndirect))
                (sym e)
        | inr e ↦
            ap
              (λ t.
                both (if t then overlay (blocks (addr_of c blocks bn)) o bytes else blocks tree))
              (m.clear bn h (ground (arith, e, hb)))
      ]

  pub after-Mapped : Mapped c after limit
  after-Mapped = record {
    small = m.small;
    found = λ b hb. subst (λ z. 0 < z) (sym (addr_of-after b hb)) (m.found b hb);
    tree = m.tree;
    apart = λ a b ha hb e. m.apart a b ha hb (sym (addr_of-after a ha) ∙ e ∙ addr_of-after b hb);
    clear =
        λ b hb hl. ap (λ z. get_or c.addrs ndirect 0 == z) (addr_of-after b hb) ∙ m.clear b hb hl;
    whole = λ b. elim (Bool-cases (b == addr_of c blocks bn)) [
      | inl e ↦
          ap (λ t. length (if t then overlay (blocks (addr_of c blocks bn)) o bytes else blocks b))
            e
          ∙ length-overlay (blocks (addr_of c blocks bn)) o bytes
          ∙ m.whole (addr_of c blocks bn)
      | inr e ↦
          ap (λ t. length (if t then overlay (blocks (addr_of c blocks bn)) o bytes else blocks b))
            e
          ∙ m.whole b
    ];
  }

  -- What one write into block `bn` does to each byte of the file.
  pub byte_at-after :
      (x : ℕ)
      → x < limit * bsize
      → o + length bytes ≤ bsize
      → byte_at c after x ≡ (
          if leb (bn * bsize + o) x && ltb x (bn * bsize + o + length bytes)
          then get_or bytes (x - (bn * bsize + o)) 0
          else byte_at c blocks x)
  byte_at-after x hx fits =
      let at = addr_of c blocks (x / bsize) in
      let here = addr_of c blocks bn in
      let new = overlay (blocks here) o bytes in
      ap (λ z. get_or (after z) (x % bsize) 0) (addr_of-after (x / bsize) (omega arith))
      ∙ elim (Bool-cases (at == here)) [
        | inl e ↦
            let same : x / bsize ≡ bn =
              m.apart (x / bsize) bn (omega arith) h (ground (arith, e)) in
            ap (λ t. get_or (if t then new else blocks at) (x % bsize) 0) e
            ∙ get_or-overlay (blocks here) o bytes (x % bsize) (omega (arith, m.whole here))
            ∙ ap
                (λ b.
                  if leb o (x % bsize) && ltb (x % bsize) (o + length bytes)
                  then get_or bytes (x % bsize - o) 0
                  else get_or (blocks (addr_of c blocks b)) (x % bsize) 0)
                (sym same)
            ∙ window (λ j. get_or bytes j 0) (byte_at c blocks x) (bn * bsize) (x % bsize) o
                (length bytes) x (omega (arith, same))
        | inr e ↦
            ap (λ t. get_or (if t then new else blocks at) (x % bsize) 0) e
            ∙ outside_window (get_or bytes (x - (bn * bsize + o)) 0) (byte_at c blocks x) bn o
                (length bytes) x
                (λ same. absurd (ground (arith, e, ap (λ b. addr_of c blocks b) same))) fits
      ]
