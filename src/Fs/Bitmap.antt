-- ===== src/Fs/Bitmap.antt =====
-- The bitmap of ex5/bonus/fs.c as a set of blocks.
use os_course.Prelude.{
  ℕ, zero, suc, ◌+◌, ◌*◌, ◌/◌, ◌%◌, ◌^◌, ◌<◌, ◌≤◌, ◌≡◌, ◌∙◌, sym, ap, Bool, true, false, Option,
  none, some, List, arith, ltb, ◌==◌, ◌&&◌, ◌||◌, is_unset, if◌then◌else◌, get_or, get_or-set,
  length, Bool-cases, inl, inr,
}
use mathlib.Core.Path.{subst}
use os_course.Fs.Blocks.{
  SuperBlock, Blocks, bsize, bpb, bblock, bit_of, with_bit, without_bit, marked, mark, unmark,
  find_free,
}

bit_of-with_bit : (n k j : ℕ) → bit_of (with_bit n k) j ≡ (j == k) || bit_of n j
bit_of-with_bit n zero zero = ground arith
bit_of-with_bit n zero (suc j) =
    ap (λ x. bit_of x j) {x = (n / 2 * 2 + 1) / 2} {y = n / 2} (omega arith) ∙ ground arith
bit_of-with_bit n (suc k) zero = ground arith
bit_of-with_bit n (suc k) (suc j) =
    ap (λ x. bit_of x j) {x = (with_bit (n / 2) k * 2 + n % 2) / 2} {y = with_bit (n / 2) k}
      (omega arith)
    ∙ ground (arith, bit_of-with_bit (n / 2) k j)

bit_of-without_bit : (n k j : ℕ) → bit_of (without_bit n k) j ≡ is_unset (j == k) && bit_of n j
bit_of-without_bit n zero zero = ground arith
bit_of-without_bit n zero (suc j) =
    ap (λ x. bit_of x j) {x = (n / 2 * 2) / 2} {y = n / 2} (omega arith) ∙ ground arith
bit_of-without_bit n (suc k) zero = ground arith
bit_of-without_bit n (suc k) (suc j) =
    ap (λ x. bit_of x j) {x = (without_bit (n / 2) k * 2 + n % 2) / 2} {y = without_bit (n / 2) k}
      (omega arith)
    ∙ ground (arith, bit_of-without_bit (n / 2) k j)

pub marked-mark :
    (bytes : List ℕ) (bi x : ℕ)
    → bi / 8 < length bytes
    → marked (mark bytes bi) x ≡ (x == bi) || marked bytes x
unfolding marked mark
marked-mark bytes bi x h = ground (
  arith,
  get_or-set bytes (bi / 8) (with_bit (get_or bytes (bi / 8) 0) (bi % 8)) (x / 8) 0,
  bit_of-with_bit (get_or bytes (bi / 8) 0) (bi % 8) (x % 8),
)

pub marked-unmark :
    (bytes : List ℕ) (bi x : ℕ)
    → bi / 8 < length bytes
    → marked (unmark bytes bi) x ≡ is_unset (x == bi) && marked bytes x
unfolding marked unmark
marked-unmark bytes bi x h = ground (
  arith,
  get_or-set bytes (bi / 8) (without_bit (get_or bytes (bi / 8) 0) (bi % 8)) (x / 8) 0,
  bit_of-without_bit (get_or bytes (bi / 8) 0) (bi % 8) (x % 8),
)

abbrev pub FoundFree : List ℕ → ℕ → ℕ → ℕ → ℕ → Option ℕ → Type 0
FoundFree bytes size b n bi none =
    (x : ℕ) → bi ≤ x → x < bi + n → b + x < size → marked bytes x ≡ true
FoundFree bytes size b n bi (some y) =
    (bi ≤ y)
    × (y < bi + n)
    × (b + y < size)
    × (marked bytes y ≡ false)
    × ((x : ℕ) → bi ≤ x → x < y → marked bytes x ≡ true)

next-FoundFree :
    (bytes : List ℕ) (size b n bi : ℕ) (r : Option ℕ)
    → marked bytes bi ≡ true
    → FoundFree bytes size b n (suc bi) r
    → FoundFree bytes size b (suc n) bi r
next-FoundFree bytes size b n bi none h v = λ x l u s. elim (Bool-cases (x == bi)) [
  | inl e ↦ ap (λ y. marked bytes y) {x = x} {y = bi} (ground (arith, e)) ∙ h
  | inr e ↦ v x (ground (arith, e, l)) (omega arith) s
]
next-FoundFree bytes size b n bi (some y) h (low, up, inside, free, before) = (
  omega arith,
  omega arith,
  inside,
  free,
  λ x l u. elim (Bool-cases (x == bi)) [
    | inl e ↦ ap (λ y. marked bytes y) {x = x} {y = bi} (ground (arith, e)) ∙ h
    | inr e ↦ before x (ground (arith, e, l)) u
  ],
)

pub find_free-FoundFree :
    (bytes : List ℕ) (size b n bi : ℕ) → FoundFree bytes size b n bi (find_free bytes size b n bi)
unfolding find_free
find_free-FoundFree bytes size b zero bi = λ x l u s. absurd (omega arith)
find_free-FoundFree bytes size b (suc n) bi =
    let rest = find_free bytes size b n (suc bi) in
    elim (Bool-cases (ltb (b + bi) size)) [
      | inr e ↦
          subst
            (λ c.
              FoundFree bytes size b (suc n) bi
                (if c then (if marked bytes bi then rest else some bi) else none))
            (sym e) (λ x l u s. absurd (ground (arith, e, l, s)))
      | inl e ↦
          subst
            (λ c.
              FoundFree bytes size b (suc n) bi
                (if c then (if marked bytes bi then rest else some bi) else none))
            (sym e)
            (elim (Bool-cases (marked bytes bi)) [
              | inl h ↦
                  subst (λ c. FoundFree bytes size b (suc n) bi (if c then rest else some bi))
                    (sym h)
                    (next-FoundFree bytes size b n bi rest h
                      (find_free-FoundFree bytes size b n (suc bi)))
              | inr h ↦
                  subst (λ c. FoundFree bytes size b (suc n) bi (if c then rest else some bi))
                    (sym h)
                    (omega arith, omega arith, ground (arith, e), h, λ x l u. absurd (omega arith))
            ])
    ]

-- Whether block `x` of the disk is in use.
abbrev pub in_use : SuperBlock → Blocks → ℕ → Bool
in_use sb blocks x = marked (blocks (bblock sb x)) (x % bpb)

-- A disk as mkfs makes it: an `int` numbers its blocks, with a stretch of the bitmap to spare, the bitmap is where block numbers can reach it, its blocks are whole, on the
-- disk and in use.
pub record Laid (sb : SuperBlock) (blocks : Blocks) : Type 0 where
  pub small : sb.size + bpb ≤ 2 ^ 31
  pub reach : sb.size / bpb + sb.bmapstart < 2 ^ 32
  pub whole : (x : ℕ) → length (blocks (bblock sb x)) ≡ bsize
  pub kept : (x : ℕ) → x < sb.size → in_use sb blocks (bblock sb x) ≡ true

-- Two blocks have their bits in one block of the bitmap just where they lie in one stretch of it.
pub bblock-eq :
    (sb : SuperBlock) (x y : ℕ)
    → sb.size / bpb + sb.bmapstart < 2 ^ 32
    → x < sb.size
    → y < sb.size
    → (bblock sb x == bblock sb y) ≡ (x / bpb == y / bpb)
bblock-eq sb x y reach hx hy = ground arith
