-- ===== src/Fs/Content/Entry.antt =====
-- The entries of the indirect block of ex5/bonus/fs.c.
use os_course.Prelude.{
  ℕ, zero, suc, ◌+◌, ◌*◌, ◌/◌, ◌%◌, ◌^◌, ◌<◌, ◌≡◌, ◌≢◌, ◌∙◌, ap, refl, List, arith, get_or,
  get_or-set, get_or-set_here, set, length, length-set, replicate,
}
use os_course.Fs.Content.{uint_at, with_uint}

pub length-with_uint : (a : List ℕ) (k n : ℕ) → length (with_uint a k n) ≡ length a
unfolding with_uint
length-with_uint a k n =
    length-set
      (set (set (set a (4 * k) (n % 256)) (4 * k + 1) (n / 256 % 256)) (4 * k + 2)
        (n / 65536 % 256))
      (4 * k + 3) (n / 16777216 % 256)
    ∙ length-set (set (set a (4 * k) (n % 256)) (4 * k + 1) (n / 256 % 256)) (4 * k + 2)
        (n / 65536 % 256)
    ∙ length-set (set a (4 * k) (n % 256)) (4 * k + 1) (n / 256 % 256)
    ∙ length-set a (4 * k) (n % 256)

get_or-set_beyond : (xs : List ℕ) (i v j : ℕ) → i ≢ j → get_or (set xs i v) j 0 ≡ get_or xs j 0
get_or-set_beyond xs i v j h = ground (arith, get_or-set xs i v j 0, h)

four_bytes :
    (n : ℕ)
    → n < 2 ^ 32
    → n % 256 + 256 * (n / 256 % 256) + 65536 * (n / 65536 % 256) + 16777216 * (n / 16777216 % 256)
      ≡ n
four_bytes n small = omega arith

pub uint_at-with_uint :
    (a : List ℕ) (k n : ℕ) → 4 * k + 3 < length a → n < 2 ^ 32 → uint_at (with_uint a k n) k ≡ n
unfolding with_uint uint_at
uint_at-with_uint a k n h small =
    let b0 = set a (4 * k) (n % 256) in
    let b1 = set b0 (4 * k + 1) (n / 256 % 256) in
    let b2 = set b1 (4 * k + 2) (n / 65536 % 256) in
    let v3 = n / 16777216 % 256 in
    let l0 = length-set a (4 * k) (n % 256) in
    let l1 = length-set b0 (4 * k + 1) (n / 256 % 256) in
    let l2 = length-set b1 (4 * k + 2) (n / 65536 % 256) in
    let e3 = get_or-set_here b2 (4 * k + 3) v3 0 (omega (arith, h, l0, l1, l2)) in
    let e2 =
      get_or-set_beyond b2 (4 * k + 3) v3 (4 * k + 2) (omega arith)
      ∙ get_or-set_here b1 (4 * k + 2) (n / 65536 % 256) 0 (omega (arith, h, l0, l1)) in
    let e1 =
      get_or-set_beyond b2 (4 * k + 3) v3 (4 * k + 1) (omega arith)
      ∙ get_or-set_beyond b1 (4 * k + 2) (n / 65536 % 256) (4 * k + 1) (omega arith)
      ∙ get_or-set_here b0 (4 * k + 1) (n / 256 % 256) 0 (omega (arith, h, l0)) in
    let e0 =
      get_or-set_beyond b2 (4 * k + 3) v3 (4 * k) (omega arith)
      ∙ get_or-set_beyond b1 (4 * k + 2) (n / 65536 % 256) (4 * k) (omega arith)
      ∙ get_or-set_beyond b0 (4 * k + 1) (n / 256 % 256) (4 * k) (omega arith)
      ∙ get_or-set_here a (4 * k) (n % 256) 0 (omega (arith, h)) in
    ap
      (λ z.
        z
        + 256 * get_or (set b2 (4 * k + 3) v3) (4 * k + 1) 0
        + 65536 * get_or (set b2 (4 * k + 3) v3) (4 * k + 2) 0
        + 16777216 * get_or (set b2 (4 * k + 3) v3) (4 * k + 3) 0)
      e0
    ∙ ap
        (λ z.
          n % 256
          + 256 * z
          + 65536 * get_or (set b2 (4 * k + 3) v3) (4 * k + 2) 0
          + 16777216 * get_or (set b2 (4 * k + 3) v3) (4 * k + 3) 0)
        e1
    ∙ ap
        (λ z.
          n % 256
          + 256 * (n / 256 % 256)
          + 65536 * z
          + 16777216 * get_or (set b2 (4 * k + 3) v3) (4 * k + 3) 0)
        e2
    ∙ ap (λ z. n % 256 + 256 * (n / 256 % 256) + 65536 * (n / 65536 % 256) + 16777216 * z) e3
    ∙ four_bytes n small

get_or-replicate : (m k : ℕ) → get_or (replicate {A = ℕ} m 0) k 0 ≡ 0
get_or-replicate zero k = refl
get_or-replicate (suc m) zero = refl
get_or-replicate (suc m) (suc k) = get_or-replicate m k

pub uint_at-replicate : (m k : ℕ) → uint_at (replicate m 0) k ≡ 0
unfolding uint_at
uint_at-replicate m k = omega (
  arith,
  get_or-replicate m (4 * k),
  get_or-replicate m (4 * k + 1),
  get_or-replicate m (4 * k + 2),
  get_or-replicate m (4 * k + 3),
)
