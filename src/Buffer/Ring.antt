-- ===== src/Buffer/Ring.antt =====
-- Indices that go round the array of ex3/BoundedBuffer.c, counted without going round.
use os_course.Prelude.{
  ℕ, zero, suc, ◌+◌, ◌%◌, ◌<◌, ◌≤◌, ◌≡◌, ◌≢◌, refl, ap, List, [], ◌∷◌, ◌++◌, arith, length, get_or,
  take, ◌||◌, ◌==◌, Bool-cases, inl, inr,
}
use native.Mathlib.Nat.{mod-add-mod, add-mod_right}

-- Fewer than `size` positions apart, two messages never share a cell.
pub cells_differ : (size i j : ℕ) → i < j → j < i + size → i % size ≢ j % size
cells_differ size i j below near e = grind arith

pub next_cell : (size i : ℕ) → (i % size + 1) % size ≡ (i + 1) % size
next_cell size i = mod-add-mod i size 1

pub get_or-snoc_old :
    (xs : List ℕ) (x j : ℕ) → j < length xs → get_or (xs ++ x ∷ []) j 0 ≡ get_or xs j 0
get_or-snoc_old [] x j h = absurd (omega arith)
get_or-snoc_old (y ∷ xs) x zero h = refl
get_or-snoc_old (y ∷ xs) x (suc j) h = get_or-snoc_old xs x j (omega arith)

pub get_or-snoc_new : (xs : List ℕ) (x : ℕ) → get_or (xs ++ x ∷ []) (length xs) 0 ≡ x
get_or-snoc_new [] x = refl
get_or-snoc_new (y ∷ xs) x = get_or-snoc_new xs x

pub take-snoc : (xs : List ℕ) (x k : ℕ) → k ≤ length xs → take k (xs ++ x ∷ []) ≡ take k xs
take-snoc [] x zero h = refl
take-snoc [] x (suc k) h = absurd (omega arith)
take-snoc (y ∷ xs) x zero h = refl
take-snoc (y ∷ xs) x (suc k) h = ap (λ t. y ∷ t) (take-snoc xs x k (omega arith))

pub take_next :
    (xs : List ℕ) (k : ℕ) → k < length xs → take (suc k) xs ≡ take k xs ++ get_or xs k 0 ∷ []
take_next [] k h = absurd (omega arith)
take_next (y ∷ xs) zero h = refl
take_next (y ∷ xs) (suc k) h = ap (λ t. y ∷ t) (take_next xs k (omega arith))

one_lap : (size i : ℕ) → (i + size) % size ≡ i % size
one_lap size i = add-mod_right i size

-- Two indices at most `size` apart meet when they are equal or `size` apart.
pub indices_meet :
    (size r s : ℕ)
    → 0 < size
    → r ≤ s
    → s ≤ r + size
    → ((r % size) == (s % size)) ≡ ((s == r) || (s == r + size))
indices_meet size r s pos le near = elim (Bool-cases (s == r)) [
  | inl e ↦ ground arith
  | inr e ↦ elim (Bool-cases (s == r + size)) [
    | inl e' ↦ ground (arith, one_lap size r)
    | inr e' ↦ ground (arith, cells_differ size r s (ground arith) (ground arith))
  ]
]
