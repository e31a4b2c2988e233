-- ===== src/Buffer/Count.antt =====
-- Counting threads by where they stand in the functions of ex3/BoundedBuffer.c.
use os_course.Prelude.{
  ℕ, zero, suc, ◌+◌, ◌<◌, ◌≤◌, ◌≡◌, refl, Bool, true, false, arith, ◌==◌, Bool-cases, inl, inr,
}
use os_course.Buffer.System.{
  Pc, idle, reserved, inserting, stored, claimed, removing, taken, update,
}

-- How many of the first `n` threads stand at the places that `w` marks with 1.
abbrev pub total : (Pc → ℕ) → ℕ → (ℕ → Pc) → ℕ
total w zero f = 0
total w (suc n) f = w (f n) + total w n f

pub total-update_above :
    (w : Pc → ℕ) (n i : ℕ) (f : ℕ → Pc) (p : Pc) → n ≤ i → total w n (update f i p) ≡ total w n f
total-update_above w zero i f p h = refl
total-update_above w (suc n) i f p h = ground (arith, total-update_above w n i f p (omega arith))

pub total-update :
    (w : Pc → ℕ) (n i : ℕ) (f : ℕ → Pc) (p : Pc)
    → i < n
    → total w n (update f i p) + w (f i) ≡ total w n f + w p
total-update w zero i f p h = absurd (omega arith)
total-update w (suc n) i f p h = elim (Bool-cases (i == n)) [
  | inl e ↦ ground (arith, total-update_above w n i f p)
  | inr e ↦ ground (arith, total-update w n i f p)
]

pub total_idle : (w : Pc → ℕ) (n : ℕ) → w idle ≡ 0 → total w n (λ i. idle) ≡ 0
total_idle w zero h = refl
total_idle w (suc n) h = omega (arith, h, total_idle w n h)

pub total_quiet :
    (w : Pc → ℕ) (n : ℕ) (f : ℕ → Pc)
    → w idle ≡ 0
    → ((i : ℕ) → i < n → f i ≡ idle)
    → total w n f ≡ 0
total_quiet w zero f h q = refl
total_quiet w (suc n) f h q =
    ground (arith, q n (omega arith), total_quiet w n f h (λ i lt. q i (omega arith)))

-- Threads that hold an item that is not fetched yet or not announced yet.
abbrev pub with_item : Pc → ℕ
with_item stored = 1
with_item claimed = 1
with_item removing = 1
with_item _ = 0

-- Threads that hold a slot that is not filled yet or not given back yet.
abbrev pub with_slot : Pc → ℕ
with_slot (reserved m) = 1
with_slot (inserting m) = 1
with_slot (taken m) = 1
with_slot _ = 0

abbrev pub is_inside : Pc → Bool
is_inside (inserting m) = true
is_inside removing = true
is_inside _ = false

-- The marks count what one marked thread holds.
pub total_at : (w : Pc → ℕ) (n i : ℕ) (f : ℕ → Pc) → i < n → w (f i) ≤ total w n f
total_at w zero i f h = absurd (omega arith)
total_at w (suc n) i f h = elim (Bool-cases (i == n)) [
  | inl e ↦ ground arith
  | inr e ↦ ground (arith, total_at w n i f)
]
