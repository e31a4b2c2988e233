-- ===== src/Proc/Sched/Passes.antt =====
-- The loop of `wakeup` of ex4/part1/proc.c over the entries: each one woken takes part in the minimum that
-- is computed for the next, which stays what it was.
use os_course.Prelude.{
  ℕ, zero, suc, ◌+◌, ◌<◌, ◌≡◌, ◌≢◌, ◌⊎◌, inl, inr, refl, ◌∙◌, sym, true, false, Option, List, [],
  ◌∷◌, ◌&&◌, length, set, arith, Bool-cases, get_or-set, get_or_outside, length-set, if◌then◌else◌,
  ltb,
}
use os_course.Prelude.Int.{ℤ, pos, ◌≤ℤ◌, eq_of_parts}
use os_course.Proc.{Proc, Chan, runnable, entry, is_ready, zero_proc}
use os_course.Proc.Sched.{get_min_accumulator, wakes, wake_at, wake_from, wakeup}
use os_course.Proc.Sched.Minimum.{Counts, IsMinimum, NonNegative, get_min_accumulator-IsMinimum}

-- the least accumulator of all ready entries, or 0
abbrev pub system_minimum : List Proc → ℤ
system_minimum t = get_min_accumulator (length t) t

abbrev pub woken : ℤ → Proc → Proc
woken m p = record p { accumulator = m; state = runnable }

pub ready-lt : (t : List Proc) (j : ℕ) → is_ready (entry t j).state ≡ true → j < length t
ready-lt [] j h = cc
ready-lt (p ∷ t) zero h = omega arith
ready-lt (p ∷ t) (suc j) h = omega (arith, ready-lt t j h)

wakes-IsAsleep :
    (c : Chan) (me : Option ℕ) (i : ℕ) (p : Proc) → wakes c me i p ≡ true → is_ready p.state ≡ false
wakes-IsAsleep c me i p h = ground arith

module _ (c : Chan) (me : Option ℕ) (t0 : List Proc) (nn : NonNegative t0) where
  abbrev m0 : ℤ
  m0 = system_minimum t0

  abbrev expected : ℕ → ℕ → Proc
  expected i j = if ltb j i && wakes c me j (entry t0 j) then woken m0 (entry t0 j) else entry t0 j

  -- The table when the loop has passed the entries before `i`.
  record Passed (i : ℕ) (t : List Proc) : Type 0 where
    size : length t ≡ length t0
    entries : (j : ℕ) → entry t j ≡ expected i j

  m0-IsMinimum : IsMinimum (length t0) t0 m0
  m0-IsMinimum = get_min_accumulator-IsMinimum (length t0) t0 nn

  m0-nonneg : pos 0 ≤ℤ m0
  m0-nonneg = elim m0-IsMinimum.attained [
    | inl (j, k, e) ↦ ground (arith, nn j k.1, e)
    | inr (none', e) ↦ ground (arith, e)
  ]

  module _ (i : ℕ) (t : List Proc) (inv : Passed i t) where
    -- What is ready now was ready at the start, or has been woken.
    ready-cases :
        (j : ℕ)
        → is_ready (entry t j).state ≡ true
        → ((entry t j).accumulator ≡ m0)
          ⊎ ((is_ready (entry t0 j).state ≡ true) × (entry t j ≡ entry t0 j))
    ready-cases j r = elim (Bool-cases (ltb j i && wakes c me j (entry t0 j))) [
      | inl w ↦ inl (rw (inv.entries j, w))
      | inr w ↦
          (let same : entry t j ≡ entry t0 j = rw (inv.entries j, w) in inr (rw same at r, same))
    ]

    ready_stays : (j : ℕ) → is_ready (entry t0 j).state ≡ true → entry t j ≡ entry t0 j
    ready_stays j r = ground (arith, inv.entries j, wakes-IsAsleep c me j (entry t0 j))

    Passed-NonNegative : NonNegative t
    Passed-NonNegative j r = elim (ready-cases j r) [
      | inl e ↦ rw e m0-nonneg
      | inr (r0, e) ↦ rw e (nn j r0)
    ]

    -- Entry `i` is asleep, so it counts neither at the start nor now.
    minimum_same : wakes c me i (entry t0 i) ≡ true → get_min_accumulator i t ≡ m0
    minimum_same w = elim now.attained [
      | inl (j, k, e) ↦ elim (ready-cases j k.1) [
        | inl at_m0 ↦ sym e ∙ at_m0
        | inr (r0, same) ↦ elim m0-IsMinimum.attained [
          | inl (j', k', e') ↦
              (let below = m0-IsMinimum.lower j (off j r0, r0) in
                let above = now.lower j' (counts_now j' k'.1) in
                ground (
                  arith,
                  below,
                  above,
                  e,
                  e',
                  same,
                  ready_stays j' k'.1,
                  eq_of_parts (get_min_accumulator i t) m0,
                ))
          | inr (empty, z) ↦ absurd (empty j (off j r0, r0))
        ]
      ]
      | inr (empty, z) ↦ elim m0-IsMinimum.attained [
        | inl (j', k', e') ↦ absurd (empty j' (counts_now j' k'.1))
        | inr (empty', z') ↦ z ∙ sym z'
      ]
    ]
      where
        now : IsMinimum i t (get_min_accumulator i t)
        now = get_min_accumulator-IsMinimum i t Passed-NonNegative

        off : (j : ℕ) → is_ready (entry t0 j).state ≡ true → j ≢ length t0
        off j r = omega (arith, ready-lt t0 j r)

        counts_now : (j : ℕ) → is_ready (entry t0 j).state ≡ true → Counts i t j
        counts_now j r =
            (λ e. ground (arith, e, wakes-IsAsleep c me i (entry t0 i)), rw (ready_stays j r) r)

    here : entry t i ≡ entry t0 i
    here = ground (arith, inv.entries i)

    wake_at-yes :
        wakes c me i (entry t0 i) ≡ true → wake_at c me i t ≡ set t i (woken m0 (entry t0 i))
    unfolding wake_at
    wake_at-yes w = rw (here, w, minimum_same w)

    wake_at-no : wakes c me i (entry t0 i) ≡ false → wake_at c me i t ≡ t
    unfolding wake_at
    wake_at-no w = rw (here, w)

    wake_at-Passed : i < length t0 → Passed (suc i) (wake_at c me i t)
    wake_at-Passed lt = elim (Bool-cases (wakes c me i (entry t0 i))) [
      | inl w ↦ rw (wake_at-yes w) (record {
        size = length-set t i (woken m0 (entry t0 i)) ∙ inv.size;
        entries = λ j. woken_entries w j;
      })
      | inr w ↦ rw (wake_at-no w) (record { size = inv.size; entries = λ j. left_entries w j })
    ]
      where
        woken_entries :
            wakes c me i (entry t0 i) ≡ true
            → (j : ℕ) → entry (set t i (woken m0 (entry t0 i))) j ≡ expected (suc i) j
        woken_entries w j =
            ground
              (arith, get_or-set t i (woken m0 (entry t0 i)) j zero_proc, inv.entries j, inv.size)

        left_entries : wakes c me i (entry t0 i) ≡ false → (j : ℕ) → entry t j ≡ expected (suc i) j
        left_entries w j = ground (arith, inv.entries j)

  wake_from-Passed :
      (n i : ℕ) (t : List Proc)
      → i + n ≡ length t0
      → Passed i t
      → Passed (length t0) (wake_from c me n i t)
  unfolding wake_from
  wake_from-Passed zero i t e inv = let e' : i ≡ length t0 = omega arith in rw (← e') inv
  wake_from-Passed (suc n) i t e inv =
      wake_from-Passed n (suc i) (wake_at c me i t) (omega arith)
        (wake_at-Passed i t inv (omega arith))

start : (c : Chan) (me : Option ℕ) (t : List Proc) (nn : NonNegative t) → Passed c me t nn 0 t
start c me t nn = record { size = refl; entries = λ j. ground arith }

pub length-wakeup :
    (c : Chan) (me : Option ℕ) (t : List Proc) → NonNegative t → length (wakeup c me t) ≡ length t
unfolding wakeup
length-wakeup c me t nn =
    (wake_from-Passed c me t nn (length t) 0 t (omega arith) (start c me t nn)).size

-- Each entry after `wakeup`, by the test of the loop.
pub wakeup_entry :
    (c : Chan) (me : Option ℕ) (t : List Proc)
    → NonNegative t
    → (i : ℕ)
    → entry (wakeup c me t) i
      ≡ (if wakes c me i (entry t i) then woken (system_minimum t) (entry t i) else entry t i)
unfolding wakeup
wakeup_entry c me t nn i = ground (
  arith,
  (wake_from-Passed c me t nn (length t) 0 t (omega arith) (start c me t nn)).entries i,
  get_or_outside t i zero_proc,
)
