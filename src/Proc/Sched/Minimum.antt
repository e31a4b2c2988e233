-- ===== src/Proc/Sched/Minimum.antt =====
-- What `get_min_accumulator` of ex4/part1/proc.c computes: the least accumulator of the ready
-- entries but one, or 0.
use os_course.Prelude.{
  ℕ, zero, suc, ◌+◌, ◌≡◌, ◌≢◌, ◌↔◌, ◌⊎◌, inl, inr, refl, ◌∙◌, sym, true, List, [], ◌∷◌, arith,
}
use os_course.Prelude.Int.{ℤ, pos, negsuc, ◌≤ℤ◌, eq_of_parts}
use os_course.Proc.{Proc, entry, is_ready}
use os_course.Proc.Sched.{min_step, min_from, min_or_zero, get_min_accumulator}

-- Entry `j` counts: it is RUNNABLE or RUNNING, and not the excepted one.
abbrev pub Counts : ℕ → List Proc → ℕ → Type 0
Counts e t j = (j ≢ e) × (is_ready (entry t j).state ≡ true)

-- `m` is the least accumulator of the entries that count, or 0 if none does.
pub record IsMinimum (e : ℕ) (t : List Proc) (m : ℤ) : Type 0 where
  pub lower : (j : ℕ) → Counts e t j → m ≤ℤ (entry t j).accumulator
  pub attained :
      ((j : ℕ) × Counts e t j × ((entry t j).accumulator ≡ m))
      ⊎ (((j : ℕ) → ¬ Counts e t j) × (m ≡ pos 0))

-- No ready entry has a negative accumulator, so that -1 can say "none so far".
abbrev pub NonNegative : List Proc → Type 0
NonNegative t = (j : ℕ) → is_ready (entry t j).state ≡ true → pos 0 ≤ℤ (entry t j).accumulator

-- One round of the loop, at entry `k`.
record StepFacts (k e : ℕ) (m : ℤ) (p : Proc) (m' : ℤ) : Type 0 where
  sentinel : negsuc 0 ≤ℤ m'
  below : m ≢ negsuc 0 → (m' ≢ negsuc 0) × (m' ≤ℤ m)
  lower : k ≢ e → is_ready p.state ≡ true → (m' ≢ negsuc 0) × (m' ≤ℤ p.accumulator)
  attained : (m' ≡ m) ⊎ ((k ≢ e) × (is_ready p.state ≡ true) × (m' ≡ p.accumulator))

step-StepFacts :
    (k e : ℕ) (m : ℤ) (p : Proc)
    → negsuc 0 ≤ℤ m
    → (is_ready p.state ≡ true → pos 0 ≤ℤ p.accumulator)
    → StepFacts k e m p (min_step k e m p)
step-StepFacts k e m p h nn = record {
  sentinel = ground arith;
  below = λ ne. ground arith;
  lower = λ ne r. ground arith;
  attained = ground arith;
}

-- The rest of the loop, from entry `k` on with `m` so far; -1 says that nothing counted yet.
record LoopFacts (k e : ℕ) (m : ℤ) (t : List Proc) (r : ℤ) : Type 0 where
  sentinel : negsuc 0 ≤ℤ r
  below : m ≢ negsuc 0 → (r ≢ negsuc 0) × (r ≤ℤ m)
  lower :
      (j : ℕ)
      → k + j ≢ e
      → is_ready (entry t j).state ≡ true
      → (r ≢ negsuc 0) × (r ≤ℤ (entry t j).accumulator)
  attained :
      (r ≡ m)
      ⊎ ((d : ℕ) × (k + d ≢ e)
          × (is_ready (entry t d).state ≡ true)
          × (r ≡ (entry t d).accumulator))

cons-LoopFacts :
    (k e : ℕ) (m m' : ℤ) (p : Proc) (ps : List Proc) (r : ℤ)
    → StepFacts k e m p m'
    → LoopFacts (suc k) e m' ps r
    → LoopFacts k e m (p ∷ ps) r
cons-LoopFacts k e m m' p ps r s l = record {
  sentinel = l.sentinel;
  below = λ ne. let b = s.below ne in let c = l.below b.0 in (c.0, omega (arith, b.1, c.1));
  lower = elim [
    | zero ↦ λ ne c.
        (let b = s.lower (omega (arith, ne)) c in
          let d = l.below b.0 in (d.0, omega (arith, b.1, d.1)))
    | suc j ↦ λ ne c. l.lower j (omega (arith, ne)) c
  ];
  attained = elim l.attained [
    | inr (d, ne, c, eq) ↦ inr (suc d, omega (arith, ne), c, eq)
    | inl eq ↦ elim s.attained [
      | inl eq' ↦ inl (eq ∙ eq')
      | inr (ne, c, eq') ↦ inr (0, omega (arith, ne), c, eq ∙ eq')
    ]
  ];
}

min_from-LoopFacts :
    (k e : ℕ) (m : ℤ) (t : List Proc)
    → NonNegative t
    → negsuc 0 ≤ℤ m
    → LoopFacts k e m t (min_from k e m t)
unfolding min_from
min_from-LoopFacts k e m [] nn h = record {
  sentinel = h;
  below = λ ne. (ne, omega arith);
  lower = λ j ne r. absurd (ground arith);
  attained = inl refl;
}
min_from-LoopFacts k e m (p ∷ ps) nn h =
    let s = step-StepFacts k e m p h (nn 0) in
    cons-LoopFacts k e m (min_step k e m p) p ps _ s
      (min_from-LoopFacts (suc k) e (min_step k e m p) ps (λ j. nn (suc j)) s.sentinel)

int_eq-cases : (m : ℤ) → (m ≡ negsuc 0) ⊎ ((m ≢ negsuc 0) × (min_or_zero m ≡ m))
int_eq-cases (pos n) = inr ((λ h. cc), refl)
int_eq-cases (negsuc zero) = inl refl
int_eq-cases (negsuc (suc n)) = inr ((λ h. ground arith), ground arith)

-- Provided that no ready entry has a negative accumulator, `get_min_accumulator` returns the least
-- accumulator of the RUNNABLE and RUNNING entries other than the excepted one, and 0 if there are
-- none.
pub get_min_accumulator-IsMinimum :
    (e : ℕ) (t : List Proc) → NonNegative t → IsMinimum e t (get_min_accumulator e t)
unfolding get_min_accumulator
get_min_accumulator-IsMinimum e t nn =
    let l = min_from-LoopFacts 0 e (negsuc 0) t nn (omega arith) in
    elim (int_eq-cases (min_from 0 e (negsuc 0) t)) [
      | inl none' ↦
          (let empty : (j : ℕ) → ¬ Counts e t j =
              λ j c. (l.lower j (omega (arith, c.0)) c.1).0 none' in
            record { lower = λ j c. absurd (empty j c); attained = inr (empty, rw none') })
      | inr (ne, same) ↦ rw same (record {
        lower = λ j c. (l.lower j (omega (arith, c.0)) c.1).1;
        attained = elim l.attained [
          | inl eq ↦ absurd (ne eq)
          | inr (d, off, r, eq) ↦ inl (d, (omega (arith, off), r), sym eq)
        ];
      })
    ]

-- The minimum depends only on which entries count and on their accumulators.
pub IsMinimum-unique :
    {e e' : ℕ} {t t' : List Proc} {m m' : ℤ}
    → ((j : ℕ) → Counts e t j ↔ Counts e' t' j)
    → ((j : ℕ) → Counts e t j → (entry t j).accumulator ≡ (entry t' j).accumulator)
    → IsMinimum e t m
    → IsMinimum e' t' m'
    → m ≡ m'
IsMinimum-unique {m = m} {m' = m'} same acc a b = elim a.attained [
  | inl (j, c, eq) ↦ elim b.attained [
    | inl (j', c', eq') ↦
        (let below = b.lower j ((same j).0 c) in
          let above = a.lower j' ((same j').1 c') in
          ground (arith, acc j c, acc j' ((same j').1 c'), below, above, eq, eq', eq_of_parts m m'))
    | inr (empty, z) ↦ absurd (empty j ((same j).0 c))
  ]
  | inr (empty, z) ↦ elim b.attained [
    | inl (j', c', eq') ↦ absurd (empty j' ((same j').1 c'))
    | inr (empty', z') ↦ z ∙ sym z'
  ]
]
