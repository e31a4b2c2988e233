-- ===== src/Proc/Sched/Choice.antt =====
-- Which process the loop of `scheduler` in ex4/part1/proc.c runs.
use os_course.Prelude.{
  ℕ, zero, suc, ◌+◌, ◌<◌, ◌≡◌, ◌⊎◌, inl, inr, refl, true, false, Option, none, some, List, [], ◌∷◌,
  ◌&&◌, length, set, arith, Bool-cases, Option-cases,
}
use os_course.Prelude.Int.{ltb_ℤ, ◌≤ℤ◌, ◌<ℤ◌}
use os_course.Proc.{Proc, running, entry, is_runnable}
use os_course.Proc.Sched.{candidate, scan, scheduler}

-- No runnable entry of the list has a smaller accumulator.
abbrev pub IsLeast : Proc → List Proc → Type 0
IsLeast p t =
    (j : ℕ) → is_runnable (entry t j).state ≡ true → p.accumulator ≤ℤ (entry t j).accumulator

-- Those before entry `d` have a larger one.
abbrev pub IsFirst : Proc → ℕ → List Proc → Type 0
IsFirst p d t =
    (j : ℕ)
    → j < d
    → is_runnable (entry t j).state ≡ true
    → p.accumulator <ℤ (entry t j).accumulator

abbrev Below : Proc → Option (ℕ × Proc) → Type 0
Below p none = Unit {0}
Below p (some (k, q)) = p.accumulator <ℤ q.accumulator

-- The scan that started at entry `k` with candidate `m` kept it, or found a better one.
record Kept (i : ℕ) (p : Proc) (m : Option (ℕ × Proc)) (t : List Proc) : Type 0 where
  same : m ≡ some (i, p)
  least : IsLeast p t

record Found (k i d : ℕ) (p : Proc) (m : Option (ℕ × Proc)) (t : List Proc) : Type 0 where
  index : i ≡ k + d
  within : d < length t
  at : entry t d ≡ p
  ready : is_runnable p.state ≡ true
  least : IsLeast p t
  first : IsFirst p d t
  better : Below p m

abbrev Outcome : ℕ → ℕ → Proc → Option (ℕ × Proc) → List Proc → Type 0
Outcome k i p m t = Kept i p m t ⊎ ((d : ℕ) × Found k i d p m t)

abbrev AtMost : Option (ℕ × Proc) → Proc → Type 0
AtMost none p = ⊥
AtMost (some (k, q)) p = q.accumulator ≤ℤ p.accumulator

-- One round of the scan takes the entry, or leaves the candidate.
record Took (k : ℕ) (p0 : Proc) (m : Option (ℕ × Proc)) : Type 0 where
  now : candidate k p0 m ≡ some (k, p0)
  ready : is_runnable p0.state ≡ true
  better : Below p0 m

record Left (k : ℕ) (p0 : Proc) (m : Option (ℕ × Proc)) : Type 0 where
  now : candidate k p0 m ≡ m
  worse : is_runnable p0.state ≡ true → AtMost m p0

candidate-cases : (k : ℕ) (p0 : Proc) (m : Option (ℕ × Proc)) → Took k p0 m ⊎ Left k p0 m
candidate-cases k p0 none = elim (Bool-cases (is_runnable p0.state)) [
  | inl r ↦ inl (record { now = ground arith; ready = r; better = tt })
  | inr r ↦ inr (record { now = ground arith; worse = λ h. absurd (ground arith) })
]
candidate-cases k p0 (some (k1, q)) =
    elim (Bool-cases (is_runnable p0.state && ltb_ℤ p0.accumulator q.accumulator)) [
      | inl r ↦ inl (record { now = ground arith; ready = ground arith; better = ground arith })
      | inr r ↦ inr (record { now = ground arith; worse = λ h. ground arith })
    ]

took :
    (k : ℕ) (p0 : Proc) (ps : List Proc) (m : Option (ℕ × Proc))
    → Took k p0 m
    → IsLeast p0 ps
    → Found k k 0 p0 m (p0 ∷ ps)
took k p0 ps m f least = record {
  index = omega arith;
  within = omega arith;
  at = refl;
  ready = f.ready;
  least = elim [ zero ↦ λ h. omega arith | suc j ↦ λ h. least j h ];
  first = λ j h. absurd (omega arith);
  better = f.better;
}

cons-Kept :
    (k i : ℕ) (p p0 : Proc) (m : Option (ℕ × Proc)) (ps : List Proc)
    → Kept i p (candidate k p0 m) ps
    → Outcome k i p m (p0 ∷ ps)
cons-Kept k i p p0 m ps f = elim (candidate-cases k p0 m) [
  | inl c ↦
      (let at_k : i ≡ k = ground (arith, f.same, c.now) in
        let the_entry : p ≡ p0 = ground (arith, f.same, c.now) in
        rw (at_k, the_entry) (inr (0, took k p0 ps m c (rw the_entry at f.least))))
  | inr c ↦ inl (record {
    same = cc (f.same, c.now);
    least = elim [
      | zero ↦ λ h. ground (arith, c.worse h, f.same, c.now)
      | suc j ↦ λ h. f.least j h
    ];
  })
]

Below-candidate :
    (k : ℕ) (p p0 : Proc) (m : Option (ℕ × Proc))
    → Below p (candidate k p0 m)
    → Below p m × (is_runnable p0.state ≡ true → p.accumulator <ℤ p0.accumulator)
Below-candidate k p p0 none b = ground arith
Below-candidate k p p0 (some (k1, q)) b = ground arith

cons-Found :
    (k i d : ℕ) (p p0 : Proc) (m : Option (ℕ × Proc)) (ps : List Proc)
    → Found (suc k) i d p (candidate k p0 m) ps
    → Found k i (suc d) p m (p0 ∷ ps)
cons-Found k i d p p0 m ps f =
    let b = Below-candidate k p p0 m f.better in
    record {
      index = omega (arith, f.index);
      within = omega (arith, f.within);
      at = f.at;
      ready = f.ready;
      least = elim [ zero ↦ λ h. omega (arith, b.1 h) | suc j ↦ λ h. f.least j h ];
      first = elim [ zero ↦ λ lt h. b.1 h | suc j ↦ λ lt h. f.first j (omega arith) h ];
      better = b.0;
    }

scan-Outcome :
    (k : ℕ) (m : Option (ℕ × Proc)) (t : List Proc) {i : ℕ} {p : Proc}
    → scan k m t ≡ some (i, p)
    → Outcome k i p m t
unfolding scan
scan-Outcome k m [] h = inl (record { same = h; least = λ j r. absurd (ground arith) })
scan-Outcome k m (p0 ∷ ps) {i} {p} h = elim (scan-Outcome (suc k) (candidate k p0 m) ps h) [
  | inl f ↦ cons-Kept k i p p0 m ps f
  | inr (d, f) ↦ inr (suc d, cons-Found k i d p p0 m ps f)
]

scan-none :
    (k : ℕ) (m : Option (ℕ × Proc)) (t : List Proc)
    → scan k m t ≡ none
    → (m ≡ none) × ((j : ℕ) → is_runnable (entry t j).state ≡ false)
unfolding scan
scan-none k m [] h = (h, λ j. refl)
scan-none k none (p0 ∷ ps) h =
    let ih = scan-none (suc k) (candidate k p0 none) ps h in
    (refl, elim [ zero ↦ ground (arith, ih.0) | suc j ↦ ih.1 j ])
scan-none k (some (i, q)) (p0 ∷ ps) h =
    let ih = scan-none (suc k) (candidate k p0 (some (i, q))) ps h in absurd (ground (arith, ih.0))

-- A pass of `scheduler` runs a RUNNABLE entry with the least accumulator, the first such in the
-- table: it marks it RUNNING, changes nothing else, and leaves it to the cpu. If no entry is
-- RUNNABLE it changes nothing and the cpu has nothing to run.
pub scheduler_lem :
    (t : List Proc)
    → ((i : ℕ) × (i < length t)
        × (is_runnable (entry t i).state ≡ true)
        × IsLeast (entry t i) t
        × IsFirst (entry t i) i t
        × (scheduler t ≡ (set t i (record (entry t i) { state = running }), some i)))
      ⊎ (((j : ℕ) → is_runnable (entry t j).state ≡ false) × (scheduler t ≡ (t, none)))
unfolding scheduler
scheduler_lem t = elim (Option-cases (scan 0 none t)) [
  | inl e ↦ inr ((scan-none 0 none t e).1, rw e)
  | inr ((i, p), e) ↦ elim (scan-Outcome 0 none t e) [
    | inl kept ↦ absurd (ground (arith, kept.same))
    | inr (d, f) ↦ inl (
        let here : scan 0 none t ≡ some (d, entry t d) = ground (arith, e, f.index, f.at) in
        (d, f.within, rw f.at f.ready, rw f.at f.least, rw f.at f.first, rw here))
  ]
]
