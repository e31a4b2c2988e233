-- ===== src/Proc/Sched/Fairness.antt =====
-- The fairness that the accumulators of ex4/part1 are for, on one cpu: what the scheduler, the
-- timer charge and `wakeup` keep, and `kill` does not.
use os_course.Prelude.{
  ℕ, ◌+◌, ◌<◌, ◌≤◌, ◌^◌, ◌≡◌, ◌≢◌, ◌⊎◌, inl, inr, ap, ◌∙◌, true, false, Option, none, some, List,
  length, set, arith, get_or-set, get_or-set_here, set-set,
}
use os_course.Prelude.Int.{ℤ, pos, pos_part, ◌≤ℤ◌}
use os_course.Proc.{
  Proc, Chan, runnable, running, entry, is_runnable, is_running, is_ready, zero_proc, ll_add,
}
use os_course.Proc.Sched.{scheduler, charge, wakeup}
use os_course.Proc.Sched.Choice.{IsLeast, scheduler_lem}
use os_course.Proc.Sched.Minimum.{IsMinimum, NonNegative, get_min_accumulator-IsMinimum}
use os_course.Proc.Sched.Passes.{system_minimum, ready-lt, wakeup_entry}

-- One time slice on one cpu: the scheduler's choice runs until the timer charges it and it yields.
abbrev pub finish : List Proc × Option ℕ → List Proc
finish (t, none) = t
finish (t, some i) = set t i (record (charge (entry t i)) { state = runnable })

unfoldable pub slice : List Proc → List Proc
slice t = finish (scheduler t)

-- Ready entries have accumulators at most 10 apart, the greatest priority.
pub record IsFair (t : List Proc) : Type 0 where
  pub nonneg : NonNegative t
  pub spread :
      (i j : ℕ)
      → is_ready (entry t i).state ≡ true
      → is_ready (entry t j).state ≡ true
      → pos_part (entry t i).accumulator ≤ pos_part (entry t j).accumulator + 10

abbrev charged : Proc → Proc
charged p = record p { accumulator = ll_add p.accumulator p.ps_priority; state = runnable }

ran :
    (t : List Proc) (i : ℕ)
    → i < length t
    → finish (set t i (record (entry t i) { state = running }), some i)
      ≡ set t i (charged (entry t i))
unfolding charge
ran t i lt =
    rw (get_or-set_here t i (record (entry t i) { state = running }) zero_proc lt) (set-set t i _ _)

slice-cases :
    (t : List Proc)
    → ((i : ℕ) × (i < length t)
        × (is_runnable (entry t i).state ≡ true)
        × IsLeast (entry t i) t
        × (slice t ≡ set t i (charged (entry t i))))
      ⊎ (slice t ≡ t)
unfolding slice
slice-cases t = elim (scheduler_lem t) [
  | inr (idle, e) ↦ inr (ap finish e)
  | inl (i, lt, r, least, first, e) ↦ inl (i, lt, r, least, ap finish e ∙ ran t i lt)
]

-- No ready entry is RUNNING between two slices of the one cpu.
abbrev pub NoneRunning : List Proc → Type 0
NoneRunning t = (j : ℕ) → is_running (entry t j).state ≡ false

-- With one cpu, so that no entry is RUNNING when the scheduler looks: a time slice keeps the ready
-- entries at most 10 apart, if priorities are at most 10 and no accumulator is near the overflow.
pub slice-IsFair :
    (t : List Proc)
    → IsFair t
    → NoneRunning t
    → ((j : ℕ) → (entry t j).ps_priority ≤ 10)
    → ((j : ℕ) → pos_part (entry t j).accumulator + 10 < 2 ^ 63)
    → IsFair (slice t)
slice-IsFair t f idle pr small = elim (slice-cases t) [
  | inr same ↦ rw same f
  | inl (i, lt, r, least, e) ↦ rw e (record {
    nonneg = λ j h. ground (
      arith,
      get_or-set t i (charged (entry t i)) j zero_proc,
      f.nonneg j,
      f.nonneg i,
      pr i,
      small i,
    );
    spread = λ a b ra rb. ground (
      arith,
      get_or-set t i (charged (entry t i)) a zero_proc,
      get_or-set t i (charged (entry t i)) b zero_proc,
      f.spread a b,
      f.spread a i,
      f.spread i b,
      least a,
      least b,
      idle a,
      idle b,
      f.nonneg a,
      f.nonneg b,
      f.nonneg i,
      pr i,
      small i,
    );
  })
]

-- The minimum lies in the range of the ready entries.
record Bounds (t : List Proc) (m : ℤ) : Type 0 where
  sign : pos 0 ≤ℤ m
  lower : (j : ℕ) → is_ready (entry t j).state ≡ true → m ≤ℤ (entry t j).accumulator
  upper :
      (j : ℕ)
      → is_ready (entry t j).state ≡ true
      → pos_part (entry t j).accumulator ≤ pos_part m + 10

system_minimum-Bounds : (t : List Proc) → IsFair t → Bounds t (system_minimum t)
system_minimum-Bounds t f = elim min.attained [
  | inl (j, k, e) ↦ record {
    sign = ground (arith, f.nonneg j k.1, e);
    lower = λ i r. min.lower i (off i r, r);
    upper = λ i r. ground (arith, f.spread i j r k.1, e);
  }
  | inr (empty, e) ↦ record {
    sign = ground (arith, e);
    lower = λ i r. absurd (empty i (off i r, r));
    upper = λ i r. absurd (empty i (off i r, r));
  }
]
  where
    min : IsMinimum (length t) t (system_minimum t)
    min = get_min_accumulator-IsMinimum (length t) t f.nonneg

    off : (i : ℕ) → is_ready (entry t i).state ≡ true → i ≢ length t
    off i r = omega (arith, ready-lt t i r)

-- `wakeup` keeps the ready entries at most 10 apart: what it wakes joins at the minimum.
pub wakeup-IsFair : (c : Chan) (me : Option ℕ) (t : List Proc) → IsFair t → IsFair (wakeup c me t)
wakeup-IsFair c me t f = record {
  nonneg = λ j r. ground (arith, bounds.sign, f.nonneg j, wakeup_entry c me t f.nonneg j);
  spread = λ a b ra rb. ground (
    arith,
    bounds.sign,
    bounds.lower b,
    bounds.upper a,
    f.spread a b,
    f.nonneg b,
    f.nonneg a,
    wakeup_entry c me t f.nonneg a,
    wakeup_entry c me t f.nonneg b,
  );
}
  where
    bounds : Bounds t (system_minimum t)
    bounds = system_minimum-Bounds t f
