-- ===== src/Proc/Sched/Wakeup.antt =====
-- What `wakeup` of ex4/part1/proc.c does to the table: who becomes RUNNABLE, and with which accumulator.
use os_course.Prelude.{
  ℕ, ◌≡◌, ◌≢◌, ◌⊎◌, inl, inr, refl, ap, ◌∙◌, some, none, sym, true, false, Option, List, ◌&&◌,
  length, arith, Bool-cases, if◌then◌else◌, Bool, ◌==◌,
}
use os_course.Prelude.Int.{ℤ}
use os_course.Proc.{
  ProcState, unused, used, sleeping, running, zombie, nowhere, on_proc, on_ticks, on_object,
  chan_eq, is_sleeping, index_eq, Proc, Chan, runnable, entry,
}
use os_course.Proc.Sched.{wakes, wakeup}
use os_course.Proc.Sched.Minimum.{IsMinimum, NonNegative, get_min_accumulator-IsMinimum}
use os_course.Proc.Sched.Passes.{system_minimum, woken, wakeup_entry}

-- Entry `i`, not the caller's, sleeps on the channel.
pub record SleepsOn (c : Chan) (me : Option ℕ) (i : ℕ) (p : Proc) : Type 0 where
  pub not_me : me ≢ some i
  pub asleep : p.state ≡ sleeping
  pub waits_on : p.chan ≡ c

chan_eq-same : (c : Chan) → chan_eq c c ≡ true
chan_eq-same nowhere = refl
chan_eq-same (on_proc a) = ground arith
chan_eq-same on_ticks = refl
chan_eq-same (on_object a) = ground arith

chan_eq→same : (a b : Chan) → chan_eq a b ≡ true → a ≡ b
chan_eq→same nowhere nowhere h = refl
chan_eq→same (on_proc a) (on_proc b) h = ap on_proc (ground (arith, h))
chan_eq→same on_ticks on_ticks h = refl
chan_eq→same (on_object a) (on_object b) h = ap on_object (ground (arith, h))
chan_eq→same nowhere (on_proc b) h = cc
chan_eq→same nowhere on_ticks h = cc
chan_eq→same nowhere (on_object b) h = cc
chan_eq→same (on_proc a) nowhere h = cc
chan_eq→same (on_proc a) on_ticks h = cc
chan_eq→same (on_proc a) (on_object b) h = cc
chan_eq→same on_ticks nowhere h = cc
chan_eq→same on_ticks (on_proc b) h = cc
chan_eq→same on_ticks (on_object b) h = cc
chan_eq→same (on_object a) nowhere h = cc
chan_eq→same (on_object a) (on_proc b) h = cc
chan_eq→same (on_object a) on_ticks h = cc

is_sleeping→same : (s : ProcState) → is_sleeping s ≡ true → s ≡ sleeping
is_sleeping→same sleeping h = refl
is_sleeping→same unused h = absurd (ground (arith, h))
is_sleeping→same used h = absurd (ground (arith, h))
is_sleeping→same runnable h = absurd (ground (arith, h))
is_sleeping→same running h = absurd (ground (arith, h))
is_sleeping→same zombie h = absurd (ground (arith, h))

is_me-cases :
    (me : Option ℕ) (i : ℕ)
    → ((index_eq (some i) me ≡ true) × (me ≡ some i))
      ⊎ ((index_eq (some i) me ≡ false) × (me ≢ some i))
is_me-cases none i = inr (refl, λ e. cc)
is_me-cases (some j) i = elim (Bool-cases (i == j)) [
  | inl h ↦ inl (h, ap some (ground (arith, h)))
  | inr h ↦ inr (h, λ e. absurd (ground (arith, h, ap (λ o. index_eq (some i) o) e)))
]

both_true : (a b : Bool) → (a && b) ≡ true → (a ≡ true) × (b ≡ true)
both_true true b h = (refl, h)
both_true false b h = absurd (ground (arith, h))

SleepsOn-wakes :
    (c : Chan) (me : Option ℕ) (i : ℕ) (p : Proc) → SleepsOn c me i p → wakes c me i p ≡ true
SleepsOn-wakes c me i p s = elim (is_me-cases me i) [
  | inl (e, same) ↦ absurd (s.not_me same)
  | inr (e, other) ↦
      ap (λ b. if b then false else is_sleeping p.state && chan_eq p.chan c) e
      ∙ ap (λ st. is_sleeping st && chan_eq p.chan c) s.asleep
      ∙ ap (λ d. chan_eq d c) s.waits_on
      ∙ chan_eq-same c
]

wakes-SleepsOn :
    (c : Chan) (me : Option ℕ) (i : ℕ) (p : Proc) → wakes c me i p ≡ true → SleepsOn c me i p
wakes-SleepsOn c me i p w = elim (is_me-cases me i) [
  | inl (e, same) ↦ absurd (
      ground
        (arith, sym (ap (λ b. if b then false else is_sleeping p.state && chan_eq p.chan c) e) ∙ w))
  | inr (e, other) ↦
      let (a, b) =
        both_true (is_sleeping p.state) (chan_eq p.chan c)
          (sym (ap (λ b. if b then false else is_sleeping p.state && chan_eq p.chan c) e) ∙ w) in
      record {
        not_me = other;
        asleep = is_sleeping→same p.state a;
        waits_on = chan_eq→same p.chan c b;
      }
]

-- Provided that no ready entry has a negative accumulator, `wakeup` makes RUNNABLE exactly the
-- entries other than the caller's that sleep on the channel, and gives every one of them the
-- accumulator that was the least of all ready entries (0 if none was ready); nothing else changes.
pub wakeup_lem :
    (c : Chan) (me : Option ℕ) (t : List Proc)
    → NonNegative t
    → (m : ℤ) × IsMinimum (length t) t m
      × ((i : ℕ)
          → (SleepsOn c me i (entry t i)
              × (entry (wakeup c me t) i
                  ≡ record (entry t i) { accumulator = m; state = runnable }))
            ⊎ (¬ SleepsOn c me i (entry t i) × (entry (wakeup c me t) i ≡ entry t i)))
wakeup_lem c me t nn = (
  system_minimum t,
  get_min_accumulator-IsMinimum (length t) t nn,
  λ i. elim (Bool-cases (wakes c me i (entry t i))) [
    | inl w ↦ inl (
      wakes-SleepsOn c me i (entry t i) w,
      wakeup_entry c me t nn i
          ∙ ap (λ b. if b then woken (system_minimum t) (entry t i) else entry t i) w,
    )
    | inr w ↦ inr (
      λ s. ground (arith, w, SleepsOn-wakes c me i (entry t i) s),
      wakeup_entry c me t nn i
          ∙ ap (λ b. if b then woken (system_minimum t) (entry t i) else entry t i) w,
    )
  ],
)
