-- ===== src/Proc/Life/Reap.antt =====
-- `reparent` of ex4/part1/proc.c, and what `wakeup` leaves alone.
use os_course.Prelude.{
  ℕ, zero, suc, ◌+◌, ◌<◌, ◌≡◌, inl, inr, refl, ◌∙◌, Option, some, List, ◌&&◌, length, set, arith,
  Bool-cases, get_or-set, get_or_outside, length-set, if◌then◌else◌, ltb,
}
use os_course.Proc.{Proc, Chan, ProcState, entry, index_eq, is_zombie, zero_proc}
use os_course.Proc.Sched.{get_min_accumulator, wake_at, wake_from, wakeup}
use os_course.Proc.Life.{chan_of, adopt_at, reparent_from, reparent}

-- `wakeup` changes neither a parent link nor whether an entry is a zombie, nor the table's size.
pub record Quiet (t u : List Proc) : Type 0 where
  pub size : length u ≡ length t
  pub parent : (j : ℕ) → (entry u j).parent ≡ (entry t j).parent
  pub dead : (j : ℕ) → is_zombie (entry u j).state ≡ is_zombie (entry t j).state
  pub pid : (j : ℕ) → (entry u j).pid ≡ (entry t j).pid

wake_at-Quiet : (c : Chan) (me : Option ℕ) (i : ℕ) (t : List Proc) → Quiet t (wake_at c me i t)
unfolding wake_at
wake_at-Quiet c me i t = record {
  size = ground (
    arith,
    length-set t i
        (record (entry t i) { accumulator = get_min_accumulator i t; state = ProcState.runnable }),
  );
  parent = λ j. ground (
    arith,
    get_or-set t i
        (record (entry t i) { accumulator = get_min_accumulator i t; state = ProcState.runnable }) j
        zero_proc,
  );
  dead = λ j. ground (
    arith,
    get_or-set t i
        (record (entry t i) { accumulator = get_min_accumulator i t; state = ProcState.runnable }) j
        zero_proc,
  );
  pid = λ j. ground (
    arith,
    get_or-set t i
        (record (entry t i) { accumulator = get_min_accumulator i t; state = ProcState.runnable }) j
        zero_proc,
  );
}

Quiet-trans : {t u v : List Proc} → Quiet t u → Quiet u v → Quiet t v
Quiet-trans a b = record {
  size = b.size ∙ a.size;
  parent = λ j. b.parent j ∙ a.parent j;
  dead = λ j. b.dead j ∙ a.dead j;
  pid = λ j. b.pid j ∙ a.pid j;
}

wake_from-Quiet :
    (c : Chan) (me : Option ℕ) (n i : ℕ) (t : List Proc) → Quiet t (wake_from c me n i t)
unfolding wake_from
wake_from-Quiet c me zero i t = record {
  size = refl;
  parent = λ j. refl;
  dead = λ j. refl;
  pid = λ j. refl;
}
wake_from-Quiet c me (suc n) i t =
    Quiet-trans (wake_at-Quiet c me i t) (wake_from-Quiet c me n (suc i) (wake_at c me i t))

pub wakeup-Quiet : (c : Chan) (me : Option ℕ) (t : List Proc) → Quiet t (wakeup c me t)
unfolding wakeup
wakeup-Quiet c me t = wake_from-Quiet c me (length t) 0 t

-- The loop of `reparent` at entry `i`, and from there on.
pub record Adopted (init : Option ℕ) (me i : ℕ) (t u : List Proc) : Type 0 where
  pub size : length u ≡ length t
  pub parent :
      (j : ℕ)
      → (entry u j).parent
        ≡ (if index_eq (entry t j).parent (some me) && ltb j i then init else (entry t j).parent)
  pub dead : (j : ℕ) → is_zombie (entry u j).state ≡ is_zombie (entry t j).state
  pub pid : (j : ℕ) → (entry u j).pid ≡ (entry t j).pid

adopt_at-Adopted :
    (init : Option ℕ) (me i : ℕ) (t u : List Proc)
    → i < length t
    → Adopted init me i t u
    → Adopted init me (suc i) t (adopt_at init me i u)
adopt_at-Adopted init me i t u lt a = elim (Bool-cases (index_eq (entry u i).parent (some me))) [
  | inl child ↦
      (let p = record (entry u i) { parent = init } in
        let q = wakeup-Quiet (chan_of init) (some me) (set u i p) in
        record {
          size = ground (arith, child, q.size, length-set u i p, a.size);
          parent = λ j. ground (
            arith,
            child,
            q.parent j,
            get_or-set u i p j zero_proc,
            a.parent j,
            a.parent i,
            a.size,
          );
          dead = λ j.
              ground (arith, child, q.dead j, get_or-set u i p j zero_proc, a.dead j, a.dead i);
          pid = λ j. ground (arith, child, q.pid j, get_or-set u i p j zero_proc, a.pid j, a.pid i);
        })
  | inr other ↦ record {
    size = ground (arith, other, a.size);
    parent = λ j. ground (arith, other, a.parent j, a.parent i);
    dead = λ j. ground (arith, other, a.dead j);
    pid = λ j. ground (arith, other, a.pid j);
  }
]

reparent_from-Adopted :
    (init : Option ℕ) (me n i : ℕ) (t u : List Proc)
    → i + n ≡ length t
    → Adopted init me i t u
    → Adopted init me (length t) t (reparent_from init me n i u)
unfolding reparent_from
reparent_from-Adopted init me zero i t u e a = let e' : i ≡ length t = omega arith in rw (← e') a
reparent_from-Adopted init me (suc n) i t u e a =
    reparent_from-Adopted init me n (suc i) t (adopt_at init me i u) (omega arith)
      (adopt_at-Adopted init me i t u (omega arith) a)

pub reparent-Adopted :
    (init : Option ℕ) (me : ℕ) (t : List Proc) → Adopted init me (length t) t (reparent init me t)
unfolding reparent
reparent-Adopted init me t =
    reparent_from-Adopted init me (length t) 0 t t (omega arith)
      (record { size = refl; parent = λ i. ground arith; dead = λ i. refl; pid = λ i. refl })

-- `reparent` hands every child of the process to init, and changes no other parent.
pub reparent_lem :
    (init : Option ℕ) (me : ℕ) (t : List Proc) (j : ℕ)
    → (entry (reparent init me t) j).parent
      ≡ (if index_eq (entry t j).parent (some me) then init else (entry t j).parent)
reparent_lem init me t j =
    ground (arith, (reparent-Adopted init me t).parent j, get_or_outside t j zero_proc)
