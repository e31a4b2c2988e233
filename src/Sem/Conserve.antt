-- ===== src/Sem/Conserve.antt =====
-- The count that a semaphore of ex4/part2/sem.c keeps, over every interleaving of its callers.
use os_course.Prelude.{
  ℕ, ◌+◌, ◌<◌, ◌≤◌, ◌-◌, ◌≡◌, ◌≢◌, refl, true, List, [], ◌∷◌, ◌&&◌, arith, get_or-set,
  if◌then◌else◌, ◌==◌,
}
use os_course.Prelude.Int.{ℤ, pos, negsuc}
use os_course.Prelude.Word.{success, int_eq, int_max, int_succ, int_pred}
use os_course.Sem.{
  max_sems, free_sem, sem_free, sem_down, sem_down_resume, sem_up, Outcome, returns, sleeps,
}
use os_course.Sem.Table.{slot, used-lt, slot-sem_create}
use os_course.Sem.System.{System, Event, create, free, down, resume, up, apply, Run, stop, step}

abbrev is_granted : Outcome → ℕ
is_granted (returns r) = if int_eq r success then 1 else 0
is_granted (sleeps i) = 0

-- Units of slot `i` that an event hands out (a `sem_down` that returns 0) and gives back.
abbrev pub grants : ℕ → Event → System → ℕ
grants i (down p id) s = if int_eq id (pos i) then is_granted (sem_down id s.sems).1 else 0
grants i (resume p j) s = if j == i then is_granted (sem_down_resume j s.sems).1 else 0
grants i _ s = 0

abbrev pub posts : ℕ → Event → System → ℕ
posts i (up id) s = if int_eq id (pos i) && int_eq (sem_up id s.sems).1 success then 1 else 0
posts i _ s = 0

abbrev pub granted : {s t : System} {es : List Event} → ℕ → Run s es t → ℕ
granted i stop = 0
granted i (step {t = t} e r en) = granted i r + grants i e t

abbrev pub posted : {s t : System} {es : List Event} → ℕ → Run s es t → ℕ
posted i stop = 0
posted i (step {t = t} e r en) = posted i r + posts i e t

-- No event of the run frees slot `i`.
abbrev pub Keeps : ℕ → List Event → Type 0
Keeps i [] = Unit {0}
Keeps i (free id ∷ es) = (id ≢ pos i) × Keeps i es
Keeps i (_ ∷ es) = Keeps i es

-- Slot `i` is in use with value `w`.
abbrev pub Holds : ℕ → ℕ → System → Type 0
Holds i w s = ((slot s.sems i).used ≡ true) × ((slot s.sems i).value ≡ pos w)

down-Holds :
    (i v : ℕ) (p : ℕ) (id : ℤ) (s : System)
    → i < max_sems
    → Holds i v s
    → Holds i (v - grants i (down p id) s) (apply (down p id) s) × (grants i (down p id) s ≤ v)
unfolding apply sem_down
down-Holds i v p (negsuc j) s lt h = ground arith
down-Holds i v p (pos j) s lt h = ground (
  arith,
  used-lt s.sems i,
  get_or-set s.sems j (record (slot s.sems j) { value = int_pred (slot s.sems j).value }) i
      free_sem,
)

resume-Holds :
    (i v : ℕ) (p j : ℕ) (s : System)
    → Holds i v s
    → Holds i (v - grants i (resume p j) s) (apply (resume p j) s) × (grants i (resume p j) s ≤ v)
unfolding apply sem_down_resume
resume-Holds i v p j s h = ground (
  arith,
  used-lt s.sems i,
  get_or-set s.sems j (record (slot s.sems j) { value = int_pred (slot s.sems j).value }) i
      free_sem,
)

up-Holds :
    (i v : ℕ) (id : ℤ) (s : System)
    → i < max_sems
    → Holds i v s
    → v + posts i (up id) s ≤ int_max
    → Holds i (v + posts i (up id) s) (apply (up id) s)
unfolding apply sem_up
up-Holds i v (negsuc j) s lt h b = ground arith
up-Holds i v (pos j) s lt h b = ground (
  arith,
  used-lt s.sems i,
  get_or-set s.sems j (record (slot s.sems j) { value = int_succ (slot s.sems j).value }) i
      free_sem,
)

free-Holds :
    (i v : ℕ) (id : ℤ) (s : System) → Holds i v s → id ≢ pos i → Holds i v (apply (free id) s)
unfolding apply sem_free
free-Holds i v (negsuc j) s h ne = ground arith
free-Holds i v (pos j) s h ne = ground (arith, get_or-set s.sems j free_sem i free_sem)

create-Holds : (i v : ℕ) (x : ℤ) (s : System) → Holds i v s → Holds i v (apply (create x) s)
unfolding apply
create-Holds i v x s h = ground (arith, slot-sem_create x s.sems i)

apply-Holds :
    (i v : ℕ) (e : Event) (s : System)
    → i < max_sems
    → Holds i v s
    → Keeps i (e ∷ [])
    → v + posts i e s ≤ int_max
    → (w : ℕ) × Holds i w (apply e s) × (w + grants i e s ≡ v + posts i e s)
apply-Holds i v (create x) s lt h k b = (v, create-Holds i v x s h, refl)
apply-Holds i v (free id) s lt h k b = (v, free-Holds i v id s h k.0, refl)
apply-Holds i v (down p id) s lt h k b =
    let d = down-Holds i v p id s lt h in (v - grants i (down p id) s, d.0, omega (arith, d.1))
apply-Holds i v (resume p j) s lt h k b =
    let d = resume-Holds i v p j s h in (v - grants i (resume p j) s, d.0, omega (arith, d.1))
apply-Holds i v (up id) s lt h k b = (v + posts i (up id) s, up-Holds i v id s lt h b, omega arith)

-- Over every run of interleaved calls that does not free slot `i`: if the slot starts in use with
-- value `v` ≥ 0 and the ups do not carry it past INT_MAX, then it ends in use with a value `w` ≥ 0,
-- and the downs that were granted and `w` together make up `v` and the ups.
pub units_conserved :
    (i v : ℕ) {s t : System} {es : List Event} (r : Run s es t)
    → i < max_sems
    → Holds i v s
    → Keeps i es
    → v + posted i r ≤ int_max
    → (w : ℕ) × Holds i w t × (w + granted i r ≡ v + posted i r)
units_conserved i v stop lt h k b = (v, h, refl)
units_conserved i v (step {es = es} {t = t} e r en) lt h k b =
    let (w, held, sum) = units_conserved i v r lt h (Keeps-tail e es k) (omega arith) in
    let (x, held', sum') = apply-Holds i w e t lt held (Keeps-head e es k) (omega arith) in
    (x, held', omega arith)
  where
    Keeps-tail : (e : Event) (es : List Event) → Keeps i (e ∷ es) → Keeps i es
    Keeps-tail (free id) es k = k.1
    Keeps-tail (create x) es k = k
    Keeps-tail (down p id) es k = k
    Keeps-tail (resume p j) es k = k
    Keeps-tail (up id) es k = k

    Keeps-head : (e : Event) (es : List Event) → Keeps i (e ∷ es) → Keeps i (e ∷ [])
    Keeps-head (free id) es k = (k.0, tt)
    Keeps-head (create x) es k = tt
    Keeps-head (down p id) es k = tt
    Keeps-head (resume p j) es k = tt
    Keeps-head (up id) es k = tt

-- In such a run of a semaphore that starts at 1, the granted downs exceed the ups by one at most:
-- between two ups no two callers are let in.
pub mutual_exclusion :
    (i : ℕ) {s t : System} {es : List Event} (r : Run s es t)
    → i < max_sems
    → Holds i 1 s
    → Keeps i es
    → 1 + posted i r ≤ int_max
    → granted i r ≤ 1 + posted i r
mutual_exclusion i r lt h k b =
    let (w, held, sum) = units_conserved i 1 r lt h k b in omega (arith, sum)
