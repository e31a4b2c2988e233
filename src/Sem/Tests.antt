-- ===== src/Sem/Tests.antt =====
-- Runs of the semaphores of ex4/part2/sem.c on small inputs.
use os_course.Prelude.{ℕ, ◌+◌, ◌≡◌, refl, true, List, [], ◌∷◌, replicate, arith}
use os_course.Prelude.Int.{pos}
use os_course.Prelude.Word.{success, failure}
use os_course.Sem.{
  Sem, free_sem, seminit, sem_create_claim, sem_create_fill, sem_create, sem_free, sem_down,
  sem_down_resume, sem_up,
}
use os_course.Sem.Table.{slot}
use os_course.Sem.System.{
  System, running, asleep, Event, free, down, resume, up, apply, Run, stop, step,
}
use os_course.Sem.Conserve.{Holds, granted, posted, units_conserved}
use os_course.Sem.Sleepers.{create_strands_waiter, free_strands_waiter}

abbrev sem_of : ℕ → Sem
sem_of v = record { value = pos v; init_value = pos v; used = true }

abbrev start : System
start = record { sems = sem_of 1 ∷ free_sem ∷ []; pc = λ p. running }

-- Process 0 takes the only unit, process 1 sleeps, 0 gives the unit back, 1 takes it.
abbrev events : List Event
events = resume 1 0 ∷ up (pos 0) ∷ down 1 (pos 0) ∷ down 0 (pos 0) ∷ []

handover : (t : System) × Run start events t
unfolding apply sem_down sem_down_resume sem_up
handover = (
  _,
  step (resume 1 0)
      (step (up (pos 0)) (step (down 1 (pos 0)) (step (down 0 (pos 0)) stop refl) refl) tt) refl,
)

-- the run up to where process 1 sleeps
blocked : (t : System) × Run start (down 1 (pos 0) ∷ down 0 (pos 0) ∷ []) t
unfolding apply sem_down
blocked = (_, step (down 1 (pos 0)) (step (down 0 (pos 0)) stop refl) refl)

handover_granted : granted 0 handover.1 ≡ 2
unfolding handover
handover_granted = refl

boot_create : (sem_create (pos 3) seminit).1 ≡ pos 0
unfolding sem_create sem_create_claim seminit
boot_create = refl

slot-replicate : (n j : ℕ) → slot (replicate n free_sem) j ≡ free_sem
slot-replicate ℕ.zero j = refl
slot-replicate (ℕ.suc n) ℕ.zero = refl
slot-replicate (ℕ.suc n) (ℕ.suc j) = slot-replicate n j

units_conserved_example :
    (w : ℕ) × Holds 0 w handover.0 × (w + granted 0 handover.1 ≡ 1 + posted 0 handover.1)
unfolding handover
units_conserved_example = units_conserved 0 1 handover.1 (omega arith) (refl, refl) tt (omega arith)

-- the first semaphore of a free table, created with 2 units
abbrev boot : System
boot = record { sems = free_sem ∷ []; pc = λ p. running }

abbrev claimed : System
claimed = record boot { sems = record free_sem { used = true } ∷ [] }

claims : sem_create_claim boot.sems ≡ (claimed.sems, pos 0)
unfolding sem_create_claim
claims = refl

-- process 1 goes down before the value is written
abbrev too_early : System
too_early = apply (down 1 (pos 0)) claimed

abbrev created : System
created = record too_early { sems = sem_create_fill (pos 2) (pos 0) too_early.sems }

create_strands_waiter_example : (created.pc 1 ≡ asleep 0) × (slot created.sems 0 ≡ sem_of 2)
create_strands_waiter_example =
    create_strands_waiter (pos 2) 1 0 boot claimed too_early created (omega arith) refl claims refl
      refl

-- a semaphore that starts at 0, with process 1 waiting on it
abbrev waiting : System
waiting = record { sems = sem_of 0 ∷ []; pc = λ p. asleep 0 }

free_strands_waiter_example :
    ((sem_free (pos 0) (sem_of 0 ∷ [])).1 ≡ success)
    × ((sem_up (pos 0) (apply (free (pos 0)) waiting).sems).1 ≡ failure)
    × ((apply (up (pos 0)) (apply (free (pos 0)) waiting)).pc 1 ≡ asleep 0)
free_strands_waiter_example = free_strands_waiter 1 0 waiting (omega arith) refl refl
