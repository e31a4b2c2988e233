-- ===== src/Sem/System.antt =====
-- Processes that call the semaphores of ex4/part2/sem.c, interleaved in any order. Each event is
-- one stretch of code under the locks of sem.c, so events are atomic. `create` is the two stretches of
-- `sem_create` as one: the events are those of runs in which no call names a slot before the
-- `sem_create` that gives it away has returned.
use os_course.Prelude.{ℕ, ◌≡◌, Option, none, some, List, [], ◌∷◌, ◌==◌, if◌then◌else◌}
use os_course.Prelude.Int.{ℤ}
use os_course.Sem.{
  Sem, sem_create, sem_free, sem_down, sem_down_resume, sem_up, Outcome, returns, sleeps,
}

-- What the kernel keeps of a process: it runs, it sleeps in `sem_down` on a slot's channel, or it
-- was woken and has still to take the slot's lock and test the value.
pub data Pc : Type 0 where
  running : Pc
  asleep : ℕ → Pc
  woken : ℕ → Pc

pub record System : Type 0 where
  pub sems : List Sem
  pub pc : ℕ → Pc

abbrev pub update : (ℕ → Pc) → ℕ → Pc → ℕ → Pc
update f p x q = if p == q then x else f q

-- `wakeup(&sems[i])`: every process that sleeps on the channel becomes runnable.
abbrev pub wake_one : ℕ → Pc → Pc
wake_one i running = running
wake_one i (asleep j) = if i == j then woken j else asleep j
wake_one i (woken j) = woken j

abbrev pub wake : Option ℕ → (ℕ → Pc) → ℕ → Pc
wake none f q = f q
wake (some i) f q = wake_one i (f q)

-- Where a process stands after a stretch of `sem_down`.
abbrev pub after : Outcome → Pc
after (returns r) = running
after (sleeps i) = asleep i

pub data Event : Type 0 where
  create : ℤ → Event
  free : ℤ → Event
  down : ℕ → ℤ → Event  -- process, id
  resume : ℕ → ℕ → Event  -- process, the slot that it slept on
  up : ℤ → Event

-- A stretch of `sem_down` ends with the new table and an outcome for process `p`.
abbrev pub settle : System → ℕ → List Sem × Outcome → System
settle s p (t, o) = record { sems = t; pc = update s.pc p (after o) }

abbrev pub publish : System → List Sem × ℤ × Option ℕ → System
publish s (t, r, c) = record { sems = t; pc = wake c s.pc }

unfoldable pub apply : Event → System → System
apply (create v) s = record s { sems = (sem_create v s.sems).0 }
apply (free id) s = record s { sems = (sem_free id s.sems).0 }
apply (down p id) s = settle s p (sem_down id s.sems)
apply (resume p i) s = settle s p (sem_down_resume i s.sems)
apply (up id) s = publish s (sem_up id s.sems)

-- Which events the scheduler may let happen.
abbrev pub IsEnabled : Event → System → Type 0
IsEnabled (down p id) s = s.pc p ≡ running
IsEnabled (resume p i) s = s.pc p ≡ woken i
IsEnabled _ s = Unit

-- The states that a sequence of enabled events leads to.
pub data Run (s : System) : List Event → System → Type 0 where
  stop : Run s [] s
  step :
      {es : List Event} {t : System} (e : Event)
      → Run s es t
      → IsEnabled e t
      → Run s (e ∷ es) (apply e t)
