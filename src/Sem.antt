-- ===== src/Sem.antt =====
-- The semaphores of ex4/part2/sem.c: the table, and each function between taking and giving up the
-- locks that it holds. `sem_down` is cut where it sleeps: `sem_down` runs up to the first test of
-- its loop, `sem_down_resume` from a wakeup to the next test.
pub mod System
pub mod Table
pub mod Conserve
pub mod Sleepers
mod Tests
use os_course.Prelude.{
  ℕ, zero, suc, ◌≡◌, Bool, true, false, Option, none, some, List, [], ◌∷◌, get_or, set, replicate,
  is_unset, if◌then◌else◌,
}
use os_course.Prelude.Int.{ℤ, pos, negsuc}
use os_course.Prelude.Word.{as_int, int_succ, int_pred, int_eq, success, failure, index_below}

-- `struct sem`, without its lock; `used` is 0 or 1.
pub record Sem : Type 0 where
  pub value : ℤ
  pub init_value : ℤ
  pub used : Bool

abbrev pub max_sems : ℕ
max_sems = 128

-- a slot as `sem_free` leaves it, and as the boot finds it
abbrev pub free_sem : Sem
free_sem = record { value = pos 0; init_value = pos 0; used = false }

-- `seminit`: the statically zeroed array with `used` and `value` cleared.
pub seminit : List Sem
seminit = replicate max_sems free_sem

-- The loop of `sem_create` over the slots from index `i` on, up to `used = 1`. It holds only
-- `sem_array_lock`, and the other calls take only the slot's lock: one that names the slot may come
-- before the value is written.
abbrev pub claim_from : ℕ → List Sem → List Sem × ℤ
claim_from i [] = ([], failure)
claim_from i (s ∷ ss) =
    let rest = claim_from (suc i) ss in
    if is_unset s.used then (record s { used = true } ∷ ss, pos i) else (s ∷ rest.0, rest.1)

unfoldable pub sem_create_claim : List Sem → List Sem × ℤ
sem_create_claim t = claim_from 0 t

-- The two writes behind it, for the id that is returned; nothing where no slot was free.
abbrev pub sem_create_fill : ℤ → ℤ → List Sem → List Sem
sem_create_fill v (pos i) t = set t i (record (get_or t i free_sem) { value = v; init_value = v })
sem_create_fill v (negsuc n) t = t

-- `sem_create` with no other call in between: the table and the id that it returns.
pub sem_create : ℤ → List Sem → List Sem × ℤ
sem_create v t = let (t', id) = sem_create_claim t in (sem_create_fill v id t', id)

-- The body of `sem_free` on a slot within range.
abbrev pub free_slot : ℕ → Sem → List Sem → List Sem × ℤ
free_slot i s t =
    if is_unset s.used
    then (t, failure)
    else if int_eq s.value s.init_value
    then (set t i free_sem, success)
    else (t, failure)

pub sem_free : ℤ → List Sem → List Sem × ℤ
sem_free id t = elim (index_below max_sems id) [
  | none ↦ (t, failure)
  | some i ↦ free_slot i (get_or t i free_sem) t
]

-- `sem_down` returns, or sleeps on the channel of a slot.
pub data Outcome : Type 0 where
  returns : ℤ → Outcome
  sleeps : ℕ → Outcome

-- One test of the loop `while(value == 0) sleep(...)`, and the decrement behind it.
abbrev pub down_slot : ℕ → Sem → List Sem → List Sem × Outcome
down_slot i s t =
    if int_eq s.value (pos 0)
    then (t, sleeps i)
    else (set t i (record s { value = int_pred s.value }), returns success)

-- From the wakeup: the loop does not test `used` again.
pub sem_down_resume : ℕ → List Sem → List Sem × Outcome
sem_down_resume i t = down_slot i (get_or t i free_sem) t

abbrev pub down_checked : ℕ → Sem → List Sem → List Sem × Outcome
down_checked i s t = if is_unset s.used then (t, returns failure) else down_slot i s t

pub sem_down : ℤ → List Sem → List Sem × Outcome
sem_down id t = elim (index_below max_sems id) [
  | none ↦ (t, returns failure)
  | some i ↦ down_checked i (get_or t i free_sem) t
]

-- The table, the returned value, and the channel of the call of `wakeup`.
abbrev pub up_slot : ℕ → Sem → List Sem → List Sem × ℤ × Option ℕ
up_slot i s t =
    if is_unset s.used
    then (t, failure, none)
    else (set t i (record s { value = int_succ s.value }), success, some i)

pub sem_up : ℤ → List Sem → List Sem × ℤ × Option ℕ
sem_up id t = elim (index_below max_sems id) [
  | none ↦ (t, failure, none)
  | some i ↦ up_slot i (get_or t i free_sem) t
]

-- The system calls, on the register a0 that `argint(0, ...)` reads.
abbrev pub sys_sem_create : ℕ → List Sem → List Sem × ℤ
sys_sem_create a0 t = sem_create (as_int a0) t

abbrev pub sys_sem_free : ℕ → List Sem → List Sem × ℤ
sys_sem_free a0 t = sem_free (as_int a0) t

abbrev pub sys_sem_down : ℕ → List Sem → List Sem × Outcome
sys_sem_down a0 t = sem_down (as_int a0) t

abbrev pub sys_sem_up : ℕ → List Sem → List Sem × ℤ × Option ℕ
sys_sem_up a0 t = sem_up (as_int a0) t
