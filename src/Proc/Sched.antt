-- ===== src/Proc/Sched.antt =====
-- The scheduling policy of ex4/part1/proc.c: `get_min_accumulator`, the choice that `scheduler`
-- makes, `wakeup`, and what ex4/part1/trap.c charges for a time slice.
pub mod Minimum
pub mod Choice
pub mod Passes
pub mod Wakeup
pub mod Fairness
use os_course.Prelude.{
  ℕ, zero, suc, ◌+◌, ◌≡◌, Bool, true, false, ◌&&◌, ◌||◌, Option, none, some, List, [], ◌∷◌, get_or,
  set, length, ◌==◌, if◌then◌else◌,
}
use os_course.Prelude.Int.{ℤ, pos, negsuc, ltb_ℤ, pos_part}
use os_course.Prelude.Word.{int_eq}
use os_course.Proc.{
  ProcState, runnable, running, Chan, chan_eq, Proc, entry, is_runnable, is_sleeping, is_ready,
  is_running, index_eq, ll_add,
}

-- One round of the loop of `get_min_accumulator`, at entry `i`.
abbrev pub min_step : ℕ → ℕ → ℤ → Proc → ℤ
min_step i except_p min_acc p =
    if i == except_p
    then min_acc
    else if is_ready p.state && (int_eq min_acc (negsuc 0) || ltb_ℤ p.accumulator min_acc)
    then p.accumulator
    else min_acc

unfoldable pub min_from : ℕ → ℕ → ℤ → List Proc → ℤ
min_from i except_p min_acc [] = min_acc
min_from i except_p min_acc (p ∷ ps) = min_from (suc i) except_p (min_step i except_p min_acc p) ps

abbrev pub min_or_zero : ℤ → ℤ
min_or_zero m = if int_eq m (negsuc 0) then pos 0 else m

unfoldable pub get_min_accumulator : ℕ → List Proc → ℤ
get_min_accumulator except_p t = min_or_zero (min_from 0 except_p (negsuc 0) t)

-- One round of the scan of `scheduler`, with the best candidate so far.
abbrev pub candidate : ℕ → Proc → Option (ℕ × Proc) → Option (ℕ × Proc)
candidate i p none = if is_runnable p.state then some (i, p) else none
candidate i p (some (k, q)) =
    if is_runnable p.state && ltb_ℤ p.accumulator q.accumulator then some (i, p) else some (k, q)

unfoldable pub scan : ℕ → Option (ℕ × Proc) → List Proc → Option (ℕ × Proc)
scan i min_p [] = min_p
scan i min_p (p ∷ ps) = scan (suc i) (candidate i p min_p) ps

-- A pass of the loop of `scheduler` up to `swtch`: the table, and what the cpu runs next.
abbrev pub dispatch : Option (ℕ × Proc) → List Proc → List Proc × Option ℕ
dispatch none t = (t, none)
dispatch (some (i, p)) t = (set t i (record p { state = running }), some i)

unfoldable pub scheduler : List Proc → List Proc × Option ℕ
scheduler t = dispatch (scan 0 none t) t

-- The body of the loop of `wakeup`, at entry `i`; `me` is `myproc()`.
abbrev pub wakes : Chan → Option ℕ → ℕ → Proc → Bool
wakes c me i p = if index_eq (some i) me then false else is_sleeping p.state && chan_eq p.chan c

unfoldable pub wake_at : Chan → Option ℕ → ℕ → List Proc → List Proc
wake_at c me i t =
    if wakes c me i (entry t i)
    then set t i (record (entry t i) { accumulator = get_min_accumulator i t; state = runnable })
    else t

-- `n` rounds of the loop, from entry `i` on.
unfoldable pub wake_from : Chan → Option ℕ → ℕ → ℕ → List Proc → List Proc
wake_from c me zero i t = t
wake_from c me (suc n) i t = wake_from c me n (suc i) (wake_at c me i t)

unfoldable pub wakeup : Chan → Option ℕ → List Proc → List Proc
wakeup c me t = wake_from c me (length t) 0 t

-- What `usertrap` charges a running process for its time slice, before it yields.
unfoldable pub charge : Proc → Proc
charge p =
    if is_running p.state then record p { accumulator = ll_add p.accumulator p.ps_priority } else p

-- `sys_set_ps_priority` on the calling process: the entry and the returned value.
unfoldable pub set_ps_priority : ℤ → Proc → Proc × ℤ
set_ps_priority priority p =
    if ltb_ℤ priority (pos 1) || ltb_ℤ (pos 10) priority
    then (p, negsuc 0)
    else (record p { ps_priority = pos_part priority }, pos 0)
