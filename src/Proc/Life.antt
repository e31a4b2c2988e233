-- ===== src/Proc/Life.antt =====
-- The end of a process in ex4/part1/proc.c: `reparent`, `exit`, `wait`, `kill`, `sleep`, `yield`;
-- and the timer path of ex4/part1/trap.c. `sched` switches away: a function that calls it ends
-- there, and what runs after the switch back is a function of its own.
pub mod Reap
pub mod Exit
pub mod Collect
pub mod Signal
use os_course.Prelude.{
  ℕ, zero, suc, ◌+◌, ◌-◌, ◌%◌, ◌^◌, ◌≡◌, Bool, true, false, ◌&&◌, ◌||◌, Option, none, some, List,
  [], ◌∷◌, map, get_or, set, length, replicate, if◌then◌else◌, ◌==◌, is_unset,
}
use os_course.Prelude.Int.{ℤ, pos, negsuc}
use os_course.Prelude.Word.{int_succ, int_eq, success, failure}
use os_course.Proc.{
  ProcState, unused, used, runnable, sleeping, zombie, Chan, nowhere, on_proc, on_ticks, Trapframe,
  Frame, Proc, entry, is_sleeping, is_zombie, index_eq,
}
use os_course.Proc.Env.{Env}
use os_course.Proc.Sched.{wakeup, charge}
use os_course.Proc.Kernel.{Kernel, set_proc, set_world, freeproc}

-- The channel that is the address of an entry, or null.
abbrev pub chan_of : Option ℕ → Chan
chan_of none = nowhere
chan_of (some i) = on_proc i

-- The body of the loop of `reparent` for process `me`, at entry `i`.
abbrev pub adopt_at : Option ℕ → ℕ → ℕ → List Proc → List Proc
adopt_at init me i t =
    if index_eq (entry t i).parent (some me)
    then wakeup (chan_of init) (some me) (set t i (record (entry t i) { parent = init }))
    else t

unfoldable pub reparent_from : Option ℕ → ℕ → ℕ → ℕ → List Proc → List Proc
reparent_from init me zero i t = t
reparent_from init me (suc n) i t = reparent_from init me n (suc i) (adopt_at init me i t)

unfoldable pub reparent : Option ℕ → ℕ → List Proc → List Proc
reparent init me t = reparent_from init me (length t) 0 t

-- `kill`: the first entry with that pid, from entry `i` on; a sleeper becomes RUNNABLE.
abbrev pub kill_entry : Proc → Proc
kill_entry p =
    if is_sleeping p.state
    then record p { killed = true; state = runnable }
    else record p { killed = true }

unfoldable pub kill : ℤ → List Proc → List Proc × ℤ
kill pid [] = ([], failure)
kill pid (p ∷ ps) =
    let rest = kill pid ps in
    if int_eq p.pid pid then (kill_entry p ∷ ps, success) else (p ∷ rest.0, rest.1)

abbrev pub setkilled : ℕ → List Proc → List Proc
setkilled i t = set t i (record (entry t i) { killed = true })

abbrev pub killed : ℕ → List Proc → Bool
killed i t = (entry t i).killed

-- `sleep` up to the switch, and behind it.
unfoldable pub sleep : Chan → ℕ → List Proc → List Proc
sleep c me t = set t me (record (entry t me) { chan = c; state = sleeping })

unfoldable pub sleep_done : ℕ → List Proc → List Proc
sleep_done me t = set t me (record (entry t me) { chan = nowhere })

-- `yield` up to the switch.
unfoldable pub yield : ℕ → List Proc → List Proc
yield me t = set t me (record (entry t me) { state = runnable })

-- What a pass of the loop of `wait` ends with.
pub data Waited : Type 0 where
  returns : ℤ → Waited  -- `wait` returns
  sleeps : Waited  -- it sleeps on its own entry

-- No zombie child was found: no point in waiting without children, or when killed.
abbrev pub give_up : {W : Type 0} → ℕ → Bool → Kernel W → Waited × Kernel W
give_up me havekids k =
    if is_unset havekids || killed me k.procs then (returns failure, k) else (sleeps, k)

module _ (env : Env) where
  open env use {World, copyout, fileclose, iput, begin_op, end_op}

  abbrev pub close_files : List (Option ℕ) → World → World
  close_files [] w = w
  close_files (none ∷ fs) w = close_files fs w
  close_files (some f ∷ fs) w = close_files fs (fileclose f w)

  abbrev pub put_cwd : Option ℕ → World → World
  put_cwd none w = w
  put_cwd (some ip) w = iput ip w

  -- `exit` by a process that is not init, up to the switch.
  unfoldable pub exit_body : ℕ → ℤ → Kernel World → Kernel World
  exit_body me status k =
      let p = entry k.procs me in
      let w = end_op (put_cwd p.cwd (begin_op (close_files p.ofile k.world))) in
      let t = set k.procs me (record p { ofile = map (λ f. none) p.ofile; cwd = none }) in
      let t1 = reparent k.initproc me t in
      let t' = wakeup (chan_of (entry t1 me).parent) (some me) t1 in
      record k {
        procs = set t' me (record (entry t' me) { xstate = status; state = zombie });
        world = w;
      }

  -- `none` is the panic "init exiting".
  unfoldable pub exit : ℕ → ℤ → Kernel World → Option (Kernel World)
  exit me status k = if index_eq (some me) k.initproc then none else some (exit_body me status k)

  -- A zombie child is found at entry `i`; the status is copied out if an address is given.
  abbrev pub copy_status : Option ℕ → ℕ → Proc → World → Bool × World
  copy_status pagetable zero pp w = (true, w)
  copy_status pagetable (suc addr) pp w = copyout pagetable (suc addr) pp.xstate w

  abbrev pub reap : ℕ → Kernel World → Bool × World → Waited × Kernel World
  reap i k (true, w) = (returns (entry k.procs i).pid, freeproc env i (set_world w k))
  reap i k (false, w) = (returns failure, set_world w k)

  -- One pass of `wait` over the table: `n` entries from entry `i` on.
  unfoldable pub wait_from : ℕ → ℕ → ℕ → ℕ → Bool → Kernel World → Waited × Kernel World
  wait_from me addr zero i havekids k = give_up me havekids k
  wait_from me addr (suc n) i havekids k =
      let pp = entry k.procs i in
      let child = index_eq pp.parent (some me) in
      let rest = wait_from me addr n (suc i) (havekids || child) k in
      if child && is_zombie pp.state
      then reap i k (copy_status (entry k.procs me).pagetable addr pp k.world)
      else rest

  unfoldable pub wait : ℕ → ℕ → Kernel World → Waited × Kernel World
  wait me addr k = wait_from me addr (length k.procs) 0 false k
