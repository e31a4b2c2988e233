-- ===== src/Proc/Tests.antt =====
-- The process table of ex4/part1 on small tables: runs, and the theorems at inputs.
use os_course.Prelude.{
  ℕ, zero, suc, ◌+◌, ◌-◌, ◌*◌, ◌^◌, ◌<◌, ◌≤◌, ◌≡◌, ◌≢◌, inr, ◌⊎◌, refl, true, false, none, some,
  List, [], ◌∷◌, ◌&&◌, length, set, arith,
}
use os_course.Prelude.Int.{ℤ, pos, ◌≤ℤ◌, ◌<ℤ◌, pos_part}
use os_course.Prelude.Word.{success}
use os_course.Proc.{
  Proc, ProcState, sleeping, runnable, running, on_ticks, entry, is_running, is_runnable, is_ready,
  is_zombie, index_eq, zero_proc, is_unused,
}
use os_course.Proc.Env.{Env}
use os_course.Proc.Sched.{
  get_min_accumulator, min_from, scan, scheduler, wake_at, wake_from, wakeup,
}
use os_course.Proc.Sched.Choice.{IsLeast, IsFirst, scheduler_lem}
use os_course.Proc.Sched.Minimum.{IsMinimum, NonNegative}
use os_course.Proc.Sched.Wakeup.{SleepsOn, wakeup_lem}
use os_course.Proc.Sched.Fairness.{IsFair, slice, slice-IsFair}
use os_course.Proc.Kernel.{Kernel, allocproc, proc_pagetable, fork}
use os_course.Proc.Kernel.Alloc.{IsFirstFree}
use os_course.Proc.Kernel.Pids.{IsLive, PidInv}
use os_course.Proc.Life.{kill, exit_body, returns, wait}
use os_course.Proc.Life.Signal.{kill_zero_marks_next}
use os_course.Proc.Life.Collect.{Cleared, is_dead_child, wait-exit}
use os_course.Proc.Trap.{yields, usertrap, kerneltrap}
use os_course.Proc.Trap.Timer.{usertrap_charges, kerneltrap_uncharged}

-- An environment with memory for ever: the world counts the pages given out.
abbrev plenty : Env
plenty = record {
  World = ℕ;
  kalloc = λ w. (some w, w + 1);
  kfree = λ p w. w;
  junk = record { epc = 5; sp = 5; a0 = 5; others = [] };
  uvmcreate = λ w. (some w, w + 1);
  uvmfirst = λ pt code w. w;
  mappages = λ pt va size pa perm w. (true, w);
  uvmunmap = λ pt va n f w. w;
  uvmfree = λ pt sz w. w;
  uvmcopy = λ old new sz w. (true, w);
  uvmalloc = λ pt old new perm w. (new, w);
  uvmdealloc = λ pt old new w. (new, w);
  copyout = λ pt va v w. (true, w);
  filedup = λ f w. w;
  fileclose = λ f w. w;
  idup = λ ip w. w;
  iput = λ ip w. w;
  namei = λ path w. (some 1, w);
  begin_op = λ w. w;
  end_op = λ w. w;
  safestrcpy = λ s n. s;
  kstack_of = λ i. 4096 * (2 * i + 1);
  pgsize = 4096;
  trampoline_va = 2 ^ 38 - 4096;
  trapframe_va = 2 ^ 38 - 8192;
  trampoline = 4096;
  forkret = 8192;
  pte_r = 2;
  pte_w = 4;
  pte_x = 8;
}

-- an entry with a state, a pid, an accumulator and a priority
abbrev proc_of : ProcState → ℕ → ℕ → ℕ → Proc
proc_of s pid acc pri = record zero_proc {
  state = s;
  pid = pos pid;
  accumulator = pos acc;
  ps_priority = pri;
}

-- two RUNNABLE entries, one asleep on the ticks, one free
abbrev table : List Proc
table =
    proc_of runnable 1 9 5
    ∷ proc_of runnable 2 4 10
    ∷ record (proc_of sleeping 3 0 1) { chan = on_ticks }
    ∷ zero_proc
    ∷ []

-- The second entry has the least accumulator.
runs_second : (scheduler table).1 ≡ some 1
unfolding scheduler scan
runs_second = refl

-- The sleeper joins at the minimum of the others.
wakes_third : (entry (wakeup on_ticks none table) 2).accumulator ≡ pos 4
unfolding wakeup wake_from wake_at get_min_accumulator min_from
wakes_third = refl

minimum_of_others : get_min_accumulator 1 table ≡ pos 9
unfolding get_min_accumulator min_from
minimum_of_others = refl

-- A predicate of every entry, from the list's and a free one's.
abbrev All : (Proc → Type 0) → List Proc → Type 0
All P [] = Unit
All P (p ∷ t) = P p × All P t

every : (P : Proc → Type 0) (t : List Proc) → P zero_proc → All P t → (j : ℕ) → P (entry t j)
every P [] z h j = z
every P (p ∷ t) z h zero = h.0
every P (p ∷ t) z h (suc j) = every P t z h.1 j

table-NonNegative : NonNegative table
table-NonNegative =
    every (λ p. is_ready p.state ≡ true → pos 0 ≤ℤ p.accumulator) table (λ r. omega arith)
      (λ r. omega arith, (λ r. omega arith, (λ r. omega arith, (λ r. omega arith, tt))))

scheduler_lem_example :
    ((i : ℕ) × (i < 4)
      × (is_runnable (entry table i).state ≡ true)
      × IsLeast (entry table i) table
      × IsFirst (entry table i) i table
      × (scheduler table ≡ (set table i (record (entry table i) { state = running }), some i)))
    ⊎ (((j : ℕ) → is_runnable (entry table j).state ≡ false) × (scheduler table ≡ (table, none)))
scheduler_lem_example = scheduler_lem table

wakeup_lem_example :
    (m : ℤ) × IsMinimum (length table) table m
    × ((i : ℕ)
        → (SleepsOn on_ticks none i (entry table i)
            × (entry (wakeup on_ticks none table) i
                ≡ record (entry table i) { accumulator = m; state = runnable }))
          ⊎ (¬ SleepsOn on_ticks none i (entry table i)
              × (entry (wakeup on_ticks none table) i ≡ entry table i)))
wakeup_lem_example = wakeup_lem on_ticks none table table-NonNegative

accumulator_small : (j : ℕ) → pos_part (entry table j).accumulator ≤ 9
accumulator_small =
    every (λ p. pos_part p.accumulator ≤ 9) table (omega arith)
      (omega arith, (omega arith, (omega arith, (omega arith, tt))))

table-IsFair : IsFair table
table-IsFair = record {
  nonneg = table-NonNegative;
  spread = λ i j a b. omega (arith, accumulator_small i);
}

slice-IsFair_example : IsFair (slice table)
slice-IsFair_example =
    slice-IsFair table table-IsFair
      (every (λ p. is_running p.state ≡ false) table refl (refl, (refl, (refl, (refl, tt)))))
      (every (λ p. p.ps_priority ≤ 10) table (omega arith)
        (omega arith, (omega arith, (omega arith, (omega arith, tt)))))
      (λ j. omega (arith, accumulator_small j))

abbrev kernel : Kernel ℕ
kernel = record { procs = table; nextpid = pos 4; initproc = some 0; ticks = 0; world = 0 }

fork_pid : (fork plenty 1 kernel).0 ≡ pos 4
unfolding fork allocproc proc_pagetable
fork_pid = refl

-- one live entry and a free one
abbrev pair : List Proc
pair = proc_of running 1 3 5 ∷ zero_proc ∷ []

pair-PidInv : PidInv pair (pos 2)
pair-PidInv = record {
  next_pos = omega arith;
  range =
      every (λ p. is_unused p.state ≡ false → (pos 1 ≤ℤ p.pid) × (p.pid <ℤ pos 2)) pair
        (λ h. absurd (ground arith)) ((λ h. omega arith), ((λ h. absurd (ground arith)), tt));
  distinct = λ i j a b e. omega (arith, only i a, only j b);
}
  where
    only : (j : ℕ) → IsLive pair j → j ≡ 0
    only zero h = refl
    only (suc zero) h = absurd (ground arith)
    only (suc (suc j)) h = absurd (ground arith)

abbrev pair_kernel : Kernel ℕ
pair_kernel = record { procs = pair; nextpid = pos 2; initproc = none; ticks = 7; world = 0 }

-- a sleeper far behind
abbrev behind : List Proc
behind = proc_of runnable 1 50 5 ∷ proc_of sleeping 2 0 5 ∷ []

pair-IsFirstFree : IsFirstFree pair 1
pair-IsFirstFree = record {
  within = omega arith;
  free = refl;
  first = elim [ zero ↦ λ lt. refl | suc j ↦ λ lt. absurd (omega arith) ];
}

after_kill_zero :
    (r : Kernel ℕ) × (allocproc plenty (record pair_kernel { procs = (kill (pos 0) pair).0 })
      ≡ (some 1, r))
unfolding allocproc proc_pagetable kill
after_kill_zero = (_, refl)

kill_zero_marks_next_example :
    ((kill (pos 0) pair).1 ≡ success) × ((entry after_kill_zero.0.procs 1).killed ≡ true)
kill_zero_marks_next_example =
    kill_zero_marks_next plenty pair_kernel after_kill_zero.0 1 1 pair-PidInv pair-IsFirstFree refl
      after_kill_zero.1

-- entry 0 is init, 1 its child, 2 a child of 1
abbrev family : Kernel ℕ
family = record {
  procs =
      proc_of sleeping 1 0 5
      ∷ record (proc_of running 2 0 5) { parent = some 0 }
      ∷ record (proc_of runnable 3 0 5) { parent = some 1 }
      ∷ [];
  nextpid = pos 4;
  initproc = some 0;
  ticks = 0;
  world = 0;
}

abbrev exited : Kernel ℕ
exited = exit_body plenty 1 (pos 7) family

wait-exit_example :
    (k2 : Kernel ℕ) × (wait plenty 0 64 exited ≡ (returns (pos 2), k2))
    × Cleared (entry k2.procs 1)
    × ((j : ℕ) → j ≢ 1 → entry k2.procs j ≡ entry exited.procs j)
wait-exit_example =
    wait-exit plenty 1 0 64 (pos 7) family (omega arith) refl (omega arith) refl
      (elim [ zero ↦ λ lt. refl | suc j ↦ λ lt. absurd (omega arith) ]) exited refl (inr refl)

family_alive : (j : ℕ) → is_dead_child 0 family.procs j ≡ false
family_alive =
    every (λ p. (index_eq p.parent (some 0) && is_zombie p.state) ≡ false) family.procs refl
      (refl, (refl, (refl, tt)))

timer_trap :
    (k' : Kernel ℕ) × (usertrap plenty (λ k. k) true 1 (2 ^ 63 + 1) 40 0 pair_kernel ≡ yields k')
    × (entry k'.procs 0 ≡ record (entry pair 0) { accumulator = pos 8; state = runnable })
timer_trap = usertrap_charges plenty (λ k. k) 1 40 0 pair_kernel (omega arith) refl refl

kerneltrap_uncharged_example :
    (k' : Kernel ℕ) × (kerneltrap true false 1 (2 ^ 63 + 1) (some 0) pair_kernel ≡ some k')
    × (entry k'.procs 0 ≡ record (entry pair 0) { state = runnable })
kerneltrap_uncharged_example = kerneltrap_uncharged 1 0 pair_kernel (omega arith) refl
