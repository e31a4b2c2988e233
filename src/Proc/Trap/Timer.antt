-- ===== src/Proc/Trap/Timer.antt =====
-- The timer and the return to user space, ex4/part1/trap.c and sysproc.c.
use os_course.Prelude.{
  ℕ, zero, suc, ◌+◌, ◌-◌, ◌%◌, ◌^◌, ◌<◌, ◌≤◌, ◌≡◌, ◌⊎◌, inl, inr, refl, ap, ◌∙◌, Bool, true, false,
  Option, none, some, List, ◌||◌, length, set, arith, Bool-cases, get_or-set, get_or-set_here,
  set-set, length-set, ◌==◌, ltb,
}
use os_course.Prelude.Int.{ℤ, pos, negsuc, ◌≤ℤ◌}
use os_course.Prelude.Word.{success, failure}
use os_course.Proc.{Proc, Chan, runnable, on_ticks, entry, is_running, zero_proc, ll_add}
use os_course.Proc.Env.{Env}
use os_course.Proc.Sched.{get_min_accumulator, wake_at, wake_from, wakeup, charge, set_ps_priority}
use os_course.Proc.Kernel.{Kernel, set_proc}
use os_course.Proc.Life.{killed, yield, exit}
use os_course.Proc.Life.Reap.{wakeup-Quiet}
use os_course.Proc.Trap.{
  clockintr, devintr, with_epc, Trap, panics, exits, yields, resumes, die, usertrap_end, usertrap,
  kerneltrap, still_early,
}

-- `sys_sleep` measures the time since its start: as long as fewer than 2^32 ticks have passed, the
-- loop goes on exactly while fewer than `n` have, also across the wrap of the tick counter.
pub still_early_lem :
    (start d n : ℕ)
    → start < 2 ^ 32
    → d < 2 ^ 32
    → n < 2 ^ 32
    → still_early ((start + d) % 2 ^ 32) start (pos n) ≡ ltb d n
unfolding still_early
still_early_lem start d n hs hd hn =
    let elapsed : ((start + d) % 2 ^ 32 + 2 ^ 32 - start) % 2 ^ 32 ≡ d = omega arith in
    let same : n % 2 ^ 32 ≡ n = omega arith in rw (elapsed, same)

-- `wakeup` leaves the caller's own entry alone.
wake_from-own :
    (c : Chan) (me n i : ℕ) (t : List Proc) → entry (wake_from c (some me) n i t) me ≡ entry t me
unfolding wake_from wake_at
wake_from-own c me zero i t = refl
wake_from-own c me (suc n) i t =
    wake_from-own c me n (suc i) (wake_at c (some me) i t)
    ∙ ground (
      arith,
      get_or-set t i
          (record (entry t i) { accumulator = get_min_accumulator i t; state = runnable }) me
          zero_proc,
    )

pub wakeup-own : (c : Chan) (me : ℕ) (t : List Proc) → entry (wakeup c (some me) t) me ≡ entry t me
unfolding wakeup
wakeup-own c me t = wake_from-own c me (length t) 0 t

devintr-own :
    {W : Type 0} (cpuid scause me : ℕ) (k : Kernel W)
    → entry (devintr cpuid scause (some me) k).1.procs me ≡ entry k.procs me
unfolding devintr clockintr
devintr-own cpuid scause me k = ground (arith, wakeup-own on_ticks me k.procs)

-- The kernel state that a trap returns to user space with, sooner or later.
abbrev pub ReturnsWith : {W : Type 0} → Trap W → Kernel W → Type 0
ReturnsWith r k = (r ≡ yields k) ⊎ (r ≡ resumes k)

-- the entry of `me` after the charge and the switch away
yield-charge :
    (me : ℕ) (t : List Proc)
    → me < length t
    → entry (yield me (set t me (charge (entry t me)))) me
      ≡ record (charge (entry t me)) { state = runnable }
unfolding yield
yield-charge me t lt = simp (set-set, get_or-set_here, lt)

yield-killed :
    (me : ℕ) (t : List Proc) → killed me (yield me (set t me (charge (entry t me)))) ≡ killed me t
unfolding yield charge
yield-killed me t = ground (
  arith,
  set-set t me (charge (entry t me))
      (record (entry (set t me (charge (entry t me))) me) { state = runnable }),
  get_or-set t me (record (entry (set t me (charge (entry t me))) me) { state = runnable }) me
      zero_proc,
  get_or-set t me (charge (entry t me)) me zero_proc,
)

die-ends : (env : Env) (me : ℕ) (k k' : Kernel env.World) → ¬ ReturnsWith (die env me k) k'
die-ends env me k k' h = ends (exit env me failure k) h
  where
    ends :
        (r : Option (Kernel env.World))
        → ¬ ReturnsWith (elim r as (λ x. Trap env.World) [ none ↦ panics | some u ↦ exits u ]) k'
    ends none h' = ground arith
    ends (some u) h' = ground arith

end-not_killed :
    (env : Env) (me d : ℕ) (k k' : Kernel env.World)
    → ReturnsWith (usertrap_end env me d k) k'
    → killed me k'.procs ≡ false
unfolding usertrap_end
end-not_killed env me d k k' h = elim (Bool-cases (killed me k.procs)) [
  | inl dead ↦ absurd (die-ends env me k k' (rw dead at h))
  | inr alive ↦ elim (Bool-cases (d == 2)) [
    | inl timer ↦
        (let h' = rw (alive, timer) at h in ground (arith, h', alive, yield-killed me k.procs))
    | inr other ↦ (let h' = rw (alive, other) at h in ground (arith, h', alive))
  ]
]

-- `usertrap` behind the save of the program counter
abbrev at_pc : (env : Env) → ℕ → ℕ → Kernel env.World → Kernel env.World
at_pc env sepc me k = set_proc me (with_epc sepc (entry k.procs me)) k

-- Whatever the trap was, `usertrap` returns to user space only a process that is not killed.
pub usertrap-not_killed :
    (env : Env) (syscall : Kernel env.World → Kernel env.World) (from_user : Bool)
    (cpuid scause sepc me : ℕ) (k k' : Kernel env.World)
    → ReturnsWith (usertrap env syscall from_user cpuid scause sepc me k) k'
    → killed me k'.procs ≡ false
unfolding usertrap
usertrap-not_killed env syscall from_user cpuid scause sepc me k k' h =
    elim (Bool-cases from_user) [
      | inr kernel ↦ absurd (ground (arith, rw kernel at h))
      | inl user ↦ elim (Bool-cases (scause == 8)) [
        | inl call ↦ elim (Bool-cases (killed me (at_pc env sepc me k).procs)) [
          | inl dead ↦
              absurd (die-ends env me (at_pc env sepc me k) k' (rw (user, call, dead) at h))
          | inr alive ↦ end-not_killed env me 0 _ k' (rw (user, call, alive) at h)
        ]
        | inr trap ↦
            elim (Bool-cases ((devintr cpuid scause (some me) (at_pc env sepc me k)).0 == 0)) [
              | inl strange ↦ end-not_killed env me 0 _ k' (rw (user, trap, strange) at h)
              | inr device ↦ end-not_killed env me _ _ k' (rw (user, trap, device) at h)
            ]
      ]
    ]

devintr_timer :
    {W : Type 0} (cpuid : ℕ) (me : Option ℕ) (k : Kernel W)
    → (devintr cpuid (2 ^ 63 + 1) me k).0 ≡ 2
unfolding devintr
devintr_timer cpuid me k = refl

devintr-length :
    {W : Type 0} (cpuid scause : ℕ) (me : Option ℕ) (k : Kernel W)
    → length (devintr cpuid scause me k).1.procs ≡ length k.procs
unfolding devintr clockintr
devintr-length cpuid scause me k = ground (arith, (wakeup-Quiet on_ticks me k.procs).size)

end_timer :
    (env : Env) (me : ℕ) (k : Kernel env.World)
    → killed me k.procs ≡ false
    → usertrap_end env me 2 k
      ≡ yields (record k { procs = yield me (set k.procs me (charge (entry k.procs me))) })
unfolding usertrap_end
end_timer env me k alive = rw alive

charge_running :
    (p : Proc)
    → is_running p.state ≡ true
    → record (charge p) { state = runnable }
      ≡ record p { accumulator = ll_add p.accumulator p.ps_priority; state = runnable }
unfolding charge
charge_running p run = rw run

-- the entry of `me` when the timer has come, at its saved program counter
timer-own :
    (env : Env) (cpuid sepc me : ℕ) (k : Kernel env.World)
    → me < length k.procs
    → entry (devintr cpuid (2 ^ 63 + 1) (some me) (at_pc env sepc me k)).1.procs me
      ≡ with_epc sepc (entry k.procs me)
timer-own env cpuid sepc me k lt =
    devintr-own cpuid (2 ^ 63 + 1) me (at_pc env sepc me k)
    ∙ get_or-set_here k.procs me (with_epc sepc (entry k.procs me)) zero_proc lt

-- A timer interrupt from user space charges a running process that is not killed exactly its
-- priority, makes it RUNNABLE and switches away; nothing else of its entry changes but the saved
-- program counter.
pub usertrap_charges :
    (env : Env) (syscall : Kernel env.World → Kernel env.World) (cpuid sepc me : ℕ)
    (k : Kernel env.World)
    → me < length k.procs
    → is_running (entry k.procs me).state ≡ true
    → killed me k.procs ≡ false
    → (k' : Kernel env.World) × (usertrap env syscall true cpuid (2 ^ 63 + 1) sepc me k ≡ yields k')
      × (entry k'.procs me ≡ record (with_epc sepc (entry k.procs me)) {
        accumulator = ll_add (entry k.procs me).accumulator (entry k.procs me).ps_priority;
        state = runnable;
      })
unfolding usertrap
usertrap_charges env syscall cpuid sepc me k lt run alive = (
  record ticked { procs = yield me (set ticked.procs me (charge (entry ticked.procs me))) },
  rw timer_code (end_timer env me ticked alive'),
  yield-charge me ticked.procs lt' ∙ rw own (charge_running _ run),
)
  where
    ticked : Kernel env.World
    ticked = (devintr cpuid (2 ^ 63 + 1) (some me) (at_pc env sepc me k)).1

    own : entry ticked.procs me ≡ with_epc sepc (entry k.procs me)
    own = timer-own env cpuid sepc me k lt

    timer_code : (devintr cpuid (2 ^ 63 + 1) (some me) (at_pc env sepc me k)).0 ≡ 2
    timer_code = devintr_timer cpuid (some me) (at_pc env sepc me k)

    lt' : me < length ticked.procs
    lt' = omega (
      arith,
      lt,
      devintr-length cpuid (2 ^ 63 + 1) (some me) (at_pc env sepc me k),
      length-set k.procs me (with_epc sepc (entry k.procs me)),
    )

    alive' : killed me ticked.procs ≡ false
    alive' = ap (λ p. p.killed) own ∙ alive

-- A timer interrupt that finds the process in the kernel switches away without the charge: its
-- entry becomes RUNNABLE and keeps its accumulator.
pub kerneltrap_uncharged :
    {W : Type 0} (cpuid me : ℕ) (k : Kernel W)
    → me < length k.procs
    → is_running (entry k.procs me).state ≡ true
    → (k' : Kernel W) × (kerneltrap true false cpuid (2 ^ 63 + 1) (some me) k ≡ some k')
      × (entry k'.procs me ≡ record (entry k.procs me) { state = runnable })
unfolding kerneltrap yield
kerneltrap_uncharged {W} cpuid me k lt run = (
  record ticked {
    procs = set ticked.procs me (record (entry ticked.procs me) { state = runnable });
  },
  rw (devintr_timer cpuid (some me) k, own, run),
  get_or-set_here ticked.procs me _ zero_proc lt' ∙ rw own,
)
  where
    ticked : Kernel W
    ticked = (devintr cpuid (2 ^ 63 + 1) (some me) k).1

    own : entry ticked.procs me ≡ entry k.procs me
    own = devintr-own cpuid (2 ^ 63 + 1) me k

    lt' : me < length ticked.procs
    lt' = omega (arith, lt, devintr-length cpuid (2 ^ 63 + 1) (some me) k)

-- `set_ps_priority` accepts exactly the priorities from 1 to 10 and then sets the caller's; any
-- other returns -1 and changes nothing.
pub set_ps_priority_lem :
    (priority : ℤ) (p : Proc)
    → ((n : ℕ) × (priority ≡ pos n)
        × (1 ≤ n)
        × (n ≤ 10)
        × (set_ps_priority priority p ≡ (record p { ps_priority = n }, success)))
      ⊎ (((priority ≤ℤ pos 0) ⊎ (pos 11 ≤ℤ priority)) × (set_ps_priority priority p ≡ (p, failure)))
unfolding set_ps_priority
set_ps_priority_lem (negsuc n) p = inr (inl (omega arith), ground arith)
set_ps_priority_lem (pos n) p = elim (Bool-cases (ltb n 1 || ltb 10 n)) [
  | inl out ↦ elim (Bool-cases (ltb n 1)) [
    | inl low ↦ inr (inl (ground arith), ground arith)
    | inr high ↦ inr (inr (ground arith), ground arith)
  ]
  | inr fine ↦ inl (n, refl, ground arith, ground arith, ground arith)
]
