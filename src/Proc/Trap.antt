-- ===== src/Proc/Trap.antt =====
-- Traps and the timer, ex4/part1/trap.c, and the system calls of ex4/part1/sysproc.c. The registers
-- that the hardware sets are arguments: `scause`, `sepc`, and whether `sstatus` says user mode.
pub mod Timer
use os_course.Prelude.{
  ℕ, zero, suc, ◌+◌, ◌-◌, ◌/◌, ◌%◌, ◌^◌, ◌≡◌, Bool, true, false, ◌&&◌, ◌||◌, Option, none, some,
  List, [], ◌∷◌, get_or, set, length, ltb, if◌then◌else◌, ◌==◌, is_unset,
}
use os_course.Prelude.Int.{ℤ, pos, negsuc}
use os_course.Prelude.Word.{as_int, success, failure}
use os_course.Proc.{ProcState, running, on_ticks, Trapframe, Frame, Proc, entry, is_running}
use os_course.Proc.Env.{Env}
use os_course.Proc.Sched.{wakeup, charge, set_ps_priority}
use os_course.Proc.Kernel.{Kernel, set_proc, fork, growproc}
use os_course.Proc.Life.{exit, exit_body, wait, Waited, kill, setkilled, killed, yield, sleep}

-- `devintr`: 2 for the timer, 1 for another device, 0 if not recognized. Acknowledging the device
-- does not touch the process table.
abbrev pub devintr_code : ℕ → ℕ
devintr_code scause =
    if scause / 2 ^ 63 == 1 && scause % 256 == 9 then 1 else if scause == 2 ^ 63 + 1 then 2 else 0

-- `clockintr`; `me` is the process that the cpu runs, if any.
unfoldable pub clockintr : {W : Type 0} → Option ℕ → Kernel W → Kernel W
clockintr me k = record k { ticks = (k.ticks + 1) % 2 ^ 32; procs = wakeup on_ticks me k.procs }

-- The timer interrupt counts a tick on cpu 0 only.
unfoldable pub devintr : {W : Type 0} → ℕ → ℕ → Option ℕ → Kernel W → ℕ × Kernel W
devintr cpuid scause me k =
    let code = devintr_code scause in (code, if code == 2 && cpuid == 0 then clockintr me k else k)

abbrev pub with_epc : ℕ → Proc → Proc
with_epc pc p = record p {
  trapframe = elim p.trapframe [
    | none ↦ none
    | some f ↦ some (record f { regs = record f.regs { epc = pc } })
  ];
}

-- How a trap ends: a panic, a process that has exited, or a return to user space (after the
-- switch away and back if the process yielded).
pub data Trap (W : Type 0) : Type 0 where
  panics : Trap W
  exits : Kernel W → Trap W
  yields : Kernel W → Trap W
  resumes : Kernel W → Trap W

-- `exit(-1)`
abbrev pub die : (env : Env) → ℕ → Kernel env.World → Trap env.World
die env me k = elim (exit env me failure k) [ none ↦ panics | some k' ↦ exits k' ]

-- `usertrap` behind the dispatch on the cause.
unfoldable pub usertrap_end : (env : Env) → ℕ → ℕ → Kernel env.World → Trap env.World
usertrap_end env me which_dev k =
    let charged = set k.procs me (charge (entry k.procs me)) in
    if killed me k.procs
    then die env me k
    else if which_dev == 2
    then yields (record k { procs = yield me charged })
    else resumes k

-- `usertrap` of process `me`; `syscall` is the dispatch on the number in a7.
unfoldable pub usertrap :
    (env : Env)
    → (Kernel env.World → Kernel env.World)
    → Bool
    → ℕ
    → ℕ
    → ℕ
    → ℕ
    → Kernel env.World
    → Trap env.World
usertrap env syscall from_user cpuid scause sepc me k0 =
    let k = set_proc me (with_epc sepc (entry k0.procs me)) k0 in
    let d = devintr cpuid scause (some me) k in
    if is_unset from_user
    then panics
    else if scause == 8
    then (if killed me k.procs
        then die env me k
        else usertrap_end env me 0
            (syscall (set_proc me (with_epc ((sepc + 4) % 2 ^ 64) (entry k.procs me)) k)))
    else if d.0 == 0
    then usertrap_end env me 0 (record k { procs = setkilled me k.procs })
    else usertrap_end env me d.0 d.1

-- `kerneltrap`; `me` is the process that the cpu runs, if any. A timer interrupt in the kernel
-- yields and charges nothing.
abbrev pub kernel_yield : {W : Type 0} → Option ℕ → ℕ → Kernel W → Kernel W
kernel_yield none which_dev k = k
kernel_yield (some me) which_dev k =
    if which_dev == 2 && is_running (entry k.procs me).state
    then record k { procs = yield me k.procs }
    else k

unfoldable pub kerneltrap :
    {W : Type 0} → Bool → Bool → ℕ → ℕ → Option ℕ → Kernel W → Option (Kernel W)
kerneltrap from_kernel interrupts_on cpuid scause me k =
    let d = devintr cpuid scause me k in
    if is_unset from_kernel || interrupts_on || d.0 == 0
    then none
    else some (kernel_yield me d.0 d.1)

-- The loop test of `sys_sleep`: a uint difference against an int taken as a uint.
abbrev pub uint_of : ℤ → ℕ
uint_of (pos n) = n % 2 ^ 32
uint_of (negsuc n) = (2 ^ 32 - 1 - n % 2 ^ 32) % 2 ^ 32

unfoldable pub still_early : ℕ → ℕ → ℤ → Bool
still_early ticks ticks0 n = ltb ((ticks + 2 ^ 32 - ticks0) % 2 ^ 32) (uint_of n)

-- One pass of the loop: it returns 0, returns -1 to a killed process, or sleeps on `ticks`.
unfoldable pub sys_sleep_pass : {W : Type 0} → ℕ → ℕ → ℤ → Kernel W → Waited × Kernel W
sys_sleep_pass me ticks0 n k =
    if still_early k.ticks ticks0 n
    then (if killed me k.procs
        then (Waited.returns failure, k)
        else (Waited.sleeps, record k { procs = sleep on_ticks me k.procs }))
    else (Waited.returns success, k)

-- `sys_sbrk`: the old size, or -1.
abbrev pub sbrk_result : {W : Type 0} → ℕ → Kernel W × ℤ → ℤ × Kernel W
sbrk_result old (k, pos r) = (pos old, k)
sbrk_result old (k, negsuc r) = (failure, k)

unfoldable pub sys_sbrk : (env : Env) → ℕ → ℤ → Kernel env.World → ℤ × Kernel env.World
sys_sbrk env me n k = sbrk_result (entry k.procs me).sz (growproc env me n k)

-- `sys_set_ps_priority` of process `me`.
unfoldable pub sys_set_ps_priority : {W : Type 0} → ℕ → ℤ → Kernel W → ℤ × Kernel W
sys_set_ps_priority me priority k =
    let (p, r) = set_ps_priority priority (entry k.procs me) in (r, set_proc me p k)

-- The other system calls of sysproc.c, for process `me`, on the register a0 of their argument.
abbrev pub sys_getpid : {W : Type 0} → ℕ → Kernel W → ℤ
sys_getpid me k = (entry k.procs me).pid

abbrev pub sys_fork : (env : Env) → ℕ → Kernel env.World → ℤ × Kernel env.World
sys_fork env me k = fork env me k

abbrev pub sys_wait : (env : Env) → ℕ → ℕ → Kernel env.World → Waited × Kernel env.World
sys_wait env me a0 k = wait env me a0 k

abbrev pub sys_kill : ℕ → List Proc → List Proc × ℤ
sys_kill a0 t = kill (as_int a0) t

abbrev pub sys_uptime : {W : Type 0} → Kernel W → ℕ
sys_uptime k = k.ticks
