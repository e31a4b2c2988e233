-- ===== src/Proc.antt =====
-- The process table of ex4/part1/proc.c and proc.h: its data, and the small functions on one entry.
-- A function that holds locks from its start to its end is one step on the whole table.
pub mod Env
mod Tests
pub mod Kernel
pub mod Trap
pub mod Life
pub mod Sched
use os_course.Prelude.{
  ℕ, zero, suc, ◌+◌, ◌-◌, ◌<◌, ◌^◌, ◌≡◌, Bool, true, false, ◌&&◌, ◌||◌, Option, none, some, List,
  [], ◌∷◌, get_or, set, replicate, length, ltb, leb, ◌==◌, if◌then◌else◌,
}
use os_course.Prelude.Int.{ℤ, pos, negsuc, ltb_ℤ}
use os_course.Prelude.Word.{int_succ, int_eq}

-- `enum procstate`
pub data ProcState : Type 0 where
  unused used sleeping runnable running zombie : ProcState

-- The addresses that processes sleep on: none (0), a process entry, the tick counter, others.
pub data Chan : Type 0 where
  nowhere : Chan
  on_proc : ℕ → Chan
  on_ticks : Chan
  on_object : ℕ → Chan

abbrev pub chan_eq : Chan → Chan → Bool
chan_eq nowhere nowhere = true
chan_eq (on_proc a) (on_proc b) = a == b
chan_eq on_ticks on_ticks = true
chan_eq (on_object a) (on_object b) = a == b
chan_eq _ _ = false

-- `struct context`: `ra`, `sp` and the callee-saved registers s0 to s11.
pub record Context : Type 0 where
  pub ra : ℕ
  pub sp : ℕ
  pub saved : List ℕ

-- `struct trapframe`: the registers that the code names, and the others in their order.
pub record Trapframe : Type 0 where
  pub epc : ℕ
  pub sp : ℕ
  pub a0 : ℕ
  pub others : List ℕ

-- A page that `kalloc` gave out, with the trapframe that it holds.
pub record Frame : Type 0 where
  pub page : ℕ
  pub regs : Trapframe

-- `struct proc`, without its lock. An absent pointer is `none`; a parent is an index of the table,
-- an open file, a directory, a page or a page table the number that the kernel's other parts gave.
pub record Proc : Type 0 where
  pub state : ProcState
  pub chan : Chan
  pub killed : Bool
  pub xstate : ℤ
  pub pid : ℤ
  pub parent : Option ℕ
  pub kstack : ℕ
  pub sz : ℕ
  pub pagetable : Option ℕ
  pub trapframe : Option Frame
  pub context : Context
  pub ofile : List (Option ℕ)
  pub cwd : Option ℕ
  pub name : List ℕ
  pub accumulator : ℤ
  pub ps_priority : ℕ

abbrev pub nproc : ℕ
nproc = 64

abbrev pub nofile : ℕ
nofile = 16

abbrev pub zero_context : Context
zero_context = record { ra = 0; sp = 0; saved = replicate 12 0 }

-- an entry of the statically zeroed array
abbrev pub zero_proc : Proc
zero_proc = record {
  state = unused;
  chan = nowhere;
  killed = false;
  xstate = pos 0;
  pid = pos 0;
  parent = none;
  kstack = 0;
  sz = 0;
  pagetable = none;
  trapframe = none;
  context = zero_context;
  ofile = replicate nofile none;
  cwd = none;
  name = [];
  accumulator = pos 0;
  ps_priority = 0;
}

abbrev pub entry : List Proc → ℕ → Proc
entry t i = get_or t i zero_proc

abbrev pub is_runnable : ProcState → Bool
is_runnable runnable = true
is_runnable _ = false

abbrev pub is_sleeping : ProcState → Bool
is_sleeping sleeping = true
is_sleeping _ = false

abbrev pub is_unused : ProcState → Bool
is_unused unused = true
is_unused _ = false

abbrev pub is_zombie : ProcState → Bool
is_zombie zombie = true
is_zombie _ = false

abbrev pub is_running : ProcState → Bool
is_running running = true
is_running _ = false

-- `state == RUNNABLE || state == RUNNING`
abbrev pub is_ready : ProcState → Bool
is_ready runnable = true
is_ready running = true
is_ready _ = false

-- `a == b` on pointers to entries, either of which may be null.
abbrev pub index_eq : Option ℕ → Option ℕ → Bool
index_eq none none = true
index_eq (some a) (some b) = a == b
index_eq _ _ = false

-- `long long` addition of a count, wrapping at 64 bits.
abbrev pub ll_add : ℤ → ℕ → ℤ
ll_add (pos n) k = if ltb (n + k) (2 ^ 63) then pos (n + k) else negsuc (2 ^ 64 - 1 - (n + k))
ll_add (negsuc n) k = if leb k n then negsuc (n - k) else pos (k - n - 1)
