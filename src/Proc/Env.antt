-- ===== src/Proc/Env.antt =====
-- What ex4/part1/proc.c and trap.c call and the repository does not hold: xv6's page allocator,
-- virtual memory, file table, inodes and log, and the constants of its headers. Each is a field;
-- a call takes the rest of the kernel's memory, the world, and returns it.
use os_course.Prelude.{ℕ, Bool, Option, List}
use os_course.Prelude.Int.{ℤ}
use os_course.Proc.{Trapframe}

pub record Env : Type 1 where
  pub World : Type 0
  -- kalloc.c; the page's content is read as the trapframe `junk`
  pub kalloc : World → Option ℕ × World
  pub kfree : ℕ → World → World
  pub junk : Trapframe
  -- vm.c; a Boolean is true for success
  pub uvmcreate : World → Option ℕ × World
  pub uvmfirst : ℕ → List ℕ → World → World
  pub mappages : ℕ → ℕ → ℕ → ℕ → ℕ → World → Bool × World
  pub uvmunmap : ℕ → ℕ → ℕ → ℕ → World → World
  pub uvmfree : ℕ → ℕ → World → World
  pub uvmcopy : ℕ → ℕ → ℕ → World → Bool × World
  pub uvmalloc : ℕ → ℕ → ℕ → ℕ → World → ℕ × World
  pub uvmdealloc : ℕ → ℕ → ℕ → World → ℕ × World
  pub copyout : Option ℕ → ℕ → ℤ → World → Bool × World
  -- file.c, fs.c, log.c
  pub filedup : ℕ → World → World
  pub fileclose : ℕ → World → World
  pub idup : ℕ → World → World
  pub iput : ℕ → World → World
  pub namei : List ℕ → World → Option ℕ × World
  pub begin_op : World → World
  pub end_op : World → World
  -- string.c: at most so many bytes, the last of them 0
  pub safestrcpy : List ℕ → ℕ → List ℕ
  -- memlayout.h, riscv.h and the linker
  pub kstack_of : ℕ → ℕ
  pub pgsize : ℕ
  pub trampoline_va : ℕ
  pub trapframe_va : ℕ
  pub trampoline : ℕ
  pub forkret : ℕ
  pub pte_r : ℕ
  pub pte_w : ℕ
  pub pte_x : ℕ
