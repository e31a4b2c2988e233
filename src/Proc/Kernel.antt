-- ===== src/Proc/Kernel.antt =====
-- The state of ex4/part1/proc.c, and the life of an entry: `allocproc`, `freeproc`, the page table,
-- `userinit`, `growproc` and `fork`.
pub mod Alloc
pub mod Pids
pub mod Fork
use Prim.Native.Nat.{bit_or}
use os_course.Prelude.{
  ℕ, zero, suc, ◌+◌, ◌-◌, ◌%◌, ◌^◌, ◌≡◌, Bool, true, false, Option, none, some, List, [], ◌∷◌, map,
  get_or, set, length, replicate, if◌then◌else◌,
}
use os_course.Prelude.Int.{ℤ, pos, negsuc}
use os_course.Prelude.Word.{int_succ, int_eq, success, failure}
use os_course.Proc.{
  ProcState, unused, used, runnable, nowhere, Trapframe, Frame, Proc, nproc, zero_proc, entry,
  is_unused, zero_context,
}
use os_course.Proc.Env.{Env}
use os_course.Proc.Sched.{get_min_accumulator}

-- The globals of proc.c, and `ticks` of trap.c (a uint).
pub record Kernel (W : Type 0) : Type 0 where
  pub procs : List Proc
  pub nextpid : ℤ
  pub initproc : Option ℕ
  pub ticks : ℕ
  pub world : W

abbrev pub set_proc : {W : Type 0} → ℕ → Proc → Kernel W → Kernel W
set_proc i p k = record k { procs = set k.procs i p }

abbrev pub set_world : {W : Type 0} → W → Kernel W → Kernel W
set_world w k = record k { world = w }

-- `allocpid`
abbrev pub allocpid : {W : Type 0} → Kernel W → ℤ × Kernel W
allocpid k = (k.nextpid, record k { nextpid = int_succ k.nextpid })

-- The first UNUSED entry, numbered from `i`.
abbrev pub find_unused : ℕ → List Proc → Option ℕ
find_unused i [] = none
find_unused i (p ∷ ps) =
    let rest = find_unused (suc i) ps in if is_unused p.state then some i else rest

-- What `freeproc` leaves of an entry.
abbrev pub freed : Proc → Proc
freed p = record p {
  trapframe = none;
  pagetable = none;
  sz = 0;
  pid = pos 0;
  parent = none;
  name = [];
  chan = nowhere;
  killed = false;
  xstate = pos 0;
  state = unused;
}

-- the entry as `allocproc` has marked it before it asks for memory
abbrev pub claim : ℕ → ℤ → List Proc → Proc
claim i pid t =
    let p = record (entry t i) { pid = pid; state = used; ps_priority = 5 } in
    record p { accumulator = get_min_accumulator i (set t i p) }

abbrev pub table_of : Proc → ℕ
table_of p = elim p.pagetable [ none ↦ 0 | some pt ↦ pt ]

-- the child's table: an open file of the parent, or what the entry held before
abbrev pub inherit_files : List (Option ℕ) → List (Option ℕ) → List (Option ℕ)
inherit_files [] gs = gs
inherit_files (f ∷ fs) [] = []
inherit_files (none ∷ fs) (g ∷ gs) = g ∷ inherit_files fs gs
inherit_files (some f ∷ fs) (g ∷ gs) = some f ∷ inherit_files fs gs

-- the child's trapframe: the parent's registers, with 0 to return
abbrev pub child_frame : Option Frame → Option Frame → Option Frame
child_frame (some f) (some g) = some (record g { regs = record f.regs { a0 = 0 } })
child_frame _ g = g

-- `initcode`
abbrev pub initcode : List ℕ
initcode =
    23 ∷ 5 ∷ 0 ∷ 0 ∷ 19 ∷ 5 ∷ 69 ∷ 2 ∷ 151 ∷ 5 ∷ 0 ∷ 0 ∷ 147 ∷ 133 ∷ 53 ∷ 2 ∷ 147 ∷ 8 ∷ 112 ∷ 0
    ∷ 115 ∷ 0 ∷ 0 ∷ 0 ∷ 147 ∷ 8 ∷ 32 ∷ 0 ∷ 115 ∷ 0 ∷ 0 ∷ 0 ∷ 239 ∷ 240 ∷ 159 ∷ 255 ∷ 47 ∷ 105 ∷ 110
    ∷ 105 ∷ 116 ∷ 0 ∷ 0 ∷ 36 ∷ 0 ∷ 0 ∷ 0 ∷ 0 ∷ 0 ∷ 0 ∷ 0 ∷ 0 ∷ []

module _ (env : Env) where
  open env use {
    World, kalloc, kfree, junk, uvmcreate, uvmfirst, mappages, uvmunmap, uvmfree, uvmcopy, uvmalloc,
    uvmdealloc, filedup, idup, namei, safestrcpy, kstack_of, pgsize, trampoline_va, trapframe_va,
    trampoline, forkret, pte_r, pte_w, pte_x,
  }

  -- `procinit`: every entry UNUSED, with its kernel stack.
  unfoldable pub procinit : ℕ → List Proc → List Proc
  procinit i [] = []
  procinit i (p ∷ ps) = record p { state = unused; kstack = kstack_of i } ∷ procinit (suc i) ps

  unfoldable pub proc_freepagetable : ℕ → ℕ → World → World
  proc_freepagetable pt sz w =
      uvmfree pt sz (uvmunmap pt trapframe_va 1 0 (uvmunmap pt trampoline_va 1 0 w))

  -- The two mappings of `proc_pagetable`, each undone when it fails.
  abbrev pub map_trapframe : ℕ → ℕ → Bool × World → Option ℕ × World
  map_trapframe pt page (true, w) = (some pt, w)
  map_trapframe pt page (false, w) = (none, uvmfree pt 0 (uvmunmap pt trampoline_va 1 0 w))

  abbrev pub map_trampoline : ℕ → ℕ → Bool × World → Option ℕ × World
  map_trampoline pt page (true, w) =
      map_trapframe pt page (mappages pt trapframe_va pgsize page (bit_or pte_r pte_w) w)
  map_trampoline pt page (false, w) = (none, uvmfree pt 0 w)

  abbrev pub map_new : ℕ → Option ℕ × World → Option ℕ × World
  map_new page (none, w) = (none, w)
  map_new page (some pt, w) =
      map_trampoline pt page (mappages pt trampoline_va pgsize trampoline (bit_or pte_r pte_x) w)

  -- `proc_pagetable` for a process whose trapframe is on `page`.
  unfoldable pub proc_pagetable : ℕ → World → Option ℕ × World
  proc_pagetable page w = map_new page (uvmcreate w)

  abbrev pub free_frame : Option Frame → World → World
  free_frame none w = w
  free_frame (some f) w = kfree f.page w

  abbrev pub free_table : Option ℕ → ℕ → World → World
  free_table none sz w = w
  free_table (some pt) sz w = proc_freepagetable pt sz w

  unfoldable pub freeproc : ℕ → Kernel World → Kernel World
  freeproc i k =
      let p = entry k.procs i in
      set_proc i (freed p)
        (set_world (free_table p.pagetable p.sz (free_frame p.trapframe k.world)) k)

  -- `allocproc` from the page table on.
  abbrev pub alloc_table : ℕ → Kernel World → Option ℕ × World → Option ℕ × Kernel World
  alloc_table i k (none, w) = (none, freeproc i (set_world w k))
  alloc_table i k (some pt, w) =
      let p = entry k.procs i in
      (
        some i,
        set_proc i
            (record p {
              pagetable = some pt;
              context = record zero_context { ra = forkret; sp = (p.kstack + pgsize) % 2 ^ 64 };
            })
            (set_world w k),
      )

  -- `allocproc` from the trapframe page on.
  abbrev pub alloc_frame : ℕ → Kernel World → Option ℕ × World → Option ℕ × Kernel World
  alloc_frame i k (none, w) = (none, freeproc i (set_world w k))
  alloc_frame i k (some page, w) =
      let k' =
        set_proc i
          (record (entry k.procs i) { trapframe = some (record { page = page; regs = junk }) }) k in
      alloc_table i k' (proc_pagetable page w)

  abbrev pub alloc_at : Option ℕ → Kernel World → Option ℕ × Kernel World
  alloc_at none k = (none, k)
  alloc_at (some i) k =
      let (pid, k1) = allocpid k in
      alloc_frame i (set_proc i (claim i pid k.procs) k1) (kalloc k.world)

  unfoldable pub allocproc : Kernel World → Option ℕ × Kernel World
  allocproc k = alloc_at (find_unused 0 k.procs) k

  -- `growproc` on process `me`; `n` is a C int. The sums are those of uint64.
  abbrev pub grown : ℕ → ℕ × World → Kernel World → Kernel World × ℤ
  grown me (sz, w) k =
      (set_proc me (record (entry k.procs me) { sz = sz }) (set_world w k), success)

  abbrev pub grow : ℕ → ℕ × World → Kernel World → Kernel World × ℤ
  grow me (zero, w) k = (set_world w k, failure)
  grow me (suc sz, w) k = grown me (suc sz, w) k

  unfoldable pub growproc : ℕ → ℤ → Kernel World → Kernel World × ℤ
  growproc me (pos zero) k = grown me ((entry k.procs me).sz, k.world) k
  growproc me (pos (suc n)) k =
      let p = entry k.procs me in
      grow me (uvmalloc (table_of p) p.sz ((p.sz + suc n) % 2 ^ 64) pte_w k.world) k
  growproc me (negsuc n) k =
      let p = entry k.procs me in
      grown me (uvmdealloc (table_of p) p.sz ((p.sz + 2 ^ 64 - suc n) % 2 ^ 64) k.world) k

  -- `filedup` on each open file, in the table's order.
  abbrev pub dup_files : List (Option ℕ) → World → World
  dup_files [] w = w
  dup_files (none ∷ fs) w = dup_files fs w
  dup_files (some f ∷ fs) w = dup_files fs (filedup f w)

  abbrev pub dup_cwd : Option ℕ → World → World
  dup_cwd none w = w
  dup_cwd (some ip) w = idup ip w

  -- `fork` from the copy of the parent's memory on: the child is RUNNABLE at the end.
  abbrev pub fork_copied : ℕ → ℕ → Kernel World → Bool × World → ℤ × Kernel World
  fork_copied me i k (false, w) = (failure, freeproc i (set_world w k))
  fork_copied me i k (true, w) =
      let p = entry k.procs me in
      let np = entry k.procs i in
      (
        np.pid,
        set_proc i
            (record np {
              sz = p.sz;
              trapframe = child_frame p.trapframe np.trapframe;
              ofile = inherit_files p.ofile np.ofile;
              cwd = p.cwd;
              name = safestrcpy p.name 16;
              parent = some me;
              state = runnable;
            })
            (set_world (dup_cwd p.cwd (dup_files p.ofile w)) k),
      )

  abbrev pub fork_child : ℕ → Option ℕ × Kernel World → ℤ × Kernel World
  fork_child me (none, k) = (failure, k)
  fork_child me (some i, k) =
      let p = entry k.procs me in
      fork_copied me i k (uvmcopy (table_of p) (table_of (entry k.procs i)) p.sz k.world)

  unfoldable pub fork : ℕ → Kernel World → ℤ × Kernel World
  fork me k = fork_child me (allocproc k)

  -- `userinit`; `none` is its use of a null pointer when `allocproc` fails.
  abbrev pub first_page : Option ℕ → World → World
  first_page none w = w
  first_page (some pagetable) w = uvmfirst pagetable initcode w

  abbrev pub first_frame : Option Frame → Option Frame
  first_frame none = none
  first_frame (some f) = some (record f { regs = record f.regs { epc = 0; sp = pgsize } })

  abbrev pub init_at : Option ℕ × Kernel World → Option (Kernel World)
  init_at (none, k) = none
  init_at (some i, k) =
      let p = entry k.procs i in
      let (root, w) = namei (47 ∷ []) (first_page p.pagetable k.world) in
      some
        (record (set_proc i
          (record p {
            sz = pgsize;
            trapframe = first_frame p.trapframe;
            name = safestrcpy (105 ∷ 110 ∷ 105 ∷ 116 ∷ 99 ∷ 111 ∷ 100 ∷ 101 ∷ []) 16;
            cwd = root;
            state = runnable;
          })
          (set_world w k)) { initproc = some i })

  unfoldable pub userinit : Kernel World → Option (Kernel World)
  userinit k = init_at (allocproc k)
