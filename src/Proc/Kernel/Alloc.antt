-- ===== src/Proc/Kernel/Alloc.antt =====
-- What `allocproc` of ex4/part1/proc.c returns and leaves, on each of its ways out.
use os_course.Prelude.{
  ℕ, zero, suc, ◌+◌, ◌%◌, ◌<◌, ◌^◌, ◌≡◌, ◌⊎◌, inl, inr, refl, true, false, Option, none, some, List,
  [], ◌∷◌, length, set, arith, Bool-cases, Option-cases, get_or-set_here, set-set,
}
use os_course.Prelude.Int.{ℤ}
use os_course.Prelude.Word.{int_succ}
use os_course.Proc.{Proc, entry, is_unused, zero_context}
use os_course.Proc.Env.{Env}
use os_course.Proc.Kernel.{
  Kernel, find_unused, claim, freed, free_table, free_frame, proc_pagetable, freeproc, allocproc,
}

-- Entry `i` is the first UNUSED one.
pub record IsFirstFree (t : List Proc) (i : ℕ) : Type 0 where
  pub within : i < length t
  pub free : is_unused (entry t i).state ≡ true
  pub first : (j : ℕ) → j < i → is_unused (entry t j).state ≡ false

find_unused-some :
    (k : ℕ) (t : List Proc) {i : ℕ}
    → find_unused k t ≡ some i
    → (d : ℕ) × (i ≡ k + d) × IsFirstFree t d
find_unused-some k [] h = absurd (ground arith)
find_unused-some k (p ∷ ps) {i} h = elim (Bool-cases (is_unused p.state)) [
  | inl free ↦ (
    0,
    ground arith,
    record { within = omega arith; free = free; first = λ j lt. absurd (omega arith) },
  )
  | inr busy ↦
      (let (d, e, f) = find_unused-some (suc k) ps {i = i} (ground arith) in
        (
          suc d,
          omega (arith, e),
          record {
            within = omega (arith, f.within);
            free = f.free;
            first = elim [ zero ↦ λ lt. busy | suc j ↦ λ lt. f.first j (omega arith) ];
          },
        ))
]

find_unused-none :
    (k : ℕ) (t : List Proc)
    → find_unused k t ≡ none
    → (j : ℕ) → j < length t
    → is_unused (entry t j).state ≡ false
find_unused-none k [] h j lt = absurd (omega arith)
find_unused-none k (p ∷ ps) h zero lt = ground arith
find_unused-none k (p ∷ ps) h (suc j) lt =
    find_unused-none (suc k) ps (ground arith) j (omega arith)

module _ (env : Env) where
  open env use {World, kalloc, kfree, junk, pgsize, forkret}

  -- the entry that `allocproc` returns, with its trapframe on `page` and its page table `pt`
  abbrev pub fresh : ℕ → ℕ → ℕ → ℤ → List Proc → Proc
  fresh page pt i pid t = record (claim i pid t) {
    trapframe = some (record { page = page; regs = junk });
    pagetable = some pt;
    context = record zero_context { ra = forkret; sp = ((entry t i).kstack + pgsize) % 2 ^ 64 };
  }

  module _ (k : Kernel World) (i : ℕ) (lt : i < length k.procs)
      (found : find_unused 0 k.procs ≡ some i) where
    alloc_ok :
        {page pt : ℕ} {w w' : World}
        → kalloc k.world ≡ (some page, w)
        → proc_pagetable env page w ≡ (some pt, w')
        → allocproc env k ≡ (
          some i,
          record k {
            procs = set k.procs i (fresh page pt i k.nextpid k.procs);
            nextpid = int_succ k.nextpid;
            world = w';
          },
        )
    unfolding allocproc
    alloc_ok e1 e2 = rw (found, e1, e2) (simp (set-set, get_or-set_here, lt))

    no_frame :
        {w : World}
        → kalloc k.world ≡ (none, w)
        → allocproc env k ≡ (
          none,
          record k {
            procs = set k.procs i (freed (claim i k.nextpid k.procs));
            nextpid = int_succ k.nextpid;
            world =
                free_table env
                  (entry k.procs i).pagetable
                  (entry k.procs i).sz
                  (free_frame env (entry k.procs i).trapframe w);
          },
        )
    unfolding allocproc freeproc
    no_frame e = rw (found, e) (simp (set-set, get_or-set_here, lt))

    no_table :
        {page : ℕ} {w w' : World}
        → kalloc k.world ≡ (some page, w)
        → proc_pagetable env page w ≡ (none, w')
        → allocproc env k ≡ (
          none,
          record k {
            procs = set k.procs i (freed (claim i k.nextpid k.procs));
            nextpid = int_succ k.nextpid;
            world = free_table env (entry k.procs i).pagetable (entry k.procs i).sz (kfree page w');
          },
        )
    unfolding allocproc freeproc
    no_table e1 e2 = rw (found, e1, e2) (simp (set-set, get_or-set_here, lt))

  -- The three ways out of `allocproc`.
  abbrev pub Succeeds : Kernel World → Type 0
  Succeeds k =
      (i : ℕ) × IsFirstFree k.procs i
      × ((page : ℕ) × (pt : ℕ) × (w : env.World) × (allocproc env k ≡ (
        some i,
        record k {
          procs = set k.procs i (fresh page pt i k.nextpid k.procs);
          nextpid = int_succ k.nextpid;
          world = w;
        },
      )))

  abbrev pub OutOfMemory : Kernel World → Type 0
  OutOfMemory k =
      (i : ℕ) × IsFirstFree k.procs i
      × ((w : env.World) × (allocproc env k ≡ (
        none,
        record k {
          procs = set k.procs i (freed (claim i k.nextpid k.procs));
          nextpid = int_succ k.nextpid;
          world = w;
        },
      )))

  abbrev pub TableFull : Kernel World → Type 0
  TableFull k =
      ((j : ℕ) → j < length k.procs → is_unused (entry k.procs j).state ≡ false)
      × (allocproc env k ≡ (none, k))

  table_full : (k : Kernel World) → find_unused 0 k.procs ≡ none → allocproc env k ≡ (none, k)
  unfolding allocproc
  table_full k e = rw e

  alloc_found :
      (k : Kernel World) (i : ℕ)
      → IsFirstFree k.procs i
      → find_unused 0 k.procs ≡ some i
      → Succeeds k ⊎ OutOfMemory k
  alloc_found k i f e = from_frame (kalloc k.world) refl
    where
      from_table :
          (page : ℕ) (w : env.World) (r : Option ℕ × env.World)
          → kalloc k.world ≡ (some page, w)
          → proc_pagetable env page w ≡ r
          → Succeeds k ⊎ OutOfMemory k
      from_table page w (none, w') e1 e2 = inr (i, f, (_, no_table k i f.within e e1 e2))
      from_table page w (some pt, w') e1 e2 =
          inl (i, f, (page, pt, w', alloc_ok k i f.within e e1 e2))

      from_frame : (r : Option ℕ × env.World) → kalloc k.world ≡ r → Succeeds k ⊎ OutOfMemory k
      from_frame (none, w) e1 = inr (i, f, (_, no_frame k i f.within e e1))
      from_frame (some page, w) e1 = from_table page w (proc_pagetable env page w) e1 refl

  -- `allocproc` marks the first UNUSED entry USED, with the next pid, priority 5, the accumulator
  -- minimum, a trapframe and a page table, and returns it; or, when memory runs out, it frees that
  -- entry again and returns none, the pid being spent; or, when no entry is UNUSED, it returns none
  -- and changes nothing. No other entry changes.
  pub allocproc_lem : (k : Kernel World) → Succeeds k ⊎ OutOfMemory k ⊎ TableFull k
  allocproc_lem k = elim (Option-cases (find_unused 0 k.procs)) [
    | inl e ↦ inr (inr (find_unused-none 0 k.procs e, table_full k e))
    | inr (i, e) ↦
        (let (d, at_d, f) = find_unused-some 0 k.procs {i = i} e in
          let i_d : i ≡ d = omega (arith, at_d) in
          elim (alloc_found k d f (rw (← i_d) e)) [ inl ok ↦ inl ok | inr out ↦ inr (inl out) ])
  ]
