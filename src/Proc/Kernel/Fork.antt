-- ===== src/Proc/Kernel/Fork.antt =====
-- What `fork` of ex4/part1/proc.c does, and that it keeps the process ids apart.
use os_course.Prelude.{
  ℕ, ◌≡◌, ◌≢◌, ◌⊎◌, inl, inr, refl, Bool, true, false, none, some, set, arith, get_or-set,
  get_or-set_here, set-set,
}
use os_course.Prelude.Int.{pos, ◌<ℤ◌}
use os_course.Prelude.Word.{int_succ, int_max, failure}
use os_course.Proc.{Proc, runnable, entry, is_unused, zero_proc}
use os_course.Proc.Env.{Env}
use os_course.Proc.Kernel.{
  Kernel, freed, freeproc, allocproc, table_of, child_frame, inherit_files, claim, dup_cwd,
  dup_files, free_table, free_frame, fork,
}
use os_course.Proc.Kernel.Alloc.{IsFirstFree, fresh, allocproc_lem}
use os_course.Proc.Kernel.Pids.{IsLive, PidInv, free-PidInv, next-PidInv, wider-PidInv}

module _ (env : Env) where
  open env use {World, uvmcopy, safestrcpy}

  -- The entry of the child of `p`, entry `me`, over the entry `np` that `allocproc` gave.
  abbrev pub child_of : ℕ → Proc → Proc → Proc
  child_of me p np = record np {
    sz = p.sz;
    trapframe = child_frame p.trapframe np.trapframe;
    ofile = inherit_files p.ofile np.ofile;
    cwd = p.cwd;
    name = safestrcpy p.name 16;
    parent = some me;
    state = runnable;
  }

  -- The child is RUNNABLE in the first UNUSED entry.
  abbrev pub Forks : ℕ → Kernel World → Type 0
  Forks me k =
      (i : ℕ) × IsFirstFree k.procs i
      × ((page : ℕ) × (pt : ℕ) × (w : env.World) × (fork env me k ≡ (
        k.nextpid,
        record k {
          procs =
              set k.procs i
                (child_of me (entry k.procs me) (fresh env page pt i k.nextpid k.procs));
          nextpid = int_succ k.nextpid;
          world = w;
        },
      )))

  -- Nothing but one UNUSED entry, the next pid and the memory has changed.
  abbrev pub Fails : ℕ → Kernel World → Type 0
  Fails me k =
      ((i : ℕ) × IsFirstFree k.procs i
        × ((p : Proc) × (w : env.World) × (is_unused p.state ≡ true)
            × (fork env me k ≡ (
              failure,
              record k { procs = set k.procs i p; nextpid = int_succ k.nextpid; world = w },
            ))))
      ⊎ (fork env me k ≡ (failure, k))

  module _ (me : ℕ) (k : Kernel World) (live : IsLive k.procs me) where
    module _ (i : ℕ) (f : IsFirstFree k.procs i) (page pt : ℕ) (w : env.World) where
      abbrev np : Proc
      np = fresh env page pt i k.nextpid k.procs

      abbrev k' : Kernel env.World
      k' = record k { procs = set k.procs i np; nextpid = int_succ k.nextpid; world = w }

      apart : i ≢ me
      apart e = ground (arith, e, f.free)

      parent_same : entry (set k.procs i np) me ≡ entry k.procs me
      parent_same = ground (arith, get_or-set k.procs i np me zero_proc, apart)

      forked :
          (r : Bool × env.World)
          → allocproc env k ≡ (some i, k')
          → uvmcopy
              (table_of (entry k'.procs me))
              (table_of (entry k'.procs i))
              (entry k'.procs me).sz
              w
            ≡ r
          → Forks me k ⊎ Fails me k
      unfolding fork freeproc
      forked (true, w') e c = inl (
        i,
        f,
        (
          page,
          pt,
          dup_cwd env (entry k.procs me).cwd (dup_files env (entry k.procs me).ofile w'),
          rw (e, c) (simp (parent_same, set-set, get_or-set_here, f.within)),
        ),
      )
      forked (false, w') e c = inr (
          inl (
            i,
            f,
            (
              freed np,
              free_table env np.pagetable np.sz (free_frame env np.trapframe w'),
              refl,
              rw (e, c) (simp (set-set, get_or-set_here, f.within)),
            ),
          ))

    fork-none : {k1 : Kernel World} → allocproc env k ≡ (none, k1) → fork env me k ≡ (failure, k1)
    unfolding fork
    fork-none e = rw e

    -- `fork` by a live entry either fails, returning -1 with every live entry unchanged, or fills
    -- the first UNUSED entry with a RUNNABLE child: the parent's size, open files, directory and
    -- registers, but 0 in a0, the next pid and the accumulator minimum. It returns that pid.
    fork_lem : Forks me k ⊎ Fails me k
    fork_lem = elim (allocproc_lem env k) [
      | inl (i, f, (page, pt, w, e)) ↦ forked i f page pt w _ e refl
      | inr (inl (i, f, (w, e))) ↦
          inr (inl (i, f, (freed (claim i k.nextpid k.procs), w, refl, fork-none e)))
      | inr (inr (full, e)) ↦ inr (inr (fork-none e))
    ]

    -- `fork` by a live entry keeps the pids of live entries different and below `nextpid`, as long
    -- as `nextpid` is below INT_MAX.
    fork-PidInv :
        PidInv k.procs k.nextpid
        → k.nextpid <ℤ pos int_max
        → PidInv (fork env me k).1.procs (fork env me k).1.nextpid
    fork-PidInv inv small = elim fork_lem [
      | inl (i, f, (page, pt, w, e)) ↦ rw e (next-PidInv k.procs k.nextpid i _ inv small refl)
      | inr (inl (i, f, (p, w, off, e))) ↦
          rw e (wider-PidInv _ k.nextpid (free-PidInv k.procs k.nextpid i p inv off) small)
      | inr (inr e) ↦ rw e inv
    ]
