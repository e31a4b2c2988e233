-- ===== src/Exec/Starts.antt =====
-- The image that `exec` of ex5/bonus/exec.c starts.
use os_course.Prelude.{
  ℕ, zero, suc, ◌+◌, ◌*◌, ◌%◌, ◌^◌, ◌<◌, ◌≤◌, ◌≡◌, ◌⊎◌, refl, Bool, true, false, Option, none, some,
  List, [], arith, ltb, leb, ◌==◌, ◌||◌, is_unset, if◌then◌else◌, length, inl, inr,
}
use os_course.Prelude.Int.{pos, negsuc}
use mathlib.Core.Path.{subst}
use os_course.Exec.{
  CharList, Rights, ElfHeader, ProgramHeader, Machine, Image, minus, lower, pgsize, maxarg,
  page_round_up, flags2perm, may_execute, ExecOutcome, returned, panics, overruns, Segment, loaded,
  short, no_page, no_fuel, Loading, loading, stopped, panicked, Pushed, pushed, overflowed, filled,
  mapped, load_segment, load_step, load_program, push_strings, close, commit, push_pointers,
  build_stack, after_load, with_table, with_header, opened, exec,
}
use os_course.Exec.Stack.{Fit, lower-bounds, push_strings_lem}
use os_course.Exec.Loads.{if-cases}

module _ {W P : Type 0} (m : Machine W P) where
  module _ (path : CharList) (argv : List CharList) (p : Image P) where
    -- What `uvmalloc` is for, on a size below MAXVA: it gives 0, or a size up to there that has room for
    -- both.
    abbrev pub Grows : Type 0
    Grows =
        (pt : P) (old new : ℕ) (r : Rights) (w : W)
        → old ≤ 2 ^ 38
        → ((m.uvmalloc pt old new r w).0 ≡ 0)
          ⊎ ((old ≤ (m.uvmalloc pt old new r w).0)
              × (new ≤ (m.uvmalloc pt old new r w).0)
              × ((m.uvmalloc pt old new r w).0 ≤ 2 ^ 38))

    abbrev Started : ExecOutcome W P → Type 0
    Started (returned (pos k) q w) =
        (k ≡ length argv)
        × (k < maxarg)
        × (q.a1 ≡ q.sp)
        × (q.sp % 16 ≡ 0)
        × (q.sz ≤ q.sp + pgsize)
        × (q.sp + (k + 1) * 8 ≤ q.sz)
    Started (returned (negsuc k) q w) = Unit {0}
    Started panics = Unit {0}
    Started overruns = Unit {0}

    module _ (fit : Fit argv) where
      commit-Started :
          (elf : ElfHeader) (pt : P) (sz sp : ℕ) (us : List ℕ) (r : Bool × W)
          → length us ≡ length argv
          → length us < maxarg
          → sp % 16 ≡ 0
          → sz ≤ sp + pgsize
          → sp + (length us + 1) * 8 ≤ sz
          → Started (commit m path argv p elf pt sz sp us r)
      commit-Started elf pt sz sp us (false, w) long few aligned above below = tt
      commit-Started elf pt sz sp us (true, w) long few aligned above below =
          (long, few, refl, aligned, above, below)

      push_pointers-Started :
          (elf : ElfHeader) (pt : P) (sz end : ℕ) (us : List ℕ) (w : W)
          → 2 * pgsize ≤ sz
          → sz < 2 ^ 64
          → length us ≡ length argv
          → length us ≤ maxarg
          → sz ≤ end + pgsize
          → end ≤ sz
          → Started (push_pointers m path argv p elf pt sz (pushed end us w))
      push_pointers-Started elf pt sz end us w big small long few above below =
          let n = (length us + 1) * 8 in
          let (aligned, fits) = lower-bounds end n (omega arith) (omega arith) in
          if-cases (λ o. Started o) (leb maxarg (length us)) _ _ (λ e. tt)
            (λ e.
              if-cases (λ o. Started o) (ltb (lower end n) (minus sz pgsize)) _ _ (λ e'. tt)
                (λ e'.
                  commit-Started elf pt sz (lower end n) us _ long (ground (arith, e)) aligned
                    (ground (arith, e', big, small)) (omega (arith, fits))))

      push_strings-Started :
          (elf : ElfHeader) (pt : P) (sz : ℕ) (w : W)
          → 2 * pgsize ≤ sz
          → sz ≤ 2 ^ 38
          → (r : Pushed W) → push_strings m pt (minus sz pgsize) argv 0 sz [] w ≡ r
          → Started (push_pointers m path argv p elf pt sz r)
      push_strings-Started elf pt sz w big small (overflowed v) e = tt
      push_strings-Started elf pt sz w big small (pushed end us v) e =
          let base : minus sz pgsize + pgsize ≡ sz = omega arith in
          let (placed, above, below, long, few) =
            push_strings_lem m pt (minus sz pgsize) argv sz end us w v fit (omega (arith, base))
              (omega (arith, base)) (omega arith) e in
          push_pointers-Started elf pt sz end us v big (omega arith) long (omega (arith, long, few))
            (omega (arith, base, above)) below

      build_stack-Started :
          (elf : ElfHeader) (pt : P) (top : ℕ) (r : ℕ × W)
          → (r.0 ≡ 0) ⊎ ((2 * pgsize ≤ r.0) × (r.0 ≤ 2 ^ 38))
          → Started (build_stack m path argv p elf pt top r)
      build_stack-Started elf pt top (zero, w) h = tt
      build_stack-Started elf pt top (suc k, w) (inl z) = absurd (omega (arith, z))
      build_stack-Started elf pt top (suc k, w) (inr h) =
          push_strings-Started elf pt (suc k) _ h.0 h.1 _ refl

      module _ (grows : Grows) where
        abbrev Small : Loading W → Type 0
        Small (loading sz w) = sz ≤ 2 ^ 38
        Small (stopped sz w) = Unit {0}
        Small panicked = Unit {0}

        filled-Small :
            (pt : P) (ip sz : ℕ) (r : Segment W) → sz ≤ 2 ^ 38 → Small (filled m pt ip sz r)
        filled-Small pt ip sz (loaded w) h = h
        filled-Small pt ip sz (short w) h = tt
        filled-Small pt ip sz no_page h = tt
        filled-Small pt ip sz no_fuel h = tt

        mapped-Small :
            (pt : P) (ip : ℕ) (ph : ProgramHeader) (sz : ℕ) (r : ℕ × W)
            → r.0 ≤ 2 ^ 38
            → Small (mapped m pt ip ph sz r)
        mapped-Small pt ip ph sz (zero, w) h = tt
        mapped-Small pt ip ph sz (suc k, w) h = filled-Small pt ip (suc k) _ h

        user_size :
            (pt : P) (old new : ℕ) (r : Rights) (w : W)
            → old ≤ 2 ^ 38
            → (m.uvmalloc pt old new r w).0 ≤ 2 ^ 38
        user_size pt old new r w h = elim (grows pt old new r w h) [
          | inl z ↦ omega (arith, z)
          | inr g ↦ g.2
        ]

        load_segment-Small :
            (pt : P) (ip sz : ℕ) (r : Option ProgramHeader × W)
            → sz ≤ 2 ^ 38
            → Small (load_segment m pt ip sz r)
        load_segment-Small pt ip sz (none, w) h = tt
        load_segment-Small pt ip sz (some ph, w) h =
            let end = (ph.vaddr + ph.memsz) % 2 ^ 64 in
            let unfit =
              ltb ph.memsz ph.filesz || ltb end ph.vaddr || is_unset (ph.vaddr % pgsize == 0) in
            let maps = mapped m pt ip ph sz (m.uvmalloc pt sz end (flags2perm ph.flags) w) in
            if-cases (λ r. Small r) (is_unset (ph.type == m.elf_prog_load)) (loading sz w)
              (if unfit then stopped sz w else maps) (λ e. h)
              (λ e.
                if-cases (λ r. Small r) unfit (stopped sz w) maps (λ e'. tt)
                  (λ e'.
                    mapped-Small pt ip ph sz (m.uvmalloc pt sz end (flags2perm ph.flags) w)
                      (user_size pt sz end (flags2perm ph.flags) w h)))

        load_step-Small :
            (pt : P) (ip off : ℕ) (r : Loading W) → Small r → Small (load_step m pt ip off r)
        load_step-Small pt ip off (loading sz w) h = load_segment-Small pt ip sz _ h
        load_step-Small pt ip off (stopped sz w) h = tt
        load_step-Small pt ip off panicked h = tt

        load_program-Small :
            (pt : P) (ip n off : ℕ) (r : Loading W) → Small r → Small (load_program m pt ip n off r)
        unfolding load_program
        load_program-Small pt ip zero off r h = h
        load_program-Small pt ip (suc n) off r h =
            load_program-Small pt ip n ((off + 56) % 2 ^ 32) (load_step m pt ip off r)
              (load_step-Small pt ip off r h)

        after_load-Started :
            (elf : ElfHeader) (pt : P) (ip : ℕ) (r : Loading W)
            → Small r
            → Started (after_load m path argv p elf pt ip r)
        after_load-Started elf pt ip (loading sz w) h =
            let top = page_round_up sz in
            let stack : Rights = record { executes = false; writes = true } in
            build_stack-Started elf pt top _
              (elim (grows pt top ((top + 2 * pgsize) % 2 ^ 64) stack (close m (some ip) w)
                (omega arith)) [ inl z ↦ inl z | inr g ↦ inr (omega (arith, g.1), g.2) ])
        after_load-Started elf pt ip (stopped sz w) h = tt
        after_load-Started elf pt ip panicked h = tt

        with_table-Started :
            (ip : ℕ) (elf : ElfHeader) (r : Option P × W)
            → Started (with_table m path argv p ip elf r)
        with_table-Started ip elf (none, w) = tt
        with_table-Started ip elf (some pt, w) =
            after_load-Started elf pt ip _
              (load_program-Small pt ip elf.phnum _ (loading 0 w) (omega arith))

        with_header-Started :
            (ip : ℕ) (r : Option ElfHeader × W) → Started (with_header m path argv p ip r)
        with_header-Started ip (none, w) = tt
        with_header-Started ip (some elf, w) =
            if-cases (λ o. Started o) (elf.magic == m.elf_magic) _ _
              (λ e. with_table-Started ip elf _) (λ e. tt)

        opened-Started : (r : Option ℕ × W) → Started (opened m path argv p r)
        opened-Started (none, w) = tt
        opened-Started (some ip, w) =
            if-cases (λ o. Started o) (may_execute (m.permissions ip (m.ilock ip w))) _ _
              (λ e. with_header-Started ip _) (λ e. tt)

        -- Provided that every argument is shorter than a page and `uvmalloc` gives 0 or a user's size with room
        -- for both that it is asked for: when `exec` succeeds it returns the number of arguments, which is below MAXARG;
        -- the new stack pointer, which is also in `a1`, is a multiple of 16, lies within the last page of the
        -- new size, and has room above it for that many pointers and a null.
        pub exec_starts :
            (w w' : W) (k : ℕ) (q : Image P)
            → exec m path argv p w ≡ returned (pos k) q w'
            → (k ≡ length argv)
              × (k < maxarg)
              × (q.a1 ≡ q.sp)
              × (q.sp % 16 ≡ 0)
              × (q.sz ≤ q.sp + pgsize)
              × (q.sp + (k + 1) * 8 ≤ q.sz)
        unfolding exec
        exec_starts w w' k q e =
            subst (λ o. Started o) e (opened-Started (m.namei path (m.begin_op w)))
