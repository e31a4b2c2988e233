-- ===== src/Exec/Clean.antt =====
-- How `exec` of ex5/bonus/exec.c ends.
use os_course.Prelude.{
  ℕ, zero, suc, ◌+◌, ◌*◌, ◌≡◌, ◌⊎◌, ◌∙◌, sym, ap, refl, Bool, true, false, Option, none, some, List,
  [], arith, ltb, leb, ◌==◌, if◌then◌else◌, length, Bool-cases, inl, inr,
}
use os_course.Prelude.Int.{ℤ, pos, negsuc}
use os_course.Prelude.Word.{failure}
use mathlib.Core.Path.{subst}
use os_course.Exec.{
  CharList, ElfHeader, Machine, Image, minus, lower, pgsize, maxarg, page_round_up, may_execute,
  ExecOutcome, returned, panics, overruns, Loading, loading, stopped, panicked, Pushed, pushed,
  overflowed, close, commit, push_strings, push_pointers, build_stack, after_load, with_table,
  with_header, opened, exec,
}
use os_course.Fs.{bit_at}
use os_course.Exec.Loads.{if-cases}

may_execute-cases : (k : ℤ) → may_execute k ≡ true → (k ≡ pos 0) ⊎ (bit_at 6 k ≡ true)
may_execute-cases (pos zero) h = inl refl
may_execute-cases (pos (suc n)) h = inr (ground (arith, h))
may_execute-cases (negsuc n) h = inr (ground (arith, h))

module _ {W P : Type 0} (m : Machine W P) where
  module _ (path : CharList) (argv : List CharList) (p : Image P) where
    abbrev Kept : ExecOutcome W P → Type 0
    Kept (returned (pos k) q w) = Unit {0}
    Kept (returned (negsuc k) q w) = q ≡ p
    Kept panics = Unit {0}
    Kept overruns = Unit {0}

    module _ (elf : ElfHeader) (pt : P) where
      commit-Kept :
          (sz sp : ℕ) (us : List ℕ) (r : Bool × W) → Kept (commit m path argv p elf pt sz sp us r)
      commit-Kept sz sp us (false, w) = refl
      commit-Kept sz sp us (true, w) = tt

      push_pointers-Kept : (sz : ℕ) (r : Pushed W) → Kept (push_pointers m path argv p elf pt sz r)
      push_pointers-Kept sz (overflowed w) = refl
      push_pointers-Kept sz (pushed sp us w) =
          if-cases (λ o. Kept o) (leb maxarg (length us)) _ _ (λ e. tt)
            (λ e.
              if-cases (λ o. Kept o) (ltb (lower sp ((length us + 1) * 8)) (minus sz pgsize)) _ _
                (λ e'. refl) (λ e'. commit-Kept sz _ us _))

      build_stack-Kept : (sz : ℕ) (r : ℕ × W) → Kept (build_stack m path argv p elf pt sz r)
      build_stack-Kept sz (zero, w) = refl
      build_stack-Kept sz (suc k, w) = push_pointers-Kept (suc k) (
          push_strings m pt (minus (suc k) pgsize) argv 0 (suc k) []
            (m.uvmclear pt (minus (suc k) (2 * pgsize)) w))

      after_load-Kept : (ip : ℕ) (r : Loading W) → Kept (after_load m path argv p elf pt ip r)
      after_load-Kept ip (loading sz w) = build_stack-Kept (page_round_up sz) _
      after_load-Kept ip (stopped sz w) = refl
      after_load-Kept ip panicked = tt

    with_table-Kept :
        (ip : ℕ) (elf : ElfHeader) (r : Option P × W) → Kept (with_table m path argv p ip elf r)
    with_table-Kept ip elf (none, w) = refl
    with_table-Kept ip elf (some pt, w) = after_load-Kept elf pt ip _

    with_header-Kept : (ip : ℕ) (r : Option ElfHeader × W) → Kept (with_header m path argv p ip r)
    with_header-Kept ip (none, w) = refl
    with_header-Kept ip (some elf, w) =
        if-cases (λ o. Kept o) (elf.magic == m.elf_magic) _ _ (λ e. with_table-Kept ip elf _)
          (λ e. refl)

    opened-Kept : (r : Option ℕ × W) → Kept (opened m path argv p r)
    opened-Kept (none, w) = refl
    opened-Kept (some ip, w) =
        if-cases (λ o. Kept o) (may_execute (m.permissions ip (m.ilock ip w))) _ _
          (λ e. with_header-Kept ip _) (λ e. refl)

    -- When `exec` returns an error, whatever it had come to, the process has the page table, the size,
    -- the name and the registers that it had before.
    pub exec_fails_clean :
        (w w' : W) (k : ℕ) (q : Image P) → exec m path argv p w ≡ returned (negsuc k) q w' → q ≡ p
    unfolding exec
    exec_fails_clean w w' k q e = subst (λ o. Kept o) e (opened-Kept (m.namei path (m.begin_op w)))

    abbrev runs : ExecOutcome W P → Bool
    runs (returned (pos k) q w) = true
    runs (returned (negsuc k) q w) = false
    runs panics = false
    runs overruns = false

    opened-runs :
        (r : Option ℕ × W)
        → runs (opened m path argv p r) ≡ true
        → (ip : ℕ) × (v : W) × (r ≡ (some ip, v))
          × (may_execute (m.permissions ip (m.ilock ip v)) ≡ true)
    opened-runs (none, w) e = ground (arith, e)
    opened-runs (some ip, w) e =
        let v = m.ilock ip w in
        elim (Bool-cases (may_execute (m.permissions ip v))) [
          | inl h ↦ (ip, w, refl, h)
          | inr h ↦ ground (
            arith,
            sym (
                  ap
                    (λ b. runs (
                      if b
                      then with_header m path argv p ip (m.read_header ip v)
                      else returned failure p (close m (some ip) v)))
                    h)
                ∙ e,
          )
        ]

    -- `exec` runs only a file that its path names and whose permission bits, as they are once the inode is
    -- locked, let its owner execute it, or are all clear.
    pub exec_permits :
        (w w' : W) (k : ℕ) (q : Image P)
        → exec m path argv p w ≡ returned (pos k) q w'
        → (ip : ℕ) × (v : W) × (m.namei path (m.begin_op w) ≡ (some ip, v))
          × ((m.permissions ip (m.ilock ip v) ≡ pos 0)
              ⊎ (bit_at 6 (m.permissions ip (m.ilock ip v)) ≡ true))
    unfolding exec
    exec_permits w w' k q e =
        let (ip, v, named, may) = opened-runs (m.namei path (m.begin_op w)) (ap runs e) in
        (ip, v, named, may_execute-cases (m.permissions ip (m.ilock ip v)) may)
