-- ===== src/Files/Spawn/Pipe.antt =====
-- The descriptors and the files that `sys_pipe` of ex5/bonus/sysfile.c makes.
use os_course.Prelude.{
  ℕ, zero, suc, ◌+◌, ◌%◌, ◌^◌, ◌<◌, ◌≡◌, ◌≢◌, ◌⊎◌, ◌∙◌, sym, ap, refl, arith, Bool, true, false,
  Option, none, some, List, [], ◌∷◌, length, get_or, set, get_or-set, get_or-set_here, Option-cases,
  inl, inr,
}
use os_course.Prelude.Int.{ℤ}
use os_course.Prelude.Word.{success, failure}
use mathlib.Core.Path.{subst}
use os_course.Proc.{nofile}
use os_course.Files.{fdalloc}
use os_course.Files.Descriptors.{fdalloc_from_lem, put_back}
use os_course.Files.Spawn.{
  close_both, told_write, told_read, with_write_end, with_read_end, with_pipe, sys_pipe,
}

set-set_ne :
    {A : Type 0} (xs : List A) (i j : ℕ) (a b : A)
    → i ≢ j
    → set (set xs i a) j b ≡ set (set xs j b) i a
set-set_ne [] i j a b h = refl
set-set_ne (x ∷ xs) zero zero a b h = absurd (h refl)
set-set_ne (x ∷ xs) zero (suc j) a b h = refl
set-set_ne (x ∷ xs) (suc i) zero a b h = refl
set-set_ne (x ∷ xs) (suc i) (suc j) a b h =
    ap (λ t. x ∷ t) (set-set_ne xs i j a b (λ e. h (ap suc e)))

-- What a descriptor that `fdalloc` gives is.
abbrev Fresh : List (Option ℕ) → ℕ → Type 0
Fresh ofile fd = (fd < nofile) × (get_or ofile fd none ≡ none)

fdalloc-Fresh :
    (f : ℕ) (ofile : List (Option ℕ)) (fd : ℕ) (ofile' : List (Option ℕ))
    → fdalloc f ofile ≡ some (fd, ofile')
    → Fresh ofile fd × (ofile' ≡ set ofile fd (some f))
unfolding fdalloc
fdalloc-Fresh f ofile fd ofile' got =
    let (le, lt, free, made) = fdalloc_from_lem nofile 0 f ofile fd ofile' got in
    ((omega (arith, lt), free), made)

-- Two descriptors that were filled after each other, both taken back.
both_back :
    (ofile : List (Option ℕ)) (fd0 fd1 rf wf : ℕ)
    → length ofile ≡ nofile
    → Fresh ofile fd0
    → Fresh (set ofile fd0 (some rf)) fd1
    → (fd0 ≢ fd1)
      × (get_or ofile fd1 none ≡ none)
      × (set (set (set (set ofile fd0 (some rf)) fd1 (some wf)) fd0 none) fd1 none ≡ ofile)
both_back ofile fd0 fd1 rf wf size (lt0, free0) (lt1, free1) =
    let apart : fd0 ≢ fd1 = λ e. absurd (
      ground (
        arith,
        sym (get_or-set_here ofile fd0 (some rf) none (omega (arith, lt0, size)))
            ∙ ap (λ k. get_or (set ofile fd0 (some rf)) k none) e
            ∙ free1,
      )) in
    let free1' : get_or ofile fd1 none ≡ none =
      ground (arith, get_or-set ofile fd0 (some rf) fd1 none, apart, free1) in
    (
      apart,
      free1',
      ap (λ t. set t fd1 none)
            (set-set_ne (set ofile fd0 (some rf)) fd1 fd0 (some wf) none (λ e. apart (sym e)))
          ∙ ap (λ t. set (set t fd1 (some wf)) fd1 none) (put_back ofile fd0 rf free0)
          ∙ put_back ofile fd1 wf free1',
    )

-- `Refs n w`: `n` references to open files are held.
module _ {W : Type 0} (pipealloc : W → Option (ℕ × ℕ) × W) (fileclose : ℕ → W → W)
    (copyout : ℕ → ℕ → W → Bool × W) (Refs : ℕ → W → Type 0) where
  abbrev pub Piped : ℕ → Option (ℕ × ℕ) × W → Type 0
  Piped n (none, w) = Refs n w
  Piped n (some files, w) = Refs (suc (suc n)) w

  pub record Counts : Type 0 where
    pub pipes : (n : ℕ) (w : W) → Refs n w → Piped n (pipealloc w)
    pub closes : (n f : ℕ) (w : W) → Refs (suc n) w → Refs n (fileclose f w)
    pub tells : (n addr fd : ℕ) (w : W) → Refs n w → Refs n (copyout addr fd w).1

  -- A call that has failed leaves nothing behind.
  abbrev pub Undone : ℕ → List (Option ℕ) → ℤ × List (Option ℕ) × W → Type 0
  Undone n ofile r = (r.0 ≡ failure) × (r.1 ≡ ofile) × Refs n r.2

  -- The two ends stand at two descriptors that were free, which the process was told.
  abbrev pub Made : ℕ → ℕ → List (Option ℕ) → ℤ × List (Option ℕ) × W → Type 0
  Made n fdarray ofile r =
      (rf : ℕ) × (wf : ℕ) × (fd0 : ℕ) × (fd1 : ℕ) × (v : W) × (r.0 ≡ success)
      × (r.1 ≡ set (set ofile fd0 (some rf)) fd1 (some wf))
      × Fresh ofile fd0
      × Fresh ofile fd1
      × (fd0 ≢ fd1)
      × ((copyout fdarray fd0 v).0 ≡ true)
      × ((copyout ((fdarray + 4) % 2 ^ 64) fd1 (copyout fdarray fd0 v).1).0 ≡ true)
      × Refs (suc (suc n)) r.2

  module _ (laws : Counts) where
    close_both-Undone :
        (n rf wf : ℕ) (ofile back : List (Option ℕ)) (w : W)
        → back ≡ ofile
        → Refs (suc (suc n)) w
        → Undone n ofile (close_both pipealloc fileclose copyout rf wf back w)
    close_both-Undone n rf wf ofile back w e h =
        (refl, e, laws.closes n wf (fileclose rf w) (laws.closes (suc n) rf w h))

    abbrev Ends : ℕ → ℕ → List (Option ℕ) → ℤ × List (Option ℕ) × W → Type 0
    Ends n fdarray ofile r = Undone n ofile r ⊎ Made n fdarray ofile r

    told_read-Ends :
        (n fdarray rf wf fd0 fd1 : ℕ) (ofile : List (Option ℕ)) (w : W)
        → length ofile ≡ nofile
        → Fresh ofile fd0
        → Fresh (set ofile fd0 (some rf)) fd1
        → Refs (suc (suc n)) w
        → Ends n fdarray ofile (
            told_read pipealloc fileclose copyout fdarray rf wf fd0 fd1
              (set (set ofile fd0 (some rf)) fd1 (some wf))
              (copyout fdarray fd0 w))
    told_read-Ends n fdarray rf wf fd0 fd1 ofile w size new0 new1 h =
        read (copyout fdarray fd0 w) refl (laws.tells (suc (suc n)) fdarray fd0 w h)
      where
        made : List (Option ℕ)
        made = set (set ofile fd0 (some rf)) fd1 (some wf)

        next : ℕ
        next = (fdarray + 4) % 2 ^ 64

        back :
            (fd0 ≢ fd1)
            × (get_or ofile fd1 none ≡ none)
            × (set (set made fd0 none) fd1 none ≡ ofile)
        back = both_back ofile fd0 fd1 rf wf size new0 new1

        write :
            (v : W) (y : Bool × W)
            → (true, v) ≡ copyout fdarray fd0 w
            → y ≡ copyout next fd1 v
            → Refs (suc (suc n)) y.1
            → Ends n fdarray ofile (told_write pipealloc fileclose copyout rf wf fd0 fd1 made y)
        write v (false, u) e e' hu =
            inl (close_both-Undone n rf wf ofile (set (set made fd0 none) fd1 none) u (back.2) hu)
        write v (true, u) e e' hu = inr (
          rf,
          wf,
          fd0,
          fd1,
          w,
          refl,
          refl,
          new0,
          (new1.0, back.1),
          back.0,
          sym (ap (λ z. z.0) e),
          ap (λ z. (copyout next fd1 z.1).0) (sym e) ∙ sym (ap (λ z. z.0) e'),
          hu,
        )

        read :
            (x : Bool × W)
            → x ≡ copyout fdarray fd0 w
            → Refs (suc (suc n)) x.1
            → Ends n fdarray ofile
                (told_read pipealloc fileclose copyout fdarray rf wf fd0 fd1 made x)
        read (false, v) e hv =
            inl (close_both-Undone n rf wf ofile (set (set made fd0 none) fd1 none) v (back.2) hv)
        read (true, v) e hv =
            write v (copyout next fd1 v) e refl (laws.tells (suc (suc n)) next fd1 v hv)

    with_read_end-Ends :
        (n fdarray rf wf : ℕ) (ofile : List (Option ℕ)) (w : W)
        → length ofile ≡ nofile
        → Refs (suc (suc n)) w
        → Ends n fdarray ofile
            (with_read_end pipealloc fileclose copyout fdarray rf wf ofile w (fdalloc rf ofile))
    with_read_end-Ends n fdarray rf wf ofile w size h = elim (Option-cases (fdalloc rf ofile)) [
      | inl e ↦
          subst
            (λ x.
              Ends n fdarray ofile
                (with_read_end pipealloc fileclose copyout fdarray rf wf ofile w x))
            (sym e) (inl (close_both-Undone n rf wf ofile ofile w refl h))
      | inr ((fd0, ofile1), e) ↦
          let (new0, made0) = fdalloc-Fresh rf ofile fd0 ofile1 e in
          subst
            (λ x.
              Ends n fdarray ofile
                (with_read_end pipealloc fileclose copyout fdarray rf wf ofile w x))
            (sym (e ∙ ap (λ t. some (fd0, t)) made0))
            (second fd0 new0 (Option-cases (fdalloc wf (set ofile fd0 (some rf)))))
    ]
      where
        second :
            (fd0 : ℕ)
            → Fresh ofile fd0
            → let ofile1 = set ofile fd0 (some rf) in
              (fdalloc wf ofile1 ≡ none)
                ⊎ ((x : ℕ × List (Option ℕ)) × (fdalloc wf ofile1 ≡ some x))
              → Ends n fdarray ofile (
                  with_write_end pipealloc fileclose copyout fdarray rf wf fd0 ofile1 w
                    (fdalloc wf ofile1))
        second fd0 new0 (inl e) =
            let ofile1 = set ofile fd0 (some rf) in
            subst
              (λ x.
                Ends n fdarray ofile
                  (with_write_end pipealloc fileclose copyout fdarray rf wf fd0 ofile1 w x))
              (sym e)
              (inl (
                close_both-Undone n rf wf ofile (set ofile1 fd0 none) w
                  (put_back ofile fd0 rf (new0.1)) h))
        second fd0 new0 (inr ((fd1, ofile2), e)) =
            let ofile1 = set ofile fd0 (some rf) in
            let (new1, made1) = fdalloc-Fresh wf ofile1 fd1 ofile2 e in
            subst
              (λ x.
                Ends n fdarray ofile
                  (with_write_end pipealloc fileclose copyout fdarray rf wf fd0 ofile1 w x))
              (sym (e ∙ ap (λ t. some (fd1, t)) made1))
              (told_read-Ends n fdarray rf wf fd0 fd1 ofile w size new0 new1 h)

    -- `sys_pipe` with a table of NOFILE entries: it returns 0, and the two ends of the pipe stand at two
    -- different descriptors that were free, both of which were written to the caller's array; or it returns
    -- -1, and the table is as it was and as many references to files are held as before, whether there is
    -- no pipe, no first or second descriptor is free, or the first or the second `copyout` fails.
    pub sys_pipe-Ends :
        (n fdarray : ℕ) (ofile : List (Option ℕ)) (w : W)
        → length ofile ≡ nofile
        → Refs n w
        → Undone n ofile (sys_pipe pipealloc fileclose copyout fdarray ofile w)
          ⊎ Made n fdarray ofile (sys_pipe pipealloc fileclose copyout fdarray ofile w)
    unfolding sys_pipe
    sys_pipe-Ends n fdarray ofile w size h = from (pipealloc w) (laws.pipes n w h)
      where
        from :
            (x : Option (ℕ × ℕ) × W)
            → Piped n x
            → Ends n fdarray ofile (with_pipe pipealloc fileclose copyout fdarray ofile x)
        from (none, v) hv = inl (refl, refl, hv)
        from (some (rf, wf), v) hv = with_read_end-Ends n fdarray rf wf ofile v size hv
