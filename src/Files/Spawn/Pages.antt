-- ===== src/Files/Spawn/Pages.antt =====
-- The pages that `sys_exec` of ex5/bonus/sysfile.c takes for the arguments.
use os_course.Prelude.{
  ℕ, zero, suc, ◌+◌, ◌*◌, ◌%◌, ◌^◌, ◌<◌, ◌≡◌, ◌⊎◌, refl, arith, Bool, true, false, Option, none,
  some, List, [], ◌∷◌, ◌++◌, CharList, ◌==◌, if◌then◌else◌, length, length-append, inl, inr,
}
use os_course.Prelude.Int.{ℤ}
use os_course.Prelude.Word.{failure}
use mathlib.Core.Path.{subst}
use os_course.Exec.{maxarg}
use os_course.Files.{fetchaddr}
use os_course.Files.Spawn.{
  Copied, with_string, with_page, with_uarg, copy_args, free_args, executed, exec_args, sys_exec,
}

module _ {W : Type 0} (copyin : W → ℕ → Option ℕ) (sz : ℕ) (kalloc : W → Option ℕ × W)
    (fetchstr : ℕ → ℕ → W → Bool × W) (kfree : ℕ → W → W) (exec : CharList → List ℕ → W → ℤ × W)
    (Owns : List ℕ → W → Type 0) where
  abbrev pub Paged : List ℕ → Option ℕ × W → Type 0
  Paged pages (none, w) = Owns pages w
  Paged pages (some page, w) = Owns (pages ++ page ∷ []) w

  -- `Owns pages w`: just these pages were taken and not given back, in this order.
  pub record Lends : Type 0 where
    pub takes : (pages : List ℕ) (w : W) → Owns pages w → Paged pages (kalloc w)
    pub frees :
        (page : ℕ) (pages : List ℕ) (w : W) → Owns (page ∷ pages) w → Owns pages (kfree page w)
    pub fetches :
        (pages : List ℕ) (uarg page : ℕ) (w : W)
        → Owns pages w
        → Owns pages (fetchstr uarg page w).1
    pub runs :
        (pages : List ℕ) (path : CharList) (argv : List ℕ) (w : W)
        → Owns pages w
        → Owns pages (exec path argv w).1

  -- The pages of `argv` are those taken, and an ended list leaves room for its null pointer.
  abbrev pub Filled : ℕ → Copied copyin sz kalloc fetchstr kfree exec → Type 0
  Filled m (ok, argv, w) = Owns argv w × (ok ≡ true → length argv < m)

  module _ (laws : Lends) where
    with_string-Filled :
        (next : List ℕ → W → Copied copyin sz kalloc fetchstr kfree exec) (m : ℕ) (argv : List ℕ)
        (page : ℕ) (x : Bool × W)
        → Owns (argv ++ page ∷ []) x.1
        → ((v : W) → Owns (argv ++ page ∷ []) v → Filled m (next (argv ++ page ∷ []) v))
        → Filled m (with_string copyin sz kalloc fetchstr kfree exec next argv page x)
    with_string-Filled next m argv page (false, w) h go = (h, λ e. absurd (ground (arith, e)))
    with_string-Filled next m argv page (true, w) h go = go w h

    with_page-Filled :
        (next : List ℕ → W → Copied copyin sz kalloc fetchstr kfree exec) (m : ℕ) (argv : List ℕ)
        (uarg : ℕ) (x : Option ℕ × W)
        → Paged argv x
        → ((page : ℕ) (v : W) → Owns (argv ++ page ∷ []) v → Filled m (next (argv ++ page ∷ []) v))
        → Filled m (with_page copyin sz kalloc fetchstr kfree exec next argv uarg x)
    with_page-Filled next m argv uarg (none, w) h go = (h, λ e. absurd (ground (arith, e)))
    with_page-Filled next m argv uarg (some page, w) h go =
        with_string-Filled next m argv page (fetchstr uarg page w)
          (laws.fetches (argv ++ page ∷ []) uarg page w h) (go page)

    with_uarg-Filled :
        (next : List ℕ → W → Copied copyin sz kalloc fetchstr kfree exec) (m : ℕ) (argv : List ℕ)
        (w : W) (x : Option ℕ)
        → Owns argv w
        → length argv < m
        → ((page : ℕ) (v : W) → Owns (argv ++ page ∷ []) v → Filled m (next (argv ++ page ∷ []) v))
        → Filled m (with_uarg copyin sz kalloc fetchstr kfree exec next argv w x)
    with_uarg-Filled next m argv w none h few go = (h, λ e. absurd (ground (arith, e)))
    with_uarg-Filled next m argv w (some uarg) h few go =
        both (uarg == 0) (h, λ e. few)
          (with_page-Filled next m argv uarg (kalloc w) (laws.takes argv w h) go)
      where
        both :
            (b : Bool) {x y : Copied copyin sz kalloc fetchstr kfree exec}
            → Filled m x
            → Filled m y
            → Filled m (if b then x else y)
        both true hx hy = hx
        both false hx hy = hy

    pub copy_args-Filled :
        (n i uargv : ℕ) (argv : List ℕ) (w : W)
        → Owns argv w
        → length argv ≡ i
        → Filled (i + n) (copy_args copyin sz kalloc fetchstr kfree exec n i uargv argv w)
    unfolding copy_args
    copy_args-Filled zero i uargv argv w h e = (h, λ t. absurd (ground (arith, t)))
    copy_args-Filled (suc n) i uargv argv w h e =
        let next : List ℕ → W → Copied copyin sz kalloc fetchstr kfree exec =
          λ a v. copy_args copyin sz kalloc fetchstr kfree exec n (suc i) uargv a v in
        with_uarg-Filled next (i + suc n) argv w
          (fetchaddr (copyin w) sz ((uargv + 8 * i) % 2 ^ 64)) h (omega arith)
          (λ page v hv.
            subst (λ m. Filled m (next (argv ++ page ∷ []) v)) {x = suc i + n} {y = i + suc n}
              (omega arith)
              (copy_args-Filled n (suc i) uargv (argv ++ page ∷ []) v hv
                (omega (arith, e, length-append argv (page ∷ [])))))

    free_args-Owns :
        (argv : List ℕ) (w : W)
        → Owns argv w
        → Owns [] (free_args copyin sz kalloc fetchstr kfree exec argv w)
    unfolding free_args
    free_args-Owns [] w h = h
    free_args-Owns (page ∷ argv) w h = free_args-Owns argv (kfree page w) (laws.frees page argv w h)

    -- No page is left, and `exec` has run with few enough arguments, if at all.
    abbrev pub Freed : CharList → ℤ × W → Type 0
    Freed path r =
        Owns [] r.1
        × ((r.0 ≡ failure)
            ⊎ ((argv : List ℕ) × (v : W) × (length argv < maxarg)
                × (r ≡ executed copyin sz kalloc fetchstr kfree exec argv (exec path argv v))))

    exec_args-Freed :
        (path : CharList) (x : Copied copyin sz kalloc fetchstr kfree exec)
        → Filled maxarg x
        → Freed path (exec_args copyin sz kalloc fetchstr kfree exec path x)
    exec_args-Freed path (false, argv, w) (h, few) = (free_args-Owns argv w h, inl refl)
    exec_args-Freed path (true, argv, w) (h, few) =
        let x = exec path argv w in
        (free_args-Owns argv x.1 (laws.runs argv path argv w h), inr (argv, w, few refl, refl))

    -- `sys_exec` gives every page back that it takes, just once and on every path, whether a word or a string
    -- of the arguments cannot be read, no page is left, the arguments are too many, or `exec` runs and
    -- returns. It returns -1, or what `exec` returns with fewer than MAXARG arguments, so that the array has
    -- room for the null pointer after them.
    pub sys_exec-Freed :
        (path : CharList) (uargv : ℕ) (w : W)
        → Owns [] w
        → Freed path (sys_exec copyin sz kalloc fetchstr kfree exec (some path) uargv w)
    unfolding sys_exec
    sys_exec-Freed path uargv w h =
        exec_args-Freed path (copy_args copyin sz kalloc fetchstr kfree exec maxarg 0 uargv [] w)
          (copy_args-Filled maxarg 0 uargv [] w h refl)
