-- ===== src/Exec/Loads.antt =====
-- The loop of `loadseg` in ex5/bonus/exec.c.
use os_course.Prelude.{
  ℕ, zero, suc, ◌+◌, ◌*◌, ◌/◌, ◌%◌, ◌^◌, ◌≤◌, ◌≡◌, sym, refl, Bool, true, false, arith, ltb, ◌==◌,
  if◌then◌else◌, Bool-cases, inl, inr,
}
use mathlib.Core.Path.{subst}
use os_course.Exec.{
  Machine, pgsize, Segment, loaded, short, no_page, no_fuel, read_page, load_page, loadseg_from,
  loadseg,
}

pub if-cases :
    {A : Type 0} (P : A → Type 0) (b : Bool) (x y : A)
    → (b ≡ true → P x)
    → (b ≡ false → P y)
    → P (if b then x else y)
if-cases P b x y f g = elim (Bool-cases b) [
  | inl e ↦ subst (λ c. P (if c then x else y)) (sym e) (f e)
  | inr e ↦ subst (λ c. P (if c then x else y)) (sym e) (g e)
]

abbrev pub stuck : {W : Type 0} → Segment W → Bool
stuck (loaded w) = false
stuck (short w) = false
stuck no_page = false
stuck no_fuel = true

module _ {W P : Type 0} (m : Machine W P) where
  read_page-stuck :
      (pt : P) (va ip offset sz : ℕ) (rest : W → Segment W) (r : Bool × W)
      → ((w : W) → stuck (rest w) ≡ false)
      → stuck (read_page m pt va ip offset sz rest r) ≡ false
  read_page-stuck pt va ip offset sz rest (true, w) h = h w
  read_page-stuck pt va ip offset sz rest (false, w) h = refl

  load_page-stuck :
      (pt : P) (va ip offset sz : ℕ) (rest : W → Segment W) (i : ℕ) (w : W)
      → ((v : W) → stuck (rest v) ≡ false)
      → stuck (load_page m pt va ip offset sz rest i w) ≡ false
  load_page-stuck pt va ip offset sz rest i w h =
      if-cases (λ r. stuck r ≡ false) (m.walkaddr pt ((va + i) % 2 ^ 64) w == 0) no_page _
        (λ e. refl) (λ e. read_page-stuck pt va ip offset sz rest _ h)

  loadseg_from-stuck :
      (pt : P) (va ip offset sz fuel i : ℕ) (w : W)
      → sz + pgsize ≤ 2 ^ 32
      → sz ≤ i + fuel * pgsize
      → stuck (loadseg_from m pt va ip offset sz (suc fuel) i w) ≡ false
  unfolding loadseg_from
  loadseg_from-stuck pt va ip offset sz zero i w small enough =
      if-cases (λ r. stuck r ≡ false) (ltb i sz) _ (loaded w) (λ e. absurd (ground (arith, e)))
        (λ e. refl)
  loadseg_from-stuck pt va ip offset sz (suc fuel) i w small enough =
      if-cases (λ r. stuck r ≡ false) (ltb i sz) _ (loaded w)
        (λ e.
          load_page-stuck pt va ip offset sz
            (λ v. loadseg_from m pt va ip offset sz (suc fuel) ((i + pgsize) % 2 ^ 32) v) i w
            (λ v.
              loadseg_from-stuck pt va ip offset sz fuel ((i + pgsize) % 2 ^ 32) v small
                (ground (arith, e))))
        (λ e. refl)

  -- Every segment that does not end in the last page of the 32-bit numbers is loaded, or stopped at,
  -- after one turn for each page: the loop does not go on for ever.
  pub loadseg_terminates :
      (pt : P) (va ip offset sz : ℕ) (w : W)
      → sz + pgsize ≤ 2 ^ 32
      → stuck (loadseg m pt va ip offset sz w) ≡ false
  loadseg_terminates pt va ip offset sz w small =
      loadseg_from-stuck pt va ip offset sz (suc (sz / pgsize)) 0 w small (omega arith)
