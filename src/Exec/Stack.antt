-- ===== src/Exec/Stack.antt =====
-- Where ex5/bonus/exec.c puts the arguments of a program on its stack.
use os_course.Prelude.{
  ℕ, suc, ◌+◌, ◌%◌, ◌^◌, ◌<◌, ◌≤◌, ◌≡◌, ◌∙◌, sym, ap, refl, Bool, true, false, List, [], ◌∷◌, ◌++◌,
  arith, ltb, leb, ◌||◌, if◌then◌else◌, length, Bool-cases, inl, inr,
}
use mathlib.Core.Path.{subst}
use mathlib.Core.List.{append-nil, append_assoc}
use os_course.Exec.{
  CharList, Machine, lower, pgsize, maxarg, Pushed, pushed, overflowed, push_strings,
}

-- Each string of `argv` lies in the stack, below the one before it, at an address that is a multiple
-- of 16; `end` is the address of the last.
abbrev pub Placed : ℕ → ℕ → List CharList → List ℕ → ℕ → Type 0
Placed base sp [] [] end = end ≡ sp
Placed base sp [] (a ∷ us) end = ◌≡◌ {A = Bool} true false
Placed base sp (s ∷ argv) [] end = ◌≡◌ {A = Bool} true false
Placed base sp (s ∷ argv) (a ∷ us) end =
    (a % 16 ≡ 0) × (base ≤ a) × (a + length s + 1 ≤ sp) × Placed base a argv us end

pub lower-bounds : (sp n : ℕ) → n ≤ sp → sp < 2 ^ 64 → (lower sp n % 16 ≡ 0) × (lower sp n + n ≤ sp)
unfolding lower
lower-bounds sp n h small = (omega arith, omega arith)

-- The strings fit in a buffer of a page, as those of `sys_exec` do.
abbrev pub Fit : List CharList → Type 0
Fit [] = Unit {0}
Fit (s ∷ argv) = (length s < pgsize) × Fit argv

-- `us` is what the loop adds to `ustack`.
abbrev Stacked : {W : Type 0} → ℕ → List CharList → ℕ → ℕ → List ℕ → Pushed W → Type 0
Stacked base argv argc sp ustack (pushed end out w) =
    (us : List ℕ) × (out ≡ ustack ++ us)
    × Placed base sp argv us end
    × (argc + length argv ≤ maxarg)
    × (base ≤ end)
    × (end ≤ sp)
    × (length us ≡ length argv)
Stacked base argv argc sp ustack (overflowed w) = Unit {0}

module _ {W P : Type 0} (m : Machine W P) (pt : P) (base : ℕ) where
  cons-Stacked :
      (s : CharList) (argv : List CharList) (argc a sp : ℕ) (ustack : List ℕ) (r : Pushed W)
      → a % 16 ≡ 0
      → base ≤ a
      → a + length s + 1 ≤ sp
      → Stacked base argv (suc argc) a (ustack ++ a ∷ []) r
      → Stacked base (s ∷ argv) argc sp ustack r
  cons-Stacked s argv argc a sp ustack (overflowed w) h low fits v = tt
  cons-Stacked s argv argc a sp ustack (pushed end out w) h low fits
        (us, e, placed, few, above, below, same) =
      (
        a ∷ us,
        e ∙ append_assoc ustack (a ∷ []) us,
        (h, low, fits, placed),
        omega (arith, few),
        above,
        omega arith,
        omega (arith, same),
      )

  push_strings-Stacked :
      (argv : List CharList) (argc sp : ℕ) (ustack : List ℕ) (w : W)
      → Fit argv
      → pgsize ≤ base
      → base ≤ sp
      → sp < 2 ^ 64
      → argc ≤ maxarg
      → Stacked base argv argc sp ustack (push_strings m pt base argv argc sp ustack w)
  unfolding push_strings
  push_strings-Stacked [] argc sp ustack w f page low small few =
      ([], sym (append-nil ustack), refl, omega arith, low, omega arith, refl)
  push_strings-Stacked (s ∷ argv) argc sp ustack w f page low small few =
      let n = length s + 1 in
      let a = lower sp n in
      let (ok, w') = m.copyout pt a (s ++ 0 ∷ []) w in
      let rest = push_strings m pt base argv (suc argc) a (ustack ++ a ∷ []) w' in
      let (aligned, fits) = lower-bounds sp n (omega (arith, f.0)) small in
      elim (Bool-cases (leb maxarg argc || ltb a base)) [
        | inl e ↦
            subst
              (λ b.
                Stacked base (s ∷ argv) argc sp ustack
                  (if b then overflowed w else (if ok then rest else overflowed w')))
              (sym e) tt
        | inr e ↦
            subst
              (λ b.
                Stacked base (s ∷ argv) argc sp ustack
                  (if b then overflowed w else (if ok then rest else overflowed w')))
              (sym e)
              (elim (Bool-cases ok) [
                | inr n ↦
                    subst
                      (λ b.
                        Stacked base (s ∷ argv) argc sp ustack (if b then rest else overflowed w'))
                      (sym n) tt
                | inl y ↦
                    subst
                      (λ b.
                        Stacked base (s ∷ argv) argc sp ustack (if b then rest else overflowed w'))
                      (sym y)
                      (cons-Stacked s argv argc a sp ustack rest aligned (ground (arith, e))
                        (omega (arith, fits))
                        (push_strings-Stacked argv (suc argc) a (ustack ++ a ∷ []) w' f.1 page
                          (ground (arith, e)) (omega (arith, fits)) (ground (arith, e))))
              ])
      ]

  -- When the loop over `argv` succeeds, on strings shorter than a page and a stack that does not start in
  -- the first page: every string lies within the stack at a multiple of 16, below the string before it,
  -- there are at most MAXARG of them, and `sp` ends at the last one.
  pub push_strings_lem :
      (argv : List CharList) (sp end : ℕ) (ustack : List ℕ) (w w' : W)
      → Fit argv
      → pgsize ≤ base
      → base ≤ sp
      → sp < 2 ^ 64
      → push_strings m pt base argv 0 sp [] w ≡ pushed end ustack w'
      → Placed base sp argv ustack end
        × (base ≤ end)
        × (end ≤ sp)
        × (length ustack ≡ length argv)
        × (length argv ≤ maxarg)
  push_strings_lem argv sp end ustack w w' f page low small e =
      let (us, same, placed, few, above, below, long) =
        subst (λ r. Stacked base argv 0 sp [] r) e
          (push_strings-Stacked argv 0 sp [] w f page low small (omega arith)) in
      (
        subst (λ x. Placed base sp argv x end) (sym same) placed,
        above,
        below,
        ap length same ∙ long,
        omega (arith, few),
      )
