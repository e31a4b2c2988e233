-- ===== src/Pipeline/Parse.antt =====
-- What `parseConfigFile` of ex3/main.c makes of a file.
use os_course.Prelude.{
  ℕ, suc, ◌≡◌, ◌∙◌, ap, refl, Bool, true, false, Option, none, some, [], ◌∷◌, ◌++◌, arith,
  if◌then◌else◌, length,
}
use os_course.Pipeline.{CharList, codes, starts, contains}
use os_course.Pipeline.Config.{
  ConfigData, cut_last, cut_newline, Filling, looking, numbering, sizing,
}

-- The elements of `producersInfo` that have been written to.
abbrev pub used : Filling → ℕ
used (looking infos) = length infos
used (numbering id infos) = suc (length infos)
used (sizing id n infos) = suc (length infos)

starts-append : (s t u : CharList) → starts s t ≡ true → starts s (t ++ u) ≡ true
starts-append [] t u e = refl
starts-append (x ∷ s) [] u e = ground (arith, e)
starts-append (x ∷ s) (y ∷ t) u e = ground (arith, e, starts-append s t u)

contains-append :
    (x : ℕ) (s t u : CharList) → contains (x ∷ s) t ≡ true → contains (x ∷ s) (t ++ u) ≡ true
unfolding contains
contains-append x s [] u e = ground (arith, e)
contains-append x s (y ∷ t) u e =
    ground (arith, e, contains-append x s t u, starts-append (x ∷ s) (y ∷ t) u)

-- Without its newline a line has what it has without its last character, and perhaps more.
cut_newline-cut_last : (l : CharList) → (t : CharList) × (cut_newline l ≡ cut_last l ++ t)
cut_newline-cut_last [] = ([], refl)
cut_newline-cut_last (c ∷ []) = (cut_newline (c ∷ []), refl)
cut_newline-cut_last (c ∷ d ∷ l) =
    let (t, e) = cut_newline-cut_last (d ∷ l) in (t, ap (λ x. c ∷ x) e)

pub still_counted :
    (x : ℕ) (s l : CharList)
    → contains (x ∷ s) (cut_last l) ≡ true
    → contains (x ∷ s) (cut_newline l) ≡ true
still_counted x s l h =
    let (t, e) = cut_newline-cut_last l in
    ap (λ y. contains (x ∷ s) y) e ∙ contains-append x s (cut_last l) t h

abbrev used_in : Option Filling → ℕ
used_in none = 0
used_in (some f) = used f

abbrev num_in : Option ConfigData → ℕ
num_in none = 0
num_in (some d) = d.num_of_producers

abbrev is_producer : CharList → ℕ
is_producer l = if contains (codes "PRODUCER") l then 1 else 0

abbrev is_some {ℓ} : {A : Type ℓ} → Option A → Bool
is_some none = false
is_some (some x) = true
