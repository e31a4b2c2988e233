-- ===== src/Pipeline/Numeral.antt =====
-- The numbers in a configuration file of ex3/main.c, as texts.
use os_course.Prelude.{
  ℕ, zero, suc, ◌+◌, ◌-◌, ◌*◌, ◌/◌, ◌%◌, ◌^◌, true, some, ◌≡◌, ◌<◌, ◌∙◌, ap, refl, [], ◌∷◌, ◌++◌,
  arith, ltb, length, length-append, Bool-cases, inl, inr,
}
use os_course.Prelude.Int.{ℤ, pos, negsuc}
use os_course.Pipeline.{CharList, digits, show, show_int}
use os_course.Pipeline.Text.{NoLetter}
use os_course.Pipeline.Config.{
  cut_last, cut_newline, split, number_from, negated, number_in, fits_int, atoi,
}

-- The characters of a text of digits, and of one with a sign.
abbrev Digits : CharList → Type 0
Digits [] = Unit {0}
Digits (c ∷ t) = ((47 < c) × (c < 58)) × Digits t

abbrev pub Numeral : CharList → Type 0
Numeral [] = Unit {0}
Numeral (c ∷ t) = ((44 < c) × (c < 58)) × Numeral t

Digits-snoc : (t : CharList) (c : ℕ) → Digits t → 47 < c → c < 58 → Digits (t ++ c ∷ [])
Digits-snoc [] c d l u = ((l, u), tt)
Digits-snoc (x ∷ t) c d l u = (d.0, Digits-snoc t c d.1 l u)

pub digits-Digits : (fuel n : ℕ) → Digits (digits fuel n)
unfolding digits
digits-Digits zero n = tt
digits-Digits (suc fuel) n = elim (Bool-cases (ltb n 10)) [
  | inl e ↦ rw e ((omega arith, ground (arith, e)), tt)
  | inr e ↦ rw e (
      Digits-snoc (digits fuel (n / 10)) (48 + n % 10) (digits-Digits fuel (n / 10)) (omega arith)
        (omega arith))
]

pub Digits-Numeral : (t : CharList) → Digits t → Numeral t
Digits-Numeral [] d = tt
Digits-Numeral (c ∷ t) d = ((omega (arith, d.0.0), d.0.1), Digits-Numeral t d.1)

pub Numeral-NoLetter : (t : CharList) → Numeral t → NoLetter t
Numeral-NoLetter [] d = tt
Numeral-NoLetter (c ∷ t) d = (omega (arith, d.0.1), Numeral-NoLetter t d.1)

pub show_int-Numeral : (k : ℤ) → Numeral (show_int k)
show_int-Numeral (pos n) = Digits-Numeral (show n) (digits-Digits (suc n) n)
show_int-Numeral (negsuc n) = (
  (omega arith, omega arith),
  Digits-Numeral (show (suc n)) (digits-Digits (suc (suc n)) (suc n)),
)

pub length-digits : (fuel n : ℕ) → 0 < length (digits (suc fuel) n)
unfolding digits
length-digits fuel n = elim (Bool-cases (ltb n 10)) [
  | inl e ↦ rw e (omega arith)
  | inr e ↦ rw e (omega (arith, length-append (digits fuel (n / 10)) ((48 + n % 10) ∷ [])))
]

pub length-show_int : (k : ℤ) → 0 < length (show_int k)
length-show_int (pos n) = length-digits n n
length-show_int (negsuc n) = omega arith

-- `atoi` reads what was written.
number_from-snoc :
    (a : ℕ) (t : CharList) (d : ℕ)
    → Digits t
    → d < 10
    → number_from a (t ++ (48 + d) ∷ []) ≡ number_from a t * 10 + d
number_from-snoc a [] d h l = ground arith
number_from-snoc a (c ∷ t) d h l =
    ground (arith, h.0.0, h.0.1, number_from-snoc (a * 10 + (c - 48)) t d h.1 l)

number_from-digits : (fuel n : ℕ) → n < fuel → number_from 0 (digits fuel n) ≡ n
unfolding digits
number_from-digits zero n h = absurd (omega arith)
number_from-digits (suc fuel) n h = elim (Bool-cases (ltb n 10)) [
  | inl e ↦ rw e (ground (arith, e))
  | inr e ↦ rw e (
      number_from-snoc 0 (digits fuel (n / 10)) (n % 10) (digits-Digits fuel (n / 10)) (omega arith)
      ∙ ground (arith, e, number_from-digits fuel (n / 10)))
]

-- The values of a C `int`.
abbrev pub IsInt : ℤ → Type 0
IsInt (pos n) = n < 2 ^ 31
IsInt (negsuc n) = n < 2 ^ 31

number_in-Digits : (t : CharList) → Digits t → number_in t ≡ pos (number_from 0 t)
number_in-Digits [] d = refl
number_in-Digits (c ∷ t) d = ground (arith, d.0.0, d.0.1)

IsInt-fits_int : (k : ℤ) → IsInt k → fits_int k ≡ true
IsInt-fits_int (pos n) h = ground (arith, h)
IsInt-fits_int (negsuc n) h = ground (arith, h)

pub atoi-number_in : (t : CharList) (k : ℤ) → IsInt k → number_in t ≡ k → atoi t ≡ some k
atoi-number_in t k h e = rw e (rw (IsInt-fits_int k h) refl)

pub atoi-digits : (fuel n : ℕ) → n < fuel → n < 2 ^ 31 → atoi (digits fuel n) ≡ some (pos n)
atoi-digits fuel n h l =
    atoi-number_in (digits fuel n) (pos n) l (
      number_in-Digits (digits fuel n) (digits-Digits fuel n)
      ∙ ap pos (number_from-digits fuel n h))

number_in-show_int : (k : ℤ) → number_in (show_int k) ≡ k
number_in-show_int (pos n) =
    number_in-Digits (show n) (digits-Digits (suc n) n)
    ∙ ap pos (number_from-digits (suc n) n (omega arith))
number_in-show_int (negsuc n) = ap negated (number_from-digits (suc (suc n)) (suc n) (omega arith))

pub atoi-show_int : (k : ℤ) → IsInt k → atoi (show_int k) ≡ some k
atoi-show_int k h = atoi-number_in (show_int k) k h (number_in-show_int k)

-- Lines.
pub cut_last-snoc : (t : CharList) (c : ℕ) → cut_last (t ++ c ∷ []) ≡ t
cut_last-snoc [] c = refl
cut_last-snoc (x ∷ []) c = refl
cut_last-snoc (x ∷ y ∷ t) c = ap (λ u. x ∷ u) (cut_last-snoc (y ∷ t) c)

pub cut_newline-snoc : (t : CharList) → cut_newline (t ++ 10 ∷ []) ≡ t
cut_newline-snoc [] = refl
cut_newline-snoc (x ∷ []) = refl
cut_newline-snoc (x ∷ y ∷ t) = ap (λ u. x ∷ u) (cut_newline-snoc (y ∷ t))

pub cut_newline-Numeral : (t : CharList) → Numeral t → cut_newline t ≡ t
cut_newline-Numeral [] d = refl
cut_newline-Numeral (c ∷ []) d = ground (arith, d.0.0)
cut_newline-Numeral (c ∷ x ∷ t) d = ap (λ u. c ∷ u) (cut_newline-Numeral (x ∷ t) d.1)

pub split-Numeral : (t : CharList) → Numeral t → split t ≡ (t, [])
split-Numeral [] d = refl
split-Numeral (c ∷ t) d = ground (arith, d.0.0, split-Numeral t d.1)
