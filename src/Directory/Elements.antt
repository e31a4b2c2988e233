-- ===== src/Directory/Elements.antt =====
-- The elements of a path, and the walk along them that `namex` of ex5/bonus/fs.c is.
use os_course.Prelude.{
  zero, true, ◌<◌, ◌++◌, leb, take, drop, ℕ, suc, ◌≤◌, ◌≡◌, ◌⊎◌, ◌∙◌, sym, ap, refl, arith, false,
  none, some, List, [], ◌∷◌, CharList, ◌==◌, if◌then◌else◌, length, Bool-cases, inl, inr,
}
use os_course.Directory.{dirsiz, strncmp_equal, namecmp_equal}
use os_course.Directory.Paths.{
  skip_slashes, element, after_element, into_name, with_element, skipelem, is_empty,
}

-- What stands between the slashes of a path, without the empty parts.
abbrev pub lengthen : ℕ → List CharList → List CharList
lengthen c [] = (c ∷ []) ∷ []
lengthen c (e ∷ es) = (c ∷ e) ∷ es

abbrev pub prefixed : ℕ → CharList → List CharList → List CharList
prefixed c [] es = (c ∷ []) ∷ es
prefixed c (d ∷ path) es = if d == 47 then (c ∷ []) ∷ es else lengthen c es

unfoldable pub elements : CharList → List CharList
elements [] = []
elements (c ∷ path) = let es = elements path in if c == 47 then es else prefixed c path es

elements-skip_slashes : (path : CharList) → elements (skip_slashes path) ≡ elements path
unfolding elements skip_slashes
elements-skip_slashes [] = refl
elements-skip_slashes (c ∷ path) = elim (Bool-cases (c == 47)) [
  | inl e ↦ ground (arith, e, elements-skip_slashes path)
  | inr e ↦ ground (arith, e)
]

elements-element :
    (c : ℕ) (path : CharList)
    → (c == 47) ≡ false
    → elements (c ∷ path) ≡ element (c ∷ path) ∷ elements (after_element (c ∷ path))
unfolding elements element after_element
elements-element c [] e = ground (arith, e)
elements-element c (d ∷ path) e = elim (Bool-cases (d == 47)) [
  | inl f ↦ ground (arith, e, f)
  | inr f ↦ ground (arith, e, f, ap (λ es. lengthen c es) (elements-element d path f))
]

length-prefixed :
    (c : ℕ) (path : CharList) (es : List CharList) → length (prefixed c path es) ≤ suc (length es)
length-prefixed c [] es = omega arith
length-prefixed c (d ∷ path) [] = ground arith
length-prefixed c (d ∷ path) (e ∷ es) = ground arith

pub elements-length : (path : CharList) → length (elements path) ≤ length path
unfolding elements
elements-length [] = omega arith
elements-length (c ∷ path) = elim (Bool-cases (c == 47)) [
  | inl e ↦ ground (arith, e, elements-length path)
  | inr e ↦ ground (arith, e, length-prefixed c path (elements path), elements-length path)
]

skipped :
    (path : CharList)
    → (skip_slashes path ≡ [])
      ⊎ ((c : ℕ) × (rest : CharList) × (skip_slashes path ≡ c ∷ rest) × ((c == 47) ≡ false))
unfolding skip_slashes
skipped [] = inl refl
skipped (c ∷ path) = elim (Bool-cases (c == 47)) [
  | inl e ↦ elim (skipped path) [
    | inl f ↦ inl (ap (λ t. if t then skip_slashes path else c ∷ path) e ∙ f)
    | inr (d, rest, f, ne) ↦
        inr (d, rest, ap (λ t. if t then skip_slashes path else c ∷ path) e ∙ f, ne)
  ]
  | inr e ↦ inr (c, path, ap (λ t. if t then skip_slashes path else c ∷ path) e, e)
]

is_empty-elements :
    (path : CharList) → is_empty (skip_slashes path) ≡ is_empty (elements (skip_slashes path))
unfolding elements
is_empty-elements path = elim (skipped path) [
  | inl e ↦ ap (λ p. is_empty p) e ∙ sym (ap (λ p. is_empty (elements p)) e)
  | inr (c, rest, e, ne) ↦
      ap (λ p. is_empty p) e
      ∙ sym (ap (λ es. is_empty es) (elements-element c rest ne))
      ∙ sym (ap (λ p. is_empty (elements p)) e)
]

-- With the array that `into_name` gives.
pub skipelem_cases :
    (path : CharList) (name : List ℕ)
    → ((skipelem path name ≡ none) × (elements path ≡ []))
      ⊎ ((e rest : CharList) × (skipelem path name ≡ some (rest, into_name e name))
          × (elements path ≡ e ∷ elements rest)
          × (is_empty rest ≡ is_empty (elements rest)))
unfolding skipelem elements
skipelem_cases path name = elim (skipped path) [
  | inl e ↦
      inl
        (ap (λ p. with_element name p) e, sym (elements-skip_slashes path) ∙ ap (λ p. elements p) e)
  | inr (c, rest, e, ne) ↦ inr (
    element (c ∷ rest),
    skip_slashes (after_element (c ∷ rest)),
    ap (λ p. with_element name p) e,
    sym (elements-skip_slashes path)
        ∙ ap (λ p. elements p) e
        ∙ elements-element c rest ne
        ∙ ap (λ es. element (c ∷ rest) ∷ es)
            (sym (elements-skip_slashes (after_element (c ∷ rest)))),
    is_empty-elements (after_element (c ∷ rest)),
  )
]

strncmp_equal-take : (n : ℕ) (s : CharList) → strncmp_equal n s (take n s) ≡ true
unfolding strncmp_equal
strncmp_equal-take zero s = refl
strncmp_equal-take (suc n) [] = refl
strncmp_equal-take (suc n) (a ∷ s) = ground (arith, strncmp_equal-take n s)

strncmp_equal-ended :
    (n : ℕ) (s r : CharList) → length s < n → strncmp_equal n s (s ++ 0 ∷ r) ≡ true
unfolding strncmp_equal
strncmp_equal-ended zero s r h = absurd (omega arith)
strncmp_equal-ended (suc n) [] r h = refl
strncmp_equal-ended (suc n) (a ∷ s) r h = ground (arith, strncmp_equal-ended n s r (omega arith))

namecmp_equal-into_name : (s : CharList) (name : List ℕ) → namecmp_equal s (into_name s name) ≡ true
namecmp_equal-into_name s name = elim (Bool-cases (leb dirsiz (length s))) [
  | inl e ↦
      ap (λ t. namecmp_equal s (if t then take dirsiz s else s ++ 0 ∷ drop (suc (length s)) name)) e
      ∙ strncmp_equal-take dirsiz s
  | inr e ↦
      ap (λ t. namecmp_equal s (if t then take dirsiz s else s ++ 0 ∷ drop (suc (length s)) name)) e
      ∙ strncmp_equal-ended dirsiz s (drop (suc (length s)) name) (ground (arith, e))
]

-- `skipelem` on any path: it returns 0 just where the path has no element; and otherwise it leaves in
-- `name` what `namecmp` cannot tell from the first element, and returns a path with just the other elements,
-- which is the empty text if there are none.
skipelem_lem :
    (path : CharList) (name : List ℕ)
    → ((skipelem path name ≡ none) × (elements path ≡ []))
      ⊎ ((e rest : CharList) × (name' : List ℕ) × (skipelem path name ≡ some (rest, name'))
          × (namecmp_equal e name' ≡ true)
          × (elements path ≡ e ∷ elements rest)
          × (is_empty rest ≡ is_empty (elements rest)))
skipelem_lem path name = elim (skipelem_cases path name) [
  | inl nothing ↦ inl nothing
  | inr (e, rest, taken, parts, last) ↦
      inr (e, rest, into_name e name, taken, namecmp_equal-into_name e name, parts, last)
]
