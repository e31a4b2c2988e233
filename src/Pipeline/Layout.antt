-- ===== src/Pipeline/Layout.antt =====
-- The lines of a configuration file of ex3/main.c, and what its parser finds in them.
use os_course.Prelude.{
  ℕ, ◌≡◌, ◌<◌, ◌∙◌, ap, refl, true, false, some, List, [], ◌∷◌, ◌++◌, arith, leb, length,
  length-append,
}
use os_course.Prelude.Int.{ℤ}
use os_course.Pipeline.{CharList, codes, show_int, contains}
use os_course.Pipeline.Text.{contains_end}
use os_course.Pipeline.Config.{SizeAndMessages, cut_newline, push, split, nth_token, token}
use os_course.Pipeline.Numeral.{
  Numeral-NoLetter, show_int-Numeral, length-show_int, cut_newline-Numeral, split-Numeral,
}

abbrev pub header : ℤ → CharList
header id = codes "PRODUCER " ++ show_int id

abbrev pub sizes_line : ℤ → CharList
sizes_line k = codes "queue size = " ++ show_int k

abbrev pub last_line : ℤ → CharList
last_line k = codes "Co-Editor queue size = " ++ show_int k

-- The lines of a configuration, as those of the repository's own files.
abbrev pub written : List SizeAndMessages → ℤ → List CharList
written [] k = last_line k ∷ []
written (p ∷ ps) k =
    (header p.producer_id ++ 10 ∷ [])
    ∷ (show_int p.num_of_messages ++ 10 ∷ [])
    ∷ (sizes_line p.queue_size ++ 10 ∷ [])
    ∷ (10 ∷ [])
    ∷ written ps k

pub long : (t : CharList) → 0 < length t → leb (length (t ++ 10 ∷ [])) 1 ≡ false
long t h = ground (arith, length-append t (10 ∷ []))

pub push-nil : (t : CharList) → 0 < length t → push t [] ≡ t ∷ []
push-nil [] h = absurd (omega arith)
push-nil (c ∷ t) h = refl

cut_newline-space :
    (t : CharList) → cut_newline t ≡ t → 0 < length t → cut_newline (32 ∷ t) ≡ 32 ∷ t
cut_newline-space [] e h = absurd (omega arith)
cut_newline-space (c ∷ t) e h = ap (λ u. 32 ∷ u) e

module _ (k : ℤ) where
  token-numeral : (push (split (show_int k)).0 (split (show_int k)).1) ≡ show_int k ∷ []
  token-numeral =
      ap (λ w. push w.0 w.1) (split-Numeral (show_int k) (show_int-Numeral k))
      ∙ push-nil (show_int k) (length-show_int k)

  pub header-token : token 1 (header k) ≡ some (show_int k)
  header-token = ap (λ ws. nth_token 0 ws) token-numeral

  pub sizes_line-token : token 3 (sizes_line k) ≡ some (show_int k)
  sizes_line-token = ap (λ ws. nth_token 0 ws) token-numeral

  pub last_line-token : token 4 (last_line k) ≡ some (show_int k)
  last_line-token = ap (λ ws. nth_token 0 ws) token-numeral

  pub cut_newline-last_line : cut_newline (last_line k) ≡ last_line k
  cut_newline-last_line =
      ap (λ u. codes "Co-Editor queue size =" ++ u)
        (cut_newline-space (show_int k) (cut_newline-Numeral (show_int k) (show_int-Numeral k))
          (length-show_int k))

  pub no_letter : (x : ℕ) (s : CharList) → 64 < x → contains (x ∷ s) (show_int k) ≡ false
  no_letter x s h =
      contains_end x s (show_int k) h (Numeral-NoLetter (show_int k) (show_int-Numeral k))

  pub header-producer : contains (codes "PRODUCER") (header k) ≡ true
  unfolding contains
  header-producer = refl

  pub header-editor : contains (codes "Co-Editor") (header k) ≡ false
  unfolding contains
  header-editor = no_letter 67 (codes "o-Editor") (omega arith)

  pub sizes_line-producer : contains (codes "PRODUCER") (sizes_line k) ≡ false
  unfolding contains
  sizes_line-producer = no_letter 80 (codes "RODUCER") (omega arith)

  pub sizes_line-editor : contains (codes "Co-Editor") (sizes_line k) ≡ false
  unfolding contains
  sizes_line-editor = no_letter 67 (codes "o-Editor") (omega arith)

  pub last_line-producer : contains (codes "PRODUCER") (last_line k) ≡ false
  unfolding contains
  last_line-producer = no_letter 80 (codes "RODUCER") (omega arith)

  pub last_line-editor : contains (codes "Co-Editor") (last_line k) ≡ true
  unfolding contains
  last_line-editor = refl
