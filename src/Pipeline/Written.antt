-- ===== src/Pipeline/Written.antt =====
-- The configuration files that `parseConfigFile` of ex3/main.c is for.
use os_course.Prelude.{
  ℕ, zero, suc, ◌+◌, ◌/◌, ◌%◌, ◌≡◌, ◌<◌, ◌∙◌, ap, refl, Bool, true, false, Option, some, List, [],
  ◌∷◌, ◌++◌, arith, ltb, leb, if◌then◌else◌, length,
}
use os_course.Prelude.Int.{ℤ, pos}
use os_course.Pipeline.{CharList, codes, digits, show, show_int, contains}
use os_course.Pipeline.Config.{
  SizeAndMessages, ConfigData, cut_last, push, nth_token, token, atoi, value, set_size, looking,
  numbering, sizing, named, numbered, sized, fill_line, fill_step, fill_lines,
}
use os_course.Pipeline.Numeral.{
  digits-Digits, Digits-Numeral, length-digits, IsInt, atoi-digits, atoi-show_int, cut_last-snoc,
  split-Numeral,
}
use os_course.Pipeline.Layout.{header, sizes_line, long, push-nil, header-token, header-producer}

-- What a line does, from what the tests find in it.
abbrev count_by : Bool → Bool → Option CharList → ConfigData → Option ConfigData
count_by p e w d =
    let c = if p then record d { num_of_producers = suc d.num_of_producers } else d in
    if e then set_size c (value w) else some c

fill_line-looking :
    (l text : CharList) (p : Bool) (w : Option CharList) (infos : List SizeAndMessages)
    → leb (length l) 1 ≡ false
    → cut_last l ≡ text
    → contains (codes "PRODUCER") text ≡ p
    → token 1 text ≡ w
    → fill_line l (looking infos) ≡ (if p then named infos (value w) else some (looking infos))
fill_line-looking l text p w infos h cut hp hw = rw h (rw cut (rw hp (rw hw refl)))

module _ (infos : List SizeAndMessages) where
  fill_header :
      (k : ℤ) → IsInt k → fill_line (header k ++ 10 ∷ []) (looking infos) ≡ some (numbering k infos)
  fill_header k h =
      fill_line-looking (header k ++ 10 ∷ []) (header k) true (some (show_int k)) infos
        (long (header k) (omega arith)) (cut_last-snoc (header k) 10) (header-producer k)
        (header-token k)
      ∙ ap (λ x. named infos x) (atoi-show_int k h)

  fill_numeral :
      (id k : ℤ)
      → IsInt k
      → fill_line (show_int k ++ 10 ∷ []) (numbering id infos) ≡ some (sizing id k infos)
  fill_numeral id k h =
      ap (λ t. numbered id infos (atoi t)) (cut_last-snoc (show_int k) 10)
      ∙ ap (λ x. numbered id infos x) (atoi-show_int k h)

-- The numbers of every producer are values of a C `int`.
abbrev pub AreInts : List SizeAndMessages → Type 0
AreInts [] = Unit {0}
AreInts (p ∷ ps) = (IsInt p.producer_id × IsInt p.num_of_messages × IsInt p.queue_size) × AreInts ps

show-tens : (k : ℕ) → 9 < k → show k ≡ digits k (k / 10) ++ (48 + k % 10) ∷ []
unfolding digits
show-tens k h =
    ap (λ b. if b then (48 + k) ∷ [] else digits k (k / 10) ++ (48 + k % 10) ∷ []) {x = ltb k 10}
      {y = false} (ground arith)

token-digits :
    (j n : ℕ) → token 3 (codes "queue size = " ++ digits (suc j) n) ≡ some (digits (suc j) n)
token-digits j n =
    let t = digits (suc j) n in
    ap (λ w. nth_token 0 (push w.0 w.1))
      (split-Numeral t (Digits-Numeral t (digits-Digits (suc j) n)))
    ∙ ap (λ ws. nth_token 0 ws) (push-nil t (length-digits j n))

-- A file that ends in the line of a producer's size, without a newline: the second pass cuts the last
-- digit off, so that a size of 10 or more is read as a tenth of it, when the numbers are `int`s.
pub unterminated_line_loses_digit :
    (infos : List SizeAndMessages) (id n : ℤ) (k : ℕ)
    → 9 < k
    → IsInt id
    → IsInt n
    → IsInt (pos k)
    → fill_lines
        ((header id ++ 10 ∷ []) ∷ (show_int n ++ 10 ∷ []) ∷ sizes_line (pos k) ∷ [])
        (some (looking infos))
      ≡ some (
          looking (
            infos
            ++ record { producer_id = id; num_of_messages = n; queue_size = pos (k / 10) } ∷ []))
unterminated_line_loses_digit infos id n zero h _ _ _ = absurd (omega arith)
unterminated_line_loses_digit infos id n (suc j) h id_int n_int k_int =
    let k = suc j in
    let tens = digits k (k / 10) in
    let begin = codes "queue size = " in
    ap (λ f. fill_step (sizes_line (pos k)) (fill_step (show_int n ++ 10 ∷ []) f))
      (fill_header infos id id_int)
    ∙ ap (λ f. fill_step (sizes_line (pos k)) f) (fill_numeral infos id n n_int)
    ∙ ap (λ s. sized id n infos (value (token 3 (cut_last (begin ++ s))))) (show-tens k h)
    ∙ ap (λ s. sized id n infos (value (token 3 s))) (cut_last-snoc (begin ++ tens) (48 + k % 10))
    ∙ ap (λ w. sized id n infos (value w)) (token-digits j (k / 10))
    ∙ ap (λ x. sized id n infos x) (atoi-digits k (k / 10) (omega arith) (omega (arith, k_int)))
