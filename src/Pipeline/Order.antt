-- ===== src/Pipeline/Order.antt =====
-- What ex3/main.c prints.
use os_course.Prelude.{
  ℕ, zero, suc, ◌≤◌, ◌≡◌, ◌∙◌, sym, ap, refl, true, List, [], ◌∷◌, ◌++◌, arith, length,
  length-append, take, ◌==◌, Bool-cases, inl, inr,
}
use os_course.Prelude.Int.{ℤ}
use os_course.Pipeline.{Category, Message, story}
use os_course.Pipeline.System.{count, System, Reach, start}
use os_course.Pipeline.Line.{pick, stories}
use os_course.Pipeline.Flow.{Reach-Inv}

==→eq : (a b : ℕ) → (a == b) ≡ true → a ≡ b
==→eq a b e = ground (arith, e)

length-stories : (i : ℕ) (c : Category) (k : ℕ) → length (stories i c k) ≡ k
length-stories i c zero = refl
length-stories i c (suc k) =
    omega (arith, length-append (stories i c k) (story i c k ∷ []), length-stories i c k)

take-append_left : (xs ys : List Message) → take (length xs) (xs ++ ys) ≡ xs
take-append_left [] ys = refl
take-append_left (x ∷ xs) ys = ap (λ t. x ∷ t) (take-append_left xs ys)

take-append_short : (k : ℕ) (xs ys : List Message) → k ≤ length xs → take k (xs ++ ys) ≡ take k xs
take-append_short zero xs ys h = refl
take-append_short (suc k) [] ys h = absurd (omega arith)
take-append_short (suc k) (x ∷ xs) ys h = ap (λ t. x ∷ t) (take-append_short k xs ys (omega arith))

take_all : (xs : List Message) → take (length xs) xs ≡ xs
take_all [] = refl
take_all (x ∷ xs) = ap (λ t. x ∷ t) (take_all xs)

take-stories : (i : ℕ) (c : Category) (k n : ℕ) → k ≤ n → take k (stories i c n) ≡ stories i c k
take-stories i c k zero h = ground (arith)
take-stories i c k (suc n) h = elim (Bool-cases (k == suc n)) [
  | inl e ↦
      ap (λ j. take j (stories i c (suc n))) {y = length (stories i c (suc n))}
        (omega (arith, length-stories i c (suc n), ==→eq k (suc n) e))
      ∙ take_all (stories i c (suc n))
      ∙ ap (λ j. stories i c j) {x = suc n} {y = k} (ground (arith, e))
  | inr e ↦
      take-append_short k (stories i c n) (story i c n ∷ [])
        (ground (arith, e, length-stories i c n))
      ∙ take-stories i c k n (ground (arith, e))
]

-- A list that some more makes the first `n` stories is itself the first few.
prefix-stories :
    (i : ℕ) (c : Category) (n : ℕ) (xs ys : List Message)
    → xs ++ ys ≡ stories i c n
    → (length xs ≤ n) × (xs ≡ stories i c (length xs))
prefix-stories i c n xs ys e =
    let le : length xs ≤ n =
      omega (arith, ap length e, length-append xs ys, length-stories i c n) in
    (
      le,
      sym (take-append_left xs ys)
          ∙ ap (λ t. take (length xs) t) e
          ∙ take-stories i c (length xs) n le,
    )

-- Whatever the threads do, in any interleaving from the start of the program, and also when memory
-- fails a producer: the messages of producer `i` for a category that are on the screen are the first
-- ones that it made for that category, each once, with none left out and in the order of their numbers.
pub printed_in_order :
    (n : ℕ) (ids : ℕ → ℤ) (sizes : ℕ → ℕ) (size : ℕ) (messages : ℕ → ℕ) {s : System} (i : ℕ)
    (c : Category)
    → Reach n ids sizes size (start messages) s
    → (length (pick i c s.printed) ≤ count c (s.producers i))
      × (pick i c s.printed ≡ stories i c (length (pick i c s.printed)))
printed_in_order n ids sizes size messages {s} i c r =
    prefix-stories i c (count c (s.producers i)) (pick i c s.printed) _
      (Reach-Inv n ids sizes size i c messages r).flow
