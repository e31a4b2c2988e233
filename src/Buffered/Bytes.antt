-- ===== src/Buffered/Bytes.antt =====
-- Lists of bytes cut in two, for ex2/buffered_open.c.
use os_course.Prelude.{
  ℕ, zero, suc, ◌+◌, ◌-◌, ◌≤◌, ◌≡◌, ◌∙◌, sym, ap, refl, List, [], ◌∷◌, ◌++◌, arith, length, take,
  drop,
}

pub drop_all : (n : ℕ) (xs : List ℕ) → length xs ≤ n → drop n xs ≡ []
drop_all zero [] h = refl
drop_all (suc n) [] h = refl
drop_all zero (x ∷ xs) h = absurd (omega arith)
drop_all (suc n) (x ∷ xs) h = drop_all n xs (omega arith)

pub take_all : (n : ℕ) (xs : List ℕ) → length xs ≤ n → take n xs ≡ xs
take_all zero [] h = refl
take_all (suc n) [] h = refl
take_all zero (x ∷ xs) h = absurd (omega arith)
take_all (suc n) (x ∷ xs) h = ap (λ t. x ∷ t) (take_all n xs (omega arith))

pub drop-drop : (a b : ℕ) (xs : List ℕ) → drop a (drop b xs) ≡ drop (b + a) xs
drop-drop a zero xs = ap (λ k. drop k xs) {x = a} (omega arith)
drop-drop a (suc b) [] = drop_all a [] (omega arith) ∙ sym (drop_all (suc b + a) [] (omega arith))
drop-drop a (suc b) (x ∷ xs) =
    drop-drop a b xs ∙ ap (λ k. drop k (x ∷ xs)) {x = suc (b + a)} (omega arith)

pub take-append_exact : (n : ℕ) (xs ys : List ℕ) → length xs ≡ n → take n (xs ++ ys) ≡ xs
take-append_exact zero [] ys e = refl
take-append_exact (suc n) [] ys e = absurd (omega arith)
take-append_exact zero (x ∷ xs) ys e = absurd (omega arith)
take-append_exact (suc n) (x ∷ xs) ys e = ap (λ t. x ∷ t) (take-append_exact n xs ys (omega arith))

pub drop-take : (c m : ℕ) (xs : List ℕ) → drop c (take m xs) ≡ take (m - c) (drop c xs)
drop-take zero m xs = ap (λ k. take k xs) {x = m} (omega arith)
drop-take (suc c) zero xs = ap (λ k. take k (drop (suc c) xs)) {x = 0} (omega arith)
drop-take (suc c) (suc m) [] = sym (take_all (suc m - suc c) [] (omega arith))
drop-take (suc c) (suc m) (x ∷ xs) =
    drop-take c m xs ∙ ap (λ k. take k (drop c xs)) {x = m - c} (omega arith)

pub take-take : (c m : ℕ) (xs : List ℕ) → c ≤ m → take c (take m xs) ≡ take c xs
take-take zero m xs h = refl
take-take (suc c) zero xs h = absurd (omega arith)
take-take (suc c) (suc m) [] h = refl
take-take (suc c) (suc m) (x ∷ xs) h = ap (λ t. x ∷ t) (take-take c m xs (omega arith))

pub take-append : (c : ℕ) (xs ys : List ℕ) → c ≤ length xs → take c (xs ++ ys) ≡ take c xs
take-append zero xs ys h = refl
take-append (suc c) [] ys h = absurd (omega arith)
take-append (suc c) (x ∷ xs) ys h = ap (λ t. x ∷ t) (take-append c xs ys (omega arith))

pub drop-append : (c : ℕ) (xs ys : List ℕ) → c ≤ length xs → drop c (xs ++ ys) ≡ drop c xs ++ ys
drop-append zero xs ys h = refl
drop-append (suc c) [] ys h = absurd (omega arith)
drop-append (suc c) (x ∷ xs) ys h = drop-append c xs ys (omega arith)

-- Taking `n` is taking `c` of them and then the others.
pub take_two : (c n : ℕ) (xs : List ℕ) → c ≤ n → take c xs ++ take (n - c) (drop c xs) ≡ take n xs
take_two zero n xs h = ap (λ k. take k xs) {x = n - 0} (omega arith)
take_two (suc c) zero xs h = absurd (omega arith)
take_two (suc c) (suc n) [] h = take_all (suc n - suc c) [] (omega arith)
take_two (suc c) (suc n) (x ∷ xs) h =
    ap (λ t. x ∷ t)
      (ap (λ k. take c xs ++ take k (drop c xs)) {x = suc n - suc c} (omega arith)
        ∙ take_two c n xs (omega arith))
