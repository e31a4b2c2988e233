-- ===== src/Fs/Content/Bytes.antt =====
-- The lists under the contents of files in ex5/bonus/fs.c.
use os_course.Prelude.{
  ℕ, zero, suc, ◌+◌, ◌-◌, ◌<◌, ◌≤◌, ◌≡◌, ◌∙◌, ap, refl, arith, List, [], ◌∷◌, ltb, leb, ◌&&◌,
  if◌then◌else◌, length, get_or, take, drop,
}
use os_course.Fs.Content.{overlay}

pub length-overlay :
    (xs : List ℕ) (o : ℕ) (bytes : List ℕ) → length (overlay xs o bytes) ≡ length xs
length-overlay [] o bytes = refl
length-overlay (x ∷ xs) zero [] = refl
length-overlay (x ∷ xs) zero (b ∷ bytes) = ap suc (length-overlay xs zero bytes)
length-overlay (x ∷ xs) (suc o) bytes = ap suc (length-overlay xs o bytes)

pub get_or-overlay :
    (xs : List ℕ) (o : ℕ) (bytes : List ℕ) (i : ℕ)
    → o + length bytes ≤ length xs
    → get_or (overlay xs o bytes) i 0
      ≡ (if leb o i && ltb i (o + length bytes) then get_or bytes (i - o) 0 else get_or xs i 0)
get_or-overlay [] o [] i h = ground (arith, h)
get_or-overlay [] o (b ∷ bytes) i h = absurd (omega arith)
get_or-overlay (x ∷ xs) zero [] i h = ground (arith, h)
get_or-overlay (x ∷ xs) zero (b ∷ bytes) zero h = ground (arith, h)
get_or-overlay (x ∷ xs) zero (b ∷ bytes) (suc i) h =
    ground (arith, get_or-overlay xs zero bytes i (omega arith))
get_or-overlay (x ∷ xs) (suc o) bytes zero h = ground (arith, h)
get_or-overlay (x ∷ xs) (suc o) bytes (suc i) h =
    ground (arith, get_or-overlay xs o bytes i (omega arith))

pub get_or-take : (n : ℕ) (xs : List ℕ) (i : ℕ) → i < n → get_or (take n xs) i 0 ≡ get_or xs i 0
get_or-take zero xs i h = absurd (omega arith)
get_or-take (suc n) [] i h = refl
get_or-take (suc n) (x ∷ xs) zero h = refl
get_or-take (suc n) (x ∷ xs) (suc i) h = get_or-take n xs i (omega arith)

pub get_or-drop : (n : ℕ) (xs : List ℕ) (i : ℕ) → get_or (drop n xs) i 0 ≡ get_or xs (n + i) 0
get_or-drop zero xs i = ap (λ k. get_or xs k 0) {x = i} {y = 0 + i} (omega arith)
get_or-drop (suc n) [] i = refl
get_or-drop (suc n) (x ∷ xs) i =
    get_or-drop n xs i
    ∙ ap (λ k. get_or (x ∷ xs) k 0) {x = suc (n + i)} {y = suc n + i} (omega arith)
