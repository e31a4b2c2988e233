-- ===== src/Pipeline/Text.antt =====
-- What the tests of ex3/main.c see in the texts that its producers write.
use os_course.Prelude.{
  ℕ, zero, suc, ◌+◌, ◌/◌, ◌%◌, ◌<◌, ◌≡◌, ◌∙◌, refl, ap, Bool, true, false, Option, none, some, [],
  ◌∷◌, ◌++◌, arith, ltb, if◌then◌else◌, Bool-cases, inl, inr,
}
use os_course.Prelude.Int.{ℤ, pos, negsuc}
use os_course.Pipeline.{
  CharList, codes, digits, show, show_int, contains, Category, sports, news, weather, story, word,
  text, route,
}

-- No character of the text is a letter.
abbrev pub NoLetter : CharList → Type 0
NoLetter [] = Unit {0}
NoLetter (c ∷ t) = (c < 65) × NoLetter t

NoLetter-append : (s t : CharList) → NoLetter s → NoLetter t → NoLetter (s ++ t)
NoLetter-append [] t a b = b
NoLetter-append (c ∷ s) t a b = (a.0, NoLetter-append s t a.1 b)

digits-NoLetter : (fuel n : ℕ) → NoLetter (digits fuel n)
unfolding digits
digits-NoLetter zero n = tt
digits-NoLetter (suc fuel) n = elim (Bool-cases (ltb n 10)) [
  | inl e ↦ rw e (ground (arith, e), tt)
  | inr e ↦ rw e (
      NoLetter-append (digits fuel (n / 10)) ((48 + n % 10) ∷ []) (digits-NoLetter fuel (n / 10))
        (omega arith, tt))
]

show_int-NoLetter : (k : ℤ) → NoLetter (show_int k)
show_int-NoLetter (pos n) = digits-NoLetter (suc n) n
show_int-NoLetter (negsuc n) = (omega arith, digits-NoLetter (suc (suc n)) (suc n))

-- A search for a word passes over such characters.
contains_skip :
    (x : ℕ) (s t u : CharList)
    → 64 < x
    → NoLetter t
    → contains (x ∷ s) (t ++ u) ≡ contains (x ∷ s) u
unfolding contains
contains_skip x s [] u h a = refl
contains_skip x s (c ∷ t) u h a = ground (arith, contains_skip x s t u h a.1)

pub contains_end : (x : ℕ) (s t : CharList) → 64 < x → NoLetter t → contains (x ∷ s) t ≡ false
unfolding contains
contains_end x s [] h a = refl
contains_end x s (c ∷ t) h a = ground (arith, contains_end x s t h a.1)

module _ (k : ℤ) (t : CharList) where
  contains-sports :
      contains (codes "SPORTS") (codes "producer " ++ (show_int k ++ t))
      ≡ contains (codes "SPORTS") t
  unfolding contains
  contains-sports =
      contains_skip 83 (codes "PORTS") (show_int k) t (omega arith) (show_int-NoLetter k)

  contains-news :
      contains (codes "NEWS") (codes "producer " ++ (show_int k ++ t)) ≡ contains (codes "NEWS") t
  unfolding contains
  contains-news = contains_skip 78 (codes "EWS") (show_int k) t (omega arith) (show_int-NoLetter k)

  contains-weather :
      contains (codes "WEATHER") (codes "producer " ++ (show_int k ++ t))
      ≡ contains (codes "WEATHER") t
  unfolding contains
  contains-weather =
      contains_skip 87 (codes "EATHER") (show_int k) t (omega arith) (show_int-NoLetter k)

module _ (n : ℕ) where
  news_no_sports : contains (codes "SPORTS") (word news ++ show n) ≡ false
  unfolding contains
  news_no_sports =
      contains_end 83 (codes "PORTS") (show n) (omega arith) (digits-NoLetter (suc n) n)

  weather_no_sports : contains (codes "SPORTS") (word weather ++ show n) ≡ false
  unfolding contains
  weather_no_sports =
      contains_end 83 (codes "PORTS") (show n) (omega arith) (digits-NoLetter (suc n) n)

  weather_no_news : contains (codes "NEWS") (word weather ++ show n) ≡ false
  unfolding contains
  weather_no_news = contains_end 78 (codes "EWS") (show n) (omega arith) (digits-NoLetter (suc n) n)

  has_sports : contains (codes "SPORTS") (word sports ++ show n) ≡ true
  unfolding contains
  has_sports = refl

  has_news : contains (codes "NEWS") (word news ++ show n) ≡ true
  unfolding contains
  has_news = refl

  has_weather : contains (codes "WEATHER") (word weather ++ show n) ≡ true
  unfolding contains
  has_weather = refl

abbrev choose : Bool → Bool → Bool → Option Category
choose a b c =
    if a then some sports else (if b then some news else (if c then some weather else none))

-- The dispatcher finds the category that the producer wrote, whatever the id and the number.
pub route-text :
    (ids : ℕ → ℤ) (i : ℕ) (c : Category) (n : ℕ) → route (text ids (story i c n)) ≡ some c
unfolding route
route-text ids i sports n =
    ap
      (λ a.
        choose a (contains (codes "NEWS") (text ids (story i sports n)))
          (contains (codes "WEATHER") (text ids (story i sports n))))
      (contains-sports (ids i) (word sports ++ show n) ∙ has_sports n)
route-text ids i news n =
    ap
      (λ a.
        choose a (contains (codes "NEWS") (text ids (story i news n)))
          (contains (codes "WEATHER") (text ids (story i news n))))
      (contains-sports (ids i) (word news ++ show n) ∙ news_no_sports n)
    ∙ ap (λ a. choose false a (contains (codes "WEATHER") (text ids (story i news n))))
        (contains-news (ids i) (word news ++ show n) ∙ has_news n)
route-text ids i weather n =
    ap
      (λ a.
        choose a (contains (codes "NEWS") (text ids (story i weather n)))
          (contains (codes "WEATHER") (text ids (story i weather n))))
      (contains-sports (ids i) (word weather ++ show n) ∙ weather_no_sports n)
    ∙ ap (λ a. choose false a (contains (codes "WEATHER") (text ids (story i weather n))))
        (contains-news (ids i) (word weather ++ show n) ∙ weather_no_news n)
    ∙ ap (λ a. choose false false a)
        (contains-weather (ids i) (word weather ++ show n) ∙ has_weather n)
