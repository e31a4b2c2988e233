-- ===== src/Pipeline/Line.antt =====
-- What is on the way through the buffers of ex3/main.c, for one producer and one category.
use os_course.Prelude.{
  ℕ, zero, suc, ◌≡◌, sym, ap, refl, Bool, true, false, List, [], ◌∷◌, ◌++◌, arith, ◌==◌, ◌&&◌,
  if◌then◌else◌,
}
use mathlib.Core.List.{append_assoc}
use os_course.Pipeline.{Category, sports, news, weather, same, Message, finish, story}
use os_course.Pipeline.System.{
  Producer, count, bump, Dispatcher, holding, Editor, carrying, System, end_of_round, next_finish,
  start,
}

abbrev mine : ℕ → Category → Message → Bool
mine i c finish = false
mine i c (story j d k) = j == i && same d c

-- The messages of producer `i` for category `c`.
abbrev pub pick : ℕ → Category → List Message → List Message
pick i c [] = []
pick i c (m ∷ q) = if mine i c m then m ∷ pick i c q else pick i c q

-- The first `k` of them, as the producer makes them.
abbrev pub stories : ℕ → Category → ℕ → List Message
stories i c zero = []
stories i c (suc k) = stories i c k ++ story i c k ∷ []

abbrev pub carried : Editor → List Message
carried (carrying m) = m ∷ []
carried _ = []

abbrev pub in_hand : Dispatcher → List Message
in_hand (holding i c m) = m ∷ []
in_hand _ = []

pub pick-append :
    (i : ℕ) (c : Category) (xs ys : List Message) → pick i c (xs ++ ys) ≡ pick i c xs ++ pick i c ys
pick-append i c [] ys = refl
pick-append i c (m ∷ xs) ys = ground (arith, pick-append i c xs ys)

pub pick-cons :
    (i : ℕ) (c : Category) (m : Message) (q : List Message)
    → pick i c (m ∷ q) ≡ pick i c (m ∷ []) ++ pick i c q
pick-cons i c m q = pick-append i c (m ∷ []) q

abbrev pub joined : (a b c d e f : List Message) → List Message
joined a b c d e f = a ++ (b ++ (c ++ (d ++ (e ++ f))))

-- What is on the screen and on the way to it, in order.
abbrev pub line : ℕ → Category → System → List Message
line i c s =
    joined (pick i c s.printed) (pick i c s.screen) (pick i c (carried (s.editors c)))
      (pick i c (s.topics c)) (pick i c (in_hand s.dispatcher)) (pick i c (s.sources i))

pub record Inv (i : ℕ) (c : Category) (s : System) : Type 0 where
  pub flow : line i c s ≡ stories i c (count c (s.producers i))
  pub topics_else : (d : Category) → same d c ≡ false → pick i c (s.topics d) ≡ []
  pub editors_else : (d : Category) → same d c ≡ false → pick i c (carried (s.editors d)) ≡ []
  pub sources_else : (j : ℕ) → (j == i) ≡ false → pick i c (s.sources j) ≡ []
  pub hand_else :
      (j : ℕ) (d : Category) (m : Message)
      → s.dispatcher ≡ holding j d m
      → same d c ≡ false
      → pick i c (m ∷ []) ≡ []

-- Moves along the line.
pub along_print :
    (a x b c d e f : List Message) → joined (a ++ x) b c d e f ≡ joined a (x ++ b) c d e f
along_print a x b c d e f = simp append_assoc

pub along_give : (a b x d e f : List Message) → joined a (b ++ x) [] d e f ≡ joined a b x d e f
along_give a b x d e f = simp append_assoc

pub along_take : (a b x d e f : List Message) → joined a b x d e f ≡ joined a b [] (x ++ d) e f
along_take a b x d e f = simp append_assoc

pub along_dispatch : (a b c d x f : List Message) → joined a b c (d ++ x) [] f ≡ joined a b c d x f
along_dispatch a b c d x f = simp append_assoc

pub along_remove : (a b c d x f : List Message) → joined a b c d x f ≡ joined a b c d [] (x ++ f)
along_remove a b c d x f = refl

pub along_produce :
    (a b c d e f x : List Message) → joined a b c d e (f ++ x) ≡ joined a b c d e f ++ x
along_produce a b c d e f x = simp append_assoc

pub count-bump :
    (c d : Category) (p : Producer) (k : ℕ)
    → count c (record (bump d p) { left = k }) ≡ (if same d c then suc (count c p) else count c p)
count-bump sports sports p k = refl
count-bump sports news p k = refl
count-bump sports weather p k = refl
count-bump news sports p k = refl
count-bump news news p k = refl
count-bump news weather p k = refl
count-bump weather sports p k = refl
count-bump weather news p k = refl
count-bump weather weather p k = refl

pub count_left :
    (c : Category) (p : Producer) (b : Bool) → count c (record p { runs = b }) ≡ count c p
count_left sports p b = refl
count_left news p b = refl
count_left weather p b = refl

pub same-eq : (d c : Category) → same d c ≡ true → d ≡ c
same-eq sports sports e = refl
same-eq sports news e = cc
same-eq sports weather e = cc
same-eq news sports e = cc
same-eq news news e = refl
same-eq news weather e = cc
same-eq weather sports e = cc
same-eq weather news e = cc
same-eq weather weather e = refl

count_start :
    (c : Category) (n : ℕ) (b : Bool)
    → count c (record { sport = 0; headlines = 0; forecast = 0; left = n; runs = b }) ≡ 0
count_start sports n b = refl
count_start news n b = refl
count_start weather n b = refl

pub start-Inv : (i : ℕ) (c : Category) (messages : ℕ → ℕ) → Inv i c (start messages)
start-Inv i c messages = record {
  flow = sym (ap (λ k. stories i c k) (count_start c (messages i) true));
  topics_else = λ d h. refl;
  editors_else = λ d h. refl;
  sources_else = λ j h. refl;
  hand_else = λ j d m e h. ground arith;
}

pub next_finish_empty : (x : Category) → in_hand (next_finish x) ≡ []
next_finish_empty sports = refl
next_finish_empty news = refl
next_finish_empty weather = refl

pub end_of_round_empty : (b : Bool) → in_hand (end_of_round b) ≡ []
end_of_round_empty true = refl
end_of_round_empty false = refl
