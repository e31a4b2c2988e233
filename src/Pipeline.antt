-- ===== src/Pipeline.antt =====
-- The messages and the state of the threads of ex3/main.c. A message that a buffer holds is a pointer
-- to a text; here it says which text it points to. The texts fit in MAX_MSG_LEN bytes.
pub mod Text
pub mod System
pub mod Line
pub mod Moves
pub mod Flow
pub mod Order
pub mod Sources
pub mod Finish
pub mod Topics
pub mod Screen
pub mod Complete
pub mod Config
pub mod Parse
pub mod Numeral
pub mod Layout
pub mod Written
mod Tests
use Prim.Native.Char.{code}
use Prim.Native.String.{String}
pub use os_course.Prelude.{CharList}
use os_course.Prelude.{
  ℕ, zero, suc, ◌+◌, ◌-◌, ◌/◌, ◌%◌, ◌≡◌, Bool, true, false, Option, none, some, List, [], ◌∷◌, ◌++◌,
  ltb, ◌==◌, ◌&&◌, ◌||◌, if◌then◌else◌,
}
use os_course.Prelude.Int.{ℤ, pos, negsuc}

abbrev pub codes : String → CharList
codes String.[] = []
codes (String.◌∷◌ c s) = code c ∷ codes s

-- `%d`
unfoldable pub digits : ℕ → ℕ → CharList
digits zero n = []
digits (suc fuel) n =
    let rest = digits fuel (n / 10) ++ (48 + n % 10) ∷ [] in
    if ltb n 10 then (48 + n) ∷ [] else rest

abbrev pub show : ℕ → CharList
show n = digits (suc n) n

abbrev pub show_int : ℤ → CharList
show_int (pos n) = show n
show_int (negsuc n) = 45 ∷ show (suc n)

-- `strstr` as a test, and `strcmp` with the result 0
abbrev pub starts : CharList → CharList → Bool
starts [] t = true
starts (x ∷ s) [] = false
starts (x ∷ s) (y ∷ t) = x == y && starts s t

unfoldable pub contains : CharList → CharList → Bool
contains s [] = starts s []
contains s (y ∷ t) = starts s (y ∷ t) || contains s t

abbrev same_text : CharList → CharList → Bool
same_text [] [] = true
same_text (x ∷ s) (y ∷ t) = x == y && same_text s t
same_text _ _ = false

pub data Category : Type 0 where
  sports news weather : Category

abbrev pub same : Category → Category → Bool
same sports sports = true
same news news = true
same weather weather = true
same _ _ = false

-- `FINISH_MSG`, or the `n`-th text that producer `i` makes for a category.
pub data Message : Type 0 where
  finish : Message
  story : ℕ → Category → ℕ → Message

abbrev pub word : Category → CharList
word sports = codes " SPORTS "
word news = codes " NEWS "
word weather = codes " WEATHER "

-- The text, where `ids i` is the id of the buffer of producer `i`.
abbrev pub text : (ℕ → ℤ) → Message → CharList
text ids finish = codes "DONE"
text ids (story i c n) = codes "producer " ++ (show_int (ids i) ++ (word c ++ show n))

abbrev pub is_finish : CharList → Bool
is_finish t = same_text t (codes "DONE")

-- Which buffer the dispatcher puts a text in.
unfoldable pub route : CharList → Option Category
route t =
    if contains (codes "SPORTS") t
    then some sports
    else (if contains (codes "NEWS") t
        then some news
        else (if contains (codes "WEATHER") t then some weather else none))
