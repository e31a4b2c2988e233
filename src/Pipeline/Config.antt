-- ===== src/Pipeline/Config.antt =====
-- `parseConfigFile` of ex3/main.c. The file is the list of the lines that `getline` gives, each with
-- its newline if it has one. What C leaves undefined there (`atoi` of NULL or of a number that is no
-- `int`, a store before the line) is `undefined`.
use os_course.Prelude.{
  ℕ, zero, suc, ◌+◌, ◌-◌, ◌*◌, Bool, Option, none, some, List, [], ◌∷◌, ◌++◌, leb, ltb, ◌^◌, ◌==◌,
  ◌&&◌, ◌||◌, if◌then◌else◌, length,
}
use os_course.Prelude.Int.{ℤ, pos, negsuc}
use os_course.Pipeline.{CharList, codes, contains}

pub record SizeAndMessages : Type 0 where
  pub producer_id : ℤ
  pub num_of_messages : ℤ
  pub queue_size : ℤ

-- `co_editor_queue_size` is `none` until it is set.
pub record ConfigData : Type 0 where
  pub num_of_producers : ℕ
  pub producers_info : List SizeAndMessages
  pub co_editor_queue_size : Option ℤ

-- `line[read - 1] = '\0'` on a line that is not empty
abbrev pub cut_last : CharList → CharList
cut_last [] = []
cut_last (c ∷ []) = []
cut_last (c ∷ d ∷ t) = c ∷ cut_last (d ∷ t)

-- `if (line[read - 1] == '\n') line[read - 1] = '\0'`
abbrev pub cut_newline : CharList → CharList
cut_newline [] = []
cut_newline (c ∷ []) = if c == 10 then [] else c ∷ []
cut_newline (c ∷ d ∷ t) = c ∷ cut_newline (d ∷ t)

-- What calls of `strtok` with " " give one after the other: the token at the start of a text, which
-- may be empty, and those after it.
abbrev pub push : CharList → List CharList → List CharList
push [] tokens = tokens
push (c ∷ word) tokens = (c ∷ word) ∷ tokens

abbrev pub split : CharList → CharList × List CharList
split [] = ([], [])
split (c ∷ t) =
    let (word, tokens) = split t in if c == 32 then ([], push word tokens) else (c ∷ word, tokens)

-- The token after `k` more calls, `none` for NULL.
abbrev pub nth_token : ℕ → List CharList → Option CharList
nth_token k [] = none
nth_token zero (w ∷ ws) = some w
nth_token (suc k) (w ∷ ws) = nth_token k ws

abbrev pub token : ℕ → CharList → Option CharList
token k line = let (word, tokens) = split line in nth_token k (push word tokens)

-- `atoi`: white space, a sign, digits.
abbrev is_space : ℕ → Bool
is_space c = c == 32 || leb 9 c && leb c 13

abbrev is_digit : ℕ → Bool
is_digit c = leb 48 c && leb c 57

abbrev pub number_from : ℕ → CharList → ℕ
number_from n [] = n
number_from n (c ∷ t) = if is_digit c then number_from (n * 10 + (c - 48)) t else n

abbrev pub negated : ℕ → ℤ
negated zero = pos 0
negated (suc n) = negsuc n

abbrev pub signed : CharList → ℤ
signed [] = pos 0
signed (c ∷ t) =
    if c == 45
    then negated (number_from 0 t)
    else (if c == 43 then pos (number_from 0 t) else pos (number_from 0 (c ∷ t)))

abbrev pub number_in : CharList → ℤ
number_in [] = pos 0
number_in (c ∷ t) = if is_space c then number_in t else signed (c ∷ t)

abbrev pub fits_int : ℤ → Bool
fits_int (pos n) = ltb n (2 ^ 31)
fits_int (negsuc n) = ltb n (2 ^ 31)

-- `none` for a number that is no `int`, of which C does not say what `atoi` returns.
abbrev pub atoi : CharList → Option ℤ
atoi t = if fits_int (number_in t) then some (number_in t) else none

-- `atoi(token)`
abbrev pub value : Option CharList → Option ℤ
value none = none
value (some w) = atoi w

-- The first pass, on a line without its newline.
abbrev pub counted : CharList → ConfigData → ConfigData
counted line info =
    if contains (codes "PRODUCER") line
    then record info { num_of_producers = suc info.num_of_producers }
    else info

abbrev pub set_size : ConfigData → Option ℤ → Option ConfigData
set_size info none = none
set_size info (some k) = some (record info { co_editor_queue_size = some k })

abbrev pub count_line : CharList → ConfigData → Option ConfigData
count_line line info =
    if contains (codes "Co-Editor") line
    then set_size (counted line info) (value (token 4 line))
    else some (counted line info)

abbrev pub count_step : CharList → Option ConfigData → Option ConfigData
count_step line none = none
count_step line (some info) =
    if leb (length line) 1 then some info else count_line (cut_newline line) info

abbrev pub count_lines : List CharList → Option ConfigData → Option ConfigData
count_lines [] r = r
count_lines (line ∷ lines) r = count_lines lines (count_step line r)

-- The second pass, between two calls of `getline`, with the elements that are complete.
pub data Filling : Type 0 where
  looking : List SizeAndMessages → Filling
  numbering : ℤ → List SizeAndMessages → Filling
  sizing : ℤ → ℤ → List SizeAndMessages → Filling

abbrev pub named : List SizeAndMessages → Option ℤ → Option Filling
named infos none = none
named infos (some id) = some (numbering id infos)

abbrev pub numbered : ℤ → List SizeAndMessages → Option ℤ → Option Filling
numbered id infos none = none
numbered id infos (some n) = some (sizing id n infos)

abbrev pub sized : ℤ → ℤ → List SizeAndMessages → Option ℤ → Option Filling
sized id n infos none = none
sized id n infos (some k) =
    some (looking (infos ++ record { producer_id = id; num_of_messages = n; queue_size = k } ∷ []))

abbrev pub fill_line : CharList → Filling → Option Filling
fill_line line (looking infos) =
    if leb (length line) 1
    then some (looking infos)
    else (if contains (codes "PRODUCER") (cut_last line)
        then named infos (value (token 1 (cut_last line)))
        else some (looking infos))
fill_line line (numbering id infos) = numbered id infos (atoi (cut_last line))
fill_line line (sizing id n infos) = sized id n infos (value (token 3 (cut_last line)))

abbrev pub fill_step : CharList → Option Filling → Option Filling
fill_step line none = none
fill_step line (some f) = fill_line line f

abbrev pub fill_lines : List CharList → Option Filling → Option Filling
fill_lines [] r = r
fill_lines (line ∷ lines) r = fill_lines lines (fill_step line r)

pub data Parsed : Type 0 where
  parsed : ConfigData → Parsed
  no_memory : Parsed
  undefined : Parsed

abbrev pub finished : ConfigData → Option Filling → Parsed
finished info (some (looking infos)) = parsed (record info { producers_info = infos })
finished info _ = undefined

abbrev pub after_count : (ℕ → Bool) → List CharList → Option ConfigData → Parsed
after_count has_room lines none = undefined
after_count has_room lines (some info) =
    if has_room info.num_of_producers
    then finished info (fill_lines lines (some (looking [])))
    else no_memory

-- `info` as `main` hands it over.
abbrev pub no_data : ConfigData
no_data = record { num_of_producers = 0; producers_info = []; co_editor_queue_size = none }

-- `has_room n` says whether `malloc` has room for `n` elements.
unfoldable pub parse_config_file : (ℕ → Bool) → List CharList → Parsed
parse_config_file has_room lines = after_count has_room lines (count_lines lines (some no_data))
