-- ===== src/Pipeline/Tests.antt =====
-- One producer of ex3/main.c with one message, and buffers of one cell.
use os_course.Prelude.{
  List, ℕ, ◌+◌, ◌≤◌, ◌≡◌, refl, true, false, some, [], ◌∷◌, ◌++◌, arith, length, ap, if◌then◌else◌,
}
use os_course.Prelude.Int.{ℤ, pos}
use os_course.Pipeline.{
  CharList, codes, show_int, Category, sports, news, weather, same, Message, finish, story, digits,
  contains, route,
}
use os_course.Pipeline.System.{
  count, bump, Dispatcher, scanning, finishing, returned, waiting, carrying, System, at, at_topic,
  handle, after_give, receive, produce, produce_end, pass_over, remove, dispatch, round,
  dispatch_finish, take_up, give, print, Reach, here, next, start,
}
use os_course.Pipeline.Line.{pick, stories}
use os_course.Pipeline.Order.{printed_in_order}
use os_course.Pipeline.Config.{SizeAndMessages, looking, fill_lines}
use os_course.Pipeline.Layout.{header, sizes_line}
use os_course.Pipeline.Written.{unterminated_line_loses_digit}
use os_course.Pipeline.Complete.{all_printed}

abbrev ids : ℕ → ℤ
ids i = pos 7

abbrev one_each : ℕ → ℕ
one_each i = 1

abbrev Run : System → Type 0
Run s = Reach 1 ids one_each 1 (start one_each) s

abbrev scoop : Message
scoop = story 0 news 0

-- What a step does to a state.
abbrev made : System → System
made s = record s {
  producers = at s.producers 0 (record (bump news (s.producers 0)) { left = 0 });
  sources = at s.sources 0 (s.sources 0 ++ scoop ∷ []);
}

abbrev closed : System → System
closed s = record s {
  producers = at s.producers 0 (record (s.producers 0) { runs = false });
  sources = at s.sources 0 (s.sources 0 ++ finish ∷ []);
}

abbrev removed : Message → System → System
removed m s = handle ids 0 m (record s { sources = at s.sources 0 [] })

abbrev moved : Dispatcher → System → System
moved d s = record s { dispatcher = d }

abbrev put : Category → Message → Dispatcher → System → System
put c m d s = record s { topics = at_topic s.topics c (s.topics c ++ m ∷ []); dispatcher = d }

abbrev taken : Category → Message → System → System
taken c m s = record s {
  topics = at_topic s.topics c [];
  editors = at_topic s.editors c (carrying m);
}

abbrev given : Category → Message → System → System
given c m s = record s {
  screen = s.screen ++ m ∷ [];
  editors = at_topic s.editors c (after_give ids m);
}

abbrev seen : Message → System → System
seen m s = receive ids m (record s { screen = [] })

-- An editor passes a message on, and it is shown.
abbrev through : Category → Message → System → System
through c m s = seen m (given c m (taken c m s))

abbrev begun : System
begun =
    moved (scanning 0 true false)
      (put news scoop (scanning 1 false true) (removed scoop (made (start one_each))))

abbrev shown : System
shown = through news scoop begun

abbrev called_off : System
called_off =
    moved (finishing sports) (
      moved (scanning 1 true false) (moved (scanning 0 true false) (removed finish (closed shown))))

abbrev all_told : System
all_told =
    put weather finish returned
      (put news finish (finishing weather) (put sports finish (finishing news) called_off))

abbrev over : System
over = through weather finish (through news finish (through sports finish all_told))

same_self : (c : Category) → same c c ≡ true
same_self sports = refl
same_self news = refl
same_self weather = refl

Run-through :
    (c : Category) (m : Message) (s : System)
    → Run s
    → s.editors c ≡ waiting
    → s.topics c ≡ m ∷ []
    → s.screen ≡ []
    → s.shows ≡ true
    → Run (through c m s)
Run-through c m s r e t q on =
    let carries : (if same c c then carrying m else s.editors c) ≡ carrying m =
      ap (λ b. if b then carrying m else s.editors c) (same_self c) in
    next (next (next r (take_up c m [] e t)) (give c m carries (omega (arith, ap length q))))
      (print m [] on (ap (λ x. x ++ m ∷ []) q))

Run-begun : Run begun
unfolding route contains digits
Run-begun =
    next
      (next
        (next (next here (produce 0 0 news (omega arith) refl refl (omega arith)))
          (remove 0 true false scoop [] refl (omega arith) refl refl))
        (dispatch 0 news scoop refl (omega arith)))
      (round false true refl)

Run-shown : Run shown
unfolding route contains digits
Run-shown = Run-through news scoop begun Run-begun refl refl refl refl

Run-called_off : Run called_off
unfolding route contains digits
Run-called_off =
    next
      (next
        (next
          (next (next Run-shown (produce_end 0 (omega arith) refl refl (omega arith)))
            (remove 0 true false finish [] refl (omega arith) refl refl))
          (round false true refl))
        (pass_over 0 true false refl (omega arith) refl))
      (round true false refl)

Run-all_told : Run all_told
unfolding route contains digits
Run-all_told =
    next
      (next (next Run-called_off (dispatch_finish sports refl (omega arith)))
        (dispatch_finish news refl (omega arith)))
      (dispatch_finish weather refl (omega arith))

Run-over : Run over
unfolding route contains digits
Run-over =
    Run-through weather finish (through news finish (through sports finish all_told))
      (Run-through news finish (through sports finish all_told)
        (Run-through sports finish all_told Run-all_told refl refl refl refl) refl refl refl refl)
      refl refl refl refl

over-printed : over.printed ≡ scoop ∷ []
unfolding route contains digits
over-printed = refl

printed_in_order_example :
    (length (pick 0 news shown.printed) ≤ count news (shown.producers 0))
    × (pick 0 news shown.printed ≡ stories 0 news (length (pick 0 news shown.printed)))
printed_in_order_example = printed_in_order 1 ids one_each 1 one_each 0 news Run-shown

all_printed_example :
    (pick 0 news over.printed ≡ stories 0 news (count news (over.producers 0)))
    × ((over.producers 0).sport + (over.producers 0).headlines + (over.producers 0).forecast ≡ 1)
all_printed_example = all_printed 1 ids one_each 1 one_each 0 news Run-over refl (omega arith)

-- A configuration.
abbrev seventh : SizeAndMessages
seventh = record { producer_id = pos 7; num_of_messages = pos 30; queue_size = pos 12 }

abbrev lines : List CharList
lines =
    (codes "PRODUCER 7" ++ 10 ∷ [])
    ∷ (codes "30" ++ 10 ∷ [])
    ∷ (codes "queue size = 12" ++ 10 ∷ [])
    ∷ []

unterminated_line_loses_digit_example :
    fill_lines
      ((header (pos 7) ++ 10 ∷ []) ∷ (show_int (pos 30) ++ 10 ∷ []) ∷ sizes_line (pos 50) ∷ [])
      (some (looking []))
    ≡ some (
        looking (record { producer_id = pos 7; num_of_messages = pos 30; queue_size = pos 5 } ∷ []))
unterminated_line_loses_digit_example =
    unterminated_line_loses_digit [] (pos 7) (pos 30) 50 (omega arith) (omega arith) (omega arith)
      (omega arith)
