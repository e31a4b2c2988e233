-- ===== src/Pipeline/Complete.antt =====
-- What ex3/main.c has printed when it ends.
use os_course.Prelude.{ℕ, ◌+◌, ◌<◌, ◌≡◌, ◌∙◌, sym, ap, refl, true, false, List, [], arith}
use os_course.Prelude.Int.{ℤ}
use mathlib.Core.List.{append-nil}
use os_course.Pipeline.{Category, Message}
use os_course.Pipeline.System.{
  count, Dispatcher, scanning, holding, finishing, returned, System, Reach, start,
}
use os_course.Pipeline.Line.{pick, stories, carried, in_hand, joined}
use os_course.Pipeline.Flow.{Reach-Inv}
use os_course.Pipeline.Sources.{Reach-SourceOf}
use os_course.Pipeline.Finish.{past_scan, Reach-Drive}
use os_course.Pipeline.Topics.{passed, Reach-TopicOf}
use os_course.Pipeline.Screen.{Reach-ScreenOf, shut}

passed-past_scan :
    (d : Dispatcher) (c : Category) → passed d c ≡ true → (past_scan d ≡ true) × (in_hand d ≡ [])
passed-past_scan (scanning j all did) c e = ground (arith, e)
passed-past_scan (holding j d m) c e = ground (arith, e)
passed-past_scan (finishing d) c e = (refl, refl)
passed-past_scan returned c e = (refl, refl)

-- With nothing left on the way, all of it is on the screen.
joined-nil :
    (a b c d e f : List Message)
    → b ≡ []
    → c ≡ []
    → d ≡ []
    → e ≡ []
    → f ≡ []
    → joined a b c d e f ≡ a
joined-nil a b c d e f hb hc hd he hf = rw hb (rw hc (rw hd (rw he (rw hf (append-nil a)))))

-- When the screen manager has left its loop, which is when the program ends: the messages of producer
-- `i` for a category that are on the screen are exactly those that it made for that category, in
-- order; and it made, over the three categories, as many as its configuration asks for.
pub all_printed :
    (n : ℕ) (ids : ℕ → ℤ) (sizes : ℕ → ℕ) (size : ℕ) (messages : ℕ → ℕ) {s : System} (i : ℕ)
    (c : Category)
    → Reach n ids sizes size (start messages) s
    → s.shows ≡ false
    → i < n
    → (pick i c s.printed ≡ stories i c (count c (s.producers i)))
      × ((s.producers i).sport + (s.producers i).headlines + (s.producers i).forecast ≡ messages i)
all_printed n ids sizes size messages {s} i c r h lt =
    let (no_screen, all) = shut s (Reach-ScreenOf n ids sizes size messages r) h in
    let (sent, no_topic) = (Reach-TopicOf n ids sizes size c messages r).ended (all c) in
    let (past, no_hand) = passed-past_scan s.dispatcher c sent in
    let source = Reach-SourceOf n ids sizes size messages i r in
    let (no_source, _, none_left) =
      source.done ((Reach-Drive n ids sizes size messages r).ends past i lt) in
    (
      sym (
            joined-nil (pick i c s.printed) _ _ _ _ _ (ap (λ q. pick i c q) no_screen)
              (ap (λ e. pick i c (carried e)) (all c)) (ap (λ q. pick i c q) no_topic)
              (ap (λ q. pick i c q) no_hand) (ap (λ q. pick i c q) no_source))
          ∙ (Reach-Inv n ids sizes size i c messages r).flow,
      omega (arith, source.total, none_left),
    )
