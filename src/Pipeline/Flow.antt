-- ===== src/Pipeline/Flow.antt =====
-- The way of the messages of one producer for one category through the buffers of ex3/main.c.
use os_course.Prelude.{ℕ, suc, ◌≡◌, sym, ap, refl, Bool, true, false, List, [], ◌∷◌, arith}
use os_course.Prelude.Int.{ℤ}
use mathlib.Core.Path.{subst}
use os_course.Pipeline.{Category, Message, finish, story}
use os_course.Pipeline.Text.{route-text}
use os_course.Pipeline.System.{
  scanning, holding, System, at, held, handle, end_of_round, receive, Step, produce, produce_fails,
  produce_end, pass_over, find_nothing, remove, dispatch, round, dispatch_finish, take_up, give,
  print, Reach, here, next, start,
}
use os_course.Pipeline.Line.{in_hand, Inv, start-Inv, end_of_round_empty}
use os_course.Pipeline.Moves.{
  produce-Inv, fails-Inv, end-Inv, move-Inv, finish_topic-Inv, dispatch-Inv, take-Inv, give-Inv,
  removed-Inv, received-Inv,
}

-- `done_count`, `is_done` and `shows` do not matter to the line.
aside-Inv :
    (i : ℕ) (c : Category) (s : System) (f : ℕ → Bool) (k : ℕ) (b : Bool)
    → Inv i c s
    → Inv i c (record s { is_done = f; done_count = k; shows = b })
aside-Inv i c s f k b v = record {
  flow = v.flow;
  topics_else = v.topics_else;
  editors_else = v.editors_else;
  sources_else = v.sources_else;
  hand_else = v.hand_else;
}

module _ (i : ℕ) (c : Category) (ids : ℕ → ℤ) (s : System) (v : Inv i c s) where
  handle-Inv :
      (j : ℕ) (m : Message) (q : List Message)
      → in_hand s.dispatcher ≡ []
      → s.sources j ≡ m ∷ q
      → Inv i c (handle ids j m (record s { sources = at s.sources j q }))
  handle-Inv j finish q e h =
      let removed =
        removed-Inv i c s v j finish q (scanning (suc j) false true) e h refl
          (λ k x y n. ground (arith, n)) in
      aside-Inv i c
        (record s { sources = at s.sources j q; dispatcher = scanning (suc j) false true })
        (at s.is_done j true) s.done_count s.shows removed
  handle-Inv j (story a d k) q e h =
      let s1 = record s { sources = at s.sources j q } in
      subst (λ o. Inv i c (record s1 { dispatcher = held j (story a d k) o }))
        (sym (route-text ids a d k))
        (removed-Inv i c s v j (story a d k) q (holding j d (story a d k)) e h refl
          (λ b x y n f. ground (arith, n, f)))

  receive-Inv :
      (m : Message) (q : List Message)
      → s.screen ≡ m ∷ q
      → Inv i c (receive ids m (record s { screen = q }))
  receive-Inv finish q e = record {
    flow = ground (arith, v.flow, e);
    topics_else = v.topics_else;
    editors_else = v.editors_else;
    sources_else = v.sources_else;
    hand_else = v.hand_else;
  }
  receive-Inv (story a d k) q e = received-Inv i c s v (story a d k) q (story a d k ∷ []) e refl

module _ (n : ℕ) (ids : ℕ → ℤ) (sizes : ℕ → ℕ) (size : ℕ) (i : ℕ) (c : Category) where
  Step-Inv : {s t : System} → Inv i c s → Step n ids sizes size s t → Inv i c t
  Step-Inv {s = s} v (produce j k d lt r l room) = produce-Inv i c s v j k d
  Step-Inv {s = s} v (produce_fails j k lt r l) = fails-Inv i c s v j
  Step-Inv {s = s} v (produce_end j lt r l room) = end-Inv i c s v j
  Step-Inv {s = s} v (pass_over j all did e lt t) =
      move-Inv i c s v (scanning (suc j) all did) (ap in_hand e) refl
  Step-Inv {s = s} v (find_nothing j all did e lt t q) =
      move-Inv i c s v (scanning (suc j) false did) (ap in_hand e) refl
  Step-Inv {s = s} v (remove j all did m q e lt t h) = handle-Inv i c ids s v j m q (ap in_hand e) h
  Step-Inv {s = s} v (dispatch j d m e room) = dispatch-Inv i c s v j d m e
  Step-Inv {s = s} v (round all did e) =
      move-Inv i c s v (end_of_round all) (ap in_hand e) (end_of_round_empty all)
  Step-Inv {s = s} v (dispatch_finish d e room) = finish_topic-Inv i c s v d e
  Step-Inv {s = s} v (take_up d m q e h) = take-Inv i c s v d m q e h
  Step-Inv {s = s} v (give d m e room) = give-Inv i c s v ids d m e
  Step-Inv {s = s} v (print m q r e) = receive-Inv i c ids s v m q e

  pub Reach-Inv :
      (messages : ℕ → ℕ) {s : System} → Reach n ids sizes size (start messages) s → Inv i c s
  Reach-Inv messages here = start-Inv i c messages
  Reach-Inv messages (next r st) = Step-Inv (Reach-Inv messages r) st
