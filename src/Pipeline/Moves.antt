-- ===== src/Pipeline/Moves.antt =====
-- What each step of ex3/main.c does to that way.
use os_course.Prelude.{
  ℕ, suc, ◌≡◌, true, false, List, [], ◌∷◌, ◌++◌, arith, ◌==◌, Bool-cases, inl, inr,
}
use os_course.Prelude.Int.{ℤ}
use mathlib.Core.List.{append-nil}
use os_course.Pipeline.{Category, same, Message, finish, story}
use os_course.Pipeline.System.{
  count, bump, Dispatcher, scanning, holding, finishing, waiting, carrying, System, at, at_topic,
  next_finish, after_give,
}
use os_course.Pipeline.Line.{
  pick, stories, carried, in_hand, line, Inv, pick-append, pick-cons, along_print, along_give,
  along_take, along_dispatch, along_remove, along_produce, count-bump, count_left, same-eq,
  next_finish_empty,
}

module _ (i : ℕ) (c : Category) (s : System) (v : Inv i c s) where
  produce-flow :
      (j k : ℕ) (d : Category)
      → line i c (record s {
        producers = at s.producers j (record (bump d (s.producers j)) { left = k });
        sources = at s.sources j (s.sources j ++ story j d (count d (s.producers j)) ∷ []);
      })
        ≡ stories i c (count c (at s.producers j (record (bump d (s.producers j)) { left = k }) i))
  produce-flow j k d = elim (Bool-cases (j == i)) [
    | inr e ↦ ground (arith, e, v.flow)
    | inl e ↦ elim (Bool-cases (same d c)) [
      | inr h ↦ ground (
        arith,
        pick-append i c (s.sources j) (story j d (count d (s.producers j)) ∷ []),
        append-nil (pick i c (s.sources j)),
        along_produce (pick i c s.printed) (pick i c s.screen) (pick i c (carried (s.editors c)))
            (pick i c (s.topics c)) (pick i c (in_hand s.dispatcher)) (pick i c (s.sources i))
            (story i c (count c (s.producers i)) ∷ []),
        count-bump c d (s.producers j) k,
        same-eq d c,
        v.flow,
      )
      | inl h ↦ ground (
        arith,
        pick-append i c (s.sources j) (story j d (count d (s.producers j)) ∷ []),
        append-nil (pick i c (s.sources j)),
        along_produce (pick i c s.printed) (pick i c s.screen) (pick i c (carried (s.editors c)))
            (pick i c (s.topics c)) (pick i c (in_hand s.dispatcher)) (pick i c (s.sources i))
            (story i c (count c (s.producers i)) ∷ []),
        count-bump c d (s.producers j) k,
        same-eq d c,
        v.flow,
      )
    ]
  ]

  pub produce-Inv :
      (j k : ℕ) (d : Category)
      → Inv i c (record s {
        producers = at s.producers j (record (bump d (s.producers j)) { left = k });
        sources = at s.sources j (s.sources j ++ story j d (count d (s.producers j)) ∷ []);
      })
  produce-Inv j k d = record {
    flow = produce-flow j k d;
    topics_else = v.topics_else;
    editors_else = v.editors_else;
    sources_else = λ x h. ground (
      arith,
      h,
      v.sources_else x,
      pick-append i c (s.sources j) (story j d (count d (s.producers j)) ∷ []),
    );
    hand_else = v.hand_else;
  }

  pub fails-Inv :
      (j : ℕ)
      → Inv i c
          (record s { producers = at s.producers j (record (s.producers j) { runs = false }) })
  fails-Inv j = record {
    flow = ground (arith, v.flow, count_left c (s.producers j) false);
    topics_else = v.topics_else;
    editors_else = v.editors_else;
    sources_else = v.sources_else;
    hand_else = v.hand_else;
  }

  pub end-Inv :
      (j : ℕ)
      → Inv i c (record s {
        producers = at s.producers j (record (s.producers j) { runs = false });
        sources = at s.sources j (s.sources j ++ finish ∷ []);
      })
  end-Inv j = record {
    flow = ground (
      arith,
      v.flow,
      count_left c (s.producers j) false,
      pick-append i c (s.sources j) (finish ∷ []),
      append-nil (pick i c (s.sources j)),
    );
    topics_else = v.topics_else;
    editors_else = v.editors_else;
    sources_else =
        λ x h. ground (arith, h, v.sources_else x, pick-append i c (s.sources j) (finish ∷ []));
    hand_else = v.hand_else;
  }

  -- A move of the dispatcher with empty hands.
  pub move-Inv :
      (d : Dispatcher)
      → in_hand s.dispatcher ≡ []
      → in_hand d ≡ []
      → Inv i c (record s { dispatcher = d })
  move-Inv d e e' = record {
    flow = ground (arith, v.flow, e, e');
    topics_else = v.topics_else;
    editors_else = v.editors_else;
    sources_else = v.sources_else;
    hand_else = λ j x m h. ground (arith, e', h);
  }

  pub finish_topic-Inv :
      (x : Category)
      → s.dispatcher ≡ finishing x
      → Inv i c (record s {
        topics = at_topic s.topics x (s.topics x ++ finish ∷ []);
        dispatcher = next_finish x;
      })
  finish_topic-Inv x e = record {
    flow = ground (
      arith,
      v.flow,
      e,
      same-eq x c,
      next_finish_empty x,
      append-nil (pick i c (s.topics x)),
      pick-append i c (s.topics x) (finish ∷ []),
    );
    topics_else = λ y h.
        ground (arith, h, v.topics_else y, same-eq x y, pick-append i c (s.topics x) (finish ∷ []));
    editors_else = v.editors_else;
    sources_else = v.sources_else;
    hand_else = λ j y m h. ground (arith, next_finish_empty x, h);
  }

  pub dispatch-Inv :
      (j : ℕ) (d : Category) (m : Message)
      → s.dispatcher ≡ holding j d m
      → Inv i c (record s {
        topics = at_topic s.topics d (s.topics d ++ m ∷ []);
        dispatcher = scanning (suc j) false true;
      })
  dispatch-Inv j d m e = record {
    flow = ground (
      arith,
      v.flow,
      e,
      same-eq d c,
      v.hand_else j d m,
      pick-append i c (s.topics d) (m ∷ []),
      along_dispatch (pick i c s.printed) (pick i c s.screen) (pick i c (carried (s.editors c)))
          (pick i c (s.topics c)) (pick i c (m ∷ [])) (pick i c (s.sources i)),
    );
    topics_else = λ y h. ground (
      arith,
      h,
      v.topics_else y,
      same-eq d y,
      v.hand_else j d m,
      pick-append i c (s.topics d) (m ∷ []),
    );
    editors_else = v.editors_else;
    sources_else = v.sources_else;
    hand_else = λ x y z h. ground (arith, h);
  }

  pub take-Inv :
      (d : Category) (m : Message) (q : List Message)
      → s.editors d ≡ waiting
      → s.topics d ≡ m ∷ q
      → Inv i c
          (record s { topics = at_topic s.topics d q; editors = at_topic s.editors d (carrying m) })
  take-Inv d m q e h = record {
    flow = ground (
      arith,
      v.flow,
      e,
      h,
      same-eq d c,
      pick-cons i c m q,
      along_take (pick i c s.printed) (pick i c s.screen) (pick i c (m ∷ [])) (pick i c q)
          (pick i c (in_hand s.dispatcher)) (pick i c (s.sources i)),
    );
    topics_else = λ y n. ground (arith, n, e, h, v.topics_else y, same-eq d y, pick-cons i c m q);
    editors_else = λ y n.
        ground (arith, n, e, h, v.topics_else y, v.editors_else y, same-eq d y, pick-cons i c m q);
    sources_else = v.sources_else;
    hand_else = v.hand_else;
  }

  pub give-Inv :
      (ids : ℕ → ℤ) (d : Category) (m : Message)
      → s.editors d ≡ carrying m
      → Inv i c (record s {
        screen = s.screen ++ m ∷ [];
        editors = at_topic s.editors d (after_give ids m);
      })
  give-Inv ids d m e = record {
    flow = ground (
      arith,
      v.flow,
      e,
      same-eq d c,
      v.editors_else d,
      append-nil (pick i c s.screen),
      pick-append i c s.screen (m ∷ []),
      along_give (pick i c s.printed) (pick i c s.screen) (pick i c (m ∷ []))
          (pick i c (s.topics c)) (pick i c (in_hand s.dispatcher)) (pick i c (s.sources i)),
    );
    topics_else = v.topics_else;
    editors_else = λ y n. ground (arith, n, v.editors_else y);
    sources_else = v.sources_else;
    hand_else = v.hand_else;
  }

  pub removed-Inv :
      (j : ℕ) (m : Message) (q : List Message) (d : Dispatcher)
      → in_hand s.dispatcher ≡ []
      → s.sources j ≡ m ∷ q
      → pick i c (in_hand d) ≡ pick i c (m ∷ [])
      → ((k : ℕ) (x : Category) (y : Message)
          → d ≡ holding k x y
          → same x c ≡ false
          → pick i c (y ∷ []) ≡ [])
      → Inv i c (record s { sources = at s.sources j q; dispatcher = d })
  removed-Inv j m q d e h same_hand ok = record {
    flow = ground (
      arith,
      v.flow,
      e,
      h,
      v.sources_else j,
      same_hand,
      pick-cons i c m q,
      along_remove (pick i c s.printed) (pick i c s.screen) (pick i c (carried (s.editors c)))
          (pick i c (s.topics c)) (pick i c (m ∷ [])) (pick i c q),
    );
    topics_else = v.topics_else;
    editors_else = v.editors_else;
    sources_else = λ x n. ground (arith, n, h, v.sources_else x, pick-cons i c m q);
    hand_else = ok;
  }

  pub received-Inv :
      (m : Message) (q out : List Message)
      → s.screen ≡ m ∷ q
      → pick i c out ≡ pick i c (m ∷ [])
      → Inv i c (record s { screen = q; printed = s.printed ++ out })
  received-Inv m q out e h = record {
    flow = ground (
      arith,
      v.flow,
      e,
      h,
      pick-cons i c m q,
      pick-append i c s.printed out,
      along_print (pick i c s.printed) (pick i c (m ∷ [])) (pick i c q)
          (pick i c (carried (s.editors c))) (pick i c (s.topics c))
          (pick i c (in_hand s.dispatcher)) (pick i c (s.sources i)),
    );
    topics_else = v.topics_else;
    editors_else = v.editors_else;
    sources_else = v.sources_else;
    hand_else = v.hand_else;
  }
