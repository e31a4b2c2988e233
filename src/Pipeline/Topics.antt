-- ===== src/Pipeline/Topics.antt =====
-- How the buffer of a category and its editor in ex3/main.c come to their end.
use os_course.Prelude.{
  ℕ, suc, ◌≡◌, ◌∙◌, sym, ap, refl, Bool, true, false, Option, none, some, List, [], ◌∷◌, ◌++◌,
  arith, ◌||◌, if◌then◌else◌, Bool-cases, inl, inr,
}
use os_course.Prelude.Int.{ℤ}
use mathlib.Core.Path.{subst}
use mathlib.Core.List.{append_assoc}
use os_course.Pipeline.{Category, sports, news, weather, same, Message, finish, story, route, text}
use os_course.Pipeline.System.{
  Dispatcher, scanning, holding, finishing, returned, Editor, waiting, carrying, stopped, System,
  held, end_of_round, next_finish, after_give, Step, produce, produce_fails, produce_end, pass_over,
  find_nothing, remove, dispatch, round, dispatch_finish, take_up, give, print, Reach, here, next,
  start,
}
use os_course.Pipeline.Line.{carried}
use os_course.Pipeline.Sources.{has_finish, Tidy, Tidy-snoc, has_finish-append}
use os_course.Pipeline.Finish.{Drive, Reach-Drive}

-- Whether the dispatcher has inserted FINISH_MSG for the category.
abbrev pub passed : Dispatcher → Category → Bool
passed (scanning j all did) c = false
passed (holding j d m) c = false
passed (finishing sports) c = false
passed (finishing news) c = same c sports
passed (finishing weather) c = same c sports || same c news
passed returned c = true

pub record Topic (t : List Message) (e : Editor) (sent : Bool) : Type 0 where
  pub tidy : Tidy (carried e ++ t)
  told : has_finish (carried e ++ t) ≡ true → sent ≡ true
  pub ended : e ≡ stopped → (sent ≡ true) × (t ≡ [])

topic-cases : (P : Bool → Type 0) (d c : Category) → ((d ≡ c) → P true) → P false → P (same d c)
topic-cases P sports sports new old = new refl
topic-cases P sports news new old = old
topic-cases P sports weather new old = old
topic-cases P news sports new old = old
topic-cases P news news new old = new refl
topic-cases P news weather new old = old
topic-cases P weather sports new old = old
topic-cases P weather news new old = old
topic-cases P weather weather new old = new refl

passed_finishing : (c : Category) → passed (finishing c) c ≡ false
passed_finishing sports = refl
passed_finishing news = refl
passed_finishing weather = refl

passed_next : (c : Category) → passed (next_finish c) c ≡ true
passed_next sports = refl
passed_next news = refl
passed_next weather = refl

-- Once inserted, it stays so.
passed_kept : (d c : Category) → passed (finishing d) c ≡ true → passed (next_finish d) c ≡ true
passed_kept sports c e = ground (arith, e)
passed_kept news sports e = refl
passed_kept news news e = refl
passed_kept news weather e = ground (arith, e)
passed_kept weather c e = refl

passed-held :
    (j : ℕ) (m : Message) (o : Option Category) (c : Category) → passed (held j m o) c ≡ false
passed-held j m none c = refl
passed-held j m (some d) c = refl

passed_round : (b : Bool) (c : Category) → passed (end_of_round b) c ≡ false
passed_round true c = refl
passed_round false c = refl

grow-Topic :
    (t : List Message) (e : Editor) (sent sent' : Bool)
    → (sent ≡ true → sent' ≡ true)
    → Topic t e sent
    → Topic t e sent'
grow-Topic t e sent sent' h v = record {
  tidy = v.tidy;
  told = λ x. h (v.told x);
  ended = λ x. (h (v.ended x).0, (v.ended x).1);
}

module _ (t : List Message) (e : Editor) (v : Topic t e false) where
  no_finish : has_finish (carried e ++ t) ≡ false
  no_finish = elim (Bool-cases (has_finish (carried e ++ t))) [
    | inl h ↦ ground (arith, v.told h)
    | inr h ↦ h
  ]

  push-Topic :
      (m : Message) (sent : Bool)
      → (has_finish (m ∷ []) ≡ true → sent ≡ true)
      → Topic (t ++ m ∷ []) e sent
  push-Topic m sent h = record {
    tidy =
        subst (λ x. Tidy x) (append_assoc (carried e) t (m ∷ []))
          (Tidy-snoc (carried e ++ t) m no_finish);
    told = λ x. h (
        ground (
          arith,
          x,
          no_finish,
          has_finish-append (carried e ++ t) (m ∷ []),
          append_assoc (carried e) t (m ∷ []),
        ));
    ended = λ x. ground (arith, v.ended x);
  }

take-Topic :
    (t q : List Message) (e : Editor) (m : Message) (sent : Bool)
    → e ≡ waiting
    → t ≡ m ∷ q
    → Topic t e sent
    → Topic q (carrying m) sent
take-Topic t q e m sent h h' v = record {
  tidy = subst (λ x. Tidy x) h' (subst (λ x. Tidy (carried x ++ t)) h v.tidy);
  told = λ x. v.told (ap (λ y. has_finish (carried y ++ t)) h ∙ ap has_finish h' ∙ x);
  ended = λ x. ground (arith, x);
}

give-Topic :
    (ids : ℕ → ℤ) (t : List Message) (e : Editor) (m : Message) (sent : Bool)
    → e ≡ carrying m
    → Topic t e sent
    → Topic t (after_give ids m) sent
give-Topic ids t e finish sent h v =
    let nil : t ≡ [] = subst (λ x. Tidy (carried x ++ t)) h v.tidy in
    record {
      tidy = subst (λ x. Tidy x) (sym nil) tt;
      told = λ x. v.told (ap (λ y. has_finish (carried y ++ t)) h);
      ended = λ x. (v.told (ap (λ y. has_finish (carried y ++ t)) h), nil);
    }
give-Topic ids t e (story a c k) sent h v = record {
  tidy = subst (λ x. Tidy (carried x ++ t)) h v.tidy;
  told = λ x. v.told (ap (λ y. has_finish (carried y ++ t)) h ∙ x);
  ended = λ x. ground (arith, x);
}

abbrev TopicOf : Category → System → Type 0
TopicOf c s = Topic (s.topics c) (s.editors c) (passed s.dispatcher c)

module _ (n : ℕ) (ids : ℕ → ℤ) (sizes : ℕ → ℕ) (size : ℕ) (c : Category) where
  -- A dispatcher that has not inserted it yet, before and after.
  early :
      (s : System) (d : Dispatcher)
      → TopicOf c s
      → passed s.dispatcher c ≡ false
      → passed d c ≡ false
      → Topic (s.topics c) (s.editors c) (passed d c)
  early s d v e e' = subst (λ b. Topic (s.topics c) (s.editors c) b) (e ∙ sym e') v

  Step-TopicOf :
      {s t : System}
      → Drive n s.dispatcher s.is_done
      → TopicOf c s
      → Step n ids sizes size s t
      → TopicOf c t
  Step-TopicOf w v (produce j k d lt r l room) = v
  Step-TopicOf w v (produce_fails j k lt r l) = v
  Step-TopicOf w v (produce_end j lt r l room) = v
  Step-TopicOf {s = s} w v (pass_over j all did e lt t) =
      early s (scanning (suc j) all did) v (ap (λ d. passed d c) e) refl
  Step-TopicOf {s = s} w v (find_nothing j all did e lt t q) =
      early s (scanning (suc j) false did) v (ap (λ d. passed d c) e) refl
  Step-TopicOf {s = s} w v (remove j all did finish q e lt t h) =
      early s (scanning (suc j) false true) v (ap (λ d. passed d c) e) refl
  Step-TopicOf {s = s} w v (remove j all did (story a d k) q e lt t h) =
      let m = story a d k in
      early s (held j m (route (text ids m))) v (ap (λ d. passed d c) e)
        (passed-held j m (route (text ids m)) c)
  Step-TopicOf {s = s} w v (dispatch j d m e room) =
      let v' = subst (λ b. Topic (s.topics c) (s.editors c) b) (ap (λ d. passed d c) e) v in
      topic-cases (λ b. Topic (if b then s.topics d ++ m ∷ [] else s.topics c) (s.editors c) false)
        d c
        (λ x.
          subst (λ y. Topic (s.topics y ++ m ∷ []) (s.editors c) false) (sym x)
            (push-Topic (s.topics c) (s.editors c) v' m false
              (λ y. ground (arith, y, w.hand j d m e))))
        v'
  Step-TopicOf {s = s} w v (round all did e) =
      early s (end_of_round all) v (ap (λ d. passed d c) e) (passed_round all c)
  Step-TopicOf {s = s} w v (dispatch_finish d e room) =
      let v' = subst (λ b. Topic (s.topics c) (s.editors c) b) (ap (λ d. passed d c) e) v in
      topic-cases
        (λ b.
          Topic (if b then s.topics d ++ finish ∷ [] else s.topics c) (s.editors c)
            (passed (next_finish d) c))
        d c
        (λ x.
          subst (λ y. Topic (s.topics y ++ finish ∷ []) (s.editors c) (passed (next_finish y) c))
            (sym x)
            (push-Topic (s.topics c) (s.editors c)
              (subst (λ b. Topic (s.topics c) (s.editors c) b)
                (ap (λ y. passed (finishing y) c) x ∙ passed_finishing c) v')
              finish (passed (next_finish c) c) (λ y. passed_next c)))
        (grow-Topic (s.topics c) (s.editors c) (passed (finishing d) c) (passed (next_finish d) c)
          (passed_kept d c) v')
  Step-TopicOf {s = s} w v (take_up d m q e h) =
      topic-cases
        (λ b.
          Topic (if b then q else s.topics c) (if b then carrying m else s.editors c)
            (passed s.dispatcher c))
        d c
        (λ x.
          take-Topic (s.topics c) q (s.editors c) m (passed s.dispatcher c)
            (ap s.editors (sym x) ∙ e) (ap s.topics (sym x) ∙ h) v)
        v
  Step-TopicOf {s = s} w v (give d m e room) =
      topic-cases
        (λ b.
          Topic (s.topics c) (if b then after_give ids m else s.editors c) (passed s.dispatcher c))
        d c
        (λ x.
          give-Topic ids (s.topics c) (s.editors c) m (passed s.dispatcher c)
            (ap s.editors (sym x) ∙ e) v)
        v
  Step-TopicOf w v (print finish q r e) = v
  Step-TopicOf w v (print (story a d k) q r e) = v

  start-TopicOf : (messages : ℕ → ℕ) → TopicOf c (start messages)
  start-TopicOf messages = record { tidy = tt; told = λ h. h; ended = λ h. ground (arith, h) }

  pub Reach-TopicOf :
      (messages : ℕ → ℕ) {s : System} → Reach n ids sizes size (start messages) s → TopicOf c s
  Reach-TopicOf messages here = start-TopicOf messages
  Reach-TopicOf messages (next r st) =
      Step-TopicOf (Reach-Drive n ids sizes size messages r) (Reach-TopicOf messages r) st
