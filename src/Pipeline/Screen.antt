-- ===== src/Pipeline/Screen.antt =====
-- How `screenManagerFunc` of ex3/main.c comes to its end, and what is printed by then.
use os_course.Prelude.{
  ℕ, zero, suc, ◌+◌, ◌<◌, ◌≤◌, ◌≡◌, ◌∙◌, sym, ap, refl, Bool, true, false, List, [], ◌∷◌, ◌++◌,
  arith, ◌==◌, if◌then◌else◌,
}
use os_course.Prelude.Int.{ℤ}
use mathlib.Core.Path.{subst}
use os_course.Pipeline.{Category, sports, news, weather, Message, finish, story}
use os_course.Pipeline.System.{
  Editor, waiting, carrying, stopped, System, at_topic, after_give, Step, produce, produce_fails,
  produce_end, pass_over, find_nothing, remove, dispatch, round, dispatch_finish, take_up, give,
  print, Reach, here, next, start,
}

abbrev finishes : List Message → ℕ
finishes [] = 0
finishes (finish ∷ q) = suc (finishes q)
finishes (story i c k ∷ q) = finishes q

-- Nothing follows the `k`-th FINISH_MSG.
abbrev pub Quiet : ℕ → List Message → Type 0
Quiet zero q = q ≡ []
Quiet (suc k) [] = Unit {0}
Quiet (suc k) (finish ∷ q) = Quiet k q
Quiet (suc k) (story i c j ∷ q) = Quiet (suc k) q

Quiet-snoc : (k : ℕ) (q : List Message) (m : Message) → finishes q < k → Quiet k (q ++ m ∷ [])
Quiet-snoc zero q m h = absurd (omega arith)
Quiet-snoc (suc zero) [] finish h = refl
Quiet-snoc (suc (suc k)) [] finish h = tt
Quiet-snoc (suc k) [] (story i c j) h = tt
Quiet-snoc (suc k) (finish ∷ q) m h = Quiet-snoc k q m (omega arith)
Quiet-snoc (suc k) (story i c j ∷ q) m h = Quiet-snoc (suc k) q m h

finishes-append : (q r : List Message) → finishes (q ++ r) ≡ finishes q + finishes r
finishes-append [] r = omega arith
finishes-append (finish ∷ q) r = omega (arith, finishes-append q r)
finishes-append (story i c k ∷ q) r = finishes-append q r

abbrev is_stopped : Editor → ℕ
is_stopped stopped = 1
is_stopped _ = 0

abbrev stopped_count : (Category → Editor) → ℕ
stopped_count f = is_stopped (f sports) + is_stopped (f news) + is_stopped (f weather)

is_stopped-le : (e : Editor) → is_stopped e ≤ 1
is_stopped-le waiting = omega arith
is_stopped-le (carrying m) = omega arith
is_stopped-le stopped = omega arith

stopped_count-at :
    (f : Category → Editor) (c : Category) (e : Editor)
    → is_stopped (f c) ≡ 0
    → (stopped_count (at_topic f c e) ≡ stopped_count f + is_stopped e) × (stopped_count f ≤ 2)
stopped_count-at f sports e h = omega (arith, h, is_stopped-le (f news), is_stopped-le (f weather))
stopped_count-at f news e h = omega (arith, h, is_stopped-le (f sports), is_stopped-le (f weather))
stopped_count-at f weather e h = omega (arith, h, is_stopped-le (f sports), is_stopped-le (f news))

stopped_count-le : (f : Category → Editor) → stopped_count f ≤ 3
stopped_count-le f =
    omega (arith, is_stopped-le (f sports), is_stopped-le (f news), is_stopped-le (f weather))

is_stopped-eq : (e : Editor) → is_stopped e ≡ 1 → e ≡ stopped
is_stopped-eq waiting h = absurd (omega arith)
is_stopped-eq (carrying m) h = absurd (omega arith)
is_stopped-eq stopped h = refl

all_stopped : (f : Category → Editor) (c : Category) → stopped_count f ≡ 3 → f c ≡ stopped
all_stopped f sports h =
    is_stopped-eq (f sports) (
      omega (arith, h, is_stopped-le (f sports), is_stopped-le (f news), is_stopped-le (f weather)))
all_stopped f news h =
    is_stopped-eq (f news) (
      omega (arith, h, is_stopped-le (f sports), is_stopped-le (f news), is_stopped-le (f weather)))
all_stopped f weather h =
    is_stopped-eq (f weather) (
      omega (arith, h, is_stopped-le (f sports), is_stopped-le (f news), is_stopped-le (f weather)))

-- The screen's buffer `q`, with `d` FINISH_MSG taken from it and `k` editors stopped.
pub record Screen (d : ℕ) (q : List Message) (b : Bool) (k : ℕ) : Type 0 where
  pub left : ℕ
  pub sum : d + left ≡ 3
  pub total : d + finishes q ≡ k
  pub quiet : Quiet left q
  pub off : b ≡ false → left ≡ 0
  pub on : b ≡ true → 0 < left

module _ (d : ℕ) (q : List Message) (b : Bool) (k : ℕ) (v : Screen d q b k) where
  push-Screen : (m : Message) → k ≤ 2 → Screen d (q ++ m ∷ []) b (k + finishes (m ∷ []))
  push-Screen m h = record {
    left = v.left;
    sum = v.sum;
    total = omega (arith, v.total, finishes-append q (m ∷ []));
    quiet = Quiet-snoc v.left q m (omega (arith, v.sum, v.total, h));
    off = v.off;
    on = v.on;
  }

  shown-Screen :
      (i j : ℕ) (c : Category) (r : List Message) → q ≡ story i c j ∷ r → b ≡ true → Screen d r b k
  shown-Screen i j c r e on = pick_left v.left v.sum (v.on on) v.quiet v.off
    where
      pick_left : (l : ℕ) → d + l ≡ 3 → 0 < l → Quiet l q → (b ≡ false → l ≡ 0) → Screen d r b k
      pick_left zero s h z o = absurd (omega arith)
      pick_left (suc l) s h z o = record {
        left = suc l;
        sum = s;
        total = ap (λ x. d + finishes x) (sym e) ∙ v.total;
        quiet = subst (λ x. Quiet (suc l) x) e z;
        off = o;
        on = λ x. omega arith;
      }

  ended-Screen :
      (r : List Message)
      → q ≡ finish ∷ r
      → b ≡ true
      → Screen (suc d) r (if suc d == 3 then false else true) k
  ended-Screen r e on = pick_left v.left v.sum (v.on on) v.quiet
    where
      pick_left :
          (l : ℕ)
          → d + l ≡ 3
          → 0 < l
          → Quiet l q
          → Screen (suc d) r (if suc d == 3 then false else true) k
      pick_left zero s h z = absurd (omega arith)
      pick_left (suc l) s h z = record {
        left = l;
        sum = omega (arith, s);
        total = omega (arith, v.total, ap (λ x. d + finishes x) e);
        quiet = subst (λ x. Quiet (suc l) x) e z;
        off = λ x. ground (arith, x, s);
        on = λ x. ground (arith, x, s);
      }

abbrev ScreenOf : System → Type 0
ScreenOf s = Screen s.done_count s.screen s.shows (stopped_count s.editors)

finishes-after : (ids : ℕ → ℤ) (m : Message) → is_stopped (after_give ids m) ≡ finishes (m ∷ [])
finishes-after ids finish = refl
finishes-after ids (story i c k) = refl

module _ (n : ℕ) (ids : ℕ → ℤ) (sizes : ℕ → ℕ) (size : ℕ) where
  Step-ScreenOf : {s t : System} → ScreenOf s → Step n ids sizes size s t → ScreenOf t
  Step-ScreenOf v (produce j k d lt r l room) = v
  Step-ScreenOf v (produce_fails j k lt r l) = v
  Step-ScreenOf v (produce_end j lt r l room) = v
  Step-ScreenOf v (pass_over j all did e lt t) = v
  Step-ScreenOf v (find_nothing j all did e lt t q) = v
  Step-ScreenOf v (remove j all did finish q e lt t h) = v
  Step-ScreenOf v (remove j all did (story a d k) q e lt t h) = v
  Step-ScreenOf v (dispatch j d m e room) = v
  Step-ScreenOf v (round all did e) = v
  Step-ScreenOf v (dispatch_finish d e room) = v
  Step-ScreenOf {s = s} v (take_up c m q e h) =
      let (same_count, le) = stopped_count-at s.editors c (carrying m) (ap is_stopped e) in
      subst (λ k. Screen s.done_count s.screen s.shows k) (omega (arith, same_count)) v
  Step-ScreenOf {s = s} v (give c m e room) =
      let (one_more, le) = stopped_count-at s.editors c (after_give ids m) (ap is_stopped e) in
      subst (λ k. Screen s.done_count (s.screen ++ m ∷ []) s.shows k)
        (omega (arith, one_more, finishes-after ids m))
        (push-Screen s.done_count s.screen s.shows (stopped_count s.editors) v m le)
  Step-ScreenOf {s = s} v (print finish q r e) =
      ended-Screen s.done_count s.screen s.shows (stopped_count s.editors) v q e r
  Step-ScreenOf {s = s} v (print (story a d k) q r e) =
      shown-Screen s.done_count s.screen s.shows (stopped_count s.editors) v a k d q e r

  start-ScreenOf : (messages : ℕ → ℕ) → ScreenOf (start messages)
  start-ScreenOf messages = record {
    left = 3;
    sum = refl;
    total = omega arith;
    quiet = tt;
    off = λ h. ground (arith, h);
    on = λ h. omega arith;
  }

  pub Reach-ScreenOf :
      (messages : ℕ → ℕ) {s : System} → Reach n ids sizes size (start messages) s → ScreenOf s
  Reach-ScreenOf messages here = start-ScreenOf messages
  Reach-ScreenOf messages (next r st) = Step-ScreenOf (Reach-ScreenOf messages r) st

-- A screen that has had its three FINISH_MSG has nothing before it, and no editor is left.
pub shut :
    (s : System)
    → ScreenOf s
    → s.shows ≡ false
    → (s.screen ≡ []) × ((c : Category) → s.editors c ≡ stopped)
shut s v h =
    let z : v.left ≡ 0 = v.off h in
    let empty : s.screen ≡ [] = subst (λ k. Quiet k s.screen) z v.quiet in
    (empty, λ c. all_stopped s.editors c (omega (arith, v.sum, v.total, z, ap finishes empty)))
