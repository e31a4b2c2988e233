-- ===== src/Pipeline/Sources.antt =====
-- How the buffer of a producer of ex3/main.c comes to its end.
use os_course.Prelude.{
  ℕ, suc, ◌+◌, ◌≡◌, ◌∙◌, sym, ap, refl, Bool, true, false, List, [], ◌∷◌, ◌++◌, arith, ◌==◌, ◌||◌,
  if◌then◌else◌, Bool-cases, inl, inr,
}
use os_course.Prelude.Int.{ℤ}
use mathlib.Core.Path.{subst}
use os_course.Pipeline.{Category, sports, news, weather, Message, finish, story}
use os_course.Pipeline.System.{
  Producer, bump, count, System, Step, produce, produce_fails, produce_end, pass_over, find_nothing,
  remove, dispatch, round, dispatch_finish, take_up, give, print, Reach, here, next, start,
}

abbrev pub has_finish : List Message → Bool
has_finish [] = false
has_finish (finish ∷ q) = true
has_finish (story i c k ∷ q) = has_finish q

-- Nothing follows a FINISH_MSG.
abbrev pub Tidy : List Message → Type 0
Tidy [] = Unit {0}
Tidy (finish ∷ q) = q ≡ []
Tidy (story i c k ∷ q) = Tidy q

pub Tidy-snoc : (q : List Message) (m : Message) → has_finish q ≡ false → Tidy (q ++ m ∷ [])
Tidy-snoc [] finish h = refl
Tidy-snoc [] (story i c k) h = tt
Tidy-snoc (finish ∷ q) m h = ground (arith, h)
Tidy-snoc (story i c k ∷ q) m h = Tidy-snoc q m h

pub has_finish-append : (q r : List Message) → has_finish (q ++ r) ≡ has_finish q || has_finish r
has_finish-append [] r = refl
has_finish-append (finish ∷ q) r = refl
has_finish-append (story i c k ∷ q) r = has_finish-append q r

-- A producer with `m` messages to make, its buffer, and its `isDone`.
pub record Source (m : ℕ) (p : Producer) (q : List Message) (d : Bool) : Type 0 where
  pub tidy : Tidy q
  pub sent : has_finish q ≡ true → (p.runs ≡ false) × (p.left ≡ 0)
  pub done : d ≡ true → (q ≡ []) × (p.runs ≡ false) × (p.left ≡ 0)
  pub total : p.sport + p.headlines + p.forecast + p.left ≡ m

module _ (m : ℕ) (p : Producer) (q : List Message) (d : Bool) (v : Source m p q d) where
  no_finish : p.runs ≡ true → has_finish q ≡ false
  no_finish r = elim (Bool-cases (has_finish q)) [ inl e ↦ ground (arith, r, v.sent e) | inr e ↦ e ]

  not_done : p.runs ≡ true → d ≡ false
  not_done r = elim (Bool-cases d) [ inl e ↦ ground (arith, r, v.done e) | inr e ↦ e ]

  total-bump :
      (c : Category) (k : ℕ)
      → p.left ≡ suc k
      → (bump c p).sport + (bump c p).headlines + (bump c p).forecast + k ≡ m
  total-bump sports k l = omega (arith, v.total, l)
  total-bump news k l = omega (arith, v.total, l)
  total-bump weather k l = omega (arith, v.total, l)

  produce-Source :
      (i k n : ℕ) (c : Category)
      → p.runs ≡ true
      → p.left ≡ suc k
      → Source m (record (bump c p) { left = k }) (q ++ story i c n ∷ []) d
  produce-Source i k n c r l = record {
    tidy = Tidy-snoc q (story i c n) (no_finish r);
    sent = λ h. ground (arith, h, no_finish r, has_finish-append q (story i c n ∷ []));
    done = λ h. ground (arith, h, not_done r);
    total = total-bump c k l;
  }

  fails-Source : p.runs ≡ true → Source m (record p { runs = false }) q d
  fails-Source r = record {
    tidy = v.tidy;
    sent = λ h. ground (arith, h, no_finish r);
    done = λ h. ground (arith, h, not_done r);
    total = v.total;
  }

  end-Source :
      p.runs ≡ true → p.left ≡ 0 → Source m (record p { runs = false }) (q ++ finish ∷ []) d
  end-Source r l = record {
    tidy = Tidy-snoc q finish (no_finish r);
    sent = λ h. (refl, l);
    done = λ h. ground (arith, h, not_done r);
    total = v.total;
  }

  finish-Source : (q' : List Message) → q ≡ finish ∷ q' → Source m p q' true
  finish-Source q' e =
      let nil : q' ≡ [] = subst (λ t. Tidy t) e v.tidy in
      let ended : (p.runs ≡ false) × (p.left ≡ 0) = v.sent (ap has_finish e) in
      record {
        tidy = subst (λ t. Tidy t) (sym nil) tt;
        sent = λ h. ended;
        done = λ h. (nil, ended.0, ended.1);
        total = v.total;
      }

  story-Source :
      (i k : ℕ) (c : Category) (q' : List Message) → q ≡ story i c k ∷ q' → Source m p q' d
  story-Source i k c q' e = record {
    tidy = subst (λ t. Tidy t) e v.tidy;
    sent = λ h. v.sent (ap has_finish e ∙ h);
    done = λ h. ground (arith, h, e, v.done h);
    total = v.total;
  }

abbrev SourceOf : (ℕ → ℕ) → ℕ → System → Type 0
SourceOf messages i s = Source (messages i) (s.producers i) (s.sources i) (s.is_done i)

-- A change at `j`, seen at `i`.
at-cases : (P : Bool → Type 0) (j i : ℕ) → ((j ≡ i) → P true) → P false → P (j == i)
at-cases P j i new old = elim (Bool-cases (j == i)) [
  | inl e ↦ subst P (sym e) (new (ground (arith, e)))
  | inr e ↦ subst P (sym e) old
]

module _ (n : ℕ) (ids : ℕ → ℤ) (sizes : ℕ → ℕ) (size : ℕ) (messages : ℕ → ℕ) (i : ℕ) where
  Step-SourceOf :
      {s t : System} → SourceOf messages i s → Step n ids sizes size s t → SourceOf messages i t
  Step-SourceOf {s = s} v (produce j k c lt r l room) =
      at-cases
        (λ b.
          Source (messages i)
            (if b then record (bump c (s.producers j)) { left = k } else s.producers i)
            (if b then s.sources j ++ story j c (count c (s.producers j)) ∷ [] else s.sources i)
            (s.is_done i))
        j i
        (λ e.
          produce-Source (messages i) (s.producers j) (s.sources j) (s.is_done i)
            (subst (λ x. Source (messages i) (s.producers x) (s.sources x) (s.is_done i)) (sym e) v)
            j k (count c (s.producers j)) c r l)
        v
  Step-SourceOf {s = s} v (produce_fails j k lt r l) =
      at-cases
        (λ b.
          Source (messages i) (if b then record (s.producers j) { runs = false } else s.producers i)
            (s.sources i) (s.is_done i))
        j i
        (λ e.
          fails-Source (messages i) (s.producers j) (s.sources i) (s.is_done i)
            (subst (λ x. Source (messages i) (s.producers x) (s.sources i) (s.is_done i)) (sym e) v)
            r)
        v
  Step-SourceOf {s = s} v (produce_end j lt r l room) =
      at-cases
        (λ b.
          Source (messages i) (if b then record (s.producers j) { runs = false } else s.producers i)
            (if b then s.sources j ++ finish ∷ [] else s.sources i) (s.is_done i))
        j i
        (λ e.
          end-Source (messages i) (s.producers j) (s.sources j) (s.is_done i)
            (subst (λ x. Source (messages i) (s.producers x) (s.sources x) (s.is_done i)) (sym e) v)
            r l)
        v
  Step-SourceOf v (pass_over j all did e lt t) = v
  Step-SourceOf v (find_nothing j all did e lt t q) = v
  Step-SourceOf {s = s} v (remove j all did finish q e lt t h) =
      at-cases
        (λ b.
          Source (messages i) (s.producers i) (if b then q else s.sources i)
            (if b then true else s.is_done i))
        j i
        (λ x.
          finish-Source (messages i) (s.producers i) (s.sources i) (s.is_done i) v q
            (ap s.sources (sym x) ∙ h))
        v
  Step-SourceOf {s = s} v (remove j all did (story a c k) q e lt t h) =
      at-cases
        (λ b. Source (messages i) (s.producers i) (if b then q else s.sources i) (s.is_done i)) j i
        (λ x.
          story-Source (messages i) (s.producers i) (s.sources i) (s.is_done i) v a k c q
            (ap s.sources (sym x) ∙ h))
        v
  Step-SourceOf v (dispatch j c m e room) = v
  Step-SourceOf v (round all did e) = v
  Step-SourceOf v (dispatch_finish c e room) = v
  Step-SourceOf v (take_up c m q e h) = v
  Step-SourceOf v (give c m e room) = v
  Step-SourceOf v (print finish q r e) = v
  Step-SourceOf v (print (story a c k) q r e) = v

  start-SourceOf : SourceOf messages i (start messages)
  start-SourceOf = record {
    tidy = tt;
    sent = λ h. ground (arith, h);
    done = λ h. ground (arith, h);
    total = omega arith;
  }

  pub Reach-SourceOf :
      {s : System} → Reach n ids sizes size (start messages) s → SourceOf messages i s
  Reach-SourceOf here = start-SourceOf
  Reach-SourceOf (next r st) = Step-SourceOf (Reach-SourceOf r) st
