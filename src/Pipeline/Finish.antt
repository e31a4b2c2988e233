-- ===== src/Pipeline/Finish.antt =====
-- How FINISH_MSG goes from the producers of ex3/main.c to the screen.
use os_course.Prelude.{
  ℕ, suc, ◌<◌, ◌≡◌, ◌∙◌, sym, ap, refl, Bool, true, false, [], ◌∷◌, arith, ◌==◌, Bool-cases, inl,
  inr,
}
use os_course.Prelude.Int.{ℤ}
use mathlib.Core.Path.{subst}
use os_course.Pipeline.{Category, sports, news, weather, Message, finish, story}
use os_course.Pipeline.Text.{route-text}
use os_course.Pipeline.System.{
  Dispatcher, scanning, holding, finishing, returned, System, at, held, next_finish, Step, produce,
  produce_fails, produce_end, pass_over, find_nothing, remove, dispatch, round, dispatch_finish,
  take_up, give, print, Reach, here, next, start,
}
use os_course.Pipeline.Sources.{has_finish}

abbrev pub past_scan : Dispatcher → Bool
past_scan (finishing c) = true
past_scan returned = true
past_scan _ = false

-- The dispatcher, against the flags `isDone` of the `n` producers.
pub record Drive (n : ℕ) (d : Dispatcher) (f : ℕ → Bool) : Type 0 where
  scans : (j : ℕ) (did : Bool) → d ≡ scanning j true did → (i : ℕ) → i < j → f i ≡ true
  pub ends : past_scan d ≡ true → (i : ℕ) → i < n → f i ≡ true
  pub hand : (j : ℕ) (c : Category) (m : Message) → d ≡ holding j c m → has_finish (m ∷ []) ≡ false

-- A dispatcher that has just seen a producer that is not done.
busy-Drive : (n j : ℕ) (did : Bool) (f : ℕ → Bool) → Drive n (scanning j false did) f
busy-Drive n j did f = record {
  scans = λ k b e i lt. ground (arith, e);
  ends = λ e i lt. ground (arith, e);
  hand = λ k c m e. ground (arith, e);
}

first-Drive : (n : ℕ) (f : ℕ → Bool) → Drive n (scanning 0 true false) f
first-Drive n f = record {
  scans = λ k b e i lt. absurd (ground (arith, e));
  ends = λ e i lt. ground (arith, e);
  hand = λ k c m e. ground (arith, e);
}

pass-Drive :
    (n j : ℕ) (all did : Bool) (f : ℕ → Bool)
    → Drive n (scanning j all did) f
    → f j ≡ true
    → Drive n (scanning (suc j) all did) f
pass-Drive n j false did f v h = busy-Drive n (suc j) did f
pass-Drive n j true did f v h = record {
  scans = λ k b e i lt. elim (Bool-cases (i == j)) [
    | inl x ↦ ap f (ground (arith, x)) ∙ h
    | inr x ↦ v.scans j did refl i (ground (arith, x, e, lt))
  ];
  ends = λ e i lt. ground (arith, e);
  hand = λ k c m e. ground (arith, e);
}

ends-Drive :
    (n : ℕ) (c : Category) (f : ℕ → Bool) → ((i : ℕ) → i < n → f i ≡ true) → Drive n (finishing c) f
ends-Drive n c f all = record {
  scans = λ k b e i lt. ground (arith, e);
  ends = λ e i lt. all i lt;
  hand = λ k x m e. ground (arith, e);
}

next-Drive :
    (n : ℕ) (c : Category) (f : ℕ → Bool) → Drive n (finishing c) f → Drive n (next_finish c) f
next-Drive n sports f v = ends-Drive n news f (v.ends refl)
next-Drive n news f v = ends-Drive n weather f (v.ends refl)
next-Drive n weather f v = record {
  scans = λ k b e i lt. ground (arith, e);
  ends = λ e i lt. v.ends refl i lt;
  hand = λ k x m e. ground (arith, e);
}

module _ (n : ℕ) (ids : ℕ → ℤ) (sizes : ℕ → ℕ) (size : ℕ) where
  Step-Drive :
      {s t : System}
      → Drive n s.dispatcher s.is_done
      → Step n ids sizes size s t
      → Drive n t.dispatcher t.is_done
  Step-Drive v (produce j k c lt r l room) = v
  Step-Drive v (produce_fails j k lt r l) = v
  Step-Drive v (produce_end j lt r l room) = v
  Step-Drive {s = s} v (pass_over j all did e lt t) =
      pass-Drive n j all did s.is_done (subst (λ d. Drive n d s.is_done) e v) (ground (arith, t))
  Step-Drive {s = s} v (find_nothing j all did e lt t q) = busy-Drive n (suc j) did s.is_done
  Step-Drive {s = s} v (remove j all did finish q e lt t h) =
      busy-Drive n (suc j) true (at s.is_done j true)
  Step-Drive {s = s} v (remove j all did (story a c k) q e lt t h) =
      subst (λ o. Drive n (held j (story a c k) o) s.is_done) (sym (route-text ids a c k))
        (record {
          scans = λ x b y i z. ground (arith, y);
          ends = λ y i z. ground (arith, y);
          hand = λ x b m y. ground (arith, y);
        })
  Step-Drive {s = s} v (dispatch j c m e room) = busy-Drive n (suc j) true s.is_done
  Step-Drive {s = s} v (round true did e) = ends-Drive n sports s.is_done (v.scans n did e)
  Step-Drive {s = s} v (round false did e) = first-Drive n s.is_done
  Step-Drive {s = s} v (dispatch_finish c e room) =
      next-Drive n c s.is_done (subst (λ d. Drive n d s.is_done) e v)
  Step-Drive v (take_up c m q e h) = v
  Step-Drive v (give c m e room) = v
  Step-Drive v (print finish q r e) = v
  Step-Drive v (print (story a c k) q r e) = v

  pub Reach-Drive :
      (messages : ℕ → ℕ) {s : System}
      → Reach n ids sizes size (start messages) s
      → Drive n s.dispatcher s.is_done
  Reach-Drive messages here = first-Drive n (λ i. false)
  Reach-Drive messages (next r st) = Step-Drive (Reach-Drive messages r) st
