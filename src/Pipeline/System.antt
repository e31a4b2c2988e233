-- ===== src/Pipeline/System.antt =====
-- The threads of ex3/main.c, interleaved in any order. A buffer is the queue that insertions and
-- removals of ex3/BoundedBuffer.c make of it, and a step is the code up to a thread's next insertion or
-- removal; `rand`, memory and time are free.
use os_course.Prelude.{
  ℕ, suc, ◌<◌, ◌≡◌, Bool, true, false, Option, none, some, List, [], ◌∷◌, ◌++◌, ◌==◌, ◌&&◌, ◌||◌,
  if◌then◌else◌, length,
}
use os_course.Prelude.Int.{ℤ}
use os_course.Pipeline.{
  Category, sports, news, weather, same, Message, finish, story, text, is_finish, route,
}

-- A thread in `producer`: its counters, the rounds that are left, and whether it still runs.
pub record Producer : Type 0 where
  pub sport : ℕ
  pub headlines : ℕ
  pub forecast : ℕ
  pub left : ℕ
  pub runs : Bool

abbrev pub count : Category → Producer → ℕ
count sports p = p.sport
count news p = p.headlines
count weather p = p.forecast

abbrev pub bump : Category → Producer → Producer
bump sports p = record p { sport = suc p.sport }
bump news p = record p { headlines = suc p.headlines }
bump weather p = record p { forecast = suc p.forecast }

-- The thread in `dispatcherFunc`: at producer `i` of a round with `allProducersDone` and
-- `didSomething`; with a message of producer `i` for a category; at one of the last three insertions;
-- or at its end.
pub data Dispatcher : Type 0 where
  scanning : ℕ → Bool → Bool → Dispatcher
  holding : ℕ → Category → Message → Dispatcher
  finishing : Category → Dispatcher
  returned : Dispatcher

-- A thread in `coEditor`.
pub data Editor : Type 0 where
  waiting : Editor
  carrying : Message → Editor
  stopped : Editor

-- `printed` is what `screenManagerFunc` has printed, `done_count` its `doneCount`, and `shows` whether
-- it is in its loop.
pub record System : Type 0 where
  pub producers : ℕ → Producer
  pub sources : ℕ → List Message
  pub is_done : ℕ → Bool
  pub dispatcher : Dispatcher
  pub topics : Category → List Message
  pub editors : Category → Editor
  pub screen : List Message
  pub printed : List Message
  pub done_count : ℕ
  pub shows : Bool

abbrev pub at {ℓ} : {A : Type ℓ} → (ℕ → A) → ℕ → A → ℕ → A
at f i x j = if i == j then x else f j

abbrev pub at_topic {ℓ} : {A : Type ℓ} → (Category → A) → Category → A → Category → A
at_topic f c x d = if same c d then x else f d

-- `isBufferEmpty` on the queue: it compares indices, which meet when the buffer is full, too.
abbrev seems_empty : ℕ → List Message → Bool
seems_empty size q = length q == 0 || length q == size

-- The dispatcher with the message that it removed from the buffer of producer `i`.
abbrev pub held : ℕ → Message → Option Category → Dispatcher
held i m none = scanning (suc i) false true
held i m (some c) = holding i c m

abbrev pub handle : (ℕ → ℤ) → ℕ → Message → System → System
handle ids i m s =
    if is_finish (text ids m)
    then record s { is_done = at s.is_done i true; dispatcher = scanning (suc i) false true }
    else record s { dispatcher = held i m (route (text ids m)) }

-- After the last producer of a round.
abbrev pub end_of_round : Bool → Dispatcher
end_of_round true = finishing sports
end_of_round false = scanning 0 true false

abbrev pub next_finish : Category → Dispatcher
next_finish sports = finishing news
next_finish news = finishing weather
next_finish weather = returned

abbrev pub after_give : (ℕ → ℤ) → Message → Editor
after_give ids m = if is_finish (text ids m) then stopped else waiting

abbrev pub receive : (ℕ → ℤ) → Message → System → System
receive ids m s =
    if is_finish (text ids m)
    then record s {
      done_count = suc s.done_count;
      shows = if suc s.done_count == 3 then false else true;
    }
    else record s { printed = s.printed ++ m ∷ [] }

-- `n` producers with their ids and sizes of buffers, and the size of the other four.
module _ (n : ℕ) (ids : ℕ → ℤ) (sizes : ℕ → ℕ) (size : ℕ) where
  pub data Step (s : System) : System → Type 0 where
    produce :
        (i k : ℕ) (c : Category)
        → i < n
        → (s.producers i).runs ≡ true
        → (s.producers i).left ≡ suc k
        → length (s.sources i) < sizes i
        → Step s (record s {
          producers = at s.producers i (record (bump c (s.producers i)) { left = k });
          sources = at s.sources i (s.sources i ++ story i c (count c (s.producers i)) ∷ []);
        })
    -- `malloc` fails, and the thread exits without its FINISH_MSG
    produce_fails :
        (i k : ℕ)
        → i < n
        → (s.producers i).runs ≡ true
        → (s.producers i).left ≡ suc k
        → Step s
            (record s { producers = at s.producers i (record (s.producers i) { runs = false }) })
    produce_end :
        (i : ℕ)
        → i < n
        → (s.producers i).runs ≡ true
        → (s.producers i).left ≡ 0
        → length (s.sources i) < sizes i
        → Step s (record s {
          producers = at s.producers i (record (s.producers i) { runs = false });
          sources = at s.sources i (s.sources i ++ finish ∷ []);
        })
    pass_over :
        (i : ℕ) (all did : Bool)
        → s.dispatcher ≡ scanning i all did
        → i < n
        → s.is_done i && seems_empty (sizes i) (s.sources i) ≡ true
        → Step s (record s { dispatcher = scanning (suc i) all did })
    find_nothing :
        (i : ℕ) (all did : Bool)
        → s.dispatcher ≡ scanning i all did
        → i < n
        → s.is_done i && seems_empty (sizes i) (s.sources i) ≡ false
        → s.sources i ≡ []
        → Step s (record s { dispatcher = scanning (suc i) false did })
    remove :
        (i : ℕ) (all did : Bool) (m : Message) (q : List Message)
        → s.dispatcher ≡ scanning i all did
        → i < n
        → s.is_done i && seems_empty (sizes i) (s.sources i) ≡ false
        → s.sources i ≡ m ∷ q
        → Step s (handle ids i m (record s { sources = at s.sources i q }))
    dispatch :
        (i : ℕ) (c : Category) (m : Message)
        → s.dispatcher ≡ holding i c m
        → length (s.topics c) < size
        → Step s (record s {
          topics = at_topic s.topics c (s.topics c ++ m ∷ []);
          dispatcher = scanning (suc i) false true;
        })
    round :
        (all did : Bool)
        → s.dispatcher ≡ scanning n all did
        → Step s (record s { dispatcher = end_of_round all })
    dispatch_finish :
        (c : Category)
        → s.dispatcher ≡ finishing c
        → length (s.topics c) < size
        → Step s (record s {
          topics = at_topic s.topics c (s.topics c ++ finish ∷ []);
          dispatcher = next_finish c;
        })
    take_up :
        (c : Category) (m : Message) (q : List Message)
        → s.editors c ≡ waiting
        → s.topics c ≡ m ∷ q
        → Step s (record s {
          topics = at_topic s.topics c q;
          editors = at_topic s.editors c (carrying m);
        })
    give :
        (c : Category) (m : Message)
        → s.editors c ≡ carrying m
        → length s.screen < size
        → Step s (record s {
          screen = s.screen ++ m ∷ [];
          editors = at_topic s.editors c (after_give ids m);
        })
    print :
        (m : Message) (q : List Message)
        → s.shows ≡ true
        → s.screen ≡ m ∷ q
        → Step s (receive ids m (record s { screen = q }))

  pub data Reach (s : System) : System → Type 0 where
    here : Reach s s
    next : {t u : System} → Reach s t → Step t u → Reach s u

-- `main` once it has created the threads; `messages i` is the count for producer `i`.
abbrev pub start : (ℕ → ℕ) → System
start messages = record {
  producers =
      λ i. record { sport = 0; headlines = 0; forecast = 0; left = messages i; runs = true };
  sources = λ i. [];
  is_done = λ i. false;
  dispatcher = scanning 0 true false;
  topics = λ c. [];
  editors = λ c. waiting;
  screen = [];
  printed = [];
  done_count = 0;
  shows = true;
}
