-- ===== src/Buffer/System.antt =====
-- Threads that call ex3/BoundedBuffer.c on one buffer, interleaved in any order. Every constructor
-- is one call of a semaphore or the mutex with the code up to the next.
use os_course.Prelude.{ℕ, ◌<◌, ◌≡◌, none, some, List, [], ◌∷◌, ◌++◌, ◌==◌, if◌then◌else◌}
use os_course.Buffer.{
  BoundedBuffer, init_buffer, store, front, advance, take_slot, give_slot, take_item, give_item,
  locked_by,
}
use os_course.Prelude.Int.{ℤ}

-- Where a thread stands in `insertToBuffer` or in one of the two removals.
pub data Pc : Type 0 where
  idle : Pc
  reserved : ℕ → Pc  -- past `sem_wait(&writeSemaphore)` with its message
  inserting : ℕ → Pc  -- holds the mutex
  stored : Pc  -- before `sem_post(&readSemaphore)`
  claimed : Pc  -- past the wait on `readSemaphore`
  removing : Pc  -- holds the mutex
  taken : ℕ → Pc  -- before `sem_post(&writeSemaphore)`, with its message

-- `sent` and `received` record the messages in the order of the critical sections.
pub record System : Type 0 where
  pub bb : BoundedBuffer
  pub pc : ℕ → Pc
  pub sent : List ℕ
  pub received : List ℕ

abbrev pub update : (ℕ → Pc) → ℕ → Pc → ℕ → Pc
update f i p j = if i == j then p else f j

abbrev pub goes : System → ℕ → Pc → BoundedBuffer → System
goes s i p bb' = record s { bb = bb'; pc = update s.pc i p }

pub data Step (n : ℕ) (s : System) : System → Type 0 where
  insert_wait :
      (i msg : ℕ)
      → i < n
      → s.pc i ≡ idle
      → 0 < s.bb.write_semaphore
      → Step n s (goes s i (reserved msg) (take_slot s.bb))
  insert_lock :
      (i msg : ℕ)
      → i < n
      → s.pc i ≡ reserved msg
      → s.bb.lock ≡ none
      → Step n s (goes s i (inserting msg) (locked_by (some i) s.bb))
  insert_store :
      (i msg : ℕ)
      → i < n
      → s.pc i ≡ inserting msg
      → Step n s
          (record (goes s i stored (locked_by none (store msg s.bb))) { sent = s.sent ++ msg ∷ [] })
  insert_post : (i : ℕ) → i < n → s.pc i ≡ stored → Step n s (goes s i idle (give_item s.bb))
  remove_wait :
      (i : ℕ)
      → i < n
      → s.pc i ≡ idle
      → 0 < s.bb.read_semaphore
      → Step n s (goes s i claimed (take_item s.bb))
  -- `tryRemoveFromBuffer` that returns NULL
  try_fails : (i : ℕ) → i < n → s.pc i ≡ idle → s.bb.read_semaphore ≡ 0 → Step n s s
  remove_lock :
      (i : ℕ)
      → i < n
      → s.pc i ≡ claimed
      → s.bb.lock ≡ none
      → Step n s (goes s i removing (locked_by (some i) s.bb))
  remove_fetch :
      (i : ℕ)
      → i < n
      → s.pc i ≡ removing
      → Step n s (record (goes s i (taken (front s.bb)) (locked_by none (advance s.bb))) {
        received = s.received ++ front s.bb ∷ [];
      })
  remove_post : (i msg : ℕ) → i < n → s.pc i ≡ taken msg → Step n s (goes s i idle (give_slot s.bb))

-- the start: no thread is inside a call
abbrev pub start : List ℕ → ℕ → ℤ → System
start storage size id = record {
  bb = init_buffer storage size id;
  pc = λ i. idle;
  sent = [];
  received = [];
}

pub data Reach (n : ℕ) (s : System) : System → Type 0 where
  here : Reach n s s
  next : {t u : System} → Reach n s t → Step n t u → Reach n s u
