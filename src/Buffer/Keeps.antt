-- ===== src/Buffer/Keeps.antt =====
-- The invariant of ex3/BoundedBuffer.c, step by step.
use os_course.Prelude.{
  ℕ, suc, ◌+◌, ◌-◌, ◌%◌, ◌<◌, ◌≤◌, ◌≡◌, ◌∙◌, sym, ap, refl, true, false, Option, none, some, List,
  [], ◌∷◌, ◌++◌, arith, ◌==◌, length, length-append, length-set, get_or, get_or-set, set, take,
  Bool-cases, inl, inr,
}
use os_course.Prelude.Int.{ℤ}
use native.Mathlib.Nat.{mod-lt}
use os_course.Buffer.{init_buffer, store, front, advance, locked_by}
use os_course.Buffer.System.{
  Pc, idle, reserved, inserting, stored, claimed, removing, taken, System, update, goes, Step,
  insert_wait, insert_lock, insert_store, insert_post, remove_wait, try_fails, remove_lock,
  remove_fetch, remove_post, start, Reach, here, next,
}
use os_course.Buffer.Ring.{
  cells_differ, next_cell, get_or-snoc_old, get_or-snoc_new, take-snoc, take_next,
}
use os_course.Buffer.Count.{
  total, total-update, total_idle, with_item, with_slot, is_inside, total_at,
}

pub record Inv (n size : ℕ) (s : System) : Type 0 where
  pub same : s.bb.size ≡ size
  pub room : length s.bb.buffer ≡ size
  pub at_head : s.bb.head ≡ length s.received % size
  pub at_tail : s.bb.tail ≡ length s.sent % size
  pub items : length s.sent ≡ length s.received + s.bb.read_semaphore + total with_item n s.pc
  pub slots :
      length s.received + size ≡ length s.sent + s.bb.write_semaphore + total with_slot n s.pc
  pub cells :
      (j : ℕ)
      → length s.received ≤ j
      → j < length s.sent
      → get_or s.bb.buffer (j % size) 0 ≡ get_or s.sent j 0
  pub order : s.received ≡ take (length s.received) s.sent
  pub owner : (i : ℕ) → is_inside (s.pc i) ≡ true → s.bb.lock ≡ some i

pub start-Inv :
    (n size : ℕ) (storage : List ℕ) (id : ℤ)
    → length storage ≡ size
    → Inv n size (start storage size id)
unfolding init_buffer
start-Inv n size storage id h = record {
  same = refl;
  room = h;
  at_head = grind arith;
  at_tail = grind arith;
  items = omega (arith, total_idle with_item n refl);
  slots = omega (arith, total_idle with_slot n refl);
  cells = λ j le lt. absurd (omega arith);
  order = refl;
  owner = λ i e. ground arith;
}

-- A move of a thread that leaves the array, the indices and the two histories alone.
pub move-Inv :
    (n size i : ℕ) (s : System) (p : Pc) (l : Option ℕ) (w r : ℕ)
    → i < n
    → Inv n size s
    → with_item (s.pc i) + s.bb.read_semaphore ≡ with_item p + r
    → with_slot (s.pc i) + s.bb.write_semaphore ≡ with_slot p + w
    → ((j : ℕ) → is_inside (update s.pc i p j) ≡ true → l ≡ some j)
    → Inv n size (goes s i p (record s.bb { lock = l; write_semaphore = w; read_semaphore = r }))
move-Inv n size i s p l w r lt v hr hw own = record {
  same = v.same;
  room = v.room;
  at_head = v.at_head;
  at_tail = v.at_tail;
  items = omega (arith, v.items, hr, total-update with_item n i s.pc p lt);
  slots = omega (arith, v.slots, hw, total-update with_slot n i s.pc p lt);
  cells = v.cells;
  order = v.order;
  owner = own;
}

-- The lock after a move that neither enters nor leaves the critical section.
pub outside :
    (s : System) (i : ℕ) (p : Pc)
    → ((j : ℕ) → is_inside (s.pc j) ≡ true → s.bb.lock ≡ some j)
    → is_inside p ≡ false
    → (j : ℕ) → is_inside (update s.pc i p j) ≡ true
    → s.bb.lock ≡ some j
outside s i p own h j e = ground (arith, own j)

pub entering :
    (s : System) (i : ℕ) (p : Pc)
    → ((j : ℕ) → is_inside (s.pc j) ≡ true → s.bb.lock ≡ some j)
    → s.bb.lock ≡ none
    → (j : ℕ) → is_inside (update s.pc i p j) ≡ true
    → some i ≡ some j
entering s i p own h j e = ground (arith, own j)

abbrev pub nobody : Option ℕ
nobody = none

pub leaving :
    (s : System) (i : ℕ) (p : Pc)
    → ((j : ℕ) → is_inside (s.pc j) ≡ true → s.bb.lock ≡ some j)
    → is_inside (s.pc i) ≡ true
    → is_inside p ≡ false
    → (j : ℕ) → is_inside (update s.pc i p j) ≡ true
    → nobody ≡ some j
leaving s i p own h k j e = ground (arith, own j, own i)

pub store-cells :
    (size R msg j : ℕ) (buffer sent : List ℕ)
    → length buffer ≡ size
    → 0 < size
    → length sent < R + size
    → ((k : ℕ) → R ≤ k → k < length sent → get_or buffer (k % size) 0 ≡ get_or sent k 0)
    → R ≤ j
    → j < length sent + 1
    → get_or (set buffer (length sent % size) msg) (j % size) 0 ≡ get_or (sent ++ msg ∷ []) j 0
store-cells size R msg j buffer sent room pos free cells le lt =
    elim (Bool-cases (j == length sent)) [
      | inl e ↦ ground (
        arith,
        get_or-set buffer (length sent % size) msg (length sent % size) 0,
        get_or-snoc_new sent msg,
        mod-lt (length sent) pos,
      )
      | inr e ↦ ground (
        arith,
        get_or-set buffer (length sent % size) msg (j % size) 0,
        get_or-snoc_old sent msg j (ground arith),
        cells_differ size j (length sent) (ground arith) (ground arith),
        cells j le (ground arith),
      )
    ]

pub store-Inv :
    (n size i msg : ℕ) (s : System)
    → i < n
    → 0 < size
    → s.pc i ≡ inserting msg
    → Inv n size s
    → Inv n size
        (record (goes s i stored (locked_by none (store msg s.bb))) { sent = s.sent ++ msg ∷ [] })
unfolding store
store-Inv n size i msg s lt pos e v = record {
  same = v.same;
  room = ground (arith, v.room, length-set s.bb.buffer s.bb.tail msg);
  at_head = v.at_head;
  at_tail =
      ground
        (arith, v.same, v.at_tail, next_cell size (length s.sent), length-append s.sent (msg ∷ []));
  items =
      ground
        (arith, v.items, total-update with_item n i s.pc stored, length-append s.sent (msg ∷ []));
  slots =
      ground
        (arith, v.slots, total-update with_slot n i s.pc stored, length-append s.sent (msg ∷ []));
  cells = λ j le below. ground (
    arith,
    store-cells size (length s.received) msg j s.bb.buffer s.sent v.room pos
        (ground (arith, v.slots, total_at with_slot n i s.pc lt)) v.cells le
        (omega (arith, below, length-append s.sent (msg ∷ []))),
    v.at_tail,
  );
  order = v.order ∙ sym (take-snoc s.sent msg (length s.received) (omega (arith, v.items)));
  owner = leaving s i stored v.owner (rw e) refl;
}

pub fetched :
    (received sent : List ℕ) (msg : ℕ)
    → received ≡ take (length received) sent
    → length received < length sent
    → msg ≡ get_or sent (length received) 0
    → received ++ msg ∷ [] ≡ take (length (received ++ msg ∷ [])) sent
fetched received sent msg h lt e =
    ap (λ u. u ++ msg ∷ []) h
    ∙ ap (λ m. take (length received) sent ++ m ∷ []) e
    ∙ sym (take_next sent (length received) lt)
    ∙ ap (λ k. take k sent) {x = suc (length received)}
        (omega (arith, length-append received (msg ∷ [])))

-- A thread that removes has an unfetched message before it.
pub fresh :
    {n size i : ℕ} {s : System}
    → i < n
    → s.pc i ≡ removing
    → Inv n size s
    → length s.received < length s.sent
fresh {n} {size} {i} {s} lt e v = ground (arith, v.items, total_at with_item n i s.pc lt)

pub fetch-Inv :
    (n size i : ℕ) (s : System)
    → i < n
    → 0 < size
    → s.pc i ≡ removing
    → Inv n size s
    → Inv n size (record (goes s i (taken (front s.bb)) (locked_by none (advance s.bb))) {
      received = s.received ++ front s.bb ∷ [];
    })
unfolding advance
fetch-Inv n size i s lt pos e v = record {
  same = v.same;
  room = v.room;
  at_head = ground (
    arith,
    v.same,
    v.at_head,
    next_cell size (length s.received),
    length-append s.received (front s.bb ∷ []),
  );
  at_tail = v.at_tail;
  items = ground (
    arith,
    v.items,
    total-update with_item n i s.pc (taken (front s.bb)),
    length-append s.received (front s.bb ∷ []),
  );
  slots = ground (
    arith,
    v.slots,
    total-update with_slot n i s.pc (taken (front s.bb)),
    length-append s.received (front s.bb ∷ []),
  );
  cells =
      λ j le below. v.cells j (omega (arith, le, length-append s.received (front s.bb ∷ []))) below;
  order =
      fetched s.received s.sent (front s.bb) v.order (fresh lt e v)
        (ground (arith, v.at_head, v.cells (length s.received) (omega arith) (fresh lt e v)));
  owner = leaving s i (taken (front s.bb)) v.owner (rw e) refl;
}

pub Step-Inv : (n size : ℕ) {s t : System} → 0 < size → Inv n size s → Step n s t → Inv n size t
Step-Inv n size {s = s} pos v (insert_wait i msg lt e free) =
    move-Inv n size i s (reserved msg) s.bb.lock (s.bb.write_semaphore - 1) s.bb.read_semaphore lt v
      (ground (arith, e)) (ground (arith, e)) (outside s i (reserved msg) v.owner refl)
Step-Inv n size {s = s} pos v (insert_lock i msg lt e free) =
    move-Inv n size i s (inserting msg) (some i) s.bb.write_semaphore s.bb.read_semaphore lt v
      (ground (arith, e)) (ground (arith, e)) (entering s i (inserting msg) v.owner free)
Step-Inv n size {s = s} pos v (insert_store i msg lt e) = store-Inv n size i msg s lt pos e v
Step-Inv n size {s = s} pos v (insert_post i lt e) =
    move-Inv n size i s idle s.bb.lock s.bb.write_semaphore (suc s.bb.read_semaphore) lt v
      (ground (arith, e)) (ground (arith, e)) (outside s i idle v.owner refl)
Step-Inv n size {s = s} pos v (remove_wait i lt e full) =
    move-Inv n size i s claimed s.bb.lock s.bb.write_semaphore (s.bb.read_semaphore - 1) lt v
      (ground (arith, e)) (ground (arith, e)) (outside s i claimed v.owner refl)
Step-Inv n size pos v (try_fails i lt e empty) = v
Step-Inv n size {s = s} pos v (remove_lock i lt e free) =
    move-Inv n size i s removing (some i) s.bb.write_semaphore s.bb.read_semaphore lt v
      (ground (arith, e)) (ground (arith, e)) (entering s i removing v.owner free)
Step-Inv n size {s = s} pos v (remove_fetch i lt e) = fetch-Inv n size i s lt pos e v
Step-Inv n size {s = s} pos v (remove_post i msg lt e) =
    move-Inv n size i s idle s.bb.lock (suc s.bb.write_semaphore) s.bb.read_semaphore lt v
      (ground (arith, e)) (ground (arith, e)) (outside s i idle v.owner refl)

pub Reach-Inv :
    (n size : ℕ) (storage : List ℕ) (id : ℤ) {s : System}
    → 0 < size
    → length storage ≡ size
    → Reach n (start storage size id) s
    → Inv n size s
Reach-Inv n size storage id pos room here = start-Inv n size storage id room
Reach-Inv n size storage id pos room (next r st) =
    Step-Inv n size pos (Reach-Inv n size storage id pos room r) st
