-- ===== src/Buffer/Tests.antt =====
-- Two threads and a buffer of one cell from ex3/BoundedBuffer.c.
use os_course.Prelude.{
  ℕ, ◌+◌, ◌<◌, ◌≤◌, ◌≡◌, refl, true, none, some, [], ◌∷◌, ◌++◌, arith, length, take,
}
use os_course.Prelude.Int.{pos}
use os_course.Buffer.{
  init_buffer, store, front, advance, take_slot, take_item, give_item, locked_by, is_buffer_empty,
}
use os_course.Buffer.System.{
  idle, reserved, inserting, stored, claimed, removing, taken, System, goes, insert_wait,
  insert_lock, insert_store, insert_post, remove_wait, remove_lock, remove_fetch, start, Reach,
  here, next,
}
use os_course.Buffer.Fifo.{first_in_first_out, is_buffer_empty_lem}

abbrev at_start : System
at_start = start (0 ∷ []) 1 (pos 3)

abbrev waited : System
waited = goes at_start 0 (reserved 7) (take_slot at_start.bb)

abbrev locked : System
locked = goes waited 0 (inserting 7) (locked_by (some 0) waited.bb)

abbrev written : System
written = record (goes locked 0 stored (locked_by none (store 7 locked.bb))) {
  sent = locked.sent ++ 7 ∷ [];
}

abbrev posted : System
posted = goes written 0 idle (give_item written.bb)

abbrev claiming : System
claiming = goes posted 1 claimed (take_item posted.bb)

abbrev fetching : System
fetching = goes claiming 1 removing (locked_by (some 1) claiming.bb)

abbrev fetched : System
fetched =
    record (goes fetching 1 (taken (front fetching.bb)) (locked_by none (advance fetching.bb))) {
      received = fetching.received ++ front fetching.bb ∷ [];
    }

Reach-locked : Reach 2 at_start locked
unfolding init_buffer
Reach-locked =
    next (next here (insert_wait 0 7 (omega arith) refl (omega arith)))
      (insert_lock 0 7 (omega arith) refl refl)

Reach-posted : Reach 2 at_start posted
Reach-posted =
    next (next Reach-locked (insert_store 0 7 (omega arith) refl))
      (insert_post 0 (omega arith) refl)

Reach-fetched : Reach 2 at_start fetched
unfolding init_buffer store
Reach-fetched =
    next
      (next (next Reach-posted (remove_wait 1 (omega arith) refl (omega arith)))
        (remove_lock 1 (omega arith) refl refl))
      (remove_fetch 1 (omega arith) refl)

first_in_first_out_example :
    (fetched.received ≡ take (length fetched.received) fetched.sent)
    × (length fetched.received ≤ length fetched.sent)
    × (length fetched.sent ≤ length fetched.received + 1)
first_in_first_out_example =
    first_in_first_out 2 1 (0 ∷ []) (pos 3) (omega arith) refl Reach-fetched

fetched-received : fetched.received ≡ 7 ∷ []
unfolding store init_buffer
fetched-received = refl

posted_idle : (i : ℕ) → i < 2 → posted.pc i ≡ idle
posted_idle i h = ground arith

is_buffer_empty_example : is_buffer_empty posted.bb ≡ true
is_buffer_empty_example = is_buffer_empty_lem 2 1 (0 ∷ []) (pos 3) (omega arith) refl Reach-posted
