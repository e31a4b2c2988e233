-- ===== src/Buffer/Fifo.antt =====
-- What any interleaving of the callers of ex3/BoundedBuffer.c keeps.
use os_course.Prelude.{
  ℕ, ◌+◌, ◌%◌, ◌<◌, ◌≤◌, ◌≡◌, ◌∙◌, ap, refl, true, some, List, arith, ◌==◌, length, ◌||◌, take,
}
use os_course.Prelude.Int.{ℤ}
use os_course.Buffer.{is_buffer_empty}
use os_course.Buffer.System.{idle, System, start, Reach}
use os_course.Buffer.Ring.{indices_meet}
use os_course.Buffer.Count.{total_quiet, with_item, with_slot, is_inside}
use os_course.Buffer.Keeps.{Reach-Inv}

-- Whatever the `n` threads that call the buffer do, in any interleaving from its creation with
-- `size` > 0 cells: the messages fetched so far are, in their order, the first of the messages
-- stored, so none is lost, repeated, overtaken or made up; and never more than `size` of the stored
-- ones are still to be fetched.
pub first_in_first_out :
    (n size : ℕ) (storage : List ℕ) (id : ℤ) {s : System}
    → 0 < size
    → length storage ≡ size
    → Reach n (start storage size id) s
    → (s.received ≡ take (length s.received) s.sent)
      × (length s.received ≤ length s.sent)
      × (length s.sent ≤ length s.received + size)
first_in_first_out n size storage id pos room r =
    let v = Reach-Inv n size storage id pos room r in
    (v.order, omega (arith, v.items), omega (arith, v.slots))

-- In such a run two threads are never both between the lock and the unlock of the buffer's mutex,
-- and a thread that is there holds the mutex.
pub critical_sections_exclude :
    (n size : ℕ) (storage : List ℕ) (id : ℤ) {s : System} (i j : ℕ)
    → 0 < size
    → length storage ≡ size
    → Reach n (start storage size id) s
    → is_inside (s.pc i) ≡ true
    → is_inside (s.pc j) ≡ true
    → (i ≡ j) × (s.bb.lock ≡ some i)
critical_sections_exclude n size storage id {s} i j pos room r a b =
    let v = Reach-Inv n size storage id pos room r in
    (ground (arith, v.owner i a, v.owner j b), v.owner i a)

-- When every thread of such a run is outside the buffer's functions, the two semaphores count it:
-- `readSemaphore` the messages stored and not fetched, `writeSemaphore` the free cells.
pub semaphores_count :
    (n size : ℕ) (storage : List ℕ) (id : ℤ) {s : System}
    → 0 < size
    → length storage ≡ size
    → Reach n (start storage size id) s
    → ((i : ℕ) → i < n → s.pc i ≡ idle)
    → (length s.sent ≡ length s.received + s.bb.read_semaphore)
      × (s.bb.read_semaphore + s.bb.write_semaphore ≡ size)
semaphores_count n size storage id {s} pos room r quiet =
    let v = Reach-Inv n size storage id pos room r in
    let z = total_quiet with_item n s.pc refl quiet in
    let z' = total_quiet with_slot n s.pc refl quiet in
    (omega (arith, v.items, z), omega (arith, v.items, v.slots, z, z'))

-- In such a run `isBufferEmpty` says yes exactly when no stored message is left to fetch, or when
-- `size` of them are: a full buffer too is reported empty.
pub is_buffer_empty_lem :
    (n size : ℕ) (storage : List ℕ) (id : ℤ) {s : System}
    → 0 < size
    → length storage ≡ size
    → Reach n (start storage size id) s
    → is_buffer_empty s.bb
      ≡ (length s.sent == length s.received) || (length s.sent == length s.received + size)
unfolding is_buffer_empty
is_buffer_empty_lem n size storage id {s} pos room r =
    let v = Reach-Inv n size storage id pos room r in
    ap (λ h. h == s.bb.tail) v.at_head
    ∙ ap (λ t. (length s.received % size) == t) v.at_tail
    ∙ indices_meet size (length s.received) (length s.sent) pos (omega (arith, v.items))
        (omega (arith, v.slots))
