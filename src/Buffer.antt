-- ===== src/Buffer.antt =====
-- The bounded buffer of ex3/BoundedBuffer.c: its record, and the stretches of each function between
-- its calls of the semaphores and the mutex. A message is a pointer, and NULL is 0.
pub mod System
pub mod Ring
pub mod Count
pub mod Keeps
pub mod Fifo
mod Tests
use os_course.Prelude.{
  ℕ, zero, suc, ◌+◌, ◌-◌, ◌%◌, ◌≡◌, Bool, true, false, Option, none, some, List, [], ◌∷◌, get_or,
  set, ◌==◌,
}
use os_course.Prelude.Int.{ℤ}

-- `struct BoundedBuffer`; the mutex is the thread that holds it, a semaphore its value.
pub record BoundedBuffer : Type 0 where
  pub buffer : List ℕ
  pub size : ℕ
  pub head : ℕ
  pub tail : ℕ
  pub id : ℤ
  pub is_done : Bool
  pub lock : Option ℕ
  pub write_semaphore : ℕ
  pub read_semaphore : ℕ

-- `initBuffer`; `storage` is what the allocated array happens to hold.
unfoldable pub init_buffer : List ℕ → ℕ → ℤ → BoundedBuffer
init_buffer storage buffer_size buffer_id = record {
  buffer = storage;
  size = buffer_size;
  head = 0;
  tail = 0;
  id = buffer_id;
  is_done = false;
  lock = none;
  write_semaphore = buffer_size;
  read_semaphore = 0;
}

-- The critical section of `insertToBuffer`.
unfoldable pub store : ℕ → BoundedBuffer → BoundedBuffer
store msg bb = record bb { buffer = set bb.buffer bb.tail msg; tail = (bb.tail + 1) % bb.size }

-- The critical section of `removeFromBuffer` and `tryRemoveFromBuffer`: the message, and the buffer.
abbrev pub front : BoundedBuffer → ℕ
front bb = get_or bb.buffer bb.head 0

unfoldable pub advance : BoundedBuffer → BoundedBuffer
advance bb = record bb { head = (bb.head + 1) % bb.size }

-- `isBufferEmpty`, under the mutex.
unfoldable pub is_buffer_empty : BoundedBuffer → Bool
is_buffer_empty bb = bb.head == bb.tail

-- `sem_wait` and `sem_post` on the two semaphores, and the mutex, as they change the record.
abbrev pub take_slot : BoundedBuffer → BoundedBuffer
take_slot bb = record bb { write_semaphore = bb.write_semaphore - 1 }

abbrev pub give_slot : BoundedBuffer → BoundedBuffer
give_slot bb = record bb { write_semaphore = suc bb.write_semaphore }

abbrev pub take_item : BoundedBuffer → BoundedBuffer
take_item bb = record bb { read_semaphore = bb.read_semaphore - 1 }

abbrev pub give_item : BoundedBuffer → BoundedBuffer
give_item bb = record bb { read_semaphore = suc bb.read_semaphore }

abbrev pub locked_by : Option ℕ → BoundedBuffer → BoundedBuffer
locked_by o bb = record bb { lock = o }
