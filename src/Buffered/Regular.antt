-- ===== src/Buffered/Regular.antt =====
-- What the calls of ex2/buffered_open.c do on a regular file whose storage and memory suffice, as
-- their manual pages say: the bytes before the offset, and those from it on.
use os_course.Prelude.{ℕ, ◌<◌, ◌≤◌, ◌≡◌, some, List, [], ◌++◌, length, take, drop}
use Prim.Native.Nat.{min}
use os_course.Prelude.Int.{ℤ, pos}
use os_course.Buffered.{Os, seek_set, seek_end}

pub record Regular {W : Type 0} (os : Os W) (fd : ℤ) : Type 0 where
  pub before : W → List ℕ
  pub after : W → List ℕ
  -- how many bytes a `read` of so many returns: some, if there are some
  pub amount : ℕ → W → ℕ
  pub amount-le_count : (n : ℕ) (w : W) → amount n w ≤ n
  pub amount-le_after : (n : ℕ) (w : W) → amount n w ≤ length (after w)
  pub amount_pos : (n : ℕ) (w : W) → 0 < n → 0 < length (after w) → 0 < amount n w
  pub read_count : (n : ℕ) (w : W) → (os.read fd n w).0 ≡ pos (amount n w)
  pub read_bytes : (n : ℕ) (w : W) → (os.read fd n w).1 ≡ take (amount n w) (after w)
  pub read_before :
      (n : ℕ) (w : W) → before (os.read fd n w).2 ≡ before w ++ take (amount n w) (after w)
  pub read_after : (n : ℕ) (w : W) → after (os.read fd n w).2 ≡ drop (amount n w) (after w)
  pub write_count : (bytes : List ℕ) (w : W) → (os.write fd bytes w).0 ≡ pos (length bytes)
  pub write_before : (bytes : List ℕ) (w : W) → before (os.write fd bytes w).1 ≡ before w ++ bytes
  pub write_after :
      (bytes : List ℕ) (w : W) → after (os.write fd bytes w).1 ≡ drop (length bytes) (after w)
  pub close_result : (w : W) → (os.close fd w).0 ≡ pos 0
  pub close_before : (w : W) → before (os.close fd w).1 ≡ before w
  pub close_after : (w : W) → after (os.close fd w).1 ≡ after w
  pub end_offset : (w : W) → (os.lseek fd (pos 0) seek_end w).0 ≡ pos (length (before w ++ after w))
  pub end_before : (w : W) → before (os.lseek fd (pos 0) seek_end w).1 ≡ before w ++ after w
  pub end_after : (w : W) → after (os.lseek fd (pos 0) seek_end w).1 ≡ []
  pub set_offset : (w : W) → (os.lseek fd (pos 0) seek_set w).0 ≡ pos 0
  pub set_before : (w : W) → before (os.lseek fd (pos 0) seek_set w).1 ≡ []
  pub set_after : (w : W) → after (os.lseek fd (pos 0) seek_set w).1 ≡ before w ++ after w
  pub block : ℕ → W → List ℕ
  pub block_size : (n : ℕ) (w : W) → length (block n w) ≡ n
  pub malloc_block : (n : ℕ) (w : W) → (os.malloc n w).0 ≡ some (block n w)
  pub malloc_before : (n : ℕ) (w : W) → before (os.malloc n w).1 ≡ before w
  pub malloc_after : (n : ℕ) (w : W) → after (os.malloc n w).1 ≡ after w

-- A regular file whose reads return all that is there, up to the count.
pub record Reads {W : Type 0} {os : Os W} {fd : ℤ} (file : Regular os fd) : Type 0 where
  pub in_full : (n : ℕ) (w : W) → file.amount n w ≡ min n (length (file.after w))
