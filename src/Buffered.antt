-- ===== src/Buffered.antt =====
-- The buffered file of ex2/buffered_open.c. A byte is a number, memory is the list of its bytes,
-- and what frees memory changes nothing here. The system's calls are a parameter.
pub mod Open
pub mod Regular
pub mod Bytes
pub mod Flush
pub mod Write
pub mod Prepend
pub mod Refill
pub mod Read
pub mod Close
mod Tests
use os_course.Prelude.{
  ℕ, zero, suc, ◌+◌, ◌-◌, ◌≡◌, Bool, true, false, Option, none, some, List, [], ◌∷◌, ◌++◌, ltb,
  ◌==◌, ◌&&◌, ◌||◌, if◌then◌else◌, length, take, drop, replicate, is_unset,
}
use Prim.Native.Nat.{bit_and, bit_or}
use os_course.Prelude.Int.{ℤ, pos, negsuc, pos_part}
use os_course.Prelude.Word.{success, failure, int_eq}

pub data Whence : Type 0 where
  seek_set : Whence
  seek_end : Whence

-- The system and the C library, on a state of theirs. What returns through a pointer is a list.
pub record Os (W : Type 0) : Type 0 where
  pub lseek : ℤ → ℤ → Whence → W → ℤ × W
  pub read : ℤ → ℕ → W → ℤ × List ℕ × W
  pub write : ℤ → List ℕ → W → ℤ × W
  pub close : ℤ → W → ℤ × W
  pub malloc : ℕ → W → Option (List ℕ) × W
  pub set_enomem : W → W
  -- a path, flags and, with `O_CREAT`, a mode
  pub open_file : List ℕ → ℕ → Option ℕ → W → ℤ × W
  -- fcntl.h, and the size of the handle's record
  pub o_accmode : ℕ
  pub o_wronly : ℕ
  pub o_rdwr : ℕ
  pub o_creat : ℕ
  pub handle_size : ℕ

-- `BUFFER_SIZE`
abbrev pub buffer_size : ℕ
buffer_size = 4096

-- `buffered_file_t`
pub record BufferedFile : Type 0 where
  pub fd : ℤ
  pub read_buffer : List ℕ
  pub write_buffer : List ℕ
  pub read_buffer_size : ℕ
  pub write_buffer_size : ℕ
  pub read_buffer_pos : ℕ
  pub write_buffer_pos : ℕ
  pub flags : ℕ
  pub preappend : Bool

-- `memcpy(to + at, bytes, length bytes)`
abbrev pub memcpy : List ℕ → ℕ → List ℕ → List ℕ
memcpy to at bytes = take at to ++ bytes ++ drop (at + length bytes) to

-- The bytes that wait in the write buffer.
abbrev pub pending : BufferedFile → List ℕ
pending bf = take bf.write_buffer_pos bf.write_buffer

-- The result of a call with what it leaves.
abbrev pub Outcome : Type 0 → Type 0
Outcome W = ℤ × BufferedFile × W

-- One turn of the loop of `buffered_write` up to the test for a full buffer.
abbrev pub room_for : BufferedFile → ℕ → ℕ
room_for bf n =
    let space_left = bf.write_buffer_size - bf.write_buffer_pos in
    if ltb n space_left then n else space_left

abbrev pub copy_in : BufferedFile → List ℕ → BufferedFile
copy_in bf bytes = record bf {
  write_buffer = memcpy bf.write_buffer bf.write_buffer_pos bytes;
  write_buffer_pos = bf.write_buffer_pos + length bytes;
}

abbrev pub taken_now : ℕ → ℕ → ℕ
taken_now wanted available = if ltb wanted available then wanted else available

abbrev pub copy_out : BufferedFile → ℕ → List ℕ
copy_out bf n = take n (drop bf.read_buffer_pos bf.read_buffer)

abbrev pub skip : BufferedFile → ℕ → BufferedFile
skip bf n = record bf { read_buffer_pos = bf.read_buffer_pos + n }

module _ {W : Type 0} (os : Os W) where
  abbrev pub fail : BufferedFile → W → Outcome W
  fail bf w = (failure, bf, w)

  abbrev pub reset : BufferedFile → W → Outcome W
  reset bf w = (success, record bf { write_buffer_pos = 0 }, w)

  -- The write of the old data, and the test after it.
  abbrev pub write_back : BufferedFile → List ℕ → W → Outcome W
  write_back bf [] w = reset bf w
  write_back bf (b ∷ temp) w =
      let (n, w1) = os.write bf.fd (b ∷ temp) w in
      if int_eq n (pos (length (b ∷ temp))) then reset bf w1 else fail bf w1

  -- From the second `lseek(bf->fd, 0, SEEK_SET)` on; `temp` is the old data.
  unfoldable pub overwrite : BufferedFile → List ℕ → W → Outcome W
  overwrite bf temp w =
      let (at, w1) = os.lseek bf.fd (pos 0) seek_set w in
      if int_eq at failure
      then fail bf w1
      else (let (n, w2) = os.write bf.fd (pending bf) w1 in
          if int_eq n (pos bf.write_buffer_pos) then write_back bf temp w2 else fail bf w2)

  -- The read of the old data into the block that `malloc` gave.
  abbrev pub read_old : BufferedFile → ℕ → List ℕ → W → Option (List ℕ) × W
  read_old bf len block w =
      let (at, w1) = os.lseek bf.fd (pos 0) seek_set w in
      if int_eq at failure
      then (none, w1)
      else (let (r, bytes, w2) = os.read bf.fd len w1 in
          if int_eq r (pos len) then (some (memcpy block 0 bytes), w2) else (none, w2))

  abbrev pub in_block : BufferedFile → ℕ → Option (List ℕ) × W → Option (List ℕ) × W
  in_block bf len (none, w) = (none, os.set_enomem w)
  in_block bf len (some block, w) = read_old bf len block w

  -- `temp_buf` for a file of this length
  unfoldable pub old_content : BufferedFile → ℤ → W → Option (List ℕ) × W
  old_content bf (pos zero) w = (some [], w)
  old_content bf (pos (suc k)) w = in_block bf (suc k) (os.malloc (suc k) w)
  old_content bf (negsuc k) w = (some [], w)

  abbrev pub after_old : BufferedFile → Option (List ℕ) × W → Outcome W
  after_old bf (none, w) = fail bf w
  after_old bf (some temp, w) = overwrite bf temp w

  -- `buffered_flush`: the branch of `O_PREAPPEND`, the other one, and the function.
  unfoldable pub flush_preappend : BufferedFile → W → Outcome W
  flush_preappend bf w =
      let (len, w1) = os.lseek bf.fd (pos 0) seek_end w in
      if int_eq len failure then fail bf w1 else after_old bf (old_content bf len w1)

  unfoldable pub flush_normal : BufferedFile → W → Outcome W
  flush_normal bf w =
      let (n, w1) = os.write bf.fd (pending bf) w in
      if int_eq n (pos bf.write_buffer_pos) then reset bf w1 else fail bf w1

  unfoldable pub buffered_flush : BufferedFile → W → Outcome W
  buffered_flush bf w =
      if bf.write_buffer_pos == 0
      then (success, bf, w)
      else (if bf.preappend then flush_preappend bf w else flush_normal bf w)

  abbrev pub flush_if_full : BufferedFile → W → Outcome W
  flush_if_full bf w =
      if bf.write_buffer_pos == bf.write_buffer_size then buffered_flush bf w else (success, bf, w)

  -- The loop, on what is left of `data`; `none` is out of fuel.
  unfoldable pub write_loop : ℕ → List ℕ → ℕ → BufferedFile → W → Option (Outcome W)
  write_loop fuel [] bytes_written bf w = some (pos bytes_written, bf, w)
  write_loop zero (b ∷ bytes) bytes_written bf w = none
  write_loop (suc fuel) (b ∷ bytes) bytes_written bf w =
      let to_copy = room_for bf (length (b ∷ bytes)) in
      let (r, bf1, w1) = flush_if_full (copy_in bf (take to_copy (b ∷ bytes))) w in
      let rest = write_loop fuel (drop to_copy (b ∷ bytes)) (bytes_written + to_copy) bf1 w1 in
      if int_eq r failure then some (failure, bf1, w1) else rest

  unfoldable pub buffered_write : BufferedFile → List ℕ → W → Option (Outcome W)
  buffered_write bf bytes w = write_loop (length bytes) bytes 0 bf w

  -- The refill of an empty read buffer; `read` returns -1 for an error and no other negative number.
  unfoldable pub refill_from : BufferedFile → ℤ × List ℕ × W → ℤ × BufferedFile × W
  refill_from bf (negsuc k, bytes, w) = (failure, bf, w)
  refill_from bf (pos zero, bytes, w) = (pos 0, bf, w)
  refill_from bf (pos (suc k), bytes, w) = (
    pos (suc k),
    record bf {
      read_buffer = memcpy bf.read_buffer 0 bytes;
      read_buffer_size = suc k;
      read_buffer_pos = 0;
    },
    w,
  )

  -- `available` (or what `read` returned) with the buffer
  abbrev pub refill : BufferedFile → W → ℤ × BufferedFile × W
  refill bf w =
      let available = bf.read_buffer_size - bf.read_buffer_pos in
      if available == 0
      then refill_from bf (os.read bf.fd buffer_size w)
      else (pos available, bf, w)

  -- The loop of `buffered_read`; `out` is what it has copied, `none` is out of fuel.
  unfoldable pub read_loop : ℕ → ℕ → List ℕ → BufferedFile → W → Option (List ℕ × Outcome W)
  read_loop zero count out bf w =
      if ltb (length out) count then none else some (out, (pos (length out), bf, w))
  read_loop (suc fuel) count out bf w =
      let (available, bf1, w1) = refill bf w in
      let to_copy = taken_now (count - length out) (pos_part available) in
      let rest = read_loop fuel count (out ++ copy_out bf1 to_copy) (skip bf1 to_copy) w1 in
      (if ltb (length out) count
        then (if int_eq available failure
            then some (out, (failure, bf1, w1))
            else (if int_eq available (pos 0)
                then some (out, (pos (length out), bf1, w1))
                else rest))
        else some (out, (pos (length out), bf, w)))

  abbrev pub flush_pending : BufferedFile → W → Outcome W
  flush_pending bf w = if ltb 0 bf.write_buffer_pos then buffered_flush bf w else (success, bf, w)

  abbrev pub read_flushed : ℕ → Outcome W → Option (List ℕ × Outcome W)
  read_flushed count (r, bf, w) =
      let got = read_loop count count [] bf w in
      if int_eq r failure then some ([], (failure, bf, w)) else got

  unfoldable pub buffered_read : BufferedFile → ℕ → W → Option (List ℕ × Outcome W)
  buffered_read bf count w = read_flushed count (flush_pending bf w)

  -- `buffered_close`: the flush, tried a second time when it fails, then the close.
  abbrev pub flush_again : Outcome W → Outcome W
  flush_again (r, bf, w) = if int_eq r failure then buffered_flush bf w else (success, bf, w)

  abbrev pub close_flushed : Outcome W → ℤ × W
  close_flushed (flush_result, bf, w) =
      let (close_result, w1) = os.close bf.fd w in
      (if int_eq flush_result failure || int_eq close_result failure then failure else success, w1)

  unfoldable pub buffered_close : BufferedFile → W → ℤ × W
  buffered_close bf w =
      close_flushed
        (if ltb 0 bf.write_buffer_pos then flush_again (buffered_flush bf w) else (success, bf, w))
