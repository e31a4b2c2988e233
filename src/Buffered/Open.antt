-- ===== src/Buffered/Open.antt =====
-- `buffered_open` of ex2/buffered_open.c, over the calls of its parent.
use os_course.Prelude.{ℕ, ◌-◌, Bool, true, false, Option, none, some, List, ◌==◌, if◌then◌else◌}
use Prim.Native.Nat.{bit_and, bit_or}
use os_course.Prelude.Int.{ℤ}
use os_course.Prelude.Word.{failure, int_eq}
use os_course.Buffered.{Os, BufferedFile, buffer_size}

-- `O_PREAPPEND`, and `flags & bits` and `flags & ~bits` on 32 bits
abbrev pub o_preappend : ℕ
o_preappend = 1073741824

abbrev pub has_bits : ℕ → ℕ → Bool
has_bits flags bits = if bit_and flags bits == 0 then false else true

abbrev pub clear_bits : ℕ → ℕ → ℕ
clear_bits flags bits = bit_and flags (4294967295 - bits)

module _ {W : Type 0} (os : Os W) where
  -- `buffered_open`, from its end: the handle once both buffers are there, or the cleanup.
  abbrev pub with_buffers :
      ℤ → ℕ → Bool → Option (List ℕ) × Option (List ℕ) × W → Option BufferedFile × W
  with_buffers fd flags preappend (some read_block, some write_block, w) = (
    some (record {
      fd = fd;
      read_buffer = read_block;
      write_buffer = write_block;
      read_buffer_size = 0;
      write_buffer_size = buffer_size;
      read_buffer_pos = 0;
      write_buffer_pos = 0;
      flags = flags;
      preappend = preappend;
    }),
    w,
  )
  with_buffers fd flags preappend (some read_block, none, w) =
      (none, os.set_enomem (os.close fd w).1)
  with_buffers fd flags preappend (none, write_block, w) = (none, os.set_enomem (os.close fd w).1)

  abbrev pub allocate : W → Option (List ℕ) × Option (List ℕ) × W
  allocate w =
      let (read_block, w1) = os.malloc buffer_size w in
      let (write_block, w2) = os.malloc buffer_size w1 in (read_block, write_block, w2)

  -- The flags that go to `open`.
  abbrev pub open_flags : ℕ → ℕ
  open_flags flags =
      let f = clear_bits flags o_preappend in
      (if has_bits flags o_preappend
        then (if bit_and f os.o_accmode == os.o_wronly
            then bit_or (clear_bits f os.o_wronly) os.o_rdwr
            else f)
        else flags)

  abbrev pub opened : ℕ → Bool → ℤ × W → Option BufferedFile × W
  opened flags preappend (fd, w) =
      if int_eq fd failure then (none, w) else with_buffers fd flags preappend (allocate w)

  abbrev pub open_handle : List ℕ → ℕ → ℕ → Option (List ℕ) × W → Option BufferedFile × W
  open_handle path flags mode (none, w) = (none, os.set_enomem w)
  open_handle path flags mode (some block, w) =
      let f = open_flags flags in
      opened f (has_bits flags o_preappend)
        (os.open_file path f (if has_bits f os.o_creat then some mode else none) w)

  -- `mode` is the variable argument.
  unfoldable pub buffered_open : List ℕ → ℕ → ℕ → W → Option BufferedFile × W
  buffered_open path flags mode w = open_handle path flags mode (os.malloc os.handle_size w)
