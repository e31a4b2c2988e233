-- ===== src/Buffered/Tests.antt =====
-- A file kept as a list, and runs of ex2/buffered_open.c on it with buffers of a few bytes.
use os_course.Prelude.{
  ℕ, ◌≡◌, ◌∙◌, sym, ap, refl, Bool, true, false, some, List, [], ◌∷◌, ◌++◌, arith, length, take,
  drop, replicate, length-replicate,
}
use Prim.Native.Nat.{min}
use os_course.Prelude.Int.{ℤ, pos, negsuc}
use os_course.Prelude.Word.{failure}
use os_course.Buffered.{
  Os, Whence, seek_set, seek_end, BufferedFile, pending, buffered_write, buffered_read,
}
use os_course.Buffered.Regular.{Regular, Reads}
use os_course.Buffered.Prepend.{whole, buffered_write_reverses}
use os_course.Buffered.Write.{Ready, above, below, buffered_write_lem}
use os_course.Buffered.Refill.{upcoming}
use mathlib.Core.Option.{some-injective}
use os_course.Buffered.Read.{buffered_read_lem}

abbrev Disk : Type 0
Disk = List ℕ × List ℕ

abbrev seek : ℤ → ℤ → Whence → Disk → ℤ × Disk
seek fd (pos k) seek_set (b, a) = (pos k, (take k (b ++ a), drop k (b ++ a)))
seek fd (pos k) seek_end (b, a) = (pos (length (b ++ a)), (b ++ a, []))
seek fd (negsuc k) whence w = (failure, w)

abbrev get : ℤ → ℕ → Disk → ℤ × List ℕ × Disk
get fd n (b, a) = let k = min n (length a) in (pos k, take k a, (b ++ take k a, drop k a))

abbrev put : ℤ → List ℕ → Disk → ℤ × Disk
put fd bytes (b, a) = (pos (length bytes), (b ++ bytes, drop (length bytes) a))

abbrev disk : Os Disk
disk = record {
  lseek = seek;
  read = get;
  write = put;
  close = λ fd w. (pos 0, w);
  malloc = λ n w. (some (replicate n 0), w);
  set_enomem = λ w. w;
  open_file = λ path flags mode w. (pos 5, w);
  o_accmode = 3;
  o_wronly = 1;
  o_rdwr = 2;
  o_creat = 64;
  handle_size = 64;
}

abbrev disk_file : (fd : ℤ) → Regular disk fd
disk_file fd = record {
  before = λ w. w.0;
  after = λ w. w.1;
  amount = λ n w. min n (length w.1);
  amount-le_count = λ n w. omega arith;
  amount-le_after = λ n w. omega arith;
  amount_pos = λ n w a b. omega arith;
  read_count = λ n w. refl;
  read_bytes = λ n w. refl;
  read_before = λ n w. refl;
  read_after = λ n w. refl;
  write_count = λ bytes w. refl;
  write_before = λ bytes w. refl;
  write_after = λ bytes w. refl;
  close_result = λ w. refl;
  close_before = λ w. refl;
  close_after = λ w. refl;
  end_offset = λ w. refl;
  end_before = λ w. refl;
  end_after = λ w. refl;
  set_offset = λ w. refl;
  set_before = λ w. refl;
  set_after = λ w. refl;
  block = λ n w. replicate n 0;
  block_size = λ n w. length-replicate n 0;
  malloc_block = λ n w. refl;
  malloc_before = λ n w. refl;
  malloc_after = λ n w. refl;
}

abbrev disk_reads : (fd : ℤ) → Reads (disk_file fd)
disk_reads fd = record { in_full = λ n w. refl }

-- A handle with a write buffer of three bytes, one of them waiting.
abbrev handle : Bool → BufferedFile
handle p = record {
  fd = pos 5;
  read_buffer = 8 ∷ 9 ∷ 0 ∷ [];
  write_buffer = 1 ∷ 0 ∷ 0 ∷ [];
  read_buffer_size = 2;
  write_buffer_size = 3;
  read_buffer_pos = 1;
  write_buffer_pos = 1;
  flags = 2;
  preappend = p;
}

abbrev old : Disk
old = (50 ∷ [], 51 ∷ [])

-- Seven bytes in three parts.
buffered_write_reverses_example :
    (bf' : BufferedFile) × (w' : Disk) × (buffered_write disk
        (handle true)
        (2 ∷ 3 ∷ 4 ∷ 5 ∷ 6 ∷ 7 ∷ 8 ∷ [])
        old
      ≡ some (pos 7, bf', w'))
    × Ready bf'
    × (pending bf' ++ whole disk (disk_file (pos 5)) w'
        ≡ 7 ∷ 8 ∷ 4 ∷ 5 ∷ 6 ∷ 1 ∷ 2 ∷ 3 ∷ 50 ∷ 51 ∷ [])
buffered_write_reverses_example =
    buffered_write_reverses disk (handle true) (disk_file (pos 5)) (2 ∷ 3 ∷ 4 ∷ 5 ∷ 6 ∷ 7 ∷ 8 ∷ [])
      old (disk_reads (pos 5)) (omega arith, refl) refl

buffered_write_example :
    (bf' : BufferedFile) × (w' : Disk) × (buffered_write disk (handle false) (2 ∷ 3 ∷ 4 ∷ []) old
      ≡ some (pos 3, bf', w'))
    × Ready bf'
    × (above (disk_file (pos 5)) bf' w' ≡ 50 ∷ 1 ∷ 2 ∷ 3 ∷ 4 ∷ [])
    × (below (disk_file (pos 5)) bf' w' ≡ [])
buffered_write_example =
    buffered_write_lem disk (handle false) (disk_file (pos 5)) (2 ∷ 3 ∷ 4 ∷ []) old
      (omega arith, refl) refl

abbrev reading : BufferedFile
reading = record (handle false) { write_buffer_pos = 0 }

buffered_read_example :
    (bf' : BufferedFile) × (w' : Disk) × (buffered_read disk reading 4 old
      ≡ some (9 ∷ 51 ∷ [], (pos 2, bf', w')))
    × (upcoming (disk_file (pos 5)) bf' w' ≡ [])
buffered_read_example =
    buffered_read_lem disk 4 reading (disk_file (pos 5)) old (omega arith, omega arith) refl

disk_blocks : (n : ℕ) (v : Disk) (b : List ℕ) → (disk.malloc n v).0 ≡ some b → length b ≡ n
disk_blocks n v b e = ap length (sym (some-injective (replicate n 0) b e)) ∙ length-replicate n 0

-- O_WRONLY | O_PREAPPEND
