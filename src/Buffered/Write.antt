-- ===== src/Buffered/Write.antt =====
-- `buffered_write` of ex2/buffered_open.c on a regular file, for a handle without `O_PREAPPEND`.
use os_course.Prelude.{
  ℕ, zero, suc, ◌+◌, ◌<◌, ◌≤◌, ◌≡◌, ◌∙◌, sym, ap, refl, false, some, List, [], ◌∷◌, ◌++◌, arith,
  length, length-append, length-take, length-drop, take, drop, take-append-drop, ◌==◌,
  if◌then◌else◌, Bool-cases, inl, inr,
}
use mathlib.Core.List.{append-nil, append_assoc}
use os_course.Prelude.Int.{ℤ, pos}
use os_course.Prelude.Word.{success, failure, int_eq}
use os_course.Buffered.{
  Os, BufferedFile, memcpy, pending, buffered_flush, room_for, copy_in, flush_if_full, write_loop,
  buffered_write,
}
use os_course.Buffered.Regular.{Regular}
use os_course.Buffered.Flush.{Holds, flush_writes}
use os_course.Buffered.Bytes.{drop-drop, take-append_exact}

-- The write buffer has its size and is not full.
abbrev pub Ready : BufferedFile → Type 0
Ready bf =
    (bf.write_buffer_pos < bf.write_buffer_size) × (length bf.write_buffer ≡ bf.write_buffer_size)

pub Ready-Holds : (bf : BufferedFile) → Ready bf → Holds bf
Ready-Holds bf h = omega (arith, h.0, h.1)

pub pending-copy_in :
    (bf : BufferedFile) (bytes : List ℕ)
    → Holds bf
    → pending (copy_in bf bytes) ≡ pending bf ++ bytes
pending-copy_in bf bytes h =
    take-append_exact (bf.write_buffer_pos + length bytes) (pending bf ++ bytes)
      (drop (bf.write_buffer_pos + length bytes) bf.write_buffer)
      (omega
        (arith, length-append (pending bf) bytes, length-take bf.write_buffer_pos bf.write_buffer))

pub length-memcpy :
    (to bytes : List ℕ) (at : ℕ)
    → at + length bytes ≤ length to
    → length (memcpy to at bytes) ≡ length to
length-memcpy to bytes at h = omega (
  arith,
  length-append (take at to ++ bytes) (drop (at + length bytes) to),
  length-append (take at to) bytes,
  length-take at to,
  length-drop (at + length bytes) to,
)

pub room_for_lem :
    (bf : BufferedFile) (n : ℕ)
    → 0 < n
    → bf.write_buffer_pos < bf.write_buffer_size
    → (0 < room_for bf n)
      × (room_for bf n ≤ n)
      × (bf.write_buffer_pos + room_for bf n ≤ bf.write_buffer_size)
room_for_lem bf n some_bytes free = ground arith

module _ {W : Type 0} {os : Os W} {fd : ℤ} (file : Regular os fd) where
  -- The bytes before the place where the next written byte goes, and those from it on, as they will
  -- be when the write buffer is flushed.
  abbrev pub above : BufferedFile → W → List ℕ
  above bf w = file.before w ++ pending bf

  abbrev pub below : BufferedFile → W → List ℕ
  below bf w = drop (length (pending bf)) (file.after w)

  above-copy_in :
      (bf : BufferedFile) (chunk : List ℕ) (w : W)
      → Holds bf
      → above (copy_in bf chunk) w ≡ above bf w ++ chunk
  above-copy_in bf chunk w h =
      ap (λ t. file.before w ++ t) (pending-copy_in bf chunk h)
      ∙ sym (append_assoc (file.before w) (pending bf) chunk)

  below-copy_in :
      (bf : BufferedFile) (chunk : List ℕ) (w : W)
      → Holds bf
      → below (copy_in bf chunk) w ≡ drop (length chunk) (below bf w)
  below-copy_in bf chunk w h =
      ap (λ t. drop (length t) (file.after w)) (pending-copy_in bf chunk h)
      ∙ ap (λ k. drop k (file.after w)) (length-append (pending bf) chunk)
      ∙ sym (drop-drop (length chunk) (length (pending bf)) (file.after w))

module _ {W : Type 0} (os : Os W) where
  -- One turn of the loop: the copy, and the flush of a full buffer.
  turn :
      (bf : BufferedFile) (file : Regular os bf.fd) (chunk : List ℕ) (w : W)
      → Ready bf
      → bf.preappend ≡ false
      → bf.write_buffer_pos + length chunk ≤ bf.write_buffer_size
      → (k : ℕ) × (w1 : W) × (flush_if_full os (copy_in bf chunk) w
          ≡ (success, record (copy_in bf chunk) { write_buffer_pos = k }, w1))
        × Ready (record (copy_in bf chunk) { write_buffer_pos = k })
        × (above file (record (copy_in bf chunk) { write_buffer_pos = k }) w1
            ≡ above file bf w ++ chunk)
        × (below file (record (copy_in bf chunk) { write_buffer_pos = k }) w1
            ≡ drop (length chunk) (below file bf w))
  turn bf file chunk w ready p fits =
      let bf1 = copy_in bf chunk in
      let h = Ready-Holds bf ready in
      let same : length bf1.write_buffer ≡ bf.write_buffer_size =
        length-memcpy bf.write_buffer chunk bf.write_buffer_pos (omega (arith, fits, ready.1))
        ∙ ready.1 in
      elim (Bool-cases (bf1.write_buffer_pos == bf1.write_buffer_size)) [
        | inl e ↦
            (let (w1, done, b, a) = flush_writes os bf1 file w (omega (arith, fits, same)) p in
              (
                0,
                w1,
                ap (λ t. if t then buffered_flush os bf1 w else (success, bf1, w)) e ∙ done,
                (omega (arith, ready.0), same),
                append-nil (file.before w1) ∙ b ∙ above-copy_in file bf chunk w h,
                a ∙ below-copy_in file bf chunk w h,
              ))
        | inr e ↦ (
          bf1.write_buffer_pos,
          w,
          ap (λ t. if t then buffered_flush os bf1 w else (success, bf1, w)) e,
          (ground (arith, e, fits), same),
          above-copy_in file bf chunk w h,
          below-copy_in file bf chunk w h,
        )
      ]

  loop :
      (fuel : ℕ) (bytes : List ℕ) (n : ℕ) (bf : BufferedFile) (file : Regular os bf.fd) (w : W)
      → length bytes ≤ fuel
      → Ready bf
      → bf.preappend ≡ false
      → (bf' : BufferedFile) × (w' : W) × (write_loop os fuel bytes n bf w
          ≡ some (pos (n + length bytes), bf', w'))
        × Ready bf'
        × (above file bf' w' ≡ above file bf w ++ bytes)
        × (below file bf' w' ≡ drop (length bytes) (below file bf w))
  unfolding write_loop
  loop fuel [] n bf file w le ready p = (
    bf,
    w,
    ap (λ k. some (pos k, bf, w)) {x = n} (omega arith),
    ready,
    sym (append-nil (above file bf w)),
    refl,
  )
  loop zero (b ∷ bytes) n bf file w le ready p = absurd (omega arith)
  loop (suc fuel) (b ∷ bytes) n bf file w le ready p =
      let l = b ∷ bytes in
      let c = room_for bf (length l) in
      let chunk = take c l in
      let rest = drop c l in
      let some_room = room_for_lem bf (length l) (omega arith) ready.0 in
      let size : length chunk ≡ c = omega (arith, length-take c l, some_room.1) in
      let (k, w1, done, ready1, above1, below1) =
        turn bf file chunk w ready p (omega (arith, some_room.2, size)) in
      let (bf', w', went, ready', above', below') =
        loop fuel rest (n + c) (record (copy_in bf chunk) { write_buffer_pos = k }) file w1
          (omega (arith, le, some_room.0, length-drop c l)) ready1 p in
      (
        bf',
        w',
        ap
              (λ o.
                if int_eq o.0 failure
                then some (failure, o.1, o.2)
                else write_loop os fuel rest (n + c) o.1 o.2)
              done
            ∙ went
            ∙ ap (λ m. some (pos m, bf', w')) {y = n + length l}
                (omega (arith, some_room.1, length-drop c l)),
        ready',
        above'
            ∙ ap (λ t. t ++ rest) above1
            ∙ append_assoc (above file bf w) chunk rest
            ∙ ap (λ t. above file bf w ++ t) (take-append-drop c l),
        below'
            ∙ ap (λ t. drop (length rest) t) below1
            ∙ drop-drop (length rest) (length chunk) (below file bf w)
            ∙ ap (λ m. drop m (below file bf w)) {y = length l}
                (omega (arith, size, some_room.1, length-drop c l)),
      )

  -- `buffered_write` on a regular file, for a handle that was opened without `O_PREAPPEND` and whose
  -- write buffer is not full: it returns the count of its bytes, its write buffer again not full, and
  -- with the buffer's bytes counted as written, the file is what one `write` of the bytes makes of it.
  pub buffered_write_lem :
      (bf : BufferedFile) (file : Regular os bf.fd) (bytes : List ℕ) (w : W)
      → Ready bf
      → bf.preappend ≡ false
      → (bf' : BufferedFile) × (w' : W) × (buffered_write os bf bytes w
          ≡ some (pos (length bytes), bf', w'))
        × Ready bf'
        × (above file bf' w' ≡ above file bf w ++ bytes)
        × (below file bf' w' ≡ drop (length bytes) (below file bf w))
  unfolding buffered_write
  buffered_write_lem bf file bytes w ready p =
      let (bf', w', done, ready', a, b) =
        loop (length bytes) bytes 0 bf file w (omega arith) ready p in
      (
        bf',
        w',
        done ∙ ap (λ m. some (pos m, bf', w')) {y = length bytes} (omega arith),
        ready',
        a,
        b,
      )
