-- ===== src/Buffered/Prepend.antt =====
-- `buffered_write` of ex2/buffered_open.c on a regular file, for a handle with `O_PREAPPEND`.
use os_course.Prelude.{
  ℕ, zero, suc, ◌+◌, ◌-◌, ◌≤◌, ◌≡◌, ◌⊎◌, ◌∙◌, sym, ap, refl, true, some, List, [], ◌∷◌, ◌++◌, arith,
  length, length-take, length-drop, take, drop, ltb, ◌==◌, if◌then◌else◌, Bool-cases, inl, inr,
}
use mathlib.Core.List.{append_assoc}
use mathlib.Core.Path.{subst}
use os_course.Prelude.Int.{ℤ, pos}
use os_course.Prelude.Word.{success, failure, int_eq}
use os_course.Buffered.{
  Os, BufferedFile, pending, buffered_flush, room_for, copy_in, flush_if_full, write_loop,
  buffered_write,
}
use os_course.Buffered.Regular.{Regular, Reads}
use os_course.Buffered.Flush.{flush_prepends}
use os_course.Buffered.Write.{Ready, Ready-Holds, length-memcpy, pending-copy_in, room_for_lem}
use os_course.Buffered.Bytes.{drop_all, take_all}

-- The parts of `size` bytes, the last first.
abbrev pub last_first : ℕ → ℕ → List ℕ → List ℕ
last_first zero size bytes = []
last_first (suc parts) size bytes = last_first parts size (drop size bytes) ++ take size bytes

last_first_nothing : (parts size : ℕ) → last_first parts size [] ≡ []
last_first_nothing zero size = refl
last_first_nothing (suc parts) size =
    ap (λ t. last_first parts size t ++ take size []) (drop_all size [] (omega arith))
    ∙ ap (λ t. t ++ take size []) (last_first_nothing parts size)
    ∙ take_all size [] (omega arith)

-- The next turn with nothing left to write, or with an empty write buffer.
join :
    (parts size k : ℕ) (buffer rest old : List ℕ)
    → (rest ≡ []) ⊎ (k ≡ 0)
    → last_first parts size (drop (size - k) rest)
        ++ (take k buffer ++ (take (size - k) rest ++ old))
      ≡ last_first (suc parts) size rest ++ (take k buffer ++ old)
join parts size k buffer rest old (inl e) =
    subst
      (λ r.
        last_first parts size (drop (size - k) r) ++ (take k buffer ++ (take (size - k) r ++ old))
        ≡ last_first (suc parts) size r ++ (take k buffer ++ old))
      (sym e)
      (ap (λ t. last_first parts size t ++ (take k buffer ++ (take (size - k) [] ++ old)))
          (drop_all (size - k) [] (omega arith))
        ∙ ap (λ t. t ++ (take k buffer ++ (take (size - k) [] ++ old)))
            (last_first_nothing parts size)
        ∙ ap (λ t. take k buffer ++ (t ++ old)) (take_all (size - k) [] (omega arith))
        ∙ sym (ap (λ t. t ++ (take k buffer ++ old)) (last_first_nothing (suc parts) size)))
join parts size k buffer rest old (inr e) =
    subst
      (λ j.
        last_first parts size (drop (size - j) rest)
          ++ (take j buffer ++ (take (size - j) rest ++ old))
        ≡ last_first (suc parts) size rest ++ (take j buffer ++ old))
      (sym e)
      (ap (λ m. last_first parts size (drop m rest) ++ (take m rest ++ old)) {x = size - 0}
          {y = size} (omega arith)
        ∙ sym (append_assoc (last_first parts size (drop size rest)) (take size rest) old))

module _ {W : Type 0} (os : Os W) where
  abbrev pub whole : {fd : ℤ} → Regular os fd → W → List ℕ
  whole file w = file.before w ++ file.after w

  turn :
      (bf : BufferedFile) (file : Regular os bf.fd) (chunk : List ℕ) (w : W)
      → Reads file
      → Ready bf
      → bf.preappend ≡ true
      → bf.write_buffer_pos + length chunk ≤ bf.write_buffer_size
      → (k : ℕ) × (w1 : W) × (flush_if_full os (copy_in bf chunk) w
          ≡ (success, record (copy_in bf chunk) { write_buffer_pos = k }, w1))
        × Ready (record (copy_in bf chunk) { write_buffer_pos = k })
        × (bf.write_buffer_pos + length chunk ≡ bf.write_buffer_size → k ≡ 0)
        × (pending (record (copy_in bf chunk) { write_buffer_pos = k }) ++ whole file w1
            ≡ (pending bf ++ chunk) ++ whole file w)
  turn bf file chunk w reads ready p fits =
      let bf1 = copy_in bf chunk in
      let same : length bf1.write_buffer ≡ bf.write_buffer_size =
        length-memcpy bf.write_buffer chunk bf.write_buffer_pos (omega (arith, fits, ready.1))
        ∙ ready.1 in
      let waits = pending-copy_in bf chunk (Ready-Holds bf ready) in
      elim (Bool-cases (bf1.write_buffer_pos == bf1.write_buffer_size)) [
        | inl e ↦
            let (w1, done, kept) =
              flush_prepends os bf1 file reads w (omega (arith, fits, same)) p in
            (
              0,
              w1,
              ap (λ t. if t then buffered_flush os bf1 w else (success, bf1, w)) e ∙ done,
              (omega (arith, ready.0), same),
              λ h. refl,
              kept ∙ ap (λ t. t ++ whole file w) waits,
            )
        | inr e ↦ (
          bf1.write_buffer_pos,
          w,
          ap (λ t. if t then buffered_flush os bf1 w else (success, bf1, w)) e,
          (ground (arith, e, fits), same),
          λ h. absurd (ground (arith, e, h)),
          ap (λ t. t ++ whole file w) waits,
        )
      ]

  loop :
      (fuel : ℕ) (bytes : List ℕ) (n : ℕ) (bf : BufferedFile) (file : Regular os bf.fd) (w : W)
      → length bytes ≤ fuel
      → Reads file
      → Ready bf
      → bf.preappend ≡ true
      → (bf' : BufferedFile) × (w' : W) × (write_loop os fuel bytes n bf w
          ≡ some (pos (n + length bytes), bf', w'))
        × Ready bf'
        × (pending bf' ++ whole file w'
            ≡ last_first fuel bf.write_buffer_size
                (drop (bf.write_buffer_size - bf.write_buffer_pos) bytes)
              ++ (pending bf
                  ++ (take (bf.write_buffer_size - bf.write_buffer_pos) bytes ++ whole file w)))
  unfolding write_loop
  loop fuel [] n bf file w le reads ready p =
      let room = bf.write_buffer_size - bf.write_buffer_pos in
      (
        bf,
        w,
        ap (λ k. some (pos k, bf, w)) {x = n} (omega arith),
        ready,
        sym (
            ap
              (λ t.
                last_first fuel bf.write_buffer_size t
                ++ (pending bf ++ (take room [] ++ whole file w)))
              (drop_all room [] (omega arith))
            ∙ ap (λ t. t ++ (pending bf ++ (take room [] ++ whole file w)))
                (last_first_nothing fuel bf.write_buffer_size)
            ∙ ap (λ t. pending bf ++ (t ++ whole file w)) (take_all room [] (omega arith))),
      )
  loop zero (b ∷ bytes) n bf file w le reads ready p = absurd (omega arith)
  loop (suc fuel) (b ∷ bytes) n bf file w le reads ready p =
      let l = b ∷ bytes in
      let size = bf.write_buffer_size in
      let room = bf.write_buffer_size - bf.write_buffer_pos in
      let c = room_for bf (length l) in
      let chunk = take c l in
      let rest = drop c l in
      let some_room = room_for_lem bf (length l) (omega arith) ready.0 in
      let long : length chunk ≡ c = omega (arith, length-take c l, some_room.1) in
      let (k, w1, done, ready1, emptied, shown) =
        turn bf file chunk w reads ready p (omega (arith, some_room.2, long)) in
      let (bf', w', went, ready', shown') =
        loop fuel rest (n + c) (record (copy_in bf chunk) { write_buffer_pos = k }) file w1
          (omega (arith, le, some_room.0, length-drop c l)) reads ready1 p in
      let cut : (chunk ≡ take room l) × (rest ≡ drop room l) × ((rest ≡ []) ⊎ (k ≡ 0)) =
        elim (Bool-cases (ltb (length l) room)) [
          | inl h ↦
              let all : c ≡ length l = ap (λ t. if t then length l else room) h in
              let none_left = drop_all c l (omega (arith, all)) in
              (
                take_all c l (omega (arith, all)) ∙ sym (take_all room l (ground (arith, h))),
                none_left ∙ sym (drop_all room l (ground (arith, h))),
                inl none_left,
              )
          | inr h ↦
              let full : c ≡ room = ap (λ t. if t then length l else room) h in
              (
                ap (λ m. take m l) full,
                ap (λ m. drop m l) full,
                inr (emptied (omega (arith, long, full, ready.0))),
              )
        ] in
      (
        bf',
        w',
        ap
              (λ o.
                if int_eq o.0 failure
                then some (failure, o.1, o.2)
                else write_loop os fuel rest (n + c) o.1 o.2)
              done
            ∙ went
            ∙ ap (λ m. some (pos m, bf', w')) {y = n + length l}
                (omega (arith, some_room.1, length-drop c l)),
        ready',
        shown'
            ∙ join fuel size k (copy_in bf chunk).write_buffer rest (whole file w1) cut.2
            ∙ ap (λ t. last_first (suc fuel) size rest ++ t)
                (shown ∙ append_assoc (pending bf) chunk (whole file w))
            ∙ ap (λ t. last_first (suc fuel) size t ++ (pending bf ++ (chunk ++ whole file w)))
                cut.1
            ∙ ap
                (λ t.
                  last_first (suc fuel) size (drop room l) ++ (pending bf ++ (t ++ whole file w)))
                cut.0,
      )

  -- `buffered_write` on a regular file whose reads return all that is there, for a handle that was opened
  -- with `O_PREAPPEND` and whose write buffer is not full: it returns the count of its bytes, its write
  -- buffer again not full. With the buffer's bytes counted as written, the file starts with the bytes
  -- that found no room at first, cut into parts of the buffer's size of which the last stands first;
  -- then come the bytes that waited, those that found room, and the old file.
  pub buffered_write_reverses :
      (bf : BufferedFile) (file : Regular os bf.fd) (bytes : List ℕ) (w : W)
      → Reads file
      → Ready bf
      → bf.preappend ≡ true
      → (bf' : BufferedFile) × (w' : W) × (buffered_write os bf bytes w
          ≡ some (pos (length bytes), bf', w'))
        × Ready bf'
        × (pending bf' ++ whole file w'
            ≡ last_first
                (length bytes)
                bf.write_buffer_size
                (drop (bf.write_buffer_size - bf.write_buffer_pos) bytes)
              ++ (pending bf
                  ++ (take (bf.write_buffer_size - bf.write_buffer_pos) bytes ++ whole file w)))
  unfolding buffered_write
  buffered_write_reverses bf file bytes w reads ready p =
      let (bf', w', done, ready', shown) =
        loop (length bytes) bytes 0 bf file w (omega arith) reads ready p in
      (
        bf',
        w',
        done ∙ ap (λ m. some (pos m, bf', w')) {y = length bytes} (omega arith),
        ready',
        shown,
      )
