-- ===== src/Buffered/Flush.antt =====
-- What `buffered_flush` of ex2/buffered_open.c does to a regular file.
use os_course.Prelude.{
  ℕ, zero, suc, ◌+◌, ◌≤◌, ◌≡◌, ◌∙◌, sym, ap, refl, true, false, some, List, [], ◌∷◌, ◌++◌, arith,
  length, length-take, length-drop, take, drop, ◌==◌, if◌then◌else◌, Bool-cases, inl, inr,
}
use mathlib.Core.List.{append-nil}
use os_course.Prelude.Int.{pos}
use os_course.Prelude.Word.{success}
use os_course.Buffered.{
  Os, seek_set, seek_end, BufferedFile, memcpy, pending, reset, write_back, overwrite, read_old,
  in_block, old_content, flush_preappend, flush_normal, buffered_flush,
}
use os_course.Buffered.Bytes.{drop_all, take_all}
use os_course.Buffered.Regular.{Regular, Reads}

-- The write buffer holds its `write_buffer_pos` bytes.
abbrev pub Holds : BufferedFile → Type 0
Holds bf = bf.write_buffer_pos ≤ length bf.write_buffer

length-pending : (bf : BufferedFile) → Holds bf → length (pending bf) ≡ bf.write_buffer_pos
length-pending bf h = omega (arith, h, length-take bf.write_buffer_pos bf.write_buffer)

module _ {W : Type 0} (os : Os W) (bf : BufferedFile) (file : Regular os bf.fd) where
  flush_normal_lem :
      (w : W) → Holds bf → flush_normal os bf w ≡ reset os bf (os.write bf.fd (pending bf) w).1
  unfolding flush_normal
  flush_normal_lem w h = ground (arith, file.write_count (pending bf) w, length-pending bf h)

  write_back_lem :
      (temp : List ℕ) (w : W)
      → (w' : W) × (write_back os bf temp w ≡ reset os bf w')
        × (file.before w' ≡ file.before w ++ temp)
        × (file.after w' ≡ drop (length temp) (file.after w))
  write_back_lem [] w = (w, refl, sym (append-nil (file.before w)), refl)
  write_back_lem (b ∷ temp) w = (
    (os.write bf.fd (b ∷ temp) w).1,
    ground (arith, file.write_count (b ∷ temp) w),
    file.write_before (b ∷ temp) w,
    file.write_after (b ∷ temp) w,
  )

  overwrite_lem :
      (temp : List ℕ) (w : W)
      → Holds bf
      → file.before w ++ file.after w ≡ temp
      → (w' : W) × (overwrite os bf temp w ≡ reset os bf w')
        × (file.before w' ≡ pending bf ++ temp)
        × (file.after w' ≡ [])
  unfolding overwrite
  overwrite_lem temp w h e =
      let w1 = (os.lseek bf.fd (pos 0) seek_set w).1 in
      let w2 = (os.write bf.fd (pending bf) w1).1 in
      let (w', back, b, a) = write_back_lem temp w2 in
      (
        w',
        ground
            (arith, file.set_offset w, file.write_count (pending bf) w1, length-pending bf h, back),
        b
            ∙ ap (λ u. u ++ temp)
                (file.write_before (pending bf) w1 ∙ ap (λ u. u ++ pending bf) (file.set_before w)),
        ground (
          arith,
          a,
          file.write_after (pending bf) w1,
          file.set_after w,
          e,
          drop_all (length temp) (drop (length (pending bf)) temp)
              (omega (arith, length-drop (length (pending bf)) temp)),
        ),
      )

  -- The read of a whole file from its start.
  read_whole :
      (n : ℕ) (reads : Reads file) (w : W)
      → length (file.after w) ≡ n
      → ((os.read bf.fd n w).0 ≡ pos n)
        × ((os.read bf.fd n w).1 ≡ file.after w)
        × (file.before (os.read bf.fd n w).2 ++ file.after (os.read bf.fd n w).2
            ≡ file.before w ++ file.after w)
  read_whole n reads w e =
      let full : file.amount n w ≡ n = omega (arith, reads.in_full n w, e) in
      let all : take (file.amount n w) (file.after w) ≡ file.after w =
        take_all (file.amount n w) (file.after w) (omega (arith, full, e)) in
      (
        ground (arith, file.read_count n w, full),
        file.read_bytes n w ∙ all,
        rw (
          file.read_before n w,
          file.read_after n w,
          all,
          drop_all (file.amount n w) (file.after w) (omega (arith, full, e)),
          append-nil (file.before w ++ file.after w),
        ),
      )

  memcpy_whole : (block bytes : List ℕ) → length block ≡ length bytes → memcpy block 0 bytes ≡ bytes
  memcpy_whole block bytes e =
      ap (λ t. bytes ++ t) (drop_all (0 + length bytes) block (omega (arith, e))) ∙ append-nil bytes

  read_old_lem :
      (n : ℕ) (reads : Reads file) (block : List ℕ) (w : W)
      → length block ≡ n
      → length (file.before w ++ file.after w) ≡ n
      → (w' : W) × (read_old os bf n block w ≡ (some (file.before w ++ file.after w), w'))
        × (file.before w' ++ file.after w' ≡ file.before w ++ file.after w)
  read_old_lem n reads block w room e =
      let w1 = (os.lseek bf.fd (pos 0) seek_set w).1 in
      let (count, bytes, kept) = read_whole n reads w1 (ap length (file.set_after w) ∙ e) in
      let whole : (os.read bf.fd n w1).1 ≡ file.before w ++ file.after w =
        bytes ∙ file.set_after w in
      let copied = memcpy_whole block (os.read bf.fd n w1).1 (room ∙ sym (ap length whole ∙ e)) in
      (
        (os.read bf.fd n w1).2,
        ground (arith, file.set_offset w, count, copied, whole),
        kept ∙ rw (file.set_before w, file.set_after w),
      )

  old_content_lem :
      (n : ℕ) (reads : Reads file) (w : W)
      → length (file.before w ++ file.after w) ≡ n
      → (w' : W) × (old_content os bf (pos n) w ≡ (some (file.before w ++ file.after w), w'))
        × (file.before w' ++ file.after w' ≡ file.before w ++ file.after w)
  unfolding old_content
  old_content_lem zero reads w e = (
    w,
    ap (λ t. (some t, w)) (sym (drop_all 0 (file.before w ++ file.after w) (omega (arith, e)))),
    refl,
  )
  old_content_lem (suc k) reads w e =
      let w1 = (os.malloc (suc k) w).1 in
      let same : file.before w1 ++ file.after w1 ≡ file.before w ++ file.after w =
        rw (file.malloc_before (suc k) w, file.malloc_after (suc k) w) in
      let (w', read, kept) =
        read_old_lem (suc k) reads (file.block (suc k) w) w1 (file.block_size (suc k) w)
          (ap length same ∙ e) in
      (
        w',
        ap (λ m. in_block os bf (suc k) (m, w1)) (file.malloc_block (suc k) w)
            ∙ read
            ∙ ap (λ t. (some t, w')) same,
        kept ∙ same,
      )

  flush_preappend_lem :
      (reads : Reads file) (w : W)
      → Holds bf
      → (w' : W) × (flush_preappend os bf w ≡ reset os bf w')
        × (file.before w' ++ file.after w' ≡ pending bf ++ (file.before w ++ file.after w))
  unfolding flush_preappend
  flush_preappend_lem reads w h =
      let w1 = (os.lseek bf.fd (pos 0) seek_end w).1 in
      let all = file.before w ++ file.after w in
      let at_end : file.before w1 ++ file.after w1 ≡ all =
        rw (file.end_before w, file.end_after w, append-nil all) in
      let (w2, old, kept) = old_content_lem (length all) reads w1 (ap length at_end) in
      let (w3, done, b, a) = overwrite_lem all w2 h (kept ∙ at_end) in
      (
        w3,
        ground (arith, file.end_offset w, old, at_end, done),
        (rw (b, a)) ∙ append-nil (pending bf ++ all),
      )

  reset_empty : (w : W) → bf.write_buffer_pos ≡ 0 → (success, bf, w) ≡ reset os bf w
  reset_empty w e = ap (λ k. (success, record bf { write_buffer_pos = k }, w)) e

  flush_nothing :
      (w : W) → (bf.write_buffer_pos == 0) ≡ true → buffered_flush os bf w ≡ reset os bf w
  unfolding buffered_flush
  flush_nothing w e =
      ap
        (λ t.
          if t
          then (success, bf, w)
          else (if bf.preappend then flush_preappend os bf w else flush_normal os bf w))
        e
      ∙ reset_empty w (ground (arith, e))

  pending_nothing : (bf.write_buffer_pos == 0) ≡ true → pending bf ≡ []
  pending_nothing e = ap (λ k. take k bf.write_buffer) {y = 0} (ground (arith, e))

  -- `buffered_flush` of a handle that was opened with `O_PREAPPEND`, on a regular file whose reads
  -- return all that is there: it returns 0, empties the write buffer, and the file holds the bytes
  -- of the write buffer followed by everything that it held.
  pub flush_prepends :
      (reads : Reads file) (w : W)
      → Holds bf
      → bf.preappend ≡ true
      → (w' : W) × (buffered_flush os bf w ≡ reset os bf w')
        × (file.before w' ++ file.after w' ≡ pending bf ++ (file.before w ++ file.after w))
  unfolding buffered_flush
  flush_prepends reads w h p = elim (Bool-cases (bf.write_buffer_pos == 0)) [
    | inl e ↦ (
      w,
      flush_nothing w e,
      sym (ap (λ t. t ++ (file.before w ++ file.after w)) (pending_nothing e)),
    )
    | inr e ↦
        (let (w', done, kept) = flush_preappend_lem reads w h in (w', ground (arith, done), kept))
  ]

  -- `buffered_flush` of any other handle, on a regular file: it returns 0, empties the write buffer,
  -- and does to the file what one `write` of the waiting bytes at the offset does.
  pub flush_writes :
      (w : W)
      → Holds bf
      → bf.preappend ≡ false
      → (w' : W) × (buffered_flush os bf w ≡ reset os bf w')
        × (file.before w' ≡ file.before w ++ pending bf)
        × (file.after w' ≡ drop (length (pending bf)) (file.after w))
  unfolding buffered_flush
  flush_writes w h p = elim (Bool-cases (bf.write_buffer_pos == 0)) [
    | inl e ↦ (
      w,
      flush_nothing w e,
      sym (ap (λ t. file.before w ++ t) (pending_nothing e) ∙ append-nil (file.before w)),
      sym (ap (λ t. drop (length t) (file.after w)) (pending_nothing e)),
    )
    | inr e ↦ (
      (os.write bf.fd (pending bf) w).1,
      ground (arith, flush_normal_lem w h),
      file.write_before (pending bf) w,
      file.write_after (pending bf) w,
    )
  ]
