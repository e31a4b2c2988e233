-- ===== src/Buffered/Close.antt =====
-- The two ends of a handle's life in ex2/buffered_open.c.
use os_course.Prelude.{
  ℕ, ◌≡◌, ◌∙◌, sym, ap, refl, Bool, false, Option, none, some, List, [], ◌++◌, ◌||◌, arith, length,
  take, drop, ltb, if◌then◌else◌, Bool-cases, inl, inr,
}
use os_course.Prelude.Int.{ℤ}
use os_course.Prelude.Word.{success, failure, int_eq}
use os_course.Buffered.{
  Os, BufferedFile, buffer_size, pending, buffered_flush, flush_again, close_flushed,
  buffered_close,
}
use os_course.Buffered.Open.{
  buffered_open, open_handle, opened, with_buffers, allocate, open_flags, has_bits, o_preappend,
}
use os_course.Buffered.Regular.{Regular}
use os_course.Buffered.Flush.{Holds, flush_writes}
use os_course.Buffered.Write.{Ready, above, below}
use os_course.Buffered.Refill.{Readable}
use mathlib.Core.List.{append-nil}
use mathlib.Core.Path.{subst}

module _ {W : Type 0} (os : Os W) (bf : BufferedFile) (file : Regular os bf.fd) where
  close_flushed_lem :
      (k : ℕ) (w : W)
      → close_flushed os (success, record bf { write_buffer_pos = k }, w)
        ≡ (success, (os.close bf.fd w).1)
  close_flushed_lem k w =
      ap
        (λ c. (
          if int_eq success failure || int_eq c failure then failure else success,
          (os.close bf.fd w).1,
        ))
        (file.close_result w)

  -- `buffered_close` on a regular file, for a handle without `O_PREAPPEND`: it returns 0, and the
  -- bytes that waited in the write buffer are in the file, where one `write` of them would put them.
  buffered_close_lem :
      (w : W)
      → Holds bf
      → bf.preappend ≡ false
      → (w' : W) × (buffered_close os bf w ≡ (success, w'))
        × (file.before w' ≡ above file bf w)
        × (file.after w' ≡ below file bf w)
  unfolding buffered_close
  buffered_close_lem w h p = elim (Bool-cases (ltb 0 bf.write_buffer_pos)) [
    | inr e ↦
        (let empty : pending bf ≡ [] =
            ap (λ k. take k bf.write_buffer) {y = 0} (ground (arith, e)) in
          (
            (os.close bf.fd w).1,
            ap
                  (λ t.
                    close_flushed os
                      (if t then flush_again os (buffered_flush os bf w) else (success, bf, w)))
                  e
                ∙ close_flushed_lem bf.write_buffer_pos w,
            file.close_before w
                ∙ sym (ap (λ t. file.before w ++ t) empty ∙ append-nil (file.before w)),
            file.close_after w ∙ sym (ap (λ t. drop (length t) (file.after w)) empty),
          ))
    | inl e ↦
        (let (w1, done, b, a) = flush_writes os bf file w h p in
          (
            (os.close bf.fd w1).1,
            ap
                  (λ t.
                    close_flushed os
                      (if t then flush_again os (buffered_flush os bf w) else (success, bf, w)))
                  e
                ∙ ap (λ o. close_flushed os (flush_again os o)) done
                ∙ close_flushed_lem 0 w1,
            file.close_before w1 ∙ b,
            file.close_after w1 ∙ a,
          ))
  ]

-- What holds of a handle that was just opened.
abbrev pub IsFresh : Bool → Option BufferedFile → Type 0
IsFresh preappend none = Unit {0}
IsFresh preappend (some bf) =
    Ready bf
    × Readable bf
    × (pending bf ≡ [])
    × (bf.preappend ≡ preappend)
    × (int_eq bf.fd failure ≡ false)

module _ {W : Type 0} (os : Os W) where
  with_buffers-IsFresh :
      (fd : ℤ) (flags : ℕ) (p : Bool) (a b : Option (List ℕ)) (w : W)
      → ((x : List ℕ) → b ≡ some x → length x ≡ buffer_size)
      → int_eq fd failure ≡ false
      → IsFresh p (with_buffers os fd flags p (a, b, w)).0
  with_buffers-IsFresh fd flags p none b w room ok = tt
  with_buffers-IsFresh fd flags p (some r) none w room ok = tt
  with_buffers-IsFresh fd flags p (some r) (some b) w room ok =
      ((omega arith, room b refl), (omega arith, omega arith), refl, refl, ok)

  opened-IsFresh :
      (flags : ℕ) (p : Bool) (fd : ℤ) (w : W)
      → ((n : ℕ) (v : W) (b : List ℕ) → (os.malloc n v).0 ≡ some b → length b ≡ n)
      → IsFresh p (opened os flags p (fd, w)).0
  opened-IsFresh flags p fd w room = elim (Bool-cases (int_eq fd failure)) [
    | inl e ↦
        subst (λ o. IsFresh p o.0)
          (ap (λ t. if t then (none, w) else with_buffers os fd flags p (allocate os w)) (sym e)) tt
    | inr e ↦
        subst (λ o. IsFresh p o.0)
          (ap (λ t. if t then (none, w) else with_buffers os fd flags p (allocate os w)) (sym e))
          (with_buffers-IsFresh fd flags p (allocate os w).0 (allocate os w).1 (allocate os w).2
            (λ x h. room buffer_size (os.malloc buffer_size w).1 x h) e)
  ]

  handle-IsFresh :
      (path : List ℕ) (flags mode : ℕ) (m : Option (List ℕ)) (w : W)
      → ((n : ℕ) (v : W) (b : List ℕ) → (os.malloc n v).0 ≡ some b → length b ≡ n)
      → IsFresh (has_bits flags o_preappend) (open_handle os path flags mode (m, w)).0
  handle-IsFresh path flags mode none w room = tt
  handle-IsFresh path flags mode (some block) w room =
      let f = open_flags os flags in
      let t = os.open_file path f (if has_bits f os.o_creat then some mode else none) w in
      opened-IsFresh f (has_bits flags o_preappend) t.0 t.1 room

  -- `buffered_open`, whatever the calls of the system return, if a block of `malloc` has the size that
  -- was asked for: it returns NULL, or a handle with a descriptor that is not -1, with empty buffers,
  -- its write buffer ready for `buffered_write`, and `preappend` set exactly if the caller's flags
  -- have `O_PREAPPEND`.
  pub buffered_open-IsFresh :
      (path : List ℕ) (flags mode : ℕ) (w : W)
      → ((n : ℕ) (v : W) (b : List ℕ) → (os.malloc n v).0 ≡ some b → length b ≡ n)
      → IsFresh (has_bits flags o_preappend) (buffered_open os path flags mode w).0
  unfolding buffered_open
  buffered_open-IsFresh path flags mode w room =
      let m = os.malloc os.handle_size w in handle-IsFresh path flags mode m.0 m.1 room
