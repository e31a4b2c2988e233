-- ===== src/Buffered/Refill.antt =====
-- The read buffer of ex2/buffered_open.c and its refill from a regular file.
use os_course.Prelude.{
  ℕ, zero, suc, ◌+◌, ◌-◌, ◌≤◌, ◌≡◌, ◌⊎◌, ◌∙◌, sym, ap, refl, List, [], ◌++◌, arith, length,
  length-append, length-take, length-drop, take, drop, take-append-drop, ◌==◌, if◌then◌else◌, inl,
  inr,
}
use os_course.Prelude.Int.{ℤ, pos}
use os_course.Buffered.{Os, buffer_size, BufferedFile, memcpy, refill, refill_from, skip}
use os_course.Buffered.Regular.{Regular}
use os_course.Buffered.Bytes.{drop_all, take_all, drop-drop, drop-take, take-append}

-- The bytes that were read from the file and not handed out, and how many they are.
abbrev pub unread : BufferedFile → List ℕ
unread bf = take (bf.read_buffer_size - bf.read_buffer_pos) (drop bf.read_buffer_pos bf.read_buffer)

abbrev pub Readable : BufferedFile → Type 0
Readable bf =
    (bf.read_buffer_pos ≤ bf.read_buffer_size) × (bf.read_buffer_size ≤ length bf.read_buffer)

pub length-unread :
    (bf : BufferedFile)
    → Readable bf
    → length (unread bf) ≡ bf.read_buffer_size - bf.read_buffer_pos
length-unread bf h = omega (
  arith,
  h.0,
  h.1,
  length-take (bf.read_buffer_size - bf.read_buffer_pos) (drop bf.read_buffer_pos bf.read_buffer),
  length-drop bf.read_buffer_pos bf.read_buffer,
)

pub unread-skip : (bf : BufferedFile) (c : ℕ) → unread (skip bf c) ≡ drop c (unread bf)
unread-skip bf c =
    ap (λ k. take k (drop (bf.read_buffer_pos + c) bf.read_buffer))
      {x = bf.read_buffer_size - (bf.read_buffer_pos + c)} (omega arith)
    ∙ ap (λ t. take (bf.read_buffer_size - bf.read_buffer_pos - c) t)
        (sym (drop-drop c bf.read_buffer_pos bf.read_buffer))
    ∙ sym (
        drop-take c (bf.read_buffer_size - bf.read_buffer_pos)
          (drop bf.read_buffer_pos bf.read_buffer))

module _ {W : Type 0} {os : Os W} {fd : ℤ} (file : Regular os fd) where
  -- What reads are still to return, in order.
  abbrev pub upcoming : BufferedFile → W → List ℕ
  upcoming bf w = unread bf ++ file.after w

abbrev pub holding : BufferedFile → List ℕ → ℕ → BufferedFile
holding bf bytes n = record bf {
  read_buffer = memcpy bf.read_buffer 0 bytes;
  read_buffer_size = n;
  read_buffer_pos = 0;
}

pub unread-holding :
    (bf : BufferedFile) (bytes : List ℕ) → unread (holding bf bytes (length bytes)) ≡ bytes
unread-holding bf bytes =
    ap (λ k. take k (bytes ++ drop (0 + length bytes) bf.read_buffer)) {x = length bytes - 0}
      {y = length bytes} (omega arith)
    ∙ take-append (length bytes) bytes (drop (0 + length bytes) bf.read_buffer) (omega arith)
    ∙ take_all (length bytes) bytes (omega arith)

-- The handle with another state of its read buffer.
abbrev pub with_read : BufferedFile → List ℕ → ℕ → ℕ → BufferedFile
with_read bf b z q = record bf { read_buffer = b; read_buffer_size = z; read_buffer_pos = q }

pub number-cases : (n : ℕ) → (n ≡ 0) ⊎ ((k : ℕ) × (n ≡ suc k))
number-cases zero = inl refl
number-cases (suc n) = inr (n, refl)

module _ {W : Type 0} (os : Os W) (bf : BufferedFile) (file : Regular os bf.fd) where
  pub read_nothing :
      (w : W)
      → file.amount buffer_size w ≡ 0
      → (refill_from os bf (os.read bf.fd buffer_size w)
          ≡ (pos 0, bf, (os.read bf.fd buffer_size w).2))
        × (file.after w ≡ [])
        × (file.after (os.read bf.fd buffer_size w).2 ≡ [])
  unfolding refill_from
  read_nothing w none_read =
      let t = os.read bf.fd buffer_size w in
      let nothing : file.after w ≡ [] =
        drop_all 0 (file.after w) (ground (arith, file.amount_pos buffer_size w)) in
      (
        ap (λ c. refill_from os bf (c, t.1, t.2))
            (file.read_count buffer_size w ∙ ap pos none_read),
        nothing,
        file.read_after buffer_size w ∙ ap (λ k. drop k (file.after w)) none_read ∙ nothing,
      )

  pub read_bytes_of :
      (k : ℕ) (w : W)
      → file.amount buffer_size w ≡ suc k
      → (refill_from os bf (os.read bf.fd buffer_size w) ≡ (
        pos (suc k),
        holding bf (os.read bf.fd buffer_size w).1 (suc k),
        (os.read bf.fd buffer_size w).2,
      ))
        × (length (os.read bf.fd buffer_size w).1 ≡ suc k)
        × ((os.read bf.fd buffer_size w).1 ++ file.after (os.read bf.fd buffer_size w).2
            ≡ file.after w)
  unfolding refill_from
  read_bytes_of k w some_read =
      let t = os.read bf.fd buffer_size w in
      (
        ap (λ c. refill_from os bf (c, t.1, t.2))
            (file.read_count buffer_size w ∙ ap pos some_read),
        ap length (file.read_bytes buffer_size w)
            ∙ omega (
              arith,
              some_read,
              file.amount-le_after buffer_size w,
              length-take (file.amount buffer_size w) (file.after w),
            ),
        (rw (file.read_bytes buffer_size w, file.read_after buffer_size w))
            ∙ take-append-drop (file.amount buffer_size w) (file.after w),
      )

  -- A refill finds nothing left, or leaves `k` + 1 bytes in the read buffer.
  pub refill_lem :
      (w : W)
      → Readable bf
      → ((w1 : W) × (refill os bf w ≡ (pos 0, bf, w1))
          × (upcoming file bf w ≡ [])
          × (upcoming file bf w1 ≡ []))
        ⊎ ((b : List ℕ) × (z : ℕ) × (q : ℕ) × (k : ℕ) × (w1 : W) × (refill os bf w
              ≡ (pos (suc k), with_read bf b z q, w1))
            × Readable (with_read bf b z q)
            × (z - q ≡ suc k)
            × (upcoming file (with_read bf b z q) w1 ≡ upcoming file bf w))
  refill_lem w h = elim (number-cases (bf.read_buffer_size - bf.read_buffer_pos)) [
    | inr (k, e) ↦ inr (
      bf.read_buffer,
      bf.read_buffer_size,
      bf.read_buffer_pos,
      k,
      w,
      ap (λ n. if n == 0 then refill_from os bf (os.read bf.fd buffer_size w) else (pos n, bf, w)) e
          ∙ ground arith,
      h,
      e,
      refl,
    )
    | inl e ↦
        (let t = os.read bf.fd buffer_size w in
          let asks : refill os bf w ≡ refill_from os bf t =
            ap (λ n. if n == 0 then refill_from os bf t else (pos n, bf, w)) e in
          let drained : unread bf ≡ [] =
            ap (λ n. take n (drop bf.read_buffer_pos bf.read_buffer)) e in
          elim (number-cases (file.amount buffer_size w)) [
            | inl z ↦
                (let (got, a, a') = read_nothing w z in
                  inl (t.2, asks ∙ got, rw (drained, a), rw (drained, a')))
            | inr (k, s) ↦
                (let (got, size, all) = read_bytes_of k w s in
                  inr (
                    memcpy bf.read_buffer 0 t.1,
                    suc k,
                    0,
                    k,
                    t.2,
                    asks ∙ got,
                    (
                      omega arith,
                      omega (arith, size, length-append t.1 (drop (0 + length t.1) bf.read_buffer)),
                    ),
                    omega arith,
                    ap (λ n. unread (holding bf t.1 n) ++ file.after t.2) (sym size)
                        ∙ ap (λ u. u ++ file.after t.2) (unread-holding bf t.1)
                        ∙ all
                        ∙ ap (λ u. u ++ file.after w) (sym drained),
                  ))
          ])
  ]
