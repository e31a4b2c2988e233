-- ===== src/Buffered/Read.antt =====
-- `buffered_read` of ex2/buffered_open.c on a regular file whose reads may be short.
use os_course.Prelude.{
  ℕ, zero, suc, ◌+◌, ◌-◌, ◌<◌, ◌≤◌, ◌≡◌, ◌⊎◌, ◌∙◌, sym, ap, false, Option, none, some, List, [],
  ◌++◌, arith, length, length-append, length-take, length-drop, take, drop, ◌==◌, ltb,
  if◌then◌else◌, Bool-cases, inl, inr,
}
use mathlib.Core.List.{append-nil, append_assoc}
use os_course.Prelude.Int.{pos, pos_part}
use os_course.Prelude.Word.{success, failure, int_eq}
use os_course.Buffered.{
  Os, BufferedFile, Outcome, refill, taken_now, copy_out, skip, read_loop, read_flushed,
  buffered_flush, buffered_read,
}
use os_course.Buffered.Regular.{Regular}
use os_course.Buffered.Bytes.{
  drop_all, take_all, drop-drop, take-take, take-append, drop-append, take_two,
}
use os_course.Buffered.Refill.{
  unread, Readable, length-unread, unread-skip, upcoming, with_read, refill_lem,
}

taken_now_lem :
    (n k : ℕ) → 0 < n → (taken_now n k ≤ n) × (taken_now n k ≤ k) × (0 < k → 0 < taken_now n k)
taken_now_lem n k h = (ground arith, ground arith, λ j. ground arith)

stop_here : (n : ℕ) (out bytes : List ℕ) → (n ≡ 0) ⊎ (bytes ≡ []) → out ++ take n bytes ≡ out
stop_here n out bytes (inl e) = ap (λ k. out ++ take k bytes) e ∙ append-nil out
stop_here n out bytes (inr e) =
    ap (λ t. out ++ take n t) e ∙ ap (λ t. out ++ t) (take_all n [] (omega arith)) ∙ append-nil out

module _ {W : Type 0} (os : Os W) where
  -- What a turn of the loop does with the outcome of its refill.
  abbrev after_refill : ℕ → ℕ → List ℕ → Outcome W → Option (List ℕ × Outcome W)
  after_refill fuel count out (available, bf1, w1) =
      let to_copy = taken_now (count - length out) (pos_part available) in
      (if int_eq available failure
        then some (out, (failure, bf1, w1))
        else (if int_eq available (pos 0)
            then some (out, (pos (length out), bf1, w1))
            else read_loop os fuel count (out ++ copy_out bf1 to_copy) (skip bf1 to_copy) w1))

  -- One turn of the loop leaves `rest` of `wanted` bytes to copy.
  copied :
      (bf : BufferedFile) (file : Regular os bf.fd) (w : W) (c wanted : ℕ)
      → Readable bf
      → c ≤ bf.read_buffer_size - bf.read_buffer_pos
      → c ≤ wanted
      → (copy_out bf c ++ take (wanted - c) (upcoming file (skip bf c) w)
          ≡ take wanted (upcoming file bf w))
        × (upcoming file (skip bf c) w ≡ drop c (upcoming file bf w))
  copied bf file w c wanted h le le' =
      let room : c ≤ length (unread bf) = omega (arith, le, length-unread bf h) in
      let chunk : copy_out bf c ≡ take c (upcoming file bf w) = sym (
        take-append c (unread bf) (file.after w) room
        ∙ take-take c (bf.read_buffer_size - bf.read_buffer_pos)
            (drop bf.read_buffer_pos bf.read_buffer) le) in
      let rest : upcoming file (skip bf c) w ≡ drop c (upcoming file bf w) =
        ap (λ u. u ++ file.after w) (unread-skip bf c)
        ∙ sym (drop-append c (unread bf) (file.after w) room) in
      ((rw (chunk, rest)) ∙ take_two c wanted (upcoming file bf w) le', rest)

  length-copy_out :
      (bf : BufferedFile) (c : ℕ)
      → Readable bf
      → c ≤ bf.read_buffer_size - bf.read_buffer_pos
      → length (copy_out bf c) ≡ c
  length-copy_out bf c h le = omega (
    arith,
    h.0,
    h.1,
    length-take c (drop bf.read_buffer_pos bf.read_buffer),
    length-drop bf.read_buffer_pos bf.read_buffer,
  )

  read_all :
      (fuel count : ℕ) (out : List ℕ) (bf : BufferedFile) (file : Regular os bf.fd) (w : W)
      → Readable bf
      → count ≤ length out + fuel
      → length out ≤ count
      → (bf' : BufferedFile) × (w' : W) × (read_loop os fuel count out bf w
          ≡ some (
            out ++ take (count - length out) (upcoming file bf w),
            (pos (length (out ++ take (count - length out) (upcoming file bf w))), bf', w'),
          ))
        × (upcoming file bf' w' ≡ drop (count - length out) (upcoming file bf w))
  unfolding read_loop
  read_all zero count out bf file w h enough le = (
    bf,
    w,
    ap (λ t. if t then none else some (out, (pos (length out), bf, w))) {x = ltb (length out) count}
          {y = false} (ground arith)
        ∙ ap (λ o. some (o, (pos (length o), bf, w)))
            (sym (stop_here (count - length out) out (upcoming file bf w) (inl (omega arith)))),
    ap (λ k. drop k (upcoming file bf w)) {x = 0} (omega arith),
  )
  read_all (suc fuel) count out bf file w h enough le = elim (Bool-cases (ltb (length out) count)) [
    | inr e ↦ (
      bf,
      w,
      ap
            (λ t.
              if t
              then after_refill fuel count out (refill os bf w)
              else some (out, (pos (length out), bf, w)))
            e
          ∙ ap (λ o. some (o, (pos (length o), bf, w)))
              (sym (stop_here (count - length out) out (upcoming file bf w) (inl (ground arith)))),
      ap (λ k. drop k (upcoming file bf w)) {x = 0} (ground arith),
    )
    | inl e ↦ elim (refill_lem os bf file w h) [
      | inl (w1, got, a, a') ↦ (
        bf,
        w1,
        ap
              (λ t.
                if t
                then after_refill fuel count out (refill os bf w)
                else some (out, (pos (length out), bf, w)))
              e
            ∙ ap (λ o. after_refill fuel count out o) got
            ∙ ap (λ o. some (o, (pos (length o), bf, w1)))
                (sym (stop_here (count - length out) out (upcoming file bf w) (inr a))),
        a'
            ∙ sym (
                ap (λ t. drop (count - length out) t) a
                ∙ drop_all (count - length out) [] (omega arith)),
      )
      | inr (b, z, q, k, w1, got, h1, size, same) ↦
          (let bf1 = with_read bf b z q in
            let n = count - length out in
            let c = taken_now n (suc k) in
            let bounds = taken_now_lem n (suc k) (ground (arith, e)) in
            let chunk = copy_out bf1 c in
            let now = length-copy_out bf1 c h1 (omega (arith, bounds.1, size)) in
            let bf2 = skip bf1 c in
            let (took, next) = copied bf1 file w1 c n h1 (omega (arith, bounds.1, size)) bounds.0 in
            let both = length-append out chunk in
            let (bf', w', went, left) =
              read_all fuel count (out ++ chunk) bf2 file w1
                (omega (arith, h1.0, bounds.1, size), h1.1)
                (omega (arith, both, now, bounds.2 (omega arith), enough))
                (omega (arith, both, now, bounds.0, le)) in
            let fewer : count - length (out ++ chunk) ≡ n - c = omega (arith, both, now) in
            let all = upcoming file bf w in
            (
              bf',
              w',
              ap
                    (λ t.
                      if t
                      then after_refill fuel count out (refill os bf w)
                      else some (out, (pos (length out), bf, w)))
                    e
                  ∙ ap (λ o. after_refill fuel count out o) got
                  ∙ ap
                      (λ t.
                        if t
                        then some (out, (pos (length out), bf1, w1))
                        else read_loop os fuel count (out ++ chunk) bf2 w1)
                      {x = suc k == 0} {y = false} (ground arith)
                  ∙ went
                  ∙ ap (λ o. some (o, (pos (length o), bf', w')))
                      (ap (λ m. (out ++ chunk) ++ take m (upcoming file bf2 w1)) fewer
                        ∙ append_assoc out chunk (take (n - c) (upcoming file bf2 w1))
                        ∙ ap (λ t. out ++ t) (took ∙ ap (λ t. take n t) same)),
              left
                  ∙ ap (λ m. drop m (upcoming file bf2 w1)) fewer
                  ∙ ap (λ t. drop (n - c) t) (next ∙ ap (λ t. drop c t) same)
                  ∙ drop-drop (n - c) c all
                  ∙ ap (λ m. drop m all) {y = n} (omega (arith, bounds.0)),
            ))
    ]
  ]

  -- `buffered_read` on a regular file, whose reads may be short, for a handle without waiting
  -- writes: it never runs out of turns, it copies the next `count` bytes in their order (those left in
  -- the read buffer, then the file's), or all there are when they are fewer, it returns how many it
  -- copied, and what is still to be read afterwards is exactly the rest.
  pub buffered_read_lem :
      (count : ℕ) (bf : BufferedFile) (file : Regular os bf.fd) (w : W)
      → Readable bf
      → bf.write_buffer_pos ≡ 0
      → (bf' : BufferedFile) × (w' : W) × (buffered_read os bf count w
          ≡ some (
            take count (upcoming file bf w),
            (pos (length (take count (upcoming file bf w))), bf', w'),
          ))
        × (upcoming file bf' w' ≡ drop count (upcoming file bf w))
  unfolding buffered_read
  buffered_read_lem count bf file w h clean =
      let (bf', w', went, left) = read_all count count [] bf file w h (omega arith) (omega arith) in
      let whole : count - 0 ≡ count = omega arith in
      (
        bf',
        w',
        ap (λ t. read_flushed os count (if t then buffered_flush os bf w else (success, bf, w)))
              {x = ltb 0 bf.write_buffer_pos} {y = false} (ground (arith, clean))
            ∙ went
            ∙ ap
                (λ k. some (
                  take k (upcoming file bf w),
                  (pos (length (take k (upcoming file bf w))), bf', w'),
                ))
                whole,
        left ∙ ap (λ k. drop k (upcoming file bf w)) whole,
      )
