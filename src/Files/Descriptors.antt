-- ===== src/Files/Descriptors.antt =====
-- What descriptors of ex5/bonus/sysfile.c go through, and the bounds of ex4/part1/syscall.c.
use os_course.Prelude.{
  ℕ, zero, suc, ◌+◌, ◌^◌, ◌<◌, ◌≤◌, ◌≡◌, ◌∙◌, sym, ap, true, Option, none, some, List, arith, ltb,
  if◌then◌else◌, Option-cases, inl, inr, length, get_or, set, set-set, set-get_or_self,
  get_or-set_here,
}
use os_course.Prelude.Int.{pos}
use os_course.Prelude.Word.{success}
use os_course.Proc.{nofile}
use mathlib.Core.Option.{some-injective}
use os_course.Files.{
  slot_of, argfd, fdalloc_from, fdalloc, dup_into, dup_file, sys_dup, close_file, sys_close,
  in_space, fetchaddr,
}

-- `fetchaddr` reads only words that lie inside the process's memory: when the size is not within
-- eight bytes of 2 ^ 64, any address of 64 bits that passes its tests has its eight bytes below the
-- size.
pub fetchaddr_inside :
    (copyin : ℕ → Option ℕ) (sz addr word : ℕ)
    → sz + 8 ≤ 2 ^ 64
    → addr < 2 ^ 64
    → fetchaddr copyin sz addr ≡ some word
    → addr + 8 ≤ sz
unfolding fetchaddr in_space
fetchaddr_inside copyin sz addr word small small' got = ground arith

-- The descriptor that the loop finds is the lowest free one from `fd` on.
pub fdalloc_from_lem :
    (n fd f : ℕ) (ofile : List (Option ℕ)) (k : ℕ) (ofile' : List (Option ℕ))
    → fdalloc_from n fd f ofile ≡ some (k, ofile')
    → (fd ≤ k) × (k < fd + n) × (get_or ofile k none ≡ none) × (ofile' ≡ set ofile k (some f))
unfolding fdalloc_from
fdalloc_from_lem zero fd f ofile k ofile' got = ground arith
fdalloc_from_lem (suc n) fd f ofile k ofile' got =
    let first = λ (o : Option ℕ). elim o as (λ x. Option (ℕ × List (Option ℕ))) [
      | none ↦ some (fd, set ofile fd (some f))
      | some g ↦ fdalloc_from n (suc fd) f ofile
    ] in
    elim (Option-cases (get_or ofile fd none)) [
      | inl e ↦
          (let same = some-injective _ _ (sym (ap (λ o. first o) e) ∙ got) in
            (
              omega (arith, ap (λ r. r.0) same),
              omega (arith, ap (λ r. r.0) same),
              ap (λ j. get_or ofile j none) (sym (ap (λ r. r.0) same)) ∙ e,
              sym (ap (λ r. r.1) same) ∙ ap (λ j. set ofile j (some f)) (ap (λ r. r.0) same),
            ))
      | inr (g, e) ↦
          (let (le, lt, free, made) =
              fdalloc_from_lem n (suc fd) f ofile k ofile' (sym (ap (λ o. first o) e) ∙ got) in
            (omega (arith, le), omega (arith, lt), free, made))
    ]

argfd-made :
    (k f : ℕ) (made : List (Option ℕ))
    → k < nofile
    → get_or made k none ≡ some f
    → argfd (pos k) made ≡ some (k, f)
unfolding argfd
argfd-made k f made lt e =
    ap (λ b. slot_of made (if b then some k else none)) {x = ltb k nofile} {y = true}
      (ground (arith, lt))
    ∙ ap (λ o. elim o as (λ x. Option (ℕ × ℕ)) [ none ↦ none | some g ↦ some (k, g) ]) e

pub put_back :
    (ofile : List (Option ℕ)) (k f : ℕ)
    → get_or ofile k none ≡ none
    → set (set ofile k (some f)) k none ≡ ofile
put_back ofile k f free =
    set-set ofile k (some f) none
    ∙ ap (λ o. set ofile k o) (sym free)
    ∙ set-get_or_self ofile k none

-- `dup` of an open descriptor, when the loop finds the free descriptor `k` in a table of NOFILE
-- entries, returns `k` and counts one more reference of the file; a `close` of `k` right after it
-- returns 0, closes that file once, and leaves the table as it was before both.
pub sys_close-sys_dup :
    {W : Type 0} (filedup fileclose : ℕ → W → W) (fd f i k : ℕ) (ofile made : List (Option ℕ))
    (w : W)
    → length ofile ≡ nofile
    → argfd (pos fd) ofile ≡ some (i, f)
    → fdalloc f ofile ≡ some (k, made)
    → (sys_dup filedup fileclose (pos fd) ofile w ≡ (pos k, made, filedup f w))
      × (sys_close filedup fileclose (pos k) made (filedup f w)
          ≡ (success, ofile, fileclose f (filedup f w)))
unfolding sys_dup sys_close fdalloc
sys_close-sys_dup filedup fileclose fd f i k ofile made w size open_fd e =
    let (le, lt, free, same) = fdalloc_from_lem nofile 0 f ofile k made e in
    let below : k < length ofile = omega (arith, lt, size) in
    let held : get_or made k none ≡ some f =
      ap (λ t. get_or t k none) same ∙ get_or-set_here ofile k (some f) none below in
    (
      ap (λ o. dup_file filedup fileclose ofile w o) open_fd
          ∙ ap (λ o. dup_into filedup fileclose f ofile w o) e,
      ap (λ o. close_file filedup fileclose made (filedup f w) o)
            (argfd-made k f made (omega (arith, lt)) held)
          ∙ ap (λ t. (success, t, fileclose f (filedup f w)))
              (ap (λ t. set t k none) same ∙ put_back ofile k f free),
    )
