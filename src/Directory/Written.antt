-- ===== src/Directory/Written.antt =====
-- What a write of one entry leaves in a directory of ex5/bonus/fs.c.
use os_course.Prelude.{
  ℕ, zero, suc, ◌+◌, ◌-◌, ◌*◌, ◌/◌, ◌%◌, ◌^◌, ◌<◌, ◌≤◌, ◌≡◌, ◌⊎◌, ◌∙◌, ap, refl, arith, true, ◌∷◌,
  CharList, ltb, leb, ◌&&◌, if◌then◌else◌, get_or, inl, inr,
}
use os_course.Fs.{DiskInode}
use os_course.Fs.Blocks.{Blocks, bsize}
use os_course.Fs.Content.Map.{byte_at}
use os_course.Directory.{
  dirsiz, dirent_size, Memory, bytes_from, first, others, strncmp_equal, strncpy, with_entry,
}
use os_course.Directory.Slots.{bytes_from-ext, slot_inum, slot_name, SameSlot}

pub strncmp_equal-strncpy : (n : ℕ) (s : CharList) → strncmp_equal n s (strncpy n s) ≡ true
unfolding strncmp_equal
strncmp_equal-strncpy zero s = refl
strncmp_equal-strncpy (suc n) s = ground (arith, strncmp_equal-strncpy n (others s))

bytes_from-strncpy :
    (f : ℕ → ℕ) (s : CharList) (a n : ℕ)
    → ((i : ℕ) → i < n → f (a + i) ≡ get_or (strncpy n s) i 0)
    → bytes_from f a n ≡ strncpy n s
unfolding bytes_from
bytes_from-strncpy f s a zero same = refl
bytes_from-strncpy f s a (suc n) same =
    ap (λ x. x ∷ bytes_from f (suc a) n)
      (ap f {x = a} {y = a + 0} (omega arith) ∙ same 0 (omega arith))
    ∙ ap (λ xs. first s ∷ xs)
        (bytes_from-strncpy f (others s) (suc a) n
          (λ i h. ap f {x = suc a + i} {y = a + suc i} (omega arith) ∙ same (suc i) (omega arith)))

module _ (c : DiskInode) (blocks blocks' : Blocks) (limit de off inum : ℕ) (name : CharList)
    (m : Memory)
    (new : (x : ℕ)
      → x < limit * bsize
      → byte_at c blocks' x ≡ (
          if leb off x && ltb x (off + dirent_size)
          then with_entry de name inum m (de + (x - off))
          else byte_at c blocks x))
    (fits : off + dirent_size ≤ limit * bsize) where
  byte_at-slot :
      (i : ℕ) → i < dirent_size → byte_at c blocks' (off + i) ≡ with_entry de name inum m (de + i)
  byte_at-slot i h =
      new (off + i) (omega arith)
      ∙ ground (
        arith,
        h,
        ap (λ z. with_entry de name inum m z) {x = de + (off + i - off)} {y = de + i} (omega arith),
      )

  pub slot_inum-written : inum < 2 ^ 16 → slot_inum c blocks' off ≡ inum
  slot_inum-written small =
      let low : byte_at c blocks' off ≡ inum % 256 =
        ap (λ z. byte_at c blocks' z) {x = off} {y = off + 0} (omega arith)
        ∙ byte_at-slot 0 (omega arith)
        ∙ ground arith in
      let high : byte_at c blocks' (off + 1) ≡ inum / 256 % 256 =
        byte_at-slot 1 (omega arith) ∙ ground arith in
      omega (arith, low, high)

  pub slot_name-written : slot_name c blocks' off ≡ strncpy dirsiz name
  slot_name-written =
      bytes_from-strncpy (λ x. byte_at c blocks' x) name (off + 2) dirsiz
        (λ i h.
          ap (λ z. byte_at c blocks' z) {x = off + 2 + i} {y = off + (2 + i)} (omega arith)
          ∙ byte_at-slot (2 + i) (omega arith)
          ∙ ground (
            arith,
            h,
            ap (λ z. get_or (strncpy dirsiz name) z 0) {x = de + (2 + i) - (de + 2)} {y = i}
                (omega arith),
          ))

  -- Every other entry.
  byte_at-other :
      (x i : ℕ)
      → i < dirent_size
      → (x + dirent_size ≤ off) ⊎ (off + dirent_size ≤ x)
      → x + dirent_size ≤ limit * bsize
      → byte_at c blocks' (x + i) ≡ byte_at c blocks (x + i)
  byte_at-other x i h (inl lt) inside = new (x + i) (omega arith) ∙ ground (arith, h, lt)
  byte_at-other x i h (inr gt) inside = new (x + i) (omega arith) ∙ ground (arith, h, gt)

  pub slot-other :
      (x : ℕ)
      → (x + dirent_size ≤ off) ⊎ (off + dirent_size ≤ x)
      → x + dirent_size ≤ limit * bsize
      → SameSlot c blocks c blocks' x
  slot-other x apart inside =
      let low : byte_at c blocks' x ≡ byte_at c blocks x =
        ap (λ z. byte_at c blocks' z) {x = x} {y = x + 0} (omega arith)
        ∙ byte_at-other x 0 (omega arith) apart inside
        ∙ ap (λ z. byte_at c blocks z) {x = x + 0} {y = x} (omega arith) in
      (
        omega (arith, low, byte_at-other x 1 (omega arith) apart inside),
        bytes_from-ext (λ z. byte_at c blocks' z) (λ z. byte_at c blocks z) (x + 2) (x + 2) dirsiz
            (λ i h.
              ap (λ z. byte_at c blocks' z) {x = x + 2 + i} {y = x + (2 + i)} (omega arith)
              ∙ byte_at-other x (2 + i) (omega arith) apart inside
              ∙ ap (λ z. byte_at c blocks z) {x = x + (2 + i)} {y = x + 2 + i} (omega arith)),
      )
