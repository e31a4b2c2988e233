-- ===== src/Fs/BlockTests.antt =====
-- A disk of three blocks for ex5/bonus/fs.c: the boot block, the bitmap and a free one.
use os_course.Prelude.{
  ℕ, suc, ◌<◌, ◌≡◌, ◌⊎◌, ◌∙◌, ap, refl, true, false, List, ◌∷◌, arith, ◌==◌, ◌||◌, if◌then◌else◌,
  replicate, length, length-replicate, Bool-cases, inl, inr,
}
use os_course.Fs.Blocks.{
  SuperBlock, Blocks, bsize, bblock, marked, mark, write, bzero, find_free, balloc_from, balloc,
}
use os_course.Fs.Bitmap.{in_use, Laid}
use os_course.Fs.Balloc.{balloc_lem}

abbrev small : SuperBlock
small = record { size = 3; bmapstart = 1 }

abbrev bits : List ℕ
bits = 3 ∷ replicate 1023 0

abbrev disk : Blocks
disk b = if b == 1 then bits else replicate bsize 0

abbrev disk_after : Blocks
disk_after = bzero 2 (write 1 (mark bits 2) disk)

length-disk : (b : ℕ) → length (disk b) ≡ bsize
length-disk b = elim (Bool-cases (b == 1)) [
  | inl e ↦
      ap (λ c. length (if c then bits else replicate bsize 0)) e
      ∙ ap suc (length-replicate {A = ℕ} 1023 0)
  | inr e ↦
      ap (λ c. length (if c then bits else replicate bsize 0)) e ∙ length-replicate {A = ℕ} bsize 0
]

disk_used : in_use small disk 1 ≡ true
unfolding marked
disk_used = refl

disk-Laid : Laid small disk
disk-Laid = record {
  small = omega arith;
  reach = omega arith;
  whole = λ x. length-disk (bblock small x);
  kept =
      λ x h. ap (λ b. in_use small disk b) {x = bblock small x} {y = 1} (omega arith) ∙ disk_used;
}

disk-balloc : balloc small disk ≡ (2, disk_after)
unfolding balloc_from find_free marked
disk-balloc = refl

balloc_lem_example :
    ((y : ℕ) × (blocks' : Blocks) × (balloc small disk ≡ (y, blocks'))
      × (y < 3)
      × (in_use small disk y ≡ false)
      × ((x : ℕ) → x < y → in_use small disk x ≡ true)
      × (blocks' y ≡ replicate bsize 0)
      × ((x : ℕ) → x < 3 → in_use small blocks' x ≡ (x == y) || in_use small disk x))
    ⊎ ((balloc small disk ≡ (0, disk)) × ((x : ℕ) → x < 3 → in_use small disk x ≡ true))
balloc_lem_example = balloc_lem small disk disk-Laid
