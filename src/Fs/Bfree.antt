-- ===== src/Fs/Bfree.antt =====
-- What `bfree` of ex5/bonus/fs.c does to the set of blocks in use.
use os_course.Prelude.{
  ℕ, ◌+◌, ◌/◌, ◌%◌, ◌^◌, ◌<◌, ◌≡◌, ◌∙◌, sym, ap, true, false, none, some, List, arith, ◌==◌, ◌&&◌,
  ◌||◌, is_unset, if◌then◌else◌, replicate, length, length-set, length-replicate, Bool-cases, inl,
  inr,
}
use mathlib.Core.Path.{subst}
use os_course.Fs.Blocks.{
  SuperBlock, Blocks, bsize, bpb, bblock, marked, mark, unmark, write, balloc, bfree,
}
use os_course.Fs.Bitmap.{marked-unmark, in_use, Laid, bblock-eq}
use os_course.Fs.Balloc.{grab, grab-in_use, balloc_from-Allocated}

abbrev pub release : SuperBlock → ℕ → Blocks → Blocks
release sb y blocks = write (bblock sb y) (unmark (blocks (bblock sb y)) (y % bpb)) blocks

pub release-in_use :
    (sb : SuperBlock) (blocks : Blocks) (y x : ℕ)
    → sb.size / bpb + sb.bmapstart < 2 ^ 32
    → length (blocks (bblock sb y)) ≡ bsize
    → y < sb.size
    → x < sb.size
    → in_use sb (release sb y blocks) x ≡ is_unset (x == y) && in_use sb blocks x
release-in_use sb blocks y x reach whole hy hx =
    let unmarks = unmark (blocks (bblock sb y)) (y % bpb) in
    let old = blocks (bblock sb x) in
    let bit = λ (bytes : List ℕ). marked bytes (x % bpb) in
    let same = bblock-eq sb x y reach hx hy in
    elim (Bool-cases (bblock sb x == bblock sb y)) [
      | inl e ↦
          ap (λ c. bit (if c then unmarks else old)) e
          ∙ marked-unmark (blocks (bblock sb y)) (y % bpb) (x % bpb) (omega (arith, whole))
          ∙ ap (λ c. is_unset c && bit (blocks (bblock sb y))) {x = x % bpb == y % bpb} {y = x == y}
              (ground (arith, sym same ∙ e))
          ∙ ap (λ z. is_unset (x == y) && bit (blocks z)) {x = bblock sb y} {y = bblock sb x}
              (ground (arith, e))
      | inr e ↦
          ap (λ c. bit (if c then unmarks else old)) e
          ∙ ap (λ c. is_unset c && bit old) {x = false} {y = x == y} (ground (arith, sym same ∙ e))
    ]

pub bfree_used :
    (sb : SuperBlock) (blocks : Blocks) (y : ℕ)
    → in_use sb blocks y ≡ true
    → bfree sb y blocks ≡ some (release sb y blocks)
unfolding bfree
bfree_used sb blocks y h = ap (λ c. if c then some (release sb y blocks) else none) h

pub length-grab :
    (sb : SuperBlock) (blocks : Blocks) (y z : ℕ)
    → ((x : ℕ) → length (blocks (bblock sb x)) ≡ bsize)
    → length (grab sb y blocks (bblock sb z)) ≡ bsize
unfolding mark
length-grab sb blocks y z whole =
    let bytes = blocks (bblock sb y) in
    let marks = mark bytes (y % bpb) in
    let old = blocks (bblock sb z) in
    let zeros : List ℕ = replicate bsize 0 in
    elim (Bool-cases (bblock sb z == y)) [
      | inl e ↦
          ap
            (λ c. length (if c then zeros else (if bblock sb z == bblock sb y then marks else old)))
            e
          ∙ length-replicate {A = ℕ} bsize 0
      | inr e ↦
          ap
            (λ c. length (if c then zeros else (if bblock sb z == bblock sb y then marks else old)))
            e
          ∙ elim (Bool-cases (bblock sb z == bblock sb y)) [
            | inl h ↦ ap (λ c. length (if c then marks else old)) h ∙ length-set bytes _ _ ∙ whole y
            | inr h ↦ ap (λ c. length (if c then marks else old)) h ∙ whole z
          ]
    ]

bfree_unused :
    (sb : SuperBlock) (blocks : Blocks) (y : ℕ)
    → in_use sb blocks y ≡ false
    → bfree sb y blocks ≡ none
unfolding bfree
bfree_unused sb blocks y h = ap (λ c. if c then some (release sb y blocks) else none) h

abbrev Freed : SuperBlock → Blocks → ℕ × Blocks → Type 0
Freed sb blocks r =
    (blocks'' : Blocks) × (bfree sb r.0 r.1 ≡ some blocks'')
    × ((x : ℕ) → x < sb.size → in_use sb blocks'' x ≡ in_use sb blocks x)
    × (bfree sb r.0 blocks'' ≡ none)

grab-Freed :
    (sb : SuperBlock) (blocks : Blocks) (y : ℕ)
    → Laid sb blocks
    → y < sb.size
    → in_use sb blocks y ≡ false
    → Freed sb blocks (y, grab sb y blocks)
grab-Freed sb blocks y v inside free =
    let given = grab sb y blocks in
    let back = release sb y given in
    let whole = length-grab sb blocks y y v.whole in
    let before : (x : ℕ) → x < sb.size → in_use sb back x ≡ in_use sb blocks x = λ x h.
      release-in_use sb given y x v.reach whole inside h
      ∙ ap (λ c. is_unset (x == y) && c) (grab-in_use sb blocks v y x inside h free)
      ∙ elim (Bool-cases (x == y)) [
        | inl e ↦
            ap (λ c. is_unset c && (c || in_use sb blocks x)) e
            ∙ sym (ap (λ z. in_use sb blocks z) {x = x} {y = y} (ground (arith, e)) ∙ free)
        | inr e ↦ ap (λ c. is_unset c && (c || in_use sb blocks x)) e
      ] in
    (
      back,
      bfree_used sb given y (grab-in_use sb blocks v y y inside inside free ∙ ground arith),
      before,
      bfree_unused sb back y (before y inside ∙ free),
    )

-- A block that `balloc` has given, on a disk as mkfs makes it, can be freed, and then the blocks in use
-- are those from before; to free it once more is a panic.
bfree-balloc :
    (sb : SuperBlock) (blocks blocks' : Blocks) (y : ℕ)
    → Laid sb blocks
    → balloc sb blocks ≡ (y, blocks')
    → 0 < y
    → (blocks'' : Blocks) × (bfree sb y blocks' ≡ some blocks'')
      × ((x : ℕ) → x < sb.size → in_use sb blocks'' x ≡ in_use sb blocks x)
      × (bfree sb y blocks'' ≡ none)
bfree-balloc sb blocks blocks' y v e some_block =
    elim (balloc_from-Allocated sb blocks sb.size 0 v.small (omega arith) (omega arith)
      (λ x h s. absurd (omega arith))) [
        | inl (z, e', inside, free, first) ↦
            subst (λ r. Freed sb blocks r) (sym e' ∙ e) (grab-Freed sb blocks z v inside free)
        | inr (e', full) ↦ absurd (omega (arith, ap (λ r. r.0) (sym e' ∙ e), some_block))
      ]
