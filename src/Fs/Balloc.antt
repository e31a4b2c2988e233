-- ===== src/Fs/Balloc.antt =====
-- What `balloc` of ex5/bonus/fs.c does to the set of blocks in use.
use os_course.Prelude.{
  ℕ, zero, suc, ◌+◌, ◌-◌, ◌*◌, ◌/◌, ◌%◌, ◌^◌, ◌<◌, ◌≤◌, ◌≡◌, ◌⊎◌, ◌∙◌, sym, ap, refl, true, false,
  Option, none, some, List, arith, ltb, ◌==◌, ◌||◌, if◌then◌else◌, replicate, Bool-cases, inl, inr,
}
use mathlib.Core.Path.{subst}
use os_course.Fs.Blocks.{
  SuperBlock, Blocks, bsize, bpb, bblock, int_bblock, marked, mark, write, bzero, find_free, taken,
  balloc_from, balloc,
}
use os_course.Fs.Bitmap.{marked-mark, FoundFree, find_free-FoundFree, in_use, Laid, bblock-eq}

-- The disk once block `y` is taken.
abbrev pub grab : SuperBlock → ℕ → Blocks → Blocks
grab sb y blocks = bzero y (write (bblock sb y) (mark (blocks (bblock sb y)) (y % bpb)) blocks)

module _ (sb : SuperBlock) (blocks : Blocks) (v : Laid sb blocks) where
  pub not_bitmap : (x y : ℕ) → x < sb.size → in_use sb blocks y ≡ false → (bblock sb x == y) ≡ false
  not_bitmap x y h free = elim (Bool-cases (bblock sb x == y)) [
    | inr e ↦ e
    | inl e ↦ absurd (
        ground (
          arith,
          sym (v.kept x h)
              ∙ ap (λ z. in_use sb blocks z) {x = bblock sb x} {y = y} (ground (arith, e))
              ∙ free,
        ))
  ]

  pub grab-in_use :
      (y x : ℕ)
      → y < sb.size
      → x < sb.size
      → in_use sb blocks y ≡ false
      → in_use sb (grab sb y blocks) x ≡ (x == y) || in_use sb blocks x
  grab-in_use y x hy hx free =
      let marks = mark (blocks (bblock sb y)) (y % bpb) in
      let old = blocks (bblock sb x) in
      let zeros : List ℕ = replicate bsize 0 in
      let bit = λ (bytes : List ℕ). marked bytes (x % bpb) in
      let same = bblock-eq sb x y v.reach hx hy in
      ap (λ c. bit (if c then zeros else (if bblock sb x == bblock sb y then marks else old)))
        (not_bitmap x y hx free)
      ∙ elim (Bool-cases (bblock sb x == bblock sb y)) [
        | inl e ↦
            ap (λ c. bit (if c then marks else old)) e
            ∙ marked-mark (blocks (bblock sb y)) (y % bpb) (x % bpb) (omega (arith, v.whole y))
            ∙ ap (λ c. c || bit (blocks (bblock sb y))) {x = x % bpb == y % bpb} {y = x == y}
                (ground (arith, sym same ∙ e))
            ∙ ap (λ z. (x == y) || bit (blocks z)) {x = bblock sb y} {y = bblock sb x}
                (ground (arith, e))
        | inr e ↦
            ap (λ c. bit (if c then marks else old)) e
            ∙ ap (λ c. c || bit old) {x = false} {y = x == y} (ground (arith, sym same ∙ e))
      ]

-- The first block that is free, or none.
abbrev pub Allocated : SuperBlock → Blocks → ℕ × Blocks → Type 0
Allocated sb blocks r =
    ((y : ℕ) × (r ≡ (y, grab sb y blocks))
      × (y < sb.size)
      × (in_use sb blocks y ≡ false)
      × ((x : ℕ) → x < y → in_use sb blocks x ≡ true))
    ⊎ ((r ≡ (0, blocks)) × ((x : ℕ) → x < sb.size → in_use sb blocks x ≡ true))

module _ (sb : SuperBlock) (blocks : Blocks) where
  int_bblock-small : (b : ℕ) → b < 2 ^ 31 → int_bblock sb b ≡ bblock sb b
  int_bblock-small b h =
      ap (λ c. if c then bblock sb b else (sb.bmapstart + 2 ^ 32 - (2 ^ 32 - b) / bpb) % 2 ^ 32)
        {x = ltb b (2 ^ 31)} {y = true} (ground (arith, h))

  -- In the stretch of the bitmap that starts with block `b`.
  in_use-stretch :
      (b x : ℕ)
      → b % bpb ≡ 0
      → b ≤ x
      → x < b + bpb
      → in_use sb blocks x ≡ marked (blocks (bblock sb b)) (x - b)
  in_use-stretch b x whole low up =
      ap (λ q. marked (blocks ((q + sb.bmapstart) % 2 ^ 32)) (x % bpb)) {x = x / bpb} {y = b / bpb}
        (omega arith)
      ∙ ap (λ i. marked (blocks (bblock sb b)) i) {x = x % bpb} {y = x - b} (omega arith)

  used_up_to :
      (b n : ℕ)
      → b % bpb ≡ 0
      → n ≤ bpb
      → ((x : ℕ) → x < b → in_use sb blocks x ≡ true)
      → ((i : ℕ) → i < n → b + i < sb.size → marked (blocks (bblock sb b)) i ≡ true)
      → (x : ℕ) → x < b + n
      → x < sb.size
      → in_use sb blocks x ≡ true
  used_up_to b n whole few before used x up inside = elim (Bool-cases (ltb x b)) [
    | inl e ↦ before x (ground (arith, e))
    | inr e ↦
        in_use-stretch b x whole (ground (arith, e)) (omega arith)
        ∙ used (x - b) (ground (arith, e, up)) (ground (arith, e, inside))
  ]

  taken-Allocated :
      (b : ℕ) (rest : ℕ × Blocks) (o : Option ℕ)
      → int_bblock sb b ≡ bblock sb b
      → b % bpb ≡ 0
      → ((x : ℕ) → x < b → in_use sb blocks x ≡ true)
      → FoundFree (blocks (bblock sb b)) sb.size b bpb 0 o
      → (((x : ℕ) → x < b + bpb → x < sb.size → in_use sb blocks x ≡ true)
          → Allocated sb blocks rest)
      → Allocated sb blocks (taken sb b blocks rest o)
  taken-Allocated b rest none place whole before found go_on =
      go_on (used_up_to b bpb whole (omega arith) before (λ i h s. found i (omega arith) h s))
  taken-Allocated b rest (some bi) place whole before (low, up, inside, free, used) go_on = inl (
    b + bi,
    ap (λ q. (b + bi, bzero (b + bi) (write q (mark (blocks q) bi) blocks))) place
        ∙ ap (λ q. (b + bi, bzero (b + bi) (write q (mark (blocks q) bi) blocks))) {x = bblock sb b}
            {y = bblock sb (b + bi)}
            (ap (λ d. (d + sb.bmapstart) % 2 ^ 32) {x = b / bpb} {y = (b + bi) / bpb} (omega arith))
        ∙ ap
            (λ i. (
              b + bi,
              bzero (b + bi)
                  (write (bblock sb (b + bi)) (mark (blocks (bblock sb (b + bi))) i) blocks),
            ))
            {x = bi} {y = (b + bi) % bpb} (omega arith),
    inside,
    in_use-stretch b (b + bi) whole (omega arith) (omega arith)
        ∙ ap (λ i. marked (blocks (bblock sb b)) i) {x = b + bi - b} {y = bi} (omega arith)
        ∙ free,
    λ x h.
        used_up_to b bi whole (omega arith) before (λ i l s. used i (omega arith) l) x h
          (omega arith),
  )

  pub balloc_from-Allocated :
      (fuel b : ℕ)
      → sb.size + bpb ≤ 2 ^ 31
      → b % bpb ≡ 0
      → sb.size ≤ b + fuel * bpb
      → ((x : ℕ) → x < b → x < sb.size → in_use sb blocks x ≡ true)
      → Allocated sb blocks (balloc_from sb fuel b blocks)
  unfolding balloc_from
  balloc_from-Allocated zero b small whole enough before =
      inr (refl, λ x h. before x (omega arith) h)
  balloc_from-Allocated (suc fuel) b small whole enough before =
      let rest = balloc_from sb fuel ((b + bpb) % 2 ^ 32) blocks in
      let found = find_free (blocks (int_bblock sb b)) sb.size b bpb 0 in
      elim (Bool-cases (ltb b sb.size)) [
        | inl e ↦
            subst
              (λ c. Allocated sb blocks (if c then taken sb b blocks rest found else (0, blocks)))
              (sym e)
              (let lt : b < sb.size = ground (arith, e) in
                let place = int_bblock-small b (omega (arith, lt, small)) in
                taken-Allocated b rest found place whole (λ x h. before x h (ground (arith, e, h)))
                  (subst (λ q. FoundFree (blocks q) sb.size b bpb 0 found) place
                    (find_free-FoundFree (blocks (int_bblock sb b)) sb.size b bpb 0))
                  (λ used.
                    subst (λ z. Allocated sb blocks (balloc_from sb fuel z blocks)) {x = b + bpb}
                      {y = (b + bpb) % 2 ^ 32} (omega (arith, lt, small))
                      (balloc_from-Allocated fuel (b + bpb) small (omega arith) (omega arith)
                        used)))
        | inr e ↦
            subst
              (λ c. Allocated sb blocks (if c then taken sb b blocks rest found else (0, blocks)))
              (sym e) (inr (refl, λ x h. before x (ground (arith, e, h)) h))
      ]

  -- On a disk as mkfs makes it, whose blocks an `int` numbers, `balloc` either takes the first block that
  -- is free, which then is in use and full of zeros, while every other block of the disk is in use just
  -- if it was; or it returns 0 and changes nothing, and there every block is in use.
  pub balloc_lem :
      Laid sb blocks
      → ((y : ℕ) × (blocks' : Blocks) × (balloc sb blocks ≡ (y, blocks'))
          × (y < sb.size)
          × (in_use sb blocks y ≡ false)
          × ((x : ℕ) → x < y → in_use sb blocks x ≡ true)
          × (blocks' y ≡ replicate bsize 0)
          × ((x : ℕ) → x < sb.size → in_use sb blocks' x ≡ (x == y) || in_use sb blocks x))
        ⊎ ((balloc sb blocks ≡ (0, blocks)) × ((x : ℕ) → x < sb.size → in_use sb blocks x ≡ true))
  balloc_lem v =
      elim (balloc_from-Allocated sb.size 0 v.small (omega arith) (omega arith)
        (λ x h s. absurd (omega arith))) [
          | inl (y, e, inside, free, first) ↦ inl (
            y,
            grab sb y blocks,
            e,
            inside,
            free,
            first,
            ap
                (λ c.
                  if c
                  then replicate bsize 0
                  else write (bblock sb y) (mark (blocks (bblock sb y)) (y % bpb)) blocks y)
                {x = y == y} {y = true} (ground arith),
            λ x h. grab-in_use sb blocks v y x inside h free,
          )
          | inr full ↦ inr full
        ]
