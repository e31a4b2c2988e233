-- ===== src/Fs/Content/Growth.antt =====
-- What `bmap` of ex5/bonus/fs.c does to the disk where it allocates.
use os_course.Prelude.{
  ℕ, ◌%◌, ◌<◌, ◌≡◌, ◌≢◌, ◌⊎◌, ◌∙◌, sym, ap, refl, true, false, List, arith, ◌==◌, if◌then◌else◌,
  get_or, get_or-set_here, length, replicate, Bool-cases, inl, inr,
}
use mathlib.Core.Path.{subst}
use os_course.Fs.{DiskInode, ndirect}
use os_course.Fs.Blocks.{SuperBlock, Blocks, bsize, bpb, bblock, mark, marked, write, balloc}
use os_course.Fs.Bitmap.{in_use, Laid}
use os_course.Fs.Balloc.{grab, not_bitmap, grab-in_use, balloc_from-Allocated}
use os_course.Fs.Bfree.{length-grab}
use os_course.Fs.Content.{with_addr, placed, own_block}

module _ (sb : SuperBlock) (on_disk : (x : ℕ) → x < sb.size → bblock sb x < sb.size) where
  -- From `blocks` to `blocks'` blocks were allocated, and otherwise only block `ind` was written.
  pub record Grows (ind : ℕ) (blocks blocks' : Blocks) : Type 0 where
    pub laid : Laid sb blocks'
    pub used : (x : ℕ) → x < sb.size → in_use sb blocks x ≡ true → in_use sb blocks' x ≡ true
    pub same :
        (z : ℕ)
        → z < sb.size
        → in_use sb blocks z ≡ true
        → ((x : ℕ) → x < sb.size → bblock sb x ≢ z)
        → z ≢ ind
        → blocks' z ≡ blocks z

  pub was_free :
      (ind : ℕ) (blocks blocks' : Blocks) (y : ℕ)
      → Grows ind blocks blocks'
      → y < sb.size
      → in_use sb blocks' y ≡ false
      → in_use sb blocks y ≡ false
  was_free ind blocks blocks' y g inside free = elim (Bool-cases (in_use sb blocks y)) [
    | inl e ↦ absurd (ground (arith, free, g.used y inside e))
    | inr e ↦ e
  ]

  -- A block that is neither taken nor one of the bitmap.
  grab-other : (blocks : Blocks) (y z : ℕ) → z ≢ y → bblock sb y ≢ z → grab sb y blocks z ≡ blocks z
  grab-other blocks y z h k =
      let marks = mark (blocks (bblock sb y)) (y % bpb) in
      let zeros : List ℕ = replicate bsize 0 in
      ap (λ c. if c then zeros else (if z == bblock sb y then marks else blocks z)) {x = z == y}
        {y = false} (ground (arith, h))
      ∙ ap (λ c. if c then marks else blocks z) {x = z == bblock sb y} {y = false}
          (ground (arith, λ (e : z ≡ bblock sb y). k (sym e)))

  grab-Grows :
      (ind : ℕ) (blocks blocks' : Blocks) (y : ℕ)
      → Grows ind blocks blocks'
      → y < sb.size
      → in_use sb blocks' y ≡ false
      → Grows ind blocks (grab sb y blocks')
  grab-Grows ind blocks blocks' y g inside free = record {
    laid = record {
      small = g.laid.small;
      reach = g.laid.reach;
      whole = λ x. length-grab sb blocks' y x g.laid.whole;
      kept = λ x h.
          grab-in_use sb blocks' g.laid y (bblock sb x) inside (on_disk x h) free
          ∙ ground (arith, g.laid.kept x h);
    };
    used = λ x h u. grab-in_use sb blocks' g.laid y x inside h free ∙ ground (arith, g.used x h u);
    same = λ z h u off other.
        grab-other blocks' y z
          (λ e. absurd (
            ground (
              arith,
              u,
              was_free ind blocks blocks' y g inside free,
              ap (λ b. in_use sb blocks b) e,
            )))
          (off y inside)
        ∙ g.same z h u off other;
  }

  pub written-in_use :
      (blocks : Blocks) (at x : ℕ) (bytes : List ℕ)
      → bblock sb x ≢ at
      → in_use sb (write at bytes blocks) x ≡ in_use sb blocks x
  written-in_use blocks at x bytes h =
      ap (λ c. marked (if c then bytes else blocks (bblock sb x)) (x % bpb)) {x = bblock sb x == at}
        {y = false} (ground (arith, h))

  -- A write to block `ind`, or to one that was free.
  pub write-Grows :
      (ind at : ℕ) (blocks blocks' : Blocks) (bytes : List ℕ)
      → Grows ind blocks blocks'
      → ((x : ℕ) → x < sb.size → bblock sb x ≢ at)
      → length bytes ≡ length (blocks' at)
      → ((z : ℕ) → in_use sb blocks z ≡ true → z ≢ ind → z ≢ at)
      → Grows ind blocks (write at bytes blocks')
  write-Grows ind at blocks blocks' bytes g off long fresh = record {
    laid = record {
      small = g.laid.small;
      reach = g.laid.reach;
      whole = λ x. elim (Bool-cases (bblock sb x == at)) [
        | inl e ↦
            ap (λ c. length (if c then bytes else blocks' (bblock sb x))) e
            ∙ long
            ∙ ap (λ z. length (blocks' z)) {x = at} {y = bblock sb x} (ground (arith, e))
            ∙ g.laid.whole x
        | inr e ↦ ap (λ c. length (if c then bytes else blocks' (bblock sb x))) e ∙ g.laid.whole x
      ];
      kept = λ x h.
          written-in_use blocks' at (bblock sb x) bytes (off (bblock sb x) (on_disk x h))
          ∙ g.laid.kept x h;
    };
    used = λ x h u. written-in_use blocks' at x bytes (off x h) ∙ g.used x h u;
    same = λ z h u clear other.
        ap (λ c. if c then bytes else blocks' z) {x = z == at} {y = false}
          (ground (arith, fresh z u other))
        ∙ g.same z h u clear other;
  }

  -- A block that was free has been taken and zeroed; it is none of the bitmap.
  pub record Took (before after : Blocks) (y : ℕ) : Type 0 where
    pub inside : y < sb.size
    pub free : in_use sb before y ≡ false
    pub now_used : in_use sb after y ≡ true
    pub off : (x : ℕ) → x < sb.size → bblock sb x ≢ y
    pub zeroed : after y ≡ replicate bsize 0

  abbrev pub Grown : ℕ → Blocks → Blocks → ℕ × Blocks → Type 0
  Grown ind blocks blocks' r = Grows ind blocks r.1 × (r.0 ≢ 0 → Took blocks' r.1 r.0)

  grab_here : (blocks : Blocks) (y : ℕ) → grab sb y blocks y ≡ replicate bsize 0
  grab_here blocks y =
      let marks = mark (blocks (bblock sb y)) (y % bpb) in
      let zeros : List ℕ = replicate bsize 0 in
      ap (λ c. if c then zeros else (if y == bblock sb y then marks else blocks y)) {x = y == y}
        {y = true} (ground arith)

  pub balloc-Grown :
      (ind : ℕ) (blocks blocks' : Blocks)
      → Grows ind blocks blocks'
      → Grown ind blocks blocks' (balloc sb blocks')
  balloc-Grown ind blocks blocks' g =
      elim (balloc_from-Allocated sb blocks' sb.size 0 g.laid.small (omega arith) (omega arith)
        (λ x h s. absurd (omega arith))) [
          | inl (y, e, inside, free, first) ↦
              subst (λ r. Grown ind blocks blocks' r) (sym e)
                (
                  grab-Grows ind blocks blocks' y g inside free,
                  λ h. record {
                    inside = inside;
                    free = free;
                    now_used = grab-in_use sb blocks' g.laid y y inside inside free ∙ ground arith;
                    off = λ x l k. ground (arith, not_bitmap sb blocks' g.laid x y l free, k);
                    zeroed = grab_here blocks' y;
                  },
                )
          | inr (e, full) ↦
              subst (λ r. Grown ind blocks blocks' r) (sym e) (g, λ h. absurd (h refl))
        ]

  -- Entry `i` of `addrs`, as it was or with a new block.
  abbrev pub Placed : ℕ → DiskInode → Blocks → ℕ × DiskInode × Blocks → Type 0
  Placed i c blocks r =
      Grows (get_or c.addrs ndirect 0) blocks r.2
      × (r.0 ≢ 0
          → (get_or r.1.addrs i 0 ≡ r.0)
            × (((get_or c.addrs i 0 ≡ r.0) × (r.2 ≡ blocks)) ⊎ Took blocks r.2 r.0))

  placed-Placed :
      (i : ℕ) (c : DiskInode) (blocks : Blocks) (r : ℕ × Blocks)
      → i < length c.addrs
      → Grown (get_or c.addrs ndirect 0) blocks blocks r
      → Placed i c blocks (placed i c r)
  placed-Placed i c blocks (addr, blocks') h (g, new) = elim (Bool-cases (addr == 0)) [
    | inl e ↦
        subst
          (λ t.
            Placed i c blocks (if t then (0, c, blocks') else (addr, with_addr i addr c, blocks')))
          (sym e) (g, λ n. absurd (n refl))
    | inr e ↦
        subst
          (λ t.
            Placed i c blocks (if t then (0, c, blocks') else (addr, with_addr i addr c, blocks')))
          (sym e) (g, λ n. (get_or-set_here c.addrs i addr 0 h, inr (new n)))
  ]

  pub own_block-Placed :
      (i : ℕ) (c : DiskInode) (blocks : Blocks)
      → i < length c.addrs
      → Laid sb blocks
      → Placed i c blocks (own_block sb i c blocks)
  own_block-Placed i c blocks h v =
      let addr = get_or c.addrs i 0 in
      let start : Grows (get_or c.addrs ndirect 0) blocks blocks = record {
        laid = v;
        used = λ x l u. u;
        same = λ z l u o n. refl;
      } in
      elim (Bool-cases (addr == 0)) [
        | inl e ↦
            subst
              (λ t.
                Placed i c blocks (if t then placed i c (balloc sb blocks) else (addr, c, blocks)))
              (sym e)
              (placed-Placed i c blocks (balloc sb blocks) h
                (balloc-Grown (get_or c.addrs ndirect 0) blocks blocks start))
        | inr e ↦
            subst
              (λ t.
                Placed i c blocks (if t then placed i c (balloc sb blocks) else (addr, c, blocks)))
              (sym e) (start, λ n. (refl, inl (refl, refl)))
      ]
