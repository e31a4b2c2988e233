-- ===== src/Fs/Content/Indirect.antt =====
-- The entries of a file's indirect block that `bmap` of ex5/bonus/fs.c reads or sets.
use os_course.Prelude.{
  ℕ, ◌^◌, ◌<◌, ◌≤◌, ◌≡◌, ◌≢◌, ◌⊎◌, ◌∙◌, sym, ap, refl, true, false, arith, ◌==◌, if◌then◌else◌,
  get_or, length, length-replicate, Bool-cases, inl, inr,
}
use mathlib.Core.Path.{subst}
use os_course.Fs.{DiskInode, ndirect}
use os_course.Fs.Blocks.{SuperBlock, Blocks, bsize, bblock, write, balloc}
use os_course.Fs.Bitmap.{in_use}
use os_course.Fs.Content.{nindirect, uint_at, with_uint, placed_in, in_indirect}
use os_course.Fs.Content.Entry.{length-with_uint, uint_at-with_uint, uint_at-replicate}
use os_course.Fs.Content.Growth.{
  Grows, Took, Grown, Placed, was_free, written-in_use, write-Grows, balloc-Grown,
}

module _ (sb : SuperBlock) (on_disk : (x : ℕ) → x < sb.size → bblock sb x < sb.size)
    (small : sb.size ≤ 2 ^ 32) where
  -- A block in use that is none of the bitmap.
  pub record IsData (blocks : Blocks) (y : ℕ) : Type 0 where
    pub inside : y < sb.size
    pub used : in_use sb blocks y ≡ true
    pub off : (x : ℕ) → x < sb.size → bblock sb x ≢ y
    pub whole : length (blocks y) ≡ bsize

  module _ (c : DiskInode) (blocks : Blocks)
      (tree : get_or c.addrs ndirect 0 ≢ 0 → IsData blocks (get_or c.addrs ndirect 0)) where
    abbrev pub ind : ℕ
    ind = get_or c.addrs ndirect 0

    -- The indirect block, old or new, with entry `k` of it.
    record Rooted (k at : ℕ) (blocks' : Blocks) : Type 0 where
      data_block : IsData blocks' at
      fresh : (z : ℕ) → in_use sb blocks z ≡ true → z ≢ ind → z ≢ at
      entry :
          uint_at (blocks' at) k ≢ 0 → (ind ≢ 0) × (uint_at (blocks ind) k ≡ uint_at (blocks' at) k)

    own-Rooted :
        (k at : ℕ) (blocks' : Blocks)
        → at ≢ 0
        → ((ind ≡ at) × (blocks' ≡ blocks)) ⊎ Took sb on_disk blocks blocks' at
        → Rooted k at blocks'
    own-Rooted k at blocks' n (inl (e, same)) =
        let i_n : ind ≢ 0 = λ z. n (sym e ∙ z) in
        record {
          data_block =
              subst (λ b. IsData b at) (sym same) (subst (λ i. IsData blocks i) e (tree i_n));
          fresh = λ z u other h. other (h ∙ sym e);
          entry = λ h. (
            i_n,
            ap (λ i. uint_at (blocks i) k) e ∙ ap (λ (b : Blocks). uint_at (b at) k) (sym same),
          );
        }
    own-Rooted k at blocks' n (inr t) = record {
      data_block = record {
        inside = t.inside;
        used = t.now_used;
        off = t.off;
        whole = ap length t.zeroed ∙ length-replicate {A = ℕ} bsize 0;
      };
      fresh = λ z u other h. absurd (ground (arith, u, t.free, ap (λ b. in_use sb blocks b) h));
      entry = λ h. absurd (h (ap (λ bytes. uint_at bytes k) t.zeroed ∙ uint_at-replicate bsize k));
    }

    -- Entry `k` of the indirect block, as it was or with a new block.
    abbrev pub Entered : ℕ → ℕ × DiskInode × Blocks → Type 0
    Entered k r =
        Grows sb on_disk ind blocks r.2
        × (r.0 ≢ 0
            → (uint_at (r.2 (get_or r.1.addrs ndirect 0)) k ≡ r.0)
              × (((ind ≢ 0) × (uint_at (blocks ind) k ≡ r.0)) ⊎ Took sb on_disk blocks r.2 r.0))

    with_uint-Entered :
        (k at : ℕ) (c' : DiskInode) (before after : Blocks) (y : ℕ)
        → k < nindirect
        → at ≢ 0
        → get_or c'.addrs ndirect 0 ≡ at
        → Rooted k at before
        → Grows sb on_disk ind blocks before
        → Grows sb on_disk ind blocks after
        → Grows sb on_disk 0 before after
        → Took sb on_disk before after y
        → Entered k (y, c', write at (with_uint (after at) k y) after)
    with_uint-Entered k at c' before after y hk n e r g0 g g' t =
        let bytes = with_uint (after at) k y in
        let d = r.data_block in
        let kept = g'.same at d.inside d.used d.off n in
        let long = length-with_uint (after at) k y in
        let apart : (y == at) ≡ false = elim (Bool-cases (y == at)) [
          | inl h ↦ absurd (
              ground (
                arith,
                t.free,
                d.used,
                ap (λ b. in_use sb before b) {x = y} {y = at} (ground (arith, h)),
              ))
          | inr h ↦ h
        ] in
        (
          write-Grows sb on_disk ind at blocks after bytes g d.off long r.fresh,
          λ m. (
            ap (λ i. uint_at (write at bytes after i) k) e
                ∙ ap (λ b. uint_at (if b then bytes else after at) k) {x = at == at} {y = true}
                    (ground arith)
                ∙ uint_at-with_uint (after at) k y (omega (arith, hk, ap length kept, d.whole))
                    (omega (arith, t.inside, small)),
            inr (record {
              inside = t.inside;
              free = was_free sb on_disk ind blocks before y g0 t.inside t.free;
              now_used = written-in_use sb on_disk after at y bytes (d.off y t.inside) ∙ t.now_used;
              off = t.off;
              zeroed = ap (λ b. if b then bytes else after y) apart ∙ t.zeroed;
            }),
          ),
        )

    placed_in-Entered :
        (k at : ℕ) (c' : DiskInode) (before : Blocks) (r : ℕ × Blocks)
        → k < nindirect
        → at ≢ 0
        → get_or c'.addrs ndirect 0 ≡ at
        → Rooted k at before
        → Grows sb on_disk ind blocks before
        → Grown sb on_disk ind blocks before r
        → Grown sb on_disk 0 before before r
        → Entered k (placed_in at k c' r)
    placed_in-Entered k at c' before (y, after) hk n e root g0 (g, new) (g', new') =
        elim (Bool-cases (y == 0)) [
          | inl h ↦
              subst
                (λ t. Entered k (
                  if t then (0, c', after) else (y, c', write at (with_uint (after at) k y) after)))
                (sym h) (g, λ m. absurd (m refl))
          | inr h ↦
              subst
                (λ t. Entered k (
                  if t then (0, c', after) else (y, c', write at (with_uint (after at) k y) after)))
                (sym h)
                (with_uint-Entered k at c' before after y hk n e root g0 g g'
                  (new (ground (arith, h))))
        ]

    pub in_indirect-Entered :
        (k : ℕ) (r : ℕ × DiskInode × Blocks)
        → k < nindirect
        → Placed sb on_disk ndirect c blocks r
        → Entered k (in_indirect sb k r)
    in_indirect-Entered k (at, c', before) hk (g, got) =
        let a = uint_at (before at) k in
        let new = placed_in at k c' (balloc sb before) in
        let start : Grows sb on_disk 0 before before = record {
          laid = g.laid;
          used = λ x l u. u;
          same = λ z l u o n. refl;
        } in
        elim (Bool-cases (at == 0)) [
          | inl h ↦
              subst
                (λ t.
                  Entered k
                    (if t then (0, c', before) else (if a == 0 then new else (a, c', before))))
                (sym h) (g, λ m. absurd (m refl))
          | inr h ↦
              let n : at ≢ 0 = ground (arith, h) in
              let root = own-Rooted k at before n (got n).1 in
              subst
                (λ t.
                  Entered k
                    (if t then (0, c', before) else (if a == 0 then new else (a, c', before))))
                (sym h)
                (elim (Bool-cases (a == 0)) [
                  | inl z ↦
                      subst (λ t. Entered k (if t then new else (a, c', before))) (sym z)
                        (placed_in-Entered k at c' before (balloc sb before) hk n (got n).0 root g
                          (balloc-Grown sb on_disk ind blocks before g)
                          (balloc-Grown sb on_disk 0 before before start))
                  | inr z ↦
                      subst (λ t. Entered k (if t then new else (a, c', before))) (sym z)
                        (g, λ m. (ap (λ i. uint_at (before i) k) (got n).0, inl (root.entry m)))
                ])
        ]
