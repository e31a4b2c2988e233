-- ===== src/Fs/Content/Allocation.antt =====
-- The two ways of `bmap` of ex5/bonus/fs.c to the address of a block.
use os_course.Prelude.{
  ℕ, ◌+◌, ◌-◌, ◌^◌, ◌<◌, ◌≤◌, ◌≡◌, ◌≢◌, ◌⊎◌, ◌∙◌, ap, true, false, none, some, arith, ltb,
  if◌then◌else◌, get_or, length, Bool-cases, inl, inr,
}
use os_course.Fs.{DiskInode, ndirect}
use os_course.Fs.Blocks.{SuperBlock, Blocks, bblock}
use os_course.Fs.Bitmap.{Laid}
use os_course.Fs.Content.{nindirect, maxfile, uint_at, own_block, in_indirect, bmap}
use os_course.Fs.Content.Growth.{Grows, Took, own_block-Placed}
use os_course.Fs.Content.Map.{addr_of}
use os_course.Fs.Content.Indirect.{IsData, in_indirect-Entered}

module _ (sb : SuperBlock) (on_disk : (x : ℕ) → x < sb.size → bblock sb x < sb.size)
    (small : sb.size ≤ 2 ^ 32) where
  module _ (c : DiskInode) (blocks : Blocks)
      (tree : get_or c.addrs ndirect 0 ≢ 0
        → IsData sb on_disk small blocks (get_or c.addrs ndirect 0)) where
    addr_of_direct :
        (c' : DiskInode) (v : Blocks) (bn : ℕ)
        → ltb bn ndirect ≡ true
        → addr_of c' v bn ≡ get_or c'.addrs bn 0
    addr_of_direct c' v bn h =
        ap
          (λ t.
            if t
            then get_or c'.addrs bn 0
            else uint_at (v (get_or c'.addrs ndirect 0)) (bn - ndirect))
          h

    addr_of_indirect :
        (c' : DiskInode) (v : Blocks) (bn : ℕ)
        → ltb bn ndirect ≡ false
        → addr_of c' v bn ≡ uint_at (v (get_or c'.addrs ndirect 0)) (bn - ndirect)
    addr_of_indirect c' v bn h =
        ap
          (λ t.
            if t
            then get_or c'.addrs bn 0
            else uint_at (v (get_or c'.addrs ndirect 0)) (bn - ndirect))
          h

    -- Block `bn` of the file is there, or cannot be had.
    pub record Reached (bn addr : ℕ) (c' : DiskInode) (blocks' : Blocks) : Type 0 where
      pub grows : Grows sb on_disk (get_or c.addrs ndirect 0) blocks blocks'
      pub found : addr ≢ 0 → addr_of c' blocks' bn ≡ addr
      pub origin : addr ≢ 0 → (addr_of c blocks bn ≡ addr) ⊎ Took sb on_disk blocks blocks' addr

    -- `bmap` of the number of a block that a file may have, on a disk as mkfs makes it whose blocks an `int`
    -- numbers and that has its bitmap among them, with a whole table of addresses, the file's indirect block, if it has
    -- one, being a whole block in use and none of the bitmap. It does not panic; the disk stays as mkfs
    -- makes it, blocks in use stay in use, and each of them that is none of the bitmap and not the indirect
    -- block keeps its bytes; an address it gives other than 0 is where the inode has that block afterwards,
    -- and either was so before, or is that of a block that was free and now is in use and full of zeros.
    pub bmap_lem :
        (bn : ℕ)
        → bn < maxfile
        → length c.addrs ≡ ndirect + 1
        → Laid sb blocks
        → (addr : ℕ) × (c' : DiskInode) × (blocks' : Blocks) × (bmap sb bn c blocks
            ≡ some (addr, c', blocks'))
          × Reached bn addr c' blocks'
    unfolding bmap
    bmap_lem bn small' long v =
        let direct = own_block sb bn c blocks in
        let root = own_block sb ndirect c blocks in
        let k = bn - ndirect in
        let indirect = in_indirect sb k root in
        let other = if ltb k nindirect then some indirect else none in
        elim (Bool-cases (ltb bn ndirect)) [
          | inl h ↦
              let (g, got) = own_block-Placed sb on_disk bn c blocks (ground (arith, h, long)) v in
              (
                direct.0,
                direct.1,
                direct.2,
                ap (λ t. if t then some direct else other) h,
                record {
                  grows = g;
                  found = λ m. addr_of_direct direct.1 direct.2 bn h ∙ (got m).0;
                  origin = λ m. elim ((got m).1) [
                    | inl (e, same) ↦ inl (addr_of_direct c blocks bn h ∙ e)
                    | inr t ↦ inr t
                  ];
                },
              )
          | inr h ↦
              let hk : k < nindirect = ground (arith, h, small') in
              let (g, got) =
                in_indirect-Entered sb on_disk small c blocks tree k root hk
                  (own_block-Placed sb on_disk ndirect c blocks (omega (arith, long)) v) in
              (
                indirect.0,
                indirect.1,
                indirect.2,
                ap (λ t. if t then some direct else other) h
                    ∙ ap (λ t. if t then some indirect else none) {x = ltb k nindirect} {y = true}
                        (ground (arith, hk)),
                record {
                  grows = g;
                  found = λ m. addr_of_indirect indirect.1 indirect.2 bn h ∙ (got m).0;
                  origin = λ m. elim ((got m).1) [
                    | inl (n, e) ↦ inl (addr_of_indirect c blocks bn h ∙ e)
                    | inr t ↦ inr t
                  ];
                },
              )
        ]
