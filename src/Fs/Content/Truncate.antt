-- ===== src/Fs/Content/Truncate.antt =====
-- What `itrunc` of ex5/bonus/fs.c frees.
use os_course.Prelude.{
  ℕ, zero, suc, ◌+◌, ◌/◌, ◌^◌, ◌<◌, ◌≡◌, ◌≢◌, ◌∙◌, sym, ap, refl, true, false, Option, some, List,
  [], ◌∷◌, ◌++◌, arith, ◌==◌, ◌&&◌, is_unset, if◌then◌else◌, get_or, take, Bool-cases, Option-cases,
  inl, inr,
}
use mathlib.Core.List.{append-nil}
use os_course.Fs.{Inode, Disk, ndirect, iupdate}
use os_course.Fs.Blocks.{SuperBlock, Blocks, bpb, bblock, bfree}
use os_course.Fs.Bitmap.{in_use}
use os_course.Fs.Bfree.{release, bfree_used}
use os_course.Fs.Content.{
  nindirect, uint_at, and_then, free_direct, free_indirect, free_tree, zeros, truncated_inode,
  truncated, itrunc,
}
use os_course.Fs.Content.Owned.{
  member, owned, member-append, entries, tree_of, addresses, IsWhole, Freed, release-IsWhole,
  owned-release, release-kept, free_direct_lem,
}

module _ (sb : SuperBlock) (reach : sb.size / bpb + sb.bmapstart < 2 ^ 32) where
  bfree_last :
      (ind : ℕ) (v : Blocks) → (ind == 0) ≡ false → bfree sb ind v ≡ free_direct sb (ind ∷ []) v
  unfolding free_direct
  bfree_last ind v e =
      elim (Option-cases (bfree sb ind v)) [
        | inl h ↦ h ∙ sym (ap (λ t. and_then t (λ u. some u)) h)
        | inr (u, h) ↦ h ∙ sym (ap (λ t. and_then t (λ u. some u)) h)
      ]
      ∙ ap (λ c. and_then (if c then some v else bfree sb ind v) (λ u. some u)) {x = false}
          {y = ind == 0} (sym e)

  -- The loop over the entries frees what a list of them would, since no `bfree` writes to the indirect block.
  free_indirect_lem :
      (ind n j : ℕ) (v : Blocks)
      → (ind == 0) ≡ false
      → ((x : ℕ) → x < sb.size → bblock sb x ≢ ind)
      → IsWhole sb reach v
      → owned sb v (entries (v ind) n j ++ ind ∷ []) ≡ true
      → and_then (free_indirect sb ind n j v) (λ u. bfree sb ind u)
        ≡ free_direct sb (entries (v ind) n j ++ ind ∷ []) v
  unfolding free_direct free_indirect entries
  free_indirect_lem ind zero j v e off whole own = bfree_last ind v e
  free_indirect_lem ind (suc n) j v e off whole own =
      let a = uint_at (v ind) j in
      let list : List ℕ → List ℕ = λ bytes. entries bytes n (suc j) ++ ind ∷ [] in
      let left : Option Blocks → Option Blocks =
        λ t. and_then (and_then t (λ u. free_indirect sb ind n (suc j) u)) (λ u. bfree sb ind u) in
      let right : Option Blocks → Option Blocks =
        λ t. and_then t (λ u. free_direct sb (list (v ind)) u) in
      elim (Bool-cases (a == 0)) [
        | inl z ↦
            ap (λ c. left (if c then some v else bfree sb a v)) z
            ∙ free_indirect_lem ind n (suc j) v e off whole (ground (arith, own))
            ∙ sym (ap (λ c. right (if c then some v else bfree sb a v)) z)
        | inr z ↦
            let inside : a < sb.size = ground (arith, z, own) in
            let v' = release sb a v in
            let same : v' ind ≡ v ind = release-kept sb reach v a ind (off a inside) in
            let other : member a (list (v ind)) ≡ false = ground (arith, z, own) in
            let own' =
              owned-release sb reach v a (list (v ind)) whole inside other (ground (arith, own)) in
            let used = bfree_used sb v a (ground (arith, z, own)) in
            ap (λ c. left (if c then some v else bfree sb a v)) z
            ∙ ap left used
            ∙ free_indirect_lem ind n (suc j) v' e off (release-IsWhole sb reach v a whole)
                (ap (λ bytes. owned sb v' (list bytes)) same ∙ own')
            ∙ ap (λ bytes. free_direct sb (list bytes) v') same
            ∙ sym (ap right used)
            ∙ sym (ap (λ c. right (if c then some v else bfree sb a v)) z)
      ]

  free_tree_lem :
      (ind : ℕ) (v : Blocks)
      → (ind ≢ 0 → (x : ℕ) → x < sb.size → bblock sb x ≢ ind)
      → IsWhole sb reach v
      → owned sb v (tree_of ind v) ≡ true
      → (u : Blocks) × (free_tree sb ind v ≡ some u) × Freed sb reach (tree_of ind v) [] v u
  unfolding free_direct
  free_tree_lem ind v off whole own =
      let all = and_then (free_indirect sb ind nindirect 0 v) (λ u. bfree sb ind u) in
      let list = entries (v ind) nindirect 0 ++ ind ∷ [] in
      let (u, run, f) =
        free_direct_lem sb reach (tree_of ind v) [] v whole
          (ap (λ xs. owned sb v xs) (append-nil (tree_of ind v)) ∙ own) in
      (
        u,
        elim (Bool-cases (ind == 0)) [
          | inl e ↦
              ap (λ c. if c then some v else all) e
              ∙ sym (ap (λ c. free_direct sb (if c then [] else list) v) e)
              ∙ run
          | inr e ↦
              ap (λ c. if c then some v else all) e
              ∙ free_indirect_lem ind nindirect 0 v e (off (ground (arith, e))) whole
                  (ap (λ c. owned sb v (if c then [] else list)) (sym e) ∙ own)
              ∙ sym (ap (λ c. free_direct sb (if c then [] else list) v) e)
              ∙ run
        ],
        f,
      )

  tree_of-same :
      (ind : ℕ) (v blocks : Blocks)
      → (ind ≢ 0 → v ind ≡ blocks ind)
      → tree_of ind v ≡ tree_of ind blocks
  tree_of-same ind v blocks same = elim (Bool-cases (ind == 0)) [
    | inl e ↦
        ap (λ c. if c then [] else entries (v ind) nindirect 0 ++ ind ∷ []) e
        ∙ sym (ap (λ c. if c then [] else entries (blocks ind) nindirect 0 ++ ind ∷ []) e)
    | inr e ↦
        ap (λ bytes. if ind == 0 then [] else entries bytes nindirect 0 ++ ind ∷ [])
          (same (ground (arith, e)))
  ]

  get_or-zeros : (xs : List ℕ) (k : ℕ) → get_or (zeros xs) k 0 ≡ 0
  get_or-zeros [] k = refl
  get_or-zeros (x ∷ xs) zero = refl
  get_or-zeros (x ∷ xs) (suc k) = get_or-zeros xs k

  iupdate_here : (ip : Inode) (disk : Disk) → iupdate ip disk ip.dev ip.inum ≡ ip.content
  unfolding iupdate
  iupdate_here ip disk = ground arith

  -- `itrunc`, on a bitmap of whole blocks that block numbers reach, of a file of which no block is listed
  -- twice and each is on the disk and in use, its indirect block, if it has one, being none of the
  -- bitmap: it does not panic, the inode has size 0 and no addresses, in memory and on the disk, of the
  -- blocks from 1 on just the file's are no longer in use, those that the indirect block lists and that
  -- block among them, and no block but those of the bitmap is written.
  pub itrunc_lem :
      (ip : Inode) (disk : Disk) (blocks : Blocks)
      → IsWhole sb reach blocks
      → owned sb blocks (addresses ip.content blocks) ≡ true
      → (get_or ip.content.addrs ndirect 0 ≢ 0
          → (x : ℕ) → x < sb.size
          → bblock sb x ≢ get_or ip.content.addrs ndirect 0)
      → (ip' : Inode) × (disk' : Disk) × (blocks' : Blocks) × (itrunc sb ip disk blocks
          ≡ some (ip', disk', blocks'))
        × (ip'.content.size ≡ 0)
        × ((k : ℕ) → get_or ip'.content.addrs k 0 ≡ 0)
        × (disk' ip.dev ip.inum ≡ ip'.content)
        × ((x : ℕ)
            → 0 < x
            → x < sb.size
            → in_use sb blocks' x
              ≡ is_unset (member x (addresses ip.content blocks)) && in_use sb blocks x)
        × ((b : ℕ) → ((x : ℕ) → x < sb.size → bblock sb x ≢ b) → blocks' b ≡ blocks b)
  unfolding itrunc
  itrunc_lem ip disk blocks whole own off =
      let direct = take ndirect ip.content.addrs in
      let ind = get_or ip.content.addrs ndirect 0 in
      let next : Blocks → Option Blocks = λ u. free_tree sb ind u in
      let (v, run, f) = free_direct_lem sb reach direct (tree_of ind blocks) blocks whole own in
      let same = tree_of-same ind v blocks (λ h. f.kept ind (off h)) in
      let (u, run', g) = free_tree_lem ind v off f.whole (ap (λ xs. owned sb v xs) same ∙ f.rest) in
      let ip' = truncated_inode ip in
      (
        ip',
        iupdate ip' disk,
        u,
        ap (λ t. truncated ip disk (and_then t next)) run ∙ ap (λ t. truncated ip disk t) run',
        refl,
        get_or-zeros ip.content.addrs,
        iupdate_here ip' disk,
        λ x l h.
            g.cleared x l h
            ∙ ap (λ b. is_unset (member x (tree_of ind v)) && b) (f.cleared x l h)
            ∙ ap
                (λ xs. is_unset (member x xs) && (is_unset (member x direct) && in_use sb blocks x))
                same
            ∙ ground (arith, member-append x direct (tree_of ind blocks)),
        λ b h. g.kept b h ∙ f.kept b h,
      )
