-- ===== src/Fs/Content/Owned.antt =====
-- Lists of blocks in use, and what the first loop of `itrunc` of ex5/bonus/fs.c does with one.
use os_course.Prelude.{
  ℕ, zero, suc, ◌+◌, ◌/◌, ◌%◌, ◌^◌, ◌<◌, ◌≡◌, ◌≢◌, ◌∙◌, sym, ap, refl, Bool, true, false, some,
  List, [], ◌∷◌, ◌++◌, arith, ltb, ◌==◌, ◌&&◌, ◌||◌, is_unset, if◌then◌else◌, get_or, take, length,
  length-set, Bool-cases, inl, inr,
}
use os_course.Fs.{DiskInode, ndirect}
use os_course.Fs.Blocks.{SuperBlock, Blocks, bsize, bpb, bblock, unmark, bfree}
use os_course.Fs.Bitmap.{in_use}
use os_course.Fs.Bfree.{release, release-in_use, bfree_used}
use os_course.Fs.Content.{nindirect, uint_at, and_then, free_direct}

abbrev pub member : ℕ → List ℕ → Bool
member x [] = false
member x (a ∷ xs) = x == a || member x xs

-- No block stands twice in the list, and each is in use; a 0 is no block.
abbrev pub owned : SuperBlock → Blocks → List ℕ → Bool
owned sb blocks [] = true
owned sb blocks (a ∷ xs) =
    (a == 0 || (ltb a sb.size && in_use sb blocks a && is_unset (member a xs)))
    && owned sb blocks xs

pub member-append : (x : ℕ) (xs ys : List ℕ) → member x (xs ++ ys) ≡ member x xs || member x ys
member-append x [] ys = refl
member-append x (a ∷ xs) ys = ground (arith, member-append x xs ys)

-- The entries of an indirect block from `j` on.
unfoldable pub entries : List ℕ → ℕ → ℕ → List ℕ
entries a zero j = []
entries a (suc n) j = uint_at a j ∷ entries a n (suc j)

abbrev pub tree_of : ℕ → Blocks → List ℕ
tree_of ind v = if ind == 0 then [] else entries (v ind) nindirect 0 ++ ind ∷ []

-- The addresses of the blocks of a file, those of its indirect block and that block's own among them.
abbrev pub addresses : DiskInode → Blocks → List ℕ
addresses c blocks = take ndirect c.addrs ++ tree_of (get_or c.addrs ndirect 0) blocks

module _ (sb : SuperBlock) (reach : sb.size / bpb + sb.bmapstart < 2 ^ 32) where
  abbrev pub IsWhole : Blocks → Type 0
  IsWhole blocks = (x : ℕ) → length (blocks (bblock sb x)) ≡ bsize

  pub release-IsWhole : (blocks : Blocks) (y : ℕ) → IsWhole blocks → IsWhole (release sb y blocks)
  unfolding unmark
  release-IsWhole blocks y whole x = elim (Bool-cases (bblock sb x == bblock sb y)) [
    | inl e ↦
        ap
          (λ c.
            length (if c then unmark (blocks (bblock sb y)) (y % bpb) else blocks (bblock sb x)))
          e
        ∙ length-set (blocks (bblock sb y)) _ _
        ∙ whole y
    | inr e ↦
        ap
          (λ c.
            length (if c then unmark (blocks (bblock sb y)) (y % bpb) else blocks (bblock sb x)))
          e
        ∙ whole x
  ]

  pub owned-release :
      (blocks : Blocks) (a : ℕ) (xs : List ℕ)
      → IsWhole blocks
      → a < sb.size
      → member a xs ≡ false
      → owned sb blocks xs ≡ true
      → owned sb (release sb a blocks) xs ≡ true
  owned-release blocks a [] whole inside other own = refl
  owned-release blocks a (b ∷ xs) whole inside other own =
      let rest =
        owned-release blocks a xs whole inside (ground (arith, other)) (ground (arith, own)) in
      elim (Bool-cases (b == 0)) [
        | inl e ↦ ground (arith, e, rest)
        | inr e ↦
            let lt : b < sb.size = ground (arith, e, own) in
            ground
              (arith, e, own, other, rest, release-in_use sb blocks a b reach (whole a) inside lt)
      ]

  -- `v` is the disk after the blocks of `xs` were freed, with those of `ys` still to come.
  pub record Freed (xs ys : List ℕ) (blocks v : Blocks) : Type 0 where
    pub whole : IsWhole v
    pub rest : owned sb v ys ≡ true
    pub cleared :
        (x : ℕ) → 0 < x → x < sb.size → in_use sb v x ≡ is_unset (member x xs) && in_use sb blocks x
    pub kept : (b : ℕ) → ((x : ℕ) → x < sb.size → bblock sb x ≢ b) → v b ≡ blocks b

  pub release-kept :
      (blocks : Blocks) (a b : ℕ) → bblock sb a ≢ b → release sb a blocks b ≡ blocks b
  release-kept blocks a b h =
      ap (λ c. if c then unmark (blocks (bblock sb a)) (a % bpb) else blocks b)
        {x = b == bblock sb a} {y = false} (ground (arith, λ (e : b ≡ bblock sb a). h (sym e)))

  pub free_direct_lem :
      (xs ys : List ℕ) (blocks : Blocks)
      → IsWhole blocks
      → owned sb blocks (xs ++ ys) ≡ true
      → (v : Blocks) × (free_direct sb xs blocks ≡ some v) × Freed xs ys blocks v
  unfolding free_direct
  free_direct_lem [] ys blocks whole own = (
    blocks,
    refl,
    record { whole = whole; rest = own; cleared = λ x l h. refl; kept = λ b h. refl },
  )
  free_direct_lem (a ∷ xs) ys blocks whole own = elim (Bool-cases (a == 0)) [
    | inl e ↦
        let (v, run, f) = free_direct_lem xs ys blocks whole (ground (arith, own)) in
        (
          v,
          ap
                (λ c.
                  and_then (if c then some blocks else bfree sb a blocks)
                    (λ u. free_direct sb xs u))
                e
              ∙ run,
          record {
            whole = f.whole;
            rest = f.rest;
            cleared = λ x l h. ground (arith, e, l, f.cleared x l h);
            kept = f.kept;
          },
        )
    | inr e ↦
        let inside : a < sb.size = ground (arith, e, own) in
        let blocks' = release sb a blocks in
        let used = bfree_used sb blocks a (ground (arith, e, own)) in
        let other : member a (xs ++ ys) ≡ false = ground (arith, e, own) in
        let (v, run, f) =
          free_direct_lem xs ys blocks' (release-IsWhole blocks a whole)
            (owned-release blocks a (xs ++ ys) whole inside other (ground (arith, own))) in
        (
          v,
          ap
                (λ c.
                  and_then (if c then some blocks else bfree sb a blocks)
                    (λ u. free_direct sb xs u))
                e
              ∙ ap (λ t. and_then t (λ u. free_direct sb xs u)) used
              ∙ run,
          record {
            whole = f.whole;
            rest = f.rest;
            cleared = λ x l h.
                ground (
                  arith,
                  e,
                  f.cleared x l h,
                  release-in_use sb blocks a x reach (whole a) inside h,
                );
            kept = λ b h. f.kept b h ∙ release-kept blocks a b (h a inside);
          },
        )
  ]
