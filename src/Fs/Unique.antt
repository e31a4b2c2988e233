-- ===== src/Fs/Unique.antt =====
-- The table of inodes of ex5/bonus/fs.c holds an inode once.
use os_course.Prelude.{
  ℕ, zero, suc, ◌+◌, ◌<◌, ◌≡◌, ◌∙◌, sym, ap, true, false, Option, none, some, List, [], ◌∷◌, arith,
  ◌==◌, if◌then◌else◌, Bool-cases, inl, inr, length, set, get_or-set, length-set,
}
use mathlib.Core.Option.{some-injective}
use mathlib.Core.Path.{subst}
use os_course.Fs.{
  Inode, inode, no_inode, is_used, matches, remember, Found, hit, recycle, full, search, referenced,
  recycled, take_entry, iget,
}

-- What an outcome of the search from entry `k` on says, with `empty` remembered before.
abbrev Verdict : ℕ → ℕ → ℕ → Option ℕ → List Inode → Found → Type 0
Verdict dev inum k empty t (hit j) =
    (i : ℕ) × (j ≡ k + i) × (i < length t) × (matches dev inum (inode t i) ≡ true)
Verdict dev inum k empty t (recycle j) =
    (i : ℕ) → i < length t → matches dev inum (inode t i) ≡ false
Verdict dev inum k empty t full = (i : ℕ) → i < length t → matches dev inum (inode t i) ≡ false

later :
    (dev inum k : ℕ) (empty empty' : Option ℕ) (ip : Inode) (t : List Inode) (o : Found)
    → matches dev inum ip ≡ false
    → Verdict dev inum (suc k) empty' t o
    → Verdict dev inum k empty (ip ∷ t) o
later dev inum k empty empty' ip t (hit j) miss (i, e, lt, m) =
    (suc i, omega (arith, e), omega (arith, lt), m)
later dev inum k empty empty' ip t (recycle j) miss all = here
  where
    here : (i : ℕ) → i < suc (length t) → matches dev inum (inode (ip ∷ t) i) ≡ false
    here zero lt = miss
    here (suc i) lt = all i (omega arith)
later dev inum k empty empty' ip t full miss all = here
  where
    here : (i : ℕ) → i < suc (length t) → matches dev inum (inode (ip ∷ t) i) ≡ false
    here zero lt = miss
    here (suc i) lt = all i (omega arith)

search-Verdict :
    (dev inum k : ℕ) (empty : Option ℕ) (t : List Inode)
    → Verdict dev inum k empty t (search dev inum k empty t)
unfolding search
search-Verdict dev inum k none [] = λ i lt. absurd (omega arith)
search-Verdict dev inum k (some e) [] = λ i lt. absurd (omega arith)
search-Verdict dev inum k empty (ip ∷ t) =
    let rest = search dev inum (suc k) (remember empty k ip) t in
    elim (Bool-cases (matches dev inum ip)) [
      | inl e ↦
          subst (λ o. Verdict dev inum k empty (ip ∷ t) o)
            (ap (λ b. if b then hit k else rest) (sym e)) (0, omega arith, omega arith, e)
      | inr e ↦
          subst (λ o. Verdict dev inum k empty (ip ∷ t) o)
            (ap (λ b. if b then hit k else rest) (sym e))
            (later dev inum k empty (remember empty k ip) ip t rest e
              (search-Verdict dev inum (suc k) (remember empty k ip) t))
    ]

-- No two referenced entries are for the same device and number.
abbrev pub Unique : List Inode → Type 0
Unique t =
    (i j : ℕ)
    → i < length t
    → j < length t
    → is_used (inode t i) ≡ true
    → is_used (inode t j) ≡ true
    → (inode t i).dev ≡ (inode t j).dev
    → (inode t i).inum ≡ (inode t j).inum
    → i ≡ j

-- A used entry of `t'` is a used entry of `t` for the same inode.
Unique-kept :
    (t t' : List Inode)
    → length t' ≡ length t
    → ((i : ℕ)
        → i < length t
        → is_used (inode t' i) ≡ true
        → (is_used (inode t i) ≡ true)
          × ((inode t' i).dev ≡ (inode t i).dev)
          × ((inode t' i).inum ≡ (inode t i).inum))
    → Unique t
    → Unique t'
Unique-kept t t' e h u i j li lj ui uj d n =
    let a = h i (omega (arith, li, e)) ui in
    let b = h j (omega (arith, lj, e)) uj in
    u i j (omega (arith, li, e)) (omega (arith, lj, e)) a.0 b.0 (sym a.1 ∙ d ∙ b.1)
      (sym a.2 ∙ n ∙ b.2)

matches-parts :
    (dev inum : ℕ) (ip : Inode)
    → matches dev inum ip ≡ true
    → (is_used ip ≡ true) × (ip.dev ≡ dev) × (ip.inum ≡ inum)
matches-parts dev inum ip h = ground arith

inode-set_here :
    (t : List Inode) (j i : ℕ) (v : Inode)
    → (j == i) ≡ true
    → i < length t
    → inode (set t j v) i ≡ v
inode-set_here t j i v e lt = ground (arith, get_or-set t j v i no_inode)

inode-set_other :
    (t : List Inode) (j i : ℕ) (v : Inode) → (j == i) ≡ false → inode (set t j v) i ≡ inode t i
inode-set_other t j i v e = ground (arith, get_or-set t j v i no_inode)

hit-Unique :
    (dev inum j : ℕ) (t : List Inode)
    → matches dev inum (inode t j) ≡ true
    → Unique t
    → Unique (set t j (referenced (inode t j)))
hit-Unique dev inum j t m u =
    Unique-kept t (set t j (referenced (inode t j))) (length-set t j (referenced (inode t j)))
      (λ i lt used. elim (Bool-cases (j == i)) [
        | inl e ↦
            (let at = inode-set_here t j i (referenced (inode t j)) e lt in
              let parts = matches-parts dev inum (inode t j) m in
              let same : inode t j ≡ inode t i = ap (λ x. inode t x) (ground (arith, e)) in
              (
                ap (λ x. is_used x) (sym same) ∙ parts.0,
                ap (λ x. x.dev) (at ∙ ap referenced same),
                ap (λ x. x.inum) (at ∙ ap referenced same),
              ))
        | inr e ↦
            (let at = inode-set_other t j i (referenced (inode t j)) e in
              (ap (λ x. is_used x) (sym at) ∙ used, ap (λ x. x.dev) at, ap (λ x. x.inum) at))
      ])
      u

-- An entry that is not the recycled one is not for the inode that it was recycled for.
recycled_apart :
    (dev inum j a b : ℕ) (t : List Inode)
    → ((i : ℕ) → i < length t → matches dev inum (inode t i) ≡ false)
    → a < length t
    → b < length t
    → (j == a) ≡ true
    → (j == b) ≡ false
    → is_used (inode (set t j (recycled dev inum (inode t j))) b) ≡ true
    → (inode (set t j (recycled dev inum (inode t j))) a).dev
      ≡ (inode (set t j (recycled dev inum (inode t j))) b).dev
    → (inode (set t j (recycled dev inum (inode t j))) a).inum
      ≡ (inode (set t j (recycled dev inum (inode t j))) b).inum
    → ⊥
recycled_apart dev inum j a b t miss la lb ea eb ub d n =
    let at = inode-set_here t j a (recycled dev inum (inode t j)) ea la in
    let other = inode-set_other t j b (recycled dev inum (inode t j)) eb in
    let used : is_used (inode t b) ≡ true = ap (λ x. is_used x) (sym other) ∙ ub in
    let same_dev : (inode t b).dev ≡ dev =
      ap (λ x. x.dev) (sym other) ∙ sym d ∙ ap (λ x. x.dev) at in
    let same_inum : (inode t b).inum ≡ inum =
      ap (λ x. x.inum) (sym other) ∙ sym n ∙ ap (λ x. x.inum) at in
    ground (arith, miss b lb, used, same_dev, same_inum)

recycle-Unique :
    (dev inum j : ℕ) (t : List Inode)
    → ((i : ℕ) → i < length t → matches dev inum (inode t i) ≡ false)
    → Unique t
    → Unique (set t j (recycled dev inum (inode t j)))
recycle-Unique dev inum j t miss u a b la lb ua ub d n =
    let e = length-set t j (recycled dev inum (inode t j)) in
    let la' : a < length t = omega (arith, la, e) in
    let lb' : b < length t = omega (arith, lb, e) in
    let old =
      λ (i : ℕ) (h : (j == i) ≡ false). inode-set_other t j i (recycled dev inum (inode t j)) h in
    elim (Bool-cases (j == a)) [
      | inl ea ↦ elim (Bool-cases (j == b)) [
        | inl eb ↦ ground (arith, ea, eb)
        | inr eb ↦ absurd (recycled_apart dev inum j a b t miss la' lb' ea eb ub d n)
      ]
      | inr ea ↦ elim (Bool-cases (j == b)) [
        | inl eb ↦ absurd (recycled_apart dev inum j b a t miss lb' la' eb ea ua (sym d) (sym n))
        | inr eb ↦
            u a b la' lb' (ap (λ x. is_used x) (sym (old a ea)) ∙ ua)
              (ap (λ x. is_used x) (sym (old b eb)) ∙ ub)
              (ap (λ x. x.dev) (sym (old a ea)) ∙ d ∙ ap (λ x. x.dev) (old b eb))
              (ap (λ x. x.inum) (sym (old a ea)) ∙ n ∙ ap (λ x. x.inum) (old b eb))
      ]
    ]

take-Unique :
    (dev inum : ℕ) (t : List Inode) (o : Found) (k : ℕ) (t' : List Inode)
    → Verdict dev inum 0 none t o
    → Unique t
    → take_entry dev inum o t ≡ some (k, t')
    → Unique t'
take-Unique dev inum t (hit j) k t' (i, e, lt, m) u got =
    subst (λ r. Unique r.1) (some-injective _ _ got)
      (hit-Unique dev inum j t
        (ap (λ x. matches dev inum (inode t x)) {y = i} (omega (arith, e)) ∙ m) u)
take-Unique dev inum t (recycle j) k t' miss u got =
    subst (λ r. Unique r.1) (some-injective _ _ got) (recycle-Unique dev inum j t miss u)
take-Unique dev inum t full k t' miss u got = ground arith

-- A table in which no two referenced entries are for the same inode is one after `iget` too, whatever
-- device and number are asked for, when `iget` does not panic for want of a free entry.
pub iget-Unique :
    (dev inum : ℕ) (t : List Inode) (k : ℕ) (t' : List Inode)
    → Unique t
    → iget dev inum t ≡ some (k, t')
    → Unique t'
unfolding iget
iget-Unique dev inum t k t' u got =
    take-Unique dev inum t (search dev inum 0 none t) k t' (search-Verdict dev inum 0 none t) u got
