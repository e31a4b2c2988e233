-- ===== src/Directory/Lookup.antt =====
-- What `dirlookup` of ex5/bonus/fs.c finds.
use os_course.Prelude.{
  ℕ, zero, suc, ◌+◌, ◌*◌, ◌<◌, ◌≤◌, ◌≡◌, ◌⊎◌, ◌∙◌, sym, ap, refl, arith, Bool, true, false, ◌&&◌,
  is_unset, Option, none, some, List, CharList, ltb, ◌==◌, if◌then◌else◌, Bool-cases, inl, inr,
}
use os_course.Prelude.Int.{ℤ, pos, negsuc}
use os_course.Prelude.Word.{int_eq}
use mathlib.Core.Path.{subst}
use os_course.Fs.{Inode, iget}
use os_course.Fs.Blocks.{SuperBlock, bsize}
use os_course.Fs.Content.{Held, readi}
use os_course.Fs.Content.Map.{Mapped}
use os_course.Fs.Content.Memory.{Copies}
use os_course.Directory.{
  dirent_size, Memory, namecmp_equal, inum_in, name_in, with_whole, compared, lookup_from,
  got_inode, with_found, dirlookup,
}
use os_course.Directory.Slots.{slot_inum, is_named, below, readi-slot}

by_name :
    {A : Type 0} (i q : Bool) (rest hit : A)
    → (if i then rest else (if q then hit else rest)) ≡ (if is_unset i && q then hit else rest)
by_name true q rest hit = refl
by_name false q rest hit = refl

pub int_eq-same : (k : ℤ) → int_eq k k ≡ true
int_eq-same (pos k) = ground arith
int_eq-same (negsuc k) = ground arith

module _ (copyout : ℕ → List ℕ → Memory → Option Memory) (copyin : ℕ → ℕ → Memory → Option (List ℕ))
    (sb : SuperBlock) (de : ℕ) (t_dir : ℤ) (room : ℕ)
    (laws : Copies copyout copyin (λ m x. m x) room) (inside : de + dirent_size ≤ room) where
  -- The first entry of that name among the `n` from `off` on, if there is one.
  abbrev pub Looked :
      CharList → ℕ → ℕ → Held Memory → Option (Option (ℕ × ℕ) × Held Memory) → Type 0
  Looked name off n h r =
      let c = h.ip.content in
      (m' : Memory) × (((r ≡ some (none, record h { memory = m' }))
          × ((j : ℕ) → j < n → is_named c h.blocks name (off + j * dirent_size) ≡ false))
        ⊎ ((k : ℕ) × (k < n)
            × (r
                ≡ some (
                  some (off + k * dirent_size, slot_inum c h.blocks (off + k * dirent_size)),
                  record h { memory = m' },
                ))
            × (is_named c h.blocks name (off + k * dirent_size) ≡ true)
            × ((j : ℕ) → j < k → is_named c h.blocks name (off + j * dirent_size) ≡ false)))

  Looked-cons :
      (name : CharList) (off n : ℕ) (h : Held Memory) (m : Memory)
      (r : Option (Option (ℕ × ℕ) × Held Memory))
      → is_named h.ip.content h.blocks name off ≡ false
      → Looked name (off + dirent_size) n (record h { memory = m }) r
      → Looked name off (suc n) h r
  Looked-cons name off n h m r other (m', found) =
      let c = h.ip.content in
      let on = λ (j : ℕ). is_named c h.blocks name (off + j * dirent_size) in
      let shift : (j : ℕ)
          → is_named c h.blocks name (off + dirent_size + j * dirent_size) ≡ on (suc j) =
        λ j. ap (λ z. is_named c h.blocks name z) (omega arith) in
      let here : on 0 ≡ false =
        ap (λ z. is_named c h.blocks name z) {x = off + 0 * dirent_size} {y = off} (omega arith)
        ∙ other in
      (
        m',
        elim found [
          | inl (e, absent) ↦ inl (e, below on n here (λ j hj. sym (shift j) ∙ absent j hj))
          | inr (k, lt, e, named, before) ↦ inr (
            suc k,
            omega arith,
            e
                ∙ ap (λ z. some (some (z, slot_inum c h.blocks z), record h { memory = m' }))
                    {x = off + dirent_size + k * dirent_size} {y = off + suc k * dirent_size}
                    (omega arith),
            sym (shift k) ∙ named,
            below on k here (λ j hj. sym (shift j) ∙ before j hj),
          )
        ],
      )

  lookup_from-Looked :
      (turns n off limit : ℕ) (name : CharList) (h : Held Memory)
      → Mapped h.ip.content h.blocks limit
      → h.ip.content.size ≤ limit * bsize
      → off + n * dirent_size ≡ h.ip.content.size
      → n < turns
      → Looked name off n h (lookup_from copyout copyin sb de t_dir turns name off h)
  unfolding lookup_from
  lookup_from-Looked zero n off limit name h mapped within sum enough = absurd (omega arith)
  lookup_from-Looked (suc turns) zero off limit name h mapped within sum enough =
      let next : Held Memory → Option (Option (ℕ × ℕ) × Held Memory) =
        λ v. lookup_from copyout copyin sb de t_dir turns name (off + dirent_size) v in
      let turn =
        with_whole copyout copyin sb de t_dir
          (λ v. compared copyout copyin sb de t_dir next name off v)
          (readi copyout copyin sb de off dirent_size h) in
      (
        h.memory,
        inl (
          ap (λ t. if t then turn else some (none, h)) {x = ltb off h.ip.content.size} {y = false}
              (ground (arith, sum)),
          λ j hj. absurd (omega arith),
        ),
      )
  lookup_from-Looked (suc turns) (suc n) off limit name h mapped within sum enough =
      let next : Held Memory → Option (Option (ℕ × ℕ) × Held Memory) =
        λ v. lookup_from copyout copyin sb de t_dir turns name (off + dirent_size) v in
      let compare_at = λ (v : Held Memory). compared copyout copyin sb de t_dir next name off v in
      let turn =
        with_whole copyout copyin sb de t_dir compare_at
          (readi copyout copyin sb de off dirent_size h) in
      let c = h.ip.content in
      let (m', ran, inum, text) =
        readi-slot copyout copyin sb de room laws inside off limit h mapped within (omega arith) in
      let h' = record h { memory = m' } in
      let at : ℕ → ℕ → Option (Option (ℕ × ℕ) × Held Memory) = λ o i. some (some (o, i), h') in
      let hit = λ (i : ℕ). at off i in
      let went : lookup_from copyout copyin sb de t_dir (suc turns) name off h
          ≡ (if is_named c h.blocks name off then hit (slot_inum c h.blocks off) else next h') =
        ap (λ t. if t then turn else some (none, h)) {x = ltb off c.size} {y = true}
          (ground (arith, sum))
        ∙ ap (λ r. with_whole copyout copyin sb de t_dir compare_at r) ran
        ∙ by_name (inum_in m' de == 0) (namecmp_equal name (name_in m' de)) (next h')
            (hit (inum_in m' de))
        ∙ ap
            (λ z.
              if is_unset (z == 0) && namecmp_equal name (name_in m' de) then hit z else next h')
            inum
        ∙ ap
            (λ t.
              if is_unset (slot_inum c h.blocks off == 0) && namecmp_equal name t
              then hit (slot_inum c h.blocks off)
              else next h')
            text in
      elim (Bool-cases (is_named c h.blocks name off)) [
        | inl e ↦ (
          m',
          inr (
            0,
            omega arith,
            went
                ∙ ap (λ t. if t then hit (slot_inum c h.blocks off) else next h') e
                ∙ ap (λ z. at z (slot_inum c h.blocks z)) {x = off} {y = off + 0 * dirent_size}
                    (omega arith),
            ap (λ z. is_named c h.blocks name z) {x = off + 0 * dirent_size} {y = off} (omega arith)
                ∙ e,
            λ j hj. absurd (omega arith),
          ),
        )
        | inr e ↦
            subst (λ r. Looked name off (suc n) h r)
              (sym (went ∙ ap (λ t. if t then hit (slot_inum c h.blocks off) else next h') e))
              (Looked-cons name off n h m' (next h') e (
                lookup_from-Looked turns n (off + dirent_size) limit name h' mapped within
                  (omega arith) (omega arith)))
      ]

  -- `dirlookup` comes to its `iget`.
  pub dirlookup-got_inode :
      (n limit : ℕ) (name : CharList) (h : Held Memory) (t : List Inode)
      → Mapped h.ip.content h.blocks limit
      → h.ip.content.size ≤ limit * bsize
      → n * dirent_size ≡ h.ip.content.size
      → h.ip.content.type ≡ t_dir
      → (m' : Memory) × (((dirlookup copyout copyin sb de t_dir name h t
              ≡ some (none, record h { memory = m' }, t))
            × ((j : ℕ) → j < n → is_named h.ip.content h.blocks name (j * dirent_size) ≡ false))
          ⊎ ((k : ℕ) × (k < n)
              × (dirlookup copyout copyin sb de t_dir name h t
                  ≡ got_inode copyout copyin sb de t_dir
                      (k * dirent_size)
                      (record h { memory = m' })
                      (iget h.ip.dev (slot_inum h.ip.content h.blocks (k * dirent_size)) t))
              × (is_named h.ip.content h.blocks name (k * dirent_size) ≡ true)
              × ((j : ℕ) → j < k → is_named h.ip.content h.blocks name (j * dirent_size) ≡ false)))
  unfolding dirlookup
  dirlookup-got_inode n limit name h t mapped within sum dir =
      let run = lookup_from copyout copyin sb de t_dir (suc h.ip.content.size) name 0 h in
      let is_dir : int_eq h.ip.content.type t_dir ≡ true =
        ap (λ k. int_eq k t_dir) dir ∙ int_eq-same t_dir in
      let (m', found) =
        lookup_from-Looked (suc h.ip.content.size) n 0 limit name h mapped within (omega arith)
          (omega arith) in
      let ran = λ (r : Option (Option (ℕ × ℕ) × Held Memory)) (e : run ≡ r).
        ap (λ c. if c then with_found copyout copyin sb de t_dir t run else none) is_dir
        ∙ ap (λ z. with_found copyout copyin sb de t_dir t z) e in
      let plain : (j : ℕ)
          → is_named h.ip.content h.blocks name (j * dirent_size)
            ≡ is_named h.ip.content h.blocks name (0 + j * dirent_size) =
        λ j. ap (λ z. is_named h.ip.content h.blocks name z) (omega arith) in
      let got : ℕ → Option (Option (ℕ × ℕ) × Held Memory × List Inode) = λ z.
        got_inode copyout copyin sb de t_dir z (record h { memory = m' })
          (iget h.ip.dev (slot_inum h.ip.content h.blocks z) t) in
      (
        m',
        elim found [
          | inl (e, absent) ↦ inl (ran _ e, λ j hj. plain j ∙ absent j hj)
          | inr (k, lt, e, named, before) ↦ inr (
            k,
            lt,
            ran _ e ∙ ap got {x = 0 + k * dirent_size} {y = k * dirent_size} (omega arith),
            plain k ∙ named,
            λ j hj. plain j ∙ before j hj,
          )
        ],
      )

  -- A result of `dirlookup` that found the entry at `off`, by what `iget` gives for its number: a panic
  -- where the table is full, and otherwise the offset, the pointer, and the table after `iget`.
  abbrev pub Points :
      ℕ
      → Held Memory
      → Option (ℕ × List Inode)
      → Option (Option (ℕ × ℕ) × Held Memory × List Inode)
      → Type 0
  Points off h none r = r ≡ none
  Points off h (some (k, t)) r = r ≡ some (some (off, k), h, t)

  pub got_inode-Points :
      (off : ℕ) (h : Held Memory) (g : Option (ℕ × List Inode))
      → Points off h g (got_inode copyout copyin sb de t_dir off h g)
  got_inode-Points off h none = refl
  got_inode-Points off h (some (k, t)) = refl
