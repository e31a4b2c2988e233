-- ===== src/Directory/Named.antt =====
-- The entry that alone has a name, and what `dirlookup` of ex5/bonus/fs.c makes of it.
use os_course.Prelude.{
  ltb→lt, tests, ℕ, ◌+◌, ◌*◌, ◌<◌, ◌≤◌, ◌≡◌, ◌⊎◌, ◌∙◌, sym, ap, arith, true, false, ◌&&◌, is_unset,
  Option, List, CharList, ltb, ◌==◌, Bool-cases, inl, inr,
}
use os_course.Prelude.Int.{ℤ}
use os_course.Fs.{DiskInode, Inode, iget}
use os_course.Fs.Blocks.{SuperBlock, Blocks, bsize}
use os_course.Fs.Content.{Held}
use os_course.Fs.Content.Map.{Mapped}
use os_course.Fs.Content.Memory.{Copies}
use os_course.Directory.{dirsiz, dirent_size, Memory, namecmp_equal, strncpy, got_inode, dirlookup}
use os_course.Directory.Slots.{SameSlot, slot_inum, slot_name, is_named}
use os_course.Directory.Lookup.{dirlookup-got_inode}
use os_course.Directory.Written.{strncmp_equal-strncpy}

-- Entries do not overlap.
pub slots_apart :
    (j k : ℕ)
    → (j ≡ k)
      ⊎ ((j * dirent_size + dirent_size ≤ k * dirent_size)
          ⊎ (k * dirent_size + dirent_size ≤ j * dirent_size))
slots_apart j k = elim (Bool-cases (ltb j k)) [
  | inl e ↦ inr (inl (omega (tests, ltb→lt j k e)))
  | inr e ↦ elim (Bool-cases (j == k)) [
    | inl f ↦ inl (ground (arith, f))
    | inr f ↦ inr (inr (ground (arith, e, f)))
  ]
]

module _ (n : ℕ) (name : CharList) (c c' : DiskInode) (blocks blocks' : Blocks) (k inum : ℕ)
    (absent : (j : ℕ) → j < n → is_named c blocks name (j * dirent_size) ≡ false)
    (here : slot_inum c' blocks' (k * dirent_size) ≡ inum)
    (text : slot_name c' blocks' (k * dirent_size) ≡ strncpy dirsiz name)
    (other : (j : ℕ) → j < n → (j ≡ k) ⊎ SameSlot c blocks c' blocks' (j * dirent_size)) where
  -- The new entry has the name, and no entry before has.
  pub named_here : 0 < inum → is_named c' blocks' name (k * dirent_size) ≡ true
  named_here some_inum =
      ap (λ z. is_unset (z == 0) && namecmp_equal name (slot_name c' blocks' (k * dirent_size)))
        here
      ∙ ap (λ t. is_unset (inum == 0) && namecmp_equal name t) text
      ∙ ap (λ t. is_unset (inum == 0) && t) (strncmp_equal-strncpy dirsiz name)
      ∙ ground (arith, some_inum)

  pub only_here : (j : ℕ) → j < n → is_named c' blocks' name (j * dirent_size) ≡ true → j ≡ k
  only_here j h e = elim (other j h) [
    | inl same ↦ same
    | inr (i, t) ↦ absurd (
        ground (
          arith,
          sym e
              ∙ ap
                  (λ z.
                    is_unset (z == 0)
                    && namecmp_equal name (slot_name c' blocks' (j * dirent_size)))
                  i
              ∙ ap
                  (λ z.
                    is_unset (slot_inum c blocks (j * dirent_size) == 0) && namecmp_equal name z)
                  t
              ∙ absent j h,
        ))
  ]

module _ (copyout : ℕ → List ℕ → Memory → Option Memory) (copyin : ℕ → ℕ → Memory → Option (List ℕ))
    (sb : SuperBlock) (de : ℕ) (t_dir : ℤ) (room : ℕ)
    (laws : Copies copyout copyin (λ m x. m x) room) (inside : de + dirent_size ≤ room) where
  -- `dirlookup` where one entry alone has the name.
  pub found_again :
      (n limit k : ℕ) (name : CharList) (h : Held Memory) (t : List Inode)
      → Mapped h.ip.content h.blocks limit
      → h.ip.content.size ≤ limit * bsize
      → n * dirent_size ≡ h.ip.content.size
      → h.ip.content.type ≡ t_dir
      → k < n
      → is_named h.ip.content h.blocks name (k * dirent_size) ≡ true
      → ((j : ℕ) → j < n → is_named h.ip.content h.blocks name (j * dirent_size) ≡ true → j ≡ k)
      → (h' : Held Memory) × (dirlookup copyout copyin sb de t_dir name h t
          ≡ got_inode copyout copyin sb de t_dir
              (k * dirent_size)
              h'
              (iget h.ip.dev (slot_inum h.ip.content h.blocks (k * dirent_size)) t))
  found_again n limit k name h t mapped within sum dir lt named only =
      let (m', found) =
        dirlookup-got_inode copyout copyin sb de t_dir room laws inside n limit name h t mapped
          within sum dir in
      let h' = record h { memory = m' } in
      let got = λ (j : ℕ).
        got_inode copyout copyin sb de t_dir (j * dirent_size) h'
          (iget h.ip.dev (slot_inum h.ip.content h.blocks (j * dirent_size)) t) in
      (
        h',
        elim found [
          | inl (e, absent) ↦ absurd (ground (arith, sym named ∙ absent k lt))
          | inr (j, below_n, e, named_j, before) ↦ e ∙ ap got (only j below_n named_j)
        ],
      )
