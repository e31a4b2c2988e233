-- ===== src/Directory/Slots.antt =====
-- The entries of a directory of ex5/bonus/fs.c, and the reading of one.
use os_course.Prelude.{
  ℕ, zero, suc, ◌+◌, ◌-◌, ◌*◌, ◌<◌, ◌≤◌, ◌≡◌, ◌∙◌, ap, refl, arith, Bool, false, ◌&&◌, is_unset,
  Option, some, List, ◌∷◌, CharList, ◌==◌,
}
use os_course.Prelude.Int.{pos}
use os_course.Prelude.Word.{as_int}
use Prim.Native.Nat.{min}
use os_course.Fs.{DiskInode}
use os_course.Fs.Blocks.{SuperBlock, Blocks, bsize}
use os_course.Fs.Content.{Held, readi}
use os_course.Fs.Content.Map.{byte_at, Mapped}
use os_course.Fs.Content.Memory.{Copies}
use os_course.Fs.Content.Read.{readi_lem}
use os_course.Directory.{dirsiz, dirent_size, Memory, bytes_from, namecmp_equal, inum_in, name_in}

pub bytes_from-ext :
    (f g : ℕ → ℕ) (a b n : ℕ)
    → ((i : ℕ) → i < n → f (a + i) ≡ g (b + i))
    → bytes_from f a n ≡ bytes_from g b n
unfolding bytes_from
bytes_from-ext f g a b zero same = refl
bytes_from-ext f g a b (suc n) same =
    ap (λ x. x ∷ bytes_from f (suc a) n)
      (ap f {x = a} {y = a + 0} (omega arith)
        ∙ same 0 (omega arith)
        ∙ ap g {x = b + 0} {y = b} (omega arith))
    ∙ ap (λ xs. g b ∷ xs)
        (bytes_from-ext f g (suc a) (suc b) n (λ i h.
          ap f {x = suc a + i} {y = a + suc i} (omega arith)
          ∙ same (suc i) (omega arith)
          ∙ ap g {x = b + suc i} {y = suc b + i} (omega arith)))

-- The entry of a directory that stands at `off`.
abbrev pub slot_inum : DiskInode → Blocks → ℕ → ℕ
slot_inum c blocks off = inum_in (λ x. byte_at c blocks x) off

abbrev pub slot_name : DiskInode → Blocks → ℕ → List ℕ
slot_name c blocks off = name_in (λ x. byte_at c blocks x) off

-- The entry at `off` is the same in both.
abbrev pub SameSlot : DiskInode → Blocks → DiskInode → Blocks → ℕ → Type 0
SameSlot c blocks c' blocks' off =
    (slot_inum c' blocks' off ≡ slot_inum c blocks off)
    × (slot_name c' blocks' off ≡ slot_name c blocks off)

abbrev pub is_named : DiskInode → Blocks → CharList → ℕ → Bool
is_named c blocks name off =
    is_unset (slot_inum c blocks off == 0) && namecmp_equal name (slot_name c blocks off)

pub below :
    (on : ℕ → Bool) (n : ℕ)
    → on 0 ≡ false
    → ((j : ℕ) → j < n → on (suc j) ≡ false)
    → (j : ℕ) → j < suc n
    → on j ≡ false
below on n here rest zero h = here
below on n here rest (suc j) h = rest j (omega arith)

module _ (copyout : ℕ → List ℕ → Memory → Option Memory) (copyin : ℕ → ℕ → Memory → Option (List ℕ))
    (sb : SuperBlock) (de : ℕ) (room : ℕ) (laws : Copies copyout copyin (λ m x. m x) room)
    (inside : de + dirent_size ≤ room) where
  -- `readi` of an entry that the directory has.
  pub readi-slot :
      (off limit : ℕ) (h : Held Memory)
      → Mapped h.ip.content h.blocks limit
      → h.ip.content.size ≤ limit * bsize
      → off + dirent_size ≤ h.ip.content.size
      → (m' : Memory) × (readi copyout copyin sb de off dirent_size h
          ≡ some (pos dirent_size, record h { memory = m' }))
        × (inum_in m' de ≡ slot_inum h.ip.content h.blocks off)
        × (name_in m' de ≡ slot_name h.ip.content h.blocks off)
  readi-slot off limit h mapped within there =
      let c = h.ip.content in
      let (m', ran, bytes) =
        readi_lem copyout copyin sb (λ m x. m x) room laws de off dirent_size limit h mapped within
          (omega arith) (omega (arith, mapped.small)) inside in
      let whole : min dirent_size (c.size - off) ≡ dirent_size = omega arith in
      let byte : (i : ℕ) → i < dirent_size → m' (de + i) ≡ byte_at c h.blocks (off + i) = λ i hi.
        bytes (de + i)
        ∙ ground (
          arith,
          hi,
          whole,
          ap (λ z. byte_at c h.blocks z) {x = off + (de + i - de)} {y = off + i} (omega arith),
        ) in
      (
        m',
        ran ∙ ap (λ k. some (as_int k, record h { memory = m' })) whole,
        omega (
          arith,
          ap m' {x = de} {y = de + 0} (omega arith)
              ∙ byte 0 (omega arith)
              ∙ ap (λ z. byte_at c h.blocks z) {x = off + 0} {y = off} (omega arith),
          byte 1 (omega arith),
        ),
        bytes_from-ext m' (λ x. byte_at c h.blocks x) (de + 2) (off + 2) dirsiz
            (λ i hi.
              ap m' {x = de + 2 + i} {y = de + (2 + i)} (omega arith)
              ∙ byte (2 + i) (omega arith)
              ∙ ap (λ z. byte_at c h.blocks z) {x = off + (2 + i)} {y = off + 2 + i} (omega arith)),
      )
