-- ===== src/Directory/Link.antt =====
-- `dirlink` of ex5/bonus/fs.c, and what `dirlookup` finds afterwards.
use os_course.Prelude.{
  ltb→lt, ℕ, suc, ◌+◌, ◌*◌, ◌^◌, ◌<◌, ◌≤◌, ◌≡◌, ◌⊎◌, ◌∙◌, sym, ap, arith, false, Option, none, some,
  List, CharList, ltb, if◌then◌else◌, Bool-cases, inl, inr,
}
use Prim.Native.Nat.{max}
use os_course.Prelude.Int.{ℤ}
use os_course.Prelude.Word.{success}
use mathlib.Core.Path.{subst}
use os_course.Fs.{Inode, iget}
use os_course.Fs.Blocks.{SuperBlock, Blocks, bsize}
use os_course.Fs.Content.{Held, written}
use os_course.Fs.Content.Map.{Mapped}
use os_course.Fs.Content.Memory.{Copies}
use os_course.Fs.Content.Read.{resized}
use os_course.Fs.Content.Write.{Overwritten, writei-written}
use os_course.Files.Chmod.{Store}
use os_course.Directory.{
  dirent_size, Memory, with_entry, got_inode, entry_written, write_entry, link_unless, dirlookup,
  dirlink,
}
use os_course.Directory.Slots.{SameSlot, slot_inum, is_named}
use os_course.Directory.Named.{slots_apart, named_here, only_here, found_again}
use os_course.Directory.Empty.{empty_from-Emptied}
use os_course.Directory.Lookup.{dirlookup-got_inode, Points, got_inode-Points}
use os_course.Directory.Written.{slot_inum-written, slot_name-written, slot-other}

module _ (copyout : ℕ → List ℕ → Memory → Option Memory) (copyin : ℕ → ℕ → Memory → Option (List ℕ))
    (sb : SuperBlock) (de : ℕ) (t_dir : ℤ) (room : ℕ)
    (laws : Copies copyout copyin (λ m x. m x) room) (inside : de + dirent_size ≤ room)
    (itrunc : ℕ → Store → Store) where
  -- The directory once entry `k` is written.
  abbrev linked : ℕ → Held Memory → Memory → Blocks → Held Memory
  linked k h m blocks' =
      (written copyout copyin sb dirent_size (k * dirent_size + dirent_size)
        (record h { memory = m; blocks = blocks' })).1

  link_written :
      (n limit : ℕ) (name : CharList) (inum : ℕ) (h : Held Memory) (t : List Inode)
      → Mapped h.ip.content h.blocks limit
      → h.ip.content.size + dirent_size ≤ limit * bsize
      → n * dirent_size ≡ h.ip.content.size
      → h.ip.content.type ≡ t_dir
      → ((j : ℕ) → j < n → is_named h.ip.content h.blocks name (j * dirent_size) ≡ false)
      → (k : ℕ) × (m : Memory) × (blocks' : Blocks) × (k ≤ n)
        × (k < n → slot_inum h.ip.content h.blocks (k * dirent_size) ≡ 0)
        × (dirlink copyout copyin sb de t_dir itrunc name inum h t
            ≡ some (success, linked k h (with_entry de name inum m) blocks', t))
        × Mapped h.ip.content blocks' limit
        × Overwritten copyout copyin sb
            (λ m x. m x)
            room
            laws
            h.ip.content
            limit
            de
            (k * dirent_size)
            dirent_size
            (with_entry de name inum m)
            h.blocks
            blocks'
  unfolding dirlink
  link_written n limit name inum h t mapped space sum dir absent =
      let c = h.ip.content in
      let (m1, first) =
        dirlookup-got_inode copyout copyin sb de t_dir room laws inside n limit name h t mapped
          (omega arith) sum dir in
      let h1 = record h { memory = m1 } in
      let looked : dirlookup copyout copyin sb de t_dir name h t ≡ some (none, h1, t) = elim first [
        | inl (e, none_there) ↦ e
        | inr (j, lt, e, named, before) ↦ absurd (ground (arith, sym named ∙ absent j lt))
      ] in
      let (m, k, le, found, free) =
        empty_from-Emptied copyout copyin sb de t_dir room laws inside (suc c.size) n 0 limit h1
          mapped (omega arith) (omega arith) (omega arith) in
      let off = k * dirent_size in
      let (blocks', ran, mapped', new) =
        writei-written copyout copyin sb (λ m x. m x) room laws de off dirent_size limit
          (record h { memory = with_entry de name inum m }) mapped (omega arith) (omega arith)
          inside in
      let wrote : ℕ → Option (ℤ × Held Memory × List Inode) = λ o.
        write_entry copyout copyin sb de t_dir name inum t (some (o, record h { memory = m })) in
      (
        k,
        m,
        blocks',
        le,
        λ lt. ap (λ z. slot_inum c h.blocks z) {x = off} {y = 0 + off} (omega arith) ∙ free lt,
        ap (λ r. link_unless copyout copyin sb de t_dir itrunc name inum r) looked
            ∙ ap (λ r. write_entry copyout copyin sb de t_dir name inum t r) found
            ∙ ap wrote {x = 0 + off} {y = off} (omega arith)
            ∙ ap (λ r. entry_written copyout copyin sb de t_dir t r) ran,
        mapped',
        new,
      )

  -- `dirlink` of a name that no entry has and of a number from 1 to 65535, in a directory of whole
  -- entries whose blocks, and that of one more entry, are there: it returns 0 and leaves the table of inodes
  -- alone. From then on `dirlookup` finds the name and gives what `iget` gives for the number, and every
  -- entry in use is as it was.
  pub dirlookup-dirlink :
      (n limit : ℕ) (name : CharList) (inum : ℕ) (h : Held Memory) (t : List Inode)
      → Mapped h.ip.content h.blocks limit
      → h.ip.content.size + dirent_size ≤ limit * bsize
      → n * dirent_size ≡ h.ip.content.size
      → h.ip.content.type ≡ t_dir
      → 0 < inum
      → inum < 2 ^ 16
      → ((j : ℕ) → j < n → is_named h.ip.content h.blocks name (j * dirent_size) ≡ false)
      → (h' h'' : Held Memory) × (off : ℕ) × (dirlink copyout copyin sb de t_dir itrunc name inum h
            t
          ≡ some (success, h', t))
        × Points copyout copyin sb de t_dir room laws inside off h''
            (iget h.ip.dev inum t)
            (dirlookup copyout copyin sb de t_dir name h' t)
        × ((j : ℕ)
            → j < n
            → 0 < slot_inum h.ip.content h.blocks (j * dirent_size)
            → SameSlot h.ip.content h.blocks h'.ip.content h'.blocks (j * dirent_size))
  dirlookup-dirlink n limit name inum h t mapped space sum dir some_inum small absent =
      let c = h.ip.content in
      let (k, m, blocks', le, free, ran, mapped', new) =
        link_written n limit name inum h t mapped space sum dir absent in
      let off = k * dirent_size in
      let h' = linked k h (with_entry de name inum m) blocks' in
      let size' = if ltb c.size (off + dirent_size) then off + dirent_size else c.size in
      let fits : off + dirent_size ≤ limit * bsize = omega arith in
      let here = slot_inum-written c h.blocks blocks' limit de off inum name m new fits small in
      let text = slot_name-written c h.blocks blocks' limit de off inum name m new fits in
      let other : (j : ℕ) → j < n → (j ≡ k) ⊎ SameSlot c h.blocks c blocks' (j * dirent_size) =
        λ j lt. elim (slots_apart j k) [
          | inl e ↦ inl e
          | inr apart ↦ inr (
              slot-other c h.blocks blocks' limit de off inum name m new fits (j * dirent_size)
                apart (omega arith))
        ] in
      let only = only_here n name c c h.blocks blocks' k inum absent here text other in
      let (h'', again) =
        found_again copyout copyin sb de t_dir room laws inside (max n (suc k)) limit k name h' t
          (resized c blocks' limit size' mapped') (ground (arith, space)) (ground (arith, sum, le))
          dir (omega arith)
          (named_here n name c c h.blocks blocks' k inum absent here text other some_inum)
          (λ j lt e. elim (Bool-cases (ltb j n)) [
            | inl b ↦ only j (ltb→lt j n b) e
            | inr b ↦ ground (arith, b, lt, le)
          ]) in
      (
        h',
        h'',
        off,
        ran,
        subst
            (λ r.
              Points copyout copyin sb de t_dir room laws inside off h'' (iget h.ip.dev inum t) r)
            (sym (
              again
              ∙ ap (λ i. got_inode copyout copyin sb de t_dir off h'' (iget h.ip.dev i t)) here))
            (got_inode-Points copyout copyin sb de t_dir room laws inside off h''
              (iget h.ip.dev inum t)),
        λ j lt used. elim (other j lt) [
          | inl e ↦ absurd (
              omega (
                arith,
                used,
                ap (λ i. slot_inum c h.blocks (i * dirent_size)) e,
                free (omega (arith, lt, e)),
              ))
          | inr kept ↦ kept
        ],
      )
