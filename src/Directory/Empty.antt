-- ===== src/Directory/Empty.antt =====
-- The loop of `dirlink` of ex5/bonus/fs.c that looks for an empty entry.
use os_course.Prelude.{
  ℕ, zero, suc, ◌+◌, ◌*◌, ◌<◌, ◌≤◌, ◌≡◌, ◌∙◌, sym, ap, arith, true, false, Option, some, List, ltb,
  ◌==◌, if◌then◌else◌, Bool-cases, inl, inr,
}
use os_course.Prelude.Int.{ℤ}
use os_course.Fs.Blocks.{SuperBlock, bsize}
use os_course.Fs.Content.{Held, readi}
use os_course.Fs.Content.Map.{Mapped}
use os_course.Fs.Content.Memory.{Copies}
use os_course.Directory.{dirent_size, Memory, with_whole, if_used, empty_from}
use os_course.Directory.Slots.{slot_inum, readi-slot}

module _ (copyout : ℕ → List ℕ → Memory → Option Memory) (copyin : ℕ → ℕ → Memory → Option (List ℕ))
    (sb : SuperBlock) (de : ℕ) (t_dir : ℤ) (room : ℕ)
    (laws : Copies copyout copyin (λ m x. m x) room) (inside : de + dirent_size ≤ room) where
  -- The first free entry among the `n` from `off` on, or the end of the directory.
  abbrev pub Emptied : ℕ → ℕ → Held Memory → Option (ℕ × Held Memory) → Type 0
  Emptied off n h r =
      (m' : Memory) × (k : ℕ) × (k ≤ n)
      × (r ≡ some (off + k * dirent_size, record h { memory = m' }))
      × (k < n → slot_inum h.ip.content h.blocks (off + k * dirent_size) ≡ 0)

  pub empty_from-Emptied :
      (turns n off limit : ℕ) (h : Held Memory)
      → Mapped h.ip.content h.blocks limit
      → h.ip.content.size ≤ limit * bsize
      → off + n * dirent_size ≡ h.ip.content.size
      → n < turns
      → Emptied off n h (empty_from copyout copyin sb de t_dir turns off h)
  unfolding empty_from
  empty_from-Emptied zero n off limit h mapped within sum enough = absurd (omega arith)
  empty_from-Emptied (suc turns) zero off limit h mapped within sum enough =
      let next : Held Memory → Option (ℕ × Held Memory) =
        λ v. empty_from copyout copyin sb de t_dir turns (off + dirent_size) v in
      let turn =
        with_whole copyout copyin sb de t_dir (λ v. if_used copyout copyin sb de t_dir next off v)
          (readi copyout copyin sb de off dirent_size h) in
      let at : ℕ → Option (ℕ × Held Memory) = λ o. some (o, h) in
      (
        h.memory,
        0,
        omega arith,
        ap (λ t. if t then turn else some (off, h)) {x = ltb off h.ip.content.size} {y = false}
              (ground (arith, sum))
            ∙ ap at {x = off} {y = off + 0 * dirent_size} (omega arith),
        λ lt. absurd (omega arith),
      )
  empty_from-Emptied (suc turns) (suc n) off limit h mapped within sum enough =
      let next : Held Memory → Option (ℕ × Held Memory) =
        λ v. empty_from copyout copyin sb de t_dir turns (off + dirent_size) v in
      let test = λ (v : Held Memory). if_used copyout copyin sb de t_dir next off v in
      let turn =
        with_whole copyout copyin sb de t_dir test (readi copyout copyin sb de off dirent_size h) in
      let c = h.ip.content in
      let (m', ran, inum, text) =
        readi-slot copyout copyin sb de room laws inside off limit h mapped within (omega arith) in
      let h' = record h { memory = m' } in
      let at : ℕ → Option (ℕ × Held Memory) = λ o. some (o, h') in
      let went : empty_from copyout copyin sb de t_dir (suc turns) off h
          ≡ (if slot_inum c h.blocks off == 0 then at off else next h') =
        ap (λ t. if t then turn else some (off, h)) {x = ltb off c.size} {y = true}
          (ground (arith, sum))
        ∙ ap (λ r. with_whole copyout copyin sb de t_dir test r) ran
        ∙ ap (λ z. if z == 0 then at off else next h') inum in
      elim (Bool-cases (slot_inum c h.blocks off == 0)) [
        | inl e ↦ (
          m',
          0,
          omega arith,
          went
              ∙ ap (λ t. if t then at off else next h') e
              ∙ ap at {x = off} {y = off + 0 * dirent_size} (omega arith),
          λ lt.
              ap (λ z. slot_inum c h.blocks z) {x = off + 0 * dirent_size} {y = off} (omega arith)
              ∙ ground (arith, e),
        )
        | inr e ↦
            let (m'', k, le, r, free) =
              empty_from-Emptied turns n (off + dirent_size) limit h' mapped within (omega arith)
                (omega arith) in
            let at' : ℕ → Option (ℕ × Held Memory) = λ o. some (o, record h { memory = m'' }) in
            let shift : off + dirent_size + k * dirent_size ≡ off + suc k * dirent_size =
              omega arith in
            (
              m'',
              suc k,
              omega arith,
              went ∙ ap (λ t. if t then at off else next h') e ∙ r ∙ ap at' shift,
              λ lt. ap (λ z. slot_inum c h.blocks z) (sym shift) ∙ free (omega arith),
            )
      ]
