-- ===== src/Copytree/Blocks.antt =====
-- How `copy_file` of ex5/copytree.c copies the bytes of one file.
use os_course.Prelude.{
  ℕ, zero, suc, ◌<◌, ◌≡◌, ◌∙◌, sym, ap, refl, arith, Bool, true, false, Option, some, List, [], ◌∷◌,
  ◌++◌, CharList, ◌==◌, ◌&&◌, if◌then◌else◌, length, length-append, Bool-cases, inl, inr,
}
use mathlib.Core.List.{append-nil, append_assoc}
use os_course.Copytree.{
  Kind, is_other, Stat, write_failed, chmod_failed, Posix, kind_link, checked, copy_link,
  after_write, after_read, copy_blocks, set_mode_of, after_blocks, with_dest, with_src, copy_stat,
}
use os_course.Copytree.Tree.{file, Action, make_file, set_mode, Inside, Lawful}

module _ {W : Type 0} (os : Posix W) (copy_symlinks copy_permissions : Bool)
    (made : W → List Action) (Reading : ℕ → CharList → W → Type 0) (masked : ℕ → ℕ)
    (Writing : ℕ → CharList → W → Type 0) (laws : Lawful os made Reading masked Writing) where
  copy_blocks_lem :
      (turns s fd : ℕ) (b d old : CharList) (log : List Action) (w : W)
      → Reading s b w
      → Writing fd d w
      → made w ≡ log ++ make_file d old ∷ []
      → length b < turns
      → (w' : W) × (copy_blocks os copy_symlinks copy_permissions turns s fd w ≡ some (true, w'))
        × (made w' ≡ log ++ make_file d (old ++ b) ∷ [])
  unfolding copy_blocks
  copy_blocks_lem zero s fd b d old log w reads writes e h = absurd (omega arith)
  copy_blocks_lem (suc turns) s fd b d old log w reads writes e h =
      let (chunk, rest, v, got, parts, ends, same, writes', reads') =
        laws.read_reads s fd b d w reads writes in
      by_chunk (λ b' old' v' r w' e' h'. copy_blocks_lem turns s fd b' d old' log v' r w' e' h')
        chunk rest v got parts ends same writes' reads'
    where
      by_chunk :
          ((b' old' : CharList) (v' : W)
            → Reading s b' v'
            → Writing fd d v'
            → made v' ≡ log ++ make_file d old' ∷ []
            → length b' < turns
            → (w' : W) × (copy_blocks os copy_symlinks copy_permissions turns s fd v'
                ≡ some (true, w'))
              × (made w' ≡ log ++ make_file d (old' ++ b') ∷ []))
          → (chunk rest : CharList) (v : W) → os.read s 4096 w ≡ (some chunk, v)
          → b ≡ chunk ++ rest
          → (chunk ≡ [] → b ≡ [])
          → made v ≡ made w
          → Writing fd d v
          → Reading s rest v
          → (w' : W) × (copy_blocks os copy_symlinks copy_permissions (suc turns) s fd w
              ≡ some (true, w'))
            × (made w' ≡ log ++ make_file d (old ++ b) ∷ [])
      by_chunk go [] rest v got parts ends same writes' reads' = (
        v,
        ap
            (λ r.
              after_read os copy_symlinks copy_permissions
                (λ u. copy_blocks os copy_symlinks copy_permissions turns s fd u) fd r)
            got,
        same
            ∙ e
            ∙ ap (λ x. log ++ make_file d x ∷ [])
                (sym (append-nil old) ∙ ap (λ x. old ++ x) (sym (ends refl))),
      )
      by_chunk go (c ∷ cs) rest v got parts ends same writes' reads' =
          let next : W → Option (Bool × W) =
            λ u. copy_blocks os copy_symlinks copy_permissions turns s fd u in
          let n = suc (length cs) in
          let (v', wrote, more, writes'', reads'') =
            laws.write_writes s fd rest d (c ∷ cs) old log v reads' writes' (same ∙ e) in
          let (w', copied, all) =
            go rest (old ++ c ∷ cs) v' reads'' writes'' more
              (omega (arith, h, ap length parts, length-append cs rest)) in
          (
            w',
            ap (λ r. after_read os copy_symlinks copy_permissions next fd r) got
                ∙ ap (λ r. after_write os copy_symlinks copy_permissions next n r) wrote
                ∙ ap (λ t. if t then next v' else some (false, os.perror write_failed v'))
                    {x = n == n} {y = true} (ground arith)
                ∙ copied,
            all
                ∙ ap (λ x. log ++ make_file d x ∷ [])
                    (append_assoc old (c ∷ cs) rest ∙ ap (λ x. old ++ x) (sym parts)),
          )

  abbrev pub Copies : List Action → W → Option W → Type 0
  Copies parts w r = (w' : W) × (r ≡ some w') × (made w' ≡ made w ++ parts)

  set_mode-Copies :
      (p d : CharList) (mode : ℕ) (k : Kind) (parts : List Action) (w v : W) (r : Option W)
      → os.stat p v ≡ some (record { kind = k; mode = mode })
      → made v ≡ made w ++ parts
      → r
        ≡ some (
            if copy_permissions
            then set_mode_of os copy_symlinks copy_permissions d v (os.stat p v)
            else v)
      → Copies (parts ++ (if copy_permissions then set_mode d mode ∷ [] else [])) w r
  set_mode-Copies p d mode k parts w v r st e run = elim (Bool-cases copy_permissions) [
    | inl y ↦
        let (u, ok, more) = laws.chmod_sets d mode v in
        (
          u,
          run
              ∙ ap
                  (λ c. some (
                    if c
                    then set_mode_of os copy_symlinks copy_permissions d v (os.stat p v)
                    else v))
                  y
              ∙ ap (λ s. some (set_mode_of os copy_symlinks copy_permissions d v s)) st
              ∙ ap (λ x. some (checked os copy_symlinks copy_permissions chmod_failed x)) ok,
          more
              ∙ ap (λ x. x ++ set_mode d mode ∷ []) e
              ∙ append_assoc (made w) parts (set_mode d mode ∷ [])
              ∙ ap (λ c. made w ++ (parts ++ (if c then set_mode d mode ∷ [] else []))) (sym y),
        )
    | inr n ↦ (
      v,
      run
          ∙ ap
              (λ c.
                some (
                  if c then set_mode_of os copy_symlinks copy_permissions d v (os.stat p v) else v))
              n,
      e
          ∙ ap (λ x. made w ++ x) (sym (append-nil parts))
          ∙ ap (λ c. made w ++ (parts ++ (if c then set_mode d mode ∷ [] else []))) (sym n),
    )
  ]

  -- A file that is not copied as a link, reached through `p`.
  pub copy_stat-Copies :
      (turns : ℕ) (p d bytes : CharList) (mode : ℕ) (st : Stat) (w : W)
      → kind_link st.kind && copy_symlinks ≡ false
      → ((v : W) → os.stat p v ≡ some (record { kind = is_other; mode = mode }))
      → Inside os made Reading p (file mode bytes)
      → length bytes < turns
      → Copies
          (make_file d bytes ∷ (if copy_permissions then set_mode d mode ∷ [] else []))
          w
          (copy_stat os copy_symlinks copy_permissions turns p d w (some st))
  unfolding Inside
  copy_stat-Copies turns p d bytes mode st w plain stats inside h =
      let (s, v, opened, reads, same) = inside w in
      let (fd, v1, opened', new, writes, reads') = laws.open_makes d s bytes v reads in
      let (v2, ran, all) = copy_blocks_lem turns s fd bytes d [] (made v) v1 reads' writes new h in
      let v3 = os.close fd (os.close s v2) in
      set_mode-Copies p d mode is_other (make_file d bytes ∷ []) w v3
        (copy_stat os copy_symlinks copy_permissions turns p d w (some st)) (stats v3)
        (laws.close_makes_nothing fd (os.close s v2)
          ∙ laws.close_makes_nothing s v2
          ∙ all
          ∙ ap (λ x. x ++ make_file d bytes ∷ []) same)
        (ap
            (λ c.
              if c
              then some (copy_link os copy_symlinks copy_permissions d w (os.readlink p 4095 w))
              else with_src os copy_symlinks copy_permissions turns p d (os.open_src p w))
            plain
          ∙ ap (λ r. with_src os copy_symlinks copy_permissions turns p d r) opened
          ∙ ap (λ r. with_dest os copy_symlinks copy_permissions turns p d s r) opened'
          ∙ ap (λ r. after_blocks os copy_symlinks copy_permissions p d s fd r) ran)
