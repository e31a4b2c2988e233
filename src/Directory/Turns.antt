-- ===== src/Directory/Turns.antt =====
-- The turns of the loop of `namex` of ex5/bonus/fs.c, one for each element of the path.
use os_course.Prelude.{
  ℕ, zero, suc, ◌<◌, ◌≡◌, ◌∙◌, sym, ap, arith, Bool, Option, List, [], ◌∷◌, CharList, ◌==◌,
  if◌then◌else◌, length, inl, inr,
}
use os_course.Prelude.Int.{ℤ}
use mathlib.Core.Path.{fun_ext}
use os_course.Fs.{iget, idup}
use os_course.Fs.Blocks.{SuperBlock}
use os_course.Files.Chmod.{Store}
use os_course.Directory.{Memory, first}
use os_course.Directory.Paths.{
  into_name, is_empty, World, Walked, turn, at_end, with_next, namex_from, namex, from_root,
}
use os_course.Directory.Elements.{elements, elements-length, skipelem_cases}

module _ (copyout : ℕ → List ℕ → Memory → Option Memory) (copyin : ℕ → ℕ → Memory → Option (List ℕ))
    (sb : SuperBlock) (de : ℕ) (t_dir : ℤ) (itrunc : ℕ → Store → Store)
    (rootdev rootino cwd : ℕ) where
  -- One turn for each element, the last of them told.
  unfoldable pub walk : Bool → List CharList → List ℕ → ℕ → World → Walked
  walk stop [] name k w = at_end copyout copyin sb de t_dir itrunc rootdev rootino cwd stop name k w
  walk stop (e ∷ es) name k w =
      turn copyout copyin sb de t_dir itrunc rootdev rootino cwd
        (λ k' v. walk stop es (into_name e name) k' v) stop (is_empty es) (into_name e name) k w

  namex_from-walk :
      (turns : ℕ) (stop : Bool) (path : CharList) (name : List ℕ) (k : ℕ) (w : World)
      → length (elements path) < turns
      → namex_from copyout copyin sb de t_dir itrunc rootdev rootino cwd turns stop path name k w
        ≡ walk stop (elements path) name k w
  unfolding namex_from walk
  namex_from-walk zero stop path name k w h = absurd (omega arith)
  namex_from-walk (suc turns) stop path name k w h =
      let next : CharList → List ℕ → ℕ → World → Walked = λ p n k' v.
        namex_from copyout copyin sb de t_dir itrunc rootdev rootino cwd turns stop p n k' v in
      let step =
        with_next copyout copyin sb de t_dir itrunc rootdev rootino cwd next stop name k w in
      let one = λ (go : ℕ → World → Walked) (last : Bool) (n : List ℕ).
        turn copyout copyin sb de t_dir itrunc rootdev rootino cwd go stop last n k w in
      elim (skipelem_cases path name) [
        | inl (e, nothing) ↦ ap step e ∙ sym (ap (λ es. walk stop es name k w) nothing)
        | inr (e, rest, taken, parts, last) ↦
            ap step taken
            ∙ ap (λ b. one (λ k' v. next rest (into_name e name) k' v) b (into_name e name)) last
            ∙ ap (λ go. one go (is_empty (elements rest)) (into_name e name))
                (fun_ext (λ k'. fun_ext (λ v.
                  namex_from-walk turns stop rest (into_name e name) k' v
                    (omega (arith, h, ap (λ es. length es) parts)))))
            ∙ sym (ap (λ es. walk stop es name k w) parts)
      ]

  pub namex-walk :
      (path : CharList) (stop : Bool) (name : List ℕ) (w : World)
      → namex copyout copyin sb de t_dir itrunc rootdev rootino cwd path stop name w ≡ (
          if first path == 47
          then from_root copyout copyin sb de t_dir itrunc rootdev rootino cwd
              (λ k v. walk stop (elements path) name k v)
              w
              (iget rootdev rootino w.table)
          else walk stop (elements path) name cwd (record w { table = idup cwd w.table }))
  unfolding namex
  namex-walk path stop name w =
      let run : ℕ → World → Walked = λ k v.
        namex_from copyout copyin sb de t_dir itrunc rootdev rootino cwd (suc (length path)) stop
          path name k v in
      ap
        (λ (go : ℕ → World → Walked).
          if first path == 47
          then from_root copyout copyin sb de t_dir itrunc rootdev rootino cwd go w
              (iget rootdev rootino w.table)
          else go cwd (record w { table = idup cwd w.table }))
        {x = run}
        (fun_ext (λ k. fun_ext (λ v.
          namex_from-walk (suc (length path)) stop path name k v
            (omega (arith, elements-length path)))))
