-- ===== src/Copytree/Entries.antt =====
-- How `copy_directory` of ex5/copytree.c copies what a directory lists.
use os_course.Prelude.{
  ℕ, ◌-◌, ◌<◌, ◌≤◌, ◌≡◌, ◌∙◌, sym, ap, refl, arith, Bool, true, false, Option, none, some, List, [],
  ◌∷◌, ◌++◌, CharList, ◌&&◌, if◌then◌else◌, length, Bool-cases, inl, inr,
}
use mathlib.Core.Path.{subst}
use mathlib.Core.List.{append-nil, append_assoc}
use os_course.Copytree.{
  is_link, is_dir, is_other, Stat, open_src_failed, symlink_failed, Posix, path_max, kind_link,
  join, is_dots, checked, copy_link, with_src, copy_stat, copy_file, leads_to_dir, copy_entry_stat,
  and_then, copy_entries, copy_directory,
}
use os_course.Copytree.Tree.{
  Node, file, folder, link, dangling, Entries, end, entry, lstat_of, stat_of, names_of, real,
  Action, make_link, make_file, set_mode, actions, actions_each, depth, depth_each, longest,
  longest_each, Inside, Each, Links, Lawful,
}
use os_course.Copytree.Blocks.{Copies, copy_stat-Copies}

module _ {W : Type 0} (os : Posix W) (p_flag : Bool) (made : W → List Action)
    (Reading : ℕ → CharList → W → Type 0) (masked : ℕ → ℕ) (Writing : ℕ → CharList → W → Type 0)
    (laws : Lawful os made Reading masked Writing) (turns f : ℕ) where
  abbrev pub Copy : Bool → List Action → W → Option W → Type 0
  Copy l parts w r = Copies os l p_flag made Reading masked Writing laws parts w r

  abbrev pub Down : Bool → Type 0
  Down l =
      (p d : CharList) (mode : ℕ) (es : Entries) (w : W)
      → ((v : W) → os.stat p v ≡ some (record { kind = is_dir; mode = mode }))
      → Inside os made Reading p (folder mode es)
      → depth_each es < f
      → longest_each es < turns
      → Copy l (actions masked l p_flag d (folder mode es)) w
          (copy_directory os l p_flag f turns p d w)

  -- A node that is no link is copied by `copy_file` or by `copy_directory`.
  abbrev down : Bool → CharList → CharList → W → Option W
  down l s d w = copy_directory os l p_flag f turns s d w

  plain_file :
      (l : Bool) (p d bytes : CharList) (mode : ℕ) (st : Stat) (w : W)
      → kind_link st.kind && l ≡ false
      → os.lstat p w ≡ some st
      → ((v : W) → os.stat p v ≡ some (record { kind = is_other; mode = mode }))
      → Inside os made Reading p (file mode bytes)
      → length bytes < turns
      → Copy l
          (make_file d bytes ∷ (if p_flag then set_mode d mode ∷ [] else []))
          w
          (copy_file os l p_flag turns p d w)
  unfolding copy_file
  plain_file l p d bytes mode st w plain seen stats inside h =
      subst
        (λ s.
          Copy l (make_file d bytes ∷ (if p_flag then set_mode d mode ∷ [] else [])) w
            (copy_stat os l p_flag turns p d w s))
        (sym seen)
        (copy_stat-Copies os l p_flag made Reading masked Writing laws turns p d bytes mode st w
          plain stats inside h)

  -- A link that is copied as one.
  link_copied :
      (p d text : CharList) (w : W)
      → os.lstat p w ≡ some (record { kind = is_link; mode = 511 })
      → os.readlink p (path_max - 1) w ≡ some text
      → Copy true (make_link d text ∷ []) w (copy_file os true p_flag turns p d w)
  unfolding copy_file
  link_copied p d text w seen reads =
      let (v, ok, more) = laws.symlink_makes text d w in
      (
        v,
        ap (λ s. copy_stat os true p_flag turns p d w s) seen
            ∙ ap (λ t. some (copy_link os true p_flag d w t)) reads
            ∙ ap (λ r. some (checked os true p_flag symlink_failed r)) ok,
        more,
      )

  -- A link that is followed.
  followed :
      Down false
      → (p d : CharList) (n : Node) (w : W)
      → os.lstat p w ≡ some (record { kind = is_link; mode = 511 })
      → ((v : W) → os.stat p v ≡ stat_of n)
      → Inside os made Reading p n
      → depth n ≤ f
      → longest n < turns
      → Copy false (actions masked false p_flag d n) w (
          if leads_to_dir (os.stat p w)
          then down false p d w
          else copy_file os false p_flag turns p d w)
  unfolding Inside actions depth longest copy_file
  followed ih p d (file mode bytes) w seen stats inside deep short =
      subst
        (λ s.
          Copy false (actions masked false p_flag d (file mode bytes)) w
            (if leads_to_dir s then down false p d w else copy_file os false p_flag turns p d w))
        (sym (stats w))
        (plain_file false p d bytes mode (record { kind = is_link; mode = 511 }) w refl seen stats
          inside short)
  followed ih p d (folder mode es) w seen stats inside deep short =
      subst
        (λ s.
          Copy false (actions masked false p_flag d (folder mode es)) w
            (if leads_to_dir s then down false p d w else copy_file os false p_flag turns p d w))
        (sym (stats w)) (ih p d mode es w stats inside deep short)
  followed ih p d (link text n) w seen stats inside deep short =
      followed ih p d n w seen stats inside deep short
  followed ih p d (dangling text) w seen stats inside deep short =
      let (v, none_there, same) = inside w in
      (
        os.perror open_src_failed v,
        ap (λ s. if leads_to_dir s then down false p d w else copy_file os false p_flag turns p d w)
              (stats w)
            ∙ ap (λ s. copy_stat os false p_flag turns p d w s) seen
            ∙ ap (λ r. with_src os false p_flag turns p d r) none_there,
        laws.perror_makes_nothing open_src_failed v ∙ same ∙ sym (append-nil (made w)),
      )

  -- One entry, in both ways of treating links.
  entry_copied :
      (l : Bool) (ih : Down l) (p d : CharList) (n : Node) (w : W)
      → ((v : W) → os.lstat p v ≡ some (lstat_of n))
      → ((v : W) → os.stat p v ≡ stat_of n)
      → Links os made Reading p n
      → Inside os made Reading p n
      → depth n ≤ f
      → longest n < turns
      → Copy l (actions masked l p_flag d n) w (
          copy_entry_stat os l p_flag
            (λ s t v. copy_directory os l p_flag f turns s t v)
            turns
            p
            d
            w
            (os.lstat p w))
  unfolding Inside actions depth longest copy_file
  entry_copied l ih p d n w seen stats links inside deep short =
      subst
        (λ s. Copy l (actions masked l p_flag d n) w (
          copy_entry_stat os l p_flag (λ s t v. copy_directory os l p_flag f turns s t v) turns p d
            w s))
        (sym (seen w)) (by_node l ih n seen stats links inside deep short)
    where
      by_node :
          (l : Bool) (ih : Down l) (n : Node)
          → ((v : W) → os.lstat p v ≡ some (lstat_of n))
          → ((v : W) → os.stat p v ≡ stat_of n)
          → Links os made Reading p n
          → Inside os made Reading p n
          → depth n ≤ f
          → longest n < turns
          → Copy l (actions masked l p_flag d n) w (
              copy_entry_stat os l p_flag
                (λ s t v. copy_directory os l p_flag f turns s t v)
                turns
                p
                d
                w
                (some (lstat_of n)))
      by_node l ih (file mode bytes) seen stats links inside deep short =
          plain_file l p d bytes mode (record { kind = is_other; mode = mode }) w refl (seen w)
            stats inside short
      by_node l ih (folder mode es) seen stats links inside deep short =
          ih p d mode es w stats inside deep short
      by_node true ih (link text n) seen stats links inside deep short =
          link_copied p d text w (seen w) (links w)
      by_node false ih (link text n) seen stats links inside deep short =
          followed ih p d n w (seen w) stats inside deep short
      by_node true ih (dangling text) seen stats links inside deep short =
          link_copied p d text w (seen w) (links w)
      by_node false ih (dangling text) seen stats links inside deep short =
          followed ih p d (dangling text) w (seen w) stats inside deep short

  and_then_same :
      (l : Bool) (r : Option W) (g h : W → Option W)
      → ((v : W) → g v ≡ h v)
      → and_then os l p_flag r g ≡ and_then os l p_flag r h
  and_then_same l none g h e = refl
  and_then_same l (some w) g h e = e w

  -- The names that are no entries are passed over.
  pub pass_dots :
      (l : Bool) (s d : CharList) (names : List CharList) (w : W)
      → copy_entries os l p_flag
          (λ a b v. copy_directory os l p_flag f turns a b v)
          turns
          s
          d
          names
          w
        ≡ copy_entries os l p_flag
            (λ a b v. copy_directory os l p_flag f turns a b v)
            turns
            s
            d
            (real names)
            w
  unfolding copy_entries
  pass_dots l s d [] w = refl
  pass_dots l s d (name ∷ names) w =
      let go : List CharList → W → Option W = λ ns v.
        copy_entries os l p_flag (λ a b u. copy_directory os l p_flag f turns a b u) turns s d ns
          v in
      let stat_entry =
        copy_entry_stat os l p_flag (λ a b u. copy_directory os l p_flag f turns a b u) turns
          (join s name) (join d name) w (os.lstat (join s name) w) in
      elim (Bool-cases (is_dots name)) [
        | inl y ↦
            ap (λ b. and_then os l p_flag (if b then some w else stat_entry) (λ v. go names v)) y
            ∙ pass_dots l s d names w
            ∙ ap (λ b. go (if b then real names else name ∷ real names) w) (sym y)
        | inr n ↦
            and_then_same l (if is_dots name then some w else stat_entry) (λ v. go names v)
              (λ v. go (real names) v) (λ v. pass_dots l s d names v)
            ∙ ap (λ b. go (if b then real names else name ∷ real names) w) (sym n)
      ]

  pub entries_copied :
      (l : Bool) (ih : Down l) (s d : CharList) (es : Entries) (w : W)
      → Each os made Reading s es
      → depth_each es ≤ f
      → longest_each es < turns
      → Copy l (actions_each masked l p_flag d es) w (
          copy_entries os l p_flag
            (λ a b v. copy_directory os l p_flag f turns a b v)
            turns
            s
            d
            (names_of es)
            w)
  unfolding copy_entries Inside actions depth longest
  entries_copied l ih s d end w each deep short =
      (os.closedir s w, refl, laws.closedir_makes_nothing s w ∙ sym (append-nil (made w)))
  entries_copied l ih s d (entry name n es) w (plain, seen, stats, links, inside, each) deep short =
      let go : List CharList → W → Option W = λ ns v.
        copy_entries os l p_flag (λ a b u. copy_directory os l p_flag f turns a b u) turns s d ns
          v in
      let stat_entry =
        copy_entry_stat os l p_flag (λ a b u. copy_directory os l p_flag f turns a b u) turns
          (join s name) (join d name) w (os.lstat (join s name) w) in
      let (v, ran, first) =
        entry_copied l ih (join s name) (join d name) n w seen stats links inside (omega arith)
          (omega arith) in
      let (v', ran', rest) = entries_copied l ih s d es v each (omega arith) (omega arith) in
      (
        v',
        ap (λ b. and_then os l p_flag (if b then some w else stat_entry) (λ u. go (names_of es) u))
              plain
            ∙ ap (λ r. and_then os l p_flag r (λ u. go (names_of es) u)) ran
            ∙ ran',
        rest
            ∙ ap (λ x. x ++ actions_each masked l p_flag d es) first
            ∙ append_assoc (made w) (actions masked l p_flag (join d name) n)
                (actions_each masked l p_flag d es),
      )
