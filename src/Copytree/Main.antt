-- ===== src/Copytree/Main.antt =====
-- `main` of ex5/part3.c. `options` are the results of the calls of `getopt` before its -1, `optind` is
-- what it leaves, and `usage` prints the usage text.
use os_course.Prelude.{
  ℕ, suc, ◌+◌, Bool, false, Option, none, some, List, [], ◌∷◌, CharList, ◌==◌, ◌||◌, if◌then◌else◌,
  length, get_or,
}
use os_course.Copytree.{Posix, copy_directory}

-- The loop over the options; 'l' is 108 and 'p' is 112.
unfoldable pub flags_of : List ℕ → Bool → Bool → Option (Bool × Bool)
flags_of [] copy_symlinks copy_permissions = some (copy_symlinks, copy_permissions)
flags_of (opt ∷ options) copy_symlinks copy_permissions =
    let rest = flags_of options (opt == 108 || copy_symlinks) (opt == 112 || copy_permissions) in
    if opt == 108 || opt == 112 then rest else none

module _ {W : Type 0} (os : Posix W) (usage : W → W) where
  abbrev pub exits_with : ℕ → Option W → Option (ℕ × W)
  exits_with code none = none
  exits_with code (some w) = some (code, w)

  abbrev pub run : ℕ → ℕ → List CharList → ℕ → W → Option (Bool × Bool) → Option (ℕ × W)
  run depth turns argv optind w none = some (1, usage w)
  run depth turns argv optind w (some (copy_symlinks, copy_permissions)) =
      let copy =
        copy_directory os copy_symlinks copy_permissions depth turns (get_or argv optind [])
          (get_or argv (suc optind) []) w in
      if optind + 2 == length argv then exits_with 0 copy else some (1, usage w)

  -- The exit code, and the system afterwards; the fuel is that of `copy_directory`.
  unfoldable pub main : ℕ → ℕ → List CharList → List ℕ → ℕ → W → Option (ℕ × W)
  main depth turns argv options optind w =
      run depth turns argv optind w (flags_of options false false)
