-- ===== src/Copytree/Tree.antt =====
-- What ex5/copytree.c copies: a tree of files, directories and links, and what the copy of one is made
-- of.
use os_course.Prelude.{
  ℕ, suc, ◌-◌, ◌≡◌, Bool, true, false, Option, none, some, List, [], ◌∷◌, ◌++◌, CharList,
  if◌then◌else◌, length,
}
use Prim.Native.Nat.{max}
use os_course.Prelude.Int.{pos}
use os_course.Copytree.{is_link, is_dir, is_other, Stat, Error, Posix, path_max, join, is_dots}

-- A link has its text and what it leads to, which may be a link again.
mutual
  pub data Node : Type 0 where
    file : ℕ → CharList → Node
    folder : ℕ → Entries → Node
    link : CharList → Node → Node
    dangling : CharList → Node

  pub data Entries : Type 0 where
    end : Entries
    entry : CharList → Node → Entries → Entries

-- What `lstat` and `stat` say of a node.
abbrev pub lstat_of : Node → Stat
lstat_of (file mode bytes) = record { kind = is_other; mode = mode }
lstat_of (folder mode es) = record { kind = is_dir; mode = mode }
lstat_of (link text n) = record { kind = is_link; mode = 511 }
lstat_of (dangling text) = record { kind = is_link; mode = 511 }

-- The node at the end of a chain of links.
abbrev pub resolve : Node → Node
resolve (file mode bytes) = file mode bytes
resolve (folder mode es) = folder mode es
resolve (link text n) = resolve n
resolve (dangling text) = dangling text

abbrev pub stat_at_end : Node → Option Stat
stat_at_end (file mode bytes) = some (record { kind = is_other; mode = mode })
stat_at_end (folder mode es) = some (record { kind = is_dir; mode = mode })
stat_at_end (link text n) = none
stat_at_end (dangling text) = none

abbrev pub stat_of : Node → Option Stat
stat_of n = stat_at_end (resolve n)

abbrev pub names_of : Entries → List CharList
names_of end = []
names_of (entry name n es) = name ∷ names_of es

-- Without "." and "..".
abbrev pub real : List CharList → List CharList
real [] = []
real (name ∷ names) = let rest = real names in if is_dots name then rest else name ∷ rest

-- One step in the making of a copy.
pub data Action : Type 0 where
  make_dir : CharList → ℕ → Action
  make_link : CharList → CharList → Action
  make_file : CharList → CharList → Action
  set_mode : CharList → ℕ → Action

-- `masked` is what the umask leaves of a mode.
module _ (masked : ℕ → ℕ) (copy_symlinks copy_permissions : Bool) where
  unfoldable mutual
    pub actions : CharList → Node → List Action
    actions dest (file mode bytes) =
        make_file dest bytes ∷ (if copy_permissions then set_mode dest mode ∷ [] else [])
    actions dest (folder mode es) =
        make_dir dest (masked (if copy_permissions then mode else 493)) ∷ actions_each dest es
    actions dest (link text n) =
        let followed = actions dest n in
        if copy_symlinks then make_link dest text ∷ [] else followed
    actions dest (dangling text) = if copy_symlinks then make_link dest text ∷ [] else []

    pub actions_each : CharList → Entries → List Action
    actions_each dest end = []
    actions_each dest (entry name n es) = actions (join dest name) n ++ actions_each dest es

-- How deep the directories go, those that links lead to included.
unfoldable mutual
  pub depth : Node → ℕ
  depth (file mode bytes) = 0
  depth (folder mode es) = suc (depth_each es)
  depth (link text n) = depth n
  depth (dangling text) = 0

  pub depth_each : Entries → ℕ
  depth_each end = 0
  depth_each (entry name n es) = max (depth n) (depth_each es)

-- The length of the longest file.
unfoldable mutual
  pub longest : Node → ℕ
  longest (file mode bytes) = length bytes
  longest (folder mode es) = longest_each es
  longest (link text n) = longest n
  longest (dangling text) = 0

  pub longest_each : Entries → ℕ
  longest_each end = 0
  longest_each (entry name n es) = max (longest n) (longest_each es)

module _ {W : Type 0} (os : Posix W) (made : W → List Action)
    (Reading : ℕ → CharList → W → Type 0) where
  -- Whatever is done meanwhile, the system shows the node at the path `p`, reached through `p`: its
  -- content, its names, and below each name its entries. `made` is what has been made, and `Reading fd b`
  -- says that `fd` is open with the bytes `b` left to read.
  unfoldable mutual
    pub Inside : CharList → Node → Type 0
    Inside p (file mode bytes) =
        (w : W)
        → (fd : ℕ) × (w' : W) × (os.open_src p w ≡ (some fd, w'))
          × Reading fd bytes w'
          × (made w' ≡ made w)
    Inside p (folder mode es) =
        ((w : W)
          → (names : List CharList) × (w' : W) × (os.opendir p w ≡ (some names, w'))
            × (real names ≡ names_of es)
            × (made w' ≡ made w))
        × Each p es
    Inside p (link text n) = Inside p n
    Inside p (dangling text) =
        (w : W) → (w' : W) × (os.open_src p w ≡ (none, w')) × (made w' ≡ made w)

    pub Each : CharList → Entries → Type 0
    Each p end = Unit {0}
    Each p (entry name n es) =
        (is_dots name ≡ false)
        × ((w : W) → os.lstat (join p name) w ≡ some (lstat_of n))
        × ((w : W) → os.stat (join p name) w ≡ stat_of n)
        × Links (join p name) n
        × Inside (join p name) n
        × Each p es

    -- The text of the link that a path itself is.
    pub Links : CharList → Node → Type 0
    Links p (file mode bytes) = Unit {0}
    Links p (folder mode es) = Unit {0}
    Links p (link text n) = (w : W) → os.readlink p (path_max - 1) w ≡ some text
    Links p (dangling text) = (w : W) → os.readlink p (path_max - 1) w ≡ some text

  -- What the manual pages say of the calls that write, while none fails, of `read`, and of those that
  -- make nothing. `Writing fd d` says that `fd` is open for the file `d`, the last that was made.
  pub record Lawful (masked : ℕ → ℕ) (Writing : ℕ → CharList → W → Type 0) : Type 0 where
    pub mkdir_makes :
        (d : CharList) (mode : ℕ) (w : W)
        → (w' : W) × (os.mkdir d mode w ≡ (true, w'))
          × (made w' ≡ made w ++ make_dir d (masked mode) ∷ [])
    pub symlink_makes :
        (text d : CharList) (w : W)
        → (w' : W) × (os.symlink text d w ≡ (true, w'))
          × (made w' ≡ made w ++ make_link d text ∷ [])
    pub chmod_sets :
        (d : CharList) (mode : ℕ) (w : W)
        → (w' : W) × (os.chmod d mode w ≡ (true, w')) × (made w' ≡ made w ++ set_mode d mode ∷ [])
    pub open_makes :
        (d : CharList) (s : ℕ) (b : CharList) (w : W)
        → Reading s b w
        → (fd : ℕ) × (w' : W) × (os.open_dest d w ≡ (some fd, w'))
          × (made w' ≡ made w ++ make_file d [] ∷ [])
          × Writing fd d w'
          × Reading s b w'
    pub read_reads :
        (s fd : ℕ) (b d : CharList) (w : W)
        → Reading s b w
        → Writing fd d w
        → (chunk rest : CharList) × (w' : W) × (os.read s 4096 w ≡ (some chunk, w'))
          × (b ≡ chunk ++ rest)
          × (chunk ≡ [] → b ≡ [])
          × (made w' ≡ made w)
          × Writing fd d w'
          × Reading s rest w'
    pub write_writes :
        (s fd : ℕ) (b d bytes old : CharList) (log : List Action) (w : W)
        → Reading s b w
        → Writing fd d w
        → made w ≡ log ++ make_file d old ∷ []
        → (w' : W) × (os.write fd bytes w ≡ (pos (length bytes), w'))
          × (made w' ≡ log ++ make_file d (old ++ bytes) ∷ [])
          × Writing fd d w'
          × Reading s b w'
    pub close_makes_nothing : (fd : ℕ) (w : W) → made (os.close fd w) ≡ made w
    pub closedir_makes_nothing : (p : CharList) (w : W) → made (os.closedir p w) ≡ made w
    pub perror_makes_nothing : (e : Error) (w : W) → made (os.perror e w) ≡ made w
