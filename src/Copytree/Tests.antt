-- ===== src/Copytree/Tests.antt =====
-- A directory with a file and a link to it, for ex5/copytree.c.
use os_course.Prelude.{
  ℕ, ◌≡◌, refl, true, false, Option, none, some, List, [], ◌∷◌, ◌++◌, CharList, ◌==◌, if◌then◌else◌,
  length, take, drop,
}
use os_course.Prelude.Int.{pos}
use os_course.Copytree.{Posix}
use os_course.Copytree.Tree.{
  Node, file, folder, link, dangling, Entries, end, entry, lstat_of, resolve, stat_of, names_of,
  Action, make_dir, make_link, make_file, set_mode, actions,
}

-- What was made, and what is left to read of the open file.
record World : Type 0 where
  log : List Action
  left : CharList

abbrev a_file : Node
a_file = file 420 (1 ∷ 2 ∷ [])

abbrev listing : Entries
listing = entry (97 ∷ []) a_file (entry (98 ∷ []) (link (97 ∷ []) a_file) end)

abbrev node_at : CharList → Node
node_at (a ∷ []) = folder 488 listing
node_at (a ∷ b ∷ c ∷ []) = if c == 97 then a_file else link (97 ∷ []) a_file
node_at _ = dangling []

abbrev text_of : Node → Option CharList
text_of (link text n) = some text
text_of _ = none

abbrev opens : Node → World → Option ℕ × World
opens (file mode bytes) w = (some 3, record w { left = bytes })
opens _ w = (none, w)

abbrev lists : Node → Option (List CharList)
lists (folder mode es) = some ((46 ∷ []) ∷ (46 ∷ 46 ∷ []) ∷ names_of es)
lists _ = none

abbrev extended : List Action → CharList → List Action
extended [] bytes = []
extended (make_file d b ∷ []) bytes = make_file d (b ++ bytes) ∷ []
extended (a ∷ []) bytes = a ∷ []
extended (a ∷ b ∷ log) bytes = a ∷ extended (b ∷ log) bytes

abbrev add : Action → World → World
add a w = record w { log = w.log ++ a ∷ [] }

abbrev memory : Posix World
memory = record {
  lstat = λ p w. some (lstat_of (node_at p));
  stat = λ p w. stat_of (node_at p);
  readlink = λ p n w. text_of (node_at p);
  symlink = λ text d w. (true, add (make_link d text) w);
  open_src = λ p w. opens (resolve (node_at p)) w;
  open_dest = λ d w. (some 4, add (make_file d []) w);
  read = λ fd n w. (some (take n w.left), record w { left = drop n w.left });
  write = λ fd bytes w. (pos (length bytes), record w { log = extended w.log bytes });
  close = λ fd w. w;
  chmod = λ d mode w. (true, add (set_mode d mode) w);
  mkdir = λ d mode w. (true, add (make_dir d mode) w);
  opendir = λ p w. (lists (node_at p), w);
  closedir = λ p w. w;
  perror = λ e w. w;
}

abbrev Reading : ℕ → CharList → World → Type 0
Reading fd b w = w.left ≡ b

abbrev Writing : ℕ → CharList → World → Type 0
Writing fd d w = Unit {0}

abbrev made : World → List Action
made w = w.log

abbrev at_start : World
at_start = record { log = []; left = [] }

abbrev whole : Node
whole = folder 488 listing

-- The link is followed, and each mode is set.
whole_actions :
    actions (λ mode. mode) false true (100 ∷ []) whole
    ≡ make_dir (100 ∷ []) 488
      ∷ make_file (100 ∷ 47 ∷ 97 ∷ []) (1 ∷ 2 ∷ [])
      ∷ set_mode (100 ∷ 47 ∷ 97 ∷ []) 420
      ∷ make_file (100 ∷ 47 ∷ 98 ∷ []) (1 ∷ 2 ∷ [])
      ∷ set_mode (100 ∷ 47 ∷ 98 ∷ []) 420
      ∷ []
unfolding actions
whole_actions = refl
