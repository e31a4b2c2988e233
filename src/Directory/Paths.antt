-- ===== src/Directory/Paths.antt =====
-- `skipelem`, `namex`, `namei` and `nameiparent` of ex5/bonus/fs.c.
use os_course.Prelude.{
  ℕ, zero, suc, Bool, true, false, ◌&&◌, Option, none, some, List, [], ◌∷◌, ◌++◌, CharList, leb,
  ◌==◌, if◌then◌else◌, length, set, take, drop,
}
use os_course.Prelude.Int.{ℤ}
use os_course.Prelude.Word.{int_eq}
use os_course.Fs.{Inode, Disk, inode, iget, idup, ilock}
use os_course.Fs.Blocks.{SuperBlock, Blocks}
use os_course.Fs.Content.{Held}
use os_course.Files.Chmod.{Store, iput}
use os_course.Directory.{dirsiz, Memory, first, dirlookup}

-- The loops over a path; '/' is 47.
unfoldable pub skip_slashes : CharList → CharList
skip_slashes [] = []
skip_slashes (c ∷ path) = let rest = skip_slashes path in if c == 47 then rest else c ∷ path

unfoldable pub element : CharList → CharList
element [] = []
element (c ∷ path) = let rest = element path in if c == 47 then [] else c ∷ rest

unfoldable pub after_element : CharList → CharList
after_element [] = []
after_element (c ∷ path) = let rest = after_element path in if c == 47 then c ∷ path else rest

-- The bytes of the array `name`, of which a short element leaves the last as they were.
abbrev pub into_name : CharList → List ℕ → List ℕ
into_name s name =
    if leb dirsiz (length s) then take dirsiz s else s ++ 0 ∷ drop (suc (length s)) name

abbrev pub with_element : List ℕ → CharList → Option (CharList × List ℕ)
with_element name [] = none
with_element name (c ∷ path) =
    some (skip_slashes (after_element (c ∷ path)), into_name (element (c ∷ path)) name)

unfoldable pub skipelem : CharList → List ℕ → Option (CharList × List ℕ)
skipelem path name = with_element name (skip_slashes path)

abbrev pub is_empty {ℓ} : {A : Type ℓ} → List A → Bool
is_empty [] = true
is_empty (x ∷ xs) = false

pub record World : Type 0 where
  pub table : List Inode
  pub disk : Disk
  pub blocks : Blocks
  pub memory : Memory

-- What `namex` returns, and the array `name`; `none` is a panic.
abbrev pub Walked : Type 0
Walked = Option (Option ℕ × List ℕ × World)

module _ (copyout : ℕ → List ℕ → Memory → Option Memory) (copyin : ℕ → ℕ → Memory → Option (List ℕ))
    (sb : SuperBlock) (de : ℕ) (t_dir : ℤ) (itrunc : ℕ → Store → Store)
    (rootdev rootino cwd : ℕ) where
  abbrev pub put_away : ℕ → World → World
  put_away k w =
      let s = iput itrunc k (record { table = w.table; disk = w.disk }) in
      record w { table = s.table; disk = s.disk }

  -- The directory `k` is unlocked, with what `dirlookup` has made of it.
  abbrev pub unlocked : ℕ → Held Memory → List Inode → World
  unlocked k h t = record {
    table = set t k (record (inode t k) { valid = h.ip.valid; content = h.ip.content });
    disk = h.disk;
    blocks = h.blocks;
    memory = h.memory;
  }

  abbrev pub looked_up :
      (ℕ → World → Walked)
      → List ℕ
      → ℕ
      → Option (Option (ℕ × ℕ) × Held Memory × List Inode)
      → Walked
  looked_up next name k none = none
  looked_up next name k (some (none, h, t)) = some (none, name, put_away k (unlocked k h t))
  looked_up next name k (some (some (off, k'), h, t)) = next k' (put_away k (unlocked k h t))

  abbrev pub locked :
      (ℕ → World → Walked) → Bool → Bool → List ℕ → ℕ → World → Option Inode → Walked
  locked next stop last name k w none = none
  locked next stop last name k w (some ip) =
      let w' = record w { table = set w.table k ip } in
      let held : Held Memory = record {
        ip = ip;
        disk = w.disk;
        blocks = w.blocks;
        memory = w.memory;
      } in
      let down = looked_up next name k (dirlookup copyout copyin sb de t_dir name held w'.table) in
      if int_eq ip.content.type t_dir
      then (if stop && last then some (some k, name, w') else down)
      else some (none, name, put_away k w')

  -- A turn of the loop, for the element in `name`; `stop` is `nameiparent`.
  abbrev pub turn : (ℕ → World → Walked) → Bool → Bool → List ℕ → ℕ → World → Walked
  turn next stop last name k w = locked next stop last name k w (ilock (inode w.table k) w.disk)

  abbrev pub at_end : Bool → List ℕ → ℕ → World → Walked
  at_end stop name k w = if stop then some (none, name, put_away k w) else some (some k, name, w)

  abbrev pub with_next :
      (CharList → List ℕ → ℕ → World → Walked)
      → Bool
      → List ℕ
      → ℕ
      → World
      → Option (CharList × List ℕ)
      → Walked
  with_next next stop name k w none = at_end stop name k w
  with_next next stop name k w (some (path, name')) =
      turn (λ k' v. next path name' k' v) stop (is_empty path) name' k w

  unfoldable pub namex_from : ℕ → Bool → CharList → List ℕ → ℕ → World → Walked
  namex_from zero stop path name k w = none
  namex_from (suc turns) stop path name k w =
      let next : CharList → List ℕ → ℕ → World → Walked =
        λ p n k' v. namex_from turns stop p n k' v in
      with_next next stop name k w (skipelem path name)

  abbrev pub from_root : (ℕ → World → Walked) → World → Option (ℕ × List Inode) → Walked
  from_root next w none = none
  from_root next w (some (k, t)) = next k (record w { table = t })

  -- A turn takes an element off the path, so that its length is fuel enough.
  unfoldable pub namex : CharList → Bool → List ℕ → World → Walked
  namex path stop name w =
      let run : ℕ → World → Walked = λ k v. namex_from (suc (length path)) stop path name k v in
      let root = from_root run w (iget rootdev rootino w.table) in
      let here = run cwd (record w { table = idup cwd w.table }) in
      if first path == 47 then root else here

  -- `name` is the array of `namei`, of any content.
  abbrev pub namei : CharList → List ℕ → World → Walked
  namei path name w = namex path false name w

  abbrev pub nameiparent : CharList → List ℕ → World → Walked
  nameiparent path name w = namex path true name w
