-- ===== src/Directory/Walk.antt =====
-- The walk along the elements of a path that `namex` of ex5/bonus/fs.c is.
use os_course.Prelude.{
  ℕ, ◌≡◌, Bool, true, false, Option, none, some, ◌≢◌, ◌⊎◌, set, List, [], ◌∷◌, CharList,
}
use os_course.Prelude.Int.{ℤ}
use os_course.Fs.Content.{Held}
use os_course.Fs.{Inode, inode, ilock}
use os_course.Fs.Blocks.{SuperBlock}
use os_course.Files.Chmod.{Store, iput}
use os_course.Directory.{Memory, dirlookup}
use os_course.Directory.Paths.{into_name, World, Walked}

module _ (copyout : ℕ → List ℕ → Memory → Option Memory) (copyin : ℕ → ℕ → Memory → Option (List ℕ))
    (sb : SuperBlock) (de : ℕ) (t_dir : ℤ) (itrunc : ℕ → Store → Store)
    (rootdev rootino cwd : ℕ) where
  -- The pointer to the inode `k` is put: only its entry of the table and its inode on disk may change.
  pub record IsPut (k : ℕ) (w w' : World) : Type 0 where
    table : w'.table ≡ (iput itrunc k (record { table = w.table; disk = w.disk })).table
    disk : w'.disk ≡ (iput itrunc k (record { table = w.table; disk = w.disk })).disk
    blocks : w'.blocks ≡ w.blocks
    memory : w'.memory ≡ w.memory

  -- The directory `k` is given back as `dirlookup` left it.
  pub record IsUnlocked (k : ℕ) (h : Held Memory) (t : List Inode) (w : World) : Type 0 where
    table : w.table ≡ set t k (record (inode t k) { valid = h.ip.valid; content = h.ip.content })
    disk : w.disk ≡ h.disk
    blocks : w.blocks ≡ h.blocks
    memory : w.memory ≡ h.memory

  -- The inode `k` can be locked, and the walk goes on if it is a directory; `nameiparent` goes on only
  -- before the last element.
  pub record Looks (stop : Bool) (es : List CharList) (k : ℕ) (w : World) (ip : Inode)
      : Type 0 where
    locks : ilock (inode w.table k) w.disk ≡ some ip
    is_dir : ip.content.type ≡ t_dir
    goes_on : (stop ≡ false) ⊎ (es ≢ [])

  abbrev pub lookup :
      CharList → List ℕ → ℕ → World → Inode → Option (Option (ℕ × ℕ) × Held Memory × List Inode)
  lookup e name k w ip =
      dirlookup copyout copyin sb de t_dir (into_name e name)
        (record { ip = ip; disk = w.disk; blocks = w.blocks; memory = w.memory }) (set w.table k ip)

  -- What a walk from inode `k` along the elements of a path comes to, with the array `name`; with
  -- `stop` it is one of `nameiparent`.
  pub data Walks (stop : Bool) : List CharList → List ℕ → ℕ → World → Walked → Type 0 where
    arrives :
        {name : List ℕ} {k : ℕ} {w : World}
        → stop ≡ false
        → Walks stop [] name k w (some (some k, name, w))
    no_parent :
        {name : List ℕ} {k : ℕ} {w w' : World}
        → stop ≡ true
        → IsPut k w w'
        → Walks stop [] name k w (some (none, name, w'))
    lock_panics :
        {e : CharList} {es : List CharList} {name : List ℕ} {k : ℕ} {w : World}
        → ilock (inode w.table k) w.disk ≡ none
        → Walks stop (e ∷ es) name k w none
    no_directory :
        {e : CharList} {es : List CharList} {name : List ℕ} {k : ℕ} {w w' : World} (ip : Inode)
        → ilock (inode w.table k) w.disk ≡ some ip
        → ip.content.type ≢ t_dir
        → IsPut k (record w { table = set w.table k ip }) w'
        → Walks stop (e ∷ es) name k w (some (none, into_name e name, w'))
    at_parent :
        {e : CharList} {name : List ℕ} {k : ℕ} {w : World} (ip : Inode)
        → ilock (inode w.table k) w.disk ≡ some ip
        → ip.content.type ≡ t_dir
        → stop ≡ true
        → Walks stop
            (e ∷ [])
            name
            k
            w
            (some (some k, into_name e name, record w { table = set w.table k ip }))
    lookup_panics :
        {e : CharList} {es : List CharList} {name : List ℕ} {k : ℕ} {w : World} (ip : Inode)
        → Looks stop es k w ip
        → lookup e name k w ip ≡ none
        → Walks stop (e ∷ es) name k w none
    missing :
        {e : CharList} {es : List CharList} {name : List ℕ} {k : ℕ} {w u w' : World} (ip : Inode)
        (h : Held Memory) (t : List Inode)
        → Looks stop es k w ip
        → lookup e name k w ip ≡ some (none, h, t)
        → IsUnlocked k h t u
        → IsPut k u w'
        → Walks stop (e ∷ es) name k w (some (none, into_name e name, w'))
    down :
        {e : CharList} {es : List CharList} {name : List ℕ} {k : ℕ} {w u w' : World} {r : Walked}
        (ip : Inode) (off k' : ℕ) (h : Held Memory) (t : List Inode)
        → Looks stop es k w ip
        → lookup e name k w ip ≡ some (some (off, k'), h, t)
        → IsUnlocked k h t u
        → IsPut k u w'
        → Walks stop es (into_name e name) k' w' r
        → Walks stop (e ∷ es) name k w r
