-- ===== src/Files/Chmod.antt =====
-- `sys_chmod` and `sys_getperm` of ex5/bonus/sysfile.c with `iput` of fs.c, on the table of inodes and
-- what the buffer cache shows of those on disk. `namei`, which takes a reference, and `itrunc` are
-- arguments.
use os_course.Prelude.{
  ℕ, ◌%◌, ◌<◌, ◌≡◌, length, ltb, get_or-set, ◌∙◌, sym, ap, true, false, Option, none, some, List,
  arith, ◌==◌, ◌&&◌, if◌then◌else◌, set, refl, Bool-cases, inl, inr,
}
use os_course.Prelude.Int.{ℤ, pos, ltb_ℤ, ◌<ℤ◌}
use os_course.Prelude.Word.{int_eq, int_pred, success, failure}
use os_course.Fs.{DiskInode, Inode, Disk, no_inode, inode, iupdate, load, ilock}
use os_course.Files.Open.{CharList}

pub record Store : Type 0 where
  pub table : List Inode
  pub disk : Disk

-- A write to the inode in memory.
abbrev pub put : ℕ → Inode → Store → Store
put k ip s = record s { table = set s.table k ip }

-- The last reference to an inode without links, once `itrunc` is done.
abbrev pub emptied : ℕ → Store → Store
emptied k s =
    let ip = inode s.table k in
    let free = record ip { content = record ip.content { type = pos 0 } } in
    record { table = set s.table k (record free { valid = false }); disk = iupdate free s.disk }

abbrev dropped : ℕ → Store → Store
dropped k s = let ip = inode s.table k in put k (record ip { ref = int_pred ip.ref }) s

module _ (itrunc : ℕ → Store → Store) where
  abbrev pub iput : ℕ → Store → Store
  iput k s =
      let ip = inode s.table k in
      dropped k (
        if int_eq ip.ref (pos 1) && ip.valid && int_eq ip.content.nlink (pos 0)
        then emptied k (itrunc k s)
        else s)

  abbrev pub with_mode : ℕ → Inode → Inode
  with_mode mode ip = record ip { content = record ip.content { permissions = pos (mode % 512) } }

  -- `none` is the panic of `ilock`.
  abbrev change_mode : ℕ → ℕ → Store → Option Inode → Option (ℤ × Store)
  change_mode mode k s none = none
  change_mode mode k s (some ip) =
      let ip' = with_mode mode ip in
      some (success, iput k (record { table = set s.table k ip'; disk = iupdate ip' s.disk }))

  abbrev read_mode : ℕ → Store → Option Inode → Option (ℤ × Store)
  read_mode k s none = none
  read_mode k s (some ip) = some (ip.content.permissions, iput k (put k ip s))

  abbrev chmod_found : ℕ → Option ℕ × Store → Option (ℤ × Store)
  chmod_found mode (none, s) = some (failure, s)
  chmod_found mode (some k, s) = change_mode mode k s (ilock (inode s.table k) s.disk)

  abbrev getperm_found : Option ℕ × Store → Option (ℤ × Store)
  getperm_found (none, s) = some (failure, s)
  getperm_found (some k, s) = read_mode k s (ilock (inode s.table k) s.disk)

  module _ (namei : CharList → Store → Option ℕ × Store) where
    -- `path` is nothing where `argstr` fails.
    unfoldable pub sys_chmod : Option CharList → ℕ → Store → Option (ℤ × Store)
    sys_chmod none mode s = some (failure, s)
    sys_chmod (some path) mode s = chmod_found mode (namei path s)

    unfoldable pub sys_getperm : Option CharList → Store → Option (ℤ × Store)
    sys_getperm none s = some (failure, s)
    sys_getperm (some path) s = getperm_found (namei path s)

-- An entry that agrees with the disk is locked with what is there.
ilock-content :
    (e : Inode) (disk : Disk) (c : DiskInode)
    → pos 0 <ℤ e.ref
    → int_eq c.type (pos 0) ≡ false
    → disk e.dev e.inum ≡ c
    → (e.valid ≡ true → e.content ≡ c)
    → (e' : Inode) × (ilock e disk ≡ some e') × (e'.content ≡ c)
unfolding ilock
ilock-content e disk c ref typed there fresh =
    let first : ilock e disk ≡ (if e.valid then some e else load e disk) =
      ap (λ b. if b then none else (if e.valid then some e else load e disk))
        {x = ltb_ℤ e.ref (pos 1)} {y = false} (ground (arith, ref)) in
    elim (Bool-cases e.valid) [
      | inl v ↦ (e, first ∙ ap (λ b. if b then some e else load e disk) v, fresh v)
      | inr v ↦ (
        record e { content = c; valid = true },
        first
            ∙ ap (λ b. if b then some e else load e disk) v
            ∙ ap
                (λ d.
                  if int_eq d.type (pos 0)
                  then none
                  else some (record e { content = d; valid = true }))
                there
            ∙ ap (λ b. if b then none else some (record e { content = c; valid = true })) typed,
        refl,
      )
    ]

abbrev store_in : Store → Option (ℤ × Store) → Store
store_in s none = s
store_in s (some r) = r.1

module _ (itrunc : ℕ → Store → Store) (namei : CharList → Store → Option ℕ × Store) where
  -- An inode with links is not freed.
  iput-disk :
      (k : ℕ) (s : Store)
      → int_eq (inode s.table k).content.nlink (pos 0) ≡ false
      → (iput itrunc k s).disk ≡ s.disk
  iput-disk k s h =
      let ip = inode s.table k in
      ap (λ b. (if b then emptied k (itrunc k s) else s).disk)
        {x = int_eq ip.ref (pos 1) && ip.valid && int_eq ip.content.nlink (pos 0)} {y = false}
        (ground (arith, h))

  -- What `sys_chmod` leaves on disk.
  chmod-disk :
      (path : CharList) (mode k : ℕ) (s s1 s2 : Store) (ip : Inode)
      → namei path s ≡ (some k, s1)
      → ilock (inode s1.table k) s1.disk ≡ some ip
      → k < length s1.table
      → int_eq ip.content.nlink (pos 0) ≡ false
      → sys_chmod itrunc namei (some path) mode s ≡ some (success, s2)
      → s2.disk ip.dev ip.inum ≡ (with_mode itrunc mode ip).content
  unfolding sys_chmod iupdate
  chmod-disk path mode k s s1 s2 ip found locked inside links done =
      let ip' = with_mode itrunc mode ip in
      let changed : Store = record { table = set s1.table k ip'; disk = iupdate ip' s1.disk } in
      let ran : sys_chmod itrunc namei (some path) mode s ≡ some (success, iput itrunc k changed) =
        ap (λ r. chmod_found itrunc mode r) found
        ∙ ap (λ o. change_mode itrunc mode k s1 o) locked in
      let here : inode changed.table k ≡ ip' =
        get_or-set s1.table k ip' k no_inode
        ∙ ap (λ b. if b then ip' else inode s1.table k) {x = k == k && ltb k (length s1.table)}
            {y = true} (ground (arith, inside)) in
      let on_disk : s2.disk ≡ changed.disk =
        ap (λ o. (store_in s o).disk) (sym done ∙ ran)
        ∙ iput-disk k changed (ap (λ x. int_eq x.content.nlink (pos 0)) here ∙ links) in
      ap (λ d. d ip.dev ip.inum) on_disk
      ∙ ap (λ b. if b then ip'.content else s1.disk ip.dev ip.inum)
          {x = ip.dev == ip.dev && ip.inum == ip.inum} {y = true} (ground arith)

  -- A mode that is set is read back, cut to its nine lower bits, through any entry of the table: when an
  -- inode has links and a type, `sys_chmod` returns success on it, its disk copy stays as it is from then
  -- on, and a path leads `namei` to a referenced entry for it, which is not valid or agrees with that copy,
  -- then `sys_getperm` on that path returns the mode.
  pub sys_getperm-sys_chmod :
      (path path' : CharList) (mode k k' : ℕ) (s s1 s2 s3 s4 : Store) (ip : Inode)
      → namei path s ≡ (some k, s1)
      → ilock (inode s1.table k) s1.disk ≡ some ip
      → k < length s1.table
      → int_eq ip.content.nlink (pos 0) ≡ false
      → int_eq ip.content.type (pos 0) ≡ false
      → sys_chmod itrunc namei (some path) mode s ≡ some (success, s2)
      → namei path' s3 ≡ (some k', s4)
      → s4.disk ip.dev ip.inum ≡ s2.disk ip.dev ip.inum
      → (inode s4.table k').dev ≡ ip.dev
      → (inode s4.table k').inum ≡ ip.inum
      → pos 0 <ℤ (inode s4.table k').ref
      → ((inode s4.table k').valid ≡ true → (inode s4.table k').content ≡ s4.disk ip.dev ip.inum)
      → (s5 : Store) × (sys_getperm itrunc namei (some path') s3 ≡ some (pos (mode % 512), s5))
  unfolding sys_getperm
  sys_getperm-sys_chmod path path' mode k k' s s1 s2 s3 s4 ip found locked inside links typed done
        found' same dev inum ref fresh =
      let e = inode s4.table k' in
      let c = (with_mode itrunc mode ip).content in
      let kept : s4.disk ip.dev ip.inum ≡ c =
        same ∙ chmod-disk path mode k s s1 s2 ip found locked inside links done in
      let (e', got, holds) =
        ilock-content e s4.disk c ref typed
          (ap (λ d. s4.disk d e.inum) dev ∙ ap (λ i. s4.disk ip.dev i) inum ∙ kept)
          (λ v. fresh v ∙ kept) in
      (
        iput itrunc k' (put k' e' s4),
        ap (λ r. getperm_found itrunc r) found'
            ∙ ap (λ o. read_mode itrunc k' s4 o) got
            ∙ ap (λ x. some (x.permissions, iput itrunc k' (put k' e' s4))) holds,
      )
