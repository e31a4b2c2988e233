-- ===== src/Fs/Allocate.antt =====
-- The allocation of inodes of ex5/bonus/fs.c and the permission test of sysfile.c.
use os_course.Prelude.{
  ℕ, zero, suc, ◌+◌, ◌-◌, ◌<◌, ◌≤◌, ◌≡◌, ◌∙◌, sym, ap, true, Option, none, some, List, arith, ◌&&◌,
  if◌then◌else◌, Bool-cases, inl, inr,
}
use mathlib.Core.Option.{some-injective}
use os_course.Prelude.Int.{ℤ, pos}
use os_course.Prelude.Word.{int_eq, success}
use os_course.Fs.{
  Inode, Disk, fresh_inode, write_inode, referenced_at, ialloc_from, ialloc, iget, check_permission,
}

-- Opening for reading and writing is permitted exactly when opening for reading and opening for
-- writing both are, whatever the permission bits.
pub check_permission-rdwr :
    (ip : Inode)
    → int_eq (check_permission ip 2) success
      ≡ int_eq (check_permission ip 0) success && int_eq (check_permission ip 1) success
unfolding check_permission
check_permission-rdwr ip = ground arith

-- What the loop of `ialloc` says when it returns a pointer.
abbrev Made :
    (n inum dev : ℕ) (kind : ℤ) (disk : Disk) (t : List Inode) (k : ℕ) (disk' : Disk)
    (t' : List Inode)
    → Type 0
Made n inum dev kind disk t k disk' t' =
    (m : ℕ) × (inum ≤ m)
    × (m < inum + n)
    × (int_eq (disk dev m).type (pos 0) ≡ true)
    × (disk' ≡ write_inode dev m (fresh_inode kind) disk)
    × (iget dev m t ≡ some (k, t'))

from_iget :
    (disk disk' : Disk) (o : Option (ℕ × List Inode)) (k : ℕ) (t' : List Inode)
    → referenced_at disk o ≡ some (some k, disk', t')
    → (disk' ≡ disk) × (o ≡ some (k, t'))
from_iget disk disk' none k t' e = ground arith
from_iget disk disk' (some (j, u)) k t' e =
    let same = some-injective _ _ e in
    (
      sym (ap (λ r. r.1) same),
      ap (λ a. some (a, u)) (some-injective j k (ap (λ r. r.0) same))
          ∙ ap (λ b. some (k, b)) (ap (λ r. r.2) same),
    )

ialloc_from-Made :
    (n inum dev : ℕ) (kind : ℤ) (disk : Disk) (t : List Inode) (k : ℕ) (disk' : Disk)
    (t' : List Inode)
    → ialloc_from n inum dev kind disk t ≡ some (some k, disk', t')
    → Made n inum dev kind disk t k disk' t'
unfolding ialloc_from
ialloc_from-Made zero inum dev kind disk t k disk' t' got = ground arith
ialloc_from-Made (suc n) inum dev kind disk t k disk' t' got =
    let rest = ialloc_from n (suc inum) dev kind disk t in
    let taken = referenced_at (write_inode dev inum (fresh_inode kind) disk) (iget dev inum t) in
    elim (Bool-cases (int_eq (disk dev inum).type (pos 0))) [
      | inl e ↦
          (let (wrote, took) =
              from_iget (write_inode dev inum (fresh_inode kind) disk) disk' (iget dev inum t) k t'
                (sym (ap (λ b. if b then taken else rest) e) ∙ got) in
            (inum, omega arith, omega arith, e, wrote, took))
      | inr e ↦
          (let (m, le, lt, free, wrote, took) =
              ialloc_from-Made n (suc inum) dev kind disk t k disk' t'
                (sym (ap (λ b. if b then taken else rest) e) ∙ got) in
            (m, omega (arith, le), omega (arith, lt), free, wrote, took))
    ]

-- When `ialloc` returns a pointer, it is what `iget` gives for an inode `m` from 1 up to the disk's
-- number of inodes that was free on disk, and the disk is changed at `m` alone, to an inode of the
-- type asked for with nothing in it but the permissions 0700.
ialloc_lem :
    (ninodes dev : ℕ) (kind : ℤ) (disk : Disk) (t : List Inode) (k : ℕ) (disk' : Disk)
    (t' : List Inode)
    → 0 < ninodes
    → ialloc ninodes dev kind disk t ≡ some (some k, disk', t')
    → (m : ℕ) × (0 < m)
      × (m < ninodes)
      × (int_eq (disk dev m).type (pos 0) ≡ true)
      × (disk' ≡ write_inode dev m (fresh_inode kind) disk)
      × (iget dev m t ≡ some (k, t'))
unfolding ialloc
ialloc_lem ninodes dev kind disk t k disk' t' h got =
    let (m, le, lt, free, wrote, took) =
      ialloc_from-Made (ninodes - 1) 1 dev kind disk t k disk' t' got in
    (m, omega (arith, le), omega (arith, lt, le, h), free, wrote, took)
