-- ===== src/Fs/Copy.antt =====
-- The copies of an inode on disk and in memory, in ex5/bonus/fs.c.
use os_course.Prelude.{ℕ, ◌≡◌, ◌∙◌, ap, true, false, none, some, arith, ◌==◌, ◌&&◌, if◌then◌else◌}
use os_course.Prelude.Int.{pos, ltb_ℤ, ◌<ℤ◌}
use os_course.Prelude.Word.{int_eq}
use os_course.Fs.{Inode, Disk, iupdate, load, ilock}

-- A locked inode that `iupdate` wrote, with an allocated type, is what `ilock` gives to every entry
-- for that device and number that is referenced and not valid, whatever else the entry holds: type,
-- device numbers, links, size, addresses and permissions.
ilock-iupdate :
    (ip stale : Inode) (disk : Disk)
    → stale.dev ≡ ip.dev
    → stale.inum ≡ ip.inum
    → stale.valid ≡ false
    → pos 0 <ℤ stale.ref
    → int_eq ip.content.type (pos 0) ≡ false
    → ilock stale (iupdate ip disk) ≡ some (record ip { ref = stale.ref; valid = true })
unfolding ilock iupdate
ilock-iupdate ip stale disk d i v r t =
    let found : iupdate ip disk stale.dev stale.inum ≡ ip.content =
      ap (λ b. if b then ip.content else disk stale.dev stale.inum) {y = true}
        (ground (arith, d, i)) in
    ap (λ b. if b then none else (if stale.valid then some stale else load stale (iupdate ip disk)))
      {x = ltb_ℤ stale.ref (pos 1)} {y = false} (ground (arith, r))
    ∙ ap (λ b. if b then some stale else load stale (iupdate ip disk)) v
    ∙ ap
        (λ c.
          if int_eq c.type (pos 0) then none else some (record stale { content = c; valid = true }))
        found
    ∙ ap (λ b. if b then none else some (record stale { content = ip.content; valid = true })) t
    ∙ ap (λ a. some (record stale { dev = a; content = ip.content; valid = true })) d
    ∙ ap (λ a. some (record ip { inum = a; ref = stale.ref; valid = true })) i

-- `iupdate` writes that inode and no other.
pub iupdate_others :
    (ip : Inode) (disk : Disk) (d i : ℕ)
    → (d == ip.dev && i == ip.inum) ≡ false
    → iupdate ip disk d i ≡ disk d i
unfolding iupdate
iupdate_others ip disk d i h = ap (λ t. if t then ip.content else disk d i) h
