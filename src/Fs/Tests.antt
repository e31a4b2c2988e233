-- ===== src/Fs/Tests.antt =====
-- A table of two entries for ex5/bonus/fs.c.
use os_course.Prelude.{zero, suc, refl, true, false, List, [], ◌∷◌, arith}
use os_course.Prelude.Int.{pos}
use os_course.Fs.{DiskInode, Inode, blank, no_inode, search, recycled, iget}
use os_course.Fs.Unique.{Unique, iget-Unique}
use os_course.Fs.{Disk}

-- a file with permissions 0700
abbrev file : DiskInode
file = record blank { type = pos 2; nlink = pos 1; size = 12; permissions = pos 448 }

abbrev open_entry : Inode
open_entry = record { dev = 1; inum = 7; ref = pos 2; valid = true; content = file }

abbrev table : List Inode
table = open_entry ∷ no_inode ∷ []

table-Unique : Unique table
table-Unique zero zero li lj ui uj d n = refl
table-Unique zero (suc zero) li lj ui uj d n = ground arith
table-Unique zero (suc (suc j)) li lj ui uj d n = absurd (omega arith)
table-Unique (suc zero) j li lj ui uj d n = ground arith
table-Unique (suc (suc i)) j li lj ui uj d n = absurd (omega arith)

-- The second entry becomes inode 9.
iget-Unique_example : Unique (open_entry ∷ recycled 1 9 no_inode ∷ [])
unfolding iget search
iget-Unique_example =
    iget-Unique 1 9 table 1 (open_entry ∷ recycled 1 9 no_inode ∷ []) table-Unique refl

abbrev stale_entry : Inode
stale_entry = record { dev = 1; inum = 7; ref = pos 1; valid = false; content = blank }

abbrev empty_disk : Disk
empty_disk d i = blank
