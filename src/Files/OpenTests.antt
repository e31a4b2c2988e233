-- ===== src/Files/OpenTests.antt =====
-- A file system with one file, number 5, for `sys_open` of ex5/bonus/sysfile.c. The state counts how
-- often the file was emptied.
use os_course.Prelude.{false, ℕ, ◌+◌, ◌≡◌, refl, true, Option, none, some, [], ◌∷◌, arith}
use os_course.Prelude.Int.{pos, negsuc}
use os_course.Fs
use os_course.Files.Chmod.{Store, iput, with_mode, sys_chmod, sys_getperm, sys_getperm-sys_chmod}
use os_course.Fs.{Disk, referenced, iupdate, ilock, Inode, blank, check_permission}
use os_course.Files.Open.{CharList, FileSystem, sys_open}
use os_course.Files.Permit.{Permits, sys_open-Permits}

-- A regular file with the permission bits `bits`.
abbrev node : ℕ → Inode
node bits = record {
  dev = 1;
  inum = 5;
  ref = pos 1;
  valid = true;
  content = record blank { type = pos 2; nlink = pos 1; permissions = pos bits };
}

abbrev one_file : ℕ → FileSystem ℕ
one_file bits = record {
  begin_op = λ w. w;
  end_op = λ w. w;
  namei = λ path w. (some 5, w);
  create = λ path w. (none, w);
  ilock = λ ip w. w;
  iunlock = λ ip w. w;
  iunlockput = λ ip w. w;
  itrunc = λ ip w. w + 1;
  inode = λ ip w. node bits;
  filealloc = λ w. (some 0, w);
  fdalloc = λ f w. (some 3, w);
  fileclose = λ f w. w;
  set_file = λ f file w. w;
  t_dir = pos 1;
  t_file = pos 2;
  t_device = pos 3;
  ndev = pos 10;
  o_create = 9;
  o_trunc = 10;
}

abbrev path : CharList
path = 97 ∷ []

readable_opens : sys_open (one_file 448) (some path) 0 0 ≡ (pos 3, 0)
unfolding sys_open check_permission
readable_opens = refl

-- O_WRONLY on a file that nobody may write.
locked_stays_shut : (sys_open (one_file 0) (some path) 1 0).0 ≡ negsuc 0
unfolding sys_open check_permission
locked_stays_shut = refl

sys_open-Permits_example :
    (ip : ℕ) × (v : ℕ) × ((one_file 448).namei path 0 ≡ (some ip, v)) × Permits 0 (node 448)
sys_open-Permits_example = sys_open-Permits (one_file 448) path 0 3 0 0 refl readable_opens

-- The mode 0200 set on a file with the mode 0700, and more bits that are cut off.
abbrev on_disk : Disk
on_disk dev inum = (node 448).content

abbrev at_rest : Store
at_rest = record { table = record (node 0) { ref = pos 0; valid = false } ∷ []; disk = on_disk }

abbrev only_file : CharList → Store → Option ℕ × Store
only_file name s = (some 0, record s { table = referenced (Fs.inode s.table 0) ∷ [] })

abbrev no_trunc : ℕ → Store → Store
no_trunc k s = s

abbrev changed : Store
changed = iput no_trunc 0 (record {
  table = with_mode no_trunc 640 (node 448) ∷ [];
  disk = iupdate (with_mode no_trunc 640 (node 448)) on_disk;
})

abbrev found_again : Store
found_again = (only_file path changed).1

changes : sys_chmod no_trunc only_file (some path) 640 at_rest ≡ some (pos 0, changed)
unfolding sys_chmod ilock
changes = refl

locks : ilock (Fs.inode (only_file path at_rest).1.table 0) on_disk ≡ some (node 448)
unfolding ilock
locks = refl

sys_getperm-sys_chmod_example :
    (s5 : Store) × (sys_getperm no_trunc only_file (some path) changed ≡ some (pos 128, s5))
unfolding iupdate
sys_getperm-sys_chmod_example =
    sys_getperm-sys_chmod no_trunc only_file path path 640 0 0 at_rest (only_file path at_rest).1
      changed changed found_again (node 448) refl locks (omega arith) refl refl changes refl refl
      refl refl (omega arith) (λ v. refl)
