-- ===== src/Directory/Tests.antt =====
-- A directory of two entries, and paths, for ex5/bonus/fs.c.
use os_course.Prelude.{
  false, zero, suc, ◌<◌, ℕ, ◌*◌, ◌≡◌, ap, refl, arith, true, some, List, [], ◌∷◌, ◌++◌, CharList,
  ◌==◌, if◌then◌else◌, length, replicate, length-replicate,
}
use os_course.Prelude.Int.{pos}
use os_course.Fs.{DiskInode, Inode, blank, no_inode, iget}
use os_course.Fs.Blocks.{SuperBlock, Blocks}
use os_course.Fs.Content.{Held}
use os_course.Fs.Content.Map.{Mapped}
use os_course.Fs.Content.Plain.{store, fetch, memory-Copies}
use os_course.Prelude.Word.{success}
use os_course.Directory.{bytes_from, strncmp_equal, dirlink, dirent_size, Memory, dirlookup}
use os_course.Directory.Slots.{slot_name, slot_inum, is_named}
use os_course.Directory.Link.{dirlookup-dirlink}
use os_course.Directory.Lookup.{Points}
use os_course.Directory.Paths.{World, Walked, namex}
use os_course.Directory.Elements.{elements}

abbrev sb : SuperBlock
sb = record { size = 1000; bmapstart = 3 }

-- A free entry, and "ab" with the number 7.
abbrev listing : List ℕ
listing = replicate 16 0 ++ 7 ∷ 0 ∷ 97 ∷ 98 ∷ replicate 12 0 ++ replicate 992 0

abbrev a_directory : DiskInode
a_directory = record blank { type = pos 1; size = 32; addrs = 5 ∷ replicate 12 0 }

abbrev root : Inode
root = record { dev = 1; inum = 1; ref = pos 1; valid = true; content = a_directory }

abbrev disk_blocks : Blocks
disk_blocks b = if b == 5 then listing else replicate 1024 0

abbrev held : Held Memory
held = record { ip = root; disk = λ d i. a_directory; blocks = disk_blocks; memory = λ x. 9 }

whole_blocks : (b : ℕ) → length (disk_blocks b) ≡ 1024
whole_blocks b =
    ground
      (arith, ap (λ n. n) {x = length listing} {y = 1024} refl, length-replicate {A = ℕ} 1024 0)

held-Mapped : Mapped a_directory disk_blocks 1
held-Mapped = record {
  small = omega arith;
  found = elim [ zero ↦ λ h. omega arith | suc n ↦ λ h. absurd (omega arith) ];
  tree = λ h. absurd (omega arith);
  apart = λ a b ha hb e. omega arith;
  clear = λ n h l. absurd (omega arith);
  whole = whole_blocks;
}

abbrev ab : CharList
ab = 97 ∷ 98 ∷ []

ab_alone : (j : ℕ) → j < 2 → is_named a_directory disk_blocks (99 ∷ []) (j * dirent_size) ≡ false
unfolding bytes_from strncmp_equal
ab_alone zero h = refl
ab_alone (suc zero) h = refl
ab_alone (suc (suc j)) h = absurd (omega arith)

-- "c" takes the free entry.
dirlookup-dirlink_example :
    (h' h'' : Held Memory) × (off : ℕ) × (dirlink store fetch sb 40
        (pos 1)
        (λ k s. s)
        (99 ∷ [])
        9
        held
        (root ∷ no_inode ∷ [])
      ≡ some (success, h', root ∷ no_inode ∷ []))
    × Points store fetch sb 40
        (pos 1)
        100
        memory-Copies
        (omega arith)
        off
        h''
        (iget 1 9 (root ∷ no_inode ∷ []))
        (dirlookup store fetch sb 40 (pos 1) (99 ∷ []) h' (root ∷ no_inode ∷ []))
    × ((j : ℕ)
        → j < 2
        → 0 < slot_inum a_directory disk_blocks (j * dirent_size)
        → (slot_inum h'.ip.content h'.blocks (j * dirent_size)
            ≡ slot_inum a_directory disk_blocks (j * dirent_size))
          × (slot_name h'.ip.content h'.blocks (j * dirent_size)
              ≡ slot_name a_directory disk_blocks (j * dirent_size)))
dirlookup-dirlink_example =
    dirlookup-dirlink store fetch sb 40 (pos 1) 100 memory-Copies (omega arith) (λ k s. s) 2 1
      (99 ∷ []) 9 held (root ∷ no_inode ∷ []) held-Mapped (omega arith) refl refl (omega arith)
      (omega arith) ab_alone

-- "//a//b/"
abbrev a_path : CharList
a_path = 47 ∷ 47 ∷ 97 ∷ 47 ∷ 47 ∷ 98 ∷ 47 ∷ []

elements-a_path : elements a_path ≡ (97 ∷ []) ∷ (98 ∷ []) ∷ []
unfolding elements
elements-a_path = refl

abbrev world : World
world = record {
  table = root ∷ no_inode ∷ [];
  disk = λ d i. a_directory;
  blocks = disk_blocks;
  memory = λ x. 9;
}

abbrev path_ab : CharList
path_ab = 97 ∷ 98 ∷ 47 ∷ []

-- `nameiparent` of "ab/" in the directory 0
abbrev parent_of_ab : Walked
parent_of_ab = namex store fetch sb 40 (pos 1) (λ k s. s) 1 1 0 path_ab true (replicate 14 0) world
