-- ===== src/Fs/Content/Tests.antt =====
-- Small disks with files on them, for ex5/bonus/fs.c.
use os_course.Prelude.{
  ℕ, zero, suc, ◌+◌, ◌<◌, ◌≡◌, ◌∙◌, ◌≢◌, ◌==◌, ◌&&◌, is_unset, if◌then◌else◌, ap, get_or, refl,
  arith, true, some, [], ◌∷◌, ◌++◌, replicate, length-replicate,
}
use os_course.Prelude.Int.{pos}
use os_course.Prelude.Word.{as_int}
use os_course.Fs.{DiskInode, Inode, Disk, blank}
use os_course.Fs.Blocks.{SuperBlock, Blocks, bblock, marked}
use os_course.Fs.Bitmap.{in_use, Laid}
use os_course.Fs.Content.Owned.{member, owned, entries, addresses}
use os_course.Fs.Content.Indirect.{IsData}
use os_course.Fs.Content.Allocation.{Reached, bmap_lem}
use os_course.Fs.Content.Truncate.{itrunc_lem}
use os_course.Fs.Content.{Held, uint_at, bmap, itrunc, readi, writei}
use os_course.Fs.Content.Map.{addr_of, Mapped}
use os_course.Fs.Content.Plain.{Memory, store, fetch, memory-Copies}
use os_course.Fs.Content.Read.{readi-writei}
use os_course.Fs.Content.Write.{Settled, Overwritten, writei_lem}

abbrev a_file : DiskInode
a_file = record blank { size = 1500; addrs = 5 ∷ 6 ∷ replicate 11 0 }

abbrev held : Held Memory
held = record {
  ip = record { dev = 1; inum = 2; ref = pos 1; valid = true; content = a_file };
  disk = λ d i. a_file;
  blocks = λ b. replicate 1024 0;
  memory = λ x. x + 1;
}

abbrev sb : SuperBlock
sb = record { size = 1000; bmapstart = 3 }

held-addr_of : (n : ℕ) → n < 2 → addr_of a_file held.blocks n ≡ n + 5
held-addr_of zero h = refl
held-addr_of (suc zero) h = refl
held-addr_of (suc (suc n)) h = absurd (omega arith)

held-Mapped : Mapped a_file held.blocks 2
held-Mapped = record {
  small = omega arith;
  found = λ n h. omega (arith, held-addr_of n h);
  tree = λ h. absurd (omega arith);
  apart = λ a b ha hb e. omega (arith, held-addr_of a ha, held-addr_of b hb, e);
  clear = λ n h l. absurd (omega arith);
  whole = λ b. length-replicate {A = ℕ} 1024 0;
}

readi-writei_example :
    (h' h'' : Held Memory) × (writei store fetch sb 7 1022 4 held ≡ some (as_int 4, h'))
    × (readi store fetch sb 90 1022 4 h' ≡ some (as_int 4, h''))
    × ((i : ℕ) → i < 4 → h''.memory (90 + i) ≡ 7 + i + 1)
readi-writei_example =
    readi-writei store fetch sb (λ m x. m x) 100 memory-Copies 7 90 1022 4 2 held held-Mapped
      (omega arith) (omega arith) (omega arith) (omega arith) (omega arith)

writei_lem_example :
    (h' : Held Memory) × (writei store fetch sb 7 1022 4 held ≡ some (pos 4, h'))
    × Settled store fetch sb (λ m x. m x) 100 memory-Copies held h' (1022 + 4)
    × Mapped a_file h'.blocks 2
    × Overwritten store fetch sb
        (λ m x. m x)
        100
        memory-Copies
        a_file
        2
        7
        1022
        4
        held.memory
        held.blocks
        h'.blocks
writei_lem_example =
    writei_lem store fetch sb (λ m x. m x) 100 memory-Copies 7 1022 4 2 held held-Mapped
      (omega arith) (omega arith) (omega arith)

-- Two blocks, and a third that the indirect block names.
abbrev three_blocks : Inode
three_blocks = record {
  dev = 1;
  inum = 2;
  ref = pos 1;
  valid = true;
  content = record blank { size = 13000; addrs = 2 ∷ 3 ∷ replicate 10 0 ++ 4 ∷ [] };
}

abbrev eight : SuperBlock
eight = record { size = 8; bmapstart = 1 }

abbrev eight_blocks : Blocks
eight_blocks b = (if b == 1 then 63 else (if b == 4 then 5 else 0)) ∷ replicate 1023 0

three_blocks-owned : owned eight eight_blocks (addresses three_blocks.content eight_blocks) ≡ true
unfolding entries uint_at marked
three_blocks-owned = refl

itrunc_lem_example :
    (ip' : Inode) × (disk' : Disk) × (blocks' : Blocks) × (itrunc eight three_blocks
        (λ d i. three_blocks.content)
        eight_blocks
      ≡ some (ip', disk', blocks'))
    × (ip'.content.size ≡ 0)
    × ((k : ℕ) → get_or ip'.content.addrs k 0 ≡ 0)
    × (disk' 1 2 ≡ ip'.content)
    × ((x : ℕ)
        → 0 < x
        → x < 8
        → in_use eight blocks' x
          ≡ is_unset (member x (addresses three_blocks.content eight_blocks))
            && in_use eight eight_blocks x)
    × ((b : ℕ) → ((x : ℕ) → x < 8 → bblock eight x ≢ b) → blocks' b ≡ eight_blocks b)
itrunc_lem_example =
    itrunc_lem eight (omega arith) three_blocks (λ d i. three_blocks.content) eight_blocks
      (λ x. ap suc (length-replicate {A = ℕ} 1023 0)) three_blocks-owned
      (λ h x l e. omega (arith, l, e))

eight-on_disk : (x : ℕ) → x < 8 → bblock eight x < 8
eight-on_disk x h = omega arith

eight-Laid : Laid eight eight_blocks
unfolding marked
eight-Laid = record {
  small = omega arith;
  reach = omega arith;
  whole = λ x. ap suc (length-replicate {A = ℕ} 1023 0);
  kept = λ x h.
      ap (λ b. in_use eight eight_blocks b) {x = bblock eight x} {y = 1} (omega arith) ∙ refl;
}

four-IsData : IsData eight eight-on_disk (omega arith) eight_blocks 4
unfolding marked
four-IsData = record {
  inside = omega arith;
  used = refl;
  off = λ x h e. omega (arith, h, e);
  whole = ap suc (length-replicate {A = ℕ} 1023 0);
}

-- The second entry of the indirect block is not set yet.
bmap_lem_example :
    (addr : ℕ) × (c' : DiskInode) × (blocks' : Blocks) × (bmap eight 13 three_blocks.content
        eight_blocks
      ≡ some (addr, c', blocks'))
    × Reached eight eight-on_disk
        (omega arith)
        three_blocks.content
        eight_blocks
        (λ n. four-IsData)
        13
        addr
        c'
        blocks'
bmap_lem_example =
    bmap_lem eight eight-on_disk (omega arith) three_blocks.content eight_blocks (λ n. four-IsData)
      13 (omega arith) refl eight-Laid
