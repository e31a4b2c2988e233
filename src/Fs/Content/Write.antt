-- ===== src/Fs/Content/Write.antt =====
-- `writei` of ex5/bonus/fs.c on blocks that the file has.
use os_course.Prelude.{
  tests, ℕ, zero, suc, ◌+◌, ◌-◌, ◌*◌, ◌/◌, ◌%◌, ◌^◌, ◌<◌, ◌≤◌, ◌≡◌, ◌∙◌, sym, ap, refl, arith, true,
  false, Option, some, List, ltb, leb, ◌==◌, ◌&&◌, if◌then◌else◌, length, get_or, Bool-cases, inl,
  inr,
}
use Prim.Native.Nat.{min, max}
use os_course.Prelude.Int.{ℤ, pos}
use os_course.Prelude.Word.{as_int}
use mathlib.Core.Path.{subst}
use os_course.Fs.{DiskInode, Inode, Disk, iupdate}
use os_course.Fs.Blocks.{SuperBlock, Blocks, bsize, write}
use os_course.Fs.Content.{Held, overlay, bmap, copied_in, write_turn, written, write_loop, writei}
use os_course.Fs.Content.Map.{
  chosen, addr_of, byte_at, Mapped, bmap-Mapped, after, after-Mapped, byte_at-after,
}
use os_course.Fs.Content.Memory.{Copies}

iupdate-here : (ip : Inode) (disk : Disk) → iupdate ip disk ip.dev ip.inum ≡ ip.content
unfolding iupdate
iupdate-here ip disk = ground arith

iupdate-other :
    (ip : Inode) (disk : Disk) (d i : ℕ)
    → (d == ip.dev && i == ip.inum) ≡ false
    → iupdate ip disk d i ≡ disk d i
unfolding iupdate
iupdate-other ip disk d i e = ap (λ b. if b then ip.content else disk d i) e

module _ {M : Type 0} (copyout : ℕ → List ℕ → M → Option M) (copyin : ℕ → ℕ → M → Option (List ℕ))
    (sb : SuperBlock) (byte : M → ℕ → ℕ) (room : ℕ) (laws : Copies copyout copyin byte room) where
  -- The bytes of the file, the `n` from `off` on taken from memory.
  abbrev pub Overwritten : DiskInode → ℕ → ℕ → ℕ → ℕ → M → Blocks → Blocks → Type 0
  Overwritten c limit src off n memory blocks blocks' =
      (x : ℕ)
      → x < limit * bsize
      → byte_at c blocks' x ≡ (
          if leb off x && ltb x (off + n)
          then byte memory (src + (x - off))
          else byte_at c blocks x)

  Overwritten-trans :
      (c : DiskInode) (limit src off m k : ℕ) (memory : M) (blocks blocks1 blocks' : Blocks)
      → src + m < 2 ^ 64
      → Overwritten c limit src off m memory blocks blocks1
      → Overwritten c limit ((src + m) % 2 ^ 64) (off + m) k memory blocks1 blocks'
      → Overwritten c limit src off (m + k) memory blocks blocks'
  Overwritten-trans c limit src off m k memory blocks blocks1 blocks' small first second x hx =
      ground (arith, first x hx, second x hx, joined)
    where
      joined :
          leb (off + m) x ≡ true
          → byte memory ((src + m) % 2 ^ 64 + (x - (off + m))) ≡ byte memory (src + (x - off))
      joined h = ap (λ z. byte memory z) (omega (tests, h, small))

  -- A turn of the loop.
  write_turn-Overwritten :
      (next : ℕ → Held M → Option (ℤ × Held M)) (n tot off src limit m : ℕ) (h : Held M)
      → Mapped h.ip.content h.blocks limit
      → tot < n
      → m ≡ min (n - tot) (bsize - off % bsize)
      → off + m ≤ limit * bsize
      → src + m ≤ room
      → (blocks1 : Blocks) × (write_turn copyout copyin sb next n tot off src h
            (bmap sb (off / bsize) h.ip.content h.blocks)
          ≡ next m (record h { blocks = blocks1 }))
        × Mapped h.ip.content blocks1 limit
        × Overwritten h.ip.content limit src off m h.memory h.blocks blocks1
  write_turn-Overwritten next n tot off src limit m h mapped more em inside room' =
      let c = h.ip.content in
      let bn = off / bsize in
      let addr = addr_of c h.blocks bn in
      let here : bn < limit = omega arith in
      let (bytes, got, long, same) = laws.in_copies src m h.memory room' in
      let put = λ (k : ℕ) (b : List ℕ).
        next k
          (record h { blocks = write addr (overlay (h.blocks addr) (off % bsize) b) h.blocks }) in
      let rest = λ (k : ℕ). copied_in copyout copyin sb (put k) tot off h (copyin src k h.memory) in
      (
        after c h.blocks limit bn (off % bsize) bytes mapped here,
        ap (λ r. write_turn copyout copyin sb next n tot off src h r)
              (bmap-Mapped sb c h.blocks limit bn mapped here)
            ∙ ap
                (λ t.
                  if t
                  then some (written copyout copyin sb tot off h)
                  else rest (min (n - tot) (bsize - off % bsize)))
                {x = addr == 0} {y = false} (ground (arith, mapped.found bn here))
            ∙ ap rest (sym em)
            ∙ ap (λ r. copied_in copyout copyin sb (put m) tot off h r) got,
        after-Mapped c h.blocks limit bn (off % bsize) bytes mapped here,
        λ x hx.
            byte_at-after c h.blocks limit bn (off % bsize) bytes mapped here x hx
              (omega (arith, long, em))
            ∙ ap
                (λ o.
                  if leb o x && ltb x (o + length bytes)
                  then get_or bytes (x - o) 0
                  else byte_at c h.blocks x)
                {x = bn * bsize + off % bsize} {y = off} (omega arith)
            ∙ chosen (λ i. get_or bytes i 0) (λ z. byte h.memory z) (byte_at c h.blocks x) src off m
                (length bytes) x long same,
      )

  write_loop-Overwritten :
      (turns left n tot off src limit : ℕ) (h : Held M)
      → Mapped h.ip.content h.blocks limit
      → tot + left ≡ n
      → left < turns
      → off + left ≤ limit * bsize
      → src + left ≤ room
      → (blocks' : Blocks) × (write_loop copyout copyin sb turns n tot off src h
          ≡ some (written copyout copyin sb n (off + left) (record h { blocks = blocks' })))
        × Mapped h.ip.content blocks' limit
        × Overwritten h.ip.content limit src off left h.memory h.blocks blocks'
  unfolding write_loop
  write_loop-Overwritten zero left n tot off src limit h mapped sum enough inside room' =
      absurd (omega arith)
  write_loop-Overwritten (suc turns) left n tot off src limit h mapped sum enough inside room' =
      let next : ℕ → Held M → Option (ℤ × Held M) =
        λ m h'. write_loop copyout copyin sb turns n (tot + m) (off + m) ((src + m) % 2 ^ 64) h' in
      let turn =
        write_turn copyout copyin sb next n tot off src h
          (bmap sb (off / bsize) h.ip.content h.blocks) in
      let c = h.ip.content in
      let m = min (n - tot) (bsize - off % bsize) in
      elim (Bool-cases (ltb tot n)) [
        | inl e ↦
            let (blocks1, turned, mapped1, first) =
              write_turn-Overwritten next n tot off src limit m h mapped (ground (arith, e)) refl
                (omega arith) (omega arith) in
            let (blocks', ran, mapped', second) =
              write_loop-Overwritten turns (left - m) n (tot + m) (off + m) ((src + m) % 2 ^ 64)
                limit (record h { blocks = blocks1 }) mapped1 (omega arith) (omega (tests, e))
                (omega arith) (omega (arith, laws.small)) in
            (
              blocks',
              ap (λ t. if t then turn else some (written copyout copyin sb tot off h)) e
                  ∙ turned
                  ∙ ran
                  ∙ ap (λ z. some (written copyout copyin sb n z (record h { blocks = blocks' })))
                      {x = off + m + (left - m)} {y = off + left} (omega arith),
              mapped',
              subst (λ k. Overwritten c limit src off k h.memory h.blocks blocks')
                  {x = m + (left - m)} {y = left} (omega arith)
                  (Overwritten-trans c limit src off m (left - m) h.memory h.blocks blocks1 blocks'
                    (omega (arith, laws.small)) first second),
            )
        | inr e ↦
            let none_left : left ≡ 0 = ground (arith, e, sum) in
            (
              h.blocks,
              ap (λ t. if t then turn else some (written copyout copyin sb tot off h)) e
                  ∙ ap (λ z. some (written copyout copyin sb z off h)) {x = tot} {y = n}
                      (omega (arith, none_left))
                  ∙ ap (λ z. some (written copyout copyin sb n z h)) {x = off} {y = off + left}
                      (omega (arith, none_left)),
              mapped,
              λ x hx. ground (arith, none_left),
            )
      ]

  -- `writei` ends in its last lines, with all bytes written.
  pub writei-written :
      (src off n limit : ℕ) (h : Held M)
      → Mapped h.ip.content h.blocks limit
      → off ≤ h.ip.content.size
      → off + n ≤ limit * bsize
      → src + n ≤ room
      → (blocks' : Blocks) × (writei copyout copyin sb src off n h
          ≡ some (written copyout copyin sb n (off + n) (record h { blocks = blocks' })))
        × Mapped h.ip.content blocks' limit
        × Overwritten h.ip.content limit src off n h.memory h.blocks blocks'
  unfolding writei
  writei-written src off n limit h mapped start inside room' =
      let (blocks', ran, mapped', bytes) =
        write_loop-Overwritten (suc n) n n 0 off src limit h mapped (omega arith) (omega arith)
          (omega arith) (omega arith) in
      let end = (off + n) % 2 ^ 32 in
      (blocks', ground (arith, ran, start, inside, mapped.small), mapped', bytes)

  -- What `writei` leaves of a file of size `size` besides its blocks, having written up to byte `end`.
  pub record Settled (h h' : Held M) (end : ℕ) : Type 0 where
    pub content : h'.ip.content ≡ record h.ip.content { size = max h.ip.content.size end }
    pub on_disk : h'.disk h.ip.dev h.ip.inum ≡ h'.ip.content
    pub other_inodes :
        (d i : ℕ) → (d == h.ip.dev && i == h.ip.inum) ≡ false → h'.disk d i ≡ h.disk d i
    pub memory : h'.memory ≡ h.memory

  written-Settled :
      (n off : ℕ) (h : Held M) (blocks' : Blocks)
      → Settled h (written copyout copyin sb n off (record h { blocks = blocks' })).1 off
  written-Settled n off h blocks' =
      let c = h.ip.content in
      let ip' = record h.ip {
        content = record c { size = if ltb c.size off then off else c.size };
      } in
      record {
        content =
            ap (λ z. record c { size = z }) {x = if ltb c.size off then off else c.size}
              {y = max c.size off} (ground arith);
        on_disk = iupdate-here ip' h.disk;
        other_inodes = λ d i e. iupdate-other ip' h.disk d i e;
        memory = refl;
      }

  -- `writei` in memory that holds the `n` bytes, on a file that has the blocks already: it returns `n`, the
  -- bytes from `off` on are those in memory, every other byte of the file is as it was, its size is the
  -- larger of the old one and of where the bytes end, and what is on disk of the inode is what is in memory,
  -- while every other inode on disk and the memory are as they were.
  pub writei_lem :
      (src off n limit : ℕ) (h : Held M)
      → Mapped h.ip.content h.blocks limit
      → off ≤ h.ip.content.size
      → off + n ≤ limit * bsize
      → src + n ≤ room
      → (h' : Held M) × (writei copyout copyin sb src off n h ≡ some (pos n, h'))
        × Settled h h' (off + n)
        × Mapped h.ip.content h'.blocks limit
        × Overwritten h.ip.content limit src off n h.memory h.blocks h'.blocks
  writei_lem src off n limit h mapped start inside room' =
      let (blocks', ran, mapped', bytes) =
        writei-written src off n limit h mapped start inside room' in
      let h' = (written copyout copyin sb n (off + n) (record h { blocks = blocks' })).1 in
      (
        h',
        ran
            ∙ ap (λ r. some (r, h')) {x = as_int n} {y = pos n}
                (ground (arith, inside, mapped.small)),
        written-Settled n (off + n) h blocks',
        mapped',
        bytes,
      )
