-- ===== src/Fs/Content/Read.antt =====
-- `readi` of ex5/bonus/fs.c on blocks that the file has.
use os_course.Prelude.{
  tests, ℕ, zero, suc, ◌+◌, ◌-◌, ◌*◌, ◌/◌, ◌%◌, ◌^◌, ◌<◌, ◌≤◌, ◌≡◌, ◌∙◌, sym, ap, refl, arith, true,
  false, Option, some, List, ltb, leb, ◌==◌, ◌&&◌, ◌||◌, if◌then◌else◌, length, get_or, take, drop,
  length-take, length-drop, Bool-cases, inl, inr,
}
use Prim.Native.Nat.{min}
use os_course.Prelude.Int.{ℤ, pos}
use os_course.Prelude.Word.{as_int}
use mathlib.Core.Path.{subst}
use os_course.Fs.{DiskInode}
use os_course.Fs.Blocks.{SuperBlock, Blocks, bsize}
use os_course.Fs.Content.{Held, bmap, copied_out, read_turn, read_loop, readi, writei, written}
use os_course.Fs.Content.Bytes.{get_or-take, get_or-drop}
use os_course.Fs.Content.Map.{chosen, addr_of, byte_at, Mapped, bmap-Mapped}
use os_course.Fs.Content.Memory.{Copies}
use os_course.Fs.Content.Write.{writei-written}

pub resized :
    (c : DiskInode) (blocks : Blocks) (limit size' : ℕ)
    → Mapped c blocks limit
    → Mapped (record c { size = size' }) blocks limit
resized c blocks limit size' m = record {
  small = m.small;
  found = m.found;
  tree = m.tree;
  apart = m.apart;
  clear = m.clear;
  whole = m.whole;
}

module _ {M : Type 0} (copyout : ℕ → List ℕ → M → Option M) (copyin : ℕ → ℕ → M → Option (List ℕ))
    (sb : SuperBlock) (byte : M → ℕ → ℕ) (room : ℕ) (laws : Copies copyout copyin byte room) where
  -- The `n` bytes of the file from `off` on stand at `dst`, and the rest of memory is as it was.
  abbrev pub Fetched : DiskInode → Blocks → ℕ → ℕ → ℕ → M → M → Type 0
  Fetched c blocks dst off n memory memory' =
      (x : ℕ)
      → byte memory' x ≡ (
          if leb dst x && ltb x (dst + n)
          then byte_at c blocks (off + (x - dst))
          else byte memory x)

  Fetched-trans :
      (c : DiskInode) (blocks : Blocks) (dst off m k : ℕ) (memory memory1 memory' : M)
      → dst + m < 2 ^ 64
      → Fetched c blocks dst off m memory memory1
      → Fetched c blocks ((dst + m) % 2 ^ 64) (off + m) k memory1 memory'
      → Fetched c blocks dst off (m + k) memory memory'
  Fetched-trans c blocks dst off m k memory memory1 memory' small first second x =
      ground (arith, first x, second x, joined)
    where
      joined :
          leb (dst + m) x ≡ true
          → byte_at c blocks (off + m + (x - (dst + m) % 2 ^ 64))
            ≡ byte_at c blocks (off + (x - dst))
      joined h = ap (λ z. byte_at c blocks z) (omega (tests, h, small))

  -- A turn of the loop.
  read_turn-Fetched :
      (next : ℕ → Held M → Option (ℤ × Held M)) (n tot off dst limit m : ℕ) (h : Held M)
      → Mapped h.ip.content h.blocks limit
      → tot < n
      → m ≡ min (n - tot) (bsize - off % bsize)
      → off + m ≤ limit * bsize
      → dst + m ≤ room
      → (memory1 : M) × (read_turn copyout copyin sb next n tot off dst h
            (bmap sb (off / bsize) h.ip.content h.blocks)
          ≡ next m (record h { memory = memory1 }))
        × Fetched h.ip.content h.blocks dst off m h.memory memory1
  read_turn-Fetched next n tot off dst limit m h mapped more em inside room' =
      let c = h.ip.content in
      let bn = off / bsize in
      let addr = addr_of c h.blocks bn in
      let here : bn < limit = omega arith in
      let chunk = λ (k : ℕ). take k (drop (off % bsize) (h.blocks addr)) in
      let long : length (chunk m) ≡ m = omega (
        arith,
        em,
        mapped.whole addr,
        length-take m (drop (off % bsize) (h.blocks addr)),
        length-drop (off % bsize) (h.blocks addr),
      ) in
      let (memory1, put, bytes) = laws.out_copies dst (chunk m) h.memory (omega (arith, long)) in
      let go = λ (k : ℕ) (v : M). next k (record h { memory = v }) in
      let rest =
        λ (k : ℕ). copied_out copyout copyin sb (go k) h (copyout dst (chunk k) h.memory) in
      (
        memory1,
        ap (λ r. read_turn copyout copyin sb next n tot off dst h r)
              (bmap-Mapped sb c h.blocks limit bn mapped here)
            ∙ ap
                (λ t.
                  if t then some (as_int tot, h) else rest (min (n - tot) (bsize - off % bsize)))
                {x = addr == 0} {y = false} (ground (arith, mapped.found bn here))
            ∙ ap rest (sym em)
            ∙ ap (λ r. copied_out copyout copyin sb (go m) h r) put,
        λ x.
            bytes x
            ∙ chosen (λ i. get_or (chunk m) i 0) (λ z. byte_at c h.blocks z) (byte h.memory x) off
                dst m (length (chunk m)) x long
                (λ i hi.
                  get_or-take m (drop (off % bsize) (h.blocks addr)) i hi
                  ∙ get_or-drop (off % bsize) (h.blocks addr) i
                  ∙ ap (λ k. get_or (h.blocks (addr_of c h.blocks bn)) k 0) {x = off % bsize + i}
                      {y = (off + i) % bsize} (omega (arith, em))
                  ∙ ap (λ b. get_or (h.blocks (addr_of c h.blocks b)) ((off + i) % bsize) 0)
                      {x = bn} {y = (off + i) / bsize} (omega (arith, em))),
      )

  read_loop-Fetched :
      (turns left n tot off dst limit : ℕ) (h : Held M)
      → Mapped h.ip.content h.blocks limit
      → tot + left ≡ n
      → left < turns
      → off + left ≤ limit * bsize
      → dst + left ≤ room
      → (memory' : M) × (read_loop copyout copyin sb turns n tot off dst h
          ≡ some (as_int n, record h { memory = memory' }))
        × Fetched h.ip.content h.blocks dst off left h.memory memory'
  unfolding read_loop
  read_loop-Fetched zero left n tot off dst limit h mapped sum enough inside room' =
      absurd (omega arith)
  read_loop-Fetched (suc turns) left n tot off dst limit h mapped sum enough inside room' =
      let next : ℕ → Held M → Option (ℤ × Held M) =
        λ m h'. read_loop copyout copyin sb turns n (tot + m) (off + m) ((dst + m) % 2 ^ 64) h' in
      let turn =
        read_turn copyout copyin sb next n tot off dst h
          (bmap sb (off / bsize) h.ip.content h.blocks) in
      let c = h.ip.content in
      let m = min (n - tot) (bsize - off % bsize) in
      elim (Bool-cases (ltb tot n)) [
        | inl e ↦
            let (memory1, turned, first) =
              read_turn-Fetched next n tot off dst limit m h mapped (ground (arith, e)) refl
                (omega arith) (omega arith) in
            let (memory', ran, second) =
              read_loop-Fetched turns (left - m) n (tot + m) (off + m) ((dst + m) % 2 ^ 64) limit
                (record h { memory = memory1 }) mapped (omega arith) (omega (tests, e))
                (omega arith) (omega (arith, laws.small)) in
            (
              memory',
              ap (λ t. if t then turn else some (as_int tot, h)) e ∙ turned ∙ ran,
              subst (λ k. Fetched c h.blocks dst off k h.memory memory') {x = m + (left - m)}
                  {y = left} (omega arith)
                  (Fetched-trans c h.blocks dst off m (left - m) h.memory memory1 memory'
                    (omega (arith, laws.small)) first second),
            )
        | inr e ↦
            let none_left : left ≡ 0 = ground (arith, e, sum) in
            (
              h.memory,
              ap (λ t. if t then turn else some (as_int tot, h)) e
                  ∙ ap (λ z. some (as_int z, h)) {x = tot} {y = n} (omega (arith, none_left)),
              λ x. ground (arith, none_left),
            )
      ]

  -- `readi` from an offset that is not past the end, on a file whose blocks are there, into memory with
  -- room for the bytes: it returns how many there are up to the end of the file, or `n` if that is less,
  -- and puts just those bytes of the file in memory, which changes nothing else.
  pub readi_lem :
      (dst off n limit : ℕ) (h : Held M)
      → Mapped h.ip.content h.blocks limit
      → h.ip.content.size ≤ limit * bsize
      → off ≤ h.ip.content.size
      → off + n < 2 ^ 32
      → dst + n ≤ room
      → (memory' : M) × (readi copyout copyin sb dst off n h
          ≡ some (as_int (min n (h.ip.content.size - off)), record h { memory = memory' }))
        × Fetched h.ip.content h.blocks dst off (min n (h.ip.content.size - off)) h.memory memory'
  unfolding readi
  readi_lem dst off n limit h mapped within start small room' =
      let size = h.ip.content.size in
      let k = min n (size - off) in
      let (memory', ran, bytes) =
        read_loop-Fetched (suc k) k k 0 off dst limit h mapped (omega arith) (omega arith)
          (omega arith) (omega arith) in
      (
        memory',
        ap
              (λ t.
                if t
                then some (pos 0, h)
                else read_loop copyout copyin sb
                    (suc (if ltb size ((off + n) % 2 ^ 32) then size - off else n))
                    (if ltb size ((off + n) % 2 ^ 32) then size - off else n) 0 off dst h)
              {x = ltb size off || ltb ((off + n) % 2 ^ 32) off} {y = false}
              (ground (arith, start, small))
            ∙ ap (λ z. read_loop copyout copyin sb (suc z) z 0 off dst h)
                {x = if ltb size ((off + n) % 2 ^ 32) then size - off else n} {y = k}
                (ground (arith, start, small))
            ∙ ran,
        bytes,
      )

  -- What `writei` has written is what `readi` then gives. On a file that has the blocks already, from an
  -- offset that is not past its end, and with the `n` bytes at `src` and at `dst` in the caller's memory,
  -- both return `n`, and the bytes that end up at `dst` are those that stood at `src`.
  pub readi-writei :
      (src dst off n limit : ℕ) (h : Held M)
      → Mapped h.ip.content h.blocks limit
      → h.ip.content.size ≤ limit * bsize
      → off ≤ h.ip.content.size
      → off + n ≤ limit * bsize
      → src + n ≤ room
      → dst + n ≤ room
      → (h' h'' : Held M) × (writei copyout copyin sb src off n h ≡ some (as_int n, h'))
        × (readi copyout copyin sb dst off n h' ≡ some (as_int n, h''))
        × ((i : ℕ) → i < n → byte h''.memory (dst + i) ≡ byte h.memory (src + i))
  readi-writei src dst off n limit h mapped within start inside from to =
      let (blocks', ran, mapped', old) =
        writei-written copyout copyin sb byte room laws src off n limit h mapped start inside
          from in
      let c = h.ip.content in
      let size' = if ltb c.size (off + n) then off + n else c.size in
      let h' = (written copyout copyin sb n (off + n) (record h { blocks = blocks' })).1 in
      let fits : size' ≤ limit * bsize = ground (arith, within, inside) in
      let all : min n (size' - off) ≡ n = ground arith in
      let (memory', read, new) =
        readi_lem dst off n limit h' (resized c blocks' limit size' mapped') fits
          (ground (arith, start)) (omega (arith, mapped.small)) to in
      (
        h',
        record h' { memory = memory' },
        ran,
        read ∙ ap (λ k. some (as_int k, record h' { memory = memory' })) all,
        λ i hi.
            new (dst + i)
            ∙ ground (arith, all, hi)
            ∙ old (off + (dst + i - dst)) (omega (arith, inside, hi))
            ∙ ground (
              arith,
              hi,
              ap (λ z. byte h.memory z) {x = src + (off + (dst + i - dst) - off)} {y = src + i}
                  (omega arith),
            ),
      )
