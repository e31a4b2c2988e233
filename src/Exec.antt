-- ===== src/Exec.antt =====
-- ex5/bonus/exec.c over the kernel that it calls: the pages, the loading of an image and the stack.
-- Numbers are 64-bit unsigned unless it says otherwise; a text is without its final 0.
pub mod Stack
pub mod Loads
pub mod Clean
pub mod Starts
mod Tests
pub use os_course.Prelude.{CharList}
use os_course.Prelude.{
  ℕ, zero, suc, ◌+◌, ◌-◌, ◌*◌, ◌/◌, ◌%◌, ◌^◌, Bool, true, false, Option, none, some, List, [], ◌∷◌,
  ◌++◌, ltb, leb, ◌==◌, ◌&&◌, ◌||◌, is_unset, if◌then◌else◌, length, take,
}
use os_course.Prelude.Int.{ℤ, pos, negsuc}
use os_course.Prelude.Word.{int_eq, failure}
use os_course.Fs.{bit_at}

-- Whether PTE_X and PTE_W are in a page's permissions.
pub record Rights : Type 0 where
  pub executes : Bool
  pub writes : Bool

-- What exec.c reads of `struct elfhdr` and `struct proghdr`.
pub record ElfHeader : Type 0 where
  pub magic : ℕ
  pub entry : ℕ
  pub phoff : ℕ
  pub phnum : ℕ

pub record ProgramHeader : Type 0 where
  pub type : ℕ
  pub flags : ℕ
  pub off : ℕ
  pub vaddr : ℕ
  pub filesz : ℕ
  pub memsz : ℕ

-- The rest of the kernel, with the state `W`, page tables `P` and what elf.h defines. `read_header` and
-- `read_segment` are `readi` of one struct, with nothing if it reads less; `readi` says whether it
-- reads all that it is asked for, and `copyout` whether it succeeds.
pub record Machine (W P : Type 0) : Type 0 where
  pub begin_op : W → W
  pub end_op : W → W
  pub namei : CharList → W → Option ℕ × W
  pub ilock : ℕ → W → W
  pub iunlockput : ℕ → W → W
  pub permissions : ℕ → W → ℤ
  pub read_header : ℕ → W → Option ElfHeader × W
  pub read_segment : ℕ → ℕ → W → Option ProgramHeader × W
  pub readi : ℕ → ℕ → ℕ → ℕ → W → Bool × W
  pub proc_pagetable : W → Option P × W
  pub proc_freepagetable : P → ℕ → W → W
  pub uvmalloc : P → ℕ → ℕ → Rights → W → ℕ × W
  pub uvmclear : P → ℕ → W → W
  pub walkaddr : P → ℕ → W → ℕ
  pub copyout : P → ℕ → CharList → W → Bool × W
  pub copyout_words : P → ℕ → List ℕ → W → Bool × W
  pub elf_magic : ℕ
  pub elf_prog_load : ℕ

-- What exec.c uses of `struct proc`; `a1`, `epc` and `sp` are its trapframe's.
pub record Image (P : Type 0) : Type 0 where
  pub pagetable : P
  pub sz : ℕ
  pub name : CharList
  pub a1 : ℕ
  pub epc : ℕ
  pub sp : ℕ

abbrev pub pgsize : ℕ
pgsize = 4096

abbrev pub maxarg : ℕ
maxarg = 32

-- The size of `struct proghdr`
abbrev phsize : ℕ
phsize = 56

abbrev pub page_round_up : ℕ → ℕ
page_round_up sz = (sz + (pgsize - 1)) % 2 ^ 64 / pgsize * pgsize

-- `a - b`
abbrev pub minus : ℕ → ℕ → ℕ
minus a b = (a + 2 ^ 64 - b % 2 ^ 64) % 2 ^ 64

-- `sp -= n; sp -= sp % 16`
unfoldable pub lower : ℕ → ℕ → ℕ
lower sp n = let a = minus sp n in a - a % 16

abbrev pub flags2perm : ℕ → Rights
flags2perm flags = record { executes = flags % 2 == 1; writes = flags / 2 % 2 == 1 }

-- The test of the permission bits.
abbrev pub may_execute : ℤ → Bool
may_execute permissions = int_eq permissions (pos 0) || bit_at 6 permissions

-- The part of a path after the last `/`.
abbrev last_part : CharList → CharList → CharList
last_part last [] = last
last_part last (c ∷ s) = last_part (if c == 47 then s else last) s

pub data ExecOutcome (W P : Type 0) : Type 0 where
  returned : ℤ → Image P → W → ExecOutcome W P
  panics : ExecOutcome W P
  -- a write behind the end of `ustack`, after which C says nothing
  overruns : ExecOutcome W P

pub data Segment (W : Type 0) : Type 0 where
  loaded : W → Segment W
  short : W → Segment W
  no_page : Segment W
  no_fuel : Segment W

-- The loop over the program headers: the size so far, or the way to `bad`.
pub data Loading (W : Type 0) : Type 0 where
  loading : ℕ → W → Loading W
  stopped : ℕ → W → Loading W
  panicked : Loading W

-- The loop over `argv`, with the addresses in `ustack`.
pub data Pushed (W : Type 0) : Type 0 where
  pushed : ℕ → List ℕ → W → Pushed W
  overflowed : W → Pushed W

module _ {W P : Type 0} (m : Machine W P) where
  module _ (pt : P) (va ip offset sz : ℕ) where
    abbrev pub read_page : (W → Segment W) → Bool × W → Segment W
    read_page rest (true, w) = rest w
    read_page rest (false, w) = short w

    abbrev pub load_page : (W → Segment W) → ℕ → W → Segment W
    load_page rest i w =
        let pa = m.walkaddr pt ((va + i) % 2 ^ 64) w in
        let n = if ltb (sz - i) pgsize then sz - i else pgsize in
        if pa == 0 then no_page else read_page rest (m.readi ip pa ((offset + i) % 2 ^ 32) n w)

    -- From byte `i` on; `i` is 32 bits wide.
    unfoldable pub loadseg_from : ℕ → ℕ → W → Segment W
    loadseg_from zero i w = no_fuel
    loadseg_from (suc fuel) i w =
        let rest : W → Segment W = λ v. loadseg_from fuel ((i + pgsize) % 2 ^ 32) v in
        if ltb i sz then load_page rest i w else loaded w

    -- One turn for each page, and the last test.
    abbrev pub loadseg : W → Segment W
    loadseg w = loadseg_from (suc (suc (sz / pgsize))) 0 w

  module _ (pt : P) (ip : ℕ) where
    abbrev pub filled : ℕ → Segment W → Loading W
    filled sz (loaded w) = loading sz w
    filled sz (short w) = stopped sz w
    filled sz no_page = panicked
    filled sz no_fuel = panicked

    abbrev pub mapped : ProgramHeader → ℕ → ℕ × W → Loading W
    mapped ph sz (zero, w) = stopped sz w
    mapped ph sz (suc k, w) =
        filled (suc k) (loadseg pt ph.vaddr ip (ph.off % 2 ^ 32) (ph.filesz % 2 ^ 32) w)

    abbrev pub load_segment : ℕ → Option ProgramHeader × W → Loading W
    load_segment sz (none, w) = stopped sz w
    load_segment sz (some ph, w) =
        let end = (ph.vaddr + ph.memsz) % 2 ^ 64 in
        if is_unset (ph.type == m.elf_prog_load)
        then loading sz w
        else (if ltb ph.memsz ph.filesz || ltb end ph.vaddr || is_unset (ph.vaddr % pgsize == 0)
            then stopped sz w
            else mapped ph sz (m.uvmalloc pt sz end (flags2perm ph.flags) w))

    abbrev pub load_step : ℕ → Loading W → Loading W
    load_step off (loading sz w) = load_segment sz (m.read_segment ip off w)
    load_step off (stopped sz w) = stopped sz w
    load_step off panicked = panicked

    -- `n` headers are left; `off` is 32 bits wide.
    unfoldable pub load_program : ℕ → ℕ → Loading W → Loading W
    load_program zero off r = r
    load_program (suc n) off r = load_program n ((off + phsize) % 2 ^ 32) (load_step off r)

  -- The strings of `argv` from the `argc`-th on.
  unfoldable pub push_strings : P → ℕ → List CharList → ℕ → ℕ → List ℕ → W → Pushed W
  push_strings pt stackbase [] argc sp ustack w = pushed sp ustack w
  push_strings pt stackbase (s ∷ argv) argc sp ustack w =
      let sp' = lower sp (length s + 1) in
      let (ok, w') = m.copyout pt sp' (s ++ 0 ∷ []) w in
      let rest = push_strings pt stackbase argv (suc argc) sp' (ustack ++ sp' ∷ []) w' in
      if leb maxarg argc || ltb sp' stackbase
      then overflowed w
      else (if ok then rest else overflowed w')

  -- `bad`: what there is of a page table and of a locked inode is released.
  abbrev pub free_table : Option P → ℕ → W → W
  free_table none sz w = w
  free_table (some pt) sz w = m.proc_freepagetable pt sz w

  abbrev pub close : Option ℕ → W → W
  close none w = w
  close (some ip) w = m.end_op (m.iunlockput ip w)

  abbrev pub bad : Image P → Option P → ℕ → Option ℕ → W → ExecOutcome W P
  bad p pt sz ip w = returned failure p (close ip (free_table pt sz w))

  module _ (path : CharList) (argv : List CharList) (p : Image P) where
    module _ (elf : ElfHeader) (pt : P) where
      abbrev pub commit : ℕ → ℕ → List ℕ → Bool × W → ExecOutcome W P
      commit sz sp ustack (false, w) = bad p (some pt) sz none w
      commit sz sp ustack (true, w) =
          returned (pos (length ustack))
            (record {
              pagetable = pt;
              sz = sz;
              name = take 15 (last_part path path);
              a1 = sp;
              epc = elf.entry;
              sp = sp;
            })
            (m.proc_freepagetable p.pagetable p.sz w)

      abbrev pub push_pointers : ℕ → Pushed W → ExecOutcome W P
      push_pointers sz (overflowed w) = bad p (some pt) sz none w
      push_pointers sz (pushed sp ustack w) =
          let sp' = lower sp ((length ustack + 1) * 8) in
          let copied = commit sz sp' ustack (m.copyout_words pt sp' (ustack ++ 0 ∷ []) w) in
          if leb maxarg (length ustack)
          then overruns
          else (if ltb sp' (minus sz pgsize) then bad p (some pt) sz none w else copied)

      -- With the stack's two pages; the lower one is the guard.
      abbrev pub build_stack : ℕ → ℕ × W → ExecOutcome W P
      build_stack sz (zero, w) = bad p (some pt) sz none w
      build_stack sz (suc k, w) = push_pointers (suc k) (
          push_strings pt (minus (suc k) pgsize) argv 0 (suc k) []
            (m.uvmclear pt (minus (suc k) (2 * pgsize)) w))

      abbrev pub after_load : ℕ → Loading W → ExecOutcome W P
      after_load ip (loading sz w) =
          let top = page_round_up sz in
          build_stack top (
            m.uvmalloc pt top ((top + 2 * pgsize) % 2 ^ 64)
              (record { executes = false; writes = true }) (close (some ip) w))
      after_load ip (stopped sz w) = bad p (some pt) sz (some ip) w
      after_load ip panicked = panics

    abbrev pub with_table : ℕ → ElfHeader → Option P × W → ExecOutcome W P
    with_table ip elf (none, w) = bad p none 0 (some ip) w
    with_table ip elf (some pt, w) =
        after_load elf pt ip (load_program pt ip elf.phnum (elf.phoff % 2 ^ 32) (loading 0 w))

    abbrev pub with_header : ℕ → Option ElfHeader × W → ExecOutcome W P
    with_header ip (none, w) = bad p none 0 (some ip) w
    with_header ip (some elf, w) =
        if elf.magic == m.elf_magic
        then with_table ip elf (m.proc_pagetable w)
        else bad p none 0 (some ip) w

    abbrev pub opened : Option ℕ × W → ExecOutcome W P
    opened (none, w) = returned failure p (m.end_op w)
    opened (some ip, w) =
        let w' = m.ilock ip w in
        if may_execute (m.permissions ip w')
        then with_header ip (m.read_header ip w')
        else returned failure p (close (some ip) w')

    unfoldable pub exec : W → ExecOutcome W P
    exec w = opened (m.namei path (m.begin_op w))
