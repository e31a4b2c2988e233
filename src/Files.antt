-- ===== src/Files.antt =====
-- Descriptors in ex5/bonus/sysfile.c, and the arguments of system calls in ex4/part1/syscall.c. An
-- open file is a number; file.c and vm.c, which the repository does not hold, are arguments.
pub mod Descriptors
pub mod Open
pub mod Permit
pub mod Chmod
pub mod Spawn
pub mod Links
pub mod Balance
mod OpenTests
mod LinkTests
use os_course.Prelude.{
  ℕ, zero, suc, ◌+◌, ◌-◌, ◌%◌, ◌^◌, ◌≡◌, Bool, true, false, Option, none, some, List, [], ◌∷◌, ltb,
  leb, ◌==◌, ◌&&◌, ◌||◌, if◌then◌else◌, get_or, length, set,
}
use os_course.Prelude.Int.{ℤ, pos, negsuc}
use os_course.Prelude.Word.{as_int, success, failure, index_below}
use os_course.Proc.{nofile}

abbrev pub slot_of : List (Option ℕ) → Option ℕ → Option (ℕ × ℕ)
slot_of ofile none = none
slot_of ofile (some fd) = elim (get_or ofile fd none) [ none ↦ none | some f ↦ some (fd, f) ]

-- `argfd` of the argument `fd`: the descriptor with its file.
unfoldable pub argfd : ℤ → List (Option ℕ) → Option (ℕ × ℕ)
argfd fd ofile = slot_of ofile (index_below nofile fd)

-- `fdalloc`, from descriptor `fd` on, with `n` left; the descriptor with the table.
unfoldable pub fdalloc_from : ℕ → ℕ → ℕ → List (Option ℕ) → Option (ℕ × List (Option ℕ))
fdalloc_from zero fd f ofile = none
fdalloc_from (suc n) fd f ofile =
    let rest = fdalloc_from n (suc fd) f ofile in
    elim (get_or ofile fd none) [ none ↦ some (fd, set ofile fd (some f)) | some g ↦ rest ]

unfoldable pub fdalloc : ℕ → List (Option ℕ) → Option (ℕ × List (Option ℕ))
fdalloc f ofile = fdalloc_from nofile 0 f ofile

module _ {W : Type 0} (filedup : ℕ → W → W) (fileclose : ℕ → W → W) where
  abbrev pub dup_into :
      ℕ → List (Option ℕ) → W → Option (ℕ × List (Option ℕ)) → ℤ × List (Option ℕ) × W
  dup_into f ofile w none = (failure, ofile, w)
  dup_into f ofile w (some (fd, ofile')) = (pos fd, ofile', filedup f w)

  abbrev pub dup_file : List (Option ℕ) → W → Option (ℕ × ℕ) → ℤ × List (Option ℕ) × W
  dup_file ofile w none = (failure, ofile, w)
  dup_file ofile w (some (fd, f)) = dup_into f ofile w (fdalloc f ofile)

  unfoldable pub sys_dup : ℤ → List (Option ℕ) → W → ℤ × List (Option ℕ) × W
  sys_dup fd ofile w = dup_file ofile w (argfd fd ofile)

  abbrev pub close_file : List (Option ℕ) → W → Option (ℕ × ℕ) → ℤ × List (Option ℕ) × W
  close_file ofile w none = (failure, ofile, w)
  close_file ofile w (some (fd, f)) = (success, set ofile fd none, fileclose f w)

  unfoldable pub sys_close : ℤ → List (Option ℕ) → W → ℤ × List (Option ℕ) × W
  sys_close fd ofile w = close_file ofile w (argfd fd ofile)

-- `fetchaddr` up to its `copyin`, in 64 bits: whether the word at `addr` is the process's.
unfoldable pub in_space : ℕ → ℕ → Bool
in_space sz addr = if leb sz addr || ltb sz ((addr + 8) % 2 ^ 64) then false else true

-- `fetchaddr`; `copyin` returns the word, or nothing.
unfoldable pub fetchaddr : (ℕ → Option ℕ) → ℕ → ℕ → Option ℕ
fetchaddr copyin sz addr = let word = copyin addr in if in_space sz addr then word else none

-- `argraw` of the registers a0 to a5; `none` is the panic.
unfoldable pub argraw : List ℕ → ℕ → Option ℕ
argraw regs n = if ltb n 6 then some (get_or regs n 0) else none

-- `syscall`: a handler changes the kernel's state and returns a word; a number without one returns -1.
module _ {S : Type 0} (syscalls : List (Option (S → ℕ × S))) where
  abbrev pub handler : ℤ → Option (S → ℕ × S)
  handler (negsuc n) = none
  handler (pos zero) = none
  handler (pos (suc n)) =
      if ltb (suc n) (length syscalls) then get_or syscalls (suc n) none else none

  abbrev pub run_handler : Option (S → ℕ × S) → S → ℕ × S
  run_handler none s = (2 ^ 64 - 1, s)
  run_handler (some h) s = h s

  -- a7 is the register with the number; the result is for a0
  unfoldable pub syscall : ℕ → S → ℕ × S
  syscall a7 s = run_handler (handler (as_int a7)) s
