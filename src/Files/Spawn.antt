-- ===== src/Files/Spawn.antt =====
-- `sys_exec`, `sys_pipe`, `sys_read`, `sys_write` and `sys_fstat` of ex5/bonus/sysfile.c, from their
-- arguments on. A page is its number; file.c, pipe.c, kalloc.c and vm.c, which the repository does not hold,
-- are arguments.
pub mod Pages
pub mod Pipe
use os_course.Prelude.{
  ℕ, zero, suc, ◌+◌, ◌*◌, ◌%◌, ◌^◌, Bool, true, false, Option, none, some, List, [], ◌∷◌, ◌++◌,
  CharList, ◌==◌, if◌then◌else◌, set,
}
use os_course.Prelude.Int.{ℤ, pos}
use os_course.Prelude.Word.{success, failure}
use os_course.Exec.{maxarg}
use os_course.Files.{argfd, fdalloc, fetchaddr}

module _ {W : Type 0} (copyin : W → ℕ → Option ℕ) (sz : ℕ) (kalloc : W → Option ℕ × W)
    (fetchstr : ℕ → ℕ → W → Bool × W) (kfree : ℕ → W → W)
    (exec : CharList → List ℕ → W → ℤ × W) where
  -- The pages so far, in the order of `argv`, and whether the list ended in a null pointer.
  abbrev pub Copied : Type 0
  Copied = Bool × List ℕ × W

  abbrev pub with_string : (List ℕ → W → Copied) → List ℕ → ℕ → Bool × W → Copied
  with_string next argv page (false, w) = (false, argv ++ page ∷ [], w)
  with_string next argv page (true, w) = next (argv ++ page ∷ []) w

  abbrev pub with_page : (List ℕ → W → Copied) → List ℕ → ℕ → Option ℕ × W → Copied
  with_page next argv uarg (none, w) = (false, argv, w)
  with_page next argv uarg (some page, w) = with_string next argv page (fetchstr uarg page w)

  abbrev pub with_uarg : (List ℕ → W → Copied) → List ℕ → W → Option ℕ → Copied
  with_uarg next argv w none = (false, argv, w)
  with_uarg next argv w (some uarg) =
      let rest = with_page next argv uarg (kalloc w) in if uarg == 0 then (true, argv, w) else rest

  -- The loop, with `n` elements of the array left from `i` on.
  unfoldable pub copy_args : ℕ → ℕ → ℕ → List ℕ → W → Copied
  copy_args zero i uargv argv w = (false, argv, w)
  copy_args (suc n) i uargv argv w =
      let next : List ℕ → W → Copied = λ argv' v. copy_args n (suc i) uargv argv' v in
      with_uarg next argv w (fetchaddr (copyin w) sz ((uargv + 8 * i) % 2 ^ 64))

  unfoldable pub free_args : List ℕ → W → W
  free_args [] w = w
  free_args (page ∷ pages) w = free_args pages (kfree page w)

  abbrev pub executed : List ℕ → ℤ × W → ℤ × W
  executed argv (ret, w) = (ret, free_args argv w)

  abbrev pub exec_args : CharList → Copied → ℤ × W
  exec_args path (false, argv, w) = (failure, free_args argv w)
  exec_args path (true, argv, w) = executed argv (exec path argv w)

  unfoldable pub sys_exec : Option CharList → ℕ → W → ℤ × W
  sys_exec none uargv w = (failure, w)
  sys_exec (some path) uargv w = exec_args path (copy_args maxarg 0 uargv [] w)

-- `copyout` of a descriptor to an address, and whether it succeeds.
module _ {W : Type 0} (pipealloc : W → Option (ℕ × ℕ) × W) (fileclose : ℕ → W → W)
    (copyout : ℕ → ℕ → W → Bool × W) where
  abbrev pub close_both : ℕ → ℕ → List (Option ℕ) → W → ℤ × List (Option ℕ) × W
  close_both rf wf ofile w = (failure, ofile, fileclose wf (fileclose rf w))

  abbrev pub told_write : ℕ → ℕ → ℕ → ℕ → List (Option ℕ) → Bool × W → ℤ × List (Option ℕ) × W
  told_write rf wf fd0 fd1 ofile (true, w) = (success, ofile, w)
  told_write rf wf fd0 fd1 ofile (false, w) = close_both rf wf (set (set ofile fd0 none) fd1 none) w

  abbrev pub told_read : ℕ → ℕ → ℕ → ℕ → ℕ → List (Option ℕ) → Bool × W → ℤ × List (Option ℕ) × W
  told_read fdarray rf wf fd0 fd1 ofile (true, w) =
      told_write rf wf fd0 fd1 ofile (copyout ((fdarray + 4) % 2 ^ 64) fd1 w)
  told_read fdarray rf wf fd0 fd1 ofile (false, w) =
      close_both rf wf (set (set ofile fd0 none) fd1 none) w

  abbrev pub with_write_end :
      ℕ → ℕ → ℕ → ℕ → List (Option ℕ) → W → Option (ℕ × List (Option ℕ)) → ℤ × List (Option ℕ) × W
  with_write_end fdarray rf wf fd0 ofile w none = close_both rf wf (set ofile fd0 none) w
  with_write_end fdarray rf wf fd0 ofile w (some (fd1, ofile')) =
      told_read fdarray rf wf fd0 fd1 ofile' (copyout fdarray fd0 w)

  abbrev pub with_read_end :
      ℕ → ℕ → ℕ → List (Option ℕ) → W → Option (ℕ × List (Option ℕ)) → ℤ × List (Option ℕ) × W
  with_read_end fdarray rf wf ofile w none = close_both rf wf ofile w
  with_read_end fdarray rf wf ofile w (some (fd0, ofile')) =
      with_write_end fdarray rf wf fd0 ofile' w (fdalloc wf ofile')

  abbrev pub with_pipe : ℕ → List (Option ℕ) → Option (ℕ × ℕ) × W → ℤ × List (Option ℕ) × W
  with_pipe fdarray ofile (none, w) = (failure, ofile, w)
  with_pipe fdarray ofile (some (rf, wf), w) =
      with_read_end fdarray rf wf ofile w (fdalloc rf ofile)

  unfoldable pub sys_pipe : ℕ → List (Option ℕ) → W → ℤ × List (Option ℕ) × W
  sys_pipe fdarray ofile w = with_pipe fdarray ofile (pipealloc w)

-- `sys_read`, `sys_write` and `sys_fstat` hand the file of the descriptor on.
module _ {W : Type 0} where
  abbrev pub on_file : (ℕ → W → ℤ × W) → W → Option (ℕ × ℕ) → ℤ × W
  on_file call w none = (failure, w)
  on_file call w (some (fd, f)) = call f w

  unfoldable pub sys_read : (ℕ → ℕ → ℤ → W → ℤ × W) → ℤ → ℕ → ℤ → List (Option ℕ) → W → ℤ × W
  sys_read fileread fd p n ofile w = on_file (λ f v. fileread f p n v) w (argfd fd ofile)

  unfoldable pub sys_write : (ℕ → ℕ → ℤ → W → ℤ × W) → ℤ → ℕ → ℤ → List (Option ℕ) → W → ℤ × W
  sys_write filewrite fd p n ofile w = on_file (λ f v. filewrite f p n v) w (argfd fd ofile)

  unfoldable pub sys_fstat : (ℕ → ℕ → W → ℤ × W) → ℤ → ℕ → List (Option ℕ) → W → ℤ × W
  sys_fstat filestat fd st ofile w = on_file (λ f v. filestat f st v) w (argfd fd ofile)
