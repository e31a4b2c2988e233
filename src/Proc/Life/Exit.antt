-- ===== src/Proc/Life/Exit.antt =====
-- What `exit` of ex4/part1/proc.c leaves in the table.
use os_course.Prelude.{
  ℕ, ◌<◌, ◌≡◌, ◌≢◌, false, none, some, List, ◌&&◌, map, length, set, arith, get_or-set,
  get_or-set_here, get_or_outside, length-set, if◌then◌else◌, ◌==◌, ltb,
}
use os_course.Prelude.Int.{ℤ}
use os_course.Proc.{Proc, zombie, entry, index_eq, is_zombie, zero_proc}
use os_course.Proc.Env.{Env}
use os_course.Proc.Sched.{wakeup}
use os_course.Proc.Kernel.{Kernel}
use os_course.Proc.Life.{chan_of, reparent, exit_body}
use os_course.Proc.Life.Reap.{Quiet, wakeup-Quiet, Adopted, reparent-Adopted}

module _ (env : Env) (me : ℕ) (k : Kernel env.World) where
  -- What the table says after `exit`.
  pub record Exited (status : ℤ) (u : List Proc) : Type 0 where
    pub size : length u ≡ length k.procs
    pub state : (entry u me).state ≡ zombie
    pub xstate : (entry u me).xstate ≡ status
    pub orphans : (j : ℕ) → index_eq (entry u j).parent (some me) ≡ false
    pub parent :
        (j : ℕ)
        → index_eq (entry k.procs j).parent (some me) ≡ false
        → (entry u j).parent ≡ (entry k.procs j).parent
    pub dead : (j : ℕ) → j ≢ me → is_zombie (entry u j).state ≡ is_zombie (entry k.procs j).state
    pub pid : (j : ℕ) → (entry u j).pid ≡ (entry k.procs j).pid

  -- `exit` by a process that is not init leaves it a ZOMBIE with its status; no entry is its child
  -- any more, the children of others and all pids stay, and no other entry becomes a ZOMBIE.
  pub exit_lem :
      (status : ℤ)
      → me < length k.procs
      → index_eq (some me) k.initproc ≡ false
      → Exited status (exit_body env me status k).procs
  unfolding exit_body
  exit_lem status lt other = record {
    size = ground (arith, size2, size1, size0, length-set t2 me last);
    state = ground (arith, here);
    xstate = ground (arith, here);
    orphans = λ j. ground (
      arith,
      final j,
      q.parent j,
      a.parent j,
      q.parent me,
      a.parent me,
      size0,
      get_or_outside t0 j zero_proc,
      get_or_outside t0 me zero_proc,
    );
    parent = λ j own.
        ground
          (arith, final j, q.parent j, a.parent j, first j, q.parent me, a.parent me, first me);
    dead = λ j ne. ground (arith, final j, q.dead j, a.dead j, first j);
    pid = λ j. ground (arith, final j, q.pid j, a.pid j, first j, q.pid me, a.pid me, first me);
  }
    where
      p0 : Proc
      p0 = record (entry k.procs me) {
        ofile = map (λ f. none) (entry k.procs me).ofile;
        cwd = none;
      }

      t0 : List Proc
      t0 = set k.procs me p0

      t1 : List Proc
      t1 = reparent k.initproc me t0

      t2 : List Proc
      t2 = wakeup (chan_of (entry t1 me).parent) (some me) t1

      last : Proc
      last = record (entry t2 me) { xstate = status; state = zombie }

      a : Adopted k.initproc me (length t0) t0 t1
      a = reparent-Adopted k.initproc me t0

      q : Quiet t1 t2
      q = wakeup-Quiet (chan_of (entry t1 me).parent) (some me) t1

      size0 : length t0 ≡ length k.procs
      size0 = length-set k.procs me p0

      size1 : length t1 ≡ length t0
      size1 = a.size

      size2 : length t2 ≡ length t1
      size2 = q.size

      here : entry (set t2 me last) me ≡ last
      here = get_or-set_here t2 me last zero_proc (omega (arith, size2, size1, size0))

      final :
          (j : ℕ)
          → entry (set t2 me last) j ≡ (if me == j && ltb me (length t2) then last else entry t2 j)
      final j = get_or-set t2 me last j zero_proc

      first :
          (j : ℕ)
          → entry t0 j ≡ (if me == j && ltb me (length k.procs) then p0 else entry k.procs j)
      first j = get_or-set k.procs me p0 j zero_proc
