-- ===== src/Proc/Kernel/Pids.antt =====
-- Process ids of ex4/part1/proc.c: no two live entries share one.
use os_course.Prelude.{ℕ, ◌≡◌, true, false, List, set, arith, get_or-set}
use os_course.Prelude.Int.{ℤ, pos, ◌≤ℤ◌, ◌<ℤ◌}
use os_course.Prelude.Word.{int_succ, int_max}
use os_course.Proc.{Proc, entry, is_unused, zero_proc}

-- Entry `j` is taken.
abbrev pub IsLive : List Proc → ℕ → Type 0
IsLive t j = is_unused (entry t j).state ≡ false

-- Live entries have pids from 1 to `nextpid - 1`, all different.
pub record PidInv (t : List Proc) (next : ℤ) : Type 0 where
  pub next_pos : pos 1 ≤ℤ next
  pub range : (j : ℕ) → IsLive t j → (pos 1 ≤ℤ (entry t j).pid) × ((entry t j).pid <ℤ next)
  pub distinct : (i j : ℕ) → IsLive t i → IsLive t j → (entry t i).pid ≡ (entry t j).pid → i ≡ j

-- Freeing an entry, or changing a live one but not its pid, keeps the invariant.
pub free-PidInv :
    (t : List Proc) (next : ℤ) (i : ℕ) (p : Proc)
    → PidInv t next
    → is_unused p.state ≡ true
    → PidInv (set t i p) next
free-PidInv t next i p inv off = record {
  next_pos = inv.next_pos;
  range = λ j live. ground (arith, get_or-set t i p j zero_proc, inv.range j);
  distinct = λ a b la lb e.
      ground (arith, get_or-set t i p a zero_proc, get_or-set t i p b zero_proc, inv.distinct a b);
}

pub same-PidInv :
    (t : List Proc) (next : ℤ) (i : ℕ) (p : Proc)
    → PidInv t next
    → IsLive t i
    → p.pid ≡ (entry t i).pid
    → PidInv (set t i p) next
same-PidInv t next i p inv live same = record {
  next_pos = inv.next_pos;
  range = λ j live'. ground (arith, get_or-set t i p j zero_proc, inv.range j, inv.range i);
  distinct = λ a b la lb e. ground (
    arith,
    get_or-set t i p a zero_proc,
    get_or-set t i p b zero_proc,
    inv.distinct a b,
    inv.distinct i b,
    inv.distinct a i,
  );
}

-- A new pid.
pub next-PidInv :
    (t : List Proc) (next : ℤ) (i : ℕ) (p : Proc)
    → PidInv t next
    → next <ℤ pos int_max
    → p.pid ≡ next
    → PidInv (set t i p) (int_succ next)
next-PidInv t next i p inv small new = record {
  next_pos = ground (arith, inv.next_pos);
  range = λ j live'. ground (arith, get_or-set t i p j zero_proc, inv.range j, inv.next_pos);
  distinct = λ a b la lb e. ground (
    arith,
    get_or-set t i p a zero_proc,
    get_or-set t i p b zero_proc,
    inv.distinct a b,
    inv.range a,
    inv.range b,
  );
}

pub wider-PidInv :
    (t : List Proc) (next : ℤ) → PidInv t next → next <ℤ pos int_max → PidInv t (int_succ next)
wider-PidInv t next inv small = record {
  next_pos = ground (arith, inv.next_pos);
  range = λ j live. ground (arith, inv.range j live, inv.next_pos);
  distinct = inv.distinct;
}
