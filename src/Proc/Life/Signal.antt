-- ===== src/Proc/Life/Signal.antt =====
-- `kill` of ex4/part1/proc.c: whom it reaches, and two things that it does not put right.
use os_course.Prelude.{
  ℕ, zero, suc, ◌<◌, ◌≡◌, ◌⊎◌, inl, inr, refl, ap, true, false, some, List, [], ◌∷◌, length, set,
  arith, Bool-cases, get_or-set, get_or-set_here, length-set,
}
use os_course.Prelude.Int.{ℤ, pos}
use os_course.Prelude.Word.{int_eq, success, failure}
use os_course.Proc.{Proc, entry, zero_proc}
use os_course.Proc.Env.{Env}
use os_course.Proc.Kernel.{Kernel, allocproc}
use os_course.Proc.Kernel.Alloc.{IsFirstFree, fresh, allocproc_lem}
use os_course.Proc.Kernel.Pids.{PidInv}
use os_course.Proc.Life.{kill, kill_entry}

-- Entry `i` is the first with that pid.
pub record IsFirstPid (pid : ℤ) (t : List Proc) (i : ℕ) : Type 0 where
  pub within : i < length t
  pub hit : int_eq (entry t i).pid pid ≡ true
  pub first : (j : ℕ) → j < i → int_eq (entry t j).pid pid ≡ false

kill-hit :
    (pid : ℤ) (t : List Proc) (i : ℕ)
    → IsFirstPid pid t i
    → kill pid t ≡ (set t i (kill_entry (entry t i)), success)
unfolding kill
kill-hit pid [] i f = absurd (omega (arith, f.within))
kill-hit pid (p ∷ ps) zero f = rw f.hit
kill-hit pid (p ∷ ps) (suc i) f = rw (
  f.first 0 (omega arith),
  kill-hit pid ps i (record {
    within = omega (arith, f.within);
    hit = f.hit;
    first = λ j lt. f.first (suc j) (omega arith);
  }),
)

find_pid :
    (pid : ℤ) (t : List Proc)
    → ((i : ℕ) × IsFirstPid pid t i)
      ⊎ (((j : ℕ) → j < length t → int_eq (entry t j).pid pid ≡ false)
          × (kill pid t ≡ (t, failure)))
unfolding kill
find_pid pid [] = inr ((λ j lt. absurd (omega arith)), refl)
find_pid pid (p ∷ ps) = elim (Bool-cases (int_eq p.pid pid)) [
  | inl hit ↦
      inl (0, record { within = omega arith; hit = hit; first = λ j lt. absurd (omega arith) })
  | inr miss ↦ elim (find_pid pid ps) [
    | inl (i, f) ↦ inl (
      suc i,
      record {
        within = omega (arith, f.within);
        hit = f.hit;
        first = elim [ zero ↦ λ lt. miss | suc j ↦ λ lt. f.first j (omega arith) ];
      },
    )
    | inr (missing, e) ↦
        inr (elim [ zero ↦ λ lt. miss | suc j ↦ λ lt. missing j (omega arith) ], rw (miss, e))
  ]
]

-- `kill` marks the first entry with that pid killed, makes it RUNNABLE if it slept, changes nothing
-- else and returns 0; if no entry has the pid it changes nothing and returns -1.
pub kill_lem :
    (pid : ℤ) (t : List Proc)
    → ((i : ℕ) × IsFirstPid pid t i × (kill pid t ≡ (set t i (kill_entry (entry t i)), success)))
      ⊎ (((j : ℕ) → j < length t → int_eq (entry t j).pid pid ≡ false)
          × (kill pid t ≡ (t, failure)))
kill_lem pid t = elim (find_pid pid t) [
  | inl (i, f) ↦ inl (i, f, kill-hit pid t i f)
  | inr (missing, e) ↦ inr (missing, e)
]

first_unique : (t : List Proc) (i j : ℕ) → IsFirstFree t i → IsFirstFree t j → i ≡ j
first_unique t i j f g = ground (arith, f.first j, g.first i, f.free, g.free)

module _ (t : List Proc) (next : ℤ) (i : ℕ) (inv : PidInv t next) (f : IsFirstFree t i)
    (zero_pid : (entry t i).pid ≡ pos 0) where
  zero_first : IsFirstPid (pos 0) t i
  zero_first = record {
    within = f.within;
    hit = ground (arith, zero_pid);
    first = λ j lt. ground (arith, inv.range j (f.first j lt));
  }

  abbrev marked : List Proc
  marked = set t i (kill_entry (entry t i))

  marked-IsFirstFree : IsFirstFree marked i
  marked-IsFirstFree = record {
    within = omega (arith, f.within, length-set t i (kill_entry (entry t i)));
    free = ground (arith, f.free, f.within, get_or-set_here t i (kill_entry (entry t i)) zero_proc);
    first =
        λ j lt. ground (arith, f.first j lt, get_or-set t i (kill_entry (entry t i)) j zero_proc);
  }

  marked-killed : (entry marked i).killed ≡ true
  marked-killed = ground (arith, f.within, get_or-set_here t i (kill_entry (entry t i)) zero_proc)

-- the entry that `allocproc` returns is as killed as it was while free
alloc-killed :
    (env : Env) (k k' : Kernel env.World) (i i' : ℕ)
    → IsFirstFree k.procs i
    → (entry k.procs i).killed ≡ true
    → allocproc env k ≡ (some i', k')
    → (entry k'.procs i').killed ≡ true
alloc-killed env k k' i i' f dead got = elim (allocproc_lem env k) [
  | inl (d, g, (page, pt, w, e)) ↦
      (let d_i : d ≡ i = first_unique k.procs d i g f in
        ground (
          arith,
          got,
          e,
          d_i,
          g.within,
          get_or-set_here k.procs d (fresh env page pt d k.nextpid k.procs) zero_proc,
        ))
  | inr (inl (d, g, (w, e))) ↦ absurd (ground (arith, got, e))
  | inr (inr (full, e)) ↦ absurd (ground (arith, got, e))
]

-- `kill(0)` takes a free entry for the process: on a table with pids in order whose first free
-- entry has pid 0, it succeeds, and the next process that `allocproc` returns is already killed.
pub kill_zero_marks_next :
    (env : Env) (k k' : Kernel env.World) (i i' : ℕ)
    → PidInv k.procs k.nextpid
    → IsFirstFree k.procs i
    → (entry k.procs i).pid ≡ pos 0
    → allocproc env (record k { procs = (kill (pos 0) k.procs).0 }) ≡ (some i', k')
    → ((kill (pos 0) k.procs).1 ≡ success) × ((entry k'.procs i').killed ≡ true)
kill_zero_marks_next env k k' i i' inv f zero_pid got =
    let e = kill-hit (pos 0) k.procs i (zero_first k.procs k.nextpid i inv f zero_pid) in
    (
      ap (λ r. r.1) e,
      alloc-killed env (record k { procs = marked k.procs k.nextpid i inv f zero_pid }) k' i i'
          (marked-IsFirstFree k.procs k.nextpid i inv f zero_pid)
          (marked-killed k.procs k.nextpid i inv f zero_pid) (rw e at got),
    )
