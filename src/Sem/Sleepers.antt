-- ===== src/Sem/Sleepers.antt =====
-- Who sleeps in `sem_down` of ex4/part2/sem.c, and who is never woken.
use os_course.Prelude.{
  ℕ, ◌<◌, sym, ap, ◌∙◌, get_or-set_here, ◌≡◌, ◌≢◌, ◌⊎◌, inl, inr, refl, true, arith, Bool-cases,
  get_or-set, ◌==◌,
}
use os_course.Prelude.Int.{ℤ, pos}
use os_course.Prelude.Word.{success, failure}
use os_course.Sem.{
  Sem, sem_create_claim, sem_create_fill, max_sems, free_sem, sem_free, sem_down, sem_up,
}
use os_course.Sem.Table.{slot, used-lt, sem_create_claim_lem}
use os_course.Sem.System.{System, update, Pc, running, asleep, woken, free, down, up, apply}

-- `sem_create` marks a slot as used before it writes its value, under a lock that `sem_down` does not
-- take: a process that goes down on a slot which was left at 0, between the two, sleeps, and once
-- the value is written it still sleeps, on a slot that is in use and has the units it was created with.
pub create_strands_waiter :
    (v : ℤ) (p i : ℕ) (s s1 s2 s3 : System)
    → i < max_sems
    → (slot s.sems i).value ≡ pos 0
    → sem_create_claim s.sems ≡ (s1.sems, pos i)
    → apply (down p (pos i)) s1 ≡ s2
    → s3 ≡ record s2 { sems = sem_create_fill v (pos i) s2.sems }
    → (s3.pc p ≡ asleep i) × (slot s3.sems i ≡ record { value = v; init_value = v; used = true })
unfolding apply sem_down
create_strands_waiter v p i s s1 s2 s3 lt zero_left claims downs fills =
    let (within, table) = sem_create_claim_lem s.sems i (ap (λ c. c.1) claims) in
    let claimed : Sem = record (slot s.sems i) { used = true } in
    let here : slot s1.sems i ≡ claimed =
      ap (λ t. slot t i) (sym (ap (λ c. c.0) claims) ∙ table)
      ∙ get_or-set_here s.sems i claimed free_sem within in
    let asleep2 : s2 ≡ record s1 { pc = update s1.pc p (asleep i) } =
      sym downs ∙ ground (arith, here, zero_left) in
    rw (fills, asleep2)
      (
        ground arith,
        ground (
          arith,
          here,
          used-lt s1.sems i,
          get_or-set_here s1.sems i (record { value = v; init_value = v; used = true }) free_sem,
        ),
      )

-- `sem_up` on a slot in use leaves no process asleep on it: each becomes woken, and all others
-- stay as they are.
up_wakes_all :
    (i : ℕ) (s : System)
    → i < max_sems
    → (slot s.sems i).used ≡ true
    → (p : ℕ)
    → ((s.pc p ≡ asleep i) × ((apply (up (pos i)) s).pc p ≡ woken i))
      ⊎ ((s.pc p ≢ asleep i) × ((apply (up (pos i)) s).pc p ≡ s.pc p))
unfolding apply sem_up
up_wakes_all i s lt on p = wakes (s.pc p) refl
  where
    wakes :
        (x : Pc)
        → s.pc p ≡ x
        → ((s.pc p ≡ asleep i) × ((apply (up (pos i)) s).pc p ≡ woken i))
          ⊎ ((s.pc p ≢ asleep i) × ((apply (up (pos i)) s).pc p ≡ s.pc p))
    wakes running e = inr (λ h. cc, ground arith)
    wakes (woken j) e = inr (λ h. cc, ground arith)
    wakes (asleep j) e = elim (Bool-cases (i == j)) [
      | inl same ↦ inl (ground arith, ground arith)
      | inr other ↦ inr (λ h. ground arith, ground arith)
    ]

-- `sem_free` does not look for waiters: with a process asleep on a slot in use whose value and
-- initial value are 0, it succeeds, the process stays asleep, and the next `sem_up` of that slot
-- returns -1 and wakes nobody.
pub free_strands_waiter :
    (p i : ℕ) (s : System)
    → i < max_sems
    → slot s.sems i ≡ record { value = pos 0; init_value = pos 0; used = true }
    → s.pc p ≡ asleep i
    → ((sem_free (pos i) s.sems).1 ≡ success)
      × ((sem_up (pos i) (apply (free (pos i)) s).sems).1 ≡ failure)
      × ((apply (up (pos i)) (apply (free (pos i)) s)).pc p ≡ asleep i)
unfolding apply sem_free sem_up
free_strands_waiter p i s lt e h =
    ground (arith, used-lt s.sems i, get_or-set s.sems i free_sem i free_sem)
