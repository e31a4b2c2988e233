-- ===== src/Sem/Table.antt =====
-- What each call of ex4/part2/sem.c does to the table and what it returns, on every branch.
use os_course.Prelude.{
  ℕ, zero, suc, ◌+◌, ◌<◌, ◌≡◌, ◌⊎◌, inl, inr, refl, ap, ◌∙◌, get_or-set_here, true, false, List, [],
  ◌∷◌, length, get_or, set, arith, Bool-cases, get_or-set, set-set, set-get_or_self,
}
use os_course.Prelude.Int.{ℤ, pos, negsuc}
use os_course.Prelude.Word.{success, failure, int_eq}
use os_course.Sem.{
  Sem, max_sems, free_sem, claim_from, sem_create_claim, sem_create_fill, sem_create, sem_free,
}

abbrev pub slot : List Sem → ℕ → Sem
slot t i = get_or t i free_sem

-- A slot out of range reads as a free one.
pub used-lt : (t : List Sem) (i : ℕ) → (slot t i).used ≡ true → i < length t
used-lt [] i h = cc
used-lt (s ∷ t) zero h = omega arith
used-lt (s ∷ t) (suc i) h = omega (arith, used-lt t i h)

-- The new slot `i` (numbered from `k`) is the first free one, or there is none.
record Found (k i : ℕ) (t : List Sem) : Type 0 where
  within : i < length t
  free : (slot t i).used ≡ false
  first : (j : ℕ) → j < i → (slot t j).used ≡ true
  table : (claim_from k t).0 ≡ set t i (record (slot t i) { used = true })
  id : (claim_from k t).1 ≡ pos (k + i)

record Full (k : ℕ) (t : List Sem) : Type 0 where
  all_used : (j : ℕ) → j < length t → (slot t j).used ≡ true
  table : (claim_from k t).0 ≡ t
  id : (claim_from k t).1 ≡ failure

claim_from-cases : (k : ℕ) (t : List Sem) → ((i : ℕ) × Found k i t) ⊎ Full k t
claim_from-cases k [] =
    inr (record { all_used = λ j h. absurd (omega arith); table = refl; id = refl })
claim_from-cases k (s ∷ t) = elim (Bool-cases s.used) [
  | inr open' ↦ inl (
    0,
    record {
      within = omega arith;
      free = open';
      first = λ j h. absurd (omega arith);
      table = ground arith;
      id = ground arith;
    },
  )
  | inl taken ↦ elim (claim_from-cases (suc k) t) [
    | inl (i, f) ↦ inl (suc i, Found-suc taken f)
    | inr f ↦ inr (Full-suc taken f)
  ]
]
  where
    Found-suc : {i : ℕ} → s.used ≡ true → Found (suc k) i t → Found k (suc i) (s ∷ t)
    Found-suc {i} taken f = record {
      within = omega arith;
      free = f.free;
      first = elim [ zero ↦ λ h. taken | suc j ↦ λ h. f.first j (omega arith) ];
      table = ground arith;
      id = ground arith;
    }

    Full-suc : s.used ≡ true → Full (suc k) t → Full k (s ∷ t)
    Full-suc taken f = record {
      all_used = elim [ zero ↦ λ h. taken | suc j ↦ λ h. f.all_used j (omega arith) ];
      table = ground arith;
      id = ground arith;
    }

-- `sem_create` takes the first free slot, sets its value and initial value, changes no other slot
-- and returns its index; when every slot is used it changes nothing and returns -1.
pub sem_create_lem :
    (v : ℤ) (t : List Sem)
    → ((i : ℕ) × (i < length t)
        × ((slot t i).used ≡ false)
        × ((j : ℕ) → j < i → (slot t j).used ≡ true)
        × (sem_create v t ≡ (set t i (record { value = v; init_value = v; used = true }), pos i)))
      ⊎ (((j : ℕ) → j < length t → (slot t j).used ≡ true) × (sem_create v t ≡ (t, failure)))
unfolding sem_create sem_create_claim
sem_create_lem v t = elim (claim_from-cases 0 t) [
  | inl (i, f) ↦ inl (
    i,
    f.within,
    f.free,
    f.first,
    ap (λ (c : List Sem × ℤ). (sem_create_fill v c.1 c.0, c.1)) (ground (arith, f.table, f.id))
        ∙ ap (λ u. (u, pos i)) (filled i f.within),
  )
  | inr f ↦ inr (
    f.all_used,
    ap (λ (c : List Sem × ℤ). (sem_create_fill v c.1 c.0, c.1)) {y = (t, failure)}
        (ground (arith, f.table, f.id)),
  )
]
  where
    filled :
        (i : ℕ)
        → i < length t
        → sem_create_fill v (pos i) (set t i (record (slot t i) { used = true }))
          ≡ set t i (record { value = v; init_value = v; used = true })
    filled i lt =
        let claimed : Sem = record (slot t i) { used = true } in
        rw (get_or-set_here t i claimed free_sem lt, set-set t i claimed) refl

-- The slot that `sem_create` is about to fill.
pub sem_create_claim_lem :
    (t : List Sem) (i : ℕ)
    → (sem_create_claim t).1 ≡ pos i
    → (i < length t) × ((sem_create_claim t).0 ≡ set t i (record (slot t i) { used = true }))
unfolding sem_create_claim
sem_create_claim_lem t i e = elim (claim_from-cases 0 t) [
  | inl (k, f) ↦
      let same : k ≡ i = ground (arith, e, f.id) in (rw same at f.within, rw same at f.table)
  | inr f ↦ absurd (ground (arith, e, f.id))
]

-- A slot in use is not touched by `sem_create`.
pub slot-sem_create :
    (v : ℤ) (t : List Sem) (i : ℕ) → (slot t i).used ≡ true → slot (sem_create v t).0 i ≡ slot t i
slot-sem_create v t i on = elim (sem_create_lem v t) [
  | inl (k, h, off, first, e) ↦ rw e (
      ground (
        arith,
        get_or-set t k (record { value = v; init_value = v; used = true }) i free_sem,
        off,
        on,
      ))
  | inr (all, e) ↦ rw e refl
]

-- `sem_free` on a slot in range succeeds exactly when the slot is used and its value is the one
-- it was created with, and then clears it; otherwise it returns -1 and changes nothing.
pub sem_free_lem :
    (i : ℕ) (t : List Sem)
    → i < max_sems
    → (((slot t i).used ≡ true)
        × (int_eq (slot t i).value (slot t i).init_value ≡ true)
        × (sem_free (pos i) t ≡ (set t i free_sem, success)))
      ⊎ ((((slot t i).used ≡ false) ⊎ (int_eq (slot t i).value (slot t i).init_value ≡ false))
          × (sem_free (pos i) t ≡ (t, failure)))
unfolding sem_free
sem_free_lem i t h = elim (Bool-cases (slot t i).used) [
  | inr off ↦ inr (inl off, ground arith)
  | inl on ↦ elim (Bool-cases (int_eq (slot t i).value (slot t i).init_value)) [
    | inl same ↦ inl (on, same, ground arith)
    | inr other ↦ inr (inr other, ground arith)
  ]
]

-- The table as the boot and every later call leave it: a slot not in use is cleared.
abbrev pub IsClean : List Sem → Type 0
IsClean t = (j : ℕ) → (slot t j).used ≡ false → slot t j ≡ free_sem

int_eq_self : (v : ℤ) → int_eq v v ≡ true
int_eq_self (pos n) = ground arith
int_eq_self (negsuc n) = ground arith

-- the slot that `sem_create` gave away, freed at once
sem_free_fresh :
    (v : ℤ) (t : List Sem) (k : ℕ)
    → k < length t
    → length t ≡ max_sems
    → slot t k ≡ free_sem
    → sem_free (pos k) (set t k (record { value = v; init_value = v; used = true })) ≡ (t, success)
unfolding sem_free
sem_free_fresh v t k h len e = ground (
  arith,
  get_or-set t k (record { value = v; init_value = v; used = true }) k free_sem,
  int_eq_self v,
  set-set t k (record { value = v; init_value = v; used = true }) free_sem,
  set-get_or_self t k free_sem,
)

-- On a clean table of the array's length, freeing the semaphore that `sem_create` has just
-- returned succeeds and gives the table back.
pub sem_free-sem_create :
    (v : ℤ) (t : List Sem) (i : ℕ)
    → length t ≡ max_sems
    → IsClean t
    → (sem_create v t).1 ≡ pos i
    → sem_free (pos i) (sem_create v t).0 ≡ (t, success)
sem_free-sem_create v t i len clean got = elim (sem_create_lem v t) [
  | inl (k, h, off, first, e) ↦
      (let same : i ≡ k = ground (arith, e) in
        rw (e, same) (sem_free_fresh v t k h len (clean k off)))
  | inr (all, e) ↦ absurd (ground (arith, e))
]
