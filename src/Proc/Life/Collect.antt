-- ===== src/Proc/Life/Collect.antt =====
-- `wait` of ex4/part1/proc.c: a parent collects the child that has exited.
use os_course.Prelude.{
  ℕ, zero, suc, ◌+◌, ◌<◌, ◌≡◌, ◌≢◌, ◌⊎◌, inl, inr, refl, ap, ◌∙◌, Bool, true, false, some, List, [],
  ◌∷◌, ◌&&◌, ◌||◌, length, arith, Option, none, get_or-set, get_or-set_here, Bool-cases,
  if◌then◌else◌,
}
use os_course.Prelude.Int.{ℤ, pos}
use os_course.Prelude.Word.{failure}
use os_course.Proc.{Proc, unused, nowhere, zero_proc, entry, index_eq, is_zombie}
use os_course.Proc.Env.{Env}
use os_course.Proc.Kernel.{Kernel, freed, freeproc}
use os_course.Proc.Life.{
  killed, exit_body, returns, sleeps, give_up, reap, copy_status, wait_from, wait,
}
use os_course.Proc.Life.Exit.{Exited, exit_lem}

child-cases :
    (me : ℕ) (t : List Proc)
    → ((j : ℕ) × (j < length t) × (index_eq (entry t j).parent (some me) ≡ true))
      ⊎ ((j : ℕ) → index_eq (entry t j).parent (some me) ≡ false)
child-cases me [] = inr (λ j. refl)
child-cases me (p ∷ ps) = elim (Bool-cases (index_eq p.parent (some me))) [
  | inl hit ↦ inl (0, omega arith, hit)
  | inr miss ↦ elim (child-cases me ps) [
    | inl (j, lt, hit) ↦ inl (suc j, omega arith, hit)
    | inr lone ↦ inr (elim [ zero ↦ miss | suc j ↦ lone j ])
  ]
]

-- Entry `j` is a child of `me` that has exited.
abbrev pub is_dead_child : ℕ → List Proc → ℕ → Bool
is_dead_child me t j = index_eq (entry t j).parent (some me) && is_zombie (entry t j).state

module _ (env : Env) (me : ℕ) (k : Kernel env.World) where
  -- A pass of `wait` reaches entry `i + d` first among the dead children.
  wait_from-reap :
      (addr n i d : ℕ) (havekids : Bool)
      → d < n
      → is_dead_child me k.procs (i + d) ≡ true
      → ((j : ℕ) → j < d → is_dead_child me k.procs (i + j) ≡ false)
      → wait_from env me addr n i havekids k
        ≡ reap env
            (i + d)
            k
            (copy_status env (entry k.procs me).pagetable addr (entry k.procs (i + d)) k.world)
  unfolding wait_from
  wait_from-reap addr zero i d havekids lt hit first = absurd (omega arith)
  wait_from-reap addr (suc n) i zero havekids lt hit first =
      let here : i + 0 ≡ i = omega arith in rw (here, rw here at hit)
  wait_from-reap addr (suc n) i (suc d) havekids lt hit first =
      let here : i + 0 ≡ i = omega arith in
      let shift : (j : ℕ) → i + suc j ≡ suc i + j = λ j. omega arith in
      rw (rw here at (first 0 (omega arith)), shift d)
        (wait_from-reap addr n (suc i) d _ (omega arith) (rw (shift d) at hit)
          (λ j h. rw (shift j) at (first (suc j) (omega arith))))

  -- `havekids` behind `n` entries from entry `i` on.
  any_child : ℕ → ℕ → Bool → Bool
  any_child zero i h = h
  any_child (suc n) i h = any_child n (suc i) (h || index_eq (entry k.procs i).parent (some me))

  wait_from-idle :
      (addr n i : ℕ) (havekids : Bool)
      → ((j : ℕ) → j < n → is_dead_child me k.procs (i + j) ≡ false)
      → wait_from env me addr n i havekids k ≡ give_up me (any_child n i havekids) k
  unfolding wait_from any_child
  wait_from-idle addr zero i havekids alive = refl
  wait_from-idle addr (suc n) i havekids alive =
      let here : i + 0 ≡ i = omega arith in
      let shift : (j : ℕ) → i + suc j ≡ suc i + j = λ j. omega arith in
      rw (rw here at (alive 0 (omega arith)))
        (wait_from-idle addr n (suc i) _ (λ j h. rw (shift j) at (alive (suc j) (omega arith))))

  any_child-true : (n i : ℕ) → any_child n i true ≡ true
  unfolding any_child
  any_child-true zero i = refl
  any_child-true (suc n) i = any_child-true n (suc i)

  any_child-hit :
      (n i d : ℕ) (h : Bool)
      → d < n
      → index_eq (entry k.procs (i + d)).parent (some me) ≡ true
      → any_child n i h ≡ true
  unfolding any_child
  any_child-hit zero i d h lt hit = absurd (omega arith)
  any_child-hit (suc n) i zero h lt hit =
      let here : i + 0 ≡ i = omega arith in
      let yes' : (h || index_eq (entry k.procs i).parent (some me)) ≡ true =
        ground (arith, rw here at hit) in
      rw yes' (any_child-true n (suc i))
  any_child-hit (suc n) i (suc d) h lt hit =
      let shift : i + suc d ≡ suc i + d = omega arith in
      any_child-hit n (suc i) d _ (omega arith) (rw shift at hit)

  any_child-none :
      (n i : ℕ)
      → ((j : ℕ) → index_eq (entry k.procs j).parent (some me) ≡ false)
      → any_child n i false ≡ false
  unfolding any_child
  any_child-none zero i lone = refl
  any_child-none (suc n) i lone = rw (lone i) (any_child-none n (suc i) lone)

  -- `wait` collects the first dead child, once its status is copied out: it returns its pid and frees
  -- its entry.
  pub wait_reaps :
      (addr i : ℕ) (w : env.World)
      → i < length k.procs
      → is_dead_child me k.procs i ≡ true
      → ((j : ℕ) → j < i → is_dead_child me k.procs j ≡ false)
      → copy_status env (entry k.procs me).pagetable addr (entry k.procs i) k.world ≡ (true, w)
      → wait env me addr k
        ≡ (returns (entry k.procs i).pid, freeproc env i (record k { world = w }))
  unfolding wait
  wait_reaps addr i w lt hit first copied =
      rw (wait_from-reap addr (length k.procs) 0 i false lt hit' first') (rw (same i, copied) refl)
    where
      same : (j : ℕ) → 0 + j ≡ j
      same j = omega arith

      hit' : is_dead_child me k.procs (0 + i) ≡ true
      hit' = rw (same i) hit

      first' : (j : ℕ) → j < i → is_dead_child me k.procs (0 + j) ≡ false
      first' j h = rw (same j) (first j h)

  wait_idle :
      (addr : ℕ)
      → ((j : ℕ) → is_dead_child me k.procs j ≡ false)
      → wait env me addr k ≡ give_up me (any_child (length k.procs) 0 false) k
  unfolding wait
  wait_idle addr alive = wait_from-idle addr (length k.procs) 0 false (λ j h. alive (0 + j))

  -- With no dead child `wait` changes nothing: without any child it returns -1; with one it returns
  -- -1 if the caller was killed, and otherwise sleeps.
  pub wait_blocks :
      (addr : ℕ)
      → ((j : ℕ) → is_dead_child me k.procs j ≡ false)
      → (((j : ℕ) → index_eq (entry k.procs j).parent (some me) ≡ false)
          × (wait env me addr k ≡ (returns failure, k)))
        ⊎ ((j : ℕ) × (j < length k.procs)
            × (index_eq (entry k.procs j).parent (some me) ≡ true)
            × (wait env me addr k
                ≡ (if killed me k.procs then (returns failure, k) else (sleeps, k))))
  wait_blocks addr alive = elim (child-cases me k.procs) [
    | inl (j, lt, hit) ↦
        (let some_child = any_child-hit (length k.procs) 0 j false lt (rw (zero-add' j) hit) in
          inr (j, lt, hit, wait_idle addr alive ∙ ap (λ h. give_up me h k) some_child))
    | inr lone ↦
        (let no_child = any_child-none (length k.procs) 0 lone in
          inl (lone, wait_idle addr alive ∙ ap (λ h. give_up me h k) no_child))
  ]
    where
      zero-add' : (j : ℕ) → 0 + j ≡ j
      zero-add' j = omega arith

-- The entry of a process is free, and keeps nothing of it that another process could be taken for.
pub record Cleared (p : Proc) : Type 0 where
  state : p.state ≡ unused
  pid : p.pid ≡ pos 0
  parent : p.parent ≡ none
  chan : p.chan ≡ nowhere
  killed : p.killed ≡ false
  xstate : p.xstate ≡ pos 0
  sz : p.sz ≡ 0
  trapframe : p.trapframe ≡ none
  pagetable : p.pagetable ≡ none
  name : p.name ≡ []

freeproc-Cleared :
    (env : Env) (i : ℕ) (k : Kernel env.World)
    → i < length k.procs
    → Cleared (entry (freeproc env i k).procs i)
unfolding freeproc
freeproc-Cleared env i k lt =
    let here = get_or-set_here k.procs i (freed (entry k.procs i)) zero_proc lt in
    record {
      state = ap (λ p. p.state) here;
      pid = ap (λ p. p.pid) here;
      parent = ap (λ p. p.parent) here;
      chan = ap (λ p. p.chan) here;
      killed = ap (λ p. p.killed) here;
      xstate = ap (λ p. p.xstate) here;
      sz = ap (λ p. p.sz) here;
      trapframe = ap (λ p. p.trapframe) here;
      pagetable = ap (λ p. p.pagetable) here;
      name = ap (λ p. p.name) here;
    }

freeproc_elsewhere :
    (env : Env) (i : ℕ) (k : Kernel env.World) (j : ℕ)
    → j ≢ i
    → entry (freeproc env i k).procs j ≡ entry k.procs j
unfolding freeproc
freeproc_elsewhere env i k j ne =
    ground (arith, get_or-set k.procs i (freed (entry k.procs i)) j zero_proc, ne)

copied :
    (env : Env) (table : Option ℕ) (addr : ℕ) (p : Proc) (v : env.World)
    → (addr ≡ 0) ⊎ ((env.copyout table addr p.xstate v).0 ≡ true)
    → (w : env.World) × (copy_status env table addr p v ≡ (true, w))
copied env table zero p v h = (v, refl)
copied env table (suc a) p v h = elim h [
  | inl e ↦ absurd (omega (arith, e))
  | inr e ↦ (
    (env.copyout table (suc a) p.xstate v).1,
    ap (λ b. (b, (env.copyout table (suc a) p.xstate v).1)) e,
  )
]

-- A child that is not init exits while no entry before it is a ZOMBIE: its parent's next `wait`, with
-- the address 0 or one that the status can be copied to, returns the child's pid. It leaves the entry
-- UNUSED with its pid, parent, size and page table cleared, and all other entries as the exit left them.
pub wait-exit :
    (env : Env) (me pr addr : ℕ) (status : ℤ) (k : Kernel env.World)
    → me < length k.procs
    → index_eq (some me) k.initproc ≡ false
    → me ≢ pr
    → (entry k.procs me).parent ≡ some pr
    → ((j : ℕ) → j < me → is_zombie (entry k.procs j).state ≡ false)
    → (k1 : Kernel env.World) → exit_body env me status k ≡ k1
    → (addr ≡ 0) ⊎ ((env.copyout (entry k1.procs pr).pagetable addr status k1.world).0 ≡ true)
    → (k2 : Kernel env.World) × (wait env pr addr k1 ≡ (returns (entry k.procs me).pid, k2))
      × Cleared (entry k2.procs me)
      × ((j : ℕ) → j ≢ me → entry k2.procs j ≡ entry k1.procs j)
wait-exit env me pr addr status k lt other apart child none_before k1 exits ready =
    let (w, ok) =
      copied env (entry k1.procs pr).pagetable addr (entry k1.procs me) k1.world
        (rw (← e.xstate) at ready) in
    (
      freeproc env me (record k1 { world = w }),
      rw (← e.pid me) (wait_reaps env pr k1 addr me w (omega (arith, lt, e.size)) hit first ok),
      freeproc-Cleared env me (record k1 { world = w }) (omega (arith, lt, e.size)),
      freeproc_elsewhere env me (record k1 { world = w }),
    )
  where
    e : Exited env me k status k1.procs
    e = rw exits at (exit_lem env me k status lt other)

    hit : is_dead_child pr k1.procs me ≡ true
    hit = ground (arith, e.state, e.parent me, child, apart)

    first : (j : ℕ) → j < me → is_dead_child pr k1.procs j ≡ false
    first j h = ground (arith, e.dead j, none_before j h)
