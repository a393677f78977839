-- ===== src/Task/Map.antt =====
-- The map of tasks in kernel/src/task/executor.rs, as a list sorted by id.
use zoom_os.Prelude.{
  ℕ, ◌<◌, ◌≡◌, ◌≢◌, refl, ap, false, Option, none, some, List, [], ◌∷◌, ◌++◌, arith, ltb, ◌==◌, All,
  All-append, Bool-cases, inl, inr, ltb→lt, ==_iff,
}
use zoom_os.Task.{find_task, insert_task, remove_task, store}

module _ {F : Type 0} where
  -- The ids go up.
  abbrev pub IsSorted : List (ℕ × F) → Type 0
  IsSorted [] = Unit {0}
  IsSorted ((id, f) ∷ tasks) = All (λ t. id < t.0) tasks × IsSorted tasks

  pub find-insert_task :
      (id : ℕ) (f : F) (tasks : List (ℕ × F)) → find_task id (insert_task id f tasks) ≡ some f
  unfolding find_task insert_task
  find-insert_task id f [] = ground arith
  find-insert_task id f ((k, g) ∷ tasks) = let later = find-insert_task id f tasks in ground arith

  pub find-insert_other :
      (id other : ℕ) (f : F) (tasks : List (ℕ × F))
      → other ≢ id
      → find_task other (insert_task id f tasks) ≡ find_task other tasks
  unfolding find_task insert_task
  find-insert_other id other f [] differ = ground arith
  find-insert_other id other f ((k, g) ∷ tasks) differ =
      let later = find-insert_other id other f tasks differ in ground arith

  -- An id below all others is not in the map.
  find-below :
      (id : ℕ) (tasks : List (ℕ × F)) → All (λ t. id < t.0) tasks → find_task id tasks ≡ none
  unfolding find_task
  find-below id [] h = refl
  find-below id ((k, g) ∷ tasks) h =
      let (lt, rest) = h in let later = find-below id tasks rest in ground arith

  pub find-remove_task :
      (id : ℕ) (tasks : List (ℕ × F)) → IsSorted tasks → find_task id (remove_task id tasks) ≡ none
  unfolding find_task remove_task
  find-remove_task id [] h = refl
  find-remove_task id ((k, g) ∷ tasks) h = elim (Bool-cases (id == k)) [
    | inl same ↦
        let is_k : id ≡ k = (==_iff id k).0 same in rw same (find-below id tasks (rw is_k h.0))
    | inr other ↦ let later = find-remove_task id tasks h.1 in rw (other, find_task, other) later
  ]

  pub find-remove_other :
      (id other : ℕ) (tasks : List (ℕ × F))
      → other ≢ id
      → find_task other (remove_task id tasks) ≡ find_task other tasks
  unfolding find_task remove_task
  find-remove_other id other [] differ = refl
  find-remove_other id other ((k, g) ∷ tasks) differ =
      let later = find-remove_other id other tasks differ in ground arith

  -- A task with an id above all others goes to the end.
  pub insert_task-above :
      (id : ℕ) (f : F) (tasks : List (ℕ × F))
      → All (λ t. t.0 < id) tasks
      → insert_task id f tasks ≡ tasks ++ ((id, f) ∷ [])
  unfolding insert_task
  insert_task-above id f [] h = refl
  insert_task-above id f ((k, g) ∷ tasks) h =
      let (lt, rest) = h in
      let other : (id == k) ≡ false = ground arith in
      let more : ltb id k ≡ false = ground arith in
      rw (other, more) (ap (◌∷◌ (k, g)) (insert_task-above id f tasks rest))

  remove_task-All :
      (P : ℕ → Type 0) (id : ℕ) (tasks : List (ℕ × F))
      → All (λ t. P t.0) tasks
      → All (λ t. P t.0) (remove_task id tasks)
  unfolding remove_task
  remove_task-All P id [] h = tt
  remove_task-All P id ((k, g) ∷ tasks) h = elim (Bool-cases (id == k)) [
    | inl same ↦ rw same h.1
    | inr other ↦ rw other (h.0, remove_task-All P id tasks h.1)
  ]

  pub insert_task-All :
      (P : ℕ → Type 0) (id : ℕ) (f : F) (tasks : List (ℕ × F))
      → P id
      → All (λ t. P t.0) tasks
      → All (λ t. P t.0) (insert_task id f tasks)
  unfolding insert_task
  insert_task-All P id f [] p h = (p, tt)
  insert_task-All P id f ((k, g) ∷ tasks) p h = elim (Bool-cases (id == k)) [
    | inl same ↦ rw same (p, h.1)
    | inr other ↦ elim (Bool-cases (ltb id k)) [
      | inl less ↦ rw (other, less) (p, h)
      | inr more ↦ rw (other, more) (h.0, insert_task-All P id f tasks p h.1)
    ]
  ]

  All-below :
      (a b : ℕ) (tasks : List (ℕ × F)) → a < b → All (λ t. b < t.0) tasks → All (λ t. a < t.0) tasks
  All-below a b [] lt h = tt
  All-below a b (t ∷ tasks) lt h = (omega (arith, h.0), All-below a b tasks lt h.1)

  pub insert_task-IsSorted :
      (id : ℕ) (f : F) (tasks : List (ℕ × F)) → IsSorted tasks → IsSorted (insert_task id f tasks)
  unfolding insert_task
  insert_task-IsSorted id f [] h = (tt, tt)
  insert_task-IsSorted id f ((k, g) ∷ tasks) h = elim (Bool-cases (id == k)) [
    | inl same ↦ let is_k : id ≡ k = (==_iff id k).0 same in rw same ((rw is_k h.0), h.1)
    | inr other ↦ elim (Bool-cases (ltb id k)) [
      | inl less ↦
          let lt = ltb→lt id k less in rw (other, less) ((lt, All-below id k tasks lt h.0), h)
      | inr more ↦
          let lt : k < id = ground arith in
          rw (other, more)
            (insert_task-All (λ n. k < n) id f tasks lt h.0, insert_task-IsSorted id f tasks h.1)
    ]
  ]

  remove_task-IsSorted :
      (id : ℕ) (tasks : List (ℕ × F)) → IsSorted tasks → IsSorted (remove_task id tasks)
  unfolding remove_task
  remove_task-IsSorted id [] h = tt
  remove_task-IsSorted id ((k, g) ∷ tasks) h = elim (Bool-cases (id == k)) [
    | inl same ↦ rw same h.1
    | inr other ↦
        rw other (remove_task-All (λ n. k < n) id tasks h.0, remove_task-IsSorted id tasks h.1)
  ]

  pub store-IsSorted :
      (id : ℕ) (p : Option F) (tasks : List (ℕ × F)) → IsSorted tasks → IsSorted (store id p tasks)
  unfolding store
  store-IsSorted id none tasks h = remove_task-IsSorted id tasks h
  store-IsSorted id (some f) tasks h = insert_task-IsSorted id f tasks h

  pub store-All :
      (P : ℕ → Type 0) (id : ℕ) (p : Option F) (tasks : List (ℕ × F))
      → P id
      → All (λ t. P t.0) tasks
      → All (λ t. P t.0) (store id p tasks)
  unfolding store
  store-All P id none tasks i h = remove_task-All P id tasks h
  store-All P id (some f) tasks i h = insert_task-All P id f tasks i h

  pub find_task-All :
      (P : ℕ → Type 0) (id : ℕ) (f : F) (tasks : List (ℕ × F))
      → find_task id tasks ≡ some f
      → All (λ t. P t.0) tasks
      → P id
  unfolding find_task
  find_task-All P id f [] e h = absurd cc
  find_task-All P id f ((k, g) ∷ tasks) e h = elim (Bool-cases (id == k)) [
    | inl same ↦ let is_k : id ≡ k = (==_iff id k).0 same in rw is_k h.0
    | inr other ↦
        let later : find_task id tasks ≡ some f = ground arith in
        find_task-All P id f tasks later h.1
  ]

  -- A task after all others keeps the order.
  pub IsSorted-last :
      (id : ℕ) (f : F) (tasks : List (ℕ × F))
      → All (λ t. t.0 < id) tasks
      → IsSorted tasks
      → IsSorted (tasks ++ ((id, f) ∷ []))
  IsSorted-last id f [] h s = (tt, tt)
  IsSorted-last id f ((k, g) ∷ tasks) h s = (
    All-append (λ t. k < t.0) tasks ((id, f) ∷ []) s.0 (h.0, tt),
    IsSorted-last id f tasks h.1 s.1,
  )
