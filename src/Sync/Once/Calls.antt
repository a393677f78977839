-- ===== src/Sync/Once/Calls.antt =====
-- The calls on a `OnceLock` of kernel/src/util/once.rs, one after the other and with others between.
use zoom_os.Prelude.{ℕ, suc, zero, ◌+◌, Bool, true, false, ◌≡◌, refl, ap, none, some, List, [], ◌∷◌}
use zoom_os.Sync.Once.Steps.{step-fails, step-claims, step-spins}
use zoom_os.Sync.Once.{
  Cell, exchanging, claimed, returned, step, steps, on_error, is_init, try_init_inner, init_once,
  get, try_get, try_init_once, get_or_init, get_unchecked, finished, ok, err, uninitialized,
  already_initialized,
}

-- As many exchanges that fail for no reason, and then the three steps of a call that wins.
abbrev pub attempts : ℕ → List Bool
attempts zero = false ∷ false ∷ false ∷ []
attempts (suc n) = true ∷ attempts n

module _ {A : Type 0} where
  steps-claims :
      (val : A) (c : Cell A)
      → steps (false ∷ false ∷ []) val claimed c
        ≡ (returned, record c { inner = some val; status = 2; runs = c.runs + 1 })
  unfolding steps step
  steps-claims val c = refl

  steps-attempts :
      (n : ℕ) (val : A) (c : Cell A)
      → c.status ≡ 0
      → steps (attempts n) val exchanging c
        ≡ (returned, record c { inner = some val; status = 2; runs = c.runs + 1 })
  unfolding steps
  steps-attempts zero val c e =
      rw (step-claims c val e) (steps-claims val (record c { status = 1 }))
  steps-attempts (suc n) val c e = rw (step-fails c val e, steps) (steps-attempts n val c e)

  steps-running :
      (flags : List Bool) (val : A) (c : Cell A)
      → c.status ≡ 1
      → steps flags val exchanging c ≡ (exchanging, c)
  unfolding steps
  steps-running [] val c e = refl
  steps-running (spurious ∷ flags) val c e =
      rw (step-spins c val spurious e) (steps-running flags val c e)

  -- A call on an untouched cell that runs alone returns after any number of spurious failures,
  -- with its value in the cell and its initialiser run once.
  pub try_init_inner-attempts :
      (n : ℕ) (val : A) (c : Cell A)
      → c.status ≡ 0
      → try_init_inner (attempts n) val c
        ≡ some (record c { inner = some val; status = 2; runs = c.runs + 1 })
  unfolding try_init_inner finished
  try_init_inner-attempts n val c e = ap (λ r. finished r.0 r.1) (steps-attempts n val c e)

  -- While the initialiser runs, a call of the initialiser on its own cell, or a call in an interrupt
  -- handler, never returns and changes nothing.
  pub try_init_inner-running :
      (flags : List Bool) (val : A) (c : Cell A)
      → c.status ≡ 1
      → (try_init_inner flags val c ≡ none) × (steps flags val exchanging c ≡ (exchanging, c))
  unfolding try_init_inner finished
  try_init_inner-running flags val c e =
      (ap (λ r. finished r.0 r.1) (steps-running flags val c e), steps-running flags val c e)

  -- After the value of one initialiser is in the cell, all ways to read give it, further
  -- initialisers do not run, and `try_init_once` reports it.
  pub try_init_once-get :
      (n : ℕ) (val later : A) (flags : List Bool) (c : Cell A)
      → c.status ≡ 0
      → (after : Cell A) × (try_init_once (λ d. d) (attempts n) val c ≡ some (ok tt, after))
        × (try_get c ≡ err uninitialized)
        × (get c ≡ none)
        × (get after ≡ some val)
        × (try_get after ≡ ok (some val))
        × (try_init_once (λ d. d) flags later after ≡ some (err already_initialized, after))
        × (init_once flags later after ≡ some after)
        × (get_or_init flags later after ≡ some (some val, after))
        × (get_or_init (attempts n) val c ≡ some (some val, after))
  unfolding try_init_once get try_get init_once get_or_init get_unchecked is_init
  try_init_once-get n val later flags c e =
      let after = record c { inner = some val; status = 2; runs = c.runs + 1 } in
      let done = try_init_inner-attempts n val c e in
      (
        after,
        simp (e, done),
        simp e,
        simp e,
        refl,
        refl,
        refl,
        refl,
        refl,
        rw (e, done, get_or_init) refl,
      )

  -- A thread that has found the cell untouched and then loses to another one: its initialiser does
  -- not run, the other value stays, and `try_init_once` still answers that all went well.
  pub try_init_once-loses :
      (spurious : Bool) (mine other : A) (c : Cell A)
      → c.status ≡ 0
      → let others : Cell A → Cell A =
          λ d. record d { inner = some other; status = 2; runs = d.runs + 1 } in
        try_init_once others (spurious ∷ []) mine c ≡ some (ok tt, others c)
  unfolding try_init_once try_init_inner finished steps is_init step on_error
  try_init_once-loses spurious mine other c e = simp e
