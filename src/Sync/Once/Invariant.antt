-- ===== src/Sync/Once/Invariant.antt =====
-- Why the initialiser of a `OnceLock` of kernel/src/util/once.rs runs at most once.
use zoom_os.Prelude.{
  ℕ, ◌≤◌, Bool, true, false, ◌≡◌, ◌≢◌, refl, ◌∙◌, sym, ◌⊎◌, inl, inr, arith, Bool-cases, ◌==◌,
  ==_iff, none, some,
}
use zoom_os.Sync.Once.{
  Cell, Pc, exchanging, claimed, written, returned, panicked, step, new, is_init,
}
use zoom_os.Sync.Once.Steps.{step-fails, step-claims, step-spins, step-returns}
use zoom_os.Sync.Once.Threads.{
  at, System, move, Reaches, here, then_move, start, at-same, at-other, at-All, at-fixed,
}

-- The thread is at the exchange or at the end.
abbrev pub IsLate : Pc → Type 0
IsLate pc = (pc ≡ exchanging) ⊎ (pc ≡ returned)

-- Where one thread is at `pc` and the others are at the exchange, no thread is elsewhere.
only_owner :
    (pcs : ℕ → Pc) (t : ℕ) (pc : Pc)
    → pcs t ≡ pc
    → ((u : ℕ) → u ≢ t → pcs u ≡ exchanging)
    → (u : ℕ) → (pcs u ≡ exchanging) ⊎ (pcs u ≡ pc)
only_owner pcs t pc mine others u = elim (Bool-cases (u == t)) [
  | inl same ↦ let u_is = (==_iff u t).0 same in inr (rw u_is mine)
  | inr differ ↦ inl (others u (λ e. absurd (ground arith)))
]

module _ {A : Type 0} (value : ℕ → A) where
  -- How the cell and the threads stand to each other.
  pub data Phase (c : Cell A) (pcs : ℕ → Pc) : Type 0 where
    untouched :
        c.status ≡ 0 → c.inner ≡ none → c.runs ≡ 0 → ((u : ℕ) → pcs u ≡ exchanging) → Phase c pcs
    owned :
        (t : ℕ)
        → c.status ≡ 1
        → c.inner ≡ none
        → c.runs ≡ 0
        → pcs t ≡ claimed
        → ((u : ℕ) → u ≢ t → pcs u ≡ exchanging)
        → Phase c pcs
    stored :
        (t : ℕ)
        → c.status ≡ 1
        → c.inner ≡ some (value t)
        → c.runs ≡ 1
        → pcs t ≡ written
        → ((u : ℕ) → u ≢ t → pcs u ≡ exchanging)
        → Phase c pcs
    ready :
        (t : ℕ)
        → c.status ≡ 2
        → c.inner ≡ some (value t)
        → c.runs ≡ 1
        → ((u : ℕ) → IsLate (pcs u))
        → Phase c pcs

  -- The phase after a thread at `pc` has moved.
  After : Cell A → (ℕ → Pc) → Bool → ℕ → Pc → Type 0
  After c pcs spurious t pc =
      let (next, after) = step spurious (value t) pc c in Phase after (at pcs t next)

  step-untouched :
      (c : Cell A) (pcs : ℕ → Pc) (spurious : Bool) (t : ℕ)
      → c.status ≡ 0
      → c.inner ≡ none
      → c.runs ≡ 0
      → ((u : ℕ) → pcs u ≡ exchanging)
      → After c pcs spurious t exchanging
  unfolding After
  step-untouched c pcs true t status inner runs all =
      rw (step-fails c (value t) status)
        (untouched status inner runs (λ u. at-fixed pcs t u exchanging (all u)))
  step-untouched c pcs false t status inner runs all =
      rw (step-claims c (value t) status) (
        owned t refl inner runs (at-same pcs t claimed) (λ u d. at-other pcs t u claimed d ∙ all u))

  step-owned :
      (c : Cell A) (pcs : ℕ → Pc) (spurious : Bool) (t o : ℕ)
      → c.status ≡ 1
      → c.inner ≡ none
      → c.runs ≡ 0
      → pcs o ≡ claimed
      → ((u : ℕ) → u ≢ o → pcs u ≡ exchanging)
      → After c pcs spurious t (pcs t)
  unfolding After step
  step-owned c pcs spurious t o status inner runs mine others = elim (Bool-cases (t == o)) [
    | inl same ↦
        let t_is : t ≡ o = (==_iff t o).0 same in
        rw (t_is, mine)
          (stored o status refl (omega (arith, runs)) (at-same pcs o written)
            (λ u d. at-other pcs o u written d ∙ others u d))
    | inr differ ↦
        let apart : t ≢ o = λ e. absurd (ground arith) in
        rw (others t apart, step-spins c (value t) spurious status)
          (owned o status inner runs (at-other pcs t o exchanging (λ e. apart (sym e)) ∙ mine)
            (λ u d. at-fixed pcs t u exchanging (others u d)))
  ]

  step-stored :
      (c : Cell A) (pcs : ℕ → Pc) (spurious : Bool) (t o : ℕ)
      → c.status ≡ 1
      → c.inner ≡ some (value o)
      → c.runs ≡ 1
      → pcs o ≡ written
      → ((u : ℕ) → u ≢ o → pcs u ≡ exchanging)
      → After c pcs spurious t (pcs t)
  unfolding After step
  step-stored c pcs spurious t o status inner runs mine others = elim (Bool-cases (t == o)) [
    | inl same ↦
        let t_is : t ≡ o = (==_iff t o).0 same in
        rw (t_is, mine)
          (ready o refl inner runs
            (at-All IsLate pcs o returned (inr refl) (λ u d. inl (others u d))))
    | inr differ ↦
        let apart : t ≢ o = λ e. absurd (ground arith) in
        rw (others t apart, step-spins c (value t) spurious status)
          (stored o status inner runs (at-other pcs t o exchanging (λ e. apart (sym e)) ∙ mine)
            (λ u d. at-fixed pcs t u exchanging (others u d)))
  ]

  step-ready :
      (c : Cell A) (pcs : ℕ → Pc) (spurious : Bool) (t o : ℕ)
      → c.status ≡ 2
      → c.inner ≡ some (value o)
      → c.runs ≡ 1
      → ((u : ℕ) → IsLate (pcs u))
      → After c pcs spurious t (pcs t)
  unfolding After step
  step-ready c pcs spurious t o status inner runs late = elim (late t) [
    | inl e ↦
        rw (e, step-returns c (value t) spurious status)
          (ready o status inner runs (at-All IsLate pcs t returned (inr refl) (λ u _. late u)))
    | inr e ↦
        rw e (ready o status inner runs (at-All IsLate pcs t returned (inr refl) (λ u _. late u)))
  ]

  move-Phase :
      (spurious : Bool) (t : ℕ) (s : System A)
      → Phase s.cell s.pcs
      → Phase (move value spurious t s).cell (move value spurious t s).pcs
  unfolding move After
  move-Phase spurious t s (untouched status inner runs all) =
      let next = step-untouched s.cell s.pcs spurious t status inner runs all in rw (all t) next
  move-Phase spurious t s (owned o status inner runs mine others) =
      step-owned s.cell s.pcs spurious t o status inner runs mine others
  move-Phase spurious t s (stored o status inner runs mine others) =
      step-stored s.cell s.pcs spurious t o status inner runs mine others
  move-Phase spurious t s (ready o status inner runs late) =
      step-ready s.cell s.pcs spurious t o status inner runs late

  pub Reaches-Phase : (s : System A) → Reaches value (start A) s → Phase s.cell s.pcs
  unfolding new
  Reaches-Phase _ here = untouched refl refl refl (λ _. refl)
  Reaches-Phase _ (then_move s spurious t r) = move-Phase spurious t s (Reaches-Phase s r)

  -- However many threads initialise the cell and however their steps interleave: the initialiser
  -- runs at most once, the value is there whenever the cell counts as initialised or a call has
  -- returned, and no call fails the assertion on the state.
  pub Reaches-runs :
      (s : System A)
      → Reaches value (start A) s
      → (s.cell.runs ≤ 1)
        × (is_init s.cell ≡ true → (t : ℕ) × (s.cell.inner ≡ some (value t)))
        × ((u : ℕ) → s.pcs u ≡ returned → is_init s.cell ≡ true)
        × ((u : ℕ) → s.pcs u ≢ panicked)
  unfolding is_init
  Reaches-runs s r = elim (Reaches-Phase s r) [
    | untouched status inner runs all ↦ (
      omega (arith, runs),
      λ e. absurd (ground arith),
      λ u e. absurd (let x = all u in cc),
      λ u e. let x = all u in cc,
    )
    | owned t status inner runs mine others ↦
        let held = only_owner s.pcs t claimed mine others in
        (
          omega (arith, runs),
          λ e. absurd (ground arith),
          λ u e. absurd (elim (held u) [ inl x ↦ cc | inr x ↦ cc ]),
          λ u e. elim (held u) [ inl x ↦ cc | inr x ↦ cc ],
        )
    | stored t status inner runs mine others ↦
        let held = only_owner s.pcs t written mine others in
        (
          omega (arith, runs),
          λ e. absurd (ground arith),
          λ u e. absurd (elim (held u) [ inl x ↦ cc | inr x ↦ cc ]),
          λ u e. elim (held u) [ inl x ↦ cc | inr x ↦ cc ],
        )
    | ready t status inner runs late ↦ (
      omega (arith, runs),
      λ e. (t, inner),
      λ u e. ground arith,
      λ u e. elim (late u) [ inl x ↦ cc | inr x ↦ cc ],
    )
  ]
