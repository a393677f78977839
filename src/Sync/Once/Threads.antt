-- ===== src/Sync/Once/Threads.antt =====
-- Threads that initialise one `OnceLock` of kernel/src/util/once.rs at once.
use zoom_os.Prelude.{ℕ, Bool, ◌≡◌, ◌≢◌, arith, Bool-cases, inl, inr, ◌==◌, if◌then◌else◌}
use zoom_os.Sync.Once.{Cell, Pc, exchanging, step, new}

abbrev pub at : (ℕ → Pc) → ℕ → Pc → ℕ → Pc
at pcs t pc u = if t == u then pc else pcs u

-- The cell, and where each thread stands.
pub record System (A : Type 0) : Type 0 where
  pub cell : Cell A
  pub pcs : ℕ → Pc

module _ {A : Type 0} (value : ℕ → A) where
  -- One step of the thread `t`.
  unfoldable pub move : Bool → ℕ → System A → System A
  move spurious t s =
      let (pc, after) = step spurious (value t) (s.pcs t) s.cell in
      record { cell = after; pcs = at s.pcs t pc }

  -- The states that the threads reach from the given one.
  pub data Reaches (from : System A) : System A → Type 0 where
    here : Reaches from from
    then_move :
        (s : System A) (spurious : Bool) (t : ℕ) → Reaches from s → Reaches from (move spurious t s)

abbrev pub start : (A : Type 0) → System A
start A = record { cell = new; pcs = λ _. exchanging }

pub at-same : (pcs : ℕ → Pc) (t : ℕ) (pc : Pc) → at pcs t pc t ≡ pc
at-same pcs t pc = ground arith

pub at-other : (pcs : ℕ → Pc) (t u : ℕ) (pc : Pc) → u ≢ t → at pcs t pc u ≡ pcs u
at-other pcs t u pc differ = ground arith

-- A property that a thread keeps by its move and the others have already holds of all threads.
pub at-All :
    (P : Pc → Type 0) (pcs : ℕ → Pc) (t : ℕ) (pc : Pc)
    → P pc
    → ((u : ℕ) → u ≢ t → P (pcs u))
    → (u : ℕ) → P (at pcs t pc u)
at-All P pcs t pc p h u = elim (Bool-cases (t == u)) [
  | inl same ↦ rw same p
  | inr other ↦ rw other (h u (λ e. absurd (ground arith)))
]

pub at-fixed : (pcs : ℕ → Pc) (t u : ℕ) (pc : Pc) → pcs u ≡ pc → at pcs t pc u ≡ pc
at-fixed pcs t u pc e = ground arith
