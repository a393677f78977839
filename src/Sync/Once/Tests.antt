-- ===== src/Sync/Once/Tests.antt =====
-- Runs of the `OnceLock` of kernel/src/util/once.rs.
use zoom_os.Prelude.{ℕ, ◌≤◌, true, false, ◌≡◌, ◌≢◌, none, some}
use zoom_os.Sync.Once.{Cell, returned, panicked, is_init}
use zoom_os.Sync.Once.Threads.{System, Reaches, here, then_move, move, start}
use zoom_os.Sync.Once.Invariant.{Reaches-runs}

-- Thread `n` initialises with `n`.
abbrev own : ℕ → ℕ
own n = n

abbrev fresh : Cell ℕ
fresh = record { inner = none; status = 0; runs = 0 }

abbrev busy : Cell ℕ
busy = record fresh { status = 1 }

-- Thread 1 wins, thread 2 spins, thread 1 is done, and thread 2 returns.
abbrev raced : System ℕ
raced =
    move own false 2
      (move own false 1 (move own false 1 (move own false 2 (move own false 1 (start ℕ)))))

raced-Reaches : Reaches own (start ℕ) raced
raced-Reaches =
    then_move _ false 2
      (then_move _ false 1 (then_move _ false 1 (then_move _ false 2 (then_move _ false 1 here))))

Reaches-runs_example :
    (raced.cell.runs ≤ 1)
    × (is_init raced.cell ≡ true → (t : ℕ) × (raced.cell.inner ≡ some t))
    × ((u : ℕ) → raced.pcs u ≡ returned → is_init raced.cell ≡ true)
    × ((u : ℕ) → raced.pcs u ≢ panicked)
Reaches-runs_example = Reaches-runs own raced raced-Reaches
