-- ===== src/Task/Yield.antt =====
-- `yield_now` of kernel/src/util/async/mod.rs and `loop_yield!` of kernel/src/task/mod.rs.
use zoom_os.Prelude.{ℕ, Bool, true, false, ◌≡◌, refl, some, List, [], ◌∷◌, inl, IsIn}
use zoom_os.Task.{Polled}
use zoom_os.Task.Starve.{IsRestless}

pub record YieldNow : Type 0 where
  pub yielded : Bool

-- Whether the poll is ready, and whom it wakes.
unfoldable pub poll_yield : ℕ → Bool → Bool × YieldNow × List ℕ
poll_yield waker true = (true, record { yielded = true }, [])
poll_yield waker false = (false, record { yielded = true }, waker ∷ [])

-- The state of the loop between two polls: not started, or at the `await` with its future.
pub data Loop : Type 0 where
  unstarted : Loop
  awaiting : YieldNow → Loop

module _ {W : Type 0} (body : W → W) where
  -- The body, and the first poll of a new future.
  unfoldable pub go_round : ℕ → W → Polled Loop W
  go_round id w =
      let (ready, y, woken) = poll_yield id false in
      record { pending = some (awaiting y); world = body w; woken = woken; spawned = [] }

  unfoldable pub resume : ℕ → Bool × YieldNow × List ℕ → W → Polled Loop W
  resume id (true, y, woken) w = go_round id w
  resume id (false, y, woken) w = record {
    pending = some (awaiting y);
    world = w;
    woken = woken;
    spawned = [];
  }

  unfoldable pub poll_loop : ℕ → Loop → W → Polled Loop W
  poll_loop id unstarted w = go_round id w
  poll_loop id (awaiting y) w = resume id (poll_yield id y.yielded) w

  -- A loop that yields in every round is always pending and always awake.
  pub poll_loop-IsRestless : (t : ℕ) → IsRestless poll_loop t
  unfolding poll_loop resume go_round poll_yield
  poll_loop-IsRestless t unstarted w = ((awaiting (record { yielded = true }), refl), inl refl)
  poll_loop-IsRestless t (awaiting y) w = by_yielded y.yielded
    where
      by_yielded :
          (b : Bool)
          → let p = resume t (poll_yield t b) w in
            ((g : Loop) × (p.pending ≡ some g)) × IsIn t p.woken
      by_yielded true = ((awaiting (record { yielded = true }), refl), inl refl)
      by_yielded false = ((awaiting (record { yielded = true }), refl), inl refl)
