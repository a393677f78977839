-- ===== src/Sync/Sleep/Tests.antt =====
-- Runs of the sleeping tasks of kernel/src/util/async/sleep_future.rs.
use zoom_os.Prelude.{IsIn, ◌≤◌, ◌≡◌, refl, ◌⊎◌, inl, true, some, [], ◌∷◌, arith, All}
use zoom_os.Sync.Sleep.{
  Clock, SleepFuture, wake_sleep, wakers_of, first_later, interrupts, clock_interrupt_handler,
  poll_sleep,
}
use zoom_os.Sync.Sleep.Service.{IsSorted}
use zoom_os.Sync.Sleep.Wake.{wake_sleep-Outcome, interrupts-held_up}
use zoom_os.Sync.Sleep.Futures.{clock_interrupt_handler-Ready}

-- Waker 1 waits for tick 9000, wakers 2 and 3 for tick 6.
abbrev sleepers : Clock
sleepers = record {
  monotonic_time = 5;
  service = (9000, 1 ∷ []) ∷ (6, 2 ∷ 3 ∷ []) ∷ [];
  woken = [];
}

abbrev due : Clock
due = record sleepers { monotonic_time = 6; service = (6, 2 ∷ 3 ∷ []) ∷ [] }

abbrev sleeper : SleepFuture
sleeper = record { end_tick = 6; registered = true }

sleepers-IsSorted : IsSorted sleepers.service
sleepers-IsSorted = ((omega arith, tt), (tt, tt))

due-All : All (λ e. e.0 ≤ due.monotonic_time) due.service
due-All = (omega arith, tt)

wake_sleep-Outcome_example :
    (All (λ e. e.0 ≤ 6) sleepers.service
      × (wake_sleep true 6 sleepers
          ≡ some (record sleepers { service = []; woken = wakers_of sleepers.service })))
    ⊎ ((first_later 6 sleepers.service ≡ true) × (wake_sleep true 6 sleepers ≡ some sleepers))
wake_sleep-Outcome_example = wake_sleep-Outcome 6 sleepers sleepers-IsSorted

interrupts-held_up_example :
    interrupts 8000 sleepers ≡ some (record sleepers { monotonic_time = 8005 })
interrupts-held_up_example =
    interrupts-held_up 8000 1 9000 sleepers sleepers-IsSorted (inl (refl, inl refl)) (omega arith)
      (omega arith)

clock_interrupt_handler-Ready_example :
    (after : Clock) × (clock_interrupt_handler true due ≡ some after)
    × (after.service ≡ [])
    × IsIn 2 after.woken
    × ((poll_sleep 2 sleeper after).0 ≡ true)
clock_interrupt_handler-Ready_example =
    clock_interrupt_handler-Ready 2 sleeper due (tt, tt) due-All (inl (refl, inl refl))
      (omega arith)
