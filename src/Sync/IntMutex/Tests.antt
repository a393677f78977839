-- ===== src/Sync/IntMutex/Tests.antt =====
-- Runs of the lock of kernel/src/util/async/mutex.rs that turns interrupts off.
use zoom_os.Prelude.{ℕ, ◌-◌, ◌≡◌, ◌≢◌, refl, true, false, arith, [], ◌∷◌, some}
use zoom_os.Word.{usize_mod}
use zoom_os.Sync.IntMutex.{Cpu, try_lock, drop}
use zoom_os.Sync.IntMutex.Spin.{failures}
use zoom_os.Sync.IntMutex.Async.{Waited, poll_lock, drop_and_notify, poll_lock-drop_and_notify}
use zoom_os.Sync.IntMutex.Underflow.{drop-unbalanced}

abbrev idle : Cpu
idle = record { interrupts = true; num_guards = 0; should_reenable = false; locked = λ _. false }

abbrev in_handler : Cpu
in_handler = record idle { interrupts = false }

abbrev one_taken : Cpu
one_taken = record idle { locked = λ _. true }

one_not_two : let one : ℕ = 1 in one ≢ 2
one_not_two = omega arith

abbrev unwatched : Waited
unwatched = record { cpu = idle; wakeup_list = []; woken = [] }

poll_lock-drop_and_notify_example :
    (held : Waited) × (waiting : Waited) × (again : Waited) × (poll_lock (failures 2) 7 1 unwatched
      ≡ some (true, held))
    × (held.cpu.interrupts ≡ false)
    × (poll_lock (true ∷ []) 8 1 held ≡ some (false, waiting))
    × (waiting.cpu ≡ held.cpu)
    × ((drop_and_notify 1 waiting).woken ≡ 8 ∷ [])
    × ((drop_and_notify 1 waiting).wakeup_list ≡ [])
    × ((drop_and_notify 1 waiting).cpu.interrupts ≡ true)
    × (poll_lock (failures 0) 8 1 (drop_and_notify 1 waiting) ≡ some (true, again))
    × (again.cpu.interrupts ≡ false)
    × (again.cpu.locked 1 ≡ true)
poll_lock-drop_and_notify_example =
    poll_lock-drop_and_notify 7 8 1 2 0 true [] unwatched refl refl refl refl

drop-unbalanced_example :
    (idle.interrupts ≡ true
      → let after = drop 2 (try_lock true 2 (try_lock true 1 idle).1).1 in
        (after.interrupts ≡ true) × (after.locked 1 ≡ true) × (after.num_guards ≡ 0))
    × (idle.interrupts ≡ false
        → let handled = record (drop 1 (try_lock true 1 idle).1) { interrupts = true } in
          let after = drop 2 (try_lock true 2 handled).1 in
          (after.interrupts ≡ false) × (after.num_guards ≡ usize_mod - 1))
drop-unbalanced_example = drop-unbalanced 1 2 idle one_not_two refl refl refl
