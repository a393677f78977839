-- ===== src/Sync/Mutex/Handover.antt =====
-- How a guard of the mutex of kernel/src/util/async/mutex.rs passes to a waiting task, and how the
-- waiting task can miss it.
use zoom_os.Prelude.{ℕ, true, false, ◌≡◌, ◌≢◌, List, [], ◌∷◌, arith}
use zoom_os.Sync.Mutex.{
  idle, holds, registering, pending, Mutex, set_pc, register, notify, notify_one, advance_from,
  advance, release_from, release,
}

-- A thread drops its guard and notifies, the task at the head of the list is pending: the task is
-- woken, and if nobody comes between, its next poll and the next two accesses give it the guard.
pub release-handover :
    (t w : ℕ) (queue : List ℕ) (m : Mutex)
    → w ≢ t
    → m.pcs t ≡ holds
    → m.pcs w ≡ pending
    → m.wakeup_list ≡ w ∷ queue
    → let woken = advance false t (release t m) in
      let polled = advance false w (advance false w woken) in
      let after = advance false w (advance false w polled) in
      (woken.woken w ≡ true)
      × (after.pcs w ≡ holds)
      × (after.pcs t ≡ idle)
      × (after.wakeup_list ≡ queue)
unfolding advance release advance_from release_from set_pc notify_one notify
release-handover t w queue m differ mine waits list = ground arith

-- A poll has found the lock taken, and before it registers, the thread with the guard drops it and
-- notifies the empty list. Then the task is pending and not woken while the lock is free and the
-- other thread is done, and it stays pending.
pub release-lost :
    (t o : ℕ) (m : Mutex)
    → t ≢ o
    → m.pcs t ≡ registering
    → m.pcs o ≡ holds
    → m.wakeup_list ≡ []
    → m.woken t ≡ false
    → let after = advance false t (advance false o (release o m)) in
      (after.locked ≡ false)
      × (after.pcs t ≡ pending)
      × (after.woken t ≡ false)
      × (after.pcs o ≡ idle)
      × ((advance false t after).pcs t ≡ pending)
unfolding advance release advance_from release_from set_pc notify_one notify register
release-lost t o m differ at_t mine list asleep = ground arith
