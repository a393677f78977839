-- ===== src/Sync/Mutex/Tests.antt =====
-- Runs of the mutex of kernel/src/util/async/mutex.rs.
use zoom_os.Prelude.{
  ℕ, true, false, ◌≡◌, ◌≢◌, refl, ◌⊎◌, List, [], ◌∷◌, arith, IsIn, ◌==◌, if◌then◌else◌,
}
use zoom_os.Sync.Mutex.{
  Mode, spin, async, Pc, idle, holds, registering, pending, Mutex, new, advance, release, Step,
  begins, advances, releases, take_step, IsReached, at_start, after_step,
}
use zoom_os.Sync.Mutex.Exclusive.{IsReached-locked}
use zoom_os.Sync.Mutex.Wakeups.{IsReached-IsHeard}
use zoom_os.Sync.Mutex.Handover.{release-lost}

-- The steps, the last one first.
after_steps : List Step → Mutex
after_steps [] = new
after_steps (s ∷ steps) = take_step s (after_steps steps)

after_steps-IsReached : (steps : List Step) → IsReached (after_steps steps)
unfolding after_steps
after_steps-IsReached [] = at_start
after_steps-IsReached (s ∷ steps) = after_step (after_steps steps) s (after_steps-IsReached steps)

-- Thread 1 takes the lock by spinning, and task 2 waits for it.
abbrev contended : List Step
contended =
    advances false 2
    ∷ advances false 2
    ∷ begins async 2
    ∷ advances false 1
    ∷ advances true 1
    ∷ advances false 1
    ∷ advances false 1
    ∷ begins spin 1
    ∷ []

two_waits : (after_steps contended).pcs 2 ≡ pending
unfolding after_steps take_step zoom_os.Sync.Mutex.begin zoom_os.Sync.Mutex.begin_from advance
    zoom_os.Sync.Mutex.advance_from zoom_os.Sync.Mutex.set_pc zoom_os.Sync.Mutex.register
    zoom_os.Sync.Mutex.on_begin zoom_os.Sync.Mutex.on_fail new
two_waits = refl

-- Thread 1 has a guard, and task 2 is in its poll or pending.
abbrev held : Pc → List ℕ → Mutex
held waiting queue = record {
  locked = true;
  wakeup_list = queue;
  woken = λ t. false;
  pcs = λ t. if t == 1 then holds else if t == 2 then waiting else idle;
}

two_not_one : let two : ℕ = 2 in two ≢ 1
two_not_one = omega arith

IsReached-locked_example :
    let m = after_steps contended in
    ((t u : ℕ) → m.pcs t ≡ holds → m.pcs u ≡ holds → t ≡ u)
    × ((t : ℕ) → m.pcs t ≡ holds → m.locked ≡ true)
    × (m.locked ≡ true → (t : ℕ) × (m.pcs t ≡ holds))
IsReached-locked_example =
    IsReached-locked (after_steps contended) (after_steps-IsReached contended)

IsReached-IsHeard_example :
    let m = after_steps contended in IsIn 2 m.wakeup_list ⊎ (m.woken 2 ≡ true)
IsReached-IsHeard_example =
    IsReached-IsHeard (after_steps contended) 2 (after_steps-IsReached contended) two_waits

release-lost_example :
    let after = advance false 2 (advance false 1 (release 1 (held registering []))) in
    (after.locked ≡ false)
    × (after.pcs 2 ≡ pending)
    × (after.woken 2 ≡ false)
    × (after.pcs 1 ≡ idle)
    × ((advance false 2 after).pcs 2 ≡ pending)
release-lost_example = release-lost 2 1 (held registering []) two_not_one refl refl refl refl
