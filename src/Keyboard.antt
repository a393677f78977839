-- ===== src/Keyboard.antt =====
-- The queue of scancodes and its stream: kernel/src/keyboard.rs.
pub mod Stream
mod Tests
use zoom_os.Prelude.{
  ℕ, Bool, true, false, Option, none, some, List, [], ◌∷◌, ◌++◌, length, ltb, if◌then◌else◌,
}

-- The queue, once it is made, the waker that is registered, and every waker that was woken.
pub record Keyboard : Type 0 where
  pub scancode_queue : Option (List ℕ)
  pub waker : Option ℕ
  pub woken : List ℕ

-- The capacity of `ArrayQueue`.
abbrev pub capacity : ℕ
capacity = 100

-- `AtomicWaker::wake` takes the registered waker and wakes it.
unfoldable pub wake_taken : Option ℕ → Keyboard → Keyboard
wake_taken none k = k
wake_taken (some w) k = record k { waker = none; woken = k.woken ++ (w ∷ []) }

unfoldable pub wake : Keyboard → Keyboard
wake k = wake_taken k.waker k

unfoldable pub push_scancode : Option (List ℕ) → ℕ → Keyboard → Keyboard
push_scancode none scancode k = k
push_scancode (some queue) scancode k =
    if ltb (length queue) capacity
    then wake (record k { scancode_queue = some (queue ++ (scancode ∷ [])) })
    else k

-- Called by the keyboard interrupt. A full queue drops the scancode.
unfoldable pub add_scancode : ℕ → Keyboard → Keyboard
add_scancode scancode k = push_scancode k.scancode_queue scancode k

-- `ScancodeStream::new`; `none` is the panic of a second call.
unfoldable pub new_stream : Option (List ℕ) → Keyboard → Option Keyboard
new_stream none k = some (record k { scancode_queue = some [] })
new_stream (some queue) k = none

pub data Poll : Type 0 where
  ready : ℕ → Poll
  pending : Poll

-- The second pop, after the waker is registered.
unfoldable pub pop_again : Option (List ℕ) → Keyboard → Option (Poll × Keyboard)
pop_again none k = none
pop_again (some []) k = some (pending, k)
pop_again (some (scancode ∷ queue)) k =
    some (ready scancode, record k { scancode_queue = some queue; waker = none })

-- The first pop. `early` is what the keyboard interrupt does between it and the registration, and
-- `late` what it does between that and the second pop.
unfoldable pub pop_first :
    (Keyboard → Keyboard)
    → (Keyboard → Keyboard)
    → ℕ
    → Option (List ℕ)
    → Keyboard
    → Option (Poll × Keyboard)
pop_first early late w none k = none
pop_first early late w (some (scancode ∷ queue)) k =
    some (ready scancode, record k { scancode_queue = some queue })
pop_first early late w (some []) k =
    let registered = late (record (early k) { waker = some w }) in
    pop_again registered.scancode_queue registered

unfoldable pub poll_next :
    (Keyboard → Keyboard) → (Keyboard → Keyboard) → ℕ → Keyboard → Option (Poll × Keyboard)
poll_next early late w k = pop_first early late w k.scancode_queue k
