-- ===== src/Keyboard/Tests.antt =====
-- Runs of the scancode stream of kernel/src/keyboard.rs.
use zoom_os.Prelude.{◌≡◌, refl, none, some, [], ◌∷◌}
use zoom_os.Keyboard.{Keyboard, pending, poll_next}
use zoom_os.Keyboard.Stream.{add_each, IsGiven, poll_next-add_each}

abbrev idle : Keyboard
idle = record { scancode_queue = some []; waker = none; woken = [] }

poll_next-add_each_example :
    let waiting = record idle { waker = some 4 } in
    let heard = add_each (30 ∷ 48 ∷ []) waiting in
    (poll_next (λ s. s) (λ s. s) 4 idle ≡ some (pending, waiting))
    × IsGiven 30 (48 ∷ []) (poll_next (add_each (30 ∷ [])) (add_each (48 ∷ [])) 4 idle)
    × (heard.woken ≡ 4 ∷ [])
    × IsGiven 30 (48 ∷ []) (poll_next (λ s. s) (λ s. s) 4 heard)
poll_next-add_each_example = poll_next-add_each 4 none [] (30 ∷ []) (48 ∷ []) 30 (48 ∷ []) refl
