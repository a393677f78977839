-- ===== src/Keyboard/Stream.antt =====
-- No scancode waits unseen in the queue of kernel/src/keyboard.rs.
use mathlib.Core.List.{append-nil, append_assoc}
use zoom_os.Prelude.{
  ℕ, zero, suc, sym, ltb→lt, ◌≤◌, ◌≡◌, refl, ap, ◌∙◌, Option, none, some, List, [], ◌∷◌, ◌++◌,
  length, length-append, ltb, arith, if◌then◌else◌, Bool-cases, inl, inr,
}
use zoom_os.Keyboard.{
  Poll, Keyboard, capacity, wake, wake_taken, push_scancode, add_scancode, ready, pending,
  pop_again, pop_first, poll_next,
}

abbrev pub take : ℕ → List ℕ → List ℕ
take zero xs = []
take (suc n) [] = []
take (suc n) (x ∷ xs) = x ∷ take n xs

take-all : (n : ℕ) (xs : List ℕ) → length xs ≤ n → take n xs ≡ xs
take-all zero [] le = refl
take-all zero (x ∷ xs) le = absurd (omega arith)
take-all (suc n) [] le = refl
take-all (suc n) (x ∷ xs) le = ap (◌∷◌ x) (take-all n xs (omega arith))

take-exact : (n : ℕ) (xs ys : List ℕ) → length xs ≡ n → take n (xs ++ ys) ≡ xs
take-exact zero [] ys e = refl
take-exact zero (x ∷ xs) ys e = absurd (omega arith)
take-exact (suc n) [] ys e = absurd (omega arith)
take-exact (suc n) (x ∷ xs) ys e = ap (◌∷◌ x) (take-exact n xs ys (omega arith))

-- Scancodes that come one after the other with no poll between them.
abbrev pub add_each : List ℕ → Keyboard → Keyboard
add_each [] k = k
add_each (scancode ∷ scancodes) k = add_each scancodes (add_scancode scancode k)

wake-queue : (k : Keyboard) → (wake k).scancode_queue ≡ k.scancode_queue
unfolding wake wake_taken
wake-queue k = by_waker k.waker
  where
    by_waker : (o : Option ℕ) → (wake_taken o k).scancode_queue ≡ k.scancode_queue
    by_waker none = refl
    by_waker (some w) = refl

add_scancode-queue :
    (scancode : ℕ) (queue : List ℕ) (k : Keyboard)
    → k.scancode_queue ≡ some queue
    → (add_scancode scancode k).scancode_queue
      ≡ some (if ltb (length queue) capacity then queue ++ (scancode ∷ []) else queue)
unfolding add_scancode push_scancode
add_scancode-queue scancode queue k has =
    ap (λ q. (push_scancode q scancode k).scancode_queue) has
    ∙ elim (Bool-cases (ltb (length queue) capacity)) [
      | inl room ↦
          rw room (wake-queue (record k { scancode_queue = some (queue ++ (scancode ∷ [])) }))
      | inr full ↦ rw full has
    ]

-- The queue keeps the scancodes in the order in which they come, and when it is full it keeps the
-- oldest and drops those that come later.
add_each-take :
    (scancodes queue : List ℕ) (k : Keyboard)
    → k.scancode_queue ≡ some queue
    → length queue ≤ capacity
    → (add_each scancodes k).scancode_queue ≡ some (take capacity (queue ++ scancodes))
add_each-take [] queue k has le =
    has ∙ ap some (sym (ap (take capacity) (append-nil queue) ∙ take-all capacity queue le))
add_each-take (scancode ∷ scancodes) queue k has le =
    elim (Bool-cases (ltb (length queue) capacity)) [
      | inl room ↦
          let more : length (queue ++ (scancode ∷ [])) ≤ capacity =
            omega
              (arith, length-append queue (scancode ∷ []), ltb→lt (length queue) capacity room) in
          let next = add_scancode-queue scancode queue k has in
          add_each-take scancodes (queue ++ (scancode ∷ [])) (add_scancode scancode k)
            (next ∙ rw room refl) more
          ∙ ap (λ q. some (take capacity q)) (append_assoc queue (scancode ∷ []) scancodes)
      | inr full ↦
          let exact : length queue ≡ capacity = ground arith in
          let next = add_scancode-queue scancode queue k has in
          add_each-take scancodes queue (add_scancode scancode k) (next ∙ rw full refl) le
          ∙ ap some (
              take-exact capacity queue scancodes exact
              ∙ sym (take-exact capacity queue (scancode ∷ scancodes) exact))
    ]

-- With no waker registered, scancodes wake nobody.
add_each-unheard :
    (scancodes : List ℕ) (k : Keyboard)
    → k.waker ≡ none
    → ((add_each scancodes k).waker ≡ none) × ((add_each scancodes k).woken ≡ k.woken)
unfolding add_scancode push_scancode wake wake_taken
add_each-unheard [] k none_there = (none_there, refl)
add_each-unheard (scancode ∷ scancodes) k none_there =
    let same = unheard k.scancode_queue in
    let (waker, woken) =
      add_each-unheard scancodes (add_scancode scancode k) (same.0 ∙ none_there) in
    (waker, woken ∙ same.1)
  where
    unheard :
        (q : Option (List ℕ))
        → ((push_scancode q scancode k).waker ≡ k.waker)
          × ((push_scancode q scancode k).woken ≡ k.woken)
    unheard none = (refl, refl)
    unheard (some queue) = ground (arith, none_there)

-- A poll gives the scancode, and what came behind it is left in the queue with no waker.
abbrev pub IsGiven : ℕ → List ℕ → Option (Poll × Keyboard) → Type 0
IsGiven scancode rest o =
    (after : Keyboard) × (o ≡ some (ready scancode, after))
    × (after.scancode_queue ≡ some (take 99 rest))
    × (after.waker ≡ none)

take-take : (n : ℕ) (xs ys : List ℕ) → take n (take n xs ++ ys) ≡ take n (xs ++ ys)
take-take zero xs ys = refl
take-take (suc n) [] ys = refl
take-take (suc n) (x ∷ xs) ys = ap (◌∷◌ x) (take-take n xs ys)

length-take : (n : ℕ) (xs : List ℕ) → length (take n xs) ≤ n
length-take zero xs = omega arith
length-take (suc n) [] = omega arith
length-take (suc n) (x ∷ xs) = omega (arith, length-take n xs)

popped_again :
    (k : Keyboard) (scancode : ℕ) (rest : List ℕ)
    → k.scancode_queue ≡ some (scancode ∷ take 99 rest)
    → IsGiven scancode rest (pop_again k.scancode_queue k)
unfolding pop_again
popped_again k scancode rest e = (
  record k { scancode_queue = some (take 99 rest); waker = none },
  ap (λ q. pop_again q k) e,
  refl,
  refl,
)

popped_first :
    (w : ℕ) (k : Keyboard) (scancode : ℕ) (rest : List ℕ)
    → k.scancode_queue ≡ some (scancode ∷ take 99 rest)
    → k.waker ≡ none
    → IsGiven scancode rest (poll_next (λ s. s) (λ s. s) w k)
unfolding poll_next pop_first
popped_first w k scancode rest e unheard = (
  record k { scancode_queue = some (take 99 rest) },
  ap (λ q. pop_first (λ s. s) (λ s. s) w q k) e,
  refl,
  unheard,
)

-- A poll of an empty queue with nothing coming in is pending. However scancodes come in, before or
-- after it registers its waker, the poll gives the first one, and the others that the queue holds
-- are left in order. Those that come while it is pending wake it once, and its next poll gives the
-- first one.
pub poll_next-add_each :
    (w : ℕ) (old : Option ℕ) (before early late : List ℕ) (scancode : ℕ) (rest : List ℕ)
    → early ++ late ≡ scancode ∷ rest
    → let k : Keyboard = record { scancode_queue = some []; waker = old; woken = before } in
      let waiting = record k { waker = some w } in
      let heard = add_each (scancode ∷ rest) waiting in
      (poll_next (λ s. s) (λ s. s) w k ≡ some (pending, waiting))
      × IsGiven scancode rest (poll_next (add_each early) (add_each late) w k)
      × (heard.woken ≡ before ++ (w ∷ []))
      × IsGiven scancode rest (poll_next (λ s. s) (λ s. s) w heard)
unfolding poll_next pop_first pop_again add_scancode push_scancode wake wake_taken
poll_next-add_each w old before early late scancode rest e =
    let k : Keyboard = record { scancode_queue = some []; waker = old; woken = before } in
    let heard : Keyboard = record {
      scancode_queue = some (scancode ∷ []);
      waker = none;
      woken = before ++ (w ∷ []);
    } in
    let first = add_each-take early [] k refl (omega arith) in
    let registered : Keyboard = record (add_each early k) { waker = some w } in
    let second =
      add_each-take late (take capacity early) registered first (length-take capacity early)
      ∙ ap some (take-take capacity early late ∙ ap (take capacity) e) in
    let (unheard, woken) = add_each-unheard rest heard refl in
    (
      refl,
      popped_again (add_each late registered) scancode rest second,
      woken,
      popped_first w (add_each rest heard) scancode rest
          (add_each-take rest (scancode ∷ []) heard refl (omega arith)) unheard,
    )
