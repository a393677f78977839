-- ===== src/Sync/Once.antt =====
-- `OnceLock` and `Lazy` of kernel/src/util/once.rs: a cell that is set once.
pub mod Steps
pub mod Threads
pub mod Invariant
pub mod Calls
pub mod Lazy
mod Tests
use zoom_os.Prelude.{
  ℕ, ◌+◌, Bool, true, false, not, ◌&&◌, Option, none, some, List, [], ◌∷◌, ◌==◌, if◌then◌else◌,
}

-- The values of `status`.
abbrev pub uninit : ℕ
uninit = 0

abbrev pub running : ℕ
running = 1

abbrev pub init : ℕ
init = 2

-- `inner` is `none` while the memory is not initialised. `runs` counts the calls of an initialiser.
pub record Cell (A : Type 0) : Type 0 where
  pub inner : Option A
  pub status : ℕ
  pub runs : ℕ

pub data Result (E A : Type 0) : Type 0 where
  ok : A → Result E A
  err : E → Result E A

pub data TryGetError : Type 0 where
  uninitialized : TryGetError

pub data TryInitError : Type 0 where
  already_initialized : TryInitError

-- Where a call of `try_init_inner` stands: at the exchange, after a successful exchange, after the
-- value is written, at the end, or at the failed assertion.
pub data Pc : Type 0 where
  exchanging : Pc
  claimed : Pc
  written : Pc
  returned : Pc
  panicked : Pc

-- The arms of the match on the error of the exchange.
unfoldable pub on_error : ℕ → Pc
on_error status =
    if status == init
    then returned
    else if status == running
    then exchanging
    else if status == uninit
    then exchanging
    else panicked

module _ {A : Type 0} where
  unfoldable pub new : Cell A
  new = record { inner = none; status = uninit; runs = 0 }

  unfoldable pub with_value : A → Cell A
  with_value val = record { inner = some val; status = init; runs = 0 }

  unfoldable pub is_init : Cell A → Bool
  is_init c = c.status == init

  -- One step of `try_init_inner`: `spurious` tells whether the weak exchange fails for no reason,
  -- and `val` is the result of the initialiser.
  unfoldable pub step : Bool → A → Pc → Cell A → Pc × Cell A
  step spurious val exchanging c =
      if c.status == uninit && not spurious
      then (claimed, record c { status = running })
      else (on_error c.status, c)
  step spurious val claimed c = (written, record c { inner = some val; runs = c.runs + 1 })
  step spurious val written c = (returned, record c { status = init })
  step spurious val returned c = (returned, c)
  step spurious val panicked c = (panicked, c)

  -- Steps of one call with no other thread between them, one for each flag.
  unfoldable pub steps : List Bool → A → Pc → Cell A → Pc × Cell A
  steps [] val pc c = (pc, c)
  steps (spurious ∷ flags) val pc c =
      let (next, after) = step spurious val pc c in steps flags val next after

  unfoldable pub finished : Pc → Cell A → Option (Cell A)
  finished returned after = some after
  finished exchanging after = none
  finished claimed after = none
  finished written after = none
  finished panicked after = none

  -- A whole call; `none` while it has not returned.
  unfoldable pub try_init_inner : List Bool → A → Cell A → Option (Cell A)
  try_init_inner flags val c = let (pc, after) = steps flags val exchanging c in finished pc after

  unfoldable pub get_unchecked : Cell A → Option A
  get_unchecked c = c.inner

  -- `none` is the panic.
  unfoldable pub get : Cell A → Option A
  get c = if is_init c then get_unchecked c else none

  unfoldable pub init_once : List Bool → A → Cell A → Option (Cell A)
  init_once flags val c = if not (is_init c) then try_init_inner flags val c else some c

  unfoldable pub try_get : Cell A → Result TryGetError (Option A)
  try_get c = if is_init c then ok (get_unchecked c) else err uninitialized

  -- `others` is what the other threads do to the cell between the test and the exchange.
  unfoldable pub try_init_once :
      (Cell A → Cell A) → List Bool → A → Cell A → Option (Result TryInitError Unit × Cell A)
  try_init_once others flags val c =
      if is_init c
      then some (err already_initialized, c)
      else elim (try_init_inner flags val (others c)) [
        | none ↦ none
        | some after ↦ some (ok tt, after)
      ]

  unfoldable pub get_or_init : List Bool → A → Cell A → Option (Option A × Cell A)
  get_or_init flags val c = elim (try_get c) [
    | ok res ↦ some (res, c)
    | err _ ↦ elim (try_init_inner flags val c) [
      | none ↦ none
      | some after ↦ some (get_unchecked after, after)
    ]
  ]
