-- ===== src/Interrupts/Handlers.antt =====
-- The interrupt table and its handlers in kernel/src/interrupts.rs.
pub mod Paths
use zoom_os.Prelude.{
  ℕ, Bool, true, false, List, [], ◌∷◌, ◌++◌, Option, none, some, ◌>>=◌, ◌==◌, if◌then◌else◌,
}
use zoom_os.Keyboard.{Keyboard, add_scancode}
use zoom_os.Sync.Sleep.{Clock, clock_interrupt_handler}
use zoom_os.Interrupts.{InterruptIndex, timer, keyboard, clock, lapic_err, spurious, index_of}

-- An end-of-interrupt: to the local APIC, or to the legacy controllers with the index.
pub data Eoi : Type 0 where
  to_lapic : Eoi
  to_pics : ℕ → Eoi

-- What the handlers change. `lapic_set` is whether `LAPIC` is initialised.
pub record Kernel : Type 0 where
  pub keyboard_state : Keyboard
  pub clock_state : Clock
  pub lapic_set : Bool
  pub sent : List Eoi

unfoldable pub notify_end_of_interrupt : InterruptIndex → Kernel → Kernel
notify_end_of_interrupt index k = record k {
  sent = k.sent ++ ((if k.lapic_set then to_lapic else to_pics (index_of index)) ∷ []);
}

unfoldable pub timer_handler : Kernel → Option Kernel
timer_handler k = some (notify_end_of_interrupt timer k)

-- `scancode` is what port 0x60 gives.
unfoldable pub keyboard_handler : ℕ → Kernel → Option Kernel
keyboard_handler scancode k = some (
    notify_end_of_interrupt keyboard
      (record k { keyboard_state = add_scancode scancode k.keyboard_state }))

-- `free` is whether the map of wakers is unlocked. The mask of the chip, which is cleared last, is no
-- part of this state.
unfoldable pub clock_handler : Bool → Kernel → Option Kernel
clock_handler free k = do
  c ← clock_interrupt_handler free k.clock_state
  some (notify_end_of_interrupt clock (record k { clock_state = c }))

-- The entries of `IDT`
pub data Handler : Type 0 where
  breakpoint invalid_tss segment_not_present double_fault general_protection page_fault timer_entry
        keyboard_entry clock_entry lapic_err_entry spurious_entry :
      Handler

-- The gates that the table sets, by vector.
unfoldable pub idt : ℕ → Option Handler
idt vector =
    if vector == 3
    then some breakpoint
    else if vector == 8
    then some double_fault
    else if vector == 10
    then some invalid_tss
    else if vector == 11
    then some segment_not_present
    else if vector == 13
    then some general_protection
    else if vector == 14
    then some page_fault
    else if vector == index_of timer
    then some timer_entry
    else if vector == index_of keyboard
    then some keyboard_entry
    else if vector == index_of lapic_err
    then some lapic_err_entry
    else if vector == index_of spurious
    then some spurious_entry
    else if vector == index_of clock
    then some clock_entry
    else none

-- Running a handler; `none` is a panic. The handlers that only print change nothing here.
unfoldable pub handle : Handler → Bool → ℕ → Kernel → Option Kernel
handle breakpoint free scancode k = some k
handle invalid_tss free scancode k = some k
handle segment_not_present free scancode k = some k
handle double_fault free scancode k = none
handle general_protection free scancode k = none
handle page_fault free scancode k = none
handle lapic_err_entry free scancode k = none
handle spurious_entry free scancode k = none
handle timer_entry free scancode k = timer_handler k
handle keyboard_entry free scancode k = keyboard_handler scancode k
handle clock_entry free scancode k = clock_handler free k

-- An interrupt with a vector; a vector with no gate faults.
unfoldable pub interrupt : ℕ → Bool → ℕ → Kernel → Option Kernel
interrupt vector free scancode k = idt vector >>= λ handler. handle handler free scancode k
