-- ===== src/Interrupts/Handlers/Paths.antt =====
-- From the inputs of the I/O APIC to the handlers: kernel/src/apic.rs and kernel/src/interrupts.rs.
use zoom_os.Prelude.{
  ℕ, ◌≡◌, refl, ap, ◌∙◌, Bool, false, List, [], ◌∷◌, ◌++◌, some, ◌>>=◌, if◌then◌else◌, Bool-cases,
  inl, inr,
}
use zoom_os.Keyboard.{add_scancode}
use zoom_os.Sync.Sleep.{clock_interrupt_handler}
use zoom_os.Interrupts.IoApic.{Controller, Override, setup_io_apic}
use zoom_os.Interrupts.IoApic.Keys.{setup_io_apic-own}
use zoom_os.Interrupts.Handlers.{
  Eoi, to_lapic, to_pics, Kernel, notify_end_of_interrupt, keyboard_handler, clock_handler, idt,
  handle, interrupt,
}

-- The acknowledgement of an interrupt.
abbrev pub eoi_of : Kernel → ℕ → Eoi
eoi_of k vector = if k.lapic_set then to_lapic else to_pics vector

module _ (controller : Controller) (lapic_id : ℕ) (redirects : List Override)
    (d : controller.Device) where
  abbrev pub entry_vector : ℕ → ℕ
  entry_vector input =
      (controller.entry_of (setup_io_apic controller lapic_id redirects d) input).vector

  at_keyboard : entry_vector 1 ≡ 33
  at_keyboard = ap (λ e. e.vector) (setup_io_apic-own controller lapic_id redirects d).0

  at_clock : entry_vector 8 ≡ 40
  at_clock = ap (λ e. e.vector) (setup_io_apic-own controller lapic_id redirects d).1

  masked_level : controller.is controller.masked controller.level_triggered ≡ false
  masked_level = elim (Bool-cases (controller.is controller.masked controller.level_triggered)) [
    | inl same ↦ absurd (
        controller.masked-level
          ((controller.is_iff controller.masked controller.level_triggered).0 same))
    | inr other ↦ other
  ]

  abbrev pub is_masked : ℕ → Bool
  is_masked input =
      (controller.entry_of (setup_io_apic controller lapic_id redirects d) input).flags
        controller.masked

  -- Whatever the overrides: inputs 1 and 8 of the controller are not masked. What comes in at input 1
  -- puts the scancode in the queue and is acknowledged once. What comes in at input 8 runs the clock's
  -- handler on the sleepers, and is acknowledged once if that returns, and else not at all. On the
  -- legacy controllers each acknowledgement has its own vector.
  pub interrupt_lem :
      (free : Bool) (scancode : ℕ) (k : Kernel)
      → (is_masked 1 ≡ false)
        × (is_masked 8 ≡ false)
        × (interrupt (entry_vector 1) free scancode k
            ≡ some (record k {
              keyboard_state = add_scancode scancode k.keyboard_state;
              sent = k.sent ++ (eoi_of k 33 ∷ []);
            }))
        × (interrupt (entry_vector 8) free scancode k ≡ (
            clock_interrupt_handler free k.clock_state >>= λ c.
            some (record k { clock_state = c; sent = k.sent ++ (eoi_of k 40 ∷ []) })))
  unfolding interrupt idt handle keyboard_handler clock_handler notify_end_of_interrupt
  interrupt_lem free scancode k = (
    ap (λ e. e.flags controller.masked) (setup_io_apic-own controller lapic_id redirects d).0
        ∙ masked_level,
    ap (λ e. e.flags controller.masked) (setup_io_apic-own controller lapic_id redirects d).1
        ∙ masked_level,
    rw at_keyboard refl,
    rw at_clock refl,
  )
