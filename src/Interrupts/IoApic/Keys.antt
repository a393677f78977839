-- ===== src/Interrupts/IoApic/Keys.antt =====
-- The kernel's own redirections in kernel/src/apic.rs, whatever the overrides.
use zoom_os.Prelude.{
  ℕ, ◌-◌, ◌%◌, ◌≡◌, ◌≢◌, refl, ap, ◌∙◌, sym, false, List, arith, Bool-cases, inl, inr,
  if◌then◌else◌,
}
use zoom_os.Interrupts.{InterruptIndex, keyboard, clock, index_of}
use zoom_os.Interrupts.IoApic.{
  Controller, Entry, Override, only, unmask, setup_own, setup_overrides, setup_io_apic,
}

module _ (controller : Controller) where
  open controller use {Flag, Device, is, is_iff, level_triggered, masked, entry_of}

  -- The entry of an interrupt of the kernel: level-triggered and not masked.
  abbrev pub own_entry : ℕ → InterruptIndex → Entry Flag
  own_entry lapic_id index = record {
    vector = index_of index;
    dest = lapic_id % 256;
    flags = only controller level_triggered;
  }

  unmasked :
      (f : Flag)
      → (if is f masked then false else only controller level_triggered f)
        ≡ only controller level_triggered f
  unmasked f = elim (Bool-cases (is f masked)) [
    | inl same ↦ elim (Bool-cases (is f level_triggered)) [
      | inl too ↦ absurd (
          controller.masked-level
            (sym ((is_iff f masked).0 same) ∙ (is_iff f level_triggered).0 too))
      | inr not_level ↦ rw (same, not_level) refl
    ]
    | inr other ↦ rw other refl
  ]

  own_lem :
      (lapic_id : ℕ) (index : InterruptIndex) (d : Device)
      → entry_of (setup_own controller lapic_id index d) (index_of index - 32)
        ≡ own_entry lapic_id index
  unfolding setup_own
  own_lem lapic_id index d =
      controller.enable-same (index_of index - 32) _
      ∙ ap (unmask controller)
          (controller.set-same (index_of index - 32) (own_entry lapic_id index) d)
      ∙ (λ t. record { vector = index_of index; dest = lapic_id % 256; flags = λ f. unmasked f t })

  own_other :
      (lapic_id other : ℕ) (index : InterruptIndex) (d : Device)
      → other ≢ index_of index - 32
      → entry_of (setup_own controller lapic_id index d) other ≡ entry_of d other
  unfolding setup_own
  own_other lapic_id other index d differ =
      controller.enable-other (index_of index - 32) other _ differ
      ∙ controller.set-other (index_of index - 32) other _ d differ

  -- Whatever the overrides, the keyboard and the clock end with entries that are enabled and
  -- level-triggered, with their vectors 33 and 40, and every other entry is as the overrides left it.
  pub setup_io_apic-own :
      (lapic_id : ℕ) (redirects : List Override) (d : Device)
      → let after = setup_io_apic controller lapic_id redirects d in
        (entry_of after 1 ≡ own_entry lapic_id keyboard)
        × (entry_of after 8 ≡ own_entry lapic_id clock)
        × ((other : ℕ)
            → other ≢ 1
            → other ≢ 8
            → entry_of after other
              ≡ entry_of
                  (setup_overrides controller lapic_id redirects (controller.init 32 d))
                  other)
  unfolding setup_io_apic
  setup_io_apic-own lapic_id redirects d = (
    own_other lapic_id 1 clock _ (omega arith) ∙ own_lem lapic_id keyboard _,
    own_lem lapic_id clock _,
    λ other not_keyboard not_clock.
        own_other lapic_id other clock _ (omega (arith, not_clock))
        ∙ own_other lapic_id other keyboard _ (omega (arith, not_keyboard)),
  )
