-- ===== src/Interrupts/IoApic/Overrides.antt =====
-- What an override of the firmware becomes in kernel/src/apic.rs.
use zoom_os.Prelude.{
  ℕ, ◌%◌, ◌<◌, ◌≡◌, ◌≢◌, refl, ap, ◌∙◌, subst, Bool, true, false, ◌||◌, List, [], ◌∷◌, ◌++◌, arith,
  Bool-cases, inl, inr, if◌then◌else◌, ◌==◌, ==_iff, Option, some, none,
}
use zoom_os.Interrupts.IoApic.{
  Controller, Entry, Override, Polarity, active_high, active_low, TriggerMode, edge, level, union,
  polarity_flags, trigger_flags, unmask, setup_override, setup_overrides, setup_io_apic,
}
use zoom_os.Interrupts.IoApic.Keys.{setup_io_apic-own}

-- An override that asks for the behaviour whose flag is not set.
abbrev pub inverted : Polarity → TriggerMode → Bool
inverted active_high trigger = true
inverted polarity edge = true
inverted polarity trigger = false

module _ (controller : Controller) where
  open controller use {Flag, Device, is, is_iff, low_active, level_triggered, masked, entry_of}

  setup_overrides-last :
      (lapic_id : ℕ) (redirects : List Override) (r : Override) (d : Device)
      → setup_overrides controller lapic_id (redirects ++ (r ∷ [])) d
        ≡ setup_override controller lapic_id r (setup_overrides controller lapic_id redirects d)
  unfolding setup_overrides
  setup_overrides-last lapic_id [] r d = refl
  setup_overrides-last lapic_id (x ∷ redirects) r d =
      setup_overrides-last lapic_id redirects r (setup_override controller lapic_id x d)

  differs : (f g : Flag) → f ≢ g → is f g ≡ false
  differs f g apart = elim (Bool-cases (is f g)) [
    | inl same ↦ absurd (apart ((is_iff f g).0 same))
    | inr other ↦ other
  ]

  -- The mask of an entry that was written and then enabled at `irq`.
  written_lem :
      (irq gsi : ℕ) (e : Entry Flag) (d : Device)
      → let entry = entry_of (controller.enable_irq irq (controller.set_table_entry gsi e d)) gsi in
        (entry.vector ≡ e.vector)
        × (entry.flags masked ≡ (if irq == gsi then false else e.flags masked))
  written_lem irq gsi e d = elim (Bool-cases (irq == gsi)) [
    | inl same ↦
        let kept =
          subst
            (λ n.
              entry_of (controller.enable_irq irq (controller.set_table_entry n e d)) n
              ≡ unmask controller e)
            ((==_iff irq gsi).0 same)
            (controller.enable-same irq (controller.set_table_entry irq e d)
              ∙ ap (unmask controller) (controller.set-same irq e d)) in
        let gone : (unmask controller e).flags masked ≡ false =
          rw ((is_iff masked masked).1 refl) refl in
        rw same (ap (λ x. x.vector) kept, ap (λ x. x.flags masked) kept ∙ gone)
    | inr other ↦
        let differ : gsi ≢ irq = λ equal. absurd (ground (arith, other, equal)) in
        let kept =
          controller.enable-other irq gsi (controller.set_table_entry gsi e d) differ
          ∙ controller.set-same gsi e d in
        rw other (ap (λ x. x.vector) kept, ap (λ x. x.flags masked) kept)
  ]

  abbrev at_masked : Option (Flag → Bool) → Bool
  at_masked none = false
  at_masked (some flags) = flags masked

  polarity_lem :
      (polarity : Polarity) (a : Flag → Bool)
      → polarity_flags controller polarity ≡ some a
      → a masked ≡ inverted polarity level
  polarity_lem Polarity.same_as_bus a h = absurd (cc)
  polarity_lem active_high a h =
      let value = ap at_masked h in
      let low = differs masked low_active controller.masked-low in ground (arith, value, low)
  polarity_lem active_low a h =
      let value = ap at_masked h in
      let low = differs masked low_active controller.masked-low in ground (arith, value, low)

  trigger_lem :
      (trigger : TriggerMode) (b : Flag → Bool)
      → trigger_flags controller trigger ≡ some b
      → b masked ≡ inverted active_low trigger
  trigger_lem TriggerMode.same_as_bus b h = absurd (cc)
  trigger_lem edge b h =
      let value = ap at_masked h in
      let untriggered = differs masked level_triggered controller.masked-level in
      ground (arith, value, untriggered)
  trigger_lem level b h =
      let value = ap at_masked h in
      let untriggered = differs masked level_triggered controller.masked-level in
      ground (arith, value, untriggered)

  either :
      (polarity : Polarity) (trigger : TriggerMode)
      → (inverted active_low trigger || inverted polarity level) ≡ inverted polarity trigger
  either Polarity.same_as_bus TriggerMode.same_as_bus = refl
  either Polarity.same_as_bus edge = refl
  either Polarity.same_as_bus level = refl
  either active_high TriggerMode.same_as_bus = refl
  either active_high edge = refl
  either active_high level = refl
  either active_low TriggerMode.same_as_bus = refl
  either active_low edge = refl
  either active_low level = refl

  -- An override that gives polarity and trigger mode, the last one, for an input below 256 that is not
  -- the keyboard's or the clock's: the entry's vector is the bare ISA number, and it stays masked when
  -- it asks for active high or for edges and its ISA number is not its input.
  pub setup_io_apic-override :
      (lapic_id : ℕ) (redirects : List Override) (r : Override) (d : Device) (a b : Flag → Bool)
      → polarity_flags controller r.polarity ≡ some a
      → trigger_flags controller r.trigger_mode ≡ some b
      → r.global_system_interrupt < 256
      → r.global_system_interrupt ≢ 1
      → r.global_system_interrupt ≢ 8
      → let entry =
          entry_of
            (setup_io_apic controller lapic_id (redirects ++ (r ∷ [])) d)
            r.global_system_interrupt in
        (entry.vector ≡ r.isa_source)
        × (entry.flags masked ≡ (
            if r.isa_source == r.global_system_interrupt
            then false
            else inverted r.polarity r.trigger_mode))
  unfolding setup_override
  setup_io_apic-override lapic_id redirects r d a b h k small not_keyboard not_clock =
      let before = setup_overrides controller lapic_id redirects (controller.init 32 d) in
      let e : Entry Flag = record {
        vector = r.isa_source;
        dest = lapic_id % 256;
        flags = union controller b a;
      } in
      let whole : r.global_system_interrupt % 256 ≡ r.global_system_interrupt =
        omega (arith, small) in
      let end =
        (setup_io_apic-own controller lapic_id (redirects ++ (r ∷ [])) d).2
          r.global_system_interrupt not_keyboard not_clock in
      let last = setup_overrides-last lapic_id redirects r (controller.init 32 d) in
      let written = written_lem r.isa_source r.global_system_interrupt e before in
      let wrote : setup_override controller lapic_id r before
          ≡ controller.enable_irq r.isa_source
              (controller.set_table_entry r.global_system_interrupt e before) =
        rw (h, setup_override, k)
          (ap (λ n. controller.enable_irq r.isa_source (controller.set_table_entry n e before))
            whole) in
      let eq = end ∙ ap (λ x. entry_of x r.global_system_interrupt) (last ∙ wrote) in
      let flag : union controller b a masked ≡ inverted r.polarity r.trigger_mode =
        (λ t. trigger_lem r.trigger_mode b k t || polarity_lem r.polarity a h t)
        ∙ either r.polarity r.trigger_mode in
      (
        ap (λ x. x.vector) eq ∙ written.0,
        ap (λ x. x.flags masked) eq
            ∙ written.1
            ∙ ap (λ t. if r.isa_source == r.global_system_interrupt then false else t) flag,
      )
