-- ===== src/Interrupts/IoApic.antt =====
-- The redirections that `init` of kernel/src/apic.rs writes to an I/O APIC. The controller is the
-- x2apic package's, the overrides are the acpi package's.
pub mod Keys
pub mod Overrides
mod Tests
use zoom_os.Prelude.{
  ℕ, ◌-◌, ◌%◌, ◌≡◌, ◌≢◌, ◌↔◌, Bool, true, false, not, ◌||◌, List, [], ◌∷◌, if◌then◌else◌, Option,
  none, some,
}
use zoom_os.Interrupts.{InterruptIndex, keyboard, clock, index_of}

-- `RedirectionTableEntry`, with the flags that are set
pub record Entry (Flag : Type 0) : Type 0 where
  pub vector : ℕ
  pub dest : ℕ
  pub flags : Flag → Bool

-- `IoApic` and `IrqFlags`. An entry that is enabled loses the flag MASKED.
pub record Controller : Type 1 where
  pub Flag : Type 0
  pub low_active : Flag
  pub level_triggered : Flag
  pub masked : Flag
  pub is : Flag → Flag → Bool
  pub is_iff : (f g : Flag) → (is f g ≡ true) ↔ (f ≡ g)
  pub masked-low : masked ≢ low_active
  pub masked-level : masked ≢ level_triggered
  pub Device : Type 0
  pub init : ℕ → Device → Device
  pub set_table_entry : ℕ → Entry Flag → Device → Device
  pub enable_irq : ℕ → Device → Device
  pub entry_of : Device → ℕ → Entry Flag
  pub set-same :
      (irq : ℕ) (e : Entry Flag) (d : Device) → entry_of (set_table_entry irq e d) irq ≡ e
  pub set-other :
      (irq other : ℕ) (e : Entry Flag) (d : Device)
      → other ≢ irq
      → entry_of (set_table_entry irq e d) other ≡ entry_of d other
  pub enable-same :
      (irq : ℕ) (d : Device)
      → entry_of (enable_irq irq d) irq ≡ record (entry_of d irq) {
        flags = λ f. if is f masked then false else (entry_of d irq).flags f;
      }
  pub enable-other :
      (irq other : ℕ) (d : Device)
      → other ≢ irq
      → entry_of (enable_irq irq d) other ≡ entry_of d other

pub data Polarity : Type 0 where
  same_as_bus active_high active_low : Polarity

pub data TriggerMode : Type 0 where
  same_as_bus edge level : TriggerMode

-- `InterruptSourceOverride`
pub record Override : Type 0 where
  pub isa_source : ℕ
  pub global_system_interrupt : ℕ
  pub polarity : Polarity
  pub trigger_mode : TriggerMode

module _ (controller : Controller) where
  open controller use {Flag, Device, is, low_active, level_triggered, masked}

  -- An entry that `enable_irq` has cleared of its mask.
  abbrev pub unmask : Entry Flag → Entry Flag
  unmask e = record e { flags = λ f. if is f masked then false else e.flags f }

  -- One flag, and `!` and `|` of the flags.
  abbrev pub only : Flag → Flag → Bool
  only f g = is g f

  abbrev pub complement : (Flag → Bool) → Flag → Bool
  complement flags g = not (flags g)

  abbrev pub union : (Flag → Bool) → (Flag → Bool) → Flag → Bool
  union a b g = a g || b g

  -- The two matches; `none` is `continue`.
  abbrev pub polarity_flags : Polarity → Option (Flag → Bool)
  polarity_flags Polarity.same_as_bus = none
  polarity_flags active_high = some (complement (only low_active))
  polarity_flags active_low = some (only low_active)

  abbrev pub trigger_flags : TriggerMode → Option (Flag → Bool)
  trigger_flags TriggerMode.same_as_bus = none
  trigger_flags edge = some (complement (only level_triggered))
  trigger_flags level = some (only level_triggered)

  -- The body of the loop over the overrides.
  abbrev pub write_entry :
      ℕ → Override → Option (Flag → Bool) → Option (Flag → Bool) → Device → Device
  write_entry lapic_id r none trigger d = d
  write_entry lapic_id r (some polarity) none d = d
  write_entry lapic_id r (some polarity) (some trigger) d = controller.enable_irq r.isa_source (
      controller.set_table_entry (r.global_system_interrupt % 256)
        (record { vector = r.isa_source; dest = lapic_id % 256; flags = union trigger polarity }) d)

  unfoldable pub setup_override : ℕ → Override → Device → Device
  setup_override lapic_id r =
      write_entry lapic_id r (polarity_flags r.polarity) (trigger_flags r.trigger_mode)

  unfoldable pub setup_overrides : ℕ → List Override → Device → Device
  setup_overrides lapic_id [] d = d
  setup_overrides lapic_id (r ∷ redirects) d =
      setup_overrides lapic_id redirects (setup_override lapic_id r d)

  -- The redirect of one of the kernel's own interrupts.
  unfoldable pub setup_own : ℕ → InterruptIndex → Device → Device
  setup_own lapic_id index d = controller.enable_irq (index_of index - 32) (
      controller.set_table_entry (index_of index - 32)
        (record { vector = index_of index; dest = lapic_id % 256; flags = only level_triggered }) d)

  -- The body of the loop over the controllers, from `IoApic::new` on.
  unfoldable pub setup_io_apic : ℕ → List Override → Device → Device
  setup_io_apic lapic_id redirects d =
      setup_own lapic_id clock
        (setup_own lapic_id keyboard (setup_overrides lapic_id redirects (controller.init 32 d)))
