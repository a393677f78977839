-- ===== src/Interrupts/IoApic/Tests.antt =====
-- The redirections at a small controller.
use zoom_os.Memory.Tests.{frames}
use zoom_os.Paging.Sample.{toy, virt_addrs, new-lower}
use zoom_os.Interrupts.Choice.{Hardware, Pics, ApicInfo, set_up_controllers, register_flags}
use zoom_os.Interrupts.Choice.Chosen.{IsReady, IsSetUp, set_up_controllers_lem}
use zoom_os.Prelude.{
  none, inl, inr, All, some, ◌>>=◌, ℕ, ◌≡◌, ◌≢◌, refl, true, false, [], ◌∷◌, arith, if◌then◌else◌,
  ◌==◌, ==_iff,
}
use zoom_os.Interrupts.IoApic.{
  Controller, Entry, Override, Polarity, TriggerMode, only, complement, setup_io_apic,
}
use zoom_os.Keyboard.{add_scancode}
use zoom_os.Sync.Sleep.{clock_interrupt_handler}
use zoom_os.Interrupts.Handlers.{Eoi, Kernel, interrupt}
use zoom_os.Interrupts.Handlers.Paths.{is_masked, entry_vector, interrupt_lem}
use zoom_os.Interrupts.IoApic.Overrides.{setup_io_apic-override}

-- A device is its table, flags are numbers of bits.
abbrev Table : Type 0
Table = ℕ → Entry ℕ

put_entry : ℕ → Entry ℕ → Table → Table
put_entry irq e d i = if i == irq then e else d i

enable : ℕ → Table → Table
enable irq d i =
    if i == irq
    then record (d irq) { flags = λ f. if f == 16 then false else (d irq).flags f }
    else d i

put_same : (irq : ℕ) (e : Entry ℕ) (d : Table) → put_entry irq e d irq ≡ e
unfolding put_entry
put_same irq e d = let same : (irq == irq) ≡ true = ground arith in rw same refl

put_other :
    (irq other : ℕ) (e : Entry ℕ) (d : Table) → other ≢ irq → put_entry irq e d other ≡ d other
unfolding put_entry
put_other irq other e d differ = let apart : (other == irq) ≡ false = ground arith in rw apart refl

enable_same :
    (irq : ℕ) (d : Table)
    → enable irq d irq ≡ record (d irq) { flags = λ f. if f == 16 then false else (d irq).flags f }
unfolding enable
enable_same irq d = let same : (irq == irq) ≡ true = ground arith in rw same refl

enable_other : (irq other : ℕ) (d : Table) → other ≢ irq → enable irq d other ≡ d other
unfolding enable
enable_other irq other d differ = let apart : (other == irq) ≡ false = ground arith in rw apart refl

sixteen_thirteen : let n : ℕ = 16 in n ≢ 13
sixteen_thirteen = omega arith

sixteen_fifteen : let n : ℕ = 16 in n ≢ 15
sixteen_fifteen = omega arith

abbrev bits : Controller
bits = record {
  Flag = ℕ;
  low_active = 13;
  level_triggered = 15;
  masked = 16;
  is = λ f g. f == g;
  is_iff = ==_iff;
  masked-low = sixteen_thirteen;
  masked-level = sixteen_fifteen;
  Device = Table;
  init = λ offset d irq. record { vector = offset; dest = 0; flags = λ f. f == 16 };
  set_table_entry = put_entry;
  enable_irq = enable;
  entry_of = λ d irq. d irq;
  set-same = put_same;
  set-other = put_other;
  enable-same = enable_same;
  enable-other = enable_other;
}

abbrev blank : Table
blank irq = record { vector = 0; dest = 0; flags = λ f. false }

-- The timer of the ISA bus at input 2, as edges.
abbrev timer_override : Override
timer_override = record {
  isa_source = 0;
  global_system_interrupt = 2;
  polarity = Polarity.active_high;
  trigger_mode = TriggerMode.edge;
}

abbrev quiet : Kernel
quiet = record {
  keyboard_state = record { scancode_queue = some []; waker = some 4; woken = [] };
  clock_state = record { monotonic_time = 7; service = (7, 2 ∷ []) ∷ []; woken = [] };
  lapic_set = false;
  sent = [];
}

interrupt_lem_example :
    (is_masked bits 3 (timer_override ∷ []) blank 1 ≡ false)
    × (is_masked bits 3 (timer_override ∷ []) blank 8 ≡ false)
    × (interrupt (entry_vector bits 3 (timer_override ∷ []) blank 1) true 30 quiet
        ≡ some (record quiet {
          keyboard_state = add_scancode 30 quiet.keyboard_state;
          sent = Eoi.to_pics 33 ∷ [];
        }))
    × (interrupt (entry_vector bits 3 (timer_override ∷ []) blank 8) true 30 quiet ≡ (
        clock_interrupt_handler true quiet.clock_state >>= λ c.
        some (record quiet { clock_state = c; sent = Eoi.to_pics 40 ∷ [] })))
interrupt_lem_example = interrupt_lem bits 3 (timer_override ∷ []) blank true 30 quiet

two_one : let n : ℕ = 2 in n ≢ 1
two_one = omega arith

two_eight : let n : ℕ = 2 in n ≢ 8
two_eight = omega arith

setup_io_apic-override_example :
    let entry = setup_io_apic bits 3 (timer_override ∷ []) blank 2 in
    (entry.vector ≡ 0) × (entry.flags 16 ≡ true)
setup_io_apic-override_example =
    setup_io_apic-override bits 3 [] timer_override blank (complement bits (only bits 13))
      (complement bits (only bits 15)) refl refl (omega arith) two_one two_eight

abbrev hardware : Hardware virt_addrs frames toy bits
hardware = record {
  machine = record { table = λ page. none; next = 0x100000; left = 100 };
  device = λ address. blank;
  lapic_set = false;
  pics = Pics.untouched;
}

abbrev one_io_apic : ApicInfo
one_io_apic = record {
  xapic_base = 0xfee00000;
  local_apic_address = 0xfee00000;
  lapic = some 3;
  io_apics = 0xfec00000 ∷ [];
  overrides = timer_override ∷ [];
}

one_io_apic-IsReady :
    IsReady virt_addrs frames toy bits one_io_apic 0xffff_8000_0000_0000 3 hardware
one_io_apic-IsReady = record {
  base = omega arith;
  same = refl;
  lapic = refl;
  valid = (new-lower 0xfec00000 (omega arith), tt);
  free = (refl, (refl, tt));
  distinct = (
    λ h. elim h [
      | inl e ↦ omega (
        arith,
        e,
        frames.contains 4096 0xffff_8000_0000_0000 (omega arith),
        frames.contains 4096 0xfec00000 (omega arith),
      )
      | inr none_left ↦ none_left
    ],
    (λ h. h, tt),
  );
  enough = omega arith;
  unset = refl;
}

abbrev lapic_page : ℕ
lapic_page = frames.containing_address 4096 0xffff_8000_0000_0000

set_up_controllers_lem_example :
    (after : Hardware virt_addrs frames toy bits) × (set_up_controllers virt_addrs frames toy bits
        (some one_io_apic)
        0xffff_8000_0000_0000
        hardware
      ≡ some after)
    × (after.lapic_set ≡ true)
    × (after.pics ≡ Pics.disabled)
    × (after.machine.table lapic_page
        ≡ some (frames.containing_address 4096 0xfee00000, register_flags))
    × All
        (IsSetUp virt_addrs frames toy bits 3 (timer_override ∷ []) hardware after)
        (0xfec00000 ∷ [])
    × (set_up_controllers virt_addrs frames toy bits none 0xffff_8000_0000_0000 hardware
        ≡ some (record hardware { pics = Pics.initialized }))
set_up_controllers_lem_example =
    set_up_controllers_lem virt_addrs frames toy bits one_io_apic 0xffff_8000_0000_0000 3 hardware
      one_io_apic-IsReady
