-- ===== src/Interrupts/Choice.antt =====
-- Which controllers take over: `init` of kernel/src/apic.rs, and its place in `init` of
-- kernel/src/lib.rs.
pub mod Chosen
use zoom_os.Prelude.{
  write, ℕ, Bool, true, false, List, [], ◌∷◌, Option, none, some, ◌>>=◌, ◌==◌, if◌then◌else◌,
}
use zoom_os.Memory.{Frames, page_size}
use zoom_os.Paging.{Addresses, Mapper, Flag, present, writable, no_cache, no_execute}
use zoom_os.Interrupts.IoApic.{Controller, Override, setup_io_apic}

-- `PRESENT | WRITABLE | NO_CACHE | NO_EXECUTE`
abbrev pub register_flags : List Flag
register_flags = present ∷ writable ∷ no_cache ∷ no_execute ∷ []

pub data ApicInitError : Type 0 where
  bad_lapic_address failed_to_map_lapic lapic_build_failed failed_to_map_io_apic
        lapic_already_init :
      ApicInitError

-- A `Result` with that error
pub data Outcome (A : Type 0) : Type 0 where
  done : A → Outcome A
  failed : ApicInitError → Outcome A

-- The two legacy controllers
pub data Pics : Type 0 where
  untouched disabled initialized : Pics

-- What the firmware says of the controllers, with the base that the processor reports and the id of
-- the local one, which is none where it cannot be built.
pub record ApicInfo : Type 0 where
  pub xapic_base : ℕ
  pub local_apic_address : ℕ
  pub lapic : Option ℕ
  pub io_apics : List ℕ
  pub overrides : List Override

module _ (addresses : Addresses) (frames : Frames) (mapper : Mapper) (controller : Controller) where
  -- The page tables, the I/O controllers by their address, whether `LAPIC` is set, and `PICS`.
  pub record Hardware : Type 0 where
    pub machine : mapper.Machine
    pub device : ℕ → controller.Device
    pub lapic_set : Bool
    pub pics : Pics

  abbrev pub frame_at : ℕ → ℕ
  frame_at addr = frames.containing_address page_size addr

  -- One round of the loop over the I/O controllers, with its page mapped.
  abbrev pub with_io_apic : ℕ → List Override → ℕ → mapper.Machine → Hardware → Hardware
  with_io_apic lapic_id redirects address m hw = record hw {
    machine = m;
    device =
        write hw.device address (setup_io_apic controller lapic_id redirects (hw.device address));
  }

  -- The loop; `none` is a panic.
  unfoldable pub setup_io_apics : ℕ → List Override → List ℕ → Hardware → Option (Outcome Hardware)
  setup_io_apics lapic_id redirects [] hw = some (done hw)
  setup_io_apics lapic_id redirects (address ∷ io_apics) hw =
      let rest = setup_io_apics lapic_id redirects io_apics in
      addresses.new address >>= λ virt.
      elim (mapper.map_to (frame_at virt) (frame_at address) register_flags hw.machine) [
        | none ↦ some (failed failed_to_map_io_apic)
        | some m ↦ rest (with_io_apic lapic_id redirects address m hw)
      ]

  -- `LAPIC.try_init_once`
  abbrev pub set_lapic : Outcome Hardware → Outcome Hardware
  set_lapic (failed e) = failed e
  set_lapic (done hw) =
      if hw.lapic_set then failed lapic_already_init else done (record hw { lapic_set = true })

  abbrev pub build_lapic : ApicInfo → Option ℕ → Hardware → Option (Outcome Hardware)
  build_lapic info none hw = some (failed lapic_build_failed)
  build_lapic info (some lapic_id) hw =
      setup_io_apics lapic_id info.overrides info.io_apics hw >>= λ o. some (set_lapic o)

  abbrev pub with_lapic_page :
      ApicInfo → Option mapper.Machine → Hardware → Option (Outcome Hardware)
  with_lapic_page info none hw = some (failed failed_to_map_lapic)
  with_lapic_page info (some m) hw = build_lapic info info.lapic (record hw { machine = m })

  -- The local controller's registers go to the page at `apic_addr`.
  abbrev pub map_lapic : ApicInfo → ℕ → Option ℕ → Hardware → Option (Outcome Hardware)
  map_lapic info apic_addr none hw = some (failed bad_lapic_address)
  map_lapic info apic_addr (some base) hw =
      with_lapic_page info
        (mapper.map_to (frame_at apic_addr) (frame_at base) register_flags hw.machine) hw

  -- The `debug_assert_eq!` panics (`none`) where the two addresses differ.
  unfoldable pub init_apic : ApicInfo → ℕ → Hardware → Option (Outcome Hardware)
  init_apic info apic_addr hw =
      if info.xapic_base == info.local_apic_address
      then map_lapic info apic_addr (addresses.physical info.xapic_base)
          (record hw { pics = disabled })
      else none

  abbrev pub unwrap : Outcome Hardware → Option Hardware
  unwrap (done hw) = some hw
  unwrap (failed e) = none

  -- The branch on the interrupt model in `init` of lib.rs.
  unfoldable pub set_up_controllers : Option ApicInfo → ℕ → Hardware → Option Hardware
  set_up_controllers none apic_addr hw = some (record hw { pics = initialized })
  set_up_controllers (some info) apic_addr hw = init_apic info apic_addr hw >>= unwrap
