-- ===== src/Interrupts/Choice/Chosen.antt =====
-- The set-up of kernel/src/apic.rs ends with the APICs or with the legacy controllers, as a whole.
use zoom_os.Prelude.{
  ℕ, ◌+◌, ◌*◌, ◌^◌, ◌≤◌, ◌<◌, ◌≡◌, refl, ap, subst, ◌==◌, ◌∙◌, inl, inr, true, false, List, [], ◌∷◌,
  none, some, arith, All, IsIn, length, map, write-same, write-other, if◌then◌else◌, ◌>>=◌,
}
use zoom_os.Memory.{Frames}
use zoom_os.Paging.{Addresses, Mapper, Mapped}
use zoom_os.Paging.Pages.{IsDistinct}
use zoom_os.Interrupts.IoApic.{Controller, Override, setup_io_apic}
use zoom_os.Interrupts.Choice.{
  register_flags, done, failed, disabled, initialized, ApicInfo, Hardware, frame_at, with_io_apic,
  setup_io_apics, set_lapic, build_lapic, map_lapic, with_lapic_page, lapic_already_init, init_apic,
  unwrap, set_up_controllers,
}

map-IsIn : (f : ℕ → ℕ) (a : ℕ) (xs : List ℕ) → IsIn a xs → IsIn (f a) (map f xs)
map-IsIn f a [] h = h
map-IsIn f a (x ∷ xs) (inl e) = inl (ap f e)
map-IsIn f a (x ∷ xs) (inr h) = inr (map-IsIn f a xs h)

All-among {ℓ κ} :
    (P : ℕ → Type ℓ) (Q : ℕ → Type κ) (xs : List ℕ)
    → ((x : ℕ) → IsIn x xs → P x → Q x)
    → All P xs
    → All Q xs
All-among P Q [] f h = tt
All-among P Q (x ∷ xs) f h = (f x (inl refl) h.0, All-among P Q xs (λ y i. f y (inr i)) h.1)

module _ (addresses : Addresses) (frames : Frames) (mapper : Mapper) (controller : Controller) where
  open mapper use {frame_of, IsTaken, IsFree, left}

  abbrev pub Hw : Type 0
  Hw = Hardware addresses frames mapper controller

  abbrev page_at : ℕ → ℕ
  page_at addr = frame_at addresses frames mapper controller addr

  -- The registers are mapped, and the redirections written.
  pub record IsSetUp (lapic_id : ℕ) (redirects : List Override) (hw after : Hw) (address : ℕ)
      : Type 0 where
    pub mapped : frame_of after.machine (page_at address) ≡ some (page_at address, register_flags)
    pub written :
        after.device address ≡ setup_io_apic controller lapic_id redirects (hw.device address)

  record Looped (lapic_id : ℕ) (redirects : List Override) (io_apics : List ℕ) (hw after : Hw)
      : Type 0 where
    lapic_set : after.lapic_set ≡ hw.lapic_set
    pics : after.pics ≡ hw.pics
    each : All (IsSetUp lapic_id redirects hw after) io_apics
    pages :
        (q : ℕ) → ¬ IsIn q (map page_at io_apics) → frame_of after.machine q ≡ frame_of hw.machine q
    devices : (a : ℕ) → ¬ IsIn a io_apics → after.device a ≡ hw.device a

  still_free :
      (page frame : ℕ) (qs : List ℕ) (m m' : mapper.Machine)
      → Mapped left IsTaken IsFree frame_of page frame register_flags m m'
      → ¬ IsIn page qs
      → All (IsFree m) qs
      → All (IsFree m') qs
  still_free page frame qs m m' mapped fresh h =
      All-among (IsFree m) (IsFree m') qs
        (λ q i free. mapped.free q (λ e. fresh (subst (λ n. IsIn n qs) e i)) free) h

  loop_lem :
      (lapic_id : ℕ) (redirects : List Override) (io_apics : List ℕ) (hw : Hw)
      → All (λ a. addresses.new a ≡ some a) io_apics
      → All (IsFree hw.machine) (map page_at io_apics)
      → IsDistinct (map page_at io_apics)
      → 3 * length io_apics ≤ left hw.machine
      → (after : Hw) × (setup_io_apics addresses frames mapper controller lapic_id redirects
            io_apics hw
          ≡ some (done after))
        × Looped lapic_id redirects io_apics hw after
  unfolding setup_io_apics
  loop_lem lapic_id redirects [] hw valid free distinct enough = (
    hw,
    refl,
    record {
      lapic_set = refl;
      pics = refl;
      each = tt;
      pages = λ q out. refl;
      devices = λ a out. refl;
    },
  )
  loop_lem lapic_id redirects (address ∷ io_apics) hw valid free distinct enough =
      let (m, e, mapped) =
        mapper.map_to-Mapped (page_at address) (page_at address) register_flags hw.machine free.0
          (omega arith) in
      let next : Hw =
        with_io_apic addresses frames mapper controller lapic_id redirects address m hw in
      let (after, e', rest) =
        loop_lem lapic_id redirects io_apics next valid.1
          (still_free (page_at address) (page_at address) (map page_at io_apics) hw.machine m mapped
            distinct.0 free.1)
          distinct.1 (omega (arith, mapped.counted)) in
      let fresh : ¬ IsIn address io_apics = λ i. distinct.0 (map-IsIn page_at address io_apics i) in
      (
        after,
        rw (valid.0, setup_io_apics, e) e',
        record {
          lapic_set = rest.lapic_set;
          pics = rest.pics;
          each = (
            record {
              mapped = rest.pages (page_at address) distinct.0 ∙ mapped.here;
              written = rest.devices address fresh ∙ write-same hw.device address _;
            },
            All-among (IsSetUp lapic_id redirects next after) (IsSetUp lapic_id redirects hw after)
                io_apics
                (λ a i set_up. record {
                  mapped = set_up.mapped;
                  written =
                      set_up.written
                      ∙ ap (setup_io_apic controller lapic_id redirects) (
                          write-other hw.device address a _
                            (λ same. fresh (subst (λ n. IsIn n io_apics) same i)));
                })
                rest.each,
          );
          pages = λ q out. rest.pages q (λ i. out (inr i)) ∙ mapped.elsewhere q (λ e. out (inl e));
          devices = λ a out.
              rest.devices a (λ i. out (inr i))
              ∙ write-other hw.device address a _ (λ e. out (inl e));
        },
      )

  -- What the set-up of the APICs needs of the firmware and of the page tables.
  pub record IsReady (info : ApicInfo) (apic_addr lapic_id : ℕ) (hw : Hw) : Type 0 where
    pub base : info.xapic_base < 2 ^ 52
    pub same : info.xapic_base ≡ info.local_apic_address
    pub lapic : info.lapic ≡ some lapic_id
    pub valid : All (λ a. addresses.new a ≡ some a) info.io_apics
    pub free : All (IsFree hw.machine) (page_at apic_addr ∷ map page_at info.io_apics)
    pub distinct : IsDistinct (page_at apic_addr ∷ map page_at info.io_apics)
    pub enough : 3 + 3 * length info.io_apics ≤ left hw.machine
    pub unset : hw.lapic_set ≡ false

  asserted :
      {info : ApicInfo} {apic_addr lapic_id : ℕ} {hw : Hw}
      → IsReady info apic_addr lapic_id hw
      → (info.xapic_base == info.local_apic_address) ≡ true
  asserted ready = ground (arith, ready.same)

  -- The firmware names the address of the local APIC that the processor reports, it can be built, its
  -- cell is unset, the register pages are canonical, free and different, and frames are left: then
  -- LAPIC gets set, the legacy controllers are off, the pages mapped and all redirections written.
  -- Where no APIC is named, the legacy controllers are initialised instead.
  pub set_up_controllers_lem :
      (info : ApicInfo) (apic_addr lapic_id : ℕ) (hw : Hw)
      → IsReady info apic_addr lapic_id hw
      → (after : Hw) × (set_up_controllers addresses frames mapper controller
            (some info)
            apic_addr
            hw
          ≡ some after)
        × (after.lapic_set ≡ true)
        × (after.pics ≡ disabled)
        × (frame_of after.machine (page_at apic_addr)
            ≡ some (page_at info.xapic_base, register_flags))
        × All (IsSetUp lapic_id info.overrides hw after) info.io_apics
        × (set_up_controllers addresses frames mapper controller none apic_addr hw
            ≡ some (record hw { pics = initialized }))
  unfolding set_up_controllers init_apic
  set_up_controllers_lem info apic_addr lapic_id hw ready =
      let (m, e, mapped) =
        mapper.map_to-Mapped (page_at apic_addr) (page_at info.xapic_base) register_flags hw.machine
          ready.free.0 (omega (arith, ready.enough)) in
      let start : Hw = record hw { machine = m; pics = disabled } in
      let (last, e', looped) =
        loop_lem lapic_id info.overrides info.io_apics start ready.valid
          (still_free (page_at apic_addr) (page_at info.xapic_base) (map page_at info.io_apics)
            hw.machine m mapped ready.distinct.0 ready.free.1)
          ready.distinct.1 (omega (arith, ready.enough, mapped.counted)) in
      let unset : last.lapic_set ≡ false = looped.lapic_set ∙ ready.unset in
      (
        record last { lapic_set = true },
        ap (λ o. o >>= unwrap addresses frames mapper controller)
            (ap
                (λ b.
                  if b
                  then map_lapic addresses frames mapper controller info apic_addr
                      (addresses.physical info.xapic_base) (record hw { pics = disabled })
                  else none)
                (asserted ready)
              ∙ ap
                  (λ o.
                    map_lapic addresses frames mapper controller info apic_addr o
                      (record hw { pics = disabled }))
                  (addresses.physical-some info.xapic_base ready.base)
              ∙ ap
                  (λ o.
                    with_lapic_page addresses frames mapper controller info o
                      (record hw { pics = disabled }))
                  e
              ∙ ap (λ o. build_lapic addresses frames mapper controller info o start) ready.lapic
              ∙ ap (λ o. o >>= λ x. some (set_lapic addresses frames mapper controller x)) e'
              ∙ ap
                  (λ b. some (
                    if b
                    then failed lapic_already_init
                    else done (record last { lapic_set = true })))
                  unset),
        refl,
        looped.pics,
        looped.pages (page_at apic_addr) ready.distinct.0 ∙ mapped.here,
        All-among (IsSetUp lapic_id info.overrides start last)
            (IsSetUp lapic_id info.overrides hw (record last { lapic_set = true })) info.io_apics
            (λ a i set_up. record { mapped = set_up.mapped; written = set_up.written }) looped.each,
        refl,
      )
