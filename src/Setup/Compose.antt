-- ===== src/Setup/Compose.antt =====
-- The plan of `init` of kernel/src/lib.rs with its clients, the heap of allocator.rs and the handler
-- of acpi.rs.
use zoom_os.Prelude.{ℕ, ◌+◌, ◌-◌, ◌*◌, ◌%◌, ◌^◌, ◌≤◌, ◌<◌, ◌≡◌, refl, ◌∙◌, inl, inr, some, arith}
use zoom_os.Word.{usize_mod}
use zoom_os.Memory.{Frames, page_size}
use zoom_os.Allocator.Block
use zoom_os.Allocator.Block.{Fallback, BlockHeap}
use zoom_os.Paging.{Addresses, PageRanges, Mapper}
use zoom_os.Paging.Heap.{heap_len, heap_flags, IsHeapPage, init}
use zoom_os.Paging.Heap.Init.{heap_page_count, init-HeapMapped}
use zoom_os.Paging.Acpi.{PhysicalMapping, KernelAcpi, new, acpi_flags, map_physical_region}
use zoom_os.Paging.Acpi.Map.{IsReady, page_count, map_physical_region_lem}
use zoom_os.Setup.{Handover, Plan, acpi_len, apic_len, plan}
use zoom_os.Setup.Regions.{IsPlan, plan-IsPlan}

module _ (addresses : Addresses) (frames : Frames) (ranges : PageRanges) (boot kernel : Mapper)
    (handover : Handover boot kernel) (physical size : ℕ) where
  open handover use {hand_over}

  -- The first region of the handler, on the machine that the set-up of the heap has left.
  first-IsReady :
      (code_len : ℕ) (p : Plan) (m : kernel.Machine)
      → IsPlan code_len p
      → usize_mod - 2 ^ 47 ≤ p.code_addr
      → size + 1 < acpi_len
      → ((q : ℕ) → p.acpi_addr ≤ q → q < p.acpi_addr + acpi_len → kernel.IsFree m q)
      → 3 * page_count size ≤ kernel.left m
      → IsReady kernel size (new p.acpi_addr acpi_len m)
  unfolding new
  first-IsReady code_len p m h upper small free enough = record {
    aligned = omega (arith, h.heap_aligned, h.heap_acpi);
    upper = omega (arith, h.code_heap, h.heap_acpi);
    fits = omega (arith, h.acpi_apic, h.apic_end);
    room = omega (arith, h.acpi_apic, h.apic_end);
    free = λ q low high. free q low (omega arith);
    enough = enough;
  }

  -- For a kernel in the upper half that leaves room, with the pages behind it free and frames left for
  -- either allocator, no step panics: the regions are planned without overlap, the heap is mapped, each
  -- page to a frame that nobody had, and stays so, and the handler maps a first region of less than a
  -- MiB at the planned start, all of its pages to the frame of its first byte.
  pub plan-init-map_physical_region :
      (kernel_image_offset kernel_len : ℕ) (m : boot.Machine) (fallback : Fallback)
      (allocator : BlockHeap fallback)
      → usize_mod - 2 ^ 47 ≤ kernel_image_offset
      → kernel_image_offset + kernel_len + heap_len + acpi_len + apic_len + page_size ≤ usize_mod
      → ((q : ℕ)
          → kernel_image_offset + kernel_len ≤ q
          → q < kernel_image_offset + kernel_len + page_size + heap_len + acpi_len
          → boot.IsFree m q)
      → physical < 2 ^ 52
      → size + 1 < acpi_len
      → 4 * heap_page_count ≤ boot.left m
      → ((m₁ : boot.Machine)
          → boot.left m ≤ boot.left m₁ + 4 * heap_page_count
          → 3 * page_count size ≤ kernel.left (hand_over m₁))
      → (p : Plan) × (m₁ : boot.Machine) × (r : PhysicalMapping) × (a : KernelAcpi kernel.Machine)
        × (plan addresses kernel_image_offset kernel_len ≡ some p)
        × (p.code_addr ≡ kernel_image_offset)
        × IsPlan kernel_len p
        × (init boot addresses frames ranges fallback p.heap_addr allocator m
            ≡ some (m₁, Block.init fallback allocator p.heap_addr heap_len))
        × (map_physical_region addresses frames ranges kernel physical size
              (new p.acpi_addr acpi_len (hand_over m₁))
            ≡ some (r, a))
        × (r.virtual_start ≡ p.acpi_addr)
        × ((q : ℕ)
            → IsHeapPage p.heap_addr q
            → (frame : ℕ) × (kernel.frame_of a.machine q ≡ some (frame, heap_flags))
              × ¬ boot.IsTaken m frame)
        × ((q : ℕ)
            → q % page_size ≡ 0
            → p.acpi_addr ≤ q
            → q ≤ p.acpi_addr + size
            → kernel.frame_of a.machine q
              ≡ some (frames.containing_address page_size physical, acpi_flags))
  unfolding new
  plan-init-map_physical_region offset len m fallback allocator upper room free low small enough
        enough₂ =
      let (p, planned, start, h) = plan-IsPlan addresses offset len upper room in
      let (m₁, e, has, apart, kept, still, spent) =
        init-HeapMapped addresses frames ranges p.heap_addr h.heap_aligned
          (omega (arith, start, h.code_heap)) (omega (arith, h.heap_acpi, h.acpi_apic, h.apic_end))
          boot m fallback allocator
          (λ q above below.
            free q (omega (arith, start, h.code_heap)) (omega (arith, start, h.tight)))
          (omega arith) in
      let ready =
        first-IsReady len p (hand_over m₁) h (omega (arith, start)) small
          (λ q above below. handover.free m₁ q (
            still q (inr (omega (arith, h.heap_acpi))) (
              free q (omega (arith, start, h.code_heap, h.heap_acpi))
                (omega (arith, start, h.tight, h.heap_acpi)))))
          (enough₂ m₁ spent) in
      let (m₂, e₂, here, elsewhere) =
        map_physical_region_lem kernel addresses frames ranges physical low size
          (new p.acpi_addr acpi_len (hand_over m₁)) ready in
      (
        p,
        m₁,
        record {
          physical_start = physical;
          virtual_start = p.acpi_addr;
          region_length = size;
          mapped_length = size;
        },
        record (new p.acpi_addr acpi_len (hand_over m₁)) {
          machine = m₂;
          start_addr = p.acpi_addr + page_count size * page_size;
        },
        planned,
        start,
        h,
        e,
        e₂,
        refl,
        λ q hq. (
          (has q hq).frame,
          elsewhere q (inl (omega (arith, hq.below, h.heap_acpi)))
              ∙ handover.tables m₁ q
              ∙ (has q hq).entry,
          (has q hq).unused,
        ),
        here,
      )
