-- ===== src/Lib.antt =====
-- A verification library for zoom-os, a kernel for x86_64 written in Rust.
--
-- The parts of the kernel and how they meet. The boot loader gives a map of memory and an image.
-- kernel/src/lib.rs plans the regions of code, heap, ACPI and APIC, and kernel/src/memory.rs makes
-- two frame allocators, the first one for the set-up and the second one for later.
-- kernel/src/allocator.rs gives each page of the heap a frame through the mapper of
-- kernel/src/memory/mapping.rs, which also walks the page tables, and kernel/src/acpi.rs maps the
-- tables of the firmware the same way. kernel/src/allocator/linked_list.rs is a first-fit heap, and
-- block.rs beside it puts lists of blocks of fixed sizes in front of another heap. On the heap stands
-- the executor of kernel/src/task, which polls tasks that their wakers have queued. Wakers are called
-- by the mutex of kernel/src/util/async/mutex.rs, by the sleeping tasks of sleep_future.rs beside it,
-- and by the queue of kernel/src/keyboard.rs. The clock chip of kernel/src/rtc.rs and the keyboard
-- interrupt through the entries that kernel/src/apic.rs writes and reach the handlers of
-- kernel/src/interrupts.rs. kernel/src/util/once.rs holds the statics, among them the screen of
-- kernel/src/framebuffer.rs, on which kernel/src/vga_buffer.rs writes text. kernel/src/tracer.rs
-- prints the events of all of them with the spans they are in.
--
-- The files. A module named for a part has the state and the operations, its children have the
-- lemmas and the theorems, and a child Tests has runs on concrete values.
--   Prelude, Word         shared lists, tests and case lemmas; usize arithmetic and bit masks
--   Allocator             align_up; LinkedList is linked_list.rs with the calls of its clients in
--                         Trace, Block is block.rs
--   Memory                Range and MemoryRegion; Boot is BootInfoFrameAllocator, Smart is
--                         SmartFrameAllocator
--   Paging                the interface of the paging package; Heap is init of allocator.rs, Acpi is
--                         KernelAcpi of acpi.rs, Translate is translate_addr of mapping.rs, Sample
--                         is a machine on which the tests run
--   Setup                 the regions that init of lib.rs plans, and the heap and ACPI regions in them
--   Sync                  IntMutex and Mutex are mutex.rs, with WakerList; Sleep is sleep_future.rs
--                         with clock_interrupt_handler; Once is once.rs
--   Task                  executor.rs and mod.rs of kernel/src/task, and yield_now
--   Display               Framebuffer is Display of framebuffer.rs, Screen is init of it, Writer is
--                         vga_buffer.rs with _print in Print
--   Rtc, Keyboard         rtc.rs, keyboard.rs
--   Tracer                tracer.rs; Spec is what its calls mean
--   Interrupts            the numbers of interrupts.rs; IoApic is the redirections of apic.rs, Choice
--                         is its init and the choice of the controllers in lib.rs, Handlers is the
--                         table and the handlers of interrupts.rs
-- Functions keep their names. A method on `&mut self` takes and gives its state, one that can panic
-- or fail gives an Option, and `none` is the panic where the source has no other meaning for it.
--
-- Numbers are natural numbers; a usize or u64 wraps at 2 ^ 64 where the code lets it, as in a release
-- build, and the assertions of a debug build are kept as panics. Atomic accesses are single steps in a
-- total order, so that the weaker memory orderings are left out, and a weak exchange may fail for no
-- reason, but for that of a print. Mutex and Once are systems of any number of threads; a state
-- that their steps reach is one that some interleaving reaches. IntMutex is one processor. Locks
-- that a call holds from its start to its end are left out where nothing else runs in the meantime.
--
-- Loops of the source that need not end run on fuel: run_tasks has a round of the queue for each unit
-- and ends when the wakeups can be paid from a budget, and update_guarded_op has an attempt for each
-- unit and ends when the chip is quiet from some time on; a theorem below says of each how much is
-- enough. The exchange loop of Once, and spin_lock and lock of IntMutex, take a list of the exchanges
-- that fail. The loops over pages end with their range.
--
-- Parameters, with what is asked of them: the frames of the paging package (Frames), its addresses in
-- the upper half (Addresses), its ranges (PageRanges), the indexes of an address (Indexes), and its
-- mapper with a frame allocator behind it (Mapper) and the update of flags (FlagUpdates); joining of
-- neighbours in a list (Itertools), the heap behind the block allocator (Fallback), futures and the
-- rest of the kernel's state (poll_future), the registers of the clock chip (Chip), the checked
-- constructors of dates and times, the intersection of rectangles (Area), the I/O controller and its
-- flags (Controller), what a span is about (Metadata), which shapes have a pixel on the screen (ink), and the change of the
-- frame allocator behind the mapper (Handover).
--
-- Not modelled: the order of the set-up in lib.rs but for its choice of the controllers, finding the
-- tables of the firmware, the settings of the local APIC's timer, the segments of
-- kernel/src/gdt.rs, the serial port and the test runner, the clock face, which is drawn with
-- floating-point geometry. The values behind locks, floating-point durations, fonts, shapes and what
-- the fault handlers print are left out.
pub mod Prelude
pub mod Word
pub mod Allocator
pub mod Memory
pub mod Paging
pub mod Setup
pub mod Sync
pub mod Task
pub mod Display
pub mod Rtc
pub mod Keyboard
pub mod Tracer
pub mod Interrupts
