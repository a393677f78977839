-- ===== src/Allocator/LinkedList/Tests.antt =====
-- Runs of the first-fit heap, and its theorems at concrete heaps.
use zoom_os.Prelude.{◌≡◌, refl, List, [], ◌∷◌, some, arith}
use zoom_os.Allocator.{Layout, align_up}
use zoom_os.Allocator.LinkedList.{
  Region, find_region, alloc_from_region, add_free_region, padded_align, padded_size, size_align,
  carve, alloc, dealloc, init,
}
use zoom_os.Allocator.LinkedList.Heap.{IsHeap}
use zoom_os.Allocator.LinkedList.Fit.{IsLayout}
use zoom_os.Allocator.LinkedList.Trace.{ClientHeap, Call, IsRequest, IsSafe, take_call, run_calls}
use zoom_os.Allocator.LinkedList.Trace.Safe.{run_calls-IsSafe}
use zoom_os.Allocator.LinkedList.Alloc.{Outcome, alloc-Outcome}

abbrev page_at_0x1010 : List Region
page_at_0x1010 = record { start = 0x1010; size = 0x1000 } ∷ []

abbrev line : Layout
line = record { size = 24; align = 32 }

abbrev rest_of_page : List Region
rest_of_page = record { start = 0x1040; size = 0xfd0 } ∷ []

-- The 16 bytes in front of the block are skipped.
line_taken : alloc line page_at_0x1010 ≡ some (0x1020, rest_of_page)
unfolding alloc size_align padded_size padded_align align_up find_region alloc_from_region carve
    add_free_region
line_taken = refl

init_runs : init 0x1010 0x1000 ≡ some page_at_0x1010
unfolding init add_free_region align_up
init_runs = refl

line-IsLayout : IsLayout line 5
line-IsLayout = record { power_of_two = refl; small = omega arith }

page-IsHeap : IsHeap 0x1000 0x4000 page_at_0x1010
page-IsHeap = omega arith

line_padded : (padded_size line ≡ 32) × (padded_align line ≡ 32)
unfolding padded_size padded_align align_up
line_padded = (refl, refl)

alloc-Outcome_example : Outcome 0x1000 0x4000 line page_at_0x1010 (alloc line page_at_0x1010)
alloc-Outcome_example =
    alloc-Outcome 0x1000 0x4000 line-IsLayout (omega (arith, line_padded)) page_at_0x1010
      page-IsHeap

line-IsRequest : IsRequest 0x4000 line
line-IsRequest = record { power = 5; valid = line-IsLayout; room = omega (arith, line_padded) }

abbrev page : ClientHeap
page = record { free = page_at_0x1010; live = [] }

page-IsSafe : IsSafe 0x1000 0x4000 page
page-IsSafe = record { free = page-IsHeap; live = tt; held = tt; apart = tt }

abbrev client : List Call
client = Call.allocates line ∷ Call.allocates line ∷ Call.frees 1 ∷ Call.allocates line ∷ []

-- The third block is the first one, used again.
client_runs :
    run_calls client page
    ≡ some (record {
      free = record { start = 0x1060; size = 0xfb0 } ∷ [];
      live = record { ptr = 0x1020; layout = line } ∷ record { ptr = 0x1040; layout = line } ∷ [];
    })
unfolding run_calls take_call alloc dealloc size_align padded_size padded_align align_up find_region
    alloc_from_region carve add_free_region
client_runs = refl

run_calls-IsSafe_example :
    (after : ClientHeap) × (run_calls client page ≡ some after) × IsSafe 0x1000 0x4000 after
run_calls-IsSafe_example =
    run_calls-IsSafe 0x1000 0x4000 page client (omega arith)
      (line-IsRequest, (line-IsRequest, (tt, (line-IsRequest, tt)))) page-IsSafe
