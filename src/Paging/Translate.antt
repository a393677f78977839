-- ===== src/Paging/Translate.antt =====
-- `translate_addr_inner` of kernel/src/memory/mapping.rs: the walk over four levels of page tables.
pub mod Tables
use zoom_os.Prelude.{ℕ, ◌+◌, ◌*◌, ◌/◌, ◌%◌, ◌^◌, ◌≡◌, Option, none, some, List, [], ◌∷◌, ◌>>=◌}
use zoom_os.Paging.{Addresses}

-- `PageTableEntry::frame`, with `FrameError`
pub data EntryFrame : Type 0 where
  ok : ℕ → EntryFrame
  frame_not_present huge_frame : EntryFrame

-- `p4_index` and the others of an address
pub record Indexes : Type 0 where
  pub index : ℕ → ℕ → ℕ
  pub page_offset : ℕ → ℕ
  pub index_lem : (level addr : ℕ) → index level addr ≡ addr / 2 ^ (3 + 9 * level) % 512
  pub page_offset_lem : (addr : ℕ) → page_offset addr ≡ addr % 4096

module _ (addresses : Addresses) (read : ℕ → ℕ → EntryFrame) where
  -- The loop over the indexes; `read` is the entry of the table at a virtual address. The outer
  -- `none` is a panic, the inner one is the result.
  unfoldable pub walk : ℕ → List ℕ → ℕ → Option (Option ℕ)
  walk physical_memory_offset [] frame = some (some frame)
  walk physical_memory_offset (index ∷ indexes) frame =
      let rest = walk physical_memory_offset indexes in
      addresses.plus physical_memory_offset frame >>= λ virt. elim (read virt index) [
        | ok next ↦ rest next
        | frame_not_present ↦ some none
        | huge_frame ↦ none
      ]

  abbrev pub with_offset : ℕ → Option ℕ → Option (Option ℕ)
  with_offset page_offset none = some none
  with_offset page_offset (some frame) =
      addresses.physical (frame + page_offset) >>= λ addr. some (some addr)

  -- `level_4_table_frame` is what CR3 holds.
  unfoldable pub translate_addr : Indexes → ℕ → ℕ → ℕ → Option (Option ℕ)
  translate_addr indexes level_4_table_frame addr physical_memory_offset =
      walk physical_memory_offset
        (indexes.index 4 addr
          ∷ indexes.index 3 addr
          ∷ indexes.index 2 addr
          ∷ indexes.index 1 addr
          ∷ [])
        level_4_table_frame
      >>= with_offset (indexes.page_offset addr)
