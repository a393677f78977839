-- ===== src/Display/Screen/Ready.antt =====
-- What `init` of kernel/src/framebuffer.rs does to the page tables, and that drawing can start.
use native.Mathlib.Nat.{mul_comm}
use zoom_os.Prelude.{
  ℕ, suc, ◌+◌, ◌-◌, ◌*◌, ◌/◌, ◌%◌, ◌^◌, ◌⊎◌, ◌≤◌, ◌<◌, ◌≡◌, ◌≢◌, refl, sym, ◌∙◌, ap, subst, inl,
  inr, List, [], ◌∷◌, Option, none, some, arith, All, IsIn, false, ◌==◌,
}
use zoom_os.Word.{usize_mod}
use zoom_os.Memory.{Frames, page_size}
use zoom_os.Paging.{Addresses, PageRanges, Mapper, Flag, for_each}
use zoom_os.Paging.Pages.{
  pages_from, range-pages_from, All-pages_from, IsIn-pages_from, IsDistinct, pages_from-IsDistinct,
  above, below,
}
use zoom_os.Display.Buffer.{Buffer}
use zoom_os.Display.Framebuffer.{ℤ, unknown, FrameBufferInfo, Color, draw_pixel}
use zoom_os.Display.Framebuffer.Pixels.{channels, IsFitting, draw_pixel-Outcome}
use zoom_os.Display.Writer.Visible.{IsOnScreen}
use zoom_os.Display.Screen.{
  FlagUpdates, screen_flags, new_writer, new_display, screen_pages, flag_page, init,
}

-- The pages that the screen's memory touches.
abbrev pub first_page : ℕ → ℕ
first_page start = start / page_size * page_size

abbrev pub screen_page_count : ℕ → ℕ → ℕ
screen_page_count start len = suc ((start + len - 1) / page_size - start / page_size)

fresh-IsFitting :
    (info : FrameBufferInfo)
    → channels info.pixel_format ≤ info.bytes_per_pixel
    → info.pixel_format ≢ unknown
    → IsFitting info (new_display info)
unfolding new_display
fresh-IsFitting info room known = (le, room, known)
  where
    le :
        info.height * info.width * info.bytes_per_pixel
        ≤ info.width * info.height * info.bytes_per_pixel
    le = rw (mul_comm info.height info.width) (omega arith)

-- On a new display, no pixel is refused.
first_pixel :
    (info : FrameBufferInfo) (x y : ℤ) (color : Color)
    → IsFitting info (new_display info)
    → (after : Buffer) × (draw_pixel info x y color (new_display info) ≡ some after)
first_pixel info x y color fitting =
    elim (draw_pixel-Outcome info x y color (new_display info) fitting) [
      | inl (x_in, y_in, (after, e, painted)) ↦ (after, e)
      | inr (out, e) ↦ (new_display info, e)
    ]

-- The entry of a page with the flags of the screen.
unfoldable reflagged : Option (ℕ × List Flag) → Option (ℕ × List Flag)
reflagged none = none
reflagged (some (frame, old)) = some (frame, screen_flags)

module _ (mapper : Mapper) (updates : FlagUpdates mapper) where
  open mapper use {Machine, frame_of}

  -- Pages keep their frames and get the flags, and the other pages are as they were.
  record Flagged (pages : List ℕ) (m m' : Machine) : Type 0 where
    each : (p : ℕ) → IsIn p pages → frame_of m' p ≡ reflagged (frame_of m p)
    elsewhere : (q : ℕ) → ¬ IsIn q pages → frame_of m' q ≡ frame_of m q

  abbrev pub IsMapped : Machine → ℕ → Type 0
  IsMapped m page = (frame : ℕ) × (old : List Flag) × (frame_of m page ≡ some (frame, old))

  still-IsMapped :
      (page : ℕ) (pages : List ℕ) (m m₁ : Machine)
      → ((q : ℕ) → q ≢ page → frame_of m₁ q ≡ frame_of m q)
      → ¬ IsIn page pages
      → All (IsMapped m) pages
      → All (IsMapped m₁) pages
  still-IsMapped page [] m m₁ kept fresh h = tt
  still-IsMapped page (q ∷ pages) m m₁ kept fresh ((frame, old, e), h) = (
    (frame, old, kept q (λ same. fresh (inl (sym same))) ∙ e),
    still-IsMapped page pages m m₁ kept (λ i. fresh (inr i)) h,
  )

  Flagged-each :
      (page : ℕ) (pages : List ℕ) (m m₁ m' : Machine) (frame : ℕ) (old : List Flag)
      → frame_of m page ≡ some (frame, old)
      → frame_of m₁ page ≡ some (frame, screen_flags)
      → ((q : ℕ) → q ≢ page → frame_of m₁ q ≡ frame_of m q)
      → ¬ IsIn page pages
      → Flagged pages m₁ m'
      → (p : ℕ) → IsIn p (page ∷ pages)
      → frame_of m' p ≡ reflagged (frame_of m p)
  unfolding reflagged
  Flagged-each page pages m m₁ m' frame old e here kept fresh rest p (inl same) =
      subst (λ n. frame_of m' n ≡ reflagged (frame_of m n)) (sym same)
        (rest.elsewhere page fresh ∙ here ∙ sym (ap reflagged e))
  Flagged-each page pages m m₁ m' frame old e here kept fresh rest p (inr i) =
      rest.each p i ∙ ap reflagged (kept p (λ same. fresh (subst (λ n. IsIn n pages) same i)))

  flag_loop :
      (pages : List ℕ) (m : Machine)
      → All (IsMapped m) pages
      → IsDistinct pages
      → (m' : Machine) × (for_each (flag_page mapper updates) pages m ≡ some m')
        × Flagged pages m m'
  unfolding for_each flag_page
  flag_loop [] m mapped distinct =
      (m, refl, record { each = λ p i. absurd i; elsewhere = λ q out. refl })
  flag_loop (page ∷ pages) m ((frame₀, old₀, e₀), mapped) (fresh, distinct) =
      let (m₁, e₁, here, kept) = updates.update_flags-some page frame₀ old₀ screen_flags m e₀ in
      let (m', e', rest) =
        flag_loop pages m₁ (still-IsMapped page pages m m₁ kept fresh mapped) distinct in
      (
        m',
        rw (e₁, for_each) e',
        record {
          each = Flagged-each page pages m m₁ m' frame₀ old₀ e₀ here kept fresh rest;
          elsewhere =
              λ q out. rest.elsewhere q (λ i. out (inr i)) ∙ kept q (λ same. out (inl same));
        },
      )

module _ (addresses : Addresses) (frames : Frames) (ranges : PageRanges) (start len : ℕ)
    (upper : usize_mod - 2 ^ 47 ≤ start) (room : start + len < usize_mod)
    (some_memory : 0 < len) where
  screen_pages_lem :
      screen_pages addresses frames ranges start len
      ≡ some (pages_from (first_page start) (screen_page_count start len))
  unfolding screen_pages
  screen_pages_lem =
      rw
        (
          real,
          addresses.new-upper start upper (omega (arith, room)),
          addresses.plus-new start len room,
          addresses.new-upper (start + len) (omega (arith, upper)) room,
          addresses.minus-new (start + len) 1 (omega (arith, some_memory)),
          addresses.new-upper (start + len - 1) (omega (arith, upper, some_memory))
              (omega (arith, room)),
        )
        (ap some (
          rw (first, end_page)
            (range-pages_from ranges (first_page start) ((start + len - 1) / page_size * page_size)
              (screen_page_count start len) (omega (arith, some_memory))
              (omega (arith, some_memory)))))
    where
      real : (len == 0) ≡ false
      real = ground (arith, some_memory)

      first : frames.containing_address page_size start ≡ first_page start
      first =
          omega
            (arith, frames.contains page_size start (omega arith), frames.multiple page_size start)

      end_page :
          frames.containing_address page_size (start + len - 1)
          ≡ (start + len - 1) / page_size * page_size
      end_page = omega (
        arith,
        frames.contains page_size (start + len - 1) (omega arith),
        frames.multiple page_size (start + len - 1),
      )

  module _ (mapper : Mapper) (updates : FlagUpdates mapper) (info : FrameBufferInfo) where
    open mapper use {Machine, frame_of}

    -- Where every page of the screen's memory is mapped in the upper half, the pixels are of a known
    -- format and the screen has room for characters, the set-up does not panic: these pages keep
    -- their frames and get the flags, no other page changes, a new display takes any pixel, and the
    -- writer is on the screen.
    pub init-draw_pixel :
        (m : Machine)
        → ((p : ℕ)
            → p % page_size ≡ 0
            → start < p + page_size
            → p < start + len
            → IsMapped mapper updates m p)
        → channels info.pixel_format ≤ info.bytes_per_pixel
        → info.pixel_format ≢ unknown
        → 10 ≤ info.width
        → 16 ≤ info.height
        → (m' : Machine) × (init mapper updates addresses frames ranges start len info m
            ≡ some (m', new_writer info, new_display info))
          × ((p frame : ℕ) (old : List Flag)
              → p % page_size ≡ 0
              → start < p + page_size
              → p < start + len
              → frame_of m p ≡ some (frame, old)
              → frame_of m' p ≡ some (frame, screen_flags))
          × ((q : ℕ)
              → q % page_size ≡ 0
              → (q + page_size ≤ start) ⊎ (start + len ≤ q)
              → frame_of m' q ≡ frame_of m q)
          × ((x y : ℤ) (color : Color)
              → (after : Buffer) × (draw_pixel info x y color (new_display info) ≡ some after))
          × IsOnScreen info.width info.height (new_writer info)
    unfolding init reflagged new_writer
    init-draw_pixel m mapped fits known wide high =
        let pages = pages_from (first_page start) (screen_page_count start len) in
        let (m', e, flagged) =
          flag_loop mapper updates pages m
            (All-pages_from (IsMapped mapper updates m) (first_page start)
              (screen_page_count start len)
              (λ k lt.
                mapped _ (omega arith) (omega (arith, some_memory))
                  (omega (arith, some_memory, lt))))
            (pages_from-IsDistinct (first_page start) (screen_page_count start len)) in
        (
          m',
          rw (screen_pages_lem, init, e) refl,
          λ p frame old aligned low high e.
              flagged.each p (
                IsIn-pages_from p (first_page start) (screen_page_count start len)
                  ((p - first_page start) / page_size)
                  (omega (arith, aligned, low, high, some_memory))
                  (omega (arith, aligned, low, high, some_memory)))
              ∙ ap reflagged e,
          λ q aligned out. flagged.elsewhere q (outside q aligned out),
          λ x y color. first_pixel info x y color (fresh-IsFitting info fits known),
          (refl, refl, wide, high, tt),
        )
      where
        outside :
            (q : ℕ)
            → q % page_size ≡ 0
            → (q + page_size ≤ start) ⊎ (start + len ≤ q)
            → ¬ IsIn q (pages_from (first_page start) (screen_page_count start len))
        outside q aligned (inl low) i =
            above q (first_page start) (screen_page_count start len) (omega (arith, low)) i
        outside q aligned (inr high) i =
            below q (first_page start) (screen_page_count start len)
              (omega (arith, aligned, high, some_memory)) i
