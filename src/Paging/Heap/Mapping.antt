-- ===== src/Paging/Heap/Mapping.antt =====
-- What the loop of `init` of kernel/src/allocator.rs does to the page tables.
use zoom_os.Prelude.{
  ℕ, ◌+◌, ◌*◌, ◌≤◌, ◌≡◌, refl, sym, ◌∙◌, ap, subst, inl, inr, List, [], ◌∷◌, some, arith, All,
  All-imp, All-IsIn, IsIn, length, some-injective,
}
use zoom_os.Paging.{Mapper, Given, Mapped, for_each}
use zoom_os.Paging.Pages.{IsDistinct}
use zoom_os.Paging.Heap.{heap_flags, map_heap_page}

module _ (mapper : Mapper) where
  open mapper use {Machine, frame_of, IsTaken, IsFree, left}

  -- The page has a frame that nobody had before.
  pub record HasFrame (m m' : Machine) (page : ℕ) : Type 0 where
    pub frame : ℕ
    pub entry : frame_of m' page ≡ some (frame, heap_flags)
    pub unused : ¬ IsTaken m frame
    pub used : IsTaken m' frame

  -- Each page has a new frame, no frame stands behind two pages, and other pages are as they were.
  pub record HeapMapped (pages : List ℕ) (m m' : Machine) : Type 0 where
    pub each : All (HasFrame m m') pages
    pub apart :
        (p q frame : ℕ)
        → IsIn p pages
        → IsIn q pages
        → frame_of m' p ≡ some (frame, heap_flags)
        → frame_of m' q ≡ some (frame, heap_flags)
        → p ≡ q
    pub elsewhere : (q : ℕ) → ¬ IsIn q pages → frame_of m' q ≡ frame_of m q
    pub taken : (f : ℕ) → IsTaken m f → IsTaken m' f
    pub free : (q : ℕ) → ¬ IsIn q pages → IsFree m q → IsFree m' q
    pub counted : left m ≤ left m' + 4 * length pages

  heap_step :
      (page : ℕ) (m : Machine)
      → IsFree m page
      → 4 ≤ left m
      → (frame : ℕ) × (m₁ : Machine) × (m₂ : Machine) × (map_heap_page mapper page m ≡ some m₂)
        × Given left IsTaken IsFree frame_of frame m m₁
        × Mapped left IsTaken IsFree frame_of page frame heap_flags m₁ m₂
  unfolding map_heap_page
  heap_step page m free enough =
      let (frame, m₁, e₁, given) = mapper.allocate_frame-Given m (omega arith) in
      let (m₂, e₂, mapped) =
        mapper.map_to-Mapped page frame heap_flags m₁ (given.free page free)
          (omega (arith, given.counted)) in
      (frame, m₁, m₂, rw (e₁, map_heap_page) e₂, given, mapped)

  -- The frame of a page that has just been mapped.
  clash :
      (q frame : ℕ) (pages : List ℕ) (m₂ m' : Machine)
      → HeapMapped pages m₂ m'
      → IsTaken m₂ frame
      → IsIn q pages
      → ¬ (frame_of m' q ≡ some (frame, heap_flags))
  clash q frame pages m₂ m' rest used in_pages e =
      let has = All-IsIn (HasFrame m₂ m') q pages rest.each in_pages in
      let same : has.frame ≡ frame = ap (λ p. p.0) (some-injective _ _ (sym has.entry ∙ e)) in
      has.unused (subst (IsTaken m₂) (sym same) used)

  module _ (page frame : ℕ) (pages : List ℕ) (m m₁ m₂ m' : Machine)
      (given : Given left IsTaken IsFree frame_of frame m m₁)
      (mapped : Mapped left IsTaken IsFree frame_of page frame heap_flags m₁ m₂)
      (rest : HeapMapped pages m₂ m') (fresh : ¬ IsIn page pages) where
    here : frame_of m' page ≡ some (frame, heap_flags)
    here = rest.elsewhere page fresh ∙ mapped.here

    used : IsTaken m₂ frame
    used = mapped.taken frame given.used

    apart_more :
        (p q f : ℕ)
        → IsIn p (page ∷ pages)
        → IsIn q (page ∷ pages)
        → frame_of m' p ≡ some (f, heap_flags)
        → frame_of m' q ≡ some (f, heap_flags)
        → p ≡ q
    apart_more p q f (inl e) (inl e') h k = e ∙ sym e'
    apart_more p q f (inr i) (inr i') h k = rest.apart p q f i i' h k
    apart_more p q f (inl e) (inr i) h k = absurd (
        clash q frame pages m₂ m' rest used i
          (k ∙ sym (subst (λ n. frame_of m' n ≡ some (f, heap_flags)) e h) ∙ here))
    apart_more p q f (inr i) (inl e) h k = absurd (
        clash p frame pages m₂ m' rest used i
          (h ∙ sym (subst (λ n. frame_of m' n ≡ some (f, heap_flags)) e k) ∙ here))

    more : HeapMapped (page ∷ pages) m m'
    more = record {
      each = (
        record { frame = frame; entry = here; unused = given.unused; used = rest.taken frame used },
        All-imp
            (λ q has. record {
              frame = has.frame;
              entry = has.entry;
              unused = λ before. has.unused (mapped.taken has.frame (given.taken has.frame before));
              used = has.used;
            })
            pages rest.each,
      );
      apart = apart_more;
      elsewhere = λ q out.
          rest.elsewhere q (λ i. out (inr i))
          ∙ mapped.elsewhere q (λ e. out (inl e))
          ∙ given.tables q;
      taken = λ f before. rest.taken f (mapped.taken f (given.taken f before));
      free = λ q out h.
          rest.free q (λ i. out (inr i)) (mapped.free q (λ e. out (inl e)) (given.free q h));
      counted = omega (arith, rest.counted, mapped.counted, given.counted);
    }

  still_free :
      (page frame : ℕ) (pages : List ℕ) (m m₁ m₂ : Machine)
      → Given left IsTaken IsFree frame_of frame m m₁
      → Mapped left IsTaken IsFree frame_of page frame heap_flags m₁ m₂
      → ¬ IsIn page pages
      → All (IsFree m) pages
      → All (IsFree m₂) pages
  still_free page frame [] m m₁ m₂ given mapped fresh h = tt
  still_free page frame (q ∷ pages) m m₁ m₂ given mapped fresh h = (
    mapped.free q (λ e. fresh (inl (sym e))) (given.free q h.0),
    still_free page frame pages m m₁ m₂ given mapped (λ i. fresh (inr i)) h.1,
  )

  pub for_each-HeapMapped :
      (pages : List ℕ) (m : Machine)
      → All (IsFree m) pages
      → IsDistinct pages
      → 4 * length pages ≤ left m
      → (m' : Machine) × (for_each (map_heap_page mapper) pages m ≡ some m') × HeapMapped pages m m'
  unfolding for_each
  for_each-HeapMapped [] m free distinct enough = (
    m,
    refl,
    record {
      each = tt;
      apart = λ p q f i j h k. absurd i;
      elsewhere = λ q out. refl;
      taken = λ f before. before;
      free = λ q out h. h;
      counted = omega arith;
    },
  )
  for_each-HeapMapped (page ∷ pages) m free distinct enough =
      let (frame, m₁, m₂, e, given, mapped) = heap_step page m free.0 (omega arith) in
      let (m', e', rest) =
        for_each-HeapMapped pages m₂
          (still_free page frame pages m m₁ m₂ given mapped distinct.0 free.1) distinct.1
          (omega (arith, given.counted, mapped.counted)) in
      (m', rw (e, for_each) e', more page frame pages m m₁ m₂ m' given mapped rest distinct.0)
