-- ===== src/Tracer/Spans.antt =====
-- What `new_span` of kernel/src/tracer.rs keeps of the spans.
use zoom_os.Prelude.{
  ℕ, ◌+◌, ◌≤◌, ◌<◌, ◌≡◌, ◌↔◌, refl, sym, ap, ◌∙◌, subst, inl, inr, true, false, none, some,
  some-injective, List, [], ◌∷◌, ◌++◌, arith, All, All-imp, Bool-cases, Option-cases, ◌==◌,
}
use zoom_os.Word.{usize_mod, wrapping_add}
use zoom_os.Task.{find_task, insert_task}
use zoom_os.Task.Map.{
  IsSorted, find-insert_task, find-insert_other, insert_task-above, insert_task-All,
  insert_task-IsSorted, find_task-All,
}
use zoom_os.Tracer.{Metadata, Logger, metadata_of, find_same, count_same, new_span}

-- The ids of the spans go up from 1 and stay below the next one.
pub record IsLogger {T : Type 0} (s : Logger T) : Type 0 where
  pub sorted : IsSorted s.spans
  pub positive : All (λ t. 1 ≤ t.0) s.spans
  pub below : All (λ t. t.0 < s.next_id) s.spans
  pub next_positive : 1 ≤ s.next_id

metadata_of-All :
    {T : Type 0} (P : ℕ → Type 0) (id : ℕ) (m : T) (spans : List (ℕ × (ℕ × T)))
    → metadata_of id spans ≡ some m
    → All (λ t. P t.0) spans
    → P id
unfolding metadata_of
metadata_of-All P id m spans e h = elim (Option-cases (find_task id spans)) [
  | inl missing ↦ absurd (ground (arith, e, missing))
  | inr (entry, found) ↦ find_task-All P id entry spans found h
]

module _ {T : Type 0} (md : Metadata T) where
  find_same-metadata_of :
      (m : T) (spans : List (ℕ × (ℕ × T))) (id : ℕ)
      → IsSorted spans
      → find_same md m spans ≡ some id
      → metadata_of id spans ≡ some m
  unfolding find_same metadata_of find_task
  find_same-metadata_of m [] id sorted e = absurd (cc)
  find_same-metadata_of m ((k, (count, x)) ∷ spans) id sorted e = elim (Bool-cases (md.same m x)) [
    | inl same ↦
        let here : k ≡ id = some-injective k id (ground (arith, e, same)) in
        let equal : m ≡ x = (md.same_iff m x).0 same in
        let found : (id == k) ≡ true = ground (arith, here) in rw found (ap some (sym equal))
    | inr other ↦
        let later : find_same md m spans ≡ some id = ground (arith, e, other) in
        let ih = find_same-metadata_of m spans id sorted.1 later in
        elim (Option-cases (find_task id spans)) [
          | inl missing ↦ absurd (ground (arith, ih, missing))
          | inr (entry, found) ↦
              let above = find_task-All (λ n. k < n) id entry spans found sorted.0 in
              let differ : (id == k) ≡ false = ground (arith, above) in rw differ ih
        ]
  ]

  count_same-metadata_of :
      (m : T) (id : ℕ) (spans : List (ℕ × (ℕ × T)))
      → metadata_of id (count_same md m spans) ≡ metadata_of id spans
  unfolding count_same metadata_of find_task
  count_same-metadata_of m id [] = refl
  count_same-metadata_of m id ((k, (count, x)) ∷ spans) =
      let ih = count_same-metadata_of m id spans in ground (arith, ih)

  count_same-find_same :
      (m n : T) (spans : List (ℕ × (ℕ × T)))
      → find_same md n (count_same md m spans) ≡ find_same md n spans
  unfolding count_same find_same
  count_same-find_same m n [] = refl
  count_same-find_same m n ((k, (count, x)) ∷ spans) =
      let ih = count_same-find_same m n spans in ground (arith, ih)

  count_same-All :
      (P : ℕ → Type 0) (m : T) (spans : List (ℕ × (ℕ × T)))
      → All (λ t. P t.0) spans
      → All (λ t. P t.0) (count_same md m spans)
  unfolding count_same
  count_same-All P m [] h = tt
  count_same-All P m ((k, (count, x)) ∷ spans) h = elim (Bool-cases (md.same m x)) [
    | inl same ↦ rw same h
    | inr other ↦ rw other (h.0, count_same-All P m spans h.1)
  ]

  count_same-IsSorted :
      (m : T) (spans : List (ℕ × (ℕ × T))) → IsSorted spans → IsSorted (count_same md m spans)
  unfolding count_same
  count_same-IsSorted m [] h = tt
  count_same-IsSorted m ((k, (count, x)) ∷ spans) h = elim (Bool-cases (md.same m x)) [
    | inl same ↦ rw same h
    | inr other ↦
        rw other (count_same-All (λ n. k < n) m spans h.0, count_same-IsSorted m spans h.1)
  ]

  same_self : (m : T) → md.same m m ≡ true
  same_self m = (md.same_iff m m).1 refl

  find_same-last :
      (m : T) (id : ℕ) (spans : List (ℕ × (ℕ × T)))
      → find_same md m spans ≡ none
      → find_same md m (spans ++ ((id, (1, m)) ∷ [])) ≡ some id
  unfolding find_same
  find_same-last m id [] e = rw (same_self m) refl
  find_same-last m id ((k, (count, x)) ∷ spans) e = elim (Bool-cases (md.same m x)) [
    | inl same ↦ absurd (ground (arith, e, same))
    | inr other ↦
        let later : find_same md m spans ≡ none = ground (arith, e, other) in
        rw other (find_same-last m id spans later)
  ]

  find_same-append :
      (x : T) (i id : ℕ) (span : ℕ × T) (spans : List (ℕ × (ℕ × T)))
      → find_same md x spans ≡ some i
      → find_same md x (spans ++ ((id, span) ∷ [])) ≡ some i
  unfolding find_same
  find_same-append x i id span [] e = absurd (cc)
  find_same-append x i id span ((k, (count, y)) ∷ spans) e = elim (Bool-cases (md.same x y)) [
    | inl same ↦ rw same (let here : some k ≡ some i = ground (arith, e, same) in here)
    | inr other ↦
        let later : find_same md x spans ≡ some i = ground (arith, e, other) in
        rw other (find_same-append x i id span spans later)
  ]

  -- What `new_span` leaves: the logger is sound, the span has the metadata and is the first with it,
  -- and the other spans and the stack are as they were.
  pub record Spanned (m : T) (id : ℕ) (s s' : Logger T) : Type 0 where
    pub sound : IsLogger s'
    pub stack : s'.stack ≡ s.stack
    pub next : s'.next_id ≤ s.next_id + 1
    pub first : find_same md m s'.spans ≡ some id
    pub firsts :
        (x : T) (i : ℕ) → find_same md x s.spans ≡ some i → find_same md x s'.spans ≡ some i
    pub has : metadata_of id s'.spans ≡ some m
    pub others : (i : ℕ) (x : T) → metadata_of i s.spans ≡ some x → metadata_of i s'.spans ≡ some x

  module _ (m : T) (s : Logger T) (sound : IsLogger s) where
    known :
        (id : ℕ)
        → find_same md m s.spans ≡ some id
        → Spanned m id s (record s { spans = count_same md m s.spans })
    known id e = record {
      sound = record {
        sorted = count_same-IsSorted m s.spans sound.sorted;
        positive = count_same-All (λ n. 1 ≤ n) m s.spans sound.positive;
        below = count_same-All (λ n. n < s.next_id) m s.spans sound.below;
        next_positive = sound.next_positive;
      };
      stack = refl;
      next = omega arith;
      first = count_same-find_same m m s.spans ∙ e;
      firsts = λ x i h. count_same-find_same m x s.spans ∙ h;
      has = count_same-metadata_of m id s.spans ∙ find_same-metadata_of m s.spans id sound.sorted e;
      others = λ i x h. count_same-metadata_of m i s.spans ∙ h;
    }

    unknown :
        s.next_id + 1 < usize_mod
        → find_same md m s.spans ≡ none
        → Spanned m s.next_id s (record s {
          spans = insert_task s.next_id (1, m) s.spans;
          next_id = wrapping_add s.next_id 1;
        })
    unfolding metadata_of
    unknown room e = record {
      sound = record {
        sorted = insert_task-IsSorted s.next_id (1, m) s.spans sound.sorted;
        positive =
            insert_task-All (λ n. 1 ≤ n) s.next_id (1, m) s.spans sound.next_positive
              sound.positive;
        below =
            insert_task-All (λ n. n < wrapping_add s.next_id 1) s.next_id (1, m) s.spans
              (omega arith) (All-imp (λ t h. omega (arith, h)) s.spans sound.below);
        next_positive = omega arith;
      };
      stack = refl;
      next = omega arith;
      first =
          rw (insert_task-above s.next_id (1, m) s.spans sound.below)
            (find_same-last m s.next_id s.spans e);
      firsts = λ x i h.
          rw (insert_task-above s.next_id (1, m) s.spans sound.below)
            (find_same-append x i s.next_id (1, m) s.spans h);
      has = rw (find-insert_task s.next_id (1, m) s.spans) refl;
      others = λ i x h. elim (Option-cases (find_task i s.spans)) [
        | inl missing ↦ absurd (ground (arith, h, missing))
        | inr (entry, found) ↦
            let lt = find_task-All (λ n. n < s.next_id) i entry s.spans found sound.below in
            rw (find-insert_other s.next_id i (1, m) s.spans (omega (arith, lt))) h
      ];
    }

    pub new_span-Spanned :
        s.next_id + 1 < usize_mod
        → (id : ℕ) × (s' : Logger T) × (new_span md m s ≡ some (id, s')) × Spanned m id s s'
    unfolding new_span
    new_span-Spanned room = elim (Option-cases (find_same md m s.spans)) [
      | inr (id, e) ↦
          let pos =
            metadata_of-All (λ n. 1 ≤ n) id m s.spans
              (find_same-metadata_of m s.spans id sound.sorted e) sound.positive in
          let real : (id == 0) ≡ false = ground (arith, pos) in
          (
            id,
            record s { spans = count_same md m s.spans },
            rw (e, new_span, real) refl,
            known id e,
          )
      | inl e ↦
          let real : (s.next_id == 0) ≡ false = ground (arith, sound.next_positive) in
          (
            s.next_id,
            record s {
              spans = insert_task s.next_id (1, m) s.spans;
              next_id = wrapping_add s.next_id 1;
            },
            rw (e, new_span, real) refl,
            unknown room e,
          )
    ]

  -- Of two spans made one after the other, each stands under its id with its metadata, and the ids are
  -- the same exactly when the metadata are, while ids are left.
  pub new_span-same :
      (m n : T) (s : Logger T)
      → IsLogger s
      → s.next_id + 2 < usize_mod
      → (a : ℕ) × (b : ℕ) × (s₁ : Logger T) × (s₂ : Logger T) × (new_span md m s ≡ some (a, s₁))
        × (new_span md n s₁ ≡ some (b, s₂))
        × ((a ≡ b) ↔ (m ≡ n))
        × (metadata_of a s₂.spans ≡ some m)
        × (metadata_of b s₂.spans ≡ some n)
  new_span-same m n s sound room =
      let (a, s₁, e, first) = new_span-Spanned m s sound (omega arith) in
      let (b, s₂, e', second) = new_span-Spanned n s₁ first.sound (omega (arith, first.next)) in
      let has_a = second.others a m first.has in
      let again = second.firsts m a first.first in
      (
        a,
        b,
        s₁,
        s₂,
        e,
        e',
        (
          λ equal.
              some-injective m n
                (sym has_a ∙ subst (λ i. metadata_of i s₂.spans ≡ some n) (sym equal) second.has),
          λ equal.
              some-injective a b
                (sym again ∙ ap (λ (x : T). find_same md x s₂.spans) equal ∙ second.first),
        ),
        has_a,
        second.has,
      )
