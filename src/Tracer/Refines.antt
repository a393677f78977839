-- ===== src/Tracer/Refines.antt =====
-- The subscriber of kernel/src/tracer.rs behaves as a stack of metadata.
use mathlib.Core.List.{map-append}
use zoom_os.Prelude.{
  ℕ, ◌+◌, ◌≤◌, ◌<◌, ◌≡◌, refl, sym, ap, ◌∙◌, subst, inl, inr, Bool, true, map, Bool-cases, Option,
  none, some, some-injective, List, [], ◌∷◌, ◌++◌, arith, length, Option-cases, if◌then◌else◌,
  ◌>>=◌,
}
use zoom_os.Word.{usize_mod}
use zoom_os.Tracer.{
  Metadata, Field, print, pop, last, Logger, metadata_of, enter, exit, current_span,
}
use zoom_os.Tracer.Spec.{
  TraceCall, enters, exits, asks, logs, Tracing, View, answer, trace_call, trace_calls, event_text,
  view_call, view_calls, is_entered, leave, IsHierarchical,
}
use zoom_os.Tracer.Spans.{IsLogger, new_span-Spanned}
use zoom_os.Tracer.Texts.{Reads, Reads-kept, map-pop, last-map, event_lem}

module _ {T : Type 0} (md : Metadata T) where
  -- The subscriber and the stack of metadata say the same.
  pub record Refined (w : Tracing T) (v : View T) : Type 0 where
    pub sound : IsLogger w.logger
    pub reads : Reads md w.logger.spans w.logger.stack v.stack
    pub output : w.output ≡ v.output
    pub answers : w.answers ≡ v.answers

  abbrev Steps : TraceCall T → Tracing T → View T → Type 0
  Steps c w v =
      (w' : Tracing T) × (trace_call md c w ≡ some w')
      × Refined w' (view_call md c v)
      × (w'.logger.next_id ≤ w.logger.next_id + 1)

  enters_lem :
      (m : T) (w : Tracing T) (v : View T)
      → Refined w v
      → w.logger.next_id + 1 < usize_mod
      → Steps (enters m) w v
  unfolding trace_call enter
  enters_lem m w v r room =
      let (id, s, e, spanned) = new_span-Spanned md m w.logger r.sound room in
      let kept : Reads md s.spans s.stack v.stack =
        subst (λ stack. Reads md s.spans stack v.stack) (sym spanned.stack)
          (Reads-kept md w.logger.spans s.spans w.logger.stack v.stack spanned.others r.reads) in
      (
        record w { logger = enter md id s },
        rw (e, trace_call) refl,
        record {
          sound = record {
            sorted = spanned.sound.sorted;
            positive = spanned.sound.positive;
            below = spanned.sound.below;
            next_positive = spanned.sound.next_positive;
          };
          reads =
              map-append (λ i. metadata_of i s.spans) s.stack (id ∷ [])
              ∙ (λ t. kept t ++ (spanned.has t ∷ []))
              ∙ sym (map-append some v.stack (m ∷ []));
          output = r.output;
          answers = r.answers;
        },
        spanned.next,
      )

  found : (m x : T) → some x ≡ some m → md.same m x ≡ true
  found m x e = (md.same_iff m x).1 (sym (some-injective x m e))

  is_entered-last : (m : T) (stack : List T) → last stack ≡ some m → is_entered md m stack ≡ true
  is_entered-last m [] e = absurd (ground (arith, e))
  is_entered-last m (x ∷ []) e = let same : md.same m x ≡ true = found m x e in rw same refl
  is_entered-last m (x ∷ y ∷ stack) e = elim (Bool-cases (md.same m x)) [
    | inl same ↦ rw same refl
    | inr other ↦ rw other (is_entered-last m (y ∷ stack) e)
  ]

  -- The innermost span is the last one.
  leave-last : (m : T) (stack : List T) → last stack ≡ some m → leave md m stack ≡ pop stack
  leave-last m [] e = refl
  leave-last m (x ∷ []) e = let same : md.same m x ≡ true = found m x e in rw same refl
  leave-last m (x ∷ y ∷ stack) e =
      rw (is_entered-last m (y ∷ stack) e) (ap (◌∷◌ x) (leave-last m (y ∷ stack) e))

  exits_lem :
      (m : T) (w : Tracing T) (v : View T)
      → Refined w v
      → last v.stack ≡ some m
      → Steps (exits m) w v
  unfolding trace_call exit
  exits_lem m w v r innermost = (
    record w { logger = exit md w.logger },
    refl,
    record {
      sound = record {
        sorted = r.sound.sorted;
        positive = r.sound.positive;
        below = r.sound.below;
        next_positive = r.sound.next_positive;
      };
      reads =
          map-pop (λ i. metadata_of i w.logger.spans) w.logger.stack
          ∙ ap pop r.reads
          ∙ sym (map-pop some v.stack)
          ∙ sym (ap (map some) (leave-last m v.stack innermost));
      output = r.output;
      answers = r.answers;
    },
    omega arith,
  )

  logs_lem :
      (m : T) (fields : List Field) (try_locked : Bool) (w : Tracing T) (v : View T)
      → Refined w v
      → Steps (logs m fields try_locked) w v
  unfolding trace_call
  logs_lem m fields try_locked w v r = (
    record w {
      output = print (event_text md m fields (if try_locked then v.stack else [])) w.output;
    },
    rw (event_lem md m fields try_locked w.logger v.stack w.output r.reads, trace_call) refl,
    record {
      sound = r.sound;
      reads = r.reads;
      output = ap (print (event_text md m fields (if try_locked then v.stack else []))) r.output;
      answers = r.answers;
    },
    omega arith,
  )

  current_lem :
      (s : Logger T) (ms : List T)
      → Reads md s.spans s.stack ms
      → (c : Option (ℕ × T)) × (current_span md s ≡ some c) × (answer c ≡ last ms)
  unfolding current_span
  current_lem s ms h =
      let both : (last s.stack >>= (λ i. some (metadata_of i s.spans)))
          ≡ (last ms >>= (λ m. some (some m))) =
        sym (last-map (λ i. metadata_of i s.spans) s.stack) ∙ ap last h ∙ last-map some ms in
      elim (Option-cases (last s.stack)) [
        | inl e ↦ (
          none,
          rw (e, current_span) refl,
          elim (Option-cases (last ms)) [
            | inl e' ↦ sym e'
            | inr (m, e') ↦ absurd (ground (arith, both, e, e'))
          ],
        )
        | inr (i, e) ↦ elim (Option-cases (last ms)) [
          | inl e' ↦ absurd (ground (arith, both, e, e'))
          | inr (m, e') ↦
              let has : metadata_of i s.spans ≡ some m =
                some-injective _ _ (ground (arith, both, e, e')) in
              (some (i, m), rw (e, current_span, has) refl, sym e')
        ]
      ]

  asks_lem : (w : Tracing T) (v : View T) → Refined w v → Steps asks w v
  unfolding trace_call
  asks_lem w v r =
      let (c, e, same) = current_lem w.logger v.stack r.reads in
      (
        record w { answers = w.answers ++ (answer c ∷ []) },
        rw (e, trace_call) refl,
        record {
          sound = r.sound;
          reads = r.reads;
          output = r.output;
          answers = λ t. r.answers t ++ (same t ∷ []);
        },
        omega arith,
      )

  -- While ids are left and each span is exited as the innermost one, no run of calls panics, and the
  -- subscriber gives what a stack of metadata gives: the lines of the events for the serial port and
  -- for `vga_print!` with the names of the spans that are entered, unless its lock is taken, and the
  -- current span where one asks.
  pub trace_calls-Refined :
      (calls : List (TraceCall T)) (w : Tracing T) (v : View T)
      → Refined w v
      → IsHierarchical md calls v
      → w.logger.next_id + length calls < usize_mod
      → (w' : Tracing T) × (trace_calls md calls w ≡ some w') × Refined w' (view_calls md calls v)
  unfolding trace_calls
  trace_calls-Refined [] w v r h room = (w, refl, r)
  trace_calls-Refined (enters m ∷ calls) w v r h room =
      let (next, e, refined, counted) = enters_lem m w v r (omega arith) in
      let (after, done, at_end) =
        trace_calls-Refined calls next (view_call md (enters m) v) refined h
          (omega (arith, counted)) in
      (after, rw (e, trace_calls) done, at_end)
  trace_calls-Refined (exits m ∷ calls) w v r h room =
      let (next, e, refined, counted) = exits_lem m w v r h.0 in
      let (after, done, at_end) =
        trace_calls-Refined calls next (view_call md (exits m) v) refined h.1
          (omega (arith, counted)) in
      (after, rw (e, trace_calls) done, at_end)
  trace_calls-Refined (asks ∷ calls) w v r h room =
      let (next, e, refined, counted) = asks_lem w v r in
      let (after, done, at_end) =
        trace_calls-Refined calls next (view_call md asks v) refined h (omega (arith, counted)) in
      (after, rw (e, trace_calls) done, at_end)
  trace_calls-Refined (logs m fields try_locked ∷ calls) w v r h room =
      let (next, e, refined, counted) = logs_lem m fields try_locked w v r in
      let (after, done, at_end) =
        trace_calls-Refined calls next (view_call md (logs m fields try_locked) v) refined h
          (omega (arith, counted)) in
      (after, rw (e, trace_calls) done, at_end)
