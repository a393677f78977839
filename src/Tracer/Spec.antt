-- ===== src/Tracer/Spec.antt =====
-- A run of calls on the subscriber of kernel/src/tracer.rs, and what it means: a stack of metadata
-- with no ids in it.
use zoom_os.Prelude.{
  ℕ, ◌≡◌, Bool, true, false, Option, none, some, List, [], ◌∷◌, ◌++◌, if◌then◌else◌, ◌>>=◌,
}
use zoom_os.Tracer.{
  Text, Metadata, Field, Output, print, colon, separator, level_tag, last, Logger, new_span, enter,
  exit, current_span, event,
}

-- `span!(..)` and its `enter`, the drop of the guard of a span, a question for the current span, and an event.
pub data TraceCall (T : Type 0) : Type 0 where
  enters : T → TraceCall T
  exits : T → TraceCall T
  asks : TraceCall T
  logs : T → List Field → Bool → TraceCall T

pub record Tracing (T : Type 0) : Type 0 where
  pub logger : Logger T
  pub output : Output
  pub answers : List (Option T)

-- The same with a stack of metadata, the outermost first.
pub record View (T : Type 0) : Type 0 where
  pub stack : List T
  pub output : Output
  pub answers : List (Option T)

abbrev pub answer : {T : Type 0} → Option (ℕ × T) → Option T
answer none = none
answer (some (id, m)) = some m

-- What a field prints.
abbrev pub field_text : Field → Text
field_text f =
    if f.is_message
    then f.value ++ (b' ' ∷ [])
    else f.name ++ ((b' ' ∷ b'=' ∷ b' ' ∷ []) ++ (f.value ++ (b',' ∷ b' ' ∷ [])))

abbrev pub fields_text : List Field → Text
fields_text [] = []
fields_text (f ∷ fields) = field_text f ++ fields_text fields

module _ {T : Type 0} (md : Metadata T) where
  unfoldable pub trace_call : TraceCall T → Tracing T → Option (Tracing T)
  trace_call (enters m) w = do
    (id, s) ← new_span md m w.logger
    some (record w { logger = enter md id s })
  trace_call (exits m) w = some (record w { logger = exit md w.logger })
  trace_call asks w = do
    c ← current_span md w.logger
    some (record w { answers = w.answers ++ (answer c ∷ []) })
  trace_call (logs m fields try_locked) w = do
    o ← event md m fields try_locked w.logger w.output
    some (record w { output = o })

  unfoldable pub trace_calls : List (TraceCall T) → Tracing T → Option (Tracing T)
  trace_calls [] w = some w
  trace_calls (c ∷ calls) w = trace_call c w >>= trace_calls calls

  abbrev pub rest_text : List T → Text
  rest_text [] = []
  rest_text (m ∷ stack) = (separator ++ md.name m) ++ rest_text stack

  -- The names of the spans, joined.
  abbrev pub stack_text : List T → Text
  stack_text [] = []
  stack_text (m ∷ stack) = md.name m ++ (rest_text stack ++ colon)

  -- The line of an event.
  abbrev pub event_text : T → List Field → List T → Text
  event_text m fields stack =
      level_tag (md.level m)
      ++ (stack_text stack ++ ((md.target m ++ colon) ++ (fields_text fields ++ (b'\n' ∷ []))))

  abbrev pub is_entered : T → List T → Bool
  is_entered m [] = false
  is_entered m (x ∷ stack) = if md.same m x then true else is_entered m stack

  -- The span that was entered last of those with this metadata leaves the stack, wherever it stands.
  abbrev pub leave : T → List T → List T
  leave m [] = []
  leave m (x ∷ stack) =
      if is_entered m stack then x ∷ leave m stack else if md.same m x then stack else x ∷ stack

  abbrev pub view_call : TraceCall T → View T → View T
  view_call (enters m) v = record v { stack = v.stack ++ (m ∷ []) }
  view_call (exits m) v = record v { stack = leave m v.stack }
  view_call asks v = record v { answers = v.answers ++ (last v.stack ∷ []) }
  view_call (logs m fields try_locked) v = record v {
    output = print (event_text m fields (if try_locked then v.stack else [])) v.output;
  }

  abbrev pub view_calls : List (TraceCall T) → View T → View T
  view_calls [] v = v
  view_calls (c ∷ calls) v = view_calls calls (view_call c v)

  -- Each span is exited while it is the innermost one.
  abbrev pub IsHierarchical : List (TraceCall T) → View T → Type 0
  IsHierarchical [] v = Unit {0}
  IsHierarchical (exits m ∷ calls) v =
      (last v.stack ≡ some m) × IsHierarchical calls (view_call (exits m) v)
  IsHierarchical (enters m ∷ calls) v = IsHierarchical calls (view_call (enters m) v)
  IsHierarchical (asks ∷ calls) v = IsHierarchical calls (view_call asks v)
  IsHierarchical (logs m fields try_locked ∷ calls) v =
      IsHierarchical calls (view_call (logs m fields try_locked) v)
