-- ===== src/Tracer/Tests.antt =====
-- Runs of the subscriber of kernel/src/tracer.rs.
use zoom_os.Prelude.{ℕ, ◌≡◌, refl, true, false, some, List, [], ◌∷◌, arith, ◌==◌, ==_iff}
use zoom_os.Task.{find_task, insert_task}
use zoom_os.Tracer.{
  Metadata, Output, Logger, metadata_of, new_span, find_same, count_same, enter, exit, current_span,
  event, print_rest, print_stack, record_debug, record_fields,
}
use zoom_os.Tracer.Spec.{TraceCall, Tracing, View, trace_call, trace_calls, view_calls}
use zoom_os.Tracer.Spans.{IsLogger}
use zoom_os.Tracer.Refines.{Refined, trace_calls-Refined}

-- A number names itself.
abbrev letters : Metadata ℕ
letters = record {
  same = λ a b. a == b;
  same_iff = ==_iff;
  name = λ m. m ∷ [];
  level = λ m. b'I' ∷ [];
  target = λ m. b'k' ∷ [];
}

abbrev no_spans : Logger ℕ
no_spans = record { spans = []; stack = []; next_id = 1 }

no_spans-IsLogger : IsLogger no_spans
no_spans-IsLogger = record { sorted = tt; positive = tt; below = tt; next_positive = omega arith }

abbrev silent : Output
silent = record { serial = []; for_screen = []; should_use_screen = false }

abbrev started : Tracing ℕ
started = record { logger = no_spans; output = silent; answers = [] }

abbrev nothing_seen : View ℕ
nothing_seen = record { stack = []; output = silent; answers = [] }

-- Two spans, one of them twice, and an event inside them.
abbrev nested : List (TraceCall ℕ)
nested =
    TraceCall.enters b'a'
    ∷ TraceCall.enters b'b'
    ∷ TraceCall.logs b'x' (record { name = []; value = b'h' ∷ []; is_message = true } ∷ []) true
    ∷ TraceCall.exits b'b'
    ∷ TraceCall.enters b'a'
    ∷ TraceCall.asks
    ∷ []

-- "[I] a::b: k: h \n"
nested_runs :
    trace_calls letters nested started
    ≡ some (record {
      logger = record {
        spans = (1, (2, b'a')) ∷ (2, (1, b'b')) ∷ [];
        stack = 1 ∷ 1 ∷ [];
        next_id = 3;
      };
      output = record silent {
        serial =
            b'[' ∷ b'I' ∷ b']' ∷ b' ' ∷ b'a' ∷ b':' ∷ b':' ∷ b'b' ∷ b':' ∷ b' ' ∷ b'k' ∷ b':' ∷ b' '
            ∷ b'h' ∷ b' ' ∷ b'\n' ∷ [];
      };
      answers = some b'a' ∷ [];
    })
unfolding trace_calls trace_call new_span find_same count_same enter exit current_span event
    print_rest print_stack record_debug record_fields metadata_of find_task insert_task
nested_runs = refl

trace_calls-Refined_example :
    (w' : Tracing ℕ) × (trace_calls letters nested started ≡ some w')
    × Refined letters w' (view_calls letters nested nothing_seen)
trace_calls-Refined_example =
    trace_calls-Refined letters nested started nothing_seen
      (record { sound = no_spans-IsLogger; reads = refl; output = refl; answers = refl }) (refl, tt)
      (omega arith)
