-- ===== src/Tracer.antt =====
-- kernel/src/tracer.rs: the subscriber that keeps the spans and prints the events. What a span or an
-- event is about comes from the tracing package.
pub mod Spans
pub mod Spec
pub mod Texts
pub mod Refines
mod Tests
use zoom_os.Prelude.{
  ℕ, ◌+◌, ◌%◌, ◌≡◌, ◌↔◌, Bool, true, false, Option, none, some, List, [], ◌∷◌, ◌++◌, ◌==◌,
  if◌then◌else◌, ◌>>=◌,
}
use zoom_os.Word.{wrapping_add}
use zoom_os.Task.{find_task, insert_task}

-- Bytes of text
abbrev pub Text : Type 0
Text = List ℕ

-- `&'static Metadata`, compared by the package's `PartialEq`
pub record Metadata (T : Type 0) : Type 0 where
  pub same : T → T → Bool
  pub same_iff : (a b : T) → (same a b ≡ true) ↔ (a ≡ b)
  pub name : T → Text
  pub level : T → Text
  pub target : T → Text

-- A field of an event, with its value as the formatter prints it; `is_message` is
-- `field.name() == "message"`.
pub record Field : Type 0 where
  pub name : Text
  pub value : Text
  pub is_message : Bool

-- The text for the serial port and the text that `vga_print!` is called with, whether it shows it or
-- not, and `SHOULD_USE_SCREEN`
pub record Output : Type 0 where
  pub serial : Text
  pub for_screen : Text
  pub should_use_screen : Bool

-- `print!`, and `vga_print!` where the screen is used
abbrev pub print : Text → Output → Output
print text o = record o {
  serial = o.serial ++ text;
  for_screen = if o.should_use_screen then o.for_screen ++ text else o.for_screen;
}

-- `": "`, `"::"`, `"[{level}] "`, `"{value:?} "` and `"{} = {:?}, "`
abbrev pub colon : Text
colon = b':' ∷ b' ' ∷ []

abbrev pub separator : Text
separator = b':' ∷ b':' ∷ []

abbrev pub level_tag : Text → Text
level_tag level = b'[' ∷ (level ++ (b']' ∷ b' ' ∷ []))

unfoldable pub record_debug : Field → Output → Output
record_debug f o =
    if f.is_message
    then print (f.value ++ (b' ' ∷ [])) o
    else print (f.name ++ ((b' ' ∷ b'=' ∷ b' ' ∷ []) ++ (f.value ++ (b',' ∷ b' ' ∷ [])))) o

unfoldable pub record_fields : List Field → Output → Output
record_fields [] o = o
record_fields (f ∷ fields) o = record_fields fields (record_debug f o)

-- `Vec::pop` and `slice::last`
abbrev pub pop {ℓ} : {A : Type ℓ} → List A → List A
pop [] = []
pop (x ∷ []) = []
pop (x ∷ y ∷ xs) = x ∷ pop (y ∷ xs)

abbrev pub last {ℓ} : {A : Type ℓ} → List A → Option A
last [] = none
last (x ∷ []) = some x
last (x ∷ y ∷ xs) = last (y ∷ xs)

-- `SimpleLoggerInner` and the static `ID`. A span has a count and its metadata.
pub record Logger (T : Type 0) : Type 0 where
  pub spans : List (ℕ × (ℕ × T))
  pub stack : List ℕ
  pub next_id : ℕ

-- `span::Id::from_u64`, which panics at 0
abbrev pub from_u64 : {T : Type 0} → ℕ → Logger T → Option (ℕ × Logger T)
from_u64 id s = if id == 0 then none else some (id, s)

-- `inner.spans[id].1`, which panics where there is none
unfoldable pub metadata_of : {T : Type 0} → ℕ → List (ℕ × (ℕ × T)) → Option T
metadata_of id spans = find_task id spans >>= λ span. some span.1

module _ {T : Type 0} (md : Metadata T) where
  -- The loop of `new_span`: the first span with the metadata, and its count.
  unfoldable pub find_same : T → List (ℕ × (ℕ × T)) → Option ℕ
  find_same metadata [] = none
  find_same metadata ((id, (count, span)) ∷ spans) =
      let later = find_same metadata spans in if md.same metadata span then some id else later

  unfoldable pub count_same : T → List (ℕ × (ℕ × T)) → List (ℕ × (ℕ × T))
  count_same metadata [] = []
  count_same metadata ((id, (count, span)) ∷ spans) =
      let later = count_same metadata spans in
      if md.same metadata span
      then (id, (wrapping_add count 1, span)) ∷ spans
      else (id, (count, span)) ∷ later

  unfoldable pub new_span : T → Logger T → Option (ℕ × Logger T)
  new_span metadata s = elim (find_same metadata s.spans) [
    | some id ↦ from_u64 id (record s { spans = count_same metadata s.spans })
    | none ↦ from_u64 s.next_id (record s {
      spans = insert_task s.next_id (1, metadata) s.spans;
      next_id = wrapping_add s.next_id 1;
    })
  ]

  unfoldable pub enter : ℕ → Logger T → Logger T
  enter span s = record s { stack = s.stack ++ (span ∷ []) }

  unfoldable pub exit : Logger T → Logger T
  exit s = record s { stack = pop s.stack }

  -- The inner `none` is `Current::none`.
  unfoldable pub current_span : Logger T → Option (Option (ℕ × T))
  current_span s = elim (last s.stack) [
    | some id ↦ metadata_of id s.spans >>= λ m. some (some (id, m))
    | none ↦ some none
  ]

  unfoldable pub print_rest : List (ℕ × (ℕ × T)) → List ℕ → Output → Option Output
  print_rest spans [] o = some o
  print_rest spans (n ∷ stack) o =
      metadata_of n spans >>= λ m. print_rest spans stack (print (separator ++ md.name m) o)

  unfoldable pub print_stack : List (ℕ × (ℕ × T)) → List ℕ → Output → Option Output
  print_stack spans [] o = some o
  print_stack spans (start ∷ stack) o = do
    m ← metadata_of start spans
    o ← print_rest spans stack (print (md.name m) o)
    some (print colon o)

  -- `try_locked` is whether `try_lock` got the lock.
  unfoldable pub event : T → List Field → Bool → Logger T → Output → Option Output
  event metadata fields try_locked s o = do
    let tagged = print (level_tag (md.level metadata)) o
    o ← if try_locked then print_stack s.spans s.stack tagged else some tagged
    some (print (b'\n' ∷ []) (record_fields fields (print (md.target metadata ++ colon) o)))
