-- ===== src/Tracer/Texts.antt =====
-- What the events of kernel/src/tracer.rs print.
use mathlib.Core.List.{append-nil, append_assoc}
use zoom_os.Prelude.{
  ℕ, ◌≡◌, refl, sym, ap, ◌∙◌, inl, inr, Bool, true, false, some, List, [], ◌∷◌, ◌++◌, map,
  Bool-cases, if◌then◌else◌, ◌>>=◌,
}
use zoom_os.Tracer.{
  Text, Metadata, Field, Output, print, colon, separator, level_tag, pop, last, Logger, metadata_of,
  event, print_rest, print_stack, record_debug, record_fields,
}
use zoom_os.Tracer.Spec.{field_text, fields_text, rest_text, stack_text, event_text}

print_twice :
    (a b serial screen : Text) (on : Bool)
    → let o : Output = record { serial = serial; for_screen = screen; should_use_screen = on } in
      print b (print a o) ≡ print (a ++ b) o
print_twice a b serial screen true i = record {
  serial = append_assoc serial a b i;
  for_screen = append_assoc screen a b i;
  should_use_screen = true;
}
print_twice a b serial screen false i = record {
  serial = append_assoc serial a b i;
  for_screen = screen;
  should_use_screen = false;
}

-- Texts one after the other are one text.
pub print-print : (a b : Text) (o : Output) → print b (print a o) ≡ print (a ++ b) o
print-print a b o = print_twice a b o.serial o.for_screen o.should_use_screen

print_nothing :
    (serial screen : Text) (on : Bool)
    → let o : Output = record { serial = serial; for_screen = screen; should_use_screen = on } in
      print [] o ≡ o
print_nothing serial screen true i = record {
  serial = append-nil serial i;
  for_screen = append-nil screen i;
  should_use_screen = true;
}
print_nothing serial screen false i = record {
  serial = append-nil serial i;
  for_screen = screen;
  should_use_screen = false;
}

print-nil : (o : Output) → print [] o ≡ o
print-nil o = print_nothing o.serial o.for_screen o.should_use_screen

pub map-pop {ℓ κ} :
    {A : Type ℓ} {B : Type κ} (f : A → B) (xs : List A) → map f (pop xs) ≡ pop (map f xs)
map-pop f [] = refl
map-pop f (x ∷ []) = refl
map-pop f (x ∷ y ∷ xs) = ap (◌∷◌ (f x)) (map-pop f (y ∷ xs))

pub last-map {ℓ κ} :
    {A : Type ℓ} {B : Type κ} (f : A → B) (xs : List A)
    → last (map f xs) ≡ (last xs >>= λ x. some (f x))
last-map f [] = refl
last-map f (x ∷ []) = refl
last-map f (x ∷ y ∷ xs) = last-map f (y ∷ xs)

module _ {T : Type 0} (md : Metadata T) where
  -- The ids of the stack lead to these metadata.
  abbrev pub Reads : List (ℕ × (ℕ × T)) → List ℕ → List T → Type 0
  Reads spans stack ms = map (λ id. metadata_of id spans) stack ≡ map some ms

  pub Reads-kept :
      (spans spans' : List (ℕ × (ℕ × T))) (stack : List ℕ) (ms : List T)
      → ((i : ℕ) (x : T) → metadata_of i spans ≡ some x → metadata_of i spans' ≡ some x)
      → Reads spans stack ms
      → Reads spans' stack ms
  Reads-kept spans spans' [] [] kept h = refl
  Reads-kept spans spans' [] (m ∷ ms) kept h = absurd (cc)
  Reads-kept spans spans' (i ∷ stack) [] kept h = absurd (cc)
  Reads-kept spans spans' (i ∷ stack) (m ∷ ms) kept h =
      let head : metadata_of i spans ≡ some m = cc in
      let tail : Reads spans stack ms = cc in
      let k = kept i m head in let t = Reads-kept spans spans' stack ms kept tail in cc

  record_fields_lem :
      (fields : List Field) (o : Output) → record_fields fields o ≡ print (fields_text fields) o
  unfolding record_fields record_debug
  record_fields_lem [] o = sym (print-nil o)
  record_fields_lem (f ∷ fields) o =
      record_fields_lem fields (record_debug f o)
      ∙ ap (print (fields_text fields)) (field_lem f o)
      ∙ print-print (field_text f) (fields_text fields) o
    where
      field_lem : (f : Field) (o : Output) → record_debug f o ≡ print (field_text f) o
      field_lem f o = elim (Bool-cases f.is_message) [
        | inl message ↦ rw (message, record_debug) refl
        | inr other ↦ rw (other, record_debug) refl
      ]

  print_rest_lem :
      (spans : List (ℕ × (ℕ × T))) (stack : List ℕ) (ms : List T) (o : Output)
      → Reads spans stack ms
      → print_rest md spans stack o ≡ some (print (rest_text md ms) o)
  unfolding print_rest
  print_rest_lem spans [] [] o h = ap some (sym (print-nil o))
  print_rest_lem spans [] (m ∷ ms) o h = absurd (cc)
  print_rest_lem spans (i ∷ stack) [] o h = absurd (cc)
  print_rest_lem spans (i ∷ stack) (m ∷ ms) o h =
      let head : metadata_of i spans ≡ some m = cc in
      let tail : Reads spans stack ms = cc in
      rw (head, print_rest)
        (print_rest_lem spans stack ms (print (separator ++ md.name m) o) tail
          ∙ ap some (print-print (separator ++ md.name m) (rest_text md ms) o))

  print_stack_lem :
      (spans : List (ℕ × (ℕ × T))) (stack : List ℕ) (ms : List T) (o : Output)
      → Reads spans stack ms
      → print_stack md spans stack o ≡ some (print (stack_text md ms) o)
  unfolding print_stack
  print_stack_lem spans [] [] o h = ap some (sym (print-nil o))
  print_stack_lem spans [] (m ∷ ms) o h = absurd (cc)
  print_stack_lem spans (i ∷ stack) [] o h = absurd (cc)
  print_stack_lem spans (i ∷ stack) (m ∷ ms) o h =
      let head : metadata_of i spans ≡ some m = cc in
      let tail : Reads spans stack ms = cc in
      rw (head, print_stack, print_rest_lem spans stack ms (print (md.name m) o) tail)
        (ap some (
          print-print (rest_text md ms) colon (print (md.name m) o)
          ∙ print-print (md.name m) (rest_text md ms ++ colon) o))

  -- The line from the target on.
  abbrev tail : T → List Field → Text
  tail m fields = (md.target m ++ colon) ++ (fields_text fields ++ (b'\n' ∷ []))

  tail_lem :
      (m : T) (fields : List Field) (o : Output)
      → print (b'\n' ∷ []) (record_fields fields (print (md.target m ++ colon) o))
        ≡ print (tail m fields) o
  tail_lem m fields o =
      ap (print (b'\n' ∷ [])) (record_fields_lem fields (print (md.target m ++ colon) o))
      ∙ print-print (fields_text fields) (b'\n' ∷ []) (print (md.target m ++ colon) o)
      ∙ print-print (md.target m ++ colon) (fields_text fields ++ (b'\n' ∷ [])) o

  pub event_lem :
      (m : T) (fields : List Field) (try_locked : Bool) (s : Logger T) (ms : List T) (o : Output)
      → Reads s.spans s.stack ms
      → event md m fields try_locked s o
        ≡ some (print (event_text md m fields (if try_locked then ms else [])) o)
  unfolding event
  event_lem m fields true s ms o h =
      rw (print_stack_lem s.spans s.stack ms (print (level_tag (md.level m)) o) h, event)
        (ap some (
          tail_lem m fields (print (stack_text md ms) (print (level_tag (md.level m)) o))
          ∙ print-print (stack_text md ms) (tail m fields) (print (level_tag (md.level m)) o)
          ∙ print-print (level_tag (md.level m)) (stack_text md ms ++ tail m fields) o))
  event_lem m fields false s ms o h = ap some (
      tail_lem m fields (print (level_tag (md.level m)) o)
      ∙ print-print (level_tag (md.level m)) (tail m fields) o)
