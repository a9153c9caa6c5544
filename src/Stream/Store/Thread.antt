-- ===== src/Stream/Store/Thread.antt =====
-- stream/store.ts: the thread files, `threads/<unit>.json`, one for each unit of work.
use carbon_runtime.Common.{
  ◌≡◌, ◌≢◌, refl, sym, inl, inr, none, Bool-cases, text_eq, text_eq_iff, if◌then◌else◌, ap, ◌∙◌,
  List, [], ◌∷◌, Option, some, Text, text, lookup, put, lookup-put_self, lookup-put_other,
}
use carbon_runtime.Stream.Platform.{Node}
use carbon_runtime.Stream.Fault.{name, Result, ok, err, broken, refuse_all}
use carbon_runtime.Stream.Json.{Json, str}
use carbon_runtime.Stream.Encode.{component_faults, encode_component}
use carbon_runtime.Stream.Paths.{text_key}
use carbon_runtime.Stream.Store.{Store, Exec}
use carbon_runtime.Stream.Spread.{overlay, over, last_of, lookup-overlay}

unfoldable pub thread_file : Node → Text → Result Text
thread_file node unit_id =
    refuse_all (component_faults node (name (text "unit_id")) (some unit_id))
      (ok (encode_component node unit_id))

-- `{ unit_id, ...content }`: the unit, unless the content has a `unit_id` of their own.
unfoldable pub thread_of : Text → List (Text × Json) → List (Text × Json)
thread_of unit_id content = overlay ((text "unit_id", str unit_id) ∷ []) content

unfoldable pub write_thread_at : Result Text → List (Text × Json) → Exec Unit
write_thread_at (ok file) thread s = (ok tt, record s { threads = put file thread s.threads })
write_thread_at (err faults) thread s = (err faults, s)
write_thread_at broken thread s = (broken, s)

unfoldable pub write_thread : Node → Text → List (Text × Json) → Exec Unit
unfolding write_thread_at thread_of
write_thread node unit_id content =
    write_thread_at (thread_file node unit_id) (thread_of unit_id content)

unfoldable pub read_thread_at : Result Text → Store → Result (Option (List (Text × Json)))
read_thread_at (ok file) s = ok (lookup file s.threads)
read_thread_at (err faults) s = err faults
read_thread_at broken s = broken

-- `none` is null.
unfoldable pub read_thread : Node → Text → Store → Result (Option (List (Text × Json)))
unfolding read_thread_at
read_thread node unit_id s = read_thread_at (thread_file node unit_id) s

-- A thread that was written: every name has the last value of the content, and `unit_id` the unit
-- where the content has none; no other name is there.
pub record IsThread (unit_id : Text) (content thread : List (Text × Json)) : Type 0 where
  pub given : (key : Text) (v : Json) → last_of key content ≡ some v → lookup key thread ≡ some v
  pub unit :
      last_of (text "unit_id") content ≡ none → lookup (text "unit_id") thread ≡ some (str unit_id)
  pub no_more :
      (key : Text) → last_of key content ≡ none → key ≢ text "unit_id" → lookup key thread ≡ none

thread_of-lookup :
    (unit_id key : Text) (content : List (Text × Json))
    → lookup key (thread_of unit_id content)
      ≡ over
          (last_of key content)
          (if text_eq (text "unit_id") key then some (str unit_id) else none)
unfolding thread_of lookup
thread_of-lookup unit_id key content = lookup-overlay key _ content

thread_of-IsThread :
    (unit_id : Text) (content : List (Text × Json))
    → IsThread unit_id content (thread_of unit_id content)
unfolding text_eq
thread_of-IsThread unit_id content = record {
  given = λ key v e. thread_of-lookup unit_id key content ∙ rw e refl;
  unit = λ e. thread_of-lookup unit_id (text "unit_id") content ∙ rw e refl;
  no_more = λ key e apart. elim (Bool-cases (text_eq (text "unit_id") key)) [
    | inl b ↦ elim (apart (sym ((text_eq_iff (text "unit_id") key).0 b))) [ ]
    | inr b ↦ thread_of-lookup unit_id key content ∙ rw (e, b) refl
  ];
}

-- What a write of a thread does to every unit's thread.
pub record IsThreadWritten (node : Node) (unit_id : Text) (content : List (Text × Json)) (s : Store)
    : Type 0 where
  pub returns : (write_thread node unit_id content s).0 ≡ ok tt
  pub thread : List (Text × Json)
  pub there : read_thread node unit_id (write_thread node unit_id content s).1 ≡ ok (some thread)
  pub thread_lem : IsThread unit_id content thread
  pub others :
      (other : Text)
      → thread_file node unit_id ≢ thread_file node other
      → read_thread node other (write_thread node unit_id content s).1 ≡ read_thread node other s

read_other :
    (file : Text) (r : Result Text) (thread : List (Text × Json)) (s : Store)
    → ok file ≢ r
    → read_thread_at r (record s { threads = put file thread s.threads }) ≡ read_thread_at r s
unfolding read_thread_at
read_other file (ok other) thread s apart =
    rw (lookup-put_other file other thread s.threads (λ e. apart (ap ok e))) refl
read_other file (err faults) thread s apart = refl
read_other file broken thread s apart = refl

-- A thread that is written under a unit without a fault in its name is read back: every name of the
-- content has its last value, `unit_id` is the unit unless the content has one of its own, and no
-- other name is there. Every unit with another file reads what it read before.
pub write_thread-IsThreadWritten :
    (node : Node) (unit_id : Text) (content : List (Text × Json)) (s : Store) (file : Text)
    → thread_file node unit_id ≡ ok file
    → IsThreadWritten node unit_id content s
unfolding write_thread write_thread_at read_thread read_thread_at
write_thread-IsThreadWritten node unit_id content s file h = record {
  returns = rw h refl;
  thread = thread_of unit_id content;
  thread_lem = thread_of-IsThread unit_id content;
  there = rw h (ap ok (lookup-put_self file (thread_of unit_id content) s.threads));
  others = λ other apart. rw h (read_other file _ _ s (λ e. apart (h ∙ e)));
}
