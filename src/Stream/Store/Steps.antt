-- ===== src/Stream/Store/Steps.antt =====
-- The whole life of a store: a sequence of calls of its methods, each with whatever arguments, each
-- allowed to throw.
use carbon_runtime.Common.{
  keys, Bool, true, false, ◌||◌, none, is_some, ◌≡◌, refl, List, [], ◌∷◌, Option, some, Text,
  lookup,
}
use carbon_runtime.Stream.Fault.{Fault}
use carbon_runtime.Stream.Json.{Json}
use carbon_runtime.Stream.Paths.{RecordPath, path_key}
use carbon_runtime.Stream.Record.{MessageRecord, MessageDisposition, Status}
use carbon_runtime.Stream.Store.{Store, Setup, opened}
use carbon_runtime.Stream.Store.Cursor.{CursorKind, advance_cursor}
use carbon_runtime.Stream.Store.Cursor.Monotone.{advance_cursor-KeepsRecords}
use carbon_runtime.Stream.Store.Capture.{
  CaptureOptions, capture, park, park_failed, annotate, set_disposition,
}
use carbon_runtime.Stream.Store.Capture.Effect.{capture-Grows, set_disposition-Grows}
use carbon_runtime.Stream.Store.Hold.{ReleaseOptions, release, complete_release}
use carbon_runtime.Stream.Store.Reply.{reply, settle_delivery, release_held_reply, Settlement}
use carbon_runtime.Stream.Store.Methods.{
  park-Grows, park_failed-Grows, annotate-Grows, release-Grows, complete_release-Grows, reply-Grows,
  settle_delivery-Grows, release_held_reply-Grows,
}
use carbon_runtime.Stream.Store.Grows.{Grows, Grows-trans, Grows-same, Grown, IsIndexed, Noted}
use carbon_runtime.Stream.Spread.{last_of}

-- One call of a method.
pub data Call : Type 0 where
  call_capture : MessageRecord → CaptureOptions → Call
  call_park : MessageRecord → Text → CaptureOptions → Call
  call_park_failed : MessageRecord → List Fault → Option Text → Call
  call_annotate : MessageRecord → List (Text × Json) → Call
  call_set_disposition : MessageRecord → MessageDisposition → Call
  call_advance_cursor : Text → CursorKind → Text → Call
  call_release : MessageRecord → ReleaseOptions → Call
  call_complete_release : MessageRecord → Text → Call
  call_reply : MessageRecord → Status → Call
  call_settle_delivery : Text → Status → Settlement → Call
  call_release_held_reply : Text → Call

-- The store that the call leaves, whether it returns or throws.
unfoldable pub run : Setup → Call → Store → Store
run setup (call_capture r options) s = (capture setup r options s).1
run setup (call_park r reason options) s = (park setup r reason options s).1
run setup (call_park_failed r faults reason) s = (park_failed setup r faults reason s).1
run setup (call_annotate r fields) s = (annotate setup.node r fields s).1
run setup (call_set_disposition r d) s = (set_disposition setup.node r d s).1
run setup (call_advance_cursor c kind p) s = (advance_cursor setup.node c kind p s).1
run setup (call_release r options) s = (release setup.node r options s).1
run setup (call_complete_release r at) s = (complete_release setup.node r at s).1
run setup (call_reply r status) s = (reply setup r status s).1
run setup (call_settle_delivery q status extra) s = (settle_delivery setup.node q status extra s).1
run setup (call_release_held_reply q) s = (release_held_reply setup.node q s).1

unfoldable pub run_all : Setup → List Call → Store → Store
run_all setup [] s = s
run_all setup (c ∷ calls) s = run_all setup calls (run setup c s)

-- Whether a call, or one of several, is an annotation with a field of this name.
abbrev noted_by : Text → Call → Bool
noted_by name (call_annotate r fields) = is_some (last_of name fields)
noted_by name _ = false

abbrev noted_in : Text → List Call → Bool
noted_in name [] = false
noted_in name (c ∷ calls) = noted_by name c || noted_in name calls

abbrev pub annotations : List Call → Noted
annotations calls = record { noted = λ name. noted_in name calls }

nor_both : (a b : Bool) → (a || b) ≡ false → (a ≡ false) × (b ≡ false)
nor_both true b h = cc
nor_both false b h = (refl, h)

unnoted : {A : Type 0} (o : Option A) → is_some o ≡ false → o ≡ none
unnoted none h = refl
unnoted (some v) h = cc

module _ ⦃notes : Noted⦄ where
  -- Every call, whether it returns or throws, keeps the records, what arrived in them, and the index.
  run-Grows :
      (setup : Setup) (c : Call) (s : Store)
      → ((name : Text) → notes.noted name ≡ false → noted_by name c ≡ false)
      → Grows s (run setup c s)
  unfolding run
  run-Grows setup (call_capture r options) s free = capture-Grows setup r options s
  run-Grows setup (call_park r reason options) s free = park-Grows setup r reason options s
  run-Grows setup (call_park_failed r faults reason) s free =
      park_failed-Grows setup r faults reason s
  run-Grows setup (call_annotate r fields) s free =
      annotate-Grows setup.node r fields s (λ name n. unnoted _ (free name n))
  run-Grows setup (call_set_disposition r d) s free = set_disposition-Grows setup.node r d s
  run-Grows setup (call_advance_cursor c kind p) s free =
      let kept = advance_cursor-KeepsRecords setup.node c kind p s in Grows-same kept.0 kept.1
  run-Grows setup (call_release r options) s free = release-Grows setup.node r options s
  run-Grows setup (call_complete_release r at) s free = complete_release-Grows setup.node r at s
  run-Grows setup (call_reply r status) s free = reply-Grows setup r status s
  run-Grows setup (call_settle_delivery q status extra) s free =
      settle_delivery-Grows setup.node q status extra s
  run-Grows setup (call_release_held_reply q) s free = release_held_reply-Grows setup.node q s

  run_all-Grows :
      (setup : Setup) (calls : List Call) (s : Store)
      → ((name : Text) → notes.noted name ≡ false → noted_in name calls ≡ false)
      → Grows s (run_all setup calls s)
  unfolding run_all
  run_all-Grows setup [] s free = Grows-same refl refl
  run_all-Grows setup (c ∷ calls) s free =
      Grows-trans (run-Grows setup c s (λ name n. (nor_both _ _ (free name n)).0))
        (run_all-Grows setup calls (run setup c s) (λ name n. (nor_both _ _ (free name n)).1))

-- Whatever methods are called, in whatever order, returning or throwing: a record that is captured
-- stays at its path. All its fields stay as they are but for the disposition, the release, the
-- delivery, the attachments and the adapter's fields; the attachments keep those that they had
-- first, in their order; and each of the adapter's fields keeps its value, or stays absent, but for
-- park_reason, park_faults, browser_event_seq and model_effect and those that an annotate of
-- the calls names.
pub run_all-Kept :
    (setup : Setup) (calls : List Call) (s : Store) (place : RecordPath) (e : MessageRecord)
    → lookup place s.captures ≡ some e
    → (e' : MessageRecord) × (lookup place (run_all setup calls s).captures ≡ some e')
      × Grown ⦃notes = annotations calls⦄ e e'
run_all-Kept setup calls s place e there =
    (run_all-Grows ⦃notes = annotations calls⦄ setup calls s (λ name n. n)).kept place e there

-- The index of a store that was opened empty names, after any calls, the paths of the captured
-- records, each once for its entry and in the order in which they were first written.
pub run_all-IsIndexed : (setup : Setup) (calls : List Call) → IsIndexed (run_all setup calls opened)
run_all-IsIndexed setup calls =
    (run_all-Grows ⦃notes = annotations calls⦄ setup calls opened (λ name n. n)).keeps_index
      (record { indexed = unfold keys in refl })
