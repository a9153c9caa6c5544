-- ===== src/Stream/Store/Hold.antt =====
-- stream/store.ts: the operator's hold on a conversation, and the release of a record to the agent.
pub mod Allowed
use carbon_runtime.Common.{
  ℕ, ◌+◌, Bool, true, false, not, ◌&&◌, List, [], ◌∷◌, ◌++◌, Option, none, some, or_else, Text,
  text, ltb, if◌then◌else◌, lookup,
}
use carbon_runtime.Stream.Platform.{Node}
use carbon_runtime.Stream.Fault.{
  Fault, fault, name, Result, ok, err, broken, refuse_all, historical_never_releases,
  parked_never_releases, conversation_held, capture_before_release,
}
use carbon_runtime.Stream.Paths.{RecordPath, path_key}
use carbon_runtime.Stream.Json.{str}
use carbon_runtime.Stream.Spread.{spread_on}
use carbon_runtime.Stream.Record.{MessageRecord, Hold, Release, is_parked, no_fields}
use carbon_runtime.Stream.Store.{Store, Exec, ◌>>=◌, ◌>>◌, lift, reads, return, after}
use carbon_runtime.Stream.Store.Files.{records_in, read_at, path_of, rewrite_record, is_browser}

-- When a hold ends: at a time, or never by time alone (`Infinity`).
pub data Deadline : Type 0 where
  at : ℕ → Deadline
  forever : Deadline

larger : ℕ → ℕ → ℕ
larger a b = if ltb a b then b else a

-- One record's say in the loop of `heldUntil`: its hold is absent or has no readable time, does not
-- expire, or ends at a time.
pub data Say : Type 0 where
  nothing : Say
  endless : Say
  ends : ℕ → Say

abbrev deadline_of : Option ℕ → Option ℕ → Say
deadline_of none after_ms = nothing
deadline_of (some set_at) none = endless
deadline_of (some set_at) (some after_ms) = ends (set_at + after_ms)

unfoldable pub say_of : Node → Option Hold → Say
say_of node none = nothing
say_of node (some h) = deadline_of (node.date_parse h.set_at) h.release_after_ms

abbrev pub as_deadline : Option ℕ → Option Deadline
as_deadline none = none
as_deadline (some t) = some (at t)

unfoldable pub held_until_from : Node → Option ℕ → List MessageRecord → Option Deadline
unfolding larger
held_until_from node until [] = as_deadline until
held_until_from node until (r ∷ rs) = elim (say_of node r.hold) [
  | nothing ↦ held_until_from node until rs
  | endless ↦ some forever
  | ends t ↦ held_until_from node (some (larger (or_else until 0) t)) rs
]

unfoldable pub held_until : Node → Text → Store → Result (Option Deadline)
held_until node conversation_id s = elim (records_in node conversation_id s) [
  | ok rs ↦ ok (held_until_from node none rs)
  | err faults ↦ err faults
  | broken ↦ broken
]

-- `until !== null && now < until`.
abbrev pub is_before : ℕ → Option Deadline → Bool
is_before now none = false
is_before now (some (at t)) = ltb now t
is_before now (some forever) = true

unfoldable pub is_held : Node → Text → ℕ → Store → Result Bool
unfolding held_until
is_held node conversation_id now s = elim (held_until node conversation_id s) [
  | ok until ↦ ok (is_before now until)
  | err faults ↦ err faults
  | broken ↦ broken
]

pub record ReleaseOptions : Type 0 where
  pub released_at : Text
  pub thread_id : Text
  pub turn_id : Text
  pub now : ℕ
  pub hold_applies : Bool

abbrev pub when : Bool → Fault → List Fault
when true f = f ∷ []
when false f = []

-- What the record itself says against its release.
unfoldable pub record_faults : MessageRecord → List Fault
record_faults r =
    when r.historical (fault historical_never_releases (name r.message_id))
    ++ when (is_parked r.disposition) (fault parked_never_releases (name r.message_id))

-- Whether the hold is asked about at all is the caller's say.
unfoldable pub held_now : Node → MessageRecord → ReleaseOptions → Store → Result Bool
held_now node r options s =
    if options.hold_applies then is_held node r.conversation_id options.now s else ok false

abbrev pub is_absent : Option MessageRecord → Bool
is_absent none = true
is_absent (some r) = false

-- All that speaks against the release, and where the record is.
unfoldable pub release_place : Node → MessageRecord → ReleaseOptions → Store → Result RecordPath
unfolding held_now
release_place node r options s = elim (held_now node r options s) [
  | err faults ↦ err faults
  | broken ↦ broken
  | ok held ↦ elim (path_of node r) [
    | err faults ↦ err faults
    | broken ↦ broken
    | ok place ↦
        refuse_all
          (record_faults r
            ++ when held (fault conversation_held (name r.conversation_id))
            ++ when (is_absent (lookup place s.captures))
                (fault capture_before_release (name r.message_id)))
          (ok place)
  ]
]

unfoldable pub release : Node → MessageRecord → ReleaseOptions → Exec MessageRecord
release node r options = do
  place ← reads (release_place node r options)
  on_disk ← reads (read_at node place)
  rewrite_record place (record on_disk {
    release = some (record {
      released_at = options.released_at;
      thread_id = options.thread_id;
      turn_id = options.turn_id;
      completed_at = none;
    });
  })

-- `{ ...on_disk.release, completed_at }`. A release that is not there leaves its other fields out:
-- the model has them as the empty text.
abbrev pub completed : Text → Option Release → Release
completed completed_at none = record {
  released_at = [];
  thread_id = [];
  turn_id = [];
  completed_at = some completed_at;
}
completed completed_at (some r) = record r { completed_at = some completed_at }

-- The record with its release completed; one of the browser is also marked as the model's effect.
unfoldable pub completion : Text → MessageRecord → MessageRecord
completion completed_at on_disk =
    let done = record on_disk { release = some (completed completed_at on_disk.release) } in
    if is_browser on_disk
    then record done {
      adapter_fields =
          spread_on on_disk.adapter_fields ((text "model_effect", str (text "completed")) ∷ []);
    }
    else done

unfoldable pub complete_release : Node → MessageRecord → Text → Exec MessageRecord
complete_release node r completed_at = do
  place ← lift (path_of node r)
  on_disk ← reads (read_at node place)
  rewrite_record place (completion completed_at on_disk)
