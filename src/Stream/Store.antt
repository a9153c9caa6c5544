-- ===== src/Stream/Store.antt =====
-- stream/store.ts: the store. Its state is the tree of files below the store's directory, and the
-- projection of browser changes that the process keeps in memory. Files are read back as they were
-- written: JSON is not modelled, and a write is atomic. A method is an action of `Exec`: it gives a
-- result, or throws faults, and the state it leaves behind either way.
pub mod Files
pub mod Grows
pub mod Reads
pub mod Post
pub mod Cursor
pub mod Capture
pub mod Hold
pub mod Methods
pub mod Steps
pub mod Reply
pub mod Thread
use carbon_runtime.Common.{
  ℕ, ◌+◌, Bool, true, false, not, ◌&&◌, ◌||◌, List, [], ◌∷◌, ◌++◌, Option, none, some, or_else, any,
  Text, text, text_eq, text_eq_iff, text_lt, starts_with, ltb, ◌==◌, if◌then◌else◌, lookup, put,
  Key, ◌↔◌, ◌≡◌, arith,
}
use carbon_runtime.Stream.Platform.{Node}
use carbon_runtime.Stream.Fault.{
  Fault, fault, name, Result, ok, err, broken, record_misplaced, cursor_kind_unknown,
}
use carbon_runtime.Stream.Json.{Json}
use carbon_runtime.Stream.Validate.{Schema}
use carbon_runtime.Stream.Encode.{component_faults, encode_component}
use carbon_runtime.Stream.Paths.{RecordPath, record_path, path_key, text_key}
use carbon_runtime.Stream.Record.{MessageRecord, Direction, Status, AdapterFields, no_fields}

pub record CursorState : Type 0 where
  pub message : Option Text
  pub revision : Option Text

pub record ReplyRequest : Type 0 where
  pub request_id : Text
  pub status : Status
  pub conversation_id : Text
  pub message_id : Text
  pub revision : ℕ
  pub chunk_ids : List Text

-- A line of index.jsonl, less the time it was written.
pub record IndexEntry : Type 0 where
  pub seq : ℕ
  pub message_id : Text
  pub revision : ℕ
  pub conversation_id : Text
  pub source : Text
  pub direction : Direction
  pub historical : Bool
  pub file : RecordPath

pub data ChangeKind : Type 0 where
  capture_change state_change : ChangeKind

-- What a browser listener is told.
pub record BrowserEvent : Type 0 where
  pub kind : ChangeKind
  pub conversation_id : Text
  pub direction : Direction
  pub message_id : Text
  pub revision : ℕ

pub record Identity : Type 0 where
  pub conversation_id : Text
  pub message_id : Text
  pub revision : ℕ

unfoldable pub same_identity : Identity → Identity → Bool
same_identity a b =
    text_eq a.conversation_id b.conversation_id
    && text_eq a.message_id b.message_id
    && a.revision == b.revision

pub same_identity_iff : (a b : Identity) → (same_identity a b ≡ true) ↔ (a ≡ b)
unfolding same_identity
same_identity_iff a b =
    ground (
      arith,
      text_eq_iff a.conversation_id b.conversation_id,
      text_eq_iff a.message_id b.message_id,
    )

instance abbrev pub identity_key : Key Identity
identity_key = record { same = same_identity; same_iff = same_identity_iff }

pub record ProjectionUpdate : Type 0 where
  pub at : Identity
  pub seq : ℕ
  pub cursor : ℕ

pub record EvidenceVersion : Type 0 where
  pub version : ℕ
  pub message_id : Text
  pub revision : ℕ

pub record Store : Type 0 where
  -- The file `seq`, which counts from 0.
  pub seq : ℕ
  -- captures/<C>/<M>[.<n>].json and .raw. (The attachments' files are not modelled.)
  pub captures : List (RecordPath × MessageRecord)
  pub raws : List (RecordPath × List Text)
  pub index : List IndexEntry
  pub cursor_files : List (Text × CursorState)
  pub requests : List (Text × ReplyRequest)
  pub threads : List (Text × List (Text × Json))
  -- In memory: browserProjectionVersion, browserProjectionUpdates, browserEvidenceVersions, and what
  -- the listeners have been told, the latest first.
  pub projection_version : ℕ
  pub projection_updates : List (Identity × ProjectionUpdate)
  pub evidence_versions : List (Text × EvidenceVersion)
  pub told : List BrowserEvent

abbrev pub opened : Store
opened = record {
  seq = 0;
  captures = [];
  raws = [];
  index = [];
  cursor_files = [];
  requests = [];
  threads = [];
  projection_version = 0;
  projection_updates = [];
  evidence_versions = [];
  told = [];
}

abbrev pub Exec : Type 0 → Type 0
Exec A = Store → Result A × Store

-- What follows a result: a thrown error ends the method in the state that it left.
abbrev pub after : {A B : Type 0} → Result A × Store → (A → Exec B) → Result B × Store
after (ok a, s) f = f a s
after (err e, s) f = (err e, s)
after (broken, s) f = (broken, s)

infixl 5 ◌>>=◌ ◌>>◌
abbrev pub ◌>>=◌ : {A B : Type 0} → Exec A → (A → Exec B) → Exec B
◌>>=◌ m f s = after (m s) f

abbrev pub ◌>>◌ : {B : Type 0} → Exec (Unit {0}) → Exec B → Exec B
◌>>◌ m k = m >>= λ _. k

abbrev pub return : {A : Type 0} → A → Exec A
return a s = (ok a, s)

-- A part that reads, or that only decides.
abbrev pub lift : {A : Type 0} → Result A → Exec A
lift r s = (r, s)

abbrev pub reads : {A : Type 0} → (Store → Result A) → Exec A
reads f s = (f s, s)

abbrev pub modify : (Store → Store) → Exec (Unit {0})
modify f s = (ok tt, f s)

-- What the methods take from outside the file: Node, the parsed schema file of a message, the value
-- that a record is to the validator, and the prose of faults joined into one line.
pub record Setup : Type 0 where
  pub node : Node
  pub message_schema : Schema
  pub record_json : MessageRecord → Json
  pub fault_text : List Fault → Text
  -- The value that `park_faults` has for the faults, prose included.
  pub fault_json : List Fault → Json
