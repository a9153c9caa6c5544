-- ===== src/Adapters/WhatsappLatch.antt =====
-- adapters/whatsapp/latch.ts: the latch that the WhatsApp adapter writes into the directory
-- `channels/` of Runtime.Latch. The disconnect's error is the tree of its fields; `Number` and the
-- text of a value are parameters, and the clock is the time that a caller gives.
pub mod Cleared
mod Tests
use carbon_runtime.Common.{
  ℕ, Bool, true, false, not, ◌==◌, List, [], ◌∷◌, ◌++◌, Option, none, some, Text, text, text_eq,
  if◌then◌else◌, keep, lookup, put,
}
use carbon_runtime.Stream.Platform.{Node}
use carbon_runtime.Stream.Fault.{Result, ok, err, broken, name, refuse_all}
use carbon_runtime.Stream.Json.{Json, truthy, null, integer, str, obj, end, member}
use carbon_runtime.Stream.Encode.{component_faults, encode_component}
use carbon_runtime.Stream.Paths.{text_key}
use carbon_runtime.Runtime.Latch.{
  Folder, folder, Tree, Place, made, field_of, given, words, Host, Cause,
}

-- What the adapter takes from the engine besides: `Number(value)`, where it is a whole number.
pub record Adapter : Type 0 where
  pub host : Host
  pub number : Json → Option ℕ

-- TERMINAL_CODES.
unfoldable pub terminal_codes : List (ℕ × Text)
terminal_codes =
    (401, text "the server reports this device as removed; the pairing is gone")
    ∷ (403, text "the server reports this account as forbidden to this device")
    ∷ []

unfoldable pub reason_in : ℕ → List (ℕ × Text) → Option Text
reason_in code [] = none
reason_in code ((known, reason) ∷ codes) =
    if known == code then some reason else reason_in code codes

-- `a?.b`, of a value that may be undefined.
abbrev field_under : Text → Option Json → Option Json
field_under key none = none
field_under key (some v) = field_of key v

-- The status code of an error, in the three places where it may stand.
unfoldable pub status_of : Json → Option Json
unfolding field_of given
status_of error = given (field_under (text "statusCode") (field_of (text "output") error)) (
    given (field_of (text "statusCode") error)
      (given (field_under (text "statusCode") (field_of (text "data") error)) none))

pub record Terminal : Type 0 where
  pub code : ℕ
  pub reason : Text

unfoldable pub terminal_of : Option ℕ → Option Terminal
unfolding reason_in terminal_codes
terminal_of none = none
terminal_of (some code) = elim (reason_in code terminal_codes) [
  | none ↦ none
  | some reason ↦ some (record { code = code; reason = reason })
]

unfoldable pub number_at : Adapter → Option Json → Option ℕ
number_at adapter none = none
number_at adapter (some v) = adapter.number v

unfoldable pub terminal_reason : Adapter → Json → Option Terminal
unfolding truthy status_of terminal_of number_at
terminal_reason adapter error =
    if truthy error then terminal_of (number_at adapter (status_of error)) else none

-- `latchFile`, less the directory that it makes.
unfoldable pub place_of : Node → Text → Result Place
place_of node account =
    refuse_all (component_faults node (name (text "account")) (some account))
      (ok (encode_component node account, text "whatsapp.latch.json"))

-- What an operation does in the account's directory, which `latchFile` has made before.
unfoldable pub in_folder :
    {A : Type 0} → Text → (Folder → Result A × Folder) → Tree → Option Folder → Result A × Tree
in_folder account body tree none = (broken, tree)
in_folder account body tree (some files) =
    ((body files).0, put account (folder (body files).1) tree)

unfoldable pub at_file :
    {A : Type 0} → Result Place → (Text → Folder → Result A × Folder) → Tree → Result A × Tree
unfolding in_folder made
at_file (ok (account, file)) body tree =
    in_folder account (body file) tree (made (lookup account tree))
at_file (err faults) body tree = (err faults, tree)
at_file broken body tree = (broken, tree)

pub record Disconnect : Type 0 where
  pub code : Json
  pub reason : Json
  pub auth_dir : Json

unfoldable pub latched_json : Adapter → Text → Disconnect → Json
latched_json adapter account cause = obj (
    member (text "account") (str account) (
      member (text "latched_at") (str adapter.host.now) (
        member (text "code") cause.code (
          member (text "reason") cause.reason (
            member (text "auth_dir") cause.auth_dir (
              member (text "what_now")
                (str (
                  text
                    "the device is unlinked; a person decides what happened, re-pairs, and the next install clears this latch"))
                end))))))

unfoldable pub write_in : Json → Text → Folder → Result Json × Folder
write_in json file files = (ok json, put file (some json) files)

unfoldable pub write_latch : Adapter → Text → Disconnect → Tree → Result Json × Tree
unfolding at_file place_of latched_json write_in
write_latch adapter account cause tree =
    at_file (place_of adapter.host.node account) (write_in (latched_json adapter account cause))
      tree

-- `none` is null; a file that does not parse is the error of JSON.parse.
unfoldable pub read_in : Option (Option Json) → Result (Option Json)
read_in none = ok none
read_in (some none) = broken
read_in (some (some v)) = ok (some v)

unfoldable pub read_latch : Adapter → Text → Tree → Result (Option Json) × Tree
unfolding at_file place_of read_in lookup
read_latch adapter account tree =
    at_file (place_of adapter.host.node account)
      (λ file files. (read_in (lookup file files), files)) tree

unfoldable pub is_other : Text → Text × Option Json → Bool
is_other file entry = not (text_eq (entry.0) file)

unfoldable pub clear_in : Text → Folder → Option (Option Json) → Result Bool × Folder
unfolding is_other
clear_in file files none = (ok false, files)
clear_in file files (some content) = (ok true, keep (is_other file) files)

unfoldable pub clear_latch : Adapter → Text → Tree → Result Bool × Tree
unfolding at_file place_of clear_in lookup
clear_latch adapter account tree =
    at_file (place_of adapter.host.node account)
      (λ file files. clear_in file files (lookup file files)) tree

-- What an interpolated field reads as, an absent one included.
unfoldable pub printed_field : Adapter → Option Json → Text
unfolding words
printed_field adapter none = text "undefined"
printed_field adapter (some v) = words adapter.host v

unfoldable pub fault_of : Adapter → Text → Json → Cause
unfolding printed_field field_of
fault_of adapter account latched = record {
  code = text "CHANNEL_LATCHED";
  subject = account;
  problem = str (
      printed_field adapter (field_of (text "reason") latched)
      ++ (text ", latched at " ++ printed_field adapter (field_of (text "latched_at") latched)));
  what_now = str (
      text
        "a person decides what happened, re-pairs the device, and the next install clears the latch");
}

unfoldable pub faults_in : Adapter → Text → Result (Option Json) → Result (List Cause)
unfolding fault_of truthy
faults_in adapter account (ok none) = ok []
faults_in adapter account (ok (some v)) =
    ok (if truthy v then fault_of adapter account v ∷ [] else [])
faults_in adapter account (err faults) = err faults
faults_in adapter account broken = broken

-- A latched channel does not start.
unfoldable pub adapter_faults : Adapter → Text → Tree → Result (List Cause) × Tree
unfolding faults_in read_latch
adapter_faults adapter account tree =
    let (read, after) = read_latch adapter account tree in (faults_in adapter account read, after)
