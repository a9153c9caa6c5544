-- ===== src/Runtime/Latch.antt =====
-- runtime/latch.ts: the terminal latch, and the exit codes of runtime/faults.ts. The state is the
-- directory `channels/` with what each account's directory holds; an account's entry may also be a
-- plain file. A fault has here all four fields, since a latch keeps them.
pub mod Stops
pub mod Stays
pub mod Walk
pub mod First
mod Tests
use carbon_runtime.Common.{
  ℕ, Bool, true, false, not, ◌&&◌, ◌||◌, ◌==◌, ◌-◌, List, [], ◌∷◌, ◌++◌, Option, none, some,
  or_else, Text, text, text_eq, text_lt, if◌then◌else◌, sort_by, take, drop, length, map, lookup,
  put,
}
use carbon_runtime.Stream.Platform.{Node}
use carbon_runtime.Stream.Fault.{Result, ok, err, broken, name, refuse_all}
use carbon_runtime.Stream.Json.{
  truthy, Json, null, boolean, integer, negative, fraction, negative_fraction, str, arr, obj,
  Fields, end, member, get,
}
use carbon_runtime.Stream.Encode.{component_faults, encode_component, decode_component}
use carbon_runtime.Stream.Paths.{text_key}

-- The exit codes.
pub data Exit : Type 0 where
  exit_ok exit_fault exit_harness exit_lock_held exit_latched : Exit

unfoldable pub exit_code : Exit → ℕ
exit_code exit_ok = 0
exit_code exit_fault = 1
exit_code exit_harness = 70
exit_code exit_lock_held = 75
exit_code exit_latched = 78

-- A fault whose fields may be whatever a latch file holds.
pub record Cause : Type 0 where
  pub code : Text
  pub subject : Text
  pub problem : Json
  pub what_now : Json

pub record RuntimeFault : Type 0 where
  pub faults : List Cause
  pub code : ℕ

-- What JavaScript makes text of, and the clock.
pub record Host : Type 0 where
  pub node : Node
  pub now : Text
  -- `${value}` of a value that is no string.
  pub text_of : Json → Text

-- A file by its name, with what parses. `none` does not parse.
abbrev pub Folder : Type 0
Folder = List (Text × Option Json)

pub data Entry : Type 0 where
  folder : Folder → Entry
  plain : Entry

-- `channels/`. Where the directory is not there, it is empty.
abbrev pub Tree : Type 0
Tree = List (Text × Entry)

-- An account's directory and the file in it.
abbrev pub Place : Type 0
Place = Text × Text

abbrev pub suffix : Text
suffix = text ".latch.json"

-- `latchFile`, less the directory that it makes.
unfoldable pub latch_place : Node → Text → Text → Result Place
latch_place node account kind =
    refuse_all
      (component_faults node (name (text "account")) (some account)
        ++ component_faults node (name (text "channel kind")) (some kind))
      (ok (encode_component node account, encode_component node kind ++ suffix))

-- `fs.mkdirSync(dir, { recursive: true })`: the directory that is there, or a new one. `none` is the
-- error where a plain file is in the way.
unfoldable pub made : Option Entry → Option Folder
made none = some []
made (some (folder files)) = some files
made (some plain) = none

-- `name.endsWith('.latch.json')`, and the name before it.
unfoldable pub is_latch : Text → Bool
is_latch file = text_eq (drop (length file - 11) file) suffix

unfoldable pub kind_of : Text → Text
kind_of file = take (length file - 11) file

pub record Found : Type 0 where
  pub account : Text
  pub kind : Text
  pub file : Place
  pub latch : Json

-- `decodeComponent` throws on a hashed component, whose text cannot be given back.
abbrev pub found_named : Place → Json → Option Text → Option Text → Result Found
found_named file latch none kind = broken
found_named file latch (some account) none = broken
found_named file latch (some account) (some kind) =
    ok (record { account = account; kind = kind; file = file; latch = latch })

-- A latch file whose content does not parse is kept as null.
unfoldable pub found_here : Node → Place → Option Json → Result Found
unfolding kind_of
found_here node (account, file) content =
    found_named (account, file) (or_else content null) (decode_component node account)
      (decode_component node (kind_of file))

-- A throw ends the walk.
abbrev pub and_also : Result Found → Result (List Found) → Result (List Found)
and_also (ok found) (ok rest) = ok (found ∷ rest)
and_also (ok found) (err faults) = err faults
and_also (ok found) broken = broken
and_also (err faults) rest = err faults
and_also broken rest = broken

abbrev pub and_all : Result (List Found) → Result (List Found) → Result (List Found)
and_all (ok found) (ok rest) = ok (found ++ rest)
and_all (ok found) (err faults) = err faults
and_all (ok found) broken = broken
and_all (err faults) rest = err faults
and_all broken rest = broken

unfoldable pub found_in : Node → Text → Folder → Result (List Found)
unfolding is_latch found_here
found_in node account [] = ok []
found_in node account ((file, content) ∷ files) =
    let rest = found_in node account files in
    if is_latch file then and_also (found_here node (account, file) content) rest else rest

abbrev pub file_after : Text × Option Json → Text × Option Json → Bool
file_after one other = text_lt other.0 one.0

abbrev pub entry_after : Text × Entry → Text × Entry → Bool
entry_after one other = text_lt other.0 one.0

unfoldable pub found_at : Node → Text → Entry → Result (List Found)
unfolding found_in
found_at node account (folder files) = found_in node account (sort_by file_after files)
found_at node account plain = ok []

unfoldable pub found_under : Node → Tree → Result (List Found)
unfolding found_at
found_under node [] = ok []
found_under node ((account, entry) ∷ tree) =
    and_all (found_at node account entry) (found_under node tree)

unfoldable pub latches_under : Node → Tree → Result (List Found)
unfolding found_under
latches_under node tree = found_under node (sort_by entry_after tree)

-- `content?.key`, of a value that may be no object.
unfoldable pub field_of : Text → Json → Option Json
field_of key (obj fields) = get key fields
field_of key _ = none

-- A value that `??` passes over is null or undefined.
unfoldable pub given : Option Json → Option Json → Option Json
given (some null) other = other
given none other = other
given (some v) other = some v

unfoldable pub words : Host → Json → Text
words host (str s) = s
words host v = host.text_of v

unfoldable pub code_of : Host → Option Json → Text
unfolding truthy words
code_of host none = text "CHANNEL_LATCHED"
code_of host (some v) =
    if truthy v then text "CHANNEL_LATCHED_" ++ words host v else text "CHANNEL_LATCHED"

abbrev pub unread_reason : Json
unread_reason = str (text "this channel is latched and the reason was not readable")

abbrev pub wait_for_install : Json
wait_for_install =
    str (
      text "a person decides what happened, fixes it, and the next carbon install clears the latch")

unfoldable pub cause_of : Host → Found → Cause
unfolding code_of given field_of
cause_of host found = record {
  code = code_of host (field_of (text "code") found.latch);
  subject = found.kind ++ b':' ∷ found.account;
  problem =
      or_else (given (field_of (text "reason") found.latch) (field_of (text "problem") found.latch))
        unread_reason;
  what_now =
      or_else (given (field_of (text "what_now") found.latch) (field_of (text "fix") found.latch))
        wait_for_install;
}

abbrev pub causes_of : Host → Result (List Found) → Result (List Cause)
causes_of host (ok found) = ok (map (cause_of host) found)
causes_of host (err faults) = err faults
causes_of host broken = broken

unfoldable pub latch_faults : Host → Tree → Result (List Cause)
unfolding latches_under cause_of
latch_faults host tree = causes_of host (latches_under host.node tree)

-- How a start goes on: it does, it is refused, or it dies of a plain error.
pub data Start : Type 0 where
  starts : Start
  refused : RuntimeFault → Start
  dies : Start

abbrev pub refusal : Result (List Cause) → Start
refusal (ok []) = starts
refusal (ok (c ∷ causes)) = refused (record { faults = c ∷ causes; code = exit_code exit_latched })
refusal (err faults) = dies
refusal broken = dies

unfoldable pub refuse_if_latched : Host → Tree → Start
unfolding latch_faults exit_code
refuse_if_latched host tree = refusal (latch_faults host tree)

-- What a latch file says.
unfoldable pub latch_json : Host → Text → Text → Cause → Json
latch_json host account kind cause = obj (
    member (text "account") (str account) (
      member (text "kind") (str kind) (
        member (text "latched_at") (str host.now) (
          member (text "code") (str cause.code) (
            member (text "subject") (str cause.subject) (
              member (text "reason") cause.problem
                (member (text "what_now") cause.what_now end)))))))

-- The fault to stop on.
unfoldable pub stop_of : Host → Cause → RuntimeFault
unfolding words exit_code
stop_of host cause = record {
  faults =
      record {
        code = cause.code;
        subject = cause.subject;
        problem = cause.problem;
        what_now = str (
            words host cause.what_now
            ++ text " The agent is latched and refuses to start until carbon install clears it.");
      }
      ∷ [];
  code = exit_code exit_latched;
}

-- A latch that is there is left as it is.
unfoldable pub write_absent : Text → Json → Option (Option Json) → Folder → Folder
write_absent file content (some old) files = files
write_absent file content none files = put file (some content) files

unfoldable pub latch_in :
    Host → Place → Json → Cause → Tree → Option Folder → Result RuntimeFault × Tree
unfolding write_absent stop_of
latch_in host (account, file) content cause tree none = (broken, tree)
latch_in host (account, file) content cause tree (some files) = (
  ok (stop_of host cause),
  put account (folder (write_absent file content (lookup file files) files)) tree,
)

unfoldable pub latch_at : Host → Json → Cause → Tree → Result Place → Result RuntimeFault × Tree
unfolding latch_in made
latch_at host content cause tree (ok place) =
    latch_in host place content cause tree (made (lookup (place.0) tree))
latch_at host content cause tree (err faults) = (err faults, tree)
latch_at host content cause tree broken = (broken, tree)

unfoldable pub latch : Host → Text → Text → Cause → Tree → Result RuntimeFault × Tree
unfolding latch_at latch_place latch_json
latch host account kind cause tree =
    latch_at host (latch_json host account kind cause) cause tree
      (latch_place host.node account kind)
