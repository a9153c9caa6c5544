-- ===== src/Stream/Store/Cursor.antt =====
-- stream/store.ts: the two capture cursors of a conversation, ordered as text.
pub mod Monotone
use carbon_runtime.Common.{
  Bool, true, false, not, ◌&&◌, List, [], ◌∷◌, Option, none, some, or_else, Text, text, text_lt,
  text_eq, if◌then◌else◌, lookup, put,
}
use carbon_runtime.Stream.Platform.{Node}
use carbon_runtime.Stream.Fault.{
  Fault, fault, name, Result, ok, err, broken, refuse_all, cursor_kind_unknown,
}
use carbon_runtime.Stream.Encode.{component_faults, encode_component}
use carbon_runtime.Stream.Paths.{text_key}
use carbon_runtime.Stream.Store.{Store, CursorState, Exec}

-- `kind`: one of the two cursors, or another string.
pub data CursorKind : Type 0 where
  message_cursor revision_cursor : CursorKind
  other_kind : Text → CursorKind

abbrev pub no_cursors : CursorState
no_cursors = record { message = none; revision = none }

unfoldable pub cursor_file : Node → Text → Result Text
cursor_file node conversation_id =
    refuse_all (component_faults node (name (text "conversation_id")) (some conversation_id))
      (ok (encode_component node conversation_id))

-- The cursors that a cursor file holds.
abbrev pub cursors_at : Result Text → Store → Result CursorState
cursors_at (ok file) s = ok (or_else (lookup file s.cursor_files) no_cursors)
cursors_at (err faults) s = err faults
cursors_at broken s = broken

unfoldable pub cursors : Node → Text → Store → Result CursorState
cursors node conversation_id s = cursors_at (cursor_file node conversation_id) s

-- `current[kind]`, and `{ ...current, [kind]: position }`.
abbrev pub position_of : CursorKind → CursorState → Option Text
position_of message_cursor c = c.message
position_of revision_cursor c = c.revision
position_of (other_kind k) c = none

abbrev pub set_position : CursorKind → Text → CursorState → CursorState
set_position message_cursor p c = record c { message = some p }
set_position revision_cursor p c = record c { revision = some p }
set_position (other_kind k) p c = c

-- `position <= current`, where there is a current one.
abbrev pub is_behind : Text → Option Text → Bool
is_behind p none = false
is_behind p (some at) = not (text_lt at p)

unfoldable pub advance_file : CursorKind → Text → Result Text → Exec CursorState
advance_file kind p (ok file) s =
    let current = or_else (lookup file s.cursor_files) no_cursors in
    if is_behind p (position_of kind current) then (ok current, s) else (
      ok (set_position kind p current),
      record s { cursor_files = put file (set_position kind p current) s.cursor_files },
    )
advance_file kind p (err faults) s = (err faults, s)
advance_file kind p broken s = (broken, s)

unfoldable pub advance_cursor : Node → Text → CursorKind → Text → Exec CursorState
advance_cursor node conversation_id (other_kind k) p s =
    (err (fault cursor_kind_unknown (name k) ∷ []), s)
advance_cursor node conversation_id message_cursor p s =
    advance_file message_cursor p (cursor_file node conversation_id) s
advance_cursor node conversation_id revision_cursor p s =
    advance_file revision_cursor p (cursor_file node conversation_id) s
