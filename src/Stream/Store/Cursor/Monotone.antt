-- ===== src/Stream/Store/Cursor/Monotone.antt =====
-- A cursor only moves forward, and a move leaves the other cursor and every other conversation.
use carbon_runtime.Common.{
  ◌≡◌, refl, ap, ◌∙◌, ◌≢◌, inl, inr, true, false, [], ◌∷◌, Option, none, some, or_else, arith, Text,
  text_lt, text_eq_iff, if◌then◌else◌, lookup, lookup-put_self, lookup-put, Bool-cases,
}
use carbon_runtime.Stream.Platform.{Node}
use carbon_runtime.Stream.Fault.{Result, ok, err, broken}
use carbon_runtime.Stream.Paths.{text_key}
use carbon_runtime.Stream.Store.{Store, CursorState}
use carbon_runtime.Stream.Store.Cursor.{
  CursorKind, message_cursor, revision_cursor, other_kind, no_cursors, cursor_file, cursors_at,
  cursors, position_of, set_position, is_behind, advance_file, advance_cursor,
}

-- The order of positions.
text_lt_irrefl : (s : Text) → text_lt s s ≡ false
unfolding text_lt
text_lt_irrefl [] = refl
text_lt_irrefl (c ∷ s) = ground (arith, text_lt_irrefl s)

text_lt_asymm : (s t : Text) → text_lt s t ≡ true → text_lt t s ≡ false
unfolding text_lt
text_lt_asymm s [] h = cc
text_lt_asymm [] (d ∷ t) h = refl
text_lt_asymm (c ∷ s) (d ∷ t) h = ground (arith, text_lt_asymm s t)

-- `a` is not after `b`, where null comes before every position.
abbrev pub NotAfter : Option Text → Option Text → Type 0
NotAfter none b = Unit
NotAfter (some s) none = ⊥
NotAfter (some s) (some t) = text_lt t s ≡ false

NotAfter-refl : (a : Option Text) → NotAfter a a
NotAfter-refl none = tt
NotAfter-refl (some s) = text_lt_irrefl s

-- A move of one cursor, on the cursors of its conversation.
abbrev pub moved : CursorKind → Text → CursorState → CursorState
moved kind p c = if is_behind p (position_of kind c) then c else set_position kind p c

-- What a move leaves: no cursor stands before where it stood, and the moved one stands at the new
-- position or after it.
pub record HasMoved (kind : CursorKind) (p : Text) (c d : CursorState) : Type 0 where
  pub message_forward : NotAfter c.message d.message
  pub revision_forward : NotAfter c.revision d.revision
  pub reached : NotAfter (some p) (position_of kind d)

NotAfter-behind : (p : Text) (a : Option Text) → is_behind p a ≡ true → NotAfter (some p) a
NotAfter-behind p none h = cc
NotAfter-behind p (some s) h = ground (arith, h)

NotAfter-ahead : (p : Text) (a : Option Text) → is_behind p a ≡ false → NotAfter a (some p)
NotAfter-ahead p none h = tt
NotAfter-ahead p (some s) h = text_lt_asymm s p (ground (arith, h))

message-HasMoved :
    (p : Text) (c : CursorState) → HasMoved message_cursor p c (moved message_cursor p c)
message-HasMoved p c = elim (Bool-cases (is_behind p c.message)) [
  | inl behind ↦ rw behind (record {
    message_forward = NotAfter-refl c.message;
    revision_forward = NotAfter-refl c.revision;
    reached = NotAfter-behind p c.message behind;
  })
  | inr ahead ↦ rw ahead (record {
    message_forward = NotAfter-ahead p c.message ahead;
    revision_forward = NotAfter-refl c.revision;
    reached = text_lt_irrefl p;
  })
]

revision-HasMoved :
    (p : Text) (c : CursorState) → HasMoved revision_cursor p c (moved revision_cursor p c)
revision-HasMoved p c = elim (Bool-cases (is_behind p c.revision)) [
  | inl behind ↦ rw behind (record {
    message_forward = NotAfter-refl c.message;
    revision_forward = NotAfter-refl c.revision;
    reached = NotAfter-behind p c.revision behind;
  })
  | inr ahead ↦ rw ahead (record {
    message_forward = NotAfter-refl c.message;
    revision_forward = NotAfter-ahead p c.revision ahead;
    reached = text_lt_irrefl p;
  })
]

pub advance_file-moved :
    (kind : CursorKind) (p file : Text) (s : Store)
    → or_else (lookup file (advance_file kind p (ok file) s).1.cursor_files) no_cursors
      ≡ moved kind p (or_else (lookup file s.cursor_files) no_cursors)
unfolding advance_file
advance_file-moved kind p file s = ground (
  arith,
  lookup-put_self file (set_position kind p (or_else (lookup file s.cursor_files) no_cursors))
      s.cursor_files,
)

-- The kinds that name a cursor.
abbrev pub IsCursor : CursorKind → Type 0
IsCursor message_cursor = Unit
IsCursor revision_cursor = Unit
IsCursor (other_kind k) = ⊥

moved-HasMoved :
    (kind : CursorKind) (p : Text) (c : CursorState)
    → IsCursor kind
    → HasMoved kind p c (moved kind p c)
moved-HasMoved message_cursor p c h = message-HasMoved p c
moved-HasMoved revision_cursor p c h = revision-HasMoved p c
moved-HasMoved (other_kind k) p c h = absurd h

-- What the two callers of `advance_file` share.
advance_at :
    (kind : CursorKind) (p : Text) (file : Result Text) (s : Store) (c : CursorState)
    → IsCursor kind
    → cursors_at file s ≡ ok c
    → (d : CursorState) × (cursors_at file (advance_file kind p file s).1 ≡ ok d)
      × HasMoved kind p c d
advance_at kind p (ok file) s c k h =
    let e : or_else (lookup file s.cursor_files) no_cursors ≡ c = cc h in
    (
      moved kind p c,
      ap ok (advance_file-moved kind p file s ∙ ap (moved kind p) e),
      moved-HasMoved kind p c k,
    )
advance_at kind p (err faults) s c k h = cc h
advance_at kind p broken s c k h = cc h

-- `advanceCursor` on one of the two cursors of a conversation whose cursors can be read: read again,
-- neither of the two cursors stands before where it stood, and the one that was moved stands at the
-- given position or after it.
pub cursors-advance_cursor :
    (node : Node) (conversation_id : Text) (kind : CursorKind) (p : Text) (s : Store)
    (c : CursorState)
    → IsCursor kind
    → cursors node conversation_id s ≡ ok c
    → (d : CursorState) × (cursors node conversation_id
          (advance_cursor node conversation_id kind p s).1
        ≡ ok d)
      × HasMoved kind p c d
unfolding cursors advance_cursor
cursors-advance_cursor node conversation_id message_cursor p s c k h =
    advance_at message_cursor p (cursor_file node conversation_id) s c k h
cursors-advance_cursor node conversation_id revision_cursor p s c k h =
    advance_at revision_cursor p (cursor_file node conversation_id) s c k h
cursors-advance_cursor node conversation_id (other_kind w) p s c k h = absurd k

-- The only file that a move writes is the conversation's own.
advance_file-other :
    (kind : CursorKind) (p file other : Text) (s : Store)
    → file ≢ other
    → lookup other (advance_file kind p (ok file) s).1.cursor_files ≡ lookup other s.cursor_files
unfolding advance_file
advance_file-other kind p file other s ne = ground (
  arith,
  text_eq_iff file other,
  lookup-put file other (set_position kind p (or_else (lookup file s.cursor_files) no_cursors))
      s.cursor_files,
)

abbrev pub KeepsRecords : Store → Store → Type 0
KeepsRecords s t = (t.captures ≡ s.captures) × (t.index ≡ s.index) × (t.requests ≡ s.requests)

advance_file-KeepsRecords :
    (kind : CursorKind) (p : Text) (file : Result Text) (s : Store)
    → KeepsRecords s (advance_file kind p file s).1
unfolding advance_file
advance_file-KeepsRecords kind p (ok file) s = ground arith
advance_file-KeepsRecords kind p (err faults) s = (refl, refl, refl)
advance_file-KeepsRecords kind p broken s = (refl, refl, refl)

-- A move never touches what is not a cursor file.
pub advance_cursor-KeepsRecords :
    (node : Node) (conversation_id : Text) (kind : CursorKind) (p : Text) (s : Store)
    → KeepsRecords s (advance_cursor node conversation_id kind p s).1
unfolding advance_cursor
advance_cursor-KeepsRecords node conversation_id (other_kind k) p s = (refl, refl, refl)
advance_cursor-KeepsRecords node conversation_id message_cursor p s =
    advance_file-KeepsRecords message_cursor p (cursor_file node conversation_id) s
advance_cursor-KeepsRecords node conversation_id revision_cursor p s =
    advance_file-KeepsRecords revision_cursor p (cursor_file node conversation_id) s
