-- ===== src/Adapters/TelegramCursors/Advances.antt =====
-- The store's cursor of the account's updates, which the adapter moves by padded texts.
use carbon_runtime.Common.{
  ℕ, ◌<◌, ◌+◌, ◌≡◌, refl, ap, ◌∙◌, Option, some, Text, ltb, if◌then◌else◌, Bool-cases, inl, inr,
  lookup, arith, or_else,
}
use carbon_runtime.Stream.Platform.{Node}
use carbon_runtime.Stream.Fault.{Result, ok, err, broken}
use carbon_runtime.Stream.Paths.{text_key}
use carbon_runtime.Stream.Store.{Store, CursorState}
use carbon_runtime.Stream.Store.Cursor.{
  cursors, cursors_at, cursor_file, advance_file, advance_cursor, message_cursor, no_cursors,
}
use carbon_runtime.Stream.Store.Cursor.Monotone.{moved, advance_file-moved}
use carbon_runtime.Adapters.TelegramCursors.{offset_position_of, updates_conversation, next_offset}
use carbon_runtime.Adapters.TelegramCursors.Sorted.{text_lt-offset_position_of}

advance_at :
    (p : Text) (file : Result Text) (s : Store) (c : CursorState)
    → cursors_at file s ≡ ok c
    → cursors_at file (advance_file message_cursor p file s).1 ≡ ok (moved message_cursor p c)
advance_at p (ok file) s c h =
    let e : or_else (lookup file s.cursor_files) no_cursors ≡ c = cc h in
    ap ok (advance_file-moved message_cursor p file s ∙ ap (moved message_cursor p) e)
advance_at p (err faults) s c h = cc h
advance_at p broken s c h = cc h

-- The moved cursor stands at the larger of the two updates.
moved-larger :
    (n m : ℕ) (c : CursorState)
    → n < 10000000000000000
    → m < 10000000000000000
    → c.message ≡ some (offset_position_of m)
    → (moved message_cursor (offset_position_of n) c).message
      ≡ some (offset_position_of (if ltb m n then n else m))
moved-larger n m c p q e =
    rw (e, text_lt-offset_position_of m n q p)
      (elim (Bool-cases (ltb m n)) [ inl b ↦ rw b refl | inr b ↦ rw b refl ])

-- Where `Number` reads the positions of the updates below 2 ^ 53 as the numbers that they spell: after
-- an update is written to a stream that stands at another, in whichever order the two came, the
-- next call asks for the one past the larger of them.
pub next_offset-advance_cursor :
    (node : Node) (number : Text → Option ℕ) (account : Text) (s : Store) (c : CursorState)
    (n m : ℕ)
    → ((k : ℕ) → k < 9007199254740992 → number (offset_position_of k) ≡ some k)
    → cursors node (updates_conversation account) s ≡ ok c
    → c.message ≡ some (offset_position_of m)
    → n < 9007199254740992
    → m < 9007199254740992
    → next_offset node number account
        (advance_cursor node
          (updates_conversation account)
          message_cursor
          (offset_position_of n)
          s).1
      ≡ ok (some ((if ltb m n then n else m) + 1))
unfolding next_offset cursors advance_cursor
next_offset-advance_cursor node number account s c n m reads h at p q =
    let file = cursor_file node (updates_conversation account) in
    let stands = moved-larger n m c (omega arith) (omega arith) at in
    let known : (if ltb m n then n else m) < 9007199254740992 = ground arith in
    rw (advance_at (offset_position_of n) file s c h)
      (rw stands (rw (reads (if ltb m n then n else m) known) refl))
