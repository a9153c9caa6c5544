-- ===== src/Adapters/TelegramCursors.antt =====
-- adapters/telegram/cursors.ts: the positions in a chat and in the account's stream of updates, as
-- texts of one length. An id is a number; `Number` of a text is a parameter, which gives nothing
-- where the number is not finite.
pub mod Sorted
pub mod Advances
mod Tests
use carbon_runtime.Common.{
  ℕ, zero, suc, ◌+◌, ◌-◌, List, [], ◌∷◌, ◌++◌, Option, none, some, Text, text, length,
}
use carbon_runtime.Stream.Platform.{Node}
use carbon_runtime.Stream.Fault.{Result, ok, err, broken}
use carbon_runtime.Stream.Paths.{decimal}
use carbon_runtime.Stream.Store.{Store, CursorState}
use carbon_runtime.Stream.Store.Cursor.{cursors}

unfoldable pub zeros : ℕ → Text
zeros zero = []
zeros (suc n) = b'0' ∷ zeros n

-- `s.padStart(width, '0')`.
unfoldable pub pad_start : ℕ → Text → Text
unfolding zeros
pad_start width s = zeros (width - length s) ++ s

unfoldable pub chat_position_of : ℕ → Text
unfolding pad_start decimal
chat_position_of message_id = pad_start 12 (decimal message_id)

unfoldable pub offset_position_of : ℕ → Text
unfolding pad_start decimal
offset_position_of update_id = pad_start 16 (decimal update_id)

unfoldable pub updates_conversation : Text → Text
updates_conversation account = account ++ text ":updates"

-- `none` is null.
abbrev pub one_past : Option ℕ → Option ℕ
one_past none = none
one_past (some at) = some (at + 1)

abbrev pub offset_past : (Text → Option ℕ) → Option Text → Option ℕ
offset_past number none = none
offset_past number (some held) = one_past (number held)

abbrev pub offset_from : (Text → Option ℕ) → Result CursorState → Result (Option ℕ)
offset_from number (ok at) = ok (offset_past number at.message)
offset_from number (err faults) = err faults
offset_from number broken = broken

-- From the message cursor of the account's stream.
unfoldable pub next_offset : Node → (Text → Option ℕ) → Text → Store → Result (Option ℕ)
unfolding cursors updates_conversation
next_offset node number account s =
    offset_from number (cursors node (updates_conversation account) s)
