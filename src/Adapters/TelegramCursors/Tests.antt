-- ===== src/Adapters/TelegramCursors/Tests.antt =====
-- Positions at small numbers, and each theorem at some of them.
use carbon_runtime.Common.{
  ℕ, zero, suc, ◌-◌, ◌<◌, ap, ◌∙◌, ◌≡◌, refl, true, [], ◌∷◌, ◌++◌, Option, none, some, Text, text,
  lookup, has_unit, text_eq, text_lt, length, arith,
}
use carbon_runtime.Stream.Fault.{ok}
use carbon_runtime.Stream.Samples.{ascii}
use carbon_runtime.Stream.Paths.{decimal, decimal_fuel, text_key}
use carbon_runtime.Stream.Paths.Injective.{value_from, value-decimal}
use carbon_runtime.Stream.Store.{Store, CursorState, opened}
use carbon_runtime.Stream.Store.Cursor.{cursors, cursor_file, advance_cursor, message_cursor}
use carbon_runtime.Adapters.TelegramCursors.Advances.{next_offset-advance_cursor}
use carbon_runtime.Stream.Encode.{
  component_faults, encode_component, encode_bytes, encode_byte, is_safe_byte,
}
use carbon_runtime.Adapters.TelegramCursors.{
  zeros, pad_start, chat_position_of, offset_position_of, updates_conversation, next_offset,
}
use carbon_runtime.Adapters.TelegramCursors.Sorted.{text_lt-chat_position_of}

position_test : chat_position_of 1234 ≡ text "000000001234"
unfolding chat_position_of pad_start decimal decimal_fuel zeros
position_test = refl

text_lt-chat_position_of_example : text_lt (chat_position_of 999) (chat_position_of 1000) ≡ true
text_lt-chat_position_of_example = text_lt-chat_position_of 999 1000 (omega arith) (omega arith)

-- `Number` of decimal digits.
abbrev number : Text → Option ℕ
number s = some (value_from 0 s)

value-zeros : (j : ℕ) (s : Text) → value_from 0 (zeros j ++ s) ≡ value_from 0 s
unfolding zeros value_from
value-zeros zero s = refl
value-zeros (suc j) s = value-zeros j s

number-offset_position_of : (k : ℕ) → k < 9007199254740992 → number (offset_position_of k) ≡ some k
unfolding offset_position_of pad_start
number-offset_position_of k h =
    ap some (value-zeros (16 - length (decimal k)) (decimal k) ∙ value-decimal k)

abbrev at_seven : CursorState
at_seven = record { message = some (offset_position_of 7); revision = none }

abbrev streaming : Store
streaming = record opened {
  cursor_files = (encode_component ascii (updates_conversation (text "a")), at_seven) ∷ [];
}

reads_seven : cursors ascii (updates_conversation (text "a")) streaming ≡ ok at_seven
unfolding cursors cursor_file updates_conversation lookup component_faults encode_component
    encode_bytes encode_byte is_safe_byte has_unit text_eq
reads_seven = refl

next_offset-advance_cursor_example :
    next_offset ascii number
      (text "a")
      (advance_cursor ascii
        (updates_conversation (text "a"))
        message_cursor
        (offset_position_of 12)
        streaming).1
    ≡ ok (some 13)
next_offset-advance_cursor_example =
    next_offset-advance_cursor ascii number (text "a") streaming at_seven 12 7
      number-offset_position_of reads_seven refl (omega arith) (omega arith)
