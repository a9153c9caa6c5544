-- ===== src/Adapters/WhatsappLatch/Tests.antt =====
-- Runs of the WhatsApp latch on a small store, and each theorem at one of them.
use carbon_runtime.Common.{
  Option, ℕ, ◌≡◌, refl, true, [], ◌∷◌, none, some, text, lookup, put, text_eq, has_unit,
}
use carbon_runtime.Stream.Fault.{ok}
use carbon_runtime.Stream.Json.{Json, truthy, integer, str, null, obj, member, end, get}
use carbon_runtime.Stream.Samples.{ascii}
use carbon_runtime.Stream.Encode.{
  component_faults, encode_component, encode_bytes, encode_byte, is_safe_byte,
}
use carbon_runtime.Runtime.Latch.{Tree, folder, made, field_of, given}
use carbon_runtime.Adapters.WhatsappLatch.{
  Adapter, Disconnect, terminal_reason, terminal_of, reason_in, terminal_codes, status_of,
  number_at, place_of, at_file, in_folder, latched_json, clear_in, clear_latch,
}
use carbon_runtime.Adapters.WhatsappLatch.Cleared.{IsCleared, clear_latch-IsCleared}

-- `Number` of a whole number.
abbrev number : Json → Option ℕ
number (integer n) = some n
number _ = none

abbrev adapter : Adapter
adapter = record {
  host = record { node = ascii; now = text "t"; text_of = λ v. text "?" };
  number = number;
}

abbrev gone : Disconnect
gone = record { code = integer 401; reason = str (text "gone"); auth_dir = null }

abbrev written_json : Json
written_json = latched_json adapter (text "acc") gone

-- A Boom error.
abbrev boom : ℕ → Json
boom code = obj (member (text "output") (obj (member (text "statusCode") (integer code) end)) end)

terminal_test : terminal_reason adapter (boom 503) ≡ none
unfolding terminal_reason terminal_of reason_in terminal_codes status_of number_at field_of given
    truthy get text_eq
terminal_test = refl

abbrev latched : Tree
latched = (text "acc", folder ((text "whatsapp.latch.json", some written_json) ∷ [])) ∷ []

clears : (clear_latch adapter (text "acc") latched).0 ≡ ok true
unfolding clear_latch at_file in_folder place_of clear_in made lookup put component_faults
    encode_component encode_bytes encode_byte is_safe_byte has_unit text_eq
clears = refl

clear_latch-IsCleared_example :
    IsCleared adapter (text "acc") latched (clear_latch adapter (text "acc") latched).1
clear_latch-IsCleared_example = clear_latch-IsCleared adapter (text "acc") latched true clears
