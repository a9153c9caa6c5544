-- ===== src/Import/Tests.antt =====
-- Runs of the join on small inputs, and each theorem at one of them.
use mathlib.Core.List.{Perm}
use carbon_runtime.Common.{
  ◌≡◌, refl, true, List, [], ◌∷◌, some, Text, text, length, text_lt, text_eq, ℕ,
}
use carbon_runtime.Stream.Platform.{Node}
use carbon_runtime.Import.Link.{
  SourceKind, event, turn, audit, JoinItem, Mapping, Best, Send, nearest_send, join_outbound, scan,
  search_at, reach, is_open, is_better, consider, millis_of, send_for,
}
use carbon_runtime.Import.Link.Pool.{IsFound, nearest_send-IsFound}
use carbon_runtime.Import.Link.Conserves.{marks, join_outbound-conserves}
use carbon_runtime.Import.Link.Counted.{IsCounted, join_outbound-IsCounted}

-- An instant is written by as many letters as there are milliseconds.
abbrev clock : Node
clock = record {
  to_utf8 = λ s. s;
  from_utf8 = λ s. s;
  sha256 = λ s. s;
  date_parse = λ s. some (length s);
  regex_test = λ p s. true;
}

abbrev mapping : Mapping
mapping = record { node = clock; locale_after = λ s t. text_lt t s; tolerance = 3 }

abbrev mark : SourceKind → Text → Text → JoinItem
mark kind id at = record {
  kind = kind;
  message_id = id;
  timestamp = some at;
  conversation_id = text "c";
}

-- Two captures, a turn near the second and an audit row far from both.
abbrev near_turn : JoinItem
near_turn = mark turn (text "t1") (text "-----")

abbrev items : List JoinItem
items =
    mark audit (text "a1") (text "--------------")
    ∷ near_turn
    ∷ mark event (text "e1") (text "--")
    ∷ mark event (text "e2") (text "----")
    ∷ []

abbrev captures : List Send
captures =
    send_for (mark event (text "e1") (text "--"))
    ∷ send_for (mark event (text "e2") (text "----"))
    ∷ []

abbrev second : Best
second = record { place = 1; send = send_for (mark event (text "e2") (text "----")); delta = 1 }

found_run : (nearest_send mapping captures near_turn turn).0 ≡ some second
unfolding nearest_send search_at scan reach is_open is_better consider millis_of send_for text_lt
    text_eq
found_run = refl

nearest_send-IsFound_example :
    (at : ℕ) × (millis_of mapping.node near_turn ≡ some at)
    × IsFound mapping captures near_turn turn at second
        (nearest_send mapping captures near_turn turn).1
nearest_send-IsFound_example = nearest_send-IsFound mapping captures near_turn turn second found_run

join_outbound-conserves_example : Perm (marks (join_outbound mapping items).sends) items
join_outbound-conserves_example = join_outbound-conserves mapping items

join_outbound-IsCounted_example : IsCounted mapping items (join_outbound mapping items)
join_outbound-IsCounted_example = join_outbound-IsCounted mapping items
