-- ===== src/Runtime/Tests.antt =====
-- Runs of the poll on a small channel, and each theorem at one of them.
use carbon_runtime.Common.{
  ◌≡◌, refl, true, false, [], ◌∷◌, none, some, text, length, text_eq, lookup, has_unit, ℕ, List,
  if◌then◌else◌, ◌==◌,
}
use carbon_runtime.Stream.Platform.{Node}
use carbon_runtime.Stream.Fault.{ok}
use carbon_runtime.Stream.Json.{null, integer}
use carbon_runtime.Stream.Encode.{
  component_faults, encode_component, encode_bytes, encode_byte, is_safe_byte,
}
use carbon_runtime.Stream.Paths.{RecordPath}
use carbon_runtime.Runtime.Channel.{
  ChannelFiles, value, channel_state_file, read_channel_state, read_state_at,
}
use carbon_runtime.Runtime.Channel.Blocks.{IsWritten, write_channel_state-IsWritten}
use carbon_runtime.Runtime.Poll.{
  Channel, read_items, threw, failures_before_hold, inbound_transport_of, poll_state,
}
use carbon_runtime.Runtime.Poll.Trail.{History, IsTrailing, run, trailing, run-IsTrailing}
use carbon_runtime.Runtime.Lock.{
  Lock, LockFiles, Processes, Taken, Taker, lock_file, lock_of, command_line_of, take_lock,
  is_obeyed, runs_as, alone, step, look, check, unlink, create, starting, done, Racer, step_at,
  race,
}

abbrev ascii : Node
ascii = record {
  to_utf8 = λ s. s;
  from_utf8 = λ s. s;
  sha256 = λ s. s;
  date_parse = λ t. some (length t);
  regex_test = λ p s. true;
}

abbrev mailbox : Channel
mailbox = record {
  kind = text "email";
  account = text "a";
  inbound = none;
  poll_interval_ms = some (integer 30000);
  poll_failures_before_hold = some (integer 2);
}

abbrev place : RecordPath
place = record { directory = text "a"; stem = text "email" }

abbrev files : ChannelFiles
files = []

-- Two failures after a poll that worked, the last first.
abbrev history : History
history = (text "3", threw) ∷ (text "2", threw) ∷ (text "1", read_items 4) ∷ []

abbrev polled : ChannelFiles
polled = run ascii mailbox history files

there : channel_state_file ascii (text "a") (text "email") ≡ ok place
unfolding channel_state_file component_faults encode_component encode_bytes encode_byte is_safe_byte
    has_unit text_eq
there = refl

write_channel_state-IsWritten_example :
    IsWritten ascii (text "a") (text "email") ((text "connection", value null) ∷ []) polled
write_channel_state-IsWritten_example =
    write_channel_state-IsWritten ascii (text "a") (text "email")
      ((text "connection", value null) ∷ []) polled place there

fresh_count : (poll_state ascii mailbox files).consecutive_failures ≡ 0
unfolding poll_state read_channel_state read_state_at channel_state_file component_faults
    encode_component has_unit text_eq lookup
fresh_count = refl

fresh_held : (poll_state ascii mailbox files).holding ≡ false
unfolding poll_state read_channel_state read_state_at channel_state_file component_faults
    encode_component has_unit text_eq lookup
fresh_held = refl

run-IsTrailing_example :
    IsTrailing
      (failures_before_hold mailbox)
      (inbound_transport_of mailbox)
      (trailing history)
      (poll_state ascii mailbox (run ascii mailbox history files))
run-IsTrailing_example =
    run-IsTrailing ascii mailbox history files place there fresh_count fresh_held

-- A lock that a process left behind: its number is now another program's.
abbrev stale : Lock
stale = record { channel = text "a"; pid = 7; command_line = text "carbon" }

abbrev left_behind : LockFiles
left_behind file = if text_eq file (text "a") then some (some stale) else none

abbrev no_locks : LockFiles
no_locks file = none

abbrev others_run : Processes
others_run pid = if pid == 7 then some (text "vi") else some (text "carbon")

abbrev starter : ℕ → Taker
starter pid = record { pid = pid; command_line = some (text "carbon"); argv = text "carbon" }

abbrev lock_by : ℕ → Lock
lock_by pid = record { channel = text "a"; pid = pid; command_line = text "carbon" }

abbrev took_over : Taken
took_over = record { file = text "a"; taken_over = true; previous = some stale }

taken_test : (take_lock ascii others_run (text "a") (starter 9) left_behind).0 ≡ done (ok took_over)
unfolding take_lock alone step look check unlink create lock_of command_line_of lock_file
    encode_component encode_bytes encode_byte is_safe_byte is_obeyed runs_as has_unit text_eq
taken_test = refl

-- Two processes begin at a stale lock; the second, which has read it, removes the lock of the first.
abbrev both : List Racer
both =
    record { taker = starter 9; phase = starting }
    ∷ record { taker = starter 10; phase = starting }
    ∷ []

abbrev turns : List ℕ → List (ℕ × Processes)
turns [] = []
turns (n ∷ ns) = (n, others_run) ∷ turns ns

race_test :
    (race ascii (text "a") (turns (0 ∷ 0 ∷ 1 ∷ 1 ∷ 0 ∷ 0 ∷ 1 ∷ 1 ∷ [])) both left_behind).0
    ≡ record { taker = starter 9; phase = done (ok took_over) }
      ∷ record { taker = starter 10; phase = done (ok took_over) }
      ∷ []
unfolding race step_at step look check unlink create lock_of command_line_of lock_file
    encode_component encode_bytes encode_byte is_safe_byte is_obeyed runs_as has_unit text_eq
race_test = refl
