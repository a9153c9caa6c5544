-- ===== src/Runtime/Poll.antt =====
-- runtime/poll.ts: when a channel is polled, and when failures in a row hold it. `poll` of
-- runtime/loop.ts is the whole step, without its log lines. A declared number is a value of JSON.
-- Of a poll's fault the code and the subject are kept.
pub mod Trail
use carbon_runtime.Common.{
  ℕ, suc, ◌+◌, Bool, true, false, not, ◌&&◌, ◌||◌, List, [], ◌∷◌, ◌++◌, Option, none, some, or_else,
  Text, text, text_eq, leb, lookup, if◌then◌else◌,
}
use carbon_runtime.Stream.Platform.{Node}
use carbon_runtime.Stream.Fault.{
  Fault, fault, name, Result, ok, err, broken, poll_interval_missing, poll_interval_below_floor,
  channel_poll_failed, channel_poll_hold,
}
use carbon_runtime.Stream.Json.{Json, integer, fraction}
use carbon_runtime.Stream.Validate.{below}
use carbon_runtime.Stream.Paths.{text_key}
use carbon_runtime.Runtime.Channel.{
  PollState, ChannelState, ChannelFiles, Block, poll_value, value, read_channel_state,
  write_channel_state,
}

-- What the poll reads of a channel's declaration.
pub record Channel : Type 0 where
  pub kind : Text
  pub account : Text
  pub inbound : Option Text
  pub poll_interval_ms : Option Json
  pub poll_failures_before_hold : Option Json

-- `${kind}:${account}`.
abbrev pub channel_name : Channel → Text
channel_name channel = channel.kind ++ text ":" ++ channel.account

abbrev pub default_failures : ℕ
default_failures = 3

-- A number above 0. JSON has no NaN and no infinity.
unfoldable pub is_positive : Json → Bool
is_positive (integer n) = leb 1 n
is_positive (fraction n i) = true
is_positive _ = false

pub record Interval : Type 0 where
  pub interval_ms : Option Json
  pub refusal : Option Fault

unfoldable pub check_interval : Channel → ℕ → Option Json → Interval
unfolding is_positive
check_interval channel floor none = record {
  interval_ms = none;
  refusal = some (fault poll_interval_missing (name (channel_name channel)));
}
check_interval channel floor (some declared) =
    if not (is_positive declared)
    then record {
      interval_ms = none;
      refusal = some (fault poll_interval_missing (name (channel_name channel)));
    }
    else if below declared floor
    then record {
      interval_ms = none;
      refusal = some (fault poll_interval_below_floor (name (channel_name channel)));
    }
    else record { interval_ms = some declared; refusal = none }

-- The floor is the adapter's, if it names one.
unfoldable pub poll_interval_for : Channel → Option ℕ → Interval
unfolding check_interval
poll_interval_for channel floor = check_interval channel (or_else floor 0) channel.poll_interval_ms

-- A number from 1 on, rounded down.
unfoldable pub whole_from_one : Option Json → ℕ
whole_from_one (some (integer n)) = if leb 1 n then n else default_failures
whole_from_one (some (fraction n i)) = if leb 1 n then n else default_failures
whole_from_one _ = default_failures

unfoldable pub failures_before_hold : Channel → ℕ
unfolding whole_from_one
failures_before_hold channel = whole_from_one channel.poll_failures_before_hold

unfoldable pub inbound_transport_of : Channel → Option Text
inbound_transport_of channel =
    if text_eq channel.kind (text "email")
    then some (or_else channel.inbound (text "imap"))
    else none

abbrev pub fresh_poll : PollState
fresh_poll = record {
  inbound_transport = none;
  last_attempt_at = none;
  last_success_at = none;
  last_item_count = none;
  consecutive_failures = 0;
  holding = false;
  last_fault = none;
}

abbrev pub as_poll : Option Block → Option PollState
as_poll (some (poll_value poll)) = some poll
as_poll (some (value v)) = none
as_poll none = none

-- The poll's block, where the runtime has written one. No adapter writes a field of this name: the
-- model takes one that another wrote for none.
abbrev pub poll_of : ChannelState → Option PollState
poll_of state = as_poll (lookup (text "poll") state)

unfoldable pub poll_state : Node → Channel → ChannelFiles → PollState
poll_state node channel files =
    or_else (poll_of (read_channel_state node channel.account channel.kind files)) fresh_poll

-- `...(inbound_transport === null ? {} : { inbound_transport })`.
abbrev pub set_transport : Option Text → PollState → PollState
set_transport none poll = poll
set_transport (some transport) poll = record poll { inbound_transport = some transport }

unfoldable pub after_success : Text → ℕ → Option Text → PollState → PollState
after_success at items transport previous = record (set_transport transport previous) {
  last_attempt_at = some at;
  last_success_at = some at;
  last_item_count = some items;
  consecutive_failures = 0;
  holding = false;
  last_fault = none;
}

-- `inbound_transport === null || previous.inbound_transport === inbound_transport`.
unfoldable pub same_transport : Option Text → Option Text → Bool
same_transport none previous = true
same_transport (some transport) none = false
same_transport (some transport) (some previous) = text_eq previous transport

unfoldable pub failures_now : Option Text → PollState → ℕ
unfolding same_transport
failures_now transport previous = suc (
    if same_transport transport previous.inbound_transport
    then previous.consecutive_failures
    else 0)

unfoldable pub after_failure : Text → Fault → ℕ → Option Text → PollState → PollState
unfolding failures_now
after_failure at cause threshold transport previous = record (set_transport transport previous) {
  last_attempt_at = some at;
  consecutive_failures = failures_now transport previous;
  holding = leb threshold (failures_now transport previous);
  last_fault = some (cause, at);
}

abbrev pub wrote : PollState → Result ChannelState × ChannelFiles → Result PollState × ChannelFiles
wrote poll (ok state, files) = (ok poll, files)
wrote poll (err faults, files) = (err faults, files)
wrote poll (broken, files) = (broken, files)

-- The end that both records share: write the block, and give it back.
abbrev pub poll_block : PollState → ChannelState
poll_block poll = (text "poll", poll_value poll) ∷ []

unfoldable pub write_poll :
    Node → Channel → PollState → ChannelFiles → Result PollState × ChannelFiles
write_poll node channel poll files =
    wrote poll (write_channel_state node channel.account channel.kind (poll_block poll) files)

unfoldable pub record_poll_success :
    Node → Channel → Text → ℕ → Option Text → ChannelFiles → Result PollState × ChannelFiles
unfolding write_poll after_success
record_poll_success node channel at items transport files =
    write_poll node channel (after_success at items transport (poll_state node channel files)) files

unfoldable pub record_poll_failure :
    Node → Channel → Text → Fault → ℕ → Option Text → ChannelFiles → Result PollState × ChannelFiles
unfolding write_poll after_failure
record_poll_failure node channel at cause threshold transport files =
    write_poll node channel
      (after_failure at cause threshold transport (poll_state node channel files)) files

unfoldable pub hold_fault : Channel → Fault
hold_fault channel = fault channel_poll_hold (name (channel_name channel))

unfoldable pub poll_fault : Channel → Fault
poll_fault channel = fault channel_poll_failed (name (channel_name channel))

-- What the adapter's `poll` gave: how many items, or an error.
pub data Answer : Type 0 where
  read_items : ℕ → Answer
  threw : Answer

-- What the pass is told.
pub record Polled : Type 0 where
  pub items : ℕ
  pub holding : Bool
  pub failures : ℕ
  pub cause : Option Fault

abbrev pub told : Channel → Answer → Result PollState × ChannelFiles → Result Polled × ChannelFiles
told channel (read_items n) (ok poll, files) =
    (ok (record { items = n; holding = false; failures = 0; cause = none }), files)
told channel threw (ok poll, files) = (
  ok (record {
    items = 0;
    holding = poll.holding;
    failures = poll.consecutive_failures;
    cause = some (poll_fault channel);
  }),
  files,
)
told channel answer (err faults, files) = (err faults, files)
told channel answer (broken, files) = (broken, files)

-- The write that an answer leads to.
unfoldable pub record_answer :
    Node → Channel → Text → Answer → ChannelFiles → Result PollState × ChannelFiles
unfolding record_poll_success record_poll_failure poll_fault
record_answer node channel at (read_items n) files =
    record_poll_success node channel at n (inbound_transport_of channel) files
record_answer node channel at threw files =
    record_poll_failure node channel at (poll_fault channel) (failures_before_hold channel)
      (inbound_transport_of channel) files

-- `poll`, of an adapter that polls.
unfoldable pub poll : Node → Channel → Text → Answer → ChannelFiles → Result Polled × ChannelFiles
unfolding record_answer
poll node channel at answer files = told channel answer (record_answer node channel at answer files)
