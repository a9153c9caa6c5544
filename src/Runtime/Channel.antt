-- ===== src/Runtime/Channel.antt =====
-- runtime/channel-state.ts: the file of each channel below `channels/`. Its fields are the poll's
-- block, written by the runtime, and the other blocks, written by the channel's adapter. A file that
-- does not parse is read as one that is not there, and the model has it as not there. A file that
-- holds JSON holds an object.
-- `channelStatesUnder` walks a directory and is not modelled.
pub mod Blocks
use carbon_runtime.Common.{
  ℕ, Bool, false, List, [], ◌∷◌, ◌++◌, Option, none, some, or_else, Text, text, lookup, put,
}
use carbon_runtime.Stream.Platform.{Node}
use carbon_runtime.Stream.Fault.{Fault, name, Result, ok, err, broken, refuse_all}
use carbon_runtime.Stream.Json.{Json, null, str}
use carbon_runtime.Stream.Spread.{overlay}
use carbon_runtime.Stream.Encode.{component_faults, encode_component}
use carbon_runtime.Stream.Paths.{RecordPath, path_key, text_key}

pub record PollState : Type 0 where
  pub inbound_transport : Option Text
  pub last_attempt_at : Option Text
  pub last_success_at : Option Text
  pub last_item_count : Option ℕ
  pub consecutive_failures : ℕ
  pub holding : Bool
  -- The fault with its `at`.
  pub last_fault : Option (Fault × Text)

-- What a field of the file has: the poll's block as the runtime writes it, or any other value.
pub data Block : Type 0 where
  poll_value : PollState → Block
  value : Json → Block

-- The object of the file, as its fields.
abbrev pub ChannelState : Type 0
ChannelState = List (Text × Block)

abbrev pub ChannelFiles : Type 0
ChannelFiles = List (RecordPath × ChannelState)

-- Where the file of a channel is, or the faults of its names.
unfoldable pub channel_state_file : Node → Text → Text → Result RecordPath
channel_state_file node account kind =
    refuse_all
      (component_faults node (name (text "account")) (some account)
        ++ component_faults node (name (text "channel kind")) (some kind))
      (ok (record { directory = encode_component node account; stem = encode_component node kind }))

abbrev pub no_state : Text → Text → ChannelState
no_state account kind =
    (text "account", value (str account))
    ∷ (text "kind", value (str kind))
    ∷ (text "poll", value null)
    ∷ []

-- The `catch` takes any error, that of the names included.
unfoldable pub read_state_at : Text → Text → Result RecordPath → ChannelFiles → ChannelState
read_state_at account kind (ok place) files = or_else (lookup place files) (no_state account kind)
read_state_at account kind (err faults) files = no_state account kind
read_state_at account kind broken files = no_state account kind

unfoldable pub read_channel_state : Node → Text → Text → ChannelFiles → ChannelState
unfolding read_state_at
read_channel_state node account kind files =
    read_state_at account kind (channel_state_file node account kind) files

-- `{ ...state, account, kind, ...patch }`.
unfoldable pub merge_patch : Text → Text → ChannelState → ChannelState → ChannelState
unfolding overlay
merge_patch account kind patch state =
    overlay
      (overlay state ((text "account", value (str account)) ∷ (text "kind", value (str kind)) ∷ []))
      patch

unfoldable pub write_state_at :
    Result RecordPath → ChannelState → ChannelFiles → Result ChannelState × ChannelFiles
write_state_at (ok place) state files = (ok state, put place state files)
write_state_at (err faults) state files = (err faults, files)
write_state_at broken state files = (broken, files)

unfoldable pub write_channel_state :
    Node → Text → Text → ChannelState → ChannelFiles → Result ChannelState × ChannelFiles
unfolding write_state_at merge_patch
write_channel_state node account kind patch files =
    write_state_at (channel_state_file node account kind)
      (merge_patch account kind patch (read_channel_state node account kind files)) files
