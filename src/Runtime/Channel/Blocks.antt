-- ===== src/Runtime/Channel/Blocks.antt =====
-- runtime/channel-state.ts: a write of one block leaves the other blocks of the file and the files
-- of the other channels.
use carbon_runtime.Common.{
  ◌≡◌, ◌≢◌, refl, sym, ap, ◌∙◌, [], ◌∷◌, some, none, inl, inr, Bool-cases, false, text, text_eq,
  text_eq_iff, put, or_else, Text, lookup, lookup-put_self, lookup-put_other,
}
use carbon_runtime.Stream.Platform.{Node}
use carbon_runtime.Stream.Fault.{Result, ok, err, broken}
use carbon_runtime.Stream.Json.{str}
use carbon_runtime.Stream.Spread.{over, last_of, lookup-overlay}
use carbon_runtime.Stream.Paths.{RecordPath, path_key, text_key}
use carbon_runtime.Runtime.Channel.{
  Block, value, ChannelState, ChannelFiles, channel_state_file, read_state_at, read_channel_state,
  merge_patch, write_state_at, write_channel_state,
}

-- A state that is written is the one that is read, whatever was there.
pub read-write_state :
    (node : Node) (account kind : Text) (patch : ChannelState) (files : ChannelFiles)
    (place : RecordPath)
    → channel_state_file node account kind ≡ ok place
    → read_channel_state node account kind (write_channel_state node account kind patch files).1
      ≡ merge_patch account kind patch (read_channel_state node account kind files)
unfolding read_channel_state write_channel_state read_state_at write_state_at
read-write_state node account kind patch files place h =
    rw
      (
        h,
        lookup-put_self place (merge_patch account kind patch (or_else (lookup place files) _))
            files,
      )
      refl

write-merge_patch :
    (node : Node) (account kind : Text) (patch : ChannelState) (files : ChannelFiles)
    (place : RecordPath)
    → channel_state_file node account kind ≡ ok place
    → (write_channel_state node account kind patch files).0
      ≡ ok (merge_patch account kind patch (read_channel_state node account kind files))
unfolding write_channel_state write_state_at
write-merge_patch node account kind patch files place h = rw h refl

abbrev state_after : Node → Text → Text → ChannelState → ChannelFiles → ChannelState
state_after node account kind patch files =
    read_channel_state node account kind (write_channel_state node account kind patch files).1

merge_patch-lookup :
    (account kind : Text) (key : Text) (patch state : ChannelState)
    → lookup key (merge_patch account kind patch state)
      ≡ over (last_of key patch) (
          over
            (last_of key
              ((text "account", value (str account)) ∷ (text "kind", value (str kind)) ∷ []))
            (lookup key state))
unfolding merge_patch
merge_patch-lookup account kind key patch state =
    lookup-overlay key _ patch ∙ ap (over (last_of key patch)) (lookup-overlay key state _)

-- What the patch has under a name is what is written there.
pub merge_patch-given :
    (account kind key : Text) (block : Block) (patch state : ChannelState)
    → last_of key patch ≡ some block
    → lookup key (merge_patch account kind patch state) ≡ some block
merge_patch-given account kind key block patch state e =
    merge_patch-lookup account kind key patch state ∙ rw e refl

apart_from : {key other : Text} → key ≢ other → text_eq other key ≡ false
apart_from {key = key} {other = other} h = elim (Bool-cases (text_eq other key)) [
  | inl e ↦ elim (h (sym ((text_eq_iff other key).0 e))) [ ]
  | inr e ↦ e
]

-- A name that neither the patch nor the write has keeps what it had.
merge_patch-kept :
    (account kind key : Text) (patch state : ChannelState)
    → last_of key patch ≡ none
    → key ≢ text "account"
    → key ≢ text "kind"
    → lookup key (merge_patch account kind patch state) ≡ lookup key state
unfolding last_of
merge_patch-kept account kind key patch state e a k =
    merge_patch-lookup account kind key patch state
    ∙ rw (e, apart_from {other = text "account"} a, apart_from {other = text "kind"} k) refl

-- What a write of a channel's file does to every channel's file.
pub record IsWritten (node : Node) (account kind : Text) (patch : ChannelState)
    (files : ChannelFiles) : Type 0 where
  -- What is given back is what is there to be read.
  pub returns :
      (write_channel_state node account kind patch files).0
      ≡ ok (state_after node account kind patch files)
  -- Every field of the patch is there.
  pub given :
      (key : Text) (block : Block)
      → last_of key patch ≡ some block
      → lookup key (state_after node account kind patch files) ≡ some block
  -- The file names its channel, unless the patch has other names.
  pub account_named :
      last_of (text "account") patch ≡ none
      → lookup (text "account") (state_after node account kind patch files)
        ≡ some (value (str account))
  pub kind_named :
      last_of (text "kind") patch ≡ none
      → lookup (text "kind") (state_after node account kind patch files) ≡ some (value (str kind))
  -- Every other field has what was read before.
  pub kept :
      (key : Text)
      → last_of key patch ≡ none
      → key ≢ text "account"
      → key ≢ text "kind"
      → lookup key (state_after node account kind patch files)
        ≡ lookup key (read_channel_state node account kind files)
  -- A channel with another file reads what it read.
  pub others :
      (account' kind' : Text)
      → channel_state_file node account kind ≢ channel_state_file node account' kind'
      → read_channel_state node account' kind' (write_channel_state node account kind patch files).1
        ≡ read_channel_state node account' kind' files

read_other :
    (account kind : Text) (place : RecordPath) (r : Result RecordPath) (state : ChannelState)
    (files : ChannelFiles)
    → ok place ≢ r
    → read_state_at account kind r (put place state files) ≡ read_state_at account kind r files
unfolding read_state_at
read_other account kind place (ok q) state files apart =
    rw (lookup-put_other place q state files (λ e. apart (ap ok e))) refl
read_other account kind place (err faults) state files apart = refl
read_other account kind place broken state files apart = refl

-- A write of a channel's state is read back: every field of the patch, the last of its name, with
-- its value; the account and the kind where the patch has none of its own; and every other field as
-- it was, the poll's block and the adapter's alike. Every channel that has another file keeps the
-- state it had. The channel's names have no fault.
pub write_channel_state-IsWritten :
    (node : Node) (account kind : Text) (patch : ChannelState) (files : ChannelFiles)
    (place : RecordPath)
    → channel_state_file node account kind ≡ ok place
    → IsWritten node account kind patch files
unfolding write_channel_state write_state_at read_channel_state last_of text_eq
write_channel_state-IsWritten node account kind patch files place h =
    let same = read-write_state node account kind patch files place h in
    let before = read_channel_state node account kind files in
    let at : (key : Text) → _ = λ key. ap (λ x. lookup key x) same in
    record {
      returns = write-merge_patch node account kind patch files place h ∙ ap ok (sym same);
      given = λ key block e. at key ∙ merge_patch-given account kind key block patch before e;
      account_named = λ e.
          at (text "account")
          ∙ merge_patch-lookup account kind (text "account") patch before
          ∙ rw e refl;
      kind_named = λ e.
          at (text "kind") ∙ merge_patch-lookup account kind (text "kind") patch before ∙ rw e refl;
      kept = λ key e a k. at key ∙ merge_patch-kept account kind key patch before e a k;
      others = λ account' kind' apart.
          rw h (read_other account' kind' place _ _ files (λ e. apart (h ∙ e)));
    }
