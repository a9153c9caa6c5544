-- ===== src/Runtime/Poll/Trail.antt =====
-- runtime/poll.ts: the count on the channel's file, against the polls that were made.
use carbon_runtime.Common.{
  ℕ, suc, ◌≤◌, ◌≡◌, refl, ap, sym, ◌∙◌, ◌⊎◌, inl, inr, true, false, List, [], ◌∷◌, Option, none,
  some, or_else, Text, text, text_eq, leb, arith, text_eq_refl,
}
use carbon_runtime.Stream.Platform.{Node}
use carbon_runtime.Stream.Fault.{Fault, Result, ok, err, broken}
use carbon_runtime.Stream.Json.{
  Json, null, boolean, integer, negative, fraction, negative_fraction, str, arr, obj,
}
use carbon_runtime.Stream.Paths.{RecordPath, path_key, text_key}
use carbon_runtime.Stream.Spread.{last_of}
use carbon_runtime.Runtime.Channel.{
  PollState, ChannelState, ChannelFiles, poll_value, channel_state_file, read_channel_state,
  write_channel_state,
}
use carbon_runtime.Runtime.Channel.Blocks.{read-write_state, merge_patch-given}
use carbon_runtime.Runtime.Poll.{
  Channel, whole_from_one, failures_before_hold, inbound_transport_of, fresh_poll, poll_state,
  set_transport, same_transport, failures_now, after_success, after_failure, write_poll,
  record_poll_success, record_poll_failure, record_answer, Answer, read_items, threw, poll,
  poll_fault, wrote, told, poll_of, as_poll, poll_block,
}

-- The polls of a channel, the last one first, each with its instant.
abbrev pub History : Type 0
History = List (Text × Answer)

abbrev pub run : Node → Channel → History → ChannelFiles → ChannelFiles
run node channel [] files = files
run node channel ((at, answer) ∷ history) files =
    (poll node channel at answer (run node channel history files)).1

-- How many polls have failed since the last one that worked.
abbrev pub trailing : History → ℕ
trailing [] = 0
trailing ((at, read_items n) ∷ history) = 0
trailing ((at, threw) ∷ history) = suc (trailing history)

-- A poll's block that counts `n` failures in a row by the transport in use.
pub record IsTrailing (threshold : ℕ) (transport : Option Text) (n : ℕ) (poll : PollState)
    : Type 0 where
  pub count : poll.consecutive_failures ≡ n
  pub held : poll.holding ≡ leb threshold n
  pub current : (same_transport transport poll.inbound_transport ≡ true) ⊎ (n ≡ 0)

whole_from_one-positive : (declared : Option Json) → 1 ≤ whole_from_one declared
unfolding whole_from_one
whole_from_one-positive none = omega arith
whole_from_one-positive (some (integer n)) = ground arith
whole_from_one-positive (some (fraction n i)) = ground arith
whole_from_one-positive (some null) = omega arith
whole_from_one-positive (some (boolean b)) = omega arith
whole_from_one-positive (some (negative n)) = omega arith
whole_from_one-positive (some (negative_fraction n)) = omega arith
whole_from_one-positive (some (str s)) = omega arith
whole_from_one-positive (some (arr items)) = omega arith
whole_from_one-positive (some (obj fields)) = omega arith

failures_before_hold-positive : (channel : Channel) → 1 ≤ failures_before_hold channel
unfolding failures_before_hold
failures_before_hold-positive channel = whole_from_one-positive channel.poll_failures_before_hold

set_transport-same :
    (t : Option Text) (p : PollState)
    → same_transport t (set_transport t p).inbound_transport ≡ true
unfolding same_transport
set_transport-same none p = refl
set_transport-same (some t) p = text_eq_refl t

-- Nothing counted is nothing held.
zero-IsTrailing :
    (threshold : ℕ) (t : Option Text) (p : PollState)
    → 1 ≤ threshold
    → p.consecutive_failures ≡ 0
    → p.holding ≡ false
    → IsTrailing threshold t 0 p
zero-IsTrailing threshold t p least count held = record {
  count = count;
  held = held ∙ ground arith;
  current = inr refl;
}

after_success-IsTrailing :
    (threshold : ℕ) (at : Text) (items : ℕ) (t : Option Text) (p : PollState)
    → 1 ≤ threshold
    → IsTrailing threshold t 0 (after_success at items t p)
unfolding after_success
after_success-IsTrailing threshold at items t p least =
    zero-IsTrailing threshold t (after_success at items t p) least refl refl

failures_now_lem :
    (threshold n : ℕ) (t : Option Text) (p : PollState)
    → IsTrailing threshold t n p
    → failures_now t p ≡ suc n
unfolding failures_now
failures_now_lem threshold n t p h = elim h.current [
  | inl same ↦ rw (same, h.count) refl
  | inr e ↦ ground (arith, h.count, e)
]

after_failure-IsTrailing :
    (threshold n : ℕ) (at : Text) (cause : Fault) (t : Option Text) (p : PollState)
    → IsTrailing threshold t n p
    → IsTrailing threshold t (suc n) (after_failure at cause threshold t p)
unfolding after_failure
after_failure-IsTrailing threshold n at cause t p h = record {
  count = failures_now_lem threshold n t p h;
  held = ap (leb threshold) (failures_now_lem threshold n t p h);
  current = inl (set_transport-same t p);
}

wrote-files : (p : PollState) (r : Result ChannelState × ChannelFiles) → (wrote p r).1 ≡ r.1
wrote-files p (ok state, files) = refl
wrote-files p (err faults, files) = refl
wrote-files p (broken, files) = refl

told-files :
    (channel : Channel) (answer : Answer) (r : Result PollState × ChannelFiles)
    → (told channel answer r).1 ≡ r.1
told-files channel (read_items n) (ok p, files) = refl
told-files channel threw (ok p, files) = refl
told-files channel answer (err faults, files) = refl
told-files channel answer (broken, files) = refl

poll_state-write :
    (node : Node) (channel : Channel) (p : PollState) (files : ChannelFiles) (place : RecordPath)
    → channel_state_file node channel.account channel.kind ≡ ok place
    → poll_state node channel (write_poll node channel p files).1 ≡ p
unfolding poll_state write_poll last_of text_eq
poll_state-write node channel p files place h =
    ap (λ f. or_else (poll_of (read_channel_state node channel.account channel.kind f)) fresh_poll)
      (wrote-files p (write_channel_state node channel.account channel.kind (poll_block p) files))
    ∙ ap (λ x. or_else (poll_of x) fresh_poll)
        (read-write_state node channel.account channel.kind (poll_block p) files place h)
    ∙ ap (λ o. or_else (as_poll o) fresh_poll)
        (merge_patch-given channel.account channel.kind (text "poll") (poll_value p) (poll_block p)
          (read_channel_state node channel.account channel.kind files) refl)

-- What one poll leaves of the count.
abbrev counted : ℕ → Answer → ℕ
counted n (read_items k) = 0
counted n threw = suc n

record_answer-IsTrailing :
    (node : Node) (channel : Channel) (at : Text) (answer : Answer) (files : ChannelFiles)
    (place : RecordPath) (n : ℕ)
    → channel_state_file node channel.account channel.kind ≡ ok place
    → IsTrailing
        (failures_before_hold channel)
        (inbound_transport_of channel)
        n
        (poll_state node channel files)
    → IsTrailing
        (failures_before_hold channel)
        (inbound_transport_of channel)
        (counted n answer)
        (poll_state node channel (record_answer node channel at answer files).1)
unfolding record_answer record_poll_success record_poll_failure
record_answer-IsTrailing node channel at (read_items k) files place n h p =
    rw (poll_state-write node channel _ files place h) (
      after_success-IsTrailing (failures_before_hold channel) at k (inbound_transport_of channel)
        (poll_state node channel files) (failures_before_hold-positive channel))
record_answer-IsTrailing node channel at threw files place n h p =
    rw (poll_state-write node channel _ files place h) (
      after_failure-IsTrailing (failures_before_hold channel) n at (poll_fault channel)
        (inbound_transport_of channel) (poll_state node channel files) p)

poll-IsTrailing :
    (node : Node) (channel : Channel) (at : Text) (answer : Answer) (files : ChannelFiles)
    (place : RecordPath) (n : ℕ)
    → channel_state_file node channel.account channel.kind ≡ ok place
    → IsTrailing
        (failures_before_hold channel)
        (inbound_transport_of channel)
        n
        (poll_state node channel files)
    → IsTrailing
        (failures_before_hold channel)
        (inbound_transport_of channel)
        (counted n answer)
        (poll_state node channel (poll node channel at answer files).1)
unfolding poll
poll-IsTrailing node channel at answer files place n h p =
    rw (told-files channel answer (record_answer node channel at answer files))
      (record_answer-IsTrailing node channel at answer files place n h p)

trailing-counted :
    (at : Text) (answer : Answer) (history : History)
    → counted (trailing history) answer ≡ trailing ((at, answer) ∷ history)
trailing-counted at (read_items n) history = refl
trailing-counted at threw history = refl

-- After any polls of a channel that had failed none before, the count on the channel's file is that
-- of the polls that have failed since the last one that worked, and the channel is held exactly
-- where that count has reached the number that the channel declares, or three. The channel's names
-- have no fault, and its declaration, so its transport, is the same for all the polls.
pub run-IsTrailing :
    (node : Node) (channel : Channel) (history : History) (files : ChannelFiles)
    (place : RecordPath)
    → channel_state_file node channel.account channel.kind ≡ ok place
    → (poll_state node channel files).consecutive_failures ≡ 0
    → (poll_state node channel files).holding ≡ false
    → IsTrailing
        (failures_before_hold channel)
        (inbound_transport_of channel)
        (trailing history)
        (poll_state node channel (run node channel history files))
run-IsTrailing node channel [] files place h count held =
    zero-IsTrailing (failures_before_hold channel) (inbound_transport_of channel)
      (poll_state node channel files) (failures_before_hold-positive channel) count held
run-IsTrailing node channel ((at, answer) ∷ history) files place h count held =
    rw (sym (trailing-counted at answer history)) (
      poll-IsTrailing node channel at answer (run node channel history files) place
        (trailing history) h (run-IsTrailing node channel history files place h count held))
