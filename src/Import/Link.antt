-- ===== src/Import/Link.antt =====
-- import/outbound-link.ts: one send leaves a mark in up to three places, and the join finds which
-- marks are of one send. `Date.parse` is a field of `Node`, with no instant before 1970.
-- `localeCompare` depends on the machine's language and is a parameter. The `method` of a link is
-- prose for a reader and is left out; a link says whether its mark was joined, and how.
pub mod Pool
pub mod Conserves
pub mod Counted
use carbon_runtime.Common.{
  sort_by, ℕ, zero, suc, ◌+◌, ◌-◌, Bool, true, false, ◌||◌, ◌&&◌, not, List, [], ◌∷◌, ◌++◌, map,
  Option, none, some, or_else, is_some, keep, Text, text_eq, text_lt, ltb, ◌==◌, if◌then◌else◌,
  length,
}
use carbon_runtime.Stream.Platform.{Node}

pub data SourceKind : Type 0 where
  event turn audit : SourceKind

abbrev pub same_kind : SourceKind → SourceKind → Bool
same_kind event event = true
same_kind turn turn = true
same_kind audit audit = true
same_kind _ _ = false

pub record JoinItem : Type 0 where
  pub kind : SourceKind
  pub message_id : Text
  pub timestamp : Option Text
  pub conversation_id : Text

-- How one mark was joined: by its own identity, or to a send in time.
pub data Link : Type 0 where
  own : Link
  joined : (delta_ms tolerance_ms candidates : ℕ) (joined_id : Text) → Link

-- A value for each kind, or none: `Partial<Record<SourceKind, T>>`.
pub record Marks (A : Type 0) : Type 0 where
  pub event_mark : Option A
  pub turn_mark : Option A
  pub audit_mark : Option A

abbrev pub no_marks : {A : Type 0} → Marks A
no_marks = record { event_mark = none; turn_mark = none; audit_mark = none }

abbrev pub mark_of : {A : Type 0} → SourceKind → Marks A → Option A
mark_of event m = m.event_mark
mark_of turn m = m.turn_mark
mark_of audit m = m.audit_mark

abbrev pub set_mark : {A : Type 0} → SourceKind → A → Marks A → Marks A
set_mark event a m = record m { event_mark = some a }
set_mark turn a m = record m { turn_mark = some a }
set_mark audit a m = record m { audit_mark = some a }

pub record Send : Type 0 where
  pub item : JoinItem
  pub attached : Marks JoinItem
  pub links : Marks Link

-- What the join is run with: the platform, whether a string comes after another for
-- `localeCompare`, and the tolerance in milliseconds.
pub record Mapping : Type 0 where
  pub node : Node
  pub locale_after : Text → Text → Bool
  pub tolerance : ℕ

unfoldable pub millis_of : Node → JoinItem → Option ℕ
millis_of node item = node.date_parse (or_else item.timestamp [])

-- `one` belongs after `other`: later, or at the same moment and after it by its identifier.
unfoldable pub comes_after : Mapping → JoinItem → JoinItem → Bool
comes_after mapping one other =
    ltb (or_else (millis_of mapping.node other) 0) (or_else (millis_of mapping.node one) 0)
    || ((or_else (millis_of mapping.node other) 0 == or_else (millis_of mapping.node one) 0)
        && mapping.locale_after one.message_id other.message_id)

unfoldable pub ordered : Mapping → List JoinItem → List JoinItem
unfolding comes_after
ordered mapping items = sort_by (comes_after mapping) items

unfoldable pub send_for : JoinItem → Send
send_for item = record { item = item; attached = no_marks; links = set_mark item.kind own no_marks }

-- `Math.abs(theirs - at)`.
abbrev pub distance : ℕ → ℕ → ℕ
distance theirs at = (theirs - at) + (at - theirs)

-- How far a send is from a mark at the instant `at`, or none where the loop goes on to the next:
-- another conversation, a send that this kind already owns, no instant, or too far.
abbrev within : ℕ → ℕ → Option ℕ
within tolerance delta = if ltb tolerance delta then none else some delta

unfoldable pub is_open : JoinItem → SourceKind → Send → Bool
is_open item kind send =
    text_eq send.item.conversation_id item.conversation_id
    && not (same_kind send.item.kind kind || is_some (mark_of kind send.attached))

unfoldable pub reach : Mapping → JoinItem → SourceKind → ℕ → Send → Option ℕ
unfolding is_open
reach mapping item kind at send =
    if is_open item kind send
    then elim (millis_of mapping.node send.item) [
      | none ↦ none
      | some theirs ↦ within mapping.tolerance (distance theirs at)
    ]
    else none

-- The best send so far, with its place in the pool.
pub record Best : Type 0 where
  pub place : ℕ
  pub send : Send
  pub delta : ℕ

unfoldable pub is_better : Send → ℕ → Option Best → Bool
is_better send delta none = true
is_better send delta (some best) =
    ltb delta best.delta
    || ((delta == best.delta) && text_lt send.item.message_id best.send.item.message_id)

-- One turn of the loop, on the best send and the number of candidates.
unfoldable pub consider : ℕ → Send → Option ℕ → Option Best × ℕ → Option Best × ℕ
unfolding is_better
consider place send none found = found
consider place send (some delta) (best, candidates) = (
  if is_better send delta best
      then some (record { place = place; send = send; delta = delta })
      else best,
  suc candidates,
)

unfoldable pub scan :
    Mapping → JoinItem → SourceKind → ℕ → ℕ → List Send → Option Best × ℕ → Option Best × ℕ
scan mapping item kind at place [] found = found
scan mapping item kind at place (send ∷ pool) found =
    scan mapping item kind at (suc place) pool
      (consider place send (reach mapping item kind at send) found)

-- A mark with no instant finds nothing.
unfoldable pub search_at : Mapping → List Send → JoinItem → SourceKind → Option ℕ → Option Best × ℕ
unfolding scan
search_at mapping pool item kind none = (none, 0)
search_at mapping pool item kind (some at) = scan mapping item kind at 0 pool (none, 0)

-- The nearest send of the pool with the number of candidates; the place stands for the reference.
unfoldable pub nearest_send : Mapping → List Send → JoinItem → SourceKind → Option Best × ℕ
unfolding search_at
nearest_send mapping pool item kind = search_at mapping pool item kind (millis_of mapping.node item)

pub record Tally : Type 0 where
  pub seen : ℕ
  pub joined_count : ℕ
  pub alone : ℕ

-- The writes to the send that was found.
unfoldable pub attach : Mapping → SourceKind → JoinItem → ℕ → ℕ → Send → Send
attach mapping kind item delta candidates send = record send {
  attached = set_mark kind item send.attached;
  links = set_mark kind (joined delta mapping.tolerance candidates item.message_id) send.links;
}

unfoldable pub update_at : ℕ → (Send → Send) → List Send → List Send
update_at place f [] = []
update_at zero f (send ∷ pool) = f send ∷ pool
update_at (suc place) f (send ∷ pool) = send ∷ update_at place f pool

-- One item of a kind, on the pool and the counts.
unfoldable pub place_mark :
    Mapping → SourceKind → JoinItem → Option Best × ℕ → List Send × Tally → List Send × Tally
unfolding send_for attach update_at
place_mark mapping kind item (none, candidates) (pool, tally) =
    (pool ++ send_for item ∷ [], record tally { seen = suc tally.seen; alone = suc tally.alone })
place_mark mapping kind item (some best, candidates) (pool, tally) = (
  update_at best.place (attach mapping kind item best.delta candidates) pool,
  record tally { seen = suc tally.seen; joined_count = suc tally.joined_count },
)

unfoldable pub join_each :
    Mapping → SourceKind → List JoinItem → List Send × Tally → List Send × Tally
unfolding nearest_send place_mark
join_each mapping kind [] joining = joining
join_each mapping kind (item ∷ items) joining =
    join_each mapping kind items
      (place_mark mapping kind item (nearest_send mapping joining.0 item kind) joining)

abbrev pub no_tally : Tally
no_tally = record { seen = 0; joined_count = 0; alone = 0 }

-- The items of one kind, in their order.
unfoldable pub of_kind : Mapping → SourceKind → List JoinItem → List JoinItem
unfolding ordered
of_kind mapping kind items = ordered mapping (keep (λ x. same_kind x.kind kind) items)

pub record Counts : Type 0 where
  pub events : ℕ
  pub turns : Tally
  pub audits : Tally

pub record Joined : Type 0 where
  pub sends : List Send
  pub counts : Counts

-- Events are the spine; turns are joined to it before audits are.
unfoldable pub event_pool : Mapping → List JoinItem → List Send
unfolding of_kind send_for
event_pool mapping items = map send_for (of_kind mapping event items)

unfoldable pub turn_pool : Mapping → List JoinItem → List Send × Tally
unfolding join_each event_pool of_kind
turn_pool mapping items =
    join_each mapping turn (of_kind mapping turn items) (event_pool mapping items, no_tally)

unfoldable pub audit_pool : Mapping → List JoinItem → List Send × Tally
unfolding join_each turn_pool of_kind
audit_pool mapping items =
    join_each mapping audit (of_kind mapping audit items) ((turn_pool mapping items).0, no_tally)

unfoldable pub join_outbound : Mapping → List JoinItem → Joined
unfolding event_pool turn_pool audit_pool
join_outbound mapping items = record {
  sends = (audit_pool mapping items).0;
  counts = record {
    events = length (event_pool mapping items);
    turns = (turn_pool mapping items).1;
    audits = (audit_pool mapping items).1;
  };
}
