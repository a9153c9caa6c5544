-- ===== src/Import/Link/Counted.antt =====
-- import/outbound-link.ts: what the counts of a join say of its sends.
use carbon_runtime.Common.{
  ℕ, zero, suc, ◌+◌, ◌≡◌, refl, List, [], ◌∷◌, map, Option, none, some, arith, length,
  length-append,
}
use carbon_runtime.Import.Link.{
  SourceKind, event, turn, audit, JoinItem, Send, Mapping, Best, nearest_send, send_for, Tally,
  attach, update_at, place_mark, join_each, of_kind, no_tally, event_pool, turn_pool, audit_pool,
  join_outbound, Joined,
}

length-update_at :
    (place : ℕ) (f : Send → Send) (pool : List Send) → length (update_at place f pool) ≡ length pool
unfolding update_at
length-update_at place f [] = refl
length-update_at zero f (s ∷ pool) = refl
length-update_at (suc place) f (s ∷ pool) = omega (arith, length-update_at place f pool)

-- A tally that has seen `n` more marks than the one before, each either joined or alone, where the
-- pool has grown by those alone.
record HasCounted (n : ℕ) (before after : List Send × Tally) : Type 0 where
  seen : after.1.seen ≡ before.1.seen + n
  each : after.1.joined_count + after.1.alone ≡ before.1.joined_count + before.1.alone + n
  grown : length after.0 + before.1.alone ≡ length before.0 + after.1.alone

place_mark-HasCounted :
    (mapping : Mapping) (kind : SourceKind) (a : JoinItem) (found : Option Best × ℕ)
    (before : List Send × Tally)
    → HasCounted 1 before (place_mark mapping kind a found before)
unfolding place_mark
place_mark-HasCounted mapping kind a (none, n) (pool, tally) = record {
  seen = omega arith;
  each = omega arith;
  grown = omega (arith, length-append pool (send_for a ∷ []));
}
place_mark-HasCounted mapping kind a (some best, n) (pool, tally) = record {
  seen = omega arith;
  each = omega arith;
  grown = omega (arith, length-update_at best.place (attach mapping kind a best.delta n) pool);
}

join_each-HasCounted :
    (mapping : Mapping) (kind : SourceKind) (items : List JoinItem) (before : List Send × Tally)
    → HasCounted (length items) before (join_each mapping kind items before)
unfolding join_each
join_each-HasCounted mapping kind [] before = record {
  seen = omega arith;
  each = omega arith;
  grown = refl;
}
join_each-HasCounted mapping kind (a ∷ items) before =
    let one = place_mark-HasCounted mapping kind a (nearest_send mapping before.0 a kind) before in
    let rest =
      join_each-HasCounted mapping kind items
        (place_mark mapping kind a (nearest_send mapping before.0 a kind) before) in
    record {
      seen = omega (arith, one.seen, rest.seen);
      each = omega (arith, one.each, rest.each);
      grown = omega (arith, one.grown, rest.grown);
    }

-- What the counts of a join are.
pub record IsCounted (mapping : Mapping) (items : List JoinItem) (result : Joined) : Type 0 where
  pub events : result.counts.events ≡ length (of_kind mapping event items)
  pub turns : result.counts.turns.seen ≡ length (of_kind mapping turn items)
  pub turns_each :
      result.counts.turns.joined_count + result.counts.turns.alone ≡ result.counts.turns.seen
  pub audits : result.counts.audits.seen ≡ length (of_kind mapping audit items)
  pub audits_each :
      result.counts.audits.joined_count + result.counts.audits.alone ≡ result.counts.audits.seen
  pub sends :
      length result.sends
      ≡ result.counts.events + result.counts.turns.alone + result.counts.audits.alone

length-map : (items : List JoinItem) → length (map send_for items) ≡ length items
length-map [] = refl
length-map (a ∷ items) = omega (arith, length-map items)

-- The counts of a join add up: it counts every event, turn and audit it is given, each turn and
-- each audit as joined or as alone, and its sends are the events with the turns and the audits that
-- are alone.
pub join_outbound-IsCounted :
    (mapping : Mapping) (items : List JoinItem)
    → IsCounted mapping items (join_outbound mapping items)
unfolding join_outbound event_pool turn_pool audit_pool
join_outbound-IsCounted mapping items =
    let t =
      join_each-HasCounted mapping turn (of_kind mapping turn items)
        (event_pool mapping items, no_tally) in
    let a =
      join_each-HasCounted mapping audit (of_kind mapping audit items)
        ((turn_pool mapping items).0, no_tally) in
    record {
      events = length-map (of_kind mapping event items);
      turns = omega (arith, t.seen);
      turns_each = omega (arith, t.seen, t.each);
      audits = omega (arith, a.seen);
      audits_each = omega (arith, a.seen, a.each);
      sends = omega (arith, t.grown, a.grown);
    }
