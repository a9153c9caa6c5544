-- ===== src/Import/Link/Conserves.antt =====
-- import/outbound-link.ts: the marks that the join is given are the marks that its sends carry.
use mathlib.Core.List.Perm
use mathlib.Core.List.{Perm, perm_middle}
use carbon_runtime.Common.{
  sort_by-perm, ℕ, zero, suc, ◌≡◌, refl, ap, ◌∙◌, inl, inr, Bool, true, not, ◌&&◌, ◌||◌, List, [],
  ◌∷◌, ◌++◌, map, Option, none, some, is_some, keep, arith, if◌then◌else◌, Bool-cases,
}
use carbon_runtime.Import.Link.{
  SourceKind, event, turn, audit, same_kind, JoinItem, Send, Mapping, Best, mark_of, comes_after,
  ordered, send_for, reach, is_open, nearest_send, Tally, attach, update_at, place_mark, join_each,
  of_kind, no_tally, event_pool, turn_pool, audit_pool, join_outbound,
}
use carbon_runtime.Import.Link.Pool.{At, nearest_send-IsFound}

abbrev pub with_mark : Option JoinItem → List JoinItem → List JoinItem
with_mark none rest = rest
with_mark (some a) rest = a ∷ rest

-- The marks of a pool: each send's own item, and what is attached to it.
abbrev pub marks : List Send → List JoinItem
marks [] = []
marks (s ∷ pool) =
    s.item
    ∷ with_mark s.attached.event_mark
        (with_mark s.attached.turn_mark (with_mark s.attached.audit_mark (marks pool)))

ordered-perm : (mapping : Mapping) (xs : List JoinItem) → Perm (ordered mapping xs) xs
unfolding ordered
ordered-perm mapping xs = sort_by-perm (comes_after mapping) xs

with_mark-perm :
    (o : Option JoinItem) {xs ys : List JoinItem}
    → Perm xs ys
    → Perm (with_mark o xs) (with_mark o ys)
with_mark-perm none p = p
with_mark-perm (some a) p = Perm.cons a p

with_mark-middle :
    (o : Option JoinItem) (a : JoinItem) (xs : List JoinItem)
    → Perm (with_mark o (a ∷ xs)) (a ∷ with_mark o xs)
with_mark-middle none a xs = Perm.refl (a ∷ xs)
with_mark-middle (some b) a xs = Perm.swap a b xs

-- A mark that goes below another one.
below_mark :
    (o : Option JoinItem) (a : JoinItem) {xs ys : List JoinItem}
    → Perm xs (a ∷ ys)
    → Perm (with_mark o xs) (a ∷ with_mark o ys)
below_mark o a p = Perm.trans (with_mark-perm o p) (with_mark-middle o a _)

below_item :
    (x a : JoinItem) {xs ys : List JoinItem} → Perm xs (a ∷ ys) → Perm (x ∷ xs) (a ∷ x ∷ ys)
below_item x a p = below_mark (some x) a p

-- A send that takes a mark it had not.
attach-perm :
    (mapping : Mapping) (kind : SourceKind) (a : JoinItem) (d n : ℕ) (s : Send) (pool : List Send)
    → mark_of kind s.attached ≡ none
    → Perm (marks (attach mapping kind a d n s ∷ pool)) (a ∷ marks (s ∷ pool))
unfolding attach
attach-perm mapping event a d n s pool h = rw h (below_item s.item a (Perm.refl _))
attach-perm mapping turn a d n s pool h =
    rw h (below_item s.item a (below_mark s.attached.event_mark a (Perm.refl _)))
attach-perm mapping audit a d n s pool h = rw h (
    below_item s.item a
      (below_mark s.attached.event_mark a (below_mark s.attached.turn_mark a (Perm.refl _))))

-- A mark below a whole send.
below_send :
    (s : Send) (a : JoinItem) (xs ys : List Send)
    → Perm (marks xs) (a ∷ marks ys)
    → Perm (marks (s ∷ xs)) (a ∷ marks (s ∷ ys))
below_send s a xs ys p = below_item s.item a (
    below_mark s.attached.event_mark a
      (below_mark s.attached.turn_mark a (below_mark s.attached.audit_mark a p)))

update_at-perm :
    (mapping : Mapping) (kind : SourceKind) (a : JoinItem) (d n place : ℕ) (s : Send)
    (pool : List Send)
    → At pool place s
    → mark_of kind s.attached ≡ none
    → Perm (marks (update_at place (attach mapping kind a d n) pool)) (a ∷ marks pool)
unfolding update_at
update_at-perm mapping kind a d n place s [] e h = elim e [ ]
update_at-perm mapping kind a d n zero s (t ∷ pool) e h =
    attach-perm mapping kind a d n t pool (ap (λ x. mark_of kind x.attached) e ∙ h)
update_at-perm mapping kind a d n (suc place) s (t ∷ pool) e h =
    below_send t a _ pool (update_at-perm mapping kind a d n place s pool e h)

-- A send within reach of a mark carries none of its kind.
reach-open :
    (mapping : Mapping) (item : JoinItem) (kind : SourceKind) (at d : ℕ) (s : Send)
    → reach mapping item kind at s ≡ some d
    → is_open item kind s ≡ true
unfolding reach
reach-open mapping item kind at d s h = elim (Bool-cases (is_open item kind s)) [
  | inl p ↦ p
  | inr p ↦ cc
]

free_lem :
    (same own : Bool) (o : Option JoinItem) → (same && not (own || is_some o)) ≡ true → o ≡ none
free_lem same own none h = refl
free_lem same own (some a) h = ground arith

open-free :
    (item : JoinItem) (kind : SourceKind) (s : Send)
    → is_open item kind s ≡ true
    → mark_of kind s.attached ≡ none
unfolding is_open
open-free item kind s h = free_lem _ _ (mark_of kind s.attached) h

marks-append :
    (pool : List Send) (a : JoinItem) → Perm (marks (pool ++ send_for a ∷ [])) (a ∷ marks pool)
unfolding send_for
marks-append [] a = Perm.refl _
marks-append (s ∷ pool) a = below_send s a _ pool (marks-append pool a)

place_mark-perm :
    (mapping : Mapping) (kind : SourceKind) (a : JoinItem) (pool : List Send) (tally : Tally)
    (found : Option Best × ℕ)
    → ((best : Best)
        → found.0 ≡ some best
        → At pool best.place best.send × (mark_of kind best.send.attached ≡ none))
    → Perm (marks (place_mark mapping kind a found (pool, tally)).0) (a ∷ marks pool)
unfolding place_mark
place_mark-perm mapping kind a pool tally (none, n) h = marks-append pool a
place_mark-perm mapping kind a pool tally (some best, n) h =
    let (stands, free) = h best refl in
    update_at-perm mapping kind a best.delta n best.place best.send pool stands free

nearest_send-free :
    (mapping : Mapping) (pool : List Send) (item : JoinItem) (kind : SourceKind) (best : Best)
    → (nearest_send mapping pool item kind).0 ≡ some best
    → At pool best.place best.send × (mark_of kind best.send.attached ≡ none)
nearest_send-free mapping pool item kind best e =
    let (at, same, found) = nearest_send-IsFound mapping pool item kind best e in
    (
      found.stands,
      open-free item kind best.send
          (reach-open mapping item kind at best.delta best.send found.reached),
    )

join_each-perm :
    (mapping : Mapping) (kind : SourceKind) (items : List JoinItem) (pool : List Send)
    (tally : Tally)
    → Perm (marks (join_each mapping kind items (pool, tally)).0) (items ++ marks pool)
unfolding join_each
join_each-perm mapping kind [] pool tally = Perm.refl (marks pool)
join_each-perm mapping kind (a ∷ items) pool tally =
    let found = nearest_send mapping pool a kind in
    let next = place_mark mapping kind a found (pool, tally) in
    Perm.trans (join_each-perm mapping kind items next.0 next.1) (
      Perm.trans
        (Perm.append_left items
          (place_mark-perm mapping kind a pool tally found (nearest_send-free mapping pool a kind)))
        (perm_middle items (marks pool)))

marks-map : (items : List JoinItem) → marks (map send_for items) ≡ items
unfolding send_for
marks-map [] = refl
marks-map (a ∷ items) = ap (λ xs. a ∷ xs) (marks-map items)

kind-step :
    (k : SourceKind) (x : JoinItem) (audits turns events : List JoinItem) {xs : List JoinItem}
    → Perm (audits ++ (turns ++ events)) xs
    → Perm
        ((if same_kind k audit then x ∷ audits else audits)
          ++ ((if same_kind k turn then x ∷ turns else turns)
              ++ (if same_kind k event then x ∷ events else events)))
        (x ∷ xs)
kind-step audit x audits turns events p = Perm.cons x p
kind-step turn x audits turns events p =
    Perm.trans (perm_middle audits (turns ++ events)) (Perm.cons x p)
kind-step event x audits turns events p =
    Perm.trans (Perm.append_left audits (perm_middle turns events))
      (Perm.trans (perm_middle audits (turns ++ events)) (Perm.cons x p))

-- The items of the three kinds are all the items.
kinds-perm :
    (xs : List JoinItem)
    → Perm
        (keep (λ x. same_kind x.kind audit) xs
          ++ (keep (λ x. same_kind x.kind turn) xs ++ keep (λ x. same_kind x.kind event) xs))
        xs
kinds-perm [] = Perm.refl []
kinds-perm (x ∷ xs) = kind-step x.kind x _ _ _ (kinds-perm xs)

of_kind-perm :
    (mapping : Mapping) (kind : SourceKind) (items : List JoinItem)
    → Perm (of_kind mapping kind items) (keep (λ x. same_kind x.kind kind) items)
unfolding of_kind
of_kind-perm mapping kind items = ordered-perm mapping _

event_pool-perm :
    (mapping : Mapping) (items : List JoinItem)
    → Perm (marks (event_pool mapping items)) (keep (λ x. same_kind x.kind event) items)
unfolding event_pool
event_pool-perm mapping items =
    rw (marks-map (of_kind mapping event items)) (of_kind-perm mapping event items)

turn_pool-perm :
    (mapping : Mapping) (items : List JoinItem)
    → Perm
        (marks (turn_pool mapping items).0)
        (keep (λ x. same_kind x.kind turn) items ++ keep (λ x. same_kind x.kind event) items)
unfolding turn_pool
turn_pool-perm mapping items =
    Perm.trans (join_each-perm mapping turn _ _ no_tally)
      (Perm.append (of_kind-perm mapping turn items) (event_pool-perm mapping items))

-- The join loses no mark and doubles none: the marks its sends carry, their own and those attached
-- to them, are the items it was given, in some order.
pub join_outbound-conserves :
    (mapping : Mapping) (items : List JoinItem)
    → Perm (marks (join_outbound mapping items).sends) items
unfolding join_outbound audit_pool
join_outbound-conserves mapping items = Perm.trans (join_each-perm mapping audit _ _ no_tally) (
    Perm.trans (Perm.append (of_kind-perm mapping audit items) (turn_pool-perm mapping items))
      (kinds-perm items))
