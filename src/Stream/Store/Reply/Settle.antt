-- ===== src/Stream/Store/Reply/Settle.antt =====
-- settleDelivery: the record and its request are settled together.
use carbon_runtime.Common.{
  ◌+◌, ◌≡◌, refl, ap, ◌∙◌, inl, inr, Bool-cases, Option, some, none, [], ◌∷◌, text, or_else, Text,
  lookup, lookup-put_self,
}
use carbon_runtime.Stream.Platform.{Node}
use carbon_runtime.Stream.Fault.{Result, ok, err, broken}
use carbon_runtime.Stream.Paths.{RecordPath, text_key, path_key}
use carbon_runtime.Stream.Json.{integer}
use carbon_runtime.Stream.Spread.{spread_on}
use carbon_runtime.Stream.Record.{MessageRecord, Delivery, Status}
use carbon_runtime.Stream.Store.{Store, ReplyRequest, state_change}
use carbon_runtime.Stream.Store.Files.{
  is_browser, mark_browser, write_record, read, path_of, publish-SameFiles,
}
use carbon_runtime.Stream.Store.Reply.{
  read_request, request_file, write_request, Settlement, first_some, settled, write_settled,
  settle_delivery,
}

-- A record that is marked keeps its identity and its delivery, and marking it writes no file.
record IsMarked (r : MessageRecord) (s : Store) (m : MessageRecord) (t : Store) : Type 0 where
  marks : mark_browser r s ≡ (ok m, t)
  delivery : m.delivery ≡ r.delivery
  captures : t.captures ≡ s.captures
  requests : t.requests ≡ s.requests

mark_browser-IsMarked :
    (r : MessageRecord) (s : Store) → (m : MessageRecord) × (t : Store) × IsMarked r s m t
unfolding mark_browser
mark_browser-IsMarked r s = elim (Bool-cases (is_browser r)) [
  | inl h ↦ (
    record r {
      adapter_fields =
          spread_on r.adapter_fields ((text "browser_event_seq", integer (s.seq + 1)) ∷ []);
    },
    record s { seq = s.seq + 1 },
    record { marks = rw h refl; delivery = refl; captures = refl; requests = refl },
  )
  | inr h ↦ (r, s, record { marks = rw h refl; delivery = refl; captures = refl; requests = refl })
]

-- The request of a settlement.
abbrev pub settled_request : Status → Settlement → ReplyRequest → ReplyRequest
settled_request status extra q = record q {
  status = status;
  chunk_ids = or_else extra.chunk_ids q.chunk_ids;
}

-- What is given replaces what was there.
abbrev given_or {ℓ} : {A : Type ℓ} → Option A → Option A → Option A
given_or (some v) o = some v
given_or none o = o

-- A delivery after its settlement: at the new status, with what the settlement gives, and for the
-- rest the delivery that was there; where none was, it has no request and no digest.
abbrev pub IsSettledFrom : Status → Settlement → Option Delivery → Delivery → Type 0
IsSettledFrom status extra (some old) d =
    (d.status ≡ status)
    × (d.chunk_ids ≡ given_or extra.chunk_ids old.chunk_ids)
    × (d.completed_at ≡ given_or extra.completed_at old.completed_at)
    × (d.request_id ≡ old.request_id)
    × (d.text_sha256 ≡ old.text_sha256)
IsSettledFrom status extra none d =
    (d.status ≡ status)
    × (d.chunk_ids ≡ extra.chunk_ids)
    × (d.completed_at ≡ extra.completed_at)
    × (d.request_id ≡ [])
    × (d.text_sha256 ≡ none)

first_some-given {ℓ} : {A : Type ℓ} (a b : Option A) → first_some a b ≡ given_or a b
first_some-given (some a) b = refl
first_some-given none b = refl

settled-IsSettledFrom :
    (status : Status) (extra : Settlement) (old : Option Delivery)
    → IsSettledFrom status extra old (settled status extra old)
unfolding settled
settled-IsSettledFrom status extra (some old) =
    (refl, first_some-given extra.chunk_ids _, first_some-given extra.completed_at _, refl, refl)
settled-IsSettledFrom status extra none = (refl, refl, refl, refl, refl)

-- What a settlement that succeeds leaves: it gives the record as it is on disk, whose delivery is at
-- the new status, and the request's file is at the new status too.
pub record IsSettled (node : Node) (request_id : Text) (status : Status) (extra : Settlement)
    (q : ReplyRequest) (r : MessageRecord) (place : RecordPath)
    (done : Result MessageRecord × Store) : Type 0 where
  pub written : MessageRecord
  pub returns : done.0 ≡ ok written
  pub now : Delivery
  pub delivery : written.delivery ≡ some now
  pub settled_lem : IsSettledFrom status extra r.delivery now
  pub on_disk : lookup place done.1.captures ≡ some written
  pub request : read_request node request_id done.1 ≡ ok (some (settled_request status extra q))

write_settled-IsSettled :
    (node : Node) (request_id : Text) (q : ReplyRequest) (status : Status) (extra : Settlement)
    (r : MessageRecord) (place : RecordPath) (file : Text) (s : Store)
    → request_file node request_id ≡ ok file
    → IsSettled node request_id status extra q r place
        (write_settled node request_id q status extra r place s)
unfolding write_settled write_record write_request read_request
write_settled-IsSettled node request_id q status extra r place file s named =
    let (m, t, h) =
      mark_browser-IsMarked (record r { delivery = some (settled status extra r.delivery) }) s in
    rw (h.marks, named)
      (record {
        written = m;
        returns = refl;
        now = settled status extra r.delivery;
        delivery = h.delivery;
        settled_lem = settled-IsSettledFrom status extra r.delivery;
        on_disk =
            ap (λ c. lookup place c) (publish-SameFiles m state_change none _).same_captures
            ∙ lookup-put_self place m t.captures;
        request =
            rw (named, read_request)
              (ap ok (
                ap (λ c. lookup file c) (publish-SameFiles m state_change none _).same_requests
                ∙ lookup-put_self file (settled_request status extra q) t.requests));
      })

file_of :
    (f : Result Text) (s : Store) (found : Option ReplyRequest)
    → (elim f as (λ _. Result (Option ReplyRequest)) [
      | ok file ↦ ok (lookup file s.requests)
      | err faults ↦ err faults
      | broken ↦ broken
    ])
      ≡ ok found
    → (file : Text) × (f ≡ ok file)
file_of (ok file) s found e = (file, refl)
file_of (err faults) s found e = cc
file_of broken s found e = cc

read_request-file :
    (node : Node) (request_id : Text) (s : Store) (found : Option ReplyRequest)
    → read_request node request_id s ≡ ok found
    → (file : Text) × (request_file node request_id ≡ ok file)
unfolding read_request
read_request-file node request_id s found = file_of (request_file node request_id) s found

-- A settlement of a request that is there, whose record is there to be read, returns, and both the
-- record and the request are then at the new status: the record on disk is the one given back; its
-- delivery has the new status, the chunks and the time that the settlement gives or else its own,
-- and the request and the digest it had; and the request keeps all but its status and its chunks.
pub settle_delivery-IsSettled :
    (node : Node) (request_id : Text) (status : Status) (extra : Settlement) (q : ReplyRequest)
    (r : MessageRecord) (place : RecordPath) (s : Store)
    → read_request node request_id s ≡ ok (some q)
    → read node q.conversation_id q.message_id q.revision s ≡ ok (some r)
    → path_of node r ≡ ok place
    → IsSettled node request_id status extra q r place
        (settle_delivery node request_id status extra s)
unfolding settle_delivery
settle_delivery-IsSettled node request_id status extra q r place s asked there placed =
    let (file, named) = read_request-file node request_id s (some q) asked in
    rw (asked, there, placed)
      (write_settled-IsSettled node request_id q status extra r place file s named)
