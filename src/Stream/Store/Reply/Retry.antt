-- ===== src/Stream/Store/Reply/Retry.antt =====
-- A reply that is written where its record already stands: the merge keeps the record that is there.
use carbon_runtime.Common.{
  ℕ, ◌+◌, ◌≡◌, refl, sym, ◌∙◌, subst, Bool, true, not, ◌&&◌, Option, none, some, text_eq, lookup,
  lookup-put_self, if◌then◌else◌, inl, inr, Bool-cases, leb, length,
}
use carbon_runtime.Stream.Platform.{Node}
use carbon_runtime.Stream.Fault.{ok, refuse_all, root}
use carbon_runtime.Stream.Validate.{validate}
use carbon_runtime.Stream.Paths.{RecordPath, path_key}
use carbon_runtime.Stream.Paths.Injective.{refuse_all-ok}
use carbon_runtime.Stream.Record.{MessageRecord, Delivery, Status}
use carbon_runtime.Stream.Store.{Store, Setup}
use carbon_runtime.Stream.Store.Files.{next_seq, path_of}
use carbon_runtime.Stream.Store.Capture.{
  capture, capture_at, capture_steps, no_options, CaptureResult, write_or_merge, merge_records,
  merges, append_raw, settle_disposition, with_cursor,
}
use carbon_runtime.Stream.Store.Reply.{
  reply, reply_to_request, pass_fence, write_reply, ReplyOutcome, written, fenced_sent, Fence,
  give_back, refuse, let_pass, fence_of, read_request, reply_faults, request_file,
}
use carbon_runtime.Stream.Store.Files.{records_in}
use carbon_runtime.Stream.Store.Reply.Once.{RequestAt, reply-Replied, Replied}
use carbon_runtime.Stream.Store.Post.{Post, Post-ok, after-Post, reads-Post}

-- The record at a place has the delivery and the text that it had.
abbrev pub SameReply : MessageRecord → RecordPath → Store → Type 0
SameReply e place t =
    (e' : MessageRecord) × (lookup place t.captures ≡ some e')
    × (e'.delivery ≡ e.delivery)
    × (e'.body ≡ e.body)

abbrev Merged : MessageRecord → RecordPath → MessageRecord × Bool → Store → Type 0
Merged e place o t =
    (o.0.delivery ≡ e.delivery) × (o.0.body ≡ e.body) × (o.1 ≡ true) × SameReply e place t

merge-Merged :
    (place : RecordPath) (seq : ℕ) (r e : MessageRecord) (s : Store)
    → lookup place s.captures ≡ some e
    → Post (write_or_merge place seq r (some e) s) (Merged e place)
unfolding write_or_merge merge_records
merge-Merged place seq r e s there =
    elim (Bool-cases (not (text_eq e.source r.source) && not (merges r.source))) [
      | inl claimed ↦ rw claimed tt
      | inr free ↦
          rw free
            (elim (Bool-cases
              (leb (length (merge_records e r).attachments) (length e.attachments))) [
                | inl nothing ↦ rw nothing (refl, refl, refl, (e, there, refl, refl))
                | inr grown ↦ rw grown (
                  refl,
                  refl,
                  refl,
                  (
                    merge_records e r,
                    lookup-put_self place (merge_records e r) s.captures,
                    refl,
                    refl,
                  ),
                )
              ])
    ]

abbrev KeptReply : MessageRecord → RecordPath → CaptureResult → Store → Type 0
KeptReply e place result t =
    (result.written.delivery ≡ e.delivery) × (result.written.body ≡ e.body) × SameReply e place t

unpublished :
    (e : MessageRecord) (place : RecordPath) (merged : Bool) (s u : Store)
    → merged ≡ true
    → SameReply e place s
    → SameReply e place (if merged then s else u)
unpublished e place merged s u m h = subst (λ b. SameReply e place (if b then s else u)) (sym m) h

steps-KeptReply :
    (setup : Setup) (place : RecordPath) (seq : ℕ) (r e : MessageRecord) (s : Store)
    → lookup place s.captures ≡ some e
    → Post (capture_steps setup place seq r no_options s) (KeptReply e place)
unfolding capture_steps append_raw settle_disposition
steps-KeptReply setup place seq r e s there =
    after-Post _ (write_or_merge place seq r (lookup place s.captures) s) _ λ o u did.
      let kept =
        Post-ok (Merged e place) (write_or_merge place seq r (some e) s) o u
          (merge-Merged place seq r e s there)
          (subst (λ x. write_or_merge place seq r x s ≡ (ok o, u)) there did) in
      (kept.0, kept.1, unpublished e place o.1 u _ kept.2 kept.3)

capture-KeptReply :
    (setup : Setup) (r e : MessageRecord) (place : RecordPath) (s : Store)
    → path_of setup.node r ≡ ok place
    → lookup place s.captures ≡ some e
    → Post (capture setup r no_options s) (KeptReply e place)
unfolding capture capture_at next_seq with_cursor
capture-KeptReply setup r e place s derived there =
    reads-Post _
      (refuse_all (validate setup.node (setup.record_json r) setup.message_schema root)
        (path_of setup.node r))
      _ s
      λ place' found.
        let same : place' ≡ place =
          cc ((refuse_all-ok _ (path_of setup.node r) found).1, derived) in
        subst
          (λ p.
            Post (capture_steps setup p (s.seq + 1) r no_options (record s { seq = s.seq + 1 }))
              (KeptReply e place))
          (sym same)
          (steps-KeptReply setup place (s.seq + 1) r e (record s { seq = s.seq + 1 }) there)

-- What a retry answers: the reply that was there before.
abbrev Stale : MessageRecord → RecordPath → ReplyOutcome → Store → Type 0
Stale e place (fenced_sent chunks m) t = Unit
Stale e place (written w p) t = (w.delivery ≡ e.delivery) × (w.body ≡ e.body) × SameReply e place t

path_of-delivery :
    (node : Node) (r : MessageRecord) (d : Option Delivery)
    → path_of node (record r { delivery = d }) ≡ path_of node r
unfolding path_of
path_of-delivery node r d = refl

module _ (setup : Setup) (r e : MessageRecord) (place : RecordPath)
    (derived : path_of setup.node r ≡ ok place) where
  write_reply-Stale :
      (d : Delivery) (status : Status) (s : Store)
      → lookup place s.captures ≡ some e
      → Post (write_reply setup r d status s) (Stale e place)
  unfolding write_reply
  write_reply-Stale d status s there =
      let pending_record : MessageRecord = record r {
        delivery = some (record d { status = status });
      } in
      after-Post _ (capture setup pending_record no_options s) _ λ result u did.
        let kept =
          Post-ok (KeptReply e place) (capture setup pending_record no_options s) result u
            (capture-KeptReply setup pending_record e place s
              (path_of-delivery setup.node r _ ∙ derived) there)
            did in
        reads-Post _ (request_file setup.node d.request_id) _ u λ file named. kept

  pass_fence-Stale :
      (d : Delivery) (status : Status) (f : Fence) (s : Store)
      → lookup place s.captures ≡ some e
      → Post (pass_fence setup r d status f s) (Stale e place)
  unfolding pass_fence
  pass_fence-Stale d status (give_back q) s there = tt
  pass_fence-Stale d status (refuse f) s there = tt
  pass_fence-Stale d status let_pass s there = write_reply-Stale d status s there

  reply_to_request-Stale :
      (d : Option Delivery) (status : Status) (s : Store)
      → lookup place s.captures ≡ some e
      → Post (reply_to_request setup r d status s) (Stale e place)
  unfolding reply_to_request
  reply_to_request-Stale none status s there = tt
  reply_to_request-Stale (some d) status s there =
      reads-Post _ (read_request setup.node d.request_id s) _ s
        λ found _. pass_fence-Stale d status (fence_of d.request_id found) s there

  reply-Stale :
      (status : Status) (s : Store)
      → lookup place s.captures ≡ some e
      → Post (reply setup r status s) (Stale e place)
  unfolding reply
  reply-Stale status s there =
      reads-Post _ (records_in setup.node r.conversation_id s) _ s λ found _.
        reads-Post {A = Unit {0}} _ (refuse_all (reply_faults r status found) (ok tt)) _ s
          λ _ _. reply_to_request-Stale r.delivery status s there

-- A reply that is written where a record already stands, as the retry of a failed request under its own
-- identity: the record on disk and the one given back keep the delivery and the text that they had,
-- while the request stands at the new status.
pub reply-retry_stale :
    (setup : Setup) (r e w : MessageRecord) (place p : RecordPath) (d : Delivery) (status : Status)
    (s t : Store)
    → path_of setup.node r ≡ ok place
    → lookup place s.captures ≡ some e
    → r.delivery ≡ some d
    → reply setup r status s ≡ (ok (written w p), t)
    → (w.delivery ≡ e.delivery)
      × (w.body ≡ e.body)
      × SameReply e place t
      × RequestAt setup d.request_id status t
reply-retry_stale setup r e w place p d status s t derived there has did =
    let stale =
      Post-ok (Stale e place) (reply setup r status s) (written w p) t
        (reply-Stale setup r e place derived status s there) did in
    let replied =
      Post-ok (Replied setup d status) (reply setup r status s) (written w p) t
        (reply-Replied setup r d status s has) did in
    (stale.0, stale.1, stale.2, replied.1)
