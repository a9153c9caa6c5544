-- ===== src/Stream/Store/Reply/Once.antt =====
-- The reply fence: one request id is one reply.
use carbon_runtime.Common.{
  ◌≡◌, refl, sym, ap, subst, List, [], ◌∷◌, some, Text, put, lookup-put_self,
}
use carbon_runtime.Stream.Platform.{Node}
use carbon_runtime.Stream.Fault.{
  Fault, fault, name, Result, ok, err, broken, refuse_all, request_already_pending,
  delivery_unknown_never_retried,
}
use carbon_runtime.Stream.Paths.{RecordPath, text_key, path_key}
use carbon_runtime.Stream.Record.{
  MessageRecord, Delivery, Status, pending, pending_teach_check, sent, unknown, failed,
  other_status,
}
use carbon_runtime.Stream.Store.{Store, Setup, Exec, ReplyRequest, after}
use carbon_runtime.Stream.Store.Post.{Post, after-Post, reads-Post, Post-ok, Post-weaken}
use carbon_runtime.Stream.Store.Files.{records_in}
use carbon_runtime.Stream.Store.Capture.{capture, no_options}
use carbon_runtime.Stream.Store.Reply.{
  reply, reply_to_request, pass_fence, write_reply, read_request, request_file, reply_faults, Fence,
  give_back, refuse, let_pass, fence_of, ReplyOutcome, fenced_sent, written,
}

-- A request that closes its id: everything but a known failure.
abbrev pub IsClosed : Status → Type 0
IsClosed sent = Unit
IsClosed pending = Unit
IsClosed pending_teach_check = Unit
IsClosed unknown = Unit
IsClosed failed = ⊥
IsClosed (other_status w) = ⊥

-- A part that only reads, where the rest changes nothing.
reads-unchanged :
    {A B : Type 0} (r : Result A) (f : A → Exec B) (s : Store)
    → ((a : A) → r ≡ ok a → (f a s).1 ≡ s)
    → (after (r, s) f).1 ≡ s
reads-unchanged (ok a) f s h = h a refl
reads-unchanged (err faults) f s h = refl
reads-unchanged broken f s h = refl

closed-unchanged :
    (setup : Setup) (r : MessageRecord) (d : Delivery) (status : Status) (q : ReplyRequest)
    (s : Store)
    → IsClosed q.status
    → (pass_fence setup r d status (fence_of d.request_id (some q)) s).1 ≡ s
unfolding pass_fence fence_of
closed-unchanged setup r d status q s c = closed_by q.status c
  where
    closed_by :
        (w : Status)
        → IsClosed w
        → (pass_fence setup r d status
            (elim w as (λ _. Fence) [
              | sent ↦ give_back q
              | pending ↦ refuse (fault request_already_pending (name d.request_id))
              | pending_teach_check ↦ refuse (fault request_already_pending (name d.request_id))
              | unknown ↦ refuse (fault delivery_unknown_never_retried (name d.request_id))
              | failed ↦ let_pass
              | other_status x ↦ let_pass
            ])
            s).1
          ≡ s
    closed_by sent k = refl
    closed_by pending k = refl
    closed_by pending_teach_check k = refl
    closed_by unknown k = refl
    closed_by failed k = absurd k
    closed_by (other_status x) k = absurd k

reply_to_request-closed :
    (setup : Setup) (r : MessageRecord) (d : Delivery) (status : Status) (q : ReplyRequest)
    (s : Store)
    → read_request setup.node d.request_id s ≡ ok (some q)
    → IsClosed q.status
    → (reply_to_request setup r (some d) status s).1 ≡ s
unfolding reply_to_request
reply_to_request-closed setup r d status q s at closed =
    reads-unchanged (read_request setup.node d.request_id s) _ s λ found e.
      subst (λ o. (pass_fence setup r d status (fence_of d.request_id o) s).1 ≡ s) (cc (e, at))
        (closed-unchanged setup r d status q s closed)

-- A reply under a request that is sent, pending, held or unknown leaves the whole store as it is,
-- whatever the record, the status asked for and the answer.
pub reply-closed :
    (setup : Setup) (r : MessageRecord) (d : Delivery) (status : Status) (q : ReplyRequest)
    (s : Store)
    → r.delivery ≡ some d
    → read_request setup.node d.request_id s ≡ ok (some q)
    → IsClosed q.status
    → (reply setup r status s).1 ≡ s
unfolding reply
reply-closed setup r d status q s has at closed =
    reads-unchanged (records_in setup.node r.conversation_id s) _ s λ found _.
      reads-unchanged {A = Unit {0}} (refuse_all (reply_faults r status found) (ok tt)) _ s λ _ _.
        subst (λ o. (reply_to_request setup r o status s).1 ≡ s) (sym has)
          (reply_to_request-closed setup r d status q s at closed)

request_there :
    (node : Node) (q : Text) (file : Text) (request : ReplyRequest) (s : Store)
    → request_file node q ≡ ok file
    → read_request node q (record s { requests = put file request s.requests }) ≡ ok (some request)
unfolding read_request
request_there node q file request s h =
    rw (h, read_request) (ap ok (lookup-put_self file request s.requests))

-- The request of a reply that is written: there, at the status that the reply was written at.
abbrev pub RequestAt : Setup → Text → Status → Store → Type 0
RequestAt setup request_id status t =
    (q : ReplyRequest) × (read_request setup.node request_id t ≡ ok (some q)) × (q.status ≡ status)

write_reply-request :
    (setup : Setup) (r : MessageRecord) (d : Delivery) (status : Status) (s : Store)
    → Post (write_reply setup r d status s) (λ o t. RequestAt setup d.request_id status t)
unfolding write_reply
write_reply-request setup r d status s =
    after-Post _
      (capture setup (record r { delivery = some (record d { status = status }) }) no_options s) _
      λ result u _. reads-Post _ (request_file setup.node d.request_id) _ u λ file named. (
        record {
          request_id = d.request_id;
          status = status;
          conversation_id = r.conversation_id;
          message_id = r.message_id;
          revision = r.revision;
          chunk_ids = [];
        },
        request_there setup.node d.request_id file _ u named,
        refl,
      )

-- What the two outcomes of a reply leave: nothing new, or its request.
abbrev pub Outcome : Setup → Delivery → Status → ReplyOutcome → Store → Type 0
Outcome setup d status (fenced_sent chunks m) t = Unit
Outcome setup d status (written w place) t = RequestAt setup d.request_id status t

Outcome-of :
    (setup : Setup) (d : Delivery) (status : Status) (o : ReplyOutcome) (t : Store)
    → RequestAt setup d.request_id status t
    → Outcome setup d status o t
Outcome-of setup d status (fenced_sent chunks m) t at = tt
Outcome-of setup d status (written w place) t at = at

pass_fence-Outcome :
    (setup : Setup) (r : MessageRecord) (d : Delivery) (status : Status) (f : Fence) (s : Store)
    → Post (pass_fence setup r d status f s) (Outcome setup d status)
unfolding pass_fence
pass_fence-Outcome setup r d status (give_back q) s = tt
pass_fence-Outcome setup r d status (refuse f) s = tt
pass_fence-Outcome setup r d status let_pass s =
    Post-weaken (λ o t. RequestAt setup d.request_id status t) (Outcome setup d status)
      (write_reply setup r d status s) (λ o t at. Outcome-of setup d status o t at)
      (write_reply-request setup r d status s)

refuse_all-nil :
    (faults : List Fault)
    → ◌≡◌ {A = Result (Unit {0})} (refuse_all faults (ok tt)) (ok tt)
    → faults ≡ []
refuse_all-nil [] h = refl
refuse_all-nil (f ∷ faults) h = cc h

-- A reply passes its checks only at a status that a reply is written at.
writable-IsClosed :
    (r : MessageRecord) (status : Status) (found : List MessageRecord)
    → reply_faults r status found ≡ []
    → IsClosed status
unfolding reply_faults
writable-IsClosed r pending found h = tt
writable-IsClosed r pending_teach_check found h = tt
writable-IsClosed r sent found h = tt
writable-IsClosed r unknown found h = tt
writable-IsClosed r failed found h = cc h
writable-IsClosed r (other_status w) found h = cc h

reply_to_request-Outcome :
    (setup : Setup) (r : MessageRecord) (d : Delivery) (status : Status) (s : Store)
    → Post (reply_to_request setup r (some d) status s) (Outcome setup d status)
unfolding reply_to_request
reply_to_request-Outcome setup r d status s =
    reads-Post _ (read_request setup.node d.request_id s) _ s
      λ found _. pass_fence-Outcome setup r d status (fence_of d.request_id found) s

-- The outcome of a reply, with the status that was asked for.
abbrev pub Replied : Setup → Delivery → Status → ReplyOutcome → Store → Type 0
Replied setup d status o t = IsClosed status × Outcome setup d status o t

pub reply-Replied :
    (setup : Setup) (r : MessageRecord) (d : Delivery) (status : Status) (s : Store)
    → r.delivery ≡ some d
    → Post (reply setup r status s) (Replied setup d status)
unfolding reply
reply-Replied setup r d status s has =
    reads-Post _ (records_in setup.node r.conversation_id s) _ s λ found _.
      reads-Post {A = Unit {0}} _ (refuse_all (reply_faults r status found) (ok tt)) _ s λ _ passed.
        Post-weaken (Outcome setup d status) (Replied setup d status)
          (reply_to_request setup r r.delivery status s)
          (λ o t at. (writable-IsClosed r status found (refuse_all-nil _ passed), at))
          (subst (λ o. Post (reply_to_request setup r o status s) (Outcome setup d status))
            (sym has) (reply_to_request-Outcome setup r d status s))

-- One request id is one reply: after a reply has been written under a request, a second reply under
-- the same request, with any record and at any status, leaves the whole store as the first left it.
pub reply-reply :
    (setup : Setup) (r r' : MessageRecord) (d d' : Delivery) (status status' : Status) (s t : Store)
    (w : MessageRecord) (place : RecordPath)
    → r.delivery ≡ some d
    → r'.delivery ≡ some d'
    → d'.request_id ≡ d.request_id
    → reply setup r status s ≡ (ok (written w place), t)
    → (reply setup r' status' t).1 ≡ t
reply-reply setup r r' d d' status status' s t w place has has' same first =
    let replied =
      Post-ok (Replied setup d status) (reply setup r status s) (written w place) t
        (reply-Replied setup r d status s has) first in
    let (q, at, is) = replied.1 in
    reply-closed setup r' d' status' q t has'
      (subst (λ id. read_request setup.node id t ≡ ok (some q)) (sym same) at)
      (subst IsClosed (sym is) replied.0)
