-- ===== src/Stream/Teachings/Teacher.antt =====
-- stream/teachings.ts: a capture that is cited is one of the store.
use carbon_runtime.Common.{
  ◌≡◌, refl, ap, ◌∙◌, inl, true, List, [], ◌∷◌, Option, none, some, some-injective, Text, keep,
  sort_by, Has, Has-keep, Has-sort_by,
}
use carbon_runtime.Stream.Platform.{Node}
use carbon_runtime.Stream.Fault.{Fault, Result, ok, err, broken, ok-injective}
use carbon_runtime.Stream.Record.{MessageRecord}
use carbon_runtime.Stream.Store.{Store}
use carbon_runtime.Stream.Store.Files.{records_in}
use carbon_runtime.Stream.Teachings.Learn.{
  Cited, is_source, later_revision, first_capture, capture_in, cited_named, cited_capture,
}

-- An inbound record of the conversation, in the store, with the message's id.
pub record IsCapture (node : Node) (conversation_id source : Option Text) (s : Store)
    (r : MessageRecord) : Type 0 where
  pub conversation : Text
  pub message : Text
  pub given_conversation : conversation_id ≡ some conversation
  pub given_message : source ≡ some message
  pub held : List MessageRecord
  pub read_there : records_in node conversation s ≡ ok held
  pub there : Has r held
  pub is_inbound_source : is_source message r ≡ true

first_capture-Has :
    (source : Text) (rs : List MessageRecord) (r : MessageRecord)
    → (first_capture source rs).capture ≡ some r
    → Has r rs
first_capture-Has source [] r h = cc
first_capture-Has source (q ∷ rs) r h = inl (some-injective h)

capture_in-IsCapture :
    (node : Node) (conversation message : Text) (s : Store) (cited : Cited) (r : MessageRecord)
    (found : Result (List MessageRecord))
    → records_in node conversation s ≡ found
    → capture_in message found ≡ ok cited
    → cited.capture ≡ some r
    → IsCapture node (some conversation) (some message) s r
capture_in-IsCapture node conversation message s cited r (ok held) at h e =
    let sorted = sort_by later_revision (keep (is_source message) held) in
    let same : (first_capture message sorted).capture ≡ some r =
      ap (λ x. x.capture) (ok-injective h) ∙ e in
    let (there, is) =
      Has-keep (is_source message) r held
        (Has-sort_by later_revision r _ (first_capture-Has message sorted r same)) in
    record {
      conversation = conversation;
      message = message;
      given_conversation = refl;
      given_message = refl;
      held = held;
      read_there = at;
      there = there;
      is_inbound_source = is;
    }
capture_in-IsCapture node conversation message s cited r (err faults) at h e =
    cc (ap (λ x. x.capture) (ok-injective h), e)
capture_in-IsCapture node conversation message s cited r broken at h e = cc

cited_named-IsCapture :
    (node : Node) (conversation_id source : Option Text) (faults : List Fault) (s : Store)
    (cited : Cited) (r : MessageRecord)
    → cited_named node conversation_id source faults s ≡ ok cited
    → cited.capture ≡ some r
    → IsCapture node conversation_id source s r
cited_named-IsCapture node (some c) (some m) [] s cited r h e =
    capture_in-IsCapture node c m s cited r (records_in node c s) refl h e
cited_named-IsCapture node (some c) (some m) (f ∷ fs) s cited r h e =
    cc (ap (λ x. x.capture) (ok-injective h), e)
cited_named-IsCapture node none source faults s cited r h e =
    cc (ap (λ x. x.capture) (ok-injective h), e)
cited_named-IsCapture node (some c) none faults s cited r h e =
    cc (ap (λ x. x.capture) (ok-injective h), e)

pub cited_capture-IsCapture :
    (node : Node) (conversation_id source : Option Text) (s : Store) (cited : Cited)
    (r : MessageRecord)
    → cited_capture node conversation_id source s ≡ ok cited
    → cited.capture ≡ some r
    → IsCapture node conversation_id source s r
unfolding cited_capture
cited_capture-IsCapture node conversation_id source s cited r h e =
    cited_named-IsCapture node conversation_id source _ s cited r h e
