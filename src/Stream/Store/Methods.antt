-- ===== src/Stream/Store/Methods.antt =====
-- Each method but `capture` keeps what `Grows` says, on every path through it.
use carbon_runtime.Common.{
  ◌+◌, put, or_else, ◌≡◌, refl, ap, ◌∙◌, subst, text, [], ◌∷◌, List, false, Option, none, some,
  Text, lookup, Bool-cases, inl, inr,
}
use carbon_runtime.Stream.Platform.{Node}
use carbon_runtime.Stream.Fault.{Fault, Result, ok, refuse_all}
use carbon_runtime.Stream.Json.{Json, integer, str}
use carbon_runtime.Stream.Spread.{spread_on, spread_on-kept, last_of}
use carbon_runtime.Stream.Paths.{RecordPath, path_key, text_key}
use carbon_runtime.Stream.Record.{MessageRecord, Status, pending, Delivery}
use carbon_runtime.Stream.Store.{Store, Setup, ReplyRequest, after, state_change}
use carbon_runtime.Stream.Store.Files.{
  rewrite_record, read_at, read, records_in, publish-SameFiles, write_record, path_of, mark_browser,
  publish, is_browser,
}
use carbon_runtime.Stream.Store.Capture.{
  CaptureOptions, no_options, capture, park, park_failed, annotate,
}
use carbon_runtime.Stream.Store.Capture.Effect.{
  capture-Grows, parse_rewrite-Grows, rewrite_record-Grows,
}
use carbon_runtime.Stream.Store.Hold.{
  ReleaseOptions, release, complete_release, release_place, completion,
}
use carbon_runtime.Stream.Store.Reply.{
  reply, settle_delivery, release_held_reply, let_go, Settlement, write_settled, write_reply,
  pass_fence, reply_to_request, reply_faults, Fence, give_back, refuse, let_pass, fence_of,
  read_request, request_file, or_unknown, or_broken, is_held_reply, settled,
}
use carbon_runtime.Stream.Store.Reads.{read_at-ok, read-ok}
use carbon_runtime.Stream.Store.Grows.{
  SameFiles-Grows, put-Grows, Grows, Grows-trans, Grows-same, Grown-same, reads-Grows, after-Grows,
  Grown, Noted, field_kept, own_apart,
}

module _ ⦃notes : Noted⦄ where
  pub park-Grows :
      (setup : Setup) (r : MessageRecord) (reason : Text) (options : CaptureOptions) (s : Store)
      → Grows s (park setup r reason options s).1
  unfolding park
  park-Grows setup r reason options s = capture-Grows setup _ options s

  pub park_failed-Grows :
      (setup : Setup) (r : MessageRecord) (faults : List Fault) (reason : Option Text) (s : Store)
      → Grows s (park_failed setup r faults reason s).1
  unfolding park_failed
  park_failed-Grows setup r faults reason s = parse_rewrite-Grows (path_of setup.node r) _ s (λ e.
      Grown-same e _ refl refl (λ name o n.
        spread_on-kept name e.adapter_fields
          ((text "park_reason", str (or_else reason (setup.fault_text faults)))
            ∷ (text "park_faults", setup.fault_json faults)
            ∷ [])
          (unfold last_of in rw ((own_apart name o).0, (own_apart name o).1) refl)))

  pub annotate-Grows :
      (node : Node) (r : MessageRecord) (fields : List (Text × Json)) (s : Store)
      → ((name : Text) → notes.noted name ≡ false → last_of name fields ≡ none)
      → Grows s (annotate node r fields s).1
  unfolding annotate
  annotate-Grows node r fields s free = parse_rewrite-Grows (path_of node r) _ s (λ e.
      Grown-same e _ refl refl
        (λ name o n. spread_on-kept name e.adapter_fields fields (free name n)))

  -- A method that reads a record by `readAt` and rewrites it.
  read_rewrite-Grows :
      (node : Node) (found : Result RecordPath) (change : MessageRecord → MessageRecord) (s : Store)
      → ((e : MessageRecord) → Grown e (change e))
      → Grows s
          (after
            (found, s)
            (λ place t.
              after (read_at node place t, t) (λ on_disk. rewrite_record place (change on_disk)))).1
  read_rewrite-Grows node found change s g = reads-Grows found _ s λ place _.
      reads-Grows (read_at node place s) _ s
        λ e there. rewrite_record-Grows place e (change e) s (read_at-ok node place s there).0 (g e)

  pub release-Grows :
      (node : Node) (r : MessageRecord) (options : ReleaseOptions) (s : Store)
      → Grows s (release node r options s).1
  unfolding release
  release-Grows node r options s =
      read_rewrite-Grows node (release_place node r options s) _ s
        (λ e. Grown-same e _ refl refl (λ name o n. refl))

  completion-Grown : (at : Text) (e : MessageRecord) → Grown e (completion at e)
  unfolding completion
  completion-Grown at e = elim (Bool-cases (is_browser e)) [
    | inl browser ↦ rw browser (
        Grown-same e _ refl refl (λ name o n.
          field_kept name (text "model_effect") (str (text "completed")) e.adapter_fields
            (own_apart name o).3))
    | inr other ↦ rw other (Grown-same e _ refl refl (λ name o n. refl))
  ]

  pub complete_release-Grows :
      (node : Node) (r : MessageRecord) (at : Text) (s : Store)
      → Grows s (complete_release node r at s).1
  unfolding complete_release
  complete_release-Grows node r at s =
      read_rewrite-Grows node (path_of node r) (completion at) s (completion-Grown at)

  settled_request-Grows :
      (r : MessageRecord) (requests : List (Text × ReplyRequest)) (t : Store)
      → Grows t (publish r state_change none (record t { requests = requests }))
  settled_request-Grows r requests t =
      Grows-trans {t = record t { requests = requests }} (Grows-same refl refl)
        (SameFiles-Grows (publish-SameFiles r state_change none (record t { requests = requests })))

  write_settled-Grows :
      (node : Node) (q : Text) (request : ReplyRequest) (status : Status) (extra : Settlement)
      (r : MessageRecord) (place : RecordPath) (s : Store)
      → lookup place s.captures ≡ some r
      → Grows s (write_settled node q request status extra r place s).1
  unfolding write_settled mark_browser write_record is_browser
  write_settled-Grows node q request status extra r place s there =
      elim (Bool-cases (is_browser r)) [
        | inl browser ↦ rw browser (
            Grows-trans
              (put-Grows place r
                (record r {
                  delivery = some (settled status extra r.delivery);
                  adapter_fields =
                      spread_on r.adapter_fields
                        ((text "browser_event_seq", integer (s.seq + 1)) ∷ []);
                })
                {t = record s {
                  seq = s.seq + 1;
                  captures =
                      put place
                        (record r {
                          delivery = some (settled status extra r.delivery);
                          adapter_fields =
                              spread_on r.adapter_fields
                                ((text "browser_event_seq", integer (s.seq + 1)) ∷ []);
                        })
                        s.captures;
                }}
                there
                (Grown-same r _ refl refl (λ name o n.
                  field_kept name (text "browser_event_seq") (integer (s.seq + 1)) r.adapter_fields
                    (own_apart name o).2))
                refl refl)
              (reads-Grows (request_file node q) _ _ λ file _. settled_request-Grows _ _ _))
        | inr other ↦ rw other (
            Grows-trans
              (put-Grows place r (record r { delivery = some (settled status extra r.delivery) })
                {t = record s {
                  captures =
                      put place (record r { delivery = some (settled status extra r.delivery) })
                        s.captures;
                }}
                there (Grown-same r _ refl refl (λ name o n. refl)) refl refl)
              (reads-Grows (request_file node q) _ _ λ file _. settled_request-Grows _ _ _))
      ]

  or_broken-ok : (o : Option MessageRecord) {r : MessageRecord} → or_broken o ≡ ok r → o ≡ some r
  or_broken-ok none h = cc h
  or_broken-ok (some e) h = cc h

  -- The record of a request, read and held, is the one at the path that it derives.
  read_record-there :
      (node : Node) (request : ReplyRequest) (s : Store) (at : Option MessageRecord)
      (r : MessageRecord) (place : RecordPath)
      → read node request.conversation_id request.message_id request.revision s ≡ ok at
      → or_broken at ≡ ok r
      → path_of node r ≡ ok place
      → lookup place s.captures ≡ some r
  read_record-there node request s at r place found held derived =
      let there =
        read-ok node request.conversation_id request.message_id request.revision s
          (found ∙ ap ok (or_broken-ok at held)) in
      let same : there.0 ≡ place = cc (there.2, derived) in
      subst (λ p. lookup p s.captures ≡ some r) same there.1

  pub settle_delivery-Grows :
      (node : Node) (q : Text) (status : Status) (extra : Settlement) (s : Store)
      → Grows s (settle_delivery node q status extra s).1
  unfolding settle_delivery
  settle_delivery-Grows node q status extra s = reads-Grows (read_request node q s) _ s λ found _.
      reads-Grows (or_unknown q found) _ s λ request _.
        reads-Grows (read node request.conversation_id request.message_id request.revision s) _ s
          λ at found_at. reads-Grows (or_broken at) _ s λ r found_r.
            reads-Grows (path_of node r) _ s λ place derived.
              write_settled-Grows node q request status extra r place s
                (read_record-there node request s at r place found_at found_r derived)

  write_reply-Grows :
      (setup : Setup) (r : MessageRecord) (d : Delivery) (status : Status) (s : Store)
      → Grows s (write_reply setup r d status s).1
  unfolding write_reply
  write_reply-Grows setup r d status s =
      after-Grows
        (capture setup (record r { delivery = some (record d { status = status }) }) no_options s) _
        (capture-Grows setup (record r { delivery = some (record d { status = status }) })
          no_options s)
        λ result t _.
          reads-Grows (request_file setup.node d.request_id) _ t λ file _. Grows-same refl refl

  pass_fence-Grows :
      (setup : Setup) (r : MessageRecord) (d : Delivery) (status : Status) (f : Fence) (s : Store)
      → Grows s (pass_fence setup r d status f s).1
  unfolding pass_fence
  pass_fence-Grows setup r d status (give_back q) s = Grows-same refl refl
  pass_fence-Grows setup r d status (refuse f) s = Grows-same refl refl
  pass_fence-Grows setup r d status let_pass s = write_reply-Grows setup r d status s

  reply_to_request-Grows :
      (setup : Setup) (r : MessageRecord) (d : Option Delivery) (status : Status) (s : Store)
      → Grows s (reply_to_request setup r d status s).1
  unfolding reply_to_request
  reply_to_request-Grows setup r none status s = Grows-same refl refl
  reply_to_request-Grows setup r (some d) status s =
      reads-Grows (read_request setup.node d.request_id s) _ s
        λ existing _. pass_fence-Grows setup r d status (fence_of d.request_id existing) s

  let_go-Grows :
      (node : Node) (q : Text) (found : Option ReplyRequest) (s : Store)
      → Grows s (let_go node q found s).1
  unfolding let_go
  let_go-Grows node q found s = elim (Bool-cases (is_held_reply found)) [
    | inl held ↦ rw held (settle_delivery-Grows node q pending _ s)
    | inr other ↦ rw other (Grows-same refl refl)
  ]

  pub reply-Grows :
      (setup : Setup) (r : MessageRecord) (status : Status) (s : Store)
      → Grows s (reply setup r status s).1
  unfolding reply
  reply-Grows setup r status s =
      reads-Grows (records_in setup.node r.conversation_id s) _ s λ found _.
        reads-Grows {A = Unit {0}} (refuse_all (reply_faults r status found) (ok tt)) _ s
          λ _ _. reply_to_request-Grows setup r r.delivery status s

  pub release_held_reply-Grows :
      (node : Node) (q : Text) (s : Store) → Grows s (release_held_reply node q s).1
  unfolding release_held_reply
  release_held_reply-Grows node q s =
      reads-Grows (read_request node q s) _ s λ found _. let_go-Grows node q found s
