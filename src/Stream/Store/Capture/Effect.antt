-- ===== src/Stream/Store/Capture/Effect.antt =====
-- Every path through a capture, through the methods that mark a record, and through a rewrite keeps
-- what `Grows` says, whatever they throw.
use carbon_runtime.Common.{
  ℕ, ◌+◌, ◌≡◌, refl, ap, ◌∙◌, Bool, true, false, not, ◌&&◌, Option, none, some, arith, length, [],
  ◌∷◌, text, leb, Text, text_eq, if◌then◌else◌, lookup, Bool-cases, Option-cases, inl, inr,
}
use carbon_runtime.Stream.Platform.{Node}
use carbon_runtime.Stream.Fault.{Result, ok, err, broken, refuse_all, root}
use carbon_runtime.Stream.Validate.{validate}
use carbon_runtime.Stream.Paths.{RecordPath, path_key, text_key}
use carbon_runtime.Stream.Json.{integer}
use carbon_runtime.Stream.Spread.{spread_on}
use carbon_runtime.Stream.Record.{MessageRecord, MessageDisposition, same_disposition}
use carbon_runtime.Stream.Store.{Store, Setup, CursorState, state_change, capture_change, after}
use carbon_runtime.Stream.Store.Files.{
  next_seq, publish, write_record, rewrite_record, mark_browser, is_browser, parse_file, path_of,
  publish-SameFiles,
}
use carbon_runtime.Stream.Store.Grows.{
  Grown, Grown-same, after-Grows, reads-Grows, Grows, Grows-trans, Grows-same, SameFiles-Grows,
  put-Grows, put_new-Grows, content, Noted, field_of, field_kept, own_apart,
}
use carbon_runtime.Stream.Store.Cursor.Monotone.{advance_cursor-KeepsRecords}
use carbon_runtime.Stream.Store.Capture.{
  CaptureOptions, CaptureResult, CursorMove, append_raw, write_or_merge, settle_disposition,
  capture_steps, capture_at, capture, merges, merge_records, with_cursor, set_disposition, finish,
}
use carbon_runtime.Stream.Store.Capture.Merge.{merge_records_lem}

module _ ⦃notes : Noted⦄ where
  -- The mark of the browser touches only the adapter's fields.
  marked-Grown :
      (e w : MessageRecord) (n : ℕ)
      → Grown e w
      → Grown e (record w {
        adapter_fields = spread_on w.adapter_fields ((text "browser_event_seq", integer n) ∷ []);
      })
  marked-Grown e w n g = record {
    same_content = g.same_content;
    more = g.more;
    attachments_grow = g.attachments_grow;
    fields_kept = λ name o own_free.
        field_kept name (text "browser_event_seq") (integer n) w.adapter_fields (own_apart name o).2
        ∙ g.fields_kept name o own_free;
  }

  pub rewrite_record-Grows :
      (place : RecordPath) (e w : MessageRecord) (s : Store)
      → lookup place s.captures ≡ some e
      → Grown e w
      → Grows s (rewrite_record place w s).1
  unfolding rewrite_record mark_browser write_record
  rewrite_record-Grows place e w s at g = elim (Bool-cases (is_browser w)) [
    | inl browser ↦ rw browser (
        put-Grows place e _ at (marked-Grown e w (s.seq + 1) g)
          (publish-SameFiles _ state_change none _).same_captures
          (publish-SameFiles _ state_change none _).same_index)
    | inr other ↦ rw other (
        put-Grows place e w at g (publish-SameFiles w state_change none _).same_captures
          (publish-SameFiles w state_change none _).same_index)
  ]

  -- What `parse_file` finds is what the captures hold.
  pub parse_file-there :
      (place : RecordPath) (s : Store) {e : MessageRecord}
      → parse_file place s ≡ ok e
      → lookup place s.captures ≡ some e
  unfolding parse_file
  parse_file-there place s h = ground arith

  -- A method that computes a path, parses the file there and rewrites what it found.
  pub parse_rewrite-Grows :
      (found : Result RecordPath) (change : MessageRecord → MessageRecord) (s : Store)
      → ((e : MessageRecord) → Grown e (change e))
      → Grows s
          (after
            (found, s)
            (λ place t.
              after (parse_file place t, t) (λ on_disk. rewrite_record place (change on_disk)))).1
  parse_rewrite-Grows found change s g = reads-Grows found _ s λ place _.
      reads-Grows (parse_file place s) _ s
        λ e there. rewrite_record-Grows place e (change e) s (parse_file-there place s there) (g e)

  pub set_disposition-Grows :
      (node : Node) (r : MessageRecord) (d : MessageDisposition) (s : Store)
      → Grows s (set_disposition node r d s).1
  unfolding set_disposition
  set_disposition-Grows node r d s =
      parse_rewrite-Grows (path_of node r) (λ e. record e { disposition = d }) s
        (λ e. Grown-same e _ refl refl (λ name o n. refl))

  merge-Grown : (e r : MessageRecord) → Grown e (merge_records e r)
  merge-Grown e r =
      let found = (merge_records_lem e r).0 in
      record {
        same_content = ap content found.1;
        more = found.0;
        attachments_grow = ap (λ t. t.attachments) found.1;
        fields_kept = λ name o n. ap (field_of name) found.1;
      }

  merge_there :
      (place : RecordPath) (seq : ℕ) (r e : MessageRecord) (s : Store)
      → lookup place s.captures ≡ some e
      → Grows s (write_or_merge place seq r (some e) s).1
  unfolding write_or_merge
  merge_there place seq r e s there =
      elim (Bool-cases (not (text_eq e.source r.source) && not (merges r.source))) [
        | inl claimed ↦ rw claimed (Grows-same refl refl)
        | inr free ↦
            rw free
              (elim (Bool-cases
                (leb (length (merge_records e r).attachments) (length e.attachments))) [
                  | inl nothing ↦ rw nothing (Grows-same refl refl)
                  | inr grown ↦
                      rw grown
                        (put-Grows place e (merge_records e r) there (merge-Grown e r) refl refl)
                ])
      ]

  write_or_merge-Grows :
      (place : RecordPath) (seq : ℕ) (r : MessageRecord) (s : Store)
      → Grows s (write_or_merge place seq r (lookup place s.captures) s).1
  unfolding write_or_merge
  write_or_merge-Grows place seq r s = elim (Option-cases (lookup place s.captures)) [
    | inl absent ↦ rw absent (put_new-Grows place r _ absent refl refl refl)
    | inr (e, there) ↦ rw there (merge_there place seq r e s there)
  ]

  append_raw-Grows :
      (place : RecordPath) (raw : Option Text) (r : MessageRecord) (s : Store)
      → Grows s (append_raw place raw r s).1
  unfolding append_raw
  append_raw-Grows place none r s = Grows-same refl refl
  append_raw-Grows place (some raw) r s = Grows-same refl refl

  settle_disposition-Grows :
      (node : Node) (d : Option MessageDisposition) (r : MessageRecord) (s : Store)
      → Grows s (settle_disposition node d r s).1
  unfolding settle_disposition
  settle_disposition-Grows node none r s = Grows-same refl refl
  settle_disposition-Grows node (some d) r s =
      elim (Bool-cases (same_disposition d r.disposition)) [
        | inl same ↦ rw same (Grows-same refl refl)
        | inr other ↦ rw other (set_disposition-Grows node r d s)
      ]

  publish_new-Grows :
      (merged : Bool) (r : MessageRecord) (seq : ℕ) (s : Store)
      → Grows s (if merged then s else publish r capture_change (some seq) s)
  publish_new-Grows true r seq s = Grows-same refl refl
  publish_new-Grows false r seq s =
      SameFiles-Grows (publish-SameFiles r capture_change (some seq) s)

  capture_steps-Grows :
      (setup : Setup) (place : RecordPath) (seq : ℕ) (r : MessageRecord) (options : CaptureOptions)
      (s : Store)
      → Grows s (capture_steps setup place seq r options s).1
  unfolding capture_steps
  capture_steps-Grows setup place seq r options s =
      after-Grows (append_raw place options.raw r s) _ (append_raw-Grows place options.raw r s)
        λ r' t _.
          after-Grows (write_or_merge place seq r' (lookup place t.captures) t) _
            (write_or_merge-Grows place seq r' t)
            λ w u _.
              after-Grows (settle_disposition setup.node options.disposition w.0 u) _
                (settle_disposition-Grows setup.node options.disposition w.0 u)
                λ final v _. publish_new-Grows w.1 final seq v

  finish-state : {A : Type 0} (r : Result A) (m : Result CursorState × Store) → (finish r m).1 ≡ m.1
  finish-state r (ok c, s) = refl
  finish-state r (err faults, s) = refl
  finish-state r (broken, s) = refl

  with_cursor-Grows :
      (node : Node) (conversation_id : Text) (move : Option CursorMove) (s : Store)
      (done : Result CaptureResult × Store)
      → Grows s done.1
      → Grows s (with_cursor node conversation_id move done).1
  unfolding with_cursor
  with_cursor-Grows node conversation_id none s done g = g
  with_cursor-Grows node conversation_id (some move) s (r, t) g =
      let moved = advance_cursor-KeepsRecords node conversation_id move.kind move.position t in
      rw finish-state (Grows-trans g (Grows-same moved.0 moved.1))

  capture_at-Grows :
      (setup : Setup) (r : MessageRecord) (options : CaptureOptions) (place : RecordPath)
      (s : Store)
      → Grows s (capture_at setup r options place s).1
  unfolding capture_at next_seq
  capture_at-Grows setup r options place s =
      let started : Store = record s { seq = s.seq + 1 } in
      with_cursor-Grows setup.node r.conversation_id options.cursor s
        (capture_steps setup place (s.seq + 1) r options started)
        (Grows-trans {t = started} (Grows-same refl refl)
          (capture_steps-Grows setup place (s.seq + 1) r options started))

  -- A capture keeps every record and what arrived in it, and the index with it, on every path: where
  -- the record is new, where it is merged, and where it is refused.
  pub capture-Grows :
      (setup : Setup) (r : MessageRecord) (options : CaptureOptions) (s : Store)
      → Grows s (capture setup r options s).1
  unfolding capture
  capture-Grows setup r options s =
      reads-Grows
        (refuse_all (validate setup.node (setup.record_json r) setup.message_schema root)
          (path_of setup.node r))
        (capture_at setup r options) s (λ place _. capture_at-Grows setup r options place s)
