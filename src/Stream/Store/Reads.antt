-- ===== src/Stream/Store/Reads.antt =====
-- What a read that succeeds says of the file it read.
use carbon_runtime.Common.{ℕ, ◌≡◌, refl, ◌∙◌, ap, subst, arith, Option, none, some, Text, lookup}
use carbon_runtime.Stream.Platform.{Node}
use carbon_runtime.Stream.Fault.{Result, ok, err, broken}
use carbon_runtime.Stream.Paths.{RecordPath, record_path, same_path_iff, path_key}
use carbon_runtime.Stream.Record.{MessageRecord}
use carbon_runtime.Stream.Store.{Store}
use carbon_runtime.Stream.Store.Files.{placed_at, read_content, read_at, read, read_found, path_of}

-- What `readAt` answers is the content, and the content derives the file's own path.
placed_at-ok :
    (place : RecordPath) (r : MessageRecord) (found : Result RecordPath) {r' : MessageRecord}
    → placed_at place r found ≡ ok r'
    → (r ≡ r') × (found ≡ ok place)
placed_at-ok place r (ok expected) h = ground (arith, same_path_iff expected place, h)
placed_at-ok place r (err faults) h = cc
placed_at-ok place r broken h = cc

pub read_content-ok :
    (node : Node) (place : RecordPath) (r : MessageRecord) {r' : MessageRecord}
    → read_content node place r ≡ ok r'
    → (r ≡ r') × (path_of node r ≡ ok place)
unfolding read_content
read_content-ok node place r h = placed_at-ok place r (path_of node r) h

content_of-ok :
    (node : Node) (place : RecordPath) (o : Option MessageRecord) {r : MessageRecord}
    → elim o as (λ _. Result MessageRecord) [ none ↦ broken | some e ↦ read_content node place e ]
      ≡ ok r
    → (o ≡ some r) × (path_of node r ≡ ok place)
content_of-ok node place none h = cc
content_of-ok node place (some e) h =
    let found = read_content-ok node place e h in
    (ap some found.0, subst (λ x. path_of node x ≡ ok place) found.0 found.1)

pub read_at-ok :
    (node : Node) (place : RecordPath) (s : Store) {r : MessageRecord}
    → read_at node place s ≡ ok r
    → (lookup place s.captures ≡ some r) × (path_of node r ≡ ok place)
unfolding read_at
read_at-ok node place s h = content_of-ok node place (lookup place s.captures) h

read_found-ok :
    (node : Node) (place : RecordPath) (o : Option MessageRecord) {r : MessageRecord}
    → read_found node place o ≡ ok (some r)
    → (o ≡ some r) × (path_of node r ≡ ok place)
read_found-ok node place none h = cc h
read_found-ok node place (some e) {r} h = found_here (read_content node place e) refl h
  where
    found_here :
        (c : Result MessageRecord)
        → read_content node place e ≡ c
        → elim c as (λ _. Result (Option MessageRecord)) [
          | ok found ↦ ok (some found)
          | err faults ↦ err faults
          | broken ↦ broken
        ]
          ≡ ok (some r)
        → (some e ≡ some r) × (path_of node r ≡ ok place)
    found_here (ok found) q k =
        let same : found ≡ r = cc k in
        let both = read_content-ok node place e q in
        (ap some (both.0 ∙ same), subst (λ x. path_of node x ≡ ok place) (both.0 ∙ same) both.1)
    found_here (err faults) q k = cc k
    found_here broken q k = cc k

-- A record that `read` finds stands at the path that its own identity derives.
pub read-ok :
    (node : Node) (conversation_id message_id : Text) (revision : ℕ) (s : Store) {r : MessageRecord}
    → read node conversation_id message_id revision s ≡ ok (some r)
    → (place : RecordPath) × (lookup place s.captures ≡ some r) × (path_of node r ≡ ok place)
unfolding read
read-ok node c m n s {r} h = at_path (record_path node c m n) h
  where
    at_path :
        (found : Result RecordPath)
        → elim found as (λ _. Result (Option MessageRecord)) [
          | ok place ↦ read_found node place (lookup place s.captures)
          | err faults ↦ err faults
          | broken ↦ broken
        ]
          ≡ ok (some r)
        → (place : RecordPath) × (lookup place s.captures ≡ some r) × (path_of node r ≡ ok place)
    at_path (ok place) k =
        let both = read_found-ok node place (lookup place s.captures) k in (place, both.0, both.1)
    at_path (err faults) k = cc k
    at_path broken k = cc k
