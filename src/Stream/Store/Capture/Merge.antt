-- ===== src/Stream/Store/Capture/Merge.antt =====
-- The merge of a repeated write: the first write wins, attachments are united by their digests, and
-- a second merge of the same record adds nothing.
use carbon_runtime.Common.{
  ◌≡◌, refl, sym, ap, ◌∙◌, inl, inr, true, ◌||◌, List, [], ◌∷◌, ◌++◌, arith, Text, text_eq_iff,
  text_eq_refl, if◌then◌else◌, Bool-cases, All,
}
use mathlib.Core.List.{append_assoc, append-nil}
use carbon_runtime.Stream.Record.{MessageRecord, Attachment}
use carbon_runtime.Stream.Store.Capture.{has_digest, merge_attachments, merge_records}

-- What a merge adds behind what was kept.
added : List Attachment → List Attachment → List Attachment
added kept [] = []
added kept (a ∷ incoming) =
    if has_digest a.sha256 kept then added kept incoming else a ∷ added (kept ++ a ∷ []) incoming

merge_attachments-added :
    (kept incoming : List Attachment)
    → merge_attachments kept incoming ≡ kept ++ added kept incoming
unfolding merge_attachments added
merge_attachments-added kept [] = rw append-nil
merge_attachments-added kept (a ∷ incoming) = elim (Bool-cases (has_digest a.sha256 kept)) [
  | inl seen ↦ rw seen (merge_attachments-added kept incoming)
  | inr new ↦ rw new (
      merge_attachments-added (kept ++ a ∷ []) incoming
      ∙ append_assoc kept (a ∷ []) (added (kept ++ a ∷ []) incoming))
]

has_digest-append :
    (d : Text) (xs ys : List Attachment)
    → has_digest d (xs ++ ys) ≡ (has_digest d xs || has_digest d ys)
unfolding has_digest
has_digest-append d [] ys = refl
has_digest-append d (x ∷ xs) ys = ground (arith, has_digest-append d xs ys)

-- The digests after a merge are those of both sides.
has_digest-merge :
    (d : Text) (kept incoming : List Attachment)
    → has_digest d (merge_attachments kept incoming) ≡ (has_digest d kept || has_digest d incoming)
unfolding merge_attachments
has_digest-merge d kept [] = ground arith
has_digest-merge d kept (a ∷ incoming) = elim (Bool-cases (has_digest a.sha256 kept)) [
  | inl seen ↦
      rw seen (ground (arith, has_digest-merge d kept incoming, text_eq_iff a.sha256 d, seen))
  | inr new ↦ rw new (
      has_digest-merge d (kept ++ a ∷ []) incoming
      ∙ rw (has_digest-append d kept (a ∷ [])) (unfold has_digest in ground arith))
]

merge_attachments-seen :
    (kept incoming : List Attachment)
    → All (λ a. has_digest a.sha256 kept ≡ true) incoming
    → merge_attachments kept incoming ≡ kept
unfolding merge_attachments
merge_attachments-seen kept [] h = refl
merge_attachments-seen kept (a ∷ incoming) h = rw h.0 (merge_attachments-seen kept incoming h.1)

has_digest-tail :
    (d : Text) (xs ys : List Attachment) → has_digest d ys ≡ true → has_digest d (xs ++ ys) ≡ true
has_digest-tail d xs ys h = rw (has_digest-append d xs ys, h) (ground arith)

-- Every attachment of a merged-in list is there afterwards, by its digest.
merged-seen :
    (kept incoming front rest : List Attachment)
    → incoming ≡ front ++ rest
    → All (λ a. has_digest a.sha256 (merge_attachments kept incoming) ≡ true) rest
merged-seen kept incoming front [] e = tt
merged-seen kept incoming front (a ∷ rest) e = (
  rw (has_digest-merge a.sha256 kept incoming, e)
      (ground (
        arith,
        has_digest-tail a.sha256 front (a ∷ rest) (unfold has_digest in rw (text_eq_refl a.sha256)),
      )),
  merged-seen kept incoming (front ++ a ∷ []) rest (e ∙ sym (append_assoc front (a ∷ []) rest)),
)

-- A record merged into another keeps everything of it but its attachments; of those it keeps all, in
-- their order, and adds behind them; it has the digests of both; and merging the same record
-- once more changes nothing.
pub merge_records_lem :
    (existing incoming : MessageRecord)
    → ((more : List Attachment) × (merge_records existing incoming
          ≡ record existing { attachments = existing.attachments ++ more }))
      × ((d : Text)
          → has_digest d (merge_records existing incoming).attachments
            ≡ (has_digest d existing.attachments || has_digest d incoming.attachments))
      × (merge_records (merge_records existing incoming) incoming ≡ merge_records existing incoming)
unfolding merge_records
merge_records_lem existing incoming = (
  (
    added existing.attachments incoming.attachments,
    ap (λ t. record existing { attachments = t })
        (merge_attachments-added existing.attachments incoming.attachments),
  ),
  (λ d. has_digest-merge d existing.attachments incoming.attachments),
  ap (λ t. record existing { attachments = t })
      (merge_attachments-seen (merge_attachments existing.attachments incoming.attachments)
        incoming.attachments
        (merged-seen existing.attachments incoming.attachments [] incoming.attachments refl)),
)
