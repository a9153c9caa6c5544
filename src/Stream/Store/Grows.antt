-- ===== src/Stream/Store/Grows.antt =====
-- What every method of the store keeps: no record goes away, what arrived in it is not changed, its
-- attachments only grow, and the index names the captures in their order.
use carbon_runtime.Common.{
  ◌≡◌, refl, sym, ap, ◌∙◌, subst, List, [], ◌∷◌, ◌++◌, Option, none, some, lookup, put, keys,
  lookup-put, keys-put_new, keys-put_old, Bool-cases, inl, inr, Bool, true, false, ◌||◌, Text, text,
  text_eq, or_else,
}
use mathlib.Core.List.{append_assoc, append-nil}
use carbon_runtime.Stream.Fault.{Result, ok, err, broken}
use carbon_runtime.Stream.Paths.{RecordPath, path_key, text_key, same_path_iff}
use carbon_runtime.Stream.Record.{MessageRecord, AdapterFields, no_fields, Attachment, captured}
use carbon_runtime.Stream.Json.{Json}
use carbon_runtime.Stream.Spread.{spread_on, spread_on-kept, last_of}
use carbon_runtime.Stream.Store.{Store, IndexEntry, Exec, after}
use carbon_runtime.Stream.Store.Files.{SameFiles}

-- What arrived: a record less what carbon writes on it later.
abbrev pub content : MessageRecord → MessageRecord
content r = record r {
  attachments = [];
  disposition = captured;
  release = none;
  delivery = none;
  adapter_fields = none;
}

abbrev pub files_of : List IndexEntry → List RecordPath
files_of [] = []
files_of (i ∷ index) = i.file ∷ files_of index

-- The index has one line for each captured record, in the order of their first writing.
pub record IsIndexed (s : Store) : Type 0 where
  pub indexed : keys s.captures ≡ files_of s.index

-- The adapter fields that the methods write of themselves.
unfoldable pub is_own : Text → Bool
unfolding text_eq
is_own name =
    text_eq (text "park_reason") name
    || text_eq (text "park_faults") name
    || text_eq (text "browser_event_seq") name
    || text_eq (text "model_effect") name

-- The adapter fields that a caller writes by `annotate`.
pub record Noted : Type 0 where
  pub noted : Text → Bool

abbrev pub field_of : Text → MessageRecord → Option Json
field_of name r = lookup name (or_else r.adapter_fields no_fields)

nor_all :
    (a b c d : Bool)
    → (a || b || c || d) ≡ false
    → (a ≡ false) × (b ≡ false) × (c ≡ false) × (d ≡ false)
nor_all true b c d h = cc
nor_all false true c d h = cc
nor_all false false true d h = cc
nor_all false false false true h = cc
nor_all false false false false h = (refl, refl, refl, refl)

-- A name that is none of the methods' own.
pub own_apart :
    (name : Text)
    → is_own name ≡ false
    → (text_eq (text "park_reason") name ≡ false)
      × (text_eq (text "park_faults") name ≡ false)
      × (text_eq (text "browser_event_seq") name ≡ false)
      × (text_eq (text "model_effect") name ≡ false)
unfolding is_own
own_apart name = nor_all _ _ _ _

-- A name keeps its value under a write of another field.
pub field_kept :
    (name other : Text) (v : Json) (old : Option AdapterFields)
    → text_eq other name ≡ false
    → lookup name (or_else (spread_on old ((other, v) ∷ [])) no_fields)
      ≡ lookup name (or_else old no_fields)
field_kept name other v old e =
    spread_on-kept name old ((other, v) ∷ []) (unfold last_of in rw e refl)

module _ ⦃notes : Noted⦄ where
  -- `e` has become `e'`.
  pub record Grown (e e' : MessageRecord) : Type 0 where
    pub same_content : content e' ≡ content e
    pub more : List Attachment
    pub attachments_grow : e'.attachments ≡ e.attachments ++ more
    pub fields_kept :
        (name : Text)
        → is_own name ≡ false
        → notes.noted name ≡ false
        → field_of name e' ≡ field_of name e

  abbrev pub Kept : Store → Store → Type 0
  Kept s t =
      (p : RecordPath) (e : MessageRecord)
      → lookup p s.captures ≡ some e
      → (e' : MessageRecord) × (lookup p t.captures ≡ some e') × Grown e e'

  pub record Grows (s t : Store) : Type 0 where
    pub kept : Kept s t
    pub keeps_index : IsIndexed s → IsIndexed t

  pub Grown-refl : (e : MessageRecord) → Grown e e
  Grown-refl e = record {
    same_content = refl;
    more = [];
    attachments_grow = sym (append-nil _);
    fields_kept = λ name o n. refl;
  }

  Grown-trans : (a b c : MessageRecord) → Grown a b → Grown b c → Grown a c
  Grown-trans a b c g h = record {
    same_content = h.same_content ∙ g.same_content;
    more = g.more ++ h.more;
    attachments_grow =
        h.attachments_grow
        ∙ ap (λ t. t ++ h.more) g.attachments_grow
        ∙ append_assoc a.attachments g.more h.more;
    fields_kept = λ name o n. h.fields_kept name o n ∙ g.fields_kept name o n;
  }

  pub Grows-trans : {s t u : Store} → Grows s t → Grows t u → Grows s u
  Grows-trans g h = record {
    kept = λ p e at.
        let first = g.kept p e at in
        let second = h.kept p first.0 first.1 in
        (second.0, second.1, Grown-trans e first.0 second.0 first.2 second.2);
    keeps_index = λ i. h.keeps_index (g.keeps_index i);
  }

  -- A change that leaves the captures and the index.
  pub Grows-same : {s t : Store} → t.captures ≡ s.captures → t.index ≡ s.index → Grows s t
  Grows-same {s} {t} c i = record {
    kept = λ p e at. (e, rw c at, Grown-refl e);
    keeps_index = λ h. record { indexed = rw (c, i) h.indexed };
  }

  pub SameFiles-Grows : {s t : Store} → SameFiles s t → Grows s t
  SameFiles-Grows f = Grows-same f.same_captures f.same_index

  option_eq {ℓ} : {A : Type ℓ} {a b : A} → ◌≡◌ {A = Option A} (some a) (some b) → a ≡ b
  option_eq h = cc h

  -- A write over the record that is there.
  put-Grown :
      (place p : RecordPath) (e w a : MessageRecord) (captures : List (RecordPath × MessageRecord))
      → lookup place captures ≡ some e
      → Grown e w
      → lookup p captures ≡ some a
      → (a' : MessageRecord) × (lookup p (put place w captures) ≡ some a') × Grown a a'
  put-Grown place p e w a captures at g h = elim (Bool-cases (path_key.same place p)) [
    | inl same ↦ (
      w,
      rw (lookup-put, same) refl,
      subst (λ x. Grown x w)
          (option_eq (sym at ∙ ap (λ q. lookup q captures) ((same_path_iff place p).0 same) ∙ h)) g,
    )
    | inr other ↦ (a, rw (lookup-put, other) h, Grown-refl a)
  ]

  pub put-Grows :
      (place : RecordPath) (e w : MessageRecord) {s t : Store}
      → lookup place s.captures ≡ some e
      → Grown e w
      → t.captures ≡ put place w s.captures
      → t.index ≡ s.index
      → Grows s t
  put-Grows place e w {s} {t} at g c i = record {
    kept = λ p a h.
        let found = put-Grown place p e w a s.captures at g h in (found.0, rw c found.1, found.2);
    keeps_index =
        λ h. record { indexed = rw (c, i) (keys-put_old place w e s.captures at ∙ h.indexed) };
  }

  files_of-append : (xs ys : List IndexEntry) → files_of (xs ++ ys) ≡ files_of xs ++ files_of ys
  files_of-append [] ys = refl
  files_of-append (x ∷ xs) ys = ap (◌∷◌ x.file) (files_of-append xs ys)

  -- A first write, with its line of the index.
  pub put_new-Grows :
      (place : RecordPath) (w : MessageRecord) (line : IndexEntry) {s t : Store}
      → lookup place s.captures ≡ none
      → line.file ≡ place
      → t.captures ≡ put place w s.captures
      → t.index ≡ s.index ++ line ∷ []
      → Grows s t
  put_new-Grows place w line {s} {t} at f c i = record {
    kept = λ p a h. elim (Bool-cases (path_key.same place p)) [
      | inl same ↦ cc (h, at, ap (λ q. lookup q s.captures) ((same_path_iff place p).0 same))
      | inr other ↦ (a, rw (c, lookup-put, other) h, Grown-refl a)
    ];
    keeps_index = λ h. record {
      indexed =
          rw (c, i)
            (keys-put_new place w s.captures at
              ∙ ap (λ t. t ++ place ∷ []) h.indexed
              ∙ rw (files_of-append, f) refl);
    };
  }

  -- A later write of nothing else.
  pub Grown-same :
      (e w : MessageRecord)
      → content w ≡ content e
      → w.attachments ≡ e.attachments
      → ((name : Text)
          → is_own name ≡ false
          → notes.noted name ≡ false
          → field_of name w ≡ field_of name e)
      → Grown e w
  Grown-same e w c a f = record {
    same_content = c;
    more = [];
    attachments_grow = a ∙ sym (append-nil e.attachments);
    fields_kept = f;
  }

  -- A method grows the store if each of its parts does, the last on what the first gave.
  pub after-Grows :
      {A B : Type 0} {s : Store} (m : Result A × Store) (f : A → Exec B)
      → Grows s m.1
      → ((a : A) (t : Store) → m ≡ (ok a, t) → Grows t (f a t).1)
      → Grows s (after m f).1
  after-Grows (ok a, t) f g h = Grows-trans g (h a t refl)
  after-Grows (err faults, t) f g h = g
  after-Grows (broken, t) f g h = g

  -- A part that only reads.
  pub reads-Grows :
      {A B : Type 0} (r : Result A) (f : A → Exec B) (s : Store)
      → ((a : A) → r ≡ ok a → Grows s (f a s).1)
      → Grows s (after (r, s) f).1
  reads-Grows (ok a) f s h = h a refl
  reads-Grows (err faults) f s h = Grows-same refl refl
  reads-Grows broken f s h = Grows-same refl refl
