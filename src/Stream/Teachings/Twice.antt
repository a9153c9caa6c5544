-- ===== src/Stream/Teachings/Twice.antt =====
-- stream/teachings.ts: one message and one text are one thing taught, however often it is taught.
use carbon_runtime.Common.{
  ℕ, suc, ◌≡◌, refl, ap, ◌∙◌, inl, inr, true, List, [], ◌∷◌, ◌++◌, Option, none, some, Text, text,
  append-eq-nil, length, Has,
}
use carbon_runtime.Stream.Fault.{Fault, fault, name, Result, ok, teaching_at_cap}
use carbon_runtime.Stream.Json.{Json, Fields, get}
use carbon_runtime.Stream.Paths.{text_key}
use carbon_runtime.Stream.Record.{MessageRecord}
use carbon_runtime.Stream.Store.{Store}
use carbon_runtime.Stream.Teachings.{Library, Directory, active_of}
use carbon_runtime.Stream.Teachings.Learn.{
  TeachingOptions, Learned, Cited, text_faults, remember_faults, remember_cited, remember,
  instruction_fields, same_teaching, find, at_cap, write_new, learn, with_cited, when,
}
use carbon_runtime.Stream.Teachings.Parts.{Has-find}
use carbon_runtime.Stream.Teachings.Listing.{OnDisk-group}
use carbon_runtime.Stream.Teachings.Outcome.{IsNew, write_new-IsNew, learn-cases, with_cited-cases}
use carbon_runtime.Stream.Teachings.Added.{new_record, new_active, IsNew-OnDisk, IsNew-same}

snoc_lem : (fs : List Fault) (f : Fault) → fs ++ f ∷ [] ≡ [] → ⊥
snoc_lem [] f h = cc
snoc_lem (g ∷ fs) f h = cc

-- A text is given where the text has no fault.
text_given :
    (message : Option Text) (max_chars : Option Json)
    → text_faults message max_chars ≡ []
    → (t : Text) × (message ≡ some t)
unfolding text_faults
text_given none max_chars h = absurd (snoc_lem _ _ h)
text_given (some t) max_chars h = (t, refl)

-- A call that finds the instruction among the active ones, and nothing to refuse.
learn_found :
    (options : TeachingOptions) (cited : Cited) (n : ℕ) (same : Option Fields) (q : Fields)
    (faults : List Fault) (new : Result Learned × Directory) (files : Directory)
    → same ≡ some q
    → faults ≡ []
    → learn n same
        (faults
          ++ when
              (at_cap same options.max_active n)
              (fault teaching_at_cap (name (text "max_active"))))
        new
        files
      ≡ (ok (record { id = get (text "id") q; record_of = q; active = n; already = true }), files)
unfolding at_cap
learn_found options cited n same q faults new files e clear = rw (e, clear) refl

faultless_text :
    (options : TeachingOptions) (cited : Cited)
    → remember_faults options cited ≡ []
    → (t : Text) × (options.message ≡ some t)
unfolding remember_faults
faultless_text options cited h = text_given options.message options.max_chars (
    ((append-eq-nil (text_faults options.message options.max_chars) _).0
      (((append-eq-nil cited.faults _).0 h).1)).0)

-- A record that is added is among the active ones.
IsNew-Has :
    (library : Library) (options : TeachingOptions) (capture : Option MessageRecord) (n : ℕ)
    (files files' : Directory) (l : Learned)
    (p : IsNew library options capture instruction_fields n files files' l)
    → Has (new_record library options capture n files files' l p) (active_of library files')
unfolding active_of
IsNew-Has library options capture n files files' l p =
    OnDisk-group library (text "instruction") (text "active") files' _
      (IsNew-OnDisk library options capture n files files' l p)
      (new_active library options capture n files files' l p)

-- What the second of two calls gives.
abbrev pub again : TeachingOptions → Library → Directory → Fields → Learned
again options library files q = record {
  id = get (text "id") q;
  record_of = q;
  active = length (active_of library files);
  already = true;
}

remember_cited-twice :
    (library : Library) (options : TeachingOptions) (cited : Cited) (files files' : Directory)
    (l : Learned)
    → remember_cited library options cited files ≡ (ok l, files')
    → (q : Fields) × (remember_cited library options cited files'
        ≡ (ok (again options library files' q), files'))
unfolding remember_cited
remember_cited-twice library options cited files files' l h =
    let active = active_of library files in
    let same = find (same_teaching options) active in
    let (clear, outcome) =
      learn-cases (length active) same
        (remember_faults options cited
          ++ when (at_cap same options.max_active (length active))
              (fault teaching_at_cap (name (text "max_active"))))
        (write_new library options options.source_message_id cited.capture instruction_fields
          (suc (length active)) files)
        files files' l h in
    let no_faults = ((append-eq-nil _ _).0 clear).0 in
    elim outcome [
      | inl (r, there, e, unchanged) ↦ (
        r,
        learn_found options cited _ _ r _ _ files'
            (ap (λ x. find (same_teaching options) (active_of library x)) unchanged ∙ there)
            no_faults,
      )
      | inr (missing, wrote) ↦
          let p =
            write_new-IsNew library options options.source_message_id cited.capture
              instruction_fields (suc (length active)) files files' l refl wrote in
          let (t, given) = faultless_text options cited no_faults in
          let (q, found) =
            Has-find (same_teaching options) (active_of library files') _
              (IsNew-Has library options cited.capture (suc (length active)) files files' l p)
              (IsNew-same library options cited.capture (suc (length active)) files files' l p t
                given) in
          (q, learn_found options cited _ _ q _ _ files' found no_faults)
    ]

-- An instruction is taught once: after a `remember` that returns, the same call with the same store
-- returns an instruction that is active already, and writes nothing.
pub remember-remember :
    (library : Library) (options : TeachingOptions) (s : Store) (files files' : Directory)
    (l : Learned)
    → remember library options s files ≡ (ok l, files')
    → (q : Fields) × (remember library options s files'
        ≡ (ok (again options library files' q), files'))
unfolding remember
remember-remember library options s files files' l h =
    let (cited, at, done) = with_cited-cases _ (remember_cited library options) files files' l h in
    let (q, second) = remember_cited-twice library options cited files files' l done in
    (q, ap (λ x. with_cited x (remember_cited library options) files') at ∙ second)
