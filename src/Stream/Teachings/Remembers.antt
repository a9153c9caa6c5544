-- ===== src/Stream/Teachings/Remembers.antt =====
-- stream/teachings.ts: what `remember` promises.
use carbon_runtime.Common.{
  ℕ, suc, ◌≤◌, ◌≡◌, refl, sym, ap, ap₂, subst, ◌∙◌, ◌⊎◌, inl, inr, Bool, true, false, List, [], ◌∷◌,
  ◌++◌, Option, none, some, Text, text, arith, append-eq-nil, length, leb,
}
use carbon_runtime.Stream.Fault.{Fault, fault, name, ok, teaching_at_cap}
use carbon_runtime.Stream.Json.{Json, integer, obj, Fields, get}
use carbon_runtime.Stream.Paths.{text_key}
use carbon_runtime.Stream.Record.{MessageRecord}
use carbon_runtime.Stream.Store.{Store}
use carbon_runtime.Stream.Teachings.{Library, Directory, active_of}
use carbon_runtime.Stream.Teachings.Learn.{
  TeachingOptions, Learned, Cited, taught_by, text_faults, remember_faults, remember_cited,
  remember, instruction_fields, same_teaching, find, at_cap, write_new, cited_capture, when,
}
use carbon_runtime.Stream.Teachings.Outcome.{write_new-IsNew, learn-cases, with_cited-cases}
use carbon_runtime.Stream.Teachings.Added.{IsNew-count, IsNew-teacher}
use carbon_runtime.Stream.Teachings.Teacher.{IsCapture, cited_capture-IsCapture}

snoc_lem : (fs : List Fault) (f : Fault) → fs ++ f ∷ [] ≡ [] → ⊥
snoc_lem [] f h = cc
snoc_lem (g ∷ fs) f h = cc

when_lem : (b : Bool) (f : Fault) → when b f ≡ [] → b ≡ false
when_lem true f h = cc
when_lem false f h = refl

-- A text is given where the text has no fault.
text_given :
    (message : Option Text) (max_chars : Option Json)
    → text_faults message max_chars ≡ []
    → (t : Text) × (message ≡ some t)
unfolding text_faults
text_given none max_chars h = absurd (snoc_lem _ _ h)
text_given (some t) max_chars h = (t, refl)

-- What `remember` has done where it returns, on a cap of `limit` instructions.
pub record IsRemembered (library : Library) (options : TeachingOptions) (s : Store) (limit : ℕ)
    (files files' : Directory) (l : Learned) : Type 0 where
  -- The count that it gives is that of the active instructions on disk.
  pub counted : length (active_of library files') ≡ l.active
  -- Either the instruction was there and nothing is written, or there was room for it, and it names
  -- as its teacher the sender of an inbound message that the store holds.
  pub outcome :
      ((l.already ≡ true) × (files' ≡ files))
      ⊎ ((l.already ≡ false)
          × (l.active ≤ limit)
          × ((r : MessageRecord) × IsCapture library.node options.conversation_id
                options.source_message_id s r
              × (get (text "taught_by") l.record_of ≡ some (obj (taught_by r)))))

-- There is room where the limit is no fault.
room_lem :
    (max_active : Option Json) (limit active : ℕ) (same : Option Fields)
    → max_active ≡ some (integer limit)
    → same ≡ none
    → when (at_cap same max_active active) (fault teaching_at_cap (name (text "max_active"))) ≡ []
    → suc active ≤ limit
unfolding at_cap
room_lem max_active limit active same given none_there h =
    let e = when_lem (at_cap same max_active active) _ h in
    let room : leb limit active ≡ false =
      ap₂ (λ x y. at_cap x y active) (sym none_there) (sym given) ∙ e in
    ground (arith, room)

remember_cited-IsRemembered :
    (library : Library) (options : TeachingOptions) (s : Store) (cited : Cited) (limit : ℕ)
    (files files' : Directory) (l : Learned)
    → options.max_active ≡ some (integer limit)
    → cited_capture library.node options.conversation_id options.source_message_id s ≡ ok cited
    → remember_cited library options cited files ≡ (ok l, files')
    → IsRemembered library options s limit files files' l
unfolding remember_cited
remember_cited-IsRemembered library options s cited limit files files' l given at h =
    let active = active_of library files in
    let same = find (same_teaching options) active in
    let (clear, outcome) =
      learn-cases (length active) same
        (remember_faults options cited
          ++ when (at_cap same options.max_active (length active))
              (fault teaching_at_cap (name (text "max_active"))))
        (write_new library options options.source_message_id cited.capture instruction_fields
          (suc (length active)) files)
        files files' l h in
    elim outcome [
      | inl (r, there, e, unchanged) ↦ record {
        counted = ap (λ x. length (active_of library x)) unchanged ∙ sym (ap (λ x. x.active) e);
        outcome = inl (ap (λ x. x.already) e, unchanged);
      }
      | inr (missing, wrote) ↦
          let p =
            write_new-IsNew library options options.source_message_id cited.capture
              instruction_fields _ files files' l refl wrote in
          record {
            counted = IsNew-count library options cited.capture _ files files' l p ∙ sym p.counted;
            outcome = inr (
              p.is_new,
              subst (λ x. x ≤ limit) (sym p.counted)
                  (room_lem options.max_active limit (length (active_of library files)) _ given
                    missing (((append-eq-nil _ _).0 clear).1)),
              (
                p.cited,
                cited_capture-IsCapture library.node options.conversation_id
                    options.source_message_id s cited p.cited at p.has_capture,
                IsNew-teacher library options cited.capture _ files files' l p,
              ),
            );
          }
    ]

-- An instruction that is remembered: the count given back is that of the active instructions on
-- disk, and either the same instruction was active already and nothing is written, or the active
-- instructions are within the declared limit with the new one, whose teacher is the sender of an
-- inbound message of the conversation that the store holds.
pub remember-IsRemembered :
    (library : Library) (options : TeachingOptions) (s : Store) (limit : ℕ)
    (files files' : Directory) (l : Learned)
    → options.max_active ≡ some (integer limit)
    → remember library options s files ≡ (ok l, files')
    → IsRemembered library options s limit files files' l
unfolding remember
remember-IsRemembered library options s limit files files' l given h =
    let (cited, at, done) = with_cited-cases _ (remember_cited library options) files files' l h in
    remember_cited-IsRemembered library options s cited limit files files' l given at done
