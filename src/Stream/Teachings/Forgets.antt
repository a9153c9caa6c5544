-- ===== src/Stream/Teachings/Forgets.antt =====
-- stream/teachings.ts: what `forget` promises.
use carbon_runtime.Common.{
  ℕ, suc, ◌-◌, ◌≡◌, refl, sym, ap, subst, ◌∙◌, Bool, true, false, not, ◌&&◌, List, [], ◌∷◌, ◌++◌,
  Option, none, some, Text, text, text_eq, length, lookup, lookup-put_self, Distinct, arith,
  is_some, or_else,
}
use carbon_runtime.Stream.Fault.{Fault, fault, name, ok, teaching_not_active}
use carbon_runtime.Stream.Json.{obj, str, Fields, get, is_text}
use carbon_runtime.Stream.Paths.{text_key}
use carbon_runtime.Stream.Store.{Store}
use carbon_runtime.Stream.Teachings.{Library, Directory, file_name, is_of, active_of}
use carbon_runtime.Stream.Teachings.Write.{declared_in, write_teaching}
use carbon_runtime.Stream.Teachings.Learn.{
  ForgetOptions, Learned, Cited, forget_held, forget_cited, forget, forgotten_of, find, has_id,
  learned, when,
}
use carbon_runtime.Stream.Teachings.Order.{get-in_schema_order}
use carbon_runtime.Stream.Teachings.Parts.{forgotten_other, forgotten_status, find-Has}
use carbon_runtime.Stream.Teachings.Listing.{OnDisk, group-OnDisk, text_of_is}
use carbon_runtime.Stream.Teachings.Counts.{active_over}
use carbon_runtime.Stream.Teachings.Outcome.{
  on_disk, learned_lem, write_teaching-HasWritten, with_cited-cases,
}

-- What a revocation that returns has done: the record is on disk under its id with the status
-- `forgotten`, it is the one that is given back, and the count is that of the active instructions.
pub record IsForgotten (library : Library) (options : ForgetOptions) (files files' : Directory)
    (l : Learned) : Type 0 where
  pub counted : length (active_of library files') ≡ l.active
  pub one_less : suc l.active ≡ length (active_of library files)
  pub there : lookup (file_name options.id) files' ≡ some (some (obj l.record_of))
  pub revoked : get (text "status") l.record_of ≡ some (str (text "forgotten"))

forgotten_id :
    (source now id : Text) (held : Fields)
    → get (text "id") held ≡ some (str id)
    → get (text "id") (forgotten_of source now held) ≡ some (str id)
forgotten_id source now id held h =
    forgotten_other source now held (text "id") (λ e. cc e) (λ e. cc e) ∙ h

and_false : (b : Bool) → (b && false) ≡ false
and_false true = refl
and_false false = refl

not_active :
    (r : Fields)
    → get (text "status") r ≡ some (str (text "forgotten"))
    → is_of (text "instruction") (text "active") r ≡ false
unfolding is_of is_text text_eq
not_active r h = rw h (and_false _)

held-IsForgotten :
    (library : Library) (options : ForgetOptions) (held : Fields) (files files' : Directory)
    (l : Learned) (p : OnDisk files held)
    → p.id ≡ options.id
    → is_of (text "instruction") (text "active") held ≡ true
    → learned (length (active_of library files) - 1) (
        write_teaching library
          (forgotten_of (or_else options.source_message_id []) options.now held)
          files)
      ≡ (ok l, files')
    → IsForgotten library options files files' l
held-IsForgotten library options held files files' l p asked active h =
    let source = or_else options.source_message_id [] in
    let revoked = forgotten_of source options.now held in
    let named = forgotten_id source options.now p.id held p.named in
    let (w, wrote, e) = learned_lem _ _ files' l h in
    let q = write_teaching-HasWritten library revoked p.id files files' w named wrote in
    let status : get (text "status") (on_disk library revoked) ≡ some (str (text "forgotten")) =
      get-in_schema_order (declared_in library.teaching_schema) (text "status") revoked
      ∙ forgotten_status source options.now held in
    let count =
      active_over library held (on_disk library revoked) files p
        (get-in_schema_order (declared_in library.teaching_schema) (text "id") revoked ∙ named)
        active (not_active (on_disk library revoked) status) in
    let given : l.record_of ≡ on_disk library revoked = ap (λ x. x.record_of) e ∙ q.same_record in
    record {
      counted =
          omega (
            arith,
            count,
            ap (λ x. length (active_of library x)) q.same_files,
            ap (λ x. x.active) e,
          );
      one_less = omega (arith, count, ap (λ x. x.active) e);
      there =
          subst (λ x. lookup (file_name x) files' ≡ some (some (obj l.record_of))) asked
            (ap (λ x. lookup (file_name p.id) x) q.same_files
              ∙ lookup-put_self (file_name p.id) _ files
              ∙ ap (λ x. some (some (obj x))) (sym given));
      revoked = ap (get (text "status")) given ∙ status;
    }

-- A revocation that returns has found what it revokes.
forget_held-cases :
    (library : Library) (options : ForgetOptions) (held : Option Fields) (faults : List Fault)
    (n : ℕ) (files files' : Directory) (l : Learned)
    → forget_held library options held faults n files ≡ (ok l, files')
    → (r : Fields) × (held ≡ some r)
      × (learned (n - 1) (
            write_teaching library
              (forgotten_of (or_else options.source_message_id []) options.now r)
              files)
          ≡ (ok l, files'))
forget_held-cases library options (some r) [] n files files' l h = (r, refl, h)
forget_held-cases library options (some r) (f ∷ fs) n files files' l h = cc
forget_held-cases library options none [] n files files' l h = cc
forget_held-cases library options none (f ∷ fs) n files files' l h = cc

forget_cited-IsForgotten :
    (library : Library) (options : ForgetOptions) (cited : Cited) (files files' : Directory)
    (l : Learned)
    → Distinct files
    → forget_cited library options cited files ≡ (ok l, files')
    → IsForgotten library options files files' l
unfolding forget_cited has_id active_of
forget_cited-IsForgotten library options cited files files' l d h =
    let held = find (has_id options.id) (active_of library files) in
    let (r, found, wrote) =
      forget_held-cases library options held
        (cited.faults ++ when (not (is_some held)) (fault teaching_not_active (name options.id)))
        (length (active_of library files)) files files' l h in
    let (there, asked) = find-Has (has_id options.id) (active_of library files) r found in
    let (p, active) = group-OnDisk library (text "instruction") (text "active") files r d there in
    let id : p.id ≡ options.id = cc (p.named, text_of_is (get (text "id") r) options.id asked) in
    held-IsForgotten library options r files files' l p id active wrote

-- A revocation that returns: the record is on disk under the id asked for, with the status
-- `forgotten`, and is given back as it is there; there is one active instruction less, and the count
-- given back is that of those on disk. The directory has every name once.
pub forget-IsForgotten :
    (library : Library) (options : ForgetOptions) (s : Store) (files files' : Directory)
    (l : Learned)
    → Distinct files
    → forget library options s files ≡ (ok l, files')
    → IsForgotten library options files files' l
unfolding forget
forget-IsForgotten library options s files files' l d h =
    let (cited, at, done) = with_cited-cases _ (forget_cited library options) files files' l h in
    forget_cited-IsForgotten library options cited files files' l d done
