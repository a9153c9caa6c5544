-- ===== src/Stream/Teachings/Outcome.antt =====
-- stream/teachings.ts: what a call that returns has done.
use carbon_runtime.Common.{
  ℕ, ◌≡◌, refl, sym, ap, ◌∙◌, ◌⊎◌, inl, inr, true, false, List, [], ◌∷◌, Option, none, some, Text,
  text, put,
}
use carbon_runtime.Stream.Fault.{Fault, Result, ok, err, broken, ok-injective}
use carbon_runtime.Stream.Json.{obj, str, Fields, get}
use carbon_runtime.Stream.Paths.{text_key}
use carbon_runtime.Stream.Record.{MessageRecord}
use carbon_runtime.Stream.Teachings.{Library, Directory, file_name}
use carbon_runtime.Stream.Teachings.Write.{
  Written, in_schema_order, declared_in, store_record, store_named, write_unless, write_teaching,
  free_id,
}
use carbon_runtime.Stream.Teachings.Learn.{
  TeachingOptions, Learned, Cited, base, learned, write_at, write_new, learn, with_cited,
}
use carbon_runtime.Stream.Teachings.Order.{get-in_schema_order}
use carbon_runtime.Stream.Teachings.Listing.{is_text_of}
use carbon_runtime.Stream.Teachings.Parts.{base_id}

-- The record as it is on disk after a write of it.
abbrev pub on_disk : Library → Fields → Fields
on_disk library r = in_schema_order (declared_in library.teaching_schema) r

-- A write that returns has put the record under its id, and gives it back as it is there.
pub record HasWritten (library : Library) (r : Fields) (id : Text) (files files' : Directory)
    (w : Written) : Type 0 where
  pub same_id : w.id ≡ id
  pub same_record : w.written ≡ on_disk library r
  pub same_files : files' ≡ put (file_name id) (some (obj (on_disk library r))) files

unless_lem :
    (faults : List Fault) (done : Result Written × Directory) (files files' : Directory)
    (w : Written)
    → write_unless faults done files ≡ (ok w, files')
    → done ≡ (ok w, files')
unless_lem [] done files files' w h = h
unless_lem (f ∷ fs) done files files' w h = cc

store_record-HasWritten :
    (library : Library) (r : Fields) (id : Text) (files files' : Directory) (w : Written)
    → get (text "id") r ≡ some (str id)
    → store_record (declared_in library.teaching_schema) id r files ≡ (ok w, files')
    → HasWritten library r id files files' w
unfolding store_record
store_record-HasWritten library r id files files' w named h =
    let back =
      is_text_of (get (text "id") (on_disk library r)) id
        (get-in_schema_order (declared_in library.teaching_schema) (text "id") r ∙ named) in
    let e = rw back at h in
    record {
      same_id = sym (ap (λ x. x.id) (ok-injective (ap (λ x. x.0) e)));
      same_record = sym (ap (λ x. x.written) (ok-injective (ap (λ x. x.0) e)));
      same_files = sym (ap (λ x. x.1) e);
    }

pub write_teaching-HasWritten :
    (library : Library) (r : Fields) (id : Text) (files files' : Directory) (w : Written)
    → get (text "id") r ≡ some (str id)
    → write_teaching library r files ≡ (ok w, files')
    → HasWritten library r id files files' w
unfolding write_teaching
write_teaching-HasWritten library r id files files' w named h =
    store_record-HasWritten library r id files files' w named (
      ap (λ v. store_named (declared_in library.teaching_schema) v r files) (sym named)
      ∙ unless_lem _ _ files files' w h)

-- A new record that a call has written.
pub record IsNew (library : Library) (options : TeachingOptions) (capture : Option MessageRecord)
    (kind : Fields) (n : ℕ) (files files' : Directory) (l : Learned) : Type 0 where
  pub source : Text
  pub cited : MessageRecord
  pub id : Text
  pub has_source : options.source_message_id ≡ some source
  pub has_capture : capture ≡ some cited
  pub is_free : free_id library source options.now files ≡ ok id
  pub put_there :
      files'
      ≡ put (file_name id) (some (obj (on_disk library (base options source id cited kind)))) files
  pub given_back : l.record_of ≡ on_disk library (base options source id cited kind)
  pub counted : l.active ≡ n
  pub is_new : l.already ≡ false

pub learned_lem :
    (n : ℕ) (done : Result Written × Directory) (files' : Directory) (l : Learned)
    → learned n done ≡ (ok l, files')
    → (w : Written) × (done ≡ (ok w, files'))
      × (l ≡ record { id = some (str w.id); record_of = w.written; active = n; already = false })
learned_lem n (ok w, files) files' l h =
    (w, ap (λ x. (ok w, x.1)) h, sym (ok-injective (ap (λ x. x.0) h)))
learned_lem n (err faults, files) files' l h = cc
learned_lem n (broken, files) files' l h = cc

write_at-IsNew :
    (library : Library) (options : TeachingOptions) (source : Text) (capture : MessageRecord)
    (kind : Fields) (n : ℕ) (files files' : Directory) (l : Learned) (found : Result Text)
    → options.source_message_id ≡ some source
    → free_id library source options.now files ≡ found
    → write_at library options source capture kind n files found ≡ (ok l, files')
    → IsNew library options (some capture) kind n files files' l
write_at-IsNew library options source capture kind n files files' l (ok id) given free h =
    let (w, wrote, e) = learned_lem n _ files' l h in
    let p =
      write_teaching-HasWritten library (base options source id capture kind) id files files' w
        (base_id options source id capture kind) wrote in
    record {
      source = source;
      cited = capture;
      id = id;
      has_source = given;
      has_capture = refl;
      is_free = free;
      put_there = p.same_files;
      given_back = ap (λ x. x.record_of) e ∙ p.same_record;
      counted = ap (λ x. x.active) e;
      is_new = ap (λ x. x.already) e;
    }
write_at-IsNew library options source capture kind n files files' l (err faults) given free h = cc
write_at-IsNew library options source capture kind n files files' l broken given free h = cc

pub write_new-IsNew :
    (library : Library) (options : TeachingOptions) (source : Option Text)
    (capture : Option MessageRecord) (kind : Fields) (n : ℕ) (files files' : Directory)
    (l : Learned)
    → options.source_message_id ≡ source
    → write_new library options source capture kind n files ≡ (ok l, files')
    → IsNew library options capture kind n files files' l
write_new-IsNew library options none capture kind n files files' l given h = cc
write_new-IsNew library options (some source) none kind n files files' l given h = cc
write_new-IsNew library options (some source) (some capture) kind n files files' l given h =
    write_at-IsNew library options source capture kind n files files' l
      (free_id library source options.now files) given refl h

-- What a call that returns is: a record that was there already, and no write, or a new one.
pub learn-cases :
    (n : ℕ) (same : Option Fields) (faults : List Fault) (new : Result Learned × Directory)
    (files files' : Directory) (l : Learned)
    → learn n same faults new files ≡ (ok l, files')
    → (faults ≡ [])
      × (((r : Fields) × (same ≡ some r)
            × (l ≡ record { id = get (text "id") r; record_of = r; active = n; already = true })
            × (files' ≡ files))
          ⊎ ((same ≡ none) × (new ≡ (ok l, files'))))
learn-cases n (some r) [] new files files' l h =
    (refl, inl (r, refl, sym (ok-injective (ap (λ x. x.0) h)), sym (ap (λ x. x.1) h)))
learn-cases n (some r) (f ∷ fs) new files files' l h = cc
learn-cases n none (f ∷ fs) new files files' l h = cc
learn-cases n none [] new files files' l h = (refl, inr (refl, h))

pub with_cited-cases :
    {A : Type 0} (found : Result Cited) (f : Cited → Directory → Result A × Directory)
    (files files' : Directory) (a : A)
    → with_cited found f files ≡ (ok a, files')
    → (cited : Cited) × (found ≡ ok cited) × (f cited files ≡ (ok a, files'))
with_cited-cases (ok cited) f files files' a h = (cited, refl, h)
with_cited-cases (err faults) f files files' a h = cc
with_cited-cases broken f files files' a h = cc
