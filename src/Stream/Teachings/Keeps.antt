-- ===== src/Stream/Teachings/Keeps.antt =====
-- stream/teachings.ts: nothing takes a record away.
use carbon_runtime.Common.{
  ℕ, ◌≡◌, ◌≢◌, refl, sym, ap, subst, ◌∙◌, ◌⊎◌, inl, inr, List, [], ◌∷◌, Option, none, some, or_else,
  Text, text, text_eq, text_eq_iff, Bool-cases, lookup, put, Distinct, put-Distinct,
  lookup-put_self, lookup-put_other,
}
use carbon_runtime.Stream.Fault.{Fault, Result, ok, err, broken}
use carbon_runtime.Stream.Json.{Json, obj, str, Fields, get}
use carbon_runtime.Stream.Paths.{text_key}
use carbon_runtime.Stream.Record.{MessageRecord}
use carbon_runtime.Stream.Store.{Store}
use carbon_runtime.Stream.Teachings.{Library, Directory, file_name, active_of}
use carbon_runtime.Stream.Teachings.Write.{
  in_schema_order, store_record, store_named, write_unless, write_teaching, Written, free_id,
  declared_in,
}
use carbon_runtime.Stream.Teachings.Learn.{
  TeachingOptions, ForgetOptions, Learned, Cited, base, learned, write_at, write_new, learn,
  remember_cited, remember, raise_cited, raise_change, forget_held, forget_cited, forget,
  forgotten_of, find, has_id, with_cited,
}
use carbon_runtime.Stream.Teachings.Parts.{base_id, forgotten_other, find-Has}
use carbon_runtime.Stream.Teachings.Order.{get-in_schema_order}
use carbon_runtime.Stream.Teachings.Listing.{OnDisk, group-OnDisk}
use carbon_runtime.Stream.Teachings.Fresh.{free_id-IsFree}

-- The same record, but for what a revocation changes.
abbrev pub SameTeaching : Fields → Fields → Type 0
SameTeaching r r' =
    (key : Text) → key ≢ text "status" → key ≢ text "forgotten" → get key r' ≡ get key r

-- Every record of a directory is in the other one, under the same name, the same but for what a
-- revocation changes.
abbrev pub Kept : Directory → Directory → Type 0
Kept files files' =
    (file : Text) (r : Fields)
    → lookup file files ≡ some (some (obj r))
    → (r' : Fields) × (lookup file files' ≡ some (some (obj r'))) × SameTeaching r r'

-- What each call leaves of a directory that has every name once.
abbrev pub IsSafe : Directory → Directory → Type 0
IsSafe files files' = Kept files files' × Distinct files'

same-IsSafe : (files : Directory) → Distinct files → IsSafe files files
same-IsSafe files d = (λ file r there. (r, there, λ key a b. refl), d)

added-IsSafe :
    (files : Directory) (file : Text) (content : Option Json)
    → Distinct files
    → lookup file files ≡ none
    → IsSafe files (put file content files)
added-IsSafe files file content d free = (
  λ other r there. (
    r,
    lookup-put_other file other content files (λ e. cc (free, there, e)) ∙ there,
    λ key a b. refl,
  ),
  put-Distinct file content files d,
)

changed-Kept :
    (files : Directory) (file : Text) (r r' : Fields)
    → lookup file files ≡ some (some (obj r))
    → SameTeaching r r'
    → Kept files (put file (some (obj r')) files)
changed-Kept files file r r' at same other q there = elim (Bool-cases (text_eq file other)) [
  | inl b ↦
      let e = (text_eq_iff file other).0 b in
      let old : r ≡ q = cc (at, there, e) in
      (
        r',
        subst (λ x. lookup x (put file (some (obj r')) files) ≡ some (some (obj r'))) e
            (lookup-put_self file (some (obj r')) files),
        λ key s f. same key s f ∙ ap (get key) old,
      )
  | inr b ↦ (
    q,
    lookup-put_other file other (some (obj r')) files (λ e. cc (b, (text_eq_iff file other).1 e))
        ∙ there,
    λ key s f. refl,
  )
]

-- A write leaves the directory as it is, or puts the record under its own id.
abbrev Wrote : Library → Fields → Directory → Directory → Type 0
Wrote library r files files' =
    (files' ≡ files)
    ⊎ ((id : Text) × (get (text "id") r ≡ some (str id))
        × (files'
            ≡ put (file_name id)
                (some (obj (in_schema_order (declared_in library.teaching_schema) r))) files))

store_named-Wrote :
    (library : Library) (v : Option Json) (r : Fields) (files : Directory)
    → get (text "id") r ≡ v
    → Wrote library r files (store_named (declared_in library.teaching_schema) v r files).1
unfolding store_record
store_named-Wrote library (some (str id)) r files e = inr (id, e, refl)
store_named-Wrote library none r files e = inl refl
store_named-Wrote library (some Json.null) r files e = inl refl
store_named-Wrote library (some (Json.boolean b)) r files e = inl refl
store_named-Wrote library (some (Json.integer n)) r files e = inl refl
store_named-Wrote library (some (Json.negative n)) r files e = inl refl
store_named-Wrote library (some (Json.fraction n i)) r files e = inl refl
store_named-Wrote library (some (Json.negative_fraction n)) r files e = inl refl
store_named-Wrote library (some (Json.arr vs)) r files e = inl refl
store_named-Wrote library (some (obj fs)) r files e = inl refl

write_unless-Wrote :
    (library : Library) (r : Fields) (faults : List Fault) (done : Result Written × Directory)
    (files : Directory)
    → Wrote library r files (done.1)
    → Wrote library r files (write_unless faults done files).1
write_unless-Wrote library r [] done files w = w
write_unless-Wrote library r (f ∷ fs) done files w = inl refl

write_teaching-Wrote :
    (library : Library) (r : Fields) (files : Directory)
    → Wrote library r files (write_teaching library r files).1
unfolding write_teaching
write_teaching-Wrote library r files =
    write_unless-Wrote library r _ _ files
      (store_named-Wrote library (get (text "id") r) r files refl)

-- A record written at an id that is free.
new-IsSafe :
    (library : Library) (r : Fields) (id : Text) (files : Directory)
    → Distinct files
    → get (text "id") r ≡ some (str id)
    → lookup (file_name id) files ≡ none
    → IsSafe files (write_teaching library r files).1
new-IsSafe library r id files d named free = elim (write_teaching-Wrote library r files) [
  | inl e ↦ subst (IsSafe files) (sym e) (same-IsSafe files d)
  | inr (other, e, p) ↦
      let same : other ≡ id = cc (e, named) in
      subst (IsSafe files) (sym p) (
        added-IsSafe files (file_name other) _ d
          (subst (λ x. lookup (file_name x) files ≡ none) (sym same) free))
]

-- A record written over the one that is on disk under its id.
over-IsSafe :
    (library : Library) (held r : Fields) (files : Directory)
    → Distinct files
    → (p : OnDisk files held) → get (text "id") r ≡ some (str p.id)
    → SameTeaching held r
    → IsSafe files (write_teaching library r files).1
over-IsSafe library held r files d p named same = elim (write_teaching-Wrote library r files) [
  | inl e ↦ subst (IsSafe files) (sym e) (same-IsSafe files d)
  | inr (other, e, q) ↦
      let id : p.id ≡ other = cc (e, named) in
      subst (IsSafe files) (sym q) (
        changed-Kept files (file_name other) held _
            (subst (λ x. lookup (file_name x) files ≡ some (some (obj held))) id p.there)
            (λ key s f.
              get-in_schema_order (declared_in library.teaching_schema) key r ∙ same key s f),
        put-Distinct (file_name other) _ files d,
      )
]

learned-files : (n : ℕ) (done : Result Written × Directory) → (learned n done).1 ≡ done.1
learned-files n (ok w, files) = refl
learned-files n (err faults, files) = refl
learned-files n (broken, files) = refl

write_new-IsSafe :
    (library : Library) (options : TeachingOptions) (source : Option Text)
    (capture : Option MessageRecord) (kind : Fields) (n : ℕ) (files : Directory)
    → Distinct files
    → IsSafe files (write_new library options source capture kind n files).1
write_new-IsSafe library options none capture kind n files d = same-IsSafe files d
write_new-IsSafe library options (some source) none kind n files d = same-IsSafe files d
write_new-IsSafe library options (some source) (some capture) kind n files d =
    with_id (free_id library source options.now files) refl
  where
    with_id :
        (found : Result Text)
        → free_id library source options.now files ≡ found
        → IsSafe files (write_at library options source capture kind n files found).1
    with_id (ok id) e = subst (IsSafe files) (sym (learned-files n _)) (
        new-IsSafe library (base options source id capture kind) id files d
          (base_id options source id capture kind)
          (free_id-IsFree library source options.now files id e).free)
    with_id (err faults) e = same-IsSafe files d
    with_id broken e = same-IsSafe files d

learn-IsSafe :
    (n : ℕ) (same : Option Fields) (faults : List Fault) (new : Result Learned × Directory)
    (files : Directory)
    → Distinct files
    → IsSafe files (new.1)
    → IsSafe files (learn n same faults new files).1
learn-IsSafe n (some r) [] new files d safe = same-IsSafe files d
learn-IsSafe n (some r) (f ∷ fs) new files d safe = same-IsSafe files d
learn-IsSafe n none (f ∷ fs) new files d safe = same-IsSafe files d
learn-IsSafe n none [] new files d safe = safe

with_cited-IsSafe :
    {A : Type 0} (found : Result Cited) (f : Cited → Directory → Result A × Directory)
    (files : Directory)
    → Distinct files
    → ((cited : Cited) → IsSafe files (f cited files).1)
    → IsSafe files (with_cited found f files).1
with_cited-IsSafe (ok cited) f files d safe = safe cited
with_cited-IsSafe (err faults) f files d safe = same-IsSafe files d
with_cited-IsSafe broken f files d safe = same-IsSafe files d

remember-IsSafe :
    (library : Library) (options : TeachingOptions) (s : Store) (files : Directory)
    → Distinct files
    → IsSafe files (remember library options s files).1
unfolding remember remember_cited
remember-IsSafe library options s files d =
    with_cited-IsSafe _ (remember_cited library options) files d λ cited.
      learn-IsSafe _ _ _ _ files d
        (write_new-IsSafe library options options.source_message_id cited.capture _ _ files d)

raise_change-IsSafe :
    (library : Library) (options : TeachingOptions) (s : Store) (files : Directory)
    → Distinct files
    → IsSafe files (raise_change library options s files).1
unfolding raise_change raise_cited
raise_change-IsSafe library options s files d =
    with_cited-IsSafe _ (raise_cited library options) files d λ cited.
      learn-IsSafe _ _ _ _ files d
        (write_new-IsSafe library options options.source_message_id cited.capture _ _ files d)

forget_held-IsSafe :
    (library : Library) (options : ForgetOptions) (held : Option Fields) (faults : List Fault)
    (n : ℕ) (files : Directory)
    → Distinct files
    → ((r : Fields) → held ≡ some r → OnDisk files r)
    → IsSafe files (forget_held library options held faults n files).1
forget_held-IsSafe library options none [] n files d there = same-IsSafe files d
forget_held-IsSafe library options none (f ∷ fs) n files d there = same-IsSafe files d
forget_held-IsSafe library options (some r) (f ∷ fs) n files d there = same-IsSafe files d
forget_held-IsSafe library options (some r) [] n files d there =
    let source = or_else options.source_message_id [] in
    let p = there r refl in
    subst (IsSafe files)
      (sym (learned-files _ (write_teaching library (forgotten_of source options.now r) files)))
      (over-IsSafe library r (forgotten_of source options.now r) files d p
        (forgotten_other source options.now r (text "id") (λ e. cc e) (λ e. cc e) ∙ p.named)
        (forgotten_other source options.now r))

forget-IsSafe :
    (library : Library) (options : ForgetOptions) (s : Store) (files : Directory)
    → Distinct files
    → IsSafe files (forget library options s files).1
unfolding forget forget_cited active_of
forget-IsSafe library options s files d =
    with_cited-IsSafe _ (forget_cited library options) files d λ cited.
      forget_held-IsSafe library options (find (has_id options.id) (active_of library files)) _ _
        files d
        λ r e.
          (group-OnDisk library (text "instruction") (text "active") files r d
            ((find-Has (has_id options.id) (active_of library files) r e).0)).0

-- The calls that change the directory, each with the store that it reads.
pub data TeachingCall : Type 0 where
  call_remember : TeachingOptions → Store → TeachingCall
  call_raise : TeachingOptions → Store → TeachingCall
  call_forget : ForgetOptions → Store → TeachingCall

abbrev pub call : Library → TeachingCall → Directory → Directory
call library (call_remember options s) files = (remember library options s files).1
call library (call_raise options s) files = (raise_change library options s files).1
call library (call_forget options s) files = (forget library options s files).1

abbrev pub calls : Library → List TeachingCall → Directory → Directory
calls library [] files = files
calls library (c ∷ cs) files = calls library cs (call library c files)

call-IsSafe :
    (library : Library) (c : TeachingCall) (files : Directory)
    → Distinct files
    → IsSafe files (call library c files)
call-IsSafe library (call_remember options s) files d = remember-IsSafe library options s files d
call-IsSafe library (call_raise options s) files d = raise_change-IsSafe library options s files d
call-IsSafe library (call_forget options s) files d = forget-IsSafe library options s files d

calls-Kept :
    (library : Library) (cs : List TeachingCall) (files : Directory)
    → Distinct files
    → Kept files (calls library cs files)
calls-Kept library [] files d file r there = (r, there, λ key s f. refl)
calls-Kept library (c ∷ cs) files d file r there =
    let (kept, distinct) = call-IsSafe library c files d in
    let (q, at, same) = kept file r there in
    let (p, at', same') = calls-Kept library cs (call library c files) distinct file q at in
    (p, at', λ key s f. same' key s f ∙ same key s f)

-- Nothing that is taught is taken away: whatever calls are made, each returning or refusing, a
-- record that is in the directory stays there under its name, with every field that it had but its
-- status and what says who revoked it. The directory has every name once.
pub calls-keep :
    (library : Library) (cs : List TeachingCall) (files : Directory) (file : Text) (r : Fields)
    (key : Text)
    → Distinct files
    → lookup file files ≡ some (some (obj r))
    → key ≢ text "status"
    → key ≢ text "forgotten"
    → (r' : Fields) × (lookup file (calls library cs files) ≡ some (some (obj r')))
      × (get key r' ≡ get key r)
calls-keep library cs files file r key d there s f =
    let (q, at, same) = calls-Kept library cs files d file r there in (q, at, same key s f)
