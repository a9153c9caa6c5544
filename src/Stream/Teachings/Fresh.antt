-- ===== src/Stream/Teachings/Fresh.antt =====
-- stream/teachings.ts: the id of a new record is free, and one is found where one of those tried is.
use carbon_runtime.Common.{
  ℕ, zero, suc, ◌+◌, ◌≡◌, refl, subst, ◌∙◌, ◌⊎◌, if◌then◌else◌, inl, inr, true, ◌++◌, Option, none,
  some, is_some, Option-cases, Text, text, text_eq_refl, starts_with, lookup, drop-append,
}
use carbon_runtime.Stream.Fault.{Result, ok-injective, ok, err, broken}
use carbon_runtime.Stream.Json.{Json}
use carbon_runtime.Stream.Paths.{text_key}
use carbon_runtime.Stream.Teachings.{Library, Directory, file_name, is_read}
use carbon_runtime.Stream.Teachings.Write.{
  teaching_id, id_at, id_rest, free_at, try_next, free_from, free_id, id_tries,
}

-- An id that a new record may take: no file has it, and its file is one that is read.
pub record IsFree (files : Directory) (id : Text) : Type 0 where
  pub free : lookup (file_name id) files ≡ none
  pub seen : is_read (file_name id) ≡ true

teach_read : (rest : Text) → is_read (file_name (text "teach-" ++ rest)) ≡ true
unfolding is_read starts_with
teach_read rest =
    rw (drop-append (text "teach-" ++ rest) (text ".json")) (rw (text_eq_refl (text ".json")) refl)

id_at_lem :
    (library : Library) (source : Text) (ms : Option ℕ) (id : Text)
    → id_at library source ms ≡ ok id
    → is_read (file_name id) ≡ true
id_at_lem library source none id h = cc
id_at_lem library source (some ms) id h =
    subst (λ x. is_read (file_name x) ≡ true) (ok-injective h)
      (teach_read (id_rest library source ms))

IsFree-case :
    (files : Directory) (tried id : Text) (next : Result Text) (there : Option (Option Json))
    → lookup (file_name tried) files ≡ there
    → is_read (file_name tried) ≡ true
    → (next ≡ ok id → IsFree files id)
    → (if is_some there then next else ok tried) ≡ ok id
    → IsFree files id
IsFree-case files tried id next none e seen later h =
    subst (IsFree files) (ok-injective h) (record { free = e; seen = seen })
IsFree-case files tried id next (some c) e seen later h = later h

try_next-IsFree :
    (files : Directory) (a next : Result Text) (id : Text)
    → ((tried : Text) → a ≡ ok tried → is_read (file_name tried) ≡ true)
    → (next ≡ ok id → IsFree files id)
    → try_next files a next ≡ ok id
    → IsFree files id
try_next-IsFree files (ok tried) next id seen later h =
    IsFree-case files tried id next (lookup (file_name tried) files) refl (seen tried refl) later h
try_next-IsFree files (err faults) next id seen later h = cc
try_next-IsFree files broken next id seen later h = cc

free_from-IsFree :
    (library : Library) (source : Text) (tries ms : ℕ) (files : Directory) (id : Text)
    → free_from library source tries ms files ≡ ok id
    → IsFree files id
unfolding free_from teaching_id
free_from-IsFree library source zero ms files id h = cc
free_from-IsFree library source (suc tries) ms files id h =
    try_next-IsFree files (teaching_id library source (library.iso ms))
      (free_from library source tries (ms + 1000) files) id
      (id_at_lem library source (library.node.date_parse (library.iso ms)))
      (free_from-IsFree library source tries (ms + 1000) files id) h

free_at-IsFree :
    (library : Library) (source : Text) (ms : Option ℕ) (files : Directory) (id : Text)
    → free_at library source ms files ≡ ok id
    → IsFree files id
free_at-IsFree library source none files id h = cc
free_at-IsFree library source (some ms) files id h =
    free_from-IsFree library source id_tries ms files id h

pub free_id-IsFree :
    (library : Library) (source at : Text) (files : Directory) (id : Text)
    → free_id library source at files ≡ ok id
    → IsFree files id
unfolding free_id
free_id-IsFree library source at files id h =
    free_at-IsFree library source (library.node.date_parse at) files id h

-- The id that the loop tries at a turn is a file's.
abbrev pub IsTaken : Library → Text → ℕ → Directory → Type 0
IsTaken library source ms files =
    (id : Text) × (teaching_id library source (library.iso ms) ≡ ok id)
    × (is_some (lookup (file_name id) files) ≡ true)

-- Every id of so many turns, from an instant on, is taken.
abbrev pub AllTaken : Library → Text → ℕ → ℕ → Directory → Type 0
AllTaken library source zero ms files = Unit
AllTaken library source (suc tries) ms files =
    IsTaken library source ms files × AllTaken library source tries (ms + 1000) files

try_next-taken :
    (files : Directory) (a next : Result Text) (id : Text)
    → a ≡ ok id
    → is_some (lookup (file_name id) files) ≡ true
    → try_next files a next ≡ next
try_next-taken files a next id e t = rw (e, t) refl

-- Where the id tried is free, it is the one that is given.
free_from-taken :
    (library : Library) (source : Text) (tries ms : ℕ) (files : Directory)
    → ((t : ℕ) → (u : ℕ) × (library.node.date_parse (library.iso t) ≡ some u))
    → ((id : Text) × (free_from library source tries ms files ≡ ok id))
      ⊎ AllTaken library source tries ms files
unfolding free_from teaching_id
free_from-taken library source zero ms files dates = inr tt
free_from-taken library source (suc tries) ms files dates =
    let (u, p) = dates ms in
    let id = text "teach-" ++ id_rest library source u in
    let e : teaching_id library source (library.iso ms) ≡ ok id = rw p refl in
    elim (Option-cases (lookup (file_name id) files)) [
      | inl free ↦ inl (id, rw (e, free) refl)
      | inr (c, there) ↦
          let taken : is_some (lookup (file_name id) files) ≡ true = rw there refl in
          elim (free_from-taken library source tries (ms + 1000) files dates) [
            | inl (found, h) ↦ inl (found, try_next-taken files _ _ id e taken ∙ h)
            | inr rest ↦ inr ((id, e, taken), rest)
          ]
    ]

-- A free id is found, unless each of the hundred and twenty ids of the seconds from now on is the
-- name of a file: where `toISOString` gives texts that `Date.parse` reads, `freeId` returns or all
-- those ids are taken, and an id that it returns is of no file.
pub free_id-found :
    (library : Library) (source at : Text) (ms : ℕ) (files : Directory)
    → library.node.date_parse at ≡ some ms
    → ((t : ℕ) → (u : ℕ) × (library.node.date_parse (library.iso t) ≡ some u))
    → ((id : Text) × (free_id library source at files ≡ ok id)
        × (lookup (file_name id) files ≡ none))
      ⊎ AllTaken library source id_tries ms files
unfolding free_id
free_id-found library source at ms files parsed dates =
    elim (free_from-taken library source id_tries ms files dates) [
      | inl (id, h) ↦
          inl (id, rw parsed h, (free_from-IsFree library source id_tries ms files id h).free)
      | inr taken ↦ inr taken
    ]
