-- ===== src/Adapters/WhatsappLatch/Cleared.antt =====
-- What the latch of the WhatsApp adapter does to the start of the runtime, and what clearing it leaves.
use carbon_runtime.Common.{
  ◌≡◌, ◌≢◌, refl, sym, ap, ap₂, ◌∙◌, Bool, false, Option, none, some, [], ◌∷◌, Text, text, text_eq,
  text_eq_iff, text_eq_refl, Bool-cases, inl, inr, arith, lookup, put, lookup-put_self, keep,
  if◌then◌else◌, subst,
}
use carbon_runtime.Stream.Fault.{Result, ok, err, broken}
use carbon_runtime.Stream.Json.{Json}
use carbon_runtime.Stream.Paths.{text_key}
use carbon_runtime.Stream.Encode.{encode_component}
use carbon_runtime.Runtime.Latch.{Folder, folder, Entry, plain, Tree, Place, made}
use carbon_runtime.Runtime.Latch.Stays.{Stands, put-Stands}
use carbon_runtime.Runtime.Latch.Stops.{refuse_all-ok}
use carbon_runtime.Adapters.WhatsappLatch.{
  Adapter, place_of, in_folder, at_file, read_in, read_latch, is_other, clear_in, clear_latch,
}

-- An operation that has returned, in the folder where it did.
record Ran {A : Type 0} (r : Result Place) (body : Text → Folder → Result A × Folder) (tree : Tree)
    (a : A) : Type 0 where
  place : Place
  files : Folder
  placed : r ≡ ok place
  opened : made (lookup (place.0) tree) ≡ some files
  answer : (body (place.1) files).0 ≡ ok a
  left : (at_file r body tree).1 ≡ put (place.0) (folder (body (place.1) files).1) tree

in_folder-Ran :
    {A : Type 0} (account file : Text) (body : Text → Folder → Result A × Folder) (tree : Tree)
    (a : A) (o : Option Folder)
    → made (lookup account tree) ≡ o
    → (in_folder account (body file) tree o).0 ≡ ok a
    → Ran (ok (account, file)) body tree a
unfolding in_folder at_file
in_folder-Ran account file body tree a none e h = cc
in_folder-Ran account file body tree a (some files) e h = record {
  place = (account, file);
  files = files;
  placed = refl;
  opened = e;
  answer = h;
  left = rw e refl;
}

at_file-Ran :
    {A : Type 0} (r : Result Place) (body : Text → Folder → Result A × Folder) (tree : Tree) (a : A)
    → (at_file r body tree).0 ≡ ok a
    → Ran r body tree a
unfolding at_file
at_file-Ran (ok (account, file)) body tree a h =
    in_folder-Ran account file body tree a (made (lookup account tree)) refl h
at_file-Ran (err faults) body tree a h = cc
at_file-Ran broken body tree a h = cc

-- A folder that an operation finds is the one that is there.
made-folder :
    (entry : Option Entry) (files others : Folder)
    → made entry ≡ some files
    → entry ≡ some (folder others)
    → files ≡ others
unfolding made
made-folder none files others e h = cc
made-folder (some (folder fs)) files others e h = cc
made-folder (some plain) files others e h = cc

-- A second operation on the account works in the folder that the first one left.
at_file-again :
    {A : Type 0} (r : Result Place) (body : Text → Folder → Result A × Folder) (tree : Tree)
    (place : Place) (more : Folder)
    → r ≡ ok place
    → (at_file r body (put (place.0) (folder more) tree)).0 ≡ (body (place.1) more).0
unfolding at_file made in_folder
at_file-again r body tree place more e = rw (e, lookup-put_self (place.0) (folder more) tree) refl

lookup-keep :
    (file other : Text) (files : Folder)
    → lookup other (keep (is_other file) files)
      ≡ (if text_eq file other then none else lookup other files)
unfolding lookup is_other
lookup-keep file other [] = ground arith
lookup-keep file other ((b, w) ∷ files) = ground (
  arith,
  text_eq_iff b file,
  text_eq_iff b other,
  text_eq_iff file other,
  lookup-keep file other files,
)

-- Where the adapter's latch stands.
abbrev pub own : Adapter → Text → Place
own adapter account = (encode_component adapter.host.node account, text "whatsapp.latch.json")

own-place :
    (adapter : Adapter) (account : Text) (place : Place)
    → place_of adapter.host.node account ≡ ok place
    → own adapter account ≡ place
unfolding place_of
own-place adapter account place e = refuse_all-ok _ (own adapter account) place e

-- A latch that is gone, with every other file where it was.
pub record IsCleared (adapter : Adapter) (account : Text) (before after : Tree) : Type 0 where
  pub gone : (read_latch adapter account after).0 ≡ ok none
  pub others :
      (place : Place) (content : Option Json)
      → place ≢ own adapter account
      → Stands place content before
      → Stands place content after

clear_in-gone :
    (file : Text) (files : Folder) → lookup file (clear_in file files (lookup file files)).1 ≡ none
unfolding clear_in
clear_in-gone file files = gone (lookup file files) refl
  where
    gone :
        (old : Option (Option Json))
        → lookup file files ≡ old
        → lookup file (clear_in file files old).1 ≡ none
    gone none e = e
    gone (some c) e = lookup-keep file file files ∙ rw (text_eq_refl file) refl

clear_in-other :
    (file other : Text) (files : Folder) (old : Option (Option Json))
    → text_eq file other ≡ false
    → lookup other (clear_in file files old).1 ≡ lookup other files
unfolding clear_in
clear_in-other file other files none h = refl
clear_in-other file other files (some c) h = lookup-keep file other files ∙ rw h refl

-- Two places of one account differ in their files.
file-apart : (one other : Place) → one.0 ≡ other.0 → one ≢ other → text_eq (one.1) (other.1) ≡ false
file-apart one other same apart = elim (Bool-cases (text_eq (one.1) (other.1))) [
  | inl b ↦ elim (apart (ap₂ (λ a f. (a, f)) same ((text_eq_iff (one.1) (other.1)).0 b))) [ ]
  | inr b ↦ b
]

-- Clearing the latch takes away this file alone: the adapter reads no latch then, and every other
-- file in `channels/` stays as it was.
pub clear_latch-IsCleared :
    (adapter : Adapter) (account : Text) (tree : Tree) (removed : Bool)
    → (clear_latch adapter account tree).0 ≡ ok removed
    → IsCleared adapter account tree (clear_latch adapter account tree).1
unfolding clear_latch read_latch read_in
clear_latch-IsCleared adapter account tree removed e =
    let body : Text → Folder → Result Bool × Folder =
      λ file files. clear_in file files (lookup file files) in
    let ran = at_file-Ran (place_of adapter.host.node account) body tree removed e in
    let more = (body (ran.place.1) ran.files).1 in
    let mine = own-place adapter account ran.place ran.placed in
    subst (IsCleared adapter account tree) (sym ran.left) (record {
      gone =
          at_file-again (place_of adapter.host.node account) _ tree ran.place more ran.placed
          ∙ rw (clear_in-gone (ran.place.1) ran.files) refl;
      others = λ place content apart s.
          put-Stands (ran.place.0) more tree place content
            (λ files f same h.
              clear_in-other (ran.place.1) (place.1) ran.files (lookup (ran.place.1) ran.files)
                (file-apart ran.place place same (λ eq. apart (sym eq ∙ sym mine)))
              ∙ ap (lookup (place.1)) (made-folder _ ran.files files ran.opened f)
              ∙ h)
            s;
    })
