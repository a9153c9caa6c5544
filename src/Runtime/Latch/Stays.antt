-- ===== src/Runtime/Latch/Stays.antt =====
-- What a latch leaves as it was: every latch that stands, its own included.
use carbon_runtime.Common.{
  ◌≡◌, refl, sym, ap, ◌∙◌, inl, inr, Option, none, some, List, [], ◌∷◌, Text, text_eq, text_eq_iff,
  lookup, put, lookup-put, lookup-put_other, Bool-cases,
}
use carbon_runtime.Stream.Fault.{Result, ok, err, broken}
use carbon_runtime.Stream.Json.{Json}
use carbon_runtime.Stream.Paths.{text_key}
use carbon_runtime.Runtime.Latch.{
  Host, Cause, Folder, Entry, folder, plain, Tree, Place, latch_place, made, latch_in, latch_at,
  latch, latch_json, write_absent,
}

-- A file stands at its place with a content.
pub record Stands (place : Place) (content : Option Json) (tree : Tree) : Type 0 where
  pub files : Folder
  pub at_account : lookup (place.0) tree ≡ some (folder files)
  pub at_file : lookup (place.1) files ≡ some content

-- A folder that has what another has.
Grown : Folder → Folder → Type 0
Grown files more =
    (file : Text) (content : Option Json)
    → lookup file files ≡ some content
    → lookup file more ≡ some content

none-some : {A : Type 0} {a : A} → none ≡ some a → ⊥
none-some e = cc

write_absent-Grown :
    (file : Text) (content : Json) (old : Option (Option Json)) (files : Folder)
    → lookup file files ≡ old
    → Grown files (write_absent file content old files)
unfolding Grown write_absent
write_absent-Grown file content (some old) files e other v h = h
write_absent-Grown file content none files e other v h =
    lookup-put_other file other (some content) files
      (λ same. none-some (sym e ∙ ap (λ f. lookup f files) same ∙ h))
    ∙ h

folder-injective : {files more : Folder} → some (folder files) ≡ some (folder more) → files ≡ more
folder-injective e = cc

-- A folder that takes the place of another, or of nothing, and has still the file in question.
pub put-Stands :
    (account : Text) (more : Folder) (tree : Tree) (place : Place) (content : Option Json)
    → ((files : Folder)
        → lookup account tree ≡ some (folder files)
        → account ≡ place.0
        → lookup (place.1) files ≡ some content
        → lookup (place.1) more ≡ some content)
    → Stands place content tree
    → Stands place content (put account (folder more) tree)
put-Stands account more tree place content kept s = elim (Bool-cases (text_eq account (place.0))) [
  | inl b ↦
      (let same = (text_eq_iff account (place.0)).0 b in
        record {
          files = more;
          at_account = lookup-put account (place.0) (folder more) tree ∙ rw b refl;
          at_file = kept s.files (ap (λ a. lookup a tree) same ∙ s.at_account) same s.at_file;
        })
  | inr b ↦ record {
    files = s.files;
    at_account = lookup-put account (place.0) (folder more) tree ∙ rw b s.at_account;
    at_file = s.at_file;
  }
]

latch_in-Stands :
    (host : Host) (account file : Text) (json : Json) (cause : Cause) (tree : Tree)
    (o : Option Entry) (place : Place) (content : Option Json)
    → lookup account tree ≡ o
    → Stands place content tree
    → Stands place content (latch_in host (account, file) json cause tree (made o)).1
unfolding latch_in made Grown
latch_in-Stands host account file json cause tree none place content e s =
    put-Stands account (write_absent file json (lookup file []) []) tree place content
      (λ files f same h. elim (none-some (sym e ∙ f)) [ ]) s
latch_in-Stands host account file json cause tree (some (folder files)) place content e s =
    put-Stands account (write_absent file json (lookup file files) files) tree place content
      (λ others f same h.
        write_absent-Grown file json (lookup file files) files refl (place.1) content
          (ap (lookup (place.1)) (folder-injective (sym e ∙ f)) ∙ h))
      s
latch_in-Stands host account file json cause tree (some plain) place content e s = s

latch_at-Stands :
    (host : Host) (json : Json) (cause : Cause) (tree : Tree) (r : Result Place) (place : Place)
    (content : Option Json)
    → Stands place content tree
    → Stands place content (latch_at host json cause tree r).1
unfolding latch_at
latch_at-Stands host json cause tree (ok (account, file)) place content s =
    latch_in-Stands host account file json cause tree (lookup account tree) place content refl s
latch_at-Stands host json cause tree (err faults) place content s = s
latch_at-Stands host json cause tree broken place content s = s

latch-Stands :
    (host : Host) (account kind : Text) (cause : Cause) (tree : Tree) (place : Place)
    (content : Option Json)
    → Stands place content tree
    → Stands place content (latch host account kind cause tree).1
unfolding latch
latch-Stands host account kind cause tree place content =
    latch_at-Stands host (latch_json host account kind cause) cause tree
      (latch_place host.node account kind) place content

-- A call of `latch`, at its own time.
pub record LatchCall : Type 0 where
  pub host : Host
  pub account : Text
  pub kind : Text
  pub cause : Cause

unfoldable pub latch_all : List LatchCall → Tree → Tree
unfolding latch
latch_all [] tree = tree
latch_all (call ∷ calls) tree =
    latch_all calls (latch call.host call.account call.kind call.cause tree).1

-- Whatever causes are latched, for whatever channels: a latch file that stands in `channels/` stays
-- there, and what it says is not changed.
pub latch_all-Stands :
    (calls : List LatchCall) (tree : Tree) (place : Place) (content : Option Json)
    → Stands place content tree
    → Stands place content (latch_all calls tree)
unfolding latch_all
latch_all-Stands [] tree place content s = s
latch_all-Stands (call ∷ calls) tree place content s =
    latch_all-Stands calls (latch call.host call.account call.kind call.cause tree).1 place content
      (latch-Stands call.host call.account call.kind call.cause tree place content s)
