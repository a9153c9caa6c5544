-- ===== src/Runtime/Latch/Walk.antt =====
-- The walk over the latches: a hashed name ends it, and otherwise it reports every latch.
use carbon_runtime.Common.{
  ◌≡◌, refl, sym, ap, ◌⊎◌, inl, inr, true, false, Option, none, some, List, [], ◌∷◌, ◌++◌, Text,
  Bool-cases, subst, Has, Has-append_left, Has-append_right, sort_by, sort_by-Has, Has-sort_by,
  or_else,
}
use carbon_runtime.Stream.Fault.{Result, ok, broken}
use carbon_runtime.Stream.Json.{Json, null}
use carbon_runtime.Stream.Platform.{Node}
use carbon_runtime.Stream.Encode.{decode_component}
use carbon_runtime.Runtime.Latch.{
  Folder, Entry, folder, plain, Tree, Place, is_latch, kind_of, Found, found_named, found_here,
  and_also, and_all, found_in, found_at, found_under, latches_under, file_after, entry_after,
}

-- A latch file in the tree whose account or kind was hashed.
abbrev pub IsHashed : Node → Text → Type 0
IsHashed node component = decode_component node component ≡ none

pub record HasHashed (node : Node) (tree : Tree) : Type 0 where
  pub account : Text
  pub files : Folder
  pub file : Text
  pub content : Option Json
  pub in_tree : Has (account, folder files) tree
  pub in_folder : Has (file, content) files
  pub is_one : is_latch file ≡ true
  pub hashed : IsHashed node account ⊎ IsHashed node (kind_of file)

-- What the start check reports of a file, where both names can be decoded.
pub record Reports (node : Node) (place : Place) (content : Option Json) (found : Found)
    : Type 0 where
  pub account_lem : decode_component node (place.0) ≡ some found.account
  pub kind_lem : decode_component node (kind_of (place.1)) ≡ some found.kind
  pub latch_lem : found.latch ≡ or_else content null

named-Reports :
    (node : Node) (place : Place) (content : Option Json) (a k : Option Text)
    → decode_component node (place.0) ≡ a
    → decode_component node (kind_of (place.1)) ≡ k
    → ((found_named place (or_else content null) a k ≡ broken)
        × (IsHashed node (place.0) ⊎ IsHashed node (kind_of (place.1))))
      ⊎ ((found : Found) × (found_named place (or_else content null) a k ≡ ok found)
          × Reports node place content found)
named-Reports node place content none k p q = inl (refl, inl p)
named-Reports node place content (some account) none p q = inl (refl, inr q)
named-Reports node place content (some account) (some kind) p q = inr (
  record { account = account; kind = kind; file = place; latch = or_else content null },
  refl,
  record { account_lem = p; kind_lem = q; latch_lem = refl },
)

here-Reports :
    (node : Node) (account file : Text) (content : Option Json)
    → ((found_here node (account, file) content ≡ broken)
        × (IsHashed node account ⊎ IsHashed node (kind_of file)))
      ⊎ ((found : Found) × (found_here node (account, file) content ≡ ok found)
          × Reports node (account, file) content found)
unfolding found_here
here-Reports node account file content =
    named-Reports node (account, file) content (decode_component node account)
      (decode_component node (kind_of file)) refl refl

-- A folder that is walked: either a hashed name ends the walk, or every latch in it is reported.
pub data Walked (node : Node) (account : Text) (files : Folder) : Result (List Found) → Type 0 where
  ended :
      (file : Text) (content : Option Json)
      → Has (file, content) files
      → is_latch file ≡ true
      → IsHashed node account ⊎ IsHashed node (kind_of file)
      → Walked node account files broken
  through :
      (found : List Found)
      → ((file : Text) (content : Option Json)
          → Has (file, content) files
          → is_latch file ≡ true
          → (f : Found) × Reports node (account, file) content f × Has f found)
      → Walked node account files (ok found)

Walked-skip :
    (node : Node) (account file : Text) (content : Option Json) (files : Folder)
    (r : Result (List Found))
    → is_latch file ≡ false
    → Walked node account files r
    → Walked node account ((file, content) ∷ files) r
Walked-skip node account file content files r other_file (ended other c h l e) =
    ended other c (inr h) l e
Walked-skip node account file content files r other_file (through found all) =
    through found (λ other c h l. elim h [
      | inl same ↦ cc (other_file, l, ap (λ x. is_latch x.0) same)
      | inr there ↦ all other c there l
    ])

Walked-take :
    (node : Node) (account file : Text) (content : Option Json) (files : Folder) (f : Found)
    (r : Result (List Found))
    → Reports node (account, file) content f
    → Walked node account files r
    → Walked node account ((file, content) ∷ files) (and_also (ok f) r)
Walked-take node account file content files f r reports (ended other c h l e) =
    ended other c (inr h) l e
Walked-take node account file content files f r reports (through found all) =
    through (f ∷ found) (λ other c h l. elim h [
      | inl same ↦ (f, subst (λ x. Reports node (account, x.0) x.1 f) same reports, inl refl)
      | inr there ↦ (let (g, r, there') = all other c there l in (g, r, inr there'))
    ])

found_in-Walked :
    (node : Node) (account : Text) (files : Folder)
    → Walked node account files (found_in node account files)
unfolding found_in
found_in-Walked node account [] = through [] (λ file content h l. elim h [ ])
found_in-Walked node account ((file, content) ∷ files) =
    let rest = found_in-Walked node account files in
    elim (Bool-cases (is_latch file)) [
      | inr b ↦ rw b (Walked-skip node account file content files _ b rest)
      | inl b ↦ rw b (elim (here-Reports node account file content) [
        | inl (e, hashed) ↦ rw e (ended file content (inl refl) b hashed)
        | inr (f, e, reports) ↦ rw e (Walked-take node account file content files f _ reports rest)
      ])
    ]

Walked-sort_by :
    (node : Node) (account : Text) (files : Folder) (r : Result (List Found))
    → Walked node account (sort_by file_after files) r
    → Walked node account files r
Walked-sort_by node account files r (ended file content h l e) =
    ended file content (Has-sort_by file_after (file, content) files h) l e
Walked-sort_by node account files r (through found all) =
    through found
      (λ file content h l. all file content (sort_by-Has file_after (file, content) files h) l)

-- The walk over the whole tree.
pub data TreeWalked (node : Node) (tree : Tree) : Result (List Found) → Type 0 where
  lost : HasHashed node tree → TreeWalked node tree broken
  complete :
      (found : List Found)
      → ((account : Text) (files : Folder) (file : Text) (content : Option Json)
          → Has (account, folder files) tree
          → Has (file, content) files
          → is_latch file ≡ true
          → (f : Found) × Reports node (account, file) content f × Has f found)
      → TreeWalked node tree (ok found)

HasHashed-cons :
    (node : Node) (entry : Text × Entry) (tree : Tree)
    → HasHashed node tree
    → HasHashed node (entry ∷ tree)
HasHashed-cons node entry tree h = record {
  account = h.account;
  files = h.files;
  file = h.file;
  content = h.content;
  in_tree = inr h.in_tree;
  in_folder = h.in_folder;
  is_one = h.is_one;
  hashed = h.hashed;
}

folder-injective : {files more : Folder} → folder files ≡ folder more → files ≡ more
folder-injective e = cc

plain-not_folder : {files : Folder} → plain ≡ folder files → ⊥
plain-not_folder e = cc

TreeWalked-plain :
    (node : Node) (account : Text) (tree : Tree) (r : Result (List Found))
    → TreeWalked node tree r
    → TreeWalked node ((account, plain) ∷ tree) (and_all (ok []) r)
TreeWalked-plain node account tree r (lost h) = lost (HasHashed-cons node (account, plain) tree h)
TreeWalked-plain node account tree r (complete found all) =
    complete found (λ a files file content h l k. elim h [
      | inl same ↦ elim (plain-not_folder (ap (λ x. x.1) same)) [ ]
      | inr there ↦ all a files file content there l k
    ])

TreeWalked-folder :
    (node : Node) (account : Text) (files : Folder) (tree : Tree) (m r : Result (List Found))
    → Walked node account files m
    → TreeWalked node tree r
    → TreeWalked node ((account, folder files) ∷ tree) (and_all m r)
TreeWalked-folder node account files tree m r (ended file content h l e) t = lost (record {
  account = account;
  files = files;
  file = file;
  content = content;
  in_tree = inl refl;
  in_folder = h;
  is_one = l;
  hashed = e;
})
TreeWalked-folder node account files tree m r (through found all) (lost h) =
    lost (HasHashed-cons node (account, folder files) tree h)
TreeWalked-folder node account files tree m r (through found all) (complete more others) =
    complete (found ++ more) (λ a fs file content h l k. elim h [
      | inl same ↦
          (let here : Has (file, content) files =
              subst (Has (file, content)) (sym (folder-injective (ap (λ x. x.1) same))) l in
            let (f, reports, there) = all file content here k in
            (
              f,
              subst (λ b. Reports node (b, file) content f) (ap (λ x. x.0) same) reports,
              Has-append_left f found more there,
            ))
      | inr h' ↦
          (let (f, reports, there) = others a fs file content h' l k in
            (f, reports, Has-append_right f found more there))
    ])

found_under-TreeWalked : (node : Node) (tree : Tree) → TreeWalked node tree (found_under node tree)
unfolding found_under found_at
found_under-TreeWalked node [] = complete [] (λ account files file content h l k. elim h [ ])
found_under-TreeWalked node ((account, plain) ∷ tree) =
    TreeWalked-plain node account tree (found_under node tree) (found_under-TreeWalked node tree)
found_under-TreeWalked node ((account, folder files) ∷ tree) =
    TreeWalked-folder node account files tree _ (found_under node tree)
      (Walked-sort_by node account files _
        (found_in-Walked node account (sort_by file_after files)))
      (found_under-TreeWalked node tree)

TreeWalked-sort_by :
    (node : Node) (tree : Tree) (r : Result (List Found))
    → TreeWalked node (sort_by entry_after tree) r
    → TreeWalked node tree r
TreeWalked-sort_by node tree r (lost h) = lost (record {
  account = h.account;
  files = h.files;
  file = h.file;
  content = h.content;
  in_tree = Has-sort_by entry_after (h.account, folder h.files) tree h.in_tree;
  in_folder = h.in_folder;
  is_one = h.is_one;
  hashed = h.hashed;
})
TreeWalked-sort_by node tree r (complete found all) =
    complete found (λ account files file content h l k.
      all account files file content (sort_by-Has entry_after (account, folder files) tree h) l k)

pub latches_under-TreeWalked :
    (node : Node) (tree : Tree) → TreeWalked node tree (latches_under node tree)
unfolding latches_under
latches_under-TreeWalked node tree =
    TreeWalked-sort_by node tree (found_under node (sort_by entry_after tree))
      (found_under-TreeWalked node (sort_by entry_after tree))
