-- ===== src/Runtime/Latch/Stops.antt =====
-- A latch is a stop: the agent that latched refuses to start.
use carbon_runtime.Common.{
  ◌≡◌, refl, sym, ◌⊎◌, inl, inr, true, Option, none, some, List, [], ◌∷◌, ◌++◌, Text, lookup, subst,
  Has, Has-map, lookup-Has, lookup-put_self, map,
}
use carbon_runtime.Stream.Fault.{Fault, Result, ok, err, broken, refuse_all, ok-injective}
use carbon_runtime.Stream.Json.{Json}
use carbon_runtime.Stream.Encode.{encode_component}
use carbon_runtime.Stream.Paths.{text_key}
use carbon_runtime.Runtime.Latch.{
  Host, Cause, RuntimeFault, Folder, folder, Tree, Place, latch_place, made, latch_in, latch_at,
  latch, latch_json, write_absent, suffix, is_latch, Found, latches_under, cause_of, latch_faults,
  refusal, refuse_if_latched, exit_code, Start, refused, dies, causes_of,
}
use carbon_runtime.Runtime.Latch.Walk.{
  HasHashed, Reports, TreeWalked, lost, complete, latches_under-TreeWalked,
}
use carbon_runtime.Runtime.Latch.Stays.{Stands}

-- The refusal of a start that names a channel's latch, with what stands in its file.
pub record IsRefusal (host : Host) (place : Place) (tree : Tree) (answer : Start) : Type 0 where
  pub thrown : RuntimeFault
  pub answer_lem : answer ≡ refused thrown
  pub content : Option Json
  pub stands : Stands place content tree
  pub found : Found
  pub reports : Reports host.node place content found
  pub named : Has (cause_of host found) thrown.faults
  pub status : thrown.code ≡ 78

-- A start that does not come about.
abbrev pub IsStopped : Host → Place → Tree → Type 0
IsStopped host place tree =
    (HasHashed host.node tree × (refuse_if_latched host tree ≡ dies))
    ⊎ IsRefusal host place tree (refuse_if_latched host tree)

refusal-IsRefusal :
    (host : Host) (place : Place) (tree : Tree) (content : Option Json) (found : Found)
    (causes : List Cause)
    → Stands place content tree
    → Reports host.node place content found
    → Has (cause_of host found) causes
    → IsRefusal host place tree (refusal (ok causes))
unfolding exit_code
refusal-IsRefusal host place tree content found [] s r h = elim h [ ]
refusal-IsRefusal host place tree content found (c ∷ causes) s r h = record {
  thrown = record { faults = c ∷ causes; code = 78 };
  answer_lem = refl;
  content = content;
  stands = s;
  found = found;
  reports = r;
  named = h;
  status = refl;
}

walked-IsStopped :
    (host : Host) (place : Place) (content : Option Json) (tree : Tree) (r : Result (List Found))
    → is_latch (place.1) ≡ true
    → Stands place content tree
    → TreeWalked host.node tree r
    → (HasHashed host.node tree × (refusal (causes_of host r) ≡ dies))
      ⊎ IsRefusal host place tree (refusal (causes_of host r))
walked-IsStopped host place content tree r l s (lost h) = inl (h, refl)
walked-IsStopped host place content tree r l s (complete found all) =
    let (f, reports, there) =
      all (place.0) s.files (place.1) content
        (lookup-Has (place.0) (folder s.files) tree s.at_account)
        (lookup-Has (place.1) content s.files s.at_file) l in
    inr (
      refusal-IsRefusal host place tree content f (map (cause_of host) found) s reports
        (Has-map f (cause_of host) found there))

pub Stands-IsStopped :
    (host : Host) (place : Place) (content : Option Json) (tree : Tree)
    → is_latch (place.1) ≡ true
    → Stands place content tree
    → IsStopped host place tree
unfolding refuse_if_latched latch_faults
Stands-IsStopped host place content tree l s =
    walked-IsStopped host place content tree (latches_under host.node tree) l s
      (latches_under-TreeWalked host.node tree)

-- The file of a latch stands once it has been written.
abbrev pub written : (host : Host) (account kind : Text) → Place
written host account kind =
    (encode_component host.node account, encode_component host.node kind ++ suffix)

unfoldable pub Latched : Place → Tree → Type 0
Latched place tree = (content : Option Json) × Stands place content tree

write_absent-found :
    (file : Text) (content : Json) (old : Option (Option Json)) (files : Folder)
    → lookup file files ≡ old
    → (v : Option Json) × (lookup file (write_absent file content old files) ≡ some v)
unfolding write_absent
write_absent-found file content (some v) files e = (v, e)
write_absent-found file content none files e =
    (some content, lookup-put_self file (some content) files)

latch_in-Latched :
    (host : Host) (place : Place) (json : Json) (cause : Cause) (tree : Tree) (o : Option Folder)
    (stop : RuntimeFault)
    → (latch_in host place json cause tree o).0 ≡ ok stop
    → Latched place (latch_in host place json cause tree o).1
unfolding latch_in Latched
latch_in-Latched host (account, file) json cause tree none stop e = cc
latch_in-Latched host (account, file) json cause tree (some files) stop e =
    let more = write_absent file json (lookup file files) files in
    let (v, found) = write_absent-found file json (lookup file files) files refl in
    (
      v,
      record {
        files = more;
        at_account = lookup-put_self account (folder more) tree;
        at_file = found;
      },
    )

pub latch_at-Latched :
    (host : Host) (json : Json) (cause : Cause) (tree : Tree) (r : Result Place)
    (stop : RuntimeFault)
    → (latch_at host json cause tree r).0 ≡ ok stop
    → (place : Place) × (r ≡ ok place) × Latched place (latch_at host json cause tree r).1
unfolding latch_at
latch_at-Latched host json cause tree (ok place) stop e =
    (place, refl, latch_in-Latched host place json cause tree (made (lookup (place.0) tree)) stop e)
latch_at-Latched host json cause tree (err faults) stop e = cc
latch_at-Latched host json cause tree broken stop e = cc

pub refuse_all-ok :
    (faults : List Fault) (place found : Place)
    → refuse_all faults (ok place) ≡ ok found
    → place ≡ found
refuse_all-ok [] place found e = ok-injective e
refuse_all-ok (f ∷ faults) place found e = cc

pub latch-Latched :
    (host : Host) (account kind : Text) (cause : Cause) (tree : Tree) (stop : RuntimeFault)
    → (latch host account kind cause tree).0 ≡ ok stop
    → Latched (written host account kind) (latch host account kind cause tree).1
unfolding latch latch_place
latch-Latched host account kind cause tree stop e =
    let (place, r, stands) =
      latch_at-Latched host (latch_json host account kind cause) cause tree
        (latch_place host.node account kind) stop e in
    subst (λ p. Latched p (latch host account kind cause tree).1)
      (sym (refuse_all-ok _ (written host account kind) place r)) stands
