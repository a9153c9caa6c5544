-- ===== src/Runtime/Latch/First.antt =====
-- The first cause of a latch is the one that counts.
use carbon_runtime.Common.{◌≡◌, refl, sym, ap, ◌∙◌, Option, some, Text, lookup, put-lookup}
use carbon_runtime.Stream.Fault.{Result, ok}
use carbon_runtime.Stream.Json.{Json}
use carbon_runtime.Stream.Paths.{text_key}
use carbon_runtime.Runtime.Latch.{
  Host, Cause, RuntimeFault, Folder, folder, Tree, Place, latch_place, made, latch_in, latch_at,
  latch, latch_json, write_absent, stop_of,
}
use carbon_runtime.Runtime.Latch.Stays.{Stands}
use carbon_runtime.Runtime.Latch.Stops.{
  written, Latched, latch-Latched, latch_at-Latched, refuse_all-ok,
}

write_absent-there :
    (file : Text) (json : Json) (content : Option Json) (files : Folder)
    → lookup file files ≡ some content
    → write_absent file json (lookup file files) files ≡ files
unfolding write_absent
write_absent-there file json content files e = rw e refl

latch_in-there :
    (host : Host) (place : Place) (json : Json) (cause : Cause) (tree : Tree)
    (content : Option Json)
    → Stands place content tree
    → latch_in host place json cause tree (made (lookup (place.0) tree))
      ≡ (ok (stop_of host cause), tree)
unfolding latch_in made
latch_in-there host (account, file) json cause tree content s =
    rw (s.at_account, write_absent-there file json content s.files s.at_file)
      (ap (λ t. (ok (stop_of host cause), t))
        (put-lookup account (folder s.files) tree s.at_account))

latch_at-there :
    (host : Host) (json : Json) (cause : Cause) (tree : Tree) (r : Result Place) (place : Place)
    (content : Option Json)
    → r ≡ ok place
    → Stands place content tree
    → latch_at host json cause tree r ≡ (ok (stop_of host cause), tree)
unfolding latch_at
latch_at-there host json cause tree r place content e s =
    rw e (latch_in-there host place json cause tree content s)

placed :
    (host : Host) (account kind : Text) (cause : Cause) (tree : Tree) (stop : RuntimeFault)
    → (latch host account kind cause tree).0 ≡ ok stop
    → latch_place host.node account kind ≡ ok (written host account kind)
unfolding latch latch_place
placed host account kind cause tree stop e =
    let (place, r, stands) =
      latch_at-Latched host (latch_json host account kind cause) cause tree
        (latch_place host.node account kind) stop e in
    r ∙ ap ok (sym (refuse_all-ok _ (written host account kind) place r))

-- A channel that latches again, later and for another cause, stops on that cause, and the latch of
-- the first one and everything else in `channels/` is left as it is.
pub latch-latch :
    (host : Host) (now account kind : Text) (cause second : Cause) (tree : Tree)
    (stop : RuntimeFault)
    → (latch host account kind cause tree).0 ≡ ok stop
    → latch (record host { now = now }) account kind second (latch host account kind cause tree).1
      ≡ (ok (stop_of host second), (latch host account kind cause tree).1)
unfolding latch Latched stop_of
latch-latch host now account kind cause second tree stop e =
    let (content, s) = latch-Latched host account kind cause tree stop e in
    latch_at-there (record host { now = now })
      (latch_json (record host { now = now }) account kind second) second
      (latch host account kind cause tree).1 (latch_place host.node account kind)
      (written host account kind) content (placed host account kind cause tree stop e) s
