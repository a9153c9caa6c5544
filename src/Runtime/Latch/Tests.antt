-- ===== src/Runtime/Latch/Tests.antt =====
-- Runs of the latch on a small store, and each theorem at one of them.
use carbon_runtime.Common.{
  starts_with, insert_by, ◌≡◌, ap, refl, [], ◌∷◌, none, some, text, lookup, put, text_eq, has_unit,
  sort_by,
}
use carbon_runtime.Stream.Fault.{ok}
use carbon_runtime.Stream.Json.{str}
use carbon_runtime.Stream.Samples.{ascii}
use carbon_runtime.Stream.Encode.{
  decode_component, component_faults, encode_component, encode_bytes, encode_byte, is_safe_byte,
}
use carbon_runtime.Runtime.Latch.{
  Host, Cause, Tree, folder, latch, latch_at, latch_in, latch_place, made, write_absent, stop_of,
  latch_json, refuse_if_latched, starts, dies, found_at, found_in, found_here, is_latch, kind_of,
  latch_faults, latches_under, found_under,
}
use carbon_runtime.Runtime.Latch.Stays.{Stands, LatchCall, latch_all, latch_all-Stands}
use carbon_runtime.Runtime.Latch.First.{latch-latch}

abbrev host : Host
host = record { node = ascii; now = text "t"; text_of = λ v. text "?" }

abbrev revoked : Cause
revoked = record {
  code = text "GONE";
  subject = text "s";
  problem = str (text "revoked");
  what_now = str (text "pair again");
}

-- The latch of one channel in an empty store.
abbrev latched : Tree
latched =
    (
      text "acc",
      folder (
          (text "email.latch.json", some (latch_json host (text "acc") (text "email") revoked))
          ∷ []),
    )
    ∷ []

stops : latch host (text "acc") (text "email") revoked [] ≡ (ok (stop_of host revoked), latched)
unfolding latch latch_at latch_in latch_place made write_absent lookup put component_faults
    encode_component encode_bytes encode_byte is_safe_byte has_unit text_eq
stops = refl

stopped : (latch host (text "acc") (text "email") revoked []).0 ≡ ok (stop_of host revoked)
stopped = ap (λ p. p.0) stops

abbrev other_call : LatchCall
other_call = record { host = host; account = text "acc"; kind = text "web"; cause = revoked }

stands :
    Stands
      (text "acc", text "email.latch.json")
      (some (latch_json host (text "acc") (text "email") revoked))
      latched
unfolding lookup text_eq
stands = record {
  files =
      (text "email.latch.json", some (latch_json host (text "acc") (text "email") revoked)) ∷ [];
  at_account = refl;
  at_file = refl;
}

starts_test : refuse_if_latched host [] ≡ starts
unfolding refuse_if_latched latch_faults latches_under found_under sort_by
starts_test = refl

latch_all-Stands_example :
    Stands
      (text "acc", text "email.latch.json")
      (some (latch_json host (text "acc") (text "email") revoked))
      (latch_all (other_call ∷ []) latched)
latch_all-Stands_example =
    latch_all-Stands (other_call ∷ []) latched (text "acc", text "email.latch.json")
      (some (latch_json host (text "acc") (text "email") revoked)) stands

latch-latch_example :
    latch
      (record host { now = text "u" })
      (text "acc")
      (text "email")
      revoked
      (latch host (text "acc") (text "email") revoked []).1
    ≡ (ok (stop_of host revoked), (latch host (text "acc") (text "email") revoked []).1)
latch-latch_example =
    latch-latch host (text "u") (text "acc") (text "email") revoked revoked []
      (stop_of host revoked) stopped

-- The store of an account whose identifier was too long to encode.
abbrev hashed_tree : Tree
hashed_tree = (text "~h0a", folder ((text "email.latch.json", none) ∷ [])) ∷ []

hashed_test : refuse_if_latched host hashed_tree ≡ dies
unfolding refuse_if_latched latch_faults latches_under found_under found_at found_in found_here
    is_latch kind_of decode_component starts_with text_eq sort_by insert_by
hashed_test = refl
