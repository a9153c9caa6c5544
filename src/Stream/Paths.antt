-- ===== src/Stream/Paths.antt =====
-- The paths of the store: `recordFileName` and the `paths` method of stream/store.ts, and
-- `resolveUnderStore` of stream/encode.ts with the `path.resolve` that it calls.
pub mod Containment
pub mod Injective
use carbon_runtime.Common.{
  ℕ, zero, suc, ◌+◌, ◌-◌, ◌*◌, ◌/◌, ◌%◌, ◌≡◌, refl, Bool, true, false, not, ◌&&◌, ◌||◌, Option,
  none, some, List, [], ◌∷◌, ◌++◌, arith, ltb, ◌==◌, if◌then◌else◌, Text, text, text_eq,
  text_eq_iff, starts_with, Key, ◌↔◌,
}
use carbon_runtime.Stream.Platform.{Node}
use carbon_runtime.Stream.Fault.{Result, ok, refuse_all, name}
use carbon_runtime.Stream.Encode.{component_faults, encode_component}

-- The decimal digits of a number, on fuel: a number needs no more digits than itself plus one.
unfoldable pub decimal_fuel : ℕ → ℕ → Text
decimal_fuel zero n = []
decimal_fuel (suc fuel) n =
    let front = decimal_fuel fuel (n / 10) in
    if ltb n 10 then (0x30 + n) ∷ [] else front ++ (0x30 + n % 10) ∷ []

unfoldable pub decimal : ℕ → Text
unfolding decimal_fuel
decimal n = decimal_fuel (n + 1) n

-- A record's file name without `.json`.
unfoldable pub record_stem : Text → ℕ → Text
record_stem message revision = if revision == 0 then message else message ++ b'.' ∷ decimal revision

-- The directory below `captures`, and the stem of the record, of its raw payload and attachments.
pub record RecordPath : Type 0 where
  pub directory : Text
  pub stem : Text

-- `Store.paths`.
unfoldable pub record_path : Node → Text → Text → ℕ → Result RecordPath
record_path node conversation_id message_id revision =
    refuse_all
      (component_faults node (name (text "conversation_id")) (some conversation_id)
        ++ component_faults node (name (text "message_id")) (some message_id))
      (ok (record {
        directory = encode_component node conversation_id;
        stem = record_stem (encode_component node message_id) revision;
      }))

unfoldable pub same_path : RecordPath → RecordPath → Bool
same_path p q = text_eq p.directory q.directory && text_eq p.stem q.stem

pub same_path_iff : (p q : RecordPath) → (same_path p q ≡ true) ↔ (p ≡ q)
unfolding same_path
same_path_iff p q = ground (arith, text_eq_iff p.directory q.directory, text_eq_iff p.stem q.stem)

instance abbrev pub path_key : Key RecordPath
path_key = record { same = same_path; same_iff = same_path_iff }

instance abbrev pub text_key : Key Text
text_key = record { same = text_eq; same_iff = text_eq_iff }

-- `path.resolve` on POSIX. A path is the list of its segments below `/`.
unfoldable pub split_slash : Text → List Text
split_slash [] = [] ∷ []
split_slash (c ∷ s) = elim (split_slash s) [
  | [] ↦ (c ∷ []) ∷ []
  | part ∷ parts ↦ if c == b'/' then [] ∷ part ∷ parts else (c ∷ part) ∷ parts
]

unfoldable pub drop_last : List Text → List Text
drop_last [] = []
drop_last (s ∷ []) = []
drop_last (s ∷ t ∷ segments) = s ∷ drop_last (t ∷ segments)

unfoldable pub push_segment : List Text → Text → List Text
push_segment at segment =
    if text_eq segment [] || text_eq segment (text ".")
    then at
    else if text_eq segment (text "..")
    then drop_last at
    else at ++ segment ∷ []

unfoldable pub push_segments : List Text → List Text → List Text
push_segments at [] = at
push_segments at (segment ∷ segments) = push_segments (push_segment at segment) segments

unfoldable pub resolve : List Text → List Text → List Text
resolve at [] = at
resolve at (part ∷ parts) =
    resolve (push_segments (if starts_with part (text "/") then [] else at) (split_slash part))
      parts

tail_text : List Text → Text
tail_text [] = []
tail_text (s ∷ segments) = b'/' ∷ s ++ tail_text segments

unfoldable pub path_text : List Text → Text
unfolding tail_text
path_text [] = text "/"
path_text (s ∷ segments) = tail_text (s ∷ segments)

-- `none` is the error that is thrown.
unfoldable pub resolve_under_store : List Text → List Text → Option Text
unfolding resolve push_segments push_segment drop_last split_slash
resolve_under_store root components =
    let resolved = path_text (resolve root components) in
    if not (text_eq resolved (path_text root))
      && not (starts_with resolved (path_text root ++ text "/"))
    then none
    else some resolved
