-- ===== src/Stream/Teachings/Tests.antt =====
-- One instruction taught and revoked, and each theorem of the teachings at it.
use carbon_runtime.Common.{
  ℕ, ◌≡◌, refl, ◌⊎◌, false, [], ◌∷◌, none, some, Text, text, lookup, put, text_eq, starts_with,
  text_lt, has_unit, sort_by, Distinct,
}
use carbon_runtime.Stream.Fault.{Result, ok, err, broken}
use carbon_runtime.Stream.Json.{
  integer, obj, str, Fields, end, get, set, strict_eq, is_text, is_inherited,
}
use carbon_runtime.Stream.Validate.{
  empty_schema, validate, keyword_faults, ending, required_faults, held_to, property_of,
}
use carbon_runtime.Stream.Encode.{
  component_faults, encode_component, encode_bytes, encode_byte, is_safe_byte, is_space,
}
use carbon_runtime.Stream.Paths.{text_key, record_path, record_stem, decimal, same_path}
use carbon_runtime.Stream.Store.{Store, opened}
use carbon_runtime.Stream.Store.Files.{records_in, read_directory, read_content, path_of}
use carbon_runtime.Stream.Samples.{ascii, question}
use carbon_runtime.Stream.Teachings.{
  Library, Directory, file_name, is_read, entry_of, entries_of, read_teachings, is_of, group_of,
  active_of, taught_after,
}
use carbon_runtime.Stream.Teachings.Write.{
  pick, others_of, in_schema_order, kind_faults, store_record, write_teaching, stamp, id_rest,
  teaching_id, free_from, free_id, id_tries,
}
use carbon_runtime.Stream.Teachings.Learn.{
  TeachingOptions, ForgetOptions, Learned, is_source, cited_capture, is_count, is_blank, is_over,
  text_faults, agent_faults, taught_by, base, same_teaching, find, at_cap, remember_faults,
  remember_cited, remember, forgotten_of, has_id, forget_cited, forget,
}
use carbon_runtime.Stream.Teachings.Fresh.{AllTaken, free_id-found}
use carbon_runtime.Stream.Teachings.Keeps.{call_remember, call_forget, calls, calls-keep}
use carbon_runtime.Stream.Teachings.Remembers.{IsRemembered, remember-IsRemembered}
use carbon_runtime.Stream.Teachings.Twice.{again, remember-remember}
use carbon_runtime.Stream.Teachings.Forgets.{IsForgotten, forget-IsForgotten}

-- A library whose clock stands still.
abbrev library : Library
library = record {
  node = ascii;
  teaching_schema = empty_schema;
  iso = λ ms. text "2026-01-02T03:04:05.678Z";
  locale_after = λ s t. text_lt t s;
  locale_same = text_eq;
  string_of = λ v. [];
}

-- A store that holds one question.
abbrev store : Store
store = record opened {
  captures = (record { directory = text "c~2E1"; stem = text "m1" }, question) ∷ [];
}

abbrev options : TeachingOptions
options = record {
  agent = some (text "a");
  message = some (text "be brief");
  conversation_id = some (text "c.1");
  source_message_id = some (text "m1");
  max_active = some (integer 2);
  max_chars = some (integer 20);
  failed_question = none;
  release_id = some (text "r1");
  now = text "t";
}

learned_of : Result Learned → Learned
learned_of (ok l) = l
learned_of (err faults) = record { id = none; record_of = end; active = 0; already = false }
learned_of broken = record { id = none; record_of = end; active = 0; already = false }

-- What a run computes with.
runs : ℕ
unfolding is_read starts_with entry_of entries_of read_teachings is_of group_of active_of
    taught_after pick others_of in_schema_order kind_faults store_record write_teaching stamp
    id_rest teaching_id free_from free_id is_source cited_capture is_count is_blank is_over
    text_faults agent_faults taught_by base same_teaching find at_cap remember_faults remember_cited
    remember forgotten_of has_id forget_cited forget component_faults encode_component encode_bytes
    encode_byte is_safe_byte is_space record_path record_stem decimal same_path records_in
    read_directory read_content path_of has_unit text_eq text_lt lookup put sort_by get set is_text
    strict_eq validate keyword_faults ending required_faults held_to property_of is_inherited
    learned_of
runs = 0

abbrev taught : Directory
unfolding runs
taught = (remember library options store []).1

abbrev first : Learned
unfolding runs
first = learned_of ((remember library options store []).0)

taught_once : remember library options store [] ≡ (ok first, taught)
unfolding runs
taught_once = refl

the_id : Text
the_id = text "teach-20260102T030405Z-0a"

first_id : first.id ≡ some (str the_id)
unfolding runs the_id
first_id = refl

remember-IsRemembered_example : IsRemembered library options store 2 [] taught first
remember-IsRemembered_example =
    remember-IsRemembered library options store 2 [] taught first refl taught_once

remember-remember_example :
    (q : Fields) × (remember library options store taught
      ≡ (ok (again options library taught q), taught))
remember-remember_example = remember-remember library options store [] taught first taught_once

abbrev revocation : ForgetOptions
revocation = record {
  id = text "teach-20260102T030405Z-0a";
  conversation_id = some (text "c.1");
  source_message_id = some (text "m1");
  now = text "t2";
}

abbrev revoked : Directory
unfolding runs
revoked = (forget library revocation store taught).1

abbrev last : Learned
unfolding runs
last = learned_of ((forget library revocation store taught).0)

revoked_once : forget library revocation store taught ≡ (ok last, revoked)
unfolding runs
revoked_once = refl

taught-Distinct : Distinct taught
unfolding runs
taught-Distinct = (refl, tt)

forget-IsForgotten_example : IsForgotten library revocation taught revoked last
forget-IsForgotten_example =
    forget-IsForgotten library revocation store taught revoked last taught-Distinct revoked_once

there_taught : lookup (file_name revocation.id) taught ≡ some (some (obj first.record_of))
unfolding runs
there_taught = refl

calls-keep_example :
    (r' : Fields) × (lookup
        (file_name revocation.id)
        (calls library (call_forget revocation store ∷ call_remember options store ∷ []) taught)
      ≡ some (some (obj r')))
    × (get (text "text") r' ≡ get (text "text") first.record_of)
calls-keep_example =
    calls-keep library (call_forget revocation store ∷ call_remember options store ∷ []) taught
      (file_name revocation.id) first.record_of (text "text") taught-Distinct there_taught
      (λ e. cc e) (λ e. cc e)

free_id-found_example :
    ((id : Text) × (free_id library (text "m1") (text "t") taught ≡ ok id)
      × (lookup (file_name id) taught ≡ none))
    ⊎ AllTaken library (text "m1") id_tries 100 taught
free_id-found_example =
    free_id-found library (text "m1") (text "t") 100 taught refl (λ t. (100, refl))
