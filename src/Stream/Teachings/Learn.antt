-- ===== src/Stream/Teachings/Learn.antt =====
-- stream/teachings.ts: remember, raiseChange and forget. `undefined` where an argument is missing is
-- `none`; `max_chars`, `max_active` and `failed_question` are values of JSON.
use carbon_runtime.Common.{
  ℕ, suc, ◌-◌, Bool, true, false, not, ◌&&◌, List, [], ◌∷◌, ◌++◌, Option, none, some, or_else,
  is_some, any, Text, text, text_eq, if◌then◌else◌, keep, ltb, leb, length, sort_by,
}
use carbon_runtime.Stream.Platform.{Node}
use carbon_runtime.Stream.Fault.{
  Fault, fault, name, Result, ok, err, broken, teaching_source_not_a_capture,
  teaching_max_chars_ungiven, teaching_text_empty, teaching_text_too_long, teaching_agent_ungiven,
  teaching_agent_mismatch, teaching_max_active_ungiven, teaching_at_cap, teaching_question_unknown,
  teaching_not_active,
}
use carbon_runtime.Stream.Json.{
  Json, obj, str, integer, Fields, end, member, get, set, is_text, strict_eq,
}
use carbon_runtime.Stream.Encode.{component_faults, is_space}
use carbon_runtime.Stream.Record.{
  MessageRecord, MessageRole, contact, operator, agent_role, system, is_inbound,
}
use carbon_runtime.Stream.Store.{Store}
use carbon_runtime.Stream.Store.Files.{records_in}
use carbon_runtime.Stream.Teachings.{Library, Directory, active_of, open_of}
use carbon_runtime.Stream.Teachings.Write.{Written, write_teaching, free_id}

pub record Cited : Type 0 where
  pub capture : Option MessageRecord
  pub faults : List Fault

abbrev pub when : Bool → Fault → List Fault
when true f = f ∷ []
when false f = []

-- The inbound captures of the message, the lowest revision first.
unfoldable pub is_source : Text → MessageRecord → Bool
is_source source r = text_eq r.message_id source && is_inbound r.direction

abbrev pub later_revision : MessageRecord → MessageRecord → Bool
later_revision a b = ltb b.revision a.revision

abbrev pub first_capture : Text → List MessageRecord → Cited
first_capture source [] = record {
  capture = none;
  faults = fault teaching_source_not_a_capture (name source) ∷ [];
}
first_capture source (r ∷ rs) = record { capture = some r; faults = [] }

-- A thrown fault of the store is carried; another error is thrown on.
abbrev pub capture_in : Text → Result (List MessageRecord) → Result Cited
capture_in source (ok held) =
    ok (first_capture source (sort_by later_revision (keep (is_source source) held)))
capture_in source (err faults) = ok (record { capture = none; faults = faults })
capture_in source broken = broken

abbrev pub cited_named : Node → Option Text → Option Text → List Fault → Store → Result Cited
cited_named node (some conversation_id) (some source) [] s =
    capture_in source (records_in node conversation_id s)
cited_named node _ _ faults s = ok (record { capture = none; faults = faults })

unfoldable pub cited_capture : Node → Option Text → Option Text → Store → Result Cited
unfolding is_source
cited_capture node conversation_id source s =
    cited_named node conversation_id source
      (component_faults node (name (text "conversation_id")) conversation_id
        ++ component_faults node (name (text "source_message_id")) source)
      s

-- An integer from 1 on.
unfoldable pub is_count : Option Json → Bool
is_count (some (integer n)) = leb 1 n
is_count _ = false

-- `text.trim().length === 0`.
unfoldable pub is_blank : Text → Bool
is_blank [] = true
is_blank (c ∷ s) = is_space c && is_blank s

-- `Number.isInteger(max_chars) && text.length > max_chars`; a negative one is below any length.
unfoldable pub is_over : Option Json → ℕ → Bool
is_over (some (integer n)) len = ltb n len
is_over (some (Json.negative n)) len = true
is_over _ len = false

unfoldable pub text_faults : Option Text → Option Json → List Fault
unfolding is_count is_blank is_over
text_faults none max_chars =
    when (not (is_count max_chars)) (fault teaching_max_chars_ungiven (name (text "max_chars")))
    ++ fault teaching_text_empty (name (text "text")) ∷ []
text_faults (some t) max_chars =
    when (not (is_count max_chars)) (fault teaching_max_chars_ungiven (name (text "max_chars")))
    ++ (if is_blank t
        then fault teaching_text_empty (name (text "text")) ∷ []
        else when (is_over max_chars (length t))
            (fault teaching_text_too_long (name (text "text"))))

abbrev other_agent : Text → Option MessageRecord → Bool
other_agent agent none = false
other_agent agent (some r) = not (text_eq r.agent agent)

unfoldable pub agent_faults : Option Text → Option MessageRecord → List Fault
agent_faults none capture = fault teaching_agent_ungiven (name (text "agent")) ∷ []
agent_faults (some []) capture = fault teaching_agent_ungiven (name (text "agent")) ∷ []
agent_faults (some (c ∷ s)) capture =
    when (other_agent (c ∷ s) capture) (fault teaching_agent_mismatch (name (c ∷ s)))

pub record TeachingOptions : Type 0 where
  pub agent : Option Text
  pub message : Option Text
  pub conversation_id : Option Text
  pub source_message_id : Option Text
  pub max_active : Option Json
  pub max_chars : Option Json
  pub failed_question : Option Json
  pub release_id : Option Text
  pub now : Text

abbrev pub role_text : MessageRole → Text
role_text contact = text "contact"
role_text operator = text "operator"
role_text agent_role = text "agent"
role_text system = text "system"

-- Copied from the capture; a name that is empty is none.
abbrev pub name_of : Option Text → Fields
name_of none = end
name_of (some []) = end
name_of (some (c ∷ s)) = member (text "sender_name") (str (c ∷ s)) end

unfoldable pub taught_by : MessageRecord → Fields
taught_by capture =
    member (text "sender_id") (str capture.sender_id)
      (member (text "role") (str (role_text capture.role)) (name_of capture.sender_name))

abbrev pub release_of : Option Text → Fields → Fields
release_of none rest = rest
release_of (some []) rest = rest
release_of (some (c ∷ s)) rest = member (text "release_id") (str (c ∷ s)) rest

-- The record of a teaching, then what its kind adds. A text that is not given has been refused.
unfoldable pub base : TeachingOptions → Text → Text → MessageRecord → Fields → Fields
unfolding taught_by
base options source id capture kind = member (text "schema") (str (text "carbon.teaching.v1")) (
    member (text "id") (str id) (
      member (text "agent") (str (or_else options.agent [])) (
        member (text "text") (str (or_else options.message [])) (
          member (text "conversation_id") (str (or_else options.conversation_id [])) (
            member (text "source_message_id") (str source) (
              member (text "taught_by") (obj (taught_by capture)) (
                member (text "taught_at") (str options.now)
                  (release_of options.release_id kind))))))))

pub record Learned : Type 0 where
  pub id : Option Json
  pub record_of : Fields
  pub active : ℕ
  pub already : Bool

-- `value === text`, where either may be undefined.
abbrev pub same_text : Option Json → Option Text → Bool
same_text (some (str s)) (some t) = text_eq s t
same_text none none = true
same_text _ _ = false

-- `find`, of a record with the source and the text.
unfoldable pub same_teaching : TeachingOptions → Fields → Bool
same_teaching options r =
    same_text (get (text "source_message_id") r) options.source_message_id
    && same_text (get (text "text") r) options.message

unfoldable pub find : (Fields → Bool) → List Fields → Option Fields
find test [] = none
find test (r ∷ rs) = if test r then some r else find test rs

abbrev pub learned : ℕ → Result Written × Directory → Result Learned × Directory
learned active (ok w, files) = (
  ok (record { id = some (str w.id); record_of = w.written; active = active; already = false }),
  files,
)
learned active (err faults, files) = (err faults, files)
learned active (broken, files) = (broken, files)

abbrev pub write_at :
    Library
    → TeachingOptions
    → Text
    → MessageRecord
    → Fields
    → ℕ
    → Directory
    → Result Text
    → Result Learned × Directory
write_at library options source capture kind active files (ok id) =
    learned active (write_teaching library (base options source id capture kind) files)
write_at library options source capture kind active files (err faults) = (err faults, files)
write_at library options source capture kind active files broken = (broken, files)

-- Write a new record, with the active count that is given back. A capture that is not there has
-- been refused, as has a source.
abbrev pub write_new :
    Library
    → TeachingOptions
    → Option Text
    → Option MessageRecord
    → Fields
    → ℕ
    → Directory
    → Result Learned × Directory
write_new library options (some source) (some capture) kind active files =
    write_at library options source capture kind active files
      (free_id library source options.now files)
write_new library options _ _ kind active files = (broken, files)

-- What a record that is there already, or the faults, make of a call.
abbrev pub learn :
    ℕ
    → Option Fields
    → List Fault
    → Result Learned × Directory
    → Directory
    → Result Learned × Directory
learn active (some r) [] new files =
    (ok (record { id = get (text "id") r; record_of = r; active = active; already = true }), files)
learn active same (f ∷ fs) new files = (err (f ∷ fs), files)
learn active none [] new files = new

-- `Number.isInteger(max_active) && !same && active.length >= max_active`.
unfoldable pub at_cap : Option Fields → Option Json → ℕ → Bool
at_cap (some r) max_active active = false
at_cap none (some (integer n)) active = leb n active
at_cap none (some (Json.negative n)) active = true
at_cap none _ active = false

abbrev pub instruction_fields : Fields
instruction_fields =
    member (text "kind") (str (text "instruction"))
      (member (text "status") (str (text "active")) end)

-- The faults of a call that do not depend on what is on disk.
unfoldable pub remember_faults : TeachingOptions → Cited → List Fault
remember_faults options cited =
    cited.faults
    ++ (text_faults options.message options.max_chars
        ++ (agent_faults options.agent cited.capture
            ++ when (not (is_count options.max_active))
                (fault teaching_max_active_ungiven (name (text "max_active")))))

unfoldable pub remember_cited :
    Library → TeachingOptions → Cited → Directory → Result Learned × Directory
unfolding find same_teaching at_cap remember_faults
remember_cited library options cited files =
    let active = active_of library files in
    let same = find (same_teaching options) active in
    learn (length active) same
      (remember_faults options cited
        ++ when (at_cap same options.max_active (length active))
            (fault teaching_at_cap (name (text "max_active"))))
      (write_new library options options.source_message_id cited.capture instruction_fields
        (suc (length active)) files)
      files

abbrev pub with_cited :
    {A : Type 0}
    → Result Cited
    → (Cited → Directory → Result A × Directory)
    → Directory
    → Result A × Directory
with_cited (ok cited) f files = f cited files
with_cited (err faults) f files = (err faults, files)
with_cited broken f files = (broken, files)

unfoldable pub remember : Library → TeachingOptions → Store → Directory → Result Learned × Directory
unfolding remember_cited cited_capture
remember library options s files =
    with_cited (cited_capture library.node options.conversation_id options.source_message_id s)
      (remember_cited library options) files

-- 1, 2, 3, 4 and 'size'.
unfoldable pub is_question : Option Json → Bool
is_question none = false
is_question (some v) =
    any (strict_eq v) (integer 1 ∷ integer 2 ∷ integer 3 ∷ integer 4 ∷ str (text "size") ∷ [])

abbrev pub request_fields : Option Json → Fields
request_fields question =
    member (text "kind") (str (text "change-request"))
      (member (text "status") (str (text "open")) (question_of question))
  where
    question_of : Option Json → Fields
    question_of none = end
    question_of (some v) = member (text "failed_question") v end

-- The answer has no active count: the model gives 0.
unfoldable pub raise_cited :
    Library → TeachingOptions → Cited → Directory → Result Learned × Directory
unfolding find same_teaching is_question
raise_cited library options cited files =
    learn 0 (find (same_teaching options) (open_of library files))
      (cited.faults
        ++ text_faults options.message options.max_chars
        ++ agent_faults options.agent cited.capture
        ++ when (not (is_question options.failed_question))
            (fault teaching_question_unknown (name (text "failed_question"))))
      (write_new library options options.source_message_id cited.capture
        (request_fields options.failed_question) 0 files)
      files

unfoldable pub raise_change :
    Library → TeachingOptions → Store → Directory → Result Learned × Directory
unfolding raise_cited cited_capture
raise_change library options s files =
    with_cited (cited_capture library.node options.conversation_id options.source_message_id s)
      (raise_cited library options) files

pub record ForgetOptions : Type 0 where
  pub id : Text
  pub conversation_id : Option Text
  pub source_message_id : Option Text
  pub now : Text

-- `{ ...held, status: 'forgotten', forgotten: { at, source_message_id } }`.
unfoldable pub forgotten_of : Text → Text → Fields → Fields
forgotten_of source now held =
    set (text "forgotten")
      (obj (member (text "at") (str now) (member (text "source_message_id") (str source) end)))
      (set (text "status") (str (text "forgotten")) held)

unfoldable pub has_id : Text → Fields → Bool
has_id id r = is_text (get (text "id") r) id

abbrev pub forget_held :
    Library
    → ForgetOptions
    → Option Fields
    → List Fault
    → ℕ
    → Directory
    → Result Learned × Directory
forget_held library options (some held) [] active files = learned (active - 1) (
    write_teaching library (forgotten_of (or_else options.source_message_id []) options.now held)
      files)
forget_held library options held (f ∷ fs) active files = (err (f ∷ fs), files)
forget_held library options none [] active files =
    (err (fault teaching_not_active (name options.id) ∷ []), files)

unfoldable pub forget_cited :
    Library → ForgetOptions → Cited → Directory → Result Learned × Directory
unfolding find has_id forgotten_of
forget_cited library options cited files =
    let active = active_of library files in
    let held = find (has_id options.id) active in
    forget_held library options held
      (cited.faults ++ when (not (is_some held)) (fault teaching_not_active (name options.id)))
      (length active) files

unfoldable pub forget : Library → ForgetOptions → Store → Directory → Result Learned × Directory
unfolding forget_cited cited_capture
forget library options s files =
    with_cited (cited_capture library.node options.conversation_id options.source_message_id s)
      (forget_cited library options) files
