-- ===== src/Stream/Store/Hold/Allowed.antt =====
-- When a record may be released to the agent.
use carbon_runtime.Common.{
  ℕ, ◌≡◌, ◌<◌, refl, ap, ◌↔◌, ◌⊎◌, arith, Bool, true, false, List, [], ◌∷◌, ◌++◌, Option, none,
  some, or_else, is_some, Text, lookup, if◌then◌else◌, ltb, inl, inr, Bool-cases,
}
use carbon_runtime.Stream.Platform.{Node}
use carbon_runtime.Stream.Fault.{
  Fault, fault, name, historical_never_releases, parked_never_releases, ok, refuse_all,
}
use carbon_runtime.Stream.Record.{MessageRecord, is_parked}
use carbon_runtime.Stream.Paths.{RecordPath, path_key}
use carbon_runtime.Stream.Store.{Store}
use carbon_runtime.Stream.Store.Files.{records_in, path_of}
use carbon_runtime.Stream.Store.Hold.{
  is_held, held_until, held_now, release_place, ReleaseOptions, record_faults, when, is_absent,
  Deadline, forever, Say, nothing, endless, ends, say_of, held_until_from, is_before,
}

-- A hold that still stands at a time: it never expires, or ends later.
abbrev pub Standing : ℕ → Say → Type 0
Standing now nothing = ⊥
Standing now endless = Unit
Standing now (ends t) = now < t

-- Some record of the list holds the conversation.
abbrev pub AnyHolds : Node → ℕ → List MessageRecord → Type 0
AnyHolds node now [] = ⊥
AnyHolds node now (r ∷ rs) = Standing now (say_of node r.hold) ⊎ AnyHolds node now rs

abbrev Until : ℕ → Option ℕ → Type 0
Until now none = ⊥
Until now (some t) = now < t

larger-lt :
    (now : ℕ) (until : Option ℕ) (t : ℕ)
    → (now < (if ltb (or_else until 0) t then t else or_else until 0))
      ↔ (Until now until ⊎ (now < t))
larger-lt now none t = (λ h. ground arith, λ h. ground arith)
larger-lt now (some u) t = (λ h. ground arith, λ h. ground arith)

module _ (node : Node) (now : ℕ) (rs : List MessageRecord) where
  say_iff :
      (until : Option ℕ) (y : Say)
      → ((u : Option ℕ)
          → (is_before now (held_until_from node u rs) ≡ true)
            ↔ (Until now u ⊎ AnyHolds node now rs))
      → (is_before now (elim y as (λ _. Option Deadline) [
        | nothing ↦ held_until_from node until rs
        | endless ↦ some forever
        | ends t ↦
            held_until_from node (some (if ltb (or_else until 0) t then t else or_else until 0)) rs
      ])
          ≡ true)
        ↔ (Until now until ⊎ (Standing now y ⊎ AnyHolds node now rs))
  say_iff until nothing ih = (
    λ h. elim ((ih until).0 h) [ inl a ↦ inl a | inr b ↦ inr (inr b) ],
    λ h.
        (ih until).1
          (elim h [ inl a ↦ inl a | inr b ↦ elim b [ inl c ↦ absurd c | inr c ↦ inr c ] ]),
  )
  say_iff until endless ih = (λ h. inr (inl tt), λ h. refl)
  say_iff until (ends t) ih = (
    λ h. elim ((ih _).0 h) [
      | inl a ↦ elim ((larger-lt now until t).0 a) [ inl b ↦ inl b | inr c ↦ inr (inl c) ]
      | inr b ↦ inr (inr b)
    ],
    λ h. (ih _).1 (elim h [
      | inl a ↦ inl ((larger-lt now until t).1 (inl a))
      | inr b ↦ elim b [ inl c ↦ inl ((larger-lt now until t).1 (inr c)) | inr c ↦ inr c ]
    ]),
  )

held_until_from_iff :
    (node : Node) (now : ℕ) (until : Option ℕ) (rs : List MessageRecord)
    → (is_before now (held_until_from node until rs) ≡ true)
      ↔ (Until now until ⊎ AnyHolds node now rs)
unfolding held_until_from
held_until_from_iff node now none [] =
    (λ h. cc h, λ h. elim h [ inl a ↦ absurd a | inr b ↦ absurd b ])
held_until_from_iff node now (some t) [] = (λ h. ground arith, λ h. ground arith)
held_until_from_iff node now none (r ∷ rs) =
    say_iff node now rs none (say_of node r.hold) (λ u. held_until_from_iff node now u rs)
held_until_from_iff node now (some t) (r ∷ rs) =
    say_iff node now rs (some t) (say_of node r.hold) (λ u. held_until_from_iff node now u rs)

-- A conversation whose records can be read is held at a time exactly if one of its records carries a
-- hold that has a readable time and either never expires or ends after that time.
pub is_held_iff :
    (node : Node) (conversation_id : Text) (now : ℕ) (s : Store) (rs : List MessageRecord)
    → records_in node conversation_id s ≡ ok rs
    → (is_held node conversation_id now s ≡ ok true) ↔ AnyHolds node now rs
unfolding is_held
is_held_iff node c now s rs found =
    rw (found, is_held, held_until)
      (
        λ h. elim ((held_until_from_iff node now none rs).0 (cc h)) [
          | inl a ↦ absurd a
          | inr b ↦ b
        ],
        λ h. ap ok ((held_until_from_iff node now none rs).1 (inr h)),
      )

-- What a release asks for: the record is no history and was understood, no hold that applies stands,
-- and the record is on disk.
pub record MayRelease (node : Node) (r : MessageRecord) (o : ReleaseOptions)
    (rs : List MessageRecord) (there : Option MessageRecord) : Type 0 where
  pub recent : r.historical ≡ false
  pub understood : is_parked r.disposition ≡ false
  pub free : o.hold_applies ≡ true → AnyHolds node o.now rs → ⊥
  pub on_disk : is_some there ≡ true

-- Whether the hold speaks against the release.
held_value : Node → ReleaseOptions → List MessageRecord → Bool
held_value node o rs =
    if o.hold_applies then is_before o.now (held_until_from node none rs) else false

held_now-value :
    (node : Node) (r : MessageRecord) (o : ReleaseOptions) (s : Store) (rs : List MessageRecord)
    → records_in node r.conversation_id s ≡ ok rs
    → held_now node r o s ≡ ok (held_value node o rs)
unfolding held_value is_held held_now held_until_from
held_now-value node r o s rs found = elim (Bool-cases o.hold_applies) [
  | inl applies ↦ rw (applies, held_now) (rw (found, is_held, held_until) refl)
  | inr free ↦ rw (free, held_now) refl
]

any_holds :
    (node : Node) (now : ℕ) (rs : List MessageRecord)
    → is_before now (held_until_from node none rs) ≡ true
    → AnyHolds node now rs
any_holds node now rs h = elim ((held_until_from_iff node now none rs).0 h) [
  | inl a ↦ absurd a
  | inr b ↦ b
]

held_one :
    (applies before : Bool)
    → applies ≡ true
    → before ≡ true
    → (if applies then before else false) ≡ true
held_one applies before a b = rw (a, b) refl

not_held :
    (applies before : Bool)
    → (applies ≡ true → before ≡ true → ⊥)
    → (if applies then before else false) ≡ false
not_held false before h = refl
not_held true false h = refl
not_held true true h = absurd (h refl refl)

held_value_iff :
    (node : Node) (o : ReleaseOptions) (rs : List MessageRecord)
    → (held_value node o rs ≡ false) ↔ (o.hold_applies ≡ true → AnyHolds node o.now rs → ⊥)
unfolding held_value
held_value_iff node o rs = (
  λ h a any.
      cc (h, held_one o.hold_applies _ a ((held_until_from_iff node o.now none rs).1 (inr any))),
  λ h. not_held o.hold_applies _ (λ a. λ b. h a (any_holds node o.now rs b)),
)

release_checks :
    (b : Bool) (r : MessageRecord) (there : Option MessageRecord) (place : RecordPath) (f g : Fault)
    → (refuse_all (record_faults r ++ when b f ++ when (is_absent there) g) (ok place) ≡ ok place)
      ↔ ((r.historical ≡ false)
          × (is_parked r.disposition ≡ false)
          × (b ≡ false)
          × (is_some there ≡ true))
unfolding record_faults
release_checks b r there place f g = checks_by r.historical (is_parked r.disposition) b there
  where
    checks_by :
        (h p c : Bool) (t : Option MessageRecord)
        → (refuse_all
              ((when h (fault historical_never_releases (name r.message_id))
                  ++ when p (fault parked_never_releases (name r.message_id)))
                ++ when c f
                ++ when (is_absent t) g)
              (ok place)
            ≡ ok place)
          ↔ ((h ≡ false) × (p ≡ false) × (c ≡ false) × (is_some t ≡ true))
    checks_by false false false (some e) = (λ k. (refl, refl, refl, refl), λ k. refl)
    checks_by false false false none = (λ k. cc k, λ k. cc (k.3))
    checks_by false false true t = (λ k. cc k, λ k. cc (k.2))
    checks_by false true c t = (λ k. cc k, λ k. cc (k.1))
    checks_by true p c t = (λ k. cc k, λ k. cc (k.0))

-- A release whose conversation can be read is allowed exactly where the record may be released.
pub release_place_iff :
    (node : Node) (r : MessageRecord) (o : ReleaseOptions) (s : Store) (rs : List MessageRecord)
    (place : RecordPath)
    → path_of node r ≡ ok place
    → records_in node r.conversation_id s ≡ ok rs
    → (release_place node r o s ≡ ok place) ↔ MayRelease node r o rs (lookup place s.captures)
unfolding release_place
release_place_iff node r o s rs place derived found =
    let checks = release_checks (held_value node o rs) r (lookup place s.captures) place _ _ in
    rw (held_now-value node r o s rs found, derived, release_place)
      (
        λ h.
            let all = checks.0 h in
            record {
              recent = all.0;
              understood = all.1;
              free = (held_value_iff node o rs).0 all.2;
              on_disk = all.3;
            },
        λ may.
            checks.1
              (may.recent, may.understood, (held_value_iff node o rs).1 may.free, may.on_disk),
      )
