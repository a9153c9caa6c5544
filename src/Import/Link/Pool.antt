-- ===== src/Import/Link/Pool.antt =====
-- import/outbound-link.ts: what `nearestSend` finds, of a pool of any length: where it stands, and
-- that no other send within reach is nearer.
use carbon_runtime.Common.{
  some-injective, ℕ, zero, suc, ◌+◌, ◌≤◌, ◌≡◌, refl, sym, ap, subst, ◌∙◌, ◌⊎◌, inl, inr, true,
  false, List, [], ◌∷◌, Option, none, some, is_some, arith, if◌then◌else◌, Bool-cases,
}
use carbon_runtime.Import.Link.{
  SourceKind, JoinItem, Send, Mapping, Best, reach, is_better, consider, scan, search_at,
  nearest_send, millis_of,
}

-- A send stands at a place of a pool.
abbrev pub At : List Send → ℕ → Send → Type 0
At [] place send = ⊥
At (s ∷ pool) zero send = s ≡ send
At (s ∷ pool) (suc place) send = At pool place send

-- No send of a pool is within reach and nearer than `delta`.
abbrev pub IsNearest : Mapping → JoinItem → SourceKind → ℕ → ℕ → List Send → Type 0
IsNearest mapping item kind at delta [] = Unit
IsNearest mapping item kind at delta (s ∷ pool) =
    ((d : ℕ) → reach mapping item kind at s ≡ some d → delta ≤ d)
    × IsNearest mapping item kind at delta pool

-- The sends of a pool within reach.
unfoldable pub candidates_in : Mapping → JoinItem → SourceKind → ℕ → List Send → ℕ
candidates_in mapping item kind at [] = 0
candidates_in mapping item kind at (s ∷ pool) =
    (if is_some (reach mapping item kind at s) then 1 else 0)
    + candidates_in mapping item kind at pool

-- What the loop is left with where it began with `before`, at the place `start`.
pub record HasScanned (mapping : Mapping) (item : JoinItem) (kind : SourceKind) (at start : ℕ)
    (pool : List Send) (before : Option Best) (best : Best) : Type 0 where
  pub origin :
      (before ≡ some best)
      ⊎ ((k : ℕ) × (best.place ≡ start + k)
          × At pool k best.send
          × (reach mapping item kind at best.send ≡ some best.delta))
  pub nearest : IsNearest mapping item kind at best.delta pool
  pub not_worse : (b : Best) → before ≡ some b → best.delta ≤ b.delta

-- What one turn of the loop does to the best send so far.
record HasConsidered (start : ℕ) (s : Send) (r : Option ℕ) (before after : Option Best)
    : Type 0 where
  origin :
      (b : Best)
      → after ≡ some b
      → (before ≡ some b) ⊎ ((b.place ≡ start) × (s ≡ b.send) × (r ≡ some b.delta))
  near : (d : ℕ) → r ≡ some d → (b : Best) × (after ≡ some b) × (b.delta ≤ d)
  old : (b : Best) → before ≡ some b → (c : Best) × (after ≡ some c) × (c.delta ≤ b.delta)

best_at : ℕ → Send → ℕ → Best
best_at place send delta = record { place = place; send = send; delta = delta }

better_lem : (s : Send) (d : ℕ) (b : Best) → is_better s d (some b) ≡ true → d ≤ b.delta
unfolding is_better
better_lem s d b h = ground arith

worse_lem : (s : Send) (d : ℕ) (b : Best) → is_better s d (some b) ≡ false → b.delta ≤ d
unfolding is_better
worse_lem s d b h = ground arith

skip-HasConsidered :
    (start : ℕ) (s : Send) (before : Option Best) → HasConsidered start s none before before
skip-HasConsidered start s before = record {
  origin = λ b e. inl e;
  near = λ d e. cc;
  old = λ b e. (b, e, omega arith);
}

better-HasConsidered :
    (start : ℕ) (s : Send) (d : ℕ) (before : Option Best)
    → is_better s d before ≡ true
    → HasConsidered start s (some d) before (some (best_at start s d))
unfolding best_at
better-HasConsidered start s d before h = record {
  origin = λ b e.
      (let same = some-injective e in
        inr (ap (λ x. x.place) (sym same), ap (λ x. x.send) same, ap (λ x. some x.delta) same));
  near = λ e q. (best_at start s d, refl, omega (arith, some-injective q));
  old =
      λ b e. (best_at start s d, refl, better_lem s d b (subst (λ x. is_better s d x ≡ true) e h));
}

worse-HasConsidered :
    (start : ℕ) (s : Send) (d : ℕ) (b : Best)
    → is_better s d (some b) ≡ false
    → HasConsidered start s (some d) (some b) (some b)
worse-HasConsidered start s d b h = record {
  origin = λ c e. inl e;
  near = λ e q. (b, refl, omega (arith, worse_lem s d b h, some-injective q));
  old = λ c e. (b, refl, omega (arith, ap (λ x. x.delta) (some-injective e)));
}

consider-HasConsidered :
    (start : ℕ) (s : Send) (r : Option ℕ) (before : Option Best) (n : ℕ)
    → HasConsidered start s r before (consider start s r (before, n)).0
unfolding consider best_at is_better
consider-HasConsidered start s none before n = skip-HasConsidered start s before
consider-HasConsidered start s (some d) none n = better-HasConsidered start s d none refl
consider-HasConsidered start s (some d) (some b) n = elim (Bool-cases (is_better s d (some b))) [
  | inl h ↦ rw h (better-HasConsidered start s d (some b) h)
  | inr h ↦ rw h (worse-HasConsidered start s d b h)
]

-- One more send in front of a scanned pool.
step-HasScanned :
    (mapping : Mapping) (item : JoinItem) (kind : SourceKind) (at start : ℕ) (s : Send)
    (pool : List Send) (before after : Option Best) (best : Best)
    → HasConsidered start s (reach mapping item kind at s) before after
    → HasScanned mapping item kind at (suc start) pool after best
    → HasScanned mapping item kind at start (s ∷ pool) before best
step-HasScanned mapping item kind at start s pool before after best c h = record {
  origin = elim h.origin [
    | inl e ↦ elim (c.origin best e) [
      | inl f ↦ inl f
      | inr (p, q, r) ↦ inr (0, omega (arith, p), q, sym (ap (reach mapping item kind at) q) ∙ r)
    ]
    | inr (k, p, q, r) ↦ inr (suc k, omega (arith, p), q, r)
  ];
  nearest = (λ d e. (let (b, f, l) = c.near d e in omega (arith, l, h.not_worse b f)), h.nearest);
  not_worse = λ b e. (let (d, f, l) = c.old b e in omega (arith, l, h.not_worse d f));
}

scan-HasScanned :
    (mapping : Mapping) (item : JoinItem) (kind : SourceKind) (at start : ℕ) (pool : List Send)
    (found : Option Best × ℕ) (best : Best)
    → (scan mapping item kind at start pool found).0 ≡ some best
    → HasScanned mapping item kind at start pool found.0 best
unfolding scan
scan-HasScanned mapping item kind at start [] found best h = record {
  origin = inl h;
  nearest = tt;
  not_worse = λ b e. omega (arith, ap (λ x. x.delta) (some-injective (sym h ∙ e)));
}
scan-HasScanned mapping item kind at start (s ∷ pool) found best h =
    step-HasScanned mapping item kind at start s pool found.0 _ best
      (consider-HasConsidered start s (reach mapping item kind at s) found.0 found.1)
      (scan-HasScanned mapping item kind at (suc start) pool _ best h)

consider-count :
    (start : ℕ) (s : Send) (r : Option ℕ) (found : Option Best × ℕ)
    → (consider start s r found).1 ≡ found.1 + (if is_some r then 1 else 0)
unfolding consider
consider-count start s none (best, n) = omega arith
consider-count start s (some d) (best, n) = omega arith

scan-candidates :
    (mapping : Mapping) (item : JoinItem) (kind : SourceKind) (at start : ℕ) (pool : List Send)
    (found : Option Best × ℕ)
    → (scan mapping item kind at start pool found).1
      ≡ found.1 + candidates_in mapping item kind at pool
unfolding scan candidates_in
scan-candidates mapping item kind at start [] found = omega arith
scan-candidates mapping item kind at start (s ∷ pool) found = omega (
  arith,
  scan-candidates mapping item kind at (suc start) pool
      (consider start s (reach mapping item kind at s) found),
  consider-count start s (reach mapping item kind at s) found,
)

-- What it is for a send to be found for a mark.
pub record IsFound (mapping : Mapping) (pool : List Send) (item : JoinItem) (kind : SourceKind)
    (at : ℕ) (best : Best) (candidates : ℕ) : Type 0 where
  pub stands : At pool best.place best.send
  pub reached : reach mapping item kind at best.send ≡ some best.delta
  pub nearest : IsNearest mapping item kind at best.delta pool
  pub count : candidates ≡ candidates_in mapping item kind at pool

found_lem :
    (mapping : Mapping) (pool : List Send) (item : JoinItem) (kind : SourceKind) (at : ℕ)
    (best : Best)
    → (scan mapping item kind at 0 pool (none, 0)).0 ≡ some best
    → IsFound mapping pool item kind at best (scan mapping item kind at 0 pool (none, 0)).1
found_lem mapping pool item kind at best e =
    let h = scan-HasScanned mapping item kind at 0 pool (none, 0) best e in
    elim h.origin [
      | inl f ↦ cc
      | inr (k, p, q, r) ↦ record {
        stands = subst (λ x. At pool x best.send) (omega (arith, p)) q;
        reached = r;
        nearest = h.nearest;
        count = omega (arith, scan-candidates mapping item kind at 0 pool (none, 0));
      }
    ]

search_at-IsFound :
    (mapping : Mapping) (pool : List Send) (item : JoinItem) (kind : SourceKind) (best : Best)
    (m : Option ℕ)
    → (search_at mapping pool item kind m).0 ≡ some best
    → (at : ℕ) × (m ≡ some at)
      × IsFound mapping pool item kind at best (search_at mapping pool item kind m).1
unfolding search_at
search_at-IsFound mapping pool item kind best none e = cc
search_at-IsFound mapping pool item kind best (some at) e =
    (at, refl, found_lem mapping pool item kind at best e)

-- A send that the search gives, of any pool: the mark has an instant, and the send stands in the
-- pool at its place, is within reach of the mark, and no send of the pool within reach is nearer;
-- the number of candidates is that of all the sends within reach.
pub nearest_send-IsFound :
    (mapping : Mapping) (pool : List Send) (item : JoinItem) (kind : SourceKind) (best : Best)
    → (nearest_send mapping pool item kind).0 ≡ some best
    → (at : ℕ) × (millis_of mapping.node item ≡ some at)
      × IsFound mapping pool item kind at best (nearest_send mapping pool item kind).1
unfolding nearest_send
nearest_send-IsFound mapping pool item kind best =
    search_at-IsFound mapping pool item kind best (millis_of mapping.node item)
