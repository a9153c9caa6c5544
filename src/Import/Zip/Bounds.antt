-- ===== src/Import/Zip/Bounds.antt =====
-- The reads of the zip reader stay inside the buffer, so that an archive names no more entries than
-- it has room for.
use carbon_runtime.Common.{
  ℕ, zero, suc, ◌+◌, ◌≤◌, ◌<◌, ◌≡◌, refl, ap, ◌∙◌, ==_iff, Bool, true, false, List, [], ◌∷◌, arith,
  if◌then◌else◌, ◌==◌, length, subst,
}
use carbon_runtime.Stream.Platform.{Node}
use carbon_runtime.Stream.Fault.{Fault, Result, ok, err, broken, ok-injective}
use carbon_runtime.Import.Zip.{
  Buffer, read8, read16, read32, central_mark, ZipEntry, DirectoryAt, read_central, entries_from,
  directory_of, entries, ◌>>=◌,
}

-- A bind that succeeds had a first part that did.
pub bind-ok :
    {A B : Type 0} (m : Result A) (f : A → Result B) (b : B)
    → (m >>= f) ≡ ok b
    → (a : A) × (m ≡ ok a) × (f a ≡ ok b)
bind-ok (ok a) f b e = (a, refl, e)
bind-ok (err faults) f b e = cc
bind-ok broken f b e = cc

read8-bound : (buffer : Buffer) (at b : ℕ) → read8 buffer at ≡ ok b → at < length buffer
unfolding read8
read8-bound [] zero b e = cc
read8-bound [] (suc at) b e = cc
read8-bound (x ∷ buffer) zero b e = omega arith
read8-bound (x ∷ buffer) (suc at) b e = omega (arith, read8-bound buffer at b e)

read16-bound : (buffer : Buffer) (at n : ℕ) → read16 buffer at ≡ ok n → at + 2 ≤ length buffer
unfolding read16
read16-bound buffer at n e =
    let (low, e1, f) = bind-ok (read8 buffer at) _ n e in
    let (high, e2, g) = bind-ok (read8 buffer (at + 1)) _ n f in
    omega (arith, read8-bound buffer (at + 1) high e2)

pub read32-bound : (buffer : Buffer) (at n : ℕ) → read32 buffer at ≡ ok n → at + 4 ≤ length buffer
unfolding read32
read32-bound buffer at n e =
    let (low, e1, f) = bind-ok (read16 buffer at) _ n e in
    let (high, e2, g) = bind-ok (read16 buffer (at + 2)) _ n f in
    omega (arith, read16-bound buffer (at + 2) high e2)

-- An entry of the directory takes 46 bytes and its names.
read_central-bound :
    (node : Node) (buffer : Buffer) (at : ℕ) (entry : ZipEntry) (next : ℕ)
    → read_central node buffer at ≡ ok (entry, next)
    → (at + 46 ≤ length buffer) × (at + 46 ≤ next)
unfolding read_central
read_central-bound node buffer at entry next e =
    let (n, e1, f1) = bind-ok (read16 buffer (at + 28)) _ _ e in
    let (x, e2, f2) = bind-ok (read16 buffer (at + 30)) _ _ f1 in
    let (c, e3, f3) = bind-ok (read16 buffer (at + 32)) _ _ f2 in
    let (m, e4, f4) = bind-ok (read16 buffer (at + 10)) _ _ f3 in
    let (r, e5, f5) = bind-ok (read32 buffer (at + 16)) _ _ f4 in
    let (z, e6, f6) = bind-ok (read32 buffer (at + 20)) _ _ f5 in
    let (s, e7, f7) = bind-ok (read32 buffer (at + 24)) _ _ f6 in
    let (l, e8, f8) = bind-ok (read32 buffer (at + 42)) _ _ f7 in
    let there : at + 46 + n + x + c ≡ next = ap (λ p. p.1) (ok-injective f8) in
    (omega (arith, read32-bound buffer (at + 42) l e8), omega (arith, there))

-- Entries one behind the other from a place on: each starts with its mark and has its 46 bytes
-- inside the buffer, and the next starts behind them.
abbrev pub EachIn : Buffer → ℕ → List ZipEntry → Type 0
EachIn buffer at [] = Unit
EachIn buffer at (entry ∷ es) =
    (read32 buffer at ≡ ok central_mark)
    × (at + 46 ≤ length buffer)
    × ((next : ℕ) × (at + 46 ≤ next) × EachIn buffer next es)

-- The entries of a directory that is read at a place.
abbrev Fits : Buffer → ℕ → ℕ → List ZipEntry → Type 0
Fits buffer count at es = (length es ≡ count) × EachIn buffer at es

-- Only an entry that is marked as one is read.
pub guarded-ok :
    {A : Type 0} (b : Bool) (m : Result A) (faults : List Fault) (a : A)
    → (if b then m else err faults) ≡ ok a
    → (b ≡ true) × (m ≡ ok a)
guarded-ok true m faults a e = (refl, e)
guarded-ok false m faults a e = cc

entries_from-Fits :
    (node : Node) (buffer : Buffer) (count i at : ℕ) (es : List ZipEntry)
    → entries_from node buffer count i at ≡ ok es
    → Fits buffer count at es
unfolding entries_from
entries_from-Fits node buffer zero i at es e =
    subst (Fits buffer zero at) (ok-injective e) (refl, tt)
entries_from-Fits node buffer (suc left) i at es e =
    let (mark, e1, f1) = bind-ok (read32 buffer at) _ _ e in
    let ((entry, next), e2, f2) = bind-ok _ _ es f1 in
    let (found, e3, f3) = bind-ok (entries_from node buffer left (i + 1) next) _ _ f2 in
    let read = guarded-ok (mark == central_mark) _ _ _ e2 in
    let (room, moved) = read_central-bound node buffer at entry next read.1 in
    let (count, rest) = entries_from-Fits node buffer left (i + 1) next found e3 in
    subst (Fits buffer (suc left) at) (ok-injective f3)
      (ap suc count, (e1 ∙ ap ok ((==_iff mark central_mark).0 read.0), room, (next, moved, rest)))

-- As many entries as the end record counts, each with its 46 bytes inside the buffer.
abbrev pub HasRoom : Buffer → List ZipEntry → Type 0
HasRoom buffer es =
    (place : DirectoryAt) × (directory_of buffer ≡ ok place)
    × (length es ≡ place.count)
    × EachIn buffer place.offset es

-- An archive whose directory is read names exactly the entries that its end record counts, and they
-- stand one behind the other from the directory's place on: each starts with an entry's mark and has
-- its 46 bytes inside the buffer, and the next starts behind those.
pub entries-HasRoom :
    (node : Node) (buffer : Buffer) (es : List ZipEntry)
    → entries node buffer ≡ ok es
    → HasRoom buffer es
unfolding entries
entries-HasRoom node buffer es e =
    let (place, e1, f1) = bind-ok (directory_of buffer) _ es e in
    let (count, each) = entries_from-Fits node buffer place.count 0 place.offset es f1 in
    (place, e1, count, each)
