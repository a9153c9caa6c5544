-- ===== src/Stream/Store/Post.antt =====
-- What an action of the store returns, and what it leaves when it returns.
use carbon_runtime.Common.{◌≡◌, refl, subst}
use carbon_runtime.Stream.Fault.{Result, ok, err, broken}
use carbon_runtime.Stream.Store.{Store, Exec, after}

-- What holds of what an action returns, and of the store that it leaves then.
abbrev pub Post : {B : Type 0} → Result B × Store → (B → Store → Type 0) → Type 0
Post (ok b, t) P = P b t
Post (err faults, t) P = Unit
Post (broken, t) P = Unit

pub after-Post :
    {A B : Type 0} (P : B → Store → Type 0) (m : Result A × Store) (f : A → Exec B)
    → ((a : A) (u : Store) → m ≡ (ok a, u) → Post (f a u) P)
    → Post (after m f) P
after-Post P (ok a, u) f h = h a u refl
after-Post P (err faults, u) f h = tt
after-Post P (broken, u) f h = tt

pub reads-Post :
    {A B : Type 0} (P : B → Store → Type 0) (r : Result A) (f : A → Exec B) (s : Store)
    → ((a : A) → r ≡ ok a → Post (f a s) P)
    → Post (after (r, s) f) P
reads-Post P (ok a) f s h = h a refl
reads-Post P (err faults) f s h = tt
reads-Post P broken f s h = tt

pub Post-weaken :
    {B : Type 0} (P Q : B → Store → Type 0) (m : Result B × Store)
    → ((b : B) (t : Store) → P b t → Q b t)
    → Post m P
    → Post m Q
Post-weaken P Q (ok b, t) h p = h b t p
Post-weaken P Q (err faults, t) h p = tt
Post-weaken P Q (broken, t) h p = tt

pub Post-ok :
    {B : Type 0} (P : B → Store → Type 0) (m : Result B × Store) (b : B) (t : Store)
    → Post m P
    → m ≡ (ok b, t)
    → P b t
Post-ok P m b t p e = subst (λ x. Post x P) e p
