-- ===== src/Base/Results.antt =====
-- `Result<A, E>` of the source, and the state monad of the code that calls ports: an action takes
-- the world that the ports act on and gives back its answer with the new world.
use mathlib.Core.Path.{◌≡◌, refl}
use mathlib.Core.Option.{Option, none, some}
use mathlib.Core.Logic.{◌⊎◌, inl, inr}

pub data Result {ℓ} (E A : Type ℓ) : Type ℓ where
  ok : A → Result E A
  err : E → Result E A

abbrev pub Action {ℓ} : Type ℓ → Type ℓ → Type ℓ
Action W A = W → A × W

abbrev pub pure {ℓ} : {W A : Type ℓ} → A → Action W A
pure a w = (a, w)

infixl 5 ◌>>=◌ ◌>>◌
abbrev pub ◌>>=◌ {ℓ} : {W A B : Type ℓ} → Action W A → (A → Action W B) → Action W B
◌>>=◌ m f w = let (a, w') = m w in f a w'

abbrev pub ◌>>◌ {ℓ} : {W A B : Type ℓ} → Action W A → Action W B → Action W B
◌>>◌ m k w = k (m w).1

pub Result-cases {ℓ} :
    {E A : Type ℓ} (r : Result E A) → ((a : A) × (r ≡ ok a)) ⊎ ((e : E) × (r ≡ err e))
Result-cases (ok a) = inl (a, refl)
Result-cases (err e) = inr (e, refl)

-- `?`, and `Result::and_then`
abbrev pub and_then {ℓ} : {E A B : Type ℓ} → Result E A → (A → Result E B) → Result E B
and_then (ok a) f = f a
and_then (err e) f = err e

-- `Option::ok_or`
abbrev pub ok_or {ℓ} : {E A : Type ℓ} → Option A → E → Result E A
ok_or none e = err e
ok_or (some a) e = ok a

-- `Result::map_err`
abbrev pub map_err {ℓ} : {E F A : Type ℓ} → (E → F) → Result E A → Result F A
map_err f (ok a) = ok a
map_err f (err e) = err (f e)

-- From a world with `Q`, the answer and the world after it satisfy `R`.
abbrev pub Triple : {W A : Type 0} → (W → Type 0) → Action W A → (A → W → Type 0) → Type 0
Triple {W} Q m R = (w : W) → Q w → R (m w).0 (m w).1

-- The action leaves `Q` true, whatever it answers.
abbrev pub Keeps : {W A : Type 0} → (W → Type 0) → Action W A → Type 0
Keeps {W} Q m = (w : W) → Q w → Q (m w).1

-- `m.await.map_err(convert)?`, and what follows it
abbrev pub go_on :
    {W E F A B : Type 0}
    → (E → F)
    → (A → Action W (Result F B))
    → Result E A
    → Action W (Result F B)
go_on convert k (ok a) = k a
go_on convert k (err e) = pure (err (convert e))

abbrev pub attempt :
    {W E F A B : Type 0}
    → Action W (Result E A)
    → (E → F)
    → (A → Action W (Result F B))
    → Action W (Result F B)
attempt m convert k = m >>= go_on convert k

-- An action that goes on and succeeds had a success to go on from.
pub go_on_ok :
    {W E F A B : Type 0} (convert : E → F) (k : A → Action W (Result F B)) (r : Result E A) (w : W)
    {b : B}
    → (go_on convert k r w).0 ≡ ok b
    → (a : A) × (r ≡ ok a) × ((k a w).0 ≡ ok b)
go_on_ok convert k (ok a) w h = (a, refl, h)
go_on_ok convert k (err e) w h = absurd (cc)

pub attempt_ok :
    {W E F A B : Type 0} (m : Action W (Result E A)) (convert : E → F)
    (k : A → Action W (Result F B)) (w : W) {b : B}
    → (attempt m convert k w).0 ≡ ok b
    → (a : A) × ((m w).0 ≡ ok a) × ((k a (m w).1).0 ≡ ok b)
attempt_ok m convert k w h = go_on_ok convert k (m w).0 (m w).1 h

pub ok_inj {ℓ} : {E A : Type ℓ} {a b : A} → ◌≡◌ {A = Result E A} (ok a) (ok b) → a ≡ b
ok_inj h = cc

-- `?` on an option
abbrev pub and_some {ℓ κ} : {A : Type ℓ} {B : Type κ} → Option A → (A → Option B) → Option B
and_some none k = none
and_some (some a) k = k a

go_on-Keeps :
    {W E F A B : Type 0} (Q : W → Type 0) (convert : E → F) (k : A → Action W (Result F B))
    (r : Result E A)
    → ((a : A) → Keeps Q (k a))
    → Keeps Q (go_on convert k r)
go_on-Keeps Q convert k (ok a) keeps w q = keeps a w q
go_on-Keeps Q convert k (err e) keeps w q = q

pub attempt-Keeps :
    {W E F A B : Type 0} (Q : W → Type 0) (m : Action W (Result E A)) (convert : E → F)
    (k : A → Action W (Result F B))
    → Keeps Q m
    → ((a : A) → Keeps Q (k a))
    → Keeps Q (attempt m convert k)
attempt-Keeps Q m convert k first rest w q =
    go_on-Keeps Q convert k (m w).0 rest (m w).1 (first w q)
