-- ===== src/Prelude/Outcome.antt =====
-- A call that may throw: `err` carries the message of the `Error`.
use Prim.Native.String.{String}
use mathlib.Core.Path.{◌≡◌, refl}
use mathlib.Core.Logic.{◌⊎◌, inl, inr}
use mathlib.Core.Bool.{Bool, true, false}
use mathlib.Core.Option.{Option, none, some}

pub data Result {ℓ} (A : Type ℓ) : Type ℓ where
  ok : A → Result A
  err : String → Result A

-- `if (b) throw new Error(e)`
abbrev pub throw_if : Bool → String → Result (Unit {0})
throw_if true e = err e
throw_if false e = ok tt

-- `if (value === undefined) throw new Error(e)`
abbrev pub or_throw {ℓ} : {A : Type ℓ} → Option A → String → Result A
or_throw none e = err e
or_throw (some a) e = ok a

-- The call after one that returned; a thrown error passes it by.
abbrev pub ◌>>=◌ {ℓ κ} : {X : Type ℓ} {Y : Type κ} → Result X → (X → Result Y) → Result Y
err message >>= next = err message
ok x >>= next = next x

abbrev pub ◌>>◌ {ℓ} : {Y : Type ℓ} → Result (Unit {0}) → Result Y → Result Y
check >> rest = check >>= λ done. rest

infixl 5 ◌>>=◌ ◌>>◌
pub ok-ne-err {ℓ} : {A : Type ℓ} {a : A} {e : String} → err e ≡ ok a → ⊥
ok-ne-err h = cc

pub ok-injective {ℓ} : {A : Type ℓ} {a b : A} → ok a ≡ ok b → a ≡ b
ok-injective h = cc

-- A chain that returned: what its first call returned, and what the rest made of it.
pub >>=-eq-ok {ℓ κ} :
    {X : Type ℓ} {Y : Type κ} (call : Result X) (next : X → Result Y) {y : Y}
    → (call >>= next) ≡ ok y
    → (x : X) × (call ≡ ok x) × (next x ≡ ok y)
>>=-eq-ok (err message) next returned = cc
>>=-eq-ok (ok x) next returned = (x, refl, returned)

pub >>-eq-ok {ℓ} :
    {B : Type ℓ} (b : Bool) (e : String) (k : Result B) {r : B}
    → (throw_if b e >> k) ≡ ok r
    → (b ≡ false) × (k ≡ ok r)
>>-eq-ok true e k h = cc
>>-eq-ok false e k h = (refl, h)

pub or_throw-eq-ok {ℓ} :
    {A : Type ℓ} (o : Option A) (e : String) {a : A} → or_throw o e ≡ ok a → o ≡ some a
or_throw-eq-ok none e h = cc
or_throw-eq-ok (some x) e h = cc

-- Whether a call returned.
abbrev pub is_ok {ℓ} : {A : Type ℓ} → Result A → Bool
is_ok (ok a) = true
is_ok (err e) = false

pub is_ok-cases {ℓ} :
    {A : Type ℓ} (r : Result A) → ((a : A) × (r ≡ ok a)) ⊎ ((e : String) × (r ≡ err e))
is_ok-cases (ok a) = inl (a, refl)
is_ok-cases (err e) = inr (e, refl)

-- What a call returns, if it returns, has a property.
unfoldable pub Returns {κ} : {A : Type 0} → Result A → (A → Type κ) → Type κ
Returns {A = A} call P = (a : A) → call ≡ ok a → P a

pub returns_bind {κ} :
    {A B : Type 0} (call : Result A) (next : A → Result B) (P : B → Type κ)
    → ((a : A) → call ≡ ok a → Returns (next a) P)
    → Returns (call >>= next) P
unfolding Returns
returns_bind (err e) next P rest b h = cc
returns_bind (ok a) next P rest b h = rest a refl b h

pub returns_check {κ} :
    {B : Type 0} (b : Bool) (e : String) (next : Result B) (P : B → Type κ)
    → (b ≡ false → Returns next P)
    → Returns (throw_if b e >> next) P
unfolding Returns
returns_check true e next P rest r h = cc
returns_check false e next P rest r h = rest refl r h

pub returns_last {κ} :
    {A : Type 0} (call : Result A) (P : A → Type κ) → ((a : A) → call ≡ ok a → P a) → Returns call P
unfolding Returns
returns_last call P rest = rest

pub throw_if-eq-ok : (b : Bool) (e : String) (u : Unit {0}) → throw_if b e ≡ ok u → b ≡ false
throw_if-eq-ok true e u h = cc
throw_if-eq-ok false e u h = refl
