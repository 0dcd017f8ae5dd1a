-- ===== src/Base/Results.antt =====
-- server/src/error.ts: a thrown `AppError` is a value, without the text meant for people. A
-- transaction that throws leaves the database as it was, so a failed result carries no state.
use Prim.Native.Nat.{ℕ}
use Prim.Native.String.{String}
use mathlib.Core.Path.{◌≡◌, refl}
use mathlib.Core.Logic.{◌⊎◌, inl, inr}
use mathlib.Core.Bool.{Bool, true, false}
use mathlib.Core.Option.{Option, none, some}

pub record AppError : Type 0 where
  pub status_code : ℕ
  pub code : Option String

abbrev pub with_code : ℕ → String → AppError
with_code status code = record { status_code = status; code = some code }

abbrev pub bad_request : AppError
bad_request = record { status_code = 400; code = none }

abbrev pub unauthorized : AppError
unauthorized = record { status_code = 401; code = none }

abbrev pub forbidden : AppError
forbidden = record { status_code = 403; code = none }

abbrev pub not_found : AppError
not_found = record { status_code = 404; code = none }

abbrev pub conflict : AppError
conflict = record { status_code = 409; code = none }

pub data Result {ℓ} (T : Type ℓ) : Type ℓ where
  err : AppError → Result T
  ok : T → Result T

infixl 5 ◌>>=◌
abbrev pub ◌>>=◌ {ℓ κ} :
    {S : Type ℓ} {T : Type κ} (first : Result S) (next : S → Result T) → Result T
err e >>= next = err e
ok value >>= next = next value

infixl 5 ◌>>◌
abbrev pub ◌>>◌ {ℓ} : {T : Type ℓ} (check : Result (Unit {0})) (next : Result T) → Result T
check >> next = check >>= λ passed. next

-- `if (bad) throw e`.
abbrev pub throw_if : Bool → AppError → Result (Unit {0})
throw_if true e = err e
throw_if false e = ok tt

-- `if (!row) throw e`.
abbrev pub or_throw {ℓ} : {A : Type ℓ} → Option A → AppError → Result A
or_throw none e = err e
or_throw (some a) e = ok a

abbrev pub is_ok {ℓ} : {A : Type ℓ} → Result A → Bool
is_ok (err e) = false
is_ok (ok a) = true

-- Inversion of what succeeds.
pub throw_if-eq-ok {ℓ} :
    {B : Type ℓ} (b : Bool) (e : AppError) (k : Result B) {r : B}
    → (throw_if b e >> k) ≡ ok r
    → (b ≡ false) × (k ≡ ok r)
throw_if-eq-ok true e k h = cc
throw_if-eq-ok false e k h = (refl, h)

pub or_throw-eq-ok {ℓ κ} :
    {A : Type ℓ} {B : Type κ} (o : Option A) (e : AppError) (k : A → Result B) {r : B}
    → (or_throw o e >>= k) ≡ ok r
    → (a : A) × (o ≡ some a) × (k a ≡ ok r)
or_throw-eq-ok none e k h = cc
or_throw-eq-ok (some a) e k h = (a, refl, h)

pub >>=-eq-ok {ℓ κ} :
    {S : Type ℓ} {T : Type κ} (first : Result S) (next : S → Result T) {t : T}
    → (first >>= next) ≡ ok t
    → (s : S) × (first ≡ ok s) × (next s ≡ ok t)
>>=-eq-ok (err e) next h = cc
>>=-eq-ok (ok value) next h = (value, refl, h)

pub ok_value {ℓ} : {A : Type ℓ} {a b : A} → ok a ≡ ok b → a ≡ b
ok_value h = cc

pub Result-cases {ℓ} :
    {A : Type ℓ} (r : Result A) → ((e : AppError) × (r ≡ err e)) ⊎ ((a : A) × (r ≡ ok a))
Result-cases (err e) = inl (e, refl)
Result-cases (ok a) = inr (a, refl)
