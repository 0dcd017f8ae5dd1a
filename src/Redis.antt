-- ===== src/Redis.antt =====
-- The commands of Redis that the server sends (the five of `JoinRequestRedis` in
-- server/src/federation/join-request.ts, which others send too), as an interface with what Redis documents of
-- them. Keys of one prefix are a keyspace of their own, numbered by what follows the prefix.
-- Times and lifetimes are in milliseconds.
pub mod Memory
use cernere.Base.{
  ℕ, ◌+◌, ◌≤◌, ltb, if◌then◌else◌, Bool, true, false, Option, none, some, ◌≡◌, refl, ◌≢◌, Result,
  ok, err, AppError,
}

pub record Keyspace (S V : Type 0) : Type 0 where
  pub get : S → ℕ → ℕ → Option V
  pub set : S → ℕ → ℕ → V → ℕ → S
  pub getdel : S → ℕ → ℕ → Option V × S
  pub del : S → ℕ → S
  pub setnx : S → ℕ → ℕ → V → ℕ → Bool × S
  -- A key lives for its lifetime from the moment it is set.
  pub get-set :
      (s : S) (now k : ℕ) (v : V) (ttl t : ℕ)
      → now ≤ t
      → get (set s now k v ttl) t k ≡ (if ltb t (now + ttl) then some v else none)
  pub get-set_other :
      (s : S) (now k j : ℕ) (v : V) (ttl t : ℕ) → k ≢ j → get (set s now k v ttl) t j ≡ get s t j
  pub get-del : (s : S) (k t : ℕ) → get (del s k) t k ≡ none
  pub get-del_other : (s : S) (k j t : ℕ) → k ≢ j → get (del s k) t j ≡ get s t j
  -- A key that is there was there before, unless a command set it.
  pub get_earlier :
      (s : S) (t later k : ℕ) {v : V} → t ≤ later → get s later k ≡ some v → get s t k ≡ some v
  pub getdel-eq : (s : S) (now k : ℕ) → getdel s now k ≡ (get s now k, del s k)
  pub setnx-eq :
      (s : S) (now k : ℕ) (v : V) (ttl : ℕ)
      → setnx s now k v ttl
        ≡ elim (get s now k) [ some _ ↦ (false, s) | none ↦ (true, set s now k v ttl) ]

-- A call that may throw. Commands that are sent before it throws have taken effect.
abbrev pub Task : Type 0 → Type 0 → Type 0
Task S T = S → Result T × S

abbrev pub after : {S T U : Type 0} → Result T × S → (T → Task S U) → Result U × S
after (err e, s) next = (err e, s)
after (ok t, s) next = next t s

infixl 5 ◌>>=◌
abbrev pub ◌>>=◌ : {S T U : Type 0} → Task S T → (T → Task S U) → Task S U
(first >>= next) s = after (first s) next

infixl 5 ◌>>◌
abbrev pub ◌>>◌ : {S T U : Type 0} → Task S T → Task S U → Task S U
first >> next = first >>= λ passed. next

abbrev pub give : {S T : Type 0} → T → Task S T
give t s = (ok t, s)

abbrev pub throw : {S T : Type 0} → AppError → Task S T
throw e s = (err e, s)

abbrev pub refuse_if : {S : Type 0} → Bool → AppError → Task S (Unit {0})
refuse_if true e s = (err e, s)
refuse_if false e s = (ok tt, s)

abbrev pub lift : {S T : Type 0} → Result T → Task S T
lift r s = (r, s)
