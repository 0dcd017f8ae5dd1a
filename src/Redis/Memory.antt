-- ===== src/Redis/Memory.antt =====
-- A keyspace in memory, as the tests of the repository use in place of Redis: a function from keys
-- to values with the instant at which they end.
use cernere.Base.{
  ℕ, ◌+◌, ◌≤◌, ltb, ◌==◌, ==_iff, ==_self, if◌then◌else◌, Bool-cases, true, false, Option, none,
  some, ◌≡◌, refl, ◌≢◌, inl, inr, arith,
}
use cernere.Redis.{Keyspace}

abbrev pub Memory : Type 0 → Type 0
Memory V = ℕ → Option (V × ℕ)

abbrev pub empty : {V : Type 0} → Memory V
empty k = none

abbrev pub live : {V : Type 0} → ℕ → Option (V × ℕ) → Option V
live t none = none
live t (some (v, end)) = if ltb t end then some v else none

abbrev pub put : {V : Type 0} → Memory V → ℕ → Option (V × ℕ) → Memory V
put s k entry j = if k == j then entry else s j

pub live_earlier :
    {V : Type 0} (entry : Option (V × ℕ)) (t later : ℕ) {v : V}
    → t ≤ later
    → live later entry ≡ some v
    → live t entry ≡ some v
live_earlier none t later h e = cc
live_earlier (some (w, end)) t later h e = ground arith

pub put_other :
    {V : Type 0} (s : Memory V) (k j : ℕ) (entry : Option (V × ℕ)) → k ≢ j → put s k entry j ≡ s j
put_other s k j entry h = elim (Bool-cases (k == j)) [
  | inl e ↦ absurd (h ((==_iff k j).0 e))
  | inr e ↦ rw e refl
]

pub put_self :
    {V : Type 0} (s : Memory V) (k : ℕ) (entry : Option (V × ℕ)) → put s k entry k ≡ entry
put_self s k entry = rw (==_self k) refl

abbrev pub memory : {V : Type 0} → Keyspace (Memory V) V
memory = record {
  get = λ s t k. live t (s k);
  set = λ s now k v ttl. put s k (some (v, now + ttl));
  getdel = λ s now k. (live now (s k), put s k none);
  del = λ s k. put s k none;
  setnx = λ s now k v ttl. elim (live now (s k)) [
    | some _ ↦ (false, s)
    | none ↦ (true, put s k (some (v, now + ttl)))
  ];
  get-set = λ s now k v ttl t h. rw (put_self s k (some (v, now + ttl))) refl;
  get-set_other = λ s now k j v ttl t h. rw (put_other s k j (some (v, now + ttl)) h) refl;
  get-del = λ s k t. rw (put_self s k none) refl;
  get-del_other = λ s k j t h. rw (put_other s k j none h) refl;
  get_earlier = λ s t later k h e. live_earlier (s k) t later h e;
  getdel-eq = λ s now k. refl;
  setnx-eq = λ s now k v ttl. refl;
}
