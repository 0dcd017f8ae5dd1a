-- ===== src/IdCache/Size.antt =====
-- How many accounts the cache of packages/id-cache/src/cache.ts holds.
use cernere.Base.{
  ℕ, zero, suc, ◌+◌, ◌/◌, ◌-◌, ◌≤◌, ◌<◌, ltb, Bool, Bool-cases, Option, none, some, List, [], ◌∷◌,
  any, delete, update, ◌*◌, length, length-append, ◌≡◌, refl, inl, inr, arith,
}
use cernere.Consent.Keys.{Text}
use cernere.IdCache.{
  IdCache, IdCacheConfig, CacheEntry, Payload, Response, evict_first, evict_if_full, evict_expired,
  set_entry, has_key, max_size, cache_ttl, CachedUser, store_user, counted, look_up, cached,
  remember, user_of, invalidate, clear,
}

-- What may happen to a cache, in any order: the two halves of a call, between which other steps
-- may run, and the two operations that drop entries.
pub data Step (verify : Text → Text → Option Payload) (config : IdCacheConfig) (c : IdCache)
    : IdCache → Type 0 where
  looks : (now : ℕ) (token : Text) → Step verify config c (look_up verify config now token c).1
  remembers :
      (evicted now : ℕ) (response : Response)
      → Step verify config c (remember verify config evicted now response c).1
  invalidates : (user_id : Text) → Step verify config c (invalidate user_id c)
  clears : Step verify config c (clear c)

pub data Steps (verify : Text → Text → Option Payload) (config : IdCacheConfig)
    : IdCache → IdCache → Type 0 where
  stay : {c : IdCache} → Steps verify config c c
  next :
      {c d e : IdCache} → Step verify config c d → Steps verify config d e → Steps verify config c e

module _ {A : Type 0} (p : A → Bool) where
  length-delete_le : (xs : List A) → length (delete p xs) ≤ length xs
  unfolding delete
  length-delete_le [] = omega arith
  length-delete_le (x ∷ xs) = ground (arith, length-delete_le xs)

  length-update : (f : A → A) (xs : List A) → length (update p f xs) ≡ length xs
  unfolding update
  length-update f [] = refl
  length-update f (x ∷ xs) = omega (arith, length-update f xs)

length-evict_first :
    (n : ℕ) (xs : List (Text × CacheEntry)) → length (evict_first n xs) ≡ length xs - n
unfolding evict_first
length-evict_first zero xs = omega arith
length-evict_first (suc n) [] = omega arith
length-evict_first (suc n) (x ∷ xs) = omega (arith, length-evict_first n xs)

length-set_entry :
    (key : Text) (entry : CacheEntry) (xs : List (Text × CacheEntry))
    → length (set_entry key entry xs) ≤ suc (length xs)
length-set_entry key entry xs = elim (Bool-cases (any (has_key key) xs)) [
  | inl e ↦ rw e (omega (arith, length-update (has_key key) (λ old. (old.0, entry)) xs))
  | inr e ↦ rw e (omega (arith, length-append xs ((key, entry) ∷ [])))
]

fifth_pos : (max : ℕ) → 5 ≤ max → 0 < max / 5
fifth_pos max h = omega arith

-- A full cache loses at least one entry, if a fifth of its size is one.
length-evict_if_full :
    (max : ℕ) (xs : List (Text × CacheEntry))
    → 5 ≤ max
    → length xs ≤ max
    → length (evict_if_full max xs) < max
length-evict_if_full max xs five h =
    ground (arith, length-evict_first (max / 5) xs, fifth_pos max five)

module _ (verify : Text → Text → Option Payload) (config : IdCacheConfig)
    (five : 5 ≤ max_size config) where
  store_user-size :
      (evicted now : ℕ) (user : Option CachedUser) (c : IdCache)
      → length c.cache ≤ max_size config
      → length (store_user verify config evicted now user c).1.cache ≤ max_size config
  store_user-size evicted now none c h = h
  store_user-size evicted now (some user) c h =
      let live = evict_expired evicted c.cache in
      let fewer = length-delete_le (λ entry. ltb entry.1.expires_at evicted) c.cache in
      let room = length-evict_if_full (max_size config) live five (omega (arith, fewer, h)) in
      let entry : CacheEntry = record { user = user; expires_at = now + cache_ttl config * 1000 } in
      omega (arith, room, length-set_entry user.id entry (evict_if_full (max_size config) live))

  counted-cache :
      (user : Option CachedUser) (c : IdCache) → (counted verify config user c).1.cache ≡ c.cache
  counted-cache none c = refl
  counted-cache (some user) c = refl

  Step-size :
      {c d : IdCache}
      → length c.cache ≤ max_size config
      → Step verify config c d
      → length d.cache ≤ max_size config
  Step-size {c} h (looks now token) = rw (counted-cache (cached verify config now token c) c) h
  Step-size {c} h (remembers evicted now response) =
      store_user-size evicted now (user_of response) c h
  Step-size {c} h (invalidates user_id) = omega (arith, length-delete_le (has_key user_id) c.cache)
  Step-size h clears = omega arith

  -- With a size of at least five, whatever sequence of lookups, answers that arrive, invalidations
  -- and clearings runs, overlapping calls included, a cache that holds no more accounts than its
  -- size never comes to hold more.
  pub Steps-size :
      {c d : IdCache}
      → length c.cache ≤ max_size config
      → Steps verify config c d
      → length d.cache ≤ max_size config
  Steps-size h stay = h
  Steps-size h (next first rest) = Steps-size (Step-size h first) rest
