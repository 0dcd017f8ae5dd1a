-- ===== src/IdCache.antt =====
-- packages/id-cache/src/cache.ts: the cache of accounts that a service keeps in front of the
-- identity service. Middleware models packages/id-cache/src/middleware.ts, which asks the cache.
-- A map in its order of insertion is a list of pairs. The check of a token by the library and the
-- answer of the identity service are arguments; so is the time of each reading of the clock.
pub mod Size
pub mod Middleware
mod Examples
use cernere.Base.{
  ℕ, suc, ◌+◌, ◌*◌, ◌/◌, zero, ltb, Bool, true, false, Option, none, some, or_else, List, [], ◌∷◌,
  ◌++◌, if◌then◌else◌, any, delete, find, update, length,
}
use cernere.Consent.Keys.{Text, same_text}

-- The fields with a name of their own; any others are left out.
pub record CachedUser : Type 0 where
  pub id : Text
  pub name : Text
  pub email : Text
  pub role : Text

-- The address of the identity service belongs to what answers for it.
pub record IdCacheConfig : Type 0 where
  pub jwt_secret : Option Text
  pub cache_ttl_seconds : Option ℕ
  pub max_cache_size : Option ℕ

pub record CacheEntry : Type 0 where
  pub user : CachedUser
  pub expires_at : ℕ

pub record IdCache : Type 0 where
  pub cache : List (Text × CacheEntry)
  pub hits : ℕ
  pub misses : ℕ

-- What a verified token says.
pub record Payload : Type 0 where
  pub user_id : Option Text
  pub sub : Option Text
  pub role : Text

-- What comes back from the identity service: nothing that can be read, or whether the status is in
-- order and what the body says.
pub data Response : Type 0 where
  unreachable : Response
  answered : Bool → Bool → Option CachedUser → Response

abbrev pub create_id_cache : IdCache
create_id_cache = record { cache = []; hits = 0; misses = 0 }

abbrev pub cache_ttl : IdCacheConfig → ℕ
cache_ttl config = or_else config.cache_ttl_seconds 300

abbrev pub max_size : IdCacheConfig → ℕ
max_size config = or_else config.max_cache_size 10000

-- `get`, `set` and `delete` of a map. A key that is there keeps its place.
abbrev pub has_key : Text → Text × CacheEntry → Bool
has_key key entry = same_text entry.0 key

abbrev pub entry_of : Option (Text × CacheEntry) → Option CacheEntry
entry_of none = none
entry_of (some (_, entry)) = some entry

abbrev pub get_entry : Text → List (Text × CacheEntry) → Option CacheEntry
get_entry key cache = entry_of (find (has_key key) cache)

abbrev pub set_entry : Text → CacheEntry → List (Text × CacheEntry) → List (Text × CacheEntry)
set_entry key entry cache =
    if any (has_key key) cache
    then update (has_key key) (λ old. (old.0, entry)) cache
    else cache ++ (key, entry) ∷ []

abbrev pub evict_expired : ℕ → List (Text × CacheEntry) → List (Text × CacheEntry)
evict_expired now cache = delete (λ entry. ltb entry.1.expires_at now) cache

unfoldable pub evict_first : ℕ → List (Text × CacheEntry) → List (Text × CacheEntry)
evict_first zero cache = cache
evict_first (suc n) [] = []
evict_first (suc n) (entry ∷ cache) = evict_first n cache

abbrev pub evict_if_full : ℕ → List (Text × CacheEntry) → List (Text × CacheEntry)
evict_if_full max_cache_size cache =
    if ltb (length cache) max_cache_size then cache else evict_first (max_cache_size / 5) cache

abbrev pub user_of : Response → Option CachedUser
user_of (answered true true (some user)) = some user
user_of _ = none

abbrev pub unless_empty : Option Text → Option Text
unless_empty (some []) = none
unless_empty value = value

-- `payload.userId ?? payload.sub`, which has to be there and not empty.
abbrev pub claimed_id : Payload → Option Text
claimed_id payload = unless_empty (elim payload.user_id [ some id ↦ some id | none ↦ payload.sub ])

abbrev pub decoded : Option Payload → Option (Text × Text)
decoded none = none
decoded (some payload) = elim (claimed_id payload) [
  | none ↦ none
  | some user_id ↦ some (user_id, payload.role)
]

module _ (verify : Text → Text → Option Payload) (config : IdCacheConfig) where
  abbrev pub decode_locally : Text → Option (Text × Text)
  decode_locally token = elim (unless_empty config.jwt_secret) [
    | none ↦ none
    | some secret ↦ decoded (verify token secret)
  ]

  abbrev pub fresh : ℕ → Option CacheEntry → Option CachedUser
  fresh now none = none
  fresh now (some entry) = if ltb now entry.expires_at then some entry.user else none

  abbrev pub cached : ℕ → Text → IdCache → Option CachedUser
  cached now token c = elim (decode_locally token) [
    | none ↦ none
    | some (user_id, _) ↦ fresh now (get_entry user_id c.cache)
  ]

  abbrev pub counted : Option CachedUser → IdCache → Option CachedUser × IdCache
  counted (some user) c = (some user, record c { hits = suc c.hits })
  counted none c = (none, record c { misses = suc c.misses })

  -- `resolveUser` up to the call of the identity service: the account, or none where it has to ask.
  abbrev pub look_up : ℕ → Text → IdCache → Option CachedUser × IdCache
  look_up now token c = counted (cached now token c) c

  abbrev pub store_user : ℕ → ℕ → Option CachedUser → IdCache → Option CachedUser × IdCache
  store_user evicted now none c = (none, c)
  store_user evicted now (some user) c = (
    some user,
    record c {
      cache =
          set_entry user.id (record { user = user; expires_at = now + cache_ttl config * 1000 })
            (evict_if_full (max_size config) (evict_expired evicted c.cache));
    },
  )

  -- The rest of `resolveUser`, on the cache as it is when the answer is there.
  abbrev pub remember : ℕ → ℕ → Response → IdCache → Option CachedUser × IdCache
  remember evicted now response c = store_user evicted now (user_of response) c

  abbrev pub unless_cached :
      ℕ → ℕ → Response → Option CachedUser × IdCache → Option CachedUser × IdCache
  unless_cached evicted now response (some user, c) = (some user, c)
  unless_cached evicted now response (none, c) = remember evicted now response c

  -- A call that no other one overlaps.
  abbrev pub resolve_user : ℕ → ℕ → ℕ → Text → Response → IdCache → Option CachedUser × IdCache
  resolve_user now evicted stored_at token response c =
      unless_cached evicted stored_at response (look_up now token c)

abbrev pub invalidate : Text → IdCache → IdCache
invalidate user_id c = record c { cache = delete (has_key user_id) c.cache }

abbrev pub clear : IdCache → IdCache
clear c = create_id_cache

abbrev pub stats : IdCache → ℕ × ℕ × ℕ
stats c = (length c.cache, c.hits, c.misses)
