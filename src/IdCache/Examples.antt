-- ===== src/IdCache/Examples.antt =====
-- Runs of the cache of packages/id-cache/src/cache.ts and of its middleware.
use cernere.Base.{
  ℕ, ◌≤◌, true, false, Option, none, some, List, [], ◌∷◌, length, any, find, update, delete, ◌≡◌,
  refl, arith,
}
use cernere.Consent.Keys.{Text, text, same_text, after_prefix}
use cernere.IdCache.{
  CachedUser, IdCacheConfig, IdCache, Payload, Response, answered, create_id_cache, remember,
  resolve_user, invalidate, evict_first, look_up,
}
use cernere.IdCache.Size.{Steps, stay, next, looks, remembers, invalidates, Steps-size}
use cernere.IdCache.Middleware.{Headers, identify, anonymous}

abbrev person : Text → CachedUser
person id = record { id = id; name = text "N"; email = text "e"; role = text "general" }

abbrev says : Text → Response
says id = answered true true (some (person id))

-- A token is the identifier that it names.
abbrev check : Text → Text → Option Payload
check token secret = some (record { user_id = none; sub = some token; role = text "general" })

abbrev config : ℕ → IdCacheConfig
config size = record {
  jwt_secret = some (text "s");
  cache_ttl_seconds = none;
  max_cache_size = some size;
}

abbrev answers : ℕ → List Text → IdCache → IdCache
answers size [] c = c
answers size (id ∷ ids) c = answers size ids (remember check (config size) 0 0 (says id) c).1

abbrev names : List Text
names = text "a" ∷ text "b" ∷ text "c" ∷ text "d" ∷ text "e" ∷ text "f" ∷ text "g" ∷ []

-- Seven answers leave five accounts where the size is five, and all seven where it is four.
five_full : length (answers 5 names create_id_cache).cache ≡ 5
unfolding any update delete same_text evict_first
five_full = refl

four_grows : length (answers 4 names create_id_cache).cache ≡ 7
unfolding any update delete same_text evict_first
four_grows = refl

-- The second call within five minutes is answered from the cache, the next one is not.
abbrev once_resolved : IdCache
once_resolved = (resolve_user check (config 5) 0 0 0 (text "a") (says (text "a")) create_id_cache).1

cached_hit : (look_up check (config 5) 299999 (text "a") once_resolved).0 ≡ some (person (text "a"))
unfolding any find update delete same_text evict_first
cached_hit = refl

cached_over : (look_up check (config 5) 300000 (text "a") once_resolved).0 ≡ none
unfolding any find update delete same_text evict_first
cached_over = refl

one_forgotten : Steps check (config 5) create_id_cache (invalidate (text "b") once_resolved)
unfolding any find
one_forgotten =
    next (looks 0 (text "a"))
      (next (remembers 0 0 (says (text "a"))) (next (invalidates (text "b")) stay))

Steps-size_example : length (invalidate (text "b") once_resolved).cache ≤ 5
Steps-size_example = Steps-size check (config 5) (omega arith) (omega arith) one_forgotten

-- Without a token nobody is identified, whatever the headers say, except during development.
abbrev claims_admin : Headers
claims_admin = record {
  authorization = none;
  x_user_id = some (text "a");
  x_user_role = some (text "admin");
}

header_ignored : identify check none none false claims_admin ≡ anonymous
header_ignored = refl

bearer_read :
    (identify check none
      (some (text "s"))
      false
      (record claims_admin { authorization = some (text "Bearer a") })).user_id
    ≡ text "a"
unfolding after_prefix
bearer_read = refl
