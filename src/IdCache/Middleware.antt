-- ===== src/IdCache/Middleware.antt =====
-- packages/id-cache/src/middleware.ts: the account of a request, from its headers.
use cernere.Base.{Bool, true, false, Option, none, some, or_else}
use cernere.Consent.Keys.{Text, text, after_prefix}
use cernere.IdCache.{CachedUser, Payload, unless_empty, decoded}

pub record Headers : Type 0 where
  pub authorization : Option Text
  pub x_user_id : Option Text
  pub x_user_role : Option Text

-- What is set on the context of the request.
pub record Identified : Type 0 where
  pub user_id : Text
  pub user_role : Text
  pub user : Option CachedUser

-- `startsWith("Bearer ")`, with what follows.
abbrev pub bearer : Option Text → Option Text
bearer none = none
bearer (some header) = after_prefix (text "Bearer ") header

abbrev pub anonymous : Identified
anonymous = record { user_id = text "anonymous"; user_role = text "general"; user = none }

abbrev pub from_cache : Option CachedUser → Identified
from_cache none = anonymous
from_cache (some user) = record { user_id = user.id; user_role = user.role; user = some user }

abbrev pub from_token : Option (Text × Text) → Identified
from_token none = anonymous
from_token (some (user_id, role)) = record { user_id = user_id; user_role = role; user = none }

-- The headers that name an account during development.
abbrev pub from_headers : Headers → Identified
from_headers headers = record {
  user_id = or_else (unless_empty headers.x_user_id) (text "anonymous");
  user_role = or_else (unless_empty headers.x_user_role) (text "general");
  user = none;
}

-- The cache, where there is one, is what its `resolveUser` gives for a token.
module _ (verify : Text → Text → Option Payload) where
  abbrev pub verify_locally : Option Text → Text → Identified
  verify_locally none token = anonymous
  verify_locally (some secret) token = from_token (decoded (verify token secret))

  abbrev pub identify_token : Option (Text → Option CachedUser) → Option Text → Text → Identified
  identify_token (some resolve_user) jwt_secret token = from_cache (resolve_user token)
  identify_token none jwt_secret token = verify_locally (unless_empty jwt_secret) token

  abbrev pub without_token : Bool → Headers → Identified
  without_token true headers = from_headers headers
  without_token false headers = anonymous

  abbrev pub identify :
      Option (Text → Option CachedUser) → Option Text → Bool → Headers → Identified
  identify id_cache jwt_secret is_dev headers = elim (bearer headers.authorization) [
    | some token ↦ identify_token id_cache jwt_secret token
    | none ↦ without_token is_dev headers
  ]
