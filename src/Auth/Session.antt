-- ===== src/Auth/Session.antt =====
-- server/src/auth/user-session-state.ts: which claims of a user session still hold.
pub mod Revoked
pub mod Recovered
use cernere.Base.{
  ℕ, ◌==◌, leb, str_eq, ◌&&◌, ◌||◌, not, Bool, true, false, Option, none, some, List, [], ◌∷◌,
  String, Uuid, is_none, or_else, opt_eq, find, any, Result, ok, err, ◌>>=◌, ◌>>◌, throw_if,
  or_throw, unauthorized, if◌then◌else◌,
}
use cernere.Auth.Tables.{AuthDb, User, DeviceCredential, OpaqueText}
use cernere.Auth.Access.{find_user, parse_access_status, is_locked}

-- What the authenticator proved, as `readAuthenticationEvidence` reads it.
pub record AuthenticationEvidence : Type 0 where
  pub amr : String
  pub auth_time : ℕ
  pub auth_time_ms : Option ℕ
  pub revision : ℕ

-- The claims of a token. The evidence is the one read from the token, if it is well formed.
pub record UserSessionState : Type 0 where
  pub sub : Uuid
  pub role : String
  pub auth_epoch : Option ℕ
  pub mfa_revision : Option ℕ
  pub device_id : Option Uuid
  pub authentication : Option AuthenticationEvidence

-- The surroundings of a check: the time, the configuration, the key that signs device tokens, and the
-- evidence stored with a device.
pub record SessionContext : Type 0 where
  pub now : ℕ
  pub device_sessions_enabled : Bool
  pub key_id : OpaqueText
  pub stored_evidence : DeviceCredential → Option AuthenticationEvidence

pub record CurrentUser : Type 0 where
  pub sub : Uuid
  pub role : String
  pub auth_epoch : ℕ
  pub mfa_revision : ℕ

unfoldable pub current_user_session_state : AuthDb → Uuid → Result CurrentUser
unfolding find_user
current_user_session_state db user_id = do
  user ← or_throw (find_user db user_id) unauthorized
  throw_if (is_locked (parse_access_status user.access_status)) unauthorized
  ok record {
    sub = user.id;
    role = user.role;
    auth_epoch = user.auth_epoch;
    mfa_revision = user.mfa_revision;
  }

-- The comparison of `claims.mfaRevision` where it is there.
abbrev mfa_moved : Option ℕ → ℕ → Bool
mfa_moved none revision = false
mfa_moved (some r) revision = not (r == revision)

abbrev evidence_moved : Option AuthenticationEvidence → ℕ → Bool
evidence_moved none revision = false
evidence_moved (some e) revision = not (e.revision == revision)

abbrev pub claims_moved : UserSessionState → CurrentUser → Bool
claims_moved claims user =
    not (or_else claims.auth_epoch 0 == user.auth_epoch)
    || not (str_eq claims.role user.role)
    || mfa_moved claims.mfa_revision user.mfa_revision

-- The root passkey of a device is its account's and is not revoked: the inner join.
abbrev root_is_live : AuthDb → DeviceCredential → Bool
root_is_live db d =
    any
      (λ p. opt_eq (some p.id) d.root_passkey_id && p.user_id == d.user_id && is_none p.revoked_at)
      db.passkeys

unfoldable pub find_device : AuthDb → Uuid → Uuid → Option DeviceCredential
find_device db device_id user_id =
    find
      (λ d. d.id == device_id && d.user_id == user_id && is_none d.revoked_at && root_is_live db d)
      db.device_credentials

-- The evidence stored with the device is of the current revision, and is the token's.
abbrev evidence_matches : Option AuthenticationEvidence → Option AuthenticationEvidence → ℕ → Bool
evidence_matches (some original) (some e) revision =
    original.revision == revision
    && original.auth_time == e.auth_time
    && opt_eq original.auth_time_ms e.auth_time_ms
    && str_eq original.amr e.amr
evidence_matches _ _ revision = false

abbrev device_holds : SessionContext → UserSessionState → CurrentUser → DeviceCredential → Bool
device_holds ctx claims user row =
    row.token_key_id == ctx.key_id
    && not (leb row.expires_at ctx.now)
    && opt_eq row.auth_epoch (some user.auth_epoch)
    && evidence_matches (ctx.stored_evidence row) claims.authentication user.mfa_revision

unfoldable pub assert_device_current :
    AuthDb → SessionContext → UserSessionState → CurrentUser → Option Uuid → Result (Unit {0})
unfolding find_device
assert_device_current db ctx claims user none = ok tt
assert_device_current db ctx claims user (some device_id) = do
  throw_if (not ctx.device_sessions_enabled) unauthorized
  row ← or_throw (find_device db device_id user.sub) unauthorized
  throw_if (not (device_holds ctx claims user row)) unauthorized
  ok tt

unfoldable pub assert_user_session_current :
    AuthDb → SessionContext → UserSessionState → Result (Unit {0})
assert_user_session_current db ctx claims = do
  user ← current_user_session_state db claims.sub
  throw_if (claims_moved claims user) unauthorized
  throw_if (evidence_moved claims.authentication user.mfa_revision) unauthorized
  assert_device_current db ctx claims user claims.device_id
