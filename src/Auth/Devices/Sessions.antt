-- ===== src/Auth/Devices/Sessions.antt =====
-- The sessions of devices in server/src/auth/device-credential.ts: rotating, resolving and revoking.
use cernere.Base.{
  ℕ, ◌+◌, ◌==◌, opt_eq, is_none, is_some, not, ◌&&◌, ◌||◌, Bool, true, false, Option, none, some,
  String, Uuid, find, any, count, delete, update, Result, ok, ◌>>=◌, ◌>>◌, throw_if, or_throw,
  with_code, AppError,
}
use cernere.Notify.Events.{session_revoke_all, no_detail, record_security_event}
use cernere.Auth.Tables.{AuthDb, User, DeviceCredential, OpaqueText}
use cernere.Auth.Access.{find_user, live_device_of}
use cernere.Auth.Devices.{
  RotationKeys, RotationInput, within_grace, decide_rotation, RotationColumns, DeviceDb, state_from,
  written, answer_of,
}

pub record DeviceSessionResult : Type 0 where
  pub user_id : Uuid
  pub role : String
  pub device_id : Uuid
  pub secret : OpaqueText
  pub expires_at : ℕ
  pub auth_epoch : ℕ

-- A parsed token.
pub record ParsedDeviceToken : Type 0 where
  pub device_id : Uuid
  pub secret : OpaqueText

abbrev invalid : AppError
invalid = with_code 401 "DEVICE_CREDENTIAL_INVALID"

abbrev root_passkey_lives : AuthDb → DeviceCredential → Bool
root_passkey_lives db row =
    is_some row.root_passkey_id
    && is_some (
        find
          (λ p.
            opt_eq row.root_passkey_id (some p.id)
            && p.user_id == row.user_id
            && is_none p.revoked_at)
          db.passkeys)

-- Whether the account, its passkey and the key are still those that the row was issued under.
-- `evidence` reads the revision that the row's authentication names.
unfoldable pub still_authentic :
    AuthDb → OpaqueText → (DeviceCredential → Option ℕ) → User → DeviceCredential → Bool
still_authentic db key_id evidence user row =
    root_passkey_lives db row
    && opt_eq row.auth_epoch (some user.auth_epoch)
    && opt_eq (evidence row) (some user.mfa_revision)
    && row.token_key_id == key_id

unfoldable pub rotate_device_session :
    DeviceDb
    → RotationKeys
    → OpaqueText
    → (DeviceCredential → Option ℕ)
    → Option ParsedDeviceToken
    → String
    → ℕ
    → Result (DeviceSessionResult × DeviceDb)
rotate_device_session store keys key_id evidence token rotation_id now = do
  parsed ← or_throw token (with_code 401 "DEVICE_CREDENTIAL_MISSING")
  row ← or_throw (find (λ d. d.id == parsed.device_id) store.db.device_credentials) invalid
  columns ← or_throw (find (λ r. r.id == parsed.device_id) store.rotations) invalid
  user ← or_throw (find_user store.db row.user_id) (with_code 401 "PASSKEY_REQUIRED")
  throw_if (not (still_authentic store.db key_id evidence user row))
      (with_code 401 "PASSKEY_REQUIRED")
  let input : RotationInput = record {
    presented_secret = parsed.secret;
    rotation_id = rotation_id;
    now = now;
  }
  let decision = decide_rotation (state_from row columns) input keys
  secret ← answer_of decision
  ok (
    record {
      user_id = row.user_id;
      role = user.role;
      device_id = row.id;
      secret = secret;
      expires_at = row.expires_at;
      auth_epoch = user.auth_epoch;
    },
    record store {
      rotations = update (λ r. r.id == parsed.device_id) (written input decision) store.rotations;
    },
  )

abbrev presents : RotationKeys → ℕ → RotationColumns → ParsedDeviceToken → Bool
presents keys now r parsed =
    let presented = keys.compute_secret_hash r.id parsed.secret in
    presented == r.current_secret_hash
    || (opt_eq r.previous_secret_hash (some presented) && within_grace r.previous_valid_until now)

abbrev owner_if : Bool → DeviceCredential → Option (Uuid × Uuid)
owner_if true row = some (row.user_id, row.id)
owner_if false row = none

-- For a logout: who owns a token, also of a row that is revoked or has expired.
unfoldable pub resolve_device_session :
    DeviceDb → RotationKeys → Option ParsedDeviceToken → ℕ → Option (Uuid × Uuid)
resolve_device_session store keys none now = none
resolve_device_session store keys (some parsed) now =
    let row = find (λ d. d.id == parsed.device_id) store.db.device_credentials in
    let columns = find (λ r. r.id == parsed.device_id) store.rotations in
    elim row [
      | none ↦ none
      | some d ↦ elim columns [ none ↦ none | some r ↦ owner_if (presents keys now r parsed) d ]
    ]

abbrev revoked_row : ℕ → String → DeviceCredential → DeviceCredential
revoked_row now reason d = record d { revoked_at = some now; revoked_reason = some reason }

-- The result says whether a row was revoked.
unfoldable pub revoke_device_credential : AuthDb → ℕ → Uuid → Uuid → String → Bool × AuthDb
revoke_device_credential db now user_id device_id reason =
    let revoked : DeviceCredential → Bool = λ d. d.id == device_id && live_device_of user_id d in
    (
      any revoked db.device_credentials,
      record db {
        device_credentials = update revoked (revoked_row now reason) db.device_credentials;
      },
    )

-- The result counts the rows that were revoked.
unfoldable pub revoke_all_device_credentials : AuthDb → ℕ → Uuid → String → ℕ × AuthDb
revoke_all_device_credentials db now user_id reason = (
  count (live_device_of user_id) db.device_credentials,
  record db {
    device_credentials =
        update (live_device_of user_id) (revoked_row now reason) db.device_credentials;
    users =
        update (λ u. u.id == user_id)
          (λ u. record u { auth_epoch = u.auth_epoch + 1; mfa_revision = u.mfa_revision + 1 })
          db.users;
    refresh_sessions = delete (λ s. s.user_id == user_id) db.refresh_sessions;
    log = record_security_event now db.log user_id session_revoke_all no_detail;
  },
)
