-- ===== src/Auth/Devices.antt =====
-- server/src/auth/device-rotation.ts, and what server/src/auth/device-credential.ts (Sessions) writes for its decisions: a
-- device presents its secret and gets the next one, and a retry gets the same answer.
pub mod Retried
pub mod Sessions
use cernere.Base.{
  ℕ, ◌+◌, ◌-◌, ◌*◌, ◌==◌, ltb, leb, opt_eq, str_eq, is_none, is_some, or_else, not, ◌&&◌, ◌||◌,
  Bool, true, false, Option, none, some, List, String, Uuid, if◌then◌else◌, find, any, count,
  delete, update, Result, ok, err, ◌>>=◌, ◌>>◌, throw_if, or_throw, with_code, AppError,
}
use cernere.Auth.Tables.{AuthDb, User, DeviceCredential, Passkey, OpaqueText}

pub data DeviceRotationErrorCode : Type 0 where
  missing invalid expired revoked rotation_conflict passkey_required : DeviceRotationErrorCode

pub record DeviceCredentialState : Type 0 where
  pub id : Uuid
  pub generation : ℕ
  pub current_secret_hash : OpaqueText
  pub previous_secret_hash : Option OpaqueText
  pub previous_valid_until : Option ℕ
  pub last_rotation_id : Option String
  pub last_rotated_at : Option ℕ
  pub expires_at : ℕ
  pub revoked_at : Option ℕ

-- The keyed digests: of a secret, and of the next secret of a generation and a rotation.
pub record RotationKeys : Type 0 where
  pub compute_secret_hash : Uuid → OpaqueText → OpaqueText
  pub derive_next_secret : Uuid → ℕ → String → OpaqueText

pub record RotationInput : Type 0 where
  pub presented_secret : OpaqueText
  pub rotation_id : String
  pub now : ℕ

pub record Rotation : Type 0 where
  pub secret : OpaqueText
  pub next_generation : ℕ
  pub next_secret_hash : OpaqueText
  pub previous_valid_until : ℕ

pub data RotationDecision : Type 0 where
  keep : OpaqueText → RotationDecision
  replay : OpaqueText → RotationDecision
  rotates : Rotation → RotationDecision
  refuses : DeviceRotationErrorCode → RotationDecision

abbrev pub rotation_grace_ms : ℕ
rotation_grace_ms = 30000

unfoldable pub rotate : DeviceCredentialState → RotationInput → RotationKeys → RotationDecision
rotate state input keys =
    let next_generation = state.generation + 1 in
    let secret = keys.derive_next_secret state.id next_generation input.rotation_id in
    rotates record {
      secret = secret;
      next_generation = next_generation;
      next_secret_hash = keys.compute_secret_hash state.id secret;
      previous_valid_until = input.now + rotation_grace_ms;
    }

-- `state.lastRotatedAt && now - state.lastRotatedAt < ROTATION_GRACE_MS`.
abbrev pub just_rotated : Option ℕ → ℕ → Bool
just_rotated none now = false
just_rotated (some t) now = ltb (now - t) rotation_grace_ms

abbrev pub within_grace : Option ℕ → ℕ → Bool
within_grace none now = false
within_grace (some end) now = ltb now end

abbrev pub same_rotation : Option String → String → Bool
same_rotation none id = false
same_rotation (some last) id = not (str_eq last "") && str_eq last id

unfoldable pub decide_rotation :
    DeviceCredentialState → RotationInput → RotationKeys → RotationDecision
decide_rotation state input keys =
    if is_some state.revoked_at
    then refuses revoked
    else if leb state.expires_at input.now
    then refuses expired
    else let presented = keys.compute_secret_hash state.id input.presented_secret in
      if presented == state.current_secret_hash
      then if just_rotated state.last_rotated_at input.now
        then keep input.presented_secret
        else rotate state input keys
      else if within_grace state.previous_valid_until input.now
          && opt_eq state.previous_secret_hash (some presented)
      then if same_rotation state.last_rotation_id input.rotation_id
        then replay
            (keys.derive_next_secret state.id state.generation (or_else state.last_rotation_id ""))
        else refuses rotation_conflict
      else refuses passkey_required

-- The columns of the row that only rotation uses.
pub record RotationColumns : Type 0 where
  pub id : Uuid
  pub generation : ℕ
  pub current_secret_hash : OpaqueText
  pub previous_secret_hash : Option OpaqueText
  pub previous_valid_until : Option ℕ
  pub last_rotation_id : Option String
  pub last_rotated_at : Option ℕ
  pub last_used_at : ℕ

pub record DeviceDb : Type 0 where
  pub db : AuthDb
  pub rotations : List RotationColumns

abbrev pub state_from : DeviceCredential → RotationColumns → DeviceCredentialState
state_from row r = record {
  id = row.id;
  generation = r.generation;
  current_secret_hash = r.current_secret_hash;
  previous_secret_hash = r.previous_secret_hash;
  previous_valid_until = r.previous_valid_until;
  last_rotation_id = r.last_rotation_id;
  last_rotated_at = r.last_rotated_at;
  expires_at = row.expires_at;
  revoked_at = row.revoked_at;
}

abbrev pub to_rotation_error : DeviceRotationErrorCode → AppError
to_rotation_error rotation_conflict = with_code 409 "DEVICE_ROTATION_CONFLICT"
to_rotation_error missing = with_code 401 "DEVICE_CREDENTIAL_MISSING"
to_rotation_error invalid = with_code 401 "DEVICE_CREDENTIAL_INVALID"
to_rotation_error expired = with_code 401 "DEVICE_CREDENTIAL_EXPIRED"
to_rotation_error revoked = with_code 401 "DEVICE_CREDENTIAL_REVOKED"
to_rotation_error passkey_required = with_code 401 "PASSKEY_REQUIRED"

-- What the transaction writes for a decision, and the secret that it answers with.
abbrev pub written : RotationInput → RotationDecision → RotationColumns → RotationColumns
written input (rotates next) r = record r {
  generation = next.next_generation;
  current_secret_hash = next.next_secret_hash;
  previous_secret_hash = some r.current_secret_hash;
  previous_valid_until = some next.previous_valid_until;
  last_rotation_id = some input.rotation_id;
  last_rotated_at = some input.now;
  last_used_at = input.now;
}
written input _ r = record r { last_used_at = input.now }

abbrev pub answer_of : RotationDecision → Result OpaqueText
answer_of (keep secret) = ok secret
answer_of (replay secret) = ok secret
answer_of (rotates next) = ok next.secret
answer_of (refuses code) = err (to_rotation_error code)
