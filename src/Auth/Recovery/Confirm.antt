-- ===== src/Auth/Recovery/Confirm.antt =====
-- `confirmRecovery` of server/src/auth/recovery-request.ts: after the wait, the new key's own assertion
-- ends everything that the account had, in one transaction.
use cernere.Base.{
  ℕ, ◌+◌, ◌==◌, ltb, ◌&&◌, ◌||◌, not, Bool, Option, some, Uuid, is_some, is_none, find, update,
  delete, Result, ok, ◌>>=◌, ◌>>◌, throw_if, or_throw, with_code, unauthorized, forbidden,
}
use cernere.Notify.Events.{recovery_completed, device_detail, record_security_event}
use cernere.Auth.Tables.{
  AuthDb, User, UserRecoveryCode, RecoveryRequest, Passkey, PasskeyCandidate, OpaqueText, recovery,
}
use cernere.Auth.Access.{find_user, is_admin, live_device_of}
use cernere.Auth.Candidates.{
  same_purpose, is_open_candidate, lock_open_candidate, promote_passkey_candidate,
}

-- A call: what the store gives for the challenge's key, the credential that answers, the counter that
-- the library verifies for a challenge and a key, and the new identifier.
pub record ConfirmRecovery : Type 0 where
  pub challenge : Option OpaqueText
  pub credential_id : OpaqueText
  pub verify : OpaqueText → PasskeyCandidate → Option ℕ
  pub passkey_id : Uuid
  pub now : ℕ

abbrev pub find_candidate : AuthDb → OpaqueText → Option PasskeyCandidate
find_candidate db credential_id =
    find
      (λ c.
        c.key.credential_id == credential_id
        && same_purpose c.purpose recovery
        && is_open_candidate c)
      db.passkey_candidates

abbrev pub open_for : Uuid → RecoveryRequest → Bool
open_for candidate_id r =
    r.candidate_id == candidate_id && is_none r.cancelled_at && is_none r.completed_at

abbrev pub authorization_changed : User → RecoveryRequest → UserRecoveryCode → Bool
authorization_changed user request code =
    is_admin user
    || not (user.auth_epoch == request.auth_epoch)
    || not (user.recovery_generation == request.recovery_generation)
    || is_some code.used_at
    || is_some code.revoked_at

-- The row of the account after a recovery.
abbrev pub recovered : User → ℕ → User → User
recovered user now u = record u {
  auth_epoch = user.auth_epoch + 1;
  mfa_revision = user.mfa_revision + 1;
  recovery_generation = user.recovery_generation + 1;
  last_login_at = some now;
}

abbrev pub live_passkey_of : Uuid → Passkey → Bool
live_passkey_of user_id p = p.user_id == user_id && is_none p.revoked_at

-- The statements before the new key is promoted.
abbrev pub revoke_passkeys : AuthDb → ℕ → Uuid → AuthDb
revoke_passkeys db now user_id = record db {
  passkeys = update (live_passkey_of user_id) (λ p. record p { revoked_at = some now }) db.passkeys;
}

-- The statements after it.
abbrev pub close_recovery :
    AuthDb → ConfirmRecovery → User → RecoveryRequest → UserRecoveryCode → PasskeyCandidate → AuthDb
close_recovery db c user request code key = record db {
  passkeys =
      update (λ p. p.id == c.passkey_id) (λ p. record p { last_used_at = some c.now }) db.passkeys;
  device_credentials =
      update (live_device_of user.id)
        (λ d. record d { revoked_at = some c.now; revoked_reason = some "recovery" })
        db.device_credentials;
  refresh_sessions = delete (λ s. s.user_id == user.id) db.refresh_sessions;
  user_recovery_codes =
      update (λ x. x.id == code.id) (λ x. record x { used_at = some c.now }) db.user_recovery_codes;
  recovery_requests =
      update (λ r. r.id == request.id) (λ r. record r { completed_at = some c.now })
        db.recovery_requests;
  users = update (λ u. u.id == user.id) (recovered user c.now) db.users;
  log = record_security_event c.now db.log user.id recovery_completed (device_detail key.nickname);
}

-- The transaction, with the verified counter.
unfoldable pub confirm_in_transaction :
    AuthDb → ConfirmRecovery → PasskeyCandidate → ℕ → Result AuthDb
unfolding find_user lock_open_candidate promote_passkey_candidate
confirm_in_transaction db c candidate counter = do
  user ← or_throw (find_user db candidate.user_id) unauthorized
  request ← or_throw (find (open_for candidate.id) db.recovery_requests) unauthorized
  throw_if (not (request.user_id == user.id)) unauthorized
  throw_if (is_some request.frozen_at) forbidden
  throw_if (ltb c.now request.eligible_at) (with_code 409 "recovery_waiting")
  code ← or_throw (find (λ x. x.id == request.recovery_code_id) db.user_recovery_codes) unauthorized
  throw_if (authorization_changed user request code) unauthorized
  key ← or_throw (lock_open_candidate db candidate.id user.id recovery) unauthorized
  promoted ←
      promote_passkey_candidate (revoke_passkeys db c.now user.id)
        (record key { counter = counter }) c.now c.passkey_id
  ok (close_recovery promoted c user request code key)

unfoldable pub confirm_recovery : AuthDb → ConfirmRecovery → Result AuthDb
unfolding confirm_in_transaction
confirm_recovery db c = do
  challenge ← or_throw c.challenge unauthorized
  candidate ← or_throw (find_candidate db c.credential_id) unauthorized
  counter ← or_throw (c.verify challenge candidate) unauthorized
  confirm_in_transaction db c candidate counter
