-- ===== src/Auth/Recovery.antt =====
-- server/src/auth/recovery-code.ts and recovery-request.ts: a recovery code opens a request that Waits,
-- and its owner can cancel it until a new key confirms it (Confirm).
pub mod Confirm
pub mod Grounds
mod Checked
pub mod Confirmed
pub mod History
pub mod Renewed
pub mod Requests
use cernere.Base.{
  ltb, max, or_else, ℕ, suc, ◌+◌, ◌*◌, ◌==◌, ltb, leb, str_eq, ◌&&◌, ◌||◌, not, Bool, true, false,
  Option, none, some, List, [], ◌∷◌, ◌++◌, String, Uuid, if◌then◌else◌, is_some, is_none, find, any,
  select, update, Result, ok, err, ◌>>=◌, ◌>>◌, throw_if, or_throw, with_code, unauthorized,
  forbidden, conflict, AppError,
}
use cernere.Notify.Events.{
  recovery_cancelled, recovery_requested, SecurityEventDetail, no_detail, record_security_event,
}
use cernere.Auth.Tables.{
  AuthDb, User, UserRecoveryCode, RecoveryRequest, PasskeyCandidate, OpaqueText, recovery,
}
use cernere.Auth.Access.{find_user, open_recovery_of, is_admin}
use cernere.Auth.Candidates.{RegistrationInfo, insert_passkey_candidate, revoke_passkey_candidate}

abbrev pub recovery_wait_ms : ℕ
recovery_wait_ms = 24 * 60 * 60 * 1000

-- The key of the digests, as its name and the digest that it makes of a code's two parts.
pub record RecoveryCodeKey : Type 0 where
  pub key_id : OpaqueText
  pub digest : OpaqueText → OpaqueText → OpaqueText

pub record ParsedRecoveryCode : Type 0 where
  pub recovery_id : OpaqueText
  pub secret : OpaqueText

abbrev pub is_usable : UserRecoveryCode → Bool
is_usable c = is_none c.revoked_at && is_none c.used_at

abbrev checked_code :
    RecoveryCodeKey → ParsedRecoveryCode → Option UserRecoveryCode → Option UserRecoveryCode
checked_code key parsed none = none
checked_code key parsed (some row) =
    if row.key_id == key.key_id && row.secret_digest == key.digest parsed.recovery_id parsed.secret
    then some row
    else none

-- The code, if it has the form of one, is found by its identifier.
unfoldable pub find_active_recovery_code :
    AuthDb → RecoveryCodeKey → Option ParsedRecoveryCode → Option UserRecoveryCode
find_active_recovery_code db key none = none
find_active_recovery_code db key (some parsed) =
    checked_code key parsed
      (find (λ c. c.id == parsed.recovery_id && is_usable c) db.user_recovery_codes)

abbrev pub has_active_recovery_code : AuthDb → Uuid → Bool
has_active_recovery_code db user_id =
    any (λ c. c.user_id == user_id && is_usable c) db.user_recovery_codes

abbrev pub has_open_request : AuthDb → Uuid → Bool
has_open_request db user_id = any (open_recovery_of user_id) db.recovery_requests

-- One round of the loops that cancel requests and revoke their keys.
abbrev pub cancel_request : AuthDb → ℕ → RecoveryRequest → AuthDb
cancel_request db now r =
    revoke_passkey_candidate
      (record db {
        recovery_requests =
            update (λ x. x.id == r.id) (λ x. record x { cancelled_at = some now })
              db.recovery_requests;
      })
      r.candidate_id now

unfoldable pub cancel_requests : AuthDb → ℕ → List RecoveryRequest → AuthDb
unfolding revoke_passkey_candidate
cancel_requests db now [] = db
cancel_requests db now (r ∷ rs) = cancel_requests (cancel_request db now r) now rs

abbrev pub revoke_codes : AuthDb → Uuid → ℕ → AuthDb
revoke_codes db user_id now = record db {
  user_recovery_codes =
      update (λ c. c.user_id == user_id && is_usable c) (λ c. record c { revoked_at = some now })
        db.user_recovery_codes;
}

unfoldable pub invalidate_self_recovery : AuthDb → Uuid → ℕ → AuthDb
unfolding cancel_requests
invalidate_self_recovery db user_id now =
    let cancelled =
      cancel_requests (revoke_codes db user_id now) now
        (select (open_recovery_of user_id) db.recovery_requests) in
    record cancelled {
      users =
          update (λ u. u.id == user_id)
            (λ u. record u { recovery_generation = u.recovery_generation + 1 }) cancelled.users;
    }

-- `code` is the new random code.
unfoldable pub issue_recovery_code :
    AuthDb → Uuid → RecoveryCodeKey → ℕ → ParsedRecoveryCode → Result AuthDb
unfolding invalidate_self_recovery find_user
issue_recovery_code db user_id key now code = do
  let cleared = invalidate_self_recovery db user_id now
  user ← or_throw (find_user cleared user_id) unauthorized
  ok record cleared {
    user_recovery_codes =
        cleared.user_recovery_codes
        ++ record {
          id = code.recovery_id;
          user_id = user_id;
          secret_digest = key.digest code.recovery_id code.secret;
          key_id = key.key_id;
          generation = user.recovery_generation;
          created_at = now;
          revoked_at = none;
          used_at = none;
        }
          ∷ [];
  }

pub record RecoveryCeremony : Type 0 where
  pub challenge : OpaqueText
  pub user_id : Uuid
  pub recovery_code_id : OpaqueText
  pub auth_epoch : ℕ
  pub recovery_generation : ℕ

abbrev pub open_with_code : Uuid → OpaqueText → RecoveryRequest → Bool
open_with_code user_id code_id r = open_recovery_of user_id r && r.recovery_code_id == code_id

-- The transaction of `resolveRecoveryConflict`, which then throws.
unfoldable pub resolve_recovery_conflict : AuthDb → ℕ → Uuid → OpaqueText → AuthDb
unfolding cancel_requests revoke_passkey_candidate
resolve_recovery_conflict db now user_id code_id =
    if any (open_with_code user_id code_id) db.recovery_requests
    then (let cancelled =
          cancel_requests db now (select (open_with_code user_id code_id) db.recovery_requests) in
        record cancelled {
          user_recovery_codes =
              update (λ c. c.id == code_id) (λ c. record c { revoked_at = some now })
                cancelled.user_recovery_codes;
          log = record_security_event now cancelled.log user_id recovery_cancelled no_detail;
        })
    else db

abbrev pub begin_for : AuthDb → UserRecoveryCode → OpaqueText → Result User
begin_for db row challenge = do
  user ← or_throw (find_user db row.user_id) unauthorized
  throw_if (is_admin user || not (row.generation == user.recovery_generation)) unauthorized
  ok user

abbrev pub begun :
    AuthDb → ℕ → UserRecoveryCode → OpaqueText → Result User → Result RecoveryCeremony × AuthDb
begun db now row challenge (err e) = (err e, db)
begun db now row challenge (ok user) =
    if has_open_request db user.id
    then (err (with_code 409 "recovery_conflict"), resolve_recovery_conflict db now user.id row.id)
    else (
      ok record {
        challenge = challenge;
        user_id = user.id;
        recovery_code_id = row.id;
        auth_epoch = user.auth_epoch;
        recovery_generation = user.recovery_generation;
      },
      db,
    )

abbrev pub begin_with :
    AuthDb → ℕ → OpaqueText → Option UserRecoveryCode → Result RecoveryCeremony × AuthDb
begin_with db now challenge none = (err unauthorized, db)
begin_with db now challenge (some row) = begun db now row challenge (begin_for db row challenge)

unfoldable pub begin_recovery_with_code :
    AuthDb
    → ℕ
    → RecoveryCodeKey
    → Option ParsedRecoveryCode
    → OpaqueText
    → Result RecoveryCeremony × AuthDb
unfolding find_active_recovery_code find_user resolve_recovery_conflict
begin_recovery_with_code db now key code challenge =
    begin_with db now challenge (find_active_recovery_code db key code)

-- A call of `finishRecoveryWithCode`: what the store gives for the ceremony's key, what the library
-- verifies, and the new identifiers.
pub record FinishRecovery : Type 0 where
  pub ceremony : Option RecoveryCeremony
  pub verify : OpaqueText → Option RegistrationInfo
  pub device : String
  pub candidate_id : Uuid
  pub request_id : Uuid
  pub now : ℕ

abbrev pub refuses_request : AuthDb → RecoveryCeremony → User → UserRecoveryCode → Bool
refuses_request db ceremony user code =
    is_admin user
    || not (code.user_id == user.id)
    || is_some code.used_at
    || is_some code.revoked_at
    || not (user.auth_epoch == ceremony.auth_epoch)
    || not (user.recovery_generation == ceremony.recovery_generation)
    || not (code.generation == user.recovery_generation)
    || has_open_request db user.id

unfoldable pub finish_recovery_with_code : AuthDb → FinishRecovery → Result AuthDb
unfolding find_user insert_passkey_candidate
finish_recovery_with_code db c = do
  ceremony ← or_throw c.ceremony unauthorized
  info ← or_throw (c.verify ceremony.challenge) unauthorized
  user ← or_throw (find_user db ceremony.user_id) unauthorized
  code ←
      or_throw (find (λ r. r.id == ceremony.recovery_code_id) db.user_recovery_codes) unauthorized
  throw_if (refuses_request db ceremony user code) unauthorized
  let eligible_at = c.now + recovery_wait_ms
  let with_candidate =
      insert_passkey_candidate db c.candidate_id user.id recovery info (some c.device)
  ok record with_candidate {
    recovery_requests =
        db.recovery_requests
        ++ record {
          id = c.request_id;
          user_id = user.id;
          recovery_code_id = code.id;
          candidate_id = c.candidate_id;
          auth_epoch = user.auth_epoch;
          recovery_generation = user.recovery_generation;
          created_at = c.now;
          eligible_at = eligible_at;
          cancelled_at = none;
          frozen_at = none;
          completed_at = none;
        }
          ∷ [];
    log =
        record_security_event c.now db.log user.id recovery_requested
          (record { device = some c.device; eligible_at = some eligible_at; channel = none });
  }

unfoldable pub cancel_recovery_request : AuthDb → ℕ → Uuid → Uuid → Result AuthDb
unfolding revoke_passkey_candidate
cancel_recovery_request db now user_id request_id = do
  request ←
      or_throw (find (λ r. r.id == request_id && r.user_id == user_id) db.recovery_requests)
        conflict
  throw_if (is_some request.cancelled_at || is_some request.completed_at) conflict
  let cancelled =
      revoke_passkey_candidate
        (record db {
          recovery_requests =
              update (λ r. r.id == request.id) (λ r. record r { cancelled_at = some now })
                db.recovery_requests;
        })
        request.candidate_id now
  ok record cancelled {
    user_recovery_codes =
        update (λ c. c.id == request.recovery_code_id && is_none c.used_at)
          (λ c. record c { revoked_at = some now }) cancelled.user_recovery_codes;
    log = record_security_event now cancelled.log user_id recovery_cancelled no_detail;
  }

abbrev unfrozen_of : Uuid → RecoveryRequest → Bool
unfrozen_of user_id r = open_recovery_of user_id r && is_none r.frozen_at

unfoldable pub freeze_recovery_request : AuthDb → ℕ → Uuid → Uuid → Result (Bool × AuthDb)
unfolding find_user
freeze_recovery_request db now actor target = do
  admin ← or_throw (find_user db actor) forbidden
  throw_if (not (is_admin admin)) forbidden
  ok (
    any (unfrozen_of target) db.recovery_requests,
    record db {
      recovery_requests =
          update (unfrozen_of target) (λ r. record r { frozen_at = some now }) db.recovery_requests;
    },
  )

pub record OpenRecovery : Type 0 where
  pub request_id : Uuid
  pub created_at : ℕ
  pub eligible_at : ℕ
  pub device : Option String

abbrev shown_request : RecoveryRequest → PasskeyCandidate → OpenRecovery
shown_request r c = record {
  request_id = r.id;
  created_at = r.created_at;
  eligible_at = r.eligible_at;
  device = c.nickname;
}

-- The first row of the join of the open requests with their candidates.
unfoldable pub first_open : AuthDb → Uuid → List RecoveryRequest → Option OpenRecovery
first_open db user_id [] = none
first_open db user_id (r ∷ rest) =
    let later = first_open db user_id rest in
    if open_recovery_of user_id r
    then elim (find (λ c. c.id == r.candidate_id) db.passkey_candidates) [
      | none ↦ later
      | some c ↦ some (shown_request r c)
    ]
    else later

abbrev pub get_open_recovery_request : AuthDb → Uuid → Option OpenRecovery
get_open_recovery_request db user_id = first_open db user_id db.recovery_requests

-- `ORDER BY completed_at DESC LIMIT 1`.
unfoldable pub last_completed : Uuid → List RecoveryRequest → Option ℕ
last_completed user_id [] = none
last_completed user_id (r ∷ rest) =
    let later = last_completed user_id rest in
    if r.user_id == user_id && is_some r.completed_at
    then some (max (or_else r.completed_at 0) (or_else later 0))
    else later

unfoldable pub completed_recovery_within : AuthDb → ℕ → Uuid → ℕ → Bool
unfolding last_completed
completed_recovery_within db now user_id within_ms =
    elim (last_completed user_id db.recovery_requests) [
      | none ↦ false
      | some completed ↦ ltb now (completed + within_ms)
    ]
