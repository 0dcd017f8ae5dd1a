-- ===== src/Auth/Recovery/Confirmed.antt =====
-- When `confirmRecovery` of server/src/auth/recovery-request.ts confirms, and the tables that it leaves.
use cernere.Base.{
  ℕ, ◌≤◌, ◌==◌, ==_iff, ◌≡◌, ◌&&◌, none, some, [], ◌∷◌, ◌++◌, In, find, update, is_none, delete,
  find-In, find-test, ◌+◌, ok,
}
use cernere.Auth.Tables.{
  AuthDb, User, UserRecoveryCode, RecoveryRequest, PasskeyCandidate, recovery, OpaqueText,
}
use cernere.Auth.Access.{find_user}
use cernere.Auth.Recovery.Confirm.{confirm_recovery, ConfirmRecovery, find_candidate, open_for}
use cernere.Notify.Events.{recovery_completed, device_detail, record_security_event}
use cernere.Auth.Access.Admins.{find_user-id}
use cernere.Auth.Candidates.Waiting.{IsWaitingKey, lock_open_candidate-IsWaitingKey}
use cernere.Auth.Recovery.Grounds.{
  IsOpenRequest, IsUnchanged, find_candidate-IsWaitingKey, open_for-IsOpenRequest,
  authorization_changed-IsUnchanged,
}
use cernere.Auth.Recovery.Checked.{Checked, confirm_recovery-Checked}

-- What a confirmation has checked, each test written out as what it says of the rows, and the
-- tables that it leaves.
pub record Confirmation (db db' : AuthDb) (c : ConfirmRecovery) : Type 0 where
  pub challenge : OpaqueText
  pub has_challenge : c.challenge ≡ some challenge
  pub candidate : PasskeyCandidate
  pub candidate_found : find_candidate db c.credential_id ≡ some candidate
  pub credential : candidate.key.credential_id ≡ c.credential_id
  pub candidate_waits : IsWaitingKey db recovery candidate
  pub counter : ℕ
  pub verified : c.verify challenge candidate ≡ some counter
  pub user : User
  pub user_found : find_user db candidate.user_id ≡ some user
  pub own_candidate : user.id ≡ candidate.user_id
  pub request : RecoveryRequest
  pub request_found : find (open_for candidate.id) db.recovery_requests ≡ some request
  pub request_open : IsOpenRequest db candidate.id request
  pub is_owner : request.user_id ≡ user.id
  pub not_frozen : request.frozen_at ≡ none
  pub waited : request.eligible_at ≤ c.now
  pub code : UserRecoveryCode
  pub code_listed : In code db.user_recovery_codes
  pub code_of_request : code.id ≡ request.recovery_code_id
  pub unchanged : IsUnchanged user request code
  pub key : PasskeyCandidate
  pub key_of_candidate : (key.id ≡ candidate.id) × (key.user_id ≡ user.id)
  pub key_waits : IsWaitingKey db recovery key
  pub applied : db' ≡ record db {
    passkeys =
        update
          (λ p. p.id == c.passkey_id)
          (λ p. record p { last_used_at = some c.now })
          (update
              (λ p. p.user_id == user.id && is_none p.revoked_at)
              (λ p. record p { revoked_at = some c.now })
              db.passkeys
            ++ record {
              id = c.passkey_id;
              user_id = key.user_id;
              key = key.key;
              counter = counter;
              nickname = key.nickname;
              created_at = c.now;
              last_used_at = none;
              revoked_at = none;
            }
              ∷ []);
    passkey_candidates =
        update
          (λ x. x.id == key.id)
          (λ x. record x { promoted_at = some c.now })
          db.passkey_candidates;
    device_credentials =
        update
          (λ d. d.user_id == user.id && is_none d.revoked_at)
          (λ d. record d { revoked_at = some c.now; revoked_reason = some "recovery" })
          db.device_credentials;
    refresh_sessions = delete (λ s. s.user_id == user.id) db.refresh_sessions;
    user_recovery_codes =
        update
          (λ x. x.id == code.id)
          (λ x. record x { used_at = some c.now })
          db.user_recovery_codes;
    recovery_requests =
        update
          (λ r. r.id == request.id)
          (λ r. record r { completed_at = some c.now })
          db.recovery_requests;
    users =
        update
          (λ u. u.id == user.id)
          (λ u. record u {
            auth_epoch = user.auth_epoch + 1;
            mfa_revision = user.mfa_revision + 1;
            recovery_generation = user.recovery_generation + 1;
            last_login_at = some c.now;
          })
          db.users;
    log =
        record_security_event c.now db.log user.id recovery_completed (device_detail key.nickname);
  }

Checked-Confirmation :
    (db : AuthDb) (c : ConfirmRecovery) {db' : AuthDb} → Checked db db' c → Confirmation db db' c
Checked-Confirmation db c k =
    let (credential, waits) =
      find_candidate-IsWaitingKey db c.credential_id k.candidate k.candidate_found in
    let (key_id, owner, open_key) =
      lock_open_candidate-IsWaitingKey db k.candidate.id k.user.id recovery k.key k.key_open in
    record {
      challenge = k.challenge;
      has_challenge = k.has_challenge;
      candidate = k.candidate;
      candidate_found = k.candidate_found;
      credential = credential;
      candidate_waits = waits;
      counter = k.counter;
      verified = k.verified;
      user = k.user;
      user_found = k.user_found;
      own_candidate = find_user-id db k.candidate.user_id k.user_found;
      request = k.request;
      request_found = k.request_found;
      request_open = open_for-IsOpenRequest db k.candidate.id k.request k.request_found;
      is_owner = k.is_owner;
      not_frozen = k.not_frozen;
      waited = k.waited;
      code = k.code;
      code_listed =
          find-In (λ x. x.id == k.request.recovery_code_id) db.user_recovery_codes k.code_found;
      code_of_request =
          (==_iff k.code.id k.request.recovery_code_id).0 (
            find-test (λ x. x.id == k.request.recovery_code_id) db.user_recovery_codes
              k.code_found);
      unchanged = authorization_changed-IsUnchanged k.user k.request k.code k.unchanged;
      key = k.key;
      key_of_candidate = (key_id, owner);
      key_waits = open_key;
      applied = k.applied;
    }

-- A recovery that is confirmed had a challenge, a waiting candidate key with the credential and a
-- verified assertion, an open request of the candidate's account that is not frozen and whose wait
-- is over, an account that is no administrator and has the epoch and the generation of the request,
-- and the request's code, neither used nor revoked; and it leaves the tables that are written out.
pub confirm_recovery-Confirmation :
    (db : AuthDb) (c : ConfirmRecovery) {db' : AuthDb}
    → confirm_recovery db c ≡ ok db'
    → Confirmation db db' c
confirm_recovery-Confirmation db c h = Checked-Confirmation db c (confirm_recovery-Checked db c h)
