-- ===== src/Auth/Recovery/Grounds.antt =====
-- What the tests of `confirmRecovery` in server/src/auth/recovery-request.ts mean for the rows they read.
use cernere.Base.{
  absent, ◌==◌, ==_iff, str_eq_iff, String, ◌≡◌, ◌≢◌, false, none, some, Uuid, In, find, find-In,
  find-test, arith,
}
use cernere.Auth.Tables.{
  AuthDb, User, UserRecoveryCode, RecoveryRequest, PasskeyCandidate, recovery, OpaqueText,
}
use cernere.Auth.Candidates.Waiting.{IsWaitingKey, missing, and_parts, waiting}
use cernere.Auth.Recovery.Confirm.{find_candidate, open_for, authorization_changed}

pub record IsOpenRequest (db : AuthDb) (candidate_id : Uuid) (request : RecoveryRequest)
    : Type 0 where
  pub listed : In request db.recovery_requests
  pub for_candidate : request.candidate_id ≡ candidate_id
  pub not_cancelled : request.cancelled_at ≡ none
  pub not_completed : request.completed_at ≡ none

-- The account and the code are as they were when the request was made.
pub record IsUnchanged (user : User) (request : RecoveryRequest) (code : UserRecoveryCode)
    : Type 0 where
  pub no_admin : ◌≢◌ {A = String} user.role "admin"
  pub epoch : user.auth_epoch ≡ request.auth_epoch
  pub generation : user.recovery_generation ≡ request.recovery_generation
  pub not_used : code.used_at ≡ none
  pub not_revoked : code.revoked_at ≡ none

pub find_candidate-IsWaitingKey :
    (db : AuthDb) (credential_id : OpaqueText) (key : PasskeyCandidate)
    → find_candidate db credential_id ≡ some key
    → (key.key.credential_id ≡ credential_id) × IsWaitingKey db recovery key
find_candidate-IsWaitingKey db credential_id key f =
    let (h, o) = and_parts _ _ (find-test _ _ f) in
    let (e, p) = and_parts (key.key.credential_id == credential_id) _ h in
    ((==_iff _ _).0 e, waiting db recovery key (find-In _ _ f) p o)

pub open_for-IsOpenRequest :
    (db : AuthDb) (candidate_id : Uuid) (request : RecoveryRequest)
    → find (open_for candidate_id) db.recovery_requests ≡ some request
    → IsOpenRequest db candidate_id request
open_for-IsOpenRequest db candidate_id request f =
    let (both, d) = and_parts _ _ (find-test (open_for candidate_id) _ f) in
    let (e, n) = and_parts (request.candidate_id == candidate_id) _ both in
    record {
      listed = find-In _ _ f;
      for_candidate = (==_iff _ _).0 e;
      not_cancelled = missing request.cancelled_at n;
      not_completed = missing request.completed_at d;
    }

pub authorization_changed-IsUnchanged :
    (user : User) (request : RecoveryRequest) (code : UserRecoveryCode)
    → authorization_changed user request code ≡ false
    → IsUnchanged user request code
authorization_changed-IsUnchanged user request code h = record {
  no_admin = λ e. ground (arith, h, (str_eq_iff user.role "admin").1 e);
  epoch = (==_iff _ _).0 (ground (arith, h));
  generation = (==_iff _ _).0 (ground (arith, h));
  not_used = absent code.used_at (ground (arith, h));
  not_revoked = absent code.revoked_at (ground (arith, h));
}
