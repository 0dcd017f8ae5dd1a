-- ===== src/Auth/Access.antt =====
-- server/src/auth/user-access.ts: an account Waits for approval, is active or is locked, and an active
-- administrator decides.
pub mod Admins
pub mod Locking
use cernere.Base.{
  ℕ, ◌+◌, ◌==◌, str_eq, ◌&&◌, not, Bool, true, false, Option, none, some, List, [], ◌∷◌, ◌++◌,
  String, Uuid, if◌then◌else◌, is_some, is_none, find, any, update, delete, Result, ok, err, ◌>>=◌,
  ◌>>◌, throw_if, or_throw, with_code, unauthorized, forbidden, not_found, conflict, bad_request,
  Option-cases,
}
use mathlib.Core.Option
use cernere.Notify.Events.{
  SecurityEventKind, access_approved, access_rejected, access_locked, access_unlocked, no_detail,
  record_security_event,
}
use cernere.Auth.Tables.{
  AuthDb, User, DeviceCredential, DevicePairing, RecoveryRequest, RegistrationRequest, RequestState,
  open_request, withdrawn, approved, rejected, AccessDecisionRow,
}

pub data AccessStatus : Type 0 where
  pending active locked : AccessStatus

-- An unknown status counts as locked.
unfoldable pub parse_access_status : String → AccessStatus
parse_access_status s =
    if str_eq s "pending" then pending else if str_eq s "active" then active else locked

abbrev pub status_text : AccessStatus → String
status_text pending = "pending"
status_text active = "active"
status_text locked = "locked"

abbrev pub is_active : AccessStatus → Bool
is_active active = true
is_active _ = false

abbrev pub is_pending : AccessStatus → Bool
is_pending pending = true
is_pending _ = false

abbrev pub is_locked : AccessStatus → Bool
is_locked locked = true
is_locked _ = false

unfoldable pub find_user : AuthDb → Uuid → Option User
find_user db id = find (λ u. u.id == id) db.users

unfoldable pub get_access_status : AuthDb → Uuid → Result AccessStatus
unfolding find_user
get_access_status db user_id = do
  user ← or_throw (find_user db user_id) unauthorized
  ok (parse_access_status user.access_status)

abbrev pub active_only : AccessStatus → Result (Unit {0})
active_only active = ok tt
active_only pending = err (with_code 403 "approval_required")
active_only locked = err (with_code 403 "account_locked")

unfoldable pub require_active_user : AuthDb → Uuid → Result (Unit {0})
require_active_user db user_id = do status ← get_access_status db user_id; active_only status

abbrev is_open : RequestState → Bool
is_open open_request = true
is_open _ = false

abbrev pub is_open_of : Uuid → RegistrationRequest → Bool
is_open_of user_id r = r.user_id == user_id && is_open r.state

-- `request_id` is fresh; the purpose has passed its schema (1 to 500 characters).
unfoldable pub apply_for_access : AuthDb → Uuid → String → Uuid → Result AuthDb
unfolding find_user
apply_for_access db user_id purpose request_id = do
  user ← or_throw (find_user db user_id) conflict
  throw_if (not (is_pending (parse_access_status user.access_status))) conflict
  throw_if (any (is_open_of user_id) db.registration_requests) conflict
  ok (record db {
    registration_requests =
        db.registration_requests
        ++ record {
          id = request_id;
          user_id = user_id;
          state = open_request;
          purpose = purpose;
          decided_at = none;
        }
          ∷ [];
  })

unfoldable pub withdraw_access_request : AuthDb → ℕ → Uuid → Bool × AuthDb
withdraw_access_request db now user_id = (
  any (is_open_of user_id) db.registration_requests,
  record db {
    registration_requests =
        update (is_open_of user_id) (λ r. record r { state = withdrawn; decided_at = some now })
          db.registration_requests;
  },
)

pub data AccessDecision : Type 0 where
  approve reject lock unlock : AccessDecision

pub record Transition : Type 0 where
  pub from : AccessStatus → Bool
  pub to : AccessStatus
  pub event : SecurityEventKind

abbrev pub transitions : AccessDecision → Transition
transitions approve = record { from = is_pending; to = active; event = access_approved }
transitions reject = record { from = is_pending; to = locked; event = access_rejected }
transitions lock = record { from = λ s. not (is_locked s); to = locked; event = access_locked }
transitions unlock = record { from = is_locked; to = active; event = access_unlocked }

pub record DecisionInput : Type 0 where
  pub user_id : Uuid
  pub decision : AccessDecision
  pub expected_revision : ℕ
  pub reason_code : String

abbrev pub is_admin : User → Bool
is_admin u = str_eq u.role "admin"

abbrev pub is_active_admin : User → Bool
is_active_admin u = is_admin u && is_active (parse_access_status u.access_status)

unfoldable pub require_active_admin : AuthDb → Uuid → Result (Unit {0})
unfolding find_user
require_active_admin db actor = do
  user ← or_throw (find_user db actor) forbidden
  throw_if (not (is_active_admin user)) forbidden
  ok tt

abbrev pub live_device_of : Uuid → DeviceCredential → Bool
live_device_of user_id d = d.user_id == user_id && is_none d.revoked_at

abbrev pub open_pairing_of : Uuid → DevicePairing → Bool
open_pairing_of user_id p = p.user_id == user_id && is_none p.approved_at && is_none p.revoked_at

abbrev pub open_recovery_of : Uuid → RecoveryRequest → Bool
open_recovery_of user_id r =
    r.user_id == user_id && is_none r.cancelled_at && is_none r.completed_at

unfoldable pub revoke_access_artifacts : ℕ → Uuid → AuthDb → AuthDb
revoke_access_artifacts now user_id db = record db {
  device_credentials =
      update (live_device_of user_id)
        (λ d. record d { revoked_at = some now; revoked_reason = some "admin" })
        db.device_credentials;
  refresh_sessions = delete (λ s. s.user_id == user_id) db.refresh_sessions;
  device_pairings =
      update (open_pairing_of user_id) (λ p. record p { revoked_at = some now }) db.device_pairings;
  recovery_requests =
      update (open_recovery_of user_id) (λ r. record r { cancelled_at = some now })
        db.recovery_requests;
}

-- What a decision writes into the row of its account.
abbrev pub decided : User → AccessStatus → User → User
decided target to u = record u {
  access_status = status_text to;
  access_revision = target.access_revision + 1;
  auth_epoch = target.auth_epoch + 1;
}

-- The state that a decision gives to an open request; an unlocking gives none.
abbrev request_outcome : AccessDecision → Option RequestState
request_outcome approve = some approved
request_outcome reject = some rejected
request_outcome lock = some rejected
request_outcome unlock = none

abbrev settle_request :
    ℕ
    → Option RegistrationRequest
    → Option RequestState
    → List RegistrationRequest
    → List RegistrationRequest
settle_request now (some r) (some outcome) rows =
    update (λ x. x.id == r.id) (λ x. record x { state = outcome; decided_at = some now }) rows
settle_request now _ _ rows = rows

-- Would the decision lock the only active administrator?
abbrev pub locks_last_admin : List User → User → AccessStatus → AccessStatus → Bool
locks_last_admin users target before to =
    is_locked to
    && is_admin target
    && is_active before
    && not (
        any
          (λ u. str_eq u.role "admin" && str_eq u.access_status "active" && not (u.id == target.id))
          users)

-- The writes of `decideAccess`.
unfoldable pub apply_decision : AuthDb → ℕ → Uuid → DecisionInput → User → AuthDb
unfolding revoke_access_artifacts
apply_decision db now actor input target =
    let to = (transitions input.decision).to in
    let moved = record db {
      users = update (λ u. u.id == target.id) (decided target to) db.users;
    } in
    let cleaned = if is_locked to then revoke_access_artifacts now target.id moved else moved in
    let request = find (is_open_of target.id) cleaned.registration_requests in
    record cleaned {
      registration_requests =
          settle_request now request (request_outcome input.decision) cleaned.registration_requests;
      access_decisions =
          cleaned.access_decisions
          ++ record {
            actor_user_id = actor;
            target_user_id = target.id;
            expected_revision = input.expected_revision;
            before_status = status_text (parse_access_status target.access_status);
            after_status = status_text to;
            reason_code = input.reason_code;
            request_id = Option.map (λ r. r.id) request;
          }
            ∷ [];
      log =
          record_security_event now cleaned.log target.id (transitions input.decision).event
            no_detail;
    }

unfoldable pub decide_access : AuthDb → ℕ → Uuid → DecisionInput → Result AuthDb
unfolding find_user require_active_admin
decide_access db now actor input = do
  throw_if (actor == input.user_id) forbidden
  require_active_admin db actor
  target ← or_throw (find_user db input.user_id) not_found
  let before = parse_access_status target.access_status
  throw_if (not (target.access_revision == input.expected_revision))
      (with_code 409 "access_revision_conflict")
  throw_if (not ((transitions input.decision).from before)) conflict
  throw_if (locks_last_admin db.users target before (transitions input.decision).to) conflict
  ok (apply_decision db now actor input target)
