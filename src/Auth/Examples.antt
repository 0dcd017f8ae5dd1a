-- ===== src/Auth/Examples.antt =====
-- Runs of the operations on accounts on small tables: a lock (here), a recovery (Recovering), a pairing
-- (Pairings) and a rotation (Devices).
pub mod Recovering
pub mod Devices
pub mod Pairings
use cernere.Base.{
  ℕ, ◌+◌, ◌==◌, ◌≡◌, ◌≢◌, refl, true, false, none, some, List, [], ◌∷◌, Uuid, String, find, any,
  update, delete, Result, ok, err,
}
use cernere.Notify.Events.{EventLog, record_security_event, outbox_rows}
use cernere.Auth.Tables.{AuthDb, User, DeviceCredential, KeyMaterial}
use cernere.Auth.Access.{
  active, locked, lock, DecisionInput, decide_access, apply_decision, find_user,
  parse_access_status, require_active_admin, is_active_admin, revoke_access_artifacts,
  locks_last_admin, AccessStatus,
}
use cernere.Auth.Access.Admins.{decide_access-admin_stays, locks_last_admin-decided}
use cernere.Auth.Access.Locking.{decide_access-Stopped, Stopped}
use cernere.Auth.Session.{
  UserSessionState, SessionContext, current_user_session_state, assert_user_session_current,
  assert_device_current, find_device,
}
use cernere.Auth.Session.Revoked.{decide_access-revokes_sessions}

abbrev user : Uuid → String → User
user id role = record {
  id = id;
  display_name = "";
  role = role;
  access_status = "active";
  access_revision = 0;
  auth_epoch = 0;
  mfa_revision = 0;
  recovery_generation = 0;
  last_login_at = none;
}

abbrev pub accounts : AuthDb
accounts = record {
  users = user 1 "admin" ∷ user 2 "general" ∷ user 3 "admin" ∷ [];
  passkeys = [];
  passkey_candidates = [];
  device_pairings = [];
  user_recovery_codes =
      record {
        id = 500;
        user_id = 2;
        secret_digest = 8;
        key_id = 4;
        generation = 0;
        created_at = 0;
        revoked_at = none;
        used_at = none;
      }
      ∷ [];
  recovery_requests = [];
  device_credentials =
      record {
        id = 30;
        user_id = 2;
        root_passkey_id = none;
        token_key_id = 1;
        auth_epoch = some 0;
        expires_at = 1000;
        revoked_at = none;
        revoked_reason = none;
      }
      ∷ [];
  refresh_sessions = record { id = 40; user_id = 2 } ∷ [];
  registration_requests = [];
  access_decisions = [];
  log = record {
    next_id = 1000;
    alert_targets = [];
    security_events = [];
    notification_outbox = [];
  };
}

abbrev lock_2 : DecisionInput
lock_2 = record { user_id = 2; decision = lock; expected_revision = 0; reason_code = "abuse" }

abbrev pub state_or : AuthDb → Result AuthDb → AuthDb
state_or db (ok db') = db'
state_or db (err e) = db

abbrev without_2 : AuthDb
without_2 = state_or accounts (decide_access accounts 50 1 lock_2)

deciding : decide_access accounts 50 1 lock_2 ≡ ok without_2
unfolding decide_access apply_decision find_user parse_access_status require_active_admin
    revoke_access_artifacts record_security_event outbox_rows find any update delete
deciding = refl

abbrev pub claims_2 : UserSessionState
claims_2 = record {
  sub = 2;
  role = "general";
  auth_epoch = some 0;
  mfa_revision = some 0;
  device_id = none;
  authentication = none;
}

abbrev pub context : SessionContext
context = record {
  now = 10;
  device_sessions_enabled = true;
  key_id = 1;
  stored_evidence = λ d. none;
}

session_2 : assert_user_session_current accounts context claims_2 ≡ ok tt
unfolding assert_user_session_current current_user_session_state assert_device_current find_user
    parse_access_status find
session_2 = refl

decide_access-revokes_sessions_example :
    assert_user_session_current without_2 context claims_2 ≢ ok tt
decide_access-revokes_sessions_example =
    decide_access-revokes_sessions accounts 50 1 lock_2 context context claims_2 deciding refl
      session_2

decide_access-Stopped_example : Stopped without_2 2
decide_access-Stopped_example = decide_access-Stopped accounts 50 1 lock_2 deciding refl

decide_access-admin_stays_example :
    (u : User) × (find_user without_2 1 ≡ some u) × (is_active_admin u ≡ true)
decide_access-admin_stays_example = decide_access-admin_stays accounts 50 1 lock_2 deciding

admin_1 : require_active_admin accounts 1 ≡ ok tt
unfolding require_active_admin find_user parse_access_status find
admin_1 = refl

not_admin_3 : 1 ≢ (user 3 "admin").id
not_admin_3 h = cc

locks_last_admin-decided_example :
    locks_last_admin accounts.users (user 3 "admin") active locked ≡ false
locks_last_admin-decided_example =
    locks_last_admin-decided accounts 1 (user 3 "admin") active locked admin_1 not_admin_3
