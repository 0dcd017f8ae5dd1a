-- ===== src/Notify/Events.antt =====
-- server/src/notify/security-events.ts: what happened to an account is recorded with the rows that
-- a worker delivers later. Fresh identifiers are drawn from a counter.
use cernere.Base.{
  ℕ, suc, ◌+◌, ◌&&◌, ◌==◌, Bool, Option, none, List, [], ◌∷◌, ◌++◌, String, Uuid, is_some, is_none,
  select, map, length,
}

pub data SecurityEventKind : Type 0 where
  session_new passkey_pairing_requested passkey_added passkey_removed : SecurityEventKind
  recovery_requested recovery_cancelled recovery_completed : SecurityEventKind
  recovery_code_reissued recovery_operator session_revoke_all : SecurityEventKind
  alert_target_added alert_target_removed access_approved access_rejected : SecurityEventKind
  access_locked access_unlocked access_requests_pending : SecurityEventKind
  federation_joined federation_left federation_primary_changed : SecurityEventKind

pub data SecuritySeverity : Type 0 where
  normal high critical : SecuritySeverity

abbrev pub severity_of : SecurityEventKind → SecuritySeverity
severity_of session_new = normal
severity_of recovery_requested = critical
severity_of recovery_completed = critical
severity_of recovery_operator = critical
severity_of access_approved = normal
severity_of access_locked = critical
severity_of access_requests_pending = normal
severity_of _ = high

pub record SecurityEventDetail : Type 0 where
  pub device : Option String
  pub eligible_at : Option ℕ
  pub channel : Option String

abbrev pub no_detail : SecurityEventDetail
no_detail = record { device = none; eligible_at = none; channel = none }

abbrev pub device_detail : Option String → SecurityEventDetail
device_detail d = record { device = d; eligible_at = none; channel = none }

pub record SecurityEvent : Type 0 where
  pub id : Uuid
  pub user_id : Uuid
  pub kind : SecurityEventKind
  pub severity : SecuritySeverity
  pub detail : SecurityEventDetail

pub record AlertTarget : Type 0 where
  pub user_id : Uuid
  pub channel : String
  pub address : String
  pub verified_at : Option ℕ
  pub removed_at : Option ℕ

-- The account behind a relay row, or the address behind another one.
pub data TargetRef : Type 0 where
  account : Uuid → TargetRef
  address : String → TargetRef

pub record OutboxRow : Type 0 where
  pub id : Uuid
  pub event_id : Uuid
  pub channel : String
  pub target_ref : TargetRef
  pub attempts : ℕ
  pub next_attempt_at : ℕ
  pub leased_until : Option ℕ
  pub delivered_at : Option ℕ
  pub failed_at : Option ℕ

pub record EventLog : Type 0 where
  pub next_id : ℕ
  pub alert_targets : List AlertTarget
  pub security_events : List SecurityEvent
  pub notification_outbox : List OutboxRow

abbrev is_reachable : Uuid → AlertTarget → Bool
is_reachable user_id t = t.user_id == user_id && is_some t.verified_at && is_none t.removed_at

-- The rows of one event, numbered from `id`, due at once.
unfoldable pub outbox_rows : ℕ → ℕ → Uuid → List (String × TargetRef) → List OutboxRow
outbox_rows id now event_id [] = []
outbox_rows id now event_id ((channel, ref) ∷ rest) =
    record {
      id = id;
      event_id = event_id;
      channel = channel;
      target_ref = ref;
      attempts = 0;
      next_attempt_at = now;
      leased_until = none;
      delivered_at = none;
      failed_at = none;
    }
    ∷ outbox_rows (suc id) now event_id rest

abbrev pub destinations : Uuid → List AlertTarget → List (String × TargetRef)
destinations user_id targets =
    ("relay", account user_id)
    ∷ map (λ t. (t.channel, address t.address)) (select (is_reachable user_id) targets)

unfoldable pub record_security_event :
    ℕ → EventLog → Uuid → SecurityEventKind → SecurityEventDetail → EventLog
unfolding outbox_rows
record_security_event now log user_id kind detail =
    let rows = destinations user_id log.alert_targets in
    record log {
      next_id = suc log.next_id + length rows;
      security_events =
          log.security_events
          ++ record {
            id = log.next_id;
            user_id = user_id;
            kind = kind;
            severity = severity_of kind;
            detail = detail;
          }
            ∷ [];
      notification_outbox =
          log.notification_outbox ++ outbox_rows (suc log.next_id) now log.next_id rows;
    }
