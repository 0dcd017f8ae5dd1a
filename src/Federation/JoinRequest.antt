-- ===== src/Federation/JoinRequest.antt =====
-- server/src/federation/join-request.ts: a new device or a second account asks to join the
-- federation of an account, or is invited to; a four-digit number seen on both sides approves it.
pub mod Operations
pub mod Moves
pub mod Completion
pub mod Claims
pub mod History
pub mod Invariant
pub mod Seen
pub mod Phases
pub mod Settled
pub mod Keeps
pub mod Tokens
pub mod Claimed
pub mod Approval
pub mod Runs
pub mod Reaching
pub mod Holding
mod Exclusive
pub mod Begun
pub mod Examples
use cernere.Base.{
  ℕ, ◌+◌, ◌-◌, ◌*◌, ◌/◌, ◌%◌, ◌==◌, ltb, leb, opt_eq, or_else, is_some, is_none, not, ◌&&◌, ◌||◌,
  Bool, true, false, Option, none, some, List, [], ◌∷◌, String, Uuid, if◌then◌else◌, Result, ok,
  err, AppError, with_code, bad_request, forbidden, not_found, conflict, max,
}
use cernere.Auth.Tables.{OpaqueText}
use cernere.Federation.Policy.{JoinCodeCheck, match, retry, locked, check_join_code}
use cernere.Redis.{Keyspace, Task, ◌>>=◌, ◌>>◌, give, throw, refuse_if, after}

abbrev pub join_request_ttl_sec : ℕ
join_request_ttl_sec = 10 * 60

pub data JoinKind : Type 0 where
  new_device existing_account : JoinKind

pub data JoinInitiator : Type 0 where
  device approver : JoinInitiator

pub data JoinState : Type 0 where
  open_state claimed approved completed locked_state : JoinState

pub record JoinRequestRecord : Type 0 where
  pub id : Uuid
  pub kind : Option JoinKind
  pub initiator : JoinInitiator
  pub state : JoinState
  pub approver_user_id : Option Uuid
  pub joiner_user_id : Option Uuid
  pub device_secret_digest : Option OpaqueText
  pub code : Option (List ℕ)
  pub code_attempts : ℕ
  pub device_name : Option String
  pub expires_at : ℕ

-- The three keyspaces: requests by identifier, tokens by digest, completions by identifier.
pub record JoinRequestRedis (A B C : Type 0) : Type 0 where
  pub requests : Keyspace A JoinRequestRecord
  pub tokens : Keyspace B Uuid
  pub completions : Keyspace C (Unit {0})

pub record JoinKeys (A B C : Type 0) : Type 0 where
  pub requests : A
  pub tokens : B
  pub completions : C

-- A secret that a caller presents, by its length and its digest.
pub record Secret : Type 0 where
  pub length : ℕ
  pub digest : OpaqueText

-- `String(n).padStart(4, "0")` of a number below 10,000.
unfoldable pub new_code : ℕ → List ℕ
new_code n = (b'0' + n / 1000) ∷ (b'0' + n / 100 % 10) ∷ (b'0' + n / 10 % 10) ∷ (b'0' + n % 10) ∷ []

abbrev pub expired : AppError
expired = with_code 410 "federation_join_expired"

abbrev pub code_mismatch : AppError
code_mismatch = with_code 400 "federation_join_code_mismatch"

abbrev pub code_locked : AppError
code_locked = with_code 409 "federation_join_code_locked"

abbrev pub same_digest : Option OpaqueText → Secret → Bool
same_digest none secret = false
same_digest (some expected) secret = not (secret.length == 0) && expected == secret.digest

abbrev pub is_open_state : JoinState → Bool
is_open_state open_state = true
is_open_state _ = false

abbrev pub is_claimed : JoinState → Bool
is_claimed claimed = true
is_claimed _ = false

abbrev pub is_approved : JoinState → Bool
is_approved approved = true
is_approved _ = false

abbrev pub from_device : JoinInitiator → Bool
from_device device = true
from_device approver = false

abbrev pub kind_of : Option Uuid → JoinKind
kind_of none = new_device
kind_of (some id) = existing_account

abbrev pub check_alive : ℕ → Option JoinRequestRecord → Result JoinRequestRecord
check_alive now none = err expired
check_alive now (some request) = if leb request.expires_at now then err expired else ok request

-- `Math.max(0, Math.ceil((expiresAt - now) / 1000))`.
unfoldable pub remaining_sec : JoinRequestRecord → ℕ → ℕ
remaining_sec request now = (request.expires_at - now + 999) / 1000

pub record ApproverView : Type 0 where
  pub request_id : Uuid
  pub state : JoinState
  pub kind : Option JoinKind
  pub device_name : Option String
  pub joiner_user_id : Option Uuid
  pub expires_in : ℕ

unfoldable pub view : JoinRequestRecord → ℕ → ApproverView
unfolding remaining_sec
view request now = record {
  request_id = request.id;
  state = request.state;
  kind = request.kind;
  device_name = request.device_name;
  joiner_user_id = request.joiner_user_id;
  expires_in = remaining_sec request now;
}

-- The new number, the digests of the new secrets and the identifier of a new request.
pub record Fresh : Type 0 where
  pub id : Uuid
  pub token_digest : OpaqueText
  pub secret_digest : OpaqueText
  pub random : ℕ

abbrev pub device_request : ℕ → Fresh → Option Uuid → Option String → JoinRequestRecord
device_request now fresh joiner_user_id device_name = record {
  id = fresh.id;
  kind = some (kind_of joiner_user_id);
  initiator = device;
  state = open_state;
  approver_user_id = none;
  joiner_user_id = joiner_user_id;
  device_secret_digest = some fresh.secret_digest;
  code = some (new_code fresh.random);
  code_attempts = 0;
  device_name = device_name;
  expires_at = now + join_request_ttl_sec * 1000;
}

abbrev pub invite : ℕ → Fresh → Uuid → JoinRequestRecord
invite now fresh approver_user_id = record {
  id = fresh.id;
  kind = none;
  initiator = approver;
  state = open_state;
  approver_user_id = some approver_user_id;
  joiner_user_id = none;
  device_secret_digest = none;
  code = none;
  code_attempts = 0;
  device_name = none;
  expires_at = now + join_request_ttl_sec * 1000;
}

-- What each operation writes.
abbrev pub claimed_by : Uuid → JoinRequestRecord → JoinRequestRecord
claimed_by approver_user_id request = record request {
  approver_user_id = some approver_user_id;
  state = claimed;
}

abbrev pub claimed_for : Fresh → Option Uuid → Option String → JoinRequestRecord → JoinRequestRecord
claimed_for fresh joiner_user_id device_name request = record request {
  kind = some (kind_of joiner_user_id);
  joiner_user_id = joiner_user_id;
  device_secret_digest = some fresh.secret_digest;
  code = some (new_code fresh.random);
  device_name = device_name;
  state = claimed;
}

abbrev pub with_miss : JoinRequestRecord → JoinRequestRecord
with_miss request = record request { code_attempts = request.code_attempts + 1 }
