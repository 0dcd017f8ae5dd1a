-- ===== src/Auth/Tables.antt =====
-- The tables of accounts and credentials, from server/src/db/schema.ts. A text that the program only
-- compares for equality (a digest, a credential identifier, a key identifier) is a number. Columns
-- that no modelled code reads are left out.
use cernere.Base.{ℕ, Bool, Option, List, String, Uuid}
use cernere.Notify.Events.{EventLog}

abbrev pub OpaqueText : Type 0
OpaqueText = ℕ

pub record User : Type 0 where
  pub id : Uuid
  pub display_name : String
  pub role : String
  pub access_status : String
  pub access_revision : ℕ
  pub auth_epoch : ℕ
  pub mfa_revision : ℕ
  pub recovery_generation : ℕ
  pub last_login_at : Option ℕ

-- What an authenticator registered, copied from the candidate to the passkey.
pub record KeyMaterial : Type 0 where
  pub credential_id : OpaqueText
  pub public_key : OpaqueText
  pub device_type : String
  pub backed_up : Bool
  pub transports : List String
  pub aaguid : String

pub record Passkey : Type 0 where
  pub id : Uuid
  pub user_id : Uuid
  pub key : KeyMaterial
  pub counter : ℕ
  pub nickname : Option String
  pub created_at : ℕ
  pub last_used_at : Option ℕ
  pub revoked_at : Option ℕ

pub data CandidatePurpose : Type 0 where
  pairing recovery : CandidatePurpose

pub record PasskeyCandidate : Type 0 where
  pub id : Uuid
  pub user_id : Uuid
  pub purpose : CandidatePurpose
  pub key : KeyMaterial
  pub counter : ℕ
  pub nickname : Option String
  pub promoted_at : Option ℕ
  pub revoked_at : Option ℕ

pub record DevicePairing : Type 0 where
  pub id : Uuid
  pub user_id : Uuid
  pub token_digest : OpaqueText
  pub auth_epoch : ℕ
  pub expires_at : ℕ
  pub claimed_at : Option ℕ
  pub candidate_id : Option Uuid
  pub match_code : Option String
  pub match_attempts : ℕ
  pub candidate_label : Option String
  pub approved_at : Option ℕ
  pub rejected_at : Option ℕ
  pub revoked_at : Option ℕ

pub record UserRecoveryCode : Type 0 where
  pub id : OpaqueText
  pub user_id : Uuid
  pub secret_digest : OpaqueText
  pub key_id : OpaqueText
  pub generation : ℕ
  pub created_at : ℕ
  pub revoked_at : Option ℕ
  pub used_at : Option ℕ

pub record RecoveryRequest : Type 0 where
  pub id : Uuid
  pub user_id : Uuid
  pub recovery_code_id : OpaqueText
  pub candidate_id : Uuid
  pub auth_epoch : ℕ
  pub recovery_generation : ℕ
  pub created_at : ℕ
  pub eligible_at : ℕ
  pub cancelled_at : Option ℕ
  pub frozen_at : Option ℕ
  pub completed_at : Option ℕ

pub record DeviceCredential : Type 0 where
  pub id : Uuid
  pub user_id : Uuid
  pub root_passkey_id : Option Uuid
  pub token_key_id : OpaqueText
  pub auth_epoch : Option ℕ
  pub expires_at : ℕ
  pub revoked_at : Option ℕ
  pub revoked_reason : Option String

pub record RefreshSession : Type 0 where
  pub id : Uuid
  pub user_id : Uuid

pub data RequestState : Type 0 where
  open_request withdrawn approved rejected : RequestState

pub record RegistrationRequest : Type 0 where
  pub id : Uuid
  pub user_id : Uuid
  pub state : RequestState
  pub purpose : String
  pub decided_at : Option ℕ

pub record AccessDecisionRow : Type 0 where
  pub actor_user_id : Uuid
  pub target_user_id : Uuid
  pub expected_revision : ℕ
  pub before_status : String
  pub after_status : String
  pub reason_code : String
  pub request_id : Option Uuid

pub record AuthDb : Type 0 where
  pub users : List User
  pub passkeys : List Passkey
  pub passkey_candidates : List PasskeyCandidate
  pub device_pairings : List DevicePairing
  pub user_recovery_codes : List UserRecoveryCode
  pub recovery_requests : List RecoveryRequest
  pub device_credentials : List DeviceCredential
  pub refresh_sessions : List RefreshSession
  pub registration_requests : List RegistrationRequest
  pub access_decisions : List AccessDecisionRow
  pub log : EventLog
