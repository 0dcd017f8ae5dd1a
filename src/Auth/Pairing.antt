-- ===== src/Auth/Pairing.antt =====
-- server/src/auth/device-pairing.ts: a second device registers a candidate key by a QR code, and the
-- first device approves it with the number that the second one shows.
pub mod Approval
pub mod Approved
pub mod Rows
pub mod History
pub mod Once
use cernere.Base.{
  ℕ, suc, ◌+◌, ◌*◌, ◌==◌, ltb, leb, str_eq, ◌&&◌, ◌||◌, not, Bool, true, false, Option, none, some,
  List, [], ◌∷◌, ◌++◌, String, Uuid, if◌then◌else◌, is_some, is_none, or_else, opt_eq, find, update,
  Result, ok, err, ◌>>=◌, ◌>>◌, throw_if, or_throw, with_code, unauthorized, not_found, conflict,
  AppError,
}
use cernere.Notify.Events.{
  passkey_added, passkey_pairing_requested, device_detail, record_security_event,
}
use cernere.Auth.Tables.{AuthDb, User, DevicePairing, OpaqueText, pairing}
use cernere.Auth.Access.{find_user}
use cernere.Auth.Candidates.{
  RegistrationInfo, insert_passkey_candidate, lock_open_candidate, promote_passkey_candidate,
  revoke_passkey_candidate,
}

abbrev pub pairing_qr_ttl_ms : ℕ
pairing_qr_ttl_ms = 3 * 60 * 1000

abbrev pub pairing_approval_window_ms : ℕ
pairing_approval_window_ms = 10 * 60 * 1000

abbrev pub pairing_max_match_attempts : ℕ
pairing_max_match_attempts = 3

pub data PairingState : Type 0 where
  waiting candidate approved rejected expired : PairingState

abbrev unclaimed_of : Uuid → DevicePairing → Bool
unclaimed_of user_id p = p.user_id == user_id && is_none p.claimed_at && is_none p.revoked_at

-- `pairing_id` and the token with this digest are fresh.
unfoldable pub create_device_pairing : AuthDb → ℕ → Uuid → Uuid → OpaqueText → Result AuthDb
unfolding find_user
create_device_pairing db now user_id pairing_id token_digest = do
  user ← or_throw (find_user db user_id) unauthorized
  ok record db {
    device_pairings =
        update (unclaimed_of user_id) (λ p. record p { revoked_at = some now }) db.device_pairings
        ++ record {
          id = pairing_id;
          user_id = user_id;
          token_digest = token_digest;
          auth_epoch = user.auth_epoch;
          expires_at = now + pairing_qr_ttl_ms;
          claimed_at = none;
          candidate_id = none;
          match_code = none;
          match_attempts = 0;
          candidate_label = none;
          approved_at = none;
          rejected_at = none;
          revoked_at = none;
        }
          ∷ [];
  }

pub record PairingCeremony : Type 0 where
  pub challenge : OpaqueText
  pub pairing_id : Uuid
  pub user_id : Uuid

-- A presented token, by its length and its digest.
pub record Token : Type 0 where
  pub length : ℕ
  pub digest : OpaqueText

abbrev claimable : OpaqueText → DevicePairing → Bool
claimable digest p = p.token_digest == digest && is_none p.claimed_at && is_none p.revoked_at

abbrev check_claimed : AuthDb → ℕ → OpaqueText → Option DevicePairing → Result PairingCeremony
check_claimed db now challenge claimed = do
  p ← or_throw claimed unauthorized
  throw_if (leb p.expires_at now) unauthorized
  user ← or_throw (find_user db p.user_id) unauthorized
  throw_if (not (user.auth_epoch == p.auth_epoch)) unauthorized
  ok record { challenge = challenge; pairing_id = p.id; user_id = user.id }

-- The claim is a statement of its own: it stays when a later check refuses.
unfoldable pub begin_pairing_registration :
    AuthDb → ℕ → Token → OpaqueText → Result PairingCeremony × AuthDb
unfolding find_user
begin_pairing_registration db now token challenge =
    if token.length == 0 || not (leb token.length 512) then (err unauthorized, db) else (
      check_claimed db now challenge (find (claimable token.digest) db.device_pairings),
      record db {
        device_pairings =
            update (claimable token.digest) (λ p. record p { claimed_at = some now })
              db.device_pairings;
      },
    )

-- A call of `finishPairingRegistration`: what the store gives for the ceremony's key, what the
-- library verifies for its challenge, and the new number, label and identifier.
pub record FinishPairing : Type 0 where
  pub ceremony : Option PairingCeremony
  pub verify : OpaqueText → Option RegistrationInfo
  pub nickname : Option String
  pub label : String
  pub match_code : String
  pub candidate_id : Uuid
  pub now : ℕ

-- Within the window that starts with the claim.
abbrev claim_expired : Option ℕ → ℕ → Bool
claim_expired none now = true
claim_expired (some t) now = leb (t + pairing_approval_window_ms) now

abbrev refuses_finish : ℕ → PairingCeremony → User → DevicePairing → Bool
refuses_finish now ceremony user p =
    not (p.user_id == ceremony.user_id)
    || not (p.auth_epoch == user.auth_epoch)
    || is_some p.candidate_id
    || is_some p.revoked_at
    || is_some p.rejected_at
    || claim_expired p.claimed_at now

unfoldable pub finish_pairing_registration : AuthDb → FinishPairing → Result AuthDb
unfolding find_user insert_passkey_candidate
finish_pairing_registration db c = do
  ceremony ← or_throw c.ceremony unauthorized
  info ← or_throw (c.verify ceremony.challenge) unauthorized
  user ← or_throw (find_user db ceremony.user_id) unauthorized
  p ← or_throw (find (λ p. p.id == ceremony.pairing_id) db.device_pairings) unauthorized
  throw_if (refuses_finish c.now ceremony user p) unauthorized
  let with_candidate =
      insert_passkey_candidate db c.candidate_id ceremony.user_id pairing info
        (some (or_else c.nickname c.label))
  ok record with_candidate {
    device_pairings =
        update (λ x. x.id == p.id)
          (λ x. record x {
            candidate_id = some c.candidate_id;
            match_code = some c.match_code;
            candidate_label = some c.label;
          })
          db.device_pairings;
    log =
        record_security_event c.now db.log ceremony.user_id passkey_pairing_requested
          (device_detail (some c.label));
  }

unfoldable pub state_of : DevicePairing → ℕ → PairingState
state_of row now =
    if is_some row.approved_at
    then approved
    else if is_some row.rejected_at
    then rejected
    else if is_some row.revoked_at
    then expired
    else if is_some row.candidate_id
    then if ltb now (or_else row.claimed_at 0 + pairing_approval_window_ms)
      then candidate
      else expired
    else if is_some row.claimed_at
    then waiting
    else if ltb now row.expires_at
    then waiting
    else expired

unfoldable pub get_pairing_status : AuthDb → ℕ → Uuid → Uuid → Result (PairingState × Option String)
unfolding state_of
get_pairing_status db now user_id pairing_id = do
  row ←
      or_throw (find (λ p. p.id == pairing_id && p.user_id == user_id) db.device_pairings) not_found
  ok (elim (state_of row now) [ candidate ↦ (candidate, row.candidate_label) | s ↦ (s, none) ])

unfoldable pub pairing_candidate_id : AuthDb → Uuid → Uuid → Result Uuid
pairing_candidate_id db user_id pairing_id = do
  row ←
      or_throw (find (λ p. p.id == pairing_id && p.user_id == user_id) db.device_pairings) conflict
  or_throw row.candidate_id conflict

abbrev pub is_candidate : PairingState → Bool
is_candidate candidate = true
is_candidate _ = false

abbrev pub reject_row : AuthDb → ℕ → Uuid → Option DevicePairing → AuthDb
reject_row db now pairing_id none = db
reject_row db now pairing_id (some p) =
    if is_some p.approved_at
    then db
    else record (elim p.candidate_id [ none ↦ db | some id ↦ revoke_passkey_candidate db id now ]) {
      device_pairings =
          update (λ x. x.id == pairing_id) (λ x. record x { rejected_at = some now })
            db.device_pairings;
    }

unfoldable pub reject_pairing : AuthDb → ℕ → Uuid → Uuid → AuthDb
unfolding revoke_passkey_candidate
reject_pairing db now user_id pairing_id =
    reject_row db now pairing_id
      (find (λ p. p.id == pairing_id && p.user_id == user_id) db.device_pairings)
