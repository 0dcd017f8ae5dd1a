-- ===== src/Auth/Pairing/Approval.antt =====
-- `approvePairing` of server/src/auth/device-pairing.ts: the first device approves the candidate with the
-- number that the other one shows, and too many wrong numbers reject it.
use cernere.Base.{
  ℕ, ◌+◌, ◌==◌, leb, str_eq, ◌&&◌, ◌||◌, not, Bool, true, false, Option, none, some, String, Uuid,
  if◌then◌else◌, or_else, opt_eq, find, update, Result, ok, err, ◌>>=◌, ◌>>◌, throw_if, or_throw,
  with_code, conflict, AppError,
}
use cernere.Notify.Events.{passkey_added, device_detail, record_security_event}
use cernere.Auth.Tables.{AuthDb, User, DevicePairing, pairing}
use cernere.Auth.Access.{find_user}
use cernere.Auth.Candidates.{
  lock_open_candidate, promote_passkey_candidate, revoke_passkey_candidate,
}
use cernere.Auth.Pairing.{state_of, is_candidate, pairing_max_match_attempts}

pub data Mismatch : Type 0 where
  locked retry : Mismatch

-- A call of `approvePairing`, after the caller has verified the proof.
pub record ApprovePairing : Type 0 where
  pub user_id : Uuid
  pub pairing_id : Uuid
  pub candidate_id : Uuid
  pub auth_epoch : ℕ
  pub match_code : String
  pub passkey_id : Uuid
  pub now : ℕ

abbrev pub refuses_approval : ApprovePairing → User → DevicePairing → Bool
refuses_approval c user p =
    not (p.user_id == c.user_id)
    || not (user.auth_epoch == c.auth_epoch)
    || not (p.auth_epoch == user.auth_epoch)
    || not (opt_eq p.candidate_id (some c.candidate_id))
    || not (is_candidate (state_of p c.now))

abbrev pub numbers_match : Option String → String → Bool
numbers_match expected actual =
    not (str_eq (or_else expected "") "") && str_eq (or_else expected "") actual

-- A row after one more wrong number.
abbrev pub missed : ℕ → ℕ → DevicePairing → DevicePairing
missed attempts now p =
    if leb pairing_max_match_attempts attempts
    then record p { match_attempts = attempts; rejected_at = some now }
    else record p { match_attempts = attempts }

unfoldable pub record_mismatch : AuthDb → ApprovePairing → DevicePairing → Mismatch × AuthDb
unfolding revoke_passkey_candidate
record_mismatch db c p =
    let attempts = p.match_attempts + 1 in
    let rows = update (λ x. x.id == c.pairing_id) (missed attempts c.now) db.device_pairings in
    if leb pairing_max_match_attempts attempts
    then (
      locked,
      record (revoke_passkey_candidate db c.candidate_id c.now) { device_pairings = rows },
    )
    else (retry, record db { device_pairings = rows })

unfoldable pub promote_pairing : AuthDb → ApprovePairing → DevicePairing → Result AuthDb
unfolding lock_open_candidate promote_passkey_candidate
promote_pairing db c p = do
  open_one ← or_throw (lock_open_candidate db c.candidate_id c.user_id pairing) conflict
  promoted ← promote_passkey_candidate db open_one c.now c.passkey_id
  ok record promoted {
    device_pairings =
        update (λ x. x.id == c.pairing_id) (λ x. record x { approved_at = some c.now })
          promoted.device_pairings;
    log =
        record_security_event c.now promoted.log c.user_id passkey_added
          (device_detail p.candidate_label);
  }

abbrev pub settle_number :
    AuthDb → ApprovePairing → DevicePairing → Bool → Result (Option Mismatch × AuthDb)
settle_number db c p true = promote_pairing db c p >>= (λ done. ok (none, done))
settle_number db c p false =
    let missed_one = record_mismatch db c p in ok (some missed_one.0, missed_one.1)

-- The transaction of `approvePairing`.
unfoldable pub approve_in_transaction : AuthDb → ApprovePairing → Result (Option Mismatch × AuthDb)
unfolding find_user record_mismatch promote_pairing
approve_in_transaction db c = do
  user ← or_throw (find_user db c.user_id) conflict
  p ← or_throw (find (λ p. p.id == c.pairing_id) db.device_pairings) conflict
  throw_if (refuses_approval c user p) conflict
  settle_number db c p (numbers_match p.match_code c.match_code)

abbrev pub mismatch_error : Mismatch → AppError
mismatch_error locked = with_code 409 "pairing_match_locked"
mismatch_error retry = with_code 400 "pairing_match_mismatch"

abbrev pub after_commit : AuthDb → Result (Option Mismatch × AuthDb) → Result (Unit {0}) × AuthDb
after_commit db (err e) = (err e, db)
after_commit db (ok (none, done)) = (ok tt, done)
after_commit db (ok (some m, done)) = (err (mismatch_error m), done)

-- A wrong number is told after its record is committed.
unfoldable pub approve_pairing : AuthDb → ApprovePairing → Result (Unit {0}) × AuthDb
unfolding approve_in_transaction
approve_pairing db c = after_commit db (approve_in_transaction db c)
