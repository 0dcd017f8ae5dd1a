-- ===== src/Auth/Recovery/Checked.antt =====
-- The tests of `confirmRecovery` in server/src/auth/recovery-request.ts, in their order.
use cernere.Base.{
  absent, ℕ, ◌≤◌, ◌==◌, ==_iff, ◌≡◌, sym, ap, ◌∙◌, Bool, true, false, not, ltb, none, some, Uuid,
  [], ◌∷◌, ◌++◌, find, update, is_some, ok, arith, or_throw-eq-ok, throw_if-eq-ok, >>=-eq-ok,
  ok_value,
}
use cernere.Auth.Tables.{
  AuthDb, User, UserRecoveryCode, RecoveryRequest, PasskeyCandidate, recovery, OpaqueText,
}
use cernere.Auth.Access.{find_user}
use cernere.Auth.Candidates.{lock_open_candidate, promote_passkey_candidate}
use cernere.Auth.Recovery.Confirm.{
  confirm_recovery, confirm_in_transaction, ConfirmRecovery, find_candidate, open_for,
  authorization_changed, live_passkey_of, revoke_passkeys, close_recovery,
}

-- The state after the promotion of the new key, from which the rest of the transaction goes on.
abbrev pub with_new_key : AuthDb → ConfirmRecovery → Uuid → PasskeyCandidate → ℕ → AuthDb
with_new_key db c user_id key counter = record (revoke_passkeys db c.now user_id) {
  passkeys =
      update (live_passkey_of user_id) (λ p. record p { revoked_at = some c.now }) db.passkeys
      ++ record {
        id = c.passkey_id;
        user_id = key.user_id;
        key = key.key;
        counter = counter;
        nickname = key.nickname;
        created_at = c.now;
        last_used_at = none;
        revoked_at = none;
      }
        ∷ [];
  passkey_candidates =
      update (λ x. x.id == key.id) (λ x. record x { promoted_at = some c.now })
        db.passkey_candidates;
}

-- The tests that a confirmation has passed, as the source writes them.
pub record Checked (db db' : AuthDb) (c : ConfirmRecovery) : Type 0 where
  pub challenge : OpaqueText
  pub has_challenge : c.challenge ≡ some challenge
  pub candidate : PasskeyCandidate
  pub candidate_found : find_candidate db c.credential_id ≡ some candidate
  pub counter : ℕ
  pub verified : c.verify challenge candidate ≡ some counter
  pub user : User
  pub user_found : find_user db candidate.user_id ≡ some user
  pub request : RecoveryRequest
  pub request_found : find (open_for candidate.id) db.recovery_requests ≡ some request
  pub is_owner : request.user_id ≡ user.id
  pub not_frozen : request.frozen_at ≡ none
  pub waited : request.eligible_at ≤ c.now
  pub code : UserRecoveryCode
  pub code_found : find (λ x. x.id == request.recovery_code_id) db.user_recovery_codes ≡ some code
  pub unchanged : authorization_changed user request code ≡ false
  pub key : PasskeyCandidate
  pub key_open : lock_open_candidate db candidate.id user.id recovery ≡ some key
  pub applied : db' ≡ close_recovery (with_new_key db c user.id key counter) c user request code key

undo_not : {b : Bool} → not b ≡ false → b ≡ true
undo_not h = ground arith

not_before : (a b : ℕ) → ltb a b ≡ false → b ≤ a
not_before a b h = ground arith

pub confirm_recovery-Checked :
    (db : AuthDb) (c : ConfirmRecovery) {db' : AuthDb}
    → confirm_recovery db c ≡ ok db'
    → Checked db db' c
unfolding confirm_recovery confirm_in_transaction promote_passkey_candidate
confirm_recovery-Checked db c h =
    let (ch, fch, h1) = or_throw-eq-ok c.challenge _ _ h in
    let (ca, fca, h2) = or_throw-eq-ok (find_candidate db c.credential_id) _ _ h1 in
    let (n, fn, h3) = or_throw-eq-ok (c.verify ch ca) _ _ h2 in
    let (u, fu, h4) = or_throw-eq-ok (find_user db ca.user_id) _ _ h3 in
    let (r, fr, h5) = or_throw-eq-ok (find (open_for ca.id) db.recovery_requests) _ _ h4 in
    let (own, h6) = throw_if-eq-ok (not (r.user_id == u.id)) _ _ h5 in
    let (frozen, h7) = throw_if-eq-ok (is_some r.frozen_at) _ _ h6 in
    let (early, h8) = throw_if-eq-ok (ltb c.now r.eligible_at) _ _ h7 in
    let (co, fco, h9) =
      or_throw-eq-ok (find (λ x. x.id == r.recovery_code_id) db.user_recovery_codes) _ _ h8 in
    let (same, h10) = throw_if-eq-ok (authorization_changed u r co) _ _ h9 in
    let (k, fk, h11) = or_throw-eq-ok (lock_open_candidate db ca.id u.id recovery) _ _ h10 in
    let (p, fp, h12) =
      >>=-eq-ok
        (promote_passkey_candidate (revoke_passkeys db c.now u.id) (record k { counter = n }) c.now
          c.passkey_id)
        _ h11 in
    let (_, fp1) = throw_if-eq-ok _ _ _ fp in
    record {
      challenge = ch;
      has_challenge = fch;
      candidate = ca;
      candidate_found = fca;
      counter = n;
      verified = fn;
      user = u;
      user_found = fu;
      request = r;
      request_found = fr;
      is_owner = (==_iff r.user_id u.id).0 (undo_not own);
      not_frozen = absent r.frozen_at frozen;
      waited = not_before c.now r.eligible_at early;
      code = co;
      code_found = fco;
      unchanged = same;
      key = k;
      key_open = fk;
      applied = sym (ok_value h12) ∙ ap (λ x. close_recovery x c u r co k) (sym (ok_value fp1));
    }
