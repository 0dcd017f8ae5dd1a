-- ===== src/Auth/Pairing/Approved.antt =====
-- When `approvePairing` of server/src/auth/device-pairing.ts approves.
use cernere.Base.{
  absent, opt_eq, str_eq, str_eq_iff, String, not, ◌≢◌, or_else, ◌<◌, ◌+◌, ◌*◌, ℕ, ◌==◌, ==_iff,
  ◌≡◌, refl, sym, ap, ◌∙◌, Bool, true, false, Option, none, some, Uuid, [], ◌∷◌, ◌++◌, find,
  find-test, update, is_some, Result, ok, err, arith, or_throw-eq-ok, throw_if-eq-ok, >>=-eq-ok,
  ok_value,
}
use cernere.Auth.Tables.{AuthDb, User, DevicePairing, PasskeyCandidate, pairing}
use cernere.Auth.Access.{find_user}
use cernere.Auth.Candidates.{lock_open_candidate, promote_passkey_candidate}
use cernere.Auth.Pairing.{state_of, is_candidate}
use cernere.Auth.Pairing.Approval.{
  approve_pairing, approve_in_transaction, ApprovePairing, refuses_approval, numbers_match,
  settle_number, promote_pairing, after_commit, Mismatch,
}
use cernere.Auth.Candidates.Waiting.{IsWaitingKey, and_parts, lock_open_candidate-IsWaitingKey}

-- A pairing of the caller's account, in its current epoch and with the candidate that is approved,
-- neither approved, rejected nor revoked, and not ten minutes after its claim.
pub record IsWaitingPairing (c : ApprovePairing) (user : User) (row : DevicePairing) : Type 0 where
  pub owner : row.user_id ≡ c.user_id
  pub epoch : user.auth_epoch ≡ c.auth_epoch
  pub row_epoch : row.auth_epoch ≡ user.auth_epoch
  pub registered : row.candidate_id ≡ some c.candidate_id
  pub not_approved : row.approved_at ≡ none
  pub not_rejected : row.rejected_at ≡ none
  pub not_revoked : row.revoked_at ≡ none
  pub in_time : c.now < or_else row.claimed_at 0 + 10 * 60 * 1000

same_some : (a : Option Uuid) (b : Uuid) → opt_eq a (some b) ≡ true → a ≡ some b
same_some none b h = cc
same_some (some a) b h = ap some ((==_iff a b).0 h)

-- A pairing whose state is `candidate`.
record IsCandidate (row : DevicePairing) (now : ℕ) : Type 0 where
  pub approved_not : is_some row.approved_at ≡ false
  pub rejected_not : is_some row.rejected_at ≡ false
  pub revoked_not : is_some row.revoked_at ≡ false
  pub in_window : now < or_else row.claimed_at 0 + 10 * 60 * 1000

state_of-IsCandidate :
    (row : DevicePairing) (now : ℕ) → is_candidate (state_of row now) ≡ true → IsCandidate row now
unfolding state_of
state_of-IsCandidate row now h = record {
  approved_not = ground (arith, h);
  rejected_not = ground (arith, h);
  revoked_not = ground (arith, h);
  in_window = ground (arith, h);
}

refuses_approval-IsWaitingPairing :
    (c : ApprovePairing) (user : User) (row : DevicePairing)
    → refuses_approval c user row ≡ false
    → IsWaitingPairing c user row
refuses_approval-IsWaitingPairing c user row h =
    let s = state_of-IsCandidate row c.now (ground (arith, h)) in
    record {
      owner = (==_iff row.user_id c.user_id).0 (ground (arith, h));
      epoch = (==_iff user.auth_epoch c.auth_epoch).0 (ground (arith, h));
      row_epoch = (==_iff row.auth_epoch user.auth_epoch).0 (ground (arith, h));
      registered = same_some row.candidate_id c.candidate_id (ground (arith, h));
      not_approved = absent row.approved_at s.approved_not;
      not_rejected = absent row.rejected_at s.rejected_not;
      not_revoked = absent row.revoked_at s.revoked_not;
      in_time = s.in_window;
    }

numbers_match_parts :
    (expected : Option String) (actual : String)
    → numbers_match expected actual ≡ true
    → (expected ≡ some actual) × (◌≢◌ {A = String} actual "")
numbers_match_parts none actual h = cc
numbers_match_parts (some e) actual h =
    let (full, same) = and_parts (not (str_eq e "")) (str_eq e actual) h in
    let equal : e ≡ actual = (str_eq_iff e actual).0 same in
    (ap some equal, λ empty. ground (arith, full, (str_eq_iff e "").1 (equal ∙ empty)))

-- What an approval has checked, and what it adds.
pub record Approval (db db' : AuthDb) (c : ApprovePairing) : Type 0 where
  pub user : User
  pub user_found : find_user db c.user_id ≡ some user
  pub row : DevicePairing
  pub row_found : find (λ p. p.id == c.pairing_id) db.device_pairings ≡ some row
  pub has_id : row.id ≡ c.pairing_id
  pub waits : IsWaitingPairing c user row
  pub number : row.match_code ≡ some c.match_code
  pub number_shown : ◌≢◌ {A = String} c.match_code ""
  pub key : PasskeyCandidate
  pub key_of_candidate : (key.id ≡ c.candidate_id) × (key.user_id ≡ c.user_id)
  pub key_waits : IsWaitingKey db pairing key
  pub passkeys :
      db'.passkeys
      ≡ db.passkeys
        ++ record {
          id = c.passkey_id;
          user_id = key.user_id;
          key = key.key;
          counter = key.counter;
          nickname = key.nickname;
          created_at = c.now;
          last_used_at = none;
          revoked_at = none;
        }
          ∷ []
  pub pairings :
      db'.device_pairings
      ≡ update
          (λ x. x.id == c.pairing_id)
          (λ x. record x { approved_at = some c.now })
          db.device_pairings

committed :
    (db : AuthDb) (r : Result (Option Mismatch × AuthDb))
    → (after_commit db r).0 ≡ ok tt
    → (d : AuthDb) × (r ≡ ok (none, d)) × ((after_commit db r).1 ≡ d)
committed db (err e) h = cc
committed db (ok (none, d)) h = (d, refl, refl)
committed db (ok (some m, d)) h = cc

matched :
    (db : AuthDb) (c : ApprovePairing) (p : DevicePairing) (b : Bool) {d : AuthDb}
    → settle_number db c p b ≡ ok (none, d)
    → (b ≡ true) × (promote_pairing db c p ≡ ok d)
matched db c p true h =
    let (d, e, k) = >>=-eq-ok (promote_pairing db c p) _ h in
    (refl, e ∙ ap (λ (x : Option Mismatch × AuthDb). ok x.1) (ok_value k))
matched db c p false h = absurd (ground (arith, ok_value h))

-- An approval that succeeds was of a pairing of the account, in the account's current epoch, that
-- has the approved candidate, is neither approved, rejected nor revoked and was claimed less than
-- ten minutes before, with the number that the pairing has, which is not empty, and for a candidate
-- of the account that waits; it adds one passkey with the key of the candidate and marks the pairing
-- approved.
pub approve_pairing-Approval :
    (db : AuthDb) (c : ApprovePairing)
    → (approve_pairing db c).0 ≡ ok tt
    → Approval db (approve_pairing db c).1 c
unfolding approve_pairing approve_in_transaction promote_pairing promote_passkey_candidate
approve_pairing-Approval db c h =
    let (d, e, q) = committed db (approve_in_transaction db c) h in
    let (u, fu, h1) = or_throw-eq-ok (find_user db c.user_id) _ _ e in
    let (p, fp, h2) = or_throw-eq-ok (find (λ p. p.id == c.pairing_id) db.device_pairings) _ _ h1 in
    let (w, h3) = throw_if-eq-ok (refuses_approval c u p) _ _ h2 in
    let (m, h4) = matched db c p (numbers_match p.match_code c.match_code) h3 in
    let (k, fk, h5) =
      or_throw-eq-ok (lock_open_candidate db c.candidate_id c.user_id pairing) _ _ h4 in
    let key_facts = lock_open_candidate-IsWaitingKey db c.candidate_id c.user_id pairing k fk in
    let (promoted, pr, h6) = >>=-eq-ok (promote_passkey_candidate db k c.now c.passkey_id) _ h5 in
    let (_, pr1) = throw_if-eq-ok _ _ _ pr in
    record {
      user = u;
      user_found = fu;
      row = p;
      row_found = fp;
      has_id =
          (==_iff p.id c.pairing_id).0
            (find-test (λ p. p.id == c.pairing_id) db.device_pairings fp);
      waits = refuses_approval-IsWaitingPairing c u p w;
      number = (numbers_match_parts p.match_code c.match_code m).0;
      number_shown = (numbers_match_parts p.match_code c.match_code m).1;
      key = k;
      key_of_candidate = (key_facts.0, key_facts.1);
      key_waits = key_facts.2;
      passkeys =
          ap (λ (x : AuthDb). x.passkeys) (q ∙ sym (ok_value h6))
          ∙ ap (λ (x : AuthDb). x.passkeys) (sym (ok_value pr1));
      pairings =
          ap (λ (x : AuthDb). x.device_pairings) (q ∙ sym (ok_value h6))
          ∙ ap
              (λ (x : AuthDb).
                update (λ p. p.id == c.pairing_id) (λ p. record p { approved_at = some c.now })
                  x.device_pairings)
              (sym (ok_value pr1));
    }
