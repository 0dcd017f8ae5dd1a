-- ===== src/Auth/Candidates.antt =====
-- server/src/auth/passkey-candidates.ts: a registered key waits as a candidate until it is promoted to
-- a passkey. The new identifiers are arguments.
pub mod Waiting
use cernere.Base.{
  ℕ, ◌==◌, ◌&&◌, ◌||◌, Bool, true, false, Option, none, some, [], ◌∷◌, ◌++◌, String, Uuid, is_none,
  is_some, find, update, Result, ok, ◌>>◌, throw_if, conflict,
}
use cernere.Auth.Tables.{AuthDb, KeyMaterial, CandidatePurpose, pairing, recovery, PasskeyCandidate}

-- What `verifyRegistrationResponse` gives of a verified registration.
pub record RegistrationInfo : Type 0 where
  pub key : KeyMaterial
  pub counter : ℕ

abbrev pub same_purpose : CandidatePurpose → CandidatePurpose → Bool
same_purpose pairing pairing = true
same_purpose recovery recovery = true
same_purpose _ _ = false

unfoldable pub insert_passkey_candidate :
    AuthDb → Uuid → Uuid → CandidatePurpose → RegistrationInfo → Option String → AuthDb
insert_passkey_candidate db id user_id purpose info nickname = record db {
  passkey_candidates =
      db.passkey_candidates
      ++ record {
        id = id;
        user_id = user_id;
        purpose = purpose;
        key = info.key;
        counter = info.counter;
        nickname = nickname;
        promoted_at = none;
        revoked_at = none;
      }
        ∷ [];
}

abbrev pub is_open_candidate : PasskeyCandidate → Bool
is_open_candidate c = is_none c.promoted_at && is_none c.revoked_at

unfoldable pub lock_open_candidate :
    AuthDb → Uuid → Uuid → CandidatePurpose → Option PasskeyCandidate
lock_open_candidate db candidate_id user_id purpose =
    find
      (λ c.
        c.id == candidate_id
        && c.user_id == user_id
        && same_purpose c.purpose purpose
        && is_open_candidate c)
      db.passkey_candidates

unfoldable pub promote_passkey_candidate : AuthDb → PasskeyCandidate → ℕ → Uuid → Result AuthDb
promote_passkey_candidate db candidate now passkey_id = do
  throw_if (is_some candidate.promoted_at || is_some candidate.revoked_at) conflict
  ok record db {
    passkeys =
        db.passkeys
        ++ record {
          id = passkey_id;
          user_id = candidate.user_id;
          key = candidate.key;
          counter = candidate.counter;
          nickname = candidate.nickname;
          created_at = now;
          last_used_at = none;
          revoked_at = none;
        }
          ∷ [];
    passkey_candidates =
        update (λ c. c.id == candidate.id) (λ c. record c { promoted_at = some now })
          db.passkey_candidates;
  }

unfoldable pub revoke_passkey_candidate : AuthDb → Uuid → ℕ → AuthDb
revoke_passkey_candidate db candidate_id now = record db {
  passkey_candidates =
      update (λ c. c.id == candidate_id && is_open_candidate c)
        (λ c. record c { revoked_at = some now }) db.passkey_candidates;
}
