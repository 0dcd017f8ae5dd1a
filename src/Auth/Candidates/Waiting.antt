-- ===== src/Auth/Candidates/Waiting.antt =====
-- What the tests of server/src/auth/passkey-candidates.ts mean for the rows they read.
use cernere.Base.{
  ◌==◌, ==_iff, ◌≡◌, refl, Bool, true, false, ◌&&◌, Option, none, some, is_none, Uuid, In, find-In,
  find-test,
}
use cernere.Auth.Tables.{AuthDb, PasskeyCandidate, CandidatePurpose, pairing, recovery}
use cernere.Auth.Candidates.{same_purpose, is_open_candidate, lock_open_candidate}

-- A key that waits for its promotion.
pub record IsWaitingKey (db : AuthDb) (purpose : CandidatePurpose) (key : PasskeyCandidate)
    : Type 0 where
  pub listed : In key db.passkey_candidates
  pub for_it : key.purpose ≡ purpose
  pub not_promoted : key.promoted_at ≡ none
  pub not_revoked : key.revoked_at ≡ none

pub missing : {A : Type 0} (o : Option A) → is_none o ≡ true → o ≡ none
missing none h = refl
missing (some a) h = cc

purpose_is : (a b : CandidatePurpose) → same_purpose a b ≡ true → a ≡ b
purpose_is pairing pairing h = refl
purpose_is recovery recovery h = refl
purpose_is pairing recovery h = cc
purpose_is recovery pairing h = cc

pub and_parts : (a b : Bool) → (a && b) ≡ true → (a ≡ true) × (b ≡ true)
and_parts true b h = (refl, h)
and_parts false b h = cc

pub waiting :
    (db : AuthDb) (purpose : CandidatePurpose) (key : PasskeyCandidate)
    → In key db.passkey_candidates
    → same_purpose key.purpose purpose ≡ true
    → is_open_candidate key ≡ true
    → IsWaitingKey db purpose key
waiting db purpose key i p o =
    let (n, r) = and_parts _ _ o in
    record {
      listed = i;
      for_it = purpose_is key.purpose purpose p;
      not_promoted = missing key.promoted_at n;
      not_revoked = missing key.revoked_at r;
    }

pub lock_open_candidate-IsWaitingKey :
    (db : AuthDb) (id user_id : Uuid) (purpose : CandidatePurpose) (key : PasskeyCandidate)
    → lock_open_candidate db id user_id purpose ≡ some key
    → (key.id ≡ id) × (key.user_id ≡ user_id) × IsWaitingKey db purpose key
unfolding lock_open_candidate
lock_open_candidate-IsWaitingKey db id user_id purpose key f =
    let (h, o) = and_parts _ _ (find-test _ _ f) in
    let (g, p) = and_parts (key.id == id && key.user_id == user_id) _ h in
    let (e, u) = and_parts (key.id == id) (key.user_id == user_id) g in
    ((==_iff _ _).0 e, (==_iff _ _).0 u, waiting db purpose key (find-In _ _ f) p o)
