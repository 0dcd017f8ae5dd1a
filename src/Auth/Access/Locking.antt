-- ===== src/Auth/Access/Locking.antt =====
-- What `decideAccess` of server/src/auth/user-access.ts takes from an account that it locks.
use cernere.Base.{
  ℕ, ◌≡◌, refl, Bool, true, false, ◌&&◌, Uuid, ◌==◌, any, any-update, update, subst, any-delete, ok,
  is_none,
}
use cernere.Auth.Tables.{AuthDb, User}
use cernere.Auth.Access.{
  is_locked, DecisionInput, transitions, apply_decision, decided, decide_access,
  revoke_access_artifacts, live_device_of, open_pairing_of, open_recovery_of,
}
use cernere.Auth.Access.Admins.{decide_access-Decided, find_user-id}

-- Nothing that the account could act with, or could get a credential with, is open.
pub record Stopped (db : AuthDb) (id : Uuid) : Type 0 where
  pub no_device : any (live_device_of id) db.device_credentials ≡ false
  pub no_refresh : any (λ s. s.user_id == id) db.refresh_sessions ≡ false
  pub no_pairing : any (open_pairing_of id) db.device_pairings ≡ false
  pub no_recovery : any (open_recovery_of id) db.recovery_requests ≡ false

and_false : (a : Bool) → (a && false) ≡ false
and_false true = refl
and_false false = refl

and3_false : (a b : Bool) → (a && b && false) ≡ false
and3_false true true = refl
and3_false true false = refl
and3_false false b = refl

and_false_mid : (a b : Bool) → (a && false && b) ≡ false
and_false_mid true b = refl
and_false_mid false b = refl

revoke_access_artifacts-Stopped :
    (now : ℕ) (id : Uuid) (db : AuthDb) → Stopped (revoke_access_artifacts now id db) id
unfolding revoke_access_artifacts
revoke_access_artifacts-Stopped now id db = record {
  no_device =
      any-update (live_device_of id) _ (λ d. and_false (d.user_id == id)) db.device_credentials;
  no_refresh = any-delete (λ s. s.user_id == id) db.refresh_sessions;
  no_pairing =
      any-update (open_pairing_of id) _ (λ p. and3_false (p.user_id == id) (is_none p.approved_at))
        db.device_pairings;
  no_recovery =
      any-update (open_recovery_of id) _
        (λ r. and_false_mid (r.user_id == id) (is_none r.completed_at)) db.recovery_requests;
}

apply_decision-Stopped :
    (db : AuthDb) (now : ℕ) (actor : Uuid) (input : DecisionInput) (target : User)
    → is_locked (transitions input.decision).to ≡ true
    → Stopped (apply_decision db now actor input target) target.id
unfolding apply_decision
apply_decision-Stopped db now actor input target h =
    let moved : AuthDb = record db {
      users =
          update (λ u. u.id == target.id) (decided target (transitions input.decision).to) db.users;
    } in
    let s = revoke_access_artifacts-Stopped now target.id moved in
    rw h (record {
      no_device = s.no_device;
      no_refresh = s.no_refresh;
      no_pairing = s.no_pairing;
      no_recovery = s.no_recovery;
    })

-- After a decision that locks an account, the account has no live device, no refresh session, no
-- open pairing and no open recovery request.
pub decide_access-Stopped :
    (db : AuthDb) (now : ℕ) (actor : Uuid) (input : DecisionInput) {db' : AuthDb}
    → decide_access db now actor input ≡ ok db'
    → is_locked (transitions input.decision).to ≡ true
    → Stopped db' input.user_id
decide_access-Stopped db now actor input {db'} h l =
    let d = decide_access-Decided db now actor input h in
    subst (Stopped db') (find_user-id db input.user_id d.found)
      (rw d.applied (apply_decision-Stopped db now actor input d.target l))
