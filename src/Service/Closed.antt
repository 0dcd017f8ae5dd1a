-- ===== src/Service/Closed.antt =====
-- When server/src/federation/subject.ts lets an account into a service, and when it no longer does.
use cernere.Base.{
  some_eq, ◌≡◌, ◌≢◌, refl, sym, ap, ◌∙◌, true, false, some, List, Uuid, ℕ, ok, >>=-eq-ok,
  throw_if-eq-ok, or_throw-eq-ok, ok_value,
}
use cernere.Auth.Tables.{AuthDb, User}
use cernere.Auth.Access.{
  AccessStatus, active, pending, locked, find_user, parse_access_status, is_active, is_locked,
  status_text, get_access_status, require_active_user, active_only, DecisionInput, transitions,
  decide_access,
}
use cernere.Auth.Access.Admins.{decide_access-Decided, decide_access-find_target}
use cernere.Federation.Policy.{ServiceSubject}
use cernere.Federation.Tables.{AccountFederation, AccountFederationMember}
use cernere.Federation.Subject.{resolve_service_subject}
use cernere.Service.{require_service_access}

active_only-eq-ok : (s : AccessStatus) → active_only s ≡ ok tt → is_active s ≡ true
active_only-eq-ok active h = refl
active_only-eq-ok pending h = cc
active_only-eq-ok locked h = cc

require_active_user-eq-ok :
    (db : AuthDb) (id : Uuid)
    → require_active_user db id ≡ ok tt
    → (u : User) × (find_user db id ≡ some u)
      × (is_active (parse_access_status u.access_status) ≡ true)
unfolding require_active_user get_access_status
require_active_user-eq-ok db id h =
    let (s, g, k) = >>=-eq-ok (get_access_status db id) active_only h in
    let (u, f, e) = or_throw-eq-ok (find_user db id) _ _ g in
    (u, f, ap is_active (ok_value e) ∙ active_only-eq-ok s k)

-- What an entry has checked.
pub record Entered (fs : List AccountFederation) (ms : List AccountFederationMember) (db : AuthDb)
    (id : Uuid) (r : ServiceSubject) : Type 0 where
  pub resolved : r ≡ resolve_service_subject fs ms id
  pub not_detached : r.detached_founder ≡ false
  pub own : User
  pub own_found : find_user db id ≡ some own
  pub own_not_locked : is_locked (parse_access_status own.access_status) ≡ false
  pub primary : User
  pub primary_found : find_user db r.primary_user_id ≡ some primary
  pub primary_active : is_active (parse_access_status primary.access_status) ≡ true

-- An account that gets into a service does so under the number that it resolves to, is not locked
-- and no detached founder, and its primary account is active.
pub require_service_access-Entered :
    (fs : List AccountFederation) (ms : List AccountFederationMember) (db : AuthDb) (id : Uuid)
    {r : ServiceSubject}
    → require_service_access fs ms db id ≡ ok r
    → Entered fs ms db id r
unfolding require_service_access get_access_status
require_service_access-Entered fs ms db id h =
    let (s, g, h1) = >>=-eq-ok (get_access_status db id) _ h in
    let (u, f, e) = or_throw-eq-ok (find_user db id) _ _ g in
    let (unlocked, h2) = throw_if-eq-ok (is_locked s) _ _ h1 in
    let (inside, h3) = throw_if-eq-ok (resolve_service_subject fs ms id).detached_founder _ _ h2 in
    let (_, a, h4) =
      >>=-eq-ok (require_active_user db (resolve_service_subject fs ms id).primary_user_id) _ h3 in
    let (p, fp, live) =
      require_active_user-eq-ok db (resolve_service_subject fs ms id).primary_user_id a in
    let same = ok_value h4 in
    record {
      resolved = sym same;
      not_detached = ap (λ (x : ServiceSubject). x.detached_founder) (sym same) ∙ inside;
      own = u;
      own_found = f;
      own_not_locked = ap is_locked (ok_value e) ∙ unlocked;
      primary = p;
      primary_found = ap (λ (x : ServiceSubject). find_user db x.primary_user_id) (sym same) ∙ fp;
      primary_active = live;
    }

-- After a decision that locks an account, no account whose primary account it is gets into a
-- service.
pub decide_access-closes_services :
    (fs : List AccountFederation) (ms : List AccountFederationMember) (db : AuthDb) (now : ℕ)
    (actor : Uuid) (input : DecisionInput) (id : Uuid) (r : ServiceSubject) {db' : AuthDb}
    → decide_access db now actor input ≡ ok db'
    → (transitions input.decision).to ≡ locked
    → (resolve_service_subject fs ms id).primary_user_id ≡ input.user_id
    → require_service_access fs ms db' id ≢ ok r
unfolding parse_access_status
decide_access-closes_services fs ms db now actor input id r {db'} h l p entry =
    let d = decide_access-Decided db now actor input h in
    let e = require_service_access-Entered fs ms db' id entry in
    let who = ap (λ (x : ServiceSubject). x.primary_user_id) e.resolved ∙ p in
    let row = some_eq (
      sym e.primary_found
      ∙ ap (find_user db') who
      ∙ decide_access-find_target db now actor input h d) in
    let was : is_active (parse_access_status (status_text (transitions input.decision).to)) ≡ true =
      ap (λ (x : User). is_active (parse_access_status x.access_status)) (sym row)
      ∙ e.primary_active in
    let refused : is_active (parse_access_status (status_text locked)) ≡ true =
      ap (λ s. is_active (parse_access_status (status_text s))) (sym l) ∙ was in
    cc
