-- ===== src/Auth/Session/Revoked.antt =====
-- Which sessions server/src/auth/user-session-state.ts refuses after a decision on the account.
use cernere.Base.{
  ℕ, ◌+◌, ==_iff, ◌≡◌, ◌≢◌, refl, sym, ap, ◌∙◌, false, Uuid, Option, none, some, or_else, ok,
  throw_if-eq-ok, or_throw-eq-ok, >>=-eq-ok, ok_value, arith,
}
use cernere.Auth.Tables.{AuthDb, User}
use cernere.Auth.Access.{
  find_user, decide_access, decided, transitions, DecisionInput, parse_access_status, is_locked,
}
use cernere.Auth.Access.Admins.{decide_access-Decided, decide_access-find_target}
use cernere.Auth.Session.{
  UserSessionState, CurrentUser, SessionContext, current_user_session_state,
  assert_user_session_current, claims_moved,
}

-- A session that passes names the epoch of its account, which is not locked.
pub record Admitted (db : AuthDb) (claims : UserSessionState) : Type 0 where
  pub user : User
  pub found : find_user db claims.sub ≡ some user
  pub not_locked : is_locked (parse_access_status user.access_status) ≡ false
  pub epoch : or_else claims.auth_epoch 0 ≡ user.auth_epoch

abbrev epoch_of : Option User → ℕ
epoch_of none = 0
epoch_of (some u) = u.auth_epoch

claims_moved-epoch :
    (claims : UserSessionState) (user : CurrentUser)
    → claims_moved claims user ≡ false
    → or_else claims.auth_epoch 0 ≡ user.auth_epoch
claims_moved-epoch claims user h = (==_iff _ user.auth_epoch).0 (ground arith)

pub assert_user_session_current-Admitted :
    (db : AuthDb) (ctx : SessionContext) (claims : UserSessionState)
    → assert_user_session_current db ctx claims ≡ ok tt
    → Admitted db claims
unfolding assert_user_session_current current_user_session_state
assert_user_session_current-Admitted db ctx claims h =
    let (c, g, h1) = >>=-eq-ok (current_user_session_state db claims.sub) _ h in
    let (u, f, k) = or_throw-eq-ok (find_user db claims.sub) _ _ g in
    let (l, k1) = throw_if-eq-ok _ _ _ k in
    let (m, _) = throw_if-eq-ok (claims_moved claims c) _ _ h1 in
    record {
      user = u;
      found = f;
      not_locked = l;
      epoch =
          claims_moved-epoch claims c m
          ∙ ap (λ (x : CurrentUser). x.auth_epoch) (sym (ok_value k1));
    }

-- Where the epoch of the account has moved, a session that was admitted before is not admitted.
pub moved_epoch-refuses :
    (db db' : AuthDb) (ctx ctx' : SessionContext) (claims : UserSessionState) (u u' : User)
    → find_user db claims.sub ≡ some u
    → find_user db' claims.sub ≡ some u'
    → u'.auth_epoch ≡ u.auth_epoch + 1
    → assert_user_session_current db ctx claims ≡ ok tt
    → assert_user_session_current db' ctx' claims ≢ ok tt
moved_epoch-refuses db db' ctx ctx' claims u u' f f' m before after =
    let a = assert_user_session_current-Admitted db ctx claims before in
    let b = assert_user_session_current-Admitted db' ctx' claims after in
    let same = ap epoch_of (sym a.found ∙ f) in
    let next = ap epoch_of (sym b.found ∙ f') in ground (arith, same, next, m, a.epoch, b.epoch)

-- A session of an account that is current before an administrator decides about the account is not
-- current afterwards, at whatever time and with whatever configuration.
pub decide_access-revokes_sessions :
    (db : AuthDb) (now : ℕ) (actor : Uuid) (input : DecisionInput) (ctx ctx' : SessionContext)
    (claims : UserSessionState) {db' : AuthDb}
    → decide_access db now actor input ≡ ok db'
    → claims.sub ≡ input.user_id
    → assert_user_session_current db ctx claims ≡ ok tt
    → assert_user_session_current db' ctx' claims ≢ ok tt
decide_access-revokes_sessions db now actor input ctx ctx' claims {db'} h e =
    let d = decide_access-Decided db now actor input h in
    moved_epoch-refuses db db' ctx ctx' claims d.target
      (decided d.target (transitions input.decision).to d.target) (ap (find_user db) e ∙ d.found)
      (ap (find_user db') e ∙ decide_access-find_target db now actor input h d) refl
