-- ===== src/Auth/Session/Recovered.antt =====
-- Which sessions server/src/auth/user-session-state.ts refuses after a recovery.
use cernere.Base.{some_eq, ◌≡◌, ◌≢◌, refl, sym, ap, ◌∙◌, subst, some, ok}
use cernere.Auth.Tables.{AuthDb, PasskeyCandidate}
use cernere.Auth.Access.{find_user}
use cernere.Auth.Recovery.Confirm.{confirm_recovery, ConfirmRecovery, recovered, find_candidate}
use cernere.Auth.Recovery.Confirmed.{confirm_recovery-Confirmation, Confirmation}
use cernere.Auth.Recovery.Renewed.{Confirmation-Replaced}
use cernere.Auth.Session.{UserSessionState, SessionContext, assert_user_session_current}
use cernere.Auth.Session.Revoked.{moved_epoch-refuses}

find_recovered :
    (db : AuthDb) (c : ConfirmRecovery) {db' : AuthDb} (k : Confirmation db db' c)
    → find_user db' k.candidate.user_id ≡ some (recovered k.user c.now k.user)
find_recovered db c {db'} k =
    subst (λ i. find_user db' i ≡ some (recovered k.user c.now k.user)) k.own_candidate
      (Confirmation-Replaced db c k).own_row

-- A session of an account that is current before a recovery of the account is confirmed is not
-- current afterwards, at whatever time and with whatever configuration.
pub confirm_recovery-revokes_sessions :
    (db : AuthDb) (c : ConfirmRecovery) (ctx ctx' : SessionContext) (claims : UserSessionState)
    (candidate : PasskeyCandidate) {db' : AuthDb}
    → confirm_recovery db c ≡ ok db'
    → find_candidate db c.credential_id ≡ some candidate
    → claims.sub ≡ candidate.user_id
    → assert_user_session_current db ctx claims ≡ ok tt
    → assert_user_session_current db' ctx' claims ≢ ok tt
confirm_recovery-revokes_sessions db c ctx ctx' claims candidate {db'} h f e =
    let k = confirm_recovery-Confirmation db c h in
    let who : claims.sub ≡ k.candidate.user_id =
      e ∙ ap (λ (x : PasskeyCandidate). x.user_id) (some_eq (sym f ∙ k.candidate_found)) in
    moved_epoch-refuses db db' ctx ctx' claims k.user (recovered k.user c.now k.user)
      (ap (find_user db) who ∙ k.user_found) (ap (find_user db') who ∙ find_recovered db c k) refl
