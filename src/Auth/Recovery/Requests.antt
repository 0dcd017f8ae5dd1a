-- ===== src/Auth/Recovery/Requests.antt =====
-- How the operations of server/src/auth/recovery-code.ts, recovery-request.ts and user-access.ts move the
-- rows of `recovery_requests`.
use cernere.Base.{
  ℕ, ◌+◌, ◌≤◌, ◌==◌, ◌≡◌, refl, sym, ap, ◌∙◌, inl, inr, Bool, Bool-cases, true, ◌&&◌, Option, none,
  some, Uuid, List, [], ◌∷◌, In, In-update, update, updated-keeps, any, find, select, count,
  count-update_le, Result, ok, err, arith, or_throw-eq-ok, throw_if-eq-ok, ok_value, subst,
}
use cernere.Auth.Tables.{AuthDb, User, UserRecoveryCode, RecoveryRequest, OpaqueText}
use cernere.Auth.Access.{
  find_user, open_recovery_of, decide_access, DecisionInput, apply_decision,
  revoke_access_artifacts, transitions, is_locked,
}
use cernere.Auth.Access.Admins.{decide_access-Decided}
use cernere.Auth.Candidates.{revoke_passkey_candidate}
use cernere.Auth.Recovery.{
  RecoveryCodeKey, ParsedRecoveryCode, recovery_wait_ms, cancel_requests, cancel_request,
  revoke_codes, invalidate_self_recovery, issue_recovery_code, resolve_recovery_conflict,
  begin_recovery_with_code, cancel_recovery_request, freeze_recovery_request,
  find_active_recovery_code, begin_with, begun, begin_for, open_with_code, has_open_request,
}
use cernere.Auth.Recovery.Confirm.{confirm_recovery, ConfirmRecovery}
use cernere.Auth.Recovery.Confirmed.{confirm_recovery-Confirmation}

-- A request can be confirmed one wait after it was made.
abbrev pub Waits : RecoveryRequest → Type 0
Waits r = r.eligible_at ≡ r.created_at + recovery_wait_ms

-- No operation but a new request shortens a wait or opens a request.
pub record Kept (rows rows' : List RecoveryRequest) : Type 0 where
  pub wait :
      ((r : RecoveryRequest) → In r rows → Waits r) → (r : RecoveryRequest) → In r rows' → Waits r
  pub open_le : (id : Uuid) → count (open_recovery_of id) rows' ≤ count (open_recovery_of id) rows

pub Kept-refl : (rows : List RecoveryRequest) → Kept rows rows
Kept-refl rows = record { wait = λ w. w; open_le = λ id. omega arith }

pub Kept-trans : {xs ys zs : List RecoveryRequest} → Kept xs ys → Kept ys zs → Kept xs zs
Kept-trans a b = record {
  wait = λ w. b.wait (a.wait w);
  open_le = λ id. (let l = a.open_le id in let m = b.open_le id in omega arith);
}

-- A change of a request that opens nothing.
pub record Closing (f : RecoveryRequest → RecoveryRequest) : Type 0 where
  pub same_eligible : (r : RecoveryRequest) → (f r).eligible_at ≡ r.eligible_at
  pub same_created : (r : RecoveryRequest) → (f r).created_at ≡ r.created_at
  pub opens_none :
      (id : Uuid) (r : RecoveryRequest)
      → open_recovery_of id (f r) ≡ true
      → open_recovery_of id r ≡ true

pub update-Kept :
    (q : RecoveryRequest → Bool) (f : RecoveryRequest → RecoveryRequest)
    → Closing f
    → (rows : List RecoveryRequest) → Kept rows (update q f rows)
update-Kept q f c rows = record {
  wait = λ w r i.
      (let (a, j, e) = In-update q f rows i in
        ap (λ (x : RecoveryRequest). x.eligible_at) e
        ∙ updated-keeps (λ (x : RecoveryRequest). x.eligible_at) q f c.same_eligible a
        ∙ w a j
        ∙ ap (λ n. n + recovery_wait_ms)
            (sym (
              ap (λ (x : RecoveryRequest). x.created_at) e
              ∙ updated-keeps (λ (x : RecoveryRequest). x.created_at) q f c.same_created a)));
  open_le = λ id. count-update_le (open_recovery_of id) q f (c.opens_none id) rows;
}

cancels-Closing : (now : ℕ) → Closing (λ r. record r { cancelled_at = some now })
cancels-Closing now = record {
  same_eligible = λ r. refl;
  same_created = λ r. refl;
  opens_none = λ id r t. absurd (ground (arith, t));
}

completes-Closing : (now : ℕ) → Closing (λ r. record r { completed_at = some now })
completes-Closing now = record {
  same_eligible = λ r. refl;
  same_created = λ r. refl;
  opens_none = λ id r t. absurd (ground (arith, t));
}

freezes-Closing : (now : ℕ) → Closing (λ r. record r { frozen_at = some now })
freezes-Closing now = record {
  same_eligible = λ r. refl;
  same_created = λ r. refl;
  opens_none = λ id r t. t;
}

cancel_requests-Kept :
    (now : ℕ) (rs : List RecoveryRequest) (db : AuthDb)
    → Kept db.recovery_requests (cancel_requests db now rs).recovery_requests
unfolding cancel_requests revoke_passkey_candidate
cancel_requests-Kept now [] db = Kept-refl db.recovery_requests
cancel_requests-Kept now (r ∷ rs) db =
    Kept-trans (update-Kept (λ x. x.id == r.id) _ (cancels-Closing now) db.recovery_requests)
      (cancel_requests-Kept now rs (cancel_request db now r))

pub invalidate_self_recovery-Kept :
    (db : AuthDb) (user_id : Uuid) (now : ℕ)
    → Kept db.recovery_requests (invalidate_self_recovery db user_id now).recovery_requests
unfolding invalidate_self_recovery
invalidate_self_recovery-Kept db user_id now =
    cancel_requests-Kept now (select (open_recovery_of user_id) db.recovery_requests)
      (revoke_codes db user_id now)

pub issue_recovery_code-Kept :
    (db : AuthDb) (user_id : Uuid) (key : RecoveryCodeKey) (now : ℕ) (code : ParsedRecoveryCode)
    {db' : AuthDb}
    → issue_recovery_code db user_id key now code ≡ ok db'
    → Kept db.recovery_requests db'.recovery_requests
unfolding issue_recovery_code
issue_recovery_code-Kept db user_id key now code h =
    let (u, _, k) =
      or_throw-eq-ok (find_user (invalidate_self_recovery db user_id now) user_id) _ _ h in
    subst (λ (x : AuthDb). Kept db.recovery_requests x.recovery_requests) (ok_value k)
      (invalidate_self_recovery-Kept db user_id now)

resolve_recovery_conflict-Kept :
    (db : AuthDb) (now : ℕ) (user_id : Uuid) (code_id : OpaqueText)
    → Kept db.recovery_requests (resolve_recovery_conflict db now user_id code_id).recovery_requests
unfolding resolve_recovery_conflict
resolve_recovery_conflict-Kept db now user_id code_id =
    elim (Bool-cases (any (open_with_code user_id code_id) db.recovery_requests)) [
      | inl e ↦ rw e (
          cancel_requests-Kept now (select (open_with_code user_id code_id) db.recovery_requests)
            db)
      | inr e ↦ rw e (Kept-refl db.recovery_requests)
    ]

begun-Kept :
    (db : AuthDb) (now : ℕ) (row : UserRecoveryCode) (challenge : OpaqueText) (r : Result User)
    → Kept db.recovery_requests (begun db now row challenge r).1.recovery_requests
begun-Kept db now row challenge (err e) = Kept-refl db.recovery_requests
begun-Kept db now row challenge (ok user) = elim (Bool-cases (has_open_request db user.id)) [
  | inl e ↦ rw e (resolve_recovery_conflict-Kept db now user.id row.id)
  | inr e ↦ rw e (Kept-refl db.recovery_requests)
]

begin_with-Kept :
    (db : AuthDb) (now : ℕ) (challenge : OpaqueText) (o : Option UserRecoveryCode)
    → Kept db.recovery_requests (begin_with db now challenge o).1.recovery_requests
begin_with-Kept db now challenge none = Kept-refl db.recovery_requests
begin_with-Kept db now challenge (some row) =
    begun-Kept db now row challenge (begin_for db row challenge)

pub begin_recovery_with_code-Kept :
    (db : AuthDb) (now : ℕ) (key : RecoveryCodeKey) (code : Option ParsedRecoveryCode)
    (challenge : OpaqueText)
    → Kept db.recovery_requests
        (begin_recovery_with_code db now key code challenge).1.recovery_requests
unfolding begin_recovery_with_code
begin_recovery_with_code-Kept db now key code challenge =
    begin_with-Kept db now challenge (find_active_recovery_code db key code)

pub cancel_recovery_request-Kept :
    (db : AuthDb) (now : ℕ) (user_id request_id : Uuid) {db' : AuthDb}
    → cancel_recovery_request db now user_id request_id ≡ ok db'
    → Kept db.recovery_requests db'.recovery_requests
unfolding cancel_recovery_request revoke_passkey_candidate
cancel_recovery_request-Kept db now user_id request_id h =
    let (r, _, h1) =
      or_throw-eq-ok (find (λ r. r.id == request_id && r.user_id == user_id) db.recovery_requests) _
        _ h in
    let (_, h2) = throw_if-eq-ok _ _ _ h1 in
    subst (λ (x : AuthDb). Kept db.recovery_requests x.recovery_requests) (ok_value h2)
      (update-Kept (λ x. x.id == r.id) _ (cancels-Closing now) db.recovery_requests)

pub freeze_recovery_request-Kept :
    (db : AuthDb) (now : ℕ) (actor target : Uuid) {r : Bool × AuthDb}
    → freeze_recovery_request db now actor target ≡ ok r
    → Kept db.recovery_requests r.1.recovery_requests
unfolding freeze_recovery_request
freeze_recovery_request-Kept db now actor target h =
    let (u, _, h1) = or_throw-eq-ok (find_user db actor) _ _ h in
    let (_, h2) = throw_if-eq-ok _ _ _ h1 in
    subst (λ (x : Bool × AuthDb). Kept db.recovery_requests x.1.recovery_requests) (ok_value h2)
      (update-Kept _ _ (freezes-Closing now) db.recovery_requests)

pub confirm_recovery-Kept :
    (db : AuthDb) (c : ConfirmRecovery) {db' : AuthDb}
    → confirm_recovery db c ≡ ok db'
    → Kept db.recovery_requests db'.recovery_requests
confirm_recovery-Kept db c h =
    let k = confirm_recovery-Confirmation db c h in
    rw k.applied
      (update-Kept (λ x. x.id == k.request.id) _ (completes-Closing c.now) db.recovery_requests)

apply_decision-Kept :
    (db : AuthDb) (now : ℕ) (actor : Uuid) (input : DecisionInput) (target : User)
    → Kept db.recovery_requests (apply_decision db now actor input target).recovery_requests
unfolding apply_decision revoke_access_artifacts
apply_decision-Kept db now actor input target =
    elim (Bool-cases (is_locked (transitions input.decision).to)) [
      | inl e ↦
          rw e
            (update-Kept (open_recovery_of target.id) _ (cancels-Closing now) db.recovery_requests)
      | inr e ↦ rw e (Kept-refl db.recovery_requests)
    ]

pub decide_access-Kept :
    (db : AuthDb) (now : ℕ) (actor : Uuid) (input : DecisionInput) {db' : AuthDb}
    → decide_access db now actor input ≡ ok db'
    → Kept db.recovery_requests db'.recovery_requests
decide_access-Kept db now actor input h =
    let d = decide_access-Decided db now actor input h in
    rw d.applied (apply_decision-Kept db now actor input d.target)
