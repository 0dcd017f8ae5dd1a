-- ===== src/Auth/Recovery/History.antt =====
-- Any sequence of the operations that write `recovery_requests`: server/src/auth/recovery-code.ts,
-- recovery-request.ts and the decisions of user-access.ts.
use cernere.Base.{
  ℕ, ◌+◌, ◌≤◌, ◌==◌, ◌≡◌, refl, inl, inr, Bool, Bool-cases, false, Option, Uuid, ==_iff, find-In,
  List, [], ◌∷◌, ◌++◌, In, In-append, In-single, any, any-count, find, count, count-append, ok,
  arith, or_throw-eq-ok, throw_if-eq-ok, ok_value, subst,
}
use cernere.Auth.Tables.{AuthDb, User, UserRecoveryCode, RecoveryRequest, OpaqueText}
use cernere.Auth.Access.{find_user, open_recovery_of, decide_access, DecisionInput}
use cernere.Auth.Recovery.{
  RecoveryCodeKey, ParsedRecoveryCode, recovery_wait_ms, invalidate_self_recovery,
  issue_recovery_code, begin_recovery_with_code, finish_recovery_with_code, FinishRecovery,
  cancel_recovery_request, freeze_recovery_request, refuses_request, RecoveryCeremony,
}
use cernere.Auth.Recovery.Confirm.{confirm_recovery, ConfirmRecovery, open_for}
use cernere.Auth.Recovery.Confirmed.{confirm_recovery-Confirmation, Confirmation}
use cernere.Auth.Recovery.Requests.{
  Waits, Kept, invalidate_self_recovery-Kept, issue_recovery_code-Kept,
  begin_recovery_with_code-Kept, cancel_recovery_request-Kept, freeze_recovery_request-Kept,
  confirm_recovery-Kept, decide_access-Kept,
}

pub data Step : AuthDb → AuthDb → Type 0 where
  invalidates :
      {db : AuthDb} (user_id : Uuid) (now : ℕ) → Step db (invalidate_self_recovery db user_id now)
  issues :
      {db db' : AuthDb} (user_id : Uuid) (key : RecoveryCodeKey) (now : ℕ)
      (code : ParsedRecoveryCode)
      → issue_recovery_code db user_id key now code ≡ ok db'
      → Step db db'
  begins :
      {db : AuthDb} (now : ℕ) (key : RecoveryCodeKey) (code : Option ParsedRecoveryCode)
      (challenge : OpaqueText)
      → Step db (begin_recovery_with_code db now key code challenge).1
  finishes :
      {db db' : AuthDb} (c : FinishRecovery) → finish_recovery_with_code db c ≡ ok db' → Step db db'
  cancels :
      {db db' : AuthDb} (now : ℕ) (user_id request_id : Uuid)
      → cancel_recovery_request db now user_id request_id ≡ ok db'
      → Step db db'
  freezes :
      {db : AuthDb} {r : Bool × AuthDb} (now : ℕ) (actor target : Uuid)
      → freeze_recovery_request db now actor target ≡ ok r
      → Step db r.1
  confirms : {db db' : AuthDb} (c : ConfirmRecovery) → confirm_recovery db c ≡ ok db' → Step db db'
  decides :
      {db db' : AuthDb} (now : ℕ) (actor : Uuid) (input : DecisionInput)
      → decide_access db now actor input ≡ ok db'
      → Step db db'

pub data Steps : AuthDb → AuthDb → Type 0 where
  done : {db : AuthDb} → Steps db db
  more : {db mid db' : AuthDb} → Step db mid → Steps mid db' → Steps db db'

-- Every request Waits its full time, and no account has two open ones.
pub record Sound (rows : List RecoveryRequest) : Type 0 where
  pub all_wait : (r : RecoveryRequest) → In r rows → Waits r
  pub one_open : (id : Uuid) → count (open_recovery_of id) rows ≤ 1

Kept-Sound : {rows rows' : List RecoveryRequest} → Kept rows rows' → Sound rows → Sound rows'
Kept-Sound k s = record {
  all_wait = k.wait s.all_wait;
  one_open = λ id. (let a = k.open_le id in let b = s.one_open id in omega arith);
}

refuses_request-none_open :
    (db : AuthDb) (ceremony : RecoveryCeremony) (user : User) (code : UserRecoveryCode)
    → refuses_request db ceremony user code ≡ false
    → any (open_recovery_of user.id) db.recovery_requests ≡ false
refuses_request-none_open db ceremony user code h = ground arith

count-single_le : {A : Type 0} (p : A → Bool) (x : A) → count p (x ∷ []) ≤ 1
unfolding count
count-single_le p x = ground arith

count-single_none : {A : Type 0} (p : A → Bool) (x : A) → p x ≡ false → count p (x ∷ []) ≡ 0
unfolding count
count-single_none p x h = rw h refl

open_recovery_of-other :
    (id : Uuid) (r : RecoveryRequest) → (r.user_id == id) ≡ false → open_recovery_of id r ≡ false
open_recovery_of-other id r e = rw e refl

-- At most one row meets the test where the new one does only for an account that had none.
append-Sound :
    (rows : List RecoveryRequest) (new : RecoveryRequest)
    → Waits new
    → any (open_recovery_of new.user_id) rows ≡ false
    → Sound rows
    → Sound (rows ++ new ∷ [])
append-Sound rows new w n s = record {
  all_wait = λ r i. elim (In-append {a = r} rows {ys = new ∷ []} i) [
    | inl j ↦ s.all_wait r j
    | inr j ↦ rw (← In-single j) w
  ];
  one_open = λ id. rw (count-append (open_recovery_of id) rows (new ∷ [])) (at_most_one id);
}
  where
    at_most_one :
        (id : Uuid) → count (open_recovery_of id) rows + count (open_recovery_of id) (new ∷ []) ≤ 1
    at_most_one id = elim (Bool-cases (new.user_id == id)) [
      | inl e ↦
          (let none_yet = any-count (open_recovery_of id) rows (
              subst (λ i. any (open_recovery_of i) rows ≡ false) ((==_iff new.user_id id).0 e) n) in
            let l = count-single_le (open_recovery_of id) new in omega arith)
      | inr e ↦
          (let z = count-single_none (open_recovery_of id) new (open_recovery_of-other id new e) in
            let l = s.one_open id in omega arith)
    ]

finish_recovery_with_code-Sound :
    (db : AuthDb) (c : FinishRecovery) {db' : AuthDb}
    → finish_recovery_with_code db c ≡ ok db'
    → Sound db.recovery_requests
    → Sound db'.recovery_requests
unfolding finish_recovery_with_code
finish_recovery_with_code-Sound db c h s =
    let (ce, _, h1) = or_throw-eq-ok c.ceremony _ _ h in
    let (info, _, h2) = or_throw-eq-ok (c.verify ce.challenge) _ _ h1 in
    let (u, _, h3) = or_throw-eq-ok (find_user db ce.user_id) _ _ h2 in
    let (co, _, h4) =
      or_throw-eq-ok (find (λ r. r.id == ce.recovery_code_id) db.user_recovery_codes) _ _ h3 in
    let (accepted, h5) = throw_if-eq-ok (refuses_request db ce u co) _ _ h4 in
    subst (λ (x : AuthDb). Sound x.recovery_requests) (ok_value h5)
      (append-Sound db.recovery_requests _ refl (refuses_request-none_open db ce u co accepted) s)

Step-Sound :
    {db db' : AuthDb} → Step db db' → Sound db.recovery_requests → Sound db'.recovery_requests
Step-Sound (invalidates {db} user_id now) =
    Kept-Sound (invalidate_self_recovery-Kept db user_id now)
Step-Sound (issues {db} user_id key now code h) =
    Kept-Sound (issue_recovery_code-Kept db user_id key now code h)
Step-Sound (begins {db} now key code challenge) =
    Kept-Sound (begin_recovery_with_code-Kept db now key code challenge)
Step-Sound (finishes {db} c h) = finish_recovery_with_code-Sound db c h
Step-Sound (cancels {db} now user_id request_id h) =
    Kept-Sound (cancel_recovery_request-Kept db now user_id request_id h)
Step-Sound (freezes {db} now actor target h) =
    Kept-Sound (freeze_recovery_request-Kept db now actor target h)
Step-Sound (confirms {db} c h) = Kept-Sound (confirm_recovery-Kept db c h)
Step-Sound (decides {db} now actor input h) = Kept-Sound (decide_access-Kept db now actor input h)

-- If every recovery request waits 24 hours and no account has two open ones, both still hold after
-- any sequence of issuing, invalidating, opening, cancelling, freezing and confirming, and of the
-- decisions of administrators.
pub Steps-Sound :
    {db db' : AuthDb} → Steps db db' → Sound db.recovery_requests → Sound db'.recovery_requests
Steps-Sound done s = s
Steps-Sound (more x r) s = Steps-Sound r (Step-Sound x s)

-- From tables whose requests all wait 24 hours and of which no account has two open, whatever
-- sequence of the operations on recovery requests runs, a confirmation that succeeds is of a request
-- made at least 24 hours before.
pub confirm_recovery-waited :
    {db db' db'' : AuthDb} (c : ConfirmRecovery)
    → Sound db.recovery_requests
    → Steps db db'
    → confirm_recovery db' c ≡ ok db''
    → (k : Confirmation db' db'' c) × (k.request.created_at + recovery_wait_ms ≤ c.now)
confirm_recovery-waited {db' = db'} c s r h =
    let k = confirm_recovery-Confirmation db' c h in
    let w =
      (Steps-Sound r s).all_wait k.request
        (find-In (open_for k.candidate.id) db'.recovery_requests k.request_found) in
    let e = k.waited in (k, rw (← w) e)
