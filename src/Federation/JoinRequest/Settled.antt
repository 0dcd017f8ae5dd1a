-- ===== src/Federation/JoinRequest/Settled.antt =====
-- What `approve` and the route `join-complete` of server/src/federation/join-request.ts can no longer do once
-- a request is locked or completed.
use cernere.Base.{
  is_ok, ℕ, ◌-◌, ◌<◌, opt_eq, or_else, Bool, Bool-cases, true, false, Option, some, inl, inr, List,
  [], Uuid, ◌≡◌, refl, sym, ◌∙◌, arith, if◌then◌else◌, subst, Result, ok, err,
}
use cernere.Federation.Policy.{match, retry, locked, JoinCodeCheck, check_join_code}
use cernere.Federation.JoinRequest.{
  JoinRequestRecord, JoinRequestRedis, JoinKeys, JoinState, Secret, claimed, approved, completed,
  locked_state, is_claimed, is_approved, code_locked, with_miss,
}
use cernere.Federation.JoinRequest.Operations.{
  approve, settle_code, join_complete, finish_or_abort, finish_completion, abort_completion,
}
use cernere.Federation.JoinRequest.Moves.{load-cases, save-eq}
use cernere.Federation.JoinRequest.Completion.{begin_completion-cases, refuses, begins, taken}
use cernere.Federation.JoinRequest.History.{World, Steps, look, approves_one, completes_one}
use cernere.Federation.JoinRequest.Invariant.{IsSound, get-saved}
use cernere.Federation.JoinRequest.Seen.{is_issued, Step-IsSound}
use cernere.Federation.JoinRequest.Phases.{
  phase, in_phase, unborn, is_over, stored_phase, Steps-Advances, Advances-is_over,
}

stored_is_over :
    (issued : Bool) (st : JoinState) (p : JoinRequestRecord)
    → p.state ≡ st
    → is_over (in_phase st) ≡ false
    → is_over (if issued then stored_phase (some p) else unborn) ≡ false
stored_is_over true st p e h = rw e h
stored_is_over false st p e h = refl

module _ {A B C : Type 0} (redis : JoinRequestRedis A B C) where
  -- Nothing succeeds any more on a request that is over.
  pub record IsRefused (w : World A B C) (id : Uuid) : Type 0 where
    pub no_approval :
        (approver : Uuid) (code : List ℕ)
        → is_ok (approve redis w.now id approver code w.keys).0 ≡ false
    pub no_completion :
        (secret : Secret) (joiner : Option Uuid) (join : JoinRequestRecord → Result (Unit {0}))
        → is_ok (join_complete redis w.now id secret joiner join w.keys).0 ≡ false

  not_over :
      (w : World A B C) (id : Uuid) (p : JoinRequestRecord)
      → look redis w id ≡ some p
      → is_over (in_phase p.state) ≡ false
      → is_over (phase redis w id) ≡ true
      → ⊥
  not_over w id p f a o = cc (
    o,
    subst (λ r. is_over (if is_issued w.issued id then stored_phase r else unborn) ≡ false) (sym f)
        (stored_is_over (is_issued w.issued id) p.state p refl a),
  )

  claimed_not_over : (st : JoinState) → is_claimed st ≡ true → is_over (in_phase st) ≡ false
  claimed_not_over claimed h = refl
  claimed_not_over _ h = cc

  approved_not_over : (st : JoinState) → is_approved st ≡ true → is_over (in_phase st) ≡ false
  approved_not_over approved h = refl
  approved_not_over _ h = cc

  over-IsRefused :
      (w : World A B C) (id : Uuid) → is_over (phase redis w id) ≡ true → IsRefused w id
  unfolding approve join_complete
  over-IsRefused w id o = record {
    no_approval = λ approver code. elim (load-cases redis w.now id w.keys) [
      | inl e ↦ rw e refl
      | inr (p, f, l, e) ↦ elim (Bool-cases (opt_eq p.approver_user_id (some approver))) [
        | inr a ↦ rw (e, a) refl
        | inl a ↦ elim (Bool-cases (is_claimed p.state)) [
          | inr c ↦ rw (e, a, c) refl
          | inl c ↦ absurd (not_over w id p f (claimed_not_over p.state c) o)
        ]
      ]
    ];
    no_completion = λ secret joiner join.
        elim (begin_completion-cases redis w.now id secret joiner w.keys) [
          | refuses e h ↦ rw h refl
          | begins p b ↦
              absurd (not_over w id p b.request_found (approved_not_over p.state b.in_state) o)
        ];
  }

  stays_over :
      {w w' : World A B C} {id : Uuid}
      → IsSound redis w
      → Steps redis w w'
      → is_over (phase redis w id) ≡ true
      → IsRefused w' id
  stays_over {w} {w'} {id} v s o =
      over-IsRefused w' id (Advances-is_over (Steps-Advances redis v s id) o)

  saved_over :
      (w : World A B C) (id : Uuid) (p q : JoinRequestRecord) (keys : JoinKeys A B C)
      → IsSound redis w
      → look redis w id ≡ some p
      → q.id ≡ p.id
      → w.now < q.expires_at
      → is_over (in_phase q.state) ≡ true
      → keys.requests ≡ redis.requests.set w.keys.requests w.now q.id q (q.expires_at - w.now)
      → is_over (phase redis (record w { keys = keys }) id) ≡ true
  saved_over w id p q keys v f i l o e =
      let there : look redis (record w { keys = keys }) id ≡ some q = rw e (
        subst
          (λ j.
            redis.requests.get
              (redis.requests.set w.keys.requests w.now q.id q (q.expires_at - w.now)) w.now j
            ≡ some q)
          (i ∙ v.has_id id p f) (get-saved redis w.keys.requests w.now q.id q l)) in
      rw (v.was_issued id p f, there) o

  locking :
      (w : World A B C) (id : Uuid) (p : JoinRequestRecord) (check : JoinCodeCheck)
      → IsSound redis w
      → look redis w id ≡ some p
      → w.now < p.expires_at
      → (settle_code redis w.now p check w.keys).0 ≡ err code_locked
      → is_over (phase redis (record w { keys = (settle_code redis w.now p check w.keys).1 }) id)
        ≡ true
  unfolding settle_code
  locking w id p match v f l h =
      cc (rw (save-eq redis w.now (record p { state = approved }) w.keys l) at h)
  locking w id p retry v f l h =
      ground (arith, rw (save-eq redis w.now (with_miss p) w.keys l) at h)
  locking w id p locked v f l h =
      let saved = save-eq redis w.now (record (with_miss p) { state = locked_state }) w.keys l in
      saved_over w id p (record (with_miss p) { state = locked_state })
        (settle_code redis w.now p locked w.keys).1 v f refl l refl (rw saved refl)

  approve_locked_is_over :
      (w : World A B C) (id approver : Uuid) (code : List ℕ)
      → IsSound redis w
      → (approve redis w.now id approver code w.keys).0 ≡ err code_locked
      → is_over
          (phase redis (record w { keys = (approve redis w.now id approver code w.keys).1 }) id)
        ≡ true
  unfolding approve
  approve_locked_is_over w id approver code v = elim (load-cases redis w.now id w.keys) [
    | inl e ↦ rw e (λ h. ground (arith, h))
    | inr (p, f, l, e) ↦ rw e (elim (Bool-cases (opt_eq p.approver_user_id (some approver))) [
      | inr a ↦ rw a (λ h. ground (arith, h))
      | inl a ↦ rw a (elim (Bool-cases (is_claimed p.state)) [
        | inr c ↦ rw c (λ h. ground (arith, h))
        | inl c ↦
            rw c (locking w id p (check_join_code (or_else p.code []) code p.code_attempts) v f l)
      ])
    ])
  ]

  -- From a sound store, once an approval has answered that the request is locked, and whatever
  -- sequence of operations and of time follows, no approval and no completion of the request
  -- succeeds.
  pub approve-locked_final :
      (w w' : World A B C) (id approver : Uuid) (code : List ℕ)
      → IsSound redis w
      → (approve redis w.now id approver code w.keys).0 ≡ err code_locked
      → Steps redis (record w { keys = (approve redis w.now id approver code w.keys).1 }) w'
      → IsRefused w' id
  approve-locked_final w w' id approver code v h s =
      stays_over (Step-IsSound redis (approves_one {w = w} id approver code) v) s
        (approve_locked_is_over w id approver code v h)

  completing :
      (w : World A B C) (id : Uuid) (p : JoinRequestRecord) (s : JoinKeys A B C)
      (r : Result (Unit {0}))
      → IsSound redis w
      → look redis w id ≡ some p
      → w.now < p.expires_at
      → s.requests ≡ w.keys.requests
      → is_ok (finish_or_abort redis w.now id p r s).0 ≡ true
      → is_over (phase redis (record w { keys = (finish_or_abort redis w.now id p r s).1 }) id)
        ≡ true
  unfolding finish_or_abort finish_completion abort_completion
  completing w id p s (err e) v f l k h = cc
  completing w id p s (ok t) v f l k h =
      let saved = save-eq redis w.now (record p { state = completed }) s l in
      saved_over w id p (record p { state = completed })
        (finish_or_abort redis w.now id p (ok t) s).1 v f refl l refl (rw (saved, k) refl)

  join_complete-is_over :
      (w : World A B C) (id : Uuid) (secret : Secret) (joiner : Option Uuid)
      (join : JoinRequestRecord → Result (Unit {0}))
      → IsSound redis w
      → is_ok (join_complete redis w.now id secret joiner join w.keys).0 ≡ true
      → is_over (
          phase redis
            (record w { keys = (join_complete redis w.now id secret joiner join w.keys).1 })
            id)
        ≡ true
  unfolding join_complete
  join_complete-is_over w id secret joiner join v =
      elim (begin_completion-cases redis w.now id secret joiner w.keys) [
        | refuses e h ↦ rw h (λ h. cc)
        | begins p b ↦ rw b.gives (
            completing w id p (taken redis w.now p id w.keys) (join p) v b.request_found b.alive
              refl)
      ]

  -- From a sound store, after a completion of a request has succeeded, and whatever sequence of
  -- operations and of time follows, no approval and no completion of the request succeeds.
  pub join_complete-once :
      (w w' : World A B C) (id : Uuid) (secret : Secret) (joiner : Option Uuid)
      (join : JoinRequestRecord → Result (Unit {0}))
      → IsSound redis w
      → is_ok (join_complete redis w.now id secret joiner join w.keys).0 ≡ true
      → Steps redis
          (record w { keys = (join_complete redis w.now id secret joiner join w.keys).1 })
          w'
      → IsRefused w' id
  join_complete-once w w' id secret joiner join v h s =
      stays_over (Step-IsSound redis (completes_one {w = w} id secret joiner join) v) s
        (join_complete-is_over w id secret joiner join v h)
