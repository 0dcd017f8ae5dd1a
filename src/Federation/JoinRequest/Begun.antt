-- ===== src/Federation/JoinRequest/Begun.antt =====
-- How a request of server/src/federation/join-request.ts is stored once a completion of it has begun: as the
-- caller of the completion holds it, until it is completed or gone.
use cernere.Base.{some_eq, true, Option, none, some, Uuid, ok, ok_value, ◌≡◌, refl, sym, ◌∙◌, ap}
use cernere.Federation.JoinRequest.{
  JoinRequestRecord, JoinRequestRedis, JoinState, Secret, completed, is_approved, is_open_state,
  is_claimed, open_state, claimed,
}
use cernere.Federation.JoinRequest.Operations.{begin_completion}
use cernere.Federation.JoinRequest.Completion.{begin_completion-cases, refuses, begins}
use cernere.Federation.JoinRequest.Moves.{
  RequestMove, claims_it, accepts, approves, misses, locks, completes,
}
use cernere.Federation.JoinRequest.History.{World, Steps, done, more, look, begins_one}
use cernere.Federation.JoinRequest.Invariant.{IsSound, same, moved, lapsed}
use cernere.Federation.JoinRequest.Seen.{is_issued, Seen, tracks, news, Step-Seen, Step-IsSound}
use cernere.Federation.JoinRequest.Exclusive.{Seen-issued}

-- What is found under the identifier.
pub data Stays (p : JoinRequestRecord) (found : Option JoinRequestRecord) : Type 0 where
  is_gone : found ≡ none → Stays p found
  as_begun : found ≡ some p → Stays p found
  is_completed : found ≡ some (record p { state = completed }) → Stays p found

open_not_approved : (st : JoinState) → is_open_state st ≡ true → is_approved st ≡ true → ⊥
open_not_approved open_state h a = cc
open_not_approved _ h a = cc

claimed_not_approved : (st : JoinState) → is_claimed st ≡ true → is_approved st ≡ true → ⊥
claimed_not_approved claimed h a = cc
claimed_not_approved _ h a = cc

approved-RequestMove :
    {p q : JoinRequestRecord}
    → RequestMove p q
    → is_approved p.state ≡ true
    → q ≡ record p { state = completed }
approved-RequestMove (claims_it {p} a o i j) h = absurd (open_not_approved p.state o h)
approved-RequestMove (accepts {p} fresh joiner name o i j) h =
    absurd (open_not_approved p.state o h)
approved-RequestMove (approves {p} code c m) h = absurd (claimed_not_approved p.state c h)
approved-RequestMove (misses {p} code c m) h = absurd (claimed_not_approved p.state c h)
approved-RequestMove (locks {p} code c m) h = absurd (claimed_not_approved p.state c h)
approved-RequestMove (completes a) h = refl

completed-RequestMove : {p q : JoinRequestRecord} → RequestMove p q → p.state ≡ completed → ⊥
completed-RequestMove (claims_it a o i j) h = cc (rw h at o)
completed-RequestMove (accepts fresh joiner name o i j) h = cc (rw h at o)
completed-RequestMove (approves code c m) h = cc (rw h at c)
completed-RequestMove (misses code c m) h = cc (rw h at c)
completed-RequestMove (locks code c m) h = cc (rw h at c)
completed-RequestMove (completes a) h = cc (rw h at a)

module _ {A B C : Type 0} (redis : JoinRequestRedis A B C) where
  Seen-Stays :
      {w w' : World A B C} {id : Uuid} {p : JoinRequestRecord}
      → Seen redis id w w'
      → is_issued w.issued id ≡ true
      → is_approved p.state ≡ true
      → Stays p (look redis w id)
      → Stays p (look redis w' id)
  Seen-Stays (tracks (same e) i) n a (is_gone g) = is_gone (e ∙ g)
  Seen-Stays (tracks (same e) i) n a (as_begun g) = as_begun (e ∙ g)
  Seen-Stays (tracks (same e) i) n a (is_completed g) = is_completed (e ∙ g)
  Seen-Stays (tracks (moved b c f g m) i) n a (is_gone h) = cc
  Seen-Stays (tracks (moved b c f g m) i) n a (as_begun h) =
      let own : b ≡ _ = some_eq (sym f ∙ h) in
      is_completed (
        g
        ∙ ap some (
            approved-RequestMove m (ap (λ (q : JoinRequestRecord). is_approved q.state) own ∙ a)
            ∙ ap (λ (q : JoinRequestRecord). record q { state = completed }) own))
  Seen-Stays (tracks (moved b c f g m) i) n a (is_completed h) =
      absurd
        (completed-RequestMove m (ap (λ (q : JoinRequestRecord). q.state) (some_eq (sym f ∙ h))))
  Seen-Stays (tracks (lapsed e) i) n a h = is_gone e
  Seen-Stays (news b m i h x st has) n a g = cc (m, n)

  Steps-Stays :
      {w w' : World A B C} {id : Uuid} {p : JoinRequestRecord}
      → IsSound redis w
      → Steps redis w w'
      → is_issued w.issued id ≡ true
      → is_approved p.state ≡ true
      → Stays p (look redis w id)
      → Stays p (look redis w' id)
  Steps-Stays v done n a h = h
  Steps-Stays {id = id} v (more s r) n a h =
      let seen = Step-Seen redis id v s in
      Steps-Stays (Step-IsSound redis s v) r (Seen-issued redis seen n) a (Seen-Stays seen n a h)

  -- From a sound store, the request that a completion gave when it began is found as it was, or
  -- completed, or not at all, after any sequence of operations and of time.
  begun-Stays :
      (w w' : World A B C) (id : Uuid) (secret : Secret) (joiner : Option Uuid)
      (p : JoinRequestRecord)
      → IsSound redis w
      → (begin_completion redis w.now id secret joiner w.keys).0 ≡ ok p
      → Steps redis
          (record w { keys = (begin_completion redis w.now id secret joiner w.keys).1 })
          w'
      → Stays p (look redis w' id)
  begun-Stays w w' id secret joiner p v h s =
      elim (begin_completion-cases redis w.now id secret joiner w.keys) [
        | refuses e f ↦ cc (rw f at h)
        | begins q b ↦
            let own : q ≡ p = ok_value (rw b.gives at h) in
            Steps-Stays v (more (begins_one {w = w} id secret joiner) s)
              (v.was_issued id q b.request_found)
              (ap (λ (r : JoinRequestRecord). is_approved r.state) (sym own) ∙ b.in_state)
              (as_begun (b.request_found ∙ ap some own))
      ]
