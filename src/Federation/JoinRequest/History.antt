-- ===== src/Federation/JoinRequest/History.antt =====
-- Any sequence of the operations of server/src/federation/join-request.ts, and what holds of the stored
-- requests.
use cernere.Base.{
  ℕ, ◌-◌, ◌<◌, ◌≤◌, ◌==◌, any, true, false, Option, some, inl, inr, ◌⊎◌, List, ◌∷◌, String, Uuid,
  Result, ◌≡◌, refl, arith,
}
use cernere.Auth.Tables.{OpaqueText}
use cernere.Federation.JoinRequest.{
  JoinRequestRecord, JoinRequestRedis, JoinKeys, Secret, Fresh, device_request, invite, is_approved,
}
use cernere.Federation.JoinRequest.Operations.{
  create_record, create_device_request, create_invite, claim_as_approver, claim_as_device, approve,
  begin_completion, join_complete, set_token, abort_completion, finish_completion,
}
use cernere.Federation.JoinRequest.Moves.{Wrote, keeps, approve-Wrote, save-eq}
use cernere.Federation.JoinRequest.Claims.{claim_as_approver-Wrote, claim_as_device-Wrote}
use cernere.Federation.JoinRequest.Completion.{
  refuses, begins, begin_completion-cases, join_complete-Wrote, abort_completion-Wrote,
  finish_completion-Wrote,
}

-- The store at an instant, with the identifiers and the tokens that have been given out.
pub record World (A B C : Type 0) : Type 0 where
  pub now : ℕ
  pub keys : JoinKeys A B C
  pub issued : List Uuid
  pub printed : List OpaqueText

-- What the generators of random values see to: nothing comes twice.
pub record IsFresh {A B C : Type 0} (w : World A B C) (fresh : Fresh) : Type 0 where
  pub new_id : any (λ id. id == fresh.id) w.issued ≡ false
  pub new_token : any (λ digest. digest == fresh.token_digest) w.printed ≡ false

abbrev pub after_issue : {A B C : Type 0} → World A B C → Fresh → JoinKeys A B C → World A B C
after_issue w fresh keys = record w {
  keys = keys;
  issued = fresh.id ∷ w.issued;
  printed = fresh.token_digest ∷ w.printed;
}

module _ {A B C : Type 0} (redis : JoinRequestRedis A B C) where
  -- One operation, or time that passes. `completes_one` is the whole route; a completion that
  -- `begins_one` has begun ends by `aborts_one` or by `finishes_one`, with steps in between. The
  -- caller that finishes holds the request as it was when the completion began, approved, which
  -- is how it is still stored unless it has expired or was finished (Begun).
  pub data Step : World A B C → World A B C → Type 0 where
    waits : {w : World A B C} (later : ℕ) → w.now ≤ later → Step w (record w { now = later })
    asks :
        {w : World A B C} (fresh : Fresh) (joiner : Option Uuid) (name : Option String)
        → IsFresh w fresh
        → Step w
            (after_issue w fresh (create_device_request redis w.now fresh joiner name w.keys).1)
    invites :
        {w : World A B C} (fresh : Fresh) (approver : Uuid)
        → IsFresh w fresh
        → Step w (after_issue w fresh (create_invite redis w.now fresh approver w.keys).1)
    claims_one :
        {w : World A B C} (token : Secret) (approver : Uuid)
        → Step w (record w { keys = (claim_as_approver redis w.now token approver w.keys).1 })
    accepts_one :
        {w : World A B C} (token : Secret) (fresh : Fresh) (joiner : Option Uuid)
        (name : Option String)
        → Step w
            (record w { keys = (claim_as_device redis w.now token fresh joiner name w.keys).1 })
    approves_one :
        {w : World A B C} (id approver : Uuid) (code : List ℕ)
        → Step w (record w { keys = (approve redis w.now id approver code w.keys).1 })
    begins_one :
        {w : World A B C} (id : Uuid) (secret : Secret) (joiner : Option Uuid)
        → Step w (record w { keys = (begin_completion redis w.now id secret joiner w.keys).1 })
    completes_one :
        {w : World A B C} (id : Uuid) (secret : Secret) (joiner : Option Uuid)
        (join : JoinRequestRecord → Result (Unit {0}))
        → Step w (record w { keys = (join_complete redis w.now id secret joiner join w.keys).1 })
    aborts_one :
        {w : World A B C} (id : Uuid)
        → Step w (record w { keys = (abort_completion redis id w.keys).1 })
    finishes_one :
        {w : World A B C} (request : JoinRequestRecord)
        → is_approved request.state ≡ true
        → (w.now < request.expires_at
            → redis.requests.get w.keys.requests w.now request.id ≡ some request)
        → Step w (record w { keys = (finish_completion redis w.now request w.keys).1 })

  pub data Steps : World A B C → World A B C → Type 0 where
    done : {w : World A B C} → Steps w w
    more : {w mid w' : World A B C} → Step w mid → Steps mid w' → Steps w w'

  abbrev pub look : World A B C → Uuid → Option JoinRequestRecord
  look w id = redis.requests.get w.keys.requests w.now id

  -- What a step does to the requests: time passes, one moves, or a new one comes.
  pub data Effect (w : World A B C) : World A B C → Type 0 where
    passes : (later : ℕ) → w.now ≤ later → Effect w (record w { now = later })
    moves :
        {keys : JoinKeys A B C}
        → Wrote redis w.now w.keys.requests keys.requests
        → Effect w (record w { keys = keys })
    comes :
        (fresh : Fresh) (p : JoinRequestRecord) {keys : JoinKeys A B C}
        → IsFresh w fresh
        → p.id ≡ fresh.id
        → (p ≡ device_request w.now fresh p.joiner_user_id p.device_name)
          ⊎ ((approver : Uuid) × (p ≡ invite w.now fresh approver))
        → keys.requests ≡ redis.requests.set w.keys.requests w.now p.id p (p.expires_at - w.now)
        → Effect w (after_issue w fresh keys)

  begin_completion-requests :
      (now : ℕ) (id : Uuid) (secret : Secret) (joiner : Option Uuid) (s : JoinKeys A B C)
      → (begin_completion redis now id secret joiner s).1.requests ≡ s.requests
  begin_completion-requests now id secret joiner s =
      elim (begin_completion-cases redis now id secret joiner s) [
        | refuses e h ↦ rw h refl
        | begins p b ↦ rw b.gives refl
      ]

  pub create_record-requests :
      (now : ℕ) (fresh : Fresh) (p : JoinRequestRecord) (s : JoinKeys A B C)
      → now < p.expires_at
      → (create_record redis now fresh p s).1.requests
        ≡ redis.requests.set s.requests now p.id p (p.expires_at - now)
  unfolding create_record set_token
  create_record-requests now fresh p s l = rw (save-eq redis now p s l) refl

  pub Step-Effect : {w w' : World A B C} → Step w w' → Effect w w'
  unfolding create_device_request create_invite
  Step-Effect (waits later h) = passes later h
  Step-Effect (asks {w} fresh joiner name f) =
      comes fresh (device_request w.now fresh joiner name) f refl (inl refl)
        (create_record-requests w.now fresh _ w.keys (omega arith))
  Step-Effect (invites {w} fresh approver f) =
      comes fresh (invite w.now fresh approver) f refl (inr (approver, refl))
        (create_record-requests w.now fresh _ w.keys (omega arith))
  Step-Effect (claims_one {w} token approver) =
      moves (claim_as_approver-Wrote redis w.now token approver w.keys)
  Step-Effect (accepts_one {w} token fresh joiner name) =
      moves (claim_as_device-Wrote redis w.now token fresh joiner name w.keys)
  Step-Effect (approves_one {w} id approver code) =
      moves (approve-Wrote redis w.now id approver code w.keys)
  Step-Effect (begins_one {w} id secret joiner) =
      moves (rw (begin_completion-requests w.now id secret joiner w.keys) keeps)
  Step-Effect (completes_one {w} id secret joiner join) =
      moves (join_complete-Wrote redis w.now id secret joiner join w.keys)
  Step-Effect (aborts_one {w} id) = moves (abort_completion-Wrote redis w.now id w.keys)
  Step-Effect (finishes_one {w} request a f) =
      moves (finish_completion-Wrote redis w.now request w.keys a f)
