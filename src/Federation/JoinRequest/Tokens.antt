-- ===== src/Federation/JoinRequest/Tokens.antt =====
-- That a token of server/src/federation/join-request.ts is read once.
use cernere.Base.{
  ℕ, ◌*◌, ◌==◌, ==_iff, leb, any, not, ◌||◌, Bool, Bool-cases, true, false, Option, Option-cases,
  none, inl, inr, ◌∷◌, Uuid, ◌≡◌, ◌≢◌, refl, ◌∙◌, arith, subst,
}
use cernere.Auth.Tables.{OpaqueText}
use cernere.Federation.JoinRequest.{JoinRequestRedis, JoinKeys, Secret, Fresh, join_request_ttl_sec}
use cernere.Federation.JoinRequest.Operations.{
  set_token, take_token, create_device_request, create_invite, begin_completion, join_complete,
  abort_completion,
}
use cernere.Federation.JoinRequest.Completion.{begin_completion-cases, refuses, begins}
use cernere.Federation.JoinRequest.Keeps.{
  Keeps, IgnoresRequests, >>=-Keeps, consume_token-Keeps, claim_as_approver-keeps,
  claim_as_device-keeps, approve-Keeps, create_record-Keeps, finish_or_abort-Keeps,
  finish_completion-Keeps,
}
use cernere.Federation.JoinRequest.History.{
  World, IsFresh, Step, Steps, done, more, waits, asks, invites, claims_one, accepts_one,
  approves_one, begins_one, completes_one, aborts_one, finishes_one,
}

-- What the first line of `consumeToken` refuses.
abbrev pub bad_shape : Secret → Bool
bad_shape token = token.length == 0 || not (leb token.length 512)

module _ {A B C : Type 0} (redis : JoinRequestRedis A B C) where
  -- At this instant the token is not in the store.
  abbrev pub Absent : ℕ → OpaqueText → JoinKeys A B C → Type 0
  Absent now digest s = redis.tokens.get s.tokens now digest ≡ none

  -- The token was given out and is no longer in the store.
  pub record IsSpent (w : World A B C) (digest : OpaqueText) : Type 0 where
    pub absent : Absent w.now digest w.keys
    pub was_printed : any (λ d. d == digest) w.printed ≡ true

  take_token-Keeps :
      (now : ℕ) (digest d : OpaqueText) → Keeps redis (Absent now digest) (take_token redis now d)
  unfolding take_token
  take_token-Keeps now digest d = record {
    run = λ s h. rw (redis.tokens.getdel-eq s.tokens now d) (elim (Bool-cases (d == digest)) [
      | inl e ↦
          subst (λ j. redis.tokens.get (redis.tokens.del s.tokens d) now j ≡ none)
            ((==_iff d digest).0 e) (redis.tokens.get-del s.tokens d now)
      | inr e ↦ redis.tokens.get-del_other s.tokens d digest now (λ i. ground (arith, e)) ∙ h
    ]);
  }

  set_token-Keeps :
      (now : ℕ) (digest d : OpaqueText) (id : Uuid)
      → d ≢ digest
      → Keeps redis (Absent now digest) (set_token redis now d id)
  unfolding set_token
  set_token-Keeps now digest d id n = record {
    run = λ s h.
        redis.tokens.get-set_other s.tokens now d digest id (join_request_ttl_sec * 1000) now n ∙ h;
  }

  abort_completion-Keeps :
      (now : ℕ) (digest : OpaqueText) (id : Uuid)
      → Keeps redis (Absent now digest) (abort_completion redis id)
  unfolding abort_completion
  abort_completion-Keeps now digest id = record { run = λ s h. h }

  begin_completion-Keeps :
      (now : ℕ) (digest : OpaqueText) (id : Uuid) (secret : Secret) (joiner : Option Uuid)
      → Keeps redis (Absent now digest) (begin_completion redis now id secret joiner)
  begin_completion-Keeps now digest id secret joiner = record {
    run = λ s h. elim (begin_completion-cases redis now id secret joiner s) [
      | refuses e f ↦ rw f h
      | begins p b ↦ rw b.gives h
    ];
  }

  pub ignores : (now : ℕ) (digest : OpaqueText) → IgnoresRequests redis (Absent now digest)
  ignores now digest s a h = h

  fresh_is_other :
      {w : World A B C} {fresh : Fresh} {digest : OpaqueText}
      → IsFresh w fresh
      → IsSpent w digest
      → fresh.token_digest ≢ digest
  fresh_is_other {w} {fresh} f v e =
      cc (v.was_printed, subst (λ d. any (λ x. x == d) w.printed ≡ false) e f.new_token)

  still_printed :
      {w : World A B C} {digest : OpaqueText} (d : OpaqueText)
      → IsSpent w digest
      → any (λ x. x == digest) (d ∷ w.printed) ≡ true
  unfolding any
  still_printed {w} {digest} d v = elim (Bool-cases (d == digest)) [
    | inl e ↦ rw e refl
    | inr e ↦ rw e v.was_printed
  ]

  Step-IsSpent :
      {w w' : World A B C} {digest : OpaqueText}
      → Step redis w w'
      → IsSpent w digest
      → IsSpent w' digest
  unfolding create_device_request create_invite join_complete abort_completion
  Step-IsSpent {w} {digest = digest} (waits later h) v = record {
    absent = elim (Option-cases (redis.tokens.get w.keys.tokens later digest)) [
      | inl e ↦ e
      | inr (id, e) ↦ cc (v.absent, redis.tokens.get_earlier w.keys.tokens w.now later digest h e)
    ];
    was_printed = v.was_printed;
  }
  Step-IsSpent {w} {digest = digest} (asks fresh joiner name f) v = record {
    absent =
        (create_record-Keeps redis (Absent w.now digest) (ignores w.now digest) w.now fresh _
            (set_token-Keeps w.now digest fresh.token_digest _ (fresh_is_other f v))).run
          w.keys v.absent;
    was_printed = still_printed fresh.token_digest v;
  }
  Step-IsSpent {w} {digest = digest} (invites fresh approver f) v = record {
    absent =
        (create_record-Keeps redis (Absent w.now digest) (ignores w.now digest) w.now fresh _
            (set_token-Keeps w.now digest fresh.token_digest _ (fresh_is_other f v))).run
          w.keys v.absent;
    was_printed = still_printed fresh.token_digest v;
  }
  Step-IsSpent {w} {digest = digest} (claims_one token approver) v = record {
    absent =
        claim_as_approver-keeps redis (Absent w.now digest) (ignores w.now digest) w.now token
          approver w.keys
          ((consume_token-Keeps redis (Absent w.now digest) w.now token
              (take_token-Keeps w.now digest token.digest)).run
            w.keys v.absent);
    was_printed = v.was_printed;
  }
  Step-IsSpent {w} {digest = digest} (accepts_one token fresh joiner name) v = record {
    absent =
        claim_as_device-keeps redis (Absent w.now digest) (ignores w.now digest) w.now token fresh
          joiner name w.keys
          ((consume_token-Keeps redis (Absent w.now digest) w.now token
              (take_token-Keeps w.now digest token.digest)).run
            w.keys v.absent);
    was_printed = v.was_printed;
  }
  Step-IsSpent {w} {digest = digest} (approves_one id approver code) v = record {
    absent =
        (approve-Keeps redis (Absent w.now digest) (ignores w.now digest) w.now id approver
            code).run
          w.keys v.absent;
    was_printed = v.was_printed;
  }
  Step-IsSpent {w} {digest = digest} (begins_one id secret joiner) v = record {
    absent = (begin_completion-Keeps w.now digest id secret joiner).run w.keys v.absent;
    was_printed = v.was_printed;
  }
  Step-IsSpent {w} {digest = digest} (completes_one id secret joiner join) v = record {
    absent =
        (>>=-Keeps redis (Absent w.now digest) (begin_completion redis w.now id secret joiner) _
            (begin_completion-Keeps w.now digest id secret joiner)
            (λ p.
              finish_or_abort-Keeps redis (Absent w.now digest) (ignores w.now digest) w.now id p
                (join p) (record { run = λ s h. h }))).run
          w.keys v.absent;
    was_printed = v.was_printed;
  }
  Step-IsSpent {w} {digest = digest} (aborts_one id) v = record {
    absent = (abort_completion-Keeps w.now digest id).run w.keys v.absent;
    was_printed = v.was_printed;
  }
  Step-IsSpent {w} {digest = digest} (finishes_one request a f) v = record {
    absent =
        (finish_completion-Keeps redis (Absent w.now digest) (ignores w.now digest) w.now
            request).run
          w.keys v.absent;
    was_printed = v.was_printed;
  }

  pub Steps-IsSpent :
      {w w' : World A B C} {digest : OpaqueText}
      → Steps redis w w'
      → IsSpent w digest
      → IsSpent w' digest
  Steps-IsSpent done v = v
  Steps-IsSpent (more s r) v = Steps-IsSpent r (Step-IsSpent s v)
