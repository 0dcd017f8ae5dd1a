-- ===== src/Federation/JoinRequest/Claimed.antt =====
-- The second reading of a token of server/src/federation/join-request.ts, on either side.
use cernere.Base.{
  ℕ, ◌==◌, any, Bool-cases, true, false, Option, inl, inr, Uuid, String, ◌≡◌, refl, err,
}
use cernere.Federation.JoinRequest.{JoinRequestRedis, JoinKeys, Secret, Fresh, expired}
use cernere.Federation.JoinRequest.Operations.{
  take_token, consume_token, claim_as_approver, claim_as_device,
}
use cernere.Federation.JoinRequest.History.{World, Steps}
use cernere.Federation.JoinRequest.Keeps.{
  consume_token-takes, claim_as_approver-keeps, claim_as_device-keeps,
}
use cernere.Federation.JoinRequest.Tokens.{bad_shape, Absent, ignores, Steps-IsSpent}

module _ {A B C : Type 0} (redis : JoinRequestRedis A B C) where
  -- No reading of the token succeeds, by either side.
  pub record IsUsed (w : World A B C) (token : Secret) : Type 0 where
    pub no_claim :
        (approver : Uuid) → (claim_as_approver redis w.now token approver w.keys).0 ≡ err expired
    pub no_acceptance :
        (fresh : Fresh) (joiner : Option Uuid) (name : Option String)
        → (claim_as_device redis w.now token fresh joiner name w.keys).0 ≡ err expired

  Absent-consume_token :
      (w : World A B C) (token : Secret)
      → Absent redis w.now token.digest w.keys
      → (consume_token redis w.now token w.keys).0 ≡ err expired
  unfolding consume_token take_token
  Absent-consume_token w token h = elim (Bool-cases (bad_shape token)) [
    | inl b ↦ rw b refl
    | inr b ↦ rw (b, redis.tokens.getdel-eq w.keys.tokens w.now token.digest, h) refl
  ]

  Absent-IsUsed :
      (w : World A B C) (token : Secret) → Absent redis w.now token.digest w.keys → IsUsed w token
  unfolding claim_as_approver claim_as_device
  Absent-IsUsed w token h = record {
    no_claim = λ approver. rw (Absent-consume_token w token h) refl;
    no_acceptance = λ fresh joiner name. rw (Absent-consume_token w token h) refl;
  }

  taken_away :
      (now : ℕ) (token : Secret) (s : JoinKeys A B C)
      → bad_shape token ≡ false
      → Absent redis now token.digest (consume_token redis now token s).1
  unfolding take_token
  taken_away now token s b =
      consume_token-takes redis (Absent redis now token.digest) now token s b (
        rw (redis.tokens.getdel-eq s.tokens now token.digest)
          (redis.tokens.get-del s.tokens token.digest now))

  -- After a token of the right shape that was given out has been read by an approver, with whatever
  -- result, and whatever sequence of operations and of time follows, each reading of it, by an
  -- approver or by a device, answers that it has expired.
  pub claim_as_approver-once :
      (w w' : World A B C) (token : Secret) (approver : Uuid)
      → bad_shape token ≡ false
      → any (λ d. d == token.digest) w.printed ≡ true
      → Steps redis (record w { keys = (claim_as_approver redis w.now token approver w.keys).1 }) w'
      → IsUsed w' token
  claim_as_approver-once w w' token approver b p s =
      Absent-IsUsed w' token
        (Steps-IsSpent redis s record {
          absent =
              claim_as_approver-keeps redis (Absent redis w.now token.digest)
                (ignores redis w.now token.digest) w.now token approver w.keys
                (taken_away w.now token w.keys b);
          was_printed = p;
        }).absent

  -- doc
  pub claim_as_device-once :
      (w w' : World A B C) (token : Secret) (fresh : Fresh) (joiner : Option Uuid)
      (name : Option String)
      → bad_shape token ≡ false
      → any (λ d. d == token.digest) w.printed ≡ true
      → Steps redis
          (record w { keys = (claim_as_device redis w.now token fresh joiner name w.keys).1 })
          w'
      → IsUsed w' token
  claim_as_device-once w w' token fresh joiner name b p s =
      Absent-IsUsed w' token
        (Steps-IsSpent redis s record {
          absent =
              claim_as_device-keeps redis (Absent redis w.now token.digest)
                (ignores redis w.now token.digest) w.now token fresh joiner name w.keys
                (taken_away w.now token w.keys b);
          was_printed = p;
        }).absent
