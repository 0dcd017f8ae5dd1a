-- ===== src/Federation/JoinRequest/Runs.antt =====
-- What each operation of server/src/federation/join-request.ts does where nothing refuses it.
use cernere.Base.{
  ℕ, ◌+◌, ◌-◌, ◌*◌, ◌<◌, ◌≤◌, ltb, max, ◌&&◌, is_none, is_some, opt_eq, true, false, Option, none,
  some, Uuid, String, Result, ok, err, ◌≡◌, refl, arith,
}
use cernere.Federation.JoinRequest.{
  JoinRequestRecord, JoinRequestRedis, JoinKeys, Secret, Fresh, from_device, is_open_state,
  is_approved, claimed_by, claimed_for, same_digest, join_request_ttl_sec,
}
use cernere.Federation.JoinRequest.Operations.{
  create_record, set_token, take_token, consume_token, claim_as_approver, claim_as_device,
  begin_completion, set_completion, join_complete, finish_or_abort, finish_completion,
  abort_completion,
}
use cernere.Federation.JoinRequest.Moves.{save-eq, dropped}
use cernere.Federation.JoinRequest.Completion.{taken}
use cernere.Federation.JoinRequest.Tokens.{bad_shape}
use cernere.Federation.JoinRequest.Approval.{load-eq}

module _ {A B C : Type 0} (redis : JoinRequestRedis A B C) where
  pub saved_later :
      (s : A) (now id t : ℕ) (p : JoinRequestRecord)
      → now ≤ t
      → t < p.expires_at
      → redis.requests.get (redis.requests.set s now id p (p.expires_at - now)) t id ≡ some p
  saved_later s now id t p h l =
      let in_time : ltb t (now + (p.expires_at - now)) ≡ true = ground arith in
      rw (redis.requests.get-set s now id p (p.expires_at - now) t h, in_time) refl

  -- The store with a request.
  abbrev pub saved : ℕ → JoinRequestRecord → JoinKeys A B C → JoinKeys A B C
  saved now p s = record s {
    requests = redis.requests.set s.requests now p.id p (p.expires_at - now);
  }

  -- The store with a new request and its token.
  abbrev pub created : ℕ → Fresh → JoinRequestRecord → JoinKeys A B C → JoinKeys A B C
  created now fresh p s = record (saved now p s) {
    tokens = redis.tokens.set s.tokens now fresh.token_digest p.id (join_request_ttl_sec * 1000);
  }

  pub create_record-eq :
      (now : ℕ) (fresh : Fresh) (p : JoinRequestRecord) (s : JoinKeys A B C)
      → now < p.expires_at
      → create_record redis now fresh p s ≡ (ok p, created now fresh p s)
  unfolding create_record set_token
  create_record-eq now fresh p s l = rw (save-eq redis now p s l) refl

  -- A token that names a request that is open and alive.
  pub record Names (now : ℕ) (token : Secret) (s : JoinKeys A B C) (p : JoinRequestRecord)
      : Type 0 where
    pub shape : bad_shape token ≡ false
    pub named : redis.tokens.get s.tokens now token.digest ≡ some p.id
    pub found : redis.requests.get s.requests now p.id ≡ some p
    pub alive : now < p.expires_at
    pub opened : is_open_state p.state ≡ true

  Names-consume_token :
      (now : ℕ) (token : Secret) (s : JoinKeys A B C) (p : JoinRequestRecord)
      → Names now token s p
      → consume_token redis now token s ≡ (ok p, dropped redis s token.digest)
  unfolding consume_token take_token
  Names-consume_token now token s p n =
      rw
        (
          n.shape,
          redis.tokens.getdel-eq s.tokens now token.digest,
          n.named,
          load-eq redis now p.id (dropped redis s token.digest) p n.found n.alive,
          n.opened,
        )
        refl

  pub claim_as_approver-eq :
      (now : ℕ) (token : Secret) (a : Uuid) (s : JoinKeys A B C) (p : JoinRequestRecord)
      → Names now token s p
      → from_device p.initiator ≡ true
      → opt_eq p.joiner_user_id (some a) ≡ false
      → (claim_as_approver redis now token a s).1
        ≡ saved now (claimed_by a p) (dropped redis s token.digest)
  unfolding claim_as_approver
  claim_as_approver-eq now token a s p n i j =
      rw
        (
          Names-consume_token now token s p n,
          i,
          j,
          save-eq redis now (claimed_by a p) (dropped redis s token.digest) n.alive,
        )
        refl

  pub claim_as_device-eq :
      (now : ℕ) (token : Secret) (fresh : Fresh) (joiner : Option Uuid) (name : Option String)
      (s : JoinKeys A B C) (p : JoinRequestRecord)
      → Names now token s p
      → from_device p.initiator ≡ false
      → (is_some joiner && opt_eq joiner p.approver_user_id) ≡ false
      → (claim_as_device redis now token fresh joiner name s).1
        ≡ saved now (claimed_for fresh joiner name p) (dropped redis s token.digest)
  unfolding claim_as_device
  claim_as_device-eq now token fresh joiner name s p n i j =
      rw
        (
          Names-consume_token now token s p n,
          i,
          j,
          save-eq redis now (claimed_for fresh joiner name p) (dropped redis s token.digest)
              n.alive,
        )
        refl

  -- An approved request, its device and its account.
  pub record IsCompletable (now : ℕ) (secret : Secret) (joiner : Option Uuid) (s : JoinKeys A B C)
      (p : JoinRequestRecord) : Type 0 where
    pub found : redis.requests.get s.requests now p.id ≡ some p
    pub alive : now < p.expires_at
    pub proves : same_digest p.device_secret_digest secret ≡ true
    pub in_state : is_approved p.state ≡ true
    pub approver : is_none p.approver_user_id ≡ false
    pub same_joiner : opt_eq p.joiner_user_id joiner ≡ true
    pub not_taken : redis.completions.get s.completions now p.id ≡ none

  finish_or_abort-result :
      {T : Type 0} (now : ℕ) (id : Uuid) (p : JoinRequestRecord) (r : Result T) (s : JoinKeys A B C)
      → (finish_or_abort redis now id p r s).0 ≡ r
  unfolding finish_or_abort finish_completion abort_completion
  finish_or_abort-result now id p (err e) s = refl
  finish_or_abort-result now id p (ok t) s = refl

  pub IsCompletable-join_complete :
      {T : Type 0} (now : ℕ) (secret : Secret) (joiner : Option Uuid) (s : JoinKeys A B C)
      (p : JoinRequestRecord) (join : JoinRequestRecord → Result T)
      → IsCompletable now secret joiner s p
      → (join_complete redis now p.id secret joiner join s).0 ≡ join p
  unfolding join_complete begin_completion set_completion
  IsCompletable-join_complete now secret joiner s p join c =
      rw
        (
          load-eq redis now p.id s p c.found c.alive,
          c.proves,
          c.in_state,
          c.approver,
          c.same_joiner,
          redis.completions.setnx-eq s.completions now p.id tt (max 1 (p.expires_at - now)),
          c.not_taken,
        )
        (finish_or_abort-result now p.id p (join p) (taken redis now p p.id s))
