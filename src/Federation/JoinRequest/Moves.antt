-- ===== src/Federation/JoinRequest/Moves.antt =====
-- How an operation of server/src/federation/join-request.ts changes a stored request.
use cernere.Base.{
  ℕ, ◌-◌, ◌<◌, ◌==◌, leb, opt_eq, or_else, is_some, not, ◌&&◌, ◌||◌, Bool-cases, Option-cases, true,
  false, Option, some, inl, inr, ◌⊎◌, List, [], String, Uuid, ok, err, ◌≡◌, refl, arith,
}
use cernere.Auth.Tables.{OpaqueText}
use cernere.Federation.Policy.{JoinCodeCheck, match, retry, locked, check_join_code}
use cernere.Federation.JoinRequest.{
  JoinRequestRecord, JoinRequestRedis, JoinKeys, Secret, Fresh, approved, completed, locked_state,
  expired, is_open_state, is_claimed, is_approved, from_device, claimed_by, claimed_for, with_miss,
}
use cernere.Federation.JoinRequest.Operations.{
  load, save, take_token, consume_token, approve, settle_code,
}

-- One change of a request, with what the operation has tested.
pub data RequestMove : JoinRequestRecord → JoinRequestRecord → Type 0 where
  claims_it :
      {p : JoinRequestRecord} (approver_user_id : Uuid)
      → is_open_state p.state ≡ true
      → from_device p.initiator ≡ true
      → opt_eq p.joiner_user_id (some approver_user_id) ≡ false
      → RequestMove p (claimed_by approver_user_id p)
  accepts :
      {p : JoinRequestRecord} (fresh : Fresh) (joiner : Option Uuid) (name : Option String)
      → is_open_state p.state ≡ true
      → from_device p.initiator ≡ false
      → (is_some joiner && opt_eq joiner p.approver_user_id) ≡ false
      → RequestMove p (claimed_for fresh joiner name p)
  approves :
      {p : JoinRequestRecord} (code : List ℕ)
      → is_claimed p.state ≡ true
      → check_join_code (or_else p.code []) code p.code_attempts ≡ match
      → RequestMove p (record p { state = approved })
  misses :
      {p : JoinRequestRecord} (code : List ℕ)
      → is_claimed p.state ≡ true
      → check_join_code (or_else p.code []) code p.code_attempts ≡ retry
      → RequestMove p (with_miss p)
  locks :
      {p : JoinRequestRecord} (code : List ℕ)
      → is_claimed p.state ≡ true
      → check_join_code (or_else p.code []) code p.code_attempts ≡ locked
      → RequestMove p (record (with_miss p) { state = locked_state })
  completes :
      {p : JoinRequestRecord}
      → is_approved p.state ≡ true
      → RequestMove p (record p { state = completed })

module _ {A B C : Type 0} (redis : JoinRequestRedis A B C) where
  -- Either there is nothing alive to load, or what is loaded has not expired.
  pub load-cases :
      (now : ℕ) (id : Uuid) (s : JoinKeys A B C)
      → (load redis now id s ≡ (err expired, s))
        ⊎ ((p : JoinRequestRecord) × (redis.requests.get s.requests now id ≡ some p)
            × (now < p.expires_at)
            × (load redis now id s ≡ (ok p, s)))
  unfolding load
  load-cases now id s = elim (Option-cases (redis.requests.get s.requests now id)) [
    | inl e ↦ inl (rw e refl)
    | inr (p, e) ↦ elim (Bool-cases (leb p.expires_at now)) [
      | inl l ↦ inl (rw (e, l) refl)
      | inr l ↦ inr (p, e, ground arith, rw (e, l) refl)
    ]
  ]

  -- A request that has not expired is saved.
  pub save-eq :
      (now : ℕ) (q : JoinRequestRecord) (s : JoinKeys A B C)
      → now < q.expires_at
      → save redis now q s ≡ (
        ok tt,
        record s { requests = redis.requests.set s.requests now q.id q (q.expires_at - now) },
      )
  unfolding save
  save-eq now q s l = let alive : leb q.expires_at now ≡ false = ground arith in rw alive refl

  -- The requests are as they were, or one that was there has moved.
  pub data Wrote (now : ℕ) (s : A) : A → Type 0 where
    keeps : Wrote now s s
    writes :
        (id : Uuid) (p q : JoinRequestRecord)
        → redis.requests.get s now id ≡ some p
        → now < q.expires_at
        → RequestMove p q
        → Wrote now s (redis.requests.set s now q.id q (q.expires_at - now))

  settled :
      (now : ℕ) (id : Uuid) (p : JoinRequestRecord) (code : List ℕ) (s : JoinKeys A B C)
      (check : JoinCodeCheck)
      → redis.requests.get s.requests now id ≡ some p
      → now < p.expires_at
      → is_claimed p.state ≡ true
      → check_join_code (or_else p.code []) code p.code_attempts ≡ check
      → Wrote now s.requests (settle_code redis now p check s).1.requests
  unfolding settle_code
  settled now id p code s match f l c m =
      rw (save-eq now (record p { state = approved }) s l) (writes id p _ f l (approves code c m))
  settled now id p code s retry f l c m =
      rw (save-eq now (with_miss p) s l) (writes id p _ f l (misses code c m))
  settled now id p code s locked f l c m =
      rw (save-eq now (record (with_miss p) { state = locked_state }) s l)
        (writes id p _ f l (locks code c m))

  pub approve-Wrote :
      (now : ℕ) (id approver_user_id : Uuid) (code : List ℕ) (s : JoinKeys A B C)
      → Wrote now s.requests (approve redis now id approver_user_id code s).1.requests
  unfolding approve
  approve-Wrote now id approver_user_id code s = elim (load-cases now id s) [
    | inl e ↦ rw e keeps
    | inr (p, f, l, e) ↦
        rw e (elim (Bool-cases (opt_eq p.approver_user_id (some approver_user_id))) [
          | inr a ↦ rw a keeps
          | inl a ↦ rw a (elim (Bool-cases (is_claimed p.state)) [
            | inr c ↦ rw c keeps
            | inl c ↦ rw c (settled now id p code s _ f l c refl)
          ])
        ])
  ]

  -- The store without a token.
  abbrev pub dropped : JoinKeys A B C → OpaqueText → JoinKeys A B C
  dropped s digest = record s { tokens = redis.tokens.del s.tokens digest }

  -- What reading a token gives, and what it leaves.
  pub record Consumed (now : ℕ) (token : Secret) (s : JoinKeys A B C) (p : JoinRequestRecord)
      : Type 0 where
    pub id : Uuid
    pub token_found : redis.tokens.get s.tokens now token.digest ≡ some id
    pub request_found : redis.requests.get s.requests now id ≡ some p
    pub alive : now < p.expires_at
    pub opened : is_open_state p.state ≡ true
    pub gives : consume_token redis now token s ≡ (ok p, dropped s token.digest)

  pub consume_token-cases :
      (now : ℕ) (token : Secret) (s : JoinKeys A B C)
      → ((s' : JoinKeys A B C) × (consume_token redis now token s ≡ (err expired, s'))
          × (s'.requests ≡ s.requests))
        ⊎ ((p : JoinRequestRecord) × Consumed now token s p)
  unfolding consume_token take_token
  consume_token-cases now token s =
      elim (Bool-cases (token.length == 0 || not (leb token.length 512))) [
        | inl b ↦ inl (s, rw b refl, refl)
        | inr b ↦ elim (Option-cases (redis.tokens.get s.tokens now token.digest)) [
          | inl t ↦ inl (
            dropped s token.digest,
            rw (b, redis.tokens.getdel-eq s.tokens now token.digest, t) refl,
            refl,
          )
          | inr (id, t) ↦ elim (load-cases now id (dropped s token.digest)) [
            | inl e ↦ inl (
              dropped s token.digest,
              rw (b, redis.tokens.getdel-eq s.tokens now token.digest, t, e) refl,
              refl,
            )
            | inr (p, f, l, e) ↦ elim (Bool-cases (is_open_state p.state)) [
              | inr o ↦ inl (
                dropped s token.digest,
                rw (b, redis.tokens.getdel-eq s.tokens now token.digest, t, e, o) refl,
                refl,
              )
              | inl o ↦ inr (
                p,
                record {
                  id = id;
                  token_found = t;
                  request_found = f;
                  alive = l;
                  opened = o;
                  gives = rw (b, redis.tokens.getdel-eq s.tokens now token.digest, t, e, o) refl;
                },
              )
            ]
          ]
        ]
      ]
