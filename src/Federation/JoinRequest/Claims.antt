-- ===== src/Federation/JoinRequest/Claims.antt =====
-- What `claimAsApprover` and `claimAsDevice` of server/src/federation/join-request.ts write, and what the
-- creation of a request does.
use cernere.Base.{ℕ, opt_eq, is_some, ◌&&◌, Bool-cases, Option, some, inl, inr, Uuid, String}
use cernere.Federation.JoinRequest.{
  JoinRequestRedis, JoinKeys, Secret, Fresh, from_device, claimed_by, claimed_for,
}
use cernere.Federation.JoinRequest.Operations.{claim_as_approver, claim_as_device}
use cernere.Federation.JoinRequest.Moves.{
  consume_token-cases, save-eq, Wrote, keeps, writes, claims_it, accepts, dropped,
}

module _ {A B C : Type 0} (redis : JoinRequestRedis A B C) where
  pub claim_as_approver-Wrote :
      (now : ℕ) (token : Secret) (approver : Uuid) (s : JoinKeys A B C)
      → Wrote redis now s.requests (claim_as_approver redis now token approver s).1.requests
  unfolding claim_as_approver
  claim_as_approver-Wrote now token approver s = elim (consume_token-cases redis now token s) [
    | inl (s', e, k) ↦ rw (e, k) keeps
    | inr (p, c) ↦ rw c.gives (elim (Bool-cases (from_device p.initiator)) [
      | inr i ↦ rw i keeps
      | inl i ↦ rw i (elim (Bool-cases (opt_eq p.joiner_user_id (some approver))) [
        | inl j ↦ rw j keeps
        | inr j ↦
            rw (j, save-eq redis now (claimed_by approver p) (dropped redis s token.digest) c.alive)
              (writes c.id p _ c.request_found c.alive (claims_it approver c.opened i j))
      ])
    ])
  ]

  pub claim_as_device-Wrote :
      (now : ℕ) (token : Secret) (fresh : Fresh) (joiner : Option Uuid) (name : Option String)
      (s : JoinKeys A B C)
      → Wrote redis now s.requests (claim_as_device redis now token fresh joiner name s).1.requests
  unfolding claim_as_device
  claim_as_device-Wrote now token fresh joiner name s =
      elim (consume_token-cases redis now token s) [
        | inl (s', e, k) ↦ rw (e, k) keeps
        | inr (p, c) ↦ rw c.gives (elim (Bool-cases (from_device p.initiator)) [
          | inl i ↦ rw i keeps
          | inr i ↦ rw i (elim (Bool-cases (is_some joiner && opt_eq joiner p.approver_user_id)) [
            | inl j ↦ rw j keeps
            | inr j ↦
                rw
                  (
                    j,
                    save-eq redis now (claimed_for fresh joiner name p)
                        (dropped redis s token.digest) c.alive,
                  )
                  (writes c.id p _ c.request_found c.alive (accepts fresh joiner name c.opened i j))
          ])
        ])
      ]
