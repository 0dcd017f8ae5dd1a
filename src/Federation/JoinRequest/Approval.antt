-- ===== src/Federation/JoinRequest/Approval.antt =====
-- Exactly when `approve` of server/src/federation/join-request.ts approves, and what it leaves.
use cernere.Base.{
  is_ok, ℕ, ◌-◌, ◌<◌, leb, opt_eq, or_else, Bool-cases, true, false, some, inl, inr, List, [], Uuid,
  ok, ◌≡◌, ◌↔◌, refl, ap, arith,
}
use cernere.Federation.Policy.{match, retry, locked, JoinCodeCheck, check_join_code, is_four_digits}
use cernere.Federation.Policy.JoinCode.{check_join_code-match_iff}
use cernere.Federation.JoinRequest.{
  JoinRequestRecord, JoinRequestRedis, JoinKeys, approved, is_claimed, view, new_code, with_miss,
  locked_state,
}
use cernere.Federation.JoinRequest.Operations.{load, approve, settle_code}
use cernere.Federation.JoinRequest.Moves.{load-cases, save-eq}

-- The number that is shown is four digits.
pub new_code-is_four_digits : (n : ℕ) → n < 10000 → is_four_digits (new_code n) ≡ true
unfolding new_code is_four_digits
new_code-is_four_digits n h = ground arith

module _ {A B C : Type 0} (redis : JoinRequestRedis A B C) where
  pub load-eq :
      (now : ℕ) (id : Uuid) (s : JoinKeys A B C) (p : JoinRequestRecord)
      → redis.requests.get s.requests now id ≡ some p
      → now < p.expires_at
      → load redis now id s ≡ (ok p, s)
  unfolding load
  load-eq now id s p f l =
      let alive : leb p.expires_at now ≡ false = ground arith in rw (f, alive) refl

  -- The request is there, is claimed and is of the approver, and the code is its number.
  pub record IsApprovable (now : ℕ) (id approver : Uuid) (code : List ℕ) (s : JoinKeys A B C)
      (p : JoinRequestRecord) : Type 0 where
    pub found : redis.requests.get s.requests now id ≡ some p
    pub alive : now < p.expires_at
    pub by_approver : opt_eq p.approver_user_id (some approver) ≡ true
    pub in_state : is_claimed p.state ≡ true
    pub four : is_four_digits (or_else p.code []) ≡ true
    pub same_code : or_else p.code [] ≡ code

  -- The store with the request approved.
  abbrev pub approved_in : ℕ → JoinRequestRecord → JoinKeys A B C → JoinKeys A B C
  approved_in now p s = record s {
    requests =
        redis.requests.set s.requests now p.id (record p { state = approved }) (p.expires_at - now);
  }

  pub IsApprovable-approve :
      (now : ℕ) (id approver : Uuid) (code : List ℕ) (s : JoinKeys A B C) (p : JoinRequestRecord)
      → IsApprovable now id approver code s p
      → approve redis now id approver code s
        ≡ (ok (view (record p { state = approved }) now), approved_in now p s)
  unfolding approve settle_code
  IsApprovable-approve now id approver code s p v =
      let matches : check_join_code (or_else p.code []) code p.code_attempts ≡ match =
        (check_join_code-match_iff (or_else p.code []) code p.code_attempts).1
          (v.four, v.same_code) in
      rw
        (
          load-eq now id s p v.found v.alive,
          v.by_approver,
          v.in_state,
          matches,
          save-eq redis now (record p { state = approved }) s v.alive,
        )
        refl

  settle_code-is_ok :
      (now : ℕ) (p : JoinRequestRecord) (check : JoinCodeCheck) (s : JoinKeys A B C)
      → now < p.expires_at
      → is_ok (settle_code redis now p check s).0 ≡ true
      → check ≡ match
  unfolding settle_code
  settle_code-is_ok now p match s l h = refl
  settle_code-is_ok now p retry s l h = cc (rw (save-eq redis now (with_miss p) s l) at h)
  settle_code-is_ok now p locked s l h =
      cc (rw (save-eq redis now (record (with_miss p) { state = locked_state }) s l) at h)

  approve_ok-IsApprovable :
      (now : ℕ) (id approver : Uuid) (code : List ℕ) (s : JoinKeys A B C)
      → is_ok (approve redis now id approver code s).0 ≡ true
      → (p : JoinRequestRecord) × IsApprovable now id approver code s p
  unfolding approve
  approve_ok-IsApprovable now id approver code s = elim (load-cases redis now id s) [
    | inl e ↦ rw e (λ h. cc)
    | inr (p, f, l, e) ↦ rw e (elim (Bool-cases (opt_eq p.approver_user_id (some approver))) [
      | inr a ↦ rw a (λ h. cc)
      | inl a ↦ rw a (elim (Bool-cases (is_claimed p.state)) [
        | inr c ↦ rw c (λ h. cc)
        | inl c ↦ rw c (λ h.
            let m =
              (check_join_code-match_iff (or_else p.code []) code p.code_attempts).0
                (settle_code-is_ok now p _ s l h) in
            (
              p,
              record {
                found = f;
                alive = l;
                by_approver = a;
                in_state = c;
                four = m.0;
                same_code = m.1;
              },
            ))
      ])
    ])
  ]

  -- An approval succeeds exactly where the request is there and has not expired, is claimed and is
  -- that approver's, and the code given is the request's number of four digits.
  pub approve-ok_iff :
      (now : ℕ) (id approver : Uuid) (code : List ℕ) (s : JoinKeys A B C)
      → (is_ok (approve redis now id approver code s).0 ≡ true)
        ↔ ((p : JoinRequestRecord) × IsApprovable now id approver code s p)
  approve-ok_iff now id approver code s = (
    approve_ok-IsApprovable now id approver code s,
    λ v. ap (λ r. is_ok r.0) (IsApprovable-approve now id approver code s v.0 v.1),
  )
