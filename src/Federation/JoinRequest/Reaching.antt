-- ===== src/Federation/JoinRequest/Reaching.antt =====
-- That the two ways of joining of server/src/federation/join-request.ts reach their end.
use cernere.Base.{
  ℕ, ◌+◌, ◌*◌, ◌<◌, ◌≤◌, ==_self, ltb, ◌&&◌, is_some, opt_eq, true, false, Option, none, some, List,
  Uuid, String, Result, ◌≡◌, refl, arith,
}
use cernere.Federation.Policy.{is_four_digits}
use cernere.Federation.JoinRequest.{
  JoinRequestRecord, JoinRequestRedis, JoinKeys, Secret, Fresh, approved, same_digest, claimed_by,
  claimed_for, is_open_state, is_claimed, device_request, invite, new_code, join_request_ttl_sec,
}
use cernere.Federation.JoinRequest.Operations.{
  create_device_request, create_invite, claim_as_approver, claim_as_device, approve, join_complete,
}
use cernere.Federation.JoinRequest.Moves.{dropped}
use cernere.Federation.JoinRequest.Tokens.{bad_shape}
use cernere.Federation.JoinRequest.Approval.{
  IsApprovable, IsApprovable-approve, approved_in, new_code-is_four_digits,
}
use cernere.Federation.JoinRequest.Runs.{
  saved, saved_later, created, create_record-eq, Names, claim_as_approver-eq, claim_as_device-eq,
  IsCompletable-join_complete,
}

-- The instants of the four calls, all before the request ends.
pub record IsTimely (now t1 t2 t3 : ℕ) : Type 0 where
  pub first : now ≤ t1
  pub second : t1 ≤ t2
  pub third : t2 ≤ t3
  pub in_time : t3 < now + join_request_ttl_sec * 1000

-- What the two sides present is what they were given.
pub record IsPresented (token_digest : ℕ) (fresh : Fresh) (qr secret : Secret) : Type 0 where
  pub shape : bad_shape qr ≡ false
  pub same_token : qr.digest ≡ token_digest
  pub proves : same_digest (some fresh.secret_digest) secret ≡ true
  pub in_range : fresh.random < 10000

opt_eq_self : (o : Option ℕ) → opt_eq o o ≡ true
opt_eq_self none = refl
opt_eq_self (some a) = ==_self a

module _ {A B C : Type 0} (redis : JoinRequestRedis A B C) where
  token_later :
      (s : B) (now digest id t ttl : ℕ)
      → now ≤ t
      → t < now + ttl
      → redis.tokens.get (redis.tokens.set s now digest id ttl) t digest ≡ some id
  token_later s now digest id t ttl h l =
      let in_time : ltb t (now + ttl) ≡ true = ground arith in
      rw (redis.tokens.get-set s now digest id ttl t h, in_time) refl

  created-Names :
      (now t : ℕ) (fresh : Fresh) (qr : Secret) (p : JoinRequestRecord) (s : JoinKeys A B C)
      → bad_shape qr ≡ false
      → qr.digest ≡ fresh.token_digest
      → now ≤ t
      → t < now + join_request_ttl_sec * 1000
      → p.expires_at ≡ now + join_request_ttl_sec * 1000
      → is_open_state p.state ≡ true
      → Names redis t qr (created redis now fresh p s) p
  created-Names now t fresh qr p s b d h l e o = record {
    shape = b;
    named = rw d (token_later s.tokens now fresh.token_digest p.id t _ h l);
    found = saved_later redis s.requests now p.id t p h (omega (arith, e, l));
    alive = omega (arith, e, l);
    opened = o;
  }

  saved-IsApprovable :
      (now t : ℕ) (a : Uuid) (code : List ℕ) (s : JoinKeys A B C) (p : JoinRequestRecord)
      → now ≤ t
      → t < p.expires_at
      → opt_eq p.approver_user_id (some a) ≡ true
      → is_claimed p.state ≡ true
      → is_four_digits code ≡ true
      → p.code ≡ some code
      → IsApprovable redis t p.id a code (saved redis now p s) p
  saved-IsApprovable now t a code s p h l b c d e = record {
    found = saved_later redis s.requests now p.id t p h l;
    alive = l;
    by_approver = b;
    in_state = c;
    four = rw e d;
    same_code = rw e refl;
  }

  -- A request made on a device reaches the join: in any store in which its completion is not taken,
  -- if the scan, the approval with the number shown and the completion follow within ten minutes,
  -- with the token and the secret that were given, by an approver who is not the joining account,
  -- then the completion gives what joining gives for the approved request.
  pub join_from_device :
      {T : Type 0} (now t1 t2 t3 : ℕ) (fresh : Fresh) (joiner : Option Uuid) (name : Option String)
      (a : Uuid) (qr secret : Secret) (join : JoinRequestRecord → Result T) (s : JoinKeys A B C)
      → IsTimely now t1 t2 t3
      → IsPresented fresh.token_digest fresh qr secret
      → opt_eq joiner (some a) ≡ false
      → redis.completions.get s.completions t3 fresh.id ≡ none
      → let s1 = (create_device_request redis now fresh joiner name s).1 in
        let s2 = (claim_as_approver redis t1 qr a s1).1 in
        let s3 = (approve redis t2 fresh.id a (new_code fresh.random) s2).1 in
        (join_complete redis t3 fresh.id secret joiner join s3).0
        ≡ join (record (device_request now fresh joiner name) {
          approver_user_id = some a;
          state = approved;
        })
  unfolding create_device_request
  join_from_device now t1 t2 t3 fresh joiner name a qr secret join s timely given other unused =
      let p = device_request now fresh joiner name in
      let s1 = created redis now fresh p s in
      let s2 = saved redis t1 (claimed_by a p) (dropped redis s1 qr.digest) in
      rw
        (
          create_record-eq redis now fresh p s (omega arith),
          claim_as_approver-eq redis t1 qr a s1 p
              (created-Names now t1 fresh qr p s given.shape given.same_token timely.first
                (omega (arith, timely)) refl refl)
              refl other,
          IsApprovable-approve redis t2 fresh.id a (new_code fresh.random) s2 (claimed_by a p) (
              saved-IsApprovable t1 t2 a (new_code fresh.random) (dropped redis s1 qr.digest)
                (claimed_by a p) timely.second (omega (arith, timely)) (==_self a) refl
                (new_code-is_four_digits fresh.random given.in_range) refl),
        )
        (IsCompletable-join_complete redis t3 secret joiner
          (approved_in redis t2 (claimed_by a p) s2) (record (claimed_by a p) { state = approved })
          join
          record {
            found =
                saved_later redis s2.requests t2 fresh.id t3 _ timely.third (omega (arith, timely));
            alive = omega (arith, timely);
            proves = given.proves;
            in_state = refl;
            approver = refl;
            same_joiner = opt_eq_self joiner;
            not_taken = unused;
          })

  -- An invitation reaches the join: in any store in which its completion is not taken, if the scan
  -- on the device, the approval with the number shown there and the completion follow within ten
  -- minutes, with the token and the secret that were given, for an account that is not the
  -- approver's, then the completion gives what joining gives for the approved request.
  pub join_from_approver :
      {T : Type 0} (now t1 t2 t3 : ℕ) (fresh device_fresh : Fresh) (joiner : Option Uuid)
      (name : Option String) (a : Uuid) (qr secret : Secret) (join : JoinRequestRecord → Result T)
      (s : JoinKeys A B C)
      → IsTimely now t1 t2 t3
      → IsPresented fresh.token_digest device_fresh qr secret
      → (is_some joiner && opt_eq joiner (some a)) ≡ false
      → redis.completions.get s.completions t3 fresh.id ≡ none
      → let s1 = (create_invite redis now fresh a s).1 in
        let s2 = (claim_as_device redis t1 qr device_fresh joiner name s1).1 in
        let s3 = (approve redis t2 fresh.id a (new_code device_fresh.random) s2).1 in
        (join_complete redis t3 fresh.id secret joiner join s3).0
        ≡ join (record (claimed_for device_fresh joiner name (invite now fresh a)) {
          state = approved;
        })
  unfolding create_invite
  join_from_approver now t1 t2 t3 fresh device_fresh joiner name a qr secret join s timely given
        other unused =
      let p = invite now fresh a in
      let q = claimed_for device_fresh joiner name p in
      let s1 = created redis now fresh p s in
      let s2 = saved redis t1 q (dropped redis s1 qr.digest) in
      rw
        (
          create_record-eq redis now fresh p s (omega arith),
          claim_as_device-eq redis t1 qr device_fresh joiner name s1 p
              (created-Names now t1 fresh qr p s given.shape given.same_token timely.first
                (omega (arith, timely)) refl refl)
              refl other,
          IsApprovable-approve redis t2 fresh.id a (new_code device_fresh.random) s2 q (
              saved-IsApprovable t1 t2 a (new_code device_fresh.random) (dropped redis s1 qr.digest)
                q timely.second (omega (arith, timely)) (==_self a) refl
                (new_code-is_four_digits device_fresh.random given.in_range) refl),
        )
        (IsCompletable-join_complete redis t3 secret joiner (approved_in redis t2 q s2)
          (record q { state = approved }) join
          record {
            found =
                saved_later redis s2.requests t2 fresh.id t3 _ timely.third (omega (arith, timely));
            alive = omega (arith, timely);
            proves = given.proves;
            in_state = refl;
            approver = refl;
            same_joiner = opt_eq_self joiner;
            not_taken = unused;
          })
