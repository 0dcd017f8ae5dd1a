-- ===== src/Federation/JoinRequest/Operations.antt =====
-- `JoinRequestStore` of server/src/federation/join-request.ts, and the route `join-complete` of
-- server/src/http/federation-handler.ts, over any store that behaves as Redis.
use cernere.Base.{
  ℕ, ◌-◌, ◌==◌, leb, opt_eq, or_else, is_none, is_some, max, not, ◌&&◌, ◌||◌, Bool, Option, none,
  some, List, [], String, Uuid, if◌then◌else◌, Result, ok, err, bad_request, forbidden, not_found,
  conflict, ◌*◌,
}
use cernere.Auth.Tables.{OpaqueText}
use cernere.Federation.Policy.{JoinCodeCheck, match, retry, locked, check_join_code}
use cernere.Redis.{Task, ◌>>=◌, ◌>>◌, give, throw, refuse_if}
use cernere.Federation.JoinRequest.{
  JoinRequestRecord, JoinRequestRedis, JoinKeys, Secret, Fresh, ApproverView, JoinState, JoinKind,
  view, approved, completed, locked_state, expired, code_mismatch, code_locked, same_digest,
  is_open_state, is_claimed, is_approved, from_device, check_alive, device_request, invite,
  claimed_by, claimed_for, with_miss, join_request_ttl_sec, remaining_sec,
}

module _ {A B C : Type 0} (redis : JoinRequestRedis A B C) where
  abbrev pub Request : Type 0 → Type 0
  Request T = Task (JoinKeys A B C) T

  unfoldable pub load : ℕ → Uuid → Request JoinRequestRecord
  load now request_id s = (check_alive now (redis.requests.get s.requests now request_id), s)

  unfoldable pub save : ℕ → JoinRequestRecord → Request (Unit {0})
  save now request s = if leb request.expires_at now then (err expired, s) else (
    ok tt,
    record s {
      requests = redis.requests.set s.requests now request.id request (request.expires_at - now);
    },
  )

  unfoldable pub set_token : ℕ → OpaqueText → Uuid → Request (Unit {0})
  set_token now digest id s = (
    ok tt,
    record s { tokens = redis.tokens.set s.tokens now digest id (join_request_ttl_sec * 1000) },
  )

  unfoldable pub create_record : ℕ → Fresh → JoinRequestRecord → Request JoinRequestRecord
  create_record now fresh request = do
    save now request
    set_token now fresh.token_digest request.id
    give request

  unfoldable pub create_device_request :
      ℕ → Fresh → Option Uuid → Option String → Request JoinRequestRecord
  create_device_request now fresh joiner_user_id device_name =
      create_record now fresh (device_request now fresh joiner_user_id device_name)

  unfoldable pub create_invite : ℕ → Fresh → Uuid → Request JoinRequestRecord
  create_invite now fresh approver_user_id =
      create_record now fresh (invite now fresh approver_user_id)

  unfoldable pub take_token : ℕ → OpaqueText → Request (Option Uuid)
  take_token now digest s =
      let (found, rest) = redis.tokens.getdel s.tokens now digest in
      (ok found, record s { tokens = rest })

  abbrev pub some_or_throw : Option Uuid → Request Uuid
  some_or_throw none = throw expired
  some_or_throw (some id) = give id

  unfoldable pub consume_token : ℕ → Secret → Request JoinRequestRecord
  consume_token now token = do
    refuse_if (token.length == 0 || not (leb token.length 512)) expired
    found ← take_token now token.digest
    request_id ← some_or_throw found
    request ← load now request_id
    refuse_if (not (is_open_state request.state)) expired
    give request

  unfoldable pub claim_as_approver : ℕ → Secret → Uuid → Request ApproverView
  claim_as_approver now token approver_user_id = do
    request ← consume_token now token
    refuse_if (not (from_device request.initiator)) expired
    refuse_if (opt_eq request.joiner_user_id (some approver_user_id)) bad_request
    save now (claimed_by approver_user_id request)
    give (view (claimed_by approver_user_id request) now)

  unfoldable pub claim_as_device :
      ℕ → Secret → Fresh → Option Uuid → Option String → Request JoinRequestRecord
  claim_as_device now token fresh joiner_user_id device_name = do
    request ← consume_token now token
    refuse_if (from_device request.initiator) expired
    refuse_if (is_some joiner_user_id && opt_eq joiner_user_id request.approver_user_id) bad_request
    save now (claimed_for fresh joiner_user_id device_name request)
    give (claimed_for fresh joiner_user_id device_name request)

  unfoldable pub describe_for_approver : ℕ → Uuid → Uuid → Request ApproverView
  describe_for_approver now request_id approver_user_id = do
    request ← load now request_id
    refuse_if (not (opt_eq request.approver_user_id (some approver_user_id))) not_found
    give (view request now)

  unfoldable pub settle_code : ℕ → JoinRequestRecord → JoinCodeCheck → Request ApproverView
  settle_code now request match = do
    save now (record request { state = approved })
    give (view (record request { state = approved }) now)
  settle_code now request retry = do save now (with_miss request); throw code_mismatch
  settle_code now request locked = do
    save now (record (with_miss request) { state = locked_state })
    throw code_locked

  unfoldable pub approve : ℕ → Uuid → Uuid → List ℕ → Request ApproverView
  approve now request_id approver_user_id code = do
    request ← load now request_id
    refuse_if (not (opt_eq request.approver_user_id (some approver_user_id))) not_found
    refuse_if (not (is_claimed request.state)) conflict
    settle_code now request (check_join_code (or_else request.code []) code request.code_attempts)

  unfoldable pub device_status : ℕ → Uuid → Secret → Request (JoinState × Option JoinKind × ℕ)
  device_status now request_id secret = do
    request ← load now request_id
    refuse_if (not (same_digest request.device_secret_digest secret)) not_found
    give (request.state, request.kind, remaining_sec request now)

  unfoldable pub set_completion : ℕ → JoinRequestRecord → Uuid → Request Bool
  set_completion now request request_id s =
      let (taken, rest) =
        redis.completions.setnx s.completions now request_id tt
          (max 1 (request.expires_at - now)) in
      (ok taken, record s { completions = rest })

  unfoldable pub begin_completion : ℕ → Uuid → Secret → Option Uuid → Request JoinRequestRecord
  begin_completion now request_id secret joiner_user_id = do
    request ← load now request_id
    refuse_if (not (same_digest request.device_secret_digest secret)) not_found
    refuse_if (not (is_approved request.state) || is_none request.approver_user_id) conflict
    refuse_if (not (opt_eq request.joiner_user_id joiner_user_id)) forbidden
    taken ← set_completion now request request_id
    refuse_if (not taken) conflict
    give request

  unfoldable pub abort_completion : Uuid → Request (Unit {0})
  abort_completion request_id s =
      (ok tt, record s { completions = redis.completions.del s.completions request_id })

  -- What saving throws is not passed on.
  unfoldable pub finish_completion : ℕ → JoinRequestRecord → Request (Unit {0})
  finish_completion now request s = (ok tt, (save now (record request { state = completed }) s).1)

  unfoldable pub finish_or_abort :
      {T : Type 0} → ℕ → Uuid → JoinRequestRecord → Result T → Request T
  finish_or_abort now request_id request (err e) = do abort_completion request_id; throw e
  finish_or_abort now request_id request (ok joined) = do finish_completion now request; give joined

  -- `join` is what the transaction of `joinFederation` gives for the request.
  unfoldable pub join_complete :
      {T : Type 0} → ℕ → Uuid → Secret → Option Uuid → (JoinRequestRecord → Result T) → Request T
  join_complete now request_id secret joiner_user_id join = do
    request ← begin_completion now request_id secret joiner_user_id
    finish_or_abort now request_id request (join request)
