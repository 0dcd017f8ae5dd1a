-- ===== src/Federation/JoinRequest/Keeps.antt =====
-- What the operations of server/src/federation/join-request.ts keep beside the requests.
use cernere.Base.{
  ℕ, ◌==◌, leb, opt_eq, or_else, is_some, not, ◌&&◌, ◌||◌, Bool, Bool-cases, true, false, Option,
  none, some, inl, inr, List, Uuid, String, ◌≡◌, Result, ok, err, AppError, bad_request, not_found,
  conflict, [],
}
use cernere.Redis.{Task, after, refuse_if, give, throw, ◌>>=◌, ◌>>◌}
use cernere.Federation.Policy.{match, retry, locked, JoinCodeCheck, check_join_code}
use cernere.Federation.JoinRequest.{
  JoinRequestRecord, JoinRequestRedis, JoinKeys, Secret, Fresh, expired, from_device, claimed_by,
  claimed_for, view, is_claimed, completed, is_open_state,
}
use cernere.Federation.JoinRequest.Operations.{
  load, save, set_token, some_or_throw, take_token, consume_token, create_record, claim_as_approver,
  claim_as_device, approve, settle_code, finish_or_abort, finish_completion, abort_completion,
}

module _ {A B C : Type 0} (redis : JoinRequestRedis A B C) (R : JoinKeys A B C → Type 0) where
  -- A call after which still holds what held of the store.
  pub record Keeps {T : Type 0} (f : Task (JoinKeys A B C) T) : Type 0 where
    pub run : (s : JoinKeys A B C) → R s → R (f s).1

  after-keeps :
      {T U : Type 0} (r : Result T × JoinKeys A B C) (next : T → Task (JoinKeys A B C) U)
      → R r.1
      → ((t : T) → Keeps (next t))
      → R (after r next).1
  after-keeps (err e, s) next h k = h
  after-keeps (ok t, s) next h k = (k t).run s h

  pub >>=-Keeps :
      {T U : Type 0} (f : Task (JoinKeys A B C) T) (next : T → Task (JoinKeys A B C) U)
      → Keeps f
      → ((t : T) → Keeps (next t))
      → Keeps (f >>= next)
  >>=-Keeps f next h k = record { run = λ s r. after-keeps (f s) next (h.run s r) k }

  >>-Keeps :
      {T U : Type 0} (f : Task (JoinKeys A B C) T) (next : Task (JoinKeys A B C) U)
      → Keeps f
      → Keeps next
      → Keeps (f >> next)
  >>-Keeps f next h k = >>=-Keeps f (λ t. next) h (λ t. k)

  refuse_if-Keeps : (c : Bool) (e : AppError) → Keeps (refuse_if c e)
  refuse_if-Keeps true e = record { run = λ s h. h }
  refuse_if-Keeps false e = record { run = λ s h. h }

  give-Keeps : {T : Type 0} (t : T) → Keeps (give t)
  give-Keeps t = record { run = λ s h. h }

  throw-Keeps : {T : Type 0} (e : AppError) → Keeps {T = T} (throw e)
  throw-Keeps e = record { run = λ s h. h }

  load-Keeps : (now : ℕ) (id : Uuid) → Keeps (load redis now id)
  unfolding load
  load-Keeps now id = record { run = λ s h. h }

  pub some_or_throw-Keeps : (o : Option Uuid) → Keeps (some_or_throw redis o)
  some_or_throw-Keeps none = record { run = λ s h. h }
  some_or_throw-Keeps (some id) = record { run = λ s h. h }

  rest_of_consume-Keeps :
      (now : ℕ) (found : Option Uuid)
      → Keeps (
          some_or_throw redis found >>= λ id.
          load redis now id >>= λ p. refuse_if (not (is_open_state p.state)) expired >> give p)
  rest_of_consume-Keeps now found = >>=-Keeps _ _ (some_or_throw-Keeps found) (λ id.
      >>=-Keeps _ _ (load-Keeps now id)
        (λ p. >>-Keeps _ _ (refuse_if-Keeps (not (is_open_state p.state)) expired) (give-Keeps p)))

  pub consume_token-Keeps :
      (now : ℕ) (token : Secret)
      → Keeps (take_token redis now token.digest)
      → Keeps (consume_token redis now token)
  unfolding consume_token
  consume_token-Keeps now token h =
      >>-Keeps _ _ (refuse_if-Keeps (token.length == 0 || not (leb token.length 512)) expired)
        (>>=-Keeps _ _ h (rest_of_consume-Keeps now))

  -- A token of the right shape is taken, whatever comes after.
  pub consume_token-takes :
      (now : ℕ) (token : Secret) (s : JoinKeys A B C)
      → (token.length == 0 || not (leb token.length 512)) ≡ false
      → R (take_token redis now token.digest s).1
      → R (consume_token redis now token s).1
  unfolding consume_token
  consume_token-takes now token s b h =
      rw b (after-keeps (take_token redis now token.digest s) _ h (rest_of_consume-Keeps now))

  -- What holds of a store whatever its requests.
  abbrev pub IgnoresRequests : Type 0
  IgnoresRequests = (s : JoinKeys A B C) (requests : A) → R s → R (record s { requests = requests })

  module _ (k : IgnoresRequests) where
    save-Keeps : (now : ℕ) (q : JoinRequestRecord) → Keeps (save redis now q)
    unfolding save
    save-Keeps now q = record {
      run = λ s h. elim (Bool-cases (leb q.expires_at now)) [
        | inl e ↦ rw e h
        | inr e ↦ rw e (k s _ h)
      ];
    }

    settle_code-Keeps :
        (now : ℕ) (p : JoinRequestRecord) (check : JoinCodeCheck)
        → Keeps (settle_code redis now p check)
    unfolding settle_code
    settle_code-Keeps now p match = >>-Keeps _ _ (save-Keeps now _) (give-Keeps _)
    settle_code-Keeps now p retry = >>-Keeps _ _ (save-Keeps now _) (throw-Keeps _)
    settle_code-Keeps now p locked = >>-Keeps _ _ (save-Keeps now _) (throw-Keeps _)

    pub claim_as_approver-keeps :
        (now : ℕ) (token : Secret) (a : Uuid) (s : JoinKeys A B C)
        → R (consume_token redis now token s).1
        → R (claim_as_approver redis now token a s).1
    unfolding claim_as_approver
    claim_as_approver-keeps now token a s h =
        after-keeps (consume_token redis now token s) _ h (λ p.
          >>-Keeps _ _ (refuse_if-Keeps (not (from_device p.initiator)) expired) (
            >>-Keeps _ _ (refuse_if-Keeps (opt_eq p.joiner_user_id (some a)) bad_request) (
              >>-Keeps _ _ (save-Keeps now (claimed_by a p))
                (give-Keeps (view (claimed_by a p) now)))))

    pub claim_as_device-keeps :
        (now : ℕ) (token : Secret) (fresh : Fresh) (joiner : Option Uuid) (name : Option String)
        (s : JoinKeys A B C)
        → R (consume_token redis now token s).1
        → R (claim_as_device redis now token fresh joiner name s).1
    unfolding claim_as_device
    claim_as_device-keeps now token fresh joiner name s h =
        after-keeps (consume_token redis now token s) _ h (λ p.
          let q = claimed_for fresh joiner name p in
          >>-Keeps _ _ (refuse_if-Keeps (from_device p.initiator) expired) (
            >>-Keeps _ _
              (refuse_if-Keeps (is_some joiner && opt_eq joiner p.approver_user_id) bad_request)
              (>>-Keeps _ _ (save-Keeps now q) (give-Keeps q))))

    pub approve-Keeps :
        (now : ℕ) (id a : Uuid) (code : List ℕ) → Keeps (approve redis now id a code)
    unfolding approve
    approve-Keeps now id a code = >>=-Keeps _ _ (load-Keeps now id) (λ p.
        >>-Keeps _ _ (refuse_if-Keeps (not (opt_eq p.approver_user_id (some a))) not_found) (
          >>-Keeps _ _ (refuse_if-Keeps (not (is_claimed p.state)) conflict)
            (settle_code-Keeps now p (check_join_code (or_else p.code []) code p.code_attempts))))

    pub create_record-Keeps :
        (now : ℕ) (fresh : Fresh) (p : JoinRequestRecord)
        → Keeps (set_token redis now fresh.token_digest p.id)
        → Keeps (create_record redis now fresh p)
    unfolding create_record
    create_record-Keeps now fresh p h =
        >>-Keeps _ _ (save-Keeps now p) (>>-Keeps _ _ h (give-Keeps p))

    pub finish_completion-Keeps :
        (now : ℕ) (p : JoinRequestRecord) → Keeps (finish_completion redis now p)
    unfolding finish_completion
    finish_completion-Keeps now p = record {
      run = λ s r. (save-Keeps now (record p { state = completed })).run s r;
    }

    pub finish_or_abort-Keeps :
        {T : Type 0} (now : ℕ) (id : Uuid) (p : JoinRequestRecord) (r : Result T)
        → Keeps (abort_completion redis id)
        → Keeps (finish_or_abort redis now id p r)
    unfolding finish_or_abort
    finish_or_abort-Keeps now id p (err e) h = >>-Keeps _ _ h (throw-Keeps e)
    finish_or_abort-Keeps now id p (ok t) h =
        >>-Keeps _ _ (finish_completion-Keeps now p) (give-Keeps t)
