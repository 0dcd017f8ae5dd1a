-- ===== src/Federation/JoinRequest/Invariant.antt =====
-- What holds of every request that server/src/federation/join-request.ts has stored.
use cernere.Base.{
  ℕ, ◌+◌, ◌-◌, ◌<◌, ◌≤◌, ◌==◌, ==_iff, leb, ltb, any, opt_eq, is_some, ◌&&◌, Bool, Bool-cases, true,
  false, Option, none, some, inl, inr, List, String, Uuid, ◌≡◌, refl, sym, ◌∙◌, ap, arith,
}
use cernere.Federation.Policy.{retry, locked, check_join_code}
use cernere.Federation.Policy.JoinCode.{check_join_code-locked_iff}
use cernere.Federation.JoinRequest.{
  JoinRequestRecord, JoinRequestRedis, Fresh, JoinState, is_open_state, open_state, locked_state,
  from_device, device_request, invite,
}
use cernere.Federation.JoinRequest.Moves.{
  RequestMove, claims_it, accepts, approves, misses, locks, completes, Wrote, keeps, writes,
}
use cernere.Federation.JoinRequest.History.{World, look}

abbrev pub is_locked_state : JoinState → Bool
is_locked_state locked_state = true
is_locked_state _ = false

pub record IsValid (p : JoinRequestRecord) : Type 0 where
  -- Three wrong numbers and no more lock the request.
  pub bounded : p.code_attempts ≤ 3
  pub locked_just : is_locked_state p.state ≡ leb 3 p.code_attempts
  -- A request that was claimed has an approver, a device and a number.
  pub parties :
      is_open_state p.state ≡ false
      → (is_some p.approver_user_id && is_some p.device_secret_digest && is_some p.code) ≡ true
  pub asked :
      from_device p.initiator ≡ true → (is_some p.device_secret_digest && is_some p.code) ≡ true
  pub invited : from_device p.initiator ≡ false → is_some p.approver_user_id ≡ true
  -- No account joins itself.
  pub distinct : (is_some p.joiner_user_id && opt_eq p.joiner_user_id p.approver_user_id) ≡ false

open_not_locked : (st : JoinState) → is_open_state st ≡ true → is_locked_state st ≡ false
open_not_locked open_state h = refl
open_not_locked _ h = cc

asked_is_some :
    (joiner : Option Uuid) (a : Uuid)
    → opt_eq joiner (some a) ≡ false
    → (is_some joiner && opt_eq joiner (some a)) ≡ false
asked_is_some joiner a h = ground arith

not_last :
    (expected actual : List ℕ) (n : ℕ) → check_join_code expected actual n ≡ retry → n + 1 < 3
not_last expected actual n h =
    let i = check_join_code-locked_iff expected actual n cc in ground arith

last : (expected actual : List ℕ) (n : ℕ) → check_join_code expected actual n ≡ locked → 3 ≤ n + 1
last expected actual n h = (check_join_code-locked_iff expected actual n cc).0 h

pub RequestMove-IsValid : {p q : JoinRequestRecord} → RequestMove p q → IsValid p → IsValid q
RequestMove-IsValid (claims_it {p} a o i j) v = record {
  bounded = v.bounded;
  locked_just = sym (open_not_locked p.state o) ∙ v.locked_just;
  parties = λ _. v.asked i;
  asked = v.asked;
  invited = λ h. refl;
  distinct = asked_is_some p.joiner_user_id a j;
}
RequestMove-IsValid (accepts {p} fresh joiner name o i j) v = ground (arith, v)
RequestMove-IsValid (approves {p} code c m) v = ground (arith, v)
RequestMove-IsValid (misses {p} code c m) v = ground (arith, v, not_last _ _ _ m)
RequestMove-IsValid (locks {p} code c m) v = ground (arith, v, last _ _ _ m)
RequestMove-IsValid (completes {p} a) v = ground (arith, v)

pub RequestMove-id : {p q : JoinRequestRecord} → RequestMove p q → q.id ≡ p.id
RequestMove-id (claims_it a o i j) = refl
RequestMove-id (accepts fresh joiner name o i j) = refl
RequestMove-id (approves code c m) = refl
RequestMove-id (misses code c m) = refl
RequestMove-id (locks code c m) = refl
RequestMove-id (completes a) = refl

pub device_request-IsValid :
    (now : ℕ) (fresh : Fresh) (joiner : Option Uuid) (name : Option String)
    → IsValid (device_request now fresh joiner name)
device_request-IsValid now fresh joiner name = ground arith

pub invite-IsValid : (now : ℕ) (fresh : Fresh) (a : Uuid) → IsValid (invite now fresh a)
invite-IsValid now fresh a = ground arith

module _ {A B C : Type 0} (redis : JoinRequestRedis A B C) where
  -- Every stored request is valid, lies under its identifier, and that one was given out.
  pub record IsSound (w : World A B C) : Type 0 where
    pub valid : (id : Uuid) (p : JoinRequestRecord) → look redis w id ≡ some p → IsValid p
    pub has_id : (id : Uuid) (p : JoinRequestRecord) → look redis w id ≡ some p → p.id ≡ id
    pub was_issued :
        (id : Uuid) (p : JoinRequestRecord)
        → look redis w id ≡ some p
        → any (λ i. i == id) w.issued ≡ true

  -- Of what has just been saved.
  pub get-saved :
      (s : A) (now id : ℕ) (p : JoinRequestRecord)
      → now < p.expires_at
      → redis.requests.get (redis.requests.set s now id p (p.expires_at - now)) now id ≡ some p
  get-saved s now id p l =
      let in_time : ltb now (now + (p.expires_at - now)) ≡ true = ground arith in
      rw (redis.requests.get-set s now id p (p.expires_at - now) now (omega arith), in_time) refl

  -- What a step finds, or leaves, under an identifier.
  pub data Track (id : Uuid) (before after : Option JoinRequestRecord) : Type 0 where
    same : after ≡ before → Track id before after
    moved :
        (p q : JoinRequestRecord)
        → before ≡ some p
        → after ≡ some q
        → RequestMove p q
        → Track id before after
    lapsed : after ≡ none → Track id before after

  pub Wrote-Track :
      (now : ℕ) (s s' : A) (id : Uuid)
      → ((id : Uuid) (p : JoinRequestRecord) → redis.requests.get s now id ≡ some p → p.id ≡ id)
      → Wrote redis now s s'
      → Track id (redis.requests.get s now id) (redis.requests.get s' now id)
  Wrote-Track now s _ id has_id keeps = same refl
  Wrote-Track now s _ id has_id (writes key p q f l m) =
      let at_key : q.id ≡ key = RequestMove-id m ∙ has_id key p f in
      elim (Bool-cases (key == id)) [
        | inl e ↦
            let here : key ≡ id = (==_iff key id).0 e in
            moved p q (ap (redis.requests.get s now) (sym here) ∙ f)
              (ap
                  (λ j.
                    redis.requests.get (redis.requests.set s now q.id q (q.expires_at - now)) now j)
                  (sym (at_key ∙ here))
                ∙ get-saved s now q.id q l)
              m
        | inr e ↦ same (
            redis.requests.get-set_other s now q.id id q (q.expires_at - now) now
              (λ h. ground (arith, e, at_key)))
      ]
