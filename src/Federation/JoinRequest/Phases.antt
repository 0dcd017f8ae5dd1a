-- ===== src/Federation/JoinRequest/Phases.antt =====
-- The states of a request of server/src/federation/join-request.ts as a small machine, which every
-- sequence of the operations follows.
use cernere.Base.{
  Bool, Bool-cases, true, false, Option, none, some, inl, inr, Uuid, ◌≡◌, refl, if◌then◌else◌,
}
use cernere.Federation.JoinRequest.{
  JoinRequestRecord, JoinRequestRedis, JoinState, open_state, claimed, approved, completed,
  locked_state, is_open_state, is_claimed, is_approved,
}
use cernere.Federation.JoinRequest.Moves.{
  RequestMove, claims_it, accepts, approves, misses, locks, completes,
}
use cernere.Federation.JoinRequest.History.{World, Steps, done, more, look}
use cernere.Federation.JoinRequest.Invariant.{IsSound, same, moved, lapsed}
use cernere.Federation.JoinRequest.Seen.{is_issued, Seen, tracks, news, Step-Seen, Step-IsSound}

-- Where a request is: not made yet, in a state, or gone.
pub data Phase : Type 0 where
  unborn gone : Phase
  in_phase : JoinState → Phase

-- The machine.
pub data Advance : Phase → Phase → Type 0 where
  to_open : Advance unborn (in_phase open_state)
  to_claimed : Advance (in_phase open_state) (in_phase claimed)
  to_approved : Advance (in_phase claimed) (in_phase approved)
  to_locked : Advance (in_phase claimed) (in_phase locked_state)
  to_completed : Advance (in_phase approved) (in_phase completed)
  to_gone : {st : JoinState} → Advance (in_phase st) gone

pub data Advances : Phase → Phase → Type 0 where
  rests : {a : Phase} → Advances a a
  goes : {a b c : Phase} → Advance a b → Advances b c → Advances a c

abbrev pub stored_phase : Option JoinRequestRecord → Phase
stored_phase none = gone
stored_phase (some p) = in_phase p.state

join : {a b c : Phase} → Advances a b → Advances b c → Advances a c
join rests r = r
join (goes s r) t = goes s (join r t)

open_is : (st : JoinState) → is_open_state st ≡ true → st ≡ open_state
open_is open_state h = refl
open_is _ h = cc

claimed_is : (st : JoinState) → is_claimed st ≡ true → st ≡ claimed
claimed_is claimed h = refl
claimed_is _ h = cc

approved_is : (st : JoinState) → is_approved st ≡ true → st ≡ approved
approved_is approved h = refl
approved_is _ h = cc

one :
    (a b : JoinState) {st : JoinState}
    → st ≡ a
    → Advance (in_phase a) (in_phase b)
    → Advances (in_phase st) (in_phase b)
one a b e s = rw e (goes s rests)

RequestMove-Advances :
    {p q : JoinRequestRecord} → RequestMove p q → Advances (in_phase p.state) (in_phase q.state)
RequestMove-Advances (claims_it a o i j) = one open_state claimed (open_is _ o) to_claimed
RequestMove-Advances (accepts f j n o i k) = one open_state claimed (open_is _ o) to_claimed
RequestMove-Advances (approves code c m) = one claimed approved (claimed_is _ c) to_approved
RequestMove-Advances (misses code c m) = rests
RequestMove-Advances (locks code c m) = one claimed locked_state (claimed_is _ c) to_locked
RequestMove-Advances (completes a) = one approved completed (approved_is _ a) to_completed

lapse : (o : Option JoinRequestRecord) → Advances (stored_phase o) gone
lapse none = rests
lapse (some p) = goes to_gone rests

module _ {A B C : Type 0} (redis : JoinRequestRedis A B C) where
  abbrev pub phase : World A B C → Uuid → Phase
  phase w id = if is_issued w.issued id then stored_phase (look redis w id) else unborn

  Seen-Advances :
      {w w' : World A B C} (id : Uuid) → Seen redis id w w' → Advances (phase w id) (phase w' id)
  Seen-Advances {w} {w'} id (tracks (same e) i) = rw (i, e) rests
  Seen-Advances {w} {w'} id (tracks (moved p q f g m) i) =
      elim (Bool-cases (is_issued w.issued id)) [
        | inl t ↦ rw (i, t, f, g) (RequestMove-Advances m)
        | inr t ↦ rw (i, t) rests
      ]
  Seen-Advances {w} {w'} id (tracks (lapsed e) i) = elim (Bool-cases (is_issued w.issued id)) [
    | inl t ↦ rw (i, t, e) (lapse (look redis w id))
    | inr t ↦ rw (i, t) rests
  ]
  Seen-Advances {w} {w'} id (news p n i e v st h) = rw (n, i, e, st) (goes to_open rests)

  -- From a sound store, whatever sequence of operations and of time runs, each request moves only as
  -- a small machine allows: made, open, claimed, then approved and completed or locked, and gone at
  -- any point.
  pub Steps-Advances :
      {w w' : World A B C}
      → IsSound redis w
      → Steps redis w w'
      → (id : Uuid) → Advances (phase w id) (phase w' id)
  Steps-Advances v done id = rests
  Steps-Advances v (more s r) id =
      join (Seen-Advances id (Step-Seen redis id v s))
        (Steps-Advances (Step-IsSound redis s v) r id)

-- A request that is locked, completed or gone.
abbrev pub is_over : Phase → Bool
is_over (in_phase locked_state) = true
is_over (in_phase completed) = true
is_over gone = true
is_over _ = false

Advance-is_over : {a b : Phase} → Advance a b → is_over a ≡ true → is_over b ≡ true
Advance-is_over to_open h = cc
Advance-is_over to_claimed h = cc
Advance-is_over to_approved h = cc
Advance-is_over to_locked h = cc
Advance-is_over to_completed h = cc
Advance-is_over to_gone h = refl

pub Advances-is_over : {a b : Phase} → Advances a b → is_over a ≡ true → is_over b ≡ true
Advances-is_over rests h = h
Advances-is_over (goes s r) h = Advances-is_over r (Advance-is_over s h)
