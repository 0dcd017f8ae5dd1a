-- ===== src/Federation/JoinRequest/Exclusive.antt =====
-- That of the completions of a request of server/src/federation/join-request.ts that overlap, one begins.
use cernere.Base.{
  is_ok, ℕ, ◌+◌, ◌-◌, ◌≤◌, ltb, max, Bool, ◌&&◌, true, false, Option, some, Uuid, ◌≡◌, refl, sym,
  ◌∙◌, arith, subst,
}
use cernere.Federation.JoinRequest.{JoinRequestRecord, JoinRequestRedis, Secret}
use cernere.Federation.JoinRequest.Operations.{begin_completion}
use cernere.Federation.JoinRequest.Completion.{begin_completion-cases, refuses, begins}
use cernere.Federation.JoinRequest.History.{World, Steps, done, more, look, begins_one}
use cernere.Federation.JoinRequest.Invariant.{IsSound, same, moved, lapsed}
use cernere.Federation.JoinRequest.Seen.{is_issued, Seen, tracks, news, Step-Seen, Step-IsSound}
use cernere.Federation.JoinRequest.Holding.{
  RequestMove-expires_at, IsHeld, not_begun, Step-Held, spares,
}

module _ {A B C : Type 0} (redis : JoinRequestRedis A B C) where
  Seen-ends :
      {w w' : World A B C} {id : Uuid} {end : ℕ}
      → Seen redis id w w'
      → IsHeld redis w id end
      → (p : JoinRequestRecord) → look redis w' id ≡ some p
      → p.expires_at ≤ end
  Seen-ends (tracks (same e) i) v p f = v.ends p (sym e ∙ f)
  Seen-ends {end = end} (tracks (moved a b g h m) i) v p f =
      let same_row : b ≡ p = cc in
      subst (λ (q : JoinRequestRecord). q.expires_at ≤ end) same_row
        (subst (λ n. n ≤ end) (sym (RequestMove-expires_at m)) (v.ends a g))
  Seen-ends (tracks (lapsed e) i) v p f = cc
  Seen-ends (news b n i h x st has) v p f = cc (n, v.issued)

  pub Seen-issued :
      {w w' : World A B C} {id : Uuid}
      → Seen redis id w w'
      → is_issued w.issued id ≡ true
      → is_issued w'.issued id ≡ true
  Seen-issued (tracks t i) h = i ∙ h
  Seen-issued (news b n i g x st has) h = i

  -- A sequence in which no step aborts the completion of a request.
  abbrev pub all_spare : {w w' : World A B C} → Uuid → Steps redis w w' → Bool
  all_spare id done = true
  all_spare id (more t r) = spares redis id t && all_spare id r

  Steps-IsHeld :
      {w w' : World A B C} {id : Uuid} {end : ℕ}
      → IsSound redis w
      → (s : Steps redis w w') → all_spare id s ≡ true
      → IsHeld redis w id end
      → IsHeld redis w' id end
  Steps-IsHeld s done a v = v
  Steps-IsHeld {id = id} s (more t r) a v =
      let seen = Step-Seen redis id s t in
      Steps-IsHeld (Step-IsSound redis t s) r (ground (arith, a)) record {
        held = Step-Held redis t (ground (arith, a)) v;
        issued = Seen-issued seen v.issued;
        ends = Seen-ends seen v;
      }

  held_refuses :
      (w : World A B C) (end : ℕ) (id : Uuid) (secret : Secret) (joiner : Option Uuid)
      → IsHeld redis w id end
      → is_ok (begin_completion redis w.now id secret joiner w.keys).0 ≡ false
  held_refuses w end id secret joiner v =
      elim (begin_completion-cases redis w.now id secret joiner w.keys) [
        | refuses e f ↦ rw f refl
        | begins p b ↦ absurd (
            not_begun redis w.now end id w.keys p v.held (v.ends p b.request_found) b.alive
              b.not_taken)
      ]

  begun-IsHeld :
      (w : World A B C) (id : Uuid) (secret : Secret) (joiner : Option Uuid)
      → IsSound redis w
      → is_ok (begin_completion redis w.now id secret joiner w.keys).0 ≡ true
      → (end : ℕ) × IsHeld redis
          (record w { keys = (begin_completion redis w.now id secret joiner w.keys).1 })
          id
          end
  begun-IsHeld w id secret joiner v =
      elim (begin_completion-cases redis w.now id secret joiner w.keys) [
        | refuses e f ↦ rw f (λ h. cc)
        | begins p b ↦ rw b.gives (λ h. (
          p.expires_at,
          record {
            held = λ t l m.
                let in_time : ltb t (w.now + max 1 (p.expires_at - w.now)) ≡ true = ground arith in
                rw
                  (
                    redis.completions.get-set w.keys.completions w.now id tt
                        (max 1 (p.expires_at - w.now)) t l,
                    in_time,
                  )
                  refl;
            issued = v.was_issued id p b.request_found;
            ends = λ q f.
                let same_row : p ≡ q = cc (f, b.request_found) in
                subst (λ (r : JoinRequestRecord). r.expires_at ≤ p.expires_at) same_row
                  (omega arith);
          },
        ))
      ]

  -- From a sound store, once a completion of a request has begun, and whatever sequence of
  -- operations and of time follows in which no step aborts the completion of that request, the
  -- finishing of the completion included, no other completion of the request begins, with whatever
  -- secret and for whatever account.
  pub begin_completion-once :
      (w w' : World A B C) (id : Uuid) (secret : Secret) (joiner : Option Uuid)
      → IsSound redis w
      → is_ok (begin_completion redis w.now id secret joiner w.keys).0 ≡ true
      → (s : Steps redis
          (record w { keys = (begin_completion redis w.now id secret joiner w.keys).1 })
          w')
      → all_spare id s ≡ true
      → (secret' : Secret) (joiner' : Option Uuid)
      → is_ok (begin_completion redis w'.now id secret' joiner' w'.keys).0 ≡ false
  begin_completion-once w w' id secret joiner v h s a secret' joiner' =
      let (end, held) = begun-IsHeld w id secret joiner v h in
      held_refuses w' end id secret' joiner'
        (Steps-IsHeld (Step-IsSound redis (begins_one {w = w} id secret joiner) v) s a held)
