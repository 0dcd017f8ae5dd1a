-- ===== src/Federation/JoinRequest/Holding.antt =====
-- The key with which server/src/federation/join-request.ts keeps the completion of a request to one caller.
use cernere.Base.{
  ℕ, ◌-◌, ◌<◌, ◌≤◌, ◌==◌, ==_iff, max, Bool, Bool-cases, true, not, Option, none, some, inl, inr,
  Uuid, ◌≡◌, ◌≢◌, refl, sym, ◌∙◌, ap, arith, Result,
}
use cernere.Federation.JoinRequest.{JoinRequestRecord, JoinRequestRedis, JoinKeys, Secret}
use cernere.Federation.JoinRequest.Operations.{
  create_device_request, create_invite, set_token, take_token, begin_completion, join_complete,
  abort_completion,
}
use cernere.Federation.JoinRequest.Completion.{begin_completion-cases, refuses, begins, taken}
use cernere.Federation.JoinRequest.Moves.{
  RequestMove, claims_it, accepts, approves, misses, locks, completes,
}
use cernere.Federation.JoinRequest.Keeps.{
  Keeps, IgnoresRequests, consume_token-Keeps, claim_as_approver-keeps, claim_as_device-keeps,
  approve-Keeps, create_record-Keeps, finish_or_abort-Keeps, finish_completion-Keeps,
}
use cernere.Federation.JoinRequest.History.{
  World, Step, look, waits, asks, invites, claims_one, accepts_one, approves_one, begins_one,
  completes_one, aborts_one, finishes_one,
}
use cernere.Federation.JoinRequest.Seen.{is_issued}

pub RequestMove-expires_at :
    {p q : JoinRequestRecord} → RequestMove p q → q.expires_at ≡ p.expires_at
RequestMove-expires_at (claims_it a o i j) = refl
RequestMove-expires_at (accepts fresh joiner name o i j) = refl
RequestMove-expires_at (approves code c m) = refl
RequestMove-expires_at (misses code c m) = refl
RequestMove-expires_at (locks code c m) = refl
RequestMove-expires_at (completes a) = refl

module _ {A B C : Type 0} (redis : JoinRequestRedis A B C) where
  -- The key of the completion is there until an instant.
  abbrev pub Held : ℕ → Uuid → ℕ → JoinKeys A B C → Type 0
  Held now id end s =
      (t : ℕ) → now ≤ t → t < end → redis.completions.get s.completions t id ≡ some tt

  -- The key is there for as long as the request.
  pub record IsHeld (w : World A B C) (id : Uuid) (end : ℕ) : Type 0 where
    pub held : Held w.now id end w.keys
    pub issued : is_issued w.issued id ≡ true
    pub ends : (p : JoinRequestRecord) → look redis w id ≡ some p → p.expires_at ≤ end

  ignores : (now : ℕ) (id : Uuid) (end : ℕ) → IgnoresRequests redis (Held now id end)
  ignores now id end s a h = h

  set_token-Keeps :
      (now end : ℕ) (id d : Uuid) (i : Uuid)
      → Keeps redis (Held now id end) (set_token redis now d i)
  unfolding set_token
  set_token-Keeps now end id d i = record { run = λ s h. h }

  take_token-Keeps :
      (now end : ℕ) (id d : Uuid) → Keeps redis (Held now id end) (take_token redis now d)
  unfolding take_token
  take_token-Keeps now end id d = record { run = λ s h. h }

  taken-Held :
      (now end : ℕ) (id j : Uuid) (p : JoinRequestRecord) (s : JoinKeys A B C)
      → j ≢ id
      → Held now id end s
      → Held now id end (taken redis now p j s)
  taken-Held now end id j p s n h t l m =
      redis.completions.get-set_other s.completions now j id tt (max 1 (p.expires_at - now)) t n
      ∙ h t l m

  -- While the key is there, no completion of the request begins.
  pub not_begun :
      (now end : ℕ) (id : Uuid) (s : JoinKeys A B C) (p : JoinRequestRecord)
      → Held now id end s
      → p.expires_at ≤ end
      → now < p.expires_at
      → redis.completions.get s.completions now id ≡ none
      → ⊥
  not_begun now end id s p h e l n = cc (n, h now (omega arith) (omega (arith, e, l)))

  begin_completion-Held :
      (w : World A B C) (end : ℕ) (id j : Uuid) (secret : Secret) (joiner : Option Uuid)
      → IsHeld w id end
      → Held w.now id end (begin_completion redis w.now j secret joiner w.keys).1
  begin_completion-Held w end id j secret joiner v =
      elim (begin_completion-cases redis w.now j secret joiner w.keys) [
        | refuses e f ↦ rw f v.held
        | begins p b ↦ rw b.gives (elim (Bool-cases (j == id)) [
          | inl e ↦
              let here : j ≡ id = (==_iff j id).0 e in
              absurd (
                not_begun w.now end id w.keys p v.held
                  (v.ends p
                    (ap (redis.requests.get w.keys.requests w.now) (sym here) ∙ b.request_found))
                  b.alive
                  (ap (redis.completions.get w.keys.completions w.now) (sym here) ∙ b.not_taken))
          | inr e ↦ taken-Held w.now end id j p w.keys (λ i. ground (arith, e)) v.held
        ])
      ]

  abort_completion-Keeps :
      (now end : ℕ) (id j : Uuid)
      → j ≢ id
      → Keeps redis (Held now id end) (abort_completion redis j)
  unfolding abort_completion
  abort_completion-Keeps now end id j n = record {
    run = λ s h t l m. redis.completions.get-del_other s.completions j id t n ∙ h t l m;
  }

  join_complete-Held :
      {T : Type 0} (w : World A B C) (end : ℕ) (id j : Uuid) (secret : Secret)
      (joiner : Option Uuid) (join : JoinRequestRecord → Result T)
      → IsHeld w id end
      → Held w.now id end (join_complete redis w.now j secret joiner join w.keys).1
  unfolding join_complete
  join_complete-Held w end id j secret joiner join v =
      elim (begin_completion-cases redis w.now j secret joiner w.keys) [
        | refuses e f ↦ rw f v.held
        | begins p b ↦ rw b.gives (elim (Bool-cases (j == id)) [
          | inl e ↦
              let here : j ≡ id = (==_iff j id).0 e in
              absurd (
                not_begun w.now end id w.keys p v.held
                  (v.ends p
                    (ap (redis.requests.get w.keys.requests w.now) (sym here) ∙ b.request_found))
                  b.alive
                  (ap (redis.completions.get w.keys.completions w.now) (sym here) ∙ b.not_taken))
          | inr e ↦
              let n : j ≢ id = λ i. ground (arith, e) in
              (finish_or_abort-Keeps redis (Held w.now id end) (ignores w.now id end) w.now j p
                  (join p) (abort_completion-Keeps w.now end id j n)).run
                (taken redis w.now p j w.keys) (taken-Held w.now end id j p w.keys n v.held)
        ])
      ]

  -- Whether a step leaves a completion of a request that has begun, if it is not over, to go on.
  abbrev pub spares : {w w' : World A B C} → Uuid → Step redis w w' → Bool
  spares id (aborts_one j) = not (j == id)
  spares id _ = true

  pub Step-Held :
      {w w' : World A B C} {id : Uuid} {end : ℕ}
      → (step : Step redis w w') → spares id step ≡ true
      → IsHeld w id end
      → Held w'.now id end w'.keys
  unfolding create_device_request create_invite
  Step-Held {w} (waits later after) h v = λ t l m. v.held t (omega (arith, after, l)) m
  Step-Held {w} {id = id} {end = end} (asks fresh joiner name f) h v =
      (create_record-Keeps redis (Held w.now id end) (ignores w.now id end) w.now fresh _
          (set_token-Keeps w.now end id fresh.token_digest _)).run
        w.keys v.held
  Step-Held {w} {id = id} {end = end} (invites fresh approver f) h v =
      (create_record-Keeps redis (Held w.now id end) (ignores w.now id end) w.now fresh _
          (set_token-Keeps w.now end id fresh.token_digest _)).run
        w.keys v.held
  Step-Held {w} {id = id} {end = end} (claims_one token approver) h v =
      claim_as_approver-keeps redis (Held w.now id end) (ignores w.now id end) w.now token approver
        w.keys
        ((consume_token-Keeps redis (Held w.now id end) w.now token
            (take_token-Keeps w.now end id token.digest)).run
          w.keys v.held)
  Step-Held {w} {id = id} {end = end} (accepts_one token fresh joiner name) h v =
      claim_as_device-keeps redis (Held w.now id end) (ignores w.now id end) w.now token fresh
        joiner name w.keys
        ((consume_token-Keeps redis (Held w.now id end) w.now token
            (take_token-Keeps w.now end id token.digest)).run
          w.keys v.held)
  Step-Held {w} {id = id} {end = end} (approves_one j approver code) h v =
      (approve-Keeps redis (Held w.now id end) (ignores w.now id end) w.now j approver code).run
        w.keys v.held
  Step-Held {w} {id = id} {end = end} (begins_one j secret joiner) h v =
      begin_completion-Held w end id j secret joiner v
  Step-Held {w} {id = id} {end = end} (completes_one j secret joiner join) h v =
      join_complete-Held w end id j secret joiner join v
  Step-Held {w} {id = id} {end = end} (aborts_one j) h v =
      (abort_completion-Keeps w.now end id j (λ e. ground (arith, h, e))).run w.keys v.held
  Step-Held {w} {id = id} {end = end} (finishes_one request a f) h v =
      (finish_completion-Keeps redis (Held w.now id end) (ignores w.now id end) w.now request).run
        w.keys v.held
