-- ===== src/Federation/JoinRequest/Completion.antt =====
-- When `beginCompletion` of server/src/federation/join-request.ts gives the right to complete.
use cernere.Base.{
  ℕ, ◌-◌, ◌<◌, arith, leb, opt_eq, is_none, max, not, ◌||◌, Bool, Bool-cases, Option-cases, true,
  false, Option, none, some, inl, inr, Uuid, ok, err, AppError, ◌≡◌, refl, Result, conflict,
  forbidden, not_found,
}
use cernere.Federation.JoinRequest.{
  JoinRequestRecord, JoinRequestRedis, JoinKeys, Secret, same_digest, expired, is_approved,
  completed,
}
use cernere.Federation.JoinRequest.Operations.{
  begin_completion, set_completion, finish_or_abort, finish_completion, abort_completion,
  join_complete, save,
}
use cernere.Federation.JoinRequest.Moves.{load-cases, save-eq, Wrote, keeps, writes, completes}

module _ {A B C : Type 0} (redis : JoinRequestRedis A B C) where
  -- The store with the completion of a request taken.
  abbrev pub taken : ℕ → JoinRequestRecord → Uuid → JoinKeys A B C → JoinKeys A B C
  taken now p id s = record s {
    completions = redis.completions.set s.completions now id tt (max 1 (p.expires_at - now));
  }

  pub record Began (now : ℕ) (id : Uuid) (secret : Secret) (joiner : Option Uuid)
      (s : JoinKeys A B C) (p : JoinRequestRecord) : Type 0 where
    pub request_found : redis.requests.get s.requests now id ≡ some p
    pub alive : now < p.expires_at
    pub proves : same_digest p.device_secret_digest secret ≡ true
    pub in_state : is_approved p.state ≡ true
    pub approver : is_none p.approver_user_id ≡ false
    pub same_joiner : opt_eq p.joiner_user_id joiner ≡ true
    pub not_taken : redis.completions.get s.completions now id ≡ none
    pub gives : begin_completion redis now id secret joiner s ≡ (ok p, taken now p id s)

  pub data BeginResult (now : ℕ) (id : Uuid) (secret : Secret) (joiner : Option Uuid)
      (s : JoinKeys A B C) : Type 0 where
    refuses :
        (e : AppError)
        → begin_completion redis now id secret joiner s ≡ (err e, s)
        → BeginResult now id secret joiner s
    begins :
        (p : JoinRequestRecord)
        → Began now id secret joiner s p
        → BeginResult now id secret joiner s

  or_false : (a b : Bool) → (not a || b) ≡ false → (a ≡ true) × (b ≡ false)
  or_false true false h = (refl, refl)
  or_false true true h = cc
  or_false false b h = cc

  pub begin_completion-cases :
      (now : ℕ) (id : Uuid) (secret : Secret) (joiner : Option Uuid) (s : JoinKeys A B C)
      → BeginResult now id secret joiner s
  unfolding begin_completion set_completion
  begin_completion-cases now id secret joiner s = elim (load-cases redis now id s) [
    | inl e ↦ refuses expired (rw e refl)
    | inr (p, f, l, e) ↦ elim (Bool-cases (same_digest p.device_secret_digest secret)) [
      | inr d ↦ refuses not_found (rw (e, d) refl)
      | inl d ↦ elim (Bool-cases (not (is_approved p.state) || is_none p.approver_user_id)) [
        | inl a ↦ refuses conflict (rw (e, d, a) refl)
        | inr a ↦ elim (Bool-cases (opt_eq p.joiner_user_id joiner)) [
          | inr j ↦ refuses forbidden (rw (e, d, a, j) refl)
          | inl j ↦
              let set =
                redis.completions.setnx-eq s.completions now id tt (max 1 (p.expires_at - now)) in
              elim (Option-cases (redis.completions.get s.completions now id)) [
                | inr (u, c) ↦ refuses conflict (rw (e, d, a, j, set, c) refl)
                | inl c ↦ begins p record {
                  request_found = f;
                  alive = l;
                  proves = d;
                  in_state = (or_false _ _ a).0;
                  approver = (or_false _ _ a).1;
                  same_joiner = j;
                  not_taken = c;
                  gives = rw (e, d, a, j, set, c) refl;
                }
              ]
        ]
      ]
    ]
  ]

  settled :
      {T : Type 0} (now : ℕ) (id : Uuid) (p : JoinRequestRecord) (s t : JoinKeys A B C)
      (r : Result T)
      → redis.requests.get s.requests now id ≡ some p
      → now < p.expires_at
      → is_approved p.state ≡ true
      → t.requests ≡ s.requests
      → Wrote redis now s.requests (finish_or_abort redis now id p r t).1.requests
  unfolding finish_or_abort abort_completion finish_completion
  settled now id p s t (err e) f l a k = rw k keeps
  settled now id p s t (ok v) f l a k =
      rw (save-eq redis now (record p { state = completed }) t l, k)
        (writes id p _ f l (completes a))

  pub join_complete-Wrote :
      {T : Type 0} (now : ℕ) (id : Uuid) (secret : Secret) (joiner : Option Uuid)
      (join : JoinRequestRecord → Result T) (s : JoinKeys A B C)
      → Wrote redis now s.requests (join_complete redis now id secret joiner join s).1.requests
  unfolding join_complete
  join_complete-Wrote now id secret joiner join s =
      elim (begin_completion-cases now id secret joiner s) [
        | refuses e h ↦ rw h keeps
        | begins p b ↦
            rw b.gives (
              settled now id p s (taken now p id s) (join p) b.request_found b.alive b.in_state
                refl)
      ]

  pub abort_completion-Wrote :
      (now : ℕ) (id : Uuid) (s : JoinKeys A B C)
      → Wrote redis now s.requests (abort_completion redis id s).1.requests
  unfolding abort_completion
  abort_completion-Wrote now id s = keeps

  pub save-expired :
      (now : ℕ) (p : JoinRequestRecord) (s : JoinKeys A B C)
      → leb p.expires_at now ≡ true
      → save redis now p s ≡ (err expired, s)
  unfolding save
  save-expired now p s h = rw h refl

  pub finish_completion-Wrote :
      (now : ℕ) (p : JoinRequestRecord) (s : JoinKeys A B C)
      → is_approved p.state ≡ true
      → (now < p.expires_at → redis.requests.get s.requests now p.id ≡ some p)
      → Wrote redis now s.requests (finish_completion redis now p s).1.requests
  unfolding finish_completion
  finish_completion-Wrote now p s a f = elim (Bool-cases (leb p.expires_at now)) [
    | inl e ↦ rw (save-expired now (record p { state = completed }) s e) keeps
    | inr e ↦
        let alive : now < p.expires_at = ground (arith, e) in
        rw (save-eq redis now (record p { state = completed }) s alive)
          (writes p.id p _ (f alive) alive (completes a))
  ]
