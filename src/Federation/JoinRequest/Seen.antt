-- ===== src/Federation/JoinRequest/Seen.antt =====
-- A step of server/src/federation/join-request.ts seen from one identifier, and that every step keeps what
-- holds of the stored requests.
use cernere.Base.{
  ℕ, ◌-◌, ◌<◌, ◌==◌, ==_iff, any, Bool, Bool-cases, Option-cases, true, false, some, inl, inr, ◌⊎◌,
  List, Uuid, ◌≡◌, refl, sym, ◌∙◌, ap, arith, subst,
}
use cernere.Federation.JoinRequest.{
  JoinRequestRecord, JoinRequestRedis, open_state, Fresh, device_request, invite,
}
use cernere.Federation.JoinRequest.History.{
  World, Step, Steps, done, more, look, Effect, passes, moves, comes, Step-Effect,
}
use cernere.Federation.JoinRequest.Invariant.{
  IsValid, RequestMove-IsValid, RequestMove-id, device_request-IsValid, invite-IsValid, IsSound,
  get-saved, Track, same, moved, lapsed, Wrote-Track,
}

new_request :
    (now : ℕ) (fresh : Fresh) (p : JoinRequestRecord)
    → (p ≡ device_request now fresh p.joiner_user_id p.device_name)
      ⊎ ((approver : Uuid) × (p ≡ invite now fresh approver))
    → IsValid p × (p.state ≡ open_state) × (now < p.expires_at)
new_request now fresh p (inl e) =
    subst (λ q. IsValid q × (q.state ≡ open_state) × (now < q.expires_at)) (sym e)
      (device_request-IsValid now fresh p.joiner_user_id p.device_name, refl, omega arith)
new_request now fresh p (inr (a, e)) =
    subst (λ q. IsValid q × (q.state ≡ open_state) × (now < q.expires_at)) (sym e)
      (invite-IsValid now fresh a, refl, omega arith)

abbrev pub is_issued : List Uuid → Uuid → Bool
is_issued issued id = any (λ i. i == id) issued

module _ {A B C : Type 0} (redis : JoinRequestRedis A B C) where
  -- A step seen from one identifier.
  pub data Seen (id : Uuid) (w w' : World A B C) : Type 0 where
    tracks :
        Track redis id (look redis w id) (look redis w' id)
        → is_issued w'.issued id ≡ is_issued w.issued id
        → Seen id w w'
    news :
        (p : JoinRequestRecord)
        → is_issued w.issued id ≡ false
        → is_issued w'.issued id ≡ true
        → look redis w' id ≡ some p
        → IsValid p
        → p.state ≡ open_state
        → p.id ≡ id
        → Seen id w w'

  Effect-Seen :
      (id : Uuid) {w w' : World A B C} → IsSound redis w → Effect redis w w' → Seen id w w'
  unfolding any
  Effect-Seen id {w} v (passes later h) =
      elim (Option-cases (redis.requests.get w.keys.requests later id)) [
        | inl e ↦ tracks (lapsed e) refl
        | inr (p, e) ↦
            tracks (same (e ∙ sym (redis.requests.get_earlier w.keys.requests w.now later id h e)))
              refl
      ]
  Effect-Seen id {w} v (moves {keys} m) =
      tracks (Wrote-Track redis w.now w.keys.requests keys.requests id v.has_id m) refl
  Effect-Seen id {w} v (comes fresh p {keys} f at made e) =
      let (valid, st, l) = new_request w.now fresh p made in
      elim (Bool-cases (fresh.id == id)) [
        | inl i ↦
            let here : p.id ≡ id = at ∙ (==_iff fresh.id id).0 i in
            news p (subst (λ j. is_issued w.issued j ≡ false) ((==_iff fresh.id id).0 i) f.new_id)
              (rw i refl)
              (ap (λ r. redis.requests.get r w.now id) e
                ∙ subst
                    (λ j.
                      redis.requests.get
                        (redis.requests.set w.keys.requests w.now p.id p (p.expires_at - w.now))
                        w.now j
                      ≡ some p)
                    here (get-saved redis w.keys.requests w.now p.id p l))
              valid st here
        | inr i ↦
            tracks
              (same (
                ap (λ r. redis.requests.get r w.now id) e
                ∙ redis.requests.get-set_other w.keys.requests w.now p.id id p
                    (p.expires_at - w.now) w.now (λ h. ground (arith, i, at))))
              (rw i refl)
      ]

  pub Step-Seen :
      (id : Uuid) {w w' : World A B C} → IsSound redis w → Step redis w w' → Seen id w w'
  Step-Seen id v s = Effect-Seen id v (Step-Effect redis s)

  -- Of one identifier.
  record IsSoundAt (w : World A B C) (id : Uuid) (p : JoinRequestRecord) : Type 0 where
    pub valid : IsValid p
    pub has_id : p.id ≡ id
    pub was_issued : is_issued w.issued id ≡ true

  sound_at :
      {w w' : World A B C} (id : Uuid) (p : JoinRequestRecord)
      → IsSound redis w
      → Seen id w w'
      → look redis w' id ≡ some p
      → IsSoundAt w' id p
  sound_at id p v (tracks (same e) i) f =
      let before = sym e ∙ f in
      record {
        valid = v.valid id p before;
        has_id = v.has_id id p before;
        was_issued = i ∙ v.was_issued id p before;
      }
  sound_at id p v (tracks (moved a b g h m) i) f =
      let same_row : b ≡ p = cc in
      record {
        valid = subst IsValid same_row (RequestMove-IsValid m (v.valid id a g));
        has_id =
            ap (λ (q : JoinRequestRecord). q.id) (sym same_row)
            ∙ RequestMove-id m
            ∙ v.has_id id a g;
        was_issued = i ∙ v.was_issued id a g;
      }
  sound_at id p v (tracks (lapsed e) i) f = cc
  sound_at id p v (news b n i h x st has) f =
      let same_row : b ≡ p = cc in
      record {
        valid = subst IsValid same_row x;
        has_id = ap (λ (q : JoinRequestRecord). q.id) (sym same_row) ∙ has;
        was_issued = i;
      }

  pub Step-IsSound : {w w' : World A B C} → Step redis w w' → IsSound redis w → IsSound redis w'
  Step-IsSound s v = record {
    valid = λ id p f. (sound_at id p v (Step-Seen id v s) f).valid;
    has_id = λ id p f. (sound_at id p v (Step-Seen id v s) f).has_id;
    was_issued = λ id p f. (sound_at id p v (Step-Seen id v s) f).was_issued;
  }

  -- If every stored request is valid (at most three wrong numbers, locked exactly with three, with
  -- an approver, a device and a number once claimed, and no account joining itself), lies under its
  -- identifier and that one was given out, this holds after any sequence of operations and of time.
  pub Steps-IsSound : {w w' : World A B C} → Steps redis w w' → IsSound redis w → IsSound redis w'
  Steps-IsSound done v = v
  Steps-IsSound (more s r) v = Steps-IsSound r (Step-IsSound s v)
