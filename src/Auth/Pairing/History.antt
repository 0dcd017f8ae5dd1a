-- ===== src/Auth/Pairing/History.antt =====
-- Any sequence of the operations of server/src/auth/device-pairing.ts, and what it keeps of a
-- pairing.
use cernere.Base.{
  ℕ, ◌==◌, ◌≡◌, refl, sym, ◌∙◌, inl, inr, Bool, Bool-cases, true, false, ◌||◌, not, leb, Uuid, In,
  any, is_some, ok, arith,
}
use cernere.Auth.Tables.{AuthDb, DevicePairing, OpaqueText}
use cernere.Auth.Pairing.{
  create_device_pairing, begin_pairing_registration, Token, finish_pairing_registration,
  FinishPairing, reject_pairing, pairing_max_match_attempts,
}
use cernere.Auth.Pairing.Approval.{approve_pairing, ApprovePairing}
use cernere.Auth.Pairing.Rows.{
  RowMove, stays, revokes, claims, fills, approves, rejects, misses, Moved,
  create_device_pairing-Moved, begin_pairing_registration-Moved, finish_pairing_registration-Moved,
  reject_pairing-Moved, approve_pairing-Moved,
}

-- One operation. The identifier of a new pairing is not in use, which its primary key sees to.
pub data Step : AuthDb → AuthDb → Type 0 where
  creates :
      {db db' : AuthDb} (now : ℕ) (user_id pairing_id : Uuid) (digest : OpaqueText)
      → any (λ p. p.id == pairing_id) db.device_pairings ≡ false
      → create_device_pairing db now user_id pairing_id digest ≡ ok db'
      → Step db db'
  begins :
      {db : AuthDb} (now : ℕ) (token : Token) (challenge : OpaqueText)
      → Step db (begin_pairing_registration db now token challenge).1
  finishes :
      {db db' : AuthDb} (c : FinishPairing)
      → finish_pairing_registration db c ≡ ok db'
      → Step db db'
  approves_one : {db : AuthDb} (c : ApprovePairing) → Step db (approve_pairing db c).1
  rejects_one :
      {db : AuthDb} (now : ℕ) (user_id pairing_id : Uuid)
      → Step db (reject_pairing db now user_id pairing_id)

-- Any number of operations.
pub data Steps : AuthDb → AuthDb → Type 0 where
  done : {db : AuthDb} → Steps db db
  more : {db mid db' : AuthDb} → Step db mid → Steps mid db' → Steps db db'

Step-Moved : {db db' : AuthDb} → Step db db' → Moved db.device_pairings db'.device_pairings
Step-Moved (creates {db} now user_id pairing_id digest f h) =
    create_device_pairing-Moved db now user_id pairing_id digest f h
Step-Moved (begins {db} now token challenge) =
    begin_pairing_registration-Moved db now token challenge
Step-Moved (finishes {db} c h) = finish_pairing_registration-Moved db c h
Step-Moved (approves_one {db} c) = approve_pairing-Moved db c
Step-Moved (rejects_one {db} now user_id pairing_id) =
    reject_pairing-Moved db now user_id pairing_id

abbrev pub is_settled : DevicePairing → Bool
is_settled p = is_some p.approved_at || is_some p.rejected_at

-- A row with the largest number of wrong numbers is rejected.
abbrev pub is_limited : DevicePairing → Bool
is_limited p = not (leb pairing_max_match_attempts p.match_attempts) || is_some p.rejected_at

RowMove-id : {p q : DevicePairing} → RowMove p q → q.id ≡ p.id
RowMove-id stays = refl
RowMove-id (revokes now) = refl
RowMove-id (claims now) = refl
RowMove-id (fills id code label) = refl
RowMove-id (approves now) = refl
RowMove-id (rejects now) = refl
RowMove-id (misses {p} attempts now) = elim (Bool-cases (leb pairing_max_match_attempts attempts)) [
  | inl e ↦ rw e refl
  | inr e ↦ rw e refl
]

RowMove-is_settled : {p q : DevicePairing} → RowMove p q → is_settled p ≡ true → is_settled q ≡ true
RowMove-is_settled stays h = h
RowMove-is_settled (revokes now) h = h
RowMove-is_settled (claims now) h = h
RowMove-is_settled (fills id code label) h = h
RowMove-is_settled (approves now) h = refl
RowMove-is_settled (rejects {p} now) h = ground arith
RowMove-is_settled (misses {p} attempts now) h =
    elim (Bool-cases (leb pairing_max_match_attempts attempts)) [
      | inl e ↦ rw e (ground arith)
      | inr e ↦ rw e h
    ]

RowMove-is_limited : {p q : DevicePairing} → RowMove p q → is_limited p ≡ true → is_limited q ≡ true
RowMove-is_limited stays h = h
RowMove-is_limited (revokes now) h = h
RowMove-is_limited (claims now) h = h
RowMove-is_limited (fills id code label) h = h
RowMove-is_limited (approves now) h = h
RowMove-is_limited (rejects {p} now) h = ground arith
RowMove-is_limited (misses {p} attempts now) h =
    elim (Bool-cases (leb pairing_max_match_attempts attempts)) [
      | inl e ↦ rw e (ground arith)
      | inr e ↦ rw (e, e) refl
    ]

-- Every pairing that has been missed too often is rejected.
abbrev pub Limited : AuthDb → Type 0
Limited db = (p : DevicePairing) → In p db.device_pairings → is_limited p ≡ true

-- The pairing is there, and is approved or rejected.
pub record Settled (id : Uuid) (db : AuthDb) : Type 0 where
  pub row : DevicePairing
  pub listed : In row db.device_pairings
  pub has_id : row.id ≡ id
  pub settled : (p : DevicePairing) → In p db.device_pairings → p.id ≡ id → is_settled p ≡ true

Step-Limited : {db db' : AuthDb} → Step db db' → Limited db → Limited db'
Step-Limited s l q i = elim ((Step-Moved s).origin q i) [
  | inl (p, j, m) ↦ RowMove-is_limited m (l p j)
  | inr f ↦ rw f.no_attempts refl
]

pub Steps-Limited : {db db' : AuthDb} → Steps db db' → Limited db → Limited db'
Steps-Limited done l = l
Steps-Limited (more s r) l = Steps-Limited r (Step-Limited s l)

Step-Settled : {db db' : AuthDb} {id : Uuid} → Step db db' → Settled id db → Settled id db'
Step-Settled s t =
    let moved = Step-Moved s in
    let (q, i, m) = moved.kept t.row t.listed in
    record {
      row = q;
      listed = i;
      has_id = RowMove-id m ∙ t.has_id;
      settled = λ b j e. elim (moved.origin b j) [
        | inl (p, k, n) ↦ RowMove-is_settled n (t.settled p k (sym (RowMove-id n) ∙ e))
        | inr f ↦ absurd (f.new_id t.listed (t.has_id ∙ sym e))
      ];
    }

pub Steps-Settled : {db db' : AuthDb} {id : Uuid} → Steps db db' → Settled id db → Settled id db'
Steps-Settled done t = t
Steps-Settled (more s r) t = Steps-Settled r (Step-Settled s t)
