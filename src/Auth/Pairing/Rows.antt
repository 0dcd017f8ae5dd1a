-- ===== src/Auth/Pairing/Rows.antt =====
-- How the operations of server/src/auth/device-pairing.ts move the rows of `device_pairings`.
use cernere.Base.{
  ℕ, ◌+◌, ◌==◌, ==_iff, ◌≡◌, refl, ◌≢◌, ◌⊎◌, inl, inr, Bool, Bool-cases, true, false, ◌&&◌, not,
  Option, none, some, List, [], ◌∷◌, ◌++◌, String, Uuid, In, In-append, In-append_left, In-single,
  In-update, update-In, update, updated, any, any-false-In, arith, is_some, leb, subst, ◌||◌, find,
  Result, ok, err, or_throw-eq-ok, throw_if-eq-ok, >>=-eq-ok, ok_value,
}
use cernere.Auth.Tables.{AuthDb, DevicePairing, OpaqueText, pairing}
use cernere.Auth.Pairing.{
  create_device_pairing, begin_pairing_registration, Token, finish_pairing_registration,
  FinishPairing, reject_pairing, reject_row, pairing_max_match_attempts,
}
use cernere.Auth.Access.{find_user}
use cernere.Auth.Candidates.{lock_open_candidate, promote_passkey_candidate}
use cernere.Auth.Pairing.Approval.{
  missed, approve_pairing, ApprovePairing, record_mismatch, promote_pairing, approve_in_transaction,
  settle_number, after_commit, Mismatch,
}

-- One row before and after an operation.
pub data RowMove : DevicePairing → DevicePairing → Type 0 where
  stays : {p : DevicePairing} → RowMove p p
  revokes : {p : DevicePairing} (now : ℕ) → RowMove p (record p { revoked_at = some now })
  claims : {p : DevicePairing} (now : ℕ) → RowMove p (record p { claimed_at = some now })
  fills :
      {p : DevicePairing} (id : Uuid) (code label : String)
      → RowMove p (record p {
        candidate_id = some id;
        match_code = some code;
        candidate_label = some label;
      })
  approves : {p : DevicePairing} (now : ℕ) → RowMove p (record p { approved_at = some now })
  rejects : {p : DevicePairing} (now : ℕ) → RowMove p (record p { rejected_at = some now })
  misses : {p : DevicePairing} (attempts now : ℕ) → RowMove p (missed attempts now p)

pub record Fresh (rows : List DevicePairing) (p : DevicePairing) : Type 0 where
  pub new_id : {q : DevicePairing} → In q rows → q.id ≢ p.id
  pub no_attempts : p.match_attempts ≡ 0

-- Every row afterwards is a row of before, moved, or a fresh one, and no row is lost.
pub record Moved (rows rows' : List DevicePairing) : Type 0 where
  pub origin :
      (q : DevicePairing)
      → In q rows'
      → ((p : DevicePairing) × In p rows × RowMove p q) ⊎ Fresh rows q
  pub kept : (p : DevicePairing) → In p rows → (q : DevicePairing) × In q rows' × RowMove p q

pub Moved-refl : (rows : List DevicePairing) → Moved rows rows
Moved-refl rows = record { origin = λ q i. inl (q, i, stays); kept = λ p i. (p, i, stays) }

updated-RowMove :
    (p : DevicePairing → Bool) (f : DevicePairing → DevicePairing)
    → ((a : DevicePairing) → RowMove a (f a))
    → (a : DevicePairing) → RowMove a (updated p f a)
updated-RowMove p f h a = elim (Bool-cases (p a)) [ inl e ↦ rw e (h a) | inr e ↦ rw e stays ]

pub update-Moved :
    (p : DevicePairing → Bool) (f : DevicePairing → DevicePairing)
    → ((a : DevicePairing) → RowMove a (f a))
    → (rows : List DevicePairing) → Moved rows (update p f rows)
update-Moved p f h rows = record {
  origin =
      λ q i. (let (a, j, e) = In-update p f rows i in inl (a, j, rw e (updated-RowMove p f h a)));
  kept = λ a i. (updated p f a, update-In p f rows i, updated-RowMove p f h a);
}

pub append-Moved :
    (rows : List DevicePairing) {rows' : List DevicePairing} (new : DevicePairing)
    → Fresh rows new
    → Moved rows rows'
    → Moved rows (rows' ++ new ∷ [])
append-Moved rows {rows'} new f m = record {
  origin = λ q i. elim (In-append {a = q} rows' {ys = new ∷ []} i) [
    | inl j ↦ m.origin q j
    | inr j ↦ inr (rw (← In-single j) f)
  ];
  kept = λ p i. (let (q, j, r) = m.kept p i in (q, In-append_left (new ∷ []) j, r));
}

not_same : {a b : ℕ} → (a == b) ≡ false → a ≢ b
not_same {a} {b} h e = ground (arith, h, (==_iff a b).1 e)

missed-Moved :
    (id : Uuid) (n now : ℕ) (rows : List DevicePairing)
    → Moved rows (update (λ x. x.id == id) (missed n now) rows)
missed-Moved id n now rows = update-Moved (λ x. x.id == id) (missed n now) (λ a. misses n now) rows

pub create_device_pairing-Moved :
    (db : AuthDb) (now : ℕ) (user_id pairing_id : Uuid) (digest : OpaqueText) {db' : AuthDb}
    → any (λ p. p.id == pairing_id) db.device_pairings ≡ false
    → create_device_pairing db now user_id pairing_id digest ≡ ok db'
    → Moved db.device_pairings db'.device_pairings
unfolding create_device_pairing
create_device_pairing-Moved db now user_id pairing_id digest fresh h =
    let (u, _, k) = or_throw-eq-ok (find_user db user_id) _ _ h in
    subst (λ x. Moved db.device_pairings x.device_pairings) (ok_value k)
      (append-Moved db.device_pairings _
        (record {
          new_id =
              λ i e. not_same (any-false-In (λ p. p.id == pairing_id) db.device_pairings fresh i) e;
          no_attempts = refl;
        })
        (update-Moved _ _ (λ a. revokes now) db.device_pairings))

pub begin_pairing_registration-Moved :
    (db : AuthDb) (now : ℕ) (token : Token) (challenge : OpaqueText)
    → Moved db.device_pairings (begin_pairing_registration db now token challenge).1.device_pairings
unfolding begin_pairing_registration
begin_pairing_registration-Moved db now token challenge =
    elim (Bool-cases (token.length == 0 || not (leb token.length 512))) [
      | inl e ↦ rw e (Moved-refl db.device_pairings)
      | inr e ↦ rw e (update-Moved _ _ (λ a. claims now) db.device_pairings)
    ]

pub finish_pairing_registration-Moved :
    (db : AuthDb) (c : FinishPairing) {db' : AuthDb}
    → finish_pairing_registration db c ≡ ok db'
    → Moved db.device_pairings db'.device_pairings
unfolding finish_pairing_registration
finish_pairing_registration-Moved db c h =
    let (ceremony, _, h1) = or_throw-eq-ok c.ceremony _ _ h in
    let (info, _, h2) = or_throw-eq-ok (c.verify ceremony.challenge) _ _ h1 in
    let (user, _, h3) = or_throw-eq-ok (find_user db ceremony.user_id) _ _ h2 in
    let (p, _, h4) =
      or_throw-eq-ok (find (λ p. p.id == ceremony.pairing_id) db.device_pairings) _ _ h3 in
    let (_, h5) = throw_if-eq-ok _ _ _ h4 in
    subst (λ x. Moved db.device_pairings x.device_pairings) (ok_value h5)
      (update-Moved (λ x. x.id == p.id) _ (λ a. fills c.candidate_id c.match_code c.label)
        db.device_pairings)

reject_row-Moved :
    (db : AuthDb) (now : ℕ) (pairing_id : Uuid) (o : Option DevicePairing)
    → Moved db.device_pairings (reject_row db now pairing_id o).device_pairings
reject_row-Moved db now pairing_id none = Moved-refl db.device_pairings
reject_row-Moved db now pairing_id (some p) = elim (Bool-cases (is_some p.approved_at)) [
  | inl e ↦ rw e (Moved-refl db.device_pairings)
  | inr e ↦ rw e (update-Moved (λ x. x.id == pairing_id) _ (λ a. rejects now) db.device_pairings)
]

pub reject_pairing-Moved :
    (db : AuthDb) (now : ℕ) (user_id pairing_id : Uuid)
    → Moved db.device_pairings (reject_pairing db now user_id pairing_id).device_pairings
unfolding reject_pairing
reject_pairing-Moved db now user_id pairing_id =
    reject_row-Moved db now pairing_id
      (find (λ p. p.id == pairing_id && p.user_id == user_id) db.device_pairings)

record_mismatch-Moved :
    (db : AuthDb) (c : ApprovePairing) (p : DevicePairing)
    → Moved db.device_pairings (record_mismatch db c p).1.device_pairings
unfolding record_mismatch
record_mismatch-Moved db c p =
    let m = missed-Moved c.pairing_id (p.match_attempts + 1) c.now db.device_pairings in
    elim (Bool-cases (leb pairing_max_match_attempts (p.match_attempts + 1))) [
      | inl e ↦ rw e m
      | inr e ↦ rw e m
    ]

promote_pairing-Moved :
    (db : AuthDb) (c : ApprovePairing) (p : DevicePairing) {db' : AuthDb}
    → promote_pairing db c p ≡ ok db'
    → Moved db.device_pairings db'.device_pairings
unfolding promote_pairing promote_passkey_candidate
promote_pairing-Moved db c p h =
    let (o, _, h1) =
      or_throw-eq-ok (lock_open_candidate db c.candidate_id c.user_id pairing) _ _ h in
    let (d, e, h2) = >>=-eq-ok (promote_passkey_candidate db o c.now c.passkey_id) _ h1 in
    let (_, e1) = throw_if-eq-ok _ _ _ e in
    subst (λ x. Moved db.device_pairings x.device_pairings) (ok_value h2)
      (subst
        (λ x. Moved db.device_pairings (
          update (λ x. x.id == c.pairing_id) (λ x. record x { approved_at = some c.now })
            x.device_pairings))
        (ok_value e1)
        (update-Moved (λ x. x.id == c.pairing_id) _ (λ a. approves c.now) db.device_pairings))

settle_number-Moved :
    (db : AuthDb) (c : ApprovePairing) (p : DevicePairing) (b : Bool) {r : Option Mismatch × AuthDb}
    → settle_number db c p b ≡ ok r
    → Moved db.device_pairings r.1.device_pairings
settle_number-Moved db c p true h =
    let (d, e, k) = >>=-eq-ok (promote_pairing db c p) _ h in
    subst (λ x. Moved db.device_pairings x.1.device_pairings) (ok_value k)
      (promote_pairing-Moved db c p e)
settle_number-Moved db c p false h =
    subst (λ x. Moved db.device_pairings x.1.device_pairings) (ok_value h)
      (record_mismatch-Moved db c p)

approve_in_transaction-Moved :
    (db : AuthDb) (c : ApprovePairing) {r : Option Mismatch × AuthDb}
    → approve_in_transaction db c ≡ ok r
    → Moved db.device_pairings r.1.device_pairings
unfolding approve_in_transaction
approve_in_transaction-Moved db c h =
    let (u, _, h1) = or_throw-eq-ok (find_user db c.user_id) _ _ h in
    let (p, _, h2) = or_throw-eq-ok (find (λ p. p.id == c.pairing_id) db.device_pairings) _ _ h1 in
    let (_, h3) = throw_if-eq-ok _ _ _ h2 in settle_number-Moved db c p _ h3

after_commit-Moved :
    (db : AuthDb) (r : Result (Option Mismatch × AuthDb))
    → ((s : Option Mismatch × AuthDb) → r ≡ ok s → Moved db.device_pairings s.1.device_pairings)
    → Moved db.device_pairings (after_commit db r).1.device_pairings
after_commit-Moved db (err e) f = Moved-refl db.device_pairings
after_commit-Moved db (ok (none, d)) f = f _ refl
after_commit-Moved db (ok (some m, d)) f = f _ refl

pub approve_pairing-Moved :
    (db : AuthDb) (c : ApprovePairing)
    → Moved db.device_pairings (approve_pairing db c).1.device_pairings
unfolding approve_pairing
approve_pairing-Moved db c =
    after_commit-Moved db (approve_in_transaction db c) (λ s e. approve_in_transaction-Moved db c e)
