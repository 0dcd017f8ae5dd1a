-- ===== src/Auth/Pairing/Once.antt =====
-- When `approvePairing` of server/src/auth/device-pairing.ts can no longer approve.
use cernere.Base.{
  some_eq, ℕ, ◌≤◌, ◌==◌, ==_iff, ==_self, ◌≡◌, refl, sym, ap, ◌∙◌, inl, inr, Bool, Bool-cases,
  Option-cases, true, false, ◌||◌, leb, some, Uuid, List, In, find, find-In, find-test, In-update,
  update-In, update, updated, is_some, ok, err, arith, conflict, subst,
}
use cernere.Auth.Tables.{AuthDb, User, DevicePairing}
use cernere.Auth.Access.{find_user}
use cernere.Auth.Pairing.{state_of, is_candidate}
use cernere.Auth.Pairing.Approval.{
  approve_pairing, approve_in_transaction, ApprovePairing, refuses_approval,
}
use cernere.Auth.Pairing.Approved.{Approval, approve_pairing-Approval}
use cernere.Auth.Pairing.History.{
  Limited, is_limited, Settled, is_settled, Steps, Steps-Limited, Steps-Settled,
}

or_true : (a : Bool) → (a || true) ≡ true
or_true true = refl
or_true false = refl

is_settled-state_of :
    (p : DevicePairing) (now : ℕ) → is_settled p ≡ true → is_candidate (state_of p now) ≡ false
unfolding state_of
is_settled-state_of p now h = elim (Bool-cases (is_some p.approved_at)) [
  | inl e ↦ rw e refl
  | inr e ↦ elim (Bool-cases (is_some p.rejected_at)) [
    | inl f ↦ rw (e, f) refl
    | inr f ↦ absurd (ground (arith, h, e, f))
  ]
]

refuses_settled :
    (c : ApprovePairing) (u : User) (p : DevicePairing)
    → is_settled p ≡ true
    → refuses_approval c u p ≡ true
refuses_settled c u p h = let s = is_settled-state_of p c.now h in ground (arith, s)

-- Where the row that the identifier finds is settled, an approval is refused.
refused :
    (db : AuthDb) (c : ApprovePairing)
    → ((p : DevicePairing)
        → find (λ p. p.id == c.pairing_id) db.device_pairings ≡ some p
        → is_settled p ≡ true)
    → approve_pairing db c ≡ (err conflict, db)
unfolding approve_pairing approve_in_transaction
refused db c h = elim (Option-cases (find_user db c.user_id)) [
  | inl e ↦ rw e refl
  | inr (u, e) ↦ elim (Option-cases (find (λ p. p.id == c.pairing_id) db.device_pairings)) [
    | inl f ↦ rw (e, f) refl
    | inr (p, f) ↦ rw (e, f, refuses_settled c u p (h p f)) refl
  ]
]

Settled-refused :
    (db : AuthDb) (c : ApprovePairing)
    → Settled c.pairing_id db
    → approve_pairing db c ≡ (err conflict, db)
Settled-refused db c t = refused db c (λ p f.
    t.settled p (find-In (λ p. p.id == c.pairing_id) db.device_pairings f)
      ((==_iff p.id c.pairing_id).0 (find-test (λ p. p.id == c.pairing_id) db.device_pairings f)))

leb_if_le : {a b : ℕ} → a ≤ b → leb a b ≡ true
leb_if_le {a} {b} h = ground (arith, h)

limited_settled :
    (p : DevicePairing) → 3 ≤ p.match_attempts → is_limited p ≡ true → is_settled p ≡ true
limited_settled p m l = let t = leb_if_le {a = 3} {b = p.match_attempts} m in ground (arith, t, l)

-- From tables in which every pairing with three wrong numbers is rejected, whatever sequence of the
-- operations on pairings runs, an approval of a pairing with three wrong numbers is refused with a
-- conflict and changes nothing.
pub approve_pairing-limit :
    (db db' : AuthDb) (c : ApprovePairing) (p : DevicePairing)
    → Limited db
    → Steps db db'
    → find (λ x. x.id == c.pairing_id) db'.device_pairings ≡ some p
    → 3 ≤ p.match_attempts
    → approve_pairing db' c ≡ (err conflict, db')
approve_pairing-limit db db' c p l s f m = refused db' c (λ q g.
    limited_settled q (rw (some_eq (sym g ∙ f)) m)
      (Steps-Limited s l q (find-In (λ x. x.id == c.pairing_id) db'.device_pairings g)))

updated_by_id :
    (id : Uuid) (f : DevicePairing → DevicePairing) (p : DevicePairing)
    → p.id ≡ id
    → updated (λ x. x.id == id) f p ≡ f p
updated_by_id id f p e = rw (e, ==_self id) refl

approved_rows :
    (id : Uuid) (now : ℕ) (rows : List DevicePairing) (q : DevicePairing)
    → In q (update (λ x. x.id == id) (λ x. record x { approved_at = some now }) rows)
    → q.id ≡ id
    → is_settled q ≡ true
approved_rows id now rows q i e =
    let (a, _, u) = In-update (λ x. x.id == id) (λ x. record x { approved_at = some now }) rows i in
    elim (Bool-cases (a.id == id)) [
      | inl t ↦ rw (u, t) refl
      | inr t ↦ absurd (
          let v : q ≡ a = (rw t at u) in
          ground (arith, t, (==_iff a.id id).1 (ap (λ (x : DevicePairing). x.id) (sym v) ∙ e)))
    ]

approved-Settled :
    (db db' : AuthDb) (c : ApprovePairing) → Approval db db' c → Settled c.pairing_id db'
approved-Settled db db' c a =
    let f : DevicePairing → DevicePairing = λ x. record x { approved_at = some c.now } in
    let has_id : a.row.id ≡ c.pairing_id =
      (==_iff a.row.id c.pairing_id).0
        (find-test (λ p. p.id == c.pairing_id) db.device_pairings a.row_found) in
    record {
      row = f a.row;
      listed = rw a.pairings (
          subst (λ r. In r (update (λ x. x.id == c.pairing_id) f db.device_pairings))
            (updated_by_id c.pairing_id f a.row has_id)
            (update-In (λ x. x.id == c.pairing_id) f db.device_pairings
              (find-In (λ p. p.id == c.pairing_id) db.device_pairings a.row_found)));
      has_id = has_id;
      settled =
          λ q i e. approved_rows c.pairing_id c.now db.device_pairings q (rw (← a.pairings) i) e;
    }

-- After an approval of a pairing has succeeded, and after any sequence of the operations on
-- pairings, an approval of the same pairing is refused with a conflict and changes nothing.
pub approve_pairing-once :
    (db db' : AuthDb) (c c' : ApprovePairing)
    → (approve_pairing db c).0 ≡ ok tt
    → Steps (approve_pairing db c).1 db'
    → c'.pairing_id ≡ c.pairing_id
    → approve_pairing db' c' ≡ (err conflict, db')
approve_pairing-once db db' c c' h s e = Settled-refused db' c' (
    subst (λ i. Settled i db') (sym e)
      (Steps-Settled s
        (approved-Settled db (approve_pairing db c).1 c (approve_pairing-Approval db c h))))
