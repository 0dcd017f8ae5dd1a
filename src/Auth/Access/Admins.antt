-- ===== src/Auth/Access/Admins.antt =====
-- What a decision of `decideAccess` of server/src/auth/user-access.ts changes, and why an active
-- administrator stays.
use cernere.Base.{
  ℕ, ◌==◌, ==_iff, ==_self, ◌≡◌, refl, sym, ap, ◌∙◌, ◌≢◌, arith, Bool, Bool-cases, ◌&&◌, true,
  false, not, some, inl, inr, Uuid, String, str_eq, update, updated, find-test, find-In, In-any,
  find-update, ok, ok_value, throw_if-eq-ok, or_throw-eq-ok, >>=-eq-ok,
}
use cernere.Auth.Tables.{AuthDb, User}
use cernere.Auth.Access.{
  AccessStatus, is_locked, parse_access_status, is_active, is_active_admin, is_admin, DecisionInput,
  transitions, decided, apply_decision, decide_access, require_active_admin, find_user,
  revoke_access_artifacts, locks_last_admin,
}

pub record Decided (db db' : AuthDb) (now : ℕ) (actor : Uuid) (input : DecisionInput) : Type 0 where
  pub is_other : actor ≢ input.user_id
  pub admin : User
  pub admin_found : find_user db actor ≡ some admin
  pub admin_active : is_active_admin admin ≡ true
  pub target : User
  pub found : find_user db input.user_id ≡ some target
  pub was_current : target.access_revision ≡ input.expected_revision
  pub is_legal : (transitions input.decision).from (parse_access_status target.access_status) ≡ true
  pub applied : db' ≡ apply_decision db now actor input target

undo_not : {b : Bool} → not b ≡ false → b ≡ true
undo_not h = ground arith

pub find_user-id : (db : AuthDb) (id : Uuid) {u : User} → find_user db id ≡ some u → u.id ≡ id
unfolding find_user
find_user-id db id {u} h = (==_iff u.id id).0 (find-test (λ u. u.id == id) db.users h)

require_active_admin-eq-ok :
    (db : AuthDb) (actor : Uuid)
    → require_active_admin db actor ≡ ok tt
    → (u : User) × (find_user db actor ≡ some u) × (is_active_admin u ≡ true)
unfolding require_active_admin
require_active_admin-eq-ok db actor h =
    let (u, f, k) = or_throw-eq-ok (find_user db actor) _ _ h in
    let (e, _) = throw_if-eq-ok _ _ _ k in (u, f, undo_not e)

apply_decision-users :
    (db : AuthDb) (now : ℕ) (actor : Uuid) (input : DecisionInput) (target : User)
    → (apply_decision db now actor input target).users
      ≡ update (λ u. u.id == target.id) (decided target (transitions input.decision).to) db.users
unfolding apply_decision revoke_access_artifacts
apply_decision-users db now actor input target =
    elim (Bool-cases (is_locked (transitions input.decision).to)) [
      | inl e ↦ rw e refl
      | inr e ↦ rw e refl
    ]

updated_other :
    (id : Uuid) (f : User → User) (u : User) → u.id ≢ id → updated (λ x. x.id == id) f u ≡ u
updated_other id f u n = elim (Bool-cases (u.id == id)) [
  | inl e ↦ absurd (n ((==_iff u.id id).0 e))
  | inr e ↦ rw e refl
]

updated_same :
    (id : Uuid) (f : User → User) (u : User) → u.id ≡ id → updated (λ x. x.id == id) f u ≡ f u
updated_same id f u e = rw (e, ==_self id) refl

active_text : (s : String) → is_active (parse_access_status s) ≡ true → str_eq s "active" ≡ true
unfolding parse_access_status
active_text s h = elim (Bool-cases (str_eq s "pending")) [
  | inl e ↦ absurd (ground (arith, e))
  | inr e ↦ elim (Bool-cases (str_eq s "active")) [
    | inl f ↦ f
    | inr f ↦ absurd (ground (arith, e, f))
  ]
]

both : (a b : Bool) → (a && b) ≡ true → (a ≡ true) × (b ≡ true)
both true b h = (refl, h)
both false b h = cc

different : (a b : ℕ) → a ≢ b → not (a == b) ≡ true
different a b n = ground (arith, n)

other_admin :
    {id : Uuid} (u : User)
    → is_active_admin u ≡ true
    → u.id ≢ id
    → (str_eq u.role "admin" && str_eq u.access_status "active" && not (u.id == id)) ≡ true
other_admin {id} u a n =
    let (r, s) = both (is_admin u) _ a in
    rw (r, active_text u.access_status s, different u.id id n) refl

-- Where the actor is an active administrator and is not the target, the guard on the last active
-- administrator does not refuse.
pub locks_last_admin-decided :
    (db : AuthDb) (actor : Uuid) (target : User) (before to : AccessStatus)
    → require_active_admin db actor ≡ ok tt
    → actor ≢ target.id
    → locks_last_admin db.users target before to ≡ false
unfolding find_user
locks_last_admin-decided db actor target before to h n =
    let (u, f, a) = require_active_admin-eq-ok db actor h in
    let t =
      In-any
        (λ x. str_eq x.role "admin" && str_eq x.access_status "active" && not (x.id == target.id))
        db.users (find-In (λ x. x.id == actor) db.users f)
        (other_admin u a (λ e. n (sym (find_user-id db actor f) ∙ e))) in
    ground (arith, t)

module _ (db : AuthDb) (now : ℕ) (actor : Uuid) (input : DecisionInput) {db' : AuthDb}
    (h : decide_access db now actor input ≡ ok db') where
  pub decide_access-Decided : Decided db db' now actor input
  unfolding decide_access
  decide_access-Decided =
      let (other, h1) = throw_if-eq-ok (actor == input.user_id) _ _ h in
      let (_, admin, h2) = >>=-eq-ok (require_active_admin db actor) _ h1 in
      let (u, f, a) = require_active_admin-eq-ok db actor admin in
      let (t, g, h3) = or_throw-eq-ok (find_user db input.user_id) _ _ h2 in
      let (current, h4) = throw_if-eq-ok _ _ _ h3 in
      let (legal, h5) = throw_if-eq-ok _ _ _ h4 in
      let (_, h6) = throw_if-eq-ok _ _ _ h5 in
      record {
        is_other = ground (arith, other, ==_self actor);
        admin = u;
        admin_found = f;
        admin_active = a;
        target = t;
        found = g;
        was_current = (==_iff t.access_revision input.expected_revision).0 (undo_not current);
        is_legal = undo_not legal;
        applied = sym (ok_value h6);
      }

  pub decide_access-users :
      (d : Decided db db' now actor input)
      → db'.users
        ≡ update
            (λ u. u.id == d.target.id)
            (decided d.target (transitions input.decision).to)
            db.users
  decide_access-users d = rw (d.applied) (apply_decision-users db now actor input d.target)

  -- The row of another account is found again, as it was.
  pub decide_access-find_other :
      (d : Decided db db' now actor input) (id : Uuid) {u : User}
      → id ≢ d.target.id
      → find_user db id ≡ some u
      → find_user db' id ≡ some u
  unfolding find_user
  decide_access-find_other d id {u} n k = rw (decide_access-users d) (
      find-update (λ x. x.id == id) (λ x. x.id == d.target.id) _ (λ x. refl) db.users k
      ∙ ap some (
          updated_other d.target.id (decided d.target (transitions input.decision).to) u
            (λ e. n (sym (find_user-id db id k) ∙ e))))

  -- The row of the target is found, as it is decided.
  pub decide_access-find_target :
      (d : Decided db db' now actor input)
      → find_user db' input.user_id
        ≡ some (decided d.target (transitions input.decision).to d.target)
  unfolding find_user
  decide_access-find_target d = rw (decide_access-users d) (
      find-update (λ x. x.id == input.user_id) (λ x. x.id == d.target.id) _ (λ x. refl) db.users
        d.found
      ∙ ap some (
          updated_same d.target.id (decided d.target (transitions input.decision).to) d.target
            refl))

  -- After a decision that succeeds, the actor is found and is still an active administrator.
  pub decide_access-admin_stays :
      (u : User) × (find_user db' actor ≡ some u) × (is_active_admin u ≡ true)
  decide_access-admin_stays =
      let d = decide_access-Decided in
      (
        d.admin,
        decide_access-find_other d actor
            (λ e. d.is_other (e ∙ find_user-id db input.user_id d.found)) d.admin_found,
        d.admin_active,
      )
