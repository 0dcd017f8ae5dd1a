-- ===== src/Auth/Recovery/Renewed.antt =====
-- What a confirmation by `confirmRecovery` of server/src/auth/recovery-request.ts leaves of the
-- account's old credentials.
use cernere.Base.{
  ℕ, ◌==◌, ==_iff, ◌≡◌, refl, sym, ap, ◌∙◌, inl, inr, Bool, Bool-cases, true, false, ◌&&◌, some,
  Uuid, List, [], ◌∷◌, In, In-append, In-single, find, In-update, update, updated-keeps, any,
  any-update, any-delete, is_none, ==_self, updated, find-update, ◌≢◌, ◌+◌, find, ok, arith, subst,
}
use cernere.Auth.Tables.{AuthDb, User, Passkey, PasskeyCandidate}
use cernere.Auth.Access.{find_user, live_device_of}
use cernere.Auth.Recovery.{is_usable}
use cernere.Auth.Recovery.Confirm.{confirm_recovery, ConfirmRecovery, recovered, live_passkey_of}
use cernere.Auth.Recovery.Checked.{with_new_key}
use cernere.Auth.Recovery.Confirmed.{Confirmation, confirm_recovery-Confirmation}

and_false : (a : Bool) → (a && false) ≡ false
and_false true = refl
and_false false = refl

and_false_right : (a b : Bool) → (a && (b && false)) ≡ false
and_false_right true b = and_false b
and_false_right false b = refl

-- What a confirmed recovery leaves of the account's credentials.
pub record Replaced (db db' : AuthDb) (c : ConfirmRecovery) (k : Confirmation db db' c)
    : Type 0 where
  pub no_device :
      any (λ d. d.user_id == k.user.id && is_none d.revoked_at) db'.device_credentials ≡ false
  pub no_refresh : any (λ s. s.user_id == k.user.id) db'.refresh_sessions ≡ false
  pub only_key :
      (p : Passkey)
      → In p db'.passkeys
      → (p.user_id == k.user.id && is_none p.revoked_at) ≡ true
      → (p.id ≡ c.passkey_id) × (p.key ≡ k.key.key)
  pub code_used :
      any
        (λ x. x.id == k.code.id && (is_none x.revoked_at && is_none x.used_at))
        db'.user_recovery_codes
      ≡ false
  pub request_closed :
      any
        (λ r. r.id == k.request.id && is_none r.cancelled_at && is_none r.completed_at)
        db'.recovery_requests
      ≡ false
  -- The row of the account, and no other, moves on.
  pub own_row :
      find_user db' k.user.id
      ≡ some record k.user {
        auth_epoch = k.user.auth_epoch + 1;
        mfa_revision = k.user.mfa_revision + 1;
        recovery_generation = k.user.recovery_generation + 1;
        last_login_at = some c.now;
      }
  pub other_rows : (id : Uuid) → id ≢ k.user.id → find_user db' id ≡ find_user db id

-- The update of one row by its identifier ends a test that holds of no updated row.
any_by_id :
    {A : Type 0} (p q : A → Bool) (f : A → A)
    → ((x : A) → p (f x) ≡ false)
    → ((x : A) → p x ≡ true → q x ≡ true)
    → (xs : List A) → any p (update q f xs) ≡ false
unfolding any update
any_by_id p q f h g [] = refl
any_by_id p q f h g (x ∷ xs) = elim (Bool-cases (q x)) [
  | inl e ↦ rw (e, h x) (any_by_id p q f h g xs)
  | inr e ↦ elim (Bool-cases (p x)) [
    | inl t ↦ absurd (ground (arith, e, g x t))
    | inr t ↦ rw (e, t) (any_by_id p q f h g xs)
  ]
]

and_left : (a b : Bool) → (a && b) ≡ true → a ≡ true
and_left true b h = refl
and_left false b h = cc

live_before :
    (c : ConfirmRecovery) (user_id : Uuid) (ps : List Passkey) (p : Passkey)
    → In p (update (live_passkey_of user_id) (λ p. record p { revoked_at = some c.now }) ps)
    → live_passkey_of user_id p ≡ false
live_before c user_id ps p i =
    let (a, _, e) =
      In-update (live_passkey_of user_id) (λ p. record p { revoked_at = some c.now }) ps i in
    elim (Bool-cases (live_passkey_of user_id a)) [
      | inl t ↦
          (let v : p ≡ record a { revoked_at = some c.now } = (rw t at e) in
            rw v (and_false (a.user_id == user_id)))
      | inr t ↦ (let v : p ≡ a = (rw t at e) in rw v t)
    ]

only_new_key :
    (db : AuthDb) (c : ConfirmRecovery) (user_id : Uuid) (key : PasskeyCandidate) (counter : ℕ)
    (p : Passkey)
    → In p (
        update
          (λ x. x.id == c.passkey_id)
          (λ x. record x { last_used_at = some c.now })
          (with_new_key db c user_id key counter).passkeys)
    → live_passkey_of user_id p ≡ true
    → (p.id ≡ c.passkey_id) × (p.key ≡ key.key)
only_new_key db c user_id key counter p i l =
    let by_id : Passkey → Bool = λ x. x.id == c.passkey_id in
    let used : Passkey → Passkey = λ x. record x { last_used_at = some c.now } in
    let (a, j, e) = In-update by_id used (with_new_key db c user_id key counter).passkeys i in
    let was_live : live_passkey_of user_id a ≡ true =
      sym (
        ap (live_passkey_of user_id) e
        ∙ updated-keeps (live_passkey_of user_id) by_id used (λ x. refl) a)
      ∙ l in
    elim (In-append
      (update (live_passkey_of user_id) (λ p. record p { revoked_at = some c.now }) db.passkeys)
      j) [
        | inl o ↦ absurd (ground (arith, was_live, live_before c user_id db.passkeys a o))
        | inr n ↦ (
          ap (λ (x : Passkey). x.id) e
              ∙ updated-keeps (λ (x : Passkey). x.id) by_id used (λ x. refl) a
              ∙ ap (λ (x : Passkey). x.id) (sym (In-single n)),
          ap (λ (x : Passkey). x.key) e
              ∙ updated-keeps (λ (x : Passkey). x.key) by_id used (λ x. refl) a
              ∙ ap (λ (x : Passkey). x.key) (sym (In-single n)),
        )
      ]

module _ {A : Type 0} where
  find-update_other :
      (q p : A → Bool) (f : A → A)
      → ((x : A) → q (f x) ≡ q x)
      → ((x : A) → p x ≡ true → q x ≡ false)
      → (xs : List A) → find q (update p f xs) ≡ find q xs
  unfolding find update
  find-update_other q p f h n [] = refl
  find-update_other q p f h n (x ∷ xs) = elim (Bool-cases (p x)) [
    | inl e ↦ rw (e, h x, n x e) (find-update_other q p f h n xs)
    | inr e ↦ elim (Bool-cases (q x)) [
      | inl t ↦ rw (e, t) refl
      | inr t ↦ rw (e, t) (find-update_other q p f h n xs)
    ]
  ]

updated_own : (user : User) (f : User → User) → updated (λ x. x.id == user.id) f user ≡ f user
updated_own user f = rw (==_self user.id) refl

different :
    (id other : Uuid) (u : User) → id ≢ other → (u.id == other) ≡ true → (u.id == id) ≡ false
different id other u n e = elim (Bool-cases (u.id == id)) [
  | inl t ↦ absurd (n (sym ((==_iff u.id id).0 t) ∙ (==_iff u.id other).0 e))
  | inr t ↦ t
]

pub Confirmation-Replaced :
    (db : AuthDb) (c : ConfirmRecovery) {db' : AuthDb} (k : Confirmation db db' c)
    → Replaced db db' c k
unfolding find_user
Confirmation-Replaced db c k = record {
  no_device = rw k.applied (
      any-update (live_device_of k.user.id) _ (λ d. and_false (d.user_id == k.user.id))
        db.device_credentials);
  no_refresh = rw k.applied (any-delete (λ s. s.user_id == k.user.id) db.refresh_sessions);
  only_key = λ p i l.
      only_new_key db c k.user.id k.key k.counter p
        (subst (λ (x : AuthDb). In p x.passkeys) k.applied i) l;
  code_used = rw k.applied (
      any_by_id (λ x. x.id == k.code.id && is_usable x) (λ x. x.id == k.code.id)
        (λ x. record x { used_at = some c.now })
        (λ x. and_false_right (x.id == k.code.id) (is_none x.revoked_at))
        (λ x t. and_left (x.id == k.code.id) (is_usable x) t) db.user_recovery_codes);
  request_closed = rw k.applied (
      any_by_id (λ r. r.id == k.request.id && is_none r.cancelled_at && is_none r.completed_at)
        (λ r. r.id == k.request.id) (λ r. record r { completed_at = some c.now })
        (λ x. and_false (x.id == k.request.id && is_none x.cancelled_at))
        (λ x t.
          and_left (x.id == k.request.id) (is_none x.cancelled_at)
            (and_left (x.id == k.request.id && is_none x.cancelled_at) (is_none x.completed_at) t))
        db.recovery_requests);
  own_row = rw k.applied (
      find-update (λ u. u.id == k.user.id) (λ u. u.id == k.user.id) (recovered k.user c.now)
        (λ u. refl) db.users
        (subst (λ i. find (λ u. u.id == i) db.users ≡ some k.user) (sym k.own_candidate)
          k.user_found)
      ∙ ap some (updated_own k.user (recovered k.user c.now)));
  other_rows = λ id n. rw k.applied (
      find-update_other (λ u. u.id == id) (λ u. u.id == k.user.id) (recovered k.user c.now)
        (λ u. refl) (λ u e. different id k.user.id u n e) db.users);
}

-- After a confirmed recovery the account has no live device and no refresh session, its only live
-- passkey is the new one with the candidate key, the code is used, the request is closed, the epoch,
-- the factor revision and the recovery generation of its row are each one higher, and the row of
-- every other account is as before.
pub confirm_recovery-Replaced :
    (db : AuthDb) (c : ConfirmRecovery) {db' : AuthDb}
    → confirm_recovery db c ≡ ok db'
    → (k : Confirmation db db' c) × Replaced db db' c k
confirm_recovery-Replaced db c h =
    let k = confirm_recovery-Confirmation db c h in (k, Confirmation-Replaced db c k)
