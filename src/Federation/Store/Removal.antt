-- ===== src/Federation/Store/Removal.antt =====
-- What `removeFederationMember` and `detachForAccountDeletion` of server/src/federation/store.ts
-- keep and do.
use cernere.Base.{
  ℕ, ◌≤◌, ◌≡◌, refl, subst, sym, ◌∙◌, ◌≢◌, ◌⊎◌, inl, inr, ◌==◌, ==_self, false, Bool-cases,
  Option-cases, or_else, List, ap, arith, Uuid, In, update, delete, find, updated, In-delete,
  In-any, In-update, count, count-In, count-delete_self, count_unique, ==_iff, some, none, ok,
  or_throw-eq-ok, find-In, find-test,
}
use cernere.Federation.Policy.{
  decide_federation_removal, FederationMembership, RemovalPlan, Decision, allowed, refused,
}
use cernere.Federation.Policy.Decisions.{
  decide_federation_removal-allowed, includes-In, remaining, decide_federation_removal-leave,
}
use cernere.Federation.Tables.{
  AccountFederation, AccountFederationMember, IsConsistent, member_count, leave,
}
use cernere.Federation.Tables.Laws.{update-IsConsistent}
use cernere.Federation.Tables.Leave.{remove-IsConsistent, close-IsConsistent}
use cernere.Federation.Subject.{find_membership}
use cernere.Federation.Subject.Lookup.{IsMember, find_membership-some, find_membership-none}
use cernere.Federation.Store.{
  FederationDb, audit, member_ids, remove_federation_member, removal_error, removal_input,
  apply_removal, after_removal, detach_for_account_deletion, detach_from, detach_planned,
}
use cernere.Federation.Store.Holds.{Holds, or_refuse-eq-ok, ok_value}
use cernere.Federation.Store.Members.{
  In-member_ids, member_ids-In, length-delete-member_ids, first-In, first-some,
}

module _ (db : FederationDb) (v : Holds db) (f : AccountFederation)
    (row : In f db.account_federations) (actor target : Uuid) (expected : ℕ) {p : RemovalPlan}
    (d : decide_federation_removal (removal_input db f actor target expected) ≡ allowed p) where
  abbrev fs : List AccountFederation
  fs = db.account_federations

  abbrev ms : List AccountFederationMember
  ms = db.account_federation_members

  abbrev rest : List Uuid
  rest = remaining (removal_input db f actor target expected)

  -- The primary account after the removal is another member.
  next_primary :
      p.closes ≡ false
      → (m : AccountFederationMember) × In m ms
        × (m.federation_id ≡ f.id)
        × (m.user_id ≡ or_else p.next_primary_user_id f.primary_user_id)
        × (m.user_id ≢ target)
  next_primary open_still =
      let (_, _, _, _, closes, next, _) =
        decide_federation_removal-allowed (removal_input db f actor target expected) d in
      elim (Bool-cases (target == f.primary_user_id)) [
        | inl same ↦
            let (u, head) = first-some rest (ground arith) in
            let (i, other) =
              In-delete (λ id. id == target) (member_ids ms f.id) (first-In rest head) in
            let (m, j, e, q) = In-member_ids ms f.id u i in
            let chosen : p.next_primary_user_id ≡ some u = rw (next, open_still, same) head in
            (m, j, e, rw chosen q, λ z. ground arith)
        | inr differs ↦
            let (m, j, e, q) = v.primary f row in
            let kept : p.next_primary_user_id ≡ none = rw (next, open_still, differs) refl in
            (m, j, e, rw kept q, λ z. ground arith)
      ]

  target_row :
      (m : AccountFederationMember) × In m ms × (m.federation_id ≡ f.id) × (m.user_id ≡ target)
  target_row =
      let (listed, _, _, _, _, _, _) =
        decide_federation_removal-allowed (removal_input db f actor target expected) d in
      In-member_ids ms f.id target (includes-In _ target listed)

  same_row : {g : AccountFederation} → In g fs → g.id ≡ f.id → g ≡ f
  same_row {g} i e =
      count_unique (λ x. x.id == f.id) fs (v.one_row f.id) i row ((==_iff g.id f.id).1 e)
        (==_self f.id)

  abbrev fs' : List AccountFederation
  fs' = update (λ g. g.id == f.id) (after_removal p) fs

  revised : p.closes ≡ false → IsConsistent fs' ms
  revised open_still =
      update-IsConsistent fs ms v f.id (after_removal p) (λ g. refl) (λ g. refl)
        (λ g i e.
          let (m, j, q, z, _) = next_primary open_still in
          (
            m,
            j,
            q ∙ sym e,
            z
                ∙ ap (λ (x : AccountFederation). or_else p.next_primary_user_id x.primary_user_id)
                    (sym (same_row i e)),
          ))

  not_target :
      p.closes ≡ false
      → (g : AccountFederation) → In g fs'
      → g.id ≡ f.id
      → g.primary_user_id ≢ target
  not_target open_still g i e =
      let (a, j, q) = In-update (λ g. g.id == f.id) (after_removal p) fs i in
      let (m, _, _, z, other) = next_primary open_still in
      let same = same_row j (ground arith) in
      let g_is : g ≡ after_removal p f =
        q ∙ ap (updated (λ g. g.id == f.id) (after_removal p)) same ∙ rw (==_self f.id) refl in
      λ w. other (z ∙ ap (λ (x : AccountFederation). x.primary_user_id) (sym g_is) ∙ w)

  two_left : p.closes ≡ false → 2 ≤ member_count f.id (delete (λ m. m.user_id == target) ms)
  two_left open_still =
      let (_, _, _, _, closes, _, _) =
        decide_federation_removal-allowed (removal_input db f actor target expected) d in
      ground (arith, length-delete-member_ids ms f.id target)

  shrunk : p.closes ≡ false → IsConsistent fs' (delete (λ m. m.user_id == target) ms)
  shrunk open_still =
      let (m, j, e, q) = target_row in
      subst (λ t. IsConsistent fs' (delete (λ m. m.user_id == t) ms)) q
        (remove-IsConsistent fs' ms (revised open_still) m j
          (λ g i e'. λ z. not_target open_still g i (e' ∙ e) (z ∙ q))
          (rw (e, q) (two_left open_still)))

  pub apply_removal-IsConsistent :
      (now : ℕ) (members : List Uuid) → Holds (apply_removal now db f.id target p members)
  unfolding apply_removal
  apply_removal-IsConsistent now members = elim (Bool-cases p.closes) [
    | inl closed ↦ rw closed (close-IsConsistent fs ms v f.id)
    | inr open_still ↦ rw open_still (shrunk open_still)
  ]

-- What a removal that goes through has checked and done.
pub record Removed (db db' : FederationDb) (actor target : Uuid) (expected : ℕ) : Type 0 where
  pub federation : AccountFederation
  pub row : In federation db.account_federations
  -- The account leaves by itself, or the primary account removes it.
  pub by_right : (actor ≡ target) ⊎ (actor ≡ federation.primary_user_id)
  pub was_current : federation.revision ≡ expected
  pub member : AccountFederationMember
  pub listed : In member db.account_federation_members
  pub is_in : member.federation_id ≡ federation.id
  pub is_target : member.user_id ≡ target
  pub consistent : Holds db'

-- From consistent tables, a removal that succeeds is by the account itself or by the primary
-- account, for the current revision, and of a member; and the tables are consistent afterwards,
-- whether the federation closes or goes on.
pub remove_federation_member-Removed :
    (db : FederationDb) (now : ℕ) (actor target : Uuid) (expected : ℕ) {db' : FederationDb}
    → Holds db
    → remove_federation_member db now actor target expected ≡ ok db'
    → Removed db db' actor target expected
unfolding remove_federation_member
remove_federation_member-Removed db now actor target expected v h =
    let (k, _, h1) =
      or_throw-eq-ok (find_membership db.account_federations actor db.account_federation_members) _
        _ h in
    let (f, found, h2) =
      or_throw-eq-ok (find (λ f. f.id == k.federation_id) db.account_federations) _ _ h1 in
    let input = removal_input db f actor target expected in
    let (p, d, h3) = or_refuse-eq-ok (decide_federation_removal input) removal_error _ h2 in
    let (_, _, right, current, _, _, _) = decide_federation_removal-allowed input d in
    let row = find-In (λ f. f.id == k.federation_id) db.account_federations found in
    let (m, i, e, q) = target_row db v f row actor target expected d in
    record {
      federation = f;
      row = row;
      by_right = right;
      was_current = current;
      member = m;
      listed = i;
      is_in = e;
      is_target = q;
      consistent =
          subst Holds (ok_value h3)
            (apply_removal-IsConsistent _ v f row actor target expected d now _);
    }

Decision-cases :
    {P R : Type 0} (d : Decision P R) → ((p : P) × (d ≡ allowed p)) ⊎ ((r : R) × (d ≡ refused r))
Decision-cases (allowed p) = inl (p, refl)
Decision-cases (refused r) = inr (r, refl)

abbrev rows_of : Uuid → List AccountFederationMember → ℕ
rows_of user = count (λ m. m.user_id == user)

module _ (db : FederationDb) (now : ℕ) (user : Uuid) (v : Holds db) where
  -- After the removal the account has no row left.
  apply_removal-gone :
      (p : RemovalPlan) (m : AccountFederationMember) (members : List Uuid)
      → In m db.account_federation_members
      → m.user_id ≡ user
      → rows_of user
          (apply_removal now db m.federation_id user p members).account_federation_members
        ≡ 0
  unfolding apply_removal
  apply_removal-gone p m members i e = elim (Bool-cases p.closes) [
    | inl closed ↦ rw closed (elim (Bool-cases (rows_of user closed_rows == 0)) [
      | inl z ↦ ground arith
      | inr z ↦
          let (n, j, t) = count-In (λ m. m.user_id == user) closed_rows (ground arith) in
          let (k, other) =
            In-delete (λ n. n.federation_id == m.federation_id) db.account_federation_members j in
          let same =
            count_unique (λ m. m.user_id == user) db.account_federation_members
              (v.one_federation user) k i t ((==_iff m.user_id user).1 e) in
          absurd (cc (other, ==_self m.federation_id, same))
    ])
    | inr open_still ↦
        rw open_still (count-delete_self (λ m. m.user_id == user) db.account_federation_members)
  ]
    where
      closed_rows : List AccountFederationMember
      closed_rows = delete (λ n. n.federation_id == m.federation_id) db.account_federation_members

module _ (db : FederationDb) (now : ℕ) (user : Uuid) (v : Holds db) where
  -- The removal that the deletion plans goes through.
  detach_planned-IsConsistent :
      (f : AccountFederation) (m : AccountFederationMember)
      → In f db.account_federations
      → In m db.account_federation_members
      → m.user_id ≡ user
      → f.id ≡ m.federation_id
      → let db' =
          detach_planned now db user f
            (member_ids db.account_federation_members f.id)
            (decide_federation_removal (removal_input db f user user f.revision)) in
        Holds db' × (rows_of user db'.account_federation_members ≡ 0)
  unfolding detach_for_account_deletion
  detach_planned-IsConsistent f m row i e q =
      elim (Decision-cases (decide_federation_removal (removal_input db f user user f.revision))) [
        | inl (p, d) ↦
            let left = audit db f.id leave (some user) (some user) in
            let others =
              delete (λ id. id == user) (member_ids db.account_federation_members f.id) in
            rw d (
              apply_removal-IsConsistent left v f row user user f.revision d now others,
              subst
                  (λ j.
                    rows_of user (apply_removal now left j user p others).account_federation_members
                    ≡ 0)
                  (sym q) (apply_removal-gone left now user v p m others i e),
            )
        | inr (r, d) ↦ absurd (
            decide_federation_removal-leave (removal_input db f user user f.revision) refl refl
              (In-any (λ x. x == user) (member_ids db.account_federation_members f.id)
                (rw q (member_ids-In db.account_federation_members i))
                ((==_iff m.user_id user).1 e))
              d)
      ]

  detach_member :
      (k : FederationMembership) {db' : FederationDb}
      → IsMember db.account_federations db.account_federation_members user k
      → detach_from now db user (some k) ≡ ok db'
      → Holds db' × (rows_of user db'.account_federation_members ≡ 0)
  unfolding detach_for_account_deletion
  detach_member k w h =
      let (f, found, h1) =
        or_throw-eq-ok (find (λ f. f.id == k.federation_id) db.account_federations) _ _ h in
      let row = find-In (λ f. f.id == k.federation_id) db.account_federations found in
      let named : f.id ≡ k.federation_id =
        (==_iff f.id k.federation_id).0
          (find-test (λ f. f.id == k.federation_id) db.account_federations found) in
      subst (λ x. Holds x × (rows_of user x.account_federation_members ≡ 0)) (ok_value h1)
        (detach_planned-IsConsistent f w.member row w.listed w.is_user
          (named ∙ ap (λ (x : FederationMembership). x.federation_id) (sym w.shown) ∙ w.is_in))

  -- From consistent tables, the detaching before a deletion ends in consistent tables in which the
  -- account is in no federation.
  pub detach_for_account_deletion-IsConsistent :
      {db' : FederationDb}
      → detach_for_account_deletion db now user ≡ ok db'
      → Holds db' × (rows_of user db'.account_federation_members ≡ 0)
  unfolding detach_for_account_deletion
  detach_for_account_deletion-IsConsistent h =
      elim (Option-cases
        (find_membership db.account_federations user db.account_federation_members)) [
          | inl missing ↦
              let same = ok_value (rw missing at h) in
              rw (← same) (
                v,
                find_membership-none db.account_federations user db.account_federation_members v
                    missing,
              )
          | inr (k, found) ↦
              detach_member k
                (find_membership-some db.account_federations user db.account_federation_members
                  found)
                (rw found at h)
        ]
