-- ===== src/Federation/Store/Join.antt =====
-- What `joinFederation` of server/src/federation/store.ts keeps and does.
use mathlib.Core.List.{append_assoc}
use cernere.Base.{
  ℕ, ◌+◌, ◌≤◌, ◌≡◌, refl, subst, sym, ◌≢◌, ◌==◌, false, List, [], ◌∷◌, ◌++◌, inl, inr, arith, Uuid,
  In, count, update, find, any, ==_iff, Option-cases, some, none, ok, throw_if-eq-ok,
  or_throw-eq-ok, >>=-eq-ok, is_some, find-In, find-test,
}
use cernere.Federation.Policy.{FederationMembership, decide_federation_join, founder}
use cernere.Federation.Policy.Decisions.{decide_federation_join-allowed}
use cernere.Federation.Tables.{
  AccountFederation, AccountFederationMember, IsConsistent, member_count,
}
use cernere.Federation.Tables.Laws.{update-IsConsistent}
use cernere.Federation.Tables.Join.{join-IsConsistent, create-IsConsistent}
use cernere.Federation.Subject.{find_membership, owns_foreign_subject}
use cernere.Federation.Subject.Lookup.{find_membership-none}
use cernere.Federation.Store.{
  FederationDb, JoinCall, JoinResult, join_with, join_input, join_federation, found_federation,
  add_joiner, join_refused, lock_if, members_with,
}
use cernere.Federation.Store.Members.{length-member_ids}
use cernere.Federation.Store.Holds.{Holds, or_refuse-eq-ok, ok_state}

abbrev joiner_row : JoinCall → Uuid → AccountFederationMember
joiner_row c id = record {
  federation_id = id;
  user_id = c.joiner_user_id;
  joined_via = c.via;
  joined_at = c.now;
}

-- The tables after the joiner's row and the next revision.
add_joiner-tables :
    (db : FederationDb) (c : JoinCall) (id : Uuid) (members : List Uuid) {db' : FederationDb}
    → add_joiner db c id members ≡ ok db'
    → (f : AccountFederation) × In f db.account_federations
      × (f.id ≡ id)
      × (db'.account_federation_members ≡ db.account_federation_members ++ joiner_row c id ∷ [])
      × (db'.account_federations
          ≡ update
              (λ g. g.id == id)
              (λ g. record g { revision = f.revision + 1 })
              db.account_federations)
unfolding add_joiner
add_joiner-tables db c id members h =
    let (f, found, rest) = or_throw-eq-ok (find (λ g. g.id == id) db.account_federations) _ _ h in
    (
      f,
      find-In (λ g. g.id == id) db.account_federations found,
      (==_iff f.id id).0 (find-test (λ g. g.id == id) db.account_federations found),
      ground arith,
      ground arith,
    )

joiner_alone :
    (db : FederationDb) (u : Uuid)
    → Holds db
    → is_some (find_membership db.account_federations u db.account_federation_members) ≡ false
    → count (λ m. m.user_id == u) db.account_federation_members ≡ 0
joiner_alone db u v h =
    find_membership-none db.account_federations u db.account_federation_members v (ground arith)

no_subject :
    (fs : List AccountFederation) (u : Uuid)
    → owns_foreign_subject fs u none ≡ false
    → any (λ f. f.subject_id == u) fs ≡ false
unfolding owns_foreign_subject
no_subject fs u h = h

abbrev founded : JoinCall → Uuid → AccountFederation
founded c subject_id = record {
  id = c.fresh_id;
  subject_id = subject_id;
  primary_user_id = c.approver_user_id;
  revision = 0;
}

abbrev founder_row : JoinCall → AccountFederationMember
founder_row c = record {
  federation_id = c.fresh_id;
  user_id = c.approver_user_id;
  joined_via = founder;
  joined_at = c.now;
}

found_federation-tables :
    (db : FederationDb) (c : JoinCall) (subject_id : Uuid) {db' : FederationDb}
    → found_federation db c subject_id ≡ ok db'
    → (any (λ f. f.subject_id == c.approver_user_id) db.account_federations ≡ false)
      × (db'.account_federations ≡ db.account_federations ++ founded c subject_id ∷ [])
      × (db'.account_federation_members ≡ db.account_federation_members ++ founder_row c ∷ [])
unfolding found_federation
found_federation-tables db c subject_id h =
    let (foreign, rest) =
      throw_if-eq-ok (owns_foreign_subject db.account_federations c.approver_user_id none)
        join_refused _ h in
    (no_subject db.account_federations c.approver_user_id foreign, ground arith, ground arith)

-- The next revision of a federation is of no account.
revise-IsConsistent :
    {fs : List AccountFederation} {ms : List AccountFederationMember} (i n : ℕ)
    → IsConsistent fs ms
    → IsConsistent (update (λ g. g.id == i) (λ g. record g { revision = n }) fs) ms
revise-IsConsistent {fs} {ms} i n v =
    update-IsConsistent fs ms v i (λ g. record g { revision = n }) (λ g. refl) (λ g. refl)
      (λ g j e. v.primary g j)

module _ (db : FederationDb) (c : JoinCall) (v : Holds db) where
  -- The joiner enters a federation that exists.
  enter :
      (id : Uuid) (members : List Uuid) {db' : FederationDb}
      → is_some
          (find_membership db.account_federations c.joiner_user_id db.account_federation_members)
        ≡ false
      → owns_foreign_subject db.account_federations c.joiner_user_id none ≡ false
      → member_count id db.account_federation_members + 1 ≤ 10
      → add_joiner db c id members ≡ ok db'
      → Holds db'
  enter id members free foreign room added =
      let (f, row, same, new_members, rows) = add_joiner-tables db c id members added in
      rw (new_members, rows)
        (revise-IsConsistent id (f.revision + 1) (
          join-IsConsistent db.account_federations db.account_federation_members v (joiner_row c id)
            (joiner_alone db c.joiner_user_id v free) f row same room
            (no_subject db.account_federations c.joiner_user_id foreign)))

  -- The approver founds a federation, and the joiner enters it.
  found :
      (subject_id : Uuid) (members : List Uuid) {founded_db db' : FederationDb}
      → count (λ f. f.id == c.fresh_id) db.account_federations ≡ 0
      → find_membership db.account_federations c.approver_user_id db.account_federation_members
        ≡ none
      → c.approver_user_id ≢ c.joiner_user_id
      → is_some
          (find_membership db.account_federations c.joiner_user_id db.account_federation_members)
        ≡ false
      → owns_foreign_subject db.account_federations c.joiner_user_id none ≡ false
      → subject_id ≡ c.approver_user_id
      → found_federation db c subject_id ≡ ok founded_db
      → add_joiner founded_db c c.fresh_id members ≡ ok db'
      → Holds db'
  found subject_id members {founded_db} fresh alone apart free foreign number founded_ok added =
      let (own, rows1, members1) = found_federation-tables db c subject_id founded_ok in
      let (f, _, _, members2, rows2) = add_joiner-tables founded_db c c.fresh_id members added in
      rw (members2, rows2, members1, rows1)
        (revise-IsConsistent c.fresh_id (f.revision + 1) (
          rw append_assoc (
            create-IsConsistent db.account_federations db.account_federation_members v
              (founded c subject_id) (founder_row c) (joiner_row c c.fresh_id) fresh
              (find_membership-none db.account_federations c.approver_user_id
                db.account_federation_members v alone)
              (joiner_alone db c.joiner_user_id v free) apart refl refl (sym number) refl own
              (no_subject db.account_federations c.joiner_user_id foreign))))

  join_existing :
      (k : FederationMembership) {r : JoinResult} {db' : FederationDb}
      → join_with db c (some k) ≡ ok (r, db')
      → Holds db'
  unfolding join_with
  join_existing k h =
      let (_, _, h1) = >>=-eq-ok (lock_if db (some k)) _ h in
      let (p, d, h2) =
        or_refuse-eq-ok (decide_federation_join (join_input db c (some k))) (λ _. join_refused) _
          h1 in
      let (_, free, foreign, old, _, room) =
        decide_federation_join-allowed (join_input db c (some k)) d in
      let (final, added, done) =
        >>=-eq-ok
          (add_joiner db c k.federation_id (members_with db.account_federation_members (some k))) _
          (rw old at h2) in
      subst Holds (ok_state done) (
        enter k.federation_id _ free foreign
          (omega (
            arith,
            length-member_ids db.account_federation_members k.federation_id,
            rw old at room,
          ))
          added)

  join_new :
      {r : JoinResult} {db' : FederationDb}
      → count (λ f. f.id == c.fresh_id) db.account_federations ≡ 0
      → find_membership db.account_federations c.approver_user_id db.account_federation_members
        ≡ none
      → join_with db c none ≡ ok (r, db')
      → Holds db'
  unfolding join_with
  join_new fresh alone h =
      let (p, d, h1) =
        or_refuse-eq-ok (decide_federation_join (join_input db c none)) (λ _. join_refused) _ h in
      let (apart, free, foreign, new, number, _) =
        decide_federation_join-allowed (join_input db c none) d in
      let (base, based, h2) = >>=-eq-ok (found_federation db c p.subject_id) _ (rw new at h1) in
      let (final, added, done) = >>=-eq-ok (add_joiner base c c.fresh_id []) _ h2 in
      subst Holds (ok_state done)
        (found p.subject_id [] fresh alone apart free foreign number based added)

  -- From consistent tables and with an identifier that no federation has, a join that succeeds ends
  -- in consistent tables: nobody is in two federations, each federation has from two to ten accounts
  -- and a primary one of them, and no two federations share a number.
  pub join_federation-IsConsistent :
      {r : JoinResult} {db' : FederationDb}
      → count (λ f. f.id == c.fresh_id) db.account_federations ≡ 0
      → join_federation db c ≡ ok (r, db')
      → Holds db'
  unfolding join_federation
  join_federation-IsConsistent fresh h =
      elim (Option-cases
        (find_membership db.account_federations c.approver_user_id db.account_federation_members)) [
          | inl alone ↦ join_new fresh alone (rw alone at h)
          | inr (k, found_k) ↦ join_existing k (rw found_k at h)
        ]
