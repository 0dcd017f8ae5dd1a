-- ===== src/Federation/Store/Primary.antt =====
-- What `setFederationPrimary` of server/src/federation/store.ts keeps and does.
use cernere.Base.{
  ℕ, ◌+◌, ◌≡◌, refl, sym, ◌∙◌, ◌≢◌, ◌==◌, ap, Uuid, In, update, find, ok, or_throw-eq-ok, find-In,
}
use cernere.Federation.Policy.{decide_set_primary}
use cernere.Federation.Policy.Decisions.{decide_set_primary-allowed, includes-In}
use cernere.Federation.Tables.{AccountFederation, AccountFederationMember}
use cernere.Federation.Tables.Laws.{update-IsConsistent}
use cernere.Federation.Subject.{find_membership}
use cernere.Federation.Store.{FederationDb, set_federation_primary, primary_error, primary_input}
use cernere.Federation.Store.Holds.{Holds, or_refuse-eq-ok, ok_value}
use cernere.Federation.Store.Members.{In-member_ids}

-- What a change of the primary account that goes through has done.
pub record Changed (db db' : FederationDb) (actor candidate : Uuid) (expected : ℕ) : Type 0 where
  pub federation : AccountFederation
  pub row : In federation db.account_federations
  -- The actor was the primary account and has seen this revision.
  pub was_primary : federation.primary_user_id ≡ actor
  pub was_current : federation.revision ≡ expected
  pub is_other : candidate ≢ actor
  -- The candidate has a row in the federation.
  pub member : AccountFederationMember
  pub listed : In member db.account_federation_members
  pub is_in : member.federation_id ≡ federation.id
  pub is_candidate : member.user_id ≡ candidate
  -- Nothing but the federation's primary account and revision changes.
  pub members : db'.account_federation_members ≡ db.account_federation_members
  pub rows :
      db'.account_federations
      ≡ update
          (λ f. f.id == federation.id)
          (λ f. record f { primary_user_id = candidate; revision = expected + 1 })
          db.account_federations

module _ (db : FederationDb) (now : ℕ) (actor candidate : Uuid) (expected : ℕ) {db' : FederationDb}
    (h : set_federation_primary db now actor candidate expected ≡ ok db') where
  -- A change of the primary account that succeeds was asked by the primary account, for the current
  -- revision and for another member, and it changes only the primary account and the revision of
  -- that federation.
  pub set_federation_primary-Changed : Changed db db' actor candidate expected
  unfolding set_federation_primary
  set_federation_primary-Changed =
      let (k, _, h1) =
        or_throw-eq-ok (find_membership db.account_federations actor db.account_federation_members)
          _ _ h in
      let (f, found, h2) =
        or_throw-eq-ok (find (λ f. f.id == k.federation_id) db.account_federations) _ _ h1 in
      let input = primary_input db f actor candidate expected in
      let (r, d, h3) = or_refuse-eq-ok (decide_set_primary input) primary_error _ h2 in
      let (is_primary, listed, current, other, next) = decide_set_primary-allowed input d in
      let (m, i, e, p) =
        In-member_ids db.account_federation_members f.id candidate
          (includes-In _ candidate listed) in
      let done = ok_value h3 in
      record {
        federation = f;
        row = find-In (λ f. f.id == k.federation_id) db.account_federations found;
        was_primary = sym is_primary;
        was_current = current;
        is_other = λ q. other (q ∙ is_primary);
        member = m;
        listed = i;
        is_in = e;
        is_candidate = p;
        members = ap (λ (x : FederationDb). x.account_federation_members) (sym done);
        rows =
            ap (λ (x : FederationDb). x.account_federations) (sym done)
            ∙ ap
                (λ n.
                  update (λ g. g.id == f.id)
                    (λ g. record g { primary_user_id = candidate; revision = n })
                    db.account_federations)
                (next ∙ ap (λ n. n + 1) current);
      }

  -- From consistent tables, a change of the primary account that succeeds ends in consistent tables.
  pub set_federation_primary-IsConsistent : Holds db → Holds db'
  set_federation_primary-IsConsistent v =
      let c = set_federation_primary-Changed in
      rw (c.members, c.rows)
        (update-IsConsistent db.account_federations db.account_federation_members v c.federation.id
          (λ f. record f { primary_user_id = candidate; revision = expected + 1 }) (λ f. refl)
          (λ f. refl) (λ f i e. (c.member, c.listed, c.is_in ∙ sym e, c.is_candidate)))
