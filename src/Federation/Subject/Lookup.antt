-- ===== src/Federation/Subject/Lookup.antt =====
-- What a lookup of an account's membership says of the tables.
use cernere.Base.{
  ◌≡◌, refl, inl, inr, ◌==◌, ==_iff, Bool-cases, Option-cases, none, some, List, [], ◌∷◌, arith,
  Uuid, In, here, there, find, count, find-In, find-test, find-none-In,
}
use cernere.Federation.Policy.{FederationMembership}
use cernere.Federation.Tables.{AccountFederation, AccountFederationMember, IsConsistent}
use cernere.Federation.Subject.{find_membership, membership_of}

-- An account is a member of a federation.
pub record IsMember (fs : List AccountFederation) (ms : List AccountFederationMember) (u : Uuid)
    (k : FederationMembership) : Type 0 where
  pub member : AccountFederationMember
  pub federation : AccountFederation
  pub listed : In member ms
  pub row : In federation fs
  pub is_user : member.user_id ≡ u
  pub is_in : federation.id ≡ member.federation_id
  pub shown : membership_of federation ≡ k

module _ (fs : List AccountFederation) where
  pub find_membership-some :
      (u : Uuid) (ms : List AccountFederationMember) {k : FederationMembership}
      → find_membership fs u ms ≡ some k
      → IsMember fs ms u k
  unfolding find_membership
  find_membership-some u [] h = cc
  find_membership-some u (m ∷ ms) {k} h = elim (Bool-cases (m.user_id == u)) [
    | inl e ↦ elim (Option-cases (find (λ f. f.id == m.federation_id) fs)) [
      | inl missing ↦ more (find_membership-some u ms (rw (e, missing, find_membership) at h))
      | inr (f, found) ↦ record {
        member = m;
        federation = f;
        listed = here refl;
        row = find-In (λ f. f.id == m.federation_id) fs found;
        is_user = (==_iff m.user_id u).0 e;
        is_in = (==_iff f.id m.federation_id).0 (find-test (λ f. f.id == m.federation_id) fs found);
        shown = ground arith;
      }
    ]
    | inr e ↦ more (find_membership-some u ms (rw (e, find_membership) at h))
  ]
    where
      more : IsMember fs ms u k → IsMember fs (m ∷ ms) u k
      more v = record {
        member = v.member;
        federation = v.federation;
        listed = there v.listed;
        row = v.row;
        is_user = v.is_user;
        is_in = v.is_in;
        shown = v.shown;
      }

  find_membership-none-count :
      (u : Uuid) (ms : List AccountFederationMember)
      → ((m : AccountFederationMember)
          → In m ms
          → (f : AccountFederation) × In f fs × (f.id ≡ m.federation_id))
      → find_membership fs u ms ≡ none
      → count (λ m. m.user_id == u) ms ≡ 0
  unfolding find_membership count
  find_membership-none-count u [] r h = refl
  find_membership-none-count u (m ∷ ms) r h = elim (Bool-cases (m.user_id == u)) [
    | inl e ↦ elim (Option-cases (find (λ f. f.id == m.federation_id) fs)) [
      | inl missing ↦
          let (f, i, p) = r m (here refl) in
          absurd (ground (arith, find-none-In (λ f. f.id == m.federation_id) fs missing i))
      | inr (f, found) ↦ absurd (ground arith)
    ]
    | inr e ↦
        rw e (find_membership-none-count u ms (λ n i. r n (there i)) (rw (e, find_membership) at h))
  ]

  -- In consistent tables an account has no membership just where it has no row.
  pub find_membership-none :
      (u : Uuid) (ms : List AccountFederationMember)
      → IsConsistent fs ms
      → find_membership fs u ms ≡ none
      → count (λ m. m.user_id == u) ms ≡ 0
  find_membership-none u ms v h = find_membership-none-count u ms v.has_row h
