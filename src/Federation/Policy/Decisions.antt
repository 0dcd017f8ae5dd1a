-- ===== src/Federation/Policy/Decisions.antt =====
-- What the decisions of server/src/federation/policy.ts promise to the transactions.
use cernere.Base.{
  ℕ, ◌+◌, ◌≤◌, ◌≡◌, subst, ◌≢◌, ◌⊎◌, true, false, none, is_none, List, arith, if◌then◌else◌, In,
  any-In, delete, length, ==_iff, ◌==◌, not, ◌&&◌, leb,
}
use cernere.Federation.Policy.{
  allowed, refused, RemovalRefusal, JoinInput, JoinPlan, decide_federation_join,
  federation_max_accounts, subject_of, SetPrimaryInput, decide_set_primary, includes, RemovalInput,
  RemovalPlan, first, decide_federation_removal,
}

pub includes-In : (ids : List ℕ) (u : ℕ) → includes ids u ≡ true → In u ids
includes-In ids u h =
    let (x, i, e) = any-In (λ x. x == u) ids h in subst (λ y. In y ids) ((==_iff x u).0 e) i

-- What an allowed join has checked.
pub decide_federation_join-allowed :
    (i : JoinInput) {p : JoinPlan}
    → decide_federation_join i ≡ allowed p
    → (i.approver_user_id ≢ i.joiner_user_id)
      × (i.joiner_federated ≡ false)
      × (i.joiner_owns_subject ≡ false)
      × (p.create_federation ≡ is_none i.approver_membership)
      × (p.subject_id ≡ subject_of i.approver_membership i.approver_user_id)
      × ((if p.create_federation then 1 else i.member_count) + 1 ≤ federation_max_accounts)
unfolding decide_federation_join
decide_federation_join-allowed i h = ground arith

-- What an allowed change of the primary account has checked.
pub decide_set_primary-allowed :
    (i : SetPrimaryInput) {r : ℕ}
    → decide_set_primary i ≡ allowed r
    → (i.actor_user_id ≡ i.primary_user_id)
      × (includes i.member_user_ids i.candidate_user_id ≡ true)
      × (i.revision ≡ i.expected_revision)
      × (i.candidate_user_id ≢ i.primary_user_id)
      × (r ≡ i.revision + 1)
unfolding decide_set_primary
decide_set_primary-allowed i h = ground arith

abbrev pub remaining : RemovalInput → List ℕ
remaining i = delete (λ id. id == i.target_user_id) i.member_user_ids

-- What an allowed removal has checked, and what it plans.
pub decide_federation_removal-allowed :
    (i : RemovalInput) {p : RemovalPlan}
    → decide_federation_removal i ≡ allowed p
    → (includes i.member_user_ids i.target_user_id ≡ true)
      × (includes i.member_user_ids i.actor_user_id ≡ true)
      × ((i.actor_user_id ≡ i.target_user_id) ⊎ (i.actor_user_id ≡ i.primary_user_id))
      × (i.revision ≡ i.expected_revision)
      × (p.closes ≡ leb (length (remaining i)) 1)
      × (p.next_primary_user_id ≡ (
          if not p.closes && i.target_user_id == i.primary_user_id
          then first (remaining i)
          else none))
      × (p.next_revision ≡ i.revision + 1)
unfolding decide_federation_removal
decide_federation_removal-allowed i h = ground arith

-- Of one's own accord one always leaves, at the revision that stands.
pub decide_federation_removal-leave :
    (i : RemovalInput) {r : RemovalRefusal}
    → i.actor_user_id ≡ i.target_user_id
    → i.revision ≡ i.expected_revision
    → includes i.member_user_ids i.target_user_id ≡ true
    → decide_federation_removal i ≢ refused r
unfolding decide_federation_removal
decide_federation_removal-leave i same current listed h = ground arith
