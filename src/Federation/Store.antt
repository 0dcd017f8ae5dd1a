-- ===== src/Federation/Store.antt =====
-- server/src/federation/store.ts: the transactions on federations. A transaction that throws
-- changes nothing, so it returns its new state only with a result.
pub mod Holds
pub mod Members
pub mod Join
pub mod Primary
pub mod Removal
use cernere.Base.{
  ℕ, suc, ◌+◌, ◌==◌, ltb, leb, ◌&&◌, ◌||◌, not, Bool, true, false, Option, none, some, List, [],
  ◌∷◌, ◌++◌, String, Uuid, length, if◌then◌else◌, find, any, select, update, delete, map, or_else,
  is_some, Result, ok, err, ◌>>=◌, ◌>>◌, AppError, with_code, conflict, not_found, throw_if,
  or_throw, str_eq,
}
use cernere.Notify.Events.{
  EventLog, SecurityEventKind, federation_joined, federation_left, federation_primary_changed,
  device_detail, no_detail, SecurityEventDetail, record_security_event,
}
use cernere.Federation.Policy.{
  FederationMembership, FederationJoinVia, founder, Decision, allowed, refused, JoinRefusal,
  decide_federation_join, JoinInput, JoinPlan, decide_set_primary, SetPrimaryInput,
  SetPrimaryRefusal, decide_federation_removal, RemovalRefusal, RemovalAction, RemovalPlan,
  RemovalInput, includes,
}
use cernere.Federation.Policy
use cernere.Federation.Tables.{
  AccountFederation, AccountFederationMember, AccountFederationEvent, EventAction, create, join,
  leave, remove, set_primary,
}
use cernere.Federation.Subject.{find_membership, owns_foreign_subject}

pub record FederationDb : Type 0 where
  pub account_federations : List AccountFederation
  pub account_federation_members : List AccountFederationMember
  pub account_federation_events : List AccountFederationEvent
  pub log : EventLog

abbrev pub has_id : Uuid → AccountFederation → Bool
has_id id f = f.id == id

unfoldable pub lock_federation : FederationDb → Uuid → Result AccountFederation
lock_federation db id = or_throw (find (λ f. f.id == id) db.account_federations) conflict

-- `ORDER BY joined_at, user_id`.
abbrev is_before : AccountFederationMember → AccountFederationMember → Bool
is_before m n =
    ltb m.joined_at n.joined_at || (m.joined_at == n.joined_at && leb m.user_id n.user_id)

unfoldable pub insert_member :
    AccountFederationMember → List AccountFederationMember → List AccountFederationMember
insert_member m [] = m ∷ []
insert_member m (n ∷ ns) = if is_before m n then m ∷ n ∷ ns else n ∷ insert_member m ns

unfoldable pub order_members : List AccountFederationMember → List AccountFederationMember
order_members [] = []
order_members (m ∷ ms) = insert_member m (order_members ms)

unfoldable pub member_ids : List AccountFederationMember → Uuid → List Uuid
unfolding order_members insert_member
member_ids ms federation_id =
    map (λ m. m.user_id) (order_members (select (λ m. m.federation_id == federation_id) ms))

unfoldable pub audit : FederationDb → Uuid → EventAction → Option Uuid → Option Uuid → FederationDb
audit db federation_id action actor target = record db {
  account_federation_events =
      db.account_federation_events
      ++ record {
        federation_id = federation_id;
        action = action;
        actor_user_id = actor;
        target_user_id = target;
      }
        ∷ [];
}

-- `new Set(userIds)`: each account once, in the order of its first place.
unfoldable pub distinct_from : List Uuid → List Uuid → List Uuid
distinct_from seen [] = []
distinct_from seen (u ∷ us) =
    if includes seen u then distinct_from seen us else u ∷ distinct_from (u ∷ seen) us

unfoldable pub notify_each :
    ℕ → EventLog → List Uuid → SecurityEventKind → SecurityEventDetail → EventLog
notify_each now log [] kind detail = log
notify_each now log (u ∷ us) kind detail =
    notify_each now (record_security_event now log u kind detail) us kind detail

unfoldable pub notify_members :
    ℕ → FederationDb → List Uuid → SecurityEventKind → SecurityEventDetail → FederationDb
unfolding notify_each distinct_from
notify_members now db user_ids kind detail = record db {
  log = notify_each now db.log (distinct_from [] user_ids) kind detail;
}

-- The value of an allowed decision, or the error that stands for the refusal.
abbrev pub or_refuse : {P R : Type 0} → Decision P R → (R → AppError) → Result P
or_refuse (allowed p) f = ok p
or_refuse (refused r) f = err (f r)

pub record JoinResult : Type 0 where
  pub federation_id : Uuid
  pub subject_id : Uuid
  pub primary_user_id : Uuid

-- `device ? { device } : {}`: an empty name is left out.
abbrev named_device : Option String → Option String
named_device none = none
named_device (some name) = if str_eq name "" then none else some name

-- A call of `joinFederation`: with the time of the transaction and a fresh identifier.
pub record JoinCall : Type 0 where
  pub approver_user_id : Uuid
  pub joiner_user_id : Uuid
  pub via : FederationJoinVia
  pub device : Option String
  pub fresh_id : Uuid
  pub now : ℕ

abbrev pub join_refused : AppError
join_refused = with_code 409 "federation_join_refused"

-- The rows that an approver with no federation founds, before the other account joins.
unfoldable pub found_federation : FederationDb → JoinCall → Uuid → Result FederationDb
unfolding audit
found_federation db c subject_id = do
  throw_if (owns_foreign_subject db.account_federations c.approver_user_id none) join_refused
  ok (
      audit
        (record db {
          account_federations =
              db.account_federations
              ++ record {
                id = c.fresh_id;
                subject_id = subject_id;
                primary_user_id = c.approver_user_id;
                revision = 0;
              }
                ∷ [];
          account_federation_members =
              db.account_federation_members
              ++ record {
                federation_id = c.fresh_id;
                user_id = c.approver_user_id;
                joined_via = founder;
                joined_at = c.now;
              }
                ∷ [];
        })
        c.fresh_id create (some c.approver_user_id) (some c.approver_user_id))

-- The joiner's row, the next revision, the audit and the notices.
unfoldable pub add_joiner : FederationDb → JoinCall → Uuid → List Uuid → Result FederationDb
unfolding audit notify_members lock_federation
add_joiner db c id members = do
  let with_member = record db {
    account_federation_members =
        db.account_federation_members
        ++ record {
          federation_id = id;
          user_id = c.joiner_user_id;
          joined_via = c.via;
          joined_at = c.now;
        }
          ∷ [];
  }
  locked ← lock_federation with_member id
  let revised = record with_member {
    account_federations =
        update (λ f. f.id == id) (λ f. record f { revision = locked.revision + 1 })
          with_member.account_federations;
  }
  ok (
      notify_members c.now (audit revised id join (some c.approver_user_id) (some c.joiner_user_id))
        (members ++ c.approver_user_id ∷ c.joiner_user_id ∷ []) federation_joined
        (device_detail (named_device c.device)))

abbrev members_with : List AccountFederationMember → Option FederationMembership → List Uuid
members_with ms none = []
members_with ms (some m) = member_ids ms m.federation_id

abbrev lock_if : FederationDb → Option FederationMembership → Result (Unit {0})
lock_if db none = ok tt
lock_if db (some m) = lock_federation db m.federation_id >>= λ _. ok tt

-- The federation that is joined, and its primary account.
abbrev joined_to : JoinCall → Option FederationMembership → Uuid × Uuid
joined_to c none = (c.fresh_id, c.approver_user_id)
joined_to c (some m) = (m.federation_id, m.primary_user_id)

abbrev pub join_input : FederationDb → JoinCall → Option FederationMembership → JoinInput
join_input db c membership = record {
  approver_user_id = c.approver_user_id;
  joiner_user_id = c.joiner_user_id;
  approver_membership = membership;
  member_count = length (members_with db.account_federation_members membership);
  joiner_federated =
      is_some
        (find_membership db.account_federations c.joiner_user_id db.account_federation_members);
  joiner_owns_subject = owns_foreign_subject db.account_federations c.joiner_user_id none;
}

-- `joinFederation` from the approver's membership on.
unfoldable pub join_with :
    FederationDb → JoinCall → Option FederationMembership → Result (JoinResult × FederationDb)
join_with db c membership = do
  lock_if db membership
  plan ← or_refuse (decide_federation_join (join_input db c membership)) (λ _. join_refused)
  base ← if plan.create_federation then found_federation db c plan.subject_id else ok db
  let target = joined_to c membership
  final ← add_joiner base c target.0 (members_with db.account_federation_members membership)
  ok (
    record { federation_id = target.0; subject_id = plan.subject_id; primary_user_id = target.1 },
    final,
  )

unfoldable pub join_federation : FederationDb → JoinCall → Result (JoinResult × FederationDb)
join_federation db c =
    join_with db c
      (find_membership db.account_federations c.approver_user_id db.account_federation_members)

abbrev pub revision_conflict_error : AppError
revision_conflict_error = with_code 409 "federation_revision_conflict"

abbrev primary_error : SetPrimaryRefusal → AppError
primary_error SetPrimaryRefusal.not_primary = with_code 403 "federation_not_primary"
primary_error SetPrimaryRefusal.not_member = with_code 400 "federation_not_member"
primary_error SetPrimaryRefusal.revision_conflict = revision_conflict_error
primary_error SetPrimaryRefusal.unchanged = with_code 400 "federation_unchanged"

abbrev pub primary_input : FederationDb → AccountFederation → Uuid → Uuid → ℕ → SetPrimaryInput
primary_input db federation actor candidate expected_revision = record {
  actor_user_id = actor;
  primary_user_id = federation.primary_user_id;
  candidate_user_id = candidate;
  member_user_ids = member_ids db.account_federation_members federation.id;
  revision = federation.revision;
  expected_revision = expected_revision;
}

unfoldable pub set_federation_primary : FederationDb → ℕ → Uuid → Uuid → ℕ → Result FederationDb
unfolding lock_federation audit notify_members
set_federation_primary db now actor candidate expected_revision = do
  membership ←
      or_throw (find_membership db.account_federations actor db.account_federation_members)
        not_found
  federation ← lock_federation db membership.federation_id
  let members = member_ids db.account_federation_members federation.id
  revision ←
      or_refuse (decide_set_primary (primary_input db federation actor candidate expected_revision))
        primary_error
  let revised = record db {
    account_federations =
        update (λ f. f.id == federation.id)
          (λ f. record f { primary_user_id = candidate; revision = revision })
          db.account_federations;
  }
  ok (
      notify_members now (audit revised federation.id set_primary (some actor) (some candidate))
        members federation_primary_changed no_detail)

abbrev removal_error : RemovalRefusal → AppError
removal_error RemovalRefusal.not_member = with_code 400 "federation_not_member"
removal_error RemovalRefusal.not_allowed = with_code 403 "federation_not_allowed"
removal_error RemovalRefusal.revision_conflict = revision_conflict_error

-- The row of a federation that an account leaves.
abbrev pub after_removal : RemovalPlan → AccountFederation → AccountFederation
after_removal plan f = record f {
  primary_user_id = or_else plan.next_primary_user_id f.primary_user_id;
  revision = plan.next_revision;
}

unfoldable pub apply_removal :
    ℕ → FederationDb → Uuid → Uuid → RemovalPlan → List Uuid → FederationDb
unfolding notify_members
apply_removal now db federation_id target plan members =
    notify_members now
      (if plan.closes
        then record db {
          account_federation_members =
              delete (λ m. m.federation_id == federation_id) db.account_federation_members;
          account_federations = delete (λ f. f.id == federation_id) db.account_federations;
        }
        else record db {
          account_federation_members =
              delete (λ m. m.user_id == target) db.account_federation_members;
          account_federations =
              update (λ f. f.id == federation_id) (after_removal plan) db.account_federations;
        })
      members federation_left no_detail

abbrev action_event : RemovalAction → EventAction
action_event RemovalAction.leave = leave
action_event RemovalAction.remove = remove

abbrev pub removal_input : FederationDb → AccountFederation → Uuid → Uuid → ℕ → RemovalInput
removal_input db federation actor target expected_revision = record {
  actor_user_id = actor;
  target_user_id = target;
  primary_user_id = federation.primary_user_id;
  member_user_ids = member_ids db.account_federation_members federation.id;
  revision = federation.revision;
  expected_revision = expected_revision;
}

unfoldable pub remove_federation_member : FederationDb → ℕ → Uuid → Uuid → ℕ → Result FederationDb
unfolding lock_federation audit
remove_federation_member db now actor target expected_revision = do
  membership ←
      or_throw (find_membership db.account_federations actor db.account_federation_members)
        not_found
  federation ← lock_federation db membership.federation_id
  let members = member_ids db.account_federation_members federation.id
  plan ←
      or_refuse
        (decide_federation_removal (removal_input db federation actor target expected_revision))
        removal_error
  ok (
      apply_removal now
        (audit db federation.id (action_event plan.action) (some actor) (some target)) federation.id
        target plan members)

abbrev detach_planned :
    ℕ
    → FederationDb
    → Uuid
    → AccountFederation
    → List Uuid
    → Decision RemovalPlan RemovalRefusal
    → FederationDb
detach_planned now db user_id federation members (refused r) = db
detach_planned now db user_id federation members (allowed plan) =
    apply_removal now (audit db federation.id leave (some user_id) (some user_id)) federation.id
      user_id plan (delete (λ id. id == user_id) members)

abbrev detach_from : ℕ → FederationDb → Uuid → Option FederationMembership → Result FederationDb
detach_from now db user_id none = ok db
detach_from now db user_id (some membership) = do
  federation ← lock_federation db membership.federation_id
  let members = member_ids db.account_federation_members federation.id
  ok (
      detach_planned now db user_id federation members (
        decide_federation_removal
          (removal_input db federation user_id user_id federation.revision)))

-- An account leaves its federation before it is deleted.
unfoldable pub detach_for_account_deletion : FederationDb → ℕ → Uuid → Result FederationDb
unfolding lock_federation audit
detach_for_account_deletion db now user_id =
    detach_from now db user_id
      (find_membership db.account_federations user_id db.account_federation_members)
