-- ===== src/Federation/Policy.antt =====
-- server/src/federation/policy.ts: the decisions on joining a federation, leaving it and choosing
-- its primary account, as pure functions.
pub mod Decisions
pub mod JoinCode
use cernere.Base.{
  ℕ, ◌+◌, ◌-◌, ◌==◌, ltb, leb, min, Bool, true, false, not, ◌&&◌, ◌||◌, Option, none, some, is_none,
  List, [], ◌∷◌, if◌then◌else◌, Uuid, length, any, delete, suc, zero,
}
use Prim.Native.Nat.{bit_xor, bit_or}

abbrev pub federation_max_accounts : ℕ
federation_max_accounts = 10

pub data FederationJoinVia : Type 0 where
  founder qr_new_device qr_existing_account : FederationJoinVia

pub record FederationMembership : Type 0 where
  pub federation_id : Uuid
  pub subject_id : Uuid
  pub primary_user_id : Uuid

pub record ServiceSubject : Type 0 where
  pub subject : Uuid
  pub primary_user_id : Uuid
  pub federation_id : Option Uuid
  pub detached_founder : Bool

unfoldable pub pick_service_subject : Uuid → Option FederationMembership → Bool → ServiceSubject
pick_service_subject user_id (some membership) owns_foreign_subject = record {
  subject = membership.subject_id;
  primary_user_id = membership.primary_user_id;
  federation_id = some membership.federation_id;
  detached_founder = false;
}
pick_service_subject user_id none owns_foreign_subject = record {
  subject = user_id;
  primary_user_id = user_id;
  federation_id = none;
  detached_founder = owns_foreign_subject;
}

pub data JoinRefusal : Type 0 where
  self joiner_already_federated joiner_owns_subject federation_full : JoinRefusal

pub record JoinInput : Type 0 where
  pub approver_user_id : Uuid
  pub joiner_user_id : Uuid
  pub approver_membership : Option FederationMembership
  pub member_count : ℕ
  pub joiner_federated : Bool
  pub joiner_owns_subject : Bool

pub record JoinPlan : Type 0 where
  pub create_federation : Bool
  pub subject_id : Uuid
  pub member_count_after : ℕ

-- `{ ok: true, … }` or `{ ok: false, reason }`, of each of the three decisions.
pub data Decision (P R : Type 0) : Type 0 where
  allowed : P → Decision P R
  refused : R → Decision P R

abbrev pub subject_of : Option FederationMembership → Uuid → Uuid
subject_of none fallback = fallback
subject_of (some m) fallback = m.subject_id

unfoldable pub decide_federation_join : JoinInput → Decision JoinPlan JoinRefusal
decide_federation_join input =
    if input.approver_user_id == input.joiner_user_id
    then refused self
    else if input.joiner_federated
    then refused joiner_already_federated
    else if input.joiner_owns_subject
    then refused joiner_owns_subject
    else let create = is_none input.approver_membership in
      let current = if create then 1 else input.member_count in
      if ltb federation_max_accounts (current + 1)
      then refused federation_full
      else allowed (record {
        create_federation = create;
        subject_id = subject_of input.approver_membership input.approver_user_id;
        member_count_after = current + 1;
      })

pub data SetPrimaryRefusal : Type 0 where
  not_primary not_member revision_conflict unchanged : SetPrimaryRefusal

pub record SetPrimaryInput : Type 0 where
  pub actor_user_id : Uuid
  pub primary_user_id : Uuid
  pub candidate_user_id : Uuid
  pub member_user_ids : List Uuid
  pub revision : ℕ
  pub expected_revision : ℕ

abbrev pub includes : List Uuid → Uuid → Bool
includes ids id = any (λ x. x == id) ids

-- The result is the next revision.
unfoldable pub decide_set_primary : SetPrimaryInput → Decision ℕ SetPrimaryRefusal
decide_set_primary input =
    if not (input.actor_user_id == input.primary_user_id)
    then refused not_primary
    else if not (includes input.member_user_ids input.candidate_user_id)
    then refused not_member
    else if not (input.revision == input.expected_revision)
    then refused revision_conflict
    else if input.candidate_user_id == input.primary_user_id
    then refused unchanged
    else allowed (input.revision + 1)

pub data RemovalRefusal : Type 0 where
  not_member not_allowed revision_conflict : RemovalRefusal

pub data RemovalAction : Type 0 where
  leave remove : RemovalAction

pub record RemovalInput : Type 0 where
  pub actor_user_id : Uuid
  pub target_user_id : Uuid
  pub primary_user_id : Uuid
  pub member_user_ids : List Uuid
  pub revision : ℕ
  pub expected_revision : ℕ

pub record RemovalPlan : Type 0 where
  pub action : RemovalAction
  pub closes : Bool
  pub next_primary_user_id : Option Uuid
  pub next_revision : ℕ

-- `remaining[0]`.
abbrev pub first : List Uuid → Option Uuid
first [] = none
first (x ∷ xs) = some x

unfoldable pub decide_federation_removal : RemovalInput → Decision RemovalPlan RemovalRefusal
decide_federation_removal input =
    let leaving = input.actor_user_id == input.target_user_id in
    let remaining = delete (λ id. id == input.target_user_id) input.member_user_ids in
    let closes = leb (length remaining) 1 in
    if not (includes input.member_user_ids input.target_user_id)
      || not (includes input.member_user_ids input.actor_user_id)
    then refused not_member
    else if not leaving && not (input.actor_user_id == input.primary_user_id)
    then refused not_allowed
    else if not (input.revision == input.expected_revision)
    then refused revision_conflict
    else allowed (record {
      action = if leaving then leave else remove;
      closes = closes;
      next_primary_user_id =
          if not closes && input.target_user_id == input.primary_user_id
          then first remaining
          else none;
      next_revision = input.revision + 1;
    })

abbrev pub join_code_max_attempts : ℕ
join_code_max_attempts = 3

pub data JoinCodeCheck : Type 0 where
  match retry locked : JoinCodeCheck

-- The code units of `/^\d{4}$/`.
abbrev is_digit : ℕ → Bool
is_digit c = leb b'0' c && leb c b'9'

unfoldable pub is_four_digits : List ℕ → Bool
is_four_digits (a ∷ b ∷ c ∷ d ∷ []) = is_digit a && is_digit b && is_digit c && is_digit d
is_four_digits _ = false

-- The loop of `checkJoinCode` up to the shorter length.
unfoldable pub diff_from : ℕ → List ℕ → List ℕ → ℕ
diff_from diff (x ∷ xs) (y ∷ ys) = diff_from (bit_or diff (bit_xor x y)) xs ys
diff_from diff _ _ = diff

-- The texts are lists of UTF-16 code units.
unfoldable pub check_join_code : List ℕ → List ℕ → ℕ → JoinCodeCheck
unfolding is_four_digits diff_from
check_join_code expected actual previous_attempts =
    let well_formed = is_four_digits expected && is_four_digits actual in
    let diff = diff_from (bit_xor (length expected) (length actual)) expected actual in
    if well_formed && diff == 0
    then match
    else if leb join_code_max_attempts (previous_attempts + 1)
    then locked
    else retry
