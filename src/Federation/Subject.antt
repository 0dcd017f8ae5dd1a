-- ===== src/Federation/Subject.antt =====
-- server/src/federation/subject.ts: the number under which a service knows an account.
pub mod Lookup
pub mod Numbers
use cernere.Base.{
  ℕ, ◌==◌, ◌&&◌, not, Bool, true, false, Option, none, some, List, [], ◌∷◌, Uuid, if◌then◌else◌,
  find, any, select, map, or_else,
}
use cernere.Federation.Policy.{FederationMembership, ServiceSubject, pick_service_subject}
use cernere.Federation.Tables.{AccountFederation, AccountFederationMember}

abbrev pub membership_of : AccountFederation → FederationMembership
membership_of f = record {
  federation_id = f.id;
  subject_id = f.subject_id;
  primary_user_id = f.primary_user_id;
}

abbrev or_membership :
    Option AccountFederation → Option FederationMembership → Option FederationMembership
or_membership none rest = rest
or_membership (some f) rest = some (membership_of f)

abbrev is_other : Uuid → AccountFederation → Bool
is_other except f = not (f.id == except)

abbrev foreign_unless : Option FederationMembership → Bool → Bool
foreign_unless none foreign = foreign
foreign_unless (some m) foreign = false

abbrev primary_of : Option AccountFederation → Uuid → Uuid
primary_of none subject = subject
primary_of (some f) subject = f.primary_user_id

abbrev federation_of : Option FederationMembership → Option AccountFederation → Option Uuid
federation_of (some m) row = some m.federation_id
federation_of none (some f) = some f.id
federation_of none none = none

abbrev accounts_in : Uuid → List AccountFederationMember → Option Uuid → List Uuid
accounts_in id ms none = id ∷ []
accounts_in id ms (some federation_id) =
    map (λ m. m.user_id) (select (λ m. m.federation_id == federation_id) ms)

module _ (fs : List AccountFederation) where
  -- The first row of the join of an account's members with their federations.
  unfoldable pub find_membership : Uuid → List AccountFederationMember → Option FederationMembership
  find_membership user_id [] = none
  find_membership user_id (m ∷ ms) =
      let rest = find_membership user_id ms in
      if m.user_id == user_id
      then or_membership (find (λ f. f.id == m.federation_id) fs) rest
      else rest

  -- Is the account's identifier the number of a federation (of another one than `except`)?
  unfoldable pub owns_foreign_subject : Uuid → Option Uuid → Bool
  owns_foreign_subject user_id none = any (λ f. f.subject_id == user_id) fs
  owns_foreign_subject user_id (some except) =
      any (λ f. f.subject_id == user_id && is_other except f) fs

  unfoldable pub resolve_service_subject : List AccountFederationMember → Uuid → ServiceSubject
  unfolding owns_foreign_subject pick_service_subject
  resolve_service_subject ms user_id =
      let membership = find_membership user_id ms in
      pick_service_subject user_id membership
        (foreign_unless membership (owns_foreign_subject user_id none))

  -- From the number that a service sends to the account whose profile it stands for.
  unfoldable pub primary_user_id_for_subject : Uuid → Uuid
  primary_user_id_for_subject subject = primary_of (find (λ f. f.subject_id == subject) fs) subject

  -- All accounts that use services under one number.
  unfoldable pub account_ids_for_subject_or_user : List AccountFederationMember → Uuid → List Uuid
  account_ids_for_subject_or_user ms id =
      accounts_in id ms (federation_of (find_membership id ms) (find (λ f. f.subject_id == id) fs))
