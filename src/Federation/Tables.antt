-- ===== src/Federation/Tables.antt =====
-- The tables of a federation, from server/src/db/schema.ts, and what holds between their rows.
pub mod Laws
pub mod Join
pub mod Leave
use cernere.Base.{ℕ, ◌≤◌, ◌≡◌, ◌==◌, Option, List, Uuid, In, count}
use cernere.Federation.Policy.{FederationJoinVia}

pub record AccountFederation : Type 0 where
  pub id : Uuid
  pub subject_id : Uuid
  pub primary_user_id : Uuid
  pub revision : ℕ

pub record AccountFederationMember : Type 0 where
  pub federation_id : Uuid
  pub user_id : Uuid
  pub joined_via : FederationJoinVia
  pub joined_at : ℕ

pub data EventAction : Type 0 where
  create join leave remove set_primary : EventAction

-- A row of the audit, without its own identifier and time.
pub record AccountFederationEvent : Type 0 where
  pub federation_id : Uuid
  pub action : EventAction
  pub actor_user_id : Option Uuid
  pub target_user_id : Option Uuid

-- How many accounts a federation has.
abbrev pub member_count : Uuid → List AccountFederationMember → ℕ
member_count id = count (λ m. m.federation_id == id)

pub record IsConsistent (fs : List AccountFederation) (ms : List AccountFederationMember)
    : Type 0 where
  -- Nobody is in two federations, nor twice in one.
  pub one_federation : (u : Uuid) → count (λ m. m.user_id == u) ms ≤ 1
  pub one_row : (i : Uuid) → count (λ f. f.id == i) fs ≤ 1
  pub one_subject : (u : Uuid) → count (λ f. f.subject_id == u) fs ≤ 1
  pub has_row :
      (m : AccountFederationMember)
      → In m ms
      → (f : AccountFederation) × In f fs × (f.id ≡ m.federation_id)
  -- A federation has from two to ten accounts.
  pub shared : (f : AccountFederation) → In f fs → 2 ≤ member_count f.id ms
  pub bounded : (i : Uuid) → member_count i ms ≤ 10
  -- The primary account is one of them.
  pub primary :
      (f : AccountFederation)
      → In f fs
      → (m : AccountFederationMember) × In m ms
        × (m.federation_id ≡ f.id)
        × (m.user_id ≡ f.primary_user_id)
  -- An account whose identifier numbers a federation is in no other one.
  pub own_subject :
      (f : AccountFederation) (m : AccountFederationMember)
      → In f fs
      → In m ms
      → m.user_id ≡ f.subject_id
      → m.federation_id ≡ f.id
