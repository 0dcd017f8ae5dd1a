-- ===== src/Service.antt =====
-- The end of server/src/federation/subject.ts: who may enter a service, by the federations and by the
-- admission of accounts.
pub mod Closed
pub mod Examples
use cernere.Base.{
  ◌==◌, Bool, true, false, Option, none, some, List, Uuid, Result, ok, err, ◌>>=◌, ◌>>◌, throw_if,
  with_code, if◌then◌else◌,
}
use cernere.Auth.Tables.{AuthDb}
use cernere.Auth.Access.{AccessStatus, is_locked, get_access_status, require_active_user}
use cernere.Federation.Policy.{FederationMembership, ServiceSubject}
use cernere.Federation.Tables.{AccountFederation, AccountFederationMember}
use cernere.Federation.Subject.{find_membership, resolve_service_subject}

module _ (fs : List AccountFederation) (ms : List AccountFederationMember) (db : AuthDb) where
  unfoldable pub require_service_access : Uuid → Result ServiceSubject
  unfolding get_access_status require_active_user
  require_service_access user_id = do
    own ← get_access_status db user_id
    throw_if (is_locked own) (with_code 403 "account_locked")
    let resolved = resolve_service_subject fs ms user_id
    throw_if resolved.detached_founder (with_code 403 "federation_founder_detached")
    require_active_user db resolved.primary_user_id
    ok resolved

  abbrev status_by : Uuid → AccessStatus → Option FederationMembership → Result AccessStatus
  status_by user_id own none = ok own
  status_by user_id own (some m) =
      if m.primary_user_id == user_id then ok own else get_access_status db m.primary_user_id

  -- A locked account stays locked, whatever its federation is.
  unfoldable pub effective_access_status : Uuid → Result AccessStatus
  unfolding get_access_status
  effective_access_status user_id = do
    own ← get_access_status db user_id
    elim (is_locked own) [
      | true ↦ ok own
      | false ↦ status_by user_id own (find_membership fs user_id ms)
    ]
