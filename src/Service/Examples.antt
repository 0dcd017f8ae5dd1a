-- ===== src/Service/Examples.antt =====
-- Account 3 uses services under account 2's number, until account 2 is locked.
use cernere.Base.{◌≡◌, ◌≢◌, refl, false, some, List, [], ◌∷◌, find, any, update, delete, ok}
use cernere.Notify.Events.{record_security_event, outbox_rows}
use cernere.Auth.Tables.{AuthDb}
use cernere.Auth.Access.{
  DecisionInput, lock, decide_access, apply_decision, find_user, parse_access_status,
  require_active_admin, revoke_access_artifacts, get_access_status, require_active_user,
}
use cernere.Auth.Examples.{accounts, state_or}
use cernere.Federation.Policy.{FederationJoinVia, ServiceSubject, pick_service_subject}
use cernere.Federation.Tables.{AccountFederation, AccountFederationMember}
use cernere.Federation.Subject.{find_membership, resolve_service_subject}
use cernere.Service.{require_service_access}
use cernere.Service.Closed.{Entered, require_service_access-Entered, decide_access-closes_services}

abbrev federations : List AccountFederation
federations = record { id = 100; subject_id = 2; primary_user_id = 2; revision = 1 } ∷ []

abbrev members : List AccountFederationMember
members =
    record {
      federation_id = 100;
      user_id = 2;
      joined_via = FederationJoinVia.founder;
      joined_at = 5;
    }
    ∷ record {
      federation_id = 100;
      user_id = 3;
      joined_via = FederationJoinVia.qr_existing_account;
      joined_at = 5;
    }
    ∷ []

abbrev shared_number : ServiceSubject
shared_number = record {
  subject = 2;
  primary_user_id = 2;
  federation_id = some 100;
  detached_founder = false;
}

entering : require_service_access federations members accounts 3 ≡ ok shared_number
unfolding require_service_access resolve_service_subject pick_service_subject find_membership
    get_access_status require_active_user find_user parse_access_status find
entering = refl

require_service_access-Entered_example : Entered federations members accounts 3 shared_number
require_service_access-Entered_example =
    require_service_access-Entered federations members accounts 3 entering

abbrev lock_primary : DecisionInput
lock_primary = record { user_id = 2; decision = lock; expected_revision = 0; reason_code = "abuse" }

abbrev after_lock : AuthDb
after_lock = state_or accounts (decide_access accounts 50 1 lock_primary)

locking : decide_access accounts 50 1 lock_primary ≡ ok after_lock
unfolding decide_access apply_decision find_user parse_access_status require_active_admin
    revoke_access_artifacts record_security_event outbox_rows find any update delete
locking = refl

same_primary :
    (resolve_service_subject federations members 3).primary_user_id ≡ lock_primary.user_id
unfolding resolve_service_subject pick_service_subject find_membership find
same_primary = refl

decide_access-closes_services_example :
    require_service_access federations members after_lock 3 ≢ ok shared_number
decide_access-closes_services_example =
    decide_access-closes_services federations members accounts 50 1 lock_primary 3 shared_number
      locking refl same_primary
