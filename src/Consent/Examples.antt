-- ===== src/Consent/Examples.antt =====
-- A service that may read the e-mail address, and a user who is asked for it.
use cernere.Base.{
  is_ok, true, false, Option, none, some, [], ◌∷◌, Uuid, ok, err, ◌≡◌, ◌↔◌, refl, In, here, any,
  any-In, In-single, there, subst, ◌∙◌, arith, find, select,
}
use cernere.Redis.Memory.{Memory, memory, empty}
use cernere.Consent.Keys.{
  Text, text, same_text, same_text_iff, has, all, profile, ConsentCaps, parse_permission_key,
  parse_named, split_dot, is_within_caps, profile_fields,
}
use cernere.Consent.Keys.Vocabulary.{key_of, in_vocabulary, parse_permission_key-key_of_iff}
use cernere.Consent.Requirement.{
  ConsentDeclaration, RequirementInput, recommended, self, effective_permissions, declared_within,
  permission_view, decision_of, active_record, audiences, evaluate_consent_requirement,
  resolve_decision,
}
use cernere.Consent.Requirement.Decided.{stored, resolve_decision-satisfied}
use cernere.Consent.Requirement.Capped.{IsAllowed, IsVocabulary, resolve_decision-IsAllowed}
use cernere.Consent.Store.{ConsentSubject, project, get_consent_record}
use cernere.Consent.Store.{FieldsDecision}
use cernere.Consent.Gate.{
  ConsentState, ConsentTicket, enforce, browser, ResolvedConsentSubject, ServiceConsentRequest,
  PresentedTicket, ConsentViewer, grants, denies, evaluate_for_user, enforce_service_consent,
  take_action, decide_consent_gate, create_consent_ticket, decide_consent_ticket, is_ticket_shape,
  consent_required, ticket_expired,
}
use cernere.Consent.Gate.Answered.{decide_consent_ticket-once}
use cernere.Consent.Gate.Flow.{IsAnswering, consent_flow-passes}

abbrev email_key : Text
email_key = text "profile.email"

abbrev email_caps : ConsentCaps
email_caps = record {
  profile_fields = text "email" ∷ [];
  identity_claims = [];
  user_data_modules = [];
  oidc_scopes = [];
  service_operations = [];
}

abbrev email_declaration : ConsentDeclaration
email_declaration = record {
  version = 3;
  permissions =
      record {
        key = email_key;
        level = recommended;
        purpose = "to send the weekly letter";
        visible_to = self ∷ [];
      }
      ∷ [];
}

abbrev first_asked : RequirementInput
first_asked = record {
  declaration = some email_declaration;
  caps = email_caps;
  sharing = [];
  record_state = none;
}

parse_permission_key-key_of_iff_example :
    (parse_permission_key email_key ≡ some (record { kind = profile; name = text "email" })) ↔ (
      (in_vocabulary (record { kind = profile; name = text "email" }) ≡ true)
      × (key_of (record { kind = profile; name = text "email" }) ≡ email_key))
parse_permission_key-key_of_iff_example =
    parse_permission_key-key_of_iff email_key (record { kind = profile; name = text "email" })

resolve_decision-satisfied_example :
    (evaluate_consent_requirement (record first_asked {
      record_state =
          some (
            stored 3
              (resolve_decision (evaluate_consent_requirement first_asked) (email_key ∷ [])));
    })).satisfied
    ≡ true
resolve_decision-satisfied_example = resolve_decision-satisfied first_asked (email_key ∷ []) 3

email_name : (name : Text) → has (text "email" ∷ []) name ≡ true → has profile_fields name ≡ true
unfolding has any same_text
email_name name h =
    let (a, i, t) = any-In (λ k. same_text k name) (text "email" ∷ []) h in
    subst (λ n. has profile_fields n ≡ true) (In-single i ∙ (same_text_iff a name).0 t) refl

email_caps-IsVocabulary : IsVocabulary email_caps
unfolding has any
email_caps-IsVocabulary = record {
  profiles = email_name;
  claims = λ name h. cc;
  modules = λ name h. cc;
  scopes = λ name h. cc;
  operations = λ name h. cc;
}

email_granted :
    In email_key
      (resolve_decision (evaluate_consent_requirement first_asked) (email_key ∷ [])).granted
unfolding resolve_decision evaluate_consent_requirement permission_view effective_permissions
    declared_within parse_permission_key parse_named split_dot same_text has any is_within_caps
    active_record decision_of audiences select find
email_granted = there (here refl)

resolve_decision-IsAllowed_example : IsAllowed email_caps email_key
resolve_decision-IsAllowed_example =
    resolve_decision-IsAllowed first_asked (email_key ∷ []) email_caps-IsVocabulary email_key
      email_granted

abbrev letters : ResolvedConsentSubject
letters = record {
  subject = record { kind = project; key = text "letters" };
  mode = enforce;
  declaration = some email_declaration;
  caps = email_caps;
  sharing = [];
}

abbrev sign_in : ServiceConsentRequest
sign_in = record {
  user_id = 5;
  subject_id = 5;
  require_consent = false;
  fields_missing = true;
  continuation = none;
  channel = browser;
  deliver_auth_code = true;
  ticket_digest = 90;
}

abbrev nothing_decided : ConsentState (Memory ConsentTicket)
nothing_decided = record {
  tickets = empty;
  db = record { user_service_consents = []; consent_decisions = [] };
}

abbrev ticket_90 : PresentedTicket
ticket_90 = record { text = text "0123456789abcdefghijABCDEFGHIJ_-"; digest = 90 }

abbrev user_5 : ConsentViewer
user_5 = record { user_id = some 5; from_cernere_frontend = true }

abbrev same_number : Uuid → Uuid
same_number user_id = user_id

abbrev only_letters : ConsentSubject → Option ResolvedConsentSubject
only_letters subject = some letters

stopped_first :
    (enforce_service_consent memory 1000 sign_in (some letters) nothing_decided).0
    ≡ err consent_required
unfolding enforce_service_consent evaluate_for_user get_consent_record evaluate_consent_requirement
    permission_view effective_permissions declared_within parse_permission_key parse_named split_dot
    same_text has any is_within_caps active_record decision_of audiences select find
    decide_consent_gate take_action create_consent_ticket
stopped_first = refl

-- The page also asks for a name, which is written.
abbrev name_given : Option FieldsDecision
name_given = some (record { version = 1; seen = text "name" ∷ []; write = ok tt })

answering :
    IsAnswering 1000 2000 sign_in letters ticket_90 user_5 same_number only_letters name_given
unfolding is_ticket_shape all
answering = record {
  after_it = omega arith;
  in_time = omega arith;
  shape = refl;
  same_ticket = refl;
  same_user = refl;
  numbered = refl;
  still_there = refl;
  fields_written = refl;
}

abbrev when_stopped : ConsentState (Memory ConsentTicket)
when_stopped = (enforce_service_consent memory 1000 sign_in (some letters) nothing_decided).1

consent_flow-passes_example :
    let (answer, s2) =
      decide_consent_ticket memory 2000 ticket_90
        (grants (email_key ∷ []))
        user_5
        same_number
        only_letters
        (ok name_given)
        when_stopped in
    (is_ok answer ≡ true)
    × (enforce_service_consent memory 3000
          (record sign_in { fields_missing = false })
          (some letters)
          s2
        ≡ (ok false, s2))
consent_flow-passes_example =
    consent_flow-passes memory 1000 2000 3000 sign_in letters ticket_90 user_5 same_number
      only_letters (email_key ∷ []) name_given nothing_decided stopped_first answering

decide_consent_ticket-once_example :
    (decide_consent_ticket memory 3000 ticket_90 denies user_5 same_number only_letters
      (ok none)
      (decide_consent_ticket memory 2000 ticket_90
        (grants (email_key ∷ []))
        user_5
        same_number
        only_letters
        (ok name_given)
        when_stopped).1).0
    ≡ err ticket_expired
decide_consent_ticket-once_example =
    decide_consent_ticket-once memory 2000 ticket_90 (grants (email_key ∷ [])) user_5 same_number
      only_letters (ok name_given) when_stopped 3000 denies user_5 (ok none)
      (consent_flow-passes memory 1000 2000 3000 sign_in letters ticket_90 user_5 same_number
        only_letters (email_key ∷ []) name_given nothing_decided stopped_first answering).0
