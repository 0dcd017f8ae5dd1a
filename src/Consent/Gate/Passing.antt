-- ===== src/Consent/Gate/Passing.antt =====
-- That the gate of server/src/consent/gate.ts lets a user pass after the consent it asked for, and that its ticket
-- leads there.
use cernere.Base.{
  ℕ, ◌&&◌, not, Bool-cases, true, false, Option, some, List, Uuid, ok, ◌≡◌, refl, inl, inr, arith,
}
use cernere.Redis.{Keyspace}
use cernere.Consent.Keys.{Text}
use cernere.Consent.Requirement.{resolve_decision}
use cernere.Consent.Requirement.Decided.{resolve_decision-satisfied}
use cernere.Consent.Store.{ConsentDb, FieldsDecision, get_consent_record, save_grant}
use cernere.Consent.Gate.Saved.{save_grant-get_consent_record}
use cernere.Consent.Gate.{
  ConsentState, ConsentTicket, ConsentMode, pass, ResolvedConsentSubject, ServiceConsentRequest,
  evaluate_for_user, enforce_service_consent, take_action, action_for, decide_consent_gate, is_off,
}

granted-satisfied :
    (db db' : ConsentDb) (now : ℕ) (user_id : Uuid) (resolved : ResolvedConsentSubject)
    (chosen : List Text) (fields : Option FieldsDecision)
    → let requirement = evaluate_for_user db user_id resolved in
      save_grant db now user_id resolved.subject requirement.view.version
          (resolve_decision requirement chosen)
          fields
        ≡ ok db'
      → (evaluate_for_user db' user_id resolved).satisfied ≡ true
unfolding evaluate_for_user
granted-satisfied db db' now user_id resolved chosen fields h =
    rw (save_grant-get_consent_record db db' now user_id resolved.subject _ _ fields h) (
      resolve_decision-satisfied
        (record {
          declaration = resolved.declaration;
          caps = resolved.caps;
          sharing = resolved.sharing;
          record_state = get_consent_record db user_id resolved.subject;
        })
        chosen (evaluate_for_user db user_id resolved).view.version)

satisfied_passes :
    (request : ServiceConsentRequest) (mode : ConsentMode)
    → request.fields_missing ≡ false
    → action_for request mode true ≡ pass
unfolding decide_consent_gate
satisfied_passes request mode h = ground arith

module _ {K : Type 0} (tickets : Keyspace K ConsentTicket) where
  satisfied-enforce_service_consent :
      (now : ℕ) (request : ServiceConsentRequest) (resolved : ResolvedConsentSubject)
      (s : ConsentState K)
      → request.fields_missing ≡ false
      → (evaluate_for_user s.db request.subject_id resolved).satisfied ≡ true
      → enforce_service_consent tickets now request (some resolved) s ≡ (ok false, s)
  unfolding enforce_service_consent take_action
  satisfied-enforce_service_consent now request resolved s h e =
      elim (Bool-cases
        (is_off resolved.mode && not request.fields_missing && not request.require_consent)) [
          | inl o ↦ rw o refl
          | inr o ↦ rw (o, e, satisfied_passes request resolved.mode h) refl
        ]

  -- A sign-in passes after a grant, if no signup fields are missing.
  pub save_grant-enforce_service_consent :
      (now later : ℕ) (request : ServiceConsentRequest) (resolved : ResolvedConsentSubject)
      (chosen : List Text) (fields : Option FieldsDecision) (s : ConsentState K) (db' : ConsentDb)
      → request.fields_missing ≡ false
      → let requirement = evaluate_for_user s.db request.subject_id resolved in
        save_grant s.db now request.subject_id resolved.subject requirement.view.version
            (resolve_decision requirement chosen)
            fields
          ≡ ok db'
        → enforce_service_consent tickets later request (some resolved) (record s { db = db' })
          ≡ (ok false, record s { db = db' })
  save_grant-enforce_service_consent now later request resolved chosen fields s db' f h =
      satisfied-enforce_service_consent later request resolved (record s { db = db' }) f
        (granted-satisfied s.db db' now request.subject_id resolved chosen fields h)
