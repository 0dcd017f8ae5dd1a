-- ===== src/Consent/Gate/Flow.antt =====
-- A sign-in that the gate of server/src/consent/gate.ts stops: its ticket, the decision on the page, and the sign-in
-- again.
use cernere.Base.{
  is_ok, ℕ, ◌+◌, ◌*◌, ◌<◌, ◌≤◌, ==_self, ltb, ◌&&◌, not, Bool-cases, true, false, Option, some,
  List, Uuid, ok, err, Result, ◌>>◌, ◌≡◌, refl, inl, inr, arith,
}
use cernere.Redis.{Keyspace}
use cernere.Consent.Keys.{Text}
use cernere.Consent.Requirement.{ResolvedDecision, resolve_decision}
use cernere.Consent.Store.{
  ConsentDb, ConsentSubject, FieldsDecision, write_fields, save_grant, save_consent,
}
use cernere.Consent.Gate.Passing.{save_grant-enforce_service_consent}
use cernere.Consent.Gate.{
  ConsentState, ConsentTicket, GateAction, pass, warn, block, ResolvedConsentSubject,
  ServiceConsentRequest, PresentedTicket, ConsentViewer, grants, evaluate_for_user,
  enforce_service_consent, take_action, is_off, create_consent_ticket, consent_ticket_ttl_seconds,
  consent_required, get_consent_ticket, consume_consent_ticket, is_ticket_shape, assert_viewer,
  decide_consent_ticket, save_decision,
}

-- The ticket of a sign-in.
abbrev ticket_of : ℕ → ServiceConsentRequest → ConsentSubject → ℕ → ConsentTicket
ticket_of now request subject version = record {
  auth_user_id = request.user_id;
  subject = subject;
  continuation = request.continuation;
  channel = request.channel;
  declaration_version = version;
  deliver_auth_code = request.deliver_auth_code;
  created_at = now;
}

-- The user who signs in presents the ticket in time, the service is still there, and so are the
-- signup fields: what the page sends is valid, and its values are written.
pub record IsAnswering (now later : ℕ) (request : ServiceConsentRequest)
    (resolved : ResolvedConsentSubject) (presented : PresentedTicket) (viewer : ConsentViewer)
    (subject_id : Uuid → Uuid) (resolve : ConsentSubject → Option ResolvedConsentSubject)
    (fields : Option FieldsDecision) : Type 0 where
  pub after_it : now ≤ later
  pub in_time : later < now + consent_ticket_ttl_seconds * 1000
  pub shape : is_ticket_shape presented.text ≡ true
  pub same_ticket : presented.digest ≡ request.ticket_digest
  pub same_user : viewer.user_id ≡ some request.user_id
  pub numbered : subject_id request.user_id ≡ request.subject_id
  pub still_there : resolve resolved.subject ≡ some resolved
  pub fields_written : write_fields fields ≡ ok tt

ok_after :
    {T : Type 0} (check : Result (Unit {0})) (value : T)
    → check ≡ ok tt
    → (check >> ok value) ≡ ok value
ok_after check value h = rw h refl

saves :
    (db : ConsentDb) (now : ℕ) (user_id : Uuid) (subject : ConsentSubject) (version : ℕ)
    (decision : ResolvedDecision) (fields : Option FieldsDecision)
    → write_fields fields ≡ ok tt
    → (db' : ConsentDb) × (save_grant db now user_id subject version decision fields ≡ ok db')
unfolding save_grant save_consent
saves db now user_id subject version decision fields h = (_, ok_after (write_fields fields) _ h)

module _ {K : Type 0} (tickets : Keyspace K ConsentTicket) where
  abbrev with_ticket : ℕ → ServiceConsentRequest → ConsentTicket → ConsentState K → ConsentState K
  with_ticket now request ticket s = record s {
    tickets =
        tickets.set s.tickets now request.ticket_digest ticket (consent_ticket_ttl_seconds * 1000);
  }

  stopped_by :
      (now : ℕ) (request : ServiceConsentRequest) (subject : ConsentSubject) (version : ℕ)
      (action : GateAction) (s : ConsentState K)
      → (take_action tickets now request subject version action s).0 ≡ err consent_required
      → (take_action tickets now request subject version action s).1
        ≡ with_ticket now request (ticket_of now request subject version) s
  unfolding take_action create_consent_ticket
  stopped_by now request subject version pass s h = cc
  stopped_by now request subject version warn s h = cc
  stopped_by now request subject version block s h = refl

  -- A sign-in that is stopped leaves its ticket.
  stopped :
      (now : ℕ) (request : ServiceConsentRequest) (resolved : ResolvedConsentSubject)
      (s : ConsentState K)
      → (enforce_service_consent tickets now request (some resolved) s).0 ≡ err consent_required
      → (enforce_service_consent tickets now request (some resolved) s).1
        ≡ with_ticket now request
            (ticket_of now request resolved.subject
              (evaluate_for_user s.db request.subject_id resolved).view.version)
            s
  unfolding enforce_service_consent
  stopped now request resolved s =
      elim (Bool-cases
        (is_off resolved.mode && not request.fields_missing && not request.require_consent)) [
          | inl o ↦ rw o (λ h. cc)
          | inr o ↦ rw o (stopped_by now request resolved.subject _ _ s)
        ]

  own_viewer :
      (ticket : ConsentTicket) (viewer : ConsentViewer)
      → viewer.user_id ≡ some ticket.auth_user_id
      → assert_viewer ticket viewer ≡ ok tt
  unfolding assert_viewer
  own_viewer ticket viewer h = rw (h, ==_self ticket.auth_user_id) refl

  decided :
      (now later : ℕ) (request : ServiceConsentRequest) (resolved : ResolvedConsentSubject)
      (presented : PresentedTicket) (viewer : ConsentViewer) (subject_id : Uuid → Uuid)
      (resolve : ConsentSubject → Option ResolvedConsentSubject) (chosen : List Text)
      (fields : Option FieldsDecision) (version : ℕ) (s : ConsentState K)
      → IsAnswering now later request resolved presented viewer subject_id resolve fields
      → let requirement = evaluate_for_user s.db request.subject_id resolved in
        let ticket = ticket_of now request resolved.subject version in
        (db' : ConsentDb) × (save_grant s.db later request.subject_id resolved.subject
            requirement.view.version
            (resolve_decision requirement chosen)
            fields
          ≡ ok db')
        × (decide_consent_ticket tickets later presented
              (grants chosen)
              viewer
              subject_id
              resolve
              (ok fields)
              (with_ticket now request ticket s)
            ≡ (
              ok ticket,
              record s {
                tickets = tickets.del (with_ticket now request ticket s).tickets presented.digest;
                db = db';
              },
            ))
  unfolding decide_consent_ticket get_consent_ticket consume_consent_ticket save_decision
  decided now later request resolved presented viewer subject_id resolve chosen fields version s a =
      let ticket = ticket_of now request resolved.subject version in
      let t = with_ticket now request ticket s in
      let requirement = evaluate_for_user s.db request.subject_id resolved in
      let (db', saved) =
        saves s.db later request.subject_id resolved.subject requirement.view.version
          (resolve_decision requirement chosen) fields a.fields_written in
      let alive : ltb later (now + consent_ticket_ttl_seconds * 1000) ≡ true =
        ground (arith, a.in_time) in
      let found : tickets.get t.tickets later presented.digest ≡ some ticket =
        rw
          (
            a.same_ticket,
            tickets.get-set s.tickets now request.ticket_digest ticket
                (consent_ticket_ttl_seconds * 1000) later a.after_it,
            alive,
          )
          refl in
      (
        db',
        saved,
        rw
            (
              a.shape,
              found,
              own_viewer ticket viewer a.same_user,
              a.still_there,
              tickets.getdel-eq t.tickets later presented.digest,
              found,
              a.shape,
              a.numbered,
              saved,
            )
            refl,
      )

  -- Where the gate stops a sign-in, for want of consent or of signup fields, and the same user
  -- presents the ticket within ten minutes for a service that still resolves to the same
  -- declaration, with signup fields that are accepted and written if there are any, then granting
  -- succeeds, whatever recommended keys are chosen, and the gate lets the sign-in pass at any later
  -- time, given that no required field is missing then.
  pub consent_flow-passes :
      (now later again : ℕ) (request : ServiceConsentRequest) (resolved : ResolvedConsentSubject)
      (presented : PresentedTicket) (viewer : ConsentViewer) (subject_id : Uuid → Uuid)
      (resolve : ConsentSubject → Option ResolvedConsentSubject) (chosen : List Text)
      (fields : Option FieldsDecision) (s : ConsentState K)
      → (enforce_service_consent tickets now request (some resolved) s).0 ≡ err consent_required
      → IsAnswering now later request resolved presented viewer subject_id resolve fields
      → let s1 = (enforce_service_consent tickets now request (some resolved) s).1 in
        let (answer, s2) =
          decide_consent_ticket tickets later presented
            (grants chosen)
            viewer
            subject_id
            resolve
            (ok fields)
            s1 in
        (is_ok answer ≡ true)
        × (enforce_service_consent tickets again
              (record request { fields_missing = false })
              (some resolved)
              s2
            ≡ (ok false, s2))
  consent_flow-passes now later again request resolved presented viewer subject_id resolve chosen
        fields s h a =
      let version = (evaluate_for_user s.db request.subject_id resolved).view.version in
      let (db', saved, d) =
        decided now later request resolved presented viewer subject_id resolve chosen fields version
          s a in
      rw (stopped now request resolved s h, d)
        (
          refl,
          save_grant-enforce_service_consent tickets later again
              (record request { fields_missing = false }) resolved chosen fields
              (record s {
                tickets =
                    tickets.del
                      (with_ticket now request (ticket_of now request resolved.subject version)
                        s).tickets
                      presented.digest;
              })
              db' refl saved,
        )
