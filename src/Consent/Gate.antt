-- ===== src/Consent/Gate.antt =====
-- server/src/consent/gate-policy.ts, gate.ts, ticket.ts and ticket-flow.ts: the gate before a sign-in to a service, and the
-- ticket that carries a sign-in that waits to the page where the user decides.
pub mod Saved
pub mod Passing
pub mod Answered
pub mod Flow
use cernere.Base.{
  ℕ, ◌*◌, ◌==◌, leb, ◌&&◌, ◌||◌, not, Bool, true, false, Option, none, some, List, [], Uuid,
  if◌then◌else◌, Result, ok, err, AppError, with_code, forbidden, length, opt_eq, is_some,
}
use cernere.Auth.Tables.{OpaqueText}
use cernere.Redis.{Keyspace, Task, ◌>>=◌, ◌>>◌, give, throw, refuse_if, lift}
use cernere.Consent.Keys.{Text, is_alphanumeric, all, ConsentCaps}
use cernere.Consent.Requirement.{
  ConsentDeclaration, SharingTarget, ConsentRequirement, ResolvedDecision,
  evaluate_consent_requirement, resolve_decision,
}
use cernere.Consent.Store.{
  ConsentDb, ConsentSubject, FieldsDecision, get_consent_record, save_grant, record_denial,
}

pub data ConsentMode : Type 0 where
  off warn enforce : ConsentMode

pub data GateAction : Type 0 where
  pass warn block : GateAction

abbrev pub is_off : ConsentMode → Bool
is_off off = true
is_off _ = false

abbrev is_warn : ConsentMode → Bool
is_warn warn = true
is_warn _ = false

unfoldable pub decide_consent_gate : ConsentMode → Bool → GateAction
decide_consent_gate mode satisfied =
    if is_off mode || satisfied then pass else if is_warn mode then warn else block

pub record ResolvedConsentSubject : Type 0 where
  pub subject : ConsentSubject
  pub mode : ConsentMode
  pub declaration : Option ConsentDeclaration
  pub caps : ConsentCaps
  pub sharing : List SharingTarget

pub data ConsentChannel : Type 0 where
  browser service : ConsentChannel

-- The continuation is only passed on.
pub record ConsentTicket : Type 0 where
  pub auth_user_id : Uuid
  pub subject : ConsentSubject
  pub continuation : Option Text
  pub channel : ConsentChannel
  pub declaration_version : ℕ
  pub deliver_auth_code : Bool
  pub created_at : ℕ

abbrev pub consent_ticket_ttl_seconds : ℕ
consent_ticket_ttl_seconds = 10 * 60

-- A ticket that a caller presents, with its digest.
pub record PresentedTicket : Type 0 where
  pub text : Text
  pub digest : OpaqueText

-- `/^[A-Za-z0-9_-]{32,128}$/`.
unfoldable pub is_ticket_shape : Text → Bool
is_ticket_shape ticket =
    leb 32 (length ticket)
    && leb (length ticket) 128
    && all (λ c. is_alphanumeric c || c == b'_' || c == b'-') ticket

pub record ConsentState (K : Type 0) : Type 0 where
  pub tickets : K
  pub db : ConsentDb

unfoldable pub evaluate_for_user : ConsentDb → Uuid → ResolvedConsentSubject → ConsentRequirement
evaluate_for_user db user_id resolved = evaluate_consent_requirement record {
  declaration = resolved.declaration;
  caps = resolved.caps;
  sharing = resolved.sharing;
  record_state = get_consent_record db user_id resolved.subject;
}

-- What a sign-in asks of the gate. `fields_missing` is what the signup fields give, and the digest
-- is that of the ticket that would be made.
pub record ServiceConsentRequest : Type 0 where
  pub user_id : Uuid
  pub subject_id : Uuid
  pub require_consent : Bool
  pub fields_missing : Bool
  pub continuation : Option Text
  pub channel : ConsentChannel
  pub deliver_auth_code : Bool
  pub ticket_digest : OpaqueText

abbrev pub action_for : ServiceConsentRequest → ConsentMode → Bool → GateAction
action_for request mode satisfied =
    if request.fields_missing || (request.require_consent && not satisfied)
    then block
    else decide_consent_gate mode satisfied

pub record ConsentViewer : Type 0 where
  pub user_id : Option Uuid
  pub from_cernere_frontend : Bool

abbrev is_browser : ConsentChannel → Bool
is_browser browser = true
is_browser service = false

abbrev consent_session_required : ℕ → AppError
consent_session_required status = with_code status "consent_session_required"

unfoldable pub assert_viewer : ConsentTicket → ConsentViewer → Result (Unit {0})
assert_viewer ticket viewer =
    if is_some viewer.user_id && not (opt_eq viewer.user_id (some ticket.auth_user_id))
    then err (consent_session_required 403)
    else if opt_eq viewer.user_id (some ticket.auth_user_id)
    then ok tt
    else if is_browser ticket.channel && viewer.from_cernere_frontend
    then ok tt
    else err (consent_session_required 401)

-- `grant` with the recommended keys that were chosen, or `deny`.
pub data TicketDecision : Type 0 where
  grants : List Text → TicketDecision
  denies : TicketDecision

abbrev pub ticket_expired : AppError
ticket_expired = with_code 404 "consent_ticket_expired"

abbrev pub ticket_used : AppError
ticket_used = with_code 409 "consent_ticket_used"

abbrev pub consent_required : AppError
consent_required = with_code 403 "consent_required"

-- The signup fields are prepared for what is granted.
abbrev pub prepared :
    TicketDecision → Result (Option FieldsDecision) → Result (Option FieldsDecision)
prepared (grants chosen) fields = fields
prepared denies fields = ok none

module _ {K : Type 0} (tickets : Keyspace K ConsentTicket) where
  abbrev pub Consenting : Type 0 → Type 0
  Consenting T = Task (ConsentState K) T

  unfoldable pub create_consent_ticket : ℕ → OpaqueText → ConsentTicket → Consenting (Unit {0})
  create_consent_ticket now digest ticket s = (
    ok tt,
    record s {
      tickets = tickets.set s.tickets now digest ticket (consent_ticket_ttl_seconds * 1000);
    },
  )

  unfoldable pub get_consent_ticket : ℕ → PresentedTicket → Consenting (Option ConsentTicket)
  get_consent_ticket now ticket s = (
    ok (if is_ticket_shape ticket.text then tickets.get s.tickets now ticket.digest else none),
    s,
  )

  unfoldable pub consume_consent_ticket : ℕ → PresentedTicket → Consenting (Option ConsentTicket)
  consume_consent_ticket now ticket s =
      let (found, rest) = tickets.getdel s.tickets now ticket.digest in
      if is_ticket_shape ticket.text then (ok found, record s { tickets = rest }) else (ok none, s)

  -- The result says whether `consent.would_block` is logged.
  unfoldable pub take_action :
      ℕ → ServiceConsentRequest → ConsentSubject → ℕ → GateAction → Consenting Bool
  take_action now request subject version pass = give false
  take_action now request subject version warn = give true
  take_action now request subject version block = do
    create_consent_ticket now request.ticket_digest record {
      auth_user_id = request.user_id;
      subject = subject;
      continuation = request.continuation;
      channel = request.channel;
      declaration_version = version;
      deliver_auth_code = request.deliver_auth_code;
      created_at = now;
    }
    throw consent_required

  unfoldable pub enforce_service_consent :
      ℕ → ServiceConsentRequest → Option ResolvedConsentSubject → Consenting Bool
  enforce_service_consent now request none s =
      if request.require_consent then (err forbidden, s) else (ok false, s)
  enforce_service_consent now request (some resolved) s =
      let requirement = evaluate_for_user s.db request.subject_id resolved in
      if is_off resolved.mode && not request.fields_missing && not request.require_consent
      then (ok false, s)
      else take_action now request resolved.subject requirement.view.version
          (action_for request resolved.mode requirement.satisfied) s

  abbrev pub some_or : {T : Type 0} → Option T → AppError → Consenting T
  some_or none e = throw e
  some_or (some t) e = give t

  abbrev pub keep_db : Result ConsentDb → Consenting (Unit {0})
  keep_db (err e) s = (err e, s)
  keep_db (ok db) s = (ok tt, record s { db = db })

  -- What is saved for a decision; `fields` is what preparing the signup fields gives.
  unfoldable pub save_decision :
      ℕ
      → Uuid
      → ResolvedConsentSubject
      → ConsentRequirement
      → TicketDecision
      → Option FieldsDecision
      → Consenting (Unit {0})
  save_decision now user_id resolved requirement denies fields s = (
    ok tt,
    record s {
      db =
          record_denial s.db user_id resolved.subject requirement.view.version
            (record { granted = []; denied = requirement.missing_required });
    },
  )
  save_decision now user_id resolved requirement (grants chosen) fields s =
      keep_db
        (save_grant s.db now user_id resolved.subject requirement.view.version
          (resolve_decision requirement chosen) fields)
        s

  abbrev pub read_db : Consenting ConsentDb
  read_db s = (ok s.db, s)

  -- `decideConsentTicket` up to the saved decision: `subject_id` numbers accounts for services, and
  -- `resolve` finds services. It gives the ticket that was used.
  unfoldable pub decide_consent_ticket :
      ℕ
      → PresentedTicket
      → TicketDecision
      → ConsentViewer
      → (Uuid → Uuid)
      → (ConsentSubject → Option ResolvedConsentSubject)
      → Result (Option FieldsDecision)
      → Consenting ConsentTicket
  decide_consent_ticket now presented decision viewer subject_id resolve fields = do
    found ← get_consent_ticket now presented
    peeked ← some_or found ticket_expired
    lift (assert_viewer peeked viewer)
    resolved ← some_or (resolve peeked.subject) (with_code 404 "consent_subject_gone")
    db ← read_db
    prepared_fields ← lift (prepared decision fields)
    taken ← consume_consent_ticket now presented
    ticket ← some_or taken ticket_used
    save_decision now (subject_id peeked.auth_user_id) resolved
        (evaluate_for_user db (subject_id peeked.auth_user_id) resolved) decision prepared_fields
    give ticket
