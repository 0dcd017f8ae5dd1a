-- ===== src/Consent/Gate/Answered.antt =====
-- That a ticket of server/src/consent/ticket.ts is answered once.
use cernere.Base.{
  is_ok, ℕ, Bool-cases, true, Option, Option-cases, Result-cases, none, Uuid, Result, ok, err, ◌≡◌,
  refl, ap, ◌∙◌, inl, inr,
}
use cernere.Redis.{Keyspace, after}
use cernere.Consent.Requirement.{ConsentRequirement}
use cernere.Consent.Store.{ConsentDb, ConsentSubject, FieldsDecision}
use cernere.Consent.Gate.{
  ConsentState, ConsentTicket, ResolvedConsentSubject, PresentedTicket, ConsentViewer,
  TicketDecision, grants, denies, evaluate_for_user, decide_consent_ticket, get_consent_ticket,
  consume_consent_ticket, save_decision, prepared, assert_viewer, is_ticket_shape, ticket_expired,
  keep_db,
}

module _ {K : Type 0} (tickets : Keyspace K ConsentTicket) where
  keep_db-tickets :
      (r : Result ConsentDb) (s : ConsentState K) → (keep_db tickets r s).1.tickets ≡ s.tickets
  keep_db-tickets (err e) s = refl
  keep_db-tickets (ok db) s = refl

  save_decision-tickets :
      (now : ℕ) (user_id : Uuid) (resolved : ResolvedConsentSubject)
      (requirement : ConsentRequirement) (decision : TicketDecision)
      (fields : Option FieldsDecision) (s : ConsentState K)
      → (save_decision tickets now user_id resolved requirement decision fields s).1.tickets
        ≡ s.tickets
  unfolding save_decision
  save_decision-tickets now user_id resolved requirement denies fields s = refl
  save_decision-tickets now user_id resolved requirement (grants chosen) fields s =
      keep_db-tickets _ s

  kept_by_last :
      {T U : Type 0} (r : Result T × ConsentState K) (u : U) (k : K)
      → r.1.tickets ≡ k
      → (after r (λ t s. (ok u, s))).1.tickets ≡ k
  kept_by_last (err e, s) u k h = h
  kept_by_last (ok t, s) u k h = h

  module _ (now : ℕ) (presented : PresentedTicket) (decision : TicketDecision)
      (viewer : ConsentViewer) (subject_id : Uuid → Uuid)
      (resolve : ConsentSubject → Option ResolvedConsentSubject)
      (fields : Result (Option FieldsDecision)) where
    -- A decision that succeeds has taken the ticket out of the store.
    taken_out :
        (s : ConsentState K)
        → is_ok
            (decide_consent_ticket tickets now presented decision viewer subject_id resolve fields
              s).0
          ≡ true
        → (is_ticket_shape presented.text ≡ true)
          × ((decide_consent_ticket tickets now presented decision viewer subject_id resolve fields
                s).1.tickets
              ≡ tickets.del s.tickets presented.digest)
    unfolding decide_consent_ticket get_consent_ticket consume_consent_ticket
    taken_out s = elim (Bool-cases (is_ticket_shape presented.text)) [
      | inr b ↦ rw b (λ h. cc)
      | inl b ↦ elim (Option-cases (tickets.get s.tickets now presented.digest)) [
        | inl e ↦ rw (b, e) (λ h. cc)
        | inr (peeked, e) ↦ elim (Result-cases (assert_viewer peeked viewer)) [
          | inl (x, v) ↦ rw (b, e, v) (λ h. cc)
          | inr (u, v) ↦ elim (Option-cases (resolve peeked.subject)) [
            | inl r ↦ rw (b, e, v, r) (λ h. cc)
            | inr (resolved, r) ↦ elim (Result-cases (prepared decision fields)) [
              | inl (x, f) ↦ rw (b, e, v, r, f) (λ h. cc)
              | inr (prepared_fields, f) ↦
                  let user_id = subject_id peeked.auth_user_id in
                  let requirement = evaluate_for_user s.db user_id resolved in
                  let rest = tickets.del s.tickets presented.digest in
                  let t = record s { tickets = rest } in
                  rw (b, e, v, r, f, tickets.getdel-eq s.tickets now presented.digest, e, b)
                    (λ h. (
                      refl,
                      kept_by_last
                          (save_decision tickets now user_id resolved requirement decision
                            prepared_fields t)
                          peeked rest
                          (save_decision-tickets now user_id resolved requirement decision
                            prepared_fields t),
                    ))
            ]
          ]
        ]
      ]
    ]

    refused :
        (later : ℕ) (decision' : TicketDecision) (viewer' : ConsentViewer)
        (fields' : Result (Option FieldsDecision)) (t : ConsentState K)
        → is_ticket_shape presented.text ≡ true
        → tickets.get t.tickets later presented.digest ≡ none
        → (decide_consent_ticket tickets later presented decision' viewer' subject_id resolve
            fields' t).0
          ≡ err ticket_expired
    unfolding decide_consent_ticket get_consent_ticket
    refused later decision' viewer' fields' t b e = rw (b, e) refl

    -- After a decision on a ticket has succeeded, every decision on the same ticket at a later time,
    -- of whatever kind and by whomever, is answered with an expired ticket.
    pub decide_consent_ticket-once :
        (s : ConsentState K) (later : ℕ) (decision' : TicketDecision) (viewer' : ConsentViewer)
        (fields' : Result (Option FieldsDecision))
        → is_ok
            (decide_consent_ticket tickets now presented decision viewer subject_id resolve fields
              s).0
          ≡ true
        → (decide_consent_ticket tickets later presented decision' viewer' subject_id resolve
            fields'
            (decide_consent_ticket tickets now presented decision viewer subject_id resolve fields
              s).1).0
          ≡ err ticket_expired
    decide_consent_ticket-once s later decision' viewer' fields' h =
        let (b, e) = taken_out s h in
        refused later decision' viewer' fields' _ b (
          ap (λ k. tickets.get k later presented.digest) e
          ∙ tickets.get-del s.tickets presented.digest later)
