-- ===== src/Consent/Store.antt =====
-- server/src/consent/store.ts and grant.ts: the consent of a user to a service is one row, and each decision is
-- written to the audit. The opt-outs that follow from denials are tables of their own.
use cernere.Base.{
  ℕ, ◌==◌, ◌&&◌, Bool, true, false, Option, none, some, is_some, List, [], ◌∷◌, ◌++◌, Uuid,
  if◌then◌else◌, any, find, update, Result, ok, ◌>>◌,
}
use cernere.Consent.Keys.{Text, same_text}
use cernere.Consent.Requirement.{ConsentRecordState, ResolvedDecision}

pub data ConsentSubjectKind : Type 0 where
  project oidc_client : ConsentSubjectKind

pub record ConsentSubject : Type 0 where
  pub kind : ConsentSubjectKind
  pub key : Text

pub data ConsentAction : Type 0 where
  grant deny revoke update_action : ConsentAction

pub record UserServiceConsent : Type 0 where
  pub user_id : Uuid
  pub subject : ConsentSubject
  pub declaration_version : ℕ
  pub granted : List Text
  pub denied : List Text
  pub decided_at : ℕ
  pub revoked_at : Option ℕ
  pub fields_version : Option ℕ
  pub fields_seen : List Text

-- A row of the audit, without its own identifier and time.
pub record ConsentDecision : Type 0 where
  pub user_id : Uuid
  pub subject : ConsentSubject
  pub declaration_version : ℕ
  pub action : ConsentAction
  pub granted : List Text
  pub denied : List Text

pub record ConsentDb : Type 0 where
  pub user_service_consents : List UserServiceConsent
  pub consent_decisions : List ConsentDecision

-- What a decision on the signup fields saves; `write` is what writing their values gives.
pub record FieldsDecision : Type 0 where
  pub version : ℕ
  pub seen : List Text
  pub write : Result (Unit {0})

abbrev pub same_kind : ConsentSubjectKind → ConsentSubjectKind → Bool
same_kind project project = true
same_kind oidc_client oidc_client = true
same_kind _ _ = false

abbrev pub same_subject : ConsentSubject → ConsentSubject → Bool
same_subject a b = same_kind a.kind b.kind && same_text a.key b.key

unfoldable pub subject_where : Uuid → ConsentSubject → UserServiceConsent → Bool
subject_where user_id subject row = row.user_id == user_id && same_subject row.subject subject

abbrev pub to_stored : UserServiceConsent → ConsentRecordState
to_stored row = record {
  declaration_version = row.declaration_version;
  granted = row.granted;
  denied = row.denied;
  revoked = is_some row.revoked_at;
}

abbrev pub stored_row : Option UserServiceConsent → Option ConsentRecordState
stored_row none = none
stored_row (some row) = some (to_stored row)

unfoldable pub get_consent_record : ConsentDb → Uuid → ConsentSubject → Option ConsentRecordState
get_consent_record db user_id subject =
    stored_row (find (subject_where user_id subject) db.user_service_consents)

abbrev pub audit_row :
    Uuid → ConsentSubject → ConsentAction → ℕ → ResolvedDecision → ConsentDecision
audit_row user_id subject action version decision = record {
  user_id = user_id;
  subject = subject;
  declaration_version = version;
  action = action;
  granted = decision.granted;
  denied = decision.denied;
}

abbrev with_fields : Option FieldsDecision → UserServiceConsent → UserServiceConsent
with_fields none row = row
with_fields (some fields) row = record row {
  fields_version = some fields.version;
  fields_seen = fields.seen;
}

abbrev pub decided_row :
    ℕ → ℕ → ResolvedDecision → Option FieldsDecision → UserServiceConsent → UserServiceConsent
decided_row now version decision fields row = with_fields fields (record row {
  declaration_version = version;
  granted = decision.granted;
  denied = decision.denied;
  decided_at = now;
  revoked_at = none;
})

abbrev pub new_row : Uuid → ConsentSubject → ℕ → UserServiceConsent
new_row user_id subject now = record {
  user_id = user_id;
  subject = subject;
  declaration_version = 0;
  granted = [];
  denied = [];
  decided_at = now;
  revoked_at = none;
  fields_version = none;
  fields_seen = [];
}

-- `insert … onConflictDoUpdate`.
abbrev pub upsert :
    (UserServiceConsent → Bool)
    → UserServiceConsent
    → (UserServiceConsent → UserServiceConsent)
    → List UserServiceConsent
    → List UserServiceConsent
upsert test row set rows = if any test rows then update test set rows else rows ++ set row ∷ []

abbrev pub write_fields : Option FieldsDecision → Result (Unit {0})
write_fields none = ok tt
write_fields (some fields) = fields.write

unfoldable pub save_consent :
    ConsentDb
    → ℕ
    → Uuid
    → ConsentSubject
    → ConsentAction
    → ℕ
    → ResolvedDecision
    → Option FieldsDecision
    → Result ConsentDb
save_consent db now user_id subject action version decision fields = do
  write_fields fields
  ok record {
    user_service_consents =
        upsert (subject_where user_id subject) (new_row user_id subject now)
          (decided_row now version decision fields) db.user_service_consents;
    consent_decisions =
        db.consent_decisions ++ audit_row user_id subject action version decision ∷ [];
  }

unfoldable pub record_denial : ConsentDb → Uuid → ConsentSubject → ℕ → ResolvedDecision → ConsentDb
record_denial db user_id subject version decision = record db {
  consent_decisions = db.consent_decisions ++ audit_row user_id subject deny version decision ∷ [];
}

-- The `saveConsent` of `saveGrant`: an existing row is updated.
unfoldable pub save_grant :
    ConsentDb
    → ℕ
    → Uuid
    → ConsentSubject
    → ℕ
    → ResolvedDecision
    → Option FieldsDecision
    → Result ConsentDb
save_grant db now user_id subject version decision fields =
    save_consent db now user_id subject
      (if is_some (get_consent_record db user_id subject) then update_action else grant) version
      decision fields

abbrev revoked_keys : Option UserServiceConsent → List Text
revoked_keys none = []
revoked_keys (some row) = row.granted

unfoldable pub revoke_consent : ConsentDb → ℕ → Uuid → ConsentSubject → ℕ → Bool × ConsentDb
revoke_consent db now user_id subject version =
    let row = find (subject_where user_id subject) db.user_service_consents in
    if is_some row
    then (
      true,
      record {
        user_service_consents =
            update (subject_where user_id subject) (λ r. record r { revoked_at = some now })
              db.user_service_consents;
        consent_decisions =
            db.consent_decisions
            ++ audit_row user_id subject revoke version
                (record { granted = []; denied = revoked_keys row })
              ∷ [];
      },
    )
    else (false, db)
