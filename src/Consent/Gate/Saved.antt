-- ===== src/Consent/Gate/Saved.antt =====
-- What `saveConsent` of server/src/consent/store.ts leaves for `getConsentRecord`.
use cernere.Base.{
  ℕ, ==_self, Bool, Bool-cases, true, false, Option, Option-cases, none, some, List, [], ◌∷◌, ◌++◌,
  Uuid, any, find, find-update, any-In, find-none-In, find-test, ok, ok_value, ◌≡◌, refl, ◌∙◌, ap,
  inl, inr, subst, >>=-eq-ok,
}
use cernere.Consent.Keys.{same_text_iff}
use cernere.Consent.Requirement.{ResolvedDecision}
use cernere.Consent.Requirement.Decided.{stored}
use cernere.Consent.Store.{
  ConsentDb, ConsentSubject, ConsentSubjectKind, project, oidc_client, FieldsDecision,
  UserServiceConsent, subject_where, same_kind, same_subject, to_stored, stored_row,
  get_consent_record, save_consent, save_grant, upsert, decided_row, new_row,
}

same_subject_self : (s : ConsentSubject) → same_subject s s ≡ true
same_subject_self s = rw (kinds s.kind, (same_text_iff s.key s.key).1 refl) refl
  where
    kinds : (k : ConsentSubjectKind) → same_kind k k ≡ true
    kinds project = refl
    kinds oidc_client = refl

find-append :
    {A : Type 0} (test : A → Bool) (rows : List A) (x : A)
    → any test rows ≡ false
    → test x ≡ true
    → find test (rows ++ x ∷ []) ≡ some x
unfolding find any
find-append test [] x h t = rw t refl
find-append test (r ∷ rows) x h t = elim (Bool-cases (test r)) [
  | inl e ↦ cc (rw e at h)
  | inr e ↦ rw e (find-append test rows x (rw e at h) t)
]

found_any :
    {A : Type 0} (test : A → Bool) (rows : List A)
    → any test rows ≡ true
    → (a : A) × (find test rows ≡ some a)
found_any test rows h = elim (Option-cases (find test rows)) [
  | inl e ↦ let (a, i, t) = any-In test rows h in cc (t, find-none-In test rows e i)
  | inr (a, e) ↦ (a, e)
]

own_row :
    (user_id : Uuid) (subject : ConsentSubject) (now : ℕ)
    → subject_where user_id subject (new_row user_id subject now) ≡ true
unfolding subject_where
own_row user_id subject now = rw (==_self user_id, same_subject_self subject) refl

module _ (now version : ℕ) (decision : ResolvedDecision) (fields : Option FieldsDecision) where
  decided_row-subject_where :
      (fields : Option FieldsDecision) (user_id : Uuid) (subject : ConsentSubject)
      (row : UserServiceConsent)
      → subject_where user_id subject (decided_row now version decision fields row)
        ≡ subject_where user_id subject row
  unfolding subject_where
  decided_row-subject_where none user_id subject row = refl
  decided_row-subject_where (some f) user_id subject row = refl

  decided_row-to_stored :
      (fields : Option FieldsDecision) (row : UserServiceConsent)
      → to_stored (decided_row now version decision fields row) ≡ stored version decision
  decided_row-to_stored none row = refl
  decided_row-to_stored (some f) row = refl

  find-upsert :
      (user_id : Uuid) (subject : ConsentSubject) (rows : List UserServiceConsent)
      → stored_row (
          find (subject_where user_id subject) (
            upsert
              (subject_where user_id subject)
              (new_row user_id subject now)
              (decided_row now version decision fields)
              rows))
        ≡ some (stored version decision)
  find-upsert user_id subject rows = elim (Bool-cases (any (subject_where user_id subject) rows)) [
    | inl e ↦
        let (a, f) = found_any (subject_where user_id subject) rows e in
        let found =
          find-update (subject_where user_id subject) (subject_where user_id subject)
            (decided_row now version decision fields)
            (decided_row-subject_where fields user_id subject) rows f in
        rw (e, found, find-test (subject_where user_id subject) rows f)
          (ap some (decided_row-to_stored fields a))
    | inr e ↦
        let row = decided_row now version decision fields (new_row user_id subject now) in
        let own : subject_where user_id subject row ≡ true =
          decided_row-subject_where fields user_id subject (new_row user_id subject now)
          ∙ own_row user_id subject now in
        rw (e, find-append (subject_where user_id subject) rows row e own)
          (ap some (decided_row-to_stored fields (new_row user_id subject now)))
  ]

-- The consent that was saved is the one that is read.
pub save_grant-get_consent_record :
    (db db' : ConsentDb) (now : ℕ) (user_id : Uuid) (subject : ConsentSubject) (version : ℕ)
    (decision : ResolvedDecision) (fields : Option FieldsDecision)
    → save_grant db now user_id subject version decision fields ≡ ok db'
    → get_consent_record db' user_id subject ≡ some (stored version decision)
unfolding save_grant save_consent get_consent_record
save_grant-get_consent_record db db' now user_id subject version decision none h =
    subst (λ d. get_consent_record d user_id subject ≡ some (stored version decision)) (ok_value h)
      (find-upsert now version decision none user_id subject db.user_service_consents)
save_grant-get_consent_record db db' now user_id subject version decision (some f) h =
    let (_, _, e) = >>=-eq-ok f.write _ h in
    subst (λ d. get_consent_record d user_id subject ≡ some (stored version decision)) (ok_value e)
      (find-upsert now version decision (some f) user_id subject db.user_service_consents)
