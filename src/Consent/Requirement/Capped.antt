-- ===== src/Consent/Requirement/Capped.antt =====
-- That a decision on what server/src/consent/requirement.ts offers stays within the caps, whatever the page sends.
use cernere.Base.{
  Bool, true, not, Option, Option-cases, none, some, or_else, List, ◌++◌, map, select, find, In,
  In-cons, In-append, In-select, In-map, find-test, ◌≡◌, refl, sym, ap, ◌∙◌, inl, inr, subst,
}
use cernere.Consent.Keys.{
  Text, text, same_text_iff, has, identity_basic, profile_fields, identity_claims,
  oidc_consent_scopes, is_module_name, is_operation_name, ParsedPermissionKey, PermissionKind,
  profile, identity_claim, user_data, oidc, service_operation, ConsentCaps, parse_permission_key,
  is_within_caps, permission_keys_within_caps,
}
use cernere.Consent.Keys.Vocabulary.{key_of, in_vocabulary, parse_permission_key-key_of_iff}
use cernere.Consent.Requirement.Decided.{In-has}
use cernere.Consent.Requirement.{
  RequirementInput, ConsentDeclaration, DeclaredPermission, EffectivePermission, PermissionView,
  basic, is_basic, undeclared, effective, key_within_caps, declared_within, effective_permissions,
  permission_view, is_required, evaluate_consent_requirement, resolve_decision, active_record,
}

-- A key that a service may be given: the identity, or what the caps allow.
pub data IsAllowed (caps : ConsentCaps) (key : Text) : Type 0 where
  of_identity : key ≡ identity_basic → IsAllowed caps key
  in_caps :
      (p : ParsedPermissionKey)
      → parse_permission_key key ≡ some p
      → is_within_caps p caps ≡ true
      → IsAllowed caps key

-- The names in the caps are of the vocabulary.
pub record IsVocabulary (caps : ConsentCaps) : Type 0 where
  pub profiles :
      (name : Text) → has caps.profile_fields name ≡ true → has profile_fields name ≡ true
  pub claims :
      (name : Text) → has caps.identity_claims name ≡ true → has identity_claims name ≡ true
  pub modules : (name : Text) → has caps.user_data_modules name ≡ true → is_module_name name ≡ true
  pub scopes :
      (name : Text) → has caps.oidc_scopes name ≡ true → has oidc_consent_scopes name ≡ true
  pub operations :
      (name : Text) → has caps.service_operations name ≡ true → is_operation_name name ≡ true

key_within_caps-IsAllowed :
    (caps : ConsentCaps) (key : Text) → key_within_caps caps key ≡ true → IsAllowed caps key
key_within_caps-IsAllowed caps key h = elim (Option-cases (parse_permission_key key)) [
  | inl e ↦ cc (rw e at h)
  | inr (p, e) ↦ in_caps p e (rw e at h)
]

declared_within-IsAllowed :
    (d : ConsentDeclaration) (caps : ConsentCaps) (p : EffectivePermission)
    → In p (declared_within d caps)
    → IsAllowed caps p.key
unfolding declared_within
declared_within-IsAllowed d caps p i =
    let (q, j, e) = In-map effective (select (λ p. key_within_caps caps p.key) d.permissions) i in
    let (_, t) =
      In-select (λ (p : DeclaredPermission). key_within_caps caps p.key) d.permissions j in
    subst (λ (x : EffectivePermission). IsAllowed caps x.key) e
      (key_within_caps-IsAllowed caps q.key t)

first-IsAllowed :
    (d : ConsentDeclaration) (caps : ConsentCaps)
    → IsAllowed caps (or_else (find is_basic (declared_within d caps)) basic).key
first-IsAllowed d caps = elim (Option-cases (find is_basic (declared_within d caps))) [
  | inl e ↦ rw e (of_identity refl)
  | inr (p, e) ↦ rw e (
      of_identity
        ((same_text_iff p.key identity_basic).0 (find-test is_basic (declared_within d caps) e)))
]

printed-IsAllowed :
    (caps : ConsentCaps) (kind : PermissionKind) (name : Text)
    → in_vocabulary (record { kind = kind; name = name }) ≡ true
    → is_within_caps (record { kind = kind; name = name }) caps ≡ true
    → IsAllowed caps (key_of (record { kind = kind; name = name }))
printed-IsAllowed caps kind name v h =
    in_caps (record { kind = kind; name = name })
      ((parse_permission_key-key_of_iff _ _).1 (v, refl)) h

printed_all :
    (caps : ConsentCaps) (prefix : Text) (names : List Text) (key : Text)
    → ((name : Text) → In name names → IsAllowed caps (prefix ++ name))
    → In key (map (λ name. prefix ++ name) names)
    → IsAllowed caps key
printed_all caps prefix names key h i =
    let (name, j, e) = In-map (λ name. prefix ++ name) names i in
    subst (IsAllowed caps) e (h name j)

permission_keys_within_caps-IsAllowed :
    (caps : ConsentCaps) (key : Text)
    → IsVocabulary caps
    → In key (permission_keys_within_caps caps)
    → IsAllowed caps key
unfolding permission_keys_within_caps key_of is_within_caps in_vocabulary
permission_keys_within_caps-IsAllowed caps key v i =
    let a0 = map (λ f. text "profile." ++ f) caps.profile_fields in
    let a1 = a0 ++ map (λ c. text "identity_claim." ++ c) caps.identity_claims in
    let a2 = a1 ++ map (λ m. text "user_data.module:" ++ m) caps.user_data_modules in
    let a3 = a2 ++ map (λ s. text "oidc." ++ s) caps.oidc_scopes in
    elim (In-append a3 i) [
      | inl i ↦ elim (In-append a2 i) [
        | inl i ↦ elim (In-append a1 i) [
          | inl i ↦ elim (In-append a0 i) [
            | inl i ↦
                printed_all caps (text "profile.") caps.profile_fields key
                  (λ name j.
                    printed-IsAllowed caps profile name (v.profiles name (In-has j)) (In-has j))
                  i
            | inr r ↦
                printed_all caps (text "identity_claim.") caps.identity_claims key
                  (λ name j.
                    printed-IsAllowed caps identity_claim name (v.claims name (In-has j))
                      (In-has j))
                  r
          ]
          | inr r ↦
              printed_all caps (text "user_data.module:") caps.user_data_modules key
                (λ name j.
                  printed-IsAllowed caps user_data name (v.modules name (In-has j)) (In-has j))
                r
        ]
        | inr r ↦
            printed_all caps (text "oidc.") caps.oidc_scopes key
              (λ name j. printed-IsAllowed caps oidc name (v.scopes name (In-has j)) (In-has j)) r
      ]
      | inr r ↦
          printed_all caps (text "service_operation.") caps.service_operations key
            (λ name j.
              printed-IsAllowed caps service_operation name (v.operations name (In-has j))
                (In-has j))
            r
    ]

effective_permissions-IsAllowed :
    (d : Option ConsentDeclaration) (caps : ConsentCaps) (p : EffectivePermission)
    → IsVocabulary caps
    → In p (effective_permissions d caps)
    → IsAllowed caps p.key
unfolding effective_permissions
effective_permissions-IsAllowed none caps p v i = elim (In-cons i) [
  | inl e ↦ of_identity (ap (λ (x : EffectivePermission). x.key) (sym e))
  | inr j ↦
      let (key, k, e) = In-map undeclared (permission_keys_within_caps caps) j in
      subst (λ (x : EffectivePermission). IsAllowed caps x.key) e
        (permission_keys_within_caps-IsAllowed caps key v k)
]
effective_permissions-IsAllowed (some d) caps p v i = elim (In-cons i) [
  | inl e ↦ subst (λ (x : EffectivePermission). IsAllowed caps x.key) e (first-IsAllowed d caps)
  | inr j ↦
      declared_within-IsAllowed d caps p
        (In-select (λ p. not (is_basic p)) (declared_within d caps) j).0
]

module _ (input : RequirementInput) (chosen : List Text) (v : IsVocabulary input.caps) where
  shown_key :
      (test : PermissionView → Bool) (key : Text)
      → In key (
          map
            (λ (v : PermissionView). v.key)
            (select test (
              map
                (permission_view (active_record input.record_state) input.sharing)
                (effective_permissions input.declaration input.caps))))
      → IsAllowed input.caps key
  unfolding permission_view
  shown_key test key i =
      let shown = permission_view (active_record input.record_state) input.sharing in
      let permissions = effective_permissions input.declaration input.caps in
      let (view, j, e) =
        In-map (λ (v : PermissionView). v.key) (select test (map shown permissions)) i in
      let (p, k, f) = In-map shown permissions (In-select test (map shown permissions) j).0 in
      subst (IsAllowed input.caps) (ap (λ (v : PermissionView). v.key) f ∙ e)
        (effective_permissions-IsAllowed input.declaration input.caps p v k)

  -- If the names in the caps of a service are of the vocabulary, every key that a decision grants,
  -- whatever keys the page sends, is the identity or is parsed to a permission that is within the
  -- caps.
  pub resolve_decision-IsAllowed :
      (key : Text)
      → In key (resolve_decision (evaluate_consent_requirement input) chosen).granted
      → IsAllowed input.caps key
  unfolding resolve_decision evaluate_consent_requirement
  resolve_decision-IsAllowed key i =
      let shown =
        map (permission_view (active_record input.record_state) input.sharing)
          (effective_permissions input.declaration input.caps) in
      let offered =
        map (λ (v : PermissionView). v.key)
          (select (λ (v : PermissionView). not (is_required v.level)) shown) in
      elim (In-append
        (map (λ (v : PermissionView). v.key)
          (select (λ (v : PermissionView). is_required v.level) shown))
        i) [
          | inl a ↦ shown_key (λ v. is_required v.level) key a
          | inr b ↦
              shown_key (λ v. not (is_required v.level)) key (In-select (has chosen) offered b).0
        ]
