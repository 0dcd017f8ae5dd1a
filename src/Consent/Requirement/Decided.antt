-- ===== src/Consent/Requirement/Decided.antt =====
-- What a decision that was stored settles for `evaluateConsentRequirement` of
-- server/src/consent/requirement.ts.
use cernere.Base.{
  Bool, Bool-cases, true, false, not, some, is_none, List, [], ◌∷◌, map, select, In, here, there,
  In-any, select-In, map-In, In-append_left, In-append_right, ◌≡◌, refl, inl, inr, ◌⊎◌, ℕ,
}
use cernere.Consent.Keys.{Text, same_text, same_text_iff, has}
use cernere.Consent.Requirement.{
  RequirementInput, ConsentRecordState, EffectivePermission, PermissionView, ResolvedDecision,
  effective_permissions, permission_view, decision_of, active_record, is_required, is_granted,
  is_empty, evaluate_consent_requirement, resolve_decision,
}

pub In-has : {key : Text} {keys : List Text} → In key keys → has keys key ≡ true
unfolding has
In-has {key} {keys} i = In-any (λ k. same_text k key) keys i ((same_text_iff key key).1 refl)

-- Nothing is left of a list where each of its tests fails.
none_left :
    {A : Type 0} (g : A → PermissionView) (r q : PermissionView → Bool) (xs : List A)
    → ((x : A) → In x xs → r (g x) ≡ true → q (g x) ≡ false)
    → is_empty (map (λ v. v.key) (select q (select r (map g xs)))) ≡ true
unfolding select
none_left g r q [] h = refl
none_left g r q (x ∷ xs) h =
    let rest = none_left g r q xs (λ y i. h y (there i)) in
    elim (Bool-cases (r (g x))) [ inl e ↦ rw (e, h x (here refl) e) rest | inr e ↦ rw e rest ]

-- The decision as it is stored.
abbrev pub stored : ℕ → ResolvedDecision → ConsentRecordState
stored version d = record {
  declaration_version = version;
  granted = d.granted;
  denied = d.denied;
  revoked = false;
}

module _ (input : RequirementInput) (chosen : List Text) (version : ℕ) where
  abbrev resolved_choice : ResolvedDecision
  resolved_choice = resolve_decision (evaluate_consent_requirement input) chosen

  abbrev asked_again : RequirementInput
  asked_again = record input { record_state = some (stored version resolved_choice) }

  abbrev permissions : List EffectivePermission
  permissions = effective_permissions input.declaration input.caps

  abbrev shown : EffectivePermission → PermissionView
  shown = permission_view (active_record input.record_state) input.sharing

  required-granted :
      (p : EffectivePermission)
      → In p permissions
      → is_required p.level ≡ true
      → has resolved_choice.granted p.key ≡ true
  unfolding resolve_decision evaluate_consent_requirement permission_view
  required-granted p i l = In-has (
      In-append_left _ (
        map-In (λ (v : PermissionView). v.key)
          (select-In (λ (v : PermissionView). is_required v.level) _ (map-In shown i) l)))

  recommended-decided :
      (p : EffectivePermission)
      → In p permissions
      → not (is_required p.level) ≡ true
      → (has resolved_choice.granted p.key ≡ true) ⊎ (has resolved_choice.denied p.key ≡ true)
  unfolding resolve_decision evaluate_consent_requirement permission_view
  recommended-decided p i l =
      let offered =
        map-In (λ (v : PermissionView). v.key)
          (select-In (λ (v : PermissionView). not (is_required v.level)) _ (map-In shown i) l) in
      elim (Bool-cases (has chosen p.key)) [
        | inl c ↦ inl (In-has (In-append_right _ (select-In (has chosen) _ offered c)))
        | inr c ↦ inr (In-has (select-In (λ k. not (has chosen k)) _ offered (rw c refl)))
      ]

  granted_once :
      (p : EffectivePermission)
      → In p permissions
      → is_required p.level ≡ true
      → not (is_granted (decision_of (some (stored version resolved_choice)) p.key)) ≡ false
  unfolding decision_of
  granted_once p i l = rw (required-granted p i l) refl

  decided_once :
      (p : EffectivePermission)
      → In p permissions
      → not (is_required p.level) ≡ true
      → is_none (decision_of (some (stored version resolved_choice)) p.key) ≡ false
  unfolding decision_of
  decided_once p i l = elim (Bool-cases (has resolved_choice.granted p.key)) [
    | inl g ↦ rw g refl
    | inr g ↦ elim (recommended-decided p i l) [ inl g' ↦ cc (g, g') | inr d ↦ rw (g, d) refl ]
  ]

  -- When a decision on what a service asks is stored as it was resolved, whatever recommended keys
  -- were chosen, and the same declaration, caps and sharing are evaluated again, nothing is left to
  -- ask.
  pub resolve_decision-satisfied : (evaluate_consent_requirement asked_again).satisfied ≡ true
  unfolding evaluate_consent_requirement active_record permission_view
  resolve_decision-satisfied =
      let nothing_missing =
        none_left (permission_view (some (stored version resolved_choice)) input.sharing)
          (λ v. is_required v.level) (λ v. not (is_granted v.decision)) permissions granted_once in
      let nothing_pending =
        none_left (permission_view (some (stored version resolved_choice)) input.sharing)
          (λ v. not (is_required v.level)) (λ v. is_none v.decision) permissions decided_once in
      rw (nothing_missing, nothing_pending) refl
