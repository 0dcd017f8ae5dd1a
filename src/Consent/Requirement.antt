-- ===== src/Consent/Requirement.antt =====
-- server/src/consent/requirement.ts and declaration-schema.ts: what a service still has to ask of a user, from its
-- declaration, the caps, the sharing of data and the stored consent.
pub mod Decided
pub mod Capped
use cernere.Base.{
  ℕ, Bool, true, false, not, ◌&&◌, ◌||◌, Option, none, some, or_else, is_some, is_none, List, [],
  ◌∷◌, ◌++◌, map, any, select, find, String, if◌then◌else◌,
}
use cernere.Consent.Keys.{
  Text, text, same_text, has, identity_basic, PermissionKind, identity, profile, user_data,
  ParsedPermissionKey, ConsentCaps, parse_permission_key, is_within_caps,
  permission_keys_within_caps,
}

pub data ConsentLevel : Type 0 where
  required recommended : ConsentLevel

pub data DeclaredVisibility : Type 0 where
  self service_users public : DeclaredVisibility

pub record DeclaredPermission : Type 0 where
  pub key : Text
  pub level : ConsentLevel
  pub purpose : String
  pub visible_to : List DeclaredVisibility

pub record ConsentDeclaration : Type 0 where
  pub version : ℕ
  pub permissions : List DeclaredPermission

-- `modules: null` is every module.
pub record SharingTarget : Type 0 where
  pub project_key : String
  pub name : String
  pub modules : Option (List Text)

pub record ConsentRecordState : Type 0 where
  pub declaration_version : ℕ
  pub granted : List Text
  pub denied : List Text
  pub revoked : Bool

pub record RequirementInput : Type 0 where
  pub declaration : Option ConsentDeclaration
  pub caps : ConsentCaps
  pub sharing : List SharingTarget
  pub record_state : Option ConsentRecordState

-- The source of a view is the service for what it declares, and Cernere for other services.
pub data AudienceView : Type 0 where
  declared_by_service : DeclaredVisibility → AudienceView
  other_services : List String → AudienceView

pub data PermissionDecision : Type 0 where
  granted denied : PermissionDecision

pub record PermissionView : Type 0 where
  pub key : Text
  pub kind : PermissionKind
  pub level : ConsentLevel
  pub purpose : Option String
  pub visible_to : List AudienceView
  pub shared_beyond_self : Bool
  pub privacy_dependent : Bool
  pub is_new : Bool
  pub decision : Option PermissionDecision

pub record ConsentView : Type 0 where
  pub version : ℕ
  pub declared : Bool
  pub reconsent : Bool
  pub required : List PermissionView
  pub recommended : List PermissionView

pub record ConsentRequirement : Type 0 where
  pub satisfied : Bool
  pub missing_required : List Text
  pub pending_recommended : List Text
  pub view : ConsentView

pub record EffectivePermission : Type 0 where
  pub key : Text
  pub level : ConsentLevel
  pub purpose : Option String
  pub declared_visibility : List DeclaredVisibility

abbrev pub basic : EffectivePermission
basic = record { key = identity_basic; level = required; purpose = none; declared_visibility = [] }

abbrev pub is_basic : EffectivePermission → Bool
is_basic p = same_text p.key identity_basic

abbrev pub undeclared : Text → EffectivePermission
undeclared key = record { key = key; level = recommended; purpose = none; declared_visibility = [] }

abbrev parsed_within : Option ParsedPermissionKey → ConsentCaps → Bool
parsed_within none caps = false
parsed_within (some parsed) caps = is_within_caps parsed caps

abbrev pub key_within_caps : ConsentCaps → Text → Bool
key_within_caps caps key = parsed_within (parse_permission_key key) caps

abbrev pub effective : DeclaredPermission → EffectivePermission
effective p = record {
  key = p.key;
  level = p.level;
  purpose = some p.purpose;
  declared_visibility = p.visible_to;
}

unfoldable pub declared_within : ConsentDeclaration → ConsentCaps → List EffectivePermission
declared_within declaration caps =
    map effective (select (λ p. key_within_caps caps p.key) declaration.permissions)

unfoldable pub effective_permissions :
    Option ConsentDeclaration → ConsentCaps → List EffectivePermission
effective_permissions none caps = basic ∷ map undeclared (permission_keys_within_caps caps)
effective_permissions (some declaration) caps =
    let declared = declared_within declaration caps in
    or_else (find is_basic declared) basic ∷ select (λ p. not (is_basic p)) declared

abbrev shares : Text → Option (List Text) → Bool
shares name none = true
shares name (some modules) = has modules name

abbrev with_services : List String → List AudienceView
with_services [] = []
with_services (s ∷ rest) = other_services (s ∷ rest) ∷ []

abbrev cernere_audiences : PermissionKind → Text → List SharingTarget → List AudienceView
cernere_audiences user_data name sharing =
    with_services (map (λ s. s.name) (select (λ s. shares name s.modules) sharing))
cernere_audiences _ name sharing = []

unfoldable pub audiences :
    EffectivePermission → PermissionKind → Text → List SharingTarget → List AudienceView
audiences permission kind name sharing =
    map declared_by_service permission.declared_visibility ++ cernere_audiences kind name sharing

abbrev beyond_self : AudienceView → Bool
beyond_self (declared_by_service self) = false
beyond_self _ = true

abbrev personality_fields : List Text
personality_fields = map text ("bio" ∷ "roleTitle" ∷ "expertise" ∷ "hobbies" ∷ [])

abbrev is_profile : PermissionKind → Bool
is_profile profile = true
is_profile _ = false

-- A consent that was revoked counts as none.
unfoldable pub active_record : Option ConsentRecordState → Option ConsentRecordState
active_record none = none
active_record (some state) = if state.revoked then none else some state

abbrev pub granted_keys : Option ConsentRecordState → List Text
granted_keys none = []
granted_keys (some state) = state.granted

abbrev pub denied_keys : Option ConsentRecordState → List Text
denied_keys none = []
denied_keys (some state) = state.denied

unfoldable pub decision_of : Option ConsentRecordState → Text → Option PermissionDecision
decision_of active key =
    if has (granted_keys active) key
    then some granted
    else if has (denied_keys active) key
    then some denied
    else none

unfoldable pub permission_view :
    Option ConsentRecordState → List SharingTarget → EffectivePermission → PermissionView
permission_view active sharing permission =
    let parsed =
      or_else (parse_permission_key permission.key)
        (record { kind = identity; name = text "basic" }) in
    let visible_to = audiences permission parsed.kind parsed.name sharing in
    record {
      key = permission.key;
      kind = parsed.kind;
      level = permission.level;
      purpose = permission.purpose;
      visible_to = visible_to;
      shared_beyond_self = any beyond_self visible_to;
      privacy_dependent = is_profile parsed.kind && has personality_fields parsed.name;
      is_new =
          is_some active
          && not
              (has (granted_keys active) permission.key || has (denied_keys active) permission.key);
      decision = decision_of active permission.key;
    }

abbrev pub is_required : ConsentLevel → Bool
is_required required = true
is_required recommended = false

abbrev pub is_granted : Option PermissionDecision → Bool
is_granted (some granted) = true
is_granted _ = false

abbrev pub is_empty : List Text → Bool
is_empty [] = true
is_empty (x ∷ xs) = false

abbrev version_of : Option ConsentDeclaration → ℕ
version_of none = 0
version_of (some declaration) = declaration.version

unfoldable pub evaluate_consent_requirement : RequirementInput → ConsentRequirement
evaluate_consent_requirement input =
    let active = active_record input.record_state in
    let views =
      map (permission_view active input.sharing)
        (effective_permissions input.declaration input.caps) in
    let must = select (λ v. is_required v.level) views in
    let may = select (λ v. not (is_required v.level)) views in
    let missing = map (λ v. v.key) (select (λ v. not (is_granted v.decision)) must) in
    let pending = map (λ v. v.key) (select (λ v. is_none v.decision) may) in
    let satisfied = is_empty missing && is_empty pending in
    record {
      satisfied = satisfied;
      missing_required = missing;
      pending_recommended = pending;
      view = record {
        version = version_of input.declaration;
        declared = is_some input.declaration;
        reconsent = is_some active && not satisfied;
        required = must;
        recommended = may;
      };
    }

pub record ResolvedDecision : Type 0 where
  pub granted : List Text
  pub denied : List Text

unfoldable pub resolve_decision : ConsentRequirement → List Text → ResolvedDecision
resolve_decision requirement chosen =
    let offered = map (λ v. v.key) requirement.view.recommended in
    record {
      granted = map (λ v. v.key) requirement.view.required ++ select (has chosen) offered;
      denied = select (λ k. not (has chosen k)) offered;
    }
