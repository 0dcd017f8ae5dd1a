-- ===== src/Consent/Keys.antt =====
-- server/src/consent/permission-keys.ts: the vocabulary of permission keys and the caps that an
-- administrator sets. A text is the list of its code units.
pub mod Vocabulary
use Prim.Native.Char.{code}
use Prim.Native.String.{String}
use cernere.Base.{
  ℕ, ◌==◌, ==_iff, ==_self, leb, ◌&&◌, ◌||◌, not, Bool, Bool-cases, true, false, Option, none, some,
  List, [], ◌∷◌, ◌++◌, map, if◌then◌else◌, any, select, length, ◌≡◌, refl, ◌↔◌, ap, inl, inr, arith,
}

abbrev pub Text : Type 0
Text = List ℕ

abbrev pub text : String → Text
text String.[] = []
text (String.◌∷◌ c rest) = code c ∷ text rest

unfoldable pub same_text : Text → Text → Bool
same_text [] [] = true
same_text (x ∷ xs) (y ∷ ys) = x == y && same_text xs ys
same_text _ _ = false

pub same_text_iff : (a b : Text) → (same_text a b ≡ true) ↔ (a ≡ b)
unfolding same_text
same_text_iff [] [] = (λ h. refl, λ h. refl)
same_text_iff [] (y ∷ ys) = (λ h. cc, λ h. cc)
same_text_iff (x ∷ xs) [] = (λ h. cc, λ h. cc)
same_text_iff (x ∷ xs) (y ∷ ys) = elim (Bool-cases (x == y)) [
  | inl e ↦ (
    λ h. cc ((==_iff x y).0 e, (same_text_iff xs ys).0 (rw e at h)),
    λ h. rw e ((same_text_iff xs ys).1 cc),
  )
  | inr e ↦ (λ h. cc (rw e at h), λ h. absurd (let head : x ≡ y = cc in ground (arith, e, head)))
]

-- `includes` of an array and `has` of a set.
unfoldable pub has : List Text → Text → Bool
has keys key = any (λ k. same_text k key) keys

abbrev pub identity_basic : Text
identity_basic = text "identity.basic"

abbrev pub oidc_consent_scopes : List Text
oidc_consent_scopes = text "email" ∷ text "profile" ∷ []

-- `PROFILE_READ_FIELDS` and `PROFILE_WRITE_FIELDS` of project/profile-access.ts.
abbrev pub profile_fields : List Text
profile_fields = map text (
    "login" ∷ "displayName" ∷ "email" ∷ "avatarUrl" ∷ "role" ∷ "bio" ∷ "roleTitle" ∷ "expertise"
    ∷ "hobbies" ∷ [])

abbrev pub identity_claims : List Text
identity_claims = text "discord_id" ∷ text "discord_username" ∷ []

pub data PermissionKind : Type 0 where
  identity profile identity_claim user_data oidc service_operation : PermissionKind

pub record ParsedPermissionKey : Type 0 where
  pub kind : PermissionKind
  pub name : Text

-- `serviceOperations` may be left out, which is as if it were empty.
pub record ConsentCaps : Type 0 where
  pub profile_fields : List Text
  pub identity_claims : List Text
  pub user_data_modules : List Text
  pub oidc_scopes : List Text
  pub service_operations : List Text

-- The text up to the first dot, and what follows it.
unfoldable pub split_dot : Text → Option (Text × Text)
split_dot [] = none
split_dot (c ∷ rest) =
    let later = split_dot rest in
    if c == b'.'
    then some ([], rest)
    else elim later [ none ↦ none | some (prefix, name) ↦ some (c ∷ prefix, name) ]

-- What follows a prefix.
unfoldable pub after_prefix : Text → Text → Option Text
after_prefix [] rest = some rest
after_prefix (p ∷ ps) [] = none
after_prefix (p ∷ ps) (c ∷ cs) = let rest = after_prefix ps cs in if p == c then rest else none

abbrev pub is_alphanumeric : ℕ → Bool
is_alphanumeric c =
    (leb b'A' c && leb c b'Z') || (leb b'a' c && leb c b'z') || (leb b'0' c && leb c b'9')

abbrev pub is_letter : ℕ → Bool
is_letter c = (leb b'A' c && leb c b'Z') || (leb b'a' c && leb c b'z')

unfoldable pub all : (ℕ → Bool) → Text → Bool
all test [] = true
all test (c ∷ rest) = test c && all test rest

-- `/^[A-Za-z][A-Za-z0-9_.:-]{1,127}$/`.
unfoldable pub is_operation_name : Text → Bool
is_operation_name [] = false
is_operation_name (c ∷ rest) =
    is_letter c
    && leb 1 (length rest)
    && leb (length rest) 127
    && all (λ x. is_alphanumeric x || x == b'_' || x == b'.' || x == b':' || x == b'-') rest

-- `/^[A-Za-z0-9_-]{1,64}$/`.
unfoldable pub is_module_name : Text → Bool
is_module_name name =
    leb 1 (length name)
    && leb (length name) 64
    && all (λ x. is_alphanumeric x || x == b'_' || x == b'-') name

abbrev pub parsed_if : Bool → PermissionKind → Text → Option ParsedPermissionKey
parsed_if true kind name = some (record { kind = kind; name = name })
parsed_if false kind name = none

abbrev pub parse_module : Option Text → Option ParsedPermissionKey
parse_module none = none
parse_module (some name) = parsed_if (is_module_name name) user_data name

-- The `switch` on the prefix.
unfoldable pub parse_named : Text → Text → Option ParsedPermissionKey
parse_named prefix name =
    if same_text prefix (text "profile")
    then parsed_if (has profile_fields name) profile name
    else if same_text prefix (text "identity_claim")
    then parsed_if (has identity_claims name) identity_claim name
    else if same_text prefix (text "oidc")
    then parsed_if (has oidc_consent_scopes name) oidc name
    else if same_text prefix (text "service_operation")
    then parsed_if (is_operation_name name) service_operation name
    else if same_text prefix (text "user_data")
    then parse_module (after_prefix (text "module:") name)
    else none

-- A dot that is not there, or is the first unit, gives nothing.
abbrev pub parse_split : Option (Text × Text) → Option ParsedPermissionKey
parse_split none = none
parse_split (some ([], name)) = none
parse_split (some (c ∷ prefix, name)) = parse_named (c ∷ prefix) name

unfoldable pub parse_permission_key : Text → Option ParsedPermissionKey
parse_permission_key key =
    if same_text key identity_basic
    then some (record { kind = identity; name = text "basic" })
    else parse_split (split_dot key)

unfoldable pub is_within_caps : ParsedPermissionKey → ConsentCaps → Bool
is_within_caps parsed caps = elim parsed.kind [
  | identity ↦ true
  | profile ↦ has caps.profile_fields parsed.name
  | identity_claim ↦ has caps.identity_claims parsed.name
  | user_data ↦ has caps.user_data_modules parsed.name
  | oidc ↦ has caps.oidc_scopes parsed.name
  | service_operation ↦ has caps.service_operations parsed.name
]

unfoldable pub permission_keys_within_caps : ConsentCaps → List Text
permission_keys_within_caps caps =
    map (λ f. text "profile." ++ f) caps.profile_fields
    ++ map (λ c. text "identity_claim." ++ c) caps.identity_claims
    ++ map (λ m. text "user_data.module:" ++ m) caps.user_data_modules
    ++ map (λ s. text "oidc." ++ s) caps.oidc_scopes
    ++ map (λ o. text "service_operation." ++ o) caps.service_operations

unfoldable pub caps_from_oidc_scopes : List Text → ConsentCaps
caps_from_oidc_scopes scopes = record {
  profile_fields = [];
  identity_claims = [];
  user_data_modules = [];
  oidc_scopes = select (has oidc_consent_scopes) scopes;
  service_operations = [];
}
