-- ===== src/Consent/Keys/Vocabulary.antt =====
-- What the keys of server/src/consent/permission-keys.ts stand for: one key for each permission of the
-- vocabulary.
use cernere.Base.{
  ◌==◌, ==_iff, Bool, Bool-cases, Option-cases, true, false, Option, none, some, [], ◌∷◌, ◌++◌, ◌≡◌,
  refl, sym, ap, ◌↔◌, inl, inr, subst, String,
}
use cernere.Consent.Keys.{
  Text, text, same_text, same_text_iff, has, identity_basic, oidc_consent_scopes, profile_fields,
  identity_claims, PermissionKind, identity, profile, identity_claim, user_data, oidc,
  service_operation, ParsedPermissionKey, split_dot, after_prefix, is_operation_name,
  is_module_name, parse_named, parse_permission_key, parsed_if, parse_module, parse_split,
}

-- The key of a permission.
unfoldable pub key_of : ParsedPermissionKey → Text
key_of p = elim p.kind [
  | identity ↦ identity_basic
  | profile ↦ text "profile." ++ p.name
  | identity_claim ↦ text "identity_claim." ++ p.name
  | user_data ↦ text "user_data.module:" ++ p.name
  | oidc ↦ text "oidc." ++ p.name
  | service_operation ↦ text "service_operation." ++ p.name
]

-- The permissions that there are.
unfoldable pub in_vocabulary : ParsedPermissionKey → Bool
in_vocabulary p = elim p.kind [
  | identity ↦ same_text p.name (text "basic")
  | profile ↦ has profile_fields p.name
  | identity_claim ↦ has identity_claims p.name
  | user_data ↦ is_module_name p.name
  | oidc ↦ has oidc_consent_scopes p.name
  | service_operation ↦ is_operation_name p.name
]

printed-parses :
    (kind : PermissionKind) (name : Text)
    → in_vocabulary (record { kind = kind; name = name }) ≡ true
    → parse_permission_key (key_of (record { kind = kind; name = name }))
      ≡ some (record { kind = kind; name = name })
unfolding in_vocabulary parse_permission_key key_of same_text split_dot parse_named after_prefix
printed-parses identity name h =
    let same : name ≡ text "basic" = (same_text_iff name (text "basic")).0 h in rw same refl
printed-parses profile name h = rw h refl
printed-parses identity_claim name h = rw h refl
printed-parses user_data name h = rw h refl
printed-parses oidc name h = rw h refl
printed-parses service_operation name h = rw h refl

-- A text is what its parts say.
abbrev Joins : Text → Text × Text → Type 0
Joins k parts = k ≡ parts.0 ++ b'.' ∷ parts.1

some_value : {a b : Text × Text} → ◌≡◌ {A = Option (Text × Text)} (some a) (some b) → a ≡ b
some_value h = cc

split_dot-Joins : (k : Text) (parts : Text × Text) → split_dot k ≡ some parts → Joins k parts
unfolding split_dot
split_dot-Joins [] parts h = cc
split_dot-Joins (c ∷ rest) parts h = elim (Bool-cases (c == b'.')) [
  | inl e ↦
      subst (Joins (c ∷ rest)) (some_value (rw e at h)) (ap (λ x. x ∷ rest) ((==_iff c b'.').0 e))
  | inr e ↦ elim (Option-cases (split_dot rest)) [
    | inl f ↦ cc (rw (e, f) at h)
    | inr (later, f) ↦
        subst (Joins (c ∷ rest)) (some_value (rw (e, f) at h))
          (ap (λ xs. c ∷ xs) (split_dot-Joins rest later f))
  ]
]

-- What is parsed is in the vocabulary, and its key is the one that was parsed.
abbrev Means : Text → ParsedPermissionKey → Type 0
Means k p = (in_vocabulary p ≡ true) × (key_of p ≡ k)

after_prefix-joins : (p k rest : Text) → after_prefix p k ≡ some rest → p ++ rest ≡ k
unfolding after_prefix
after_prefix-joins [] k rest h = cc
after_prefix-joins (p ∷ ps) [] rest h = cc
after_prefix-joins (p ∷ ps) (c ∷ cs) rest h = elim (Bool-cases (p == c)) [
  | inl e ↦ cc ((==_iff p c).0 e, after_prefix-joins ps cs rest (rw e at h))
  | inr e ↦ cc (rw e at h)
]

parsed_value :
    {a b : ParsedPermissionKey} → ◌≡◌ {A = Option ParsedPermissionKey} (some a) (some b) → a ≡ b
parsed_value h = cc

parsed_if-Means :
    (b : Bool) (kind : PermissionKind) (name k : Text) (p : ParsedPermissionKey)
    → (b ≡ true → Means k (record { kind = kind; name = name }))
    → parsed_if b kind name ≡ some p
    → Means k p
parsed_if-Means true kind name k p m h = subst (Means k) (parsed_value h) (m refl)
parsed_if-Means false kind name k p m h = cc

parse_module-Means :
    (o : Option Text) (name : Text) (p : ParsedPermissionKey)
    → after_prefix (text "module:") name ≡ o
    → parse_module o ≡ some p
    → Means (text "user_data" ++ b'.' ∷ name) p
unfolding in_vocabulary key_of
parse_module-Means none name p e h = cc
parse_module-Means (some m) name p e h =
    parsed_if-Means (is_module_name m) user_data m _ p
      (λ v. (v, ap (λ xs. text "user_data." ++ xs) (after_prefix-joins (text "module:") name m e)))
      h

parse_named-Means :
    (prefix name : Text) (p : ParsedPermissionKey)
    → parse_named prefix name ≡ some p
    → Means (prefix ++ b'.' ∷ name) p
unfolding parse_named in_vocabulary key_of
parse_named-Means prefix name p h = elim (Bool-cases (same_text prefix (text "profile"))) [
  | inl e ↦ at_prefix "profile" e (parsed_if-Means _ profile name _ p (λ v. (v, refl)) (rw e at h))
  | inr e1 ↦ elim (Bool-cases (same_text prefix (text "identity_claim"))) [
    | inl e ↦
        at_prefix "identity_claim" e
          (parsed_if-Means _ identity_claim name _ p (λ v. (v, refl)) (rw (e1, e) at h))
    | inr e2 ↦ elim (Bool-cases (same_text prefix (text "oidc"))) [
      | inl e ↦
          at_prefix "oidc" e
            (parsed_if-Means _ oidc name _ p (λ v. (v, refl)) (rw (e1, e2, e) at h))
      | inr e3 ↦ elim (Bool-cases (same_text prefix (text "service_operation"))) [
        | inl e ↦ at_prefix "service_operation" e (
            parsed_if-Means _ service_operation name _ p (λ v. (v, refl)) (rw (e1, e2, e3, e) at h))
        | inr e4 ↦ elim (Bool-cases (same_text prefix (text "user_data"))) [
          | inl e ↦
              at_prefix "user_data" e
                (parse_module-Means _ name p refl (rw (e1, e2, e3, e4, e) at h))
          | inr e5 ↦ cc (rw (e1, e2, e3, e4, e5) at h)
        ]
      ]
    ]
  ]
]
  where
    at_prefix :
        (literal : String)
        → same_text prefix (text literal) ≡ true
        → Means (text literal ++ b'.' ∷ name) p
        → Means (prefix ++ b'.' ∷ name) p
    at_prefix literal e m =
        subst (λ x. Means (x ++ b'.' ∷ name) p) (sym ((same_text_iff prefix (text literal)).0 e)) m

parse_split-Means :
    (o : Option (Text × Text)) (k : Text) (p : ParsedPermissionKey)
    → split_dot k ≡ o
    → parse_split o ≡ some p
    → Means k p
parse_split-Means none k p e h = cc
parse_split-Means (some ([], name)) k p e h = cc
parse_split-Means (some (c ∷ prefix, name)) k p e h =
    subst (λ x. Means x p) (sym (split_dot-Joins k (c ∷ prefix, name) e))
      (parse_named-Means (c ∷ prefix) name p h)

parsed-Means : (k : Text) (p : ParsedPermissionKey) → parse_permission_key k ≡ some p → Means k p
unfolding parse_permission_key in_vocabulary key_of same_text
parsed-Means k p h = elim (Bool-cases (same_text k identity_basic)) [
  | inl e ↦
      subst (Means k) (parsed_value (rw e at h)) (refl, sym ((same_text_iff k identity_basic).0 e))
  | inr e ↦ parse_split-Means (split_dot k) k p refl (rw e at h)
]

-- A text parses to a permission exactly where the permission is of the vocabulary and the text is
-- its key.
pub parse_permission_key-key_of_iff :
    (k : Text) (p : ParsedPermissionKey)
    → (parse_permission_key k ≡ some p) ↔ ((in_vocabulary p ≡ true) × (key_of p ≡ k))
parse_permission_key-key_of_iff k p = (
  parsed-Means k p,
  λ m. subst (λ x. parse_permission_key x ≡ some p) m.1 (printed-parses p.kind p.name m.0),
)
