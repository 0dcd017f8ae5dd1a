-- ===== src/Base/Lists.antt =====
-- Lists measured by native numbers, and membership that can be taken apart into data.
use Prim.Native.Nat.{ℕ, suc, ◌+◌}
use mathlib.Core.Path.{◌≡◌, refl, ap}
use mathlib.Core.Logic.{◌⊎◌, inl, inr}
use mathlib.Core.List.{List, [], ◌∷◌, ◌++◌, map}
use native.Mathlib.Omega.{arith}

module _ {ℓ} {A : Type ℓ} where
  abbrev pub length : List A → ℕ
  length [] = 0
  length (x ∷ xs) = suc (length xs)

  pub length-append : (xs ys : List A) → length (xs ++ ys) ≡ length xs + length ys
  length-append [] ys = omega arith
  length-append (x ∷ xs) ys = omega (arith, length-append xs ys)

pub data In {A : Type 0} (a : A) : List A → Type 0 where
  here : {x : A} {xs : List A} → x ≡ a → In a (x ∷ xs)
  there : {x : A} {xs : List A} → In a xs → In a (x ∷ xs)

pub In-nil : {A : Type 0} {a : A} → In a [] → ⊥
In-nil i = elim i [ ]

pub In-cons : {A : Type 0} {a x : A} {xs : List A} → In a (x ∷ xs) → (x ≡ a) ⊎ In a xs
In-cons (here e) = inl e
In-cons (there i) = inr i

module _ {A : Type 0} where
  pub In-append : {a : A} (xs : List A) {ys : List A} → In a (xs ++ ys) → In a xs ⊎ In a ys
  In-append [] h = inr h
  In-append (x ∷ xs) h = elim (In-cons h) [
    | inl e ↦ inl (here e)
    | inr i ↦ elim (In-append xs i) [ inl l ↦ inl (there l) | inr r ↦ inr r ]
  ]

  pub In-append_left : {a : A} {xs : List A} (ys : List A) → In a xs → In a (xs ++ ys)
  In-append_left ys (here e) = here e
  In-append_left ys (there h) = there (In-append_left ys h)

  pub In-append_right : {a : A} (xs : List A) {ys : List A} → In a ys → In a (xs ++ ys)
  In-append_right [] h = h
  In-append_right (x ∷ xs) h = there (In-append_right xs h)

pub In-single : {A : Type 0} {a x : A} → In a (x ∷ []) → x ≡ a
In-single i = elim (In-cons i) [ inl e ↦ e | inr j ↦ absurd (In-nil j) ]

pub In-pair : {A : Type 0} {a x y : A} → In a (x ∷ y ∷ []) → (x ≡ a) ⊎ (y ≡ a)
In-pair i = elim (In-cons i) [ inl e ↦ inl e | inr j ↦ inr (In-single j) ]

module _ {A B : Type 0} (f : A → B) where
  pub map-In : {a : A} {xs : List A} → In a xs → In (f a) (map f xs)
  map-In (here e) = here (ap f e)
  map-In (there i) = there (map-In i)

  pub In-map : {b : B} (xs : List A) → In b (map f xs) → (a : A) × In a xs × (f a ≡ b)
  In-map [] i = absurd (In-nil i)
  In-map (x ∷ xs) i = elim (In-cons i) [
    | inl e ↦ (x, here refl, e)
    | inr j ↦ let (a, k, e) = In-map xs j in (a, there k, e)
  ]
