-- ===== src/Base/Tables.antt =====
-- A database table as the list of its rows: the queries and statements that the program sends.
-- `SELECT … WHERE p` is `select`, with `LIMIT 1` it is `find`; `UPDATE … SET f WHERE p` is `update`
-- and `DELETE … WHERE p` is `delete`. `INSERT` appends.
use Prim.Native.Nat.{ℕ, suc, ◌+◌, ◌≤◌, ◌<◌}
use mathlib.Core.Path.{◌≡◌, refl, ap}
use mathlib.Core.Logic.{◌⊎◌, inl, inr}
use mathlib.Core.Bool.{Bool, true, false, ◌&&◌, ◌||◌}
use mathlib.Core.Option
use mathlib.Core.Option.{Option, none, some}
use mathlib.Core.List.{List, [], ◌∷◌, ◌++◌}
use native.Mathlib.Omega.{arith}
use cernere.Base.Tests.{if◌then◌else◌, Bool-cases}
use cernere.Base.Lists.{length, In, here, there, In-nil, In-cons}

module _ {ℓ} {A : Type ℓ} where
  unfoldable pub find : (A → Bool) → List A → Option A
  find p [] = none
  find p (x ∷ xs) = if p x then some x else find p xs

  unfoldable pub any : (A → Bool) → List A → Bool
  any p [] = false
  any p (x ∷ xs) = p x || any p xs

  unfoldable pub select : (A → Bool) → List A → List A
  select p [] = []
  select p (x ∷ xs) = if p x then x ∷ select p xs else select p xs

  -- What an `UPDATE` makes of one row.
  abbrev pub updated : (A → Bool) → (A → A) → A → A
  updated p f x = if p x then f x else x

  unfoldable pub update : (A → Bool) → (A → A) → List A → List A
  update p f [] = []
  update p f (x ∷ xs) = updated p f x ∷ update p f xs

  unfoldable pub delete : (A → Bool) → List A → List A
  delete p [] = []
  delete p (x ∷ xs) = if p x then delete p xs else x ∷ delete p xs

  unfoldable pub count : (A → Bool) → List A → ℕ
  count p [] = 0
  count p (x ∷ xs) = if p x then suc (count p xs) else count p xs

  pub length-select : (p : A → Bool) (xs : List A) → length (select p xs) ≡ count p xs
  unfolding select count
  length-select p [] = refl
  length-select p (x ∷ xs) = ground (arith, length-select p xs)

  pub count-append : (p : A → Bool) (xs ys : List A) → count p (xs ++ ys) ≡ count p xs + count p ys
  unfolding count
  count-append p [] ys = omega arith
  count-append p (x ∷ xs) ys = ground (arith, count-append p xs ys)

  -- An update that leaves the counted test alone leaves the count alone.
  pub count-update_same :
      (p q : A → Bool) (f : A → A)
      → ((x : A) → p (f x) ≡ p x)
      → (xs : List A) → count p (update q f xs) ≡ count p xs
  unfolding count update
  count-update_same p q f h [] = refl
  count-update_same p q f h (x ∷ xs) = ground (arith, h x, count-update_same p q f h xs)

  pub count-delete_le : (p q : A → Bool) (xs : List A) → count p (delete q xs) ≤ count p xs
  unfolding count delete
  count-delete_le p q [] = omega arith
  count-delete_le p q (x ∷ xs) = ground (arith, count-delete_le p q xs)

  -- What is deleted and what stays add up.
  pub count-delete :
      (p q : A → Bool) (xs : List A)
      → count p (delete q xs) + count (λ x. p x && q x) xs ≡ count p xs
  unfolding count delete
  count-delete p q [] = omega arith
  count-delete p q (x ∷ xs) = ground (arith, count-delete p q xs)

  pub count-delete_self : (p : A → Bool) (xs : List A) → count p (delete p xs) ≡ 0
  unfolding count delete
  count-delete_self p [] = refl
  count-delete_self p (x ∷ xs) = ground (arith, count-delete_self p xs)

  pub count_mono :
      (p q : A → Bool)
      → ((x : A) → p x ≡ true → q x ≡ true)
      → (xs : List A) → count p xs ≤ count q xs
  unfolding count
  count_mono p q h [] = omega arith
  count_mono p q h (x ∷ xs) = ground (arith, h x, count_mono p q h xs)

  pub count_zero : (p : A → Bool) → ((x : A) → p x ≡ false) → (xs : List A) → count p xs ≡ 0
  unfolding count
  count_zero p h [] = refl
  count_zero p h (x ∷ xs) = ground (arith, h x, count_zero p h xs)

  pub any-count : (p : A → Bool) (xs : List A) → any p xs ≡ false → count p xs ≡ 0
  unfolding count any
  any-count p [] h = refl
  any-count p (x ∷ xs) h = ground (arith, any-count p xs)

  pub find-count : (p : A → Bool) (xs : List A) → find p xs ≡ none → count p xs ≡ 0
  unfolding count find
  find-count p [] h = refl
  find-count p (x ∷ xs) h = ground (arith, find-count p xs)

  pub find-test : (p : A → Bool) (xs : List A) {a : A} → find p xs ≡ some a → p a ≡ true
  unfolding find
  find-test p [] h = cc
  find-test p (x ∷ xs) {a} h = elim (Bool-cases (p x)) [
    | inl e ↦ ground arith
    | inr e ↦ find-test p xs (ground arith)
  ]

module _ {A : Type 0} where
  pub find-In : (p : A → Bool) (xs : List A) {a : A} → find p xs ≡ some a → In a xs
  unfolding find
  find-In p [] h = cc
  find-In p (x ∷ xs) {a} h = elim (Bool-cases (p x)) [
    | inl e ↦ here (ground arith)
    | inr e ↦ there (find-In p xs (ground arith))
  ]

  pub find-none-In : (p : A → Bool) (xs : List A) {a : A} → find p xs ≡ none → In a xs → p a ≡ false
  unfolding find
  find-none-In p [] h i = absurd (In-nil i)
  find-none-In p (x ∷ xs) h (here e) = ground arith
  find-none-In p (x ∷ xs) h (there i) = find-none-In p xs (ground arith) i

  pub any-false-In : (p : A → Bool) (xs : List A) {a : A} → any p xs ≡ false → In a xs → p a ≡ false
  unfolding any
  any-false-In p [] h i = absurd (In-nil i)
  any-false-In p (x ∷ xs) h (here e) = ground arith
  any-false-In p (x ∷ xs) h (there i) = any-false-In p xs (ground arith) i

  pub any-In : (p : A → Bool) (xs : List A) → any p xs ≡ true → (a : A) × In a xs × (p a ≡ true)
  unfolding any
  any-In p [] h = cc
  any-In p (x ∷ xs) h = elim (Bool-cases (p x)) [
    | inl e ↦ (x, here refl, e)
    | inr e ↦ let (a, i, t) = any-In p xs (ground arith) in (a, there i, t)
  ]

  pub In-any : (p : A → Bool) (xs : List A) {a : A} → In a xs → p a ≡ true → any p xs ≡ true
  unfolding any
  In-any p [] i h = absurd (In-nil i)
  In-any p (x ∷ xs) (here e) h = ground arith
  In-any p (x ∷ xs) (there i) h = ground (arith, In-any p xs i h)

  pub count-pos : (p : A → Bool) (xs : List A) {a : A} → In a xs → p a ≡ true → 0 < count p xs
  unfolding count
  count-pos p [] i h = absurd (In-nil i)
  count-pos p (x ∷ xs) (here e) h = ground arith
  count-pos p (x ∷ xs) (there i) h = ground (arith, count-pos p xs i h)

  pub count-In : (p : A → Bool) (xs : List A) → 0 < count p xs → (a : A) × In a xs × (p a ≡ true)
  unfolding count
  count-In p [] h = absurd (omega arith)
  count-In p (x ∷ xs) h = elim (Bool-cases (p x)) [
    | inl e ↦ (x, here refl, e)
    | inr e ↦ let (a, i, t) = count-In p xs (ground arith) in (a, there i, t)
  ]

  -- Where at most one row passes a test, two that pass are one.
  pub count_unique :
      (p : A → Bool) (xs : List A) {a b : A}
      → count p xs ≤ 1
      → In a xs
      → In b xs
      → p a ≡ true
      → p b ≡ true
      → a ≡ b
  unfolding count
  count_unique p [] c i j h k = absurd (In-nil i)
  count_unique p (x ∷ xs) c (here e) (here f) h k = cc
  count_unique p (x ∷ xs) c (here e) (there j) h k = absurd (ground (arith, count-pos p xs j k))
  count_unique p (x ∷ xs) c (there i) (here f) h k = absurd (ground (arith, count-pos p xs i h))
  count_unique p (x ∷ xs) c (there i) (there j) h k = count_unique p xs (ground arith) i j h k

  pub In-update :
      (p : A → Bool) (f : A → A) (xs : List A) {b : A}
      → In b (update p f xs)
      → (a : A) × In a xs × (b ≡ updated p f a)
  unfolding update
  In-update p f [] i = absurd (In-nil i)
  In-update p f (x ∷ xs) (here e) = (x, here refl, cc)
  In-update p f (x ∷ xs) (there i) = let (a, j, e) = In-update p f xs i in (a, there j, e)

  pub update-In :
      (p : A → Bool) (f : A → A) (xs : List A) {a : A}
      → In a xs
      → In (updated p f a) (update p f xs)
  unfolding update
  update-In p f [] i = absurd (In-nil i)
  update-In p f (x ∷ xs) (here e) = here (ap (updated p f) e)
  update-In p f (x ∷ xs) (there i) = there (update-In p f xs i)

  kept :
      {b : Bool} (p : A → Bool) {x a : A} {xs ys : List A}
      → p x ≡ b
      → (In a ys → In a xs × (p a ≡ b))
      → (x ≡ a) ⊎ In a ys
      → In a (x ∷ xs) × (p a ≡ b)
  kept p e f (inl q) = (here q, ground arith)
  kept p e f (inr j) = let (k, l) = f j in (there k, l)

  pub In-delete :
      (p : A → Bool) (xs : List A) {a : A} → In a (delete p xs) → In a xs × (p a ≡ false)
  unfolding delete
  In-delete p [] i = absurd (In-nil i)
  In-delete p (x ∷ xs) {a} i = elim (Bool-cases (p x)) [
    | inl e ↦ let (j, k) = In-delete p xs (rw (e, delete) at i) in (there j, k)
    | inr e ↦ kept p e (λ j. In-delete p xs j) (In-cons (rw (e, delete) at i))
  ]

  pub delete-In : (p : A → Bool) (xs : List A) {a : A} → In a xs → p a ≡ false → In a (delete p xs)
  unfolding delete
  delete-In p [] i h = absurd (In-nil i)
  delete-In p (x ∷ xs) (here e) h = rw (ap p e, h) (here e)
  delete-In p (x ∷ xs) (there i) h = elim (Bool-cases (p x)) [
    | inl e ↦ rw (e, delete) (delete-In p xs i h)
    | inr e ↦ rw (e, delete) (there (delete-In p xs i h))
  ]

  pub In-select : (p : A → Bool) (xs : List A) {a : A} → In a (select p xs) → In a xs × (p a ≡ true)
  unfolding select
  In-select p [] i = absurd (In-nil i)
  In-select p (x ∷ xs) {a} i = elim (Bool-cases (p x)) [
    | inl e ↦ kept p e (λ j. In-select p xs j) (In-cons (rw (e, select) at i))
    | inr e ↦ let (j, k) = In-select p xs (rw (e, select) at i) in (there j, k)
  ]

  pub select-In : (p : A → Bool) (xs : List A) {a : A} → In a xs → p a ≡ true → In a (select p xs)
  unfolding select
  select-In p [] i h = absurd (In-nil i)
  select-In p (x ∷ xs) (here e) h = rw (ap p e, h) (here e)
  select-In p (x ∷ xs) (there i) h = elim (Bool-cases (p x)) [
    | inl e ↦ rw (e, select) (there (select-In p xs i h))
    | inr e ↦ rw (e, select) (select-In p xs i h)
  ]

  -- After `UPDATE … SET f WHERE p`, with an `f` that ends `p`, no row meets `p`.
  pub any-update :
      (p : A → Bool) (f : A → A)
      → ((x : A) → p (f x) ≡ false)
      → (xs : List A) → any p (update p f xs) ≡ false
  unfolding any update
  any-update p f h [] = refl
  any-update p f h (x ∷ xs) = elim (Bool-cases (p x)) [
    | inl e ↦ rw (e, h x) (any-update p f h xs)
    | inr e ↦ rw (e, e) (any-update p f h xs)
  ]

  pub any-delete : (p : A → Bool) (xs : List A) → any p (delete p xs) ≡ false
  unfolding any delete
  any-delete p [] = refl
  any-delete p (x ∷ xs) = elim (Bool-cases (p x)) [
    | inl e ↦ rw e (any-delete p xs)
    | inr e ↦ rw (e, e) (any-delete p xs)
  ]

  -- A column that an update does not write is as before.
  pub updated-keeps :
      {B : Type 0} (g : A → B) (p : A → Bool) (f : A → A)
      → ((x : A) → g (f x) ≡ g x)
      → (x : A) → g (updated p f x) ≡ g x
  updated-keeps g p f h x = elim (Bool-cases (p x)) [ inl e ↦ rw e (h x) | inr e ↦ rw e refl ]

  -- An update that keeps what `q` tests finds the updated row.
  pub find-update :
      (q p : A → Bool) (f : A → A)
      → ((x : A) → q (f x) ≡ q x)
      → (xs : List A) {a : A} → find q xs ≡ some a
      → find q (update p f xs) ≡ some (updated p f a)
  unfolding find update
  find-update q p f h [] k = cc
  find-update q p f h (x ∷ xs) k = elim (Bool-cases (q x)) [
    | inl t ↦ rw (updated-keeps q p f h x, t) (ap (Option.map (updated p f)) (rw t at k))
    | inr t ↦ rw (updated-keeps q p f h x, t) (find-update q p f h xs (rw t at k))
  ]

  -- An update that brings no row to meet `p` leaves at most as many that do.
  pub count-update_le :
      (p q : A → Bool) (f : A → A)
      → ((x : A) → p (f x) ≡ true → p x ≡ true)
      → (xs : List A) → count p (update q f xs) ≤ count p xs
  unfolding count update
  count-update_le p q f h [] = omega arith
  count-update_le p q f h (x ∷ xs) = ground (arith, h x, count-update_le p q f h xs)
