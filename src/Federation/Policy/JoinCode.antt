-- ===== src/Federation/Policy/JoinCode.antt =====
-- The constant-time comparison of `checkJoinCode` in server/src/federation/policy.ts.
use Prim.Native.Nat.{bit_xor, bit_or}
use cernere.Base.{
  ℕ, ◌+◌, ◌≤◌, ◌<◌, ◌≡◌, refl, ◌↔◌, ◌≢◌, inl, inr, Bool, true, ◌&&◌, ◌||◌, not, List, [], ◌∷◌,
  arith, ltb, length, ◌==◌, if◌then◌else◌, Bool-cases, all_below, all_below_sound, ap,
}
use cernere.Federation.Policy.{
  match, locked, is_digit, is_four_digits, diff_from, check_join_code, join_code_max_attempts,
}

-- Of two digits the difference is small, and zero just where they are one.
xor_good : ℕ → ℕ → Bool
xor_good x y =
    not (is_digit x && is_digit y)
    || (ltb (bit_xor x y) 16 && (if x == y then bit_xor x y == 0 else not (bit_xor x y == 0)))

or_good : ℕ → ℕ → Bool
or_good x y =
    ltb (bit_or x y) 16 && (if x == 0 && y == 0 then bit_or x y == 0 else not (bit_or x y == 0))

xor_table : all_below 58 (λ x. all_below 58 (xor_good x)) ≡ true
unfolding all_below xor_good
xor_table = refl

or_table : all_below 16 (λ x. all_below 16 (or_good x)) ≡ true
unfolding all_below or_good
or_table = refl

xor_digits :
    (x y : ℕ)
    → is_digit x ≡ true
    → is_digit y ≡ true
    → (bit_xor x y < 16) × ((bit_xor x y ≡ 0) ↔ (x ≡ y))
unfolding xor_good
xor_digits x y h k =
    let row = all_below_sound 58 (λ x. all_below 58 (xor_good x)) x xor_table (ground arith) in
    let cell = all_below_sound 58 (xor_good x) y row (ground arith) in ground arith

or_small :
    (x y : ℕ) → x < 16 → y < 16 → (bit_or x y < 16) × ((bit_or x y ≡ 0) ↔ ((x ≡ 0) × (y ≡ 0)))
unfolding or_good
or_small x y h k =
    let row = all_below_sound 16 (λ x. all_below 16 (or_good x)) x or_table h in
    let cell = all_below_sound 16 (or_good x) y row k in ground arith

-- One round of the loop.
round :
    (d x y : ℕ)
    → d < 16
    → is_digit x ≡ true
    → is_digit y ≡ true
    → (bit_or d (bit_xor x y) < 16) × ((bit_or d (bit_xor x y) ≡ 0) ↔ ((d ≡ 0) × (x ≡ y)))
round d x y h i j =
    let (small, same) = xor_digits x y i j in
    let (fits, both) = or_small d (bit_xor x y) h small in
    (fits, ((λ e. ((both.0 e).0, same.0 (both.0 e).1)), (λ e. both.1 (e.0, same.1 e.1))))

abbrev Digits : ℕ → ℕ → ℕ → ℕ → Type 0
Digits a b c d =
    (is_digit a ≡ true) × (is_digit b ≡ true) × (is_digit c ≡ true) × (is_digit d ≡ true)

diff_from_zero :
    (d : ℕ) (a b c e a' b' c' e' : ℕ)
    → d < 16
    → Digits a b c e
    → Digits a' b' c' e'
    → (diff_from d (a ∷ b ∷ c ∷ e ∷ []) (a' ∷ b' ∷ c' ∷ e' ∷ []) ≡ 0)
      ↔ ((d ≡ 0) × (a ≡ a') × (b ≡ b') × (c ≡ c') × (e ≡ e'))
unfolding diff_from
diff_from_zero d a b c e a' b' c' e' h (ia, ib, ic, ie) (ja, jb, jc, je) =
    let r1 = round d a a' h ia ja in
    let d1 = bit_or d (bit_xor a a') in
    let r2 = round d1 b b' r1.0 ib jb in
    let d2 = bit_or d1 (bit_xor b b') in
    let r3 = round d2 c c' r2.0 ic jc in
    let r4 = round (bit_or d2 (bit_xor c c')) e e' r3.0 ie je in
    (
      (λ z.
          let (z3, pe) = r4.1.0 z in
          let (z2, pc) = r3.1.0 z3 in
          let (z1, pb) = r2.1.0 z2 in let (z0, pa) = r1.1.0 z1 in (z0, pa, pb, pc, pe)),
      (λ p. let (z0, pa, pb, pc, pe) = p in r4.1.1 (r3.1.1 (r2.1.1 (r1.1.1 (z0, pa), pb), pc), pe)),
    )

four_places :
    (xs : List ℕ)
    → is_four_digits xs ≡ true
    → (a : ℕ) × (b : ℕ) × (c : ℕ) × (d : ℕ) × (xs ≡ a ∷ b ∷ c ∷ d ∷ []) × Digits a b c d
unfolding is_four_digits
four_places (a ∷ b ∷ c ∷ d ∷ []) h = (a, b, c, d, refl, ground arith)
four_places _ h = cc

-- The comparison in constant time says what `===` would.
diff_from-eq-zero_iff :
    (xs ys : List ℕ)
    → is_four_digits xs ≡ true
    → is_four_digits ys ≡ true
    → (diff_from (bit_xor (length xs) (length ys)) xs ys ≡ 0) ↔ (xs ≡ ys)
diff_from-eq-zero_iff xs ys h k =
    let (a, b, c, e, p, i) = four_places xs h in
    let (a', b', c', e', q, j) = four_places ys k in
    let (to, from) = diff_from_zero 0 a b c e a' b' c' e' (omega arith) i j in
    rw (p, q)
      (
        (λ z. let (_, pa, pb, pc, pe) = to z in rw (pa, pb, pc, pe)),
        (λ s. from (refl, cc, cc, cc, cc)),
      )

module _ (expected actual : List ℕ) (previous : ℕ) where
  -- A code matches exactly where the expected one is four digits and the given one is the same,
  -- though the comparison runs over all places.
  pub check_join_code-match_iff :
      (check_join_code expected actual previous ≡ match)
      ↔ ((is_four_digits expected ≡ true) × (expected ≡ actual))
  unfolding check_join_code
  check_join_code-match_iff = elim (Bool-cases (is_four_digits expected)) [
    | inl e ↦ elim (Bool-cases (is_four_digits actual)) [
      | inl a ↦ let same = diff_from-eq-zero_iff expected actual e a in ground arith
      | inr a ↦
          let differ : expected ≡ actual → ⊥ = λ p. cc (ap is_four_digits p) in
          (λ z. ground arith, λ p. absurd (differ p.1))
    ]
    | inr e ↦ ground arith
  ]

  -- A code that does not match locks the request exactly from the third attempt on.
  pub check_join_code-locked_iff :
      check_join_code expected actual previous ≢ match
      → (check_join_code expected actual previous ≡ locked)
        ↔ (join_code_max_attempts ≤ previous + 1)
  unfolding check_join_code
  check_join_code-locked_iff h = ground arith
