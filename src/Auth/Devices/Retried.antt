-- ===== src/Auth/Devices/Retried.antt =====
-- That a retry of a rotation in server/src/auth/device-rotation.ts gets the answer that was lost.
use cernere.Base.{
  ℕ, ◌+◌, ◌<◌, ◌≤◌, ◌==◌, ==_iff, ==_self, ltb, leb, opt_eq, str_eq, is_some, ◌&&◌, Bool-cases,
  true, false, some, String, ◌≡◌, ◌≢◌, refl, sym, ap, ◌∙◌, inl, inr, arith, subst,
}
use text.Mathlib.TextPositions.{eq_refl}
use cernere.Auth.Tables.{DeviceCredential, OpaqueText}
use cernere.Auth.Devices.{
  DeviceCredentialState, RotationKeys, RotationInput, Rotation, RotationDecision, keep, replay,
  rotates, refuses, rotation_conflict, passkey_required, decide_rotation, rotate, RotationColumns,
  state_from, written, rotation_grace_ms, just_rotated, within_grace, same_rotation,
}

-- How a row answers after a rotation: the same call again, the old secret under another rotation
-- or too late, and the new secret.
pub record IsRetried (row : DeviceCredential) (columns : RotationColumns) (keys : RotationKeys)
    (input : RotationInput) (next : Rotation) : Type 0 where
  pub same_call :
      (t : ℕ)
      → t < input.now + rotation_grace_ms
      → t < row.expires_at
      → decide_rotation
          (state_from row (written input (rotates next) columns))
          (record input { now = t })
          keys
        ≡ replay next.secret
  pub other_call :
      (t : ℕ) (other : String)
      → t < input.now + rotation_grace_ms
      → t < row.expires_at
      → str_eq input.rotation_id other ≡ false
      → decide_rotation
          (state_from row (written input (rotates next) columns))
          (record input { now = t; rotation_id = other })
          keys
        ≡ refuses rotation_conflict
  pub late_call :
      (t : ℕ) (other : String)
      → input.now + rotation_grace_ms ≤ t
      → t < row.expires_at
      → decide_rotation
          (state_from row (written input (rotates next) columns))
          (record input { now = t; rotation_id = other })
          keys
        ≡ refuses passkey_required
  pub new_secret :
      (t : ℕ) (other : String)
      → t < input.now + rotation_grace_ms
      → t < row.expires_at
      → decide_rotation
          (state_from row (written input (rotates next) columns))
          (record { presented_secret = next.secret; rotation_id = other; now = t })
          keys
        ≡ keep next.secret

-- What was decided when a row rotates.
record Rotated (state : DeviceCredentialState) (input : RotationInput) (keys : RotationKeys)
    (next : Rotation) : Type 0 where
  pub live : is_some state.revoked_at ≡ false
  pub current : keys.compute_secret_hash state.id input.presented_secret ≡ state.current_secret_hash
  pub is_next : rotate state input keys ≡ rotates next

decide_rotation-Rotated :
    (state : DeviceCredentialState) (input : RotationInput) (keys : RotationKeys) (next : Rotation)
    → decide_rotation state input keys ≡ rotates next
    → Rotated state input keys next
unfolding decide_rotation
decide_rotation-Rotated state input keys next = elim (Bool-cases (is_some state.revoked_at)) [
  | inl r ↦ rw r (λ h. cc)
  | inr r ↦ elim (Bool-cases (leb state.expires_at input.now)) [
    | inl e ↦ rw (r, e) (λ h. cc)
    | inr e ↦
        elim (Bool-cases
          (keys.compute_secret_hash state.id input.presented_secret == state.current_secret_hash)) [
            | inl c ↦ elim (Bool-cases (just_rotated state.last_rotated_at input.now)) [
              | inl j ↦ rw (r, e, c, j) (λ h. cc)
              | inr j ↦
                  rw (r, e, c, j)
                    (λ h. record { live = r; current = (==_iff _ _).0 c; is_next = h })
            ]
            | inr c ↦
                elim (Bool-cases (
                  within_grace state.previous_valid_until input.now
                  && opt_eq state.previous_secret_hash
                      (some (keys.compute_secret_hash state.id input.presented_secret)))) [
                        | inl g ↦
                            elim (Bool-cases
                              (same_rotation state.last_rotation_id input.rotation_id)) [
                                | inl s ↦ rw (r, e, c, g, s) (λ h. cc)
                                | inr s ↦ rw (r, e, c, g, s) (λ h. cc)
                              ]
                        | inr g ↦ rw (r, e, c, g) (λ h. cc)
                      ]
          ]
  ]
]

module _ (row : DeviceCredential) (columns : RotationColumns) (keys : RotationKeys)
    (input : RotationInput) where
  -- The rotation of the row.
  abbrev next_of : Rotation
  next_of =
      let secret = keys.derive_next_secret row.id (columns.generation + 1) input.rotation_id in
      record {
        secret = secret;
        next_generation = columns.generation + 1;
        next_secret_hash = keys.compute_secret_hash row.id secret;
        previous_valid_until = input.now + rotation_grace_ms;
      }

  rotated_value :
      {next : Rotation}
      → ◌≡◌ {A = RotationDecision} (rotates next_of) (rotates next)
      → next_of ≡ next
  rotated_value h = cc

  other_hash : (old new : OpaqueText) → old ≢ new → (old == new) ≡ false
  other_hash old new n = elim (Bool-cases (old == new)) [
    | inl e ↦ absurd (n ((==_iff old new).0 e))
    | inr e ↦ e
  ]

  module _ (live : is_some row.revoked_at ≡ false)
      (current : keys.compute_secret_hash row.id input.presented_secret
        ≡ columns.current_secret_hash)
      (named : str_eq input.rotation_id "" ≡ false)
      (differ : columns.current_secret_hash ≢ next_of.next_secret_hash) where
    next-IsRetried : IsRetried row columns keys input next_of
    unfolding decide_rotation
    next-IsRetried = record {
      same_call = λ t l e.
          let alive : leb row.expires_at t ≡ false = ground (arith, e) in
          let grace : ltb t (input.now + rotation_grace_ms) ≡ true = ground (arith, l) in
          rw
            (
              live,
              alive,
              current,
              other_hash _ _ differ,
              grace,
              ==_self columns.current_secret_hash,
              named,
              eq_refl input.rotation_id,
            )
            refl;
      other_call = λ t other l e d.
          let alive : leb row.expires_at t ≡ false = ground (arith, e) in
          let grace : ltb t (input.now + rotation_grace_ms) ≡ true = ground (arith, l) in
          rw
            (
              live,
              alive,
              current,
              other_hash _ _ differ,
              grace,
              ==_self columns.current_secret_hash,
              named,
              d,
            )
            refl;
      late_call = λ t other l e.
          let alive : leb row.expires_at t ≡ false = ground (arith, e) in
          let late : ltb t (input.now + rotation_grace_ms) ≡ false = ground (arith, l) in
          rw (live, alive, current, other_hash _ _ differ, late) refl;
      new_secret = λ t other l e.
          let alive : leb row.expires_at t ≡ false = ground (arith, e) in
          let soon : just_rotated (some input.now) t ≡ true = ground (arith, l) in
          rw (live, alive, ==_self next_of.next_secret_hash, soon) refl;
    }

-- After a call has rotated a row, under an identifier that is not empty and if the digest of the new
-- secret is another one, and before the row expires: within 30 seconds the same call is answered
-- with the same new secret, the old secret under another identifier with a conflict, and the new
-- secret with itself; and later the old secret is refused.
pub decide_rotation-IsRetried :
    (row : DeviceCredential) (columns : RotationColumns) (keys : RotationKeys)
    (input : RotationInput) (next : Rotation)
    → decide_rotation (state_from row columns) input keys ≡ rotates next
    → str_eq input.rotation_id "" ≡ false
    → keys.compute_secret_hash row.id next.secret ≢ columns.current_secret_hash
    → IsRetried row columns keys input next
unfolding rotate
decide_rotation-IsRetried row columns keys input next h named differ =
    let r = decide_rotation-Rotated (state_from row columns) input keys next h in
    let e = rotated_value row columns keys input r.is_next in
    subst (IsRetried row columns keys input) e (
      next-IsRetried row columns keys input r.live r.current named (λ x.
        differ (ap (λ (n : Rotation). keys.compute_secret_hash row.id n.secret) (sym e) ∙ sym x)))
