-- ===== src/Federation/Tables/Leave.antt =====
-- Accounts that leave a federation, and a federation that closes, keep the tables consistent.
use cernere.Base.{
  ◌≤◌, ◌≡◌, sym, ◌∙◌, ◌≢◌, inl, inr, ◌==◌, ◌&&◌, ==_iff, ==_self, Bool, Bool-cases, List, ap, arith,
  Uuid, In, count, delete, count-delete_le, count-delete, count-In, count_unique, count_zero,
  In-delete, delete-In,
}
use cernere.Federation.Tables.{
  AccountFederation, AccountFederationMember, IsConsistent, member_count,
}

-- An update of one federation that keeps its identifier and its number, and leaves the primary

module _ (fs : List AccountFederation) (ms : List AccountFederationMember)
    (v : IsConsistent fs ms) where
  -- One account of a federation goes, that is not its primary account and leaves two behind.
  module _ (x : AccountFederationMember) (row : In x ms)
      (not_primary : (f : AccountFederation)
        → In f fs
        → f.id ≡ x.federation_id
        → f.primary_user_id ≢ x.user_id)
      (left : 2 ≤ member_count x.federation_id (delete (λ m. m.user_id == x.user_id) ms)) where
    abbrev gone : AccountFederationMember → Bool
    gone m = m.user_id == x.user_id

    is_x : {m : AccountFederationMember} → In m ms → m.user_id ≡ x.user_id → m ≡ x
    is_x {m} i e =
        count_unique gone ms (v.one_federation x.user_id) i row ((==_iff m.user_id x.user_id).1 e)
          (==_self x.user_id)

    other_count :
        (i : Uuid) → i ≢ x.federation_id → count (λ m. m.federation_id == i && gone m) ms ≡ 0
    other_count i h = elim (Bool-cases (count (λ m. m.federation_id == i && gone m) ms == 0)) [
      | inl e ↦ ground arith
      | inr e ↦
          let (m, j, t) = count-In (λ m. m.federation_id == i && gone m) ms (ground arith) in
          let same : m.user_id ≡ x.user_id = ground arith in
          let here_is : m.federation_id ≡ i = ground arith in
          absurd
            (h (sym here_is ∙ ap (λ (m : AccountFederationMember). m.federation_id) (is_x j same)))
    ]

    pub remove-IsConsistent : IsConsistent fs (delete (λ m. m.user_id == x.user_id) ms)
    remove-IsConsistent = record {
      one_federation =
          λ u. omega (arith, v.one_federation u, count-delete_le (λ m. m.user_id == u) gone ms);
      one_row = v.one_row;
      one_subject = v.one_subject;
      has_row = λ m k. v.has_row m (In-delete gone ms k).0;
      shared = λ f k. elim (Bool-cases (f.id == x.federation_id)) [
        | inl e ↦ rw ((==_iff f.id x.federation_id).0 e) left
        | inr e ↦ omega (
          arith,
          v.shared f k,
          count-delete (λ m. m.federation_id == f.id) gone ms,
          other_count f.id (λ p. ground arith),
        )
      ];
      bounded =
          λ i. omega (arith, v.bounded i, count-delete_le (λ m. m.federation_id == i) gone ms);
      primary = λ f k.
          let (m, i, e, p) = v.primary f k in
          elim (Bool-cases (gone m)) [
            | inl t ↦
                let same : m.user_id ≡ x.user_id = ground arith in
                let q = is_x i same in
                absurd (
                  not_primary f k (sym e ∙ ap (λ (m : AccountFederationMember). m.federation_id) q)
                    (sym p ∙ same))
            | inr t ↦ (m, delete-In gone ms i t, e, p)
          ];
      own_subject = λ f m k l e. v.own_subject f m k (In-delete gone ms l).0 e;
    }

  -- A federation goes, with all its accounts.
  module _ (i : Uuid) where
    abbrev in_it : AccountFederationMember → Bool
    in_it m = m.federation_id == i

    pub close-IsConsistent :
        IsConsistent (delete (λ f. f.id == i) fs) (delete (λ m. m.federation_id == i) ms)
    close-IsConsistent = record {
      one_federation =
          λ u. omega (arith, v.one_federation u, count-delete_le (λ m. m.user_id == u) in_it ms);
      one_row =
          λ j. omega (arith, v.one_row j, count-delete_le (λ f. f.id == j) (λ f. f.id == i) fs);
      one_subject = λ u.
          omega
            (arith, v.one_subject u, count-delete_le (λ f. f.subject_id == u) (λ f. f.id == i) fs);
      has_row = λ m k.
          let (j, t) = In-delete in_it ms k in
          let (f, l, e) = v.has_row m j in (f, delete-In (λ f. f.id == i) fs l (rw e t), e);
      shared = λ f k.
          let (j, t) = In-delete (λ f. f.id == i) fs k in
          omega (
            arith,
            v.shared f j,
            count-delete (λ m. m.federation_id == f.id) in_it ms,
            count_zero (λ m. m.federation_id == f.id && in_it m) (λ m. ground arith) ms,
          );
      bounded =
          λ j. omega (arith, v.bounded j, count-delete_le (λ m. m.federation_id == j) in_it ms);
      primary = λ f k.
          let (j, t) = In-delete (λ f. f.id == i) fs k in
          let (m, l, e, p) = v.primary f j in (m, delete-In in_it ms l (rw e t), e, p);
      own_subject = λ f m k l e.
          v.own_subject f m (In-delete (λ f. f.id == i) fs k).0 (In-delete in_it ms l).0 e;
    }
