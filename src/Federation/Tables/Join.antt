-- ===== src/Federation/Tables/Join.antt =====
-- Accounts that enter a federation keep the tables consistent.
use cernere.Base.{
  ◌+◌, ◌≤◌, ◌≡◌, refl, sym, ◌∙◌, ◌≢◌, ◌⊎◌, inl, inr, ◌==◌, ==_iff, false, Bool-cases, List, [], ◌∷◌,
  ◌++◌, ap, arith, Uuid, In, here, In-single, In-pair, In-append, In-append_left, In-append_right,
  count, count-append, count-pos, count-In, any, any-count, any-false-In,
}
use cernere.Federation.Tables.{
  AccountFederation, AccountFederationMember, IsConsistent, member_count,
}

-- An update of one federation that keeps its identifier and its number, and leaves the primary

abbrev federation : AccountFederationMember → Uuid
federation m = m.federation_id

abbrev user : AccountFederationMember → Uuid
user m = m.user_id

module _ (fs : List AccountFederation) (ms : List AccountFederationMember)
    (v : IsConsistent fs ms) where
  absent-In :
      (u : Uuid) (m : AccountFederationMember)
      → count (λ m. m.user_id == u) ms ≡ 0
      → In m ms
      → m.user_id ≢ u
  absent-In u m h i e =
      absurd (omega (arith, count-pos (λ m. m.user_id == u) ms i ((==_iff m.user_id u).1 e)))

  not_subject :
      (u : Uuid) (f : AccountFederation)
      → any (λ f. f.subject_id == u) fs ≡ false
      → In f fs
      → u ≢ f.subject_id
  not_subject u f h i e = let t = any-false-In (λ f. f.subject_id == u) fs h i in ground arith

  -- One account more in a federation that has room.
  module _ (m : AccountFederationMember) (absent : count (λ n. n.user_id == m.user_id) ms ≡ 0)
      (f : AccountFederation) (row : In f fs) (same : f.id ≡ m.federation_id)
      (room : member_count m.federation_id ms + 1 ≤ 10)
      (foreign : any (λ f. f.subject_id == m.user_id) fs ≡ false) where
    pub join-IsConsistent : IsConsistent fs (ms ++ m ∷ [])
    unfolding count
    join-IsConsistent = record {
      one_federation = λ u.
          rw (count-append (λ n. n.user_id == u) ms (m ∷ [])) (ground (arith, v.one_federation u));
      one_row = v.one_row;
      one_subject = v.one_subject;
      has_row = λ n k. elim (In-append ms k) [
        | inl i ↦ v.has_row n i
        | inr i ↦ (f, row, same ∙ ap federation (In-single i))
      ];
      shared = λ g k.
          rw (count-append (λ n. n.federation_id == g.id) ms (m ∷ []))
            (ground (arith, v.shared g k));
      bounded = λ i.
          rw (count-append (λ n. n.federation_id == i) ms (m ∷ [])) (ground (arith, v.bounded i));
      primary = λ g k. let (n, i, e, p) = v.primary g k in (n, In-append_left (m ∷ []) i, e, p);
      own_subject = λ g n k l e. elim (In-append ms l) [
        | inl i ↦ v.own_subject g n k i e
        | inr i ↦ absurd (not_subject m.user_id g foreign k (ap user (In-single i) ∙ e))
      ];
    }

  -- A new federation of two accounts, that is numbered by the first.
  module _ (f : AccountFederation) (a b : AccountFederationMember)
      (fresh : count (λ g. g.id == f.id) fs ≡ 0)
      (absent_a : count (λ n. n.user_id == a.user_id) ms ≡ 0)
      (absent_b : count (λ n. n.user_id == b.user_id) ms ≡ 0) (apart : a.user_id ≢ b.user_id)
      (in_a : a.federation_id ≡ f.id) (in_b : b.federation_id ≡ f.id)
      (number : a.user_id ≡ f.subject_id) (head : a.user_id ≡ f.primary_user_id)
      (foreign_a : any (λ f. f.subject_id == a.user_id) fs ≡ false)
      (foreign_b : any (λ f. f.subject_id == b.user_id) fs ≡ false) where
    abbrev fs' : List AccountFederation
    fs' = fs ++ f ∷ []

    abbrev ms' : List AccountFederationMember
    ms' = ms ++ a ∷ b ∷ []

    old : {n : AccountFederationMember} → In n ms → n.federation_id ≢ f.id
    old {n} i e =
        let (g, j, p) = v.has_row n i in
        absurd (omega (arith, count-pos (λ h. h.id == f.id) fs j ((==_iff g.id f.id).1 (p ∙ e))))

    none_yet : member_count f.id ms ≡ 0
    none_yet = elim (Bool-cases (member_count f.id ms == 0)) [
      | inl e ↦ ground arith
      | inr e ↦
          let (n, i, t) = count-In (λ n. n.federation_id == f.id) ms (ground arith) in
          absurd (old i ((==_iff n.federation_id f.id).0 t))
    ]

    founder_row : In a ms'
    founder_row = In-append_right ms (here refl)

    create-own_subject :
        (g : AccountFederation) (n : AccountFederationMember)
        → In g fs'
        → In n ms'
        → n.user_id ≡ g.subject_id
        → n.federation_id ≡ g.id
    create-own_subject g n k l e = elim (In-append fs k) [
      | inl old_g ↦ elim (In-append ms l) [
        | inl old_n ↦ v.own_subject g n old_g old_n e
        | inr new_n ↦ elim (In-pair new_n) [
          | inl p ↦ absurd (not_subject a.user_id g foreign_a old_g (ap user p ∙ e))
          | inr p ↦ absurd (not_subject b.user_id g foreign_b old_g (ap user p ∙ e))
        ]
      ]
      | inr new_g ↦
          let q = In-single new_g in
          let u : n.user_id ≡ a.user_id =
            e ∙ ap (λ (x : AccountFederation). x.subject_id) (sym q) ∙ sym number in
          elim (In-append ms l) [
            | inl old_n ↦ absurd (absent-In a.user_id n absent_a old_n u)
            | inr new_n ↦ elim (In-pair new_n) [
              | inl p ↦ ap federation (sym p) ∙ in_a ∙ ap (λ (x : AccountFederation). x.id) q
              | inr p ↦ absurd (apart (sym u ∙ ap user (sym p)))
            ]
          ]
    ]

    pub create-IsConsistent : IsConsistent fs' ms'
    unfolding count
    create-IsConsistent = record {
      one_federation = λ u.
          rw (count-append (λ n. n.user_id == u) ms (a ∷ b ∷ []))
            (ground (arith, v.one_federation u));
      one_row = λ j. rw (count-append (λ g. g.id == j) fs (f ∷ [])) (ground (arith, v.one_row j));
      one_subject = λ u. rw (count-append (λ g. g.subject_id == u) fs (f ∷ [])) (
          ground (arith, v.one_subject u, any-count (λ g. g.subject_id == a.user_id) fs foreign_a));
      has_row = λ n k. elim (In-append ms k) [
        | inl i ↦ let (g, j, e) = v.has_row n i in (g, In-append_left (f ∷ []) j, e)
        | inr i ↦ (f, In-append_right fs (here refl), new_row n i)
      ];
      shared = λ g k.
          rw (count-append (λ n. n.federation_id == g.id) ms (a ∷ b ∷ []))
            (new_shared g (In-append fs k));
      bounded = λ i.
          rw (count-append (λ n. n.federation_id == i) ms (a ∷ b ∷ []))
            (ground (arith, v.bounded i, none_yet));
      primary = λ g k. elim (In-append fs k) [
        | inl j ↦ let (n, i, e, p) = v.primary g j in (n, In-append_left (a ∷ b ∷ []) i, e, p)
        | inr j ↦
            let e = In-single j in
            (
              a,
              founder_row,
              in_a ∙ ap (λ (x : AccountFederation). x.id) e,
              head ∙ ap (λ (x : AccountFederation). x.primary_user_id) e,
            )
      ];
      own_subject = create-own_subject;
    }
      where
        new_row : (n : AccountFederationMember) → In n (a ∷ b ∷ []) → f.id ≡ n.federation_id
        new_row n i = elim (In-pair i) [
          | inl e ↦ sym in_a ∙ ap federation e
          | inr e ↦ sym in_b ∙ ap federation e
        ]

        new_shared :
            (g : AccountFederation)
            → In g fs ⊎ In g (f ∷ [])
            → 2 ≤ member_count g.id ms + member_count g.id (a ∷ b ∷ [])
        new_shared g (inl k) = omega (arith, v.shared g k)
        new_shared g (inr k) = let e = In-single k in ground arith
