-- ===== src/Federation/Subject/Numbers.antt =====
-- The numbers that services see, in consistent tables.
use cernere.Base.{
  ◌≡◌, sym, ◌∙◌, ◌⊎◌, ◌≢◌, inl, inr, ◌==◌, ==_iff, ==_self, false, Option-cases, none, some, List,
  arith, Uuid, In, find, any, find-In, find-test, find-none-In, count-pos, ap, any-false-In,
  count_unique, In-any,
}
use cernere.Federation.Policy.{ServiceSubject}
use cernere.Federation.Tables.{AccountFederation, AccountFederationMember, IsConsistent}
use cernere.Federation.Subject.{
  find_membership, membership_of, owns_foreign_subject, resolve_service_subject,
  primary_user_id_for_subject, primary_of,
}
use cernere.Federation.Subject.Lookup.{find_membership-some, find_membership-none}

module _ (fs : List AccountFederation) (ms : List AccountFederationMember)
    (v : IsConsistent fs ms) where
  same_member : {m n : AccountFederationMember} → In m ms → In n ms → m.user_id ≡ n.user_id → m ≡ n
  same_member {m} {n} i j e =
      count_unique (λ x. x.user_id == n.user_id) ms (v.one_federation n.user_id) i j
        ((==_iff m.user_id n.user_id).1 e) (==_self n.user_id)

  same_row : {f g : AccountFederation} → In f fs → In g fs → f.id ≡ g.id → f ≡ g
  same_row {f} {g} i j e =
      count_unique (λ x. x.id == g.id) fs (v.one_row g.id) i j ((==_iff f.id g.id).1 e)
        (==_self g.id)

  same_number : {f g : AccountFederation} → In f fs → In g fs → f.subject_id ≡ g.subject_id → f ≡ g
  same_number {f} {g} i j e =
      count_unique (λ x. x.subject_id == g.subject_id) fs (v.one_subject g.subject_id) i j
        ((==_iff f.subject_id g.subject_id).1 e) (==_self g.subject_id)

  -- A member row is what the lookup finds.
  pub find_membership-In :
      (m : AccountFederationMember) (f : AccountFederation)
      → In m ms
      → In f fs
      → f.id ≡ m.federation_id
      → find_membership fs m.user_id ms ≡ some (membership_of f)
  find_membership-In m f i j e = elim (Option-cases (find_membership fs m.user_id ms)) [
    | inl missing ↦ absurd (
        omega (
          arith,
          find_membership-none fs m.user_id ms v missing,
          count-pos (λ n. n.user_id == m.user_id) ms i (==_self m.user_id),
        ))
    | inr (k, found) ↦
        let w = find_membership-some fs m.user_id ms found in
        let p = same_member w.listed i w.is_user in
        let q =
          same_row w.row j
            (w.is_in ∙ ap (λ (x : AccountFederationMember). x.federation_id) p ∙ sym e) in
        found ∙ ap some (sym w.shown ∙ ap membership_of q)
  ]

  -- How an account resolves: through its federation, or by itself.
  data Resolves (u : Uuid) (s : ServiceSubject) : Type 0 where
    federated :
        (f : AccountFederation) (m : AccountFederationMember)
        → In f fs
        → In m ms
        → m.user_id ≡ u
        → f.id ≡ m.federation_id
        → find_membership fs u ms ≡ some (membership_of f)
        → s ≡ record {
          subject = f.subject_id;
          primary_user_id = f.primary_user_id;
          federation_id = some f.id;
          detached_founder = false;
        }
        → Resolves u s
    alone :
        find_membership fs u ms ≡ none
        → s ≡ record {
          subject = u;
          primary_user_id = u;
          federation_id = none;
          detached_founder = owns_foreign_subject fs u none;
        }
        → Resolves u s

  resolves : (u : Uuid) → Resolves u (resolve_service_subject fs ms u)
  unfolding resolve_service_subject
  resolves u = elim (Option-cases (find_membership fs u ms)) [
    | inl missing ↦ alone missing (rw missing)
    | inr (k, found) ↦
        let w = find_membership-some fs u ms found in
        federated w.federation w.member w.row w.listed w.is_user w.is_in
          (found ∙ ap some (sym w.shown)) (rw (found, ← w.shown))
  ]

  resolve_subject :
      (u : Uuid) (f : AccountFederation)
      → In f fs
      → u ≡ f.subject_id
      → (resolve_service_subject fs ms u).subject ≡ u
  resolve_subject u f i e = elim (resolves u) [
    | federated g n j l p q found s ↦
        let same = same_row j i (q ∙ v.own_subject f n i l (p ∙ e)) in
        ap (λ (x : ServiceSubject). x.subject) s
        ∙ ap (λ (x : AccountFederation). x.subject_id) same
        ∙ sym e
    | alone missing s ↦ ap (λ (x : ServiceSubject). x.subject) s
  ]

  -- With consistent tables, the number that an account resolves to resolves to itself.
  pub resolve_service_subject_idempotent :
      (u : Uuid)
      → (resolve_service_subject fs ms (resolve_service_subject fs ms u).subject).subject
        ≡ (resolve_service_subject fs ms u).subject
  resolve_service_subject_idempotent u = elim (resolves u) [
    | federated f m i j p q found s ↦
        let e = ap (λ (x : ServiceSubject). x.subject) s in resolve_subject _ f i e
    | alone missing s ↦
        let e = ap (λ (x : ServiceSubject). x.subject) s in
        ap (λ x. (resolve_service_subject fs ms x).subject) e
  ]

  apart :
      (f : AccountFederation) (x : Uuid)
      → In f fs
      → owns_foreign_subject fs x none ≡ false
      → f.subject_id ≢ x
  unfolding owns_foreign_subject
  apart f x i h q = cc (In-any (λ g. g.subject_id == x) fs i ((==_iff f.subject_id x).1 q))

  -- With consistent tables, two accounts that are no detached founders and that resolve to one
  -- number are the same account or are in one federation.
  pub resolve_service_subject_separates :
      (u w : Uuid)
      → (resolve_service_subject fs ms u).detached_founder ≡ false
      → (resolve_service_subject fs ms w).detached_founder ≡ false
      → (resolve_service_subject fs ms u).subject ≡ (resolve_service_subject fs ms w).subject
      → (u ≡ w)
        ⊎ ((i : Uuid) × ((resolve_service_subject fs ms u).federation_id ≡ some i)
            × ((resolve_service_subject fs ms w).federation_id ≡ some i))
  resolve_service_subject_separates u w du dw e = cases (resolves u) (resolves w)
    where
      cases :
          Resolves u (resolve_service_subject fs ms u)
          → Resolves w (resolve_service_subject fs ms w)
          → (u ≡ w)
            ⊎ ((i : Uuid) × ((resolve_service_subject fs ms u).federation_id ≡ some i)
                × ((resolve_service_subject fs ms w).federation_id ≡ some i))
      cases (federated f _ i _ _ _ _ s) (federated g _ j _ _ _ _ t) =
          let same = same_number i j (cc) in inr (f.id, cc, cc)
      cases (federated f _ i _ _ _ _ s) (alone _ t) = absurd (apart f w i (cc) (cc))
      cases (alone _ s) (federated g _ j _ _ _ _ t) = absurd (apart g u j (cc) (cc))
      cases (alone _ s) (alone _ t) = inl (cc)

  -- With consistent tables, the number of an account that is no detached founder leads back to the
  -- primary account that it was resolved with.
  pub primary_user_id_for_subject-resolve :
      (u : Uuid)
      → (resolve_service_subject fs ms u).detached_founder ≡ false
      → primary_user_id_for_subject fs (resolve_service_subject fs ms u).subject
        ≡ (resolve_service_subject fs ms u).primary_user_id
  unfolding primary_user_id_for_subject owns_foreign_subject
  primary_user_id_for_subject-resolve u d = elim (resolves u) [
    | federated f m i j p q found s ↦ rw s (here_is f i)
    | alone missing s ↦ rw s (missing_is (cc))
  ]
    where
      here_is :
          (f : AccountFederation)
          → In f fs
          → primary_of (find (λ g. g.subject_id == f.subject_id) fs) f.subject_id
            ≡ f.primary_user_id
      here_is f i = elim (Option-cases (find (λ g. g.subject_id == f.subject_id) fs)) [
        | inl e ↦
            absurd
              (cc (find-none-In (λ g. g.subject_id == f.subject_id) fs e i, ==_self f.subject_id))
        | inr (g, e) ↦ rw e (
            ap (λ (x : AccountFederation). x.primary_user_id)
              (same_number (find-In (λ g. g.subject_id == f.subject_id) fs e) i (
                (==_iff g.subject_id f.subject_id).0
                  (find-test (λ g. g.subject_id == f.subject_id) fs e))))
      ]

      missing_is :
          any (λ f. f.subject_id == u) fs ≡ false
          → primary_of (find (λ g. g.subject_id == u) fs) u ≡ u
      missing_is h = elim (Option-cases (find (λ g. g.subject_id == u) fs)) [
        | inl e ↦ rw e
        | inr (g, e) ↦ absurd (
            cc (
              find-test (λ g. g.subject_id == u) fs e,
              any-false-In (λ g. g.subject_id == u) fs h (find-In (λ g. g.subject_id == u) fs e),
            ))
      ]
