-- ===== src/Federation/Tables/Laws.antt =====
-- Steps on the tables that keep them consistent.
use cernere.Base.{
  ◌≡◌, refl, sym, ◌∙◌, inl, inr, ◌==◌, Bool-cases, List, arith, Uuid, In, updated, update,
  count-update_same, In-update, update-In,
}
use cernere.Federation.Tables.{AccountFederation, AccountFederationMember, IsConsistent}

-- An update of one federation that keeps its identifier and its number, and leaves the primary
-- account to one of its members.
module _ (fs : List AccountFederation) (ms : List AccountFederationMember) (v : IsConsistent fs ms)
    (i : Uuid) (g : AccountFederation → AccountFederation)
    (same_id : (f : AccountFederation) → (g f).id ≡ f.id)
    (same_subject : (f : AccountFederation) → (g f).subject_id ≡ f.subject_id)
    (new_primary : (f : AccountFederation)
      → In f fs
      → f.id ≡ i
      → (m : AccountFederationMember) × In m ms
        × (m.federation_id ≡ f.id)
        × (m.user_id ≡ (g f).primary_user_id)) where
  abbrev fs' : List AccountFederation
  fs' = update (λ f. f.id == i) g fs

  before :
      (b : AccountFederation)
      → In b fs'
      → (a : AccountFederation) × In a fs
        × (b.id ≡ a.id)
        × (b.subject_id ≡ a.subject_id)
        × ((m : AccountFederationMember) × In m ms
            × (m.federation_id ≡ b.id)
            × (m.user_id ≡ b.primary_user_id))
  before b k =
      let (a, j, e) = In-update (λ f. f.id == i) g fs k in
      elim (Bool-cases (a.id == i)) [
        | inl t ↦
            let p : b ≡ g a = ground arith in
            let (m, im, e1, e2) = new_primary a j (ground arith) in
            (a, j, rw p (same_id a), rw p (same_subject a), (m, im, rw (p, same_id a) e1, rw p e2))
        | inr t ↦ let p : b ≡ a = ground arith in rw p (a, j, refl, refl, v.primary a j)
      ]

  pub update-IsConsistent : IsConsistent fs' ms
  update-IsConsistent = record {
    one_federation = v.one_federation;
    one_row = λ j.
        rw (count-update_same (λ f. f.id == j) (λ f. f.id == i) g (λ f. rw (same_id f)) fs)
          (v.one_row j);
    one_subject = λ u.
        rw
          (count-update_same (λ f. f.subject_id == u) (λ f. f.id == i) g (λ f. rw (same_subject f))
            fs)
          (v.one_subject u);
    has_row = λ m k.
        let (f, j, e) = v.has_row m k in
        (
          updated (λ f. f.id == i) g f,
          update-In (λ f. f.id == i) g fs j,
          ground (arith, same_id f),
        );
    shared = λ b k. let (a, j, e, _, _) = before b k in rw e (v.shared a j);
    bounded = v.bounded;
    primary = λ b k. let (_, _, _, _, p) = before b k in p;
    own_subject =
        λ b m k l e. let (a, j, e1, e2, _) = before b k in v.own_subject a m j l (e ∙ e2) ∙ sym e1;
  }
