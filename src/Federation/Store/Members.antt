-- ===== src/Federation/Store/Members.antt =====
-- The ordered list of a federation's accounts, against the rows of the table.
use cernere.Base.{
  suc, ◌≤◌, ◌≡◌, refl, ◌∙◌, ◌==◌, ◌&&◌, not, Bool, true, Bool-cases, List, [], ◌∷◌, ap, map, inl,
  inr, arith, Uuid, length, In, here, there, In-cons, In-nil, select, delete, count, In-select,
  select-In, ==_self, ==_iff, some,
}
use cernere.Federation.Policy.{first}
use cernere.Federation.Tables.{AccountFederationMember, member_count}
use cernere.Federation.Store.{is_before, insert_member, order_members, member_ids}

count-insert_member :
    (p : AccountFederationMember → Bool) (m : AccountFederationMember)
    (ms : List AccountFederationMember)
    → count p (insert_member m ms) ≡ count p (m ∷ ms)
unfolding count insert_member
count-insert_member p m [] = refl
count-insert_member p m (n ∷ ns) = ground (arith, count-insert_member p m ns)

count-order_members :
    (p : AccountFederationMember → Bool) (ms : List AccountFederationMember)
    → count p (order_members ms) ≡ count p ms
unfolding count order_members
count-order_members p [] = refl
count-order_members p (m ∷ ms) =
    ground (arith, count-insert_member p m (order_members ms), count-order_members p ms)

In-insert_member :
    (m : AccountFederationMember) (ms : List AccountFederationMember) {n : AccountFederationMember}
    → In n (insert_member m ms)
    → In n (m ∷ ms)
unfolding insert_member
In-insert_member m [] i = i
In-insert_member m (x ∷ xs) {n} i = elim (Bool-cases (is_before m x)) [
  | inl e ↦ rw (e, insert_member) at i
  | inr e ↦ elim (In-cons (rw (e, insert_member) at i)) [
    | inl q ↦ there (here q)
    | inr j ↦ elim (In-cons (In-insert_member m xs j)) [ inl q ↦ here q | inr k ↦ there (there k) ]
  ]
]

In-order_members :
    (ms : List AccountFederationMember) {n : AccountFederationMember}
    → In n (order_members ms)
    → In n ms
unfolding order_members
In-order_members [] i = i
In-order_members (m ∷ ms) i = elim (In-cons (In-insert_member m (order_members ms) i)) [
  | inl e ↦ here e
  | inr j ↦ there (In-order_members ms j)
]

In-map_user :
    (ms : List AccountFederationMember) {u : Uuid}
    → In u (map (λ m. m.user_id) ms)
    → (m : AccountFederationMember) × In m ms × (m.user_id ≡ u)
In-map_user [] i = absurd (In-nil i)
In-map_user (m ∷ ms) i = elim (In-cons i) [
  | inl e ↦ (m, here refl, e)
  | inr j ↦ let (n, k, p) = In-map_user ms j in (n, there k, p)
]

-- Everybody listed has a row in the federation.
pub In-member_ids :
    (ms : List AccountFederationMember) (i u : Uuid)
    → In u (member_ids ms i)
    → (m : AccountFederationMember) × In m ms × (m.federation_id ≡ i) × (m.user_id ≡ u)
unfolding member_ids
In-member_ids ms i u k =
    let (m, j, e) = In-map_user (order_members (select (λ m. m.federation_id == i) ms)) k in
    let (l, t) = In-select (λ m. m.federation_id == i) ms (In-order_members _ j) in
    (m, l, (==_iff m.federation_id i).0 t, e)

count-select :
    (p q : AccountFederationMember → Bool) (ms : List AccountFederationMember)
    → count p (select q ms) ≡ count (λ m. p m && q m) ms
unfolding count select
count-select p q [] = refl
count-select p q (m ∷ ms) = ground (arith, count-select p q ms)

length-map_user :
    (ms : List AccountFederationMember) → length (map (λ m. m.user_id) ms) ≡ count (λ _. true) ms
unfolding count
length-map_user [] = refl
length-map_user (m ∷ ms) = ap suc (length-map_user ms)

-- The list is as long as the federation has rows.
pub length-member_ids :
    (ms : List AccountFederationMember) (i : Uuid) → length (member_ids ms i) ≡ member_count i ms
unfolding member_ids
length-member_ids ms i =
    length-map_user (order_members (select (λ m. m.federation_id == i) ms))
    ∙ count-order_members (λ _. true) (select (λ m. m.federation_id == i) ms)
    ∙ count-select (λ _. true) (λ m. m.federation_id == i) ms

length-delete-map :
    (t : Uuid) (ms : List AccountFederationMember)
    → length (delete (λ id. id == t) (map (λ m. m.user_id) ms))
      ≡ count (λ m. not (m.user_id == t)) ms
unfolding count delete
length-delete-map t [] = refl
length-delete-map t (m ∷ ms) = ground (arith, length-delete-map t ms)

count-delete-not :
    (q g : AccountFederationMember → Bool) (ms : List AccountFederationMember)
    → count (λ m. not (g m) && q m) ms ≡ count q (delete g ms)
unfolding count delete
count-delete-not q g [] = refl
count-delete-not q g (m ∷ ms) = ground (arith, count-delete-not q g ms)

-- Without one account the list is as long as the federation has rows without those of the account.
pub length-delete-member_ids :
    (ms : List AccountFederationMember) (i t : Uuid)
    → length (delete (λ id. id == t) (member_ids ms i))
      ≡ member_count i (delete (λ m. m.user_id == t) ms)
unfolding member_ids
length-delete-member_ids ms i t =
    length-delete-map t (order_members (select (λ m. m.federation_id == i) ms))
    ∙ count-order_members (λ m. not (m.user_id == t)) (select (λ m. m.federation_id == i) ms)
    ∙ count-select (λ m. not (m.user_id == t)) (λ m. m.federation_id == i) ms
    ∙ count-delete-not (λ m. m.federation_id == i) (λ m. m.user_id == t) ms

-- The first of the others is one of them.
pub first-In : (ids : List Uuid) {u : Uuid} → first ids ≡ some u → In u ids
first-In [] h = cc
first-In (x ∷ xs) h = here (cc)

pub first-some : (ids : List Uuid) → 1 ≤ length ids → (u : Uuid) × (first ids ≡ some u)
first-some [] h = absurd (omega arith)
first-some (x ∷ xs) h = (x, refl)

insert_member-In :
    (m : AccountFederationMember) (ms : List AccountFederationMember) {n : AccountFederationMember}
    → In n (m ∷ ms)
    → In n (insert_member m ms)
unfolding insert_member
insert_member-In m [] i = i
insert_member-In m (x ∷ xs) {n} i = elim (Bool-cases (is_before m x)) [
  | inl e ↦ rw (e, insert_member) i
  | inr e ↦
      rw (e, insert_member)
        (elim (In-cons i) [
          | inl q ↦ there (insert_member-In m xs (here q))
          | inr j ↦ elim (In-cons j) [
            | inl q ↦ here q
            | inr k ↦ there (insert_member-In m xs (there k))
          ]
        ])
]

order_members-In :
    (ms : List AccountFederationMember) {n : AccountFederationMember}
    → In n ms
    → In n (order_members ms)
unfolding order_members
order_members-In [] i = i
order_members-In (m ∷ ms) i =
    insert_member-In m (order_members ms)
      (elim (In-cons i) [ inl e ↦ here e | inr j ↦ there (order_members-In ms j) ])

map_user-In :
    (ms : List AccountFederationMember) {m : AccountFederationMember}
    → In m ms
    → In m.user_id (map (λ m. m.user_id) ms)
map_user-In [] i = absurd (In-nil i)
map_user-In (x ∷ xs) (here e) = here (ap (λ (x : AccountFederationMember). x.user_id) e)
map_user-In (x ∷ xs) (there i) = there (map_user-In xs i)

-- Every row's account is listed in the row's federation.
pub member_ids-In :
    (ms : List AccountFederationMember) {m : AccountFederationMember}
    → In m ms
    → In m.user_id (member_ids ms m.federation_id)
unfolding member_ids
member_ids-In ms {m} i =
    map_user-In (order_members (select (λ n. n.federation_id == m.federation_id) ms)) (
      order_members-In _
        (select-In (λ n. n.federation_id == m.federation_id) ms i (==_self m.federation_id)))
