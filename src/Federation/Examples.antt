-- ===== src/Federation/Examples.antt =====
-- Runs of the federations' transactions on small tables, from an empty one on.
use cernere.Base.{
  ℕ, ◌==◌, ◌≡◌, ◌↔◌, ◌⊎◌, refl, arith, true, none, some, List, [], ◌∷◌, Uuid, In-nil, find, any,
  count, update, delete, select, Result, ok, err,
}
use cernere.Notify.Events.{EventLog, record_security_event, outbox_rows}
use cernere.Federation.Policy.{
  FederationJoinVia, check_join_code, is_four_digits, match, decide_federation_join,
  decide_set_primary, decide_federation_removal, pick_service_subject,
}
use cernere.Federation.Tables.{AccountFederation, AccountFederationMember}
use cernere.Federation.Subject.{
  find_membership, owns_foreign_subject, resolve_service_subject, primary_user_id_for_subject,
}
use cernere.Federation.Store.{
  FederationDb, JoinCall, JoinResult, join_federation, join_with, found_federation, add_joiner,
  lock_federation, insert_member, order_members, member_ids, audit, distinct_from, notify_each,
  notify_members, set_federation_primary, apply_removal, remove_federation_member,
  detach_for_account_deletion,
}
use cernere.Federation.Store.Holds.{Holds}
use cernere.Federation.Store.Join.{join_federation-IsConsistent}
use cernere.Federation.Store.Primary.{
  set_federation_primary-Changed, set_federation_primary-IsConsistent, Changed,
}
use cernere.Federation.Store.Removal.{
  remove_federation_member-Removed, Removed, detach_for_account_deletion-IsConsistent,
}
use cernere.Federation.Subject.Numbers.{
  resolve_service_subject_idempotent, resolve_service_subject_separates,
  primary_user_id_for_subject-resolve,
}
use cernere.Federation.Policy.JoinCode.{check_join_code-match_iff}

abbrev no_log : EventLog
no_log = record {
  next_id = 1000;
  alert_targets = [];
  security_events = [];
  notification_outbox = [];
}

abbrev no_federations : FederationDb
no_federations = record {
  account_federations = [];
  account_federation_members = [];
  account_federation_events = [];
  log = no_log;
}

no_federations-Holds : Holds no_federations
unfolding count
no_federations-Holds = record {
  one_federation = λ u. omega arith;
  one_row = λ i. omega arith;
  one_subject = λ u. omega arith;
  has_row = λ m i. absurd (In-nil i);
  shared = λ f i. absurd (In-nil i);
  bounded = λ i. omega arith;
  primary = λ f i. absurd (In-nil i);
  own_subject = λ f m i. absurd (In-nil i);
}

-- Account 2 joins account 1, in federation 100.
abbrev first_call : JoinCall
first_call = record {
  approver_user_id = 1;
  joiner_user_id = 2;
  via = FederationJoinVia.qr_existing_account;
  device = none;
  fresh_id = 100;
  now = 5;
}

abbrev after_join : Result (JoinResult × FederationDb) → FederationDb
after_join (ok (r, db)) = db
after_join (err e) = no_federations

abbrev pair : FederationDb
pair = after_join (join_federation no_federations first_call)

abbrev pair_result : JoinResult
pair_result = record { federation_id = 100; subject_id = 1; primary_user_id = 1 }

first_join : join_federation no_federations first_call ≡ ok (pair_result, pair)
unfolding join_federation join_with found_federation add_joiner lock_federation insert_member
    order_members member_ids audit distinct_from notify_each notify_members find_membership
    owns_foreign_subject decide_federation_join record_security_event outbox_rows find any select
    update
first_join = refl

join_federation-IsConsistent_example : Holds pair
unfolding count
join_federation-IsConsistent_example =
    join_federation-IsConsistent no_federations first_call no_federations-Holds refl first_join

pair-Holds : Holds pair
unfolding count
pair-Holds =
    join_federation-IsConsistent no_federations first_call no_federations-Holds refl first_join

-- Account 3 joins on account 2's approval, though account 1 is the primary one.
abbrev second_call : JoinCall
second_call = record first_call {
  approver_user_id = 2;
  joiner_user_id = 3;
  fresh_id = 101;
  now = 6;
}

abbrev three : FederationDb
three = after_join (join_federation pair second_call)

second_join : join_federation pair second_call ≡ ok (pair_result, three)
unfolding join_federation join_with found_federation add_joiner lock_federation insert_member
    order_members member_ids audit distinct_from notify_each notify_members find_membership
    owns_foreign_subject decide_federation_join record_security_event outbox_rows find any select
    update
second_join = refl

three-Holds : Holds three
unfolding count join_federation join_with found_federation add_joiner lock_federation audit
    notify_members find_membership owns_foreign_subject decide_federation_join find any update
three-Holds = join_federation-IsConsistent pair second_call pair-Holds refl second_join

abbrev state_or : FederationDb → Result FederationDb → FederationDb
state_or db (ok db') = db'
state_or db (err e) = db

-- The primary account hands over to account 3.
abbrev handed_over : FederationDb
handed_over = state_or three (set_federation_primary three 7 1 3 2)

handing_over : set_federation_primary three 7 1 3 2 ≡ ok handed_over
unfolding set_federation_primary join_federation join_with found_federation add_joiner
    lock_federation insert_member order_members member_ids audit distinct_from notify_each
    notify_members find_membership owns_foreign_subject decide_federation_join decide_set_primary
    record_security_event outbox_rows find any select update
handing_over = refl

set_federation_primary-Changed_example : Changed three handed_over 1 3 2
set_federation_primary-Changed_example = set_federation_primary-Changed three 7 1 3 2 handing_over

set_federation_primary-IsConsistent_example : Holds handed_over
set_federation_primary-IsConsistent_example =
    set_federation_primary-IsConsistent three 7 1 3 2 handing_over three-Holds

-- Account 1 removes account 2.
abbrev without_2 : FederationDb
without_2 = state_or three (remove_federation_member three 8 1 2 2)

removing : remove_federation_member three 8 1 2 2 ≡ ok without_2
unfolding remove_federation_member apply_removal delete join_federation join_with found_federation
    add_joiner lock_federation insert_member order_members member_ids audit distinct_from
    notify_each notify_members find_membership owns_foreign_subject decide_federation_join
    decide_federation_removal record_security_event outbox_rows find any select update
removing = refl

remove_federation_member-Removed_example : Removed three without_2 1 2 2
remove_federation_member-Removed_example =
    remove_federation_member-Removed three 8 1 2 2 three-Holds removing

-- The founder's account is deleted.
abbrev without_founder : FederationDb
without_founder = state_or three (detach_for_account_deletion three 9 1)

detaching : detach_for_account_deletion three 9 1 ≡ ok without_founder
unfolding detach_for_account_deletion apply_removal delete join_federation join_with
    found_federation add_joiner lock_federation insert_member order_members member_ids audit
    distinct_from notify_each notify_members find_membership owns_foreign_subject
    decide_federation_join decide_federation_removal record_security_event outbox_rows find any
    select update
detaching = refl

detach_for_account_deletion-IsConsistent_example :
    Holds without_founder
    × (count (λ m. m.user_id == 1) without_founder.account_federation_members ≡ 0)
detach_for_account_deletion-IsConsistent_example =
    detach_for_account_deletion-IsConsistent three 9 1 three-Holds detaching

-- Accounts 2 and 3 have the number of account 1.
abbrev rows : List AccountFederation
rows = three.account_federations

abbrev members : List AccountFederationMember
members = three.account_federation_members

resolve_service_subject_idempotent_example :
    (resolve_service_subject rows members (resolve_service_subject rows members 2).subject).subject
    ≡ (resolve_service_subject rows members 2).subject
resolve_service_subject_idempotent_example =
    resolve_service_subject_idempotent rows members three-Holds 2

abbrev second : Uuid
second = 2

abbrev third : Uuid
third = 3

resolve_service_subject_separates_example :
    (second ≡ third)
    ⊎ ((i : Uuid) × ((resolve_service_subject rows members 2).federation_id ≡ some i)
        × ((resolve_service_subject rows members 3).federation_id ≡ some i))
unfolding resolve_service_subject pick_service_subject join_federation join_with found_federation
    add_joiner lock_federation audit notify_members find_membership owns_foreign_subject
    decide_federation_join find any update member_ids select
resolve_service_subject_separates_example =
    resolve_service_subject_separates rows members three-Holds 2 3 refl refl refl

primary_user_id_for_subject-resolve_example :
    primary_user_id_for_subject rows (resolve_service_subject rows members 2).subject
    ≡ (resolve_service_subject rows members 2).primary_user_id
unfolding resolve_service_subject pick_service_subject join_federation join_with found_federation
    add_joiner lock_federation audit notify_members find_membership owns_foreign_subject
    decide_federation_join find any update member_ids select
primary_user_id_for_subject-resolve_example =
    primary_user_id_for_subject-resolve rows members three-Holds 2 refl

abbrev right_code : List ℕ
right_code = 48 ∷ 49 ∷ 50 ∷ 51 ∷ []

abbrev wrong_code : List ℕ
wrong_code = 48 ∷ 49 ∷ 50 ∷ 52 ∷ []

check_join_code-match_iff_example :
    (check_join_code right_code wrong_code 0 ≡ match)
    ↔ ((is_four_digits right_code ≡ true) × (right_code ≡ wrong_code))
check_join_code-match_iff_example = check_join_code-match_iff right_code wrong_code 0
