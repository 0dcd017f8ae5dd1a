-- ===== src/Auth/Examples/Pairings.antt =====
-- Pairings of a second device of account 2: one that is approved_db, and one with three wrong numbers.
use cernere.Base.{
  ◌==◌, ◌≤◌, ◌≡◌, refl, arith, false, none, some, [], In-nil, find, any, update, ok, err, conflict,
  String,
}
use cernere.Notify.Events.{record_security_event, outbox_rows}
use cernere.Auth.Tables.{AuthDb, DevicePairing}
use cernere.Auth.Access.{find_user}
use cernere.Auth.Candidates.{
  insert_passkey_candidate, lock_open_candidate, promote_passkey_candidate,
  revoke_passkey_candidate,
}
use cernere.Auth.Pairing.{
  create_device_pairing, begin_pairing_registration, Token, FinishPairing,
  finish_pairing_registration, state_of, reject_pairing,
}
use cernere.Auth.Pairing.Approval.{
  approve_pairing, approve_in_transaction, ApprovePairing, record_mismatch, promote_pairing,
}
use cernere.Auth.Pairing.History.{
  creates, begins, finishes, approves_one, rejects_one, Steps, done, more, Limited,
}
use cernere.Auth.Pairing.Approved.{Approval, approve_pairing-Approval}
use cernere.Auth.Pairing.Once.{approve_pairing-once, approve_pairing-limit}
use cernere.Auth.Examples.{accounts, state_or}

abbrev token : Token
token = record { length = 43; digest = 77 }

abbrev finish_call : FinishPairing
finish_call = record {
  ceremony = some record { challenge = 9; pairing_id = 700; user_id = 2 };
  verify = λ challenge. some record {
    key = record {
      credential_id = 710;
      public_key = 711;
      device_type = "singleDevice";
      backed_up = false;
      transports = [];
      aaguid = "";
    };
    counter = 0;
  };
  nickname = none;
  label = "phone";
  match_code = "0420";
  candidate_id = 720;
  now = 2;
}

abbrev created_db : AuthDb
created_db = state_or accounts (create_device_pairing accounts 0 2 700 77)

abbrev claimed_db : AuthDb
claimed_db = (begin_pairing_registration created_db 1 token 9).1

abbrev filled_db : AuthDb
filled_db = state_or claimed_db (finish_pairing_registration claimed_db finish_call)

abbrev approval : String → ApprovePairing
approval number = record {
  user_id = 2;
  pairing_id = 700;
  candidate_id = 720;
  auth_epoch = 0;
  match_code = number;
  passkey_id = 730;
  now = 3;
}

creating : create_device_pairing accounts 0 2 700 77 ≡ ok created_db
unfolding create_device_pairing find_user find update
creating = refl

fresh_700 : any (λ p. p.id == 700) accounts.device_pairings ≡ false
unfolding any
fresh_700 = refl

finishing : finish_pairing_registration claimed_db finish_call ≡ ok filled_db
unfolding finish_pairing_registration begin_pairing_registration create_device_pairing
    insert_passkey_candidate find_user record_security_event outbox_rows find update
finishing = refl

approving : (approve_pairing filled_db (approval "0420")).0 ≡ ok tt
unfolding approve_pairing approve_in_transaction promote_pairing lock_open_candidate
    promote_passkey_candidate state_of finish_pairing_registration begin_pairing_registration
    create_device_pairing insert_passkey_candidate find_user record_security_event outbox_rows find
    update
approving = refl

abbrev approved_db : AuthDb
approved_db = (approve_pairing filled_db (approval "0420")).1

approve_pairing-Approval_example : Approval filled_db approved_db (approval "0420")
approve_pairing-Approval_example = approve_pairing-Approval filled_db (approval "0420") approving

-- A rejection and another wrong number come in between.
abbrev later : AuthDb
later = (approve_pairing (reject_pairing approved_db 4 2 700) (approval "0000")).1

in_between : Steps approved_db later
in_between = more (rejects_one 4 2 700) (more (approves_one (approval "0000")) done)

approve_pairing-once_example : approve_pairing later (approval "0420") ≡ (err conflict, later)
approve_pairing-once_example =
    approve_pairing-once filled_db later (approval "0420") (approval "0420") approving in_between
      refl

-- Three wrong numbers, then the right one.
abbrev missed_once : AuthDb
missed_once = (approve_pairing filled_db (approval "0000")).1

abbrev missed_twice : AuthDb
missed_twice = (approve_pairing missed_once (approval "1111")).1

abbrev missed_thrice : AuthDb
missed_thrice = (approve_pairing missed_twice (approval "2222")).1

three_misses : Steps accounts missed_thrice
three_misses = more (creates 0 2 700 77 fresh_700 creating) (
    more (begins 1 token 9) (
      more (finishes finish_call finishing) (
        more (approves_one (approval "0000"))
          (more (approves_one (approval "1111")) (more (approves_one (approval "2222")) done)))))

no_pairings : Limited accounts
no_pairings p i = absurd (In-nil i)

abbrev rejected_row : DevicePairing
rejected_row = record {
  id = 700;
  user_id = 2;
  token_digest = 77;
  auth_epoch = 0;
  expires_at = 180000;
  claimed_at = some 1;
  candidate_id = some 720;
  match_code = some "0420";
  match_attempts = 3;
  candidate_label = some "phone";
  approved_at = none;
  rejected_at = some 3;
  revoked_at = none;
}

row_there : find (λ x. x.id == 700) missed_thrice.device_pairings ≡ some rejected_row
unfolding approve_pairing approve_in_transaction record_mismatch revoke_passkey_candidate state_of
    finish_pairing_registration begin_pairing_registration create_device_pairing
    insert_passkey_candidate find_user record_security_event outbox_rows find update
row_there = refl

three_missed : 3 ≤ rejected_row.match_attempts
three_missed = omega arith

approve_pairing-limit_example :
    approve_pairing missed_thrice (approval "0420") ≡ (err conflict, missed_thrice)
approve_pairing-limit_example =
    approve_pairing-limit accounts missed_thrice (approval "0420") rejected_row no_pairings
      three_misses row_there three_missed
