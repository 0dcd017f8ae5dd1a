-- ===== src/Auth/Examples/Recovering.antt =====
-- A recovery of account 2: its code opens a request, and a day later the new key confirms it.
use cernere.Base.{
  ◌+◌, ◌≤◌, ◌≡◌, ◌≢◌, refl, arith, false, none, some, [], In-nil, count, find, any, update, delete,
  ok,
}
use cernere.Notify.Events.{record_security_event, outbox_rows}
use cernere.Auth.Tables.{AuthDb, KeyMaterial, PasskeyCandidate, recovery}
use cernere.Auth.Access.{find_user, parse_access_status}
use cernere.Auth.Candidates.{
  insert_passkey_candidate, lock_open_candidate, promote_passkey_candidate,
}
use cernere.Auth.Recovery.{FinishRecovery, finish_recovery_with_code, recovery_wait_ms}
use cernere.Auth.Recovery.Confirm.{
  ConfirmRecovery, find_candidate, confirm_recovery, confirm_in_transaction,
}
use cernere.Auth.Recovery.Confirmed.{Confirmation, confirm_recovery-Confirmation}
use cernere.Auth.Recovery.Renewed.{Replaced, confirm_recovery-Replaced}
use cernere.Auth.Recovery.History.{
  finishes, Steps, done, more, Sound, Steps-Sound, confirm_recovery-waited,
}
use cernere.Auth.Session.{
  assert_user_session_current, current_user_session_state, assert_device_current,
}
use cernere.Auth.Session.Recovered.{confirm_recovery-revokes_sessions}
use cernere.Auth.Examples.{accounts, state_or, claims_2, context}

abbrev new_key : KeyMaterial
new_key = record {
  credential_id = 600;
  public_key = 601;
  device_type = "singleDevice";
  backed_up = false;
  transports = [];
  aaguid = "";
}

abbrev finish_call : FinishRecovery
finish_call = record {
  ceremony = some record {
    challenge = 7;
    user_id = 2;
    recovery_code_id = 500;
    auth_epoch = 0;
    recovery_generation = 0;
  };
  verify = λ challenge. some record { key = new_key; counter = 0 };
  device = "phone";
  candidate_id = 610;
  request_id = 620;
  now = 100;
}

abbrev requested : AuthDb
requested = state_or accounts (finish_recovery_with_code accounts finish_call)

requesting : finish_recovery_with_code accounts finish_call ≡ ok requested
unfolding finish_recovery_with_code insert_passkey_candidate find_user record_security_event
    outbox_rows find any
requesting = refl

abbrev confirm_call : ConfirmRecovery
confirm_call = record {
  challenge = some 9;
  credential_id = 600;
  verify = λ challenge candidate. some 1;
  passkey_id = 630;
  now = 100 + recovery_wait_ms;
}

abbrev recovered_2 : AuthDb
recovered_2 = state_or requested (confirm_recovery requested confirm_call)

confirming : confirm_recovery requested confirm_call ≡ ok recovered_2
unfolding finish_recovery_with_code insert_passkey_candidate confirm_recovery confirm_in_transaction
    lock_open_candidate promote_passkey_candidate find_user record_security_event outbox_rows find
    any update delete
confirming = refl

confirm_recovery-Confirmation_example : Confirmation requested recovered_2 confirm_call
confirm_recovery-Confirmation_example =
    confirm_recovery-Confirmation requested confirm_call confirming

confirm_recovery-Replaced_example :
    (k : Confirmation requested recovered_2 confirm_call) × Replaced requested recovered_2
      confirm_call k
confirm_recovery-Replaced_example = confirm_recovery-Replaced requested confirm_call confirming

no_requests : Sound accounts.recovery_requests
unfolding count
no_requests = record { all_wait = λ r i. absurd (In-nil i); one_open = λ id. omega arith }

request_made : Steps accounts requested
request_made = more (finishes finish_call requesting) done

Steps-Sound_example : Sound requested.recovery_requests
Steps-Sound_example = Steps-Sound request_made no_requests

confirm_recovery-waited_example :
    (k : Confirmation requested recovered_2 confirm_call) × (k.request.created_at + recovery_wait_ms
      ≤ confirm_call.now)
confirm_recovery-waited_example =
    confirm_recovery-waited confirm_call no_requests request_made confirming

session_before : assert_user_session_current requested context claims_2 ≡ ok tt
unfolding finish_recovery_with_code insert_passkey_candidate assert_user_session_current
    current_user_session_state assert_device_current find_user parse_access_status
    record_security_event outbox_rows find any
session_before = refl

abbrev candidate_2 : PasskeyCandidate
candidate_2 = record {
  id = 610;
  user_id = 2;
  purpose = recovery;
  key = new_key;
  counter = 0;
  nickname = some "phone";
  promoted_at = none;
  revoked_at = none;
}

candidate_there : find_candidate requested 600 ≡ some candidate_2
unfolding finish_recovery_with_code insert_passkey_candidate find_user record_security_event
    outbox_rows find any
candidate_there = refl

confirm_recovery-revokes_sessions_example :
    assert_user_session_current recovered_2 context claims_2 ≢ ok tt
confirm_recovery-revokes_sessions_example =
    confirm_recovery-revokes_sessions requested confirm_call context context claims_2 candidate_2
      confirming candidate_there refl session_before
