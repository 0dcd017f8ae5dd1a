-- ===== src/Federation/JoinRequest/Examples.antt =====
-- Runs of the operations of server/src/federation/join-request.ts on a store in memory.
use cernere.Base.{
  is_ok, ℕ, any, true, false, none, some, List, [], Uuid, ok, err, ◌≡◌, refl, arith, Result, ◌↔◌,
}
use cernere.Redis.Memory.{Memory, memory, empty}
use cernere.Federation.Policy.{is_four_digits, diff_from, check_join_code}
use cernere.Federation.JoinRequest.{
  JoinRequestRedis, JoinRequestRecord, JoinKeys, Secret, Fresh, new_code, code_locked, claimed_by,
  device_request, approved,
}
use cernere.Federation.JoinRequest.Operations.{
  load, save, set_token, take_token, settle_code, set_completion, create_record, consume_token,
  create_device_request, claim_as_approver, approve, begin_completion, join_complete,
  finish_or_abort, finish_completion, abort_completion, create_invite, claim_as_device,
}
use cernere.Federation.JoinRequest.History.{
  World, IsFresh, after_issue, Steps, done, more, waits, asks, claims_one, approves_one, look,
  finishes_one,
}
use cernere.Federation.JoinRequest.Invariant.{IsSound}
use cernere.Federation.JoinRequest.Seen.{Steps-IsSound}
use cernere.Federation.JoinRequest.Phases.{phase, Advances, Steps-Advances}
use cernere.Federation.JoinRequest.Settled.{IsRefused, approve-locked_final, join_complete-once}
use cernere.Federation.JoinRequest.Claimed.{IsUsed, claim_as_approver-once}
use cernere.Federation.JoinRequest.Approval.{IsApprovable, approve-ok_iff}
use cernere.Federation.JoinRequest.Reaching.{
  IsTimely, IsPresented, join_from_device, join_from_approver,
}
use cernere.Federation.JoinRequest.Exclusive.{begin_completion-once}

abbrev Requests : Type 0
Requests = Memory JoinRequestRecord

abbrev Tokens : Type 0
Tokens = Memory Uuid

abbrev Completions : Type 0
Completions = Memory (Unit {0})

abbrev memory_redis : JoinRequestRedis Requests Tokens Completions
memory_redis = record { requests = memory; tokens = memory; completions = memory }

abbrev nothing_stored : JoinKeys Requests Tokens Completions
nothing_stored = record { requests = empty; tokens = empty; completions = empty }

abbrev fresh_7 : Fresh
fresh_7 = record { id = 7; token_digest = 70; secret_digest = 71; random = 42 }

abbrev qr_70 : Secret
qr_70 = record { length = 43; digest = 70 }

abbrev secret_71 : Secret
secret_71 = record { length = 43; digest = 71 }

abbrev joined : JoinRequestRecord → Result (Unit {0})
joined request = ok tt

-- Account 2 makes a request and account 1 reads its code.
abbrev at_start : World Requests Tokens Completions
at_start = record { now = 1000; keys = nothing_stored; issued = []; printed = [] }

abbrev when_asked : World Requests Tokens Completions
when_asked =
    after_issue at_start fresh_7
      (create_device_request memory_redis 1000 fresh_7 (some 2) none nothing_stored).1

abbrev when_claimed : World Requests Tokens Completions
when_claimed = record when_asked {
  keys = (claim_as_approver memory_redis 1000 qr_70 1 when_asked.keys).1;
}

-- Account 1 gives a number, right or wrong.
abbrev after_code : List ℕ → World Requests Tokens Completions → World Requests Tokens Completions
after_code code w = record w { keys = (approve memory_redis 1000 7 1 code w.keys).1 }

abbrev when_approved : World Requests Tokens Completions
when_approved = after_code (new_code 42) when_claimed

abbrev when_missed_twice : World Requests Tokens Completions
when_missed_twice = after_code (new_code 44) (after_code (new_code 43) when_claimed)

fresh_7-IsFresh : IsFresh at_start fresh_7
unfolding any
fresh_7-IsFresh = record { new_id = refl; new_token = refl }

asking : Steps memory_redis at_start when_claimed
asking = more (asks fresh_7 (some 2) none fresh_7-IsFresh) (more (claims_one qr_70 1) done)

at_start-IsSound : IsSound memory_redis at_start
at_start-IsSound = record { valid = λ id p f. cc; has_id = λ id p f. cc; was_issued = λ id p f. cc }

when_claimed-IsSound : IsSound memory_redis when_claimed
when_claimed-IsSound = Steps-IsSound memory_redis asking at_start-IsSound

when_approved-IsSound : IsSound memory_redis when_approved
when_approved-IsSound =
    Steps-IsSound memory_redis (more (approves_one 7 1 (new_code 42)) done) when_claimed-IsSound

when_missed_twice-IsSound : IsSound memory_redis when_missed_twice
when_missed_twice-IsSound =
    Steps-IsSound memory_redis
      (more (approves_one 7 1 (new_code 43)) (more (approves_one 7 1 (new_code 44)) done))
      when_claimed-IsSound

Steps-IsSound_example : IsSound memory_redis when_claimed
Steps-IsSound_example = Steps-IsSound memory_redis asking at_start-IsSound

Steps-Advances_example :
    Advances (phase memory_redis at_start 7) (phase memory_redis when_claimed 7)
Steps-Advances_example = Steps-Advances memory_redis at_start-IsSound asking 7

third_miss :
    (approve memory_redis 1000 7 1 (new_code 45) when_missed_twice.keys).0 ≡ err code_locked
unfolding create_device_request create_record set_token save claim_as_approver consume_token
    take_token load approve settle_code new_code check_join_code is_four_digits diff_from
third_miss = refl

approve-locked_final_example :
    IsRefused memory_redis (record (after_code (new_code 45) when_missed_twice) { now = 2000 }) 7
approve-locked_final_example =
    approve-locked_final memory_redis when_missed_twice
      (record (after_code (new_code 45) when_missed_twice) { now = 2000 }) 7 1 (new_code 45)
      when_missed_twice-IsSound third_miss (more (waits 2000 (omega arith)) done)

completed_once :
    is_ok (join_complete memory_redis 1000 7 secret_71 (some 2) joined when_approved.keys).0 ≡ true
unfolding create_device_request create_record set_token save claim_as_approver consume_token
    take_token load approve settle_code new_code check_join_code is_four_digits diff_from
    join_complete begin_completion set_completion finish_or_abort finish_completion abort_completion
completed_once = refl

abbrev when_completed : World Requests Tokens Completions
when_completed = record when_approved {
  keys = (join_complete memory_redis 1000 7 secret_71 (some 2) joined when_approved.keys).1;
}

join_complete-once_example : IsRefused memory_redis (record when_completed { now = 2000 }) 7
join_complete-once_example =
    join_complete-once memory_redis when_approved (record when_completed { now = 2000 }) 7 secret_71
      (some 2) joined when_approved-IsSound completed_once (more (waits 2000 (omega arith)) done)

begun_once :
    is_ok (begin_completion memory_redis 1000 7 secret_71 (some 2) when_approved.keys).0 ≡ true
unfolding create_device_request create_record set_token save claim_as_approver consume_token
    take_token load approve settle_code new_code check_join_code is_four_digits diff_from
    begin_completion set_completion
begun_once = refl

abbrev when_begun : World Requests Tokens Completions
when_begun = record when_approved {
  keys = (begin_completion memory_redis 1000 7 secret_71 (some 2) when_approved.keys).1;
}

-- The request as the caller of the completion holds it.
abbrev approved_7 : JoinRequestRecord
approved_7 = record (claimed_by 1 (device_request 1000 fresh_7 (some 2) none)) { state = approved }

abbrev when_finished : World Requests Tokens Completions
when_finished = record when_begun {
  now = 2000;
  keys = (finish_completion memory_redis 2000 approved_7 when_begun.keys).1;
}

still_approved : look memory_redis (record when_begun { now = 2000 }) 7 ≡ some approved_7
unfolding create_device_request create_record set_token save claim_as_approver consume_token
    take_token load approve settle_code new_code check_join_code is_four_digits diff_from
    begin_completion set_completion
still_approved = refl

abbrev finishing : Steps memory_redis when_begun when_finished
finishing =
    more (waits 2000 (omega arith)) (more (finishes_one approved_7 refl (λ l. still_approved)) done)

begin_completion-once_example :
    is_ok (begin_completion memory_redis 2000 7 secret_71 (some 2) when_finished.keys).0 ≡ false
begin_completion-once_example =
    begin_completion-once memory_redis when_approved when_finished 7 secret_71 (some 2)
      when_approved-IsSound begun_once finishing refl secret_71 (some 2)

claim_as_approver-once_example : IsUsed memory_redis (record when_claimed { now = 2000 }) qr_70
unfolding any
claim_as_approver-once_example =
    claim_as_approver-once memory_redis when_asked (record when_claimed { now = 2000 }) qr_70 1 refl
      refl (more (waits 2000 (omega arith)) done)

approve-ok_iff_example :
    (is_ok (approve memory_redis 1000 7 1 (new_code 42) when_claimed.keys).0 ≡ true) ↔ (
      (p : JoinRequestRecord) × IsApprovable memory_redis 1000 7 1
        (new_code 42)
        when_claimed.keys
        p)
approve-ok_iff_example = approve-ok_iff memory_redis 1000 7 1 (new_code 42) when_claimed.keys

timely : IsTimely 1000 2000 3000 4000
timely = ground arith

presented : IsPresented 70 fresh_7 qr_70 secret_71
presented = ground arith

join_from_device_example :
    let s1 = (create_device_request memory_redis 1000 fresh_7 (some 2) none nothing_stored).1 in
    let s2 = (claim_as_approver memory_redis 2000 qr_70 1 s1).1 in
    let s3 = (approve memory_redis 3000 7 1 (new_code 42) s2).1 in
    (join_complete memory_redis 4000 7 secret_71 (some 2) joined s3).0 ≡ ok tt
join_from_device_example =
    join_from_device memory_redis 1000 2000 3000 4000 fresh_7 (some 2) none 1 qr_70 secret_71 joined
      nothing_stored timely presented refl refl

join_from_approver_example :
    let s1 = (create_invite memory_redis 1000 fresh_7 1 nothing_stored).1 in
    let s2 = (claim_as_device memory_redis 2000 qr_70 fresh_7 none none s1).1 in
    let s3 = (approve memory_redis 3000 7 1 (new_code 42) s2).1 in
    (join_complete memory_redis 4000 7 secret_71 none joined s3).0 ≡ ok tt
join_from_approver_example =
    join_from_approver memory_redis 1000 2000 3000 4000 fresh_7 fresh_7 none none 1 qr_70 secret_71
      joined nothing_stored timely presented refl refl
