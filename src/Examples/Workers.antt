-- ===== src/Examples/Workers.antt =====
-- The theorems on the worker, at concrete databases.
use device_platform.Prelude.{◌≡◌, refl, true, false, none, some, if◌then◌else◌}
use device_platform.Prelude.Text.{trim_space}
use device_platform.Prelude.Table.{find, select, modify, affects}
use device_platform.Domain.Types.{CommandStatus}
use device_platform.Store.{Db, ok, attempt_id}
use device_platform.CommandRepo.Lock.{get, lock_command_attempt}
use device_platform.CommandRepo.Dispatch.{
  any, set_completed, complete_attempt, attempt_completion_allowed, mark_dispatching,
}
use device_platform.CommandRepo.Evidence.{update_evidence_from_attempt, transition_from_attempt}
use device_platform.CommandRepo.Journal.{create_event, create_delivery}
use device_platform.Worker.Events.{create_status_event, create_command_event}
use device_platform.Worker.Transitions.{result_transition}
use device_platform.Worker.Handlers.{is_evidence_outcome, dispatch_claimed}
use device_platform.Worker.Agreement.{
  TakesUp, completion_of, transition_of, IsAwaiting, completed_result_is_taken,
}
use device_platform.Worker.Gate.{MayDispatch, online_if_required, dispatch_is_granted}
use device_platform.Examples.Data.{
  accepted, sent_command, sent_db, claimed_db, simulator, ids, queued_command, claimed_attempt,
}

-- What CompleteAttempt leaves of the database.
abbrev completed_db : Db
completed_db = record sent_db {
  attempts =
      modify attempt_id "a1" any (set_completed 5 (completion_of accepted none)) sent_db.attempts;
}

completes :
    complete_attempt "c1" "a1" "w1" (completion_of accepted none) sent_db ≡ ok true completed_db
unfolding complete_attempt lock_command_attempt attempt_completion_allowed find modify affects
completes = refl

sent_command-IsAwaiting : IsAwaiting sent_command
sent_command-IsAwaiting = record { sent = refl; no_confirmation = refl; no_evidence = refl }

permitted : result_transition accepted ≡ some (none, CommandStatus.sent)
unfolding result_transition
permitted = refl

completed_result_is_taken_example : TakesUp "c1" accepted none CommandStatus.sent (
    if is_evidence_outcome accepted.outcome
    then update_evidence_from_attempt "c1" "a1" "w1" CommandStatus.sent completed_db
    else transition_from_attempt "c1" "a1" "w1"
        (transition_of accepted none CommandStatus.sent)
        completed_db)
unfolding find
completed_result_is_taken_example =
    completed_result_is_taken "c1" "a1" "w1" accepted none CommandStatus.sent sent_db completed_db
      sent_command permitted refl sent_command-IsAwaiting completes

calls :
    (dispatch_claimed 15000000000 ids
      (λ db. db)
      simulator
      queued_command
      claimed_attempt
      claimed_db).called
    ≡ true
unfolding dispatch_claimed find select mark_dispatching lock_command_attempt affects get modify
    create_status_event create_command_event create_event create_delivery trim_space
calls = refl

dispatch_is_granted_example :
    MayDispatch "c1" "a1" "w1" claimed_db
    × (online_if_required queued_command claimed_db ≡ true)
    × (queued_command.retry_allowed ≡ false)
    × (simulator.adapter.configured ≡ true)
dispatch_is_granted_example =
    dispatch_is_granted 15000000000 ids (λ db. db) simulator queued_command claimed_attempt
      claimed_db calls
