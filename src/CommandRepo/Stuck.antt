-- ===== src/CommandRepo/Stuck.antt =====
-- A result that overtakes the answer of the provider.
use device_platform.Prelude.{◌≡◌, false, String, some, arith, string_eq}
use device_platform.Prelude.Table.{find}
use device_platform.Domain.Types.{CommandStatus, AttemptPhase, command_status_eq, attempt_phase_eq}
use device_platform.Domain.Records.{Command, CommandAttempt}
use device_platform.Store.{Db, ok, command_id, attempt_id}
use device_platform.CommandRepo.Lock.{lock_command_attempt}
use device_platform.CommandRepo.Dispatch.{
  CompleteAttemptRequest, complete_attempt, attempt_completion_allowed,
}
use device_platform.CommandRepo.Expire.{
  open_attempt, expire_result_observation, recover_expired_dispatching,
}

-- A command that a result has taken past `sent` while its attempt is still dispatching.
pub record IsOvertaken (cid : String) (db : Db) : Type 0 where
  pub command : Command
  pub attempt : CommandAttempt
  pub command_found : find command_id cid db.commands ≡ some command
  pub acknowledged : command.status ≡ CommandStatus.acked
  pub attempt_open : open_attempt cid db ≡ some attempt
  pub attempt_found : find attempt_id attempt.id db.attempts ≡ some attempt
  pub dispatching : attempt.phase ≡ AttemptPhase.dispatching

-- While it is so, the attempt can be completed by no answer of the provider and recovered after no
-- lapse of its lease, and the command cannot time out however late it is: the three statements that
-- would end either one change nothing.
pub overtaken_is_stuck :
    (cid token : String) (r : CompleteAttemptRequest) (db : Db) (h : IsOvertaken cid db)
    → (complete_attempt cid h.attempt.id token r db ≡ ok false db)
      × (recover_expired_dispatching cid h.attempt.id token db ≡ ok false db)
      × (expire_result_observation cid db ≡ ok false db)
unfolding complete_attempt recover_expired_dispatching expire_result_observation
    lock_command_attempt attempt_completion_allowed
overtaken_is_stuck cid token r db h = (ground arith, ground arith, ground arith)
