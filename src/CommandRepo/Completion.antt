-- ===== src/CommandRepo/Completion.antt =====
-- What a successful CompleteAttempt tells of the attempt, and what the next statement of the same
-- transaction then sees.
use device_platform.Prelude.{
  ◌≡◌, refl, true, ◌||◌, String, some, arith, ◌==◌, string_eq, ==_iff, ==_refl, inl, inr,
  Option-cases,
}
use device_platform.Prelude.Table.{find, find-modify}
use device_platform.Domain.Types.{
  AttemptPhase, AttemptOutcome, ConfirmationLevel, EvidenceStatus, attempt_outcome_eq,
}
use device_platform.Domain.Records.{Command, CommandAttempt}
use device_platform.Store.{Db, ok, command_id, attempt_id}
use device_platform.CommandRepo.Lock.{
  scan_locked, lock_command_attempt, evidence_progresses, evidence_does_not_regress,
}
use device_platform.CommandRepo.Dispatch.{
  any, CompleteAttemptRequest, set_completed, complete_attempt, attempt_completion_allowed,
}

-- The evidence that a provider may report takes nothing back from a command that has none, and adds
-- to it where the provider accepted the request or may have received it.
module _ (provider : String) (phase : AttemptPhase) (r : CompleteAttemptRequest) where
  pub allowed-progresses :
      attempt_completion_allowed provider phase r ≡ true
      → (r.outcome == AttemptOutcome.provider_accepted || r.outcome == AttemptOutcome.indeterminate)
        ≡ true
      → evidence_progresses ConfirmationLevel.none EvidenceStatus.none r.confirmation_level
          r.evidence_status
        ≡ true
  unfolding attempt_completion_allowed evidence_progresses
  allowed-progresses h o = ground arith

  pub allowed-does_not_regress :
      attempt_completion_allowed provider phase r ≡ true
      → evidence_does_not_regress ConfirmationLevel.none EvidenceStatus.none r.confirmation_level
          r.evidence_status
        ≡ true
  unfolding attempt_completion_allowed evidence_does_not_regress
  allowed-does_not_regress h = ground arith

-- The rows that CompleteAttempt found, and the database that it left.
pub record Completed (cid aid token : String) (r : CompleteAttemptRequest) (db db' : Db)
    : Type 0 where
  pub command : Command
  pub attempt : CommandAttempt
  pub command_found : find command_id cid db.commands ≡ some command
  pub attempt_found : find attempt_id aid db.attempts ≡ some attempt
  pub allowed : attempt_completion_allowed attempt.provider_code attempt.phase r ≡ true
  pub token_held : attempt.lease_token ≡ token
  pub commands_kept : db'.commands ≡ db.commands
  pub locked_next :
      lock_command_attempt cid aid db'
      ≡ some (scan_locked db.now command (set_completed db.now r attempt))

pub complete_attempt-Completed :
    (cid aid token : String) (r : CompleteAttemptRequest) (db db' : Db)
    → complete_attempt cid aid token r db ≡ ok true db'
    → Completed cid aid token r db db'
unfolding complete_attempt lock_command_attempt
complete_attempt-Completed cid aid token r db db' h =
    elim (Option-cases (find command_id cid db.commands)) [
      | inl e ↦ absurd (ground arith)
      | inr (c, ec) ↦ elim (Option-cases (find attempt_id aid db.attempts)) [
        | inl e ↦ absurd (ground arith)
        | inr (a, ea) ↦ record {
          command = c;
          attempt = a;
          command_found = ec;
          attempt_found = ea;
          allowed = ground arith;
          token_held = ground (arith, ==_iff a.lease_token token);
          commands_kept = ground arith;
          locked_next = ground (
            arith,
            find-modify attempt_id any (set_completed db.now r) (λ x. refl) aid aid db.attempts,
            ==_refl aid,
          );
        }
      ]
    ]
