-- ===== src/Worker/Agreement.antt =====
-- The two statements of persistResult against the tables of the repository: resultTransition,
-- attemptCompletionAllowed and attemptTransitionMatches.
use device_platform.Prelude.{
  ◌≡◌, Bool, true, false, String, Option, none, some, arith, ap, sym, refl, ◌∙◌, string_eq, ==_iff,
  ==_refl, if◌then◌else◌, Bool-cases, inl, inr,
}
use device_platform.Prelude.Table.{find, affects, modify, find-modify}
use device_platform.Prelude.Text.{truncate, optional}
use device_platform.Domain.Types.{
  CommandStatus, ConfirmationLevel, EvidenceStatus, attempt_outcome_eq, confirmation_level_eq,
}
use device_platform.Domain.Lifecycle.{can_transition_command}
use device_platform.Domain.Records.{Command}
use device_platform.Store.{Db, Result, ok, command_id}
use device_platform.CommandRepo.Dispatch.{CompleteAttemptRequest, complete_attempt, reason_or_empty}
use device_platform.CommandRepo.Evidence.{
  update_evidence_from_attempt, Transition, transition_from_attempt, attempt_transition_matches,
  update_command_transition, has_status, set_evidence, set_transition,
}
use device_platform.CommandRepo.Completion.{
  complete_attempt-Completed, allowed-progresses, allowed-does_not_regress,
}
use device_platform.Worker.Transitions.{DispatchResult, result_transition}
use device_platform.Worker.Handlers.{is_evidence_outcome}

abbrev pub answers_true : Result Bool → Bool
answers_true (ok b db) = b
answers_true (Result.err e) = false

-- The command that an operation leaves.
abbrev row_of : String → Result Bool → Option Command
row_of cid (ok b db) = find command_id cid db.commands
row_of cid (Result.err e) = none

-- The operation answers true, and the stored command has the status that the result calls for, with
-- its confirmation and evidence; a command that ends has its reason.
pub record TakesUp (cid : String) (r : DispatchResult) (reason : Option String)
    (target : CommandStatus) (end : Result Bool) : Type 0 where
  pub command : Command
  pub answered : answers_true end ≡ true
  pub stored : row_of cid end ≡ some command
  pub status : command.status ≡ target
  pub confirmation : command.confirmation_level ≡ r.confirmation_level
  pub evidence : command.evidence_status ≡ r.evidence_status
  pub reason_given : is_evidence_outcome r.outcome ≡ false → command.reason_code ≡ reason

-- The requests that persistResult makes of the repository for a result.
abbrev pub completion_of : DispatchResult → Option String → CompleteAttemptRequest
completion_of r reason = record {
  outcome = r.outcome;
  confirmation_level = r.confirmation_level;
  evidence_status = r.evidence_status;
  response_summary = r.response_summary;
  reason_code = reason;
  error_detail = optional (truncate r.error_detail 4096);
}

abbrev pub transition_of : DispatchResult → Option String → CommandStatus → Transition
transition_of r reason target = record {
  from = CommandStatus.sent;
  to = target;
  reason_code = reason;
  reason_detail = optional (truncate r.error_detail 4096);
  confirmation_level = r.confirmation_level;
  evidence_status = r.evidence_status;
}

-- The outcomes of a dispatch that end the command are those for which the two tables agree.
result_transition-matches :
    (r : DispatchResult) (reason : Option String) (target : CommandStatus)
    → result_transition r ≡ some (reason, target)
    → is_evidence_outcome r.outcome ≡ false
    → (attempt_transition_matches r.outcome (transition_of r reason target) ≡ true)
      × (can_transition_command CommandStatus.sent target ≡ true)
unfolding result_transition attempt_transition_matches can_transition_command
result_transition-matches r reason target h o = (
  ground (
    arith,
    ==_iff (reason_or_empty reason) "provider_rejected",
    ==_iff (reason_or_empty reason) "provider_transport_error",
  ),
  ground arith,
)

-- A command that is sent and has no evidence yet.
pub record IsAwaiting (c : Command) : Type 0 where
  pub sent : c.status ≡ CommandStatus.sent
  pub no_confirmation : c.confirmation_level ≡ ConfirmationLevel.none
  pub no_evidence : c.evidence_status ≡ EvidenceStatus.none

-- An accepted or unknown delivery leaves the command sent.
evidence_keeps_sent :
    (r : DispatchResult) (reason : Option String) (target : CommandStatus)
    → result_transition r ≡ some (reason, target)
    → is_evidence_outcome r.outcome ≡ true
    → target ≡ CommandStatus.sent
unfolding result_transition
evidence_keeps_sent r reason target h o = ground arith

module _ (cid aid token : String) (r : DispatchResult) (reason : Option String)
    (target : CommandStatus) (db db' : Db) (c : Command)
    (permitted : result_transition r ≡ some (reason, target))
    (found : find command_id cid db.commands ≡ some c) (awaiting : IsAwaiting c)
    (completed : complete_attempt cid aid token (completion_of r reason) db ≡ ok true db') where
  still_found : find command_id cid db'.commands ≡ some c
  still_found =
      let k = complete_attempt-Completed cid aid token (completion_of r reason) db db' completed in
      ground (arith, found, k.commands_kept)

  module _ (f : Command → Command) (keep : (x : Command) → (f x).id ≡ x.id) where
    sent_updated :
        find command_id cid (modify command_id cid (has_status CommandStatus.sent) f db'.commands)
        ≡ some (f c)
    sent_updated = ground (
      arith,
      still_found,
      awaiting.sent,
      find-modify command_id (has_status CommandStatus.sent) f keep cid cid db'.commands,
      ==_refl cid,
    )

    sent_affected : affects command_id cid (has_status CommandStatus.sent) db'.commands ≡ true
    unfolding affects
    sent_affected = ground (arith, still_found, awaiting.sent)

  evidence_is_taken :
      is_evidence_outcome r.outcome ≡ true
      → TakesUp cid r reason target
          (update_evidence_from_attempt cid aid token CommandStatus.sent db')
  unfolding update_evidence_from_attempt
  evidence_is_taken o =
      let k = complete_attempt-Completed cid aid token (completion_of r reason) db db' completed in
      let f : Command → Command = set_evidence db'.now r.confirmation_level r.evidence_status in
      let runs : update_evidence_from_attempt cid aid token CommandStatus.sent db'
          ≡ ok true (record db' {
            commands = modify command_id cid (has_status CommandStatus.sent) f db'.commands;
          }) =
        ground (
          arith,
          k.command_found,
          k.token_held,
          k.locked_next,
          allowed-progresses k.attempt.provider_code k.attempt.phase (completion_of r reason)
              k.allowed o,
          sent_affected f (λ x. refl),
          ==_refl token,
        ) in
      record {
        command = f c;
        answered = ap answers_true runs;
        stored = ap (row_of cid) runs ∙ sent_updated f (λ x. refl);
        status = awaiting.sent ∙ sym (evidence_keeps_sent r reason target permitted o);
        confirmation = refl;
        evidence = refl;
        reason_given = λ ends. absurd (ground (arith, ends, o));
      }

  transition_is_taken :
      is_evidence_outcome r.outcome ≡ false
      → TakesUp cid r reason target
          (transition_from_attempt cid aid token (transition_of r reason target) db')
  unfolding transition_from_attempt update_command_transition
  transition_is_taken o =
      let k = complete_attempt-Completed cid aid token (completion_of r reason) db db' completed in
      let f : Command → Command = set_transition db'.now (transition_of r reason target) in
      let runs : transition_from_attempt cid aid token (transition_of r reason target) db'
          ≡ ok true (record db' {
            commands = modify command_id cid (has_status CommandStatus.sent) f db'.commands;
          }) =
        ground (
          arith,
          k.command_found,
          k.token_held,
          k.locked_next,
          allowed-does_not_regress k.attempt.provider_code k.attempt.phase (completion_of r reason)
              k.allowed,
          (result_transition-matches r reason target permitted o).0,
          (result_transition-matches r reason target permitted o).1,
          sent_affected f (λ x. refl),
          ==_refl token,
          ==_refl r.confirmation_level,
        ) in
      record {
        command = f c;
        answered = ap answers_true runs;
        stored = ap (row_of cid) runs ∙ sent_updated f (λ x. refl);
        status = refl;
        confirmation = refl;
        evidence = refl;
        reason_given = λ ends. refl;
      }

  -- For a command that is sent and has neither confirmation nor evidence, a result that
  -- resultTransition lets through and whose attempt CompleteAttempt has completed is taken up by the
  -- next statement, UpdateEvidenceFromAttempt for an accepted or unknown delivery and
  -- TransitionFromAttempt for a failure: it answers true and stores the status that resultTransition
  -- gives, with the confirmation and the evidence of the result, and the reason of a failure.
  pub completed_result_is_taken : TakesUp cid r reason target (
      if is_evidence_outcome r.outcome
      then update_evidence_from_attempt cid aid token CommandStatus.sent db'
      else transition_from_attempt cid aid token (transition_of r reason target) db')
  completed_result_is_taken = elim (Bool-cases (is_evidence_outcome r.outcome)) [
    | inl o ↦ rw o (evidence_is_taken o)
    | inr o ↦ rw o (transition_is_taken o)
  ]
