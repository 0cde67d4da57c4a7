-- ===== src/CommandRepo/Dispatch.antt =====
-- postgres_command_event.go: attemptCompletionAllowed, MarkDispatching and CompleteAttempt.
use device_platform.Prelude.{
  ℕ, ◌+◌, ◌/◌, Bool, true, false, ◌&&◌, ◌||◌, not, String, Option, none, some, ltb, if◌then◌else◌,
  ◌==◌, ◌!=◌, string_eq,
}
use device_platform.Prelude.Json.{Json}
use device_platform.Prelude.Table.{modify, affects}
use device_platform.Domain.Types.{
  CommandStatus, AttemptPhase, AttemptOutcome, ConfirmationLevel, EvidenceStatus, command_status_eq,
  attempt_phase_eq, confirmation_level_eq, evidence_status_eq,
}
use device_platform.Domain.Records.{Command, CommandAttempt}
use device_platform.Store.{Tx, ok, command_id, attempt_id}
use device_platform.CommandRepo.Lock.{Locked, lock_command_attempt}

abbrev pub microsecond : ℕ
microsecond = 1000

-- The WHERE clause of an UPDATE that names only the key.
abbrev pub any {ℓ} : {A : Type ℓ} → A → Bool
any _ = true

pub record MarkDispatchingRequest : Type 0 where
  pub result_observation_timeout : ℕ
  pub dispatch_lease_duration : ℕ
  pub request_summary : Json

abbrev set_dispatching : ℕ → MarkDispatchingRequest → CommandAttempt → CommandAttempt
set_dispatching now request a = record a {
  phase = AttemptPhase.dispatching;
  request_summary = request.request_summary;
  lease_expires_at = now + request.dispatch_lease_duration / microsecond;
  dispatching_at = some now;
}

abbrev pub set_sent : ℕ → MarkDispatchingRequest → Command → Command
set_sent now request c = record c {
  status = CommandStatus.sent;
  sent_at = some now;
  result_deadline_at = some (now + request.result_observation_timeout / microsecond);
  updated_at = now;
}

abbrev may_dispatch : Locked → String → Bool
may_dispatch locked token = not (
    locked.command_status != CommandStatus.queued
    || not locked.dispatch_deadline_valid
    || locked.attempt_phase != AttemptPhase.claimed
    || locked.lease_token != token
    || not locked.lease_valid)

unfoldable pub mark_dispatching : String → String → String → MarkDispatchingRequest → Tx Bool
mark_dispatching cid aid token request db =
    if ltb request.result_observation_timeout microsecond
      || ltb request.dispatch_lease_duration microsecond
    then ok false db
    else elim (lock_command_attempt cid aid db) [
      | none ↦ ok false db
      | some locked ↦
          if may_dispatch locked token
          then ok (affects command_id cid any db.commands) (record db {
            attempts = modify attempt_id aid any (set_dispatching db.now request) db.attempts;
            commands = modify command_id cid any (set_sent db.now request) db.commands;
          })
          else ok false db
    ]

pub record CompleteAttemptRequest : Type 0 where
  pub outcome : AttemptOutcome
  pub confirmation_level : ConfirmationLevel
  pub evidence_status : EvidenceStatus
  pub response_summary : Json
  pub reason_code : Option String
  pub error_detail : Option String

-- The switch over the reasons of a request that was refused before dispatch.
unfoldable pub is_invalid_request_reason : String → Bool
is_invalid_request_reason reason =
    reason == "provider_not_configured"
    || reason == "provider_action_unsupported"
    || reason == "provider_mapping_unknown"
    || reason == "provider_session_unavailable"
    || reason == "provider_request_invalid"

abbrev is_before_dispatch : AttemptOutcome → Bool
is_before_dispatch AttemptOutcome.invalid_request = true
is_before_dispatch AttemptOutcome.not_dispatched = true
is_before_dispatch _ = false

abbrev is_known_provider : String → Bool
is_known_provider code = code == "wwtiot" || code == "omni" || code == "simulator"

abbrev before_dispatch_reason : AttemptOutcome → Option String → Bool
before_dispatch_reason outcome none = false
before_dispatch_reason AttemptOutcome.not_dispatched (some reason) = reason == "device_not_online"
before_dispatch_reason outcome (some reason) = is_invalid_request_reason reason

abbrev pub reason_or_empty : Option String → String
reason_or_empty none = ""
reason_or_empty (some reason) = reason

-- `validReason`
abbrev is_valid_reason : AttemptOutcome → String → Bool
is_valid_reason AttemptOutcome.provider_accepted reason = reason == ""
is_valid_reason AttemptOutcome.transport_error_before_send reason =
    reason == "provider_transport_error"
is_valid_reason AttemptOutcome.provider_rejected reason = reason == "provider_rejected"
is_valid_reason AttemptOutcome.indeterminate reason =
    reason == "provider_delivery_unknown" || reason == "provider_response_invalid"
is_valid_reason _ reason = false

abbrev evidence_is : CompleteAttemptRequest → ConfirmationLevel → EvidenceStatus → Bool
evidence_is request level evidence =
    request.confirmation_level == level && request.evidence_status == evidence

abbrev wwtiot_evidence : AttemptOutcome → CompleteAttemptRequest → Bool
wwtiot_evidence AttemptOutcome.transport_error_before_send r =
    evidence_is r ConfirmationLevel.none EvidenceStatus.none
wwtiot_evidence AttemptOutcome.indeterminate r =
    evidence_is r ConfirmationLevel.transport_sent EvidenceStatus.verified
wwtiot_evidence AttemptOutcome.provider_rejected r =
    evidence_is r ConfirmationLevel.transport_sent EvidenceStatus.unverified
wwtiot_evidence AttemptOutcome.provider_accepted r =
    evidence_is r ConfirmationLevel.provider_accepted EvidenceStatus.unverified
wwtiot_evidence _ r = false

abbrev simulator_evidence : AttemptOutcome → CompleteAttemptRequest → Bool
simulator_evidence AttemptOutcome.transport_error_before_send r =
    evidence_is r ConfirmationLevel.none EvidenceStatus.none
simulator_evidence AttemptOutcome.indeterminate r =
    evidence_is r ConfirmationLevel.transport_sent EvidenceStatus.verified
simulator_evidence AttemptOutcome.provider_rejected r =
    evidence_is r ConfirmationLevel.transport_sent EvidenceStatus.verified
simulator_evidence AttemptOutcome.provider_accepted r =
    evidence_is r ConfirmationLevel.provider_accepted EvidenceStatus.verified
simulator_evidence _ r = false

abbrev omni_evidence : AttemptOutcome → CompleteAttemptRequest → Bool
omni_evidence AttemptOutcome.transport_error_before_send r =
    evidence_is r ConfirmationLevel.none EvidenceStatus.none
omni_evidence AttemptOutcome.indeterminate r =
    evidence_is r ConfirmationLevel.transport_sent EvidenceStatus.verified
    && reason_or_empty r.reason_code == "provider_delivery_unknown"
omni_evidence _ r = false

unfoldable pub attempt_completion_allowed : String → AttemptPhase → CompleteAttemptRequest → Bool
unfolding is_invalid_request_reason
attempt_completion_allowed provider phase r =
    if is_before_dispatch r.outcome
    then is_known_provider provider
      && (phase == AttemptPhase.claimed
          && (r.confirmation_level == ConfirmationLevel.none
              && (r.evidence_status == EvidenceStatus.none
                  && before_dispatch_reason r.outcome r.reason_code)))
    else phase == AttemptPhase.dispatching
      && (is_valid_reason r.outcome (reason_or_empty r.reason_code)
          && (if provider == "wwtiot"
              then wwtiot_evidence r.outcome r
              else if provider == "simulator"
              then simulator_evidence r.outcome r
              else if provider == "omni"
              then omni_evidence r.outcome r
              else false))

abbrev pub set_completed : ℕ → CompleteAttemptRequest → CommandAttempt → CommandAttempt
set_completed now r a = record a {
  phase = AttemptPhase.completed;
  outcome = some r.outcome;
  confirmation_level = r.confirmation_level;
  evidence_status = r.evidence_status;
  response_summary = r.response_summary;
  reason_code = r.reason_code;
  error_detail = r.error_detail;
  completed_at = some now;
}

abbrev may_complete : Locked → String → CompleteAttemptRequest → Bool
may_complete locked token r =
    not (
      locked.attempt_phase == AttemptPhase.completed
      || locked.lease_token != token
      || not locked.lease_valid)
    && not (
        (is_before_dispatch r.outcome && locked.command_status != CommandStatus.queued)
        || (not (is_before_dispatch r.outcome) && locked.command_status != CommandStatus.sent)
        || not (attempt_completion_allowed locked.provider_code locked.attempt_phase r))

unfoldable pub complete_attempt : String → String → String → CompleteAttemptRequest → Tx Bool
complete_attempt cid aid token r db = elim (lock_command_attempt cid aid db) [
  | none ↦ ok false db
  | some locked ↦
      if may_complete locked token r
      then ok (affects attempt_id aid any db.attempts)
          (record db { attempts = modify attempt_id aid any (set_completed db.now r) db.attempts })
      else ok false db
]
