-- ===== src/CommandRepo/Evidence.antt =====
-- postgres_command_event.go: UpdateEvidenceFromAttempt, TransitionFromAttempt and
-- UpdateProviderAcceptanceFromVerifiedMessage.
use device_platform.Prelude.{
  ℕ, Bool, true, false, ◌&&◌, ◌||◌, not, String, Option, none, some, if◌then◌else◌, ◌==◌, ◌!=◌,
  string_eq,
}
use device_platform.Prelude.Json.{Json}
use device_platform.Prelude.Table.{find, modify, affects}
use device_platform.Domain.Types.{
  CommandStatus, AttemptPhase, AttemptOutcome, ConfirmationLevel, EvidenceStatus, adapter_eq,
  command_status_eq, attempt_phase_eq, attempt_outcome_eq, confirmation_level_eq,
  evidence_status_eq,
}
use device_platform.Domain.Lifecycle.{can_transition_command}
use device_platform.Domain.Records.{Command, CommandAttempt, Device, RawMessage}
use device_platform.Store.{Db, Tx, ok, command_id, attempt_id, device_id, message_id}
use device_platform.CommandRepo.Lock.{
  Locked, lock_command_attempt, evidence_progresses, evidence_does_not_regress,
}
use device_platform.CommandRepo.Dispatch.{reason_or_empty, is_invalid_request_reason}

abbrev is_accepted_or_unknown : Option AttemptOutcome → Bool
is_accepted_or_unknown (some AttemptOutcome.provider_accepted) = true
is_accepted_or_unknown (some AttemptOutcome.indeterminate) = true
is_accepted_or_unknown _ = false

abbrev may_update_evidence : Locked → String → CommandStatus → Bool
may_update_evidence locked token expected = not (
    locked.command_status != expected
    || expected != CommandStatus.sent
    || locked.attempt_phase != AttemptPhase.completed
    || locked.lease_token != token
    || not (is_accepted_or_unknown locked.attempt_outcome)
    || not (
        evidence_progresses locked.command_confirmation locked.command_evidence
          locked.attempt_confirmation locked.attempt_evidence))

abbrev pub has_status : CommandStatus → Command → Bool
has_status status c = c.status == status

abbrev pub set_evidence : ℕ → ConfirmationLevel → EvidenceStatus → Command → Command
set_evidence now level evidence c = record c {
  confirmation_level = level;
  evidence_status = evidence;
  updated_at = now;
}

unfoldable pub update_evidence_from_attempt : String → String → String → CommandStatus → Tx Bool
update_evidence_from_attempt cid aid token expected db = elim (lock_command_attempt cid aid db) [
  | none ↦ ok false db
  | some locked ↦
      if may_update_evidence locked token expected
      then ok (affects command_id cid (has_status expected) db.commands) (record db {
        commands =
            modify command_id cid (has_status expected)
              (set_evidence db.now locked.attempt_confirmation locked.attempt_evidence) db.commands;
      })
      else ok false db
]

pub record Transition : Type 0 where
  pub from : CommandStatus
  pub to : CommandStatus
  pub reason_code : Option String
  pub reason_detail : Option String
  pub confirmation_level : ConfirmationLevel
  pub evidence_status : EvidenceStatus

abbrev goes : Transition → CommandStatus → CommandStatus → Bool
goes t from to = t.from == from && t.to == to

unfoldable pub attempt_transition_matches : AttemptOutcome → Transition → Bool
unfolding is_invalid_request_reason
attempt_transition_matches AttemptOutcome.invalid_request t =
    goes t CommandStatus.queued CommandStatus.failed
    && is_invalid_request_reason (reason_or_empty t.reason_code)
attempt_transition_matches AttemptOutcome.transport_error_before_send t =
    goes t CommandStatus.sent CommandStatus.failed
    && reason_or_empty t.reason_code == "provider_transport_error"
attempt_transition_matches AttemptOutcome.provider_rejected t =
    goes t CommandStatus.sent CommandStatus.failed
    && reason_or_empty t.reason_code == "provider_rejected"
attempt_transition_matches AttemptOutcome.not_dispatched t =
    goes t CommandStatus.queued CommandStatus.failed
    && reason_or_empty t.reason_code == "device_not_online"
attempt_transition_matches _ t = false

abbrev outcome_matches : Option AttemptOutcome → Transition → Bool
outcome_matches none t = false
outcome_matches (some outcome) t = attempt_transition_matches outcome t

abbrev pub may_transition : Locked → String → Transition → Bool
may_transition locked token t = not (
    locked.command_status != t.from
    || locked.attempt_phase != AttemptPhase.completed
    || locked.lease_token != token
    || locked.attempt_confirmation != t.confirmation_level
    || locked.attempt_evidence != t.evidence_status
    || not (can_transition_command t.from t.to)
    || not (outcome_matches locked.attempt_outcome t)
    || not (
        evidence_does_not_regress locked.command_confirmation locked.command_evidence
          t.confirmation_level t.evidence_status))

abbrev pub set_transition : ℕ → Transition → Command → Command
set_transition now t c = record c {
  status = t.to;
  reason_code = t.reason_code;
  reason_detail = t.reason_detail;
  confirmation_level = t.confirmation_level;
  evidence_status = t.evidence_status;
  finished_at = some now;
  updated_at = now;
}

unfoldable pub update_command_transition : String → Transition → Tx Bool
update_command_transition cid t db =
    ok (affects command_id cid (has_status t.from) db.commands) (record db {
      commands = modify command_id cid (has_status t.from) (set_transition db.now t) db.commands;
    })

unfoldable pub transition_from_attempt : String → String → String → Transition → Tx Bool
unfolding update_command_transition
transition_from_attempt cid aid token t db = elim (lock_command_attempt cid aid db) [
  | none ↦ ok false db
  | some locked ↦
      if may_transition locked token t then update_command_transition cid t db else ok false db
]

pub record VerifiedEvidenceUpdateRequest : Type 0 where
  pub attempt_id : String
  pub raw_message_id : String
  pub raw_message_deduplication_key : String
  pub attempt_outcome : AttemptOutcome
  pub response_summary : Json
  pub expected_status : CommandStatus

abbrev is_accepted : Option AttemptOutcome → Bool
is_accepted (some AttemptOutcome.provider_accepted) = true
is_accepted _ = false

abbrev may_verify : Locked → VerifiedEvidenceUpdateRequest → Bool
may_verify locked r = not (
    locked.command_status != r.expected_status
    || r.expected_status != CommandStatus.sent
    || locked.attempt_phase != AttemptPhase.completed
    || not (is_accepted locked.attempt_outcome)
    || r.attempt_outcome != AttemptOutcome.provider_accepted
    || locked.provider_code != "simulator"
    || locked.attempt_confirmation != ConfirmationLevel.provider_accepted
    || not (
        evidence_progresses locked.command_confirmation locked.command_evidence
          ConfirmationLevel.provider_accepted EvidenceStatus.verified)
    || not (
        evidence_progresses locked.attempt_confirmation locked.attempt_evidence
          ConfirmationLevel.provider_accepted EvidenceStatus.verified))

-- `rm.device_id = c.device_id`: no row compares equal to NULL.
abbrev is_device : Option String → String → Bool
is_device none id = false
is_device (some device) id = device == id

-- The joined row of the SELECT EXISTS, for the message, command, attempt and device at hand.
unfoldable message_matches :
    VerifiedEvidenceUpdateRequest → RawMessage → Command → CommandAttempt → Device → Bool
message_matches r rm c a d =
    rm.deduplication_key == r.raw_message_deduplication_key
    && rm.deduplication_key == a.provider_request_key
    && a.command_id == c.id
    && is_device rm.device_id c.device_id
    && rm.provider_code == "simulator"
    && rm.provider_code == a.provider_code
    && rm.adapter == a.adapter
    && rm.provider_code == d.provider_code
    && rm.provider_device_id == d.provider_device_id
    && rm.is_inbound

unfoldable pub evidence_matches : String → VerifiedEvidenceUpdateRequest → Db → Bool
unfolding message_matches
evidence_matches cid r db = elim (find message_id r.raw_message_id db.raw_messages) [
  | none ↦ false
  | some rm ↦ elim (find command_id cid db.commands) [
    | none ↦ false
    | some c ↦ elim (find attempt_id r.attempt_id db.attempts) [
      | none ↦ false
      | some a ↦ elim (find device_id c.device_id db.devices) [
        | none ↦ false
        | some d ↦ message_matches r rm c a d
      ]
    ]
  ]
]

abbrev set_verified : VerifiedEvidenceUpdateRequest → CommandAttempt → CommandAttempt
set_verified r a = record a {
  outcome = some r.attempt_outcome;
  confirmation_level = ConfirmationLevel.provider_accepted;
  evidence_status = EvidenceStatus.verified;
  response_summary = r.response_summary;
}

abbrev is_completed_of : String → CommandAttempt → Bool
is_completed_of cid a = a.command_id == cid && a.phase == AttemptPhase.completed

abbrev pub set_accepted : ℕ → Command → Command
set_accepted now = set_evidence now ConfirmationLevel.provider_accepted EvidenceStatus.verified

unfoldable pub update_provider_acceptance_from_verified_message :
    String → VerifiedEvidenceUpdateRequest → Tx Bool
update_provider_acceptance_from_verified_message cid r db =
    elim (lock_command_attempt cid r.attempt_id db) [
      | none ↦ ok false db
      | some locked ↦
          if may_verify locked r && evidence_matches cid r db
          then (let db' = record db {
            attempts =
                modify attempt_id r.attempt_id (is_completed_of cid) (set_verified r) db.attempts;
          } in
              if affects attempt_id r.attempt_id (is_completed_of cid) db.attempts
              then ok (affects command_id cid (has_status r.expected_status) db.commands)
                  (record db' {
                    commands =
                        modify command_id cid (has_status r.expected_status) (set_accepted db.now)
                          db.commands;
                  })
              else ok false db')
          else ok false db
    ]
