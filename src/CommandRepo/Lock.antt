-- ===== src/CommandRepo/Lock.antt =====
-- postgres_command_event.go: Get, lockCommandAttempt, and the comparisons of evidence.
use device_platform.Prelude.{
  ℕ, Bool, ◌&&◌, ◌||◌, String, Option, none, some, ltb, if◌then◌else◌, ◌==◌, ◌!=◌, string_eq,
}
use device_platform.Prelude.Table.{find}
use device_platform.Domain.Types.{
  CommandStatus, AttemptPhase, AttemptOutcome, ConfirmationLevel, EvidenceStatus,
  confirmation_level_eq, evidence_status_eq,
}
use device_platform.Domain.Lifecycle.{can_advance_confirmation}
use device_platform.Domain.Records.{Command, CommandAttempt}
use device_platform.Store.{Db, Tx, ok, err, no_rows, command_id, attempt_id}

unfoldable pub get : String → Tx Command
get id db = elim (find command_id id db.commands) [ none ↦ err no_rows | some c ↦ ok c db ]

unfoldable pub get_attempt : String → Tx CommandAttempt
get_attempt id db = elim (find attempt_id id db.attempts) [ none ↦ err no_rows | some a ↦ ok a db ]

-- lockedCommandAttempt
pub record Locked : Type 0 where
  pub command_status : CommandStatus
  pub command_confirmation : ConfirmationLevel
  pub command_evidence : EvidenceStatus
  pub dispatch_deadline_valid : Bool
  pub attempt_phase : AttemptPhase
  pub attempt_outcome : Option AttemptOutcome
  pub attempt_confirmation : ConfirmationLevel
  pub attempt_evidence : EvidenceStatus
  pub provider_code : String
  pub lease_token : String
  pub lease_valid : Bool

-- What the two SELECT … FOR UPDATE statements scan.
abbrev pub scan_locked : ℕ → Command → CommandAttempt → Locked
scan_locked now c a = record {
  command_status = c.status;
  command_confirmation = c.confirmation_level;
  command_evidence = c.evidence_status;
  dispatch_deadline_valid = ltb now c.dispatch_deadline_at;
  attempt_phase = a.phase;
  attempt_outcome = a.outcome;
  attempt_confirmation = a.confirmation_level;
  attempt_evidence = a.evidence_status;
  provider_code = a.provider_code;
  lease_token = a.lease_token;
  lease_valid = ltb now a.lease_expires_at;
}

-- `none` is sql.ErrNoRows.
unfoldable pub lock_command_attempt : String → String → Db → Option Locked
lock_command_attempt cid aid db = elim (find command_id cid db.commands) [
  | none ↦ none
  | some c ↦ elim (find attempt_id aid db.attempts) [
    | none ↦ none
    | some a ↦ if a.command_id == cid then some (scan_locked db.now c a) else none
  ]
]

unfoldable pub evidence_progresses :
    ConfirmationLevel → EvidenceStatus → ConfirmationLevel → EvidenceStatus → Bool
unfolding can_advance_confirmation
evidence_progresses current_level current_evidence next_level next_evidence =
    can_advance_confirmation current_level next_level
    && (next_level != current_level
        || (current_evidence != next_evidence
            && (current_evidence != EvidenceStatus.verified
                && next_evidence == EvidenceStatus.verified)))

unfoldable pub evidence_does_not_regress :
    ConfirmationLevel → EvidenceStatus → ConfirmationLevel → EvidenceStatus → Bool
unfolding can_advance_confirmation
evidence_does_not_regress current_level current_evidence next_level next_evidence =
    can_advance_confirmation current_level next_level
    && (next_level != current_level
        || (current_evidence != EvidenceStatus.verified
            || next_evidence == EvidenceStatus.verified))
