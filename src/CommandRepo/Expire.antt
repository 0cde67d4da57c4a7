-- ===== src/CommandRepo/Expire.antt =====
-- postgres_command_event.go: finishQueued, CancelQueued, ExpireQueued, ExpireResultObservation and
-- RecoverExpiredDispatching.
use device_platform.Prelude.{
  ℕ, Bool, true, false, ◌&&◌, ◌||◌, not, String, List, Option, none, some, leb, ltb, if◌then◌else◌,
  ◌==◌, ◌!=◌, string_eq,
}
use device_platform.Prelude.Json.{empty_object}
use device_platform.Prelude.Table.{find, modify, affects, select}
use device_platform.Domain.Types.{
  CommandStatus, AttemptPhase, AttemptOutcome, ConfirmationLevel, EvidenceStatus, command_status_eq,
  attempt_phase_eq,
}
use device_platform.Domain.Records.{Command, CommandAttempt}
use device_platform.Store.{Db, Tx, ok, command_id, attempt_id}
use device_platform.CommandRepo.Lock.{Locked, lock_command_attempt}
use device_platform.CommandRepo.Dispatch.{any}
use device_platform.CommandRepo.Evidence.{has_status}

-- WHERE command_id = $1 AND phase <> 'completed'
abbrev is_open_of : String → CommandAttempt → Bool
is_open_of cid a = a.command_id == cid && a.phase != AttemptPhase.completed

abbrev pub first_row {ℓ} : {R : Type ℓ} → List R → Option R
first_row List.[] = none
first_row (List.◌∷◌ r rows) = some r

-- At most one row matches, by the index uq_command_attempts_one_incomplete.
unfoldable pub open_attempt : String → Db → Option CommandAttempt
open_attempt cid db = first_row (select attempt_id (is_open_of cid) db.attempts)

abbrev set_not_dispatched : ℕ → String → Option String → CommandAttempt → CommandAttempt
set_not_dispatched now reason detail a = record a {
  phase = AttemptPhase.completed;
  outcome = some AttemptOutcome.not_dispatched;
  confirmation_level = ConfirmationLevel.none;
  evidence_status = EvidenceStatus.none;
  response_summary = empty_object;
  reason_code = some reason;
  error_detail = detail;
  completed_at = some now;
}

abbrev pub set_finished : ℕ → CommandStatus → String → Option String → Command → Command
set_finished now status reason detail c = record c {
  status = status;
  reason_code = some reason;
  reason_detail = detail;
  confirmation_level = ConfirmationLevel.none;
  evidence_status = EvidenceStatus.none;
  finished_at = some now;
  updated_at = now;
}

abbrev has_token : String → CommandAttempt → Bool
has_token token a = a.lease_token == token

abbrev is_owned : ℕ → CommandAttempt → Bool
is_owned now a = ltb now a.lease_expires_at || a.phase != AttemptPhase.claimed

-- The last UPDATE of finishQueued.
unfoldable pub close_command : String → CommandStatus → String → Option String → Tx Bool
close_command cid status reason detail db = ok (affects command_id cid any db.commands) (record db {
  commands = modify command_id cid any (set_finished db.now status reason detail) db.commands;
})

unfoldable pub finish_queued : String → CommandStatus → String → Option String → Bool → Tx Bool
unfolding close_command open_attempt
finish_queued cid status reason detail require_expired db = elim (find command_id cid db.commands) [
  | none ↦ ok false db
  | some c ↦
      if c.status != CommandStatus.queued
        || (require_expired && not (leb c.dispatch_deadline_at db.now))
      then ok false db
      else elim (open_attempt cid db) [
        | none ↦ close_command cid status reason detail db
        | some a ↦
            if is_owned db.now a
            then ok false db
            else close_command cid status reason detail (record db {
              attempts =
                  modify attempt_id a.id (has_token a.lease_token)
                    (set_not_dispatched db.now reason detail) db.attempts;
            })
      ]
]

unfoldable pub cancel_queued : String → Option String → Tx Bool
unfolding finish_queued
cancel_queued cid detail =
    finish_queued cid CommandStatus.cancelled "cancelled_by_request" detail false

unfoldable pub expire_queued : String → Tx Bool
unfolding finish_queued
expire_queued cid = finish_queued cid CommandStatus.timeout "dispatch_deadline_exceeded" none true

-- `deadline <= now()`, which NULL does not satisfy.
abbrev pub is_past : ℕ → Option ℕ → Bool
is_past now none = false
is_past now (some deadline) = leb deadline now

abbrev pub set_timeout : ℕ → Command → Command
set_timeout now c = record c {
  status = CommandStatus.timeout;
  reason_code = some "result_observation_timeout";
  reason_detail = none;
  finished_at = some now;
  updated_at = now;
}

abbrev pub is_overdue : ℕ → CommandStatus → Command → Bool
is_overdue now status c = c.status == status && is_past now c.result_deadline_at

unfoldable pub expire_result_observation : String → Tx Bool
unfolding open_attempt
expire_result_observation cid db = elim (find command_id cid db.commands) [
  | none ↦ ok false db
  | some c ↦
      if not (is_past db.now c.result_deadline_at)
        || (c.status != CommandStatus.sent && c.status != CommandStatus.acked)
      then ok false db
      else elim (open_attempt cid db) [
        | some a ↦ ok false db
        | none ↦ ok (affects command_id cid (is_overdue db.now c.status) db.commands) (record db {
          commands =
              modify command_id cid (is_overdue db.now c.status) (set_timeout db.now) db.commands;
        })
      ]
]

abbrev set_indeterminate : ℕ → CommandAttempt → CommandAttempt
set_indeterminate now a = record a {
  phase = AttemptPhase.completed;
  outcome = some AttemptOutcome.indeterminate;
  confirmation_level = ConfirmationLevel.transport_sent;
  evidence_status = EvidenceStatus.unverified;
  response_summary = empty_object;
  reason_code = some "provider_delivery_unknown";
  error_detail = none;
  completed_at = some now;
}

abbrev is_dispatching_of : String → String → CommandAttempt → Bool
is_dispatching_of cid token a =
    a.command_id == cid && a.phase == AttemptPhase.dispatching && a.lease_token == token

abbrev pub set_transport_sent : ℕ → Command → Command
set_transport_sent now c = record c {
  confirmation_level = ConfirmationLevel.transport_sent;
  evidence_status = EvidenceStatus.unverified;
  updated_at = now;
}

abbrev may_recover : Locked → String → Bool
may_recover locked token = not (
    locked.command_status != CommandStatus.sent
    || locked.attempt_phase != AttemptPhase.dispatching
    || locked.lease_token != token
    || locked.lease_valid)

unfoldable pub recover_expired_dispatching : String → String → String → Tx Bool
recover_expired_dispatching cid aid token db = elim (lock_command_attempt cid aid db) [
  | none ↦ ok false db
  | some locked ↦
      if may_recover locked token
      then ok (affects command_id cid (has_status CommandStatus.sent) db.commands) (record db {
        attempts =
            modify attempt_id aid (is_dispatching_of cid token) (set_indeterminate db.now)
              db.attempts;
        commands =
            modify command_id cid (has_status CommandStatus.sent) (set_transport_sent db.now)
              db.commands;
      })
      else ok false db
]
