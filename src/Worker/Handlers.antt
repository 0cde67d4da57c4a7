-- ===== src/Worker/Handlers.antt =====
-- commandworker/worker.go: failBeforeDispatch, commitDispatch, persistResult and dispatchClaimed.
use Prim.Native.Nat.{max}
use device_platform.Prelude.{
  ℕ, ◌+◌, Bool, true, false, ◌||◌, not, String, Option, none, some, if◌then◌else◌, ◌==◌, ◌!=◌,
  string_eq, nat_eq,
}
use device_platform.Prelude.Json.{Json, empty_object}
use device_platform.Prelude.Text.{truncate, optional, ◌<>◌}
use device_platform.Prelude.Table.{find}
use device_platform.Domain.Types.{
  CommandStatus, AttemptOutcome, ConfirmationLevel, EvidenceStatus, EventSource, DeliveryPolicy,
  ConnectionStatus, delivery_policy_eq, connection_status_eq, attempt_outcome_eq, adapter_eq,
}
use device_platform.Domain.Texts.{
  attempt_outcome_text, confirmation_level_text, evidence_status_text,
}
use device_platform.Domain.Records.{Command, CommandAttempt, Device}
use device_platform.Store.{
  Db, Tx, Answer, done, ok, err, ◌>>=◌, ◌>>◌, pure, raise, transact, device_id, no_rows, lease_lost,
  runtime_state,
}
use device_platform.CommandRepo.Lock.{get}
use device_platform.CommandRepo.Dispatch.{
  mark_dispatching, complete_attempt, is_invalid_request_reason,
}
use device_platform.CommandRepo.Evidence.{update_evidence_from_attempt, transition_from_attempt}
use device_platform.Worker.Events.{Fresh, status_key, create_status_event, create_evidence_event}
use device_platform.Worker.Transitions.{
  AdapterRegistration, DispatchRequest, DispatchResult, Prepared, prepare_failure_text,
  result_transition,
}

-- `if !updated { return ErrLeaseLost }`
abbrev require_lease : Bool → Tx (Unit {0})
require_lease updated = if updated then pure tt else raise lease_lost

-- tx.Devices().GetForUpdate
unfoldable pub get_device : String → Tx Device
get_device id db = elim (find device_id id db.devices) [ none ↦ err no_rows | some d ↦ ok d db ]

-- The steps by which an attempt that was never sent ends with its command: CompleteAttempt,
-- TransitionFromAttempt from queued to failed, Get and the event.
unfoldable fail_queued :
    Fresh
    → Command
    → CommandAttempt
    → EventSource
    → AttemptOutcome
    → String
    → Option String
    → Tx (Unit {0})
fail_queued fresh c a source outcome reason detail = do
  completed ← complete_attempt c.id a.id a.lease_token (record {
    outcome = outcome;
    confirmation_level = ConfirmationLevel.none;
    evidence_status = EvidenceStatus.none;
    response_summary = empty_object;
    reason_code = some reason;
    error_detail = detail;
  })
  require_lease completed
  transitioned ← transition_from_attempt c.id a.id a.lease_token (record {
    from = CommandStatus.queued;
    to = CommandStatus.failed;
    reason_code = some reason;
    reason_detail = detail;
    confirmation_level = ConfirmationLevel.none;
    evidence_status = EvidenceStatus.none;
  })
  require_lease transitioned
  updated ← get c.id
  create_status_event fresh updated CommandStatus.queued source (status_key c.id updated.status)

unfoldable fail_before_dispatch :
    Fresh → Command → CommandAttempt → EventSource → String → String → Tx (Unit {0})
unfolding fail_queued
fail_before_dispatch fresh c a source reason detail =
    if is_invalid_request_reason reason
    then fail_queued fresh c a source AttemptOutcome.invalid_request reason
        (optional (truncate detail 4096))
    else raise runtime_state

-- MarkDispatching, Get and the event; `true` is dispatched.
unfoldable pub send_queued : Fresh → Command → CommandAttempt → EventSource → ℕ → Json → Tx Bool
send_queued fresh c a source lease summary = do
  updated ← mark_dispatching c.id a.id a.lease_token (record {
    result_observation_timeout = c.result_timeout;
    dispatch_lease_duration = lease;
    request_summary = summary;
  })
  require_lease updated
  sent ← get c.id
  create_status_event fresh sent CommandStatus.queued source (status_key c.id sent.status)
  pure true

unfoldable pub commit_dispatch : Fresh → Command → CommandAttempt → EventSource → ℕ → Json → Tx Bool
unfolding send_queued fail_queued get_device
commit_dispatch fresh c a source lease summary =
    if c.delivery_policy == DeliveryPolicy.online_only
    then get_device c.device_id >>= (λ d.
      if d.connection_status != ConnectionStatus.online
      then fail_queued fresh c a source AttemptOutcome.not_dispatched "device_not_online" none
        >>= (λ u. pure false)
      else send_queued fresh c a source lease summary)
    else send_queued fresh c a source lease summary

abbrev pub is_evidence_outcome : AttemptOutcome → Bool
is_evidence_outcome outcome =
    outcome == AttemptOutcome.provider_accepted || outcome == AttemptOutcome.indeterminate

unfoldable persist_result :
    Fresh → EventSource → Command → CommandAttempt → DispatchResult → Tx (Unit {0})
persist_result fresh source c a r = elim (result_transition r) [
  | none ↦ raise runtime_state
  | some (reason, target) ↦ do
    completed ← complete_attempt c.id a.id a.lease_token (record {
      outcome = r.outcome;
      confirmation_level = r.confirmation_level;
      evidence_status = r.evidence_status;
      response_summary = r.response_summary;
      reason_code = reason;
      error_detail = optional (truncate r.error_detail 4096);
    })
    require_lease completed
    if is_evidence_outcome r.outcome
        then (do
          updated ← update_evidence_from_attempt c.id a.id a.lease_token CommandStatus.sent
          require_lease updated
          current ← get c.id
          create_evidence_event fresh current a.id r.outcome source (
              "command.evidence_updated:"
              <> c.id
              <> ":attempt:"
              <> a.id
              <> ":"
              <> attempt_outcome_text r.outcome
              <> ":"
              <> confirmation_level_text current.confirmation_level
              <> ":"
              <> evidence_status_text current.evidence_status))
        else (do
          transitioned ← transition_from_attempt c.id a.id a.lease_token (record {
            from = CommandStatus.sent;
            to = target;
            reason_code = reason;
            reason_detail = optional (truncate r.error_detail 4096);
            confirmation_level = r.confirmation_level;
            evidence_status = r.evidence_status;
          })
          require_lease transitioned
          current ← get c.id
          create_status_event fresh current CommandStatus.sent source
              (status_key c.id current.status))
]

-- The ids of the two events that one dispatch may write.
pub record DispatchIds : Type 0 where
  pub first : Fresh
  pub second : Fresh

abbrev pub five_seconds : ℕ
five_seconds = 5000000000

abbrev pub request_of : Command → CommandAttempt → DispatchRequest
request_of c a = record {
  project_id = c.project_id;
  device_id = c.device_id;
  provider_device_id = c.provider_device_id;
  provider_profile = c.provider_profile;
  action = c.command_type;
  payload = c.payload;
  provider_request_key = a.provider_request_key;
  attempt_request_summary = a.request_summary;
}

-- The answer to the caller, whether Dispatch of the adapter was called, and the database. Between
-- the commit of the dispatch and the storing of its result the provider is called and other
-- transactions run: `meanwhile` is what they make of the database.
pub record Dispatched : Type 0 where
  pub answer : Answer (Unit {0})
  pub called : Bool
  pub db : Db

abbrev pub quiet : Answer (Unit {0}) × Db → Dispatched
quiet (x, db) = record { answer = x; called = false; db = db }

abbrev loud : Answer (Unit {0}) × Db → Dispatched
loud (x, db) = record { answer = x; called = true; db = db }

abbrev after_commit : (Db → Db) → Tx (Unit {0}) → Answer Bool × Db → Dispatched
after_commit meanwhile store (Answer.failed e, db) = quiet (Answer.failed e, db)
after_commit meanwhile store (done false, db) = quiet (done tt, db)
after_commit meanwhile store (done true, db) = loud (transact store (meanwhile db))

unfoldable pub dispatch_claimed :
    ℕ → DispatchIds → (Db → Db) → AdapterRegistration → Command → CommandAttempt → Db → Dispatched
unfolding fail_before_dispatch commit_dispatch persist_result prepare_failure_text transact
dispatch_claimed lease_duration ids meanwhile reg c a db =
    if c.provider_code != reg.provider_code
      || c.adapter != reg.adapter_code
      || a.provider_code != reg.provider_code
      || a.adapter != reg.adapter_code
    then quiet (Answer.failed runtime_state, db)
    else if c.retry_allowed || c.provider_timeout == 0 || c.result_timeout == 0
    then quiet (Answer.failed runtime_state, db)
    else if not reg.adapter.configured
    then quiet (
        transact
          (fail_before_dispatch ids.first c a reg.result_source "provider_not_configured"
            "Provider is not configured")
          db)
    else elim (reg.adapter.prepare (request_of c a)) [
      | Prepared.prepare_error failure detail ↦ quiet (
          transact
            (fail_before_dispatch ids.first c a reg.result_source (prepare_failure_text failure)
              detail)
            db)
      | Prepared.other_error detail ↦ quiet (
          transact
            (fail_before_dispatch ids.first c a reg.result_source "provider_request_invalid" detail)
            db)
      | Prepared.prepared summary result ↦
          after_commit meanwhile (persist_result ids.second reg.result_source c a result) (
            transact
              (commit_dispatch ids.first c a reg.result_source
                (max lease_duration (c.provider_timeout + five_seconds)) summary)
              db)
    ]
