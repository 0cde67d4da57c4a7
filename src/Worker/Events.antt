-- ===== src/Worker/Events.antt =====
-- commandworker/worker.go: createStatusEvent, createEvidenceEvent and createCommandEvent. The random
-- ids and the wall clock are arguments.
use device_platform.Prelude.Text.{◌<>◌}
use device_platform.Prelude.{ℕ, String, none, some, if◌then◌else◌, ◌==◌, string_eq, nat_eq}
use device_platform.Prelude.Json.{Json, text, number, object, field, end, optional_text}
use device_platform.Domain.Types.{
  CommandStatus, AttemptOutcome, EventSource, EventType, command_status_eq,
}
use device_platform.Domain.Texts.{
  command_status_text, confirmation_level_text, evidence_status_text, attempt_outcome_text,
  event_source_text, event_type_text,
}
use device_platform.Domain.Records.{Command, Event, event_schema_version}
use device_platform.Store.{Tx, ◌>>=◌, ◌>>◌, pure, raise, runtime_state}
use device_platform.CommandRepo.Journal.{create_event, create_delivery}

-- What one event takes from outside: two fresh ids and the time of the host.
pub record Fresh : Type 0 where
  pub event_id : String
  pub delivery_id : String
  pub wall_clock : ℕ

abbrev pub status_key : String → CommandStatus → String
status_key cid status = "command.status_changed:" <> cid <> ":" <> command_status_text status

unfoldable pub event_envelope : Event → Json
event_envelope e = object (
    field "event_id" (text e.id) (
      field "schema_version" (number e.schema_version) (
        field "event_type" (text (event_type_text e.event_type)) (
          field "project_id" (text e.project_id) (
            field "device_id" (optional_text e.device_id) (
              field "command_id" (optional_text e.command_id) (
                field "occurred_at" (number e.occurred_at) (
                  field "source" (text (event_source_text e.source))
                    (field "payload" e.payload end)))))))))

-- A time of 0 is the zero Time.
unfoldable pub new_event : Fresh → Command → EventSource → EventType → Json → String → Event
new_event fresh c source event_type payload key =
    let occurred = if c.updated_at == 0 then fresh.wall_clock else c.updated_at in
    record {
      id = fresh.event_id;
      schema_version = event_schema_version;
      event_type = event_type;
      project_id = c.project_id;
      device_id = some c.device_id;
      command_id = some c.id;
      source = source;
      payload = payload;
      raw_message_id = none;
      deduplication_key = key;
      occurred_at = occurred;
      created_at = occurred;
    }

unfoldable pub create_command_event :
    Fresh → Command → EventSource → EventType → Json → String → Tx (Unit {0})
unfolding new_event event_envelope
create_command_event fresh c source event_type payload key = do
  let e = new_event fresh c source event_type payload key
  create_event e
  created ← create_delivery fresh.delivery_id e.id (event_envelope e)
  pure tt

unfoldable pub create_status_event :
    Fresh → Command → CommandStatus → EventSource → String → Tx (Unit {0})
create_status_event fresh c from source key =
    if from == c.status
    then raise runtime_state
    else create_command_event fresh c source EventType.command_status_changed
        (object (
          field "from" (text (command_status_text from)) (
            field "to" (text (command_status_text c.status)) (
              field "reason_code" (optional_text c.reason_code) (
                field "confirmation_level" (text (confirmation_level_text c.confirmation_level))
                  (field "evidence_status" (text (evidence_status_text c.evidence_status)) end))))))
        key

unfoldable pub create_evidence_event :
    Fresh → Command → String → AttemptOutcome → EventSource → String → Tx (Unit {0})
create_evidence_event fresh c aid outcome source key =
    create_command_event fresh c source EventType.command_evidence_updated
      (object (
        field "status" (text (command_status_text c.status)) (
          field "attempt_id" (text aid) (
            field "outcome" (text (attempt_outcome_text outcome)) (
              field "confirmation_level" (text (confirmation_level_text c.confirmation_level))
                (field "evidence_status" (text (evidence_status_text c.evidence_status)) end))))))
      key
