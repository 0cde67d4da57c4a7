-- ===== src/CommandService/Create/Journal.antt =====
-- commandservice/service.go: createEvent, createAudit and optionalString.
use device_platform.Prelude.{ℕ, String, Option, none, some, if◌then◌else◌, ◌==◌, string_eq}
use device_platform.Prelude.Json.{Json}
use device_platform.Prelude.Text.{trim_space}
use device_platform.Domain.Types.{EventSource, EventType}
use device_platform.Domain.Audit.{ActorType, AuditResult, actor_type_eq}
use device_platform.Domain.Records.{Command, Event, event_schema_version}
use device_platform.Store.{Tx, ◌>>=◌, ◌>>◌, pure}
use device_platform.CommandRepo.Journal.{create_event, create_delivery, create_audit}
use device_platform.Worker.Events.{event_envelope}
use device_platform.CommandService.Validation.{RequestMetadata}

-- The random ids of a request, and the clock; the source reads it once for each record.
pub record Ids : Type 0 where
  pub command_id : String
  pub event_id : String
  pub delivery_id : String
  pub audit_id : String
  pub wall_clock : ℕ
  pub event_clock : ℕ
  pub audit_clock : ℕ

unfoldable optional_string : String → Option String
unfolding trim_space
optional_string value = if trim_space value == "" then none else some value

abbrev source_of : RequestMetadata → EventSource
source_of m = if m.actor_type == ActorType.project then EventSource.open_api else EventSource.admin

abbrev pub new_event : Ids → RequestMetadata → Command → EventType → Json → String → Event
new_event ids m c event_type payload key = record {
  id = ids.event_id;
  schema_version = event_schema_version;
  event_type = event_type;
  project_id = c.project_id;
  device_id = some c.device_id;
  command_id = some c.id;
  source = source_of m;
  payload = payload;
  raw_message_id = none;
  deduplication_key = key;
  occurred_at = ids.event_clock;
  created_at = ids.event_clock;
}

-- createEvent, with the type, the payload and the key that it chooses.
unfoldable pub service_event :
    Ids → RequestMetadata → Command → EventType → Json → String → Tx (Unit {0})
unfolding event_envelope
service_event ids m c event_type payload key = do
  let e = new_event ids m c event_type payload key
  create_event e
  created ← create_delivery ids.delivery_id e.id (event_envelope e)
  pure tt

unfoldable pub service_audit : Ids → RequestMetadata → Command → String → Json → Tx (Unit {0})
unfolding optional_string
service_audit ids m c action fields = create_audit (record {
  id = ids.audit_id;
  actor_type = m.actor_type;
  actor_user_id = optional_string m.actor_user_id;
  actor_id = optional_string m.actor_id;
  project_id = some c.project_id;
  action = action;
  result = AuditResult.success;
  resource_type = "command";
  resource_id = some c.id;
  ip_address = optional_string m.ip_address;
  request_id = optional_string m.request_id;
  metadata = fields;
  occurred_at = ids.audit_clock;
})
