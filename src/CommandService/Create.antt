-- ===== src/CommandService/Create.antt =====
-- commandservice/service.go: Create, findIdempotentReplay, canonicalRequestHash, createEvent and
-- createAudit. The hash, the random ids and the clock are arguments.
pub mod Journal
pub mod Replay
use device_platform.Prelude.{
  ℕ, ◌+◌, ◌/◌, Bool, true, false, ◌||◌, not, String, Option, none, some, if◌then◌else◌, ◌==◌, ◌!=◌,
  string_eq,
}
use device_platform.Prelude.Json.{
  Json, boolean, number, text, object, field, end, empty_object, same_json,
}
use device_platform.Prelude.Text.{◌<>◌}
use device_platform.Prelude.Table.{find}
use device_platform.Domain.Types.{
  CommandStatus, ConfirmationLevel, EvidenceStatus, DeliveryPolicy, EventType,
}
use device_platform.Domain.Records.{Command, Device, Project}
use device_platform.Domain.Catalogue.{CapabilityAction}
use device_platform.Domain.Texts.{delivery_policy_text, command_status_text}
use device_platform.Store.{
  Db, Tx, Answer, done, failed, ok, err, ◌>>=◌, ◌>>◌, pure, raise, transact, project_id,
  project_not_found, idempotency_key_conflict,
}
use device_platform.Access.{Scope, can_access_project}
use device_platform.CommandRepo.Create.{create_command}
use device_platform.CommandRepo.Read.{get_by_idempotency_key}
use device_platform.CommandRepo.Dispatch.{microsecond}
use device_platform.CommandService.Validation.{
  RequestMetadata, CreateRequest, Checked, check_create,
}
use device_platform.CommandService.Authorize.{Registry, Plan, authorize}
use device_platform.CommandService.Create.Journal.{Ids, service_event, service_audit}

pub record CreateResult : Type 0 where
  pub command : Command
  pub idempotent_replay : Bool

-- What the service takes from outside: netip.ParseAddr and the SHA-256 of a JSON encoding.
pub record Library : Type 0 where
  pub parse_addr : String → Option String
  pub digest : Json → String

abbrev millisecond : ℕ
millisecond = 1000000

unfoldable canonical_request : Device → String → ℕ → CapabilityAction → Json
canonical_request d command_type revision a = object (
    field "command_type" (text command_type) (
      field "delivery_policy" (text (delivery_policy_text a.delivery_policy)) (
        field "device_id" (text d.id) (
          field "device_type_code" (text d.device_type_code) (
            field "device_type_revision" (number revision) (
              field "dispatch_deadline_ms" (number (a.dispatch_deadline / millisecond)) (
                field "normalized_payload" empty_object (
                  field "provider_code" (text d.provider_code) (
                    field "provider_device_id" (text d.provider_device_id) (
                      field "provider_profile" (text d.provider_profile) (
                        field "provider_request_timeout_ms"
                          (number (a.provider_request_timeout / millisecond))
                          (field "result_observation_timeout_ms"
                            (number (a.result_observation_timeout / millisecond))
                            (field "retry_allowed" (boolean a.retry_allowed) end)))))))))))))

unfoldable pub new_command : Library → Checked → Plan → Ids → Command
unfolding canonical_request
new_command lib k plan ids = record {
  id = ids.command_id;
  project_id = k.project_id;
  device_id = plan.device.id;
  device_type_id = plan.device_type.id;
  device_type_code = plan.device_type.code;
  provider_code = plan.device.provider_code;
  provider_profile = plan.device.provider_profile;
  provider_device_id = plan.device.provider_device_id;
  adapter = plan.device.adapter;
  command_type = k.command_type;
  payload = empty_object;
  device_type_revision = plan.profile.revision;
  delivery_policy = plan.action.delivery_policy;
  dispatch_deadline = plan.action.dispatch_deadline;
  provider_timeout = plan.action.provider_request_timeout;
  result_timeout = plan.action.result_observation_timeout;
  retry_allowed = plan.action.retry_allowed;
  status = CommandStatus.queued;
  reason_code = none;
  reason_detail = none;
  confirmation_level = ConfirmationLevel.none;
  evidence_status = EvidenceStatus.none;
  idempotency_key = k.idempotency_key;
  request_hash =
      lib.digest (canonical_request plan.device k.command_type plan.profile.revision plan.action);
  queued_at = ids.wall_clock;
  dispatch_deadline_at = ids.wall_clock + plan.action.dispatch_deadline / microsecond;
  sent_at = none;
  result_deadline_at = none;
  finished_at = none;
  created_at = ids.wall_clock;
  updated_at = ids.wall_clock;
}

abbrev pub created_payload : Command → Json
created_payload c = object (
    field "command_type" (text c.command_type) (
      field "delivery_policy" (text (delivery_policy_text c.delivery_policy))
        (field "status" (text (command_status_text c.status)) end)))

abbrev pub created_fields : Command → Json
created_fields c = object (
    field "command_type" (text c.command_type)
      (field "delivery_policy" (text (delivery_policy_text c.delivery_policy)) end))

abbrev pub created_event : Checked → Command → Ids → Tx (Unit {0})
created_event k c ids =
    service_event ids k.metadata c EventType.command_created (created_payload c)
      ("command.created:" <> c.id)

abbrev pub created_audit : Checked → Command → Ids → Tx (Unit {0})
created_audit k c ids = service_audit ids k.metadata c "command.created" (created_fields c)

abbrev pub audit_created : Checked → Command → Ids → Tx CreateResult
audit_created k c ids = do
  created_audit k c ids
  pure (record { command = c; idempotent_replay = false })

abbrev pub tell_created : Checked → Command → Ids → Tx CreateResult
tell_created k c ids = do created_event k c ids; audit_created k c ids

-- The writes of Create.
unfoldable pub store_command : Checked → Command → Ids → Tx CreateResult
unfolding service_event service_audit
store_command k c ids = do create_command c; tell_created k c ids

-- findIdempotentReplay, once a command with the key is found.
abbrev pub replay_of : Checked → Command → Tx CreateResult
replay_of k c =
    if c.device_id != k.device_id
      || c.command_type != k.command_type
      || not (same_json c.payload empty_object)
    then raise idempotency_key_conflict
    else pure (record { command = c; idempotent_replay = true })

unfoldable pub create_new : Library → Registry → Checked → Ids → Tx CreateResult
unfolding authorize store_command new_command
create_new lib registry k ids db = elim (authorize registry k db) [
  | failed e ↦ err e
  | done plan ↦ store_command k (new_command lib k plan ids) ids db
]

-- The transaction of Create.
unfoldable pub create_checked : Library → Registry → Checked → Ids → Tx CreateResult
unfolding create_new get_by_idempotency_key can_access_project
create_checked lib registry k ids db = elim (find project_id k.project_id db.projects) [
  | none ↦ err project_not_found
  | some p ↦
      if not (can_access_project k.scope p)
      then err project_not_found
      else elim (get_by_idempotency_key k.project_id k.idempotency_key db) [
        | some c ↦ replay_of k c db
        | none ↦ create_new lib registry k ids db
      ]
]

-- Create of the command service.
unfoldable pub create :
    Library
    → Registry
    → Scope
    → CreateRequest
    → RequestMetadata
    → Ids
    → Db
    → Answer CreateResult × Db
unfolding check_create create_checked transact
create lib registry scope r metadata ids db = elim (check_create lib.parse_addr scope r metadata) [
  | failed e ↦ (failed e, db)
  | done k ↦ transact (create_checked lib registry k ids) db
]
