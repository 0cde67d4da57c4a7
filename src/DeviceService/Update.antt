-- ===== src/DeviceService/Update.antt =====
-- deviceservice/service.go: Update, createDeviceEvent and createAudit, up to the row that the answer is
-- made from. The random ids and the clock are arguments.
pub mod Follows
use device_platform.Prelude.{
  ℕ, Bool, true, false, ◌&&◌, ◌||◌, not, String, Option, none, some, if◌then◌else◌, ◌==◌, ◌!=◌,
  string_eq,
}
use device_platform.Prelude.Json.{Json, text, object, field, end, array, nil, cons}
use device_platform.Prelude.Text.{◌<>◌, optional}
use device_platform.Prelude.Table.{find}
use device_platform.Domain.Types.{LifecycleStatus, EventSource, EventType, lifecycle_status_eq}
use device_platform.Domain.Texts.{event_type_text, lifecycle_status_text}
use device_platform.Domain.Audit.{ActorType, AuditResult, AuditLog, actor_type_eq}
use device_platform.Domain.Records.{Device, Event, Project, event_schema_version}
use device_platform.Store.{
  Db, Tx, Answer, done, failed, ok, err, ◌>>=◌, ◌>>◌, pure, raise, transact, device_id, project_id,
  invalid_request, device_not_found, device_immutable, lifecycle_transition, no_rows,
}
use device_platform.Access.{Scope, is_human, can_access_project}
use device_platform.CommandRepo.Journal.{create_event, create_delivery, create_audit}
use device_platform.Worker.Events.{event_envelope}
use device_platform.CommandService.Validation.{RequestMetadata, valid_scope, valid_uuid}
use device_platform.DeviceRepo.{rename_device, set_lifecycle_status}
use device_platform.DeviceService.Validation.{
  normalize_device_name, validate_write, can_transition_lifecycle,
}

pub record UpdateRequest : Type 0 where
  pub name : Option String
  pub lifecycle_status : Option LifecycleStatus

pub record UpdateIds : Type 0 where
  pub rename_audit : String
  pub event_id : String
  pub delivery_id : String
  pub lifecycle_audit : String
  pub rename_clock : ℕ
  pub event_clock : ℕ
  pub audit_clock : ℕ

abbrev pub device_event : UpdateIds → RequestMetadata → Device → EventType → Json → Event
device_event ids m d event_type payload = record {
  id = ids.event_id;
  schema_version = event_schema_version;
  event_type = event_type;
  project_id = d.project_id;
  device_id = some d.id;
  command_id = none;
  source = if m.actor_type == ActorType.project then EventSource.open_api else EventSource.admin;
  payload = payload;
  raw_message_id = none;
  deduplication_key = event_type_text event_type <> ":" <> ids.event_id;
  occurred_at = ids.event_clock;
  created_at = ids.event_clock;
}

abbrev pub deliver_event : UpdateIds → Event → Tx (Unit {0})
deliver_event ids e =
    create_delivery ids.delivery_id e.id (event_envelope e) >>= (λ created. pure tt)

unfoldable pub create_device_event :
    UpdateIds → RequestMetadata → Device → EventType → Json → Tx (Unit {0})
unfolding event_envelope
create_device_event ids m d event_type payload =
    create_event (device_event ids m d event_type payload)
    >> deliver_event ids (device_event ids m d event_type payload)

abbrev pub device_audit : String → ℕ → RequestMetadata → Device → String → Json → AuditLog
device_audit aid occurred_at m d action fields = record {
  id = aid;
  actor_type = m.actor_type;
  actor_user_id = optional m.actor_user_id;
  actor_id = optional m.actor_id;
  project_id = some d.project_id;
  action = action;
  result = AuditResult.success;
  resource_type = "device";
  resource_id = some d.id;
  ip_address = optional m.ip_address;
  request_id = optional m.request_id;
  metadata = fields;
  occurred_at = occurred_at;
}

abbrev pub rename_log : UpdateIds → RequestMetadata → Device → AuditLog
rename_log ids m d =
    device_audit ids.rename_audit ids.rename_clock m d "device.updated"
      (object (field "fields" (array (cons (text "name") nil)) end))

unfoldable pub rename_step : UpdateIds → RequestMetadata → Device → Option String → Tx (Unit {0})
rename_step ids m d none = pure tt
rename_step ids m d (some name) =
    if d.name != name then rename_device d.id name >> create_audit (rename_log ids m d) else pure tt

abbrev pub lifecycle_payload : Device → LifecycleStatus → Json
lifecycle_payload d target = object (
    field "from" (text (lifecycle_status_text d.lifecycle_status)) (
      field "reason_code" (text "admin_requested")
        (field "to" (text (lifecycle_status_text target)) end)))

abbrev pub lifecycle_log : UpdateIds → RequestMetadata → Device → LifecycleStatus → AuditLog
lifecycle_log ids m d target =
    device_audit ids.lifecycle_audit ids.audit_clock m d "device.lifecycle_changed" (
      object (
        field "from" (text (lifecycle_status_text d.lifecycle_status))
          (field "to" (text (lifecycle_status_text target)) end)))

abbrev pub tell_lifecycle :
    UpdateIds → RequestMetadata → Device → LifecycleStatus → Bool → Tx (Unit {0})
tell_lifecycle ids m d target changed =
    if changed
    then (create_device_event ids m d EventType.device_lifecycle_changed
          (lifecycle_payload d target)
        >> create_audit (lifecycle_log ids m d target))
    else raise lifecycle_transition

unfoldable pub lifecycle_step :
    UpdateIds → RequestMetadata → Device → Option LifecycleStatus → Tx (Unit {0})
unfolding can_transition_lifecycle create_device_event
lifecycle_step ids m d none = pure tt
lifecycle_step ids m d (some target) =
    if not (can_transition_lifecycle d.lifecycle_status target)
    then raise lifecycle_transition
    else set_lifecycle_status d.id d.lifecycle_status target >>= tell_lifecycle ids m d target

abbrev pub read_device : String → Tx Device
read_device id db = elim (find device_id id db.devices) [ none ↦ err no_rows | some d ↦ ok d db ]

unfoldable pub update_found :
    UpdateIds → RequestMetadata → Option String → Option LifecycleStatus → Device → Tx Device
unfolding rename_step lifecycle_step
update_found ids m name target d =
    rename_step ids m d name >> (lifecycle_step ids m d target >> read_device d.id)

-- The transaction of Update.
unfoldable pub update_checked :
    Scope
    → UpdateIds
    → RequestMetadata
    → String
    → Option String
    → Option LifecycleStatus
    → Tx Device
update_checked scope ids m did name target db = elim (find device_id did db.devices) [
  | none ↦ err device_not_found
  | some d ↦ elim (find project_id d.project_id db.projects) [
    | none ↦ err device_not_found
    | some p ↦
        if not (can_access_project scope p)
        then err device_not_found
        else if d.lifecycle_status == LifecycleStatus.deleted
        then err device_immutable
        else update_found ids m name target d db
  ]
]

-- The name of the request, trimmed; the outer `none` is a name that is not valid.
abbrev pub name_of : Option String → Option (Option String)
name_of none = some none
name_of (some name) = elim (normalize_device_name name) [ none ↦ none | some n ↦ some (some n) ]

abbrev pub is_unset {ℓ} : {A : Type ℓ} → Option A → Bool
is_unset none = true
is_unset (some a) = false

abbrev pub deletes : Option LifecycleStatus → Bool
deletes none = false
deletes (some s) = s == LifecycleStatus.deleted

unfoldable pub update :
    (String → Option String)
    → Scope
    → String
    → UpdateRequest
    → RequestMetadata
    → UpdateIds
    → Db
    → Answer Device × Db
unfolding valid_scope valid_uuid validate_write normalize_device_name transact
update parse_addr scope did r metadata ids db =
    if not (valid_scope scope) || not (is_human scope) || not (valid_uuid did)
    then (failed invalid_request, db)
    else elim (validate_write parse_addr scope metadata) [
      | none ↦ (failed invalid_request, db)
      | some m ↦
          if is_unset r.name && is_unset r.lifecycle_status
          then (failed invalid_request, db)
          else elim (name_of r.name) [
            | none ↦ (failed invalid_request, db)
            | some name ↦
                if not (is_unset name) && deletes r.lifecycle_status
                then (failed invalid_request, db)
                else transact (update_checked scope ids m did name r.lifecycle_status) db
          ]
    ]
