-- ===== src/DeviceService/Create.antt =====
-- deviceservice/service.go: Create and providerIdentityConflict. The random ids, the clock, the identity
-- policies of the providers and `lower` of SQL are arguments.
pub mod Stored
use device_platform.Prelude.{
  ℕ, Bool, ◌||◌, not, String, List, Option, none, some, if◌then◌else◌, ◌==◌, ◌!=◌, string_eq,
}
use device_platform.Prelude.Json.{Json, text, object, field, end}
use device_platform.Prelude.Text.{trim_space}
use device_platform.Prelude.Table.{find}
use device_platform.Domain.Types.{LifecycleStatus, ConnectionStatus, EventType}
use device_platform.Domain.Texts.{lifecycle_status_text}
use device_platform.Domain.Catalogue.{Provider, DeviceType}
use device_platform.Domain.Records.{Device}
use device_platform.Store.{
  Db, Tx, Error, Answer, done, failed, ok, err, ◌>>◌, transact, project_id, device_type_code,
  invalid_request, project_not_found, device_type_not_found, provider_not_found,
  provider_profile_not_found, provider_device_conflict, provider_identity_violation,
  active_provider_identity_violation, no_rows,
}
use device_platform.Access.{Scope, is_human, can_access_project}
use device_platform.CommandRepo.Journal.{create_audit}
use device_platform.CommandService.Validation.{RequestMetadata, valid_scope, project_for_create}
use device_platform.CommandService.Authorize.{entry_of, find_profile}
use device_platform.DeviceRepo.{create_device}
use device_platform.DeviceService.Validation.{normalize_device_name, validate_write}
use device_platform.DeviceService.Update.{UpdateIds, create_device_event, device_audit}

pub record CreateDeviceRequest : Type 0 where
  pub project_id : String
  pub name : String
  pub device_type_code : String
  pub provider_code : String
  pub provider_profile : String
  pub provider_device_id : Option String

pub record ProviderRegistration : Type 0 where
  pub provider : Provider
  pub normalize_identity : Option String → String → Option String

pub record DeviceLibrary : Type 0 where
  pub parse_addr : String → Option String
  pub lower : String → String

pub record CreateIds : Type 0 where
  pub device_id : String
  pub wall_clock : ℕ
  pub journal : UpdateIds

abbrev smart_lock : String
smart_lock = "smart-lock"

abbrev new_device : CreateIds → String → String → Provider → String → String → Device
new_device ids project name provider profile identity = record {
  id = ids.device_id;
  project_id = project;
  device_type_id = "";
  device_type_code = "";
  name = name;
  provider_code = provider.code;
  provider_profile = profile;
  provider_device_id = identity;
  access_type = provider.access_type;
  transport_protocol = provider.transport_protocol;
  adapter = provider.adapter;
  connection_status = ConnectionStatus.unknown;
  lifecycle_status = LifecycleStatus.active;
  created_at = ids.wall_clock;
  updated_at = ids.wall_clock;
}

-- From the look-up of the provider to the device.
unfoldable describe_provider :
    List (String × ProviderRegistration)
    → CreateDeviceRequest
    → CreateIds
    → String
    → String
    → Answer Device
unfolding trim_space entry_of
describe_provider registry r ids project name =
    if trim_space r.provider_code == ""
    then failed invalid_request
    else elim (entry_of (trim_space r.provider_code) registry) [
      | none ↦ failed provider_not_found
      | some registration ↦
          if trim_space r.provider_profile == ""
          then failed invalid_request
          else elim (entry_of (trim_space r.provider_profile)
              registration.provider.profile_actions) [
                | none ↦ failed provider_profile_not_found
                | some actions ↦
                    elim (registration.normalize_identity r.provider_device_id ids.device_id) [
                      | none ↦ failed invalid_request
                      | some identity ↦ done (
                          new_device ids project name registration.provider
                            (trim_space r.provider_profile) identity)
                    ]
              ]
    ]

-- From the project to the device.
unfoldable pub describe :
    List (String × ProviderRegistration) → Scope → CreateDeviceRequest → CreateIds → Answer Device
unfolding trim_space describe_provider project_for_create normalize_device_name
describe registry scope r ids = elim (project_for_create scope r.project_id) [
  | none ↦ failed invalid_request
  | some project ↦ elim (normalize_device_name r.name) [
    | none ↦ failed invalid_request
    | some name ↦
        if trim_space r.device_type_code == ""
        then failed invalid_request
        else if trim_space r.device_type_code != smart_lock
        then failed device_type_not_found
        else describe_provider registry r ids project name
  ]
]

-- providerIdentityConflict, of the index and of the one that it replaced, and the error that Create
-- makes of it.
unfoldable conflict_of : Error → Error
conflict_of provider_identity_violation = provider_device_conflict
conflict_of active_provider_identity_violation = provider_device_conflict
conflict_of e = e

unfoldable pub store_device : (String → String) → Device → Tx (Unit {0})
unfolding conflict_of
store_device lower d db = elim (create_device lower d db) [
  | ok u db' ↦ ok u db'
  | err e ↦ err (conflict_of e)
]

abbrev pub device_created_payload : Device → Json
device_created_payload d = object (
    field "device_type_code" (text d.device_type_code) (
      field "lifecycle_status" (text (lifecycle_status_text d.lifecycle_status)) (
        field "provider_code" (text d.provider_code)
          (field "provider_profile" (text d.provider_profile) end))))

abbrev pub device_created_fields : Device → Json
device_created_fields d = object (
    field "device_type_code" (text d.device_type_code) (
      field "provider_code" (text d.provider_code)
        (field "provider_profile" (text d.provider_profile) end)))

abbrev pub typed : DeviceType → Device → Device
typed t d = record d { device_type_id = t.id; device_type_code = t.code }

abbrev pub report_created : UpdateIds → RequestMetadata → Device → Tx Device
report_created ids m d =
    create_device_event ids m d EventType.device_created (device_created_payload d)
    >> (create_audit (
          device_audit ids.lifecycle_audit ids.audit_clock m d "device.created"
            (device_created_fields d))
        >> ok d)

-- The transaction of Create.
unfoldable pub create_described :
    (String → String) → Scope → UpdateIds → RequestMetadata → Device → Tx Device
unfolding store_device find_profile
create_described lower scope ids m d db = elim (find project_id d.project_id db.projects) [
  | none ↦ err project_not_found
  | some p ↦
      if not (can_access_project scope p)
      then err project_not_found
      else elim (find device_type_code smart_lock db.device_types) [
        | none ↦ err device_type_not_found
        | some t ↦ elim (find_profile t.id t.current_revision db.profiles) [
          | none ↦ err no_rows
          | some profile ↦ (store_device lower (typed t d) >> report_created ids m (typed t d)) db
        ]
      ]
]

unfoldable pub create_requested :
    DeviceLibrary
    → List (String × ProviderRegistration)
    → Scope
    → CreateDeviceRequest
    → RequestMetadata
    → CreateIds
    → Db
    → Answer Device × Db
unfolding valid_scope validate_write transact
create_requested l registry scope r metadata ids db =
    if not (valid_scope scope) || not (is_human scope)
    then (failed invalid_request, db)
    else elim (validate_write l.parse_addr scope metadata) [
      | none ↦ (failed invalid_request, db)
      | some m ↦ elim (describe registry scope r ids) [
        | failed e ↦ (failed e, db)
        | done d ↦ transact (create_described l.lower scope ids.journal m d) db
      ]
    ]
