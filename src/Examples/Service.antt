-- ===== src/Examples/Service.antt =====
-- A user who creates, lists and cancels a command for a device of a project that the user manages.
use device_platform.Prelude.{◌≡◌, refl, true, false, String, Option, none, some, [], ◌∷◌}
use device_platform.Prelude.Json.{object, field, end, text, boolean, number, empty_object}
use device_platform.Prelude.Table.{find, select, modify, affects}
use device_platform.CommandRepo.Create.{create_command}
use device_platform.CommandRepo.Journal.{create_event, create_delivery, create_audit}
use device_platform.CommandRepo.Expire.{cancel_queued, set_finished, close_command}
use device_platform.CommandRepo.Read.{order_by, limit, offset}
use device_platform.Domain.Types.{
  Adapter, DeliveryPolicy, CommandStatus, ConfirmationLevel, EvidenceStatus,
}
use device_platform.Domain.Audit.{ActorType}
use device_platform.Domain.Catalogue.{
  CapabilityAction, Provider, ProviderActionAvailability, ProviderIntegrationStatus,
}
use device_platform.Domain.Records.{Command, Device, Project}
use device_platform.Store.{Db, done}
use device_platform.Access.{Scope, ScopeKind, can_access_project}
use device_platform.CommandService.Validation.{
  CreateRequest, RequestMetadata, ListRequest, valid_scope,
}
use device_platform.CommandService.Authorize.{Registry}
use device_platform.CommandService.Create.{Library, CreateResult, create}
use device_platform.CommandService.Create.Journal.{Ids}
use device_platform.CommandService.Create.Replay.{create_is_idempotent}
use device_platform.CommandService.Cancel.{cancel, cancel_found}
use device_platform.CommandService.Cancel.Permitted.{Cancelled, cancel_is_permitted}
use device_platform.CommandService.Read.{ListResult, list}
use device_platform.CommandService.Read.Scoped.{Shows, list-Shows}
use device_platform.Examples.Data.{claimed_db, lock_device}

abbrev uid : String
uid = "00000000-0000-4000-8000-000000000001"

abbrev pub pid : String
pid = "00000000-0000-4000-8000-000000000002"

abbrev pub did : String
did = "00000000-0000-4000-8000-000000000003"

abbrev cid : String
cid = "00000000-0000-4000-8000-000000000004"

abbrev managed : Project
managed = record {
  id = pid;
  name = "Doors";
  manager_user_id = uid;
  api_key_digest = "digest";
  webhook_url = none;
  webhook_config_version = 0;
  current_webhook_secret_version = none;
  ip_whitelist = [];
  created_at = 1;
  updated_at = 1;
}

abbrev pub door : Device
door = record lock_device { id = did; project_id = pid }

abbrev unlock : CapabilityAction
unlock = record {
  identifier = "unlock";
  payload_schema = object (
      field "type" (text "object")
        (field "additionalProperties" (boolean false) (field "maxProperties" (number 0) end)));
  risk_level = "high";
  delivery_policy = DeliveryPolicy.online_only;
  dispatch_deadline = 30000000000;
  provider_request_timeout = 10000000000;
  result_observation_timeout = 60000000000;
  retry_allowed = false;
  delivery_policy_override_allowed = false;
}

abbrev pub service_db : Db
service_db = record claimed_db {
  commands = [];
  attempts = [];
  devices = door ∷ [];
  projects = managed ∷ [];
  device_types =
      record {
        id = "t1";
        code = "smart-lock";
        current_revision = 2;
        name = "Lock";
        created_at = 1;
        updated_at = 1;
      }
      ∷ [];
  profiles =
      record {
        device_type_id = "t1";
        revision = 2;
        actions = unlock ∷ [];
        profile_hash = "h";
        created_at = 1;
      }
      ∷ [];
}

abbrev pub simulated : Provider
simulated = record {
  code = "simulator";
  name = "Simulator";
  access_type = "simulator";
  transport_protocol = "internal";
  adapter = Adapter.simulator_adapter;
  profiles = "simulator-v1" ∷ [];
  profile_actions = ("simulator-v1", ("unlock", ProviderActionAvailability.supported) ∷ []) ∷ [];
  integration_status = ProviderIntegrationStatus.verified;
}

abbrev registry : Registry
registry = ("simulator", simulated) ∷ []

abbrev library : Library
library = record { parse_addr = λ ip. some ip; digest = λ j. "hash" }

abbrev pub scope : Scope
scope = record { kind = ScopeKind.user; user_id = uid; project_id = "" }

abbrev pub metadata : RequestMetadata
metadata = record {
  actor_type = ActorType.user;
  actor_user_id = uid;
  actor_id = "";
  ip_address = "";
  request_id = "r1";
}

abbrev request : CreateRequest
request = record {
  project_id = pid;
  device_id = did;
  command_type = "unlock";
  payload = none;
  idempotency_key = " k1 ";
}

abbrev new_ids : String → Ids
new_ids c = record {
  command_id = c;
  event_id = "e1";
  delivery_id = "v1";
  audit_id = "u1";
  wall_clock = 7;
  event_clock = 8;
  audit_clock = 9;
}

abbrev created_command : Command
created_command = record {
  id = cid;
  project_id = pid;
  device_id = did;
  device_type_id = "t1";
  device_type_code = "smart-lock";
  provider_code = "simulator";
  provider_profile = "simulator-v1";
  provider_device_id = "s1";
  adapter = Adapter.simulator_adapter;
  command_type = "unlock";
  payload = empty_object;
  device_type_revision = 2;
  delivery_policy = DeliveryPolicy.online_only;
  dispatch_deadline = 30000000000;
  provider_timeout = 10000000000;
  result_timeout = 60000000000;
  retry_allowed = false;
  status = CommandStatus.queued;
  reason_code = none;
  reason_detail = none;
  confirmation_level = ConfirmationLevel.none;
  evidence_status = EvidenceStatus.none;
  idempotency_key = "k1";
  request_hash = "hash";
  queued_at = 7;
  dispatch_deadline_at = 30000007;
  sent_at = none;
  result_deadline_at = none;
  finished_at = none;
  created_at = 7;
  updated_at = 7;
}

abbrev created_db : Db
created_db = (create library registry scope request metadata (new_ids cid) service_db).1

abbrev created : CreateResult
created = record { command = created_command; idempotent_replay = false }

create_runs :
    create library registry scope request metadata (new_ids cid) service_db
    ≡ (done created, created_db)
unfolding create find select create_command create_event create_delivery create_audit
create_runs = refl

create_is_idempotent_example :
    create library registry scope request metadata (new_ids "c9") created_db
    ≡ (done (record { command = created.command; idempotent_replay = true }), created_db)
create_is_idempotent_example =
    create_is_idempotent library registry scope request metadata (new_ids cid) (new_ids "c9")
      created service_db created_db create_runs

abbrev waiting_db : Db
waiting_db = record service_db { commands = created_command ∷ [] }

abbrev cancelled_command : Command
cancelled_command =
    set_finished waiting_db.now CommandStatus.cancelled "cancelled_by_request" none created_command

abbrev pub same_address : String → Option String
same_address ip = some ip

abbrev cancelled_db : Db
cancelled_db = (cancel same_address scope cid metadata (new_ids "c9") waiting_db).1

cancel_runs :
    cancel same_address scope cid metadata (new_ids "c9") waiting_db
    ≡ (done cancelled_command, cancelled_db)
unfolding cancel find select modify affects cancel_queued cancel_found close_command create_event
    create_delivery create_audit can_access_project
cancel_runs = refl

cancel_is_permitted_example : Cancelled scope cid waiting_db cancelled_command cancelled_db
cancel_is_permitted_example =
    cancel_is_permitted same_address scope cid metadata (new_ids "c9") cancelled_command waiting_db
      cancelled_db cancel_runs

abbrev first_page : ListRequest
first_page = record {
  project_id = none;
  device_id = none;
  command_type = none;
  status = some CommandStatus.queued;
  page = 1;
  page_size = 0;
}

abbrev listed : ListResult
listed = record { items = created_command ∷ []; page = 1; page_size = 20; total = 1 }

list_runs : list scope first_page waiting_db ≡ done listed
unfolding list find select order_by limit offset valid_scope
list_runs = refl

list-Shows_example : Shows scope waiting_db listed
list-Shows_example = list-Shows scope first_page waiting_db listed list_runs
