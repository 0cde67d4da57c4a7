-- ===== src/Examples/Devices.antt =====
-- A user who renames and disables a device of a project that the user manages.
use device_platform.Prelude.{◌≡◌, refl, some}
use device_platform.Prelude.Table.{find, select, modify, affects}
use device_platform.Domain.Types.{LifecycleStatus}
use device_platform.Domain.Records.{Device}
use device_platform.Store.{Db, done, device_id}
use device_platform.Access.{can_access_project}
use device_platform.CommandRepo.Journal.{create_event, create_delivery, create_audit}
use device_platform.DeviceRepo.{rename_device, set_lifecycle_status}
use device_platform.DeviceService.Update.{
  UpdateRequest, UpdateIds, update, update_checked, update_found,
}
use device_platform.DeviceService.Update.Follows.{Updated, update_follows_lifecycle}
use device_platform.CommandService.Validation.{valid_scope}
use device_platform.DeviceService.Read.{get_scoped, Reached, get_scoped-Reached}
use device_platform.Examples.Service.{did, door, scope, metadata, service_db, same_address}

abbrev request : UpdateRequest
request = record { name = some " Back door "; lifecycle_status = some LifecycleStatus.disabled }

abbrev pub new_ids : UpdateIds
new_ids = record {
  rename_audit = "u1";
  event_id = "e1";
  delivery_id = "v1";
  lifecycle_audit = "u2";
  rename_clock = 7;
  event_clock = 8;
  audit_clock = 9;
}

abbrev disabled_door : Device
disabled_door = record door {
  name = "Back door";
  lifecycle_status = LifecycleStatus.disabled;
  updated_at = service_db.now;
}

abbrev updated_db : Db
updated_db = (update same_address scope did request metadata new_ids service_db).1

update_runs :
    update same_address scope did request metadata new_ids service_db
    ≡ (done disabled_door, updated_db)
unfolding update update_checked update_found find select modify affects rename_device
    set_lifecycle_status create_event create_delivery create_audit can_access_project
update_runs = refl

update_follows_lifecycle_example :
    Updated scope did (some LifecycleStatus.disabled) service_db disabled_door updated_db
update_follows_lifecycle_example =
    update_follows_lifecycle same_address scope did request metadata new_ids disabled_door
      service_db updated_db update_runs

get_runs : get_scoped scope did service_db ≡ done door
unfolding get_scoped find valid_scope can_access_project
get_runs = refl

get_scoped-Reached_example :
    (find device_id did service_db.devices ≡ some door) × Reached scope door service_db
get_scoped-Reached_example = get_scoped-Reached scope did door service_db get_runs
