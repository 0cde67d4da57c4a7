-- ===== src/Examples/Registration.antt =====
-- A user who registers a second door in a project that the user manages.
use device_platform.Prelude.{◌≡◌, refl, String, List, [], ◌∷◌, Option, none, some}
use device_platform.Prelude.Table.{find, select}
use device_platform.Domain.Types.{LifecycleStatus, ConnectionStatus}
use device_platform.Domain.Records.{Device}
use device_platform.Store.{Db, done}
use device_platform.Access.{can_access_project}
use device_platform.CommandRepo.Journal.{create_event, create_delivery, create_audit}
use device_platform.DeviceRepo.{create_device}
use device_platform.DeviceService.Update.{create_device_event}
use device_platform.DeviceService.Create.{
  CreateDeviceRequest, ProviderRegistration, DeviceLibrary, CreateIds, describe, create_described,
  create_requested,
}
use device_platform.DeviceService.Create.Stored.{Stored, create_requested-Stored}
use device_platform.Examples.Service.{pid, scope, metadata, service_db, same_address, simulated}
use device_platform.Examples.Devices.{new_ids}

abbrev library : DeviceLibrary
library = record { parse_addr = same_address; lower = λ s. s }

-- The identity that is asked for, or else the id of the device.
abbrev identity_of : Option String → String → Option String
identity_of none id = some id
identity_of (some i) id = some i

abbrev registry : List (String × ProviderRegistration)
registry = ("simulator", record { provider = simulated; normalize_identity = identity_of }) ∷ []

abbrev request : CreateDeviceRequest
request = record {
  project_id = pid;
  name = "Gate";
  device_type_code = " smart-lock";
  provider_code = "simulator";
  provider_profile = "simulator-v1";
  provider_device_id = none;
}

abbrev ids : CreateIds
ids = record {
  device_id = "00000000-0000-4000-8000-000000000009";
  wall_clock = 6;
  journal = new_ids;
}

abbrev gate : Device
gate = record {
  id = "00000000-0000-4000-8000-000000000009";
  project_id = pid;
  device_type_id = "t1";
  device_type_code = "smart-lock";
  name = "Gate";
  provider_code = "simulator";
  provider_profile = "simulator-v1";
  provider_device_id = "00000000-0000-4000-8000-000000000009";
  access_type = "simulator";
  transport_protocol = "internal";
  adapter = simulated.adapter;
  connection_status = ConnectionStatus.unknown;
  lifecycle_status = LifecycleStatus.active;
  created_at = 6;
  updated_at = 6;
}

abbrev stored_db : Db
stored_db = (create_requested library registry scope request metadata ids service_db).1

create_runs :
    create_requested library registry scope request metadata ids service_db ≡ (done gate, stored_db)
unfolding create_requested describe create_described create_device create_device_event find select
    create_event create_delivery create_audit can_access_project
create_runs = refl

create_requested-Stored_example : Stored library.lower scope gate service_db stored_db
create_requested-Stored_example =
    create_requested-Stored library registry scope request metadata ids gate service_db stored_db
      create_runs
