-- ===== src/DeviceRepo.antt =====
-- backend/internal/storage/repository/postgres_project_device.go: Create, Rename, SetLifecycleStatus and
-- SetConnectionStatus of devices.
use device_platform.Prelude.{
  ℕ, Bool, true, ◌&&◌, String, ◌==◌, string_eq, is_empty, [], ◌∷◌, ◌++◌, none, some, if◌then◌else◌,
}
use device_platform.Prelude.Table.{find, select, modify, affects}
use device_platform.Domain.Types.{
  LifecycleStatus, ConnectionStatus, lifecycle_status_eq, connection_status_eq,
}
use device_platform.Domain.Records.{Device}
use device_platform.Store.{Tx, ok, err, device_id, unique_violation, provider_identity_violation}

abbrev pub every : Device → Bool
every d = true

abbrev pub set_name : ℕ → String → Device → Device
set_name now name d = record d { name = name; updated_at = now }

-- Rename
unfoldable pub rename_device : String → String → Tx (Unit {0})
rename_device id name db =
    ok tt (record db { devices = modify device_id id every (set_name db.now name) db.devices })

abbrev pub has_lifecycle : LifecycleStatus → Device → Bool
has_lifecycle status d = d.lifecycle_status == status

abbrev pub set_lifecycle : ℕ → LifecycleStatus → Device → Device
set_lifecycle now status d = record d { lifecycle_status = status; updated_at = now }

unfoldable pub set_lifecycle_status : String → LifecycleStatus → LifecycleStatus → Tx Bool
set_lifecycle_status id from to db =
    ok (affects device_id id (has_lifecycle from) db.devices) (record db {
      devices = modify device_id id (has_lifecycle from) (set_lifecycle db.now to) db.devices;
    })

abbrev has_connection : ConnectionStatus → Device → Bool
has_connection status d = d.connection_status == status

abbrev set_connection : ℕ → ConnectionStatus → Device → Device
set_connection now status d = record d { connection_status = status; updated_at = now }

unfoldable set_connection_status : String → ConnectionStatus → ConnectionStatus → Tx Bool
set_connection_status id from to db =
    ok (affects device_id id (has_connection from) db.devices) (record db {
      devices = modify device_id id (has_connection from) (set_connection db.now to) db.devices;
    })

abbrev pub same_identity : (String → String) → Device → Device → Bool
same_identity lower d old =
    lower old.provider_code == lower d.provider_code
    && old.provider_device_id == d.provider_device_id

-- The INSERT, with the primary key and the unique index uq_devices_provider_identity of migration 009, which
-- covers the deleted devices too; `lower` is the function of SQL.
unfoldable pub create_device : (String → String) → Device → Tx (Unit {0})
create_device lower d db = elim (find device_id d.id db.devices) [
  | some old ↦ err unique_violation
  | none ↦
      if is_empty (select device_id (same_identity lower d) db.devices)
      then ok tt (record db { devices = db.devices ++ d ∷ [] })
      else err provider_identity_violation
]
