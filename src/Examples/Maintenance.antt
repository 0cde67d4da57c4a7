-- ===== src/Examples/Maintenance.antt =====
-- A queued command whose claim and whose deadline have lapsed.
use device_platform.Prelude.{◌≡◌, String, Bool, false, List, ◌++◌, length, if◌then◌else◌}
use device_platform.Domain.Records.{Event}
use device_platform.Store.{Db}
use device_platform.Worker.Maintenance.{maintain}
use device_platform.Worker.Maintenance.Told.{worked, maintenance_is_told}
use device_platform.Examples.Data.{claimed_db, ids}

abbrev lapsed_db : Db
lapsed_db = record claimed_db { now = 40000000 }

abbrev nobody : String → Bool
nobody id = false

maintenance_is_told_example :
    (new : List Event) × ((maintain nobody ids.first lapsed_db).1.events ≡ lapsed_db.events ++ new)
    × (length new ≡ (if worked (maintain nobody ids.first lapsed_db).0 then 1 else 0))
maintenance_is_told_example = maintenance_is_told nobody ids.first lapsed_db
