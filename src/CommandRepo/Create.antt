-- ===== src/CommandRepo/Create.antt =====
-- postgres_command_event.go: the INSERT of a command.
use device_platform.Prelude.{
  Bool, ◌&&◌, [], ◌∷◌, ◌++◌, none, some, if◌then◌else◌, ◌==◌, string_eq, is_empty,
}
use device_platform.Prelude.Table.{find, select}
use device_platform.Domain.Records.{Command}
use device_platform.Store.{Tx, ok, err, command_id, unique_violation}

abbrev same_request : Command → Command → Bool
same_request c old = old.project_id == c.project_id && old.idempotency_key == c.idempotency_key

-- The INSERT, with the constraint uq_device_commands_project_idempotency and the primary key.
unfoldable pub create_command : Command → Tx (Unit {0})
create_command c db =
    if is_empty (select command_id (same_request c) db.commands)
    then elim (find command_id c.id db.commands) [
      | some old ↦ err unique_violation
      | none ↦ ok tt (record db { commands = db.commands ++ c ∷ [] })
    ]
    else err unique_violation
