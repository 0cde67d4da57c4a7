-- ===== src/CommandService/Cancel.antt =====
-- commandservice/service.go: Cancel.
pub mod Permitted
use device_platform.Prelude.{
  ℕ, Bool, true, false, ◌&&◌, ◌||◌, not, String, Option, none, some, if◌then◌else◌, ◌==◌, ◌!=◌,
  string_eq,
}
use device_platform.Prelude.Json.{Json, text, object, field, end, optional_text}
use device_platform.Prelude.Table.{find}
use device_platform.Domain.Types.{CommandStatus, EventType}
use device_platform.Domain.Texts.{
  command_status_text, confirmation_level_text, evidence_status_text,
}
use device_platform.Domain.Records.{Command, Project}
use device_platform.Store.{
  Db, Tx, Answer, done, failed, ok, err, ◌>>=◌, ◌>>◌, pure, raise, transact, command_id, project_id,
  invalid_request, command_not_found, command_not_cancellable,
}
use device_platform.Access.{Scope, is_project, can_access_project}
use device_platform.CommandRepo.Lock.{get}
use device_platform.CommandRepo.Expire.{cancel_queued}
use device_platform.Worker.Events.{status_key}
use device_platform.CommandService.Validation.{
  RequestMetadata, valid_scope, valid_uuid, validate_metadata,
}
use device_platform.CommandService.Create.Journal.{Ids, service_event, service_audit}

abbrev pub cancelled_payload : Command → Command → Json
cancelled_payload current c = object (
    field "confirmation_level" (text (confirmation_level_text c.confirmation_level)) (
      field "evidence_status" (text (evidence_status_text c.evidence_status)) (
        field "from" (text (command_status_text current.status)) (
          field "reason_code" (optional_text c.reason_code)
            (field "to" (text (command_status_text c.status)) end)))))

abbrev pub cancelled_fields : Command → Json
cancelled_fields c = object (field "reason_code" (optional_text c.reason_code) end)

abbrev pub cancelled_event : Ids → RequestMetadata → Command → Command → Tx (Unit {0})
cancelled_event ids m current c =
    service_event ids m c EventType.command_status_changed (cancelled_payload current c)
      (status_key c.id c.status)

abbrev pub cancelled_audit : Ids → RequestMetadata → Command → Tx (Unit {0})
cancelled_audit ids m c = service_audit ids m c "command.cancelled" (cancelled_fields c)

abbrev pub audit_cancelled : Ids → RequestMetadata → Command → Tx Command
audit_cancelled ids m c = do cancelled_audit ids m c; pure c

-- The event and the audit of a cancellation.
unfoldable pub tell_cancelled : Ids → RequestMetadata → Command → Command → Tx Command
unfolding service_event service_audit
tell_cancelled ids m current c = do cancelled_event ids m current c; audit_cancelled ids m c

-- The command read again, and told.
abbrev pub reread_cancelled : Ids → RequestMetadata → String → Command → Bool → Tx Command
reread_cancelled ids m cid current updated =
    if updated then (get cid >>= tell_cancelled ids m current) else raise command_not_cancellable

-- What follows once the command is in reach.
unfoldable pub cancel_found : Ids → RequestMetadata → String → Command → Tx Command
unfolding cancel_queued get tell_cancelled
cancel_found ids m cid current = cancel_queued cid none >>= reread_cancelled ids m cid current

-- The transaction of Cancel.
unfoldable pub cancel_checked : Scope → Ids → RequestMetadata → String → Tx Command
cancel_checked scope ids m cid db = elim (find command_id cid db.commands) [
  | none ↦ err command_not_found
  | some current ↦
      if is_project scope && current.project_id != scope.project_id
      then err command_not_found
      else elim (find project_id current.project_id db.projects) [
        | none ↦ err command_not_found
        | some p ↦
            if not (can_access_project scope p)
            then err command_not_found
            else cancel_found ids m cid current db
      ]
]

unfoldable pub cancel :
    (String → Option String) → Scope → String → RequestMetadata → Ids → Db → Answer Command × Db
unfolding cancel_checked valid_scope valid_uuid validate_metadata transact
cancel parse_addr scope cid metadata ids db =
    if not (valid_scope scope) || not (valid_uuid cid)
    then (failed invalid_request, db)
    else elim (validate_metadata parse_addr scope metadata) [
      | none ↦ (failed invalid_request, db)
      | some m ↦ transact (cancel_checked scope ids m cid) db
    ]
