-- ===== src/CommandRepo/Aggregate.antt =====
-- postgres_command_event.go: the results of a command, and ApplyResult.
use device_platform.Prelude.{
  ℕ, Bool, true, false, ◌&&◌, ◌||◌, not, String, [], ◌∷◌, ◌++◌, Option, none, some, if◌then◌else◌,
  ◌==◌, ◌!=◌, string_eq,
}
use device_platform.Prelude.Json.{Json}
use device_platform.Prelude.Table.{find, modify, select}
use device_platform.Domain.Types.{
  CommandStatus, ResultOutcome, EventSource, command_status_eq, event_source_eq,
}
use device_platform.Domain.Lifecycle.{is_terminal}
use device_platform.Domain.Records.{Command, CommandResult}
use device_platform.Store.{
  Db, Tx, ok, err, ◌>>=◌, pure, command_id, result_id, no_rows, unique_violation,
  command_result_conflict, invalid_repository_request,
}
use device_platform.CommandRepo.Lock.{get, evidence_progresses}
use device_platform.CommandRepo.Dispatch.{any}
use device_platform.CommandRepo.Expire.{first_row}

abbrev pub same_origin : EventSource → String → CommandResult → Bool
same_origin source key r = r.source == source && r.deduplication_key == key

-- The row of a source and a key; there is at most one.
unfoldable pub row_of_origin : EventSource → String → Db → Option CommandResult
row_of_origin source key db = first_row (select result_id (same_origin source key) db.results)

-- GetByDeduplicationKey; `none` is sql.ErrNoRows. `decoded` is what json.Unmarshal into a map makes of a
-- stored payload: its numbers become float64.
unfoldable pub get_by_deduplication_key :
    (Json → Json) → EventSource → String → Db → Option CommandResult
unfolding row_of_origin
get_by_deduplication_key decoded source key db = elim (row_of_origin source key db) [
  | none ↦ none
  | some r ↦ some (record r { payload = decoded r.payload })
]

-- The INSERT, with the index uq_command_results_source_deduplication and the primary key.
unfoldable pub create_result : CommandResult → Tx (Unit {0})
unfolding row_of_origin
create_result r db = elim (row_of_origin r.source r.deduplication_key db) [
  | some old ↦ err command_result_conflict
  | none ↦ elim (find result_id r.id db.results) [
    | some old ↦ err unique_violation
    | none ↦ ok tt (record db { results = db.results ++ r ∷ [] })
  ]
]

abbrev pub set_late_evidence : CommandResult → Command → Command
set_late_evidence r c = record c {
  confirmation_level = r.confirmation_level;
  evidence_status = r.evidence_status;
  updated_at = r.observed_at;
}

abbrev pub set_result : CommandStatus → Option String → Option ℕ → CommandResult → Command → Command
set_result status reason finished r c = record c {
  status = status;
  reason_code = reason;
  reason_detail = none;
  confirmation_level = r.confirmation_level;
  evidence_status = r.evidence_status;
  finished_at = finished;
  updated_at = r.observed_at;
}

-- The previous status with the command as it is now.
abbrev Aggregation : Type 0
Aggregation = CommandStatus × Command

abbrev reread : String → CommandStatus → Tx Aggregation
reread cid previous = get cid >>= (λ current. pure (previous, current))

abbrev update_command : String → (Command → Command) → Db → Db
update_command cid f db = record db { commands = modify command_id cid any f db.commands }

unfoldable apply_late : CommandResult → Command → Tx Aggregation
unfolding get
apply_late r c db =
    if evidence_progresses c.confirmation_level c.evidence_status r.confirmation_level
      r.evidence_status
    then reread r.command_id c.status (update_command r.command_id (set_late_evidence r) db)
    else reread r.command_id c.status db

abbrev is_observable : CommandStatus → Bool
is_observable status = status == CommandStatus.sent || status == CommandStatus.acked

-- The switch over the outcome: the status, the reason and the finish time to write.
unfoldable pub result_update :
    CommandResult → CommandStatus → Option (CommandStatus × Option String × Option ℕ)
result_update r status = elim r.outcome [
  | ResultOutcome.device_acked ↦
      if status != CommandStatus.sent then none else some (CommandStatus.acked, none, none)
  | ResultOutcome.device_succeeded ↦
      if is_observable status then some (CommandStatus.success, none, some r.observed_at) else none
  | ResultOutcome.device_failed ↦
      if is_observable status
      then some (CommandStatus.failed, some "device_reported_failure", some r.observed_at)
      else none
]

unfoldable pub apply_result : CommandResult → Tx Aggregation
unfolding apply_late result_update get
apply_result r db = elim (find command_id r.command_id db.commands) [
  | none ↦ err no_rows
  | some c ↦
      if not (elim r.late [ true ↦ is_terminal c.status | false ↦ not (is_terminal c.status) ])
      then err invalid_repository_request
      else if r.late
      then apply_late r c db
      else elim (result_update r c.status) [
        | none ↦ err invalid_repository_request
        | some (status, reason, finished) ↦
            reread r.command_id c.status
              (update_command r.command_id (set_result status reason finished r) db)
      ]
]
