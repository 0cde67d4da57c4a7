-- ===== src/ResultService.antt =====
-- backend/internal/commandresultservice: what a device or a provider reports of a command.
pub mod Replay
pub mod Lossy
use device_platform.Prelude.{
  ℕ, Bool, true, false, ◌&&◌, ◌||◌, not, String, Option, none, some, if◌then◌else◌, ◌==◌, ◌!=◌,
  string_eq, nat_eq, ltb,
}
use device_platform.Prelude.Json.{
  Json, null, text, boolean, object, field, end, empty_object, same_json,
}
use device_platform.Prelude.Text.{trim_space, byte_len, ◌<>◌}
use device_platform.Prelude.Table.{find}
use device_platform.Domain.Types.{
  ConfirmationLevel, EvidenceStatus, EventSource, EventType, ResultOutcome, confirmation_level_eq,
  evidence_status_eq, event_source_eq, result_outcome_eq,
}
use device_platform.Domain.Texts.{
  command_status_text, confirmation_level_text, evidence_status_text, result_outcome_text,
}
use device_platform.Domain.Lifecycle.{is_terminal}
use device_platform.Domain.Records.{Command, CommandResult, Event, event_schema_version}
use device_platform.Store.{
  Db, Tx, Answer, Error, ok, err, ◌>>=◌, ◌>>◌, pure, transact, command_id, command_missing,
  result_conflict, invalid_result, command_result_conflict,
}
use device_platform.CommandRepo.Aggregate.{get_by_deduplication_key, create_result, apply_result}
use device_platform.CommandRepo.Journal.{create_event, create_delivery}
use device_platform.Worker.Events.{event_envelope}

-- A time of 0 is the zero Time, and `null` a nil map.
pub record RecordRequest : Type 0 where
  pub command_id : String
  pub attempt_id : Option String
  pub source : EventSource
  pub outcome : ResultOutcome
  pub deduplication_key : String
  pub reported_at : Option ℕ
  pub observed_at : ℕ
  pub payload : Json

pub record RecordResult : Type 0 where
  pub result : CommandResult
  pub command : Command
  pub idempotent_replay : Bool

-- The random ids of one call.
pub record RecordIds : Type 0 where
  pub result : String
  pub event : String
  pub delivery : String

abbrev is_reporter : EventSource → Bool
is_reporter source =
    source == EventSource.provider_callback
    || source == EventSource.simulator
    || source == EventSource.system

abbrev confirmation_of : ResultOutcome → ConfirmationLevel
confirmation_of ResultOutcome.device_acked = ConfirmationLevel.device_acked
confirmation_of ResultOutcome.device_succeeded = ConfirmationLevel.device_final
confirmation_of ResultOutcome.device_failed = ConfirmationLevel.device_final

abbrev trimmed : Option String → Option String
trimmed none = none
trimmed (some s) = some (trim_space s)

abbrev is_after : Option ℕ → ℕ → Bool
is_after none time = false
is_after (some reported) time = ltb time reported

abbrev payload_of : Json → Json
payload_of null = empty_object
payload_of payload = payload

-- `none` is ErrInvalidResult.
unfoldable normalize : RecordRequest → ℕ → Option (RecordRequest × ConfirmationLevel)
unfolding trim_space byte_len
normalize r now =
    let cid = trim_space r.command_id in
    let key = trim_space r.deduplication_key in
    let aid = trimmed r.attempt_id in
    let observed = if r.observed_at == 0 then now else r.observed_at in
    if cid == ""
      || key == ""
      || ltb 256 (byte_len key)
      || elim aid [ none ↦ false | some a ↦ a == "" ]
      || not (is_reporter r.source)
      || is_after r.reported_at observed
    then none
    else some (
      record r {
        command_id = cid;
        attempt_id = aid;
        deduplication_key = key;
        observed_at = observed;
        payload = payload_of r.payload;
      },
      confirmation_of r.outcome,
    )

unfoldable pub same_optional_string : Option String → Option String → Bool
same_optional_string none none = true
same_optional_string (some a) (some b) = a == b
same_optional_string _ _ = false

unfoldable pub same_result : CommandResult → RecordRequest → ConfirmationLevel → Bool
unfolding same_optional_string
same_result existing r confirmation =
    existing.command_id == r.command_id
    && existing.source == r.source
    && existing.outcome == r.outcome
    && existing.confirmation_level == confirmation
    && existing.evidence_status == EvidenceStatus.verified
    && same_optional_string existing.attempt_id r.attempt_id
    && same_json existing.payload r.payload

abbrev pub event_of : RecordIds → CommandResult → Command → Event
event_of ids r c = record {
  id = ids.event;
  schema_version = event_schema_version;
  event_type = EventType.command_result_recorded;
  project_id = c.project_id;
  device_id = some c.device_id;
  command_id = some c.id;
  source = r.source;
  payload = object (
      field "confirmation_level" (text (confirmation_level_text r.confirmation_level)) (
        field "evidence_status" (text (evidence_status_text r.evidence_status)) (
          field "late" (boolean r.late) (
            field "outcome" (text (result_outcome_text r.outcome)) (
              field "result_id" (text r.id)
                (field "status" (text (command_status_text c.status)) end))))));
  raw_message_id = none;
  deduplication_key = "command.result_recorded:" <> c.id <> ":result:" <> r.id;
  occurred_at = r.observed_at;
  created_at = r.observed_at;
}

unfoldable pub create_result_event : RecordIds → CommandResult → Command → Tx (Unit {0})
unfolding event_envelope
create_result_event ids r c = do
  create_event (event_of ids r c)
  created ← create_delivery ids.delivery ids.event (event_envelope (event_of ids r c))
  pure tt

-- The row that Record inserts.
abbrev pub new_result : RecordIds → RecordRequest → ConfirmationLevel → Command → CommandResult
new_result ids r confirmation c = record {
  id = ids.result;
  command_id = c.id;
  attempt_id = r.attempt_id;
  source = r.source;
  outcome = r.outcome;
  confirmation_level = confirmation;
  evidence_status = EvidenceStatus.verified;
  deduplication_key = r.deduplication_key;
  reported_at = r.reported_at;
  observed_at = r.observed_at;
  late = is_terminal c.status;
  payload = r.payload;
  created_at = r.observed_at;
}

-- ErrCommandResultConflict of the insert becomes ErrResultConflict.
abbrev pub create_or_conflict : CommandResult → Tx (Unit {0})
create_or_conflict r db = elim (create_result r db) [
  | ok u db' ↦ ok u db'
  | err command_result_conflict ↦ err result_conflict
  | err e ↦ err e
]

unfoldable pub store_result : RecordIds → CommandResult → Tx RecordResult
unfolding create_result_event
store_result ids r = do
  create_or_conflict r
  aggregation ← apply_result r
  create_result_event ids r aggregation.1
  pure (record { result = r; command = aggregation.1; idempotent_replay = false })

-- The transaction of Record.
unfoldable pub record_result :
    (Json → Json) → RecordIds → RecordRequest → ConfirmationLevel → Tx RecordResult
unfolding store_result same_result is_terminal get_by_deduplication_key
record_result decoded ids r confirmation db = elim (find command_id r.command_id db.commands) [
  | none ↦ err command_missing
  | some c ↦ elim (get_by_deduplication_key decoded r.source r.deduplication_key db) [
    | some existing ↦
        if same_result existing r confirmation
        then ok (record { result = existing; command = c; idempotent_replay = true }) db
        else err result_conflict
    | none ↦ store_result ids (new_result ids r confirmation c) db
  ]
]

unfoldable record_report :
    (Json → Json) → RecordIds → ℕ → RecordRequest → Db → Answer RecordResult × Db
unfolding normalize record_result transact
record_report decoded ids now request db = elim (normalize request now) [
  | none ↦ (Answer.failed invalid_result, db)
  | some (r, confirmation) ↦ transact (record_result decoded ids r confirmation) db
]
