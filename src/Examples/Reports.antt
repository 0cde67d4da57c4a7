-- ===== src/Examples/Reports.antt =====
-- A device reports success of a command, twice.
use device_platform.Prelude.{leb, ◌/◌, ◌*◌, if◌then◌else◌, false, none}
use device_platform.Prelude.Json.{
  Json, Items, Fields, empty_object, number, array, object, nil, cons, end, field,
}
use device_platform.Domain.Types.{ConfirmationLevel, EvidenceStatus, EventSource, ResultOutcome}
use device_platform.Store.{Db, Result, ok, err}
use device_platform.ResultService.{RecordRequest, RecordResult, RecordIds, record_result}
use device_platform.Examples.Data.{sent_db, sent_command}

-- A float64 holds the integers up to 2^53; above it, this one keeps the even integers.
mutual
  decoded : Json → Json
  decoded (number n) = number (if leb n 9007199254740992 then n else n / 2 * 2)
  decoded (array xs) = array (decoded_items xs)
  decoded (object fs) = object (decoded_fields fs)
  decoded other = other

  decoded_items : Items → Items
  decoded_items nil = nil
  decoded_items (cons x xs) = cons (decoded x) (decoded_items xs)

  decoded_fields : Fields → Fields
  decoded_fields end = end
  decoded_fields (field k x fs) = field k (decoded x) (decoded_fields fs)

abbrev report : RecordRequest
report = record {
  command_id = "c1";
  attempt_id = none;
  source = EventSource.simulator;
  outcome = ResultOutcome.device_succeeded;
  deduplication_key = "r1";
  reported_at = none;
  observed_at = 4;
  payload = object (field "voltage" (number 9007199254740992) end);
}

-- With an integer that is odd and above 2^53.
abbrev lossy_report : RecordRequest
lossy_report = record report { payload = object (field "serial" (number 9007199254740993) end) }

abbrev fresh_ids : RecordIds
fresh_ids = record { result = "x1"; event = "e1"; delivery = "w1" }

abbrev other_ids : RecordIds
other_ids = record { result = "x2"; event = "e2"; delivery = "w2" }

abbrev first_call : Result RecordResult
unfolding record_result
first_call = record_result decoded fresh_ids report ConfirmationLevel.device_final sent_db

abbrev stored_db : Db
stored_db = elim first_call [ ok a db ↦ db | err e ↦ sent_db ]

abbrev stored : Result RecordResult → RecordResult
stored (ok out db) = out
stored (err e) = record {
  result = record {
    id = "";
    command_id = "";
    attempt_id = none;
    source = EventSource.system;
    outcome = ResultOutcome.device_acked;
    confirmation_level = ConfirmationLevel.none;
    evidence_status = EvidenceStatus.none;
    deduplication_key = "";
    reported_at = none;
    observed_at = 0;
    late = false;
    payload = empty_object;
    created_at = 0;
  };
  command = sent_command;
  idempotent_replay = false;
}

abbrev lossy_call : Result RecordResult
unfolding record_result
lossy_call = record_result decoded fresh_ids lossy_report ConfirmationLevel.device_final sent_db

abbrev lossy_db : Db
lossy_db = elim lossy_call [ ok a db ↦ db | err e ↦ sent_db ]
