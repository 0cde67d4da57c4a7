-- ===== src/Examples/Data.antt =====
-- A smart lock at the simulator, one queued command for it, and the attempt of a worker.
use device_platform.Prelude.{true, false, none, some, [], ◌∷◌}
use device_platform.Prelude.Json.{empty_object}
use device_platform.Domain.Types.{
  ConnectionStatus, LifecycleStatus, Adapter, CommandStatus, DeliveryPolicy, AttemptPhase,
  EvidenceStatus, ConfirmationLevel, AttemptOutcome, EventSource,
}
use device_platform.Domain.Records.{Device, Command, CommandAttempt}
use device_platform.Store.{Db}
use device_platform.CommandRepo.Dispatch.{MarkDispatchingRequest}
use device_platform.Worker.Transitions.{DispatchResult, Prepared, AdapterRegistration}
use device_platform.Worker.Handlers.{DispatchIds}

abbrev pub lock_device : Device
lock_device = record {
  id = "d1";
  project_id = "p1";
  device_type_id = "t1";
  device_type_code = "smart-lock";
  name = "Lock";
  provider_code = "simulator";
  provider_profile = "simulator-v1";
  provider_device_id = "s1";
  access_type = "simulator";
  transport_protocol = "internal";
  adapter = Adapter.simulator_adapter;
  connection_status = ConnectionStatus.online;
  lifecycle_status = LifecycleStatus.active;
  created_at = 1;
  updated_at = 1;
}

abbrev pub queued_command : Command
queued_command = record {
  id = "c1";
  project_id = "p1";
  device_id = "d1";
  device_type_id = "t1";
  device_type_code = "smart-lock";
  provider_code = "simulator";
  provider_profile = "simulator-v1";
  provider_device_id = "s1";
  adapter = Adapter.simulator_adapter;
  command_type = "unlock";
  payload = empty_object;
  device_type_revision = 2;
  delivery_policy = DeliveryPolicy.online_only;
  dispatch_deadline = 30000000000;
  provider_timeout = 10000000000;
  result_timeout = 60000000000;
  retry_allowed = false;
  status = CommandStatus.queued;
  reason_code = none;
  reason_detail = none;
  confirmation_level = ConfirmationLevel.none;
  evidence_status = EvidenceStatus.none;
  idempotency_key = "k1";
  request_hash = "h1";
  queued_at = 1;
  dispatch_deadline_at = 30000001;
  sent_at = none;
  result_deadline_at = none;
  finished_at = none;
  created_at = 1;
  updated_at = 1;
}

abbrev pub claimed_attempt : CommandAttempt
claimed_attempt = record {
  id = "a1";
  command_id = "c1";
  attempt_no = 1;
  phase = AttemptPhase.claimed;
  provider_code = "simulator";
  adapter = Adapter.simulator_adapter;
  provider_request_key = "7";
  outcome = none;
  confirmation_level = ConfirmationLevel.none;
  evidence_status = EvidenceStatus.none;
  request_summary = empty_object;
  response_summary = empty_object;
  reason_code = none;
  error_detail = none;
  lease_token = "w1";
  lease_owner = "worker";
  lease_expires_at = 15000002;
  claimed_at = 2;
  dispatching_at = none;
  completed_at = none;
}

abbrev pub sent_command : Command
sent_command = record queued_command { status = CommandStatus.sent; sent_at = some 3 }

abbrev pub dispatching_attempt : CommandAttempt
dispatching_attempt = record claimed_attempt { phase = AttemptPhase.dispatching }

abbrev db_of : Command → CommandAttempt → Db
db_of c a = record {
  now = 5;
  commands = c ∷ [];
  attempts = a ∷ [];
  results = [];
  events = [];
  devices = lock_device ∷ [];
  projects = [];
  deliveries = [];
  raw_messages = [];
  delivery_attempts = [];
  secrets = [];
  audits = [];
  device_types = [];
  profiles = [];
}

abbrev pub claimed_db : Db
claimed_db = db_of queued_command claimed_attempt

abbrev pub sent_db : Db
sent_db = db_of sent_command dispatching_attempt

abbrev pub acked_db : Db
acked_db = db_of (record sent_command { status = CommandStatus.acked }) dispatching_attempt

abbrev pub mark_request : MarkDispatchingRequest
mark_request = record {
  result_observation_timeout = 60000000000;
  dispatch_lease_duration = 15000000000;
  request_summary = empty_object;
}

abbrev pub accepted : DispatchResult
accepted = record {
  outcome = AttemptOutcome.provider_accepted;
  confirmation_level = ConfirmationLevel.provider_accepted;
  evidence_status = EvidenceStatus.verified;
  http_status = 0;
  request_summary = empty_object;
  response_summary = empty_object;
  reason_code = "";
  error_detail = "";
}

abbrev pub simulator : AdapterRegistration
simulator = record {
  provider_code = "simulator";
  adapter_code = Adapter.simulator_adapter;
  adapter = record { configured = true; prepare = λ r. Prepared.prepared empty_object accepted };
  result_source = EventSource.simulator;
}

abbrev pub ids : DispatchIds
ids = record {
  first = record { event_id = "e1"; delivery_id = "v1"; wall_clock = 5 };
  second = record { event_id = "e2"; delivery_id = "v2"; wall_clock = 6 };
}
