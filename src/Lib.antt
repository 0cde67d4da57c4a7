-- ===== src/Lib.antt =====
-- A platform for Internet-of-Things devices accepts commands for devices over HTTP, stores them in
-- PostgreSQL, hands each to the adapter of its provider and records what the device reports. This
-- library models the path of a command through the backend.
--
-- - Domain: backend/internal/domain, the enumerations, the records and the lifecycle tables
--   (lifecycle.go). Domain.Texts holds the texts that the constants stand for.
-- - Store: the database as a record of tables, one list of rows each, and a transaction as a function
--   of it (WithinTransaction in storage/repository/postgres_project_device.go): an error gives the
--   tables back as they were.
-- - CommandRepo: storage/repository/postgres_command_event.go, one function for each method that
--   changes rows, and CreateDelivery of postgres_webhook_simulator.go. CommandRepo.Trace is the
--   repository as a machine: `perform` runs one method in a transaction of its own, and `elapse` lets
--   time pass. CommandRepo.Status holds the lemmas on what each method does to a status.
-- - Worker: commandworker/worker.go and provideradapter/types.go, from a claimed command to the
--   result that is stored, every transaction with the events and the webhook deliveries it writes.
--   Worker.Maintenance is one round of the second poll of Run; Worker.Agreement compares the worker's
--   tables with those of the repository.
-- - ResultService: commandresultservice/service.go and types.go, what a device reports of a command.
-- - Access: access/scope.go. CommandService: commandservice/service.go, validation.go and types.go, the
--   requests to create, cancel, read and list commands, each with its checks and its transaction.
-- - DeviceRepo and DeviceService: the inserts and updates of devices in storage/repository/
--   postgres_project_device.go, and deviceservice/service.go with validation.go: the requests that
--   create a device, rename it, change its lifecycle status or read it.
-- - WebhookRepo: storage/repository/postgres_webhook_simulator.go, the deliveries of webhooks: claim,
--   completion, recovery of expired claims, the retry budget and the replay. WebhookRepo.State has the
--   CHECK constraints of the migrations and the delivery machine, WebhookRepo.Trace any sequence of
--   operations.
-- - WebhookWorker: webhookworker/worker.go and transport.go, the worker that sends deliveries.
-- - Omni: directdevice/omni, codec.go (ParseFrame and its validators) and decoder.go. Byte strings are
--   lists of numbers. The loop of Feed runs on fuel, the length of the chunk, of which each pass takes
--   at least two bytes or all.
-- - Prelude: Boolean tests, tables, JSON values and Go's text functions. Examples: sample data and
--   the theorems at concrete inputs.
--
-- Identifiers and texts are strings; instants are natural numbers of microseconds and durations of
-- nanoseconds, so a negative duration is not represented. The durations of a command are those of a
-- profile, which are whole milliseconds, so the columns in milliseconds hold them exactly. Numbers in
-- JSON are natural numbers, and a JSON column is read back as it was stored; only the payload of a
-- result, which is compared with that of a later report, goes through an argument, what json.Unmarshal
-- makes of it.
--
-- A statement that names a row by its primary key acts on the row with this key. The unique indexes
-- that stand after the last migration are errors of the inserts. The time of a transaction is a field
-- of the database, and what the program takes from outside is an argument: random identifiers, the
-- wall clock, the adapters, the rows that other transactions hold (SKIP LOCKED), and what others do
-- between two transactions of the worker.
--
-- Not modelled: failures of the database server, of the random source and of the encoding to JSON
-- and the decoding from it; HTTP and TCP input and output; cancellation by a context; the round robin over adapters and the
-- request keys of a claim (claimNext, DispatchNext); the sessions and the adapter of Omni; the
-- listings of devices, and the state that an answer shows beside the row of a device;
-- the services that administer projects and users; the simulator and the cloud provider WWTIOT, which
-- the worker meets as adapters only; the frontend.
pub mod Prelude
pub mod Domain
pub mod Store
pub mod CommandRepo
pub mod Access
pub mod CommandService
pub mod DeviceRepo
pub mod DeviceService
pub mod WebhookRepo
pub mod WebhookWorker
pub mod Worker
pub mod ResultService
pub mod Omni
pub mod Examples
