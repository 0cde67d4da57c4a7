-- ===== src/Domain/Records.antt =====
-- backend/internal/domain/types.go, the records of the command lifecycle. A time.Time is a number of
-- microseconds, the resolution of the database; a time.Duration is a number of nanoseconds.
use device_platform.Prelude.{List, ℕ, Bool, String, Option}
use device_platform.Prelude.Json.{Json}
use device_platform.Domain.Types.{
  ConnectionStatus, LifecycleStatus, Adapter, CommandStatus, DeliveryPolicy, AttemptPhase,
  AttemptOutcome, ResultOutcome, EvidenceStatus, EventSource, EventType, ConfirmationLevel,
  WebhookDeliveryStatus,
}

pub record Device : Type 0 where
  pub id : String
  pub project_id : String
  pub device_type_id : String
  pub device_type_code : String
  pub name : String
  pub provider_code : String
  pub provider_profile : String
  pub provider_device_id : String
  pub access_type : String
  pub transport_protocol : String
  pub adapter : Adapter
  pub connection_status : ConnectionStatus
  pub lifecycle_status : LifecycleStatus
  pub created_at : ℕ
  pub updated_at : ℕ

pub record Command : Type 0 where
  pub id : String
  pub project_id : String
  pub device_id : String
  pub device_type_id : String
  pub device_type_code : String
  pub provider_code : String
  pub provider_profile : String
  pub provider_device_id : String
  pub adapter : Adapter
  pub command_type : String
  pub payload : Json
  pub device_type_revision : ℕ
  pub delivery_policy : DeliveryPolicy
  pub dispatch_deadline : ℕ
  pub provider_timeout : ℕ
  pub result_timeout : ℕ
  pub retry_allowed : Bool
  pub status : CommandStatus
  pub reason_code : Option String
  pub reason_detail : Option String
  pub confirmation_level : ConfirmationLevel
  pub evidence_status : EvidenceStatus
  pub idempotency_key : String
  pub request_hash : String
  pub queued_at : ℕ
  pub dispatch_deadline_at : ℕ
  pub sent_at : Option ℕ
  pub result_deadline_at : Option ℕ
  pub finished_at : Option ℕ
  pub created_at : ℕ
  pub updated_at : ℕ

pub record CommandAttempt : Type 0 where
  pub id : String
  pub command_id : String
  pub attempt_no : ℕ
  pub phase : AttemptPhase
  pub provider_code : String
  pub adapter : Adapter
  pub provider_request_key : String
  pub outcome : Option AttemptOutcome
  pub confirmation_level : ConfirmationLevel
  pub evidence_status : EvidenceStatus
  pub request_summary : Json
  pub response_summary : Json
  pub reason_code : Option String
  pub error_detail : Option String
  pub lease_token : String
  pub lease_owner : String
  pub lease_expires_at : ℕ
  pub claimed_at : ℕ
  pub dispatching_at : Option ℕ
  pub completed_at : Option ℕ

pub record CommandResult : Type 0 where
  pub id : String
  pub command_id : String
  pub attempt_id : Option String
  pub source : EventSource
  pub outcome : ResultOutcome
  pub confirmation_level : ConfirmationLevel
  pub evidence_status : EvidenceStatus
  pub deduplication_key : String
  pub reported_at : Option ℕ
  pub observed_at : ℕ
  pub late : Bool
  pub payload : Json
  pub created_at : ℕ

pub record Event : Type 0 where
  pub id : String
  pub schema_version : ℕ
  pub event_type : EventType
  pub project_id : String
  pub device_id : Option String
  pub command_id : Option String
  pub source : EventSource
  pub payload : Json
  pub raw_message_id : Option String
  pub deduplication_key : String
  pub occurred_at : ℕ
  pub created_at : ℕ

abbrev pub event_schema_version : ℕ
event_schema_version = 1

-- The row of a project; the user that manages it is joined by id.
pub record Project : Type 0 where
  pub id : String
  pub name : String
  pub manager_user_id : String
  pub api_key_digest : String
  pub webhook_url : Option String
  pub webhook_config_version : ℕ
  pub current_webhook_secret_version : Option ℕ
  pub ip_whitelist : List String
  pub created_at : ℕ
  pub updated_at : ℕ

pub record WebhookDelivery : Type 0 where
  pub id : String
  pub project_id : String
  pub event_id : String
  pub target_url : String
  pub webhook_config_version : ℕ
  pub webhook_secret_version : ℕ
  pub raw_body : Json
  pub attempt_count : ℕ
  pub status : WebhookDeliveryStatus
  pub last_error_code : Option String
  pub last_error_detail : Option String
  pub next_attempt_at : Option ℕ
  pub lease_token : Option String
  pub lease_owner : Option String
  pub lease_expires_at : Option ℕ
  pub replay_of_delivery_id : Option String
  pub delivered_at : Option ℕ
  pub created_at : ℕ
  pub updated_at : ℕ

pub record WebhookDeliveryAttempt : Type 0 where
  pub id : String
  pub delivery_id : String
  pub attempt_no : ℕ
  pub request_timestamp : ℕ
  pub http_status : Option ℕ
  pub response_summary : Option String
  pub error_code : Option String
  pub error_detail : Option String
  pub started_at : ℕ
  pub completed_at : Option ℕ

-- The columns of a raw message that the verification of a provider's acceptance reads.
pub record RawMessage : Type 0 where
  pub id : String
  pub device_id : Option String
  pub provider_code : String
  pub provider_device_id : String
  pub adapter : Adapter
  pub is_inbound : Bool
  pub deduplication_key : String
