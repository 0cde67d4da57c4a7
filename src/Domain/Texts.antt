-- ===== src/Domain/Texts.antt =====
-- The text of each constant of backend/internal/domain/types.go that is written into an event.
use device_platform.Prelude.{String}
use device_platform.Domain.Types.{
  CommandStatus, LifecycleStatus, DeliveryPolicy, AttemptOutcome, ResultOutcome, ConfirmationLevel,
  EvidenceStatus, EventSource, EventType,
}

pub command_status_text : CommandStatus → String
command_status_text CommandStatus.queued = "queued"
command_status_text CommandStatus.sent = "sent"
command_status_text CommandStatus.acked = "acked"
command_status_text CommandStatus.success = "success"
command_status_text CommandStatus.failed = "failed"
command_status_text CommandStatus.timeout = "timeout"
command_status_text CommandStatus.cancelled = "cancelled"

pub delivery_policy_text : DeliveryPolicy → String
delivery_policy_text DeliveryPolicy.dispatch_once = "dispatch_once"
delivery_policy_text DeliveryPolicy.online_only = "online_only"

pub attempt_outcome_text : AttemptOutcome → String
attempt_outcome_text AttemptOutcome.not_dispatched = "not_dispatched"
attempt_outcome_text AttemptOutcome.invalid_request = "invalid_request"
attempt_outcome_text AttemptOutcome.provider_accepted = "provider_accepted"
attempt_outcome_text AttemptOutcome.provider_rejected = "provider_rejected"
attempt_outcome_text AttemptOutcome.transport_error_before_send = "transport_error_before_send"
attempt_outcome_text AttemptOutcome.indeterminate = "indeterminate"

pub result_outcome_text : ResultOutcome → String
result_outcome_text ResultOutcome.device_acked = "device_acked"
result_outcome_text ResultOutcome.device_succeeded = "device_succeeded"
result_outcome_text ResultOutcome.device_failed = "device_failed"

pub evidence_status_text : EvidenceStatus → String
evidence_status_text EvidenceStatus.none = "none"
evidence_status_text EvidenceStatus.verified = "verified"
evidence_status_text EvidenceStatus.unverified = "unverified"

pub confirmation_level_text : ConfirmationLevel → String
confirmation_level_text ConfirmationLevel.none = "none"
confirmation_level_text ConfirmationLevel.transport_sent = "transport_sent"
confirmation_level_text ConfirmationLevel.provider_accepted = "provider_accepted"
confirmation_level_text ConfirmationLevel.device_acked = "device_acked"
confirmation_level_text ConfirmationLevel.device_final = "device_final"
confirmation_level_text (ConfirmationLevel.other s) = s

pub event_source_text : EventSource → String
event_source_text EventSource.admin = "admin"
event_source_text EventSource.open_api = "open_api"
event_source_text EventSource.provider_callback = "provider_callback"
event_source_text EventSource.simulator = "simulator"
event_source_text EventSource.system = "system"

pub event_type_text : EventType → String
event_type_text EventType.device_created = "device.created"
event_type_text EventType.device_lifecycle_changed = "device.lifecycle_changed"
event_type_text EventType.device_connection_changed = "device.connection_changed"
event_type_text EventType.device_state_updated = "device.state_updated"
event_type_text EventType.command_created = "command.created"
event_type_text EventType.command_status_changed = "command.status_changed"
event_type_text EventType.command_evidence_updated = "command.evidence_updated"
event_type_text EventType.command_result_recorded = "command.result_recorded"

pub lifecycle_status_text : LifecycleStatus → String
lifecycle_status_text LifecycleStatus.active = "active"
lifecycle_status_text LifecycleStatus.disabled = "disabled"
lifecycle_status_text LifecycleStatus.deleted = "deleted"
