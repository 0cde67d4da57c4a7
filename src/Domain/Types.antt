-- ===== src/Domain/Types.antt =====
-- backend/internal/domain/types.go, its named string types. A type whose values the database
-- restricts by a CHECK constraint has the source's constants for constructors, compared by their
-- place in the declaration; ConfirmationLevel, whose unknown values the code tests for, has one more
-- constructor for every other text. Types share constants, so constructors are written behind them.
use device_platform.Prelude.{
  ℕ, ◌≡◌, ◌↔◌, Bool, true, false, String, arith, nat_beq, Comparable, ==_iff, string_eq, ◌==◌,
}

pub data ConnectionStatus : Type 0 where
  unknown online offline : ConnectionStatus

abbrev connection_status_code : ConnectionStatus → ℕ
connection_status_code ConnectionStatus.unknown = 0
connection_status_code ConnectionStatus.online = 1
connection_status_code ConnectionStatus.offline = 2

pub connection_status_code_iff :
    (a b : ConnectionStatus)
    → (nat_beq (connection_status_code a) (connection_status_code b) ≡ true) ↔ (a ≡ b)
connection_status_code_iff a b = ground arith

instance abbrev pub connection_status_eq : Comparable ConnectionStatus
connection_status_eq = record {
  equal = λ a b. nat_beq (connection_status_code a) (connection_status_code b);
  equal_iff = connection_status_code_iff;
}

pub data LifecycleStatus : Type 0 where
  active disabled deleted : LifecycleStatus

abbrev lifecycle_status_code : LifecycleStatus → ℕ
lifecycle_status_code LifecycleStatus.active = 0
lifecycle_status_code LifecycleStatus.disabled = 1
lifecycle_status_code LifecycleStatus.deleted = 2

pub lifecycle_status_code_iff :
    (a b : LifecycleStatus)
    → (nat_beq (lifecycle_status_code a) (lifecycle_status_code b) ≡ true) ↔ (a ≡ b)
lifecycle_status_code_iff a b = ground arith

instance abbrev pub lifecycle_status_eq : Comparable LifecycleStatus
lifecycle_status_eq = record {
  equal = λ a b. nat_beq (lifecycle_status_code a) (lifecycle_status_code b);
  equal_iff = lifecycle_status_code_iff;
}

pub data Adapter : Type 0 where
  wwtiot_cloud_api omni_direct_tcp simulator_adapter : Adapter

abbrev adapter_code : Adapter → ℕ
adapter_code Adapter.wwtiot_cloud_api = 0
adapter_code Adapter.omni_direct_tcp = 1
adapter_code Adapter.simulator_adapter = 2

pub adapter_code_iff :
    (a b : Adapter) → (nat_beq (adapter_code a) (adapter_code b) ≡ true) ↔ (a ≡ b)
adapter_code_iff a b = ground arith

instance abbrev pub adapter_eq : Comparable Adapter
adapter_eq = record {
  equal = λ a b. nat_beq (adapter_code a) (adapter_code b);
  equal_iff = adapter_code_iff;
}

pub data CommandStatus : Type 0 where
  queued sent acked success failed timeout cancelled : CommandStatus

abbrev command_status_code : CommandStatus → ℕ
command_status_code CommandStatus.queued = 0
command_status_code CommandStatus.sent = 1
command_status_code CommandStatus.acked = 2
command_status_code CommandStatus.success = 3
command_status_code CommandStatus.failed = 4
command_status_code CommandStatus.timeout = 5
command_status_code CommandStatus.cancelled = 6

pub command_status_code_iff :
    (a b : CommandStatus)
    → (nat_beq (command_status_code a) (command_status_code b) ≡ true) ↔ (a ≡ b)
command_status_code_iff a b = ground arith

instance abbrev pub command_status_eq : Comparable CommandStatus
command_status_eq = record {
  equal = λ a b. nat_beq (command_status_code a) (command_status_code b);
  equal_iff = command_status_code_iff;
}

pub data DeliveryPolicy : Type 0 where
  dispatch_once online_only : DeliveryPolicy

abbrev delivery_policy_code : DeliveryPolicy → ℕ
delivery_policy_code DeliveryPolicy.dispatch_once = 0
delivery_policy_code DeliveryPolicy.online_only = 1

pub delivery_policy_code_iff :
    (a b : DeliveryPolicy)
    → (nat_beq (delivery_policy_code a) (delivery_policy_code b) ≡ true) ↔ (a ≡ b)
delivery_policy_code_iff a b = ground arith

instance abbrev pub delivery_policy_eq : Comparable DeliveryPolicy
delivery_policy_eq = record {
  equal = λ a b. nat_beq (delivery_policy_code a) (delivery_policy_code b);
  equal_iff = delivery_policy_code_iff;
}

pub data AttemptPhase : Type 0 where
  claimed dispatching completed : AttemptPhase

abbrev attempt_phase_code : AttemptPhase → ℕ
attempt_phase_code AttemptPhase.claimed = 0
attempt_phase_code AttemptPhase.dispatching = 1
attempt_phase_code AttemptPhase.completed = 2

pub attempt_phase_code_iff :
    (a b : AttemptPhase) → (nat_beq (attempt_phase_code a) (attempt_phase_code b) ≡ true) ↔ (a ≡ b)
attempt_phase_code_iff a b = ground arith

instance abbrev pub attempt_phase_eq : Comparable AttemptPhase
attempt_phase_eq = record {
  equal = λ a b. nat_beq (attempt_phase_code a) (attempt_phase_code b);
  equal_iff = attempt_phase_code_iff;
}

pub data AttemptOutcome : Type 0 where
  not_dispatched invalid_request provider_accepted provider_rejected transport_error_before_send
        indeterminate :
      AttemptOutcome

abbrev attempt_outcome_code : AttemptOutcome → ℕ
attempt_outcome_code AttemptOutcome.not_dispatched = 0
attempt_outcome_code AttemptOutcome.invalid_request = 1
attempt_outcome_code AttemptOutcome.provider_accepted = 2
attempt_outcome_code AttemptOutcome.provider_rejected = 3
attempt_outcome_code AttemptOutcome.transport_error_before_send = 4
attempt_outcome_code AttemptOutcome.indeterminate = 5

pub attempt_outcome_code_iff :
    (a b : AttemptOutcome)
    → (nat_beq (attempt_outcome_code a) (attempt_outcome_code b) ≡ true) ↔ (a ≡ b)
attempt_outcome_code_iff a b = ground arith

instance abbrev pub attempt_outcome_eq : Comparable AttemptOutcome
attempt_outcome_eq = record {
  equal = λ a b. nat_beq (attempt_outcome_code a) (attempt_outcome_code b);
  equal_iff = attempt_outcome_code_iff;
}

pub data ResultOutcome : Type 0 where
  device_acked device_succeeded device_failed : ResultOutcome

abbrev result_outcome_code : ResultOutcome → ℕ
result_outcome_code ResultOutcome.device_acked = 0
result_outcome_code ResultOutcome.device_succeeded = 1
result_outcome_code ResultOutcome.device_failed = 2

pub result_outcome_code_iff :
    (a b : ResultOutcome)
    → (nat_beq (result_outcome_code a) (result_outcome_code b) ≡ true) ↔ (a ≡ b)
result_outcome_code_iff a b = ground arith

instance abbrev pub result_outcome_eq : Comparable ResultOutcome
result_outcome_eq = record {
  equal = λ a b. nat_beq (result_outcome_code a) (result_outcome_code b);
  equal_iff = result_outcome_code_iff;
}

pub data EvidenceStatus : Type 0 where
  none verified unverified : EvidenceStatus

abbrev evidence_status_code : EvidenceStatus → ℕ
evidence_status_code EvidenceStatus.none = 0
evidence_status_code EvidenceStatus.verified = 1
evidence_status_code EvidenceStatus.unverified = 2

pub evidence_status_code_iff :
    (a b : EvidenceStatus)
    → (nat_beq (evidence_status_code a) (evidence_status_code b) ≡ true) ↔ (a ≡ b)
evidence_status_code_iff a b = ground arith

instance abbrev pub evidence_status_eq : Comparable EvidenceStatus
evidence_status_eq = record {
  equal = λ a b. nat_beq (evidence_status_code a) (evidence_status_code b);
  equal_iff = evidence_status_code_iff;
}

pub data EventSource : Type 0 where
  admin open_api provider_callback simulator system : EventSource

abbrev event_source_code : EventSource → ℕ
event_source_code EventSource.admin = 0
event_source_code EventSource.open_api = 1
event_source_code EventSource.provider_callback = 2
event_source_code EventSource.simulator = 3
event_source_code EventSource.system = 4

pub event_source_code_iff :
    (a b : EventSource) → (nat_beq (event_source_code a) (event_source_code b) ≡ true) ↔ (a ≡ b)
event_source_code_iff a b = ground arith

instance abbrev pub event_source_eq : Comparable EventSource
event_source_eq = record {
  equal = λ a b. nat_beq (event_source_code a) (event_source_code b);
  equal_iff = event_source_code_iff;
}

pub data EventType : Type 0 where
  device_created device_lifecycle_changed device_connection_changed device_state_updated
        command_created command_status_changed command_evidence_updated command_result_recorded :
      EventType

abbrev event_type_code : EventType → ℕ
event_type_code EventType.device_created = 0
event_type_code EventType.device_lifecycle_changed = 1
event_type_code EventType.device_connection_changed = 2
event_type_code EventType.device_state_updated = 3
event_type_code EventType.command_created = 4
event_type_code EventType.command_status_changed = 5
event_type_code EventType.command_evidence_updated = 6
event_type_code EventType.command_result_recorded = 7

pub event_type_code_iff :
    (a b : EventType) → (nat_beq (event_type_code a) (event_type_code b) ≡ true) ↔ (a ≡ b)
event_type_code_iff a b = ground arith

instance abbrev pub event_type_eq : Comparable EventType
event_type_eq = record {
  equal = λ a b. nat_beq (event_type_code a) (event_type_code b);
  equal_iff = event_type_code_iff;
}

pub data WebhookDeliveryStatus : Type 0 where
  pending sending delivered failed dead : WebhookDeliveryStatus

abbrev webhook_delivery_status_code : WebhookDeliveryStatus → ℕ
webhook_delivery_status_code WebhookDeliveryStatus.pending = 0
webhook_delivery_status_code WebhookDeliveryStatus.sending = 1
webhook_delivery_status_code WebhookDeliveryStatus.delivered = 2
webhook_delivery_status_code WebhookDeliveryStatus.failed = 3
webhook_delivery_status_code WebhookDeliveryStatus.dead = 4

pub webhook_delivery_status_code_iff :
    (a b : WebhookDeliveryStatus)
    → (nat_beq (webhook_delivery_status_code a) (webhook_delivery_status_code b) ≡ true) ↔ (a ≡ b)
webhook_delivery_status_code_iff a b = ground arith

instance abbrev pub webhook_delivery_status_eq : Comparable WebhookDeliveryStatus
webhook_delivery_status_eq = record {
  equal = λ a b. nat_beq (webhook_delivery_status_code a) (webhook_delivery_status_code b);
  equal_iff = webhook_delivery_status_code_iff;
}

pub data ConfirmationLevel : Type 0 where
  none transport_sent provider_accepted device_acked device_final : ConfirmationLevel
  other : String → ConfirmationLevel

abbrev confirmation_level_beq : ConfirmationLevel → ConfirmationLevel → Bool
confirmation_level_beq ConfirmationLevel.none ConfirmationLevel.none = true
confirmation_level_beq ConfirmationLevel.transport_sent ConfirmationLevel.transport_sent = true
confirmation_level_beq ConfirmationLevel.provider_accepted ConfirmationLevel.provider_accepted =
    true
confirmation_level_beq ConfirmationLevel.device_acked ConfirmationLevel.device_acked = true
confirmation_level_beq ConfirmationLevel.device_final ConfirmationLevel.device_final = true
confirmation_level_beq (ConfirmationLevel.other s) (ConfirmationLevel.other t) = s == t
confirmation_level_beq _ _ = false

pub confirmation_level_beq_iff :
    (a b : ConfirmationLevel) → (confirmation_level_beq a b ≡ true) ↔ (a ≡ b)
confirmation_level_beq_iff (ConfirmationLevel.other s) (ConfirmationLevel.other t) =
    ground (arith, ==_iff s t)
confirmation_level_beq_iff _ _ = ground arith

instance abbrev pub confirmation_level_eq : Comparable ConfirmationLevel
confirmation_level_eq = record {
  equal = confirmation_level_beq;
  equal_iff = confirmation_level_beq_iff;
}
