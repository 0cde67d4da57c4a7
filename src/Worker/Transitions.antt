-- ===== src/Worker/Transitions.antt =====
-- commandworker/worker.go: resultTransition; provideradapter/types.go: what an adapter is given and
-- what it answers.
use device_platform.Prelude.{
  ℕ, Bool, ◌||◌, String, Option, none, some, if◌then◌else◌, ◌==◌, string_eq,
}
use device_platform.Prelude.Json.{Json}
use device_platform.Domain.Types.{
  CommandStatus, AttemptOutcome, ConfirmationLevel, EvidenceStatus, EventSource, Adapter,
}

pub record DispatchRequest : Type 0 where
  pub project_id : String
  pub device_id : String
  pub provider_device_id : String
  pub provider_profile : String
  pub action : String
  pub payload : Json
  pub provider_request_key : String
  pub attempt_request_summary : Json

pub record DispatchResult : Type 0 where
  pub outcome : AttemptOutcome
  pub confirmation_level : ConfirmationLevel
  pub evidence_status : EvidenceStatus
  pub http_status : ℕ
  pub request_summary : Json
  pub response_summary : Json
  pub reason_code : String
  pub error_detail : String

pub data PrepareFailure : Type 0 where
  action_unsupported mapping_unknown session_unavailable request_invalid : PrepareFailure

-- What Prepare returns: a *PrepareError, any other error, or a prepared dispatch with its summary
-- and what its Dispatch will answer.
pub data Prepared : Type 0 where
  prepare_error : PrepareFailure → String → Prepared
  other_error : String → Prepared
  prepared : Json → DispatchResult → Prepared

-- The interface of an adapter.
pub record ProviderAdapter : Type 0 where
  pub configured : Bool
  pub prepare : DispatchRequest → Prepared

pub record AdapterRegistration : Type 0 where
  pub provider_code : String
  pub adapter_code : Adapter
  pub adapter : ProviderAdapter
  pub result_source : EventSource

unfoldable pub prepare_failure_text : PrepareFailure → String
prepare_failure_text PrepareFailure.action_unsupported = "provider_action_unsupported"
prepare_failure_text PrepareFailure.mapping_unknown = "provider_mapping_unknown"
prepare_failure_text PrepareFailure.session_unavailable = "provider_session_unavailable"
prepare_failure_text PrepareFailure.request_invalid = "provider_request_invalid"

-- The reason and the status to write; `none` is ErrRuntimeState.
unfoldable pub result_transition : DispatchResult → Option (Option String × CommandStatus)
result_transition r = elim r.outcome [
  | AttemptOutcome.provider_accepted ↦ some (none, CommandStatus.sent)
  | AttemptOutcome.transport_error_before_send ↦
      some (some "provider_transport_error", CommandStatus.failed)
  | AttemptOutcome.indeterminate ↦
      if r.reason_code == "provider_delivery_unknown"
        || r.reason_code == "provider_response_invalid"
      then some (some r.reason_code, CommandStatus.sent)
      else none
  | AttemptOutcome.provider_rejected ↦ some (some "provider_rejected", CommandStatus.failed)
  | _ ↦ none
]
