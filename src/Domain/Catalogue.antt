-- ===== src/Domain/Catalogue.antt =====
-- backend/internal/domain/types.go: the catalogue of device types and of providers.
use device_platform.Prelude.{
  ℕ, ◌≡◌, ◌↔◌, Bool, true, String, List, arith, nat_beq, Comparable, string_eq,
}
use device_platform.Prelude.Json.{Json}
use device_platform.Domain.Types.{DeliveryPolicy, Adapter}

pub data ProviderActionAvailability : Type 0 where
  supported unsupported mapping_unknown : ProviderActionAvailability

abbrev action_availability_code : ProviderActionAvailability → ℕ
action_availability_code ProviderActionAvailability.supported = 0
action_availability_code ProviderActionAvailability.unsupported = 1
action_availability_code ProviderActionAvailability.mapping_unknown = 2

pub action_availability_code_iff :
    (a b : ProviderActionAvailability)
    → (nat_beq (action_availability_code a) (action_availability_code b) ≡ true) ↔ (a ≡ b)
action_availability_code_iff a b = ground arith

instance abbrev pub action_availability_eq : Comparable ProviderActionAvailability
action_availability_eq = record {
  equal = λ a b. nat_beq (action_availability_code a) (action_availability_code b);
  equal_iff = action_availability_code_iff;
}

pub data ProviderIntegrationStatus : Type 0 where
  unconfigured configured_unverified verified : ProviderIntegrationStatus

abbrev integration_status_code : ProviderIntegrationStatus → ℕ
integration_status_code ProviderIntegrationStatus.unconfigured = 0
integration_status_code ProviderIntegrationStatus.configured_unverified = 1
integration_status_code ProviderIntegrationStatus.verified = 2

pub integration_status_code_iff :
    (a b : ProviderIntegrationStatus)
    → (nat_beq (integration_status_code a) (integration_status_code b) ≡ true) ↔ (a ≡ b)
integration_status_code_iff a b = ground arith

instance abbrev pub integration_status_eq : Comparable ProviderIntegrationStatus
integration_status_eq = record {
  equal = λ a b. nat_beq (integration_status_code a) (integration_status_code b);
  equal_iff = integration_status_code_iff;
}

pub record CapabilityAction : Type 0 where
  pub identifier : String
  pub payload_schema : Json
  pub risk_level : String
  pub delivery_policy : DeliveryPolicy
  pub dispatch_deadline : ℕ
  pub provider_request_timeout : ℕ
  pub result_observation_timeout : ℕ
  pub retry_allowed : Bool
  pub delivery_policy_override_allowed : Bool

pub record DeviceType : Type 0 where
  pub id : String
  pub code : String
  pub current_revision : ℕ
  pub name : String
  pub created_at : ℕ
  pub updated_at : ℕ

pub record DeviceTypeProfile : Type 0 where
  pub device_type_id : String
  pub revision : ℕ
  pub actions : List CapabilityAction
  pub profile_hash : String
  pub created_at : ℕ

-- A map is a list of its entries: the availability of each action in each profile.
pub record Provider : Type 0 where
  pub code : String
  pub name : String
  pub access_type : String
  pub transport_protocol : String
  pub adapter : Adapter
  pub profiles : List String
  pub profile_actions : List (String × List (String × ProviderActionAvailability))
  pub integration_status : ProviderIntegrationStatus
