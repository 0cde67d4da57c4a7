-- ===== src/CommandService/Authorize.antt =====
-- commandservice/service.go: New and what Create reads before it writes, with GetByCode and GetProfile
-- of storage/repository/postgres_project_device.go.
use device_platform.Prelude.{
  ℕ, Bool, false, ◌&&◌, ◌||◌, not, String, List, [], ◌∷◌, Option, none, some, if◌then◌else◌, ◌==◌,
  ◌!=◌, string_eq, nat_eq,
}
use device_platform.Prelude.Json.{Json, null, boolean, number, text, object, Fields, field, end}
use device_platform.Prelude.Text.{trim_space}
use device_platform.Prelude.Table.{find}
use device_platform.Domain.Types.{
  LifecycleStatus, ConnectionStatus, DeliveryPolicy, lifecycle_status_eq, connection_status_eq,
  delivery_policy_eq, adapter_eq,
}
use device_platform.Domain.Records.{Device}
use device_platform.Domain.Catalogue.{
  CapabilityAction, DeviceType, DeviceTypeProfile, Provider, ProviderActionAvailability,
  ProviderIntegrationStatus, integration_status_eq,
}
use device_platform.Store.{
  Db, Answer, done, failed, device_id, device_type_code, no_rows, device_not_found, device_disabled,
  device_not_online, capability_unsupported, payload_invalid, provider_not_configured,
  provider_action_unsupported, provider_mapping_unknown,
}
use device_platform.CommandService.Validation.{Checked}

-- The value of a key in a map that is a list of entries.
unfoldable pub entry_of {ℓ} : {V : Type ℓ} → String → List (String × V) → Option V
entry_of k [] = none
entry_of k ((j, v) ∷ entries) = if j == k then some v else entry_of k entries

abbrev pub Registry : Type 0
Registry = List (String × Provider)

-- The loop of New; a later provider with the same code replaces an earlier one.
unfoldable register : List Provider → Registry → Option Registry
unfolding trim_space
register [] known = some known
register (p ∷ ps) known =
    let rest = register ps ((p.code, p) ∷ known) in if trim_space p.code == "" then none else rest

-- New; `none` is ErrInvalidRequest.
unfoldable new_service : Bool → List Provider → Option Registry
unfolding register
new_service has_store providers = if has_store then register providers [] else none

unfoldable pub find_profile : String → ℕ → List DeviceTypeProfile → Option DeviceTypeProfile
find_profile tid revision [] = none
find_profile tid revision (p ∷ rows) =
    if p.device_type_id == tid && p.revision == revision
    then some p
    else find_profile tid revision rows

unfoldable find_action : String → List CapabilityAction → Option CapabilityAction
find_action name [] = none
find_action name (a ∷ actions) = if a.identifier == name then some a else find_action name actions

abbrev is_text : String → Json → Bool
is_text s (text t) = t == s
is_text s other = false

abbrev is_false : Json → Bool
is_false (boolean b) = not b
is_false other = false

abbrev is_zero : Json → Bool
is_zero (number n) = n == 0
is_zero other = false

unfoldable field_of : String → Fields → Json
field_of k end = null
field_of k (field j v fields) = if j == k then v else field_of k fields

-- validateActionPayload, of the empty payload: a schema that is no object has no keys.
unfoldable accepts_empty : CapabilityAction → Bool
unfolding field_of
accepts_empty a = elim a.payload_schema [
  | object fields ↦
      is_text "object" (field_of "type" fields)
      && is_false (field_of "additionalProperties" fields)
      && is_zero (field_of "maxProperties" fields)
  | _ ↦ false
]

-- What a permitted request resolves to.
pub record Plan : Type 0 where
  pub device : Device
  pub device_type : DeviceType
  pub profile : DeviceTypeProfile
  pub action : CapabilityAction

abbrev check_online : Plan → Answer Plan
check_online plan =
    if plan.action.delivery_policy == DeliveryPolicy.online_only
      && plan.device.connection_status != ConnectionStatus.online
    then failed device_not_online
    else done plan

abbrev check_mapping : Provider → String → Plan → Answer Plan
check_mapping p command_type plan = elim (entry_of plan.device.provider_profile p.profile_actions) [
  | none ↦ failed provider_not_configured
  | some actions ↦ elim (entry_of command_type actions) [
    | none ↦ failed provider_not_configured
    | some ProviderActionAvailability.supported ↦ check_online plan
    | some ProviderActionAvailability.unsupported ↦ failed provider_action_unsupported
    | some ProviderActionAvailability.mapping_unknown ↦ failed provider_mapping_unknown
  ]
]

abbrev check_provider : Registry → String → Plan → Answer Plan
check_provider registry command_type plan = elim (entry_of plan.device.provider_code registry) [
  | none ↦ failed provider_not_configured
  | some p ↦
      if p.integration_status == ProviderIntegrationStatus.unconfigured
        || p.code != plan.device.provider_code
        || p.adapter != plan.device.adapter
      then failed provider_not_configured
      else check_mapping p command_type plan
]

abbrev check_action : Registry → String → Device → DeviceType → Db → Answer Plan
check_action registry command_type device t db =
    elim (find_profile t.id t.current_revision db.profiles) [
      | none ↦ failed no_rows
      | some profile ↦ elim (find_action command_type profile.actions) [
        | none ↦ failed capability_unsupported
        | some action ↦
            if accepts_empty action
            then check_provider registry command_type
                (record { device = device; device_type = t; profile = profile; action = action })
            else failed payload_invalid
      ]
    ]

-- The checks of Create from the device to its connection.
unfoldable pub authorize : Registry → Checked → Db → Answer Plan
unfolding entry_of find_profile find_action accepts_empty
authorize registry k db = elim (find device_id k.device_id db.devices) [
  | none ↦ failed device_not_found
  | some device ↦
      if device.project_id != k.project_id
      then failed device_not_found
      else if device.lifecycle_status != LifecycleStatus.active
      then failed device_disabled
      else elim (find device_type_code device.device_type_code db.device_types) [
        | none ↦ failed capability_unsupported
        | some t ↦
            if t.id != device.device_type_id
            then failed capability_unsupported
            else check_action registry k.command_type device t db
      ]
]
