-- ===== src/DeviceService/Validation.antt =====
-- deviceservice/validation.go. The checks of a scope and of a uuid are those of the command service,
-- written a second time in the source.
use device_platform.Prelude.{
  Bool, ◌&&◌, ◌||◌, not, String, Option, none, some, ltb, if◌then◌else◌, ◌==◌, string_eq, nat_eq,
  length,
}
use device_platform.Prelude.Text.{trim_space, byte_len}
use device_platform.Prelude.Bytes.{ascii}
use device_platform.Domain.Types.{LifecycleStatus, lifecycle_status_eq}
use device_platform.Domain.Audit.{ActorType, actor_type_eq}
use device_platform.Access.{Scope}
use device_platform.CommandService.Validation.{
  RequestMetadata, trimmed, normalize_ip, actor_matches,
}

unfoldable pub normalize_device_name : String → Option String
unfolding trim_space ascii
normalize_device_name value =
    let name = trim_space value in
    if ltb (length (ascii name)) 1 || ltb 120 (length (ascii name)) then none else some name

abbrev is_user_or_project : ActorType → Bool
is_user_or_project t = t == ActorType.user || t == ActorType.project

-- validateMetadata and validateWriteActor
unfoldable pub validate_write :
    (String → Option String) → Scope → RequestMetadata → Option RequestMetadata
unfolding trim_space byte_len
validate_write parse_addr scope metadata =
    let m = trimmed metadata in
    if not (is_user_or_project metadata.actor_type)
      || m.request_id == ""
      || ltb 255 (byte_len m.request_id)
    then none
    else elim (normalize_ip parse_addr m.ip_address) [
      | none ↦ none
      | some ip ↦
          let normal = record m { ip_address = ip } in
          if actor_matches scope normal then some normal else none
    ]

unfoldable pub can_transition_lifecycle : LifecycleStatus → LifecycleStatus → Bool
can_transition_lifecycle from to =
    (from == LifecycleStatus.active
      && (to == LifecycleStatus.disabled || to == LifecycleStatus.deleted))
    || (from == LifecycleStatus.disabled
        && (to == LifecycleStatus.active || to == LifecycleStatus.deleted))
