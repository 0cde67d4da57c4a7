-- ===== src/CommandService/Validation.antt =====
-- commandservice/validation.go and types.go: the checks of a request before its transaction.
-- netip.ParseAddr is a parameter.
use device_platform.Prelude.{
  ℕ, zero, suc, ◌-◌, ◌/◌, Bool, true, false, ◌&&◌, ◌||◌, not, String, [], ◌∷◌, Option, none, some,
  leb, ltb, if◌then◌else◌, ◌==◌, ◌!=◌, string_eq, nat_eq, length,
}
use device_platform.Prelude.Json.{Fields, end}
use device_platform.Prelude.Text.{trim_space, byte_len}
use device_platform.Prelude.Bytes.{Bytes, ascii, all, is_digit}
use device_platform.Domain.Types.{CommandStatus}
use device_platform.Domain.Audit.{ActorType, actor_type_eq}
use device_platform.Store.{Answer, done, failed, invalid_request, payload_invalid}
use device_platform.Access.{Scope, validate, is_project, is_human}

pub record RequestMetadata : Type 0 where
  pub actor_type : ActorType
  pub actor_user_id : String
  pub actor_id : String
  pub ip_address : String
  pub request_id : String

-- `none` is a nil payload.
pub record CreateRequest : Type 0 where
  pub project_id : String
  pub device_id : String
  pub command_type : String
  pub payload : Option Fields
  pub idempotency_key : String

pub record ListRequest : Type 0 where
  pub project_id : Option String
  pub device_id : Option String
  pub command_type : Option String
  pub status : Option CommandStatus
  pub page : ℕ
  pub page_size : ℕ

abbrev code_at : Bytes → ℕ → ℕ
code_at [] n = 0
code_at (c ∷ cs) zero = c
code_at (c ∷ cs) (suc n) = code_at cs n

abbrev is_lower_hex : ℕ → Bool
is_lower_hex c = is_digit c || (leb b'a' c && leb c b'f')

abbrev is_uuid_code : ℕ → Bool
is_uuid_code c = c == b'-' || is_lower_hex c

-- The codes that ReplaceAll leaves.
unfoldable without_dashes : Bytes → Bytes
without_dashes [] = []
without_dashes (c ∷ cs) = if c == b'-' then without_dashes cs else c ∷ without_dashes cs

-- validUUID: hex digits that strings.ToLower leaves alone are those without capitals.
unfoldable pub valid_uuid : String → Bool
unfolding ascii all without_dashes
valid_uuid value =
    let codes = ascii value in
    length codes == 36
    && code_at codes 8 == b'-'
    && code_at codes 13 == b'-'
    && code_at codes 18 == b'-'
    && code_at codes 23 == b'-'
    && length (without_dashes codes) == 32
    && all is_uuid_code codes

-- validateScope: whether it returns no error.
unfoldable pub valid_scope : Scope → Bool
unfolding validate valid_uuid
valid_scope scope = not (
    not (validate scope)
    || (is_project scope && not (valid_uuid scope.project_id))
    || (is_human scope && scope.user_id != "" && not (valid_uuid scope.user_id)))

-- The address after ParseAddr and Unmap; `none` for an error and for an address with a zone.
abbrev pub normalize_ip : (String → Option String) → String → Option String
normalize_ip parse_addr ip = if ip == "" then some "" else parse_addr (trim_space ip)

abbrev pub actor_matches : Scope → RequestMetadata → Bool
actor_matches scope m = not (
    (is_human scope
      && (m.actor_type != ActorType.user
          || not (valid_uuid m.actor_user_id)
          || (scope.user_id != "" && m.actor_user_id != scope.user_id)
          || m.actor_id != ""))
    || (is_project scope
        && (m.actor_type != ActorType.project
            || m.actor_id != scope.project_id
            || m.actor_user_id != "")))

abbrev pub trimmed : RequestMetadata → RequestMetadata
trimmed m = record m {
  actor_id = trim_space m.actor_id;
  actor_user_id = trim_space m.actor_user_id;
  request_id = trim_space m.request_id;
}

-- validateMetadata
unfoldable pub validate_metadata :
    (String → Option String) → Scope → RequestMetadata → Option RequestMetadata
unfolding trim_space byte_len valid_uuid
validate_metadata parse_addr scope metadata =
    let m = trimmed metadata in
    if m.request_id == "" || ltb 255 (byte_len m.request_id)
    then none
    else elim (normalize_ip parse_addr m.ip_address) [
      | none ↦ none
      | some ip ↦
          let normal = record m { ip_address = ip } in
          if actor_matches scope normal then some normal else none
    ]

unfoldable pub project_for_create : Scope → String → Option String
unfolding trim_space valid_uuid
project_for_create scope requested =
    let wanted = trim_space requested in
    if is_project scope
    then if wanted != "" then none else some scope.project_id
    else if not (valid_uuid wanted)
    then none
    else some wanted

-- normalizeIdempotencyKey and normalizeCommandType; a text is valid UTF-8, and a rune is a character.
unfoldable normalize_name : String → Option String
unfolding trim_space ascii
normalize_name value =
    let name = trim_space value in
    if ltb (length (ascii name)) 1 || ltb 128 (length (ascii name)) then none else some name

-- normalizePayload; what it returns is always the empty object.
abbrev valid_payload : Option Fields → Bool
valid_payload none = true
valid_payload (some fields) = elim fields [ end ↦ true | _ ↦ false ]

-- A request that has passed the checks.
pub record Checked : Type 0 where
  pub scope : Scope
  pub metadata : RequestMetadata
  pub project_id : String
  pub device_id : String
  pub command_type : String
  pub idempotency_key : String

abbrev check_names : Scope → RequestMetadata → String → CreateRequest → Answer Checked
check_names scope metadata pid r = elim (normalize_name r.command_type) [
  | none ↦ failed invalid_request
  | some command_type ↦
      if not (valid_payload r.payload)
      then failed payload_invalid
      else elim (normalize_name r.idempotency_key) [
        | none ↦ failed invalid_request
        | some key ↦ done (record {
          scope = scope;
          metadata = metadata;
          project_id = pid;
          device_id = trim_space r.device_id;
          command_type = command_type;
          idempotency_key = key;
        })
      ]
]

-- The part of Create before its transaction.
unfoldable pub check_create :
    (String → Option String) → Scope → CreateRequest → RequestMetadata → Answer Checked
unfolding valid_scope validate_metadata project_for_create normalize_name trim_space valid_uuid
check_create parse_addr scope r metadata =
    if not (valid_scope scope)
    then failed invalid_request
    else elim (validate_metadata parse_addr scope metadata) [
      | none ↦ failed invalid_request
      | some m ↦ elim (project_for_create scope r.project_id) [
        | none ↦ failed invalid_request
        | some pid ↦
            if not (valid_uuid (trim_space r.device_id))
            then failed invalid_request
            else check_names scope m pid r
      ]
    ]

-- math.MaxInt on a 64-bit machine.
abbrev max_int : ℕ
max_int = 9223372036854775807

abbrev valid_name_filter : Option String → Bool
valid_name_filter none = true
valid_name_filter (some name) = elim (normalize_name name) [ none ↦ false | some n ↦ n == name ]

abbrev valid_uuid_filter : Option String → Bool
valid_uuid_filter none = true
valid_uuid_filter (some id) = valid_uuid id

abbrev or_default : ℕ → ℕ → ℕ
or_default value fallback = if value == 0 then fallback else value

abbrev is_given : Option String → Bool
is_given none = false
is_given (some id) = true

abbrev filters_are_valid : ListRequest → Bool
filters_are_valid r =
    valid_uuid_filter r.project_id
    && valid_uuid_filter r.device_id
    && valid_name_filter r.command_type

-- validateListRequest; a page or a size below 0 is not represented.
unfoldable pub validate_list_request : Scope → ListRequest → Option ListRequest
unfolding normalize_name valid_uuid
validate_list_request scope request =
    let r = record request {
      page = or_default request.page 1;
      page_size = or_default request.page_size 20;
    } in
    if ltb 100 r.page_size || ltb (max_int / r.page_size) (r.page - 1)
    then none
    else if is_project scope
    then if is_given r.project_id || not (filters_are_valid r)
      then none
      else some (record r { project_id = some scope.project_id })
    else if filters_are_valid r
    then some r
    else none
