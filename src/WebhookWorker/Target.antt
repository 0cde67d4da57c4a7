-- ===== src/WebhookWorker/Target.antt =====
-- webhookworker/transport.go: ValidateTargetURL. net/url, net/netip and strings.ToLower are
-- parameters.
use device_platform.Prelude.{
  Bool, false, ◌||◌, String, Option, none, some, if◌then◌else◌, ◌==◌, ◌!=◌, string_eq,
}

-- The fields of a url.URL that the code reads.
pub record ParsedUrl : Type 0 where
  pub scheme : String
  pub host : String
  pub hostname : String
  pub has_user : Bool
  pub fragment : String
  pub opaque : String

pub record UrlLibrary : Type 0 where
  -- url.Parse
  pub parse : String → Option ParsedUrl
  pub to_lower : String → String
  -- netip.ParseAddr succeeds, and the address IsLoopback.
  pub is_loopback : String → Bool

abbrev may_use_scheme : UrlLibrary → ParsedUrl → Bool
may_use_scheme lib u =
    lib.to_lower u.scheme == "https"
    || (if lib.to_lower u.scheme == "http"
        then lib.to_lower u.hostname == "localhost" || lib.is_loopback (lib.to_lower u.hostname)
        else false)

-- ValidateTargetURL: whether it returns no error.
unfoldable pub validate_target_url : UrlLibrary → String → Bool
validate_target_url lib raw = elim (lib.parse raw) [
  | none ↦ false
  | some u ↦
      if u.host == "" || u.has_user || u.fragment != "" || u.opaque != ""
      then false
      else may_use_scheme lib u
]
