-- ===== src/WebhookWorker/Deliver.antt =====
-- webhookworker/worker.go: dispatchClaimed, webhookRequest, signature, summarizeResponse, truncate,
-- completeSecretFailure, completeSuccess, completeFailure and complete, with
-- GetWebhookSecretVersion and the INSERT of an audit. What the code takes from outside stands in
-- Outside: the secrets, the network, the cryptography and the JSON encoder.
pub mod Held
pub mod Row
pub mod Outcome
pub mod Odd
use device_platform.Prelude.{
  ℕ, Bool, true, false, ◌&&◌, not, String, List, [], ◌∷◌, ◌++◌, Option, none, some, leb, ltb,
  if◌then◌else◌, ◌==◌, string_eq, nat_eq, length,
}
use device_platform.Prelude.Json.{Json, object, field, end, number, text}
use device_platform.Prelude.Text.{◌<>◌, decimal, truncate}
use device_platform.Prelude.Bytes.{Bytes, take}
use device_platform.Prelude.Table.{find}
use device_platform.Domain.Audit.{ActorType, AuditResult, AuditLog, WebhookSecretVersion}
use device_platform.Domain.Records.{WebhookDelivery, WebhookDeliveryAttempt}
use device_platform.Store.{
  Db, Tx, Answer, done, failed, ok, err, ◌>>=◌, ◌>>◌, pure, raise, transact, audit_id, no_rows,
  lease_lost, unique_violation,
}
use device_platform.CommandRepo.Journal.{create_audit}
use device_platform.WebhookRepo.Complete.{CompleteWebhookAttemptRequest, complete_delivery_attempt}
use device_platform.WebhookWorker.Config.{WebhookWorker, retry_delay}
use device_platform.WebhookWorker.Target.{UrlLibrary, validate_target_url}

-- What ResolveWebhookSecret answers; an error is ErrWebhookSecretDecryption or another.
pub data ResolvedSecret : Type 0 where
  secret : String → ResolvedSecret
  decryption_failed unresolved : ResolvedSecret

pub record HttpRequest : Type 0 where
  pub url : String
  pub body : Json
  pub content_type : String
  pub timestamp : String
  pub signature : String
  pub event_id : String
  pub secret_version : String

-- A response: the body is what can be read of it, and whether an error ends it.
pub record HttpResponse : Type 0 where
  pub status_code : ℕ
  pub content_type : String
  pub body : Bytes
  pub body_fails : Bool

pub record ResponseSummary : Type 0 where
  pub media_type : String
  pub captured_bytes : ℕ
  pub truncated : Bool
  pub read_error : Bool
  pub sha256 : String

pub record Outside : Type 0 where
  pub urls : UrlLibrary
  -- http.NewRequestWithContext accepts the URL.
  pub accepts_url : String → Bool
  pub resolve_webhook_secret : String → ℕ → ResolvedSecret
  -- HTTPClient.Do; `none` is an error.
  pub send : HttpRequest → Option HttpResponse
  -- The hex digits of the HMAC-SHA256 under a key of a prefix and a body.
  pub mac : String → String → Json → String
  pub sha256 : Bytes → String
  pub media_type : String → String
  pub marshal : ResponseSummary → String

-- responseCaptureLimit
abbrev pub response_capture_limit : ℕ
response_capture_limit = 4096

unfoldable pub signature : Outside → String → ℕ → ℕ → Json → String
unfolding decimal
signature out key timestamp version body =
    "v1=" <> out.mac key ("v1." <> decimal timestamp <> "." <> decimal version <> ".") body

abbrev pub webhook_request :
    Outside → WebhookDelivery → WebhookDeliveryAttempt → String → Option HttpRequest
webhook_request out d a key =
    if validate_target_url out.urls d.target_url && out.accepts_url d.target_url
    then some (record {
      url = d.target_url;
      body = d.raw_body;
      content_type = "application/json";
      timestamp = decimal a.request_timestamp;
      signature = signature out key a.request_timestamp d.webhook_secret_version d.raw_body;
      event_id = d.event_id;
      secret_version = decimal d.webhook_secret_version;
    })
    else none

-- The LimitReader stops one byte past the limit, before an error that comes later.
unfoldable pub summarize_response : Outside → HttpResponse → String
unfolding take
summarize_response out response =
    let body = take response_capture_limit response.body in
    out.marshal (record {
      media_type = out.media_type response.content_type;
      captured_bytes = length body;
      truncated = ltb response_capture_limit (length response.body);
      read_error = response.body_fails && leb (length response.body) response_capture_limit;
      sha256 = out.sha256 body;
    })

-- complete, with the step that follows in the same transaction.
unfoldable pub complete :
    String → String → CompleteWebhookAttemptRequest → Tx (Unit {0}) → Tx (Unit {0})
complete did token r extra =
    complete_delivery_attempt did token r
    >>= (λ completed. if completed then extra else raise lease_lost)

abbrev pub success_request :
    WebhookWorker → WebhookDeliveryAttempt → ℕ → String → CompleteWebhookAttemptRequest
success_request w a status summary = record {
  attempt_id = a.id;
  http_status = some status;
  response_summary = some summary;
  error_code = none;
  error_detail = none;
  retry_delay = 0;
  max_attempts = w.max_attempts;
}

abbrev pub failure_request :
    WebhookWorker
    → WebhookDelivery
    → WebhookDeliveryAttempt
    → Option ℕ
    → Option String
    → String
    → String
    → CompleteWebhookAttemptRequest
failure_request w d a status summary code detail = record {
  attempt_id = a.id;
  http_status = status;
  response_summary = summary;
  error_code = some code;
  error_detail = some (truncate detail response_capture_limit);
  retry_delay = retry_delay w d.attempt_count;
  max_attempts = w.max_attempts;
}

abbrev is_version : String → ℕ → WebhookSecretVersion → Bool
is_version pid version s = s.project_id == pid && s.version == version

-- The primary key is (project_id, version).
unfoldable find_version : String → ℕ → List WebhookSecretVersion → Option WebhookSecretVersion
find_version pid version [] = none
find_version pid version (s ∷ rows) =
    if is_version pid version s then some s else find_version pid version rows

unfoldable get_webhook_secret_version : String → ℕ → Tx WebhookSecretVersion
unfolding find_version
get_webhook_secret_version pid version db = elim (find_version pid version db.secrets) [
  | none ↦ err no_rows
  | some s ↦ ok s db
]

abbrev decryption_audit : String → ℕ → WebhookDelivery → ℕ → AuditLog
decryption_audit aid occurred_at d key_version = record {
  id = aid;
  actor_type = ActorType.system;
  actor_user_id = none;
  actor_id = none;
  project_id = some d.project_id;
  action = "project.webhook_secret_decryption_failed";
  result = AuditResult.failure;
  resource_type = "project";
  resource_id = some d.project_id;
  ip_address = none;
  request_id = none;
  metadata = object (
      field "encryption_key_version" (number key_version) (
        field "error_code" (text "secret_decryption_failed")
          (field "webhook_secret_version" (number d.webhook_secret_version) end)));
  occurred_at = occurred_at;
}

abbrev secret_failure_request :
    WebhookWorker → WebhookDelivery → WebhookDeliveryAttempt → CompleteWebhookAttemptRequest
secret_failure_request w d a = record {
  attempt_id = a.id;
  http_status = none;
  response_summary = none;
  error_code = some "secret_resolution_failed";
  error_detail = some "Webhook secret could not be resolved";
  retry_delay = retry_delay w d.attempt_count;
  max_attempts = w.max_attempts;
}

-- What an audit takes from outside.
pub record AuditStamp : Type 0 where
  pub id : String
  pub occurred_at : ℕ

-- completeSecretFailure. The secret is read before the transaction.
unfoldable pub complete_secret_failure :
    WebhookWorker
    → AuditStamp
    → WebhookDelivery
    → WebhookDeliveryAttempt
    → String
    → Bool
    → Db
    → Answer (Unit {0}) × Db
unfolding complete get_webhook_secret_version create_audit
complete_secret_failure w stamp d a token decryption db =
    if decryption
    then elim (get_webhook_secret_version d.project_id d.webhook_secret_version db) [
      | err e ↦ (failed e, db)
      | ok s db' ↦
          transact
            (complete d.id token (secret_failure_request w d a) (
              create_audit
                (decryption_audit stamp.id stamp.occurred_at d s.encryption_key_version)))
            db
    ]
    else transact (complete d.id token (secret_failure_request w d a) (pure tt)) db

abbrev complete_failure :
    WebhookWorker
    → WebhookDelivery
    → WebhookDeliveryAttempt
    → String
    → Option ℕ
    → Option String
    → String
    → String
    → Db
    → Answer (Unit {0}) × Db
complete_failure w d a token status summary code detail =
    transact (complete d.id token (failure_request w d a status summary code detail) (pure tt))

abbrev pub is_success : ℕ → Bool
is_success status = leb 200 status && leb status 299

-- The part of dispatchClaimed after the answer of the receiver.
unfoldable pub store_response :
    Outside
    → WebhookWorker
    → WebhookDelivery
    → WebhookDeliveryAttempt
    → String
    → HttpResponse
    → Db
    → Answer (Unit {0}) × Db
unfolding complete summarize_response truncate retry_delay decimal
store_response out w d a token response =
    if is_success response.status_code
    then transact (
        complete d.id token
          (success_request w a response.status_code (summarize_response out response)) (pure tt))
    else complete_failure w d a token (some response.status_code)
        (some (summarize_response out response)) "http_error"
        ("Webhook endpoint returned HTTP " <> decimal response.status_code)

-- dispatchClaimed, with the database as it is when the answer has come.
unfoldable pub dispatch_claimed :
    Outside
    → WebhookWorker
    → AuditStamp
    → WebhookDelivery
    → WebhookDeliveryAttempt
    → String
    → Db
    → Answer (Unit {0}) × Db
unfolding complete_secret_failure store_response
dispatch_claimed out w stamp d a token db =
    elim (out.resolve_webhook_secret d.project_id d.webhook_secret_version) [
      | decryption_failed ↦ complete_secret_failure w stamp d a token true db
      | unresolved ↦ complete_secret_failure w stamp d a token false db
      | secret key ↦ elim (webhook_request out d a key) [
        | none ↦
            complete_failure w d a token none none "invalid_target" "Webhook target URL is invalid"
              db
        | some request ↦ elim (out.send request) [
          | none ↦
              complete_failure w d a token none none "transport_error" "Webhook HTTP request failed"
                db
          | some response ↦ store_response out w d a token response db
        ]
      ]
    ]
