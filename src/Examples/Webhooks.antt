-- ===== src/Examples/Webhooks.antt =====
-- A delivery that is due, a receiver, and a worker with the default settings.
use device_platform.Prelude.{
  ℕ, ◌≡◌, ◌≤◌, refl, Bool, true, false, String, none, some, List, [], ◌∷◌, arith, string_eq,
}
use device_platform.Prelude.Json.{empty_object}
use device_platform.Prelude.Table.{find, select, affects, modify, first_by_both}
use device_platform.Prelude.Text.{trim_space}
use device_platform.Domain.Types.{WebhookDeliveryStatus}
use device_platform.Domain.Records.{WebhookDelivery, WebhookDeliveryAttempt}
use device_platform.Store.{Db, delivery_id, ok, failed, lease_lost}
use device_platform.WebhookRepo.Claim.{ClaimWebhookRequest, claim_due}
use device_platform.WebhookRepo.Complete.{CompleteWebhookAttemptRequest}
use device_platform.WebhookRepo.State.{meets_checks, phase_of}
use device_platform.WebhookRepo.Trace
use device_platform.WebhookRepo.Trace.{Run}
use device_platform.WebhookRepo.Trace.Refine.{
  MeetsChecks, perform_all-MeetsChecks, perform_all_refines,
}
use device_platform.WebhookRepo.Trace.Budget.{claims, claims-le-five}
use device_platform.WebhookWorker.Config.{Config, WebhookWorker, default_retry_schedule}
use device_platform.WebhookWorker.Target.{UrlLibrary, validate_target_url}
use device_platform.WebhookWorker.Deliver.{
  Outside, HttpRequest, HttpResponse, ResolvedSecret, dispatch_claimed, AuditStamp, webhook_request,
  signature,
}
use device_platform.WebhookWorker.Deliver.Held.{IsHeld}
use device_platform.WebhookWorker.Deliver.Odd.{odd_status_is_lost}
use device_platform.WebhookWorker.Loop.Claimed.{claim_due-IsHeld}
use device_platform.Examples.Data.{claimed_db}

abbrev due_row : WebhookDelivery
due_row = record {
  id = "v1";
  project_id = "p1";
  event_id = "e1";
  target_url = "https://receiver.example/hook";
  webhook_config_version = 1;
  webhook_secret_version = 1;
  raw_body = empty_object;
  attempt_count = 0;
  status = WebhookDeliveryStatus.pending;
  last_error_code = none;
  last_error_detail = none;
  next_attempt_at = some 1;
  lease_token = none;
  lease_owner = none;
  lease_expires_at = none;
  replay_of_delivery_id = none;
  delivered_at = none;
  created_at = 1;
  updated_at = 1;
}

abbrev due_db : Db
due_db = record claimed_db { now = 5; deliveries = due_row ∷ [] }

due_db-MeetsChecks : MeetsChecks due_db
unfolding find meets_checks
due_db-MeetsChecks j d e = ground (arith)

abbrev nobody : String → Bool
nobody id = false

abbrev worker : WebhookWorker
worker = record {
  worker_id = "webhook-worker";
  poll_interval = 500000000;
  lease_duration = 15000000000;
  max_attempts = 5;
  retry_schedule = default_retry_schedule;
}

abbrev claim : ClaimWebhookRequest
claim = record {
  worker_id = "webhook-worker";
  lease_token = "t1";
  lease_duration = 15000000000;
  max_attempts = 5;
}

abbrev completion : CompleteWebhookAttemptRequest
completion = record {
  attempt_id = "a1";
  http_status = some 500;
  response_summary = none;
  error_code = some "http_error";
  error_detail = none;
  retry_delay = 1000000000;
  max_attempts = 5;
}

abbrev two_claims : List Trace.Operation
two_claims =
    Trace.Operation.claim nobody "a1" claim
    ∷ Trace.Operation.complete "v1" "t1" completion
    ∷ Trace.Operation.elapse 2000000
    ∷ Trace.Operation.claim nobody "a2" claim
    ∷ []

claims-le-five_example : claims "v1" two_claims due_db ≤ 5
claims-le-five_example = claims-le-five "v1" two_claims due_db due_db-MeetsChecks

perform_all-MeetsChecks_example : MeetsChecks (Trace.perform_all two_claims due_db)
perform_all-MeetsChecks_example = perform_all-MeetsChecks two_claims due_db due_db-MeetsChecks

due_row_found : find delivery_id "v1" due_db.deliveries ≡ some due_row
unfolding find
due_row_found = refl

perform_all_refines_example :
    (e : WebhookDelivery) × (find delivery_id "v1" (Trace.perform_all two_claims due_db).deliveries
      ≡ some e)
    × Run (phase_of due_row) (phase_of e)
perform_all_refines_example =
    perform_all_refines two_claims due_db "v1" due_row due_db-MeetsChecks due_row_found

abbrev settings : Config
settings = record {
  has_store = true;
  has_secrets = true;
  has_client = true;
  worker_id = "";
  poll_interval = 0;
  lease_duration = 0;
  max_attempts = 0;
  retry_schedule = none;
}

abbrev held_row : WebhookDelivery
held_row = record due_row {
  status = WebhookDeliveryStatus.sending;
  attempt_count = 1;
  next_attempt_at = none;
  lease_token = some "t1";
  lease_owner = some "webhook-worker";
  lease_expires_at = some 15000005;
  updated_at = 5;
}

abbrev first_try : WebhookDeliveryAttempt
first_try = record {
  id = "a1";
  delivery_id = "v1";
  attempt_no = 1;
  request_timestamp = 0;
  http_status = none;
  response_summary = none;
  error_code = none;
  error_detail = none;
  started_at = 5;
  completed_at = none;
}

abbrev held_db : Db
held_db = record claimed_db {
  now = 5;
  deliveries = held_row ∷ [];
  delivery_attempts = first_try ∷ [];
}

claimed_now : claim_due nobody "a1" claim due_db ≡ ok (some (held_row, first_try)) held_db
unfolding claim_due trim_space first_by_both select affects find modify
claimed_now = refl

claim_due-IsHeld_example : IsHeld held_row first_try "t1" held_db
claim_due-IsHeld_example =
    claim_due-IsHeld nobody "a1" claim due_db held_db held_row first_try claimed_now

abbrev https : UrlLibrary
https = record {
  parse = λ raw. some (record {
    scheme = "https";
    host = "receiver.example";
    hostname = "receiver.example";
    has_user = false;
    fragment = "";
    opaque = "";
  });
  to_lower = λ s. s;
  is_loopback = λ s. false;
}

abbrev answer : ℕ → HttpResponse
answer status = record { status_code = status; content_type = ""; body = []; body_fails = false }

abbrev receiver : ℕ → Outside
receiver status = record {
  urls = https;
  accepts_url = λ s. true;
  resolve_webhook_secret = λ pid version. ResolvedSecret.secret "key";
  send = λ request. some (answer status);
  mac = λ key prefix body. "";
  sha256 = λ body. "";
  media_type = λ s. s;
  marshal = λ summary. "{}";
}

abbrev stamp : AuditStamp
stamp = record { id = "u1"; occurred_at = 6 }

abbrev sent_request : ℕ → HttpRequest
sent_request n = record {
  url = "https://receiver.example/hook";
  body = empty_object;
  content_type = "application/json";
  timestamp = "0";
  signature = "v1=";
  event_id = "e1";
  secret_version = "1";
}

request_built : webhook_request (receiver 999) held_row first_try "key" ≡ some (sent_request 0)
unfolding signature validate_target_url
request_built = refl

odd_status_is_lost_example :
    dispatch_claimed (receiver 999) worker stamp held_row first_try "t1" held_db
    ≡ (failed lease_lost, held_db)
odd_status_is_lost_example =
    odd_status_is_lost (receiver 999) worker stamp held_row first_try "t1" "key" (sent_request 0)
      (answer 999) held_db refl request_built refl refl
