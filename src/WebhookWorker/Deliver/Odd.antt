-- ===== src/WebhookWorker/Deliver/Odd.antt =====
-- dispatchClaimed when the receiver answers with a status outside 100 to 599.
use device_platform.Prelude.{
  ℕ, ◌≡◌, refl, true, false, String, none, some, arith, Option-cases, inl, inr,
}
use device_platform.Prelude.Text.{decimal, ◌<>◌}
use device_platform.Domain.Records.{WebhookDelivery, WebhookDeliveryAttempt}
use device_platform.Store.{Db, failed, ok, pure, transact, lease_lost}
use device_platform.WebhookRepo.Complete.{
  CompleteWebhookAttemptRequest, complete_delivery_attempt, lock_delivery_attempt,
  webhook_completion, is_bad_http,
}
use device_platform.WebhookWorker.Config.{WebhookWorker}
use device_platform.WebhookWorker.Deliver.{
  Outside, AuditStamp, HttpRequest, HttpResponse, ResolvedSecret, webhook_request, complete,
  dispatch_claimed, store_response, is_success, failure_request, summarize_response,
}

module _ (did token : String) (r : CompleteWebhookAttemptRequest) (db : Db)
    (bad : is_bad_http r.http_status ≡ true) where
  completion_is_refused :
      (n max : ℕ)
      → webhook_completion n max r.http_status r.error_code r.error_detail r.retry_delay ≡ none
  unfolding webhook_completion
  completion_is_refused n max = rw (bad, webhook_completion)

  attempt_is_refused : complete_delivery_attempt did token r db ≡ ok false db
  unfolding complete_delivery_attempt
  attempt_is_refused = elim (Option-cases (lock_delivery_attempt did r.attempt_id db)) [
    | inl missing ↦ ground (arith, missing)
    | inr (l, found) ↦ ground (arith, found, completion_is_refused l.attempt_count r.max_attempts)
  ]

  lease_is_lost : transact (complete did token r (pure tt)) db ≡ (failed lease_lost, db)
  unfolding complete transact
  lease_is_lost = rw (attempt_is_refused, complete, transact) refl

odd_is_no_success : (s : ℕ) → is_bad_http (some s) ≡ true → is_success s ≡ false
odd_is_no_success s h = ground arith

-- An answer whose status is below 100 or above 599 is not stored: dispatchClaimed reports a lost lease
-- and leaves the database as it was, so the attempt stays open until its lease expires.
pub odd_status_is_lost :
    (out : Outside) (w : WebhookWorker) (stamp : AuditStamp) (d : WebhookDelivery)
    (a : WebhookDeliveryAttempt) (token key : String) (request : HttpRequest)
    (response : HttpResponse) (db : Db)
    → out.resolve_webhook_secret d.project_id d.webhook_secret_version ≡ ResolvedSecret.secret key
    → webhook_request out d a key ≡ some request
    → out.send request ≡ some response
    → is_bad_http (some response.status_code) ≡ true
    → dispatch_claimed out w stamp d a token db ≡ (failed lease_lost, db)
unfolding dispatch_claimed store_response
odd_status_is_lost out w stamp d a token key request response db found built got odd =
    rw
      (
        found,
        built,
        got,
        dispatch_claimed,
        odd_is_no_success response.status_code odd,
        store_response,
      )
      (lease_is_lost d.id token
        (failure_request w d a (some response.status_code) (some (summarize_response out response))
          "http_error" ("Webhook endpoint returned HTTP " <> decimal response.status_code))
        db odd)
