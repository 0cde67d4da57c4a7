-- ===== src/WebhookWorker/Loop.antt =====
-- webhookworker/worker.go: DispatchNext, RecoverNext, ExhaustNext and runNext. The random ids, the
-- rows that SKIP LOCKED passes over, and what others do to the database while a request is under way
-- are arguments.
pub mod Claimed
use device_platform.Prelude.{ℕ, Bool, true, false, String, Option, none, some, if◌then◌else◌}
use device_platform.Domain.Records.{WebhookDelivery, WebhookDeliveryAttempt}
use device_platform.Store.{Db, Answer, Error, done, failed, transact}
use device_platform.WebhookRepo.Claim.{ClaimWebhookRequest, claim_due, exhaust_retry_budget}
use device_platform.WebhookRepo.Recover.{RecoverExpiredWebhookRequest, recover_next_expired_sending}
use device_platform.WebhookWorker.Config.{WebhookWorker}
use device_platform.WebhookWorker.Deliver.{Outside, AuditStamp, dispatch_claimed}

-- What a round takes from outside.
pub record Round : Type 0 where
  pub busy : String → Bool
  pub lease_token : String
  pub attempt_id : String
  pub stamp : AuditStamp
  pub meanwhile : Db → Db

abbrev claim_request : WebhookWorker → String → ClaimWebhookRequest
claim_request w token = record {
  worker_id = w.worker_id;
  lease_token = token;
  lease_duration = w.lease_duration;
  max_attempts = w.max_attempts;
}

abbrev recover_request : WebhookWorker → RecoverExpiredWebhookRequest
recover_request w = record {
  error_code = "worker_lease_expired";
  error_detail = "Webhook worker did not persist a result";
  retry_schedule = w.retry_schedule;
  max_attempts = w.max_attempts;
}

-- What a round of the worker answers: whether it did something, and the error that it ended with.
pub record Worked : Type 0 where
  pub worked : Bool
  pub failure : Option Error

abbrev worked_of : Answer (Unit {0}) × Db → Worked × Db
worked_of (done u, db) = (record { worked = true; failure = none }, db)
worked_of (failed e, db) = (record { worked = true; failure = some e }, db)

abbrev idle : Option Error → Worked
idle e = record { worked = false; failure = e }

unfoldable dispatch_next : Outside → WebhookWorker → Round → Db → Worked × Db
unfolding dispatch_claimed claim_due transact
dispatch_next out w round db =
    let (answer, db') =
      transact (claim_due round.busy round.attempt_id (claim_request w round.lease_token)) db in
    elim answer [
      | failed e ↦ (idle (some e), db')
      | done none ↦ (idle none, db')
      | done (some (d, a)) ↦
          worked_of (dispatch_claimed out w round.stamp d a round.lease_token (round.meanwhile db'))
    ]

-- `updated` of a search: whether it found a delivery.
abbrev found_one : Answer (Option WebhookDelivery) × Db → Worked × Db
found_one (done none, db) = (idle none, db)
found_one (done (some d), db) = (record { worked = true; failure = none }, db)
found_one (failed e, db) = (idle (some e), db)

unfoldable pub recover_next : WebhookWorker → Round → Db → Worked × Db
unfolding recover_next_expired_sending transact
recover_next w round db =
    found_one (transact (recover_next_expired_sending round.busy (recover_request w)) db)

unfoldable exhaust_next : WebhookWorker → Round → Db → Worked × Db
unfolding exhaust_retry_budget transact
exhaust_next w round db = found_one (transact (exhaust_retry_budget round.busy w.max_attempts) db)

-- `if worked, err := …; err != nil || worked { return worked, err }`
abbrev or_else : Worked × Db → (Db → Worked × Db) → Worked × Db
or_else (r, db) next =
    if r.worked then (r, db) else elim r.failure [ some e ↦ (r, db) | none ↦ next db ]

unfoldable run_next : Outside → WebhookWorker → Round → Db → Worked × Db
unfolding recover_next exhaust_next dispatch_next
run_next out w round db =
    or_else (recover_next w round db)
      (λ db'. or_else (exhaust_next w round db') (dispatch_next out w round))
