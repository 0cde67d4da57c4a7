-- ===== src/WebhookWorker/Deliver/Held.antt =====
-- A delivery that is still held under the lease of its claim, and what complete stores for it.
use device_platform.Prelude.{
  ℕ, ◌≡◌, ◌≤◌, ◌<◌, refl, Bool, true, false, String, Option, none, some, arith, string_eq, nat_eq,
  ==_refl, ==_iff,
}
use device_platform.Prelude.Table.{find, modify, affects, find-modify}
use device_platform.Domain.Types.{WebhookDeliveryStatus, webhook_delivery_status_eq}
use device_platform.Domain.Records.{WebhookDelivery, WebhookDeliveryAttempt}
use device_platform.Store.{Db, done, ok, pure, transact, delivery_id, delivery_attempt_id}
use device_platform.WebhookRepo.Claim.{valid_webhook_max_attempts}
use device_platform.WebhookRepo.Complete.{
  CompleteWebhookAttemptRequest, complete_delivery_attempt, lock_delivery_attempt, scan_delivery,
  webhook_completion, finish_delivery, with_result, may_complete_delivery, set_delivered,
  set_failed, set_dead, is_sending,
}
use device_platform.WebhookWorker.Deliver.{complete}

-- The claim still stands: the row and its attempt are as ClaimDue returned them, the lease has not
-- expired, and nobody has completed the attempt.
pub record IsHeld (d : WebhookDelivery) (a : WebhookDeliveryAttempt) (token : String) (db : Db)
    : Type 0 where
  pub row : find delivery_id d.id db.deliveries ≡ some d
  pub attempt : find delivery_attempt_id a.id db.delivery_attempts ≡ some a
  pub of_delivery : a.delivery_id ≡ d.id
  pub sending : d.status ≡ WebhookDeliveryStatus.sending
  pub leased : d.lease_token ≡ some token
  pub expiry : (t : ℕ) × (d.lease_expires_at ≡ some t) × (db.now < t)
  pub open_attempt : a.completed_at ≡ none
  pub numbered : a.attempt_no ≡ d.attempt_count
  pub counted : 1 ≤ d.attempt_count

-- The row that a completion leaves.
abbrev pub finished :
    WebhookDeliveryStatus
    → ℕ
    → Option String
    → Option String
    → ℕ
    → WebhookDelivery
    → WebhookDelivery
finished WebhookDeliveryStatus.delivered now code detail delay d = set_delivered now d
finished WebhookDeliveryStatus.failed now code detail delay d = set_failed now code detail delay d
finished WebhookDeliveryStatus.dead now code detail delay d = set_dead now code detail d
finished other now code detail delay d = d

abbrev ends : WebhookDeliveryStatus → Bool
ends WebhookDeliveryStatus.delivered = true
ends WebhookDeliveryStatus.failed = true
ends WebhookDeliveryStatus.dead = true
ends other = false

module _ (d : WebhookDelivery) (a : WebhookDeliveryAttempt) (token : String) (db : Db)
    (held : IsHeld d a token db) where
  open held use {row, attempt, of_delivery, sending, leased, expiry, open_attempt, numbered}

  locked_row : lock_delivery_attempt d.id a.id db ≡ some (scan_delivery db.now d a)
  unfolding lock_delivery_attempt
  locked_row = ground (arith, ==_iff a.delivery_id d.id)

  may_complete :
      (r : CompleteWebhookAttemptRequest)
      → valid_webhook_max_attempts r.max_attempts ≡ true
      → may_complete_delivery (scan_delivery db.now d a) token r ≡ true
  may_complete r v =
      let (t, at, later) = expiry in
      ground (arith, ==_refl token, at, later, ==_iff a.attempt_no d.attempt_count)

  row_affected : affects delivery_id d.id is_sending db.deliveries ≡ true
  unfolding affects
  row_affected = ground arith

  module _ (f : WebhookDelivery → WebhookDelivery)
      (keep : (x : WebhookDelivery) → (f x).id ≡ x.id) where
    row_updated :
        find delivery_id d.id (modify delivery_id d.id is_sending f db.deliveries) ≡ some (f d)
    row_updated =
        ground
          (arith, find-modify delivery_id is_sending f keep d.id d.id db.deliveries, ==_refl d.id)

  module _ (r : CompleteWebhookAttemptRequest) where
    abbrev after_update : (WebhookDelivery → WebhookDelivery) → Db
    after_update f = record (with_result db d.id r) {
      deliveries = modify delivery_id d.id is_sending f db.deliveries;
    }

    finish_ends :
        (status : WebhookDeliveryStatus) (delay : ℕ)
        → ends status ≡ true
        → (x : Db) × (finish_delivery d.id status r.error_code r.error_detail delay
              (with_result db d.id r)
            ≡ ok true x)
          × (find delivery_id d.id x.deliveries
              ≡ some (finished status db.now r.error_code r.error_detail delay d))
    unfolding finish_delivery
    finish_ends WebhookDeliveryStatus.delivered delay e =
        let f : WebhookDelivery → WebhookDelivery = set_delivered db.now in
        (after_update f, rw row_affected refl, row_updated f (λ x. refl))
    finish_ends WebhookDeliveryStatus.failed delay e =
        let f : WebhookDelivery → WebhookDelivery =
          set_failed db.now r.error_code r.error_detail delay in
        (after_update f, rw row_affected refl, row_updated f (λ x. refl))
    finish_ends WebhookDeliveryStatus.dead delay e =
        let f : WebhookDelivery → WebhookDelivery = set_dead db.now r.error_code r.error_detail in
        (after_update f, rw row_affected refl, row_updated f (λ x. refl))
    finish_ends WebhookDeliveryStatus.pending delay e = cc
    finish_ends WebhookDeliveryStatus.sending delay e = cc

    -- A completion that webhookCompletion accepts is stored.
    pub complete_stores :
        (status : WebhookDeliveryStatus) (delay : ℕ)
        → r.attempt_id ≡ a.id
        → valid_webhook_max_attempts r.max_attempts ≡ true
        → ends status ≡ true
        → webhook_completion d.attempt_count r.max_attempts r.http_status r.error_code
            r.error_detail r.retry_delay
          ≡ some (status, delay)
        → ((transact (complete d.id token r (pure tt)) db).0 ≡ done tt)
          × (find delivery_id d.id (transact (complete d.id token r (pure tt)) db).1.deliveries
              ≡ some (finished status db.now r.error_code r.error_detail delay d))
    unfolding complete complete_delivery_attempt transact find
    complete_stores status delay same v e c =
        let (x, wrote, found) = finish_ends status delay e in
        let stored : complete_delivery_attempt d.id token r db ≡ ok true x =
          ground (arith, locked_row, may_complete r v, c, wrote) in
        rw (stored, complete, transact) (refl, found)
