-- ===== src/WebhookWorker/Deliver/Row.antt =====
-- What a delivery that was sent, or could not be, leaves in its row, written without the update helpers
-- of the repository.
use device_platform.Prelude.{
  ℕ, ◌+◌, ◌-◌, ap, arith, ◌/◌, ◌↔◌, ◌≡◌, refl, Bool, true, false, String, Option, none, some, ltb,
  if◌then◌else◌, string_eq, nat_eq, Bool-cases, inl, inr,
}
use device_platform.Prelude.Table.{find}
use device_platform.Domain.Types.{WebhookDeliveryStatus, webhook_delivery_status_eq}
use device_platform.Domain.Records.{WebhookDelivery}
use device_platform.Store.{Db, Answer, done, delivery_id}
use device_platform.CommandRepo.Dispatch.{microsecond}
use device_platform.WebhookWorker.Config.{WebhookWorker, retry_delay, entry}
use device_platform.WebhookWorker.Deliver.Held.{finished}

unfoldable pub next_status : WebhookWorker → ℕ → Bool → WebhookDeliveryStatus
next_status w n true = WebhookDeliveryStatus.delivered
next_status w n false =
    if ltb n w.max_attempts then WebhookDeliveryStatus.failed else WebhookDeliveryStatus.dead

-- The answer of dispatchClaimed, and the row that finishDelivery makes.
abbrev pub Finishes : WebhookWorker → WebhookDelivery → ℕ → Bool → Answer (Unit {0}) × Db → Type 0
Finishes w d now accepted (answer, db) =
    (code : Option String) × (detail : Option String) × (answer ≡ done tt)
    × ((code ≡ none) ↔ (accepted ≡ true))
    × (find delivery_id d.id db.deliveries
        ≡ some (
            finished (next_status w d.attempt_count accepted) now code detail
              (retry_delay w d.attempt_count) d))

-- What becomes of the row of a delivery: it is given back, with the status and the time of the next
-- attempt that the answer of the receiver and the attempts left call for.
pub record IsAfter (w : WebhookWorker) (d : WebhookDelivery) (now : ℕ) (accepted : Bool)
    (row : WebhookDelivery) : Type 0 where
  pub status : row.status ≡ next_status w d.attempt_count accepted
  pub next_attempt : row.next_attempt_at ≡ (
      if accepted
      then none
      else if ltb d.attempt_count w.max_attempts
      then some (now + entry w.retry_schedule (d.attempt_count - 1) / microsecond)
      else none)
  pub delivered : row.delivered_at ≡ (if accepted then some now else d.delivered_at)
  pub no_token : row.lease_token ≡ none
  pub no_owner : row.lease_owner ≡ none
  pub no_expiry : row.lease_expires_at ≡ none
  pub count_kept : row.attempt_count ≡ d.attempt_count
  pub error_iff : (row.last_error_code ≡ none) ↔ (accepted ≡ true)

abbrev pub Stores : WebhookWorker → WebhookDelivery → ℕ → Bool → Answer (Unit {0}) × Db → Type 0
Stores w d now accepted (answer, db) =
    (row : WebhookDelivery) × (answer ≡ done tt)
    × (find delivery_id d.id db.deliveries ≡ some row)
    × IsAfter w d now accepted row

-- While attempts are left the delay is the entry of the schedule.
delay_while_left :
    (w : WebhookWorker) (n : ℕ)
    → ltb n w.max_attempts ≡ true
    → retry_delay w n ≡ entry w.retry_schedule (n - 1)
unfolding retry_delay
delay_while_left w n more = ground arith

finished-IsAfter :
    (w : WebhookWorker) (d : WebhookDelivery) (now : ℕ) (accepted : Bool)
    (code detail : Option String)
    → ((code ≡ none) ↔ (accepted ≡ true))
    → IsAfter w d now accepted (
        finished
          (next_status w d.attempt_count accepted)
          now
          code
          detail
          (retry_delay w d.attempt_count)
          d)
unfolding next_status
finished-IsAfter w d now true code detail e = record {
  status = refl;
  next_attempt = refl;
  delivered = refl;
  no_token = refl;
  no_owner = refl;
  no_expiry = refl;
  count_kept = refl;
  error_iff = (λ h. refl, λ h. refl);
}
finished-IsAfter w d now false code detail e =
    elim (Bool-cases (ltb d.attempt_count w.max_attempts)) [
      | inl more ↦
          rw (more, next_status)
            (record {
              status = rw (more, next_status) refl;
              next_attempt = rw more (
                  ap (λ t. some (now + t / microsecond)) (delay_while_left w d.attempt_count more));
              delivered = refl;
              no_token = refl;
              no_owner = refl;
              no_expiry = refl;
              count_kept = refl;
              error_iff = e;
            })
      | inr last ↦
          rw (last, next_status)
            (record {
              status = rw (last, next_status) refl;
              next_attempt = rw last refl;
              delivered = refl;
              no_token = refl;
              no_owner = refl;
              no_expiry = refl;
              count_kept = refl;
              error_iff = e;
            })
    ]

pub Finishes-Stores :
    (w : WebhookWorker) (d : WebhookDelivery) (now : ℕ) (accepted : Bool)
    (end : Answer (Unit {0}) × Db)
    → Finishes w d now accepted end
    → Stores w d now accepted end
Finishes-Stores w d now accepted (answer, db) (code, detail, answered, named, stored) = (
  finished (next_status w d.attempt_count accepted) now code detail (retry_delay w d.attempt_count)
      d,
  answered,
  stored,
  finished-IsAfter w d now accepted code detail named,
)
