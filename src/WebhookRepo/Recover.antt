-- ===== src/WebhookRepo/Recover.antt =====
-- postgres_webhook_simulator.go: RecoverNextExpiredSending.
use device_platform.Prelude.{
  ℕ, zero, suc, ◌-◌, Bool, true, false, ◌&&◌, ◌||◌, not, String, List, [], ◌∷◌, Option, none, some,
  leb, ltb, if◌then◌else◌, ◌==◌, string_eq, nat_eq, is_empty, length,
}
use device_platform.Prelude.Text.{trim_space}
use device_platform.Prelude.Table.{find, modify, select, first_by}
use device_platform.Prelude.Bytes.{all}
use device_platform.Domain.Types.{WebhookDeliveryStatus, webhook_delivery_status_eq}
use device_platform.Domain.Records.{WebhookDelivery, WebhookDeliveryAttempt}
use device_platform.Store.{Db, Tx, ok, ◌>>=◌, pure, delivery_id, delivery_attempt_id}
use device_platform.CommandRepo.Dispatch.{microsecond}
use device_platform.CommandRepo.Expire.{first_row, is_past}
use device_platform.WebhookRepo.Claim.{get_delivery, valid_webhook_max_attempts}
use device_platform.WebhookRepo.Complete.{finish_delivery, is_incomplete_of}

pub record RecoverExpiredWebhookRequest : Type 0 where
  pub error_code : String
  pub error_detail : String
  pub retry_schedule : List ℕ
  pub max_attempts : ℕ

unfoldable pub valid_webhook_retry_schedule : ℕ → List ℕ → Bool
unfolding all
valid_webhook_retry_schedule max_attempts schedule =
    valid_webhook_max_attempts max_attempts
    && length schedule == max_attempts - 1
    && all (λ delay. leb microsecond delay) schedule

-- The open attempt of a delivery with this number.
abbrev is_open_attempt : String → ℕ → WebhookDeliveryAttempt → Bool
is_open_attempt did n a =
    a.delivery_id == did
    && a.attempt_no == n
    && elim a.completed_at [ none ↦ true | some t ↦ false ]

abbrev pub open_attempts : Db → WebhookDelivery → List WebhookDeliveryAttempt
open_attempts db d =
    select delivery_attempt_id (is_open_attempt d.id d.attempt_count) db.delivery_attempts

abbrev is_abandoned : (String → Bool) → Db → WebhookDelivery → Bool
is_abandoned busy db d =
    d.status == WebhookDeliveryStatus.sending
    && is_past db.now d.lease_expires_at
    && not (is_empty (open_attempts db d))
    && not (busy d.id)

abbrev abandoned_rank : WebhookDelivery → ℕ
abandoned_rank d = elim d.lease_expires_at [ none ↦ 0 | some t ↦ t ]

abbrev set_abandoned :
    ℕ → RecoverExpiredWebhookRequest → WebhookDeliveryAttempt → WebhookDeliveryAttempt
set_abandoned now r a = record a {
  error_code = some r.error_code;
  error_detail = some r.error_detail;
  completed_at = some now;
}

-- schedule[n]; the index is in range by validWebhookRetrySchedule.
abbrev delay_at : List ℕ → ℕ → ℕ
delay_at [] n = 0
delay_at (d ∷ ds) zero = d
delay_at (d ∷ ds) (suc n) = delay_at ds n

abbrev pub next_of : RecoverExpiredWebhookRequest → ℕ → WebhookDeliveryStatus × ℕ
next_of r attempt_count =
    if ltb attempt_count r.max_attempts
    then (WebhookDeliveryStatus.failed, delay_at r.retry_schedule (attempt_count - 1))
    else (WebhookDeliveryStatus.dead, 0)

abbrev reread_delivery : String → Bool → Tx (Option WebhookDelivery)
reread_delivery did updated =
    if updated then get_delivery did >>= (λ d. pure (some d)) else pure none

-- The UPDATE of the open attempt.
abbrev pub with_abandoned :
    Db → RecoverExpiredWebhookRequest → WebhookDelivery → WebhookDeliveryAttempt → Db
with_abandoned db r d a = record db {
  delivery_attempts =
      modify delivery_attempt_id a.id (is_incomplete_of d.id) (set_abandoned db.now r)
        db.delivery_attempts;
}

unfoldable pub recover_sending :
    RecoverExpiredWebhookRequest
    → WebhookDelivery
    → WebhookDeliveryAttempt
    → Tx (Option WebhookDelivery)
unfolding finish_delivery get_delivery
recover_sending r d a db =
    (finish_delivery d.id (next_of r d.attempt_count).0 (some r.error_code) (some r.error_detail)
          (next_of r d.attempt_count).1
        >>= reread_delivery d.id)
      (with_abandoned db r d a)

abbrev pub recover_refused : RecoverExpiredWebhookRequest → Bool
recover_refused r =
    trim_space r.error_code == ""
    || not (valid_webhook_retry_schedule r.max_attempts r.retry_schedule)

abbrev pub abandoned_key : (String → Bool) → Db → Option WebhookDelivery
abandoned_key busy db =
    first_by delivery_id abandoned_rank (select delivery_id (is_abandoned busy db) db.deliveries)

-- The search: the key by the ORDER BY, then the row that FOR UPDATE locks under that key.
abbrev pub abandoned_delivery : (String → Bool) → Db → Option WebhookDelivery
abandoned_delivery busy db = elim (abandoned_key busy db) [
  | none ↦ none
  | some d ↦ find delivery_id d.id db.deliveries
]

unfoldable pub recover_next_expired_sending :
    (String → Bool) → RecoverExpiredWebhookRequest → Tx (Option WebhookDelivery)
unfolding recover_sending valid_webhook_retry_schedule trim_space
recover_next_expired_sending busy r db =
    if recover_refused r then ok none db else elim (abandoned_delivery busy db) [
      | none ↦ ok none db
      | some d ↦ elim (first_row (open_attempts db d)) [
        | none ↦ ok none db
        | some a ↦ recover_sending r d a db
      ]
    ]
