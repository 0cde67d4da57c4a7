-- ===== src/WebhookRepo/Complete.antt =====
-- postgres_webhook_simulator.go: CompleteAttempt, lockDeliveryAttempt, webhookCompletion and
-- finishDelivery.
use device_platform.Prelude.{
  ℕ, ◌+◌, ◌/◌, Bool, true, false, ◌&&◌, ◌||◌, not, String, Option, none, some, leb, ltb,
  if◌then◌else◌, ◌==◌, ◌!=◌, string_eq, nat_eq,
}
use device_platform.Prelude.Text.{trim_space}
use device_platform.Prelude.Table.{find, modify, affects}
use device_platform.Domain.Types.{WebhookDeliveryStatus, webhook_delivery_status_eq}
use device_platform.Domain.Records.{WebhookDelivery, WebhookDeliveryAttempt}
use device_platform.Store.{Db, Tx, ok, delivery_id, delivery_attempt_id}
use device_platform.CommandRepo.Dispatch.{microsecond}
use device_platform.WebhookRepo.Claim.{valid_webhook_max_attempts}

pub record CompleteWebhookAttemptRequest : Type 0 where
  pub attempt_id : String
  pub http_status : Option ℕ
  pub response_summary : Option String
  pub error_code : Option String
  pub error_detail : Option String
  pub retry_delay : ℕ
  pub max_attempts : ℕ

-- lockedWebhookDeliveryAttempt
pub record LockedDelivery : Type 0 where
  pub status : WebhookDeliveryStatus
  pub attempt_count : ℕ
  pub lease_token : String
  pub lease_valid : Bool
  pub attempt_no : ℕ
  pub attempt_completed : Bool

abbrev text_or_empty : Option String → String
text_or_empty none = ""
text_or_empty (some s) = s

-- `t > now()`, where NULL is not.
abbrev is_future : ℕ → Option ℕ → Bool
is_future now none = false
is_future now (some t) = ltb now t

abbrev is_some {ℓ} : {A : Type ℓ} → Option A → Bool
is_some none = false
is_some (some a) = true

abbrev pub scan_delivery : ℕ → WebhookDelivery → WebhookDeliveryAttempt → LockedDelivery
scan_delivery now d a = record {
  status = d.status;
  attempt_count = d.attempt_count;
  lease_token = text_or_empty d.lease_token;
  lease_valid = is_future now d.lease_expires_at;
  attempt_no = a.attempt_no;
  attempt_completed = is_some a.completed_at;
}

-- `none` is sql.ErrNoRows.
unfoldable pub lock_delivery_attempt : String → String → Db → Option LockedDelivery
lock_delivery_attempt did aid db = elim (find delivery_id did db.deliveries) [
  | none ↦ none
  | some d ↦ elim (find delivery_attempt_id aid db.delivery_attempts) [
    | none ↦ none
    | some a ↦ if a.delivery_id == did then some (scan_delivery db.now d a) else none
  ]
]

abbrev pub is_bad_http : Option ℕ → Bool
is_bad_http none = false
is_bad_http (some s) = ltb s 100 || ltb 599 s

abbrev pub is_good_http : Option ℕ → Bool
is_good_http none = false
is_good_http (some s) = leb 200 s && leb s 299

-- The next status and the delay before the next attempt; `none` is not valid.
unfoldable pub webhook_completion :
    ℕ → ℕ → Option ℕ → Option String → Option String → ℕ → Option (WebhookDeliveryStatus × ℕ)
unfolding trim_space
webhook_completion attempt_count max_attempts http_status error_code error_detail retry_delay =
    if is_bad_http http_status
    then none
    else if is_good_http http_status
    then if is_some error_code || is_some error_detail || retry_delay != 0
      then none
      else some (WebhookDeliveryStatus.delivered, 0)
    else if trim_space (text_or_empty error_code) == ""
    then none
    else if leb max_attempts attempt_count
    then if retry_delay != 0 then none else some (WebhookDeliveryStatus.dead, 0)
    else if ltb retry_delay microsecond
    then none
    else some (WebhookDeliveryStatus.failed, retry_delay)

abbrev pub is_sending : WebhookDelivery → Bool
is_sending d = d.status == WebhookDeliveryStatus.sending

abbrev without_lease : ℕ → WebhookDelivery → WebhookDelivery
without_lease now d = record d {
  lease_token = none;
  lease_owner = none;
  lease_expires_at = none;
  updated_at = now;
}

-- The SET clause of each status that finishDelivery knows.
abbrev pub set_delivered : ℕ → WebhookDelivery → WebhookDelivery
set_delivered now d = record (without_lease now d) {
  status = WebhookDeliveryStatus.delivered;
  last_error_code = none;
  last_error_detail = none;
  next_attempt_at = none;
  delivered_at = some now;
}

abbrev pub set_failed : ℕ → Option String → Option String → ℕ → WebhookDelivery → WebhookDelivery
set_failed now code detail delay d = record (without_lease now d) {
  status = WebhookDeliveryStatus.failed;
  last_error_code = code;
  last_error_detail = detail;
  next_attempt_at = some (now + delay / microsecond);
}

abbrev pub set_dead : ℕ → Option String → Option String → WebhookDelivery → WebhookDelivery
set_dead now code detail d = record (without_lease now d) {
  status = WebhookDeliveryStatus.dead;
  last_error_code = code;
  last_error_detail = detail;
  next_attempt_at = none;
}

abbrev update_delivery : String → (WebhookDelivery → WebhookDelivery) → Tx Bool
update_delivery did f db =
    ok (affects delivery_id did is_sending db.deliveries)
      (record db { deliveries = modify delivery_id did is_sending f db.deliveries })

unfoldable pub finish_delivery :
    String → WebhookDeliveryStatus → Option String → Option String → ℕ → Tx Bool
finish_delivery did status code detail delay db = elim status [
  | WebhookDeliveryStatus.delivered ↦ update_delivery did (set_delivered db.now) db
  | WebhookDeliveryStatus.failed ↦ update_delivery did (set_failed db.now code detail delay) db
  | WebhookDeliveryStatus.dead ↦ update_delivery did (set_dead db.now code detail) db
  | _ ↦ ok false db
]

abbrev pub is_incomplete_of : String → WebhookDeliveryAttempt → Bool
is_incomplete_of did a = a.delivery_id == did && not (is_some a.completed_at)

abbrev set_attempt_result :
    ℕ → CompleteWebhookAttemptRequest → WebhookDeliveryAttempt → WebhookDeliveryAttempt
set_attempt_result now r a = record a {
  http_status = r.http_status;
  response_summary = r.response_summary;
  error_code = r.error_code;
  error_detail = r.error_detail;
  completed_at = some now;
}

abbrev pub may_complete_delivery : LockedDelivery → String → CompleteWebhookAttemptRequest → Bool
may_complete_delivery locked token r = not (
    locked.status != WebhookDeliveryStatus.sending
    || locked.lease_token != token
    || not locked.lease_valid
    || locked.attempt_completed
    || locked.attempt_no != locked.attempt_count
    || not (valid_webhook_max_attempts r.max_attempts))

-- The UPDATE of the attempt.
abbrev pub with_result : Db → String → CompleteWebhookAttemptRequest → Db
with_result db did r = record db {
  delivery_attempts =
      modify delivery_attempt_id r.attempt_id (is_incomplete_of did) (set_attempt_result db.now r)
        db.delivery_attempts;
}

-- CompleteAttempt of the webhook repository.
unfoldable pub complete_delivery_attempt : String → String → CompleteWebhookAttemptRequest → Tx Bool
unfolding lock_delivery_attempt webhook_completion finish_delivery
complete_delivery_attempt did token r db = elim (lock_delivery_attempt did r.attempt_id db) [
  | none ↦ ok false db
  | some locked ↦
      if may_complete_delivery locked token r
      then elim (webhook_completion locked.attempt_count r.max_attempts r.http_status r.error_code
          r.error_detail r.retry_delay) [
            | none ↦ ok false db
            | some (status, delay) ↦
                finish_delivery did status r.error_code r.error_detail delay (with_result db did r)
          ]
      else ok false db
]
