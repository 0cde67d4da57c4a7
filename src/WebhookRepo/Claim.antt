-- ===== src/WebhookRepo/Claim.antt =====
-- postgres_webhook_simulator.go: GetDelivery, getAttempt, ClaimDue and ExhaustRetryBudget. The id of a
-- new attempt is random in the source and an argument here; `busy` are the rows that SKIP LOCKED passes
-- over.
use device_platform.Prelude.{
  ℕ, ◌+◌, ◌/◌, Bool, true, false, ◌&&◌, ◌||◌, not, String, [], ◌∷◌, ◌++◌, Option, none, some, leb,
  ltb, if◌then◌else◌, ◌==◌, string_eq, nat_eq, is_empty,
}
use device_platform.Prelude.Text.{trim_space}
use device_platform.Prelude.Table.{find, modify, affects, select, first_by, first_by_both}
use device_platform.Domain.Types.{WebhookDeliveryStatus, webhook_delivery_status_eq}
use device_platform.Domain.Records.{WebhookDelivery, WebhookDeliveryAttempt}
use device_platform.Store.{
  Db, Tx, ok, err, ◌>>=◌, ◌>>◌, pure, delivery_id, delivery_attempt_id, no_rows, unique_violation,
}
use device_platform.CommandRepo.Dispatch.{microsecond}
use device_platform.CommandRepo.Expire.{is_past}

unfoldable pub get_delivery : String → Tx WebhookDelivery
get_delivery id db = elim (find delivery_id id db.deliveries) [
  | none ↦ err no_rows
  | some d ↦ ok d db
]

unfoldable pub get_delivery_attempt : String → Tx WebhookDeliveryAttempt
get_delivery_attempt id db = elim (find delivery_attempt_id id db.delivery_attempts) [
  | none ↦ err no_rows
  | some a ↦ ok a db
]

-- webhookAttemptLimit
abbrev webhook_attempt_limit : ℕ
webhook_attempt_limit = 5

abbrev pub valid_webhook_max_attempts : ℕ → Bool
valid_webhook_max_attempts value = leb 1 value && leb value webhook_attempt_limit

pub record ClaimWebhookRequest : Type 0 where
  pub worker_id : String
  pub lease_token : String
  pub lease_duration : ℕ
  pub max_attempts : ℕ

abbrev is_free : WebhookDelivery → Bool
is_free d = elim d.lease_token [ none ↦ true | some token ↦ false ]

-- The WHERE clause of the search and of the UPDATE.
abbrev pub is_due : ℕ → ℕ → WebhookDelivery → Bool
is_due now max_attempts d =
    (d.status == WebhookDeliveryStatus.pending || d.status == WebhookDeliveryStatus.failed)
    && is_past now d.next_attempt_at
    && ltb d.attempt_count max_attempts
    && is_free d

abbrev due_rank : WebhookDelivery → ℕ
due_rank d = elim d.next_attempt_at [ none ↦ 0 | some t ↦ t ]

abbrev created_rank : WebhookDelivery → ℕ
created_rank d = d.created_at

abbrev pub set_sending : ℕ → ClaimWebhookRequest → WebhookDelivery → WebhookDelivery
set_sending now r d = record d {
  status = WebhookDeliveryStatus.sending;
  attempt_count = d.attempt_count + 1;
  next_attempt_at = none;
  lease_token = some r.lease_token;
  lease_owner = some r.worker_id;
  lease_expires_at = some (now + r.lease_duration / microsecond);
  updated_at = now;
}

-- floor(extract(epoch FROM now()))
abbrev epoch_seconds : ℕ → ℕ
epoch_seconds now = now / 1000000

unfoldable pub new_delivery_attempt : String → WebhookDelivery → ℕ → WebhookDeliveryAttempt
new_delivery_attempt aid d now = record {
  id = aid;
  delivery_id = d.id;
  attempt_no = d.attempt_count;
  request_timestamp = epoch_seconds now;
  http_status = none;
  response_summary = none;
  error_code = none;
  error_detail = none;
  started_at = now;
  completed_at = none;
}

abbrev is_none {ℓ} : {A : Type ℓ} → Option A → Bool
is_none none = true
is_none (some a) = false

-- UNIQUE (delivery_id, attempt_no), and uq_webhook_delivery_attempts_one_incomplete.
abbrev collides : WebhookDeliveryAttempt → WebhookDeliveryAttempt → Bool
collides a old =
    old.delivery_id == a.delivery_id && (old.attempt_no == a.attempt_no || is_none old.completed_at)

-- The INSERT … SELECT, which adds no row where the delivery is missing.
unfoldable pub insert_delivery_attempt : String → String → Tx (Unit {0})
unfolding new_delivery_attempt
insert_delivery_attempt aid did db = elim (find delivery_id did db.deliveries) [
  | none ↦ ok tt db
  | some d ↦
      let a = new_delivery_attempt aid d db.now in
      if is_empty (select delivery_attempt_id (collides a) db.delivery_attempts)
      then elim (find delivery_attempt_id aid db.delivery_attempts) [
        | some old ↦ err unique_violation
        | none ↦ ok tt (record db { delivery_attempts = db.delivery_attempts ++ a ∷ [] })
      ]
      else err unique_violation
]

abbrev pub Claimed : Type 0
Claimed = Option (WebhookDelivery × WebhookDeliveryAttempt)

-- The UPDATE of the row that the search found, the attempt, and both rows read back.
unfoldable pub claim_delivery : String → ClaimWebhookRequest → String → Tx Claimed
unfolding insert_delivery_attempt get_delivery get_delivery_attempt
claim_delivery aid r did db =
    if affects delivery_id did (is_due db.now r.max_attempts) db.deliveries
    then (do
      insert_delivery_attempt aid did
      d ← get_delivery did
      a ← get_delivery_attempt aid
      pure (some (d, a)))
        (record db {
          deliveries =
              modify delivery_id did (is_due db.now r.max_attempts) (set_sending db.now r)
                db.deliveries;
        })
    else ok none db

abbrev pub claim_refused : ClaimWebhookRequest → Bool
claim_refused r =
    trim_space r.worker_id == ""
    || trim_space r.lease_token == ""
    || ltb r.lease_duration microsecond
    || not (valid_webhook_max_attempts r.max_attempts)

abbrev pub due_delivery : (String → Bool) → ClaimWebhookRequest → Db → Option WebhookDelivery
due_delivery busy r db =
    first_by_both delivery_id due_rank created_rank
      (select delivery_id (λ d. is_due db.now r.max_attempts d && not (busy d.id)) db.deliveries)

unfoldable pub claim_due : (String → Bool) → String → ClaimWebhookRequest → Tx Claimed
unfolding claim_delivery
claim_due busy aid r db =
    if claim_refused r
    then ok none db
    else elim (due_delivery busy r db) [ none ↦ ok none db | some d ↦ claim_delivery aid r d.id db ]

-- A failed delivery that has no attempts left.
abbrev pub is_exhausted : ℕ → WebhookDelivery → Bool
is_exhausted max_attempts d =
    d.status == WebhookDeliveryStatus.failed && leb max_attempts d.attempt_count && is_free d

abbrev pub set_exhausted : ℕ → WebhookDelivery → WebhookDelivery
set_exhausted now d = record d {
  status = WebhookDeliveryStatus.dead;
  next_attempt_at = none;
  updated_at = now;
}

abbrev updated_rank : WebhookDelivery → ℕ
updated_rank d = d.updated_at

abbrev pub exhausted_delivery : (String → Bool) → ℕ → Db → Option WebhookDelivery
exhausted_delivery busy max_attempts db =
    first_by delivery_id updated_rank
      (select delivery_id (λ d. is_exhausted max_attempts d && not (busy d.id)) db.deliveries)

unfoldable pub exhaust_retry_budget : (String → Bool) → ℕ → Tx (Option WebhookDelivery)
unfolding get_delivery
exhaust_retry_budget busy max_attempts db =
    if not (valid_webhook_max_attempts max_attempts)
    then ok none db
    else elim (exhausted_delivery busy max_attempts db) [
      | none ↦ ok none db
      | some d ↦
          if affects delivery_id d.id (is_exhausted max_attempts) db.deliveries
          then (get_delivery d.id >>= (λ e. pure (some e))) (record db {
            deliveries =
                modify delivery_id d.id (is_exhausted max_attempts) (set_exhausted db.now)
                  db.deliveries;
          })
          else ok none db
    ]
