-- ===== src/WebhookRepo/State/Outcomes.antt =====
-- Lemmas on the delivery machine for CompleteAttempt, RecoverNextExpiredSending and CreateReplay.
use device_platform.Prelude.{
  ℕ, ◌≡◌, Bool, true, false, String, Option, none, some, arith, ==_iff, string_eq, nat_eq, ◌==◌,
  Option-cases, inl, inr, Bool-cases,
}
use device_platform.Prelude.Table.{find, find_key}
use device_platform.Domain.Types.{WebhookDeliveryStatus, webhook_delivery_status_eq}
use device_platform.Domain.Records.{WebhookDelivery, WebhookDeliveryAttempt}
use device_platform.Store.{Db, Tx, ok, delivery_id, Result-cases}
use device_platform.CommandRepo.Journal.{lock_current_webhook_config, insert_delivery}
use device_platform.CommandRepo.Expire.{first_row}
use device_platform.WebhookRepo.Claim.{valid_webhook_max_attempts, get_delivery}
use device_platform.WebhookRepo.Complete.{
  finish_delivery, CompleteWebhookAttemptRequest, complete_delivery_attempt, LockedDelivery,
  lock_delivery_attempt, webhook_completion, may_complete_delivery, with_result,
}
use device_platform.WebhookRepo.Recover.{
  RecoverExpiredWebhookRequest, recover_sending, recover_refused, abandoned_key, abandoned_delivery,
  with_abandoned, open_attempts, recover_next_expired_sending, next_of,
  valid_webhook_retry_schedule,
}
use device_platform.WebhookRepo.Replay.{create_replay}
use device_platform.WebhookRepo.State.{moves, is_text}
use device_platform.WebhookRepo.State.Statements.{
  Moves, may_finish, finish_delivery-moves, insert_delivery-Moves, moves_same, config_has_version,
}
use device_platform.WebhookRepo.State.Searches.{Moves-of_ok, moves_after}

-- A completion fails only below the limit.
completion_may_finish :
    (n max : ℕ) (http : Option ℕ) (code detail : Option String) (delay wait : ℕ)
    (status : WebhookDeliveryStatus)
    → valid_webhook_max_attempts max ≡ true
    → webhook_completion n max http code detail delay ≡ some (status, wait)
    → may_finish status n ≡ true
unfolding webhook_completion
completion_may_finish n max http code detail delay wait status v h = ground arith

locked_count :
    (did aid : String) (db : Db) (l : LockedDelivery) (d : WebhookDelivery)
    → lock_delivery_attempt did aid db ≡ some l
    → find delivery_id did db.deliveries ≡ some d
    → l.attempt_count ≡ d.attempt_count
unfolding lock_delivery_attempt
locked_count did aid db l d h e = ground arith

complete-keeps :
    (did token : String) (r : CompleteWebhookAttemptRequest) (db db' : Db) (b : Bool)
    → complete_delivery_attempt did token r db ≡ ok b db'
    → (j : String)
    → moves (find delivery_id j db.deliveries) (find delivery_id j db'.deliveries) ≡ true
unfolding complete_delivery_attempt
complete-keeps did token r db db' b h j =
    elim (Option-cases (lock_delivery_attempt did r.attempt_id db)) [
      | inl missing ↦ moves_same j db db' (ground (arith, missing))
      | inr (l, found) ↦ elim (Bool-cases (may_complete_delivery l token r)) [
        | inr refused ↦ moves_same j db db' (ground (arith, found, refused))
        | inl may ↦
            elim (Option-cases (
              webhook_completion l.attempt_count r.max_attempts r.http_status r.error_code
                r.error_detail r.retry_delay)) [
                  | inl invalid ↦ moves_same j db db' (ground (arith, found, may, invalid))
                  | inr ((status, delay), c) ↦
                      finish_delivery-moves did r.error_code r.error_detail delay
                        (with_result db did r) j status
                        (λ d e. rw (← locked_count did r.attempt_id db l d found e) (
                          completion_may_finish l.attempt_count r.max_attempts r.http_status
                            r.error_code r.error_detail r.retry_delay delay status (ground arith)
                            c))
                        b db' (ground (arith, found, may, c))
                ]
      ]
    ]

pub complete_attempt-Moves :
    (did token : String) (r : CompleteWebhookAttemptRequest)
    → Moves (complete_delivery_attempt did token r)
complete_attempt-Moves did token r =
    Moves-of_ok (complete_delivery_attempt did token r) (complete-keeps did token r)

next_may_finish :
    (r : RecoverExpiredWebhookRequest) (n : ℕ)
    → valid_webhook_max_attempts r.max_attempts ≡ true
    → may_finish (next_of r n).0 n ≡ true
next_may_finish r n v = ground arith

module _ (r : RecoverExpiredWebhookRequest) (d : WebhookDelivery) (a : WebhookDeliveryAttempt)
    (db db' : Db) where
  recover_sending-keeps :
      valid_webhook_max_attempts r.max_attempts ≡ true
      → find delivery_id d.id db.deliveries ≡ some d
      → (o : Option WebhookDelivery) → recover_sending r d a db ≡ ok o db'
      → (j : String)
      → moves (find delivery_id j db.deliveries) (find delivery_id j db'.deliveries) ≡ true
  unfolding recover_sending get_delivery
  recover_sending-keeps v found o h j =
      elim (Result-cases (
        finish_delivery d.id (next_of r d.attempt_count).0 (some r.error_code) (some r.error_detail)
          (next_of r d.attempt_count).1 (with_abandoned db r d a))) [
            | inr (x, e) ↦ ground (arith, e)
            | inl (b, db'', e) ↦ ground (
              arith,
              e,
              finish_delivery-moves d.id (some r.error_code) (some r.error_detail)
                  (next_of r d.attempt_count).1 (with_abandoned db r d a) j
                  (next_of r d.attempt_count).0
                  (λ x f. ground (arith, found, f, next_may_finish r d.attempt_count v)) b db'' e,
            )
          ]

abandoned_is_row :
    (busy : String → Bool) (db : Db) (d : WebhookDelivery)
    → abandoned_delivery busy db ≡ some d
    → find delivery_id d.id db.deliveries ≡ some d
abandoned_is_row busy db d h = elim (Option-cases (abandoned_key busy db)) [
  | inl nothing ↦ ground (arith, nothing)
  | inr (e, found) ↦
      let row : find delivery_id e.id db.deliveries ≡ some d = ground (arith, found) in
      simp (find_key delivery_id e.id db.deliveries row) row
]

recover_next-keeps :
    (busy : String → Bool) (r : RecoverExpiredWebhookRequest) (db db' : Db)
    (o : Option WebhookDelivery)
    → recover_next_expired_sending busy r db ≡ ok o db'
    → (j : String)
    → moves (find delivery_id j db.deliveries) (find delivery_id j db'.deliveries) ≡ true
unfolding recover_next_expired_sending valid_webhook_retry_schedule
recover_next-keeps busy r db db' o h j = elim (Bool-cases (recover_refused r)) [
  | inl refused ↦ moves_same j db db' (ground (arith, refused))
  | inr fine ↦ elim (Option-cases (abandoned_delivery busy db)) [
    | inl nothing ↦ moves_same j db db' (ground (arith, fine, nothing))
    | inr (d, found) ↦ elim (Option-cases (first_row (open_attempts db d))) [
      | inl closed ↦ moves_same j db db' (ground (arith, fine, found, closed))
      | inr (a, first) ↦
          recover_sending-keeps r d a db db' (ground (arith, fine))
            (abandoned_is_row busy db d found) o (ground (arith, fine, found, first)) j
    ]
  ]
]

pub recover_next_sending-Moves :
    (busy : String → Bool) (r : RecoverExpiredWebhookRequest)
    → Moves (recover_next_expired_sending busy r)
recover_next_sending-Moves busy r =
    Moves-of_ok (recover_next_expired_sending busy r) (recover_next-keeps busy r)

-- A new row does not replay itself, since the row that it replays is stored.
is_text_other :
    (id replay_of : String) (db : Db) (d : WebhookDelivery)
    → find delivery_id replay_of db.deliveries ≡ some d
    → find delivery_id id db.deliveries ≡ none
    → is_text (some replay_of) id ≡ false
is_text_other id replay_of db d h e = elim (Bool-cases (replay_of == id)) [
  | inl same ↦ absurd (cc ((==_iff replay_of id).0 same))
  | inr other ↦ other
]

create_replay-keeps :
    (id replay_of : String) (db db' : Db) (x : WebhookDelivery)
    → create_replay id replay_of db ≡ ok x db'
    → (j : String)
    → moves (find delivery_id j db.deliveries) (find delivery_id j db'.deliveries) ≡ true
unfolding create_replay get_delivery
create_replay-keeps id replay_of db db' x h j =
    elim (Option-cases (find delivery_id replay_of db.deliveries)) [
      | inl missing ↦ ground (arith, missing)
      | inr (d, found) ↦ elim (Option-cases (lock_current_webhook_config d.project_id db)) [
        | inl unset ↦ ground (arith, found, unset)
        | inr (config, c) ↦
            let insert : Tx (Unit {0}) =
              insert_delivery id d.project_id d.event_id d.raw_body config (some replay_of) in
            elim (Result-cases (insert db)) [
              | inr (e, failed) ↦ ground (arith, found, c, failed)
              | inl (u, db'', done) ↦ ground (
                arith,
                found,
                c,
                done,
                moves_after insert db db'' u done j (
                    insert_delivery-Moves id d.project_id d.event_id d.raw_body config
                      (some replay_of) (config_has_version d.project_id db config c) db
                      (is_text_other id replay_of db d found) j),
              )
            ]
      ]
    ]

pub create_replay-Moves : (id replay_of : String) → Moves (create_replay id replay_of)
create_replay-Moves id replay_of =
    Moves-of_ok (create_replay id replay_of) (create_replay-keeps id replay_of)
