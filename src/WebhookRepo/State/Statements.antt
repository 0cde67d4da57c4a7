-- ===== src/WebhookRepo/State/Statements.antt =====
-- Lemmas on the delivery machine for the statements that change a row of webhook_deliveries.
use device_platform.Prelude.{
  ℕ, ◌≡◌, refl, Bool, true, false, String, Option, none, some, arith, string_eq, nat_eq, ◌!=◌,
  Option-cases, inl, inr, Bool-cases, leb,
}
use device_platform.Prelude.Json.{Json}
use device_platform.Prelude.Table.{find, modify}
use device_platform.Domain.Types.{WebhookDeliveryStatus, webhook_delivery_status_eq}
use device_platform.Domain.Records.{WebhookDelivery}
use device_platform.Store.{Db, Tx, ok, delivery_id, event_id, transact}
use device_platform.CommandRepo.Journal.{
  WebhookConfig, new_delivery, insert_delivery, create_delivery, lock_current_webhook_config,
}
use device_platform.WebhookRepo.Claim.{
  ClaimWebhookRequest, is_due, set_sending, is_exhausted, set_exhausted, valid_webhook_max_attempts,
}
use device_platform.WebhookRepo.Complete.{
  set_delivered, set_failed, set_dead, finish_delivery, is_sending,
}
use device_platform.WebhookRepo.State.{
  moves, moves_at, moves_row, moves_refl, moves-modify, moves-append, meets_checks, phase_of,
  phase_step, is_new, is_text,
}

-- A transaction body that moves every delivery along the machine, whether it commits or not.
abbrev pub Moves {ℓ} : {A : Type ℓ} → Tx A → Type 0
Moves m =
    (db : Db) (j : String)
    → moves (find delivery_id j db.deliveries) (find delivery_id j (transact m db).1.deliveries)
      ≡ true

pub sending_moves :
    (now max : ℕ) (r : ClaimWebhookRequest) (d : WebhookDelivery)
    → valid_webhook_max_attempts max ≡ true
    → is_due now max d ≡ true
    → moves_row d (set_sending now r d) ≡ true
unfolding meets_checks phase_of phase_step
sending_moves now max r d v h = ground arith

pub exhausted_moves :
    (now max : ℕ) (d : WebhookDelivery)
    → valid_webhook_max_attempts max ≡ true
    → is_exhausted max d ≡ true
    → moves_row d (set_exhausted now d) ≡ true
unfolding meets_checks phase_of phase_step
exhausted_moves now max d v h = ground arith

delivered_moves :
    (now : ℕ) (d : WebhookDelivery) → is_sending d ≡ true → moves_row d (set_delivered now d) ≡ true
unfolding meets_checks phase_of phase_step
delivered_moves now d h = ground arith

dead_moves :
    (now : ℕ) (code detail : Option String) (d : WebhookDelivery)
    → is_sending d ≡ true
    → moves_row d (set_dead now code detail d) ≡ true
unfolding meets_checks phase_of phase_step
dead_moves now code detail d h = ground arith

failed_moves :
    (now delay : ℕ) (code detail : Option String) (d : WebhookDelivery)
    → is_sending d ≡ true
    → leb d.attempt_count 4 ≡ true
    → moves_row d (set_failed now code detail delay d) ≡ true
unfolding meets_checks phase_of phase_step
failed_moves now delay code detail d h few = ground arith

-- A status that finishDelivery may write to a row with this number of attempts.
abbrev pub may_finish : WebhookDeliveryStatus → ℕ → Bool
may_finish WebhookDeliveryStatus.failed n = leb n 4
may_finish other n = true

pub moves_at_of :
    (o : Option WebhookDelivery) (p : WebhookDelivery → Bool)
    (f : WebhookDelivery → WebhookDelivery)
    → ((d : WebhookDelivery) → o ≡ some d → p d ≡ true → moves_row d (f d) ≡ true)
    → moves_at o p f ≡ true
moves_at_of none p f h = refl
moves_at_of (some d) p f h = elim (Bool-cases (p d)) [
  | inl holds ↦ rw holds (h d refl holds)
  | inr fails ↦ rw fails refl
]

module _ (did : String) (code detail : Option String) (delay : ℕ) (db : Db) (j : String) where
  -- An UPDATE of a sending row by one of the SET clauses.
  finish_by :
      (f : WebhookDelivery → WebhookDelivery)
      → ((d : WebhookDelivery) → (f d).id ≡ d.id)
      → ((d : WebhookDelivery)
          → find delivery_id did db.deliveries ≡ some d
          → is_sending d ≡ true
          → moves_row d (f d) ≡ true)
      → moves
          (find delivery_id j db.deliveries)
          (find delivery_id j (modify delivery_id did is_sending f db.deliveries))
        ≡ true
  finish_by f keep step =
      moves-modify is_sending f keep did j db.deliveries
        (moves_at_of (find delivery_id did db.deliveries) is_sending f step)

  -- The row of a delivery after finishDelivery, whatever the rest of the database is.
  pub finish_delivery-moves :
      (status : WebhookDeliveryStatus)
      → ((d : WebhookDelivery)
          → find delivery_id did db.deliveries ≡ some d
          → may_finish status d.attempt_count ≡ true)
      → (b : Bool) (db' : Db) → finish_delivery did status code detail delay db ≡ ok b db'
      → moves (find delivery_id j db.deliveries) (find delivery_id j db'.deliveries) ≡ true
  unfolding finish_delivery
  finish_delivery-moves WebhookDeliveryStatus.delivered few b db' h =
      ground (arith, finish_by (set_delivered db.now) (λ d. refl) (λ d e. delivered_moves db.now d))
  finish_delivery-moves WebhookDeliveryStatus.failed few b db' h = ground (
    arith,
    finish_by (set_failed db.now code detail delay) (λ d. refl)
        (λ d e p. failed_moves db.now delay code detail d p (few d e)),
  )
  finish_delivery-moves WebhookDeliveryStatus.dead few b db' h = ground (
    arith,
    finish_by (set_dead db.now code detail) (λ d. refl) (λ d e. dead_moves db.now code detail d),
  )
  finish_delivery-moves WebhookDeliveryStatus.pending few b db' h =
      ground (arith, moves_refl (find delivery_id j db.deliveries))
  finish_delivery-moves WebhookDeliveryStatus.sending few b db' h =
      ground (arith, moves_refl (find delivery_id j db.deliveries))

-- The checks that the INSERT of a delivery meets, and the id that it does not replay.
new_delivery_ok :
    (id pid eid : String) (body : Json) (config : WebhookConfig) (replay_of : Option String)
    (now : ℕ)
    → (config.config_version != 0) ≡ true
    → is_text replay_of id ≡ false
    → (meets_checks (new_delivery id pid eid body config replay_of now) ≡ true)
      × (is_new (phase_of (new_delivery id pid eid body config replay_of now)) ≡ true)
unfolding meets_checks phase_of new_delivery
new_delivery_ok id pid eid body config replay_of now h r = ground arith

pub insert_delivery-Moves :
    (id pid eid : String) (body : Json) (config : WebhookConfig) (replay_of : Option String)
    → (config.config_version != 0) ≡ true
    → (db : Db) → (find delivery_id id db.deliveries ≡ none → is_text replay_of id ≡ false)
    → (j : String)
    → moves (find delivery_id j db.deliveries) (
        find delivery_id j
          (transact (insert_delivery id pid eid body config replay_of) db).1.deliveries)
      ≡ true
unfolding insert_delivery transact
insert_delivery-Moves id pid eid body config replay_of v db fresh j =
    elim (Option-cases (find delivery_id id db.deliveries)) [
      | inl none_yet ↦
          let (checks, new) =
            new_delivery_ok id pid eid body config replay_of db.now v (fresh none_yet) in
          ground (
            arith,
            moves_refl (find delivery_id j db.deliveries),
            moves-append j db.deliveries (new_delivery id pid eid body config replay_of db.now)
                checks new,
          )
      | inr (d, found) ↦ ground (arith, moves_refl (find delivery_id j db.deliveries))
    ]

-- A configuration that is found has a version.
pub config_has_version :
    (pid : String) (db : Db) (config : WebhookConfig)
    → lock_current_webhook_config pid db ≡ some config
    → (config.config_version != 0) ≡ true
unfolding lock_current_webhook_config
config_has_version pid db config h = ground arith

pub create_delivery-Moves : (id eid : String) (body : Json) → Moves (create_delivery id eid body)
unfolding create_delivery transact
create_delivery-Moves id eid body db j = elim (Option-cases (find event_id eid db.events)) [
  | inl missing ↦ ground (arith, moves_refl (find delivery_id j db.deliveries))
  | inr (e, found) ↦ elim (Option-cases (lock_current_webhook_config e.project_id db)) [
    | inl unset ↦ ground (arith, moves_refl (find delivery_id j db.deliveries))
    | inr (config, c) ↦ ground (
      arith,
      moves_refl (find delivery_id j db.deliveries),
      insert_delivery-Moves id e.project_id eid body config none
          (config_has_version e.project_id db config c) db (λ h. refl) j,
    )
  ]
]

-- An operation that leaves the deliveries alone.
pub moves_same :
    (j : String) (db db' : Db)
    → db'.deliveries ≡ db.deliveries
    → moves (find delivery_id j db.deliveries) (find delivery_id j db'.deliveries) ≡ true
moves_same j db db' h = rw h (moves_refl (find delivery_id j db.deliveries))
