-- ===== src/Store.antt =====
-- backend/internal/storage/repository: the rows that the command lifecycle reads and writes, and a
-- transaction over them (postgres_project_device.go, WithinTransaction and TransactCommand).
-- A statement of the source that names a primary key acts on the one row with that key. `now` is
-- the time of the transaction, PostgreSQL's now(), and is the same in all statements of one.
use device_platform.Prelude.{ℕ, String, List, ◌≡◌, refl, ◌⊎◌, inl, inr, arith}
use device_platform.Domain.Records.{
  Device, Command, CommandAttempt, CommandResult, Event, Project, WebhookDelivery, RawMessage,
  WebhookDeliveryAttempt,
}
use device_platform.Domain.Audit.{AuditLog, WebhookSecretVersion}
use device_platform.Domain.Catalogue.{DeviceType, DeviceTypeProfile}

pub record Db : Type 0 where
  pub now : ℕ
  pub commands : List Command
  pub attempts : List CommandAttempt
  pub results : List CommandResult
  pub events : List Event
  pub devices : List Device
  pub projects : List Project
  pub deliveries : List WebhookDelivery
  pub raw_messages : List RawMessage
  pub delivery_attempts : List WebhookDeliveryAttempt
  pub secrets : List WebhookSecretVersion
  pub audits : List AuditLog
  pub device_types : List DeviceType
  pub profiles : List DeviceTypeProfile

-- The primary keys.
abbrev pub command_id : Command → String
command_id c = c.id

abbrev pub attempt_id : CommandAttempt → String
attempt_id a = a.id

abbrev pub device_id : Device → String
device_id d = d.id

abbrev pub project_id : Project → String
project_id p = p.id

abbrev pub event_id : Event → String
event_id e = e.id

abbrev pub message_id : RawMessage → String
message_id m = m.id

abbrev pub result_id : CommandResult → String
result_id r = r.id

abbrev pub delivery_id : WebhookDelivery → String
delivery_id d = d.id

abbrev pub delivery_attempt_id : WebhookDeliveryAttempt → String
delivery_attempt_id a = a.id

abbrev pub audit_id : AuditLog → String
audit_id a = a.id

abbrev pub device_type_code : DeviceType → String
device_type_code t = t.code

pub data Error : Type 0 where
  no_rows lease_lost runtime_state invalid_config invalid_repository_request : Error
  provider_request_key_conflict command_result_conflict unique_violation webhook_event_not_found :
      Error
  invalid_result command_missing result_conflict : Error
  webhook_delivery_not_found webhook_delivery_not_dead webhook_not_configured : Error
  invalid_request project_not_found device_not_found device_disabled device_not_online : Error
  capability_unsupported payload_invalid provider_not_configured : Error
  provider_action_unsupported provider_mapping_unknown command_not_found : Error
  idempotency_key_conflict command_not_cancellable device_immutable lifecycle_transition : Error
  device_type_not_found provider_not_found provider_profile_not_found : Error
  provider_device_conflict provider_identity_violation active_provider_identity_violation : Error

pub data Result {ℓ} (A : Type ℓ) : Type ℓ where
  ok : A → Db → Result A
  err : Error → Result A

pub Result-cases {ℓ} :
    {A : Type ℓ} (r : Result A)
    → ((a : A) × (db : Db) × (r ≡ ok a db)) ⊎ ((e : Error) × (r ≡ err e))
Result-cases (ok a db) = inl (a, db, refl)
Result-cases (err e) = inr (e, refl)

-- The body of a transaction. An error ends it.
abbrev pub Tx {ℓ} : Type ℓ → Type ℓ
Tx A = Db → Result A

infixl 5 ◌>>=◌ ◌>>◌
abbrev pub ◌>>=◌ {ℓ κ} : {A : Type ℓ} {B : Type κ} → Tx A → (A → Tx B) → Tx B
◌>>=◌ m f db = elim (m db) [ ok a db' ↦ f a db' | err e ↦ err e ]

-- A bind that commits is two steps that commit.
pub bind-ok {ℓ κ} :
    {A : Type ℓ} {B : Type κ} (m : Tx A) (f : A → Tx B) (b : B) (db db' : Db)
    → (m >>= f) db ≡ ok b db'
    → (a : A) × (mid : Db) × (m db ≡ ok a mid) × (f a mid ≡ ok b db')
bind-ok m f b db db' h = elim (Result-cases (m db)) [
  | inl (a, mid, e) ↦ (a, mid, e, ground (arith, e, h))
  | inr (e', e) ↦ absurd (ground (arith, e, h))
]

abbrev pub ◌>>◌ {ℓ} : {B : Type ℓ} → Tx (Unit {0}) → Tx B → Tx B
m >> k = m >>= λ _. k

abbrev pub pure {ℓ} : {A : Type ℓ} → A → Tx A
pure a db = ok a db

abbrev pub raise {ℓ} : {A : Type ℓ} → Error → Tx A
raise e db = err e

-- What a caller of TransactCommand sees: the answer, and the database after COMMIT or ROLLBACK.
pub data Answer {ℓ} (A : Type ℓ) : Type ℓ where
  done : A → Answer A
  failed : Error → Answer A

pub Answer-cases {ℓ} :
    {A : Type ℓ} (r : Answer A) → ((a : A) × (r ≡ done a)) ⊎ ((e : Error) × (r ≡ failed e))
Answer-cases (done a) = inl (a, refl)
Answer-cases (failed e) = inr (e, refl)

unfoldable pub transact {ℓ} : {A : Type ℓ} → Tx A → Db → Answer A × Db
transact body db = elim (body db) [ ok a db' ↦ (done a, db') | err e ↦ (failed e, db) ]
