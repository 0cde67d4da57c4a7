-- ===== src/CommandRepo/Journal.antt =====
-- postgres_command_event.go, the INSERT of an event and of an audit, and postgres_webhook_simulator.go, the delivery
-- that is created with it for the webhook of the project.
use device_platform.Prelude.{
  ℕ, Bool, true, false, ◌&&◌, ◌||◌, not, String, [], ◌∷◌, ◌++◌, Option, none, some, if◌then◌else◌,
  ◌==◌, string_eq, nat_eq, is_empty,
}
use device_platform.Prelude.Json.{Json}
use device_platform.Prelude.Text.{trim_space}
use device_platform.Prelude.Table.{find, select}
use device_platform.Domain.Types.{WebhookDeliveryStatus}
use device_platform.Domain.Audit.{AuditLog}
use device_platform.Domain.Records.{Event, Project, WebhookDelivery}
use device_platform.Store.{
  Db, Tx, ok, err, event_id, project_id, delivery_id, audit_id, unique_violation,
  webhook_event_not_found, invalid_repository_request,
}

abbrev same_event_key : Event → Event → Bool
same_event_key e old =
    old.project_id == e.project_id && old.deduplication_key == e.deduplication_key

-- The INSERT, with the index uq_device_events_project_deduplication and the primary key.
unfoldable pub create_event : Event → Tx (Unit {0})
create_event e db =
    if is_empty (select event_id (same_event_key e) db.events)
    then elim (find event_id e.id db.events) [
      | some old ↦ err unique_violation
      | none ↦ ok tt (record db { events = db.events ++ e ∷ [] })
    ]
    else err unique_violation

pub record WebhookConfig : Type 0 where
  pub target_url : String
  pub config_version : ℕ
  pub secret_version : ℕ

-- The tests of a column that may be NULL: `Valid`, and not blank or not positive.
abbrev usable_url : Option String → Option String
usable_url none = none
usable_url (some url) = if trim_space url == "" then none else some url

abbrev usable_version : Option ℕ → Option ℕ
usable_version none = none
usable_version (some v) = if v == 0 then none else some v

abbrev config_of : Project → Option WebhookConfig
config_of p = elim (usable_url p.webhook_url) [
  | none ↦ none
  | some url ↦
      if p.webhook_config_version == 0
      then none
      else elim (usable_version p.current_webhook_secret_version) [
        | none ↦ none
        | some secret ↦ some (record {
          target_url = url;
          config_version = p.webhook_config_version;
          secret_version = secret;
        })
      ]
]

unfoldable pub lock_current_webhook_config : String → Db → Option WebhookConfig
lock_current_webhook_config pid db = elim (find project_id pid db.projects) [
  | none ↦ none
  | some p ↦ config_of p
]

unfoldable pub new_delivery :
    String → String → String → Json → WebhookConfig → Option String → ℕ → WebhookDelivery
new_delivery id pid eid body config replay_of now = record {
  id = id;
  project_id = pid;
  event_id = eid;
  target_url = config.target_url;
  webhook_config_version = config.config_version;
  webhook_secret_version = config.secret_version;
  raw_body = body;
  attempt_count = 0;
  status = WebhookDeliveryStatus.pending;
  last_error_code = none;
  last_error_detail = none;
  next_attempt_at = some now;
  lease_token = none;
  lease_owner = none;
  lease_expires_at = none;
  replay_of_delivery_id = replay_of;
  delivered_at = none;
  created_at = now;
  updated_at = now;
}

abbrev is_initial : Option String → Bool
is_initial none = true
is_initial (some id) = false

abbrev is_initial_of : String → WebhookDelivery → Bool
is_initial_of eid d = d.event_id == eid && is_initial d.replay_of_delivery_id

-- insertDelivery: the INSERT, with the index uq_webhook_deliveries_initial_event and the primary key.
unfoldable pub insert_delivery :
    String → String → String → Json → WebhookConfig → Option String → Tx (Unit {0})
unfolding new_delivery
insert_delivery id pid eid body config replay_of db =
    if is_initial replay_of && not (is_empty (select delivery_id (is_initial_of eid) db.deliveries))
    then err unique_violation
    else elim (find delivery_id id db.deliveries) [
      | some old ↦ err unique_violation
      | none ↦ ok tt (record db {
        deliveries = db.deliveries ++ new_delivery id pid eid body config replay_of db.now ∷ [];
      })
    ]

-- Whether a delivery was created. The body is a JSON document, so it is never empty.
unfoldable pub create_delivery : String → String → Json → Tx Bool
unfolding insert_delivery lock_current_webhook_config
create_delivery id eid body db =
    if trim_space id == "" || trim_space eid == ""
    then err invalid_repository_request
    else elim (find event_id eid db.events) [
      | none ↦ err webhook_event_not_found
      | some e ↦ elim (lock_current_webhook_config e.project_id db) [
        | none ↦ ok false db
        | some config ↦ elim (insert_delivery id e.project_id eid body config none db) [
          | err x ↦ err x
          | ok u db' ↦ ok true db'
        ]
      ]
    ]

unfoldable pub create_audit : AuditLog → Tx (Unit {0})
create_audit a db = elim (find audit_id a.id db.audits) [
  | some old ↦ err unique_violation
  | none ↦ ok tt (record db { audits = db.audits ++ a ∷ [] })
]
