-- ===== src/CommandService/Create/Replay.antt =====
-- Create of the command service, called twice with one request.
use device_platform.Prelude.{
  ◌≡◌, refl, ◌∙◌, Bool, true, false, String, List, [], ◌∷◌, ◌++◌, none, some, arith, string_eq,
  ==_refl, ==_iff, Bool-cases, Option-cases, inl, inr, ◌⊎◌,
}
use device_platform.Prelude.Json.{Json, empty_object, same_json}
use device_platform.Prelude.Text.{◌<>◌}
use device_platform.Prelude.Table.{find, find_key, select}
use device_platform.Domain.Records.{Command, Event, Project}
use device_platform.Domain.Types.{EventType}
use device_platform.Store.{
  Db, Tx, Error, ◌>>=◌, pure, bind-ok, Answer, Result-cases, done, failed, ok, transact, project_id,
  device_id, command_id,
}
use device_platform.Access.{Scope, can_access_project}
use device_platform.CommandRepo.Create.{create_command}
use device_platform.CommandRepo.Read.{get_by_idempotency_key, has_key, first_of}
use device_platform.CommandRepo.Journal.{create_event, create_delivery, create_audit}
use device_platform.Worker.Events.{event_envelope}
use device_platform.CommandService.Validation.{
  RequestMetadata, CreateRequest, Checked, check_create,
}
use device_platform.CommandService.Authorize.{Registry, Plan, authorize}
use device_platform.CommandService.Create.{
  Library, CreateResult, create, create_checked, create_new, store_command, new_command, replay_of,
  tell_created, created_event, created_audit, audit_created, created_payload, created_fields,
}
use device_platform.CommandService.Create.Journal.{Ids, new_event, service_event, service_audit}

-- Two databases with the same commands and the same projects.
pub record SameCommands (db db' : Db) : Type 0 where
  pub commands : db'.commands ≡ db.commands
  pub projects : db'.projects ≡ db.projects

create_event-keeps :
    (e : Event) (db db' : Db) (u : Unit {0}) → create_event e db ≡ ok u db' → SameCommands db db'
unfolding create_event
create_event-keeps e db db' u h = ground arith

create_delivery-keeps :
    (id eid : String) (body : Json) (db db' : Db) (b : Bool)
    → create_delivery id eid body db ≡ ok b db'
    → SameCommands db db'
unfolding create_delivery
create_delivery-keeps id eid body db db' b h = ground arith

same_trans : {x y z : Db} → SameCommands x y → SameCommands y z → SameCommands x z
same_trans a b = ground arith

pub service_event-keeps :
    (ids : Ids) (m : RequestMetadata) (c : Command) (t : EventType) (payload : Json) (key : String)
    (db db' : Db) (u : Unit {0})
    → service_event ids m c t payload key db ≡ ok u db'
    → SameCommands db db'
unfolding service_event
service_event-keeps ids m c t payload key db db' u h =
    let e = new_event ids m c t payload key in
    let deliver : Bool → Tx (Unit {0}) = λ b. pure tt in
    let (v, mid, made, rest) =
      bind-ok (create_event e)
        (λ x. create_delivery ids.delivery_id e.id (event_envelope e) >>= deliver) u db db' h in
    let (b, last, sent, end) =
      bind-ok (create_delivery ids.delivery_id e.id (event_envelope e)) deliver u mid db' rest in
    same_trans (create_event-keeps e db mid v made) (
      same_trans (create_delivery-keeps ids.delivery_id e.id (event_envelope e) mid last b sent)
        (ground (arith, end)))

pub service_audit-keeps :
    (ids : Ids) (m : RequestMetadata) (c : Command) (action : String) (fields : Json) (db db' : Db)
    (u : Unit {0})
    → service_audit ids m c action fields db ≡ ok u db'
    → SameCommands db db'
unfolding service_audit create_audit
service_audit-keeps ids m c action fields db db' u h = ground arith

create_command-appends :
    (c : Command) (db db' : Db) (u : Unit {0})
    → create_command c db ≡ ok u db'
    → (db'.commands ≡ db.commands ++ c ∷ []) × (db'.projects ≡ db.projects)
unfolding create_command
create_command-appends c db db' u h = ground arith

store_command_lem :
    (k : Checked) (c : Command) (ids : Ids) (x : CreateResult) (db db' : Db)
    → store_command k c ids db ≡ ok x db'
    → (x.command ≡ c) × (db'.commands ≡ db.commands ++ c ∷ []) × (db'.projects ≡ db.projects)
unfolding store_command
store_command_lem k c ids x db db' h =
    let (u, first, stored, rest) =
      bind-ok (create_command c) (λ _. tell_created k c ids) x db db' h in
    let (v, second, told, rest') =
      bind-ok (created_event k c ids) (λ _. audit_created k c ids) x first db' rest in
    let (w, third, audited, end) =
      bind-ok (created_audit k c ids)
        (λ _. pure (record { command = c; idempotent_replay = false })) x second db' rest' in
    let (commands, projects) = create_command-appends c db first u stored in
    ground (
      arith,
      commands,
      projects,
      service_event-keeps ids k.metadata c EventType.command_created (created_payload c)
          ("command.created:" <> c.id) first second v told,
      service_audit-keeps ids k.metadata c "command.created" (created_fields c) second third w
          audited,
      end,
    )

-- The plan is for the device of the request.
authorize-device :
    (registry : Registry) (k : Checked) (db : Db) (plan : Plan)
    → authorize registry k db ≡ done plan
    → find device_id k.device_id db.devices ≡ some plan.device
unfolding authorize
authorize-device registry k db plan h = ground arith

first_of-append :
    (pid key : String) (rows : List Command) (c : Command)
    → first_of (select command_id (has_key pid key) rows) ≡ none
    → has_key pid key c ≡ true
    → first_of (select command_id (has_key pid key) (rows ++ c ∷ [])) ≡ some c
unfolding select
first_of-append pid key [] c h e = ground arith
first_of-append pid key (r ∷ rows) c h e = ground (arith, first_of-append pid key rows c)

abbrev replayed : Command → CreateResult
replayed c = record { command = c; idempotent_replay = true }

Answer-cases {ℓ} :
    {A : Type ℓ} (r : Answer A) → ((a : A) × (r ≡ done a)) ⊎ ((e : Error) × (r ≡ failed e))
Answer-cases (done a) = inl (a, refl)
Answer-cases (failed e) = inr (e, refl)

-- A command that carries the device, the type and the empty payload of the request is replayed.
matching_is_replayed :
    (k : Checked) (c : Command) (db : Db)
    → c.device_id ≡ k.device_id
    → c.command_type ≡ k.command_type
    → same_json c.payload empty_object ≡ true
    → replay_of k c db ≡ ok (replayed c) db
matching_is_replayed k c db d t p =
    ground (arith, ==_iff c.device_id k.device_id, ==_iff c.command_type k.command_type)

module _ (lib : Library) (registry : Registry) (k : Checked) where
  -- With the project in reach and a command under the key, Create is a replay.
  existing_is_replayed :
      (ids : Ids) (p : Project) (c : Command) (db : Db)
      → find project_id k.project_id db.projects ≡ some p
      → can_access_project k.scope p ≡ true
      → get_by_idempotency_key k.project_id k.idempotency_key db ≡ some c
      → create_checked lib registry k ids db ≡ replay_of k c db
  unfolding create_checked
  existing_is_replayed ids p c db project may found = rw (project, may, found, create_checked) refl

  new_is_replayed :
      (ids ids' : Ids) (p : Project) (plan : Plan) (x : CreateResult) (db db' : Db)
      → find project_id k.project_id db.projects ≡ some p
      → can_access_project k.scope p ≡ true
      → get_by_idempotency_key k.project_id k.idempotency_key db ≡ none
      → authorize registry k db ≡ done plan
      → store_command k (new_command lib k plan ids) ids db ≡ ok x db'
      → create_checked lib registry k ids' db' ≡ ok (replayed x.command) db'
  unfolding get_by_idempotency_key new_command same_json
  new_is_replayed ids ids' p plan x db db' project may fresh plans stored =
      let c = new_command lib k plan ids in
      let (made, commands, projects) = store_command_lem k c ids x db db' stored in
      let found : get_by_idempotency_key k.project_id k.idempotency_key db' ≡ some c = rw commands (
        first_of-append k.project_id k.idempotency_key db.commands c fresh
          (ground (arith, ==_refl k.project_id, ==_refl k.idempotency_key))) in
      let device : c.device_id ≡ k.device_id =
        find_key device_id k.device_id db.devices (authorize-device registry k db plan plans) in
      rw made (
        existing_is_replayed ids' p c db' (rw projects project) may found
        ∙ matching_is_replayed k c db' device refl refl)

  replay_twice :
      (ids' : Ids) (c : Command) (x : CreateResult) (db db' : Db)
      → create_checked lib registry k ids' db ≡ replay_of k c db
      → replay_of k c db ≡ ok x db'
      → create_checked lib registry k ids' db' ≡ ok (replayed x.command) db'
  replay_twice ids' c x db db' again was = ground arith

  create_checked-replays :
      (ids ids' : Ids) (x : CreateResult) (db db' : Db)
      → create_checked lib registry k ids db ≡ ok x db'
      → create_checked lib registry k ids' db' ≡ ok (replayed x.command) db'
  unfolding create_checked create_new
  create_checked-replays ids ids' x db db' h =
      elim (Option-cases (find project_id k.project_id db.projects)) [
        | inl missing ↦ cc (rw (missing, create_checked) at h)
        | inr (p, project) ↦ elim (Bool-cases (can_access_project k.scope p)) [
          | inr hidden ↦ cc (rw (project, hidden, create_checked) at h)
          | inl may ↦
              elim (Option-cases (get_by_idempotency_key k.project_id k.idempotency_key db)) [
                | inr (c, found) ↦
                    let again : create_checked lib registry k ids' db ≡ replay_of k c db =
                      existing_is_replayed ids' p c db project may found in
                    let was : replay_of k c db ≡ ok x db' =
                      rw (project, may, found, create_checked) at h in
                    replay_twice ids' c x db db' again was
                | inl fresh ↦ elim (Answer-cases (authorize registry k db)) [
                  | inr (e, refused) ↦
                      cc (rw (project, may, fresh, create_checked, refused, create_new) at h)
                  | inl (plan, plans) ↦
                      new_is_replayed ids ids' p plan x db db' project may fresh plans
                        (rw (project, may, fresh, create_checked, plans, create_new) at h)
                ]
              ]
        ]
      ]

-- Create is idempotent: once it has committed for a request, the same request with other random ids
-- and another clock is answered with the stored command as a replay, and the database stays as it is.
pub create_is_idempotent :
    (lib : Library) (registry : Registry) (scope : Scope) (r : CreateRequest)
    (metadata : RequestMetadata) (ids ids' : Ids) (x : CreateResult) (db db' : Db)
    → create lib registry scope r metadata ids db ≡ (done x, db')
    → create lib registry scope r metadata ids' db' ≡ (done (replayed x.command), db')
unfolding create transact
create_is_idempotent lib registry scope r metadata ids ids' x db db' h =
    elim (Answer-cases (check_create lib.parse_addr scope r metadata)) [
      | inr (e, refused) ↦ cc (rw (refused, create) at h)
      | inl (k, checked) ↦ elim (Result-cases (create_checked lib registry k ids db)) [
        | inr (e, failure) ↦ cc (rw (checked, failure, create, transact) at h)
        | inl (y, db'', ran) ↦
            let same : ◌≡◌ {A = Answer CreateResult × Db} (done y, db'') (done x, db') =
              rw (checked, ran, create, transact) at h in
            let again : create_checked lib registry k ids' db' ≡ ok (replayed x.command) db' =
              create_checked-replays lib registry k ids ids' x db db' (ground (arith, ran, same)) in
            rw (checked, again, create, transact) refl
      ]
    ]
