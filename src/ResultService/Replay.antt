-- ===== src/ResultService/Replay.antt =====
-- A report that is made again.
use device_platform.Prelude.{
  ℕ, ◌≡◌, refl, Bool, true, false, String, Option, none, some, arith, List, [], ◌∷◌, ◌++◌,
  string_eq,
}
use device_platform.Prelude.Json.{Json}
use device_platform.Prelude.Table.{find, select}
use device_platform.Domain.Types.{
  ConfirmationLevel, EventSource, confirmation_level_eq, event_source_eq, result_outcome_eq,
}
use device_platform.Domain.Records.{Command, CommandResult, Event}
use device_platform.Domain.Types.{CommandStatus}
use device_platform.Store.{Db, ok, ◌>>=◌, pure, bind-ok, command_id, result_id}
use device_platform.CommandRepo.Lock.{get}
use device_platform.CommandRepo.Expire.{first_row}
use device_platform.CommandRepo.Aggregate.{
  get_by_deduplication_key, row_of_origin, create_result, apply_result, same_origin,
}
use device_platform.CommandRepo.Journal.{create_event, create_delivery}
use device_platform.Worker.Events.{event_envelope}
use device_platform.ResultService.{
  RecordRequest, RecordResult, RecordIds, same_result, create_or_conflict, create_result_event,
  store_result, event_of,
}

create_result-kept :
    (r : CommandResult) (u : Unit {0}) (db db' : Db)
    → create_or_conflict r db ≡ ok u db'
    → (db'.results ≡ db.results ++ r ∷ []) × (db'.commands ≡ db.commands)
unfolding create_result
create_result-kept r u db db' h = (ground (arith, h), ground (arith, h))

apply_result-kept :
    (r : CommandResult) (x : CommandStatus × Command) (db db' : Db)
    → apply_result r db ≡ ok x db'
    → (db'.results ≡ db.results) × (find command_id r.command_id db'.commands ≡ some x.1)
unfolding apply_result get
apply_result-kept r x db db' h = (ground (arith, h), ground (arith, h))

create_event-kept :
    (e : Event) (u : Unit {0}) (db db' : Db)
    → create_event e db ≡ ok u db'
    → (db'.results ≡ db.results) × (db'.commands ≡ db.commands)
unfolding create_event
create_event-kept e u db db' h = (ground (arith, h), ground (arith, h))

create_delivery-kept :
    (id eid : String) (body : Json) (b : Bool) (db db' : Db)
    → create_delivery id eid body db ≡ ok b db'
    → (db'.results ≡ db.results) × (db'.commands ≡ db.commands)
unfolding create_delivery
create_delivery-kept id eid body b db db' h = (ground (arith, h), ground (arith, h))

event-kept :
    (ids : RecordIds) (r : CommandResult) (c : Command) (u : Unit {0}) (db db' : Db)
    → create_result_event ids r c db ≡ ok u db'
    → (db'.results ≡ db.results) × (db'.commands ≡ db.commands)
unfolding create_result_event
event-kept ids r c u db db' h =
    let e = event_of ids r c in
    let (v, mid, created, rest) =
      bind-ok (create_event e)
        (λ _. create_delivery ids.delivery ids.event (event_envelope e) >>= (λ b. pure tt)) u db db'
        h in
    let (b, last, delivered, end) =
      bind-ok (create_delivery ids.delivery ids.event (event_envelope e)) (λ b. pure tt) u mid db'
        rest in
    let first = create_event-kept e v db mid created in
    let second =
      create_delivery-kept ids.delivery ids.event (event_envelope e) b mid last delivered in
    (ground (arith, end, first.0, second.0), ground (arith, end, first.1, second.1))

-- The transaction that stores a report leaves its row as the last, and the command in place.
pub store_result-kept :
    (ids : RecordIds) (r : CommandResult) (out : RecordResult) (db db' : Db)
    → store_result ids r db ≡ ok out db'
    → (db'.results ≡ db.results ++ r ∷ [])
      × (find command_id r.command_id db'.commands ≡ some out.command)
      × (out.result ≡ r)
unfolding store_result
store_result-kept ids r out db db' h =
    let (u, d, created, h') =
      bind-ok (create_or_conflict r)
        (λ _. apply_result r >>= (λ x.
          create_result_event ids r x.1
          >>= (λ _. pure (record { result = r; command = x.1; idempotent_replay = false }))))
        out db db' h in
    let (x, d', applied, h'') =
      bind-ok (apply_result r)
        (λ x.
          create_result_event ids r x.1
          >>= (λ _. pure (record { result = r; command = x.1; idempotent_replay = false })))
        out d db' h' in
    let (v, d'', journalled, end) =
      bind-ok (create_result_event ids r x.1)
        (λ _. pure (record { result = r; command = x.1; idempotent_replay = false })) out d' db'
        h'' in
    let one = create_result-kept r u db d created in
    let two = apply_result-kept r x d d' applied in
    let three = event-kept ids r x.1 v d' d'' journalled in
    (
      ground (arith, end, one.0, two.0, three.0),
      ground (arith, end, two.1, three.1),
      ground (arith, end),
    )

pub first_new :
    (source : EventSource) (key : String) (rows : List CommandResult) (r : CommandResult)
    → first_row (select result_id (same_origin source key) rows) ≡ none
    → same_origin source key r ≡ true
    → first_row (select result_id (same_origin source key) (rows ++ r ∷ [])) ≡ some r
unfolding select
first_new source key [] r h k = ground (arith, k)
first_new source key (s ∷ rows) r h k = ground (arith, first_new source key rows r, k, h)

pub no_row :
    (decoded : Json → Json) (source : EventSource) (key : String) (db : Db)
    → get_by_deduplication_key decoded source key db ≡ none
    → first_row (select result_id (same_origin source key) db.results) ≡ none
unfolding get_by_deduplication_key row_of_origin
no_row decoded source key db h = ground arith

-- The same report, observed and reported at other times.
abbrev pub at_times : RecordRequest → ℕ → Option ℕ → RecordRequest
at_times r observed reported = record r { observed_at = observed; reported_at = reported }

same_result-times :
    (existing : CommandResult) (r : RecordRequest) (level : ConfirmationLevel) (t : ℕ)
    (u : Option ℕ)
    → same_result existing (at_times r t u) level ≡ same_result existing r level
unfolding same_result
same_result-times existing r level t u = refl
