-- ===== src/CommandRepo/Status/Writes.antt =====
-- Lemmas on the lifecycle for the INSERT of a command, a result, an event and a delivery, and for
-- ApplyResult.
use device_platform.Prelude.{
  ℕ, ◌≡◌, refl, true, String, Option, some, arith, inl, inr, Option-cases,
}
use device_platform.Prelude.Json.{Json}
use device_platform.Prelude.Table.{find}
use device_platform.Domain.Types.{CommandStatus, command_status_eq}
use device_platform.Domain.Lifecycle.{can_transition_command}
use device_platform.Domain.Records.{Command, CommandResult, Event}
use device_platform.Store.{command_id, transact}
use device_platform.CommandRepo.Dispatch.{any}
use device_platform.CommandRepo.Create.{create_command}
use device_platform.CommandRepo.Aggregate.{
  create_result, apply_result, result_update, set_result, set_late_evidence,
}
use device_platform.CommandRepo.Journal.{create_event, create_delivery}
use device_platform.CommandRepo.Status.{follows_refl, follows-modify, follows-append, steps_at}
use device_platform.CommandRepo.Status.Statements.{Follows, steps_at_same}

pub create_command-Follows : (c : Command) → Follows (create_command c)
unfolding create_command transact
create_command-Follows c db j =
    ground (arith, follows_refl (find command_id j db.commands), follows-append j db.commands c)

pub create_result-Follows : (r : CommandResult) → Follows (create_result r)
unfolding create_result transact
create_result-Follows r db j = ground (arith, follows_refl (find command_id j db.commands))

pub create_event-Follows : (e : Event) → Follows (create_event e)
unfolding create_event transact
create_event-Follows e db j = ground (arith, follows_refl (find command_id j db.commands))

pub create_delivery-Follows :
    (id eid : String) (body : Json) → Follows (create_delivery id eid body)
unfolding create_delivery transact
create_delivery-Follows id eid body db j =
    ground (arith, follows_refl (find command_id j db.commands))

-- The status that a result writes is one that the table permits.
result_update_permitted :
    (r : CommandResult) (from to : CommandStatus) (reason : Option String) (finished : Option ℕ)
    → result_update r from ≡ some (to, reason, finished)
    → can_transition_command from to ≡ true
unfolding result_update can_transition_command
result_update_permitted r from to reason finished h = ground arith

steps_at_result :
    (status : CommandStatus) (reason : Option String) (finished : Option ℕ) (r : CommandResult)
    (o : Option Command) (c : Command)
    → o ≡ some c
    → can_transition_command c.status status ≡ true
    → steps_at o any (set_result status reason finished r) ≡ true
steps_at_result status reason finished r o c e h = ground arith

pub apply_result-Follows : (r : CommandResult) → Follows (apply_result r)
unfolding apply_result transact
apply_result-Follows r db j = elim (Option-cases (find command_id r.command_id db.commands)) [
  | inl missing ↦ ground (arith, follows_refl (find command_id j db.commands))
  | inr (c, e) ↦ elim (Option-cases (result_update r c.status)) [
    | inl refused ↦ ground (
      arith,
      follows_refl (find command_id j db.commands),
      follows-modify any (set_late_evidence r) (λ d. refl) r.command_id j db.commands
          (steps_at_same any (set_late_evidence r) (λ d. refl)
            (find command_id r.command_id db.commands)),
    )
    | inr ((status, reason, finished), u) ↦ ground (
      arith,
      follows_refl (find command_id j db.commands),
      follows-modify any (set_late_evidence r) (λ d. refl) r.command_id j db.commands
          (steps_at_same any (set_late_evidence r) (λ d. refl)
            (find command_id r.command_id db.commands)),
      follows-modify any (set_result status reason finished r) (λ d. refl) r.command_id j
          db.commands
          (steps_at_result status reason finished r (find command_id r.command_id db.commands) c e
            (result_update_permitted r c.status status reason finished u)),
    )
  ]
]
