-- ===== src/Examples/Commands.antt =====
-- The theorems on the lifecycle of a command, at concrete databases.
use device_platform.Prelude.{ℕ, ◌≤◌, ◌≡◌, refl, true, false, none, some, [], ◌∷◌, List, ◌⊎◌, ◌↔◌}
use device_platform.Prelude.Table.{find, select}
use device_platform.Domain.Types.{CommandStatus, ConfirmationLevel}
use device_platform.Domain.Lifecycle.{can_transition_command, is_terminal, can_advance_confirmation}
use device_platform.Domain.Lifecycle.Order.{
  is_terminal_iff, Chain, transitions_bounded, Climb, is_level, can_advance_total_order,
}
use device_platform.Domain.Records.{Command}
use device_platform.Store.{Db, ok, command_id}
use device_platform.CommandRepo.Dispatch.{complete_attempt}
use device_platform.CommandRepo.Expire.{
  open_attempt, recover_expired_dispatching, expire_result_observation,
}
use device_platform.CommandRepo.Status.{follows}
use device_platform.CommandRepo.Trace
use device_platform.CommandRepo.Trace.Lifecycle.{perform-follows, terminal_is_final}
use device_platform.CommandRepo.Trace.Once.{dispatches, dispatches-le-one}
use device_platform.CommandRepo.Stuck.{IsOvertaken, overtaken_is_stuck}
use device_platform.Worker.Agreement.{completion_of}
use device_platform.Examples.Data.{
  queued_command, claimed_db, acked_db, mark_request, accepted, dispatching_attempt, sent_command,
}

-- A worker dispatches, and then tries the same again.
abbrev twice : List Trace.Operation
twice =
    Trace.Operation.mark "c1" "a1" "w1" mark_request
    ∷ Trace.Operation.mark "c1" "a1" "w1" mark_request
    ∷ []

dispatches-le-one_example : dispatches "c1" twice claimed_db ≤ 1
dispatches-le-one_example = dispatches-le-one "c1" twice claimed_db

perform-follows_example :
    follows (find command_id "c1" claimed_db.commands) (
      find command_id "c1"
        (Trace.perform (Trace.Operation.mark "c1" "a1" "w1" mark_request) claimed_db).commands)
    ≡ true
perform-follows_example =
    perform-follows (Trace.Operation.mark "c1" "a1" "w1" mark_request) claimed_db "c1"

abbrev cancelled_command : Command
cancelled_command = record queued_command { status = CommandStatus.cancelled }

abbrev cancelled_db : Db
cancelled_db = record claimed_db { commands = cancelled_command ∷ [] }

terminal_is_final_example :
    (d : Command) × (find command_id "c1" (Trace.perform_all twice cancelled_db).commands ≡ some d)
    × (d.status ≡ CommandStatus.cancelled)
unfolding find is_terminal
terminal_is_final_example = terminal_is_final twice cancelled_db "c1" cancelled_command refl refl

is_terminal_iff_example :
    (is_terminal CommandStatus.timeout ≡ true)
    ↔ ((to : CommandStatus) → can_transition_command CommandStatus.timeout to ≡ false)
is_terminal_iff_example = is_terminal_iff CommandStatus.timeout

whole_life : Chain CommandStatus.queued CommandStatus.success 3
unfolding can_transition_command
whole_life =
    Chain.go {t = CommandStatus.sent} refl
      (Chain.go {t = CommandStatus.acked} refl (Chain.go refl Chain.stop))

transitions_bounded_example :
    (3 ≤ 3) × (CommandStatus.queued ≡ CommandStatus.success → ◌≡◌ {A = ℕ} 3 0)
transitions_bounded_example = transitions_bounded whole_life

abbrev sent_level : ConfirmationLevel
sent_level = ConfirmationLevel.transport_sent

abbrev acked_level : ConfirmationLevel
acked_level = ConfirmationLevel.device_acked

abbrev final_level : ConfirmationLevel
final_level = ConfirmationLevel.device_final

can_advance_total_order_example :
    ((can_advance_confirmation sent_level acked_level ≡ true) ↔ Climb sent_level acked_level)
    × (can_advance_confirmation sent_level acked_level ≡ true
        → can_advance_confirmation acked_level final_level ≡ true
        → can_advance_confirmation sent_level final_level ≡ true)
    × (can_advance_confirmation sent_level acked_level ≡ true
        → can_advance_confirmation acked_level sent_level ≡ true
        → sent_level ≡ acked_level)
    × ((can_advance_confirmation sent_level acked_level ≡ true)
        ⊎ (can_advance_confirmation acked_level sent_level ≡ true)
        ⊎ (is_level sent_level ≡ false)
        ⊎ (is_level acked_level ≡ false))
can_advance_total_order_example = can_advance_total_order sent_level acked_level final_level

acked_db-IsOvertaken : IsOvertaken "c1" acked_db
unfolding find open_attempt select
acked_db-IsOvertaken = record {
  command = record sent_command { status = CommandStatus.acked };
  attempt = dispatching_attempt;
  command_found = refl;
  acknowledged = refl;
  attempt_open = refl;
  attempt_found = refl;
  dispatching = refl;
}

overtaken_is_stuck_example :
    (complete_attempt "c1" "a1" "w1" (completion_of accepted none) acked_db ≡ ok false acked_db)
    × (recover_expired_dispatching "c1" "a1" "w1" acked_db ≡ ok false acked_db)
    × (expire_result_observation "c1" acked_db ≡ ok false acked_db)
unfolding acked_db-IsOvertaken
overtaken_is_stuck_example =
    overtaken_is_stuck "c1" "w1" (completion_of accepted none) acked_db acked_db-IsOvertaken
