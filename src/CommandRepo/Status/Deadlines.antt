-- ===== src/CommandRepo/Status/Deadlines.antt =====
-- Lemmas on the lifecycle for the statements that finish a command at a deadline, on request or
-- after a crash.
use device_platform.Prelude.{
  ℕ, ◌≡◌, refl, Bool, true, false, String, Option, none, some, arith, inl, inr, Option-cases, ◌||◌,
  ◌==◌,
}
use device_platform.Prelude.Table.{find}
use device_platform.Domain.Types.{CommandStatus, command_status_eq}
use device_platform.Domain.Lifecycle.{can_transition_command}
use device_platform.Domain.Records.{Command}
use device_platform.Store.{Db, command_id, transact}
use device_platform.CommandRepo.Dispatch.{any}
use device_platform.CommandRepo.Evidence.{has_status}
use device_platform.CommandRepo.Expire.{
  set_finished, close_command, finish_queued, cancel_queued, expire_queued, set_timeout, is_overdue,
  expire_result_observation, set_transport_sent, recover_expired_dispatching,
}
use device_platform.CommandRepo.Status.{follows, follows_refl, follows-modify, steps_at}
use device_platform.CommandRepo.Status.Statements.{Follows, steps_at_same}

-- A queued command may be closed by any status that the table permits.
steps_at_finished :
    (now : ℕ) (status : CommandStatus) (reason : String) (detail : Option String)
    (o : Option Command) (c : Command)
    → o ≡ some c
    → c.status ≡ CommandStatus.queued
    → can_transition_command CommandStatus.queued status ≡ true
    → steps_at o any (set_finished now status reason detail) ≡ true
steps_at_finished now status reason detail o c e q h = ground arith

module _ (cid reason : String) (status : CommandStatus) (detail : Option String) where
  close_command-follows :
      (db : Db) (j : String) (c : Command)
      → find command_id cid db.commands ≡ some c
      → c.status ≡ CommandStatus.queued
      → can_transition_command CommandStatus.queued status ≡ true
      → follows
          (find command_id j db.commands)
          (find command_id j (transact (close_command cid status reason detail) db).1.commands)
        ≡ true
  unfolding close_command transact
  close_command-follows db j c e q h =
      follows-modify any (set_finished db.now status reason detail) (λ c. refl) cid j db.commands
        (steps_at_finished db.now status reason detail (find command_id cid db.commands) c e q h)

  finish_queued-Follows :
      (require : Bool)
      → can_transition_command CommandStatus.queued status ≡ true
      → Follows (finish_queued cid status reason detail require)
  unfolding finish_queued transact
  finish_queued-Follows require h db j = elim (Option-cases (find command_id cid db.commands)) [
    | inl missing ↦ ground (arith, follows_refl (find command_id j db.commands))
    | inr (c, e) ↦
        let f = set_finished db.now status reason detail in
        ground (
          arith,
          follows_refl (find command_id j db.commands),
          follows-modify any f (λ c. refl) cid j db.commands,
          steps_at_finished db.now status reason detail (find command_id cid db.commands) c e,
        )
  ]

pub cancel_queued-Follows :
    (cid : String) (detail : Option String) → Follows (cancel_queued cid detail)
unfolding cancel_queued can_transition_command
cancel_queued-Follows cid detail =
    finish_queued-Follows cid "cancelled_by_request" CommandStatus.cancelled detail false refl

pub expire_queued-Follows : (cid : String) → Follows (expire_queued cid)
unfolding expire_queued can_transition_command
expire_queued-Follows cid =
    finish_queued-Follows cid "dispatch_deadline_exceeded" CommandStatus.timeout none true refl

-- A command whose result was awaited may time out.
steps_at_timeout :
    (now : ℕ) (status : CommandStatus) (o : Option Command)
    → (status == CommandStatus.sent || status == CommandStatus.acked) ≡ true
    → steps_at o (is_overdue now status) (set_timeout now) ≡ true
unfolding can_transition_command
steps_at_timeout now status none h = refl
steps_at_timeout now status (some c) h = ground arith

pub expire_result_observation-Follows : (cid : String) → Follows (expire_result_observation cid)
unfolding expire_result_observation transact
expire_result_observation-Follows cid db j = elim (Option-cases (find command_id cid db.commands)) [
  | inl missing ↦ ground (arith, follows_refl (find command_id j db.commands))
  | inr (c, e) ↦ ground (
    arith,
    follows_refl (find command_id j db.commands),
    follows-modify (is_overdue db.now c.status) (set_timeout db.now) (λ c. refl) cid j db.commands,
    steps_at_timeout db.now c.status (find command_id cid db.commands),
  )
]

pub recover_expired-Follows :
    (cid aid token : String) → Follows (recover_expired_dispatching cid aid token)
unfolding recover_expired_dispatching transact
recover_expired-Follows cid aid token db j =
    let p = has_status CommandStatus.sent in
    ground (
      arith,
      follows_refl (find command_id j db.commands),
      follows-modify p (set_transport_sent db.now) (λ c. refl) cid j db.commands
          (steps_at_same p (set_transport_sent db.now) (λ c. refl)
            (find command_id cid db.commands)),
    )
