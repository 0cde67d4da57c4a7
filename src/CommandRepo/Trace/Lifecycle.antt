-- ===== src/CommandRepo/Trace/Lifecycle.antt =====
-- What any sequence of operations keeps of a command's status.
use device_platform.Prelude.{◌≡◌, refl, true, String, Option, none, some, arith, List, [], ◌∷◌, ◌∙◌}
use device_platform.Prelude.Table.{find}
use device_platform.Domain.Types.{command_status_eq}
use device_platform.Domain.Lifecycle.{can_transition_command, is_terminal}
use device_platform.Domain.Records.{Command}
use device_platform.Store.{Db, command_id}
use device_platform.CommandRepo.Status.{follows, follows_refl}
use device_platform.CommandRepo.Status.Statements.{
  mark_dispatching-Follows, complete_attempt-Follows, update_evidence-Follows,
  transition_from_attempt-Follows, verify_acceptance-Follows,
}
use device_platform.CommandRepo.Status.Deadlines.{
  cancel_queued-Follows, expire_queued-Follows, expire_result_observation-Follows,
  recover_expired-Follows,
}
use device_platform.CommandRepo.Status.Searches.{
  expire_next_queued-Follows, expire_next_result-Follows, recover_next-Follows, claim_next-Follows,
  reclaim_attempt-Follows,
}
use device_platform.CommandRepo.Status.Writes.{
  create_command-Follows, create_result-Follows, create_event-Follows, create_delivery-Follows,
  apply_result-Follows,
}
use device_platform.CommandRepo.Trace

-- Each operation of the repository leaves the status of every stored command as it is, or changes
-- it along domain.CanTransitionCommand; no command disappears.
pub perform-follows :
    (o : Trace.Operation) (db : Db) (j : String)
    → follows (find command_id j db.commands) (find command_id j (Trace.perform o db).commands)
      ≡ true
unfolding Trace.perform
perform-follows (Trace.Operation.create c) = create_command-Follows c
perform-follows (Trace.Operation.claim busy aid r) = claim_next-Follows busy aid r
perform-follows (Trace.Operation.reclaim aid expired r) = reclaim_attempt-Follows aid expired r
perform-follows (Trace.Operation.mark cid aid token r) = mark_dispatching-Follows cid aid token r
perform-follows (Trace.Operation.complete cid aid token r) =
    complete_attempt-Follows cid aid token r
perform-follows (Trace.Operation.update_evidence cid aid token s) =
    update_evidence-Follows cid aid token s
perform-follows (Trace.Operation.transition cid aid token t) =
    transition_from_attempt-Follows cid aid token t
perform-follows (Trace.Operation.verify cid r) = verify_acceptance-Follows cid r
perform-follows (Trace.Operation.cancel cid detail) = cancel_queued-Follows cid detail
perform-follows (Trace.Operation.expire cid) = expire_queued-Follows cid
perform-follows (Trace.Operation.expire_next busy) = expire_next_queued-Follows busy
perform-follows (Trace.Operation.expire_result cid) = expire_result_observation-Follows cid
perform-follows (Trace.Operation.expire_next_result busy) = expire_next_result-Follows busy
perform-follows (Trace.Operation.recover cid aid token) = recover_expired-Follows cid aid token
perform-follows (Trace.Operation.recover_next busy) = recover_next-Follows busy
perform-follows (Trace.Operation.record_result r) = create_result-Follows r
perform-follows (Trace.Operation.aggregate r) = apply_result-Follows r
perform-follows (Trace.Operation.record_event e) = create_event-Follows e
perform-follows (Trace.Operation.deliver id eid body) = create_delivery-Follows id eid body
perform-follows (Trace.Operation.elapse d) = λ db j. follows_refl (find command_id j db.commands)

terminal_stays :
    (c : Command) (o : Option Command)
    → is_terminal c.status ≡ true
    → follows (some c) o ≡ true
    → (d : Command) × (o ≡ some d) × (d.status ≡ c.status)
unfolding is_terminal can_transition_command
terminal_stays c none h f = cc
terminal_stays c (some d) h f = (d, refl, ground arith)

-- A command in a terminal status is never given another status, whatever operations follow.
pub terminal_is_final :
    (os : List Trace.Operation) (db : Db) (j : String) (c : Command)
    → find command_id j db.commands ≡ some c
    → is_terminal c.status ≡ true
    → (d : Command) × (find command_id j (Trace.perform_all os db).commands ≡ some d)
      × (d.status ≡ c.status)
unfolding Trace.perform_all
terminal_is_final [] db j c e h = (c, e, refl)
terminal_is_final (o ∷ os) db j c e h =
    let db' = Trace.perform o db in
    let (d, found, same) =
      terminal_stays c (find command_id j db'.commands) h (rw e at (perform-follows o db j)) in
    let (x, found', same') = terminal_is_final os db' j d found (rw same h) in
    (x, found', same' ∙ same)
