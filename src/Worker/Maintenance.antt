-- ===== src/Worker/Maintenance.antt =====
-- commandworker/worker.go: RecoverNext, ExpireNextQueued, ExpireNextResultObservation and the order in
-- which Run tries them.
pub mod Told
use device_platform.Prelude.Text.{◌<>◌}
use device_platform.Prelude.{
  ℕ, ◌≡◌, refl, ap, sym, ◌∙◌, Bool, true, false, String, Option, none, some, arith, List, [], ◌∷◌,
  ◌++◌, if◌then◌else◌, ◌==◌,
}
use device_platform.Domain.Types.{AttemptOutcome, CommandStatus, EventSource, command_status_eq}
use device_platform.Domain.Records.{Command, CommandAttempt, Event}
use device_platform.Store.{Db, Tx, Answer, done, ok, err, ◌>>=◌, ◌>>◌, pure, transact}
use device_platform.CommandRepo.Next.{
  recover_next_expired_dispatching, expire_next_queued, expire_next_result_observation,
}
use device_platform.Worker.Events.{Fresh, status_key, create_evidence_event, create_status_event}

-- The key of the event that tells of a dispatch whose answer never came.
abbrev pub recovered_key : String → String → String
recovered_key cid aid =
    "command.evidence_updated:" <> cid <> ":attempt:" <> aid
    <> ":indeterminate:transport_sent:unverified"

abbrev pub tell_recovered : Fresh → Option (Command × CommandAttempt) → Tx Bool
tell_recovered fresh none = pure false
tell_recovered fresh (some (c, a)) =
    create_evidence_event fresh c a.id AttemptOutcome.indeterminate EventSource.system
      (recovered_key c.id a.id)
    >> pure true

abbrev pub tell_expired : Fresh → Option Command → Tx Bool
tell_expired fresh none = pure false
tell_expired fresh (some c) =
    create_status_event fresh c CommandStatus.queued EventSource.system (status_key c.id c.status)
    >> pure true

abbrev pub tell_timeout : Fresh → Option (Command × CommandStatus) → Tx Bool
tell_timeout fresh none = pure false
tell_timeout fresh (some (c, previous)) =
    create_status_event fresh c previous EventSource.system (status_key c.id c.status) >> pure true

unfoldable pub recover_next : (String → Bool) → Fresh → Db → Answer Bool × Db
unfolding recover_next_expired_dispatching create_evidence_event transact
recover_next busy fresh = transact (recover_next_expired_dispatching busy >>= tell_recovered fresh)

unfoldable pub expire_next : (String → Bool) → Fresh → Db → Answer Bool × Db
unfolding expire_next_queued create_status_event transact
expire_next busy fresh = transact (expire_next_queued busy >>= tell_expired fresh)

unfoldable pub observe_next : (String → Bool) → Fresh → Db → Answer Bool × Db
unfolding expire_next_result_observation create_status_event transact
observe_next busy fresh = transact (expire_next_result_observation busy >>= tell_timeout fresh)

-- A handler that neither did anything nor failed lets the next one try.
abbrev pub or_else : Answer Bool × Db → (Db → Answer Bool × Db) → Answer Bool × Db
or_else (done false, db) next = next db
or_else answer next = answer

-- The second poll of Run.
unfoldable pub maintain : (String → Bool) → Fresh → Db → Answer Bool × Db
unfolding recover_next expire_next observe_next
maintain busy fresh db =
    or_else (or_else (recover_next busy fresh db) (expire_next busy fresh))
      (observe_next busy fresh)
