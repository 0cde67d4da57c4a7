-- ===== src/CommandRepo/Next.antt =====
-- postgres_command_event.go: RecoverNextExpiredDispatching, ExpireNextQueued and
-- ExpireNextResultObservation, which find a row and hand its id to the function of that row.
use device_platform.Prelude.{
  ℕ, Bool, false, ◌&&◌, ◌||◌, not, String, Option, none, some, leb, ltb, if◌then◌else◌, ◌==◌, ◌!=◌,
  string_eq, is_empty,
}
use device_platform.Prelude.Table.{find, select, first_by}
use device_platform.Domain.Types.{CommandStatus, AttemptPhase, command_status_eq, attempt_phase_eq}
use device_platform.Domain.Records.{Command, CommandAttempt}
use device_platform.Store.{Db, Tx, ok, command_id, attempt_id, ◌>>=◌, pure}
use device_platform.CommandRepo.Lock.{get, get_attempt}
use device_platform.CommandRepo.Expire.{
  is_past, recover_expired_dispatching, expire_queued, expire_result_observation,
}

-- The attempt that keeps a queued command from being claimed or expired: it is incomplete, and it
-- is past its claim or its lease still runs.
abbrev pub is_holding : ℕ → String → CommandAttempt → Bool
is_holding now cid a =
    a.command_id == cid
    && a.phase != AttemptPhase.completed
    && (a.phase != AttemptPhase.claimed || ltb now a.lease_expires_at)

-- NOT EXISTS (SELECT 1 FROM device_command_attempts a WHERE p)
abbrev pub not_exists : (CommandAttempt → Bool) → Db → Bool
not_exists p db = is_empty (select attempt_id p db.attempts)

abbrev pub dispatch_rank : Command → ℕ
dispatch_rank c = c.dispatch_deadline_at

abbrev pub is_expirable : (String → Bool) → Db → Command → Bool
is_expirable busy db c =
    c.status == CommandStatus.queued
    && leb c.dispatch_deadline_at db.now
    && not_exists (is_holding db.now c.id) db
    && not (busy c.id)

unfoldable pub expire_next_queued : (String → Bool) → Tx (Option Command)
expire_next_queued busy db =
    elim (first_by command_id dispatch_rank
      (select command_id (is_expirable busy db) db.commands)) [
        | none ↦ ok none db
        | some c ↦
            (do
              updated ← expire_queued c.id
              if updated then get c.id >>= (λ d. pure (some d)) else pure none)
              db
      ]

abbrev is_unfinished_of : String → CommandAttempt → Bool
is_unfinished_of cid a = a.command_id == cid && a.phase != AttemptPhase.completed

abbrev pub is_observed_too_long : (String → Bool) → Db → Command → Bool
is_observed_too_long busy db c =
    (c.status == CommandStatus.sent || c.status == CommandStatus.acked)
    && is_past db.now c.result_deadline_at
    && not_exists (is_unfinished_of c.id) db
    && not (busy c.id)

abbrev pub result_rank : Command → ℕ
result_rank c = elim c.result_deadline_at [ none ↦ 0 | some t ↦ t ]

-- The command after the expiry and its status before.
unfoldable pub expire_next_result_observation :
    (String → Bool) → Tx (Option (Command × CommandStatus))
expire_next_result_observation busy db =
    elim (first_by command_id result_rank
      (select command_id (is_observed_too_long busy db) db.commands)) [
        | none ↦ ok none db
        | some c ↦
            (do
              updated ← expire_result_observation c.id
              if updated then get c.id >>= (λ d. pure (some (d, c.status))) else pure none)
              db
      ]

-- The join with the command of an attempt, on its status.
abbrev is_sent_command : String → Db → Bool
is_sent_command cid db = elim (find command_id cid db.commands) [
  | none ↦ false
  | some c ↦ c.status == CommandStatus.sent
]

abbrev pub is_recoverable : (String → Bool) → Db → CommandAttempt → Bool
is_recoverable busy db a =
    is_sent_command a.command_id db
    && a.phase == AttemptPhase.dispatching
    && leb a.lease_expires_at db.now
    && not (busy a.command_id)
    && not (busy a.id)

abbrev pub lease_rank : CommandAttempt → ℕ
lease_rank a = a.lease_expires_at

unfoldable pub recover_next_expired_dispatching :
    (String → Bool) → Tx (Option (Command × CommandAttempt))
recover_next_expired_dispatching busy db =
    elim (first_by attempt_id lease_rank (select attempt_id (is_recoverable busy db) db.attempts)) [
      | none ↦ ok none db
      | some a ↦
          (do
            updated ← recover_expired_dispatching a.command_id a.id a.lease_token
            if updated
                then get a.command_id >>= (λ c. get_attempt a.id >>= (λ b. pure (some (c, b))))
                else pure none)
            db
    ]
