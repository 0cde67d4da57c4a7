-- ===== src/Worker/Gate.antt =====
-- commandworker/worker.go: the conditions under which dispatchClaimed calls an adapter.
use Prim.Native.Nat.{max}
use device_platform.Prelude.{
  ℕ, ◌+◌, ◌≡◌, ◌<◌, ==_iff, Bool, true, false, String, Option, none, some, arith, ◌==◌, string_eq,
  inl, inr, Option-cases, if◌then◌else◌,
}
use device_platform.Prelude.Json.{Json, empty_object}
use device_platform.Prelude.Table.{find}
use device_platform.Domain.Types.{
  CommandStatus, AttemptPhase, command_status_eq, attempt_phase_eq, DeliveryPolicy,
  ConnectionStatus, EventSource, delivery_policy_eq, connection_status_eq, adapter_eq,
}
use device_platform.Domain.Records.{Command, CommandAttempt, Device}
use device_platform.Store.{Db, transact, device_id, command_id, attempt_id}
use device_platform.CommandRepo.Lock.{lock_command_attempt}
use device_platform.CommandRepo.Dispatch.{MarkDispatchingRequest, mark_dispatching}
use device_platform.Worker.Events.{Fresh}
use device_platform.Worker.Transitions.{AdapterRegistration, Prepared}
use device_platform.Worker.Agreement.{answers_true}
use device_platform.Worker.Handlers.{
  DispatchIds, dispatch_claimed, commit_dispatch, send_queued, get_device, request_of, five_seconds,
}

-- The stored command is queued before its dispatch deadline, and the stored attempt is a claimed one of
-- this command, under the token and with a lease that has not expired.
pub record MayDispatch (cid aid token : String) (db : Db) : Type 0 where
  pub command : Command
  pub attempt : CommandAttempt
  pub command_found : find command_id cid db.commands ≡ some command
  pub attempt_found : find attempt_id aid db.attempts ≡ some attempt
  pub of_command : attempt.command_id ≡ cid
  pub queued : command.status ≡ CommandStatus.queued
  pub before_deadline : db.now < command.dispatch_deadline_at
  pub claimed : attempt.phase ≡ AttemptPhase.claimed
  pub token_held : attempt.lease_token ≡ token
  pub lease_runs : db.now < attempt.lease_expires_at

mark-MayDispatch :
    (cid aid token : String) (r : MarkDispatchingRequest) (db : Db)
    → answers_true (mark_dispatching cid aid token r db) ≡ true
    → MayDispatch cid aid token db
unfolding mark_dispatching lock_command_attempt
mark-MayDispatch cid aid token r db h = elim (Option-cases (find command_id cid db.commands)) [
  | inl e ↦ absurd (ground (arith, e, h))
  | inr (c, ec) ↦ elim (Option-cases (find attempt_id aid db.attempts)) [
    | inl e ↦ absurd (ground (arith, ec, e, h))
    | inr (a, ea) ↦ record {
      command = c;
      attempt = a;
      command_found = ec;
      attempt_found = ea;
      of_command = ground (arith, ==_iff a.command_id cid);
      queued = ground arith;
      before_deadline = ground arith;
      claimed = ground arith;
      token_held = ground (arith, ==_iff a.lease_token token);
      lease_runs = ground arith;
    }
  ]
]

abbrev is_online : Option Device → Bool
is_online none = false
is_online (some d) = d.connection_status == ConnectionStatus.online

-- An online_only command has a device that is online; other commands need none.
abbrev pub online_if_required : Command → Db → Bool
online_if_required c db =
    if c.delivery_policy == DeliveryPolicy.online_only
    then is_online (find device_id c.device_id db.devices)
    else true

module _ (fresh : Fresh) (c : Command) (a : CommandAttempt) (source : EventSource) (lease : ℕ)
    (summary : Json) (db : Db) where
  send_queued-MayDispatch :
      answers_true (send_queued fresh c a source lease summary db) ≡ true
      → MayDispatch c.id a.id a.lease_token db
  unfolding send_queued
  send_queued-MayDispatch h =
      mark-MayDispatch c.id a.id a.lease_token
        (record {
          result_observation_timeout = c.result_timeout;
          dispatch_lease_duration = lease;
          request_summary = summary;
        })
        db (ground arith)

  commit_dispatch-gate :
      answers_true (commit_dispatch fresh c a source lease summary db) ≡ true
      → (answers_true (send_queued fresh c a source lease summary db) ≡ true)
        × (online_if_required c db ≡ true)
  unfolding commit_dispatch get_device
  commit_dispatch-gate h = (ground arith, ground arith)

-- A prepared dispatch, or something else.
abbrev is_prepared : Prepared → Bool
is_prepared (Prepared.prepared summary result) = true
is_prepared _ = false

abbrev summary_of : Prepared → Json
summary_of (Prepared.prepared summary result) = summary
summary_of _ = empty_object

module _ (lease_duration : ℕ) (ids : DispatchIds) (meanwhile : Db → Db) (reg : AdapterRegistration)
    (c : Command) (a : CommandAttempt) (db : Db)
    (called : (dispatch_claimed lease_duration ids meanwhile reg c a db).called ≡ true) where
  committed_first :
      answers_true (
        commit_dispatch ids.first c a reg.result_source
          (max lease_duration (c.provider_timeout + five_seconds))
          (summary_of (reg.adapter.prepare (request_of c a)))
          db)
      ≡ true
  unfolding dispatch_claimed transact
  committed_first = ground arith

  guards_held : (c.retry_allowed ≡ false) × (reg.adapter.configured ≡ true)
  unfolding dispatch_claimed transact
  guards_held = (ground arith, ground arith)

  -- The worker calls the Dispatch of an adapter only if the command was queued before its dispatch
  -- deadline, its claimed attempt carried the worker's token under a lease that still ran, the
  -- device of an online_only command was online, retries were off and the adapter was configured.
  pub dispatch_is_granted :
      MayDispatch c.id a.id a.lease_token db
      × (online_if_required c db ≡ true)
      × (c.retry_allowed ≡ false)
      × (reg.adapter.configured ≡ true)
  dispatch_is_granted =
      let lease = max lease_duration (c.provider_timeout + five_seconds) in
      let summary = summary_of (reg.adapter.prepare (request_of c a)) in
      let gate =
        commit_dispatch-gate ids.first c a reg.result_source lease summary db committed_first in
      (
        send_queued-MayDispatch ids.first c a reg.result_source lease summary db gate.0,
        gate.1,
        guards_held.0,
        guards_held.1,
      )
