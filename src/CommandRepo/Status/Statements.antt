-- ===== src/CommandRepo/Status/Statements.antt =====
-- Lemmas on the lifecycle for the statements of the repository that name their command.
use device_platform.Prelude.{
  ℕ, ◌≡◌, refl, inl, inr, Option-cases, Bool-cases, Bool, true, String, Option, none, some, arith,
  string_eq, ==_iff,
}
use device_platform.Prelude.Table.{find}
use device_platform.Domain.Types.{command_status_eq, CommandStatus}
use device_platform.Domain.Lifecycle.{can_transition_command}
use device_platform.Domain.Records.{Command}
use device_platform.Store.{Db, Tx, command_id, transact}
use device_platform.CommandRepo.Lock.{Locked, lock_command_attempt}
use device_platform.CommandRepo.Dispatch.{
  any, MarkDispatchingRequest, set_sent, mark_dispatching, CompleteAttemptRequest, complete_attempt,
}
use device_platform.CommandRepo.Evidence.{
  has_status, may_transition, set_evidence, update_evidence_from_attempt, Transition,
  set_transition, transition_from_attempt, VerifiedEvidenceUpdateRequest, set_accepted,
  update_provider_acceptance_from_verified_message,
}
use device_platform.CommandRepo.Status.{
  follows, follows_refl, follows-modify, steps_at, status_step_refl,
}

-- A transaction body that moves every command along its lifecycle, whether it commits or not.
abbrev pub Follows {ℓ} : {A : Type ℓ} → Tx A → Type 0
Follows m =
    (db : Db) (j : String)
    → follows (find command_id j db.commands) (find command_id j (transact m db).1.commands) ≡ true

pub mark_dispatching-Follows :
    (cid aid token : String) (r : MarkDispatchingRequest)
    → Follows (mark_dispatching cid aid token r)
unfolding mark_dispatching lock_command_attempt transact can_transition_command
mark_dispatching-Follows cid aid token r db j = ground (
  arith,
  follows_refl (find command_id j db.commands),
  follows-modify any (set_sent db.now r) (λ c. refl) cid j db.commands,
)

pub complete_attempt-Follows :
    (cid aid token : String) (r : CompleteAttemptRequest)
    → Follows (complete_attempt cid aid token r)
unfolding complete_attempt transact
complete_attempt-Follows cid aid token r db j =
    ground (arith, follows_refl (find command_id j db.commands))

-- An update that leaves the status alone.
pub steps_at_same :
    (p : Command → Bool) (f : Command → Command)
    → ((c : Command) → (f c).status ≡ c.status)
    → (o : Option Command) → steps_at o p f ≡ true
steps_at_same p f same none = refl
steps_at_same p f same (some c) = ground (arith, status_step_refl c.status, same c)

pub update_evidence-Follows :
    (cid aid token : String) (expected : CommandStatus)
    → Follows (update_evidence_from_attempt cid aid token expected)
unfolding update_evidence_from_attempt transact
update_evidence-Follows cid aid token expected db j =
    elim (Option-cases (lock_command_attempt cid aid db)) [
      | inl missing ↦ ground (arith, follows_refl (find command_id j db.commands))
      | inr (l, e) ↦
          let f = set_evidence db.now l.attempt_confirmation l.attempt_evidence in
          ground (
            arith,
            follows_refl (find command_id j db.commands),
            follows-modify (has_status expected) f (λ c. refl) cid j db.commands
                (steps_at_same (has_status expected) f (λ c. refl)
                  (find command_id cid db.commands)),
          )
    ]

-- An update under the status that a permitted transition leaves.
steps_at_transition :
    (now : ℕ) (t : Transition) (o : Option Command)
    → can_transition_command t.from t.to ≡ true
    → steps_at o (has_status t.from) (set_transition now t) ≡ true
steps_at_transition now t none h = refl
steps_at_transition now t (some c) h = ground (arith, ==_iff c.status t.from)

-- The test of the status table, among those that TransitionFromAttempt makes.
granted-permitted :
    (l : Locked) (token : String) (t : Transition)
    → may_transition l token t ≡ true
    → can_transition_command t.from t.to ≡ true
granted-permitted l token t h = ground arith

pub transition_from_attempt-Follows :
    (cid aid token : String) (t : Transition) → Follows (transition_from_attempt cid aid token t)
unfolding transition_from_attempt transact
transition_from_attempt-Follows cid aid token t db j =
    elim (Option-cases (lock_command_attempt cid aid db)) [
      | inl missing ↦ ground (arith, follows_refl (find command_id j db.commands))
      | inr (l, e) ↦ elim (Bool-cases (may_transition l token t)) [
        | inr refused ↦
            rw (e, transition_from_attempt, transact)
              (rw refused (follows_refl (find command_id j db.commands)))
        | inl granted ↦
            rw (e, transition_from_attempt, transact)
              (rw granted (
                follows-modify (has_status t.from) (set_transition db.now t) (λ c. refl) cid j
                  db.commands
                  (steps_at_transition db.now t (find command_id cid db.commands)
                    (granted-permitted l token t granted))))
      ]
    ]

pub verify_acceptance-Follows :
    (cid : String) (r : VerifiedEvidenceUpdateRequest)
    → Follows (update_provider_acceptance_from_verified_message cid r)
unfolding update_provider_acceptance_from_verified_message transact
verify_acceptance-Follows cid r db j =
    let p = has_status r.expected_status in
    ground (
      arith,
      follows_refl (find command_id j db.commands),
      follows-modify p (set_accepted db.now) (λ c. refl) cid j db.commands
          (steps_at_same p (set_accepted db.now) (λ c. refl) (find command_id cid db.commands)),
    )
