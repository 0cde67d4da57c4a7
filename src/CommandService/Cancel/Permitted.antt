-- ===== src/CommandService/Cancel/Permitted.antt =====
-- What a Cancel that succeeds has done, and for whom.
use device_platform.Prelude.{
  ℕ, ◌≡◌, refl, true, ◌||◌, ◌&&◌, not, String, Option, none, some, arith, ◌!=◌, string_eq, ==_refl,
  Bool-cases, Option-cases, inl, inr,
}
use device_platform.Prelude.Table.{find, find-modify}
use device_platform.Domain.Types.{
  CommandStatus, ConfirmationLevel, EvidenceStatus, EventType, command_status_eq,
}
use device_platform.Domain.Records.{Command, Project}
use device_platform.Store.{
  Db, pure, bind-ok, Answer, Result-cases, done, ok, transact, project_id, command_id,
}
use device_platform.Access.{Scope, can_access_project, is_project}
use device_platform.CommandRepo.Lock.{get}
use device_platform.CommandRepo.Expire.{cancel_queued, finish_queued, close_command, set_finished}
use device_platform.CommandRepo.Dispatch.{any}
use device_platform.Worker.Events.{status_key}
use device_platform.CommandService.Validation.{
  RequestMetadata, valid_scope, valid_uuid, validate_metadata,
}
use device_platform.CommandService.Create.Journal.{Ids}
use device_platform.CommandService.Create.Replay.{service_event-keeps, service_audit-keeps}
use device_platform.CommandService.Cancel.{
  cancel, cancel_checked, cancel_found, tell_cancelled, cancelled_event, cancelled_audit,
  audit_cancelled, cancelled_payload, cancelled_fields, reread_cancelled,
}

module _ (cid : String) (db mid : Db) (current : Command)
    (found : find command_id cid db.commands ≡ some current) where
  cancelled_was_queued :
      cancel_queued cid none db ≡ ok true mid → current.status ≡ CommandStatus.queued
  unfolding cancel_queued finish_queued
  cancelled_was_queued h = ground arith

  abbrev cancelled_now : Command
  cancelled_now = set_finished db.now CommandStatus.cancelled "cancelled_by_request" none current

  cancelled_row :
      cancel_queued cid none db ≡ ok true mid
      → find command_id cid mid.commands ≡ some cancelled_now
  unfolding cancel_queued finish_queued close_command
  cancelled_row h = ground (
    arith,
    find-modify command_id any
        (set_finished db.now CommandStatus.cancelled "cancelled_by_request" none) (λ c. refl) cid
        cid db.commands,
    ==_refl cid,
  )

tell_cancelled-keeps :
    (ids : Ids) (m : RequestMetadata) (current c x : Command) (db db' : Db)
    → tell_cancelled ids m current c db ≡ ok x db'
    → (x ≡ c) × (db'.commands ≡ db.commands)
unfolding tell_cancelled
tell_cancelled-keeps ids m current c x db db' h =
    let (u, first, told, rest) =
      bind-ok (cancelled_event ids m current c) (λ _. audit_cancelled ids m c) x db db' h in
    let (v, second, audited, end) =
      bind-ok (cancelled_audit ids m c) (λ _. pure c) x first db' rest in
    ground (
      arith,
      service_event-keeps ids m c EventType.command_status_changed (cancelled_payload current c)
          (status_key c.id c.status) db first u told,
      service_audit-keeps ids m c "command.cancelled" (cancelled_fields c) first second v audited,
      end,
    )

-- A command that its owner has cancelled: it is finished, no confirmation and no evidence counts for
-- it, and what it asks for is as it was.
abbrev cancelled_by_request : ℕ → Command → Command
cancelled_by_request now c = record c {
  status = CommandStatus.cancelled;
  reason_code = some "cancelled_by_request";
  reason_detail = none;
  confirmation_level = ConfirmationLevel.none;
  evidence_status = EvidenceStatus.none;
  finished_at = some now;
  updated_at = now;
}

-- What Cancel found, and what it leaves of the command.
abbrev pub Cancelled : Scope → String → Db → Command → Db → Type 0
Cancelled scope cid db c db' =
    (current : Command) × (p : Project) × (find command_id cid db.commands ≡ some current)
    × (find project_id current.project_id db.projects ≡ some p)
    × (can_access_project scope p ≡ true)
    × (current.status ≡ CommandStatus.queued)
    × (c ≡ cancelled_by_request db.now current)
    × (find command_id cid db'.commands ≡ some c)

module _ (ids : Ids) (m : RequestMetadata) (cid : String) (current c : Command) (db db' : Db) where
  cancel_found_lem :
      find command_id cid db.commands ≡ some current
      → cancel_found ids m cid current db ≡ ok c db'
      → (current.status ≡ CommandStatus.queued)
        × (c ≡ set_finished db.now CommandStatus.cancelled "cancelled_by_request" none current)
        × (find command_id cid db'.commands ≡ some c)
  unfolding cancel_found get
  cancel_found_lem found h =
      let (b, mid, closed, rest) =
        bind-ok (cancel_queued cid none) (reread_cancelled ids m cid current) c db db' h in
      let closed_true : cancel_queued cid none db ≡ ok true mid = ground (arith, closed, rest) in
      let row = cancelled_row cid db mid current found closed_true in
      let told : tell_cancelled ids m current (cancelled_now cid db mid current found) mid
          ≡ ok c db' =
        ground (arith, rest, row, closed, closed_true) in
      let (same, kept) =
        tell_cancelled-keeps ids m current (cancelled_now cid db mid current found) c mid db'
          told in
      (
        cancelled_was_queued cid db mid current found closed_true,
        same,
        ground (arith, kept, row, same),
      )

module _ (scope : Scope) (ids : Ids) (m : RequestMetadata) (cid : String) (c : Command)
    (db db' : Db) where
  permitted_of :
      (current : Command) (p : Project)
      → find command_id cid db.commands ≡ some current
      → find project_id current.project_id db.projects ≡ some p
      → can_access_project scope p ≡ true
      → cancel_found ids m cid current db ≡ ok c db'
      → Cancelled scope cid db c db'
  permitted_of current p found project may ran =
      let done_by = cancel_found_lem ids m cid current c db db' found ran in
      (current, p, found, project, may, done_by.0, done_by.1, done_by.2)

  cancel_checked-permitted :
      cancel_checked scope ids m cid db ≡ ok c db' → Cancelled scope cid db c db'
  unfolding cancel_checked
  cancel_checked-permitted h = elim (Option-cases (find command_id cid db.commands)) [
    | inl missing ↦ absurd (cc (rw (missing, cancel_checked) at h))
    | inr (current, found) ↦
        elim (Bool-cases (is_project scope && current.project_id != scope.project_id)) [
          | inl foreign ↦ absurd (cc (rw (found, foreign, cancel_checked) at h))
          | inr near ↦ elim (Option-cases (find project_id current.project_id db.projects)) [
            | inl lost ↦ absurd (cc (rw (found, near, lost, cancel_checked) at h))
            | inr (p, project) ↦ elim (Bool-cases (can_access_project scope p)) [
              | inr hidden ↦ absurd (cc (rw (found, near, project, hidden, cancel_checked) at h))
              | inl may ↦
                  permitted_of current p found project may
                    (rw (found, near, project, may, cancel_checked) at h)
            ]
          ]
        ]
  ]

-- A Cancel that succeeds was asked for by a scope that reaches the command's project, found the command
-- queued, and leaves a stored row that it answers: the status is cancelled, by the request and at the
-- time of the transaction, without confirmation or evidence; every other column is as it was.
pub cancel_is_permitted :
    (parse_addr : String → Option String) (scope : Scope) (cid : String)
    (metadata : RequestMetadata) (ids : Ids) (c : Command) (db db' : Db)
    → cancel parse_addr scope cid metadata ids db ≡ (done c, db')
    → Cancelled scope cid db c db'
unfolding cancel transact
cancel_is_permitted parse_addr scope cid metadata ids c db db' h =
    elim (Bool-cases (not (valid_scope scope) || not (valid_uuid cid))) [
      | inl invalid ↦ absurd (cc (rw (invalid, cancel) at h))
      | inr fine ↦ elim (Option-cases (validate_metadata parse_addr scope metadata)) [
        | inl refused ↦ absurd (cc (rw (fine, refused, cancel) at h))
        | inr (m, checked) ↦ elim (Result-cases (cancel_checked scope ids m cid db)) [
          | inr (e, failure) ↦ absurd (cc (rw (fine, checked, failure, cancel, transact) at h))
          | inl (x, db'', ran) ↦
              let same : ◌≡◌ {A = Answer Command × Db} (done x, db'') (done c, db') =
                rw (fine, checked, ran, cancel, transact) at h in
              cancel_checked-permitted scope ids m cid c db db' (ground (arith, ran, same))
        ]
      ]
    ]
