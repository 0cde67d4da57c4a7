-- ===== src/CommandRepo/Claim.antt =====
-- postgres_command_event.go: ClaimNext and ReclaimAttempt. The id of a new attempt is random in the
-- source and an argument here.
use Prim.Native.Nat.{min, max}
use device_platform.Prelude.{
  ℕ, ◌+◌, ◌/◌, Bool, ◌&&◌, ◌||◌, not, String, List, [], ◌∷◌, ◌++◌, Option, none, some, leb, ltb,
  if◌then◌else◌, ◌==◌, ◌!=◌, string_eq, is_empty,
}
use device_platform.Prelude.Json.{Json, empty_object}
use device_platform.Prelude.Table.{find, modify, affects, select, first_by}
use device_platform.Domain.Types.{
  CommandStatus, AttemptPhase, Adapter, ConfirmationLevel, EvidenceStatus, command_status_eq,
  attempt_phase_eq, adapter_eq,
}
use device_platform.Domain.Records.{Command, CommandAttempt}
use device_platform.Store.{
  Db, Tx, ok, err, command_id, attempt_id, provider_request_key_conflict, unique_violation, no_rows,
}
use device_platform.CommandRepo.Lock.{Locked, lock_command_attempt}
use device_platform.CommandRepo.Dispatch.{microsecond}
use device_platform.CommandRepo.Expire.{open_attempt}
use device_platform.CommandRepo.Next.{is_holding, not_exists}

pub record ClaimRequest : Type 0 where
  pub worker_id : String
  pub lease_token : String
  pub lease_duration : ℕ
  pub provider_code : String
  pub adapter : Adapter
  pub request_key : String
  pub request_summary : Json

abbrev is_claimable : (String → Bool) → ClaimRequest → Db → Command → Bool
is_claimable busy r db c =
    c.status == CommandStatus.queued
    && ltb db.now c.dispatch_deadline_at
    && c.provider_code == r.provider_code
    && c.adapter == r.adapter
    && not_exists (is_holding db.now c.id) db
    && not (busy c.id)

abbrev queue_rank : Command → ℕ
queue_rank c = c.queued_at

-- LEAST(now() + d, dispatch_deadline_at)
abbrev lease_end : ℕ → ℕ → Command → ℕ
lease_end now duration c = min (now + duration / microsecond) c.dispatch_deadline_at

abbrev set_lease : ℕ → String → String → CommandAttempt → CommandAttempt
set_lease expires owner token a = record a {
  lease_owner = owner;
  lease_token = token;
  lease_expires_at = expires;
}

abbrev is_lapsed : ℕ → String → CommandAttempt → Bool
is_lapsed now token a =
    a.lease_token == token && a.phase == AttemptPhase.claimed && leb a.lease_expires_at now

-- COALESCE(max(attempt_no), 0)
abbrev max_attempt_no : List CommandAttempt → ℕ
max_attempt_no [] = 0
max_attempt_no (a ∷ rows) = max a.attempt_no (max_attempt_no rows)

abbrev is_of : String → CommandAttempt → Bool
is_of cid a = a.command_id == cid

unfoldable new_attempt : String → ClaimRequest → Command → Db → CommandAttempt
new_attempt aid r c db = record {
  id = aid;
  command_id = c.id;
  attempt_no = max_attempt_no (select attempt_id (is_of c.id) db.attempts) + 1;
  phase = AttemptPhase.claimed;
  provider_code = r.provider_code;
  adapter = r.adapter;
  provider_request_key = r.request_key;
  outcome = none;
  confirmation_level = ConfirmationLevel.none;
  evidence_status = EvidenceStatus.none;
  request_summary = r.request_summary;
  response_summary = empty_object;
  reason_code = none;
  error_detail = none;
  lease_token = r.lease_token;
  lease_owner = r.worker_id;
  lease_expires_at = lease_end db.now r.lease_duration c;
  claimed_at = db.now;
  dispatching_at = none;
  completed_at = none;
}

abbrev has_request_key : ClaimRequest → CommandAttempt → Bool
has_request_key r a = a.provider_code == r.provider_code && a.provider_request_key == r.request_key

-- The INSERT, with the unique index of the request key and the primary key.
unfoldable insert_attempt : String → ClaimRequest → Command → Tx (Option (Command × CommandAttempt))
unfolding new_attempt
insert_attempt aid r c db =
    if not (is_empty (select attempt_id (has_request_key r) db.attempts))
    then err provider_request_key_conflict
    else elim (find attempt_id aid db.attempts) [
      | some a ↦ err unique_violation
      | none ↦
          ok (some (c, new_attempt aid r c db))
            (record db { attempts = db.attempts ++ new_attempt aid r c db ∷ [] })
    ]

-- The attempt that a worker which died left behind gets the new lease.
unfoldable take_over :
    ClaimRequest → Command → CommandAttempt → Tx (Option (Command × CommandAttempt))
take_over r c a db =
    if a.lease_token == r.lease_token
    then ok none db
    else (let expires = lease_end db.now r.lease_duration c in
        let lapsed = is_lapsed db.now a.lease_token in
        let rows =
          modify attempt_id a.id lapsed (set_lease expires r.worker_id r.lease_token) db.attempts in
        if affects attempt_id a.id lapsed db.attempts
        then elim (find attempt_id a.id rows) [
          | none ↦ err no_rows
          | some b ↦ ok (some (c, b)) (record db { attempts = rows })
        ]
        else ok none db)

unfoldable pub claim_next :
    (String → Bool) → String → ClaimRequest → Tx (Option (Command × CommandAttempt))
unfolding insert_attempt take_over open_attempt
claim_next busy aid r db =
    if ltb r.lease_duration microsecond
    then ok none db
    else elim (first_by command_id queue_rank
        (select command_id (is_claimable busy r db) db.commands)) [
          | none ↦ ok none db
          | some c ↦ elim (open_attempt c.id db) [
            | some a ↦ take_over r c a db
            | none ↦ insert_attempt aid r c db
          ]
        ]

pub record ReclaimRequest : Type 0 where
  pub worker_id : String
  pub lease_token : String
  pub lease_duration : ℕ

abbrev may_reclaim : Locked → String → Bool
may_reclaim locked expired = not (
    locked.command_status != CommandStatus.queued
    || not locked.dispatch_deadline_valid
    || locked.attempt_phase != AttemptPhase.claimed
    || locked.lease_token != expired
    || locked.lease_valid)

abbrev deadline_of : String → Db → ℕ → ℕ
deadline_of cid db fallback = elim (find command_id cid db.commands) [
  | none ↦ fallback
  | some c ↦ min fallback c.dispatch_deadline_at
]

unfoldable pub reclaim_attempt : String → String → ReclaimRequest → Tx (Option CommandAttempt)
reclaim_attempt aid expired r db =
    if ltb r.lease_duration microsecond || r.lease_token == expired
    then ok none db
    else elim (find attempt_id aid db.attempts) [
      | none ↦ ok none db
      | some a ↦ elim (lock_command_attempt a.command_id aid db) [
        | none ↦ ok none db
        | some locked ↦
            if may_reclaim locked expired
            then (let expires =
                  deadline_of a.command_id db (db.now + r.lease_duration / microsecond) in
                let lapsed = is_lapsed db.now expired in
                let rows =
                  modify attempt_id aid lapsed (set_lease expires r.worker_id r.lease_token)
                    db.attempts in
                if affects attempt_id aid lapsed db.attempts
                then elim (find attempt_id aid rows) [
                  | none ↦ err no_rows
                  | some b ↦ ok (some b) (record db { attempts = rows })
                ]
                else ok none db)
            else ok none db
      ]
    ]
