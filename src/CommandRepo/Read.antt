-- ===== src/CommandRepo/Read.antt =====
-- postgres_command_event.go: the queries GetByIdempotencyKey, List, ListAttempts and ListResults of
-- commands and ListByCommand of events.
use Prim.Native.String
use device_platform.Prelude.{
  ℕ, zero, suc, Bool, true, false, not, ◌&&◌, String, List, [], ◌∷◌, Option, none, some, leb, ltb,
  if◌then◌else◌, ◌==◌, string_eq, nat_eq, length,
}
use text.Mathlib.Text.{is_lt}
use device_platform.Prelude.Table.{find, select}
use device_platform.Domain.Types.{CommandStatus, command_status_eq}
use device_platform.Domain.Records.{Command, CommandAttempt, CommandResult, Event, Project}
use device_platform.Store.{
  Db, Tx, ok, err, command_id, attempt_id, result_id, event_id, project_id,
  invalid_repository_request,
}

abbrev pub has_key : String → String → Command → Bool
has_key pid key c = c.project_id == pid && c.idempotency_key == key

-- The first row of a result, or sql.ErrNoRows.
abbrev pub first_of {ℓ} : {R : Type ℓ} → List R → Option R
first_of [] = none
first_of (r ∷ rows) = some r

-- GetByIdempotencyKey; `none` is sql.ErrNoRows.
unfoldable pub get_by_idempotency_key : String → String → Db → Option Command
get_by_idempotency_key pid key db = first_of (select command_id (has_key pid key) db.commands)

-- ORDER BY: insertion by a test for "comes before".
unfoldable pub insert_by {ℓ} : {R : Type ℓ} → (R → R → Bool) → R → List R → List R
insert_by before r [] = r ∷ []
insert_by before r (s ∷ rows) =
    let later = insert_by before r rows in if before s r then s ∷ later else r ∷ s ∷ rows

unfoldable pub order_by {ℓ} : {R : Type ℓ} → (R → R → Bool) → List R → List R
unfolding insert_by
order_by before [] = []
order_by before (r ∷ rows) = insert_by before r (order_by before rows)

-- LIMIT and OFFSET
unfoldable pub limit {ℓ} : {R : Type ℓ} → ℕ → List R → List R
limit zero rows = []
limit (suc n) [] = []
limit (suc n) (r ∷ rows) = r ∷ limit n rows

unfoldable pub offset {ℓ} : {R : Type ℓ} → ℕ → List R → List R
offset zero rows = rows
offset (suc n) [] = []
offset (suc n) (r ∷ rows) = offset n rows

-- By an instant, then by the id as a text.
abbrev by_time {ℓ} : {R : Type ℓ} → (R → ℕ) → (R → String) → R → R → Bool
by_time time id r s =
    if time r == time s then is_lt (String.compare (id r) (id s)) else ltb (time r) (time s)

pub record ListCommandsRequest : Type 0 where
  pub project_id : Option String
  pub manager_user_id : Option String
  pub device_id : Option String
  pub command_type : Option String
  pub status : Option CommandStatus
  pub limit : ℕ
  pub offset : ℕ

-- `$n IS NULL OR column = $n`
abbrev unless_given : Option String → String → Bool
unless_given none value = true
unless_given (some wanted) value = value == wanted

abbrev is_managed_by : Option String → List Project → String → Bool
is_managed_by none projects pid = true
is_managed_by (some uid) projects pid = elim (find project_id pid projects) [
  | none ↦ false
  | some p ↦ p.manager_user_id == uid
]

abbrev has_status : Option CommandStatus → Command → Bool
has_status none c = true
has_status (some s) c = c.status == s

unfoldable pub is_listed : ListCommandsRequest → List Project → Command → Bool
is_listed r projects c =
    unless_given r.project_id c.project_id
    && is_managed_by r.manager_user_id projects c.project_id
    && unless_given r.device_id c.device_id
    && unless_given r.command_type c.command_type
    && has_status r.status c

-- ORDER BY created_at DESC, id DESC
abbrev pub newest_first : Command → Command → Bool
newest_first c d = by_time (λ x. x.created_at) command_id d c

abbrev pub matching : ListCommandsRequest → Db → List Command
matching r db = select command_id (is_listed r db.projects) db.commands

-- List: the page and the number of all rows that match.
unfoldable pub list_commands : ListCommandsRequest → Tx (List Command × ℕ)
unfolding is_listed
list_commands r db =
    if not (leb 1 r.limit && leb r.limit 100)
    then err invalid_repository_request
    else ok
        (
          limit r.limit (offset r.offset (order_by newest_first (matching r db))),
          length (matching r db),
        )
        db

abbrev is_attempt_of : String → CommandAttempt → Bool
is_attempt_of cid a = a.command_id == cid

unfoldable pub list_attempts : String → Db → List CommandAttempt
list_attempts cid db =
    order_by (λ a b. ltb a.attempt_no b.attempt_no)
      (select attempt_id (is_attempt_of cid) db.attempts)

abbrev is_result_of : String → CommandResult → Bool
is_result_of cid r = r.command_id == cid

unfoldable pub list_results : String → Db → List CommandResult
list_results cid db =
    order_by (by_time (λ x. x.observed_at) result_id)
      (select result_id (is_result_of cid) db.results)

abbrev is_event_of : String → Event → Bool
is_event_of cid e = elim e.command_id [ none ↦ false | some c ↦ c == cid ]

-- ListByCommand
unfoldable pub list_by_command : String → Db → List Event
list_by_command cid db =
    order_by (by_time (λ x. x.occurred_at) event_id) (select event_id (is_event_of cid) db.events)
