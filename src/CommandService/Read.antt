-- ===== src/CommandService/Read.antt =====
-- commandservice/service.go: Get and List.
pub mod Scoped
use device_platform.Prelude.{
  ℕ, ◌-◌, ◌*◌, Bool, true, false, ◌&&◌, ◌||◌, not, String, List, Option, none, some, if◌then◌else◌,
  ◌==◌, ◌!=◌, string_eq,
}
use device_platform.Prelude.Table.{find}
use device_platform.Domain.Records.{Command, CommandAttempt, CommandResult, Event, Project}
use device_platform.Store.{
  Db, Answer, done, failed, ok, err, command_id, project_id, invalid_request, command_not_found,
  project_not_found,
}
use device_platform.Access.{Scope, ScopeKind, is_project, manager_user_id, can_access_project}
use device_platform.CommandRepo.Read.{
  ListCommandsRequest, list_commands, list_attempts, list_results, list_by_command,
}
use device_platform.CommandService.Validation.{
  ListRequest, valid_scope, valid_uuid, validate_list_request,
}

pub record Detail : Type 0 where
  pub command : Command
  pub attempts : List CommandAttempt
  pub results : List CommandResult
  pub events : List Event

pub record ListResult : Type 0 where
  pub items : List Command
  pub page : ℕ
  pub page_size : ℕ
  pub total : ℕ

abbrev pub is_user : Scope → Bool
is_user scope = elim scope.kind [ ScopeKind.user ↦ true | _ ↦ false ]

-- A user reaches the project of this id.
abbrev pub reaches : Scope → String → Db → Bool
reaches scope pid db = elim (find project_id pid db.projects) [
  | none ↦ false
  | some p ↦ can_access_project scope p
]

abbrev detail_of : Command → String → Db → Detail
detail_of c cid db = record {
  command = c;
  attempts = list_attempts cid db;
  results = list_results cid db;
  events = list_by_command cid db;
}

-- Get of the command service.
unfoldable get_detail : Scope → String → Db → Answer Detail
unfolding can_access_project list_attempts list_results list_by_command
get_detail scope cid db =
    if not (valid_scope scope) || not (valid_uuid cid)
    then failed invalid_request
    else elim (find command_id cid db.commands) [
      | none ↦ failed command_not_found
      | some c ↦
          if (is_project scope && c.project_id != scope.project_id)
            || (is_user scope && not (reaches scope c.project_id db))
          then failed command_not_found
          else done (detail_of c cid db)
    ]

abbrev pub list_query : Scope → ListRequest → ListCommandsRequest
list_query scope r = record {
  project_id = r.project_id;
  manager_user_id = manager_user_id scope;
  device_id = r.device_id;
  command_type = r.command_type;
  status = r.status;
  limit = r.page_size;
  offset = (r.page - 1) * r.page_size;
}

-- Whether the project that a user filters by is one that the user does not reach.
abbrev pub hides : Scope → ListRequest → Db → Bool
hides scope r db =
    is_user scope && elim r.project_id [ none ↦ false | some pid ↦ not (reaches scope pid db) ]

abbrev pub page_of : Scope → ListRequest → Db → Answer ListResult
page_of scope r db = elim (list_commands (list_query scope r) db) [
  | err e ↦ failed e
  | ok (items, total) db' ↦
      done (record { items = items; page = r.page; page_size = r.page_size; total = total })
]

unfoldable pub list : Scope → ListRequest → Db → Answer ListResult
unfolding can_access_project list_commands validate_list_request
list scope request db =
    if not (valid_scope scope)
    then failed invalid_request
    else elim (validate_list_request scope request) [
      | none ↦ failed invalid_request
      | some r ↦ if hides scope r db then failed project_not_found else page_of scope r db
    ]
