-- ===== src/Access.antt =====
-- backend/internal/access/scope.go: who a request comes from, and the projects that it may reach.
use device_platform.Prelude.{
  Bool, true, false, ◌&&◌, String, Option, none, some, ◌==◌, ◌!=◌, string_eq,
}
use device_platform.Prelude.Text.{trim_space}
use device_platform.Domain.Records.{Project}

-- ScopeKind; `other` stands for a text that is none of the constants.
pub data ScopeKind : Type 0 where
  super_admin user project other : ScopeKind

pub record Scope : Type 0 where
  pub kind : ScopeKind
  pub user_id : String
  pub project_id : String

unfoldable super_admin_scope : String → Scope
super_admin_scope uid = record { kind = super_admin; user_id = trim_space uid; project_id = "" }

unfoldable user_scope : String → Scope
user_scope uid = record { kind = user; user_id = trim_space uid; project_id = "" }

unfoldable project_scope : String → Scope
project_scope pid = record { kind = project; user_id = ""; project_id = trim_space pid }

-- Validate: whether it returns no error.
unfoldable pub validate : Scope → Bool
unfolding trim_space
validate scope = elim scope.kind [
  | super_admin ↦ trim_space scope.user_id != "" && trim_space scope.project_id == ""
  | user ↦ trim_space scope.user_id != "" && trim_space scope.project_id == ""
  | project ↦ trim_space scope.user_id == "" && trim_space scope.project_id != ""
  | other ↦ false
]

abbrev pub is_project : Scope → Bool
is_project scope = elim scope.kind [ project ↦ true | _ ↦ false ]

abbrev pub is_human : Scope → Bool
is_human scope = elim scope.kind [ super_admin ↦ true | user ↦ true | _ ↦ false ]

abbrev pub manager_user_id : Scope → Option String
manager_user_id scope = elim scope.kind [ user ↦ some scope.user_id | _ ↦ none ]

unfoldable pub can_access_project : Scope → Project → Bool
can_access_project scope p = elim scope.kind [
  | super_admin ↦ true
  | user ↦ p.manager_user_id == scope.user_id
  | project ↦ p.id == scope.project_id
  | other ↦ false
]
