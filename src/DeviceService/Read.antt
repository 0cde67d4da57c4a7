-- ===== src/DeviceService/Read.antt =====
-- deviceservice/service.go: Get, up to the row that its answer is made from.
use device_platform.Prelude.{
  ◌≡◌, Bool, true, false, ◌||◌, ◌&&◌, not, String, none, some, if◌then◌else◌, ◌!=◌, string_eq,
  arith, Bool-cases, Option-cases, inl, inr, ==_iff,
}
use device_platform.Prelude.Table.{find}
use device_platform.Domain.Records.{Device, Project}
use device_platform.Store.{
  Db, Answer, done, failed, device_id, project_id, invalid_request, device_not_found,
}
use device_platform.Access.{Scope, is_project, can_access_project}
use device_platform.CommandService.Validation.{valid_scope, valid_uuid}
use device_platform.CommandService.Read.{is_user, reaches}

-- Whether GetByProject, or the project that is read after Get, hides the device from the scope.
abbrev hides_device : Scope → Device → Db → Bool
hides_device scope d db =
    (is_project scope && d.project_id != scope.project_id)
    || (is_user scope && not (reaches scope d.project_id db))

unfoldable pub get_scoped : Scope → String → Db → Answer Device
unfolding valid_scope valid_uuid
get_scoped scope did db =
    if not (valid_scope scope) || not (valid_uuid did)
    then failed invalid_request
    else elim (find device_id did db.devices) [
      | none ↦ failed device_not_found
      | some d ↦ if hides_device scope d db then failed device_not_found else done d
    ]

-- The scope reaches the device: its own project, or one that the user manages.
abbrev pub Reached : Scope → Device → Db → Type 0
Reached scope d db =
    (is_project scope ≡ true → d.project_id ≡ scope.project_id)
    × (is_user scope ≡ true
        → (p : Project) × (find project_id d.project_id db.projects ≡ some p)
          × (p.manager_user_id ≡ scope.user_id))

reaches_managed :
    (scope : Scope) (pid : String) (db : Db)
    → is_user scope ≡ true
    → reaches scope pid db ≡ true
    → (p : Project) × (find project_id pid db.projects ≡ some p)
      × (p.manager_user_id ≡ scope.user_id)
unfolding can_access_project
reaches_managed scope pid db user may = elim (Option-cases (find project_id pid db.projects)) [
  | inl lost ↦ absurd (cc (rw (lost, reaches) at may))
  | inr (p, row) ↦ (
    p,
    row,
    ground (arith, ==_iff p.manager_user_id scope.user_id, user, (rw (row, reaches) at may)),
  )
]

not_hidden :
    (scope : Scope) (d : Device) (db : Db) → hides_device scope d db ≡ false → Reached scope d db
not_hidden scope d db shown = (
  λ own. ground (arith, ==_iff d.project_id scope.project_id, own, shown),
  λ user. reaches_managed scope d.project_id db user (ground (arith, user, shown)),
)

-- A Get that answers a device answers the stored row, to a scope that reaches it: a project sees the
-- devices of its own, a user those of a stored project that the user manages.
pub get_scoped-Reached :
    (scope : Scope) (did : String) (d : Device) (db : Db)
    → get_scoped scope did db ≡ done d
    → (find device_id did db.devices ≡ some d) × Reached scope d db
unfolding get_scoped
get_scoped-Reached scope did d db h =
    elim (Bool-cases (not (valid_scope scope) || not (valid_uuid did))) [
      | inl bad ↦ absurd (cc (rw (bad, get_scoped) at h))
      | inr fine ↦ elim (Option-cases (find device_id did db.devices)) [
        | inl lost ↦ absurd (cc (rw (fine, lost, get_scoped) at h))
        | inr (x, row) ↦ elim (Bool-cases (hides_device scope x db)) [
          | inl hidden ↦ absurd (cc (rw (fine, row, hidden, get_scoped) at h))
          | inr shown ↦
              let same : ◌≡◌ {A = Answer Device} (done x) (done d) =
                rw (fine, row, shown, get_scoped) at h in
              (ground (arith, row, same), not_hidden scope d db (ground (arith, shown, same)))
        ]
      ]
    ]
