-- ===== src/CommandService/Read/Scoped.antt =====
-- What Get and List show, and to whom.
use device_platform.Prelude.{
  ℕ, zero, suc, ◌≡◌, ◌≤◌, refl, Bool, true, false, String, List, [], ◌∷◌, none, some, arith, ◌==◌,
  string_eq, Bool-cases, Option-cases, inl, inr, length, ◌≢◌,
}
use device_platform.Prelude.Table.{find, select}
use device_platform.Prelude.Bytes.{all}
use device_platform.Domain.Records.{Command}
use device_platform.Store.{Db, done, project_id, command_id}
use device_platform.Access.{Scope, ScopeKind, is_project, validate}
use device_platform.CommandRepo.Read.{
  list_commands, is_listed, matching, insert_by, order_by, limit, offset, newest_first,
}
use device_platform.CommandService.Validation.{ListRequest, valid_scope, validate_list_request}
use device_platform.CommandService.Read.{ListResult, list, list_query, hides, page_of}

module _ {ℓ} {R : Type ℓ} (test : R → Bool) where
  all-insert_by :
      (before : R → R → Bool) (r : R) (rows : List R)
      → test r ≡ true
      → all test rows ≡ true
      → all test (insert_by before r rows) ≡ true
  unfolding all insert_by
  all-insert_by before r [] h k = ground arith
  all-insert_by before r (s ∷ rows) h k = ground (arith, all-insert_by before r rows)

  all-order_by :
      (before : R → R → Bool) (rows : List R)
      → all test rows ≡ true
      → all test (order_by before rows) ≡ true
  unfolding all order_by
  all-order_by before [] k = refl
  all-order_by before (r ∷ rows) k =
      ground (arith, all-order_by before rows, all-insert_by before r (order_by before rows))

  all-limit : (n : ℕ) (rows : List R) → all test rows ≡ true → all test (limit n rows) ≡ true
  unfolding all limit
  all-limit zero rows k = refl
  all-limit (suc n) [] k = refl
  all-limit (suc n) (r ∷ rows) k = ground (arith, all-limit n rows)

  all-offset : (n : ℕ) (rows : List R) → all test rows ≡ true → all test (offset n rows) ≡ true
  unfolding all offset
  all-offset zero rows k = k
  all-offset (suc n) [] k = refl
  all-offset (suc n) (r ∷ rows) k = ground (arith, all-offset n rows)

  all-select : (key : R → String) (rows : List R) → all test (select key test rows) ≡ true
  unfolding all select
  all-select key [] = refl
  all-select key (r ∷ rows) = ground (arith, all-select key rows)

  all_mono :
      (weaker : R → Bool) (rows : List R)
      → ((r : R) → test r ≡ true → weaker r ≡ true)
      → all test rows ≡ true
      → all weaker rows ≡ true
  unfolding all
  all_mono weaker [] h k = refl
  all_mono weaker (r ∷ rows) h k = ground (arith, h r, all_mono weaker rows h)

length-limit {ℓ} : {R : Type ℓ} (n : ℕ) (rows : List R) → length (limit n rows) ≤ n
unfolding limit
length-limit zero rows = omega arith
length-limit (suc n) [] = omega arith
length-limit (suc n) (r ∷ rows) = omega (arith, length-limit n rows)

-- Whether a command belongs to what the scope reaches: everything for an administrator, the projects
-- that a user manages, one project for a project.
abbrev may_see : Scope → Db → Command → Bool
may_see scope db c = elim scope.kind [
  | ScopeKind.super_admin ↦ true
  | ScopeKind.user ↦ elim (find project_id c.project_id db.projects) [
    | none ↦ false
    | some p ↦ p.manager_user_id == scope.user_id
  ]
  | ScopeKind.project ↦ c.project_id == scope.project_id
  | ScopeKind.other ↦ false
]

scope_is_known : (scope : Scope) → valid_scope scope ≡ true → scope.kind ≢ ScopeKind.other
unfolding valid_scope validate
scope_is_known scope h e = ground arith

project_filter :
    (scope : Scope) (request r : ListRequest)
    → validate_list_request scope request ≡ some r
    → is_project scope ≡ true
    → r.project_id ≡ some scope.project_id
unfolding validate_list_request
project_filter scope request r h p = ground arith

page_size_bound :
    (scope : Scope) (request r : ListRequest)
    → validate_list_request scope request ≡ some r
    → r.page_size ≤ 100
unfolding validate_list_request
page_size_bound scope request r h = ground arith

listed_is_visible :
    (scope : Scope) (r : ListRequest) (db : Db) (c : Command)
    → scope.kind ≢ ScopeKind.other
    → (is_project scope ≡ true → r.project_id ≡ some scope.project_id)
    → is_listed (list_query scope r) db.projects c ≡ true
    → may_see scope db c ≡ true
unfolding is_listed
listed_is_visible scope r db c known own h = ground (arith, known, own)

-- Everything on the page, in the reach of the scope.
abbrev pub Shows : Scope → Db → ListResult → Type 0
Shows scope db r =
    (all (may_see scope db) r.items ≡ true) × (length r.items ≤ r.page_size) × (r.page_size ≤ 100)

page-Shows :
    (scope : Scope) (q : ListRequest) (db : Db) (r : ListResult)
    → scope.kind ≢ ScopeKind.other
    → (is_project scope ≡ true → q.project_id ≡ some scope.project_id)
    → q.page_size ≤ 100
    → page_of scope q db ≡ done r
    → Shows scope db r
unfolding list_commands
page-Shows scope q db r known own size h =
    let query = list_query scope q in
    let test : Command → Bool = is_listed query db.projects in
    let ordered : List Command = order_by newest_first (matching query db) in
    let page : List Command = limit query.limit (offset query.offset ordered) in
    let listed : all test page ≡ true = all-limit test query.limit (offset query.offset ordered) (
      all-offset test query.offset ordered (
        all-order_by test newest_first (matching query db)
          (all-select test command_id db.commands))) in
    let seen : all (may_see scope db) page ≡ true =
      all_mono test (may_see scope db) page (λ c. listed_is_visible scope q db c known own)
        listed in
    let shown : (r.items ≡ page) × (r.page_size ≡ q.page_size) = ground arith in
    (
      rw (shown.0) seen,
      ground (arith, shown, length-limit query.limit (offset query.offset ordered)),
      ground (arith, shown),
    )

-- A page that List answers with holds only commands that the scope reaches, and no more of them than its
-- size, which is at most 100.
pub list-Shows :
    (scope : Scope) (request : ListRequest) (db : Db) (r : ListResult)
    → list scope request db ≡ done r
    → Shows scope db r
unfolding list
list-Shows scope request db r h = elim (Bool-cases (valid_scope scope)) [
  | inr invalid ↦ absurd (cc (rw (invalid, list) at h))
  | inl valid ↦ elim (Option-cases (validate_list_request scope request)) [
    | inl refused ↦ absurd (cc (rw (valid, refused, list) at h))
    | inr (q, checked) ↦ elim (Bool-cases (hides scope q db)) [
      | inl hidden ↦ absurd (cc (rw (valid, checked, hidden, list) at h))
      | inr shown ↦
          page-Shows scope q db r (scope_is_known scope valid)
            (project_filter scope request q checked) (page_size_bound scope request q checked)
            (rw (valid, checked, shown, list) at h)
    ]
  ]
]
