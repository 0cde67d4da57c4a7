-- ===== src/DeviceService/Create/Stored.antt =====
-- What a Create that succeeds has stored, and for whom.
use device_platform.Prelude.{
  ◌≡◌, ◌≢◌, ==_iff, [], ◌∷◌, Bool, true, false, ◌||◌, not, String, List, none, some, arith,
  string_eq, is_empty, ==_refl, Bool-cases, Option-cases, inl, inr,
}
use device_platform.Prelude.Table.{find, find-append, select}
use device_platform.Domain.Types.{EventType}
use device_platform.Domain.Catalogue.{DeviceType}
use device_platform.Domain.Records.{Device, Project}
use device_platform.Store.{
  Db, Tx, bind-ok, Answer, Answer-cases, Result, Result-cases, done, ok, ◌>>=◌, transact,
  project_id, device_id, device_type_code,
}
use device_platform.Access.{Scope, is_human, can_access_project}
use device_platform.CommandRepo.Journal.{create_audit}
use device_platform.CommandService.Validation.{RequestMetadata, valid_scope}
use device_platform.CommandService.Authorize.{find_profile}
use device_platform.DeviceRepo.{create_device, same_identity}
use device_platform.DeviceService.Validation.{validate_write}
use device_platform.DeviceService.Update.{UpdateIds, create_device_event, device_audit}
use device_platform.DeviceService.Update.Follows.{create_audit-keeps, device_event-keeps}
use device_platform.DeviceService.Create.{
  DeviceLibrary, CreateDeviceRequest, ProviderRegistration, CreateIds, describe, store_device,
  report_created, device_created_payload, device_created_fields, typed, smart_lock,
  create_described, create_requested,
}

-- A condition that selects no row fails of every row that a lookup finds.
none_selected :
    (p : Device → Bool) (id : String) (rows : List Device) (old : Device)
    → is_empty (select device_id p rows) ≡ true
    → find device_id id rows ≡ some old
    → p old ≡ false
unfolding select find
none_selected p id [] old h e = cc
none_selected p id (d ∷ rows) old h e = elim (Bool-cases (p d)) [
  | inl chosen ↦ absurd (ground arith)
  | inr skipped ↦ ground (arith, skipped, none_selected p id rows old)
]

-- No stored device, in whatever lifecycle status, has the provider and the identity of `d`.
abbrev IsFree : (String → String) → Device → Db → Type 0
IsFree lower d db =
    (id : String) (old : Device)
    → find device_id id db.devices ≡ some old
    → lower old.provider_code ≡ lower d.provider_code
    → old.provider_device_id ≢ d.provider_device_id

empty-IsFree :
    (lower : String → String) (d : Device) (db : Db)
    → is_empty (select device_id (same_identity lower d) db.devices) ≡ true
    → IsFree lower d db
empty-IsFree lower d db h id old e code identity =
    let unlike = none_selected (same_identity lower d) id db.devices old h e in
    let code_true = (==_iff (lower old.provider_code) (lower d.provider_code)).1 code in
    let identity_true = (==_iff old.provider_device_id d.provider_device_id).1 identity in
    absurd (ground (arith, unlike, code_true, identity_true))

-- The identity of the device was free, and the row is there.
abbrev Inserted : (String → String) → Device → Db → Db → Type 0
Inserted lower d db db' =
    (is_empty (select device_id (same_identity lower d) db.devices) ≡ true)
    × (find device_id d.id db.devices ≡ none)
    × (find device_id d.id db'.devices ≡ some d)

create_device_lem :
    (lower : String → String) (d : Device) (db db' : Db) (u : Unit {0})
    → create_device lower d db ≡ ok u db'
    → Inserted lower d db db'
unfolding create_device
create_device_lem lower d db db' u h = elim (Option-cases (find device_id d.id db.devices)) [
  | inr (old, taken) ↦ absurd (cc (rw (taken, create_device) at h))
  | inl fresh ↦ elim (Bool-cases (is_empty (select device_id (same_identity lower d) db.devices))) [
    | inr held ↦ absurd (cc (rw (fresh, held, create_device) at h))
    | inl free ↦ (
      free,
      fresh,
      ground (arith, h, fresh, free, find-append device_id d.id db.devices d, ==_refl d.id),
    )
  ]
]

store_device_lem :
    (lower : String → String) (d : Device) (db db' : Db) (u : Unit {0})
    → store_device lower d db ≡ ok u db'
    → Inserted lower d db db'
unfolding store_device
store_device_lem lower d db db' u h = elim (Result-cases (create_device lower d db)) [
  | inr (e, failure) ↦ absurd (cc (rw (failure, store_device) at h))
  | inl (v, mid, ran) ↦
      let same : ◌≡◌ {A = Result (Unit {0})} (ok v mid) (ok u db') = rw (ran, store_device) at h in
      create_device_lem lower d db db' u (ground (arith, ran, same))
]

report_created-keeps :
    (ids : UpdateIds) (m : RequestMetadata) (d d' : Device) (db db' : Db)
    → report_created ids m d db ≡ ok d' db'
    → (d' ≡ d) × (db'.devices ≡ db.devices)
report_created-keeps ids m d d' db db' h =
    let log =
      device_audit ids.lifecycle_audit ids.audit_clock m d "device.created"
        (device_created_fields d) in
    let finish : Unit {0} → Tx Device = λ _. ok d in
    let audit : Unit {0} → Tx Device = λ _. create_audit log >>= finish in
    let (u, first, told, rest) =
      bind-ok (create_device_event ids m d EventType.device_created (device_created_payload d))
        audit d' db db' h in
    let (v, second, logged, last) = bind-ok (create_audit log) finish d' first db' rest in
    ground (
      arith,
      last,
      create_audit-keeps log first second v logged,
      device_event-keeps ids m d EventType.device_created (device_created_payload d) db first u
          told,
    )

-- What Create found and stored.
abbrev pub Stored : (String → String) → Scope → Device → Db → Db → Type 0
Stored lower scope d db db' =
    (p : Project) × (find project_id d.project_id db.projects ≡ some p)
    × (can_access_project scope p ≡ true)
    × IsFree lower d db
    × (find device_id d.id db.devices ≡ none)
    × (find device_id d.id db'.devices ≡ some d)

module _ (lower : String → String) (scope : Scope) (ids : UpdateIds) (m : RequestMetadata)
    (d d' : Device) (db db' : Db) where
  outcome_of :
      (p : Project) (t : DeviceType)
      → find project_id d.project_id db.projects ≡ some p
      → can_access_project scope p ≡ true
      → (store_device lower (typed t d) >>= λ _. report_created ids m (typed t d)) db ≡ ok d' db'
      → Stored lower scope d' db db'
  outcome_of p t project may h =
      let report : Unit {0} → Tx Device = λ _. report_created ids m (typed t d) in
      let (u, mid, made, rest) = bind-ok (store_device lower (typed t d)) report d' db db' h in
      let (same, kept) = report_created-keeps ids m (typed t d) d' mid db' rest in
      let (free, fresh, row) = store_device_lem lower (typed t d) db mid u made in
      (
        p,
        ground (arith, same, project),
        may,
        empty-IsFree lower d' db (ground (arith, same, free)),
        ground (arith, same, fresh),
        ground (arith, same, row, kept),
      )

  create_described-Stored :
      create_described lower scope ids m d db ≡ ok d' db' → Stored lower scope d' db db'
  unfolding create_described
  create_described-Stored h = elim (Option-cases (find project_id d.project_id db.projects)) [
    | inl lost ↦ absurd (cc (rw (lost, create_described) at h))
    | inr (p, project) ↦ elim (Bool-cases (can_access_project scope p)) [
      | inr hidden ↦ absurd (cc (rw (project, hidden, create_described) at h))
      | inl may ↦ elim (Option-cases (find device_type_code smart_lock db.device_types)) [
        | inl untyped ↦ absurd (cc (rw (project, may, untyped, create_described) at h))
        | inr (t, known) ↦ elim (Option-cases (find_profile t.id t.current_revision db.profiles)) [
          | inl bare ↦ absurd (cc (rw (project, may, known, bare, create_described) at h))
          | inr (profile, published) ↦
              outcome_of p t project may
                (rw (project, may, known, published, create_described) at h)
        ]
      ]
    ]
  ]

  transact_described :
      transact (create_described lower scope ids m d) db ≡ (done d', db')
      → Stored lower scope d' db db'
  unfolding transact
  transact_described h = elim (Result-cases (create_described lower scope ids m d db)) [
    | inr (e, failure) ↦ absurd (cc (rw (failure, transact) at h))
    | inl (x, db'', ran) ↦
        let same : ◌≡◌ {A = Answer Device × Db} (done x, db'') (done d', db') =
          rw (ran, transact) at h in
        create_described-Stored (ground (arith, ran, same))
  ]

-- A Create that succeeds was asked for by a scope that reaches the project of the device; the id was
-- not in use, no device had the provider identity, not even a deleted one, and the row that is stored
-- is the one that it answers.
pub create_requested-Stored :
    (l : DeviceLibrary) (registry : List (String × ProviderRegistration)) (scope : Scope)
    (r : CreateDeviceRequest) (metadata : RequestMetadata) (ids : CreateIds) (d : Device)
    (db db' : Db)
    → create_requested l registry scope r metadata ids db ≡ (done d, db')
    → Stored l.lower scope d db db'
unfolding create_requested transact
create_requested-Stored l registry scope r metadata ids d db db' h =
    elim (Bool-cases (not (valid_scope scope) || not (is_human scope))) [
      | inl bad ↦ absurd (cc (rw (bad, create_requested) at h))
      | inr fine ↦ elim (Option-cases (validate_write l.parse_addr scope metadata)) [
        | inl refused ↦ absurd (cc (rw (fine, refused, create_requested) at h))
        | inr (m, checked) ↦ elim (Answer-cases (describe registry scope r ids)) [
          | inr (e, bad) ↦ absurd (cc (rw (fine, checked, bad, create_requested) at h))
          | inl (x, described) ↦
              transact_described l.lower scope ids.journal m x d db db'
                (rw (fine, checked, described, create_requested) at h)
        ]
      ]
    ]
