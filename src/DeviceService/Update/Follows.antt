-- ===== src/DeviceService/Update/Follows.antt =====
-- What an Update that succeeds has done to the device, and for whom.
use device_platform.Prelude.{
  ◌≡◌, refl, ◌∙◌, Bool, true, false, ◌||◌, ◌&&◌, not, String, Option, none, some, arith, ◌==◌, ◌!=◌,
  string_eq, ==_refl, ==_iff, Bool-cases, Option-cases, inl, inr,
}
use device_platform.Prelude.Json.{Json}
use device_platform.Prelude.Table.{find, find-modify, find_key}
use device_platform.Domain.Types.{LifecycleStatus, EventType, lifecycle_status_eq}
use device_platform.Domain.Audit.{AuditLog}
use device_platform.Domain.Records.{Device, Event, Project}
use device_platform.Store.{
  Db, Tx, ◌>>=◌, pure, bind-ok, Answer, Result, Result-cases, done, ok, transact, project_id,
  device_id,
}
use device_platform.Access.{Scope, can_access_project, is_human}
use device_platform.CommandRepo.Journal.{create_event, create_delivery, create_audit}
use device_platform.Worker.Events.{event_envelope}
use device_platform.CommandService.Validation.{RequestMetadata, valid_scope, valid_uuid}
use device_platform.DeviceRepo.{
  rename_device, set_lifecycle_status, every, set_name, has_lifecycle, set_lifecycle,
}
use device_platform.DeviceService.Validation.{validate_write, can_transition_lifecycle}
use device_platform.DeviceService.Update.{
  UpdateRequest, UpdateIds, device_event, deliver_event, create_device_event, rename_log,
  rename_step, lifecycle_payload, lifecycle_log, tell_lifecycle, lifecycle_step, read_device,
  update_found, update_checked, update, name_of, is_unset, deletes,
}

create_event-keeps :
    (e : Event) (db db' : Db) (u : Unit {0})
    → create_event e db ≡ ok u db'
    → db'.devices ≡ db.devices
unfolding create_event
create_event-keeps e db db' u h = ground arith

create_delivery-keeps :
    (id eid : String) (body : Json) (db db' : Db) (b : Bool)
    → create_delivery id eid body db ≡ ok b db'
    → db'.devices ≡ db.devices
unfolding create_delivery
create_delivery-keeps id eid body db db' b h = ground arith

pub create_audit-keeps :
    (a : AuditLog) (db db' : Db) (u : Unit {0})
    → create_audit a db ≡ ok u db'
    → db'.devices ≡ db.devices
unfolding create_audit
create_audit-keeps a db db' u h = ground arith

deliver_event-keeps :
    (ids : UpdateIds) (e : Event) (db db' : Db) (u : Unit {0})
    → deliver_event ids e db ≡ ok u db'
    → db'.devices ≡ db.devices
deliver_event-keeps ids e db db' u h =
    let after : Bool → Tx (Unit {0}) = λ b. pure tt in
    let (b, mid, sent, end) =
      bind-ok (create_delivery ids.delivery_id e.id (event_envelope e)) after u db db' h in
    ground (arith, end, create_delivery-keeps ids.delivery_id e.id (event_envelope e) db mid b sent)

pub device_event-keeps :
    (ids : UpdateIds) (m : RequestMetadata) (d : Device) (t : EventType) (payload : Json)
    (db db' : Db) (u : Unit {0})
    → create_device_event ids m d t payload db ≡ ok u db'
    → db'.devices ≡ db.devices
unfolding create_device_event
device_event-keeps ids m d t payload db db' u h =
    let e = device_event ids m d t payload in
    let (v, mid, made, rest) = bind-ok (create_event e) (λ _. deliver_event ids e) u db db' h in
    deliver_event-keeps ids e mid db' u rest ∙ create_event-keeps e db mid v made

module _ (ids : UpdateIds) (m : RequestMetadata) (d : Device) (db db' : Db) (u : Unit {0}) where
  rename_step_lem :
      (name : Option String)
      → find device_id d.id db.devices ≡ some d
      → rename_step ids m d name db ≡ ok u db'
      → (e : Device) × (find device_id d.id db'.devices ≡ some e)
        × (e.lifecycle_status ≡ d.lifecycle_status)
  unfolding rename_step rename_device
  rename_step_lem none found h = (d, ground (arith, h), refl)
  rename_step_lem (some name) found h = elim (Bool-cases (d.name != name)) [
    | inr same ↦ (d, ground (arith, same), refl)
    | inl other ↦
        let logs : Unit {0} → Tx (Unit {0}) = λ _. create_audit (rename_log ids m d) in
        let (v, mid, renamed, logged) =
          bind-ok (rename_device d.id name) logs u db db' (ground (arith, other)) in
        (
          set_name db.now name d,
          ground (
            arith,
            renamed,
            create_audit-keeps (rename_log ids m d) mid db' u logged,
            find-modify device_id every (set_name db.now name) (λ x. refl) d.id d.id db.devices,
            ==_refl d.id,
          ),
          refl,
        )
  ]

tell_lifecycle-keeps :
    (ids : UpdateIds) (m : RequestMetadata) (d : Device) (target : LifecycleStatus) (changed : Bool)
    (db db' : Db) (u : Unit {0})
    → tell_lifecycle ids m d target changed db ≡ ok u db'
    → (changed ≡ true) × (db'.devices ≡ db.devices)
tell_lifecycle-keeps ids m d target false db db' u h = absurd (cc h)
tell_lifecycle-keeps ids m d target true db db' u h =
    let logs : Unit {0} → Tx (Unit {0}) = λ _. create_audit (lifecycle_log ids m d target) in
    let (v, mid, told, logged) =
      bind-ok
        (create_device_event ids m d EventType.device_lifecycle_changed
          (lifecycle_payload d target))
        logs u db db' h in
    (
      refl,
      create_audit-keeps (lifecycle_log ids m d target) mid db' u logged
          ∙ device_event-keeps ids m d EventType.device_lifecycle_changed
              (lifecycle_payload d target) db mid v told,
    )

-- What a request for `target` may make of the status `from`: keep it when nothing is asked for, or
-- move to a target that the table allows.
unfoldable pub follows : LifecycleStatus → Option LifecycleStatus → LifecycleStatus → Bool
follows from none after = after == from
follows from (some target) after = can_transition_lifecycle from target && after == target

set_lifecycle_row :
    (id : String) (from to : LifecycleStatus) (e : Device) (b : Bool) (db mid : Db)
    → find device_id id db.devices ≡ some e
    → e.lifecycle_status ≡ from
    → set_lifecycle_status id from to db ≡ ok b mid
    → find device_id id mid.devices ≡ some (set_lifecycle db.now to e)
unfolding set_lifecycle_status
set_lifecycle_row id from to e b db mid found was h = ground (
  arith,
  h,
  found,
  ==_iff e.lifecycle_status from,
  find-modify device_id (has_lifecycle from) (set_lifecycle db.now to) (λ x. refl) id id db.devices,
  ==_refl id,
)

module _ (ids : UpdateIds) (m : RequestMetadata) (d e : Device) (db db' : Db) (u : Unit {0}) where
  lifecycle_step_lem :
      (target : Option LifecycleStatus)
      → find device_id d.id db.devices ≡ some e
      → e.lifecycle_status ≡ d.lifecycle_status
      → lifecycle_step ids m d target db ≡ ok u db'
      → (f : Device) × (find device_id d.id db'.devices ≡ some f)
        × (follows d.lifecycle_status target f.lifecycle_status ≡ true)
  unfolding lifecycle_step follows
  lifecycle_step_lem none found same h =
      (e, ground (arith, h, found), (==_iff e.lifecycle_status d.lifecycle_status).1 same)
  lifecycle_step_lem (some target) found same h =
      elim (Bool-cases (can_transition_lifecycle d.lifecycle_status target)) [
        | inr refused ↦ absurd (cc (rw refused at h))
        | inl may ↦
            let (b, mid, changed, told) =
              bind-ok (set_lifecycle_status d.id d.lifecycle_status target)
                (tell_lifecycle ids m d target) u db db' (rw may at h) in
            let row =
              set_lifecycle_row d.id d.lifecycle_status target e b db mid found same changed in
            let kept = tell_lifecycle-keeps ids m d target b mid db' u told in
            (
              set_lifecycle db.now target e,
              ground (arith, row, kept),
              ground (arith, may, ==_refl target),
            )
      ]

-- What Update found and what it leaves of the device.
abbrev pub Updated : Scope → String → Option LifecycleStatus → Db → Device → Db → Type 0
Updated scope did target db d' db' =
    (d : Device) × (p : Project) × (find device_id did db.devices ≡ some d)
    × (find project_id d.project_id db.projects ≡ some p)
    × (can_access_project scope p ≡ true)
    × ((d.lifecycle_status == LifecycleStatus.deleted) ≡ false)
    × (find device_id did db'.devices ≡ some d')
    × (follows d.lifecycle_status target d'.lifecycle_status ≡ true)

module _ (d' : Device) (db db' : Db) where
  read_device_lem :
      (id : String)
      → read_device id db ≡ ok d' db'
      → (db ≡ db') × (find device_id id db.devices ≡ some d')
  read_device_lem id h = elim (Option-cases (find device_id id db.devices)) [
    | inl lost ↦ absurd (cc (rw (lost, read_device) at h))
    | inr (x, row) ↦
        let same : ◌≡◌ {A = Result Device} (ok x db) (ok d' db') = rw (row, read_device) at h in
        (ground (arith, same), ground (arith, row, same))
  ]

module _ (ids : UpdateIds) (m : RequestMetadata) (d d' : Device) (db db' : Db) where
  update_found_lem :
      (name : Option String) (target : Option LifecycleStatus)
      → find device_id d.id db.devices ≡ some d
      → update_found ids m name target d db ≡ ok d' db'
      → (find device_id d.id db'.devices ≡ some d')
        × (follows d.lifecycle_status target d'.lifecycle_status ≡ true)
  unfolding update_found
  update_found_lem name target found h =
      let finish : Unit {0} → Tx Device = λ _. read_device d.id in
      let move : Unit {0} → Tx Device = λ _. lifecycle_step ids m d target >>= finish in
      let (u, first, renamed, rest) = bind-ok (rename_step ids m d name) move d' db db' h in
      let (v, second, moved, last) =
        bind-ok (lifecycle_step ids m d target) finish d' first db' rest in
      let (e, row, same) = rename_step_lem ids m d db first u name found renamed in
      let (f, held, after) = lifecycle_step_lem ids m d e first second v target row same moved in
      let (stay, shown) = read_device_lem d' second db' d.id last in
      (ground (arith, stay, shown), ground (arith, shown, held, after))

module _ (scope : Scope) (ids : UpdateIds) (m : RequestMetadata) (did : String)
    (name : Option String) (target : Option LifecycleStatus) (d' : Device) (db db' : Db) where
  outcome_of :
      (d : Device) (p : Project)
      → find device_id did db.devices ≡ some d
      → find project_id d.project_id db.projects ≡ some p
      → can_access_project scope p ≡ true
      → (d.lifecycle_status == LifecycleStatus.deleted) ≡ false
      → update_found ids m name target d db ≡ ok d' db'
      → Updated scope did target db d' db'
  outcome_of d p found project may live ran =
      let key : d.id ≡ did = find_key device_id did db.devices found in
      let (row, after) =
        update_found_lem ids m d d' db db' name target (ground (arith, key, found)) ran in
      (d, p, found, project, may, live, ground (arith, row, key), after)

  update_checked-follows :
      update_checked scope ids m did name target db ≡ ok d' db' → Updated scope did target db d' db'
  unfolding update_checked
  update_checked-follows h = elim (Option-cases (find device_id did db.devices)) [
    | inl missing ↦ absurd (cc (rw (missing, update_checked) at h))
    | inr (d, found) ↦ elim (Option-cases (find project_id d.project_id db.projects)) [
      | inl lost ↦ absurd (cc (rw (found, lost, update_checked) at h))
      | inr (p, project) ↦ elim (Bool-cases (can_access_project scope p)) [
        | inr hidden ↦ absurd (cc (rw (found, project, hidden, update_checked) at h))
        | inl may ↦ elim (Bool-cases (d.lifecycle_status == LifecycleStatus.deleted)) [
          | inl gone ↦ absurd (cc (rw (found, project, may, gone, update_checked) at h))
          | inr live ↦
              outcome_of d p found project may live
                (rw (found, project, may, live, update_checked) at h)
        ]
      ]
    ]
  ]

  transact_done :
      transact (update_checked scope ids m did name target) db ≡ (done d', db')
      → Updated scope did target db d' db'
  unfolding transact
  transact_done h = elim (Result-cases (update_checked scope ids m did name target db)) [
    | inr (e, failure) ↦ absurd (cc (rw (failure, transact) at h))
    | inl (x, db'', ran) ↦
        let same : ◌≡◌ {A = Answer Device × Db} (done x, db'') (done d', db') =
          rw (ran, transact) at h in
        update_checked-follows (ground (arith, ran, same))
  ]

-- An Update that succeeds was asked for by a scope that reaches the project of the device, found the
-- device not deleted, and answers the stored row, whose lifecycle status is as it was when the request
-- names none, and else the target, which canTransitionLifecycle allows from there.
pub update_follows_lifecycle :
    (parse_addr : String → Option String) (scope : Scope) (did : String) (r : UpdateRequest)
    (metadata : RequestMetadata) (ids : UpdateIds) (d' : Device) (db db' : Db)
    → update parse_addr scope did r metadata ids db ≡ (done d', db')
    → Updated scope did r.lifecycle_status db d' db'
unfolding update transact
update_follows_lifecycle parse_addr scope did r metadata ids d' db db' h =
    elim (Bool-cases (not (valid_scope scope) || not (is_human scope) || not (valid_uuid did))) [
      | inl bad ↦ absurd (cc (rw (bad, update) at h))
      | inr fine ↦ elim (Option-cases (validate_write parse_addr scope metadata)) [
        | inl refused ↦ absurd (cc (rw (fine, refused, update) at h))
        | inr (m, checked) ↦ elim (Bool-cases (is_unset r.name && is_unset r.lifecycle_status)) [
          | inl empty ↦ absurd (cc (rw (fine, checked, empty, update) at h))
          | inr asked ↦ elim (Option-cases (name_of r.name)) [
            | inl bad ↦ absurd (cc (rw (fine, checked, asked, bad, update) at h))
            | inr (name, named) ↦
                elim (Bool-cases (not (is_unset name) && deletes r.lifecycle_status)) [
                  | inl both ↦ absurd (cc (rw (fine, checked, asked, named, both, update) at h))
                  | inr one ↦
                      transact_done scope ids m did name r.lifecycle_status d' db db'
                        (rw (fine, checked, asked, named, one, update) at h)
                ]
          ]
        ]
      ]
    ]
