-- ===== src/Worker/Maintenance/Told.antt =====
-- The events that RecoverNext, ExpireNextQueued and ExpireNextResultObservation write.
use device_platform.Prelude.{
  ◌≡◌, ap, ◌∙◌, Bool, true, false, String, Option, none, some, arith, List, [], ◌∷◌, ◌++◌, length,
  if◌then◌else◌, inl, inr, ◌==◌,
}
use mathlib.Core.List.{append-nil}
use device_platform.Prelude.Json.{Json}
use device_platform.Domain.Records.{Command, CommandAttempt, Event}
use device_platform.Domain.Types.{
  AttemptOutcome, CommandStatus, EventSource, EventType, command_status_eq,
}
use device_platform.Store.{
  Db, Tx, Answer, Result-cases, done, ok, ◌>>=◌, ◌>>◌, pure, raise, runtime_state, Error, transact,
}
use device_platform.CommandRepo.Lock.{get, get_attempt}
use device_platform.CommandRepo.Expire.{
  expire_queued, expire_result_observation, recover_expired_dispatching,
}
use device_platform.CommandRepo.Next.{
  recover_next_expired_dispatching, expire_next_queued, expire_next_result_observation,
}
use device_platform.CommandRepo.Journal.{create_event, create_delivery}
use device_platform.Worker.Maintenance.{
  tell_recovered, tell_expired, tell_timeout, recovered_key, recover_next, expire_next,
  observe_next, maintain, or_else,
}
use device_platform.Worker.Events.{
  status_key, Fresh, create_command_event, create_status_event, create_evidence_event, new_event,
  event_envelope,
}

module _ {A : Type 0} where
  -- A body that leaves the events alone.
  abbrev IsSilent : Tx A → Type 0
  IsSilent m = (x : A) (db db' : Db) → m db ≡ ok x db' → db'.events ≡ db.events

expire_queued-IsSilent : (cid : String) → IsSilent (expire_queued cid)
unfolding expire_queued
expire_queued-IsSilent cid x db db' h = ground (arith, h)

expire_result-IsSilent : (cid : String) → IsSilent (expire_result_observation cid)
unfolding expire_result_observation
expire_result-IsSilent cid x db db' h = ground (arith, h)

recover-IsSilent : (cid aid token : String) → IsSilent (recover_expired_dispatching cid aid token)
unfolding recover_expired_dispatching
recover-IsSilent cid aid token x db db' h = ground (arith, h)

get-IsSilent : (id : String) → IsSilent (get id)
unfolding get
get-IsSilent id x db db' h = ground (arith, h)

create_event-events :
    (e : Event) (u : Unit {0}) (db db' : Db)
    → create_event e db ≡ ok u db'
    → db'.events ≡ db.events ++ e ∷ []
unfolding create_event
create_event-events e u db db' h = ground (arith, h)

create_delivery-IsSilent : (id eid : String) (body : Json) → IsSilent (create_delivery id eid body)
unfolding create_delivery
create_delivery-IsSilent id eid body x db db' h = ground (arith, h)

expire_next-IsSilent : (busy : String → Bool) → IsSilent (expire_next_queued busy)
unfolding expire_next_queued expire_queued get
expire_next-IsSilent busy x db db' h = ground (arith, h)

observe_next-IsSilent : (busy : String → Bool) → IsSilent (expire_next_result_observation busy)
unfolding expire_next_result_observation expire_result_observation get
observe_next-IsSilent busy x db db' h = ground (arith, h)

recover_next-IsSilent : (busy : String → Bool) → IsSilent (recover_next_expired_dispatching busy)
unfolding recover_next_expired_dispatching recover_expired_dispatching get get_attempt
recover_next-IsSilent busy x db db' h = ground (arith, h)

-- A body that adds one event.
abbrev Tells : Tx (Unit {0}) → Type 0
Tells m =
    (u : Unit {0}) (db db' : Db)
    → m db ≡ ok u db'
    → (e : Event) × (db'.events ≡ db.events ++ e ∷ [])

create_command_event-Tells :
    (fresh : Fresh) (c : Command) (source : EventSource) (kind : EventType) (payload : Json)
    (key : String)
    → Tells (create_command_event fresh c source kind payload key)
unfolding create_command_event
create_command_event-Tells fresh c source kind payload key u db db' h =
    let e = new_event fresh c source kind payload key in
    elim (Result-cases (create_event e db)) [
      | inr (x, failed) ↦ absurd (ground (arith, h, failed))
      | inl (v, mid, created) ↦
          elim (Result-cases (create_delivery fresh.delivery_id e.id (event_envelope e) mid)) [
            | inr (x, failed) ↦ absurd (ground (arith, h, created, failed))
            | inl (b, last, delivered) ↦ (
              e,
              ground (
                arith,
                h,
                created,
                delivered,
                create_event-events e v db mid created,
                create_delivery-IsSilent fresh.delivery_id e.id (event_envelope e) b mid last
                    delivered,
              ),
            )
          ]
    ]

-- One event when the body answers true, and none when it answers false.
abbrev IsCounted : Tx Bool → Type 0
IsCounted m =
    (b : Bool) (db db' : Db)
    → m db ≡ ok b db'
    → (new : List Event) × (db'.events ≡ db.events ++ new) × (length new ≡ (if b then 1 else 0))

idle-IsCounted : IsCounted (pure false)
idle-IsCounted b db db' h = ([], ground (arith, h, append-nil db.events), ground (arith, h))

told-IsCounted : (m : Tx (Unit {0})) → Tells m → IsCounted (m >> pure true)
told-IsCounted m tells b db db' h = elim (Result-cases (m db)) [
  | inr (x, failed) ↦ absurd (ground (arith, h, failed))
  | inl (u, mid, e) ↦
      let (event, added) = tells u db mid e in
      (event ∷ [], ground (arith, h, e, added), ground (arith, h, e))
]

bind-IsCounted :
    {A : Type 0} (m : Tx A) (f : A → Tx Bool)
    → IsSilent m
    → ((a : A) → IsCounted (f a))
    → IsCounted (m >>= f)
bind-IsCounted m f silent counted b db db' h = elim (Result-cases (m db)) [
  | inr (x, failed) ↦ absurd (ground (arith, h, failed))
  | inl (a, mid, e) ↦
      let (new, added, count) = counted a b mid db' (ground (arith, h, e)) in
      (new, ground (arith, added, silent a db mid e), count)
]

raise-Tells : (x : Error) → Tells (raise x)
raise-Tells x u db db' h = absurd (ground (arith, h))

if-Tells : (b : Bool) (m n : Tx (Unit {0})) → Tells m → Tells n → Tells (if b then m else n)
if-Tells true m n h k = h
if-Tells false m n h k = k

create_status_event-Tells :
    (fresh : Fresh) (c : Command) (from : CommandStatus) (source : EventSource) (key : String)
    → Tells (create_status_event fresh c from source key)
unfolding create_status_event
create_status_event-Tells fresh c from source key =
    if-Tells (from == c.status) _ _ (raise-Tells runtime_state)
      (create_command_event-Tells fresh c source EventType.command_status_changed _ key)

create_evidence_event-Tells :
    (fresh : Fresh) (c : Command) (aid : String) (outcome : AttemptOutcome) (source : EventSource)
    (key : String)
    → Tells (create_evidence_event fresh c aid outcome source key)
unfolding create_evidence_event
create_evidence_event-Tells fresh c aid outcome source key =
    create_command_event-Tells fresh c source EventType.command_evidence_updated _ key

abbrev pub worked : Answer Bool → Bool
worked (done b) = b
worked (Answer.failed e) = false

-- The same of a transaction: one that fails adds no event.
abbrev IsTold : (Db → Answer Bool × Db) → Type 0
IsTold f =
    (db : Db)
    → (new : List Event) × ((f db).1.events ≡ db.events ++ new)
      × (length new ≡ (if worked (f db).0 then 1 else 0))

transact-IsTold : (m : Tx Bool) → IsCounted m → IsTold (transact m)
unfolding transact
transact-IsTold m counted db = elim (Result-cases (m db)) [
  | inr (x, failed) ↦ ([], ground (arith, failed, append-nil db.events), ground (arith, failed))
  | inl (b, db', e) ↦
      let (new, added, count) = counted b db db' e in
      (new, ground (arith, e, added), ground (arith, e, count))
]

or_else-after :
    (db : Db) (q : Answer Bool × Db) (g : Db → Answer Bool × Db)
    → IsTold g
    → (new : List Event) × (q.1.events ≡ db.events ++ new)
      × (length new ≡ (if worked q.0 then 1 else 0))
    → (new : List Event) × ((or_else q g).1.events ≡ db.events ++ new)
      × (length new ≡ (if worked (or_else q g).0 then 1 else 0))
or_else-after db (done true, mid) g told first = first
or_else-after db (Answer.failed e, mid) g told first = first
or_else-after db (done false, mid) g told ([], added, count) =
    let (new, more, count') = told mid in
    (new, more ∙ ap (λ l. l ++ new) (added ∙ append-nil db.events), count')
or_else-after db (done false, mid) g told (e ∷ new, added, count) = absurd (omega (arith, count))

or_else-IsTold :
    (f g : Db → Answer Bool × Db) → IsTold f → IsTold g → IsTold (λ db. or_else (f db) g)
or_else-IsTold f g first second db = or_else-after db (f db) g second (first db)

tell_recovered-IsCounted :
    (fresh : Fresh) (o : Option (Command × CommandAttempt)) → IsCounted (tell_recovered fresh o)
tell_recovered-IsCounted fresh none = idle-IsCounted
tell_recovered-IsCounted fresh (some (c, a)) = told-IsCounted _ (
    create_evidence_event-Tells fresh c a.id AttemptOutcome.indeterminate EventSource.system
      (recovered_key c.id a.id))

tell_expired-IsCounted : (fresh : Fresh) (o : Option Command) → IsCounted (tell_expired fresh o)
tell_expired-IsCounted fresh none = idle-IsCounted
tell_expired-IsCounted fresh (some c) = told-IsCounted _ (
    create_status_event-Tells fresh c CommandStatus.queued EventSource.system
      (status_key c.id c.status))

tell_timeout-IsCounted :
    (fresh : Fresh) (o : Option (Command × CommandStatus)) → IsCounted (tell_timeout fresh o)
tell_timeout-IsCounted fresh none = idle-IsCounted
tell_timeout-IsCounted fresh (some (c, previous)) =
    told-IsCounted _
      (create_status_event-Tells fresh c previous EventSource.system (status_key c.id c.status))

recover_next-IsTold : (busy : String → Bool) (fresh : Fresh) → IsTold (recover_next busy fresh)
unfolding recover_next
recover_next-IsTold busy fresh =
    transact-IsTold (recover_next_expired_dispatching busy >>= tell_recovered fresh) (
      bind-IsCounted (recover_next_expired_dispatching busy) (tell_recovered fresh)
        (recover_next-IsSilent busy) (tell_recovered-IsCounted fresh))

expire_next-IsTold : (busy : String → Bool) (fresh : Fresh) → IsTold (expire_next busy fresh)
unfolding expire_next
expire_next-IsTold busy fresh = transact-IsTold (expire_next_queued busy >>= tell_expired fresh) (
    bind-IsCounted (expire_next_queued busy) (tell_expired fresh) (expire_next-IsSilent busy)
      (tell_expired-IsCounted fresh))

observe_next-IsTold : (busy : String → Bool) (fresh : Fresh) → IsTold (observe_next busy fresh)
unfolding observe_next
observe_next-IsTold busy fresh =
    transact-IsTold (expire_next_result_observation busy >>= tell_timeout fresh) (
      bind-IsCounted (expire_next_result_observation busy) (tell_timeout fresh)
        (observe_next-IsSilent busy) (tell_timeout-IsCounted fresh))

-- A round of the second poll of Run (RecoverNext, else ExpireNextQueued, else
-- ExpireNextResultObservation) that says that it worked has added exactly one event, and one that
-- says that it did not, or that failed, has added none.
pub maintenance_is_told :
    (busy : String → Bool) (fresh : Fresh) (db : Db)
    → (new : List Event) × ((maintain busy fresh db).1.events ≡ db.events ++ new)
      × (length new ≡ (if worked (maintain busy fresh db).0 then 1 else 0))
unfolding maintain
maintenance_is_told busy fresh =
    or_else-IsTold (λ db. or_else (recover_next busy fresh db) (expire_next busy fresh))
      (observe_next busy fresh)
      (or_else-IsTold (recover_next busy fresh) (expire_next busy fresh)
        (recover_next-IsTold busy fresh) (expire_next-IsTold busy fresh))
      (observe_next-IsTold busy fresh)
