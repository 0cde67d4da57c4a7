-- ===== src/CommandRepo/Trace/Once.antt =====
-- Successful MarkDispatching calls for one command in a sequence of operations.
use device_platform.Prelude.{
  ℕ, ◌+◌, ◌≤◌, ◌≡◌, refl, Bool, true, false, ◌&&◌, String, Option, none, some, arith, List, [], ◌∷◌,
  ◌==◌, ◌!=◌, if◌then◌else◌, Bool-cases, inl, inr, string_eq, ==_iff, ==_refl,
}
use device_platform.Prelude.Table.{find, find-modify}
use device_platform.Domain.Types.{CommandStatus, command_status_eq}
use device_platform.Domain.Lifecycle.{can_transition_command}
use device_platform.Domain.Records.{Command}
use device_platform.Store.{Db, Answer, done, command_id, transact}
use device_platform.CommandRepo.Lock.{lock_command_attempt}
use device_platform.CommandRepo.Dispatch.{any, set_sent, MarkDispatchingRequest, mark_dispatching}
use device_platform.CommandRepo.Status.{follows}
use device_platform.CommandRepo.Trace
use device_platform.CommandRepo.Trace.Lifecycle.{perform-follows}

abbrev says_true : Answer Bool → Bool
says_true (done b) = b
says_true (Answer.failed e) = false

-- The operation is a MarkDispatching of the command that reports success: the worker then sends.
abbrev is_dispatch : String → Trace.Operation → Db → Bool
is_dispatch j (Trace.Operation.mark cid aid token r) db =
    cid == j && says_true (transact (mark_dispatching cid aid token r) db).0
is_dispatch j _ db = false

unfoldable pub dispatches : String → List Trace.Operation → Db → ℕ
dispatches j [] db = 0
dispatches j (o ∷ os) db =
    (if is_dispatch j o db then 1 else 0) + dispatches j os (Trace.perform o db)

abbrev is_past_queue : Option Command → Bool
is_past_queue none = false
is_past_queue (some c) = c.status != CommandStatus.queued

past_queue_stays :
    (o p : Option Command) → is_past_queue o ≡ true → follows o p ≡ true → is_past_queue p ≡ true
unfolding can_transition_command
past_queue_stays none p h f = cc
past_queue_stays (some c) none h f = cc
past_queue_stays (some c) (some d) h f = ground arith

module _ (cid aid token : String) (r : MarkDispatchingRequest) (db : Db) where
  dispatch_from_queue :
      says_true (transact (mark_dispatching cid aid token r) db).0 ≡ true
      → is_past_queue (find command_id cid db.commands) ≡ false
  unfolding mark_dispatching lock_command_attempt transact
  dispatch_from_queue h = ground arith

  dispatch_leaves_queue :
      says_true (transact (mark_dispatching cid aid token r) db).0 ≡ true
      → is_past_queue
          (find command_id cid (transact (mark_dispatching cid aid token r) db).1.commands)
        ≡ true
  unfolding mark_dispatching lock_command_attempt transact
  dispatch_leaves_queue h = ground (
    arith,
    find-modify command_id any (set_sent db.now r) (λ c. refl) cid cid db.commands,
    ==_refl cid,
  )

-- A dispatch of the command finds it queued and leaves it past the queue.
is_dispatch_effect :
    (j : String) (o : Trace.Operation) (db : Db)
    → is_dispatch j o db ≡ true
    → (is_past_queue (find command_id j db.commands) ≡ false)
      × (is_past_queue (find command_id j (Trace.perform o db).commands) ≡ true)
unfolding Trace.perform
is_dispatch_effect j (Trace.Operation.mark cid aid token r) db h =
    let same : cid ≡ j = (==_iff cid j).0 (ground arith) in
    let yes_true : says_true (transact (mark_dispatching cid aid token r) db).0 ≡ true =
      ground arith in
    rw (← same) (
      dispatch_from_queue cid aid token r db yes_true,
      dispatch_leaves_queue cid aid token r db yes_true,
    )
is_dispatch_effect j (Trace.Operation.elapse d) db h = cc
is_dispatch_effect j _ db h = cc

never_again :
    (j : String) (os : List Trace.Operation) (db : Db)
    → is_past_queue (find command_id j db.commands) ≡ true
    → dispatches j os db ≡ 0
unfolding dispatches
never_again j [] db h = refl
never_again j (o ∷ os) db h = elim (Bool-cases (is_dispatch j o db)) [
  | inl sent_now ↦ cc ((is_dispatch_effect j o db sent_now).0)
  | inr quiet ↦ ground (
    arith,
    never_again j os (Trace.perform o db) (
        past_queue_stays (find command_id j db.commands)
          (find command_id j (Trace.perform o db).commands) h (perform-follows o db j)),
  )
]

-- In any sequence of operations at most one MarkDispatching of a command succeeds, whatever leases
-- expire and whatever workers retry.
pub dispatches-le-one : (j : String) (os : List Trace.Operation) (db : Db) → dispatches j os db ≤ 1
unfolding dispatches
dispatches-le-one j [] db = omega arith
dispatches-le-one j (o ∷ os) db = elim (Bool-cases (is_dispatch j o db)) [
  | inl sent_now ↦
      ground (arith, never_again j os (Trace.perform o db) (is_dispatch_effect j o db sent_now).1)
  | inr quiet ↦ ground (arith, dispatches-le-one j os (Trace.perform o db))
]
