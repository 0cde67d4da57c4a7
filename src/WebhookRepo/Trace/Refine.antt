-- ===== src/WebhookRepo/Trace/Refine.antt =====
-- The tables of deliveries as an implementation of the delivery machine.
use device_platform.Prelude.{
  ◌≡◌, refl, true, String, Option, none, some, List, [], ◌∷◌, arith, ◌⊎◌, inl, inr, nat_eq, ==_iff,
}
use device_platform.Prelude.Table.{find}
use device_platform.Domain.Records.{WebhookDelivery}
use device_platform.Store.{Db, delivery_id}
use device_platform.WebhookRepo.State.{
  Phase, waiting, trying, delivered, dead, phase_of, phase_step, meets_checks, moves, moves_refl,
}
use device_platform.WebhookRepo.State.Statements.{create_delivery-Moves}
use device_platform.WebhookRepo.State.Searches.{claim_due-Moves, exhaust_retry_budget-Moves}
use device_platform.WebhookRepo.State.Outcomes.{
  complete_attempt-Moves, recover_next_sending-Moves, create_replay-Moves,
}
use device_platform.WebhookRepo.Trace
use device_platform.WebhookRepo.Trace.{
  Step, begin, rest, succeed, give_up, run_out, Run, here, next,
}

pub perform-moves :
    (o : Trace.Operation) (db : Db) (j : String)
    → moves (find delivery_id j db.deliveries) (find delivery_id j (Trace.perform o db).deliveries)
      ≡ true
unfolding Trace.perform
perform-moves (Trace.Operation.deliver id eid body) = create_delivery-Moves id eid body
perform-moves (Trace.Operation.replay id replay_of) = create_replay-Moves id replay_of
perform-moves (Trace.Operation.claim busy aid r) = claim_due-Moves busy aid r
perform-moves (Trace.Operation.complete did token r) = complete_attempt-Moves did token r
perform-moves (Trace.Operation.recover busy r) = recover_next_sending-Moves busy r
perform-moves (Trace.Operation.exhaust busy max) = exhaust_retry_budget-Moves busy max
perform-moves (Trace.Operation.elapse d) = λ db j. moves_refl (find delivery_id j db.deliveries)

-- Every stored delivery meets the CHECK constraints.
abbrev pub MeetsChecks : Db → Type 0
MeetsChecks db =
    (j : String) (d : WebhookDelivery)
    → find delivery_id j db.deliveries ≡ some d
    → meets_checks d ≡ true

checks_of_moves :
    (o : Option WebhookDelivery) (e : WebhookDelivery)
    → ((d : WebhookDelivery) → o ≡ some d → meets_checks d ≡ true)
    → moves o (some e) ≡ true
    → meets_checks e ≡ true
checks_of_moves none e h m = ground arith
checks_of_moves (some d) e h m = ground (arith, h d refl)

pub perform-MeetsChecks :
    (o : Trace.Operation) (db : Db) → MeetsChecks db → MeetsChecks (Trace.perform o db)
perform-MeetsChecks o db h j e found =
    checks_of_moves (find delivery_id j db.deliveries) e (h j) (rw found at (perform-moves o db j))

-- The CHECK constraints of webhook_deliveries in the migrations hold of every row after any sequence
-- of operations of the webhook repository that starts from rows which meet them, so no statement of
-- these operations is refused by one of them.
pub perform_all-MeetsChecks :
    (os : List Trace.Operation) (db : Db) → MeetsChecks db → MeetsChecks (Trace.perform_all os db)
unfolding Trace.perform_all
perform_all-MeetsChecks [] db h = h
perform_all-MeetsChecks (o ∷ os) db h =
    perform_all-MeetsChecks os (Trace.perform o db) (perform-MeetsChecks o db h)

Step-of_phases : (p q : Phase) → phase_step p q ≡ true → (q ≡ p) ⊎ Step p q
unfolding phase_step
Step-of_phases (waiting n) (waiting m) h = inl (ground (arith, ==_iff m n))
Step-of_phases (waiting n) (trying m) h = inr (begin n m (ground arith) (ground arith))
Step-of_phases (waiting n) delivered h = cc
Step-of_phases (waiting n) dead h = inr (run_out n (ground arith))
Step-of_phases (trying n) (waiting m) h =
    inr (rest n m (ground (arith, ==_iff m n)) (ground arith) (ground arith))
Step-of_phases (trying n) (trying m) h = inl (ground (arith, ==_iff m n))
Step-of_phases (trying n) delivered h = inr (succeed n)
Step-of_phases (trying n) dead h = inr (give_up n)
Step-of_phases delivered delivered h = inl refl
Step-of_phases delivered _ h = cc
Step-of_phases dead dead h = inl refl
Step-of_phases dead _ h = cc

-- What one operation does to a stored delivery.
step_of_moves :
    (d : WebhookDelivery) (o : Option WebhookDelivery)
    → meets_checks d ≡ true
    → moves (some d) o ≡ true
    → (e : WebhookDelivery) × (o ≡ some e) × (phase_step (phase_of d) (phase_of e) ≡ true)
step_of_moves d none c m = cc
step_of_moves d (some e) c m = (e, refl, ground arith)

add_step : {p q : Phase} (r : Phase) → Run p q → (r ≡ q) ⊎ Step q r → Run p r
add_step r run (inl same) = rw same run
add_step r run (inr step) = next run step

refines_from :
    (os : List Trace.Operation) (db : Db) (j : String) (d : WebhookDelivery) (p : Phase)
    → MeetsChecks db
    → find delivery_id j db.deliveries ≡ some d
    → Run p (phase_of d)
    → (e : WebhookDelivery) × (find delivery_id j (Trace.perform_all os db).deliveries ≡ some e)
      × Run p (phase_of e)
unfolding Trace.perform_all
refines_from [] db j d p h found run = (d, found, run)
refines_from (o ∷ os) db j d p h found run =
    let db' = Trace.perform o db in
    let (e, found', step) =
      step_of_moves d (find delivery_id j db'.deliveries) (h j d found)
        (rw found at (perform-moves o db j)) in
    refines_from os db' j e p (perform-MeetsChecks o db h) found'
      (add_step (phase_of e) run (Step-of_phases (phase_of d) (phase_of e) step))

-- Refinement: whatever sequence of operations of the webhook repository runs, from rows that meet the
-- CHECK constraints, a stored delivery stays stored, and its status and number of attempts are
-- reached by a run of the delivery machine: an attempt begins from waiting and only as one of the
-- first five, and it ends in waiting again (below five), in delivered or in dead.
pub perform_all_refines :
    (os : List Trace.Operation) (db : Db) (j : String) (d : WebhookDelivery)
    → MeetsChecks db
    → find delivery_id j db.deliveries ≡ some d
    → (e : WebhookDelivery) × (find delivery_id j (Trace.perform_all os db).deliveries ≡ some e)
      × Run (phase_of d) (phase_of e)
perform_all_refines os db j d h found = refines_from os db j d (phase_of d) h found here
