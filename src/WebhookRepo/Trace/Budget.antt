-- ===== src/WebhookRepo/Trace/Budget.antt =====
-- Claims of one delivery in a sequence of operations of the webhook repository.
use device_platform.Prelude.{
  ℕ, ◌+◌, ◌-◌, ◌≤◌, ◌≡◌, refl, sym, ◌∙◌, Bool, true, false, String, Option, none, some, List, [],
  ◌∷◌, arith, ◌==◌, if◌then◌else◌, Bool-cases, Option-cases, inl, inr, string_eq, nat_eq, ==_iff,
  ==_refl,
}
use device_platform.Prelude.Table.{find, find_key, find-modify, affects}
use device_platform.Domain.Types.{webhook_delivery_status_eq}
use device_platform.Domain.Records.{WebhookDelivery}
use device_platform.Store.{Db, Answer, done, delivery_id, transact, Result-cases}
use device_platform.WebhookRepo.Claim.{
  ClaimWebhookRequest, Claimed, is_due, set_sending, claim_due, claim_delivery,
  valid_webhook_max_attempts,
}
use device_platform.WebhookRepo.State.{
  Phase, waiting, trying, delivered, dead, phase_of, phase_step, meets_checks, moves,
}
use device_platform.WebhookRepo.State.Searches.{
  ClaimedRow, claim_delivery-some, claim_due-cases, limit_of_claim,
}
use device_platform.WebhookRepo.Trace
use device_platform.WebhookRepo.Trace.Refine.{perform-moves, MeetsChecks, perform-MeetsChecks}

-- ClaimDue answered with this delivery, so the worker sends it.
abbrev claims_row : String → Answer Claimed → Bool
claims_row j (done none) = false
claims_row j (done (some (d, a))) = d.id == j
claims_row j (Answer.failed e) = false

abbrev is_claim : String → Trace.Operation → Db → Bool
is_claim j (Trace.Operation.claim busy aid r) db =
    claims_row j (transact (claim_due busy aid r) db).0
is_claim j _ db = false

unfoldable pub claims : String → List Trace.Operation → Db → ℕ
claims j [] db = 0
claims j (o ∷ os) db = (if is_claim j o db then 1 else 0) + claims j os (Trace.perform o db)

-- The attempts that a delivery has left.
left : Phase → ℕ
left (waiting n) = 5 - n
left (trying n) = 5 - n
left delivered = 0
left dead = 0

abbrev budget : Option WebhookDelivery → ℕ
budget none = 5
budget (some d) = left (phase_of d)

step_spends : (p q : Phase) → phase_step p q ≡ true → left q ≤ left p
unfolding phase_step left
step_spends (waiting n) (waiting m) h = ground (arith, ==_iff m n)
step_spends (waiting n) (trying m) h = ground (arith, ==_iff m (n + 1))
step_spends (waiting n) delivered h = cc
step_spends (waiting n) dead h = ground arith
step_spends (trying n) (waiting m) h = ground (arith, ==_iff m n)
step_spends (trying n) (trying m) h = ground (arith, ==_iff m n)
step_spends (trying n) delivered h = ground arith
step_spends (trying n) dead h = ground arith
step_spends delivered delivered h = ground arith
step_spends delivered _ h = cc
step_spends dead dead h = ground arith
step_spends dead _ h = cc

left-le : (p : Phase) → left p ≤ 5
unfolding left
left-le (waiting n) = omega arith
left-le (trying n) = omega arith
left-le delivered = omega arith
left-le dead = omega arith

budget_falls :
    (o p : Option WebhookDelivery)
    → ((d : WebhookDelivery) → o ≡ some d → meets_checks d ≡ true)
    → moves o p ≡ true
    → budget p ≤ budget o
budget_falls none none h m = ground arith
budget_falls none (some e) h m = left-le (phase_of e)
budget_falls (some d) none h m = cc
budget_falls (some d) (some e) h m =
    step_spends (phase_of d) (phase_of e) (ground (arith, h d refl))

sending_spends :
    (now max : ℕ) (r : ClaimWebhookRequest) (d : WebhookDelivery)
    → valid_webhook_max_attempts max ≡ true
    → is_due now max d ≡ true
    → left (phase_of (set_sending now r d)) + 1 ≤ left (phase_of d)
unfolding left phase_of
sending_spends now max r d v h = ground arith

module _ (did : String) (r : ClaimWebhookRequest) (db db' : Db) where
  claimed_spends :
      (d : WebhookDelivery)
      → valid_webhook_max_attempts r.max_attempts ≡ true
      → ClaimedRow did r db d db'
      → budget (find delivery_id did db'.deliveries) + 1
        ≤ budget (find delivery_id did db.deliveries)
  unfolding ClaimedRow affects
  claimed_spends d v (hit, rows, found) = elim (Option-cases (find delivery_id did db.deliveries)) [
    | inl missing ↦ ground (arith, missing)
    | inr (d0, e) ↦ ground (
      arith,
      e,
      sending_spends db.now r.max_attempts r d0 v,
      find-modify delivery_id (is_due db.now r.max_attempts) (set_sending db.now r) (λ x. refl) did
          did db.deliveries,
      ==_refl did,
    )
  ]

  claimed_key : (d : WebhookDelivery) → ClaimedRow did r db d db' → d.id ≡ did
  unfolding ClaimedRow
  claimed_key d (hit, rows, found) = find_key delivery_id did db'.deliveries found

claim_spends :
    (busy : String → Bool) (aid j : String) (r : ClaimWebhookRequest) (db : Db)
    → claims_row j (transact (claim_due busy aid r) db).0 ≡ true
    → budget (find delivery_id j (transact (claim_due busy aid r) db).1.deliveries) + 1
      ≤ budget (find delivery_id j db.deliveries)
unfolding transact find
claim_spends busy aid j r db h = elim (claim_due-cases busy aid r db) [
  | inl idle ↦ absurd (cc (rw (idle, transact) at h))
  | inr (c, v, same) ↦ elim (Result-cases (claim_delivery aid r c.id db)) [
    | inr (x, e) ↦ absurd (cc (rw (same, e, transact) at h))
    | inl (none, db', e) ↦ absurd (cc (rw (same, e, transact) at h))
    | inl (some (d, a), db', e) ↦
        let row : ClaimedRow c.id r db d db' = claim_delivery-some aid r c.id db db' d a e in
        let here : d.id ≡ c.id = claimed_key c.id r db db' d row in
        let at_row : j ≡ c.id = sym ((==_iff d.id j).0 (rw (same, e, transact) at h)) ∙ here in
        let spent : budget (find delivery_id j db'.deliveries) + 1
            ≤ budget (find delivery_id j db.deliveries) =
          rw at_row (claimed_spends c.id r db db' d (limit_of_claim r v) row) in
        rw (same, e, transact) spent
  ]
]

is_claim_spends :
    (j : String) (o : Trace.Operation) (db : Db)
    → is_claim j o db ≡ true
    → budget (find delivery_id j (Trace.perform o db).deliveries) + 1
      ≤ budget (find delivery_id j db.deliveries)
unfolding Trace.perform
is_claim_spends j (Trace.Operation.claim busy aid r) db h = claim_spends busy aid j r db h
is_claim_spends j (Trace.Operation.elapse d) db h = cc
is_claim_spends j _ db h = cc

budget-le : (o : Option WebhookDelivery) → budget o ≤ 5
budget-le none = omega arith
budget-le (some d) = left-le (phase_of d)

claims-le-budget :
    (j : String) (os : List Trace.Operation) (db : Db)
    → MeetsChecks db
    → claims j os db ≤ budget (find delivery_id j db.deliveries)
unfolding claims
claims-le-budget j [] db h = omega arith
claims-le-budget j (o ∷ os) db h =
    let rest = claims-le-budget j os (Trace.perform o db) (perform-MeetsChecks o db h) in
    elim (Bool-cases (is_claim j o db)) [
      | inl yes_claim ↦ ground (arith, rest, is_claim_spends j o db yes_claim)
      | inr quiet ↦ ground (
        arith,
        rest,
        budget_falls (find delivery_id j db.deliveries)
            (find delivery_id j (Trace.perform o db).deliveries) (h j) (perform-moves o db j),
      )
    ]

-- Over any sequence of operations of the webhook repository that starts from rows which meet the CHECK
-- constraints, ClaimDue hands out a delivery at most five times, whatever limits the claims name and whatever leases expire.
pub claims-le-five :
    (j : String) (os : List Trace.Operation) (db : Db) → MeetsChecks db → claims j os db ≤ 5
claims-le-five j os db h =
    omega (arith, claims-le-budget j os db h, budget-le (find delivery_id j db.deliveries))
