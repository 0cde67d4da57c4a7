-- ===== src/WebhookRepo/State/Searches.antt =====
-- Lemmas on the delivery machine for ClaimDue and ExhaustRetryBudget.
use device_platform.Prelude.{
  ℕ, ◌≡◌, refl, Bool, true, false, String, Option, none, some, arith, string_eq, nat_eq,
  Option-cases, inl, inr, Bool-cases, ◌⊎◌,
}
use device_platform.Prelude.Table.{find, modify, affects}
use device_platform.Domain.Types.{webhook_delivery_status_eq}
use device_platform.Domain.Records.{WebhookDelivery, WebhookDeliveryAttempt}
use device_platform.Store.{Db, Tx, ok, delivery_id, transact, Result-cases}
use device_platform.WebhookRepo.Claim.{
  ClaimWebhookRequest, is_due, set_sending, is_exhausted, set_exhausted, valid_webhook_max_attempts,
  claim_delivery, claim_due, insert_delivery_attempt, get_delivery, get_delivery_attempt,
  claim_refused, due_delivery, exhausted_delivery, exhaust_retry_budget, Claimed,
}
use device_platform.WebhookRepo.State.{moves, moves_refl, moves-modify}
use device_platform.WebhookRepo.State.Statements.{
  Moves, moves_at_of, sending_moves, exhausted_moves, moves_same,
}

insert_attempt_keeps :
    (aid did : String) (db db' : Db) (u : Unit {0})
    → insert_delivery_attempt aid did db ≡ ok u db'
    → db'.deliveries ≡ db.deliveries
unfolding insert_delivery_attempt
insert_attempt_keeps aid did db db' u h = ground arith

unfoldable pub ClaimedRow : String → ClaimWebhookRequest → Db → WebhookDelivery → Db → Type 0
ClaimedRow did r db d db' =
    (affects delivery_id did (is_due db.now r.max_attempts) db.deliveries ≡ true)
    × (db'.deliveries
        ≡ modify delivery_id did (is_due db.now r.max_attempts) (set_sending db.now r)
            db.deliveries)
    × (find delivery_id did db'.deliveries ≡ some d)

module _ (aid : String) (r : ClaimWebhookRequest) (did : String) (db db' : Db) where
  claim_delivery-none : claim_delivery aid r did db ≡ ok none db' → db'.deliveries ≡ db.deliveries
  unfolding claim_delivery get_delivery get_delivery_attempt
  claim_delivery-none h = ground arith

  pub claim_delivery-some :
      (d : WebhookDelivery) (a : WebhookDeliveryAttempt)
      → claim_delivery aid r did db ≡ ok (some (d, a)) db'
      → ClaimedRow did r db d db'
  unfolding claim_delivery get_delivery get_delivery_attempt ClaimedRow
  claim_delivery-some d a h = ground arith

  claim_delivery-keeps :
      valid_webhook_max_attempts r.max_attempts ≡ true
      → (c : Claimed) → claim_delivery aid r did db ≡ ok c db'
      → (j : String)
      → moves (find delivery_id j db.deliveries) (find delivery_id j db'.deliveries) ≡ true
  unfolding ClaimedRow
  claim_delivery-keeps v none h j = moves_same j db db' (claim_delivery-none h)
  claim_delivery-keeps v (some (d, a)) h j = rw (claim_delivery-some d a h).1 (
      moves-modify (is_due db.now r.max_attempts) (set_sending db.now r) (λ x. refl) did j
        db.deliveries
        (moves_at_of (find delivery_id did db.deliveries) (is_due db.now r.max_attempts)
          (set_sending db.now r) (λ x e p. sending_moves db.now r.max_attempts r x v p)))

-- Moves follows from what a committed run does.
pub Moves-of_ok {ℓ} :
    {A : Type ℓ} (m : Tx A)
    → ((db db' : Db) (a : A)
        → m db ≡ ok a db'
        → (j : String)
        → moves (find delivery_id j db.deliveries) (find delivery_id j db'.deliveries) ≡ true)
    → Moves m
unfolding transact find
Moves-of_ok m h db j = elim (Result-cases (m db)) [
  | inl (a, db', e) ↦ rw (e, transact) (h db db' a e j)
  | inr (x, e) ↦ rw (e, transact) (moves_refl (find delivery_id j db.deliveries))
]

-- The same, of a run that is known to commit.
pub moves_after {ℓ} :
    {A : Type ℓ} (m : Tx A) (db db' : Db) (a : A)
    → m db ≡ ok a db'
    → (j : String)
    → moves (find delivery_id j db.deliveries) (find delivery_id j (transact m db).1.deliveries)
      ≡ true
    → moves (find delivery_id j db.deliveries) (find delivery_id j db'.deliveries) ≡ true
unfolding transact find
moves_after m db db' a e j h = rw (e, transact) at h

pub limit_of_claim :
    (r : ClaimWebhookRequest)
    → claim_refused r ≡ false
    → valid_webhook_max_attempts r.max_attempts ≡ true
limit_of_claim r fine = ground arith

-- ClaimDue does nothing, or it is the claim of one delivery under a request that is not refused.
pub claim_due-cases :
    (busy : String → Bool) (aid : String) (r : ClaimWebhookRequest) (db : Db)
    → (claim_due busy aid r db ≡ ok none db)
      ⊎ ((d : WebhookDelivery) × (claim_refused r ≡ false)
          × (claim_due busy aid r db ≡ claim_delivery aid r d.id db))
unfolding claim_due
claim_due-cases busy aid r db = elim (Bool-cases (claim_refused r)) [
  | inl refused ↦ inl (rw refused refl)
  | inr fine ↦ elim (Option-cases (due_delivery busy r db)) [
    | inl nothing ↦ inl (rw (fine, nothing) refl)
    | inr (d, found) ↦ inr (d, fine, rw (fine, found) refl)
  ]
]

pub claim_due-Moves :
    (busy : String → Bool) (aid : String) (r : ClaimWebhookRequest) → Moves (claim_due busy aid r)
claim_due-Moves busy aid r = Moves-of_ok (claim_due busy aid r) (λ db db' a h j.
    elim (claim_due-cases busy aid r db) [
      | inl idle ↦ moves_same j db db' (ground (arith, idle))
      | inr (d, v, same) ↦
          claim_delivery-keeps aid r d.id db db' (limit_of_claim r v) a (ground (arith, same)) j
    ])

exhaust-keeps :
    (busy : String → Bool) (max : ℕ) (db db' : Db) (o : Option WebhookDelivery)
    → exhaust_retry_budget busy max db ≡ ok o db'
    → (j : String)
    → moves (find delivery_id j db.deliveries) (find delivery_id j db'.deliveries) ≡ true
unfolding exhaust_retry_budget
exhaust-keeps busy max db db' o h j = elim (Bool-cases (valid_webhook_max_attempts max)) [
  | inr bad ↦ moves_same j db db' (ground (arith, bad))
  | inl v ↦ elim (Option-cases (exhausted_delivery busy max db)) [
    | inl nothing ↦ moves_same j db db' (ground (arith, v, nothing))
    | inr (d, found) ↦ ground (
      arith,
      v,
      found,
      moves_refl (find delivery_id j db.deliveries),
      moves-modify (is_exhausted max) (set_exhausted db.now) (λ x. refl) d.id j db.deliveries
          (moves_at_of (find delivery_id d.id db.deliveries) (is_exhausted max)
            (set_exhausted db.now) (λ x e p. exhausted_moves db.now max x v p)),
    )
  ]
]

pub exhaust_retry_budget-Moves :
    (busy : String → Bool) (max : ℕ) → Moves (exhaust_retry_budget busy max)
exhaust_retry_budget-Moves busy max =
    Moves-of_ok (exhaust_retry_budget busy max) (exhaust-keeps busy max)
