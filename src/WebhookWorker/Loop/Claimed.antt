-- ===== src/WebhookWorker/Loop/Claimed.antt =====
-- ClaimDue as DispatchNext calls it, against what dispatchClaimed needs.
use device_platform.Prelude.{
  ◌+◌, ◌/◌, ◌≡◌, refl, Bool, true, false, String, some, arith, string_eq, ==_refl, Option-cases,
  inl, inr,
}
use device_platform.Prelude.Table.{find, find_key, find-append, find-modify, affects}
use device_platform.Domain.Types.{webhook_delivery_status_eq}
use device_platform.Domain.Records.{WebhookDelivery, WebhookDeliveryAttempt}
use device_platform.Store.{Db, ok, delivery_id, delivery_attempt_id}
use device_platform.CommandRepo.Dispatch.{microsecond}
use device_platform.WebhookRepo.Claim.{
  ClaimWebhookRequest, claim_due, claim_delivery, claim_refused, insert_delivery_attempt,
  get_delivery, get_delivery_attempt, new_delivery_attempt, is_due, set_sending,
}
use device_platform.WebhookRepo.State.Searches.{ClaimedRow, claim_delivery-some, claim_due-cases}
use device_platform.WebhookWorker.Deliver.Held.{IsHeld}

module _ (aid : String) (r : ClaimWebhookRequest) (did : String) (db db' : Db) (d : WebhookDelivery)
    (a : WebhookDeliveryAttempt) (h : claim_delivery aid r did db ≡ ok (some (d, a)) db') where
  found_attempt : find delivery_attempt_id aid db'.delivery_attempts ≡ some a
  unfolding claim_delivery get_delivery get_delivery_attempt
  found_attempt = ground arith

  same_now : db'.now ≡ db.now
  unfolding claim_delivery get_delivery get_delivery_attempt
  same_now = ground arith

  claimed_row :
      (d0 : WebhookDelivery) × (is_due db.now r.max_attempts d0 ≡ true)
      × (d ≡ set_sending db.now r d0)
  unfolding ClaimedRow affects
  claimed_row = elim (Option-cases (find delivery_id did db.deliveries)) [
    | inl missing ↦ ground (arith, missing, claim_delivery-some aid r did db db' d a h)
    | inr (d0, e) ↦ (
      d0,
      ground (arith, e, claim_delivery-some aid r did db db' d a h),
      ground (
        arith,
        e,
        claim_delivery-some aid r did db db' d a h,
        find-modify delivery_id (is_due db.now r.max_attempts) (set_sending db.now r) (λ x. refl)
            did did db.deliveries,
        ==_refl did,
      ),
    )
  ]

  is_new_attempt : a ≡ new_delivery_attempt aid d db.now
  unfolding claim_delivery get_delivery get_delivery_attempt insert_delivery_attempt
      new_delivery_attempt
  is_new_attempt = ground (
    arith,
    find-append delivery_attempt_id aid db.delivery_attempts (new_delivery_attempt aid d db.now),
    ==_refl aid,
  )

  claimed-IsHeld : claim_refused r ≡ false → IsHeld d a r.lease_token db'
  unfolding new_delivery_attempt ClaimedRow
  claimed-IsHeld fine =
      let (hit, rows, found) = claim_delivery-some aid r did db db' d a h in
      let (d0, due, made) = claimed_row in
      record {
        row = simp (find_key delivery_id did db'.deliveries found) found;
        attempt = ground (arith, found_attempt, is_new_attempt);
        of_delivery = ground (arith, is_new_attempt);
        sending = ground (arith, made);
        leased = ground (arith, made);
        expiry = (
          db.now + r.lease_duration / microsecond,
          ground (arith, made),
          ground (arith, same_now),
        );
        open_attempt = ground (arith, is_new_attempt);
        numbered = ground (arith, is_new_attempt);
        counted = ground (arith, made);
      }

-- Whatever ClaimDue hands out, the worker holds it in the sense of IsHeld at the end of the claim.
pub claim_due-IsHeld :
    (busy : String → Bool) (aid : String) (r : ClaimWebhookRequest) (db db' : Db)
    (d : WebhookDelivery) (a : WebhookDeliveryAttempt)
    → claim_due busy aid r db ≡ ok (some (d, a)) db'
    → IsHeld d a r.lease_token db'
claim_due-IsHeld busy aid r db db' d a h = elim (claim_due-cases busy aid r db) [
  | inl idle ↦ absurd (cc)
  | inr (c, v, same) ↦ claimed-IsHeld aid r c.id db db' d a (ground (arith, same)) v
]
