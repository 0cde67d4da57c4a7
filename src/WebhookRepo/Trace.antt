-- ===== src/WebhookRepo/Trace.antt =====
-- Any sequence of transactions of the webhook repository, in any order, with time passing in between,
-- and the machine that a delivery runs through.
pub mod Refine
pub mod Budget
use device_platform.Prelude.{ℕ, Bool, ◌+◌, ◌≤◌, ◌≡◌, String, List, [], ◌∷◌}
use device_platform.Prelude.Json.{Json}
use device_platform.Store.{Db, Tx, transact}
use device_platform.CommandRepo.Journal.{create_delivery}
use device_platform.WebhookRepo.Claim.{ClaimWebhookRequest, claim_due, exhaust_retry_budget}
use device_platform.WebhookRepo.Complete.{CompleteWebhookAttemptRequest, complete_delivery_attempt}
use device_platform.WebhookRepo.Recover.{RecoverExpiredWebhookRequest, recover_next_expired_sending}
use device_platform.WebhookRepo.Replay.{create_replay}
use device_platform.WebhookRepo.State.{Phase, waiting, trying, delivered, dead}

pub data Operation : Type 0 where
  deliver : String → String → Json → Operation
  replay : String → String → Operation
  claim : (String → Bool) → String → ClaimWebhookRequest → Operation
  complete : String → String → CompleteWebhookAttemptRequest → Operation
  recover : (String → Bool) → RecoverExpiredWebhookRequest → Operation
  exhaust : (String → Bool) → ℕ → Operation
  elapse : ℕ → Operation

abbrev after {ℓ} : {A : Type ℓ} → Tx A → Db → Db
after m db = (transact m db).1

unfoldable pub perform : Operation → Db → Db
perform (deliver id eid body) = after (create_delivery id eid body)
perform (replay id replay_of) = after (create_replay id replay_of)
perform (claim busy aid r) = after (claim_due busy aid r)
perform (complete did token r) = after (complete_delivery_attempt did token r)
perform (recover busy r) = after (recover_next_expired_sending busy r)
perform (exhaust busy max) = after (exhaust_retry_budget busy max)
perform (elapse d) = λ db. record db { now = db.now + d }

unfoldable pub perform_all : List Operation → Db → Db
perform_all [] db = db
perform_all (o ∷ os) db = perform_all os (perform o db)

-- The delivery machine: five attempts at most, and a rest after each that fails.
pub data Step : Phase → Phase → Type 0 where
  begin : (n m : ℕ) → m ≡ n + 1 → m ≤ 5 → Step (waiting n) (trying m)
  rest : (n m : ℕ) → m ≡ n → 1 ≤ m → m ≤ 4 → Step (trying n) (waiting m)
  succeed : (n : ℕ) → Step (trying n) delivered
  give_up : (n : ℕ) → Step (trying n) dead
  run_out : (n : ℕ) → 1 ≤ n → Step (waiting n) dead

pub data Run (p : Phase) : Phase → Type 0 where
  here : Run p p
  next : {q r : Phase} → Run p q → Step q r → Run p r
