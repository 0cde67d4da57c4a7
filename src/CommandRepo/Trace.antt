-- ===== src/CommandRepo/Trace.antt =====
-- Any sequence of transactions of the repository, in any order, with time passing in between. Each
-- operation runs in its own transaction, as its callers run it or as a part of a longer one.
pub mod Lifecycle
pub mod Once
use device_platform.Prelude.{ℕ, ◌+◌, Bool, String, Option, List, [], ◌∷◌}
use device_platform.Prelude.Json.{Json}
use device_platform.Domain.Types.{CommandStatus}
use device_platform.Domain.Records.{Command, CommandResult, Event}
use device_platform.Store.{Db, Tx, transact}
use device_platform.CommandRepo.Dispatch.{
  MarkDispatchingRequest, mark_dispatching, CompleteAttemptRequest, complete_attempt,
}
use device_platform.CommandRepo.Evidence.{
  update_evidence_from_attempt, Transition, transition_from_attempt, VerifiedEvidenceUpdateRequest,
  update_provider_acceptance_from_verified_message,
}
use device_platform.CommandRepo.Expire.{
  cancel_queued, expire_queued, expire_result_observation, recover_expired_dispatching,
}
use device_platform.CommandRepo.Next.{
  expire_next_queued, expire_next_result_observation, recover_next_expired_dispatching,
}
use device_platform.CommandRepo.Claim.{ClaimRequest, claim_next, ReclaimRequest, reclaim_attempt}
use device_platform.CommandRepo.Create.{create_command}
use device_platform.CommandRepo.Aggregate.{create_result, apply_result}
use device_platform.CommandRepo.Journal.{create_event, create_delivery}

pub data Operation : Type 0 where
  create : Command → Operation
  claim : (String → Bool) → String → ClaimRequest → Operation
  reclaim : String → String → ReclaimRequest → Operation
  mark : String → String → String → MarkDispatchingRequest → Operation
  complete : String → String → String → CompleteAttemptRequest → Operation
  update_evidence : String → String → String → CommandStatus → Operation
  transition : String → String → String → Transition → Operation
  verify : String → VerifiedEvidenceUpdateRequest → Operation
  cancel : String → Option String → Operation
  expire : String → Operation
  expire_next : (String → Bool) → Operation
  expire_result : String → Operation
  expire_next_result : (String → Bool) → Operation
  recover : String → String → String → Operation
  recover_next : (String → Bool) → Operation
  record_result : CommandResult → Operation
  aggregate : CommandResult → Operation
  record_event : Event → Operation
  deliver : String → String → Json → Operation
  elapse : ℕ → Operation

abbrev after {ℓ} : {A : Type ℓ} → Tx A → Db → Db
after m db = (transact m db).1

unfoldable pub perform : Operation → Db → Db
perform (create c) = after (create_command c)
perform (claim busy aid r) = after (claim_next busy aid r)
perform (reclaim aid expired r) = after (reclaim_attempt aid expired r)
perform (mark cid aid token r) = after (mark_dispatching cid aid token r)
perform (complete cid aid token r) = after (complete_attempt cid aid token r)
perform (update_evidence cid aid token s) = after (update_evidence_from_attempt cid aid token s)
perform (transition cid aid token t) = after (transition_from_attempt cid aid token t)
perform (verify cid r) = after (update_provider_acceptance_from_verified_message cid r)
perform (cancel cid detail) = after (cancel_queued cid detail)
perform (expire cid) = after (expire_queued cid)
perform (expire_next busy) = after (expire_next_queued busy)
perform (expire_result cid) = after (expire_result_observation cid)
perform (expire_next_result busy) = after (expire_next_result_observation busy)
perform (recover cid aid token) = after (recover_expired_dispatching cid aid token)
perform (recover_next busy) = after (recover_next_expired_dispatching busy)
perform (record_result r) = after (create_result r)
perform (aggregate r) = after (apply_result r)
perform (record_event e) = after (create_event e)
perform (deliver id eid body) = after (create_delivery id eid body)
perform (elapse d) = λ db. record db { now = db.now + d }

unfoldable pub perform_all : List Operation → Db → Db
perform_all [] db = db
perform_all (o ∷ os) db = perform_all os (perform o db)
