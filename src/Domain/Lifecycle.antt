-- ===== src/Domain/Lifecycle.antt =====
-- backend/internal/domain/lifecycle.go: which statuses, phases and confirmation levels may follow
-- which.
pub mod Order
use device_platform.Prelude.{
  ℕ, Bool, true, false, ◌&&◌, ◌||◌, List, [], ◌∷◌, Option, none, some, leb, Comparable, ◌==◌,
}
use device_platform.Domain.Types.{
  CommandStatus, AttemptPhase, ConfirmationLevel, command_status_eq, attempt_phase_eq,
}

-- The map literal: a status that is no key has no successors.
abbrev command_transitions : CommandStatus → List CommandStatus
command_transitions CommandStatus.queued =
    CommandStatus.sent ∷ CommandStatus.cancelled ∷ CommandStatus.failed ∷ CommandStatus.timeout ∷ []
command_transitions CommandStatus.sent =
    CommandStatus.acked ∷ CommandStatus.success ∷ CommandStatus.failed ∷ CommandStatus.timeout ∷ []
command_transitions CommandStatus.acked =
    CommandStatus.success ∷ CommandStatus.failed ∷ CommandStatus.timeout ∷ []
command_transitions _ = []

-- `_, ok := set[key]`
abbrev has_key {ℓ} : {A : Type ℓ} ⦃e : Comparable A⦄ → A → List A → Bool
has_key a [] = false
has_key a (x ∷ xs) = a == x || has_key a xs

unfoldable pub can_transition_command : CommandStatus → CommandStatus → Bool
can_transition_command from to = has_key to (command_transitions from)

unfoldable pub is_terminal : CommandStatus → Bool
is_terminal CommandStatus.success = true
is_terminal CommandStatus.failed = true
is_terminal CommandStatus.timeout = true
is_terminal CommandStatus.cancelled = true
is_terminal _ = false

unfoldable can_transition_attempt : AttemptPhase → AttemptPhase → Bool
can_transition_attempt from to =
    (from == AttemptPhase.claimed
      && (to == AttemptPhase.dispatching || to == AttemptPhase.completed))
    || (from == AttemptPhase.dispatching && to == AttemptPhase.completed)

-- `(rank, ok)`: `none` is `ok = false`.
unfoldable pub confirmation_rank : ConfirmationLevel → Option ℕ
confirmation_rank ConfirmationLevel.none = some 0
confirmation_rank ConfirmationLevel.transport_sent = some 1
confirmation_rank ConfirmationLevel.provider_accepted = some 2
confirmation_rank ConfirmationLevel.device_acked = some 3
confirmation_rank ConfirmationLevel.device_final = some 4
confirmation_rank (ConfirmationLevel.other s) = none

abbrev both_ranked : Option ℕ → Option ℕ → Bool
both_ranked (some from) (some to) = leb from to
both_ranked _ _ = false

unfoldable pub can_advance_confirmation : ConfirmationLevel → ConfirmationLevel → Bool
unfolding confirmation_rank
can_advance_confirmation from to = both_ranked (confirmation_rank from) (confirmation_rank to)
