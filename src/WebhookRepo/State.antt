-- ===== src/WebhookRepo/State.antt =====
-- The rows of webhook_deliveries: the CHECK constraints that the migrations 002 and 004 declare, and
-- the delivery machine that the statements of postgres_webhook_simulator.go implement, with the
-- lemmas on UPDATE and INSERT that the operations share.
pub mod Statements
pub mod Searches
pub mod Outcomes
use device_platform.Prelude.{
  ℕ, ◌+◌, ◌≡◌, Bool, true, false, ◌&&◌, ◌||◌, not, String, List, [], ◌∷◌, ◌++◌, Option, none, some,
  arith, ltb, leb, if◌then◌else◌, ◌==◌, ◌!=◌, nat_eq, string_eq, ==_iff, ==_refl, Bool-cases, inl,
  inr,
}
use mathlib.Core.Option
use device_platform.Prelude.Table.{find, modify, find-modify, find-append, set_if}
use device_platform.Domain.Types.{WebhookDeliveryStatus, webhook_delivery_status_eq}
use device_platform.Domain.Records.{WebhookDelivery}
use device_platform.Store.{delivery_id}

abbrev is_null {ℓ} : {A : Type ℓ} → Option A → Bool
is_null none = true
is_null (some a) = false

-- chk_webhook_deliveries_lease
abbrev lease_check : WebhookDelivery → Bool
lease_check d =
    (is_null d.lease_token && is_null d.lease_owner && is_null d.lease_expires_at)
    || (not (is_null d.lease_token)
        && not (is_null d.lease_owner)
        && not (is_null d.lease_expires_at))

-- chk_webhook_deliveries_state, as migration 004 has it.
abbrev state_check : WebhookDelivery → Bool
state_check d = elim d.status [
  | WebhookDeliveryStatus.pending ↦
      d.attempt_count == 0 && not (is_null d.next_attempt_at) && is_null d.lease_token
  | WebhookDeliveryStatus.sending ↦
      leb 1 d.attempt_count && leb d.attempt_count 5 && not (is_null d.lease_token)
  | WebhookDeliveryStatus.failed ↦
      leb 1 d.attempt_count
      && leb d.attempt_count 4
      && not (is_null d.next_attempt_at)
      && is_null d.lease_token
  | _ ↦
      leb 1 d.attempt_count
      && leb d.attempt_count 5
      && is_null d.next_attempt_at
      && is_null d.lease_token
]

-- chk_webhook_deliveries_terminal
abbrev terminal_check : WebhookDelivery → Bool
terminal_check d =
    if d.status == WebhookDeliveryStatus.delivered
    then not (is_null d.delivered_at)
    else is_null d.delivered_at

abbrev is_text : Option String → String → Bool
is_text none s = false
is_text (some t) s = t == s

-- chk_webhook_deliveries_config_version and chk_webhook_deliveries_replay
abbrev origin_check : WebhookDelivery → Bool
origin_check d = d.webhook_config_version != 0 && not (is_text d.replay_of_delivery_id d.id)

unfoldable pub meets_checks : WebhookDelivery → Bool
meets_checks d = lease_check d && state_check d && terminal_check d && origin_check d

-- A delivery as its receiver sees it: attempts made so far, and whether one is under way.
pub data Phase : Type 0 where
  waiting : ℕ → Phase
  trying : ℕ → Phase
  delivered dead : Phase

unfoldable pub phase_of : WebhookDelivery → Phase
phase_of d = elim d.status [
  | WebhookDeliveryStatus.pending ↦ waiting d.attempt_count
  | WebhookDeliveryStatus.failed ↦ waiting d.attempt_count
  | WebhookDeliveryStatus.sending ↦ trying d.attempt_count
  | WebhookDeliveryStatus.delivered ↦ delivered
  | WebhookDeliveryStatus.dead ↦ dead
]

-- One step of the delivery machine, or none.
unfoldable pub phase_step : Phase → Phase → Bool
phase_step (waiting n) (waiting m) = m == n
phase_step (waiting n) (trying m) = m == n + 1 && leb m 5
phase_step (waiting n) delivered = false
phase_step (waiting n) dead = leb 1 n
phase_step (trying n) (waiting m) = m == n && leb 1 m && leb m 4
phase_step (trying n) (trying m) = m == n
phase_step (trying n) delivered = true
phase_step (trying n) dead = true
phase_step delivered delivered = true
phase_step delivered other = false
phase_step dead dead = true
phase_step dead other = false

abbrev pub moves_row : WebhookDelivery → WebhookDelivery → Bool
moves_row d e = not (meets_checks d) || (meets_checks e && phase_step (phase_of d) (phase_of e))

abbrev is_new : Phase → Bool
is_new (waiting n) = n == 0
is_new other = false

-- A stored delivery stays stored and takes at most one step; a new one starts with no attempts.
abbrev pub moves : Option WebhookDelivery → Option WebhookDelivery → Bool
moves none none = true
moves none (some e) = meets_checks e && is_new (phase_of e)
moves (some d) none = false
moves (some d) (some e) = moves_row d e

-- What an UPDATE of the row of a key must meet.
abbrev pub moves_at :
    Option WebhookDelivery → (WebhookDelivery → Bool) → (WebhookDelivery → WebhookDelivery) → Bool
moves_at none p f = true
moves_at (some d) p f = if p d then moves_row d (f d) else true

phase_step_refl : (p : Phase) → phase_step p p ≡ true
unfolding phase_step
phase_step_refl (waiting n) = ==_refl n
phase_step_refl (trying n) = ==_refl n
phase_step_refl delivered = ground arith
phase_step_refl dead = ground arith

pub moves_refl : (o : Option WebhookDelivery) → moves o o ≡ true
moves_refl none = ground arith
moves_refl (some d) = ground (arith, phase_step_refl (phase_of d))

moves-map :
    (p : WebhookDelivery → Bool) (f : WebhookDelivery → WebhookDelivery)
    (o : Option WebhookDelivery)
    → moves_at o p f ≡ true
    → moves o (Option.map (set_if p f) o) ≡ true
moves-map p f none h = ground arith
moves-map p f (some d) h = ground (arith, moves_refl (some d))

module _ (p : WebhookDelivery → Bool) (f : WebhookDelivery → WebhookDelivery)
    (keep : (d : WebhookDelivery) → (f d).id ≡ d.id) where
  pub moves-modify :
      (id j : String) (rows : List WebhookDelivery)
      → moves_at (find delivery_id id rows) p f ≡ true
      → moves (find delivery_id j rows) (find delivery_id j (modify delivery_id id p f rows)) ≡ true
  moves-modify id j rows h =
      rw (find-modify delivery_id p f keep id j rows) (elim (Bool-cases (id == j)) [
        | inl same ↦
            rw same (moves-map p f (find delivery_id j rows) (rw ((==_iff id j).0 same) at h))
        | inr other ↦ rw other (moves_refl (find delivery_id j rows))
      ])

pub moves-append :
    (j : String) (rows : List WebhookDelivery) (d : WebhookDelivery)
    → meets_checks d ≡ true
    → is_new (phase_of d) ≡ true
    → moves (find delivery_id j rows) (find delivery_id j (rows ++ d ∷ [])) ≡ true
moves-append j rows d ok new =
    rw (find-append delivery_id j rows d) (ground (arith, moves_refl (find delivery_id j rows)))
