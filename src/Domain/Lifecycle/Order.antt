-- ===== src/Domain/Lifecycle/Order.antt =====
-- What the lifecycle tables say as a whole.
use device_platform.Prelude.{
  ℕ, Bool, Option, some, zero, suc, ◌+◌, ◌≤◌, ◌<◌, ◌≡◌, refl, ap, ◌↔◌, true, false, none, arith,
  ◌⊎◌,
}
use device_platform.Domain.Types.{CommandStatus, ConfirmationLevel, attempt_phase_eq}
use device_platform.Domain.Lifecycle.{
  can_transition_command, is_terminal, confirmation_rank, can_advance_confirmation,
}

-- A status is terminal exactly when the table has no transition out of it.
pub is_terminal_iff :
    (from : CommandStatus)
    → (is_terminal from ≡ true) ↔ ((to : CommandStatus) → can_transition_command from to ≡ false)
unfolding is_terminal can_transition_command
is_terminal_iff CommandStatus.queued = (λ h. cc, λ h. cc (h CommandStatus.sent))
is_terminal_iff CommandStatus.sent = (λ h. cc, λ h. cc (h CommandStatus.acked))
is_terminal_iff CommandStatus.acked = (λ h. cc, λ h. cc (h CommandStatus.success))
is_terminal_iff CommandStatus.success = (λ h to. refl, λ h. refl)
is_terminal_iff CommandStatus.failed = (λ h to. refl, λ h. refl)
is_terminal_iff CommandStatus.timeout = (λ h to. refl, λ h. refl)
is_terminal_iff CommandStatus.cancelled = (λ h to. refl, λ h. refl)

-- A chain of transitions, each permitted by the table.
pub data Chain : CommandStatus → CommandStatus → ℕ → Type 0 where
  stop : {s : CommandStatus} → Chain s s zero
  go :
      {s t u : CommandStatus} {n : ℕ}
      → can_transition_command s t ≡ true
      → Chain t u n
      → Chain s u (suc n)

-- How many transitions a status has behind it at least.
abbrev progress : CommandStatus → ℕ
progress CommandStatus.queued = 0
progress CommandStatus.sent = 1
progress CommandStatus.acked = 2
progress _ = 3

progress-step : (s t : CommandStatus) → can_transition_command s t ≡ true → progress s < progress t
unfolding can_transition_command
progress-step s t h = ground arith

progress-le : (s : CommandStatus) → progress s ≤ 3
progress-le s = ground arith

progress-path : {s t : CommandStatus} {n : ℕ} → Chain s t n → progress s + n ≤ progress t
progress-path stop = omega arith
progress-path (go {s} {t} h p) = omega (arith, progress-step s t h, progress-path p)

-- No command takes more than three transitions, and none comes back to a status it has left.
pub transitions_bounded : {s t : CommandStatus} {n : ℕ} → Chain s t n → (n ≤ 3) × (s ≡ t → n ≡ 0)
transitions_bounded {s} {t} p = (
  omega (arith, progress-path p, progress-le t),
  λ e. omega (arith, progress-path p, ap progress e),
)

-- The next level up, from no confirmation to the final report of the device.
abbrev pub next_level : ConfirmationLevel → Option ConfirmationLevel
next_level ConfirmationLevel.none = some ConfirmationLevel.transport_sent
next_level ConfirmationLevel.transport_sent = some ConfirmationLevel.provider_accepted
next_level ConfirmationLevel.provider_accepted = some ConfirmationLevel.device_acked
next_level ConfirmationLevel.device_acked = some ConfirmationLevel.device_final
next_level _ = none

abbrev pub is_level : ConfirmationLevel → Bool
is_level (ConfirmationLevel.other s) = false
is_level _ = true

-- Any number of single steps up, none included.
pub data Climb : ConfirmationLevel → ConfirmationLevel → Type 0 where
  rest : {a : ConfirmationLevel} → is_level a ≡ true → Climb a a
  up : {a b c : ConfirmationLevel} → next_level a ≡ some b → Climb b c → Climb a c

advance-up :
    (a b c : ConfirmationLevel)
    → next_level a ≡ some b
    → can_advance_confirmation b c ≡ true
    → can_advance_confirmation a c ≡ true
unfolding can_advance_confirmation confirmation_rank
advance-up a b c h k = ground arith

advance-Climb : {a b : ConfirmationLevel} → Climb a b → can_advance_confirmation a b ≡ true
unfolding can_advance_confirmation confirmation_rank
advance-Climb (rest {a} h) = ground arith
advance-Climb (up {a} {b} {c} h p) = advance-up a b c h (advance-Climb p)

-- From each level to those at or above it, the highest level first.
final-Climb :
    (b : ConfirmationLevel)
    → can_advance_confirmation ConfirmationLevel.device_final b ≡ true
    → Climb ConfirmationLevel.device_final b
unfolding can_advance_confirmation confirmation_rank
final-Climb ConfirmationLevel.device_final h = rest refl
final-Climb _ h = absurd (ground arith)

acked-Climb :
    (b : ConfirmationLevel)
    → can_advance_confirmation ConfirmationLevel.device_acked b ≡ true
    → Climb ConfirmationLevel.device_acked b
unfolding can_advance_confirmation confirmation_rank
acked-Climb ConfirmationLevel.device_acked h = rest refl
acked-Climb b h = up refl (final-Climb b (ground arith))

accepted-Climb :
    (b : ConfirmationLevel)
    → can_advance_confirmation ConfirmationLevel.provider_accepted b ≡ true
    → Climb ConfirmationLevel.provider_accepted b
unfolding can_advance_confirmation confirmation_rank
accepted-Climb ConfirmationLevel.provider_accepted h = rest refl
accepted-Climb b h = up refl (acked-Climb b (ground arith))

sent-Climb :
    (b : ConfirmationLevel)
    → can_advance_confirmation ConfirmationLevel.transport_sent b ≡ true
    → Climb ConfirmationLevel.transport_sent b
unfolding can_advance_confirmation confirmation_rank
sent-Climb ConfirmationLevel.transport_sent h = rest refl
sent-Climb b h = up refl (accepted-Climb b (ground arith))

none-Climb :
    (b : ConfirmationLevel)
    → can_advance_confirmation ConfirmationLevel.none b ≡ true
    → Climb ConfirmationLevel.none b
unfolding can_advance_confirmation confirmation_rank
none-Climb ConfirmationLevel.none h = rest refl
none-Climb b h = up refl (sent-Climb b (ground arith))

Climb-advance : (a b : ConfirmationLevel) → can_advance_confirmation a b ≡ true → Climb a b
unfolding can_advance_confirmation confirmation_rank
Climb-advance ConfirmationLevel.none b h = none-Climb b h
Climb-advance ConfirmationLevel.transport_sent b h = sent-Climb b h
Climb-advance ConfirmationLevel.provider_accepted b h = accepted-Climb b h
Climb-advance ConfirmationLevel.device_acked b h = acked-Climb b h
Climb-advance ConfirmationLevel.device_final b h = final-Climb b h
Climb-advance (ConfirmationLevel.other s) b h = absurd (ground arith)

-- CanAdvanceConfirmation holds exactly when the second level is reached from the first by steps up the
-- five levels, no step included. So it is a total order on them, and a level that is none of them
-- advances to nothing, and nothing advances to it.
pub can_advance_total_order :
    (a b c : ConfirmationLevel)
    → ((can_advance_confirmation a b ≡ true) ↔ Climb a b)
      × (can_advance_confirmation a b ≡ true
          → can_advance_confirmation b c ≡ true
          → can_advance_confirmation a c ≡ true)
      × (can_advance_confirmation a b ≡ true → can_advance_confirmation b a ≡ true → a ≡ b)
      × ((can_advance_confirmation a b ≡ true)
          ⊎ (can_advance_confirmation b a ≡ true)
          ⊎ (is_level a ≡ false)
          ⊎ (is_level b ≡ false))
unfolding can_advance_confirmation confirmation_rank
can_advance_total_order a b c =
    ((Climb-advance a b, advance-Climb), ground arith, ground arith, ground arith)
