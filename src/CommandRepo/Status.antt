-- ===== src/CommandRepo/Status.antt =====
-- How the status of a command may change from one state of the database to a later one.
pub mod Statements
pub mod Deadlines
pub mod Writes
pub mod Searches
use device_platform.Prelude.{
  ◌≡◌, ap, Bool, true, false, ◌||◌, not, String, List, [], ◌∷◌, ◌++◌, Option, none, some, arith,
  if◌then◌else◌, ◌==◌, string_eq, ==_iff, Bool-cases, inl, inr,
}
use mathlib.Core.Option
use device_platform.Prelude.Table.{find, modify, find-modify, find-append, set_if}
use device_platform.Domain.Types.{CommandStatus, command_status_eq}
use device_platform.Domain.Lifecycle.{can_transition_command}
use device_platform.Domain.Records.{Command}
use device_platform.Store.{command_id}

-- The status is kept, or it changes along domain.CanTransitionCommand.
abbrev status_step : CommandStatus → CommandStatus → Bool
status_step from to = from == to || can_transition_command from to

-- A stored command stays stored, and its status takes at most one step.
abbrev pub follows : Option Command → Option Command → Bool
follows none later = true
follows (some c) none = false
follows (some c) (some d) = status_step c.status d.status

-- What an UPDATE of the row of a key must meet.
abbrev pub steps_at : Option Command → (Command → Bool) → (Command → Command) → Bool
steps_at none p f = true
steps_at (some c) p f = if p c then status_step c.status (f c).status else true

pub status_step_refl : (s : CommandStatus) → status_step s s ≡ true
status_step_refl s = ground arith

pub follows_refl : (o : Option Command) → follows o o ≡ true
follows_refl none = ground arith
follows_refl (some c) = status_step_refl c.status

follows-map :
    (p : Command → Bool) (f : Command → Command) (o : Option Command)
    → steps_at o p f ≡ true
    → follows o (Option.map (set_if p f) o) ≡ true
follows-map p f none h = ground arith
follows-map p f (some c) h = ground (arith, status_step_refl c.status)

module _ (p : Command → Bool) (f : Command → Command) (keep : (c : Command) → (f c).id ≡ c.id) where
  pub follows-modify :
      (id j : String) (rows : List Command)
      → steps_at (find command_id id rows) p f ≡ true
      → follows (find command_id j rows) (find command_id j (modify command_id id p f rows)) ≡ true
  follows-modify id j rows h =
      rw (find-modify command_id p f keep id j rows) (elim (Bool-cases (id == j)) [
        | inl same ↦
            rw same (follows-map p f (find command_id j rows) (rw ((==_iff id j).0 same) at h))
        | inr other ↦ rw other (follows_refl (find command_id j rows))
      ])

pub follows-append :
    (j : String) (rows : List Command) (c : Command)
    → follows (find command_id j rows) (find command_id j (rows ++ c ∷ [])) ≡ true
follows-append j rows c =
    rw (find-append command_id j rows c) (ground (arith, follows_refl (find command_id j rows)))
