-- ===== src/Prelude/Table.antt =====
-- A database table: its rows in the order of insertion, each with a primary key. A statement that
-- names the key in its WHERE clause reads or writes the one row that has the key.
use Prim.Native.Nat.{ℕ}
use Prim.Native.String
use Prim.Native.String.{String}
use text.Mathlib.Text.{is_lt}
use mathlib.Core.Path.{◌≡◌, refl}
use mathlib.Core.Logic.{inl, inr}
use mathlib.Core.Bool.{Bool, false}
use mathlib.Core.Option.{Option, none, some}
use mathlib.Core.Option
use mathlib.Core.List.{List, [], ◌∷◌, ◌++◌}
use native.Mathlib.Omega.{arith}
use device_platform.Prelude.Tests.{if◌then◌else◌, ◌==◌, string_eq, nat_eq, ltb, ==_iff, Bool-cases}

-- `SET` under the rest of the WHERE clause.
abbrev pub set_if {ℓ} : {R : Type ℓ} → (R → Bool) → (R → R) → R → R
set_if p f r = if p r then f r else r

module _ {ℓ} {R : Type ℓ} (key : R → String) where
  -- SELECT … WHERE id = $1
  unfoldable pub find : String → List R → Option R
  find id [] = none
  find id (r ∷ rows) = if key r == id then some r else find id rows

  -- UPDATE … SET f WHERE id = $1 AND p
  unfoldable pub modify : String → (R → Bool) → (R → R) → List R → List R
  modify id p f [] = []
  modify id p f (r ∷ rows) = if key r == id then set_if p f r ∷ rows else r ∷ modify id p f rows

  -- Whether that statement affects exactly one row.
  unfoldable pub affects : String → (R → Bool) → List R → Bool
  affects id p rows = elim (find id rows) [ none ↦ false | some r ↦ p r ]

  -- SELECT … WHERE p
  unfoldable pub select : (R → Bool) → List R → List R
  select p [] = []
  select p (r ∷ rows) = if p r then r ∷ select p rows else select p rows

  -- ORDER BY rank, key LIMIT 1; ids are compared as texts, as the canonical form of a uuid is.
  before : (R → ℕ) → R → R → Bool
  before rank r s =
      if rank r == rank s then is_lt (String.compare (key r) (key s)) else ltb (rank r) (rank s)

  unfoldable pub first_by : (R → ℕ) → List R → Option R
  unfolding before
  first_by rank [] = none
  first_by rank (r ∷ rows) = elim (first_by rank rows) [
    | none ↦ some r
    | some s ↦ if before rank s r then some s else some r
  ]

  -- ORDER BY first, second, key LIMIT 1
  before_both : (R → ℕ) → (R → ℕ) → R → R → Bool
  unfolding before
  before_both first second r s =
      if first r == first s then before second r s else ltb (first r) (first s)

  unfoldable pub first_by_both : (R → ℕ) → (R → ℕ) → List R → Option R
  unfolding before_both
  first_by_both first second [] = none
  first_by_both first second (r ∷ rows) = elim (first_by_both first second rows) [
    | none ↦ some r
    | some s ↦ if before_both first second s r then some s else some r
  ]

  -- What a lookup finds has the key that was looked up.
  pub find_key : (id : String) (rows : List R) {r : R} → find id rows ≡ some r → key r ≡ id
  unfolding find
  find_key id [] h = cc
  find_key id (s ∷ rows) {r} h = elim (Bool-cases (key s == id)) [
    | inl same ↦ ground (arith, ==_iff (key s) id, (rw same at h))
    | inr other ↦ find_key id rows (rw other at h)
  ]

  module _ (p : R → Bool) (f : R → R) (keep : (r : R) → key (f r) ≡ key r) where
    key-set_if : (r : R) → key (set_if p f r) ≡ key r
    key-set_if r = ground (arith, keep r)

    pub find-modify :
        (id j : String) (rows : List R)
        → find j (modify id p f rows)
          ≡ (if id == j then Option.map (set_if p f) (find j rows) else find j rows)
    unfolding find modify
    find-modify id j [] = ground arith
    find-modify id j (r ∷ rows) = ground (
      arith,
      key-set_if r,
      ==_iff (key r) id,
      ==_iff (key r) j,
      ==_iff (key (set_if p f r)) j,
      ==_iff id j,
      find-modify id j rows,
    )

  -- An INSERT of a fresh key appends a row.
  pub find-append :
      (j : String) (rows : List R) (r : R)
      → find j (rows ++ r ∷ [])
        ≡ elim (find j rows) [ none ↦ if key r == j then some r else none | some s ↦ some s ]
  unfolding find
  find-append j [] r = refl
  find-append j (s ∷ rows) r = ground (arith, find-append j rows r)
