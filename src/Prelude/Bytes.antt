-- ===== src/Prelude/Bytes.antt =====
-- Byte strings of Go as lists of numbers, with the parts of the package bytes that the code calls.
use Prim.Native.Nat.{ℕ, zero, suc}
use Prim.Native.Char.{code}
use Prim.Native.String.{String}
use mathlib.Core.Path.{◌≡◌, refl}
use mathlib.Core.Logic.{◌↔◌}
use mathlib.Core.Bool.{Bool, true, false, ◌&&◌}
use mathlib.Core.Option.{Option, none, some}
use mathlib.Core.List.{List, [], ◌∷◌}
use native.Mathlib.Omega.{arith}
use device_platform.Prelude.Tests.{Comparable, if◌then◌else◌, ◌==◌, nat_eq, nat_beq, leb}

abbrev pub Bytes : Type 0
Bytes = List ℕ

abbrev bytes_beq : Bytes → Bytes → Bool
bytes_beq [] [] = true
bytes_beq [] (y ∷ ys) = false
bytes_beq (x ∷ xs) [] = false
bytes_beq (x ∷ xs) (y ∷ ys) = nat_beq x y && bytes_beq xs ys

pub bytes_beq_iff : (xs ys : Bytes) → (bytes_beq xs ys ≡ true) ↔ (xs ≡ ys)
bytes_beq_iff [] [] = (λ h. refl, λ h. refl)
bytes_beq_iff [] (y ∷ ys) = (λ h. cc, λ h. cc)
bytes_beq_iff (x ∷ xs) [] = (λ h. cc, λ h. cc)
bytes_beq_iff (x ∷ xs) (y ∷ ys) = ground (arith, bytes_beq_iff xs ys)

instance abbrev pub bytes_eq : Comparable Bytes
bytes_eq = record { equal = bytes_beq; equal_iff = bytes_beq_iff }

-- The bytes of an ASCII literal.
unfoldable pub ascii : String → Bytes
ascii String.[] = []
ascii (String.◌∷◌ c s) = code c ∷ ascii s

abbrev pub prepend : ℕ → Option (Bytes × Bytes) → Option (Bytes × Bytes)
prepend x none = none
prepend x (some (s, r)) = some (x ∷ s, r)

-- bytes.Index for a separator of the two bytes a and b, with the slices up to the end of its first
-- occurrence and after it.
unfoldable pub cut_after : ℕ → ℕ → Bytes → Option (Bytes × Bytes)
cut_after a b [] = none
cut_after a b (x ∷ []) = none
cut_after a b (x ∷ y ∷ r) =
    let later = cut_after a b (y ∷ r) in
    if x == a && y == b then some (x ∷ y ∷ [], r) else prepend x later

-- strings.Split at one byte.
abbrev split_step : Bool → ℕ → List Bytes → List Bytes
split_step true x parts = [] ∷ parts
split_step false x [] = (x ∷ []) ∷ []
split_step false x (p ∷ parts) = (x ∷ p) ∷ parts

unfoldable pub split : ℕ → Bytes → List Bytes
split a [] = [] ∷ []
split a (x ∷ xs) = split_step (x == a) x (split a xs)

-- bytes.HasSuffix.
unfoldable pub has_suffix : Bytes → Bytes → Bool
has_suffix [] suffix = [] == suffix
has_suffix (x ∷ xs) suffix =
    let later = has_suffix xs suffix in if (x ∷ xs) == suffix then true else later

unfoldable pub take : ℕ → Bytes → Bytes
take zero xs = []
take (suc n) [] = []
take (suc n) (x ∷ xs) = x ∷ take n xs

unfoldable pub all {ℓ} : {A : Type ℓ} → (A → Bool) → List A → Bool
all test [] = true
all test (x ∷ xs) = test x && all test xs

abbrev pub is_digit : ℕ → Bool
is_digit x = leb 0x30 x && leb x 0x39
