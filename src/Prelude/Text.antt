-- ===== src/Prelude/Text.antt =====
-- strings.TrimSpace of the Go library: it cuts the runes of unicode.IsSpace from both ends.
use Prim.Native.Nat.{ℕ, zero, suc, ◌+◌, ◌-◌, ◌/◌, ◌%◌}
use Prim.Native.Char.{Char, code}
use Prim.Native.String
use Prim.Native.String.{String}
use mathlib.Core.Bool.{Bool, true, false, ◌&&◌, ◌||◌}
use mathlib.Core.Option.{Option, none, some}
use device_platform.Prelude.Tests.{if◌then◌else◌, leb, ltb, ◌==◌, nat_eq, string_eq}

infixr 65 ◌<>◌
abbrev pub ◌<>◌ : String → String → String
s <> t = String.◌++◌ s t

unfoldable is_space : ℕ → Bool
is_space c =
    (leb 9 c && leb c 13)
    || (c == 0x20)
    || (c == 0x85)
    || (c == 0xa0)
    || (c == 0x1680)
    || (leb 0x2000 c && leb c 0x200a)
    || (c == 0x2028)
    || (c == 0x2029)
    || (c == 0x202f)
    || (c == 0x205f)
    || (c == 0x3000)

abbrev is_blank : String → Bool
is_blank String.[] = true
is_blank (String.◌∷◌ c s) = false

unfoldable trim_left : String → String
unfolding is_space
trim_left String.[] = String.[]
trim_left (String.◌∷◌ c s) = if is_space (code c) then trim_left s else String.◌∷◌ c s

abbrev cut : Bool → Char → String → String
cut true c String.[] = String.[]
cut true c (String.◌∷◌ d s) = String.◌∷◌ c (String.◌∷◌ d s)
cut false c s = String.◌∷◌ c s

unfoldable trim_right : String → String
unfolding is_space
trim_right String.[] = String.[]
trim_right (String.◌∷◌ c s) = cut (is_space (code c)) c (trim_right s)

unfoldable pub trim_space : String → String
unfolding trim_left trim_right
trim_space s = trim_right (trim_left s)

-- The bytes of a rune in UTF-8.
abbrev rune_len : Char → ℕ
rune_len c =
    if ltb (code c) 0x80
    then 1
    else if ltb (code c) 0x800
    then 2
    else if ltb (code c) 0x10000
    then 3
    else 4

unfoldable pub byte_len : String → ℕ
byte_len String.[] = 0
byte_len (String.◌∷◌ c s) = rune_len c + byte_len s

-- The longest prefix of whole runes in so many bytes: `value[:limit]`, less the bytes of a rune that
-- the cut has broken.
unfoldable take_bytes : ℕ → String → String
take_bytes limit String.[] = String.[]
take_bytes limit (String.◌∷◌ c s) =
    let rest = take_bytes (limit - rune_len c) s in
    if leb (rune_len c) limit then String.◌∷◌ c rest else String.[]

unfoldable pub truncate : String → ℕ → String
unfolding byte_len take_bytes
truncate value limit = if leb (byte_len value) limit then value else take_bytes limit value

-- A text that is empty is stored as NULL.
unfoldable pub optional : String → Option String
optional value = if value == "" then none else some value

digit_text : ℕ → String
digit_text d =
    if d == 0
    then "0"
    else if d == 1
    then "1"
    else if d == 2
    then "2"
    else if d == 3
    then "3"
    else if d == 4
    then "4"
    else if d == 5
    then "5"
    else if d == 6
    then "6"
    else if d == 7
    then "7"
    else if d == 8
    then "8"
    else "9"

-- The digits before the last; a number has fewer digits than its value plus one.
leading_digits : ℕ → ℕ → String
unfolding digit_text
leading_digits zero n = ""
leading_digits (suc fuel) n =
    let rest = leading_digits fuel (n / 10) in if n == 0 then "" else rest <> digit_text (n % 10)

-- A number in decimal, as strconv.Itoa and %d print it.
unfoldable pub decimal : ℕ → String
unfolding leading_digits digit_text
decimal n = if n == 0 then "0" else leading_digits n n
