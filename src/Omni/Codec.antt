-- ===== src/Omni/Codec.antt =====
-- directdevice/omni/codec.go: the frames of the two profiles.
use device_platform.Prelude.{
  ℕ, ◌+◌, ◌-◌, ◌*◌, ◌%◌, ◌^◌, Bool, true, false, ◌&&◌, ◌||◌, not, String, Option, none, some, List,
  [], ◌∷◌, length, if◌then◌else◌, ◌==◌, ◌!=◌, string_eq, nat_eq, leb, ltb, is_empty,
}
use device_platform.Prelude.Bytes.{
  Bytes, bytes_eq, ascii, cut_after, split, has_suffix, take, all, is_digit,
}

pub data FrameErrorCode : Type 0 where
  invalid_profile empty_frame frame_too_large invalid_prefix invalid_header : FrameErrorCode
  invalid_vendor invalid_imei invalid_timestamp unknown_command invalid_fields : FrameErrorCode
  trailing_data invalid_frame : FrameErrorCode

pub record Frame : Type 0 where
  pub profile : String
  pub imei : Bytes
  pub timestamp : Bytes
  pub command : Bytes
  pub fields : List Bytes

-- What ParseFrame returns: a frame or an error.
pub data Parsed : Type 0 where
  parsed : Frame → Parsed
  frame_error : FrameErrorCode → Parsed

-- domain.ProviderProfileOmniBikeV207 and ProviderProfileOmniIoTV135
abbrev bike_profile : String
bike_profile = "omni-bike-tcp-v2.0.7"

abbrev iot_profile : String
iot_profile = "omni-iot-tcp-v1.3.5"

unfoldable pub valid_profile : String → Bool
valid_profile profile = profile == bike_profile || profile == iot_profile

unfoldable valid_imei : Bytes → Bool
unfolding all
valid_imei imei = length imei == 15 && all is_digit imei

-- The value of a run of digits.
unfoldable decimal_from : ℕ → Bytes → ℕ
decimal_from n [] = n
decimal_from n (x ∷ xs) = decimal_from (n * 10 + (x - 0x30)) xs

-- strconv.ParseUint(value, 10, 32)
unfoldable parse_unsigned_decimal : Bytes → Option ℕ
unfolding decimal_from all
parse_unsigned_decimal value =
    if is_empty value || not (all is_digit value)
    then none
    else if ltb (decimal_from 0 value) (2 ^ 32)
    then some (decimal_from 0 value)
    else none

unfoldable decimal_in_range : Bytes → ℕ → ℕ → Bool
unfolding parse_unsigned_decimal
decimal_in_range value minimum maximum = elim (parse_unsigned_decimal value) [
  | none ↦ false
  | some n ↦ leb minimum n && leb n maximum
]

unfoldable unsigned_decimal : Bytes → Bool
unfolding parse_unsigned_decimal
unsigned_decimal value = elim (parse_unsigned_decimal value) [ none ↦ false | some n ↦ true ]

-- The years of two digits that time.Parse reads are those from 1969 to 2068: among them every
-- fourth is a leap year.
abbrev days_in : ℕ → ℕ → ℕ
days_in year month =
    if month == 2
    then if year % 4 == 0 then 29 else 28
    else if month == 4 || month == 6 || month == 9 || month == 11
    then 30
    else 31

-- time.Parse("060102150405", value) on twelve digits.
unfoldable parses_as_time : Bytes → Bool
unfolding decimal_from
parses_as_time (y ∷ y' ∷ m ∷ m' ∷ d ∷ d' ∷ h ∷ h' ∷ i ∷ i' ∷ s ∷ s' ∷ []) =
    let year = decimal_from 0 (y ∷ y' ∷ []) in
    let month = decimal_from 0 (m ∷ m' ∷ []) in
    let day = decimal_from 0 (d ∷ d' ∷ []) in
    leb 1 month
    && leb month 12
    && leb 1 day
    && leb day (days_in year month)
    && ltb (decimal_from 0 (h ∷ h' ∷ [])) 24
    && ltb (decimal_from 0 (i ∷ i' ∷ [])) 60
    && ltb (decimal_from 0 (s ∷ s' ∷ [])) 60
parses_as_time _ = false

unfoldable valid_timestamp : Bytes → Bool
unfolding parses_as_time all
valid_timestamp value = length value == 12 && all is_digit value && parses_as_time value

abbrev is_one_of : Bytes → List Bytes → Bool
is_one_of command [] = false
is_one_of command (c ∷ cs) = command == c || is_one_of command cs

unfoldable known_response_command : String → Bytes → Bool
unfolding ascii
known_response_command profile command =
    if profile == bike_profile
    then is_one_of command (ascii "Q0" ∷ ascii "H0" ∷ ascii "L0" ∷ ascii "L1" ∷ ascii "S5" ∷ [])
    else if profile == iot_profile
    then is_one_of command
        (ascii "Q0" ∷ ascii "H0" ∷ ascii "R0" ∷ ascii "L0" ∷ ascii "L1" ∷ ascii "S6" ∷ [])
    else false

-- The fields of the answers Q0, H0 and S5 of the profile of bikes.
unfoldable bike_fields : Bytes → List Bytes → Option Bool
unfolding ascii decimal_in_range
bike_fields command fields =
    if command == ascii "Q0"
    then some (elim fields [ a ∷ [] ↦ decimal_in_range a 320 420 | _ ↦ false ])
    else if command == ascii "H0"
    then some (elim fields [
      | a ∷ b ∷ c ∷ [] ↦
          decimal_in_range a 0 1 && decimal_in_range b 320 420 && decimal_in_range c 2 32
      | _ ↦ false
    ])
    else if command == ascii "S5"
    then some (elim fields [
      | a ∷ b ∷ c ∷ d ∷ e ∷ [] ↦
          decimal_in_range a 320 420
          && decimal_in_range b 2 32
          && decimal_in_range c 0 4294967295
          && decimal_in_range d 0 1
          && e == ascii "0"
      | _ ↦ false
    ])
    else none

-- The fields of the answers Q0, H0 and S6 of the profile of other devices.
unfoldable iot_fields : Bytes → List Bytes → Option Bool
unfolding ascii decimal_in_range unsigned_decimal
iot_fields command fields =
    if command == ascii "Q0"
    then some (elim fields [
      | a ∷ b ∷ c ∷ [] ↦ unsigned_decimal a && decimal_in_range b 0 100 && decimal_in_range c 2 32
      | _ ↦ false
    ])
    else if command == ascii "H0"
    then some (elim fields [
      | a ∷ b ∷ c ∷ d ∷ e ∷ [] ↦
          decimal_in_range a 0 1
          && unsigned_decimal b
          && decimal_in_range c 2 32
          && decimal_in_range d 0 100
          && decimal_in_range e 0 1
      | _ ↦ false
    ])
    else if command == ascii "S6"
    then some (elim fields [
      | a ∷ b ∷ c ∷ d ∷ e ∷ f ∷ g ∷ h ∷ i ∷ j ∷ [] ↦
          decimal_in_range a 0 100
          && decimal_in_range b 1 3
          && unsigned_decimal c
          && decimal_in_range d 0 1
          && unsigned_decimal e
          && unsigned_decimal f
          && decimal_in_range g 0 1
          && decimal_in_range h 2 32
          && unsigned_decimal i
          && unsigned_decimal j
      | _ ↦ false
    ])
    else none

unfoldable valid_response_fields : String → Bytes → List Bytes → Bool
unfolding bike_fields iot_fields
valid_response_fields profile command fields =
    let checked =
      if profile == bike_profile
      then bike_fields command fields
      else if profile == iot_profile
      then iot_fields command fields
      else none in
    elim checked [ some valid ↦ valid | none ↦ not (is_empty fields) ]

-- The end of ParseFrame, from the command on.
unfoldable parse_command : String → Bytes → Bytes → Bytes → List Bytes → Parsed
unfolding known_response_command valid_response_fields all
parse_command profile imei timestamp command fields =
    if not (known_response_command profile command)
    then frame_error FrameErrorCode.unknown_command
    else if not (all (λ f. not (is_empty f)) fields)
    then frame_error FrameErrorCode.invalid_fields
    else if not (valid_response_fields profile command fields)
    then frame_error FrameErrorCode.invalid_fields
    else parsed (record {
      profile = profile;
      imei = imei;
      timestamp = timestamp;
      command = command;
      fields = fields;
    })

-- The header, the vendor and the identity, which each profile has first; `rest` is what follows.
unfoldable parse_identity : Bytes → Bytes → Bytes → Bytes → Parsed → Parsed
unfolding ascii valid_imei
parse_identity want_header header vendor imei rest =
    if header != want_header
    then frame_error FrameErrorCode.invalid_header
    else if vendor != ascii "OM"
    then frame_error FrameErrorCode.invalid_vendor
    else if not (valid_imei imei)
    then frame_error FrameErrorCode.invalid_imei
    else rest

unfoldable parse_parts : String → List Bytes → Parsed
unfolding parse_identity parse_command valid_timestamp ascii
parse_parts profile parts =
    if profile == bike_profile
    then elim parts [
      | header ∷ vendor ∷ imei ∷ timestamp ∷ command ∷ fields ↦
          parse_identity (ascii "*CMDR") header vendor imei (
            if valid_timestamp timestamp
            then parse_command profile imei timestamp command fields
            else frame_error FrameErrorCode.invalid_timestamp)
      | _ ↦ frame_error FrameErrorCode.invalid_frame
    ]
    else elim parts [
      | header ∷ vendor ∷ imei ∷ command ∷ fields ↦
          parse_identity (ascii "*SCOR") header vendor imei
            (parse_command profile imei [] command fields)
      | _ ↦ frame_error FrameErrorCode.invalid_frame
    ]

-- The bytes of wireTerminator, "#\n".
abbrev pub hash : ℕ
hash = 0x23

abbrev pub newline : ℕ
newline = 0x0a

abbrev pub wire_terminator : Bytes
wire_terminator = hash ∷ newline ∷ []

-- Printable ASCII other than the hash.
abbrev is_body_byte : ℕ → Bool
is_body_byte value = not (ltb value 0x20 || ltb 0x7e value || value == hash)

abbrev starts_with_star : Bytes → Bool
starts_with_star [] = false
starts_with_star (x ∷ xs) = x == 0x2a

-- The first two bytes are those of downlinkPrefix.
abbrev is_downlink : Bytes → Bool
is_downlink (x ∷ y ∷ r) = x == 0xff && y == 0xff
is_downlink _ = false

abbrev pub has_terminator : Bytes → Bool
has_terminator xs = elim (cut_after hash newline xs) [ none ↦ false | some p ↦ true ]

unfoldable pub parse_frame : String → Bytes → Parsed
unfolding valid_profile has_suffix take cut_after split all parse_parts
parse_frame profile raw =
    let body = take (length raw - 2) raw in
    if not (valid_profile profile)
    then frame_error FrameErrorCode.invalid_profile
    else if raw == wire_terminator
    then frame_error FrameErrorCode.empty_frame
    else if is_downlink raw || is_empty raw || not (starts_with_star raw)
    then frame_error FrameErrorCode.invalid_prefix
    else if not (has_suffix raw wire_terminator)
    then frame_error FrameErrorCode.trailing_data
    else if is_empty body
    then frame_error FrameErrorCode.empty_frame
    else if has_terminator body
    then frame_error FrameErrorCode.trailing_data
    else if not (all is_body_byte body)
    then frame_error FrameErrorCode.invalid_frame
    else parse_parts profile (split 0x2c body)
