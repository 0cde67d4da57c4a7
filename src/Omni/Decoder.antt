-- ===== src/Omni/Decoder.antt =====
-- directdevice/omni/decoder.go: frames cut out of a stream that arrives in chunks.
mod Cuts
pub mod Chunks
pub mod Frames
pub mod Border
pub mod Bounds
use device_platform.Prelude.{
  ℕ, zero, suc, ◌+◌, Bool, true, false, String, Option, none, some, List, [], ◌∷◌, ◌++◌, length,
  not, if◌then◌else◌, ltb, is_empty,
}
use device_platform.Prelude.Bytes.{Bytes, cut_after}
use device_platform.Omni.Codec.{
  Parsed, frame_error, FrameErrorCode, valid_profile, parse_frame, hash, newline, wire_terminator,
}

pub record DecodedFrame : Type 0 where
  pub raw : Bytes
  pub result : Parsed

pub record Decoder : Type 0 where
  pub profile : String
  pub max_bytes : ℕ
  pub buffer : Bytes
  pub discarding : Bool

-- `none` for an unknown profile and for a limit below one byte more than the terminator.
unfoldable new_decoder : String → ℕ → Option Decoder
new_decoder profile max_bytes =
    if not (valid_profile profile)
    then none
    else if ltb max_bytes (length wire_terminator + 1)
    then none
    else some (record { profile = profile; max_bytes = max_bytes; buffer = []; discarding = false })

abbrev too_large : DecodedFrame
too_large = record { raw = []; result = frame_error FrameErrorCode.frame_too_large }

abbrev pub decode : Decoder → Bytes → DecodedFrame
decode d raw = record { raw = raw; result = parse_frame d.profile raw }

-- What one pass of the loop of Feed yields: results, the decoder, and the chunk that is left, which
-- is empty where the code returns.
pub record Pass : Type 0 where
  pub results : List DecodedFrame
  pub decoder : Decoder
  pub left : Bytes

-- The buffer and the new bytes are over the limit.
abbrev overflows : Decoder → Bytes → Bool
overflows d bytes = ltb d.max_bytes (length d.buffer + length bytes)

-- A chunk without a terminator.
abbrev pub hold : Decoder → Bytes → Pass
hold d chunk =
    if d.discarding
    then record { results = []; decoder = d; left = [] }
    else if overflows d chunk
    then record {
      results = too_large ∷ [];
      decoder = record d { buffer = []; discarding = true };
      left = [];
    }
    else record { results = []; decoder = record d { buffer = d.buffer ++ chunk }; left = [] }

-- A chunk whose first terminator ends the segment.
abbrev pub finish : Decoder → Bytes → Bytes → Pass
finish d segment rest =
    if d.discarding
    then record { results = []; decoder = record d { discarding = false }; left = rest }
    else record {
      results = (if overflows d segment then too_large else decode d (d.buffer ++ segment)) ∷ [];
      decoder = record d { buffer = [] };
      left = rest;
    }

abbrev pub pass_at : Decoder → Bytes → Option (Bytes × Bytes) → Pass
pass_at d chunk none = hold d chunk
pass_at d chunk (some (segment, rest)) = finish d segment rest

abbrev pass : Decoder → Bytes → Pass
pass d chunk = pass_at d chunk (cut_after hash newline chunk)

-- The loop of Feed; each pass shortens the chunk, so its length is fuel enough.
unfoldable pub feed_loop : ℕ → Decoder → Bytes → List DecodedFrame × Decoder
unfolding cut_after
feed_loop zero d chunk = ([], d)
feed_loop (suc n) d [] = ([], d)
feed_loop (suc n) d (x ∷ xs) =
    let p = pass d (x ∷ xs) in
    let (later, d') = feed_loop n p.decoder p.left in (p.results ++ later, d')

unfoldable pub feed : Decoder → Bytes → List DecodedFrame × Decoder
unfolding feed_loop
feed d chunk = feed_loop (length chunk) d chunk

unfoldable close : Decoder → List DecodedFrame × Decoder
close d =
    if d.discarding
    then ([], record d { buffer = []; discarding = false })
    else if is_empty d.buffer
    then ([], d)
    else (
      record { raw = d.buffer; result = frame_error FrameErrorCode.trailing_data } ∷ [],
      record d { buffer = [] },
    )
