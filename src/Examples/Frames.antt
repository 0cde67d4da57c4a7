-- ===== src/Examples/Frames.antt =====
-- The theorems on the decoder at concrete inputs.
use device_platform.Prelude.{◌≡◌, refl, true, false, [], ◌∷◌, ◌++◌, arith}
use device_platform.Prelude.Bytes.{Bytes, ascii, all, cut_after}
use device_platform.Omni.Codec.{newline}
use device_platform.Omni.Decoder.{Decoder, DecodedFrame, feed, decode}
use device_platform.Omni.Decoder.Chunks.{feed-append}
use device_platform.Omni.Decoder.Frames.{IsIdle, frame_of, stream, frames_are_decoded}
use device_platform.Omni.Decoder.Border.{is_frame, without_newline, split_terminator_loses}
use device_platform.Omni.Decoder.Bounds.{within_limit, feed-within_limit}

abbrev idle : Decoder
idle = record { profile = "omni-iot-tcp-v1.3.5"; max_bytes = 128; buffer = []; discarding = false }

-- The bodies of the frames of the tests in codec_test.go.
abbrev voltage : Bytes
unfolding ascii
voltage = ascii "*SCOR,OM,123456789012345,Q0,412,80,28"

abbrev heartbeat : Bytes
unfolding ascii
heartbeat = ascii "*SCOR,OM,123456789012345,H0,0,412,28,80,0"

idle-IsIdle : IsIdle idle
idle-IsIdle = record { kept = refl; empty = refl }

feed-append_example : feed idle (voltage ++ frame_of heartbeat) ≡ (
  (feed idle voltage).0 ++ (feed (feed idle voltage).1 (frame_of heartbeat)).0,
  (feed (feed idle voltage).1 (frame_of heartbeat)).1,
)
unfolding ascii
feed-append_example = feed-append idle voltage (frame_of heartbeat) refl

frames_are_decoded_example :
    feed idle (stream (voltage ∷ heartbeat ∷ []))
    ≡ (decode idle (frame_of voltage) ∷ decode idle (frame_of heartbeat) ∷ [], idle)
unfolding ascii all cut_after
frames_are_decoded_example = frames_are_decoded idle (voltage ∷ heartbeat ∷ []) idle-IsIdle refl

split_terminator_loses_example :
    (r : DecodedFrame) × ((feed idle (without_newline voltage)).0 ≡ [])
    × ((feed (feed idle (without_newline voltage)).1 (newline ∷ frame_of heartbeat)).0 ≡ r ∷ [])
    × (is_frame r.result ≡ false)
unfolding ascii cut_after
split_terminator_loses_example =
    split_terminator_loses idle voltage heartbeat idle-IsIdle refl refl (omega arith)

feed-within_limit_example : within_limit 128 (feed idle (voltage ++ frame_of heartbeat)) ≡ true
feed-within_limit_example = feed-within_limit idle (voltage ++ frame_of heartbeat) (omega arith)
