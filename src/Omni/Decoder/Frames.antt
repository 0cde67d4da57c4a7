-- ===== src/Omni/Decoder/Frames.antt =====
-- directdevice/omni/decoder.go: Feed on a run of frames.
use device_platform.Prelude.{
  ◌+◌, ◌≤◌, ◌≡◌, refl, ap, ◌∙◌, Bool, true, false, not, ◌&&◌, leb, none, some, arith, List, [], ◌∷◌,
  ◌++◌, map, length, length-append, Option-cases, inl, inr,
}
use device_platform.Prelude.Bytes.{Bytes, cut_after, all}
use device_platform.Omni.Codec.{hash, newline, wire_terminator, has_terminator}
use device_platform.Omni.Decoder.{Decoder, decode, feed, feed_loop, finish}
use device_platform.Omni.Decoder.Cuts.{cut, unsplit, cut-append_none}
use device_platform.Omni.Decoder.Chunks.{feed-append, feed-some}

-- Between two frames.
pub record IsIdle (d : Decoder) : Type 0 where
  pub kept : d.discarding ≡ false
  pub empty : d.buffer ≡ []

-- A body holds no terminator and fits the limit with its own.
abbrev is_body : Decoder → Bytes → Bool
is_body d body = not (has_terminator body) && leb (length body + 2) d.max_bytes

abbrev pub frame_of : Bytes → Bytes
frame_of body = body ++ wire_terminator

pub unsplit-hash : (xs ys : Bytes) → unsplit xs (hash ∷ ys) ≡ true
unsplit-hash [] ys = refl
unsplit-hash (x ∷ []) ys = ground arith
unsplit-hash (x ∷ y ∷ t) ys = unsplit-hash (y ∷ t) ys

unsplit-frame : (xs ys : Bytes) → unsplit (frame_of xs) ys ≡ true
unsplit-frame [] ys = refl
unsplit-frame (x ∷ []) ys = refl
unsplit-frame (x ∷ y ∷ t) ys = unsplit-frame (y ∷ t) ys

cut-frame : (body : Bytes) → cut body ≡ none → cut (frame_of body) ≡ some (frame_of body, [])
unfolding cut_after
cut-frame body e = cut-append_none body wire_terminator e (unsplit-hash body (newline ∷ []))

body-cut : (d : Decoder) (body : Bytes) → is_body d body ≡ true → cut body ≡ none
body-cut d body b = elim (Option-cases (cut body)) [
  | inl e ↦ e
  | inr (p, e) ↦ absurd (ground (arith, e))
]

body-fits : (d : Decoder) (body : Bytes) → is_body d body ≡ true → length body + 2 ≤ d.max_bytes
body-fits d body b = ground arith

-- An idle decoder decodes a segment within the limit.
idle-finish :
    (d : Decoder) (segment rest : Bytes)
    → IsIdle d
    → length segment ≤ d.max_bytes
    → ((finish d segment rest).results ≡ decode d segment ∷ [])
      × ((finish d segment rest).decoder ≡ d)
idle-finish d segment rest h l = ground (arith, h.empty, h.kept)

feed-frame :
    (d : Decoder) (body : Bytes)
    → IsIdle d
    → is_body d body ≡ true
    → feed d (frame_of body) ≡ (decode d (frame_of body) ∷ [], d)
unfolding feed feed_loop
feed-frame d body h b =
    let finished =
      idle-finish d (frame_of body) [] h
        (omega (arith, length-append body wire_terminator, body-fits d body b)) in
    feed-some d (frame_of body) (frame_of body) [] (cut-frame body (body-cut d body b))
    ∙ ap (λ l. (l ++ [], (finish d (frame_of body) []).decoder)) finished.0
    ∙ ap (λ z. (decode d (frame_of body) ∷ [], z)) finished.1

-- The frames of some bodies, one after the other.
abbrev pub stream : List Bytes → Bytes
stream [] = []
stream (b ∷ bs) = frame_of b ++ stream bs

-- A decoder between two frames that is fed a run of frames in one chunk, none of which has a terminator
-- within its body or is longer, with its terminator, than the limit, decodes exactly these frames, in
-- their order and each with its terminator, and is between two frames again.
pub frames_are_decoded :
    (d : Decoder) (bodies : List Bytes)
    → IsIdle d
    → all (is_body d) bodies ≡ true
    → feed d (stream bodies) ≡ (map (λ b. decode d (frame_of b)) bodies, d)
unfolding feed feed_loop all
frames_are_decoded d [] h b = refl
frames_are_decoded d (x ∷ xs) h b =
    let first = feed-frame d x h (ground arith) in
    feed-append d (frame_of x) (stream xs) (unsplit-frame x (stream xs))
    ∙ ap (λ q. (q.0 ++ (feed q.1 (stream xs)).0, (feed q.1 (stream xs)).1)) first
    ∙ ap (λ q. (decode d (frame_of x) ∷ q.0, q.1)) (frames_are_decoded d xs h (ground arith))
