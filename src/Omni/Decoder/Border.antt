-- ===== src/Omni/Decoder/Border.antt =====
-- A terminator that lies across the border of two chunks.
use mathlib.Core.List.{append_assoc}
use device_platform.Prelude.{
  ◌+◌, ◌-◌, ◌≤◌, ◌≡◌, refl, ap, sym, ◌∙◌, Bool, true, false, String, none, arith, [], ◌∷◌, ◌++◌,
  length, length-append,
}
use device_platform.Prelude.Bytes.{Bytes, take, cut_after}
use device_platform.Omni.Codec.{
  Parsed, parsed, frame_error, parse_frame, hash, newline, wire_terminator, has_terminator,
}
use device_platform.Omni.Decoder.{Decoder, DecodedFrame, decode, feed, hold, finish}
use device_platform.Omni.Decoder.Cuts.{cut, cut-append_none, cut-newline}
use device_platform.Omni.Decoder.Chunks.{feed-some, feed-none}
use device_platform.Omni.Decoder.Frames.{IsIdle, frame_of, unsplit-hash}

abbrev pub is_frame : Parsed → Bool
is_frame (parsed f) = true
is_frame (frame_error e) = false

take-append : (xs ys : Bytes) → take (length xs) (xs ++ ys) ≡ xs
unfolding take
take-append [] ys = refl
take-append (x ∷ xs) ys = ap (λ l. x ∷ l) (take-append xs ys)

-- ParseFrame takes nothing that has a terminator before its own.
inner_terminator :
    (profile : String) (body : Bytes)
    → has_terminator body ≡ true
    → is_frame (parse_frame profile (frame_of body)) ≡ false
unfolding parse_frame
inner_terminator profile body h =
    let whole : take (length (frame_of body) - 2) (frame_of body) ≡ body =
      ap (λ n. take n (frame_of body)) (omega (arith, length-append body wire_terminator))
      ∙ take-append body wire_terminator in
    ground (arith, whole)

-- What an idle decoder does with a chunk that it holds.
idle-hold :
    (d : Decoder) (c : Bytes)
    → IsIdle d
    → length c ≤ d.max_bytes
    → ((hold d c).results ≡ []) × ((hold d c).decoder ≡ record d { buffer = c })
idle-hold d c h l = ground (arith, h.empty, h.kept)

-- A frame without the last byte of its terminator.
abbrev pub without_newline : Bytes → Bytes
without_newline a = a ++ hash ∷ []

cut-without_newline : (a : Bytes) → cut a ≡ none → cut (without_newline a) ≡ none
unfolding cut_after
cut-without_newline a e = cut-append_none a (hash ∷ []) e (unsplit-hash a [])

held_chunk :
    (d : Decoder) (c : Bytes)
    → cut c ≡ none
    → IsIdle d
    → length c ≤ d.max_bytes
    → 1 ≤ length c
    → feed d c ≡ ([], record d { buffer = c })
held_chunk d [] e h l n = absurd (omega arith)
held_chunk d (x ∷ xs) e h l n =
    feed-none d x xs e
    ∙ ap (λ l. (l ++ [], (hold d (x ∷ xs)).decoder)) (idle-hold d (x ∷ xs) h l).0
    ∙ ap (λ z. ([], z)) (idle-hold d (x ∷ xs) h l).1

-- The segment that ends a buffer.
finish-held :
    (d : Decoder) (c segment : Bytes)
    → IsIdle d
    → length c + length segment ≤ d.max_bytes
    → (finish (record d { buffer = c }) segment []).results ≡ decode d (c ++ segment) ∷ []
finish-held d c segment h l = ground (arith, h.kept)

has_border : (a b : Bytes) → cut a ≡ none → has_terminator (without_newline a ++ newline ∷ b) ≡ true
unfolding cut_after
has_border a b e =
    let body = append_assoc a (hash ∷ []) (newline ∷ b) in
    ground
      (arith, ap cut body, cut-append_none a (hash ∷ newline ∷ b) e (unsplit-hash a (newline ∷ b)))

-- Two frames whose border of chunks lies inside the terminator of the first: the decoder waits after
-- the first chunk, and after the second returns one result in place of two frames, and this is an
-- error.
pub split_terminator_loses :
    (d : Decoder) (a b : Bytes)
    → IsIdle d
    → cut a ≡ none
    → cut b ≡ none
    → length a + length b + 4 ≤ d.max_bytes
    → (r : DecodedFrame) × ((feed d (without_newline a)).0 ≡ [])
      × ((feed (feed d (without_newline a)).1 (newline ∷ frame_of b)).0 ≡ r ∷ [])
      × (is_frame r.result ≡ false)
unfolding feed
split_terminator_loses d a b idle e e' fits =
    let c = without_newline a in
    let segment = newline ∷ frame_of b in
    let first =
      held_chunk d c (cut-without_newline a e) idle (omega (arith, length-append a (hash ∷ [])))
        (omega (arith, length-append a (hash ∷ []))) in
    let d' : Decoder = record d { buffer = c } in
    let found =
      cut-append_none (newline ∷ b) wire_terminator (cut-newline b e')
        (unsplit-hash (newline ∷ b) (newline ∷ [])) in
    let second = feed-some d' segment segment [] found in
    let only =
      finish-held d c segment idle
        (omega (arith, length-append a (hash ∷ []), length-append b wire_terminator)) in
    (
      decode d (c ++ segment),
      ap (λ q. q.0) first,
      ap (λ q. (feed q.1 segment).0) first ∙ ap (λ q. q.0) second ∙ ap (λ l. l ++ []) only,
      ap (λ l. is_frame (parse_frame d.profile l))
            (sym (append_assoc c (newline ∷ b) wire_terminator))
          ∙ inner_terminator d.profile (c ++ newline ∷ b) (has_border a b e),
    )
