-- ===== src/Omni/Decoder/Bounds.antt =====
-- The limit of the decoder.
use device_platform.Prelude.{
  ℕ, zero, suc, ◌≤◌, ◌≡◌, refl, ap, sym, ◌∙◌, Bool, true, ◌&&◌, Option, none, some, arith, List, [],
  ◌∷◌, ◌++◌, length, length-append, leb,
}
use device_platform.Prelude.Bytes.{Bytes, all, cut_after}
use device_platform.Omni.Codec.{hash, newline}
use device_platform.Omni.Decoder.{Decoder, DecodedFrame, pass_at, feed, feed_loop}

abbrev pub fits : ℕ → DecodedFrame → Bool
fits limit f = leb (length f.raw) limit

-- The buffer and the raw bytes of all results are within the limit.
abbrev pub within_limit : ℕ → List DecodedFrame × Decoder → Bool
within_limit limit (results, d) = all (fits limit) results && leb (length d.buffer) limit

all-append :
    {A : Type 0} (test : A → Bool) (xs ys : List A)
    → all test xs ≡ true
    → all test ys ≡ true
    → all test (xs ++ ys) ≡ true
unfolding all
all-append test [] ys h k = k
all-append test (x ∷ xs) ys h k = ground (arith, all-append test xs ys (ground arith) k)

pass_at-limit :
    (d : Decoder) (c : Bytes) (o : Option (Bytes × Bytes))
    → (pass_at d c o).decoder.max_bytes ≡ d.max_bytes
pass_at-limit d c none = ground arith
pass_at-limit d c (some (s, r)) = ground arith

pass_at-within :
    (d : Decoder) (c : Bytes) (o : Option (Bytes × Bytes))
    → length d.buffer ≤ d.max_bytes
    → (all (fits d.max_bytes) (pass_at d c o).results ≡ true)
      × (length (pass_at d c o).decoder.buffer ≤ d.max_bytes)
unfolding all
pass_at-within d c none h = (ground arith, ground (arith, length-append d.buffer c))
pass_at-within d c (some (s, r)) h = (ground (arith, length-append d.buffer s), ground arith)

within-join :
    (limit : ℕ) (rs : List DecodedFrame) (q : List DecodedFrame × Decoder)
    → all (fits limit) rs ≡ true
    → within_limit limit q ≡ true
    → within_limit limit (rs ++ q.0, q.1) ≡ true
unfolding all
within-join limit rs (ls, d) h k = ground (arith, all-append (fits limit) rs ls h (ground arith))

feed_loop-within :
    (n : ℕ) (d : Decoder) (c : Bytes) (limit : ℕ)
    → limit ≡ d.max_bytes
    → length d.buffer ≤ limit
    → within_limit limit (feed_loop n d c) ≡ true
unfolding feed_loop all
feed_loop-within zero d c limit e h = ground arith
feed_loop-within (suc n) d [] limit e h = ground arith
feed_loop-within (suc n) d (x ∷ xs) limit e h =
    let o = cut_after hash newline (x ∷ xs) in
    let p = pass_at d (x ∷ xs) o in
    let bounded = pass_at-within d (x ∷ xs) o (omega (arith, e)) in
    within-join limit p.results (feed_loop n p.decoder p.left)
      (ap (λ l. all (fits l) p.results) e ∙ bounded.0)
      (feed_loop-within n p.decoder p.left limit (e ∙ sym (pass_at-limit d (x ∷ xs) o))
        (omega (arith, e, bounded.1)))

-- Whatever it is fed, a decoder whose buffer is within its limit keeps it so, and no frame that it
-- returns is longer than the limit.
pub feed-within_limit :
    (d : Decoder) (chunk : Bytes)
    → length d.buffer ≤ d.max_bytes
    → within_limit d.max_bytes (feed d chunk) ≡ true
unfolding feed
feed-within_limit d chunk h = feed_loop-within (length chunk) d chunk d.max_bytes refl h
