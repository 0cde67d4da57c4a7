-- ===== src/Omni/Decoder/Chunks.antt =====
-- directdevice/omni/decoder.go: Feed on a stream in one chunk or in several.
use mathlib.Core.List.{append_assoc, append-nil}
use device_platform.Prelude.{
  ℕ, zero, suc, ◌+◌, ◌≤◌, ◌≡◌, refl, ap, sym, ◌∙◌, true, none, some, arith, List, [], ◌∷◌, ◌++◌,
  length, length-append, Option-cases, inl, inr, nat_eq,
}
use device_platform.Prelude.Bytes.{Bytes, cut_after}
use device_platform.Omni.Decoder.{
  Decoder, DecodedFrame, Pass, hold, finish, feed_loop, feed, pass_at,
}
use device_platform.Omni.Decoder.Cuts.{
  cut, unsplit, precede, cut-length, cut-append, cut-append_none, unsplit-rest,
}

-- Holding two chunks is holding both at once.
hold-hold :
    (d : Decoder) (xs ys : Bytes)
    → ((hold d xs).results ++ (hold (hold d xs).decoder ys).results ≡ (hold d (xs ++ ys)).results)
      × ((hold (hold d xs).decoder ys).decoder ≡ (hold d (xs ++ ys)).decoder)
hold-hold d xs ys =
    ground (arith, length-append xs ys, length-append d.buffer xs, append_assoc d.buffer xs ys)

-- A chunk that is held is the beginning of the segment that the next terminator ends.
hold-finish :
    (d : Decoder) (xs s r : Bytes)
    → ((hold d xs).results ++ (finish (hold d xs).decoder s r).results
        ≡ (finish d (xs ++ s) r).results)
      × ((finish (hold d xs).decoder s r).decoder ≡ (finish d (xs ++ s) r).decoder)
hold-finish d xs s r =
    ground (arith, length-append xs s, length-append d.buffer xs, append_assoc d.buffer xs s)

-- The results of one pass before those of the rest of the chunk.
abbrev join : List DecodedFrame → List DecodedFrame × Decoder → List DecodedFrame × Decoder
join results (later, d) = (results ++ later, d)

abbrev resume :
    List DecodedFrame × Decoder
    → (Decoder → List DecodedFrame × Decoder)
    → List DecodedFrame × Decoder
resume (results, d) continue = join results (continue d)

feed_loop-empty : (n : ℕ) (d : Decoder) → feed_loop n d [] ≡ ([], d)
unfolding feed_loop
feed_loop-empty zero d = refl
feed_loop-empty (suc n) d = refl

hold-left : (d : Decoder) (c : Bytes) → (hold d c).left ≡ []
hold-left d c = ground arith

finish-left : (d : Decoder) (s r : Bytes) → (finish d s r).left ≡ r
finish-left d s r = ground arith

finish-any :
    (d : Decoder) (s r q : Bytes)
    → ((finish d s r).results ≡ (finish d s q).results)
      × ((finish d s r).decoder ≡ (finish d s q).decoder)
finish-any d s r q = ground arith

abbrev run_pass : ℕ → Pass → List DecodedFrame × Decoder
run_pass n p = join p.results (feed_loop n p.decoder p.left)

feed_loop-none :
    (n : ℕ) (d : Decoder) (x : ℕ) (xs : Bytes)
    → cut (x ∷ xs) ≡ none
    → feed_loop (suc n) d (x ∷ xs) ≡ join (hold d (x ∷ xs)).results ([], (hold d (x ∷ xs)).decoder)
unfolding feed_loop
feed_loop-none n d x xs e =
    let p = hold d (x ∷ xs) in
    ap (λ o. run_pass n (pass_at d (x ∷ xs) o)) e
    ∙ ap (λ l. join p.results (feed_loop n p.decoder l)) (hold-left d (x ∷ xs))
    ∙ ap (join p.results) (feed_loop-empty n p.decoder)

feed_loop-some :
    (n : ℕ) (d : Decoder) (x : ℕ) (xs s r : Bytes)
    → cut (x ∷ xs) ≡ some (s, r)
    → feed_loop (suc n) d (x ∷ xs)
      ≡ join (finish d s r).results (feed_loop n (finish d s r).decoder r)
unfolding feed_loop
feed_loop-some n d x xs s r e =
    let p = finish d s r in
    ap (λ o. run_pass n (pass_at d (x ∷ xs) o)) e
    ∙ ap (λ l. join p.results (feed_loop n p.decoder l)) (finish-left d s r)

-- More fuel than the length of the chunk changes nothing.
feed_loop-fuel :
    (n m : ℕ) (d : Decoder) (xs : Bytes)
    → length xs ≤ n
    → length xs ≤ m
    → feed_loop n d xs ≡ feed_loop m d xs
unfolding feed_loop
feed_loop-fuel n m d [] h k = feed_loop-empty n d ∙ sym (feed_loop-empty m d)
feed_loop-fuel zero m d (x ∷ xs) h k = absurd (omega arith)
feed_loop-fuel (suc n) zero d (x ∷ xs) h k = absurd (omega arith)
feed_loop-fuel (suc n) (suc m) d (x ∷ xs) h k = elim (Option-cases (cut (x ∷ xs))) [
  | inl e ↦ feed_loop-none n d x xs e ∙ sym (feed_loop-none m d x xs e)
  | inr ((s, r), e) ↦
      let shorter = cut-length (x ∷ xs) s r e in
      feed_loop-some n d x xs s r e
      ∙ ap (join (finish d s r).results) (
          feed_loop-fuel n m (finish d s r).decoder r (omega (arith, shorter.0, shorter.1))
            (omega (arith, shorter.0, shorter.1)))
      ∙ sym (feed_loop-some m d x xs s r e)
]

join-join :
    (a b : List DecodedFrame) (q : List DecodedFrame × Decoder)
    → join a (join b q) ≡ join (a ++ b) q
join-join a b (rs, d) = ap (λ l. (l, d)) (sym (append_assoc a b rs))

resume-join :
    (a : List DecodedFrame) (q : List DecodedFrame × Decoder)
    (f : Decoder → List DecodedFrame × Decoder)
    → resume (join a q) f ≡ join a (resume q f)
resume-join a (rs, d) f = sym (join-join a rs (f d))

join_split :
    (a b c : List DecodedFrame) (q q' : List DecodedFrame × Decoder)
    → a ++ b ≡ c
    → q' ≡ q
    → join c q ≡ join a (join b q')
join_split a b c q q' e e' =
    ap (λ l. join l q) (sym e) ∙ sym (join-join a b q) ∙ ap (λ z. join a (join b z)) (sym e')

-- A chunk without a terminator, and then another one.
held_first :
    (m k : ℕ) (d : Decoder) (x : ℕ) (xs ys : Bytes)
    → length ys ≤ m
    → length (xs ++ ys) ≤ k
    → cut (x ∷ xs) ≡ none
    → unsplit (x ∷ xs) ys ≡ true
    → feed_loop (suc k) d (x ∷ xs ++ ys)
      ≡ join (hold d (x ∷ xs)).results (feed_loop m (hold d (x ∷ xs)).decoder ys)
held_first m k d x xs [] h l e u =
    ap (λ c. feed_loop (suc k) d (x ∷ c)) (append-nil xs)
    ∙ feed_loop-none k d x xs e
    ∙ ap (join (hold d (x ∷ xs)).results) (sym (feed_loop-empty m (hold d (x ∷ xs)).decoder))
held_first zero k d x xs (y ∷ ys) h l e u = absurd (omega arith)
held_first (suc m) k d x xs (y ∷ ys) h l e u =
    let c = x ∷ xs in
    let d' = (hold d c).decoder in
    let both = cut-append_none c (y ∷ ys) e u in
    elim (Option-cases (cut (y ∷ ys))) [
      | inl e' ↦
          feed_loop-none k d x (xs ++ y ∷ ys) (both ∙ ap (precede c) e')
          ∙ join_split (hold d c).results (hold d' (y ∷ ys)).results (hold d (c ++ y ∷ ys)).results
              ([], (hold d (c ++ y ∷ ys)).decoder) ([], (hold d' (y ∷ ys)).decoder)
              (hold-hold d c (y ∷ ys)).0 (ap (λ z. ([], z)) (hold-hold d c (y ∷ ys)).1)
          ∙ ap (join (hold d c).results) (sym (feed_loop-none m d' y ys e'))
      | inr ((s, r), e') ↦
          let shorter = cut-length (y ∷ ys) s r e' in
          let rests = hold-finish d c s r in
          feed_loop-some k d x (xs ++ y ∷ ys) (c ++ s) r (both ∙ ap (precede c) e')
          ∙ join_split (hold d c).results (finish d' s r).results (finish d (c ++ s) r).results
              (feed_loop k (finish d (c ++ s) r).decoder r) (feed_loop m (finish d' s r).decoder r)
              rests.0
              (feed_loop-fuel m k (finish d' s r).decoder r (omega (arith, shorter.0, shorter.1))
                  (omega (arith, shorter.0, shorter.1, length-append xs (y ∷ ys)))
                ∙ ap (λ z. feed_loop k z r) rests.1)
          ∙ ap (join (hold d c).results) (sym (feed_loop-some m d' y ys s r e'))
    ]

feed_loop-append :
    (n m k : ℕ) (d : Decoder) (xs ys : Bytes)
    → length xs ≤ n
    → length ys ≤ m
    → length xs + length ys ≤ k
    → unsplit xs ys ≡ true
    → feed_loop k d (xs ++ ys) ≡ resume (feed_loop n d xs) (λ d'. feed_loop m d' ys)
feed_loop-append n m k d [] ys h l j u =
    feed_loop-fuel k m d ys (omega (arith, j)) l
    ∙ ap (λ q. resume q (λ d'. feed_loop m d' ys)) (sym (feed_loop-empty n d))
feed_loop-append zero m k d (x ∷ xs) ys h l j u = absurd (omega arith)
feed_loop-append (suc n) m zero d (x ∷ xs) ys h l j u = absurd (omega arith)
feed_loop-append (suc n) m (suc k) d (x ∷ xs) ys h l j u =
    let next : Decoder → List DecodedFrame × Decoder = λ d'. feed_loop m d' ys in
    elim (Option-cases (cut (x ∷ xs))) [
      | inl e ↦
          held_first m k d x xs ys l (omega (arith, length-append xs ys)) e u
          ∙ sym (resume-join (hold d (x ∷ xs)).results ([], (hold d (x ∷ xs)).decoder) next)
          ∙ ap (λ z. resume z next) (sym (feed_loop-none n d x xs e))
      | inr ((s, r), e) ↦
          let shorter = cut-length (x ∷ xs) s r e in
          let q = finish d s r in
          feed_loop-some k d x (xs ++ ys) s (r ++ ys) (cut-append (x ∷ xs) ys s r e)
          ∙ ap (λ l. join l (feed_loop k (finish d s (r ++ ys)).decoder (r ++ ys)))
              (finish-any d s (r ++ ys) r).0
          ∙ ap (λ z. join q.results (feed_loop k z (r ++ ys))) (finish-any d s (r ++ ys) r).1
          ∙ ap (join q.results) (
              feed_loop-append n m k q.decoder r ys (omega (arith, shorter.0, shorter.1)) l
                (omega (arith, shorter.0, shorter.1)) (unsplit-rest (x ∷ xs) ys s r e u))
          ∙ sym (resume-join q.results (feed_loop n q.decoder r) next)
          ∙ ap (λ z. resume z next) (sym (feed_loop-some n d x xs s r e))
    ]

-- A stream has the same results, and leaves the decoder in the same state, whether it arrives in one
-- chunk or in two, provided that the border does not lie inside a terminator.
pub feed-append :
    (d : Decoder) (xs ys : Bytes)
    → unsplit xs ys ≡ true
    → feed d (xs ++ ys) ≡ ((feed d xs).0 ++ (feed (feed d xs).1 ys).0, (feed (feed d xs).1 ys).1)
unfolding feed
feed-append d xs ys u =
    feed_loop-append (length xs) (length ys) (length (xs ++ ys)) d xs ys (omega arith) (omega arith)
      (omega (arith, length-append xs ys)) u

-- A chunk with a terminator is a pass and then the rest.
pub feed-some :
    (d : Decoder) (c s r : Bytes)
    → cut c ≡ some (s, r)
    → feed d c ≡ join (finish d s r).results (feed (finish d s r).decoder r)
unfolding feed cut_after
feed-some d [] s r e = cc
feed-some d (x ∷ xs) s r e =
    let shorter = cut-length (x ∷ xs) s r e in
    feed_loop-some (length xs) d x xs s r e
    ∙ ap (join (finish d s r).results) (
        feed_loop-fuel (length xs) (length r) (finish d s r).decoder r
          (omega (arith, shorter.0, shorter.1)) (omega arith))

-- A chunk without one is held.
pub feed-none :
    (d : Decoder) (x : ℕ) (xs : Bytes)
    → cut (x ∷ xs) ≡ none
    → feed d (x ∷ xs) ≡ join (hold d (x ∷ xs)).results ([], (hold d (x ∷ xs)).decoder)
unfolding feed
feed-none d x xs e = feed_loop-none (length xs) d x xs e
