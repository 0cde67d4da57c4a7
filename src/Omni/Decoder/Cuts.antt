-- ===== src/Omni/Decoder/Cuts.antt =====
-- How the first terminator of a chunk moves when the chunk is extended.
use device_platform.Prelude.{
  ℕ, ◌+◌, ◌≤◌, ◌≡◌, refl, ap, Bool, true, false, ◌&&◌, not, Option, none, some, arith, [], ◌∷◌, ◌∙◌,
  ◌++◌, length, Option-cases, Bool-cases, inl, inr, ◌==◌, nat_eq,
}
use device_platform.Prelude.Bytes.{Bytes, cut_after, prepend}
use device_platform.Omni.Codec.{hash, newline}

abbrev starts_newline : Bytes → Bool
starts_newline [] = false
starts_newline (y ∷ ys) = y == newline

-- No terminator lies across the border of the two chunks.
abbrev pub unsplit : Bytes → Bytes → Bool
unsplit [] ys = true
unsplit (x ∷ []) ys = not (x == hash && starts_newline ys)
unsplit (x ∷ y ∷ r) ys = unsplit (y ∷ r) ys

abbrev pub cut : Bytes → Option (Bytes × Bytes)
cut xs = cut_after hash newline xs

abbrev is_end : ℕ → ℕ → Bool
is_end x y = x == hash && y == newline

cut-end : (x y : ℕ) (t : Bytes) → is_end x y ≡ true → cut (x ∷ y ∷ t) ≡ some (x ∷ y ∷ [], t)
unfolding cut_after
cut-end x y t h = ground arith

cut-later : (x y : ℕ) (t : Bytes) → is_end x y ≡ false → cut (x ∷ y ∷ t) ≡ prepend x (cut (y ∷ t))
unfolding cut_after
cut-later x y t h = ground arith

abbrev extend : Bytes → Option (Bytes × Bytes) → Option (Bytes × Bytes)
extend ys none = none
extend ys (some (s, r)) = some (s, r ++ ys)

abbrev pub precede : Bytes → Option (Bytes × Bytes) → Option (Bytes × Bytes)
precede xs none = none
precede xs (some (s, r)) = some (xs ++ s, r)

prepend-extend :
    (x : ℕ) (ys : Bytes) (o : Option (Bytes × Bytes))
    → prepend x (extend ys o) ≡ extend ys (prepend x o)
prepend-extend x ys none = refl
prepend-extend x ys (some p) = refl

prepend-precede :
    (x : ℕ) (xs : Bytes) (o : Option (Bytes × Bytes))
    → prepend x (precede xs o) ≡ precede (x ∷ xs) o
prepend-precede x xs none = refl
prepend-precede x xs (some p) = refl

prepend_none : (x : ℕ) (o : Option (Bytes × Bytes)) → prepend x o ≡ none → o ≡ none
prepend_none x none h = refl
prepend_none x (some p) h = cc

unsplit_tail : (x : ℕ) (xs ys : Bytes) → unsplit (x ∷ xs) ys ≡ true → unsplit xs ys ≡ true
unsplit_tail x [] ys u = refl
unsplit_tail x (y ∷ t) ys u = u

-- The segment and the rest are the chunk.
pub cut-length :
    (xs s r : Bytes) → cut xs ≡ some (s, r) → (length xs ≡ length s + length r) × (1 ≤ length s)
unfolding cut_after
cut-length [] s r h = cc
cut-length (x ∷ []) s r h = cc
cut-length (x ∷ y ∷ t) s r h = elim (Bool-cases (is_end x y)) [
  | inl e ↦ ground (arith, cut-end x y t e)
  | inr e ↦ elim (Option-cases (cut (y ∷ t))) [
    | inl none_later ↦ ground (arith, cut-later x y t e)
    | inr ((s', r'), found) ↦ ground (arith, cut-later x y t e, cut-length (y ∷ t) s' r' found)
  ]
]

pub cut-append : (xs ys s r : Bytes) → cut xs ≡ some (s, r) → cut (xs ++ ys) ≡ some (s, r ++ ys)
unfolding cut_after
cut-append [] ys s r h = cc
cut-append (x ∷ []) ys s r h = cc
cut-append (x ∷ y ∷ t) ys s r h = elim (Bool-cases (is_end x y)) [
  | inl e ↦ ground (arith, cut-end x y t e, cut-end x y (t ++ ys) e)
  | inr e ↦ elim (Option-cases (cut (y ∷ t))) [
    | inl none_later ↦ ground (arith, cut-later x y t e)
    | inr ((s', r'), found) ↦
        ground
          (arith, cut-later x y t e, cut-later x y (t ++ ys) e, cut-append (y ∷ t) ys s' r' found)
  ]
]

pub cut-append_none :
    (xs ys : Bytes) → cut xs ≡ none → unsplit xs ys ≡ true → cut (xs ++ ys) ≡ precede xs (cut ys)
unfolding cut_after
cut-append_none [] ys h u = elim (Option-cases (cut ys)) [
  | inl e ↦ ground arith
  | inr (p, e) ↦ ground arith
]
cut-append_none (x ∷ []) [] h u = refl
cut-append_none (x ∷ []) (y ∷ ys) h u =
    cut-later x y ys (ground arith) ∙ ground (arith, prepend-precede x [] (cut (y ∷ ys)))
cut-append_none (x ∷ y ∷ t) ys h u = elim (Bool-cases (is_end x y)) [
  | inl e ↦ ground (arith, cut-end x y t e)
  | inr e ↦ ground (
    arith,
    cut-later x y t e,
    cut-later x y (t ++ ys) e,
    cut-append_none (y ∷ t) ys (prepend_none x (cut (y ∷ t)) (ground (arith, cut-later x y t e))) u,
    prepend-precede x (y ∷ t) (cut ys),
  )
]

pub unsplit-rest :
    (xs ys s r : Bytes) → cut xs ≡ some (s, r) → unsplit xs ys ≡ true → unsplit r ys ≡ true
unfolding cut_after
unsplit-rest [] ys s r h u = cc
unsplit-rest (x ∷ []) ys s r h u = cc
unsplit-rest (x ∷ y ∷ t) ys s r h u = elim (Bool-cases (is_end x y)) [
  | inl e ↦ ground (arith, cut-end x y t e, unsplit_tail y t ys u)
  | inr e ↦ elim (Option-cases (cut (y ∷ t))) [
    | inl none_later ↦ ground (arith, cut-later x y t e)
    | inr ((s', r'), found) ↦
        ground (arith, cut-later x y t e, unsplit-rest (y ∷ t) ys s' r' found u)
  ]
]

pub cut-newline : (xs : Bytes) → cut xs ≡ none → cut (newline ∷ xs) ≡ none
unfolding cut_after
cut-newline [] e = refl
cut-newline (x ∷ xs) e = cut-later newline x xs refl ∙ ap (prepend newline) e
