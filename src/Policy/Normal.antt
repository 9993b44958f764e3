-- ===== src/Policy/Normal.antt =====
-- policy.rs, `normalise_str`: lower case and trailing dots.
use detour.Prelude.{
  Text, [], ap, arith, refl, to_ascii_lowercase, to_lower, trim_end_matches, trim_step, ℕ, ◌++◌,
  ◌==◌, ◌∷◌, ◌≡◌,
}
use detour.Policy.{normalise_str}

pub to_lower_idem : (c : ℕ) → to_lower (to_lower c) ≡ to_lower c
unfolding to_lower
to_lower_idem c = ground arith

-- Lowering a byte neither makes nor removes a dot.
to_lower-dot : (c : ℕ) → (to_lower c == b'.') ≡ (c == b'.')
unfolding to_lower
to_lower-dot c = ground arith

pub to_ascii_lowercase_idem :
    (s : Text) → to_ascii_lowercase (to_ascii_lowercase s) ≡ to_ascii_lowercase s
unfolding to_ascii_lowercase
to_ascii_lowercase_idem [] = refl
to_ascii_lowercase_idem (c ∷ s) = cc (to_lower_idem c, to_ascii_lowercase_idem s)

lower_step :
    (c : ℕ) (t : Text)
    → trim_step b'.' (to_lower c) (to_ascii_lowercase t) ≡ to_ascii_lowercase (trim_step b'.' c t)
unfolding to_ascii_lowercase
lower_step c [] = ground (arith, to_lower-dot c)
lower_step c (y ∷ ys) = refl

trim-lowercase :
    (s : Text)
    → trim_end_matches b'.' (to_ascii_lowercase s) ≡ to_ascii_lowercase (trim_end_matches b'.' s)
unfolding trim_end_matches to_ascii_lowercase
trim-lowercase [] = refl
trim-lowercase (c ∷ s) = rw (trim-lowercase s) (lower_step c (trim_end_matches b'.' s))

trim-trim_step :
    (c : ℕ) (t : Text)
    → trim_end_matches b'.' t ≡ t
    → trim_end_matches b'.' (trim_step b'.' c t) ≡ trim_step b'.' c t
unfolding trim_end_matches
trim-trim_step c [] h = ground arith
trim-trim_step c (y ∷ ys) h = rw h

trim_idem : (s : Text) → trim_end_matches b'.' (trim_end_matches b'.' s) ≡ trim_end_matches b'.' s
unfolding trim_end_matches
trim_idem [] = refl
trim_idem (c ∷ s) = trim-trim_step c (trim_end_matches b'.' s) (trim_idem s)

-- A normalised text is its own normal form.
pub normalise_str_idem : (s : Text) → normalise_str (normalise_str s) ≡ normalise_str s
unfolding normalise_str
normalise_str_idem s = rw (trim-lowercase, trim_idem, to_ascii_lowercase_idem)

-- Case does not change the normal form.
pub normalise_str-lowercase : (s : Text) → normalise_str (to_ascii_lowercase s) ≡ normalise_str s
unfolding normalise_str
normalise_str-lowercase s = rw (trim-lowercase, to_ascii_lowercase_idem)

trim_dot : (t : Text) → trim_end_matches b'.' (t ++ b'.' ∷ []) ≡ trim_end_matches b'.' t
unfolding trim_end_matches
trim_dot [] = refl
trim_dot (c ∷ t) = ap (trim_step b'.' c) (trim_dot t)

-- Nor does a dot at the end.
pub normalise_str-dot : (s : Text) → normalise_str (s ++ b'.' ∷ []) ≡ normalise_str s
unfolding normalise_str
normalise_str-dot s = ap to_ascii_lowercase (trim_dot s)
