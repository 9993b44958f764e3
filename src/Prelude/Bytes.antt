-- ===== src/Prelude/Bytes.antt =====
-- Text as the list of its bytes, and the methods of Rust's `str` that the program calls.
use Prim.Native.Nat.{ℕ, ◌+◌, ◌-◌, ◌*◌, ◌≤◌}
use Prim.Native.Char.{code}
use Prim.Native.String.{String}
use mathlib.Core.Path.{◌≡◌, refl, sym, ap, ◌∙◌}
use mathlib.Core.Logic.{◌↔◌, inl, inr}
use mathlib.Core.Bool.{Bool, true, false, ◌&&◌, ◌||◌}
use mathlib.Core.Option.{Option, none, some}
use mathlib.Core.Logic.{◌≢◌}
use mathlib.Core.List.{append_assoc, List, [], ◌∷◌, ◌++◌}
use native.Mathlib.Omega.{arith}
use detour.Prelude.Tests.{
  &&_true, ==_self, ==→eq, Bool-cases, if◌then◌else◌, leb, leb→le, le→leb, true_&&, ◌==◌,
}
use detour.Prelude.Lists.{
  drop, drop-length-append, length, length-append, take, take-append-drop, take-length-append,
}

abbrev pub Text : Type 0
Text = List ℕ

-- The code points of a literal: its bytes, if it is ASCII.
abbrev pub bytes : String → Text
bytes String.[] = []
bytes (String.◌∷◌ c s) = code c ∷ bytes s

unfoldable pub text_eq : Text → Text → Bool
text_eq [] [] = true
text_eq (x ∷ xs) (y ∷ ys) = x == y && text_eq xs ys
text_eq _ _ = false

-- `starts_with` and `strip_prefix`: the text, then the prefix.
unfoldable pub strip_prefix : Text → Text → Option Text
strip_prefix s [] = some s
strip_prefix [] (p ∷ ps) = none
strip_prefix (x ∷ s) (p ∷ ps) = let rest = strip_prefix s ps in if x == p then rest else none

unfoldable pub starts_with : Text → Text → Bool
starts_with s [] = true
starts_with [] (p ∷ ps) = false
starts_with (x ∷ s) (p ∷ ps) = x == p && starts_with s ps

unfoldable pub ends_with : Text → Text → Bool
unfolding text_eq
ends_with s p = leb (length p) (length s) && text_eq (drop (length s - length p) s) p

unfoldable pub strip_suffix : Text → Text → Option Text
unfolding ends_with
strip_suffix s p = if ends_with s p then some (take (length s - length p) s) else none

-- `contains` of a byte.
unfoldable pub has_byte : ℕ → Text → Bool
has_byte c [] = false
has_byte c (x ∷ s) = x == c || has_byte c s

-- A byte in front of a trimmed text goes if nothing is left behind it.
abbrev pub trim_step : ℕ → ℕ → Text → Text
trim_step c x [] = if x == c then [] else x ∷ []
trim_step c x (y ∷ ys) = x ∷ y ∷ ys

-- `trim_end_matches` of a byte.
unfoldable pub trim_end_matches : ℕ → Text → Text
trim_end_matches c [] = []
trim_end_matches c (x ∷ s) = trim_step c x (trim_end_matches c s)

unfoldable pub to_lower : ℕ → ℕ
to_lower c = if leb 65 c && leb c 90 then c + 32 else c

unfoldable pub to_ascii_lowercase : Text → Text
unfolding to_lower
to_ascii_lowercase [] = []
to_ascii_lowercase (c ∷ s) = to_lower c ∷ to_ascii_lowercase s

abbrev pub cons_head : ℕ → List Text → List Text
cons_head c [] = (c ∷ []) ∷ []
cons_head c (t ∷ ts) = (c ∷ t) ∷ ts

-- `split` at a byte: never empty.
unfoldable pub split : ℕ → Text → List Text
split c [] = [] ∷ []
split c (x ∷ s) = let rest = split c s in if x == c then [] ∷ rest else cons_head x rest

-- `split_once` at a byte.
unfoldable pub split_once : ℕ → Text → Option (Text × Text)
split_once c [] = none
split_once c (x ∷ s) =
    let rest = split_once c s in
    if x == c then some ([], s) else elim rest [ none ↦ none | some (a, b) ↦ some (x ∷ a, b) ]

abbrev pub is_digit : ℕ → Bool
is_digit c = leb b'0' c && leb c b'9'

unfoldable pub digits_from : ℕ → Text → Option ℕ
digits_from acc [] = some acc
digits_from acc (c ∷ s) =
    let rest = digits_from (acc * 10 + (c - b'0')) s in if is_digit c then rest else none

abbrev in_range : ℕ → Option ℕ → Option ℕ
in_range max none = none
in_range max (some n) = if leb n max then some n else none

unfoldable pub parse_digits : ℕ → Text → Option ℕ
unfolding digits_from
parse_digits max [] = none
parse_digits max (c ∷ s) = in_range max (digits_from 0 (c ∷ s))

-- `parse` of an unsigned integer with the given maximum: a sign `+` may stand before the digits.
unfoldable pub parse_uint : ℕ → Text → Option ℕ
unfolding parse_digits
parse_uint max [] = none
parse_uint max (c ∷ s) = if c == b'+' then parse_digits max s else parse_digits max (c ∷ s)

pub text_eq→eq : (s t : Text) → text_eq s t ≡ true → s ≡ t
unfolding text_eq
text_eq→eq [] [] h = refl
text_eq→eq [] (y ∷ ys) h = ground arith
text_eq→eq (x ∷ xs) [] h = ground arith
text_eq→eq (x ∷ xs) (y ∷ ys) h =
    let (p, q) = &&_true (x == y) _ h in cc (==→eq x y p, text_eq→eq xs ys q)

pub text_eq_self : (s : Text) → text_eq s s ≡ true
unfolding text_eq
text_eq_self [] = refl
text_eq_self (x ∷ s) = true_&& _ _ (==_self x) (text_eq_self s)

pub text_eq_iff : (s t : Text) → (text_eq s t ≡ true) ↔ (s ≡ t)
text_eq_iff s t = (text_eq→eq s t, λ e. rw e (text_eq_self t))

pub strip_prefix-append : (p s : Text) → strip_prefix (p ++ s) p ≡ some s
unfolding strip_prefix
strip_prefix-append [] s = refl
strip_prefix-append (x ∷ p) s = rw (==_self x) (strip_prefix-append p s)

pub strip_prefix-eq_some : (s p r : Text) → strip_prefix s p ≡ some r → s ≡ p ++ r
unfolding strip_prefix
strip_prefix-eq_some s [] r h = ground arith
strip_prefix-eq_some [] (p ∷ ps) r h = ground arith
strip_prefix-eq_some (x ∷ s) (p ∷ ps) r h = elim (Bool-cases (x == p)) [
  | inl same ↦ cc (==→eq x p same, strip_prefix-eq_some s ps r (rw same at h))
  | inr other ↦ absurd (none_ne_some (rw other at h))
]
  where
    none_ne_some : ◌≡◌ {A = Option Text} none (some r) → ⊥
    none_ne_some e = cc

pub ends_with-append : (pre p : Text) → ends_with (pre ++ p) p ≡ true
unfolding ends_with
ends_with-append pre p =
    let gap : length (pre ++ p) - length p ≡ length pre = omega (arith, length-append pre p) in
    rw (gap, drop-length-append, text_eq_self p)
      (true_&& _ _ (le→leb (length p) _ (omega (arith, length-append pre p))) refl)

-- What `ends_with` finds is a split of the text.
pub ends_with→append :
    (s p : Text)
    → ends_with s p ≡ true
    → (length p ≤ length s) × (s ≡ take (length s - length p) s ++ p)
unfolding ends_with
ends_with→append s p h =
    let (fits, same) = &&_true (leb (length p) (length s)) _ h in
    let n : ℕ = length s - length p in
    (
      leb→le _ _ fits,
      sym (take-append-drop n s) ∙ ap (◌++◌ (take n s)) (text_eq→eq (drop n s) p same),
    )

pub strip_suffix-append : (pre p : Text) → strip_suffix (pre ++ p) p ≡ some pre
unfolding strip_suffix
strip_suffix-append pre p =
    let gap : length (pre ++ p) - length p ≡ length pre = omega (arith, length-append pre p) in
    rw (ends_with-append, gap, take-length-append) refl

pub strip_suffix-eq_some : (s p r : Text) → strip_suffix s p ≡ some r → s ≡ r ++ p
unfolding strip_suffix
strip_suffix-eq_some s p r h = elim (Bool-cases (ends_with s p)) [
  | inl found ↦ cc ((ends_with→append s p found).1, rw found at h)
  | inr missing ↦ absurd (none_ne_some (rw missing at h))
]
  where
    none_ne_some : ◌≡◌ {A = Option Text} none (some r) → ⊥
    none_ne_some e = cc

has_byte→split :
    (c : ℕ) (s : Text) → has_byte c s ≡ true → (a : Text) × (b : Text) × (s ≡ a ++ c ∷ b)
unfolding has_byte
has_byte→split c [] h = absurd (ground arith)
has_byte→split c (x ∷ s) h = elim (Bool-cases (x == c)) [
  | inl now ↦ ([], s, ap (λ y. y ∷ s) (==→eq x c now))
  | inr other ↦ let (a, b, e) = has_byte→split c s (rw other at h) in (x ∷ a, b, ap (◌∷◌ x) e)
]

pub has_byte-append : (c : ℕ) (a b : Text) → has_byte c (a ++ c ∷ b) ≡ true
unfolding has_byte
has_byte-append c [] b = rw (==_self c) refl
has_byte-append c (x ∷ a) b = rw (has_byte-append c a b) (or_true (x == c))
  where
    or_true : (t : Bool) → (t || true) ≡ true
    or_true t = ground arith

-- A text has a byte exactly if it splits at that byte.
pub has_byte_iff :
    (c : ℕ) (s : Text) → (has_byte c s ≡ true) ↔ ((a : Text) × (b : Text) × (s ≡ a ++ c ∷ b))
has_byte_iff c s = (has_byte→split c s, λ (a, b, e). rw e (has_byte-append c a b))

-- A piece with no separator in it comes off whole.
pub split_piece : (c : ℕ) (s r : Text) → has_byte c s ≡ false → split c (s ++ c ∷ r) ≡ s ∷ split c r
unfolding has_byte split
split_piece c [] r h = rw (==_self c) refl
split_piece c (x ∷ s) r h = ground (arith, split_piece c s r)

pub split_last : (c : ℕ) (s : Text) → has_byte c s ≡ false → split c s ≡ s ∷ []
unfolding has_byte split
split_last c [] h = refl
split_last c (x ∷ s) h = ground (arith, split_last c s)

cons_head-append :
    (x : ℕ) (h : Text) (t q : List Text) → cons_head x ((h ∷ t) ++ q) ≡ cons_head x (h ∷ t) ++ q
cons_head-append x h t q = refl

split-ne_nil : (c : ℕ) (s : Text) → (h : Text) × (t : List Text) × (split c s ≡ h ∷ t)
unfolding split
split-ne_nil c [] = ([], [], refl)
split-ne_nil c (x ∷ s) = elim (Bool-cases (x == c)) [
  | inl same ↦ ([], split c s, rw same refl)
  | inr other ↦ let (h, t, e) = split-ne_nil c s in (x ∷ h, t, rw (other, e) refl)
]

-- Splitting goes piece by piece.
pub split-append : (c : ℕ) (a b : Text) → split c (a ++ c ∷ b) ≡ split c a ++ split c b
unfolding split
split-append c [] b = rw (==_self c) refl
split-append c (x ∷ a) b = elim (Bool-cases (x == c)) [
  | inl same ↦ rw same (ap (◌∷◌ []) (split-append c a b))
  | inr other ↦ let (h, t, e) = split-ne_nil c a in rw (other, split-append c a b, e) refl
]

-- Two ends of one length of the same text are equal.
pub same_end : (x y a b : Text) → x ++ a ≡ y ++ b → length a ≡ length b → a ≡ b
same_end x y a b e l =
    let lengths : length (x ++ a) ≡ length (y ++ b) = ap length e in
    let n : length x ≡ length y = omega (arith, length-append x a, length-append y b) in
    sym (drop-length-append x a)
    ∙ ap (drop (length x)) e
    ∙ ap (λ k. drop k (y ++ b)) n
    ∙ drop-length-append y b

-- A text that ends otherwise does not end so.
pub ends_with_other :
    (x a p q : Text) → a ≢ q → length a ≡ length q → ends_with (x ++ a) (p ++ q) ≡ false
ends_with_other x a p q differ l = elim (Bool-cases (ends_with (x ++ a) (p ++ q))) [
  | inl yes_ ↦
      let whole = ends_with→append (x ++ a) (p ++ q) yes_ in
      absurd (differ (same_end x _ a q (whole.1 ∙ sym (append_assoc _ p q)) l))
  | inr no_ ↦ no_
]

pub strip_suffix-eq_none : (s p : Text) → ends_with s p ≡ false → strip_suffix s p ≡ none
unfolding strip_suffix
strip_suffix-eq_none s p h = rw h

pub starts_with→append : (s p : Text) → starts_with s p ≡ true → (r : Text) × (s ≡ p ++ r)
unfolding starts_with
starts_with→append s [] h = (s, refl)
starts_with→append [] (p ∷ ps) h = absurd (ground arith)
starts_with→append (x ∷ s) (p ∷ ps) h =
    let (same, more) = &&_true (x == p) _ h in
    let (r, e) = starts_with→append s ps more in (r, cc (==→eq x p same, e))

pub starts_with-append : (p r : Text) → starts_with (p ++ r) p ≡ true
unfolding starts_with
starts_with-append [] r = refl
starts_with-append (x ∷ p) r = rw (==_self x) (starts_with-append p r)
