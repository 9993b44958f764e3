-- ===== src/Prelude/Words.antt =====
-- Words of a text, its last separator, and the tests of membership on numbers and texts.
use Prim.Native.Nat.{ℕ, zero, suc, ◌+◌, ◌-◌, ◌/◌, ◌%◌}
use mathlib.Core.Path.{◌≡◌}
use mathlib.Core.Logic.{◌↔◌, inl, inr}
use mathlib.Core.Option.{Option, none, some}
use mathlib.Core.List.{List, [], ◌∷◌, ◌++◌}
use mathlib.Core.Bool.{Bool, true}
use detour.Prelude.Tests.{Bool-cases, ltb, if◌then◌else◌, ◌==◌, ==→eq, ==_self}
use detour.Prelude.Lists.{All, any, Any, any_iff, is_empty, length}
use detour.Prelude.Bytes.{Text, cons_head, is_digit, starts_with}
use detour.Prelude.Spaces.{is_space}

-- `rsplit_once` at a byte.
abbrev pub rsplit_once : ℕ → Text → Option (Text × Text)
rsplit_once c [] = none
rsplit_once c (x ∷ s) = elim (rsplit_once c s) [
  | none ↦ if x == c then some ([], s) else none
  | some (a, b) ↦ some (x ∷ a, b)
]

abbrev pub split_by : (ℕ → Bool) → Text → List Text
split_by p [] = [] ∷ []
split_by p (x ∷ s) = let rest = split_by p s in if p x then [] ∷ rest else cons_head x rest

abbrev pub drop_empty : List Text → List Text
drop_empty [] = []
drop_empty (t ∷ ts) = if is_empty t then drop_empty ts else t ∷ drop_empty ts

-- `split_whitespace`
abbrev pub words : Text → List Text
words s = drop_empty (split_by is_space s)

-- `contains` of a list of numbers.
unfoldable pub contains : List ℕ → ℕ → Bool
contains xs n = any (λ x. x == n) xs

pub contains_iff : (xs : List ℕ) (n : ℕ) → (contains xs n ≡ true) ↔ Any (λ x. x ≡ n) xs
unfolding contains
contains_iff xs n = any_iff _ (λ x. (==→eq x n, λ e. rw e (==_self n))) xs

module _ {ℓ} {A : Type ℓ} where
  -- `filter`
  abbrev pub filter : (A → Bool) → List A → List A
  filter p [] = []
  filter p (x ∷ xs) = if p x then x ∷ filter p xs else filter p xs

-- `join`
abbrev pub join : Text → List Text → Text
join sep [] = []
join sep (t ∷ []) = t
join sep (t ∷ u ∷ ts) = t ++ sep ++ join sep (u ∷ ts)

-- The pieces between the occurrences of a text, of which so many bytes are still to be skipped.
unfoldable pub split_text : Text → ℕ → Text → List Text
split_text sep k [] = [] ∷ []
split_text sep (suc k) (x ∷ s) = split_text sep k s
split_text sep zero (x ∷ s) =
    let next = split_text sep (length sep - 1) s in
    let same = split_text sep 0 s in if starts_with (x ∷ s) sep then [] ∷ next else cons_head x same

-- `trim_start_matches` of a byte.
abbrev pub trim_start_matches : ℕ → Text → Text
trim_start_matches c [] = []
trim_start_matches c (x ∷ s) = if x == c then trim_start_matches c s else x ∷ s

abbrev pub digits_of : Text → Text
digits_of [] = []
digits_of (x ∷ s) = if is_digit x then x ∷ digits_of s else []

unfoldable pub show_digits : ℕ → ℕ → Text → Text
show_digits zero n acc = acc
show_digits (suc fuel) n acc =
    let rest = show_digits fuel (n / 10) ((n % 10 + b'0') ∷ acc) in
    if ltb n 10 then (n + b'0') ∷ acc else rest

-- `to_string` of an unsigned integer: a round takes one digit off.
unfoldable pub show_uint : ℕ → Text
unfolding show_digits
show_uint n = show_digits (suc n) n []

module _ {ℓ κ} {A : Type ℓ} where
  pub All-filter :
      (P : A → Type κ) (p : A → Bool) (xs : List A)
      → All P xs
      → All (λ x. P x × (p x ≡ true)) (filter p xs)
  All-filter P p [] h = tt
  All-filter P p (x ∷ xs) h = elim (Bool-cases (p x)) [
    | inl yes_ ↦ rw yes_ ((h.0, yes_), All-filter P p xs h.1)
    | inr no_ ↦ rw no_ (All-filter P p xs h.1)
  ]
