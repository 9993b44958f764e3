-- ===== src/Prelude/Spaces.antt =====
-- White space of texts, and the first of a list of pieces.
use Prim.Native.Nat.{ℕ}
use mathlib.Core.List.{List, [], ◌∷◌}
use mathlib.Core.Bool.{Bool, ◌&&◌, ◌||◌}
use detour.Prelude.Tests.{if◌then◌else◌, leb, ◌==◌}
use detour.Prelude.Lists.{reverse}
use detour.Prelude.Bytes.{Text}

-- ASCII white space, as `trim` takes it off a text of ASCII.
abbrev pub is_space : ℕ → Bool
is_space c = c == 32 || (leb 9 c && leb c 13)

abbrev pub trim_start : Text → Text
trim_start [] = []
trim_start (c ∷ s) = if is_space c then trim_start s else c ∷ s

abbrev pub trim : Text → Text
trim s = reverse (trim_start (reverse (trim_start s)))

-- `split(..).next()`
abbrev pub first_piece : List Text → Text
first_piece [] = []
first_piece (t ∷ ts) = t
