-- ===== src/Apps.antt =====
-- crates/dns-helper/src/apps.rs: which processes belong to an app, and its sockets. A text is a list
-- of bytes, in `hold_unit` of characters.
pub mod Tree
pub mod Descendants
pub mod Sockets
pub mod Scopes
pub mod Capture
pub mod Local
mod Examples
use detour.Config.{last_piece}
use detour.Prelude.{
  Bool, List, Option, Text, [], bytes, contains, find, get_elem?, if◌then◌else◌, is_digit, leb,
  length, map, none, not, parse_uint, rsplit_once, show_uint, some, split, starts_with, suc,
  text_eq, to_lower, words, zero, ℕ, ◌&&◌, ◌++◌, ◌+◌, ◌-◌, ◌==◌, ◌||◌, ◌∷◌,
}

abbrev pub u32_max : ℕ
u32_max = 4294967295

-- The root of the user's cgroups.
unfoldable pub user_service_cgroup : ℕ → Text
user_service_cgroup uid =
    bytes "/sys/fs/cgroup/user.slice/user-"
    ++ show_uint uid
    ++ bytes ".slice/user@"
    ++ show_uint uid
    ++ bytes ".service"

-- What follows the first `run`.
unfoldable pub after_run : List Text → List Text
after_run [] = []
after_run (a ∷ args) = let rest = after_run args in if text_eq a (bytes "run") then args else rest

unfoldable pub flatpak_app_id : Text → List Text → Option Text
unfolding after_run last_piece
flatpak_app_id command args =
    if text_eq (last_piece (split b'/' command)) (bytes "flatpak")
    then find (λ a. not (starts_with a (bytes "-"))) (after_run args)
    else none

abbrev is_alphanumeric : ℕ → Bool
is_alphanumeric c = is_digit c || (leb 65 c && leb c 90) || (leb 97 c && leb c 122)

unfoldable pub slug_char : ℕ → ℕ
unfolding to_lower
slug_char c = if is_alphanumeric c then to_lower c else b'_'

unfoldable pub hold_unit : List ℕ → Text
unfolding slug_char
hold_unit app_name = bytes "detour-hold-" ++ map slug_char app_name ++ bytes ".scope"

abbrev second_word : List Text → Option Text
second_word [] = none
second_word (t ∷ []) = none
second_word (t ∷ u ∷ ts) = some u

abbrev parse_field : Option Text → Option ℕ
parse_field none = none
parse_field (some t) = parse_uint u32_max t

abbrev ppid_field : Option (Text × Text) → Option ℕ
ppid_field none = none
ppid_field (some (comm, rest)) = parse_field (second_word (words rest))

-- The parent, from the contents of `/proc/<pid>/stat`.
unfoldable pub parse_ppid : Text → Option ℕ
parse_ppid stat = ppid_field (rsplit_once b')' stat)

-- A pair of a process and its parent, against the processes found so far.
unfoldable pub adopt : ℕ → ℕ × ℕ → List ℕ → List ℕ
adopt parent (pid, ppid) out =
    if ppid == parent && not (contains out pid) then out ++ pid ∷ [] else out

-- The loop over the table.
unfoldable pub sweep : ℕ → List (ℕ × ℕ) → List ℕ → List ℕ
unfolding adopt
sweep parent [] out = out
sweep parent (e ∷ table) out = sweep parent table (adopt parent e out)

-- The loop over the list that it extends: `none` when the fuel is out.
unfoldable pub grow : List (ℕ × ℕ) → ℕ → ℕ → List ℕ → Option (List ℕ)
unfolding sweep
grow table zero i out = none
grow table (suc fuel) i out = elim (get_elem? out i) [
  | none ↦ some out
  | some parent ↦ grow table fuel (suc i) (sweep parent table out)
]

-- Each round has one process fewer to visit, or one pair fewer to add.
unfoldable pub descendants : List ℕ → List (ℕ × ℕ) → Option (List ℕ)
unfolding grow
descendants roots table = grow table (suc (length roots + length table)) 0 roots
