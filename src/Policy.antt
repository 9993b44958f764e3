-- ===== src/Policy.antt =====
-- crates/dns-core/src/policy.rs: which names go to DoH and which stay on the network's resolver.
-- A `Name` is hickory's; its `to_ascii` is a parameter of `route`. Texts are lists of bytes.
pub mod Normal
pub mod Suffix
pub mod Reverse
pub mod Routing
mod Examples
use detour.Prelude.{
  Bool, List, Option, Text, [], any, bytes, ends_with, false, get_or, has_byte, if◌then◌else◌,
  is_empty, leb, length, ltb, map, none, not, parse_uint, some, split, starts_with, strip_prefix,
  strip_suffix, suc, text_eq, to_ascii_lowercase, trim_end_matches, true, zero, ℕ, ◌&&◌, ◌*◌, ◌++◌,
  ◌-◌, ◌==◌, ◌||◌, ◌∷◌,
}

pub data Route : Type 0 where
  doh system_upstream : Route

pub record Policy : Type 0 where
  pub default_doh : Bool
  pub force_doh : List Text
  pub force_local : List Text

abbrev pub local_suffixes : List Text
local_suffixes =
    bytes "local"
    ∷ bytes "lan"
    ∷ bytes "home"
    ∷ bytes "home.arpa"
    ∷ bytes "internal"
    ∷ bytes "intranet"
    ∷ bytes "localdomain"
    ∷ bytes "localhost"
    ∷ []

abbrev pub default_policy : Policy
default_policy = record { default_doh = true; force_doh = []; force_local = [] }

unfoldable pub normalise_str : Text → Text
normalise_str s = to_ascii_lowercase (trim_end_matches b'.' s)

-- `name.len() > s.len() && name.ends_with(s) && name[name.len() - s.len() - 1] == b'.'`
unfoldable pub has_label_suffix : Text → Text → Bool
has_label_suffix name s =
    ltb (length s) (length name)
    && ends_with name s
    && get_or name (length name - length s - 1) 0 == b'.'

unfoldable pub matches_normal : Text → Text → Bool
unfolding has_label_suffix
matches_normal name suffix =
    if is_empty suffix then false else elim (strip_prefix suffix (bytes "*.")) [
      | some stripped ↦ has_label_suffix name stripped
      | none ↦ text_eq name suffix || has_label_suffix name suffix
    ]

unfoldable pub suffix_matches : Text → Text → Bool
unfolding matches_normal normalise_str
suffix_matches name suffix = matches_normal name (normalise_str suffix)

-- The end of a slice, as the patterns `[.., b, a]`, `[a]` and `[]` see it.
pub data SliceEnd : Type 0 where
  two : Text → Text → SliceEnd
  one : Text → SliceEnd
  nothing : SliceEnd

unfoldable pub slice_end : List Text → SliceEnd
slice_end [] = nothing
slice_end (a ∷ []) = one a
slice_end (b ∷ a ∷ []) = two b a
slice_end (x ∷ y ∷ z ∷ rest) = slice_end (y ∷ z ∷ rest)

-- `(Ok(172), Ok(n)) if (16..=31).contains(&n)` and the like: the value, if it parsed, passes.
abbrev pub parsed_and : (ℕ → Bool) → Option ℕ → Bool
parsed_and p none = false
parsed_and p (some n) = p n

unfoldable pub private_octets : Option ℕ → Option ℕ → Bool
private_octets none b = false
private_octets (some a) b =
    if a == 10
    then true
    else if a == 192 && parsed_and (λ n. n == 168) b
    then true
    else if a == 172 && parsed_and (λ n. leb 16 n && leb n 31) b
    then true
    else if a == 127
    then true
    else a == 169 && parsed_and (λ n. n == 254) b

unfoldable pub private_octet_labels : SliceEnd → Bool
unfolding private_octets
private_octet_labels (two b a) = private_octets (parse_uint 255 a) (parse_uint 255 b)
private_octet_labels (one a) = parsed_and (λ n. n == 10 || n == 127) (parse_uint 255 a)
private_octet_labels nothing = false

-- `trim_end_matches` of a text that is not empty; every round removes a byte at least.
unfoldable pub trim_suffixes : ℕ → Text → Text → Text
trim_suffixes zero s p = s
trim_suffixes (suc n) s p = elim (strip_suffix s p) [ none ↦ s | some r ↦ trim_suffixes n r p ]

unfoldable pub private_nibbles : SliceEnd → Bool
private_nibbles (two c d) =
    let prefix = d ++ c in
    starts_with prefix (bytes "fc")
    || starts_with prefix (bytes "fd")
    || starts_with prefix (bytes "fe8")
    || starts_with prefix (bytes "fe9")
    || starts_with prefix (bytes "fea")
    || starts_with prefix (bytes "feb")
private_nibbles (one a) = false
private_nibbles nothing = false

unfoldable pub private_v6_zone : Text → Bool
unfolding slice_end trim_suffixes private_nibbles
private_v6_zone name =
    if ends_with name (bytes ".ip6.arpa")
    then private_nibbles
        (slice_end (split b'.' (trim_suffixes (length name) name (bytes ".ip6.arpa"))))
    else false

-- The two zones, by what is left of the name before `.in-addr.arpa`.
unfoldable pub private_zone : Text → Option Text → Bool
unfolding slice_end private_octet_labels private_v6_zone
private_zone name (some rest) = private_octet_labels (slice_end (split b'.' rest))
private_zone name none = private_v6_zone name

unfoldable pub is_private_reverse : Text → Bool
unfolding private_zone
is_private_reverse name = private_zone name (strip_suffix name (bytes ".in-addr.arpa"))

unfoldable pub is_builtin_local : Text → Bool
unfolding is_private_reverse
is_builtin_local name =
    if any (suffix_matches name) local_suffixes
    then true
    else if not (has_byte b'.' name)
    then true
    else is_private_reverse name

-- `Policy::route` once the name is normalised.
unfoldable pub route_labels : Policy → Text → Route
route_labels policy labels =
    if any (suffix_matches labels) policy.force_local
    then system_upstream
    else if is_builtin_local labels
    then system_upstream
    else if any (suffix_matches labels) policy.force_doh
    then doh
    else if policy.default_doh
    then doh
    else system_upstream

module _ {Name : Type 0} (to_ascii : Name → Text) where
  unfoldable pub normalise : Name → Text
  normalise name = normalise_str (to_ascii name)

  unfoldable pub route : Policy → Name → Route
  unfolding route_labels normalise
  route policy name = route_labels policy (normalise name)

unfoldable pub set_force_doh : Policy → List Text → Policy
set_force_doh policy domains = record policy { force_doh = map normalise_str domains }
