-- ===== src/Policy/Examples.antt =====
-- policy.rs: the theorems on the names of its unit tests.
use detour.Prelude.{Text, [], arith, bytes, false, true, ◌↔◌, ◌∷◌, ◌≡◌, ◌⊎◌}
use detour.Policy.{Policy, doh, is_private_reverse, normalise, normalise_str, route, suffix_matches}
use detour.Policy.Suffix.{Covers, suffix_matches_iff}
use detour.Policy.Reverse.{is_private_reverse-nibbles}
use detour.Policy.Routing.{CoveredBy, Stays, route_doh_iff}

suffix_matches_iff_example :
    (suffix_matches (bytes "cdn.faceit.com") (bytes "*.Faceit.com") ≡ true)
    ↔ Covers (normalise_str (bytes "*.Faceit.com")) (bytes "cdn.faceit.com")
suffix_matches_iff_example = suffix_matches_iff (bytes "cdn.faceit.com") (bytes "*.Faceit.com")

is_private_reverse-nibbles_example : is_private_reverse (bytes "1.0.0.0.8.e.f.ip6.arpa") ≡ false
is_private_reverse-nibbles_example =
    is_private_reverse-nibbles (bytes "1.0.0.0.8") b'e' b'f' (λ e. omega (arith, e))
      (λ e. omega (arith, e))

abbrev games : Policy
games = record {
  default_doh = false;
  force_doh = bytes "faceit.com" ∷ [];
  force_local = bytes "corp.example" ∷ [];
}

route_doh_iff_example : (route {Name = Text} (λ t. t) games (bytes "API.Faceit.com.") ≡ doh) ↔ (
    (¬ Stays games (normalise {Name = Text} (λ t. t) (bytes "API.Faceit.com.")))
    × (CoveredBy games.force_doh (normalise {Name = Text} (λ t. t) (bytes "API.Faceit.com."))
        ⊎ (games.default_doh ≡ true)))
route_doh_iff_example = route_doh_iff {Name = Text} (λ t. t) games (bytes "API.Faceit.com.")
