-- ===== src/FilterRoute/Examples.antt =====
-- A redirect that `nft` refuses.
use detour.FilterRoute.{FilterError, command_failed, delete_filter, filter_route_up}
use detour.FilterRoute.Rollback.{FilterLaws, filter_route_up-err}
use detour.Prelude.{
  Bool, List, Text, [], ap, arith, bytes, err, false, get_or, if◌then◌else◌, inr, refl, text_eq,
  true, ◌≡◌,
}
use detour.Tunnel.Steps.{load_rules}
use detour.Tunnel.Bringup.{Ran, refused, succeeded}

-- The world is whether the table is there; `nft -f` is refused.
abbrev refusing : List Text → Bool → Ran × Bool
refusing argv b =
    if text_eq (get_or argv 1 []) (bytes "delete") then (succeeded, false) else (refused [], b)

refusing-FilterLaws : FilterLaws refusing (λ b. b) (bytes "/run/f.nft")
unfolding text_eq
refusing-FilterLaws = record {
  deleted = λ w e. refl;
  delete_adds_nothing = λ w h. refl;
  not_loaded = λ w h e. h;
}

abbrev failure : FilterError
failure = command_failed (load_rules (bytes "/run/f.nft")) []

earlier_deleted : (refusing delete_filter true).0 ≡ succeeded
unfolding text_eq
earlier_deleted = refl

refused_run :
    filter_route_up refusing 1000 true true (bytes "/run/f.nft") true ≡ (err failure, false)
unfolding filter_route_up text_eq
refused_run = refl

filter_route_up-err_example :
    (filter_route_up refusing 1000 true true (bytes "/run/f.nft") true).1 ≡ false
filter_route_up-err_example =
    filter_route_up-err refusing (λ b. b) (bytes "/run/f.nft") refusing-FilterLaws 1000 true true
      true failure (λ e. absurd (omega (arith, e))) (inr earlier_deleted)
      (ap (λ x. x.0) refused_run)
