-- ===== src/Diagnose/Examples.antt =====
-- A resolver of the network that answers with a dead address.
use detour.Prelude.{Bool, [], any, bytes, err, false, none, ok, refl, text_eq, true, ◌↔◌, ◌∷◌, ◌≡◌}
use detour.Net.{AddressText, IpAddr, v4}
use detour.Diagnose.{Verdict, blocked_beyond_dns, dns_interference, judge, no_answer}
use detour.Diagnose.Addresses.{ip_eq}
use detour.Diagnose.Conclusions.{judge-conclusion_iff}

abbrev std : AddressText
std = record { parse_ip = λ t. none; show_ip = λ ip. bytes "192.0.2.1"; parse_socket = λ t. none }

-- The second address alone connects.
abbrev connects : IpAddr → Bool
connects ip = ip_eq ip (v4 2)

abbrev verdict : Verdict
verdict = judge std connects (bytes "a.example") (ok (v4 1 ∷ [])) (ok (v4 2 ∷ []))

interference : verdict.conclusion ≡ dns_interference
unfolding judge text_eq
interference = refl

-- One dead address, from one side alone; the other side failed.
one_sided :
    (judge std connects (bytes "a.example") (ok (v4 1 ∷ [])) (err no_answer)).conclusion
    ≡ blocked_beyond_dns
unfolding judge text_eq
one_sided = refl

no_restriction : verdict.restriction ≡ none
unfolding judge text_eq
no_restriction = refl

judge-conclusion_iff_example :
    ((verdict.conclusion ≡ dns_interference)
      ↔ ((any connects (v4 1 ∷ []) ≡ false) × (any connects (v4 2 ∷ []) ≡ true)))
    × ((verdict.conclusion ≡ blocked_beyond_dns) ↔ (
        (false ≡ false) × (any connects (v4 1 ∷ []) ≡ false) × (any connects (v4 2 ∷ []) ≡ false)))
judge-conclusion_iff_example =
    judge-conclusion_iff std connects (bytes "a.example") (ok (v4 1 ∷ [])) (ok (v4 2 ∷ []))
      no_restriction
