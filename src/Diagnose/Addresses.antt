-- ===== src/Diagnose/Addresses.antt =====
-- crates/dns-helper/src/diagnose.rs: the order and the equality of addresses, and lists of them as
-- sets, `same_set`.
use detour.Prelude.{Bool, List, [], any, false, if◌then◌else◌, leb, true, ◌&&◌, ◌==◌, ◌∷◌}
use detour.Net.{IpAddr, v4, v6}

-- The order of addresses: those of IPv4 first.
abbrev pub ip_leb : IpAddr → IpAddr → Bool
ip_leb (v4 a) (v4 b) = leb a b
ip_leb (v4 a) (v6 b) = true
ip_leb (v6 a) (v4 b) = false
ip_leb (v6 a) (v6 b) = leb a b

abbrev pub ip_eq : IpAddr → IpAddr → Bool
ip_eq (v4 a) (v4 b) = a == b
ip_eq (v4 a) (v6 b) = false
ip_eq (v6 a) (v4 b) = false
ip_eq (v6 a) (v6 b) = a == b

abbrev pub insert_ip : IpAddr → List IpAddr → List IpAddr
insert_ip ip [] = ip ∷ []
insert_ip ip (x ∷ xs) = if ip_leb ip x then ip ∷ x ∷ xs else x ∷ insert_ip ip xs

-- `sort`
unfoldable pub sort : List IpAddr → List IpAddr
sort [] = []
sort (x ∷ xs) = insert_ip x (sort xs)

-- An address in front of a list without equal neighbours.
abbrev pub dedup_step : IpAddr → List IpAddr → List IpAddr
dedup_step x [] = x ∷ []
dedup_step x (y ∷ ys) = if ip_eq x y then y ∷ ys else x ∷ y ∷ ys

-- `dedup`
unfoldable pub dedup : List IpAddr → List IpAddr
dedup [] = []
dedup (x ∷ xs) = dedup_step x (dedup xs)

unfoldable pub contains_ip : List IpAddr → IpAddr → Bool
contains_ip ips ip = any (λ x. ip_eq x ip) ips

abbrev same_ips : List IpAddr → List IpAddr → Bool
same_ips [] [] = true
same_ips [] (y ∷ ys) = false
same_ips (x ∷ xs) [] = false
same_ips (x ∷ xs) (y ∷ ys) = ip_eq x y && same_ips xs ys

unfoldable pub same_set : List IpAddr → List IpAddr → Bool
unfolding sort dedup
same_set a b = same_ips (dedup (sort a)) (dedup (sort b))
