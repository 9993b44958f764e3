-- ===== src/Provider.antt =====
-- crates/dns-core/src/provider.rs: the DoH providers and the host that a client is pinned to.
pub mod Host
mod Examples
use detour.Prelude.{
  List, Option, Text, [], bytes, filter_map, if◌then◌else◌, length, none, some, strip_prefix, suc,
  take, ℕ, ◌==◌, ◌||◌, ◌∷◌,
}
use detour.Net.{AddressText, IpAddr, SocketAddr, with_port}

pub record Provider : Type 0 where
  pub name : Text
  pub url : Text
  pub bootstrap : List IpAddr

-- `rest.find(['/', ':'])`
unfoldable pub find_delimiter : Text → Option ℕ
find_delimiter [] = none
find_delimiter (c ∷ s) =
    let later = find_delimiter s in
    if c == b'/' || c == b':' then some 0 else elim later [ none ↦ none | some i ↦ some (suc i) ]

abbrev or_length : Text → Option ℕ → ℕ
or_length s none = length s
or_length s (some i) = i

-- Where the host ends in what follows `https://`.
unfoldable pub host_end : Text → ℕ
unfolding find_delimiter
host_end s = or_length s (find_delimiter s)

abbrev host_of_rest : Option Text → Option Text
host_of_rest none = none
host_of_rest (some rest) = some (take (host_end rest) rest)

unfoldable pub host : Provider → Option Text
unfolding host_end
host p = host_of_rest (strip_prefix p.url (bytes "https://"))

unfoldable pub bootstrap_addrs : Provider → List SocketAddr
unfolding with_port
bootstrap_addrs p = with_port 443 p.bootstrap

module _ (std : AddressText) where
  unfoldable pub new : Text → Text → List Text → Provider
  new name url addrs = record { name = name; url = url; bootstrap = filter_map std.parse_ip addrs }

  unfoldable pub cloudflare : Provider
  unfolding new
  cloudflare =
      new (bytes "Cloudflare") (bytes "https://cloudflare-dns.com/dns-query")
        (bytes "1.1.1.1" ∷ bytes "1.0.0.1" ∷ bytes "2606:4700:4700::1111" ∷ [])

  unfoldable pub google : Provider
  unfolding new
  google =
      new (bytes "Google") (bytes "https://dns.google/dns-query")
        (bytes "8.8.8.8" ∷ bytes "8.8.4.4" ∷ bytes "2001:4860:4860::8888" ∷ [])

  unfoldable pub quad9 : Provider
  unfolding new
  quad9 =
      new (bytes "Quad9") (bytes "https://dns.quad9.net/dns-query")
        (bytes "9.9.9.9" ∷ bytes "149.112.112.112" ∷ [])

  unfoldable pub adguard : Provider
  unfolding new
  adguard =
      new (bytes "AdGuard") (bytes "https://dns.adguard-dns.com/dns-query")
        (bytes "94.140.14.14" ∷ bytes "94.140.15.15" ∷ [])

  unfoldable pub mullvad : Provider
  unfolding new
  mullvad =
      new (bytes "Mullvad") (bytes "https://dns.mullvad.net/dns-query") (bytes "194.242.2.2" ∷ [])

  unfoldable pub presets : List Provider
  unfolding cloudflare quad9 google adguard mullvad
  presets = cloudflare ∷ quad9 ∷ google ∷ adguard ∷ mullvad ∷ []

  unfoldable pub default_providers : List Provider
  unfolding cloudflare quad9 google
  default_providers = cloudflare ∷ quad9 ∷ google ∷ []
