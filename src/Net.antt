-- ===== src/Net.antt =====
-- `std::net` as the program uses it. Reading and printing an address is the standard library's:
-- a parameter of whatever needs it.
use detour.Prelude.{List, Option, Text, [], ℕ, ℕ_discrete, ◌∷◌}

pub data IpAddr : Type 0 where
  v4 : ℕ → IpAddr
  v6 : ℕ → IpAddr

pub record SocketAddr : Type 0 where
  pub ip : IpAddr
  pub port : ℕ

-- `FromStr` and `Display` of addresses.
pub record AddressText : Type 0 where
  pub parse_ip : Text → Option IpAddr
  pub show_ip : IpAddr → Text
  pub parse_socket : Text → Option SocketAddr

pub IpAddr-discrete : Discrete IpAddr
IpAddr-discrete = hlevel ℕ_discrete

-- `SocketAddr::new` over a list of addresses.
unfoldable pub with_port : ℕ → List IpAddr → List SocketAddr
with_port port [] = []
with_port port (ip ∷ ips) = record { ip = ip; port = port } ∷ with_port port ips
