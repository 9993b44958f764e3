-- ===== src/Apps/Sockets.antt =====
-- crates/dns-helper/src/apps.rs: the sockets that `ss` lists, and the filter that names one.
use detour.Prelude.{
  Bool, List, Option, Text, [], bytes, digits_of, drop, filter_map, first_piece, get_or,
  if◌then◌else◌, join, leb, length, ltb, none, not, parse_uint, rsplit_once, show_uint, some, split,
  split_text, text_eq, trim_end_matches, trim_start_matches, words, ℕ, ◌%◌, ◌&&◌, ◌*◌, ◌++◌, ◌/◌,
  ◌==◌, ◌^◌, ◌||◌,
}
use detour.Net.{AddressText, IpAddr, SocketAddr, v4, v6}
use detour.Apps.{u32_max}

pub record SocketEntry : Type 0 where
  pub proto : Text
  pub local : SocketAddr
  pub peer : SocketAddr
  pub pids : List ℕ

module _ (std : AddressText) where
  abbrev socket_addr : Option IpAddr → Option ℕ → Option SocketAddr
  socket_addr none port = none
  socket_addr (some ip) none = none
  socket_addr (some ip) (some port) = some (record { ip = ip; port = port })

  abbrev bare_address : Text → Text
  bare_address addr =
      first_piece (split b'%' (trim_end_matches b']' (trim_start_matches b'[' addr)))

  abbrev sockaddr_parts : Option (Text × Text) → Option SocketAddr
  sockaddr_parts none = none
  sockaddr_parts (some (addr, port)) =
      socket_addr (std.parse_ip (bare_address addr)) (parse_uint 65535 port)

  unfoldable pub parse_sockaddr : Text → Option SocketAddr
  parse_sockaddr s = sockaddr_parts (rsplit_once b':' s)

  -- The numbers that follow `pid=`.
  unfoldable pub socket_pids : Text → List ℕ
  socket_pids users =
      filter_map (λ p. parse_uint u32_max (digits_of p))
        (drop 1 (split_text (bytes "pid=") 0 users))

  abbrev entry : Text → List ℕ → Option SocketAddr → Option SocketAddr → Option SocketEntry
  entry proto pids none peer = none
  entry proto pids (some local) none = none
  entry proto pids (some local) (some peer) =
      some (record { proto = proto; local = local; peer = peer; pids = pids })

  unfoldable pub columns_entry : List Text → Option SocketEntry
  unfolding parse_sockaddr socket_pids
  columns_entry cols =
      if ltb (length cols) 7
      then none
      else if not (text_eq (get_or cols 0 []) (bytes "tcp"))
          && not (text_eq (get_or cols 0 []) (bytes "udp"))
      then none
      else entry (get_or cols 0 []) (socket_pids (join (bytes " ") (drop 6 cols)))
          (parse_sockaddr (get_or cols 4 [])) (parse_sockaddr (get_or cols 5 []))

  unfoldable pub parse_ss_line : Text → Option SocketEntry
  unfolding columns_entry
  parse_ss_line line = columns_entry (words line)

  abbrev pub show_socket : SocketAddr → Text
  show_socket a = elim a.ip [
    | v4 n ↦ std.show_ip a.ip ++ bytes ":" ++ show_uint a.port
    | v6 n ↦ bytes "[" ++ std.show_ip a.ip ++ bytes "]:" ++ show_uint a.port
  ]

  unfoldable pub ss_kill_filter : SocketEntry → Text
  ss_kill_filter sock =
      bytes "src " ++ show_socket sock.local ++ bytes " and dst " ++ show_socket sock.peer

-- An IPv4 address is its 32 bits, an IPv6 address its 128 bits.
abbrev octet0 : ℕ → ℕ
octet0 n = n / 2 ^ 24

abbrev octet1 : ℕ → ℕ
octet1 n = n / 2 ^ 16 % 256

-- `is_private` of an IPv4 address.
abbrev is_private : ℕ → Bool
is_private n =
    octet0 n == 10
    || (octet0 n == 172 && leb 16 (octet1 n) && leb (octet1 n) 31)
    || (octet0 n == 192 && octet1 n == 168)

-- The first segment of an IPv6 address under a mask that keeps its high bits.
abbrev segment0 : ℕ → ℕ → ℕ
segment0 n unit = n / 2 ^ 112 / unit * unit

unfoldable pub is_local_destination : IpAddr → Bool
is_local_destination (v4 n) =
    octet0 n == 127
    || is_private n
    || (octet0 n == 169 && octet1 n == 254)
    || n == 0
    || (octet0 n == 100 && leb 64 (octet1 n) && ltb (octet1 n) 128)
is_local_destination (v6 n) =
    n == 1 || n == 0 || segment0 n 512 == 0xfc00 || segment0 n 64 == 0xfe80
