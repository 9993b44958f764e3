-- ===== src/DpiProxy/Examples.antt =====
-- One CONNECT request, and what its target receives.
use detour.Prelude.{
  List, Text, [], bytes, ends_with, false, none, parse_uint, refl, some, split, strip_suffix,
  text_eq, to_ascii_lowercase, true, ℕ, ◌++◌, ◌∷◌, ◌≡◌,
}
use detour.DpiProxy.{Io, Stats, handle, parse_connect_target}

abbrev io : Io
io = record {
  from_utf8_lossy = λ s. s;
  connects = λ t. true;
  client_fails = false;
  reply_written = true;
  framed_fails = none;
  copied = 5;
  available = 9;
}

abbrev request : Text
request = bytes "connect a.example:443 HTTP/1.1\r\nHost: a\r\n\r\n"

-- A handshake record with a payload of four bytes, and two bytes after it.
abbrev client : List ℕ
client = request ++ 22 ∷ 3 ∷ 1 ∷ 0 ∷ 4 ∷ 1 ∷ 7 ∷ 8 ∷ 9 ∷ 5 ∷ 6 ∷ []

abbrev idle_stats : Stats
idle_stats = record { connections = 0; fragmented = 0 }

named_target : parse_connect_target request ≡ some (bytes "a.example:443")
unfolding parse_connect_target split strip_suffix text_eq to_ascii_lowercase parse_uint
named_target = refl

no_port : parse_connect_target (bytes "CONNECT a.example HTTP/1.1\r\n") ≡ none
unfolding parse_connect_target split strip_suffix text_eq to_ascii_lowercase parse_uint
no_port = refl

-- The payload is cut in its middle, and the two bytes follow.
cut_and_copied :
    (handle io client idle_stats).sent
    ≡ 22 ∷ 3 ∷ 1 ∷ 0 ∷ 2 ∷ 1 ∷ 7 ∷ 22 ∷ 3 ∷ 1 ∷ 0 ∷ 2 ∷ 8 ∷ 9 ∷ 5 ∷ 6 ∷ []
unfolding handle ends_with parse_connect_target split strip_suffix text_eq to_ascii_lowercase
    parse_uint
cut_and_copied = refl

-- The writing of the fragments fails after three bytes.
cut_short : (handle (record io { framed_fails = some 3 }) client idle_stats).sent ≡ 22 ∷ 3 ∷ 1 ∷ []
unfolding handle ends_with parse_connect_target split strip_suffix text_eq to_ascii_lowercase
    parse_uint
cut_short = refl
