-- ===== src/DpiProxy.antt =====
-- crates/dns-helper/src/dpi_proxy.rs: one connection of the filtering proxy. A client is the bytes
-- that it sends before it closes or fails; how the other calls end is given beforehand.
pub mod Tunnelled
mod Examples
use detour.Prelude.{
  Bool, List, Option, Result, Text, [], bytes, drop, ends_with, err, first_piece, if◌then◌else◌,
  is_empty, length, ltb, min, none, ok, parse_uint, rsplit_once, some, split, strip_suffix, suc,
  take, text_eq, to_ascii_lowercase, words, ℕ, ◌++◌, ◌/◌, ◌==◌, ◌^◌, ◌||◌, ◌∷◌,
}
use detour.Net.{IpAddr, SocketAddr, v4, v6}
use detour.Dpi.{fragment_client_hello}

pub record Stats : Type 0 where
  pub connections : ℕ
  pub fragmented : ℕ

pub record Io : Type 0 where
  -- `String::from_utf8_lossy`
  pub from_utf8_lossy : List ℕ → Text
  pub connects : Text → Bool
  -- whether the client's bytes end with a failure, and not with its closing
  pub client_fails : Bool
  -- writing the 200 reply
  pub reply_written : Bool
  -- after how many bytes the writing of the first flight fails, if it does
  pub framed_fails : Option ℕ
  -- how many bytes are copied after the first flight, before the copying ends or fails
  pub copied : ℕ
  -- how many bytes the first read of the first flight returns at most
  pub available : ℕ

pub data ProxyError : Type 0 where
  io_failed connect_failed : ProxyError

-- What a connection leaves: the reply that the proxy itself writes to the client, be it written
-- whole or not, the target that was dialled, and what the target was sent.
pub record Connection : Type 0 where
  pub result : Result ProxyError (Unit {0})
  pub replied : Text
  pub dialled : Option Text
  pub sent : List ℕ
  pub stats : Stats

abbrev pub blank_line : List ℕ
blank_line = 13 ∷ 10 ∷ 13 ∷ 10 ∷ []

-- The request line and headers, and what follows; `none` if the client ends before.
unfoldable pub read_head : List ℕ → List ℕ → Option (List ℕ × List ℕ)
read_head buf [] = none
read_head buf (byte ∷ more) =
    let buf' = buf ++ byte ∷ [] in
    let rest = read_head buf' more in
    if ends_with buf' blank_line || ltb 8192 (length buf') then some (buf', more) else rest

abbrev strip_cr : Text → Text
strip_cr l = elim (strip_suffix l (13 ∷ [])) [ none ↦ l | some s ↦ s ]

-- `lines().next()`: none for an empty text.
abbrev first_line : Text → Option Text
first_line [] = none
first_line (c ∷ s) = some (strip_cr (first_piece (split 10 (c ∷ s))))

abbrev checked_port : Text → Text → Option ℕ → Option Text
checked_port authority host none = none
checked_port authority host (some port) = if is_empty host then none else some authority

abbrev checked_authority : Text → Option (Text × Text) → Option Text
checked_authority authority none = none
checked_authority authority (some (host, port)) =
    checked_port authority host (parse_uint 65535 port)

abbrev authority_of : List Text → Option Text
authority_of [] = none
authority_of (method ∷ []) = none
authority_of (method ∷ authority ∷ more) =
    if text_eq (to_ascii_lowercase method) (bytes "connect")
    then checked_authority authority (rsplit_once b':' authority)
    else none

abbrev target_of_line : Option Text → Option Text
target_of_line none = none
target_of_line (some l) = authority_of (words l)

unfoldable pub parse_connect_target : Text → Option Text
parse_connect_target head = target_of_line (first_line head)

abbrev pub not_allowed : Text
not_allowed = bytes "HTTP/1.1 405 Method Not Allowed\r\n\r\n"

abbrev pub bad_gateway : Text
bad_gateway = bytes "HTTP/1.1 502 Bad Gateway\r\n\r\n"

abbrev pub established : Text
established = bytes "HTTP/1.1 200 Connection established\r\n\r\n"

abbrev pub count_connection : Stats → Stats
count_connection s = record s { connections = suc s.connections }

abbrev pub count_fragmented : ℕ → ℕ → Stats → Stats
count_fragmented framed n s = if framed == n then s else record s { fragmented = suc s.fragmented }

-- The size of the buffer for the first flight.
abbrev pub first_buffer : ℕ
first_buffer = 16384

abbrev pub first_flight : Io → List ℕ → List ℕ
first_flight io client = take (min io.available first_buffer) client

-- How a connection ends whose client sends no more.
abbrev pub ended : Io → Result ProxyError (Unit {0})
ended io = if io.client_fails then err io_failed else ok tt

-- The first flight is fragmented; what follows is copied, and a failure of that is not looked at.
abbrev pub spliced : Io → List ℕ → List ℕ → Connection → Connection
spliced io [] client c = record c { result = ended io }
spliced io (b ∷ first) client c =
    let framed = fragment_client_hello (b ∷ first) in
    let counted = record c {
      stats = count_fragmented (length framed) (length (b ∷ first)) c.stats;
    } in
    elim io.framed_fails [
      | none ↦ record counted { sent = framed ++ take io.copied (drop (length (b ∷ first)) client) }
      | some n ↦ record counted { result = err io_failed; sent = take n framed }
    ]

unfoldable pub splice : Io → List ℕ → Connection → Connection
unfolding fragment_client_hello
splice io client c = spliced io (first_flight io client) client c

abbrev pub idle : Stats → Connection
idle s = record { result = ok tt; replied = []; dialled = none; sent = []; stats = s }

abbrev pub connected : Io → Text → List ℕ → Stats → Connection
connected io target client s =
    if io.reply_written
    then splice io client (record (idle s) {
      replied = established;
      dialled = some target;
      stats = count_connection s;
    })
    else record (idle s) { result = err io_failed; replied = established; dialled = some target }

abbrev pub handle_target : Io → Option Text → List ℕ → Stats → Connection
handle_target io none client s = record (idle s) { replied = not_allowed }
handle_target io (some target) client s =
    if io.connects target then connected io target client s else record (idle s) {
      result = err connect_failed;
      replied = bad_gateway;
      dialled = some target;
    }

abbrev pub handle_head : Io → Option (List ℕ × List ℕ) → Stats → Connection
handle_head io none s = record (idle s) { result = ended io }
handle_head io (some (buf, rest)) s =
    handle_target io (parse_connect_target (io.from_utf8_lossy buf)) rest s

unfoldable pub handle : Io → List ℕ → Stats → Connection
unfolding read_head parse_connect_target splice
handle io client s = handle_head io (read_head [] client) s

-- `is_loopback` of the address that the kernel kept, which is one of IPv4.
abbrev pub is_loopback : IpAddr → Bool
is_loopback (v4 n) = n / 2 ^ 24 == 127
is_loopback (v6 n) = n == 1

abbrev pub handle_original :
    Io → (SocketAddr → Text) → Option SocketAddr → List ℕ → Stats → Connection
handle_original io show none client s = record (idle s) { result = err io_failed }
handle_original io show (some target) client s =
    if is_loopback target.ip
    then idle s
    else if io.connects (show target)
    then splice io client
        (record (idle s) { dialled = some (show target); stats = count_connection s })
    else record (idle s) { result = err connect_failed; dialled = some (show target) }

-- A redirected connection, with the destination that it had, if the kernel tells.
unfoldable pub handle_transparent :
    Io → (SocketAddr → Text) → Option SocketAddr → List ℕ → Stats → Connection
unfolding splice
handle_transparent io show original client s = handle_original io show original client s
