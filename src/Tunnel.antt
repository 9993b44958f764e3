-- ===== src/Tunnel.antt =====
-- crates/dns-helper/src/tunnel.rs: reading a WireGuard configuration for `wg setconf`. The `setconf`
-- text is kept as its lines.
pub mod Keys
pub mod Steps
pub mod Bringup
pub mod Kernel
pub mod Cleared
pub mod FailClosed
pub mod Secret
mod Sample
mod Examples
use detour.Prelude.{
  Bool, List, Option, Result, Text, [], any, bytes, ends_with, err, false, filter_map, first_piece,
  if◌then◌else◌, is_empty, leb, none, not, ok, parse_uint, some, split, split_once, starts_with,
  text_eq, to_ascii_lowercase, trim, true, ℕ, ◌&&◌, ◌++◌, ◌∷◌,
}

abbrev pub interface_keys : List Text
interface_keys = bytes "privatekey" ∷ bytes "listenport" ∷ bytes "fwmark" ∷ []

abbrev pub peer_keys : List Text
peer_keys =
    bytes "publickey"
    ∷ bytes "presharedkey"
    ∷ bytes "allowedips"
    ∷ bytes "endpoint"
    ∷ bytes "persistentkeepalive"
    ∷ []

-- The messages of `InvalidConfig`.
pub data TunnelError : Type 0 where
  unknown_section malformed_line bad_mtu : Text → TunnelError
  outside_section no_private_key no_peer peer_without_key no_address : TunnelError

pub record WgConfig : Type 0 where
  pub addresses_v4 : List Text
  pub mtu : Option ℕ
  pub setconf : List Text
  pub endpoint : Option Text

pub data Section : Type 0 where
  no_section interface peer : Section

-- The local variables of `parse`.
pub record Parsing : Type 0 where
  pub section : Section
  pub setconf : List Text
  pub addresses_v4 : List Text
  pub mtu : Option ℕ
  pub endpoint : Option Text
  pub has_private_key : Bool
  pub peer_has_key : List Bool

abbrev pub started : Parsing
started = record {
  section = no_section;
  setconf = [];
  addresses_v4 = [];
  mtu = none;
  endpoint = none;
  has_private_key = false;
  peer_has_key = [];
}

abbrev pub one_of : List Text → Text → Bool
one_of keys key = any (text_eq key) keys

-- `*last = true` for the last element, if there is one.
unfoldable pub set_last : List Bool → List Bool
set_last [] = []
set_last (b ∷ []) = true ∷ []
set_last (b ∷ c ∷ bs) = b ∷ set_last (c ∷ bs)

abbrev pub key_line : Text → Text → Text
key_line key value = key ++ bytes " = " ++ value

-- The address and the prefix of a CIDR text, 32 where there is none.
abbrev cidr_parts : Text → Option (Text × Text) → Text × Text
cidr_parts s none = (s, bytes "32")
cidr_parts s (some p) = p

abbrev small_prefix : Option ℕ → Bool
small_prefix none = false
small_prefix (some p) = leb p 32

module _ (is_ipv4 : Text → Bool) where
  unfoldable pub is_ipv4_cidr : Text → Bool
  is_ipv4_cidr s =
      let (ip, prefix) = cidr_parts s (split_once b'/' s) in
      is_ipv4 ip && small_prefix (parse_uint 255 prefix)

  abbrev keep_cidr : Text → Option Text
  keep_cidr s = if is_ipv4_cidr (trim s) then some (trim s) else none

  unfoldable pub set_mtu : Parsing → Text → Option ℕ → Result TunnelError Parsing
  set_mtu p value none = err (bad_mtu value)
  set_mtu p value (some n) = ok (record p { mtu = some n })

  -- A key of `[Interface]`.
  unfoldable pub interface_key : Parsing → Text → Text → Result TunnelError Parsing
  unfolding is_ipv4_cidr set_mtu
  interface_key p key value =
      if text_eq key (bytes "address")
      then ok
          (record p { addresses_v4 = p.addresses_v4 ++ filter_map keep_cidr (split b',' value) })
      else if text_eq key (bytes "mtu")
      then set_mtu p value (parse_uint 4294967295 value)
      else if one_of interface_keys key
      then ok (record p {
        has_private_key = if text_eq key (bytes "privatekey") then true else p.has_private_key;
        setconf = p.setconf ++ key_line key value ∷ [];
      })
      else ok p

  abbrev or_first : Option Text → Text → Option Text
  or_first none value = some value
  or_first (some e) value = some e

  -- A key of `[Peer]`.
  unfoldable pub peer_key : Parsing → Text → Text → Result TunnelError Parsing
  unfolding set_last
  peer_key p key value =
      if one_of peer_keys key
      then ok (record p {
        peer_has_key =
            if text_eq key (bytes "publickey") then set_last p.peer_has_key else p.peer_has_key;
        endpoint = if text_eq key (bytes "endpoint") then or_first p.endpoint value else p.endpoint;
        setconf = p.setconf ++ key_line key value ∷ [];
      })
      else ok p

  unfoldable pub section_key : Section → Parsing → Text → Text → Result TunnelError Parsing
  unfolding interface_key peer_key
  section_key no_section p key value = err outside_section
  section_key interface p key value = interface_key p key value
  section_key peer p key value = peer_key p key value

  unfoldable pub open_section : Parsing → Text → Result TunnelError Parsing
  open_section p line =
      if text_eq (to_ascii_lowercase line) (bytes "[interface]")
      then ok (record p { section = interface; setconf = p.setconf ++ line ∷ [] })
      else if text_eq (to_ascii_lowercase line) (bytes "[peer]")
      then ok (record p {
        section = peer;
        peer_has_key = p.peer_has_key ++ false ∷ [];
        setconf = p.setconf ++ line ∷ [];
      })
      else err (unknown_section (to_ascii_lowercase line))

  abbrev key_value : Parsing → Text → Option (Text × Text) → Result TunnelError Parsing
  key_value p line none = err (malformed_line line)
  key_value p line (some (key, value)) =
      section_key p.section p (to_ascii_lowercase (trim key)) (trim value)

  -- One line, its comment and the white space around it taken off.
  unfoldable pub parse_content : Parsing → Text → Result TunnelError Parsing
  unfolding section_key open_section
  parse_content p line =
      if is_empty line
      then ok p
      else if starts_with line (bytes "[") && ends_with line (bytes "]")
      then open_section p line
      else key_value p line (split_once b'=' line)

  unfoldable pub parse_lines : Parsing → List Text → Result TunnelError Parsing
  unfolding parse_content
  parse_lines p [] = ok p
  parse_lines p (raw ∷ more) = elim (parse_content p (trim (first_piece (split b'#' raw)))) [
    | err e ↦ err e
    | ok p' ↦ parse_lines p' more
  ]

  abbrev checked : Parsing → Result TunnelError WgConfig
  checked p =
      if not p.has_private_key
      then err no_private_key
      else if is_empty p.peer_has_key
      then err no_peer
      else if any not p.peer_has_key
      then err peer_without_key
      else if is_empty p.addresses_v4
      then err no_address
      else ok (record {
        addresses_v4 = p.addresses_v4;
        mtu = p.mtu;
        setconf = p.setconf;
        endpoint = p.endpoint;
      })

  abbrev finish : Result TunnelError Parsing → Result TunnelError WgConfig
  finish (err e) = err e
  finish (ok p) = checked p

  unfoldable pub parse : Text → Result TunnelError WgConfig
  unfolding parse_lines
  parse text = finish (parse_lines started (split 10 text))
