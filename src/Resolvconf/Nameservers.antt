-- ===== src/Resolvconf/Nameservers.antt =====
-- resolvconf.rs, `parse_nameservers`: the servers that queries for local names are forwarded to.
use detour.Prelude.{
  All, All-imp, Bool, List, Option, Option-cases, Text, [], arith, bytes, false, filter_map,
  first_piece, if◌then◌else◌, inl, inr, is_space, none, some, split, starts_with, strip_prefix,
  text_eq, text_eq_iff, trim_start, ◌||◌, ◌∷◌, ◌≡◌, ◌≢◌,
}
use detour.Net.{AddressText, IpAddr, SocketAddr, with_port}

abbrev pub proxy_addr : Text
proxy_addr = bytes "127.0.0.53"

-- The part in front of the first white space: the first of `split_whitespace`, if it is not empty.
abbrev first_word : Text → Text
first_word [] = []
first_word (c ∷ s) = let rest = first_word s in if is_space c then [] else c ∷ rest

abbrev word_of : Text → Option Text
word_of [] = none
word_of (c ∷ w) = some (c ∷ w)

module _ (std : AddressText) where
  unfoldable pub is_our_proxy : IpAddr → Bool
  is_our_proxy ip = text_eq (std.show_ip ip) proxy_addr

  abbrev not_ours : Option IpAddr → Option IpAddr
  not_ours none = none
  not_ours (some ip) = if is_our_proxy ip then none else some ip

  abbrev parse_word : Option Text → Option IpAddr
  parse_word none = none
  parse_word (some w) = std.parse_ip (first_piece (split b'%' w))

  abbrev parse_rest : Option Text → Option IpAddr
  parse_rest none = none
  parse_rest (some rest) = parse_word (word_of (first_word (trim_start rest)))

  -- One line. White space at its end, `\r` included, stands behind the first word or is all that
  -- follows, so that `trim` has to be done at the start only.
  unfoldable pub parse_line : Text → Option IpAddr
  unfolding is_our_proxy
  parse_line l =
      let line = trim_start l in
      if starts_with line (bytes "#") || starts_with line (bytes ";")
      then none
      else not_ours (parse_rest (strip_prefix line (bytes "nameserver")))

  unfoldable pub parse_nameservers : Text → List IpAddr
  unfolding parse_line
  parse_nameservers text = filter_map parse_line (split 10 text)

  parse_line-foreign : (l : Text) (ip : IpAddr) → parse_line l ≡ some ip → is_our_proxy ip ≡ false
  unfolding parse_line
  parse_line-foreign l ip h = ground arith

  parse_lines-foreign :
      (ls : List Text) → All (λ ip. is_our_proxy ip ≡ false) (filter_map parse_line ls)
  parse_lines-foreign [] = tt
  parse_lines-foreign (l ∷ ls) = elim (Option-cases (parse_line l)) [
    | inl none_ ↦ rw none_ (parse_lines-foreign ls)
    | inr (ip, e) ↦ rw e (parse_line-foreign l ip e, parse_lines-foreign ls)
  ]

  -- No nameserver that is read prints as the address of the proxy, whatever the file says.
  parse_nameservers-foreign :
      (text : Text) → All (λ ip. std.show_ip ip ≢ proxy_addr) (parse_nameservers text)
  unfolding parse_nameservers is_our_proxy
  parse_nameservers-foreign text = All-imp foreign _ (parse_lines-foreign (split 10 text))
    where
      foreign : (ip : IpAddr) → is_our_proxy ip ≡ false → std.show_ip ip ≢ proxy_addr
      foreign ip own e = cc (own, (text_eq_iff (std.show_ip ip) proxy_addr).1 e)

-- `to_socket_addrs`
unfoldable pub to_socket_addrs : List IpAddr → List SocketAddr
unfolding with_port
to_socket_addrs servers = with_port 53 servers
