-- ===== src/Diagnose.antt =====
-- crates/dns-helper/src/diagnose.rs: the same name asked of the network's resolver and over HTTPS,
-- and what connects. A probe is made once for an address, so its answers are a function.
use detour.Cache.{Key}
pub mod Addresses
pub mod Probes
pub mod Conclusions
mod Examples
use detour.Prelude.{
  Bool, List, Option, Result, Text, [], any, bytes, err, false, filter, filter_map, find,
  if◌then◌else◌, is_empty, map, none, not, ok, some, text_eq, true, ℕ, ◌&&◌, ◌++◌, ◌/◌, ◌∷◌,
}
use detour.Diagnose.Addresses.{contains_ip, dedup, same_set, sort}
use detour.Net.{AddressText, IpAddr, SocketAddr}
use detour.Dns.{Dns, DnsWire}
use detour.Forwarder.{Udp, UpstreamError, forward}
use detour.Resolver.{DohResolver, Http, ResolveError, build_query, resolve}

pub data Conclusion : Type 0 where
  healthy dns_interference blocked_beyond_dns : Conclusion
  resolution_failed divergent_but_healthy content_restriction_forced : Conclusion

-- The texts of the errors, by what they tell.
pub data LookupError : Type 0 where
  invalid_domain no_resolver no_answer encode_failed decode_failed : LookupError
  isp_failed : UpstreamError → LookupError
  doh_failed : ResolveError → LookupError

-- Which side answered with a restriction address, with its level.
pub data Restriction : Type 0 where
  both_sides isp_side doh_side : Text → Restriction

pub record Verdict : Type 0 where
  pub domain : Text
  pub isp_addresses : List IpAddr
  pub isp_error : Option LookupError
  pub doh_addresses : List IpAddr
  pub doh_error : Option LookupError
  pub reachable : List IpAddr
  pub unreachable : List IpAddr
  pub restriction : Option Restriction
  pub conclusion : Conclusion

-- The texts of the addresses are compared; each level with its addresses.
abbrev restriction_targets : List (Text × Text)
restriction_targets =
    (bytes "216.239.38.120", bytes "strict (restrict.youtube.com / forcesafesearch.google.com)")
    ∷ (bytes "216.239.38.119", bytes "moderate (restrictmoderate.youtube.com)")
    ∷ (bytes "2001:4860:4802:32::78", bytes "strict (IPv6)")
    ∷ (bytes "2001:4860:4802:32::77", bytes "moderate (IPv6)")
    ∷ []

abbrev level_of : Option (Text × Text) → Option Text
level_of none = none
level_of (some (addr, level)) = some level

unfoldable pub restriction_level : AddressText → IpAddr → Option Text
unfolding text_eq
restriction_level std ip =
    level_of (find (λ target. text_eq target.0 (std.show_ip ip)) restriction_targets)

-- `find_map(restriction_level)`
abbrev pub first_level : List (Option Text) → Option Text
first_level [] = none
first_level (none ∷ ls) = first_level ls
first_level (some l ∷ ls) = some l

unfoldable pub restriction_in : AddressText → List IpAddr → Option Text
unfolding restriction_level
restriction_in std ips = first_level (map (restriction_level std) ips)

abbrev pub restriction_of : Option Text → Option Text → Option Restriction
restriction_of (some level) (some other) = some (both_sides level)
restriction_of (some level) none = some (isp_side level)
restriction_of none (some level) = some (doh_side level)
restriction_of none none = none

abbrev pub compared : Bool → Bool → Bool → Conclusion
compared false true same = dns_interference
compared true true same = if same then healthy else divergent_but_healthy
compared true false same = healthy
compared false false same = blocked_beyond_dns

unfoldable pub conclude : List IpAddr → List IpAddr → List IpAddr → Conclusion
unfolding contains_ip same_set
conclude isp doh reachable =
    if is_empty isp && is_empty doh
    then resolution_failed
    else if is_empty reachable
    then blocked_beyond_dns
    else compared (any (contains_ip reachable) isp) (any (contains_ip reachable) doh)
        (same_set isp doh)

abbrev pub split_result : Result LookupError (List IpAddr) → List IpAddr × Option LookupError
split_result (ok addrs) = (addrs, none)
split_result (err e) = ([], some e)

abbrev or_restricted : Option Restriction → Conclusion → Conclusion
or_restricted none c = c
or_restricted (some r) c = content_restriction_forced

-- What `check` makes of the two lookups.
unfoldable pub judge :
    AddressText
    → (IpAddr → Bool)
    → Text
    → Result LookupError (List IpAddr)
    → Result LookupError (List IpAddr)
    → Verdict
unfolding restriction_in conclude sort dedup
judge std tcp_probe domain isp doh =
    let (isp_addresses, isp_error) = split_result isp in
    let (doh_addresses, doh_error) = split_result doh in
    let all_ips = dedup (sort (isp_addresses ++ doh_addresses)) in
    let reachable = filter tcp_probe all_ips in
    let restriction =
      restriction_of (restriction_in std isp_addresses) (restriction_in std doh_addresses) in
    record {
      domain = domain;
      isp_addresses = isp_addresses;
      isp_error = isp_error;
      doh_addresses = doh_addresses;
      doh_error = doh_error;
      reachable = reachable;
      unreachable = filter (λ ip. not (tcp_probe ip)) all_ips;
      restriction = restriction;
      conclusion = or_restricted restriction (conclude isp_addresses doh_addresses reachable);
    }

-- The addresses found so far, and the last error.
abbrev Found : Type 0
Found = List IpAddr × Option LookupError

abbrev add_answer : Result LookupError (List IpAddr) → Found → Found
add_answer (ok more) (addrs, last) = (addrs ++ more, last)
add_answer (err e) (addrs, last) = (addrs, some e)

abbrev or_no_answer : Option LookupError → LookupError
or_no_answer none = no_answer
or_no_answer (some e) = e

unfoldable pub gathered : Found → Result LookupError (List IpAddr)
gathered (addrs, last) = if is_empty addrs then err (or_no_answer last) else ok addrs

module _ (http : Http) (dns : Dns) (wire : DnsWire dns) (udp : Udp)
    (ip_of : dns.Record → Option IpAddr) where
  unfoldable pub addresses_of : dns.Message → List IpAddr
  addresses_of m = filter_map ip_of (dns.answers m)

  abbrev decoded : Option dns.Message → Result LookupError (List IpAddr)
  decoded none = err decode_failed
  decoded (some m) = ok (addresses_of m)

  abbrev isp_reply : Result UpstreamError (List ℕ) → Result LookupError (List IpAddr)
  isp_reply (err e) = err (isp_failed e)
  isp_reply (ok reply) = decoded (wire.from_bytes reply)

  abbrev ask_isp :
      List SocketAddr → Option (List ℕ) → udp.Net → Result LookupError (List IpAddr) × udp.Net
  ask_isp servers none net = (err encode_failed, net)
  ask_isp servers (some query) net =
      let (r, net') = forward udp servers query net in (isp_reply r, net')

  -- The loop over the record types.
  unfoldable pub isp_loop :
      List SocketAddr → dns.Name → List dns.RecordType → Found → udp.Net → Found × udp.Net
  unfolding addresses_of
  isp_loop servers name [] found net = (found, net)
  isp_loop servers name (t ∷ ts) found net =
      let (r, net') = ask_isp servers (wire.to_vec (build_query http dns wire name t)) net in
      isp_loop servers name ts (add_answer r found) net'

  unfoldable pub via_isp :
      List SocketAddr → dns.Name → udp.Net → Result LookupError (List IpAddr) × udp.Net
  unfolding isp_loop gathered
  via_isp servers name net =
      if is_empty servers
      then (err no_resolver, net)
      else (let (found, net') =
            isp_loop servers name (wire.type_a ∷ wire.type_aaaa ∷ []) ([], none) net in
          (gathered found, net'))

  abbrev doh_reply : Result ResolveError dns.Message → Result LookupError (List IpAddr)
  doh_reply (err e) = err (doh_failed e)
  doh_reply (ok m) = ok (addresses_of m)

  -- The times at which a lookup is asked and answered.
  abbrev Times : Type 0
  Times = ℕ × ℕ

  module _ (same : Discrete (Key dns)) where
    -- The loop over the record types. No other task has this resolver.
    unfoldable pub doh_loop :
        dns.Name
        → List (dns.RecordType × Times)
        → Found
        → DohResolver http dns
        → http.Net
        → Found × http.Net
    unfolding addresses_of
    doh_loop name [] found resolver net = (found, net)
    doh_loop name ((t, (asked, answered)) ∷ ts) found resolver net =
        let r = resolve http dns wire same resolver name t net asked answered (λ c. c) in
        doh_loop name ts (add_answer (doh_reply r.result) found)
          (record resolver { cache = r.cache }) r.net

    unfoldable pub via_doh :
        dns.Name
        → Times
        → Times
        → DohResolver http dns
        → http.Net
        → Result LookupError (List IpAddr) × http.Net
    unfolding doh_loop gathered
    via_doh name a aaaa resolver net =
        let (found, net') =
          doh_loop name ((wire.type_a, a) ∷ (wire.type_aaaa, aaaa) ∷ []) ([], none) resolver net in
        (gathered found, net')

    abbrev check_name :
        AddressText
        → (IpAddr → Bool)
        → Text
        → Option dns.Name
        → List SocketAddr
        → Times
        → Times
        → DohResolver http dns
        → udp.Net
        → http.Net
        → Verdict
    check_name std tcp_probe domain none servers a aaaa resolver udp_net net = record {
      domain = domain;
      isp_addresses = [];
      isp_error = some invalid_domain;
      doh_addresses = [];
      doh_error = none;
      reachable = [];
      unreachable = [];
      restriction = none;
      conclusion = resolution_failed;
    }
    check_name std tcp_probe domain (some name) servers a aaaa resolver udp_net net =
        judge std tcp_probe domain (via_isp servers name udp_net).0
          (via_doh name a aaaa resolver net).0

    -- The two lookups run side by side and share nothing.
    unfoldable pub check :
        AddressText
        → (IpAddr → Bool)
        → (Text → Option dns.Name)
        → Text
        → List SocketAddr
        → Times
        → Times
        → DohResolver http dns
        → udp.Net
        → http.Net
        → Verdict
    unfolding judge via_isp via_doh
    check std tcp_probe from_utf8 domain servers a aaaa resolver udp_net net =
        check_name std tcp_probe domain (from_utf8 domain) servers a aaaa resolver udp_net net
