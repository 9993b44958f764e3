-- ===== src/Proxy/Examples.antt =====
-- proxy.rs: the theorems on the small DNS library, without providers and with one server.
use detour.Proxy.Truncation.{truncate_if_needed-id}
use detour.Proxy.Ids.{Replies, handle-Replies}
use detour.Policy.Suffix.{below}
use detour.Prelude.{
  List, [], bytes, has_byte, here, inl, inr, none, refl, some, strip_prefix, strip_suffix, suc,
  text_eq, to_ascii_lowercase, trim_end_matches, true, zero, ℕ, ◌+◌, ◌∷◌, ◌≡◌,
}
use detour.Net.{v4}
use detour.Policy.{
  default_policy, doh, is_builtin_local, normalise, normalise_str, route, suffix_matches,
}
use detour.Policy.Routing.{Stays, route_doh_iff}
use detour.Dns.Sample.{Packet, sample, sample-WireLaws, sample_wire}
use detour.Cache.{Key, key_discrete}
use detour.Resolver.{Http}
use detour.Forwarder.{Udp}
use detour.Proxy.{Proxy, Timing, empty_log, handle, recent, truncate_if_needed}
use detour.Proxy.Log.{push_all, recent-push_all}
use detour.Proxy.Privacy.{Asks, handle-doh_private, handle-local_private}

abbrev same : Discrete (Key sample)
same = key_discrete sample

abbrev repeat : ℕ → ℕ → List ℕ
repeat zero x = []
repeat (suc n) x = x ∷ repeat n x

-- Both networks count what is sent.
abbrev counting_http : Http
counting_http = record {
  Client = Unit {0};
  Net = ℕ;
  build = λ h pins. some tt;
  post = λ c url accept type_ body n. (none, n + 1);
}

abbrev counting_udp : Udp
counting_udp = record {
  Socket = Unit {0};
  Net = ℕ;
  bind = λ a n. (some tt, n + 1);
  connect = λ s a n. (some tt, n);
  send = λ s q n. (some tt, n);
  recv = λ s size time n. (some (0 ∷ 60 ∷ []), n);
}

abbrev TestProxy : Type 0
TestProxy = Proxy counting_http counting_udp sample sample_wire same

abbrev small_proxy : TestProxy
small_proxy = record {
  upstreams = [];
  cache = record { entries = []; capacity = 2 };
  servers = record { ip = v4 1; port = 53 } ∷ [];
  policy = default_policy;
  log = empty_log;
  http_net = 0;
  udp_net = 0;
}

abbrev at_once : Timing counting_http counting_udp sample sample_wire same
at_once = record { asked = 0; answered_at = 0; elapsed_ms = 0; meanwhile = λ c. c }

abbrev handled : List ℕ → List ℕ × TestProxy
handled = handle counting_http counting_udp sample sample_wire same small_proxy at_once

-- The query asks for the name 7, which is `a.h`.
abbrev asks_seven :
    (p : TestProxy)
    → Asks counting_http counting_udp sample sample_wire same p at_once (5 ∷ 0 ∷ 7 ∷ []) 7
asks_seven p = record {
  message = record { number = 5; code = 0; sections = (7 ∷ [], []) };
  type_ = 1;
  others = [];
  parses = refl;
  first = refl;
}

abbrev keeping_h : TestProxy
keeping_h = record small_proxy {
  policy = record { default_doh = true; force_doh = []; force_local = bytes "H." ∷ [] };
}

h-Stays : Stays keeping_h.policy (normalise sample.to_ascii 7)
unfolding normalise normalise_str to_ascii_lowercase trim_end_matches strip_prefix
h-Stays = inl (here (below refl (λ e. cc) (bytes "a", refl)))

handle-local_private_example :
    ((handle counting_http counting_udp sample sample_wire same keeping_h at_once
        (5 ∷ 0 ∷ 7 ∷ [])).1.http_net
      ≡ 0)
    × ((handle counting_http counting_udp sample sample_wire same keeping_h at_once
          (5 ∷ 0 ∷ 7 ∷ [])).1.cache
        ≡ keeping_h.cache)
handle-local_private_example =
    handle-local_private counting_http counting_udp sample sample_wire same keeping_h at_once
      (5 ∷ 0 ∷ 7 ∷ []) 7 (asks_seven keeping_h) h-Stays

seven_to_doh : route sample.to_ascii default_policy 7 ≡ doh
unfolding route is_builtin_local suffix_matches normalise normalise_str to_ascii_lowercase
    trim_end_matches strip_prefix text_eq has_byte strip_suffix
seven_to_doh = refl

handle-doh_private_example : (handled (5 ∷ 0 ∷ 7 ∷ [])).1.udp_net ≡ 0
handle-doh_private_example =
    handle-doh_private counting_http counting_udp sample sample_wire same small_proxy at_once
      (5 ∷ 0 ∷ 7 ∷ []) 7 (asks_seven small_proxy)
      ((route_doh_iff sample.to_ascii default_policy 7).0 seven_to_doh).0 (inr refl)

recent-push_all_example :
    (recent {E = ℕ} (push_all empty_log (1 ∷ 2 ∷ 3 ∷ [])) 2 ≡ 3 ∷ 2 ∷ [])
    × ((push_all {E = ℕ} empty_log (1 ∷ 2 ∷ 3 ∷ [])).total ≡ 3)
recent-push_all_example = recent-push_all (1 ∷ 2 ∷ 3 ∷ []) 2

handle-Replies_example :
    Replies sample sample_wire sample-WireLaws counting_http counting_udp same small_proxy
      (5 ∷ 0 ∷ 7 ∷ [])
      5
      (handled (5 ∷ 0 ∷ 7 ∷ [])).0
handle-Replies_example =
    handle-Replies sample sample_wire sample-WireLaws counting_http counting_udp same small_proxy
      at_once (5 ∷ 0 ∷ 7 ∷ []) (asks_seven small_proxy).message refl

truncate_if_needed-id_example :
    (m' : Packet) × (sample_wire.from_bytes
        (truncate_if_needed sample sample_wire (9 ∷ 0 ∷ repeat 600 7) (9 ∷ 0 ∷ []))
      ≡ some m')
    × (m'.number ≡ 9)
truncate_if_needed-id_example =
    truncate_if_needed-id sample sample_wire sample-WireLaws (9 ∷ 0 ∷ repeat 600 7) (9 ∷ 0 ∷ [])
      (record { number = 9; code = 0; sections = (repeat 600 7, []) }) refl
