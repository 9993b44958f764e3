-- ===== src/Forwarder/Examples.antt =====
-- upstream.rs: two servers, of which the second one replies.
use detour.Prelude.{List, [], if◌then◌else◌, none, ok, refl, some, ℕ, ◌+◌, ◌==◌, ◌∷◌, ◌≡◌}
use detour.Net.{SocketAddr, v4, v6}
use detour.Forwarder.{Udp, forward}
use detour.Forwarder.Order.{Forwarded, forward-Forwarded}

-- The network counts its sockets; a reply comes on the second one only.
abbrev second_only : Udp
second_only = record {
  Socket = ℕ × List ℕ;
  Net = ℕ;
  bind = λ a n. (some (0, []), n + 1);
  connect = λ s a n. (some tt, n);
  send = λ s q n. (some tt, n);
  recv = λ s size time n. (if n == 2 then some (n ∷ []) else none, n);
}

abbrev two_servers : List SocketAddr
two_servers = record { ip = v4 1; port = 53 } ∷ record { ip = v6 2; port = 54 } ∷ []

second_replies : forward second_only two_servers (7 ∷ []) 0 ≡ (ok (2 ∷ []), 2)
unfolding forward
second_replies = refl

forward-Forwarded_example :
    Forwarded second_only (7 ∷ []) two_servers 0 (forward second_only two_servers (7 ∷ []) 0)
forward-Forwarded_example = forward-Forwarded second_only (7 ∷ []) two_servers 0
