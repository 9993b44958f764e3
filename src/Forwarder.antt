-- ===== src/Forwarder.antt =====
-- crates/dns-helper/src/upstream.rs: plain DNS to the resolvers that the system used before.
-- Sockets are a parameter that passes on the state of the network.
pub mod Order
mod Examples
use detour.Prelude.{
  List, Option, Result, [], err, if◌then◌else◌, is_empty, length, none, ok, some, ℕ, ◌∷◌,
}
use detour.Net.{IpAddr, SocketAddr, v4, v6}

abbrev pub upstream_timeout_ms : ℕ
upstream_timeout_ms = 3000

abbrev pub max_udp_response : ℕ
max_udp_response = 4096

pub data UpstreamError : Type 0 where
  no_upstreams : UpstreamError
  all_failed : ℕ → UpstreamError
  io : UpstreamError

-- Each operation fails with `none`; a receive fails as well when the time is up.
pub record Udp : Type 1 where
  pub Socket : Type 0
  pub Net : Type 0
  pub bind : SocketAddr → Net → Option Socket × Net
  pub connect : Socket → SocketAddr → Net → Option (Unit {0}) × Net
  pub send : Socket → List ℕ → Net → Option (Unit {0}) × Net
  pub recv : Socket → ℕ → ℕ → Net → Option (List ℕ) × Net

-- `0.0.0.0:0` or `[::]:0`
abbrev pub bind_address : IpAddr → SocketAddr
bind_address (v4 a) = record { ip = v4 0; port = 0 }
bind_address (v6 a) = record { ip = v6 0; port = 0 }

module _ (udp : Udp) where
  -- `?` on an operation of a socket.
  abbrev and_then :
      {A B : Type 0}
      → Option A × udp.Net
      → (A → udp.Net → Result UpstreamError B × udp.Net)
      → Result UpstreamError B × udp.Net
  and_then (none, net) f = (err io, net)
  and_then (some a, net) f = f a net

  unfoldable pub try_one : SocketAddr → List ℕ → udp.Net → Result UpstreamError (List ℕ) × udp.Net
  try_one server query net = and_then (udp.bind (bind_address server.ip) net) (λ socket net₁.
      and_then (udp.connect socket server net₁) (λ u net₂.
        and_then (udp.send socket query net₂) (λ v net₃.
          and_then (udp.recv socket max_udp_response upstream_timeout_ms net₃)
            (λ reply net₄. (ok reply, net₄)))))

  -- The loop over the servers; `count` is the number of all of them.
  unfoldable pub try_servers :
      ℕ → List SocketAddr → List ℕ → udp.Net → Result UpstreamError (List ℕ) × udp.Net
  unfolding try_one
  try_servers count [] query net = (err (all_failed count), net)
  try_servers count (s ∷ more) query net =
      let tried = try_one s query net in
      elim tried.0 [ ok reply ↦ (ok reply, tried.1) | err e ↦ try_servers count more query tried.1 ]

  unfoldable pub forward :
      List SocketAddr → List ℕ → udp.Net → Result UpstreamError (List ℕ) × udp.Net
  unfolding try_servers
  forward servers query net =
      if is_empty servers
      then (err no_upstreams, net)
      else try_servers (length servers) servers query net
