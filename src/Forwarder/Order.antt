-- ===== src/Forwarder/Order.antt =====
-- upstream.rs, `Forwarder::forward`: the servers are asked in order.
use detour.Prelude.{
  List, Result, Result-cases, [], ap, err, inl, inr, length, ok, refl, ℕ, ◌∷◌, ◌≡◌, ◌≢◌,
}
use detour.Net.{SocketAddr}
use detour.Forwarder.{Udp, UpstreamError, all_failed, forward, no_upstreams, try_one, try_servers}

module _ (udp : Udp) (query : List ℕ) where
  -- The first server, in order, that replies.
  pub data FirstReply : List SocketAddr → udp.Net → List ℕ → udp.Net → Type 0 where
    replies :
        {s : SocketAddr} {more : List SocketAddr} {net net' : udp.Net} {reply : List ℕ}
        → try_one udp s query net ≡ (ok reply, net')
        → FirstReply (s ∷ more) net reply net'
    silent :
        {s : SocketAddr} {more : List SocketAddr} {net net' net'' : udp.Net} {e : UpstreamError}
        {reply : List ℕ}
        → try_one udp s query net ≡ (err e, net')
        → FirstReply more net' reply net''
        → FirstReply (s ∷ more) net reply net''

  -- None of them replies.
  pub data NoReply : List SocketAddr → udp.Net → udp.Net → Type 0 where
    none_left : {net : udp.Net} → NoReply [] net net
    silent_too :
        {s : SocketAddr} {more : List SocketAddr} {net net' net'' : udp.Net} {e : UpstreamError}
        → try_one udp s query net ≡ (err e, net')
        → NoReply more net' net''
        → NoReply (s ∷ more) net net''

  pub data Forwarded (servers : List SocketAddr) (net : udp.Net)
      : Result UpstreamError (List ℕ) × udp.Net → Type 0 where
    replied :
        {reply : List ℕ} {net' : udp.Net}
        → FirstReply servers net reply net'
        → Forwarded servers net (ok reply, net')
    unanswered :
        {net' : udp.Net}
        → servers ≢ []
        → NoReply servers net net'
        → Forwarded servers net (err (all_failed (length servers)), net')
    unconfigured : servers ≡ [] → Forwarded servers net (err no_upstreams, net)

  -- What the loop over the servers gives.
  data Tried (servers : List SocketAddr) (net : udp.Net) (count : ℕ)
      : Result UpstreamError (List ℕ) × udp.Net → Type 0 where
    one_replied :
        {reply : List ℕ} {net' : udp.Net}
        → FirstReply servers net reply net'
        → Tried servers net count (ok reply, net')
    none_replied :
        {net' : udp.Net}
        → NoReply servers net net'
        → Tried servers net count (err (all_failed count), net')

  Tried-cons :
      (s : SocketAddr) (more : List SocketAddr) (net net' : udp.Net) (count : ℕ) (e : UpstreamError)
      (r : Result UpstreamError (List ℕ) × udp.Net)
      → try_one udp s query net ≡ (err e, net')
      → Tried more net' count r
      → Tried (s ∷ more) net count r
  Tried-cons s more net net' count e r h (one_replied f) = one_replied (silent h f)
  Tried-cons s more net net' count e r h (none_replied f) = none_replied (silent_too h f)

  try_servers-Tried :
      (servers : List SocketAddr) (net : udp.Net) (count : ℕ)
      → Tried servers net count (try_servers udp count servers query net)
  unfolding try_servers
  try_servers-Tried [] net count = none_replied none_left
  try_servers-Tried (s ∷ more) net count =
      let net' = (try_one udp s query net).1 in
      elim (Result-cases (try_one udp s query net).0) [
        | inl (e, bad) ↦
            rw (try_servers, bad)
              (Tried-cons s more net net' count e _ (ap (λ r. (r, net')) bad)
                (try_servers-Tried more net' count))
        | inr (reply, good) ↦
            rw (try_servers, good) (one_replied (replies (ap (λ r. (r, net')) good)))
      ]

  Tried-Forwarded :
      (servers : List SocketAddr) (net : udp.Net) (r : Result UpstreamError (List ℕ) × udp.Net)
      → servers ≢ []
      → Tried servers net (length servers) r
      → Forwarded servers net r
  Tried-Forwarded servers net r h (one_replied f) = replied f
  Tried-Forwarded servers net r h (none_replied f) = unanswered h f

  -- Forwarding gives the first reply of the servers in order; if none replies, the error with
  -- their number, and without servers `NoUpstreams` with nothing sent.
  pub forward-Forwarded :
      (servers : List SocketAddr) (net : udp.Net)
      → Forwarded servers net (forward udp servers query net)
  unfolding forward
  forward-Forwarded [] net = unconfigured refl
  forward-Forwarded (s ∷ more) net =
      Tried-Forwarded (s ∷ more) net _ (λ e. cc)
        (try_servers-Tried (s ∷ more) net (length (s ∷ more)))
