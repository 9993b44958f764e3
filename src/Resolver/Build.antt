-- ===== src/Resolver/Build.antt =====
-- resolver.rs, `with_capacity`: which lists of providers give a resolver.
use detour.Prelude.{
  All, List, Option, Text, [], arith, false, is_empty, ok, refl, some, ℕ, ◌∷◌, ◌≡◌, ◌≢◌,
}
use detour.Net.{AddressText, IpAddr, SocketAddr, with_port}
use detour.Provider.{Provider, bootstrap_addrs, host}
use detour.Config.{Config, valid, validate}
use detour.Config.Validation.{IsUsable, validate_iff}
use detour.Dns.{Dns}
use detour.Cache.{Cache}
use detour.Resolver.{Http, Upstream, build_upstream, build_upstreams, with_capacity}

module _ (http : Http) where
  -- The client library builds a client for every https host, whatever it is pinned to.
  abbrev pub BuildsClients : Type 0
  BuildsClients =
      (h : Text) (pins : Option (List SocketAddr))
      → (c : http.Client) × (http.build h pins ≡ some c)

  -- Upstreams for the providers, in order, each client pinned to the addresses of its provider.
  pub data Upstreams : List Provider → List (Upstream http) → Type 0 where
    none_asked : Upstreams [] []
    pinned_to :
        {p : Provider} {ps : List Provider} {us : List (Upstream http)} {h : Text} {a : SocketAddr}
        {more : List SocketAddr} {c : http.Client}
        → host p ≡ some h
        → bootstrap_addrs p ≡ a ∷ more
        → http.build h (some (a ∷ more)) ≡ some c
        → Upstreams ps us
        → Upstreams (p ∷ ps) (record { provider = p; client = c } ∷ us)

  addresses :
      (p : Provider)
      → is_empty p.bootstrap ≡ false
      → (a : SocketAddr) × (more : List SocketAddr) × (bootstrap_addrs p ≡ a ∷ more)
  unfolding bootstrap_addrs with_port
  addresses p h = go p.bootstrap h
    where
      go :
          (l : List IpAddr)
          → is_empty l ≡ false
          → (a : SocketAddr) × (more : List SocketAddr) × (with_port 443 l ≡ a ∷ more)
      go [] e = absurd (ground arith)
      go (x ∷ xs) e = (_, with_port 443 xs, refl)

  build_upstreams-usable :
      (ps : List Provider)
      → BuildsClients
      → All IsUsable ps
      → (us : List (Upstream http)) × (build_upstreams http ps ≡ ok us) × Upstreams ps us
  unfolding build_upstreams build_upstream
  build_upstreams-usable [] builds usable = ([], refl, none_asked)
  build_upstreams-usable (p ∷ ps) builds (u, usable) =
      let (us, rest, all_) = build_upstreams-usable ps builds usable in
      let (h, named) = u.https in
      let (a, more, addrs) = addresses p u.pinned in
      let (c, client) = builds h (some (a ∷ more)) in
      (
        record { provider = p; client = c } ∷ us,
        rw (named, addrs, client, rest) refl,
        pinned_to named addrs client all_,
      )

  -- A configuration that passes `validate` gives a resolver, if the client library builds its
  -- clients: it has one upstream for each provider, in order, each pinned to the addresses of its
  -- provider, and an empty cache.
  pub with_capacity-valid :
      (dns : Dns) (std : AddressText) (c : Config) (capacity : ℕ)
      → BuildsClients
      → validate std c ≡ valid
      → (us : List (Upstream http)) × (with_capacity http dns c.providers capacity
          ≡ ok (record { upstreams = us; cache = detour.Cache.new capacity }))
        × Upstreams c.providers us
  unfolding with_capacity
  with_capacity-valid dns std c capacity builds good =
      let (full, usable, listens) = (validate_iff std c).0 good in
      let (us, done, all_) = build_upstreams-usable c.providers builds usable in
      let some_ : is_empty c.providers ≡ false = not_empty c.providers full in
      (us, rw (some_, done) refl, all_)
    where
      not_empty : (l : List Provider) → l ≢ [] → is_empty l ≡ false
      not_empty [] h = absurd (h refl)
      not_empty (x ∷ xs) h = refl
