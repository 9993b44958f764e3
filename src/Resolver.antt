-- ===== src/Resolver.antt =====
-- crates/dns-core/src/resolver.rs: DNS over HTTPS with fallback between providers and a cache.
-- The HTTP client (`reqwest`) is a parameter that passes on the state of the network.
pub mod Build
pub mod Query
pub mod Fallback
pub mod Caching
mod Examples
use detour.Prelude.{
  Bool, List, Option, Result, Text, [], bytes, err, false, if◌then◌else◌, is_empty, ite, leb,
  length, ltb, none, not, ok, some, starts_with, true, ℕ, ◌&&◌, ◌∷◌,
}
use detour.Net.{SocketAddr}
use detour.Provider.{Provider, bootstrap_addrs, host}
use detour.Dns.{Dns, DnsWire}
use detour.Cache.{Cache, Key, get_at, insert_at, key_new}

abbrev pub dns_message : Text
dns_message = bytes "application/dns-message"

abbrev pub default_capacity : ℕ
default_capacity = 4096

-- What comes back from a request; `body` is `none` if reading it failed.
pub record Reply : Type 0 where
  pub status : ℕ
  pub content_type : Option Text
  pub body : Option (List ℕ)

-- An HTTPS client: pinned to addresses when it is built, and posting a body with the two headers.
pub record Http : Type 1 where
  pub Client : Type 0
  pub Net : Type 0
  pub build : Text → Option (List SocketAddr) → Option Client
  pub post : Client → Text → Text → Text → List ℕ → Net → Option Reply × Net

-- The errors, without the values of other libraries' error types that they wrap.
pub data ResolveError : Type 0 where
  no_providers : ResolveError
  all_providers_failed : ℕ → ResolveError → ResolveError
  http_status : Text → ℕ → ResolveError
  bad_content_type : Text → Option Text → ResolveError
  transport : Text → ResolveError
  decode : Text → ResolveError
  encode : ResolveError
  bad_endpoint : Text → Text → ResolveError
  client_build : Text → ResolveError

-- `status.is_success()`
abbrev pub is_success : ℕ → Bool
is_success status = leb 200 status && ltb status 300

-- `content_type.as_deref().is_some_and(|c| c.starts_with(DNS_MESSAGE))`
abbrev pub is_dns : Option Text → Bool
is_dns none = false
is_dns (some c) = starts_with c dns_message

module _ (http : Http) where
  pub record Upstream : Type 0 where
    pub provider : Provider
    pub client : http.Client

  -- The addresses are pinned only if there are any.
  abbrev pinned : List SocketAddr → Option (List SocketAddr)
  pinned [] = none
  pinned (a ∷ more) = some (a ∷ more)

  abbrev built : Provider → Option http.Client → Result ResolveError Upstream
  built p none = err (client_build p.name)
  built p (some c) = ok (record { provider = p; client = c })

  abbrev build_at : Provider → Option Text → Result ResolveError Upstream
  build_at p none = err (bad_endpoint p.name p.url)
  build_at p (some h) = built p (http.build h (pinned (bootstrap_addrs p)))

  unfoldable pub build_upstream : Provider → Result ResolveError Upstream
  unfolding host bootstrap_addrs
  build_upstream p = build_at p (host p)

  abbrev collect_cons :
      Result ResolveError Upstream
      → Result ResolveError (List Upstream)
      → Result ResolveError (List Upstream)
  collect_cons (err e) rest = err e
  collect_cons (ok u) (err e) = err e
  collect_cons (ok u) (ok us) = ok (u ∷ us)

  -- `map(..).collect::<Result<Vec<_>, _>>()`: the first error is the result.
  unfoldable pub build_upstreams : List Provider → Result ResolveError (List Upstream)
  unfolding build_upstream
  build_upstreams [] = ok []
  build_upstreams (p ∷ ps) = collect_cons (build_upstream p) (build_upstreams ps)

module _ (http : Http) (dns : Dns) where
  pub record DohResolver : Type 0 where
    pub upstreams : List (Upstream http)
    pub cache : Cache (Key dns) dns.Message

  abbrev with_upstreams :
      ℕ → Result ResolveError (List (Upstream http)) → Result ResolveError DohResolver
  with_upstreams capacity (err e) = err e
  with_upstreams capacity (ok us) =
      ok (record { upstreams = us; cache = detour.Cache.new capacity })

  unfoldable pub with_capacity : List Provider → ℕ → Result ResolveError DohResolver
  unfolding build_upstreams
  with_capacity providers capacity =
      if is_empty providers
      then err no_providers
      else with_upstreams capacity (build_upstreams http providers)

  unfoldable pub new : List Provider → Result ResolveError DohResolver
  unfolding with_capacity
  new providers = with_capacity providers default_capacity

module _ (http : Http) (dns : Dns) (wire : DnsWire dns) where
  unfoldable pub build_query : dns.Name → dns.RecordType → dns.Message
  build_query name record_type =
      let message = wire.set_op_query (wire.set_query (wire.set_id wire.new 0)) in
      wire.add_query (wire.set_recursion_desired message true) name record_type

  abbrev decoded : Text → Option dns.Message → Result ResolveError dns.Message
  decoded name none = err (decode name)
  decoded name (some m) = ok m

  abbrev read_body : Text → Option (List ℕ) → Result ResolveError dns.Message
  read_body name none = err (transport name)
  read_body name (some body) = decoded name (wire.from_bytes body)

  -- What `query_one` makes of the reply.
  unfoldable pub read_reply : Text → Option Reply → Result ResolveError dns.Message
  read_reply name none = err (transport name)
  read_reply name (some r) =
      if not (is_success r.status)
      then err (http_status name r.status)
      else if not (is_dns r.content_type)
      then err (bad_content_type name r.content_type)
      else read_body name r.body

  unfoldable pub post_body :
      Upstream http → Option (List ℕ) → http.Net → Result ResolveError dns.Message × http.Net
  unfolding read_reply
  post_body u none net = (err encode, net)
  post_body u (some body) net =
      let (reply, net') = http.post u.client u.provider.url dns_message dns_message body net in
      (read_reply u.provider.name reply, net')

  unfoldable pub query_one :
      Upstream http → dns.Message → http.Net → Result ResolveError dns.Message × http.Net
  unfolding post_body
  query_one u query net = post_body u (wire.to_vec query) net

  abbrev or_none_tried : Option ResolveError → ResolveError
  or_none_tried none = no_providers
  or_none_tried (some e) = e

  -- An answer that is not SERVFAIL is returned; anything else is an error to remember.
  unfoldable pub verdict :
      Upstream http → Result ResolveError dns.Message → Result ResolveError dns.Message
  verdict u (err e) = err e
  verdict u (ok m) =
      ite (dns.code_discrete (dns.response_code m) dns.serv_fail)
        (err (http_status u.provider.name 502)) (ok m)

  -- The loop over the upstreams; `tried` is the number of all of them.
  unfoldable pub try_upstreams :
      ℕ
      → List (Upstream http)
      → dns.Message
      → Option ResolveError
      → http.Net
      → Result ResolveError dns.Message × http.Net
  unfolding query_one verdict
  try_upstreams tried [] query last net =
      (err (all_providers_failed tried (or_none_tried last)), net)
  try_upstreams tried (u ∷ us) query last net =
      let asked = query_one u query net in
      elim (verdict u asked.0) [
        | ok m ↦ (ok m, asked.1)
        | err e ↦ try_upstreams tried us query (some e) asked.1
      ]

  unfoldable pub resolve_uncached :
      DohResolver http dns → dns.Message → http.Net → Result ResolveError dns.Message × http.Net
  unfolding try_upstreams
  resolve_uncached r query net = try_upstreams (length r.upstreams) r.upstreams query none net

  module _ (same : Discrete (Key dns)) where
    -- What one `resolve` leaves: its result, the cache and the network.
    pub record Resolved : Type 0 where
      pub result : Result ResolveError dns.Message
      pub cache : Cache (Key dns) dns.Message
      pub net : http.Net

    -- Once the request is done, `cache` is what the other tasks have left.
    unfoldable pub keep_answer :
        Cache (Key dns) dns.Message
        → Key dns
        → ℕ
        → Result ResolveError dns.Message × http.Net
        → Resolved
    unfolding insert_at
    keep_answer cache key now (err e, net) = record { result = err e; cache = cache; net = net }
    keep_answer cache key now (ok m, net) = record {
      result = ok m;
      cache = (insert_at dns same cache key m now).0;
      net = net;
    }

    -- `resolve`: the cache is read at `asked`; the answer is stored at `answered`, in the cache that
    -- the other tasks made of the first one (`meanwhile`) while the request was awaited.
    unfoldable pub resolve :
        DohResolver http dns
        → dns.Name
        → dns.RecordType
        → http.Net
        → ℕ
        → ℕ
        → (Cache (Key dns) dns.Message → Cache (Key dns) dns.Message)
        → Resolved
    unfolding get_at key_new keep_answer resolve_uncached build_query
    resolve r name record_type net asked answered meanwhile =
        let key = key_new dns name record_type in
        let query = build_query name record_type in
        let asked_all =
          keep_answer (meanwhile r.cache) key answered (resolve_uncached r query net) in
        elim (get_at dns same r.cache key asked) [
          | some hit ↦ record { result = ok hit; cache = r.cache; net = net }
          | none ↦ asked_all
        ]
