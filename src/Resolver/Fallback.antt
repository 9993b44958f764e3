-- ===== src/Resolver/Fallback.antt =====
-- resolver.rs, `resolve_uncached`: the order in which the providers are asked.
use detour.Prelude.{
  List, Option, Result, Result-cases, [], ap, err, if_neg, if_pos, inl, inr, length, none, ok, refl,
  some, ℕ, ◌∷◌, ◌≡◌, ◌≢◌,
}
use detour.Dns.{Dns, DnsWire}
use detour.Resolver.{
  DohResolver, Http, ResolveError, Upstream, all_providers_failed, http_status, no_providers,
  or_none_tried, query_one, resolve_uncached, try_upstreams, verdict,
}

module _ (http : Http) (dns : Dns) (wire : DnsWire dns) (query : dns.Message) where
  -- The provider, asked over `net`, does not answer: it fails with `e`, or it says SERVFAIL.
  pub data Fails (u : Upstream http) (net : http.Net) : ResolveError → http.Net → Type 0 where
    failed :
        {e : ResolveError} {net' : http.Net}
        → query_one http dns wire u query net ≡ (err e, net')
        → Fails u net e net'
    serv_failed :
        {m : dns.Message} {net' : http.Net}
        → query_one http dns wire u query net ≡ (ok m, net')
        → dns.response_code m ≡ dns.serv_fail
        → Fails u net (http_status u.provider.name 502) net'

  -- The providers are asked in order, each over the network that the one before has left, and
  -- `m` is what the first one says that answers.
  pub data FirstAnswer : List (Upstream http) → http.Net → dns.Message → http.Net → Type 0 where
    answers :
        {u : Upstream http} {us : List (Upstream http)} {net net' : http.Net} {m : dns.Message}
        → query_one http dns wire u query net ≡ (ok m, net')
        → dns.response_code m ≢ dns.serv_fail
        → FirstAnswer (u ∷ us) net m net'
    skips :
        {u : Upstream http} {us : List (Upstream http)} {net net' net'' : http.Net}
        {e : ResolveError} {m : dns.Message}
        → Fails u net e net'
        → FirstAnswer us net' m net''
        → FirstAnswer (u ∷ us) net m net''

  -- All of them fail, the last one with `last`.
  pub data AllFail
      : List (Upstream http) → http.Net → ResolveError → ResolveError → http.Net → Type 0 where
    none_left : {net : http.Net} {last : ResolveError} → AllFail [] net last last net
    fails :
        {u : Upstream http} {us : List (Upstream http)} {net net' net'' : http.Net}
        {e before last : ResolveError}
        → Fails u net e net'
        → AllFail us net' e last net''
        → AllFail (u ∷ us) net before last net''

  -- One provider: it answers or it fails.
  data Asked (u : Upstream http) (net : http.Net) : Type 0 where
    said :
        (m : dns.Message)
        → query_one http dns wire u query net ≡ (ok m, (query_one http dns wire u query net).1)
        → dns.response_code m ≢ dns.serv_fail
        → verdict http dns wire u (query_one http dns wire u query net).0 ≡ ok m
        → Asked u net
    refused :
        (e : ResolveError)
        → Fails u net e (query_one http dns wire u query net).1
        → verdict http dns wire u (query_one http dns wire u query net).0 ≡ err e
        → Asked u net

  asked : (u : Upstream http) (net : http.Net) → Asked u net
  unfolding verdict
  asked u net = elim (Result-cases (query_one http dns wire u query net).0) [
    | inl (e, bad) ↦
        refused e (failed (ap (λ r. (r, (query_one http dns wire u query net).1)) bad))
          (rw bad refl)
    | inr (m, good) ↦
        let whole = ap (λ r. (r, (query_one http dns wire u query net).1)) good in
        elim (dns.code_discrete (dns.response_code m) dns.serv_fail) [
          | yes same ↦
              refused _ (serv_failed whole same) (rw good (if_pos (dns.code_discrete _ _) same _ _))
          | no other ↦ said m whole other (rw good (if_neg (dns.code_discrete _ _) other _ _))
        ]
  ]

  pub data Outcome (us : List (Upstream http)) (net : http.Net) (before : ResolveError) (tried : ℕ)
      : Result ResolveError dns.Message × http.Net → Type 0 where
    first :
        {m : dns.Message} {net' : http.Net}
        → FirstAnswer us net m net'
        → Outcome us net before tried (ok m, net')
    all_fail :
        {last : ResolveError} {net' : http.Net}
        → AllFail us net before last net'
        → Outcome us net before tried (err (all_providers_failed tried last), net')

  Outcome-skip :
      (u : Upstream http) (us : List (Upstream http)) (net net' : http.Net)
      (before e : ResolveError) (tried : ℕ) (r : Result ResolveError dns.Message × http.Net)
      → Fails u net e net'
      → Outcome us net' e tried r
      → Outcome (u ∷ us) net before tried r
  Outcome-skip u us net net' before e tried r f (first a) = first (skips f a)
  Outcome-skip u us net net' before e tried r f (all_fail a) = all_fail (fails f a)

  try_upstreams-Outcome :
      (us : List (Upstream http)) (net : http.Net) (before : Option ResolveError) (tried : ℕ)
      → Outcome us net
          (or_none_tried http dns wire before)
          tried
          (try_upstreams http dns wire tried us query before net)
  unfolding try_upstreams
  try_upstreams-Outcome [] net before tried = all_fail none_left
  try_upstreams-Outcome (u ∷ us) net before tried = elim (asked u net) [
    | said m e other v ↦ rw (try_upstreams, v) (first (answers e other))
    | refused e f v ↦
        rw (try_upstreams, v)
          (Outcome-skip u us net _ _ e tried _ f (try_upstreams-Outcome us _ (some e) tried))
  ]

  -- Without the cache, the result is the first answer of the providers in order, SERVFAIL not
  -- counted as one; if there is none, it is `AllProvidersFailed` with the number of the providers
  -- and the last failure.
  pub resolve_uncached-Outcome :
      (r : DohResolver http dns) (net : http.Net)
      → Outcome r.upstreams net no_providers
          (length r.upstreams)
          (resolve_uncached http dns wire r query net)
  unfolding resolve_uncached
  resolve_uncached-Outcome r net = try_upstreams-Outcome r.upstreams net none (length r.upstreams)
