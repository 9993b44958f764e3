-- ===== src/Resolver/Examples.antt =====
-- resolver.rs: the theorems on two providers over a network that counts its requests.
use detour.Prelude.{
  List, Option, [], arith, bytes, none, ok, refl, some, starts_with, strip_prefix, true, ℕ,
  ℕ_discrete, ◌*◌, ◌+◌, ◌↔◌, ◌∷◌, ◌≡◌,
}
use detour.Net.{AddressText, v4}
use detour.Provider.{host}
use detour.Dns.Sample.{Packet, sample, sample_wire, two_records}
use detour.Cache.{Cache, Key, age_message, cacheable_ttl, get_at, key_discrete, key_new, second}
use detour.Cache.Eviction.{IsValid}
use detour.Resolver.{
  DohResolver, Http, Reply, Upstream, build_query, dns_message, no_providers, query_one, resolve,
  resolve_uncached, with_capacity,
}
use detour.Resolver.Build.{Upstreams, with_capacity-valid}
use detour.Resolver.Query.{IsAnswer, query_one_iff}
use detour.Resolver.Fallback.{Outcome, resolve_uncached-Outcome}
use detour.Resolver.Caching.{resolve_again}
use detour.Config.{Config, valid, validate}

-- A client knows what it answers; the network is the number of requests made.
abbrev counting : Http
counting = record {
  Client = Option Reply;
  Net = ℕ;
  build = λ h pins. some none;
  post = λ c url accept type_ body n. (c, n + 1);
}

abbrev asked_at : Option Reply → Upstream counting
asked_at r = record {
  provider = record { name = bytes "P"; url = bytes "https://p/q"; bootstrap = [] };
  client = r;
}

-- The first provider says SERVFAIL, the second one answers.
abbrev two_providers : DohResolver counting sample
two_providers = record {
  upstreams =
      asked_at
        (some (record { status = 200; content_type = some dns_message; body = some (0 ∷ 2 ∷ []) }))
      ∷ asked_at (
          some (record {
            status = 200;
            content_type = some dns_message;
            body = some (0 ∷ 0 ∷ 60 ∷ 300 ∷ []);
          }))
      ∷ [];
  cache = record { entries = []; capacity = 2 };
}

abbrev same : Discrete (Key sample)
same = key_discrete sample

abbrev empty_query : Packet
empty_query = record { number = 0; code = 0; sections = ([], []) }

resolve_uncached-Outcome_example :
    Outcome counting sample sample_wire empty_query two_providers.upstreams 0 no_providers 2
      (resolve_uncached counting sample sample_wire two_providers empty_query 0)
resolve_uncached-Outcome_example =
    resolve_uncached-Outcome counting sample sample_wire empty_query two_providers 0

query_one_iff_example :
    ((query_one counting sample sample_wire (asked_at none) empty_query 0).0 ≡ ok two_records)
    ↔ IsAnswer counting sample sample_wire (asked_at none) empty_query 0 two_records
query_one_iff_example =
    query_one_iff counting sample sample_wire (asked_at none) empty_query 0 two_records

abbrev one_address : AddressText
one_address = record {
  parse_ip = λ t. some (v4 1);
  show_ip = λ a. [];
  parse_socket = λ t. some (record { ip = v4 1; port = 53 });
}

abbrev one_provider : Config
one_provider = record {
  listen = bytes "127.0.0.53:53";
  providers = record { name = bytes "P"; url = bytes "https://p/q"; bootstrap = v4 1 ∷ [] } ∷ [];
  policy = record { default_doh = true; force_doh = []; force_local = [] };
  profiles = [];
  tunnel_apps = [];
}

one_provider-valid : validate one_address one_provider ≡ valid
unfolding validate host strip_prefix
one_provider-valid = refl

with_capacity-valid_example :
    (us : List (Upstream counting)) × (with_capacity counting sample one_provider.providers 2
      ≡ ok (record { upstreams = us; cache = detour.Cache.new 2 }))
    × Upstreams counting one_provider.providers us
with_capacity-valid_example =
    with_capacity-valid counting sample one_address one_provider 2 (λ h pins. (none, refl))
      one_provider-valid

two_answer :
    resolve_uncached counting sample sample_wire two_providers
      (build_query counting sample sample_wire 7 1)
      0
    ≡ (ok two_records, 2)
unfolding resolve_uncached build_query starts_with ℕ_discrete
two_answer = refl

nothing_cached : get_at sample same two_providers.cache (key_new sample 7 1) 0 ≡ none
unfolding get_at key_new
nothing_cached = refl

held_a_minute : cacheable_ttl sample two_records ≡ some (60 * second)
unfolding cacheable_ttl ℕ_discrete
held_a_minute = refl

-- The second lookup spells the name otherwise, ten seconds later.
resolve_again_example :
    let before = resolve counting sample sample_wire same two_providers 7 1 0 0 0 (λ c. c) in
    resolve counting sample sample_wire same
      (record two_providers { cache = before.cache })
      107
      1
      2
      (10 * second)
      (10 * second)
      (λ c. c)
    ≡ record { result = ok (age_message sample 10 two_records); cache = before.cache; net = 2 }
resolve_again_example =
    resolve_again counting sample sample_wire same two_providers 7 107 1 0 2 0 0 (10 * second)
      (10 * second) (60 * second) (λ c. c) (λ c. c) two_records nothing_cached two_answer
      held_a_minute refl (omega arith)

two_providers-IsValid : IsValid sample same two_providers.cache
two_providers-IsValid = record { distinct = tt; bounded = omega arith }
