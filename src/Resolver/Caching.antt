-- ===== src/Resolver/Caching.antt =====
-- resolver.rs, `resolve`: what the cache spares the network.
use detour.Cache.Reads.{get_at-insert_at_self}
use detour.Prelude.{
  Option-cases, Result, ap, err, inl, inr, ltb, lt→ltb, none, ok, refl, some, sym, true, ℕ, ◌-◌,
  ◌<◌, ◌∙◌, ◌≡◌,
}
use detour.Dns.{Dns, DnsWire}
use detour.Cache.{Cache, Key, age_message, cacheable_ttl, get_at, insert_at, key_new, spent_secs}
use detour.Cache.Eviction.{IsValid, insert_at-IsValid}
use detour.Resolver.{
  DohResolver, Http, ResolveError, build_query, keep_answer, resolve, resolve_uncached,
}

module _ (http : Http) (dns : Dns) (wire : DnsWire dns) (same : Discrete (Key dns)) where
  -- A cached answer is returned without asking the network, and the cache stays as it is.
  pub resolve_hit :
      (r : DohResolver http dns) (name : dns.Name) (type_ : dns.RecordType) (net : http.Net)
      (asked answered : ℕ) (meanwhile : Cache (Key dns) dns.Message → Cache (Key dns) dns.Message)
      (m : dns.Message)
      → get_at dns same r.cache (key_new dns name type_) asked ≡ some m
      → resolve http dns wire same r name type_ net asked answered meanwhile
        ≡ record { result = ok m; cache = r.cache; net = net }
  unfolding resolve
  resolve_hit r name type_ net asked answered meanwhile m h = rw (h, resolve) refl

  resolve_miss :
      (r : DohResolver http dns) (name : dns.Name) (type_ : dns.RecordType) (net : http.Net)
      (asked answered : ℕ) (meanwhile : Cache (Key dns) dns.Message → Cache (Key dns) dns.Message)
      → get_at dns same r.cache (key_new dns name type_) asked ≡ none
      → resolve http dns wire same r name type_ net asked answered meanwhile
        ≡ keep_answer http dns wire same
            (meanwhile r.cache)
            (key_new dns name type_)
            answered
            (resolve_uncached http dns wire r (build_query http dns wire name type_) net)
  unfolding resolve
  resolve_miss r name type_ net asked answered meanwhile h = rw (h, resolve) refl

  -- After a miss that the network answers with a cacheable message, a lookup of the same name, in
  -- any spelling with the same lower case, and type returns the aged message within its lifetime,
  -- without asking the network.
  pub resolve_again :
      (r : DohResolver http dns) (name name' : dns.Name) (type_ : dns.RecordType)
      (net net' : http.Net) (asked answered later done t : ℕ)
      (meanwhile meanwhile' : Cache (Key dns) dns.Message → Cache (Key dns) dns.Message)
      (m : dns.Message)
      → get_at dns same r.cache (key_new dns name type_) asked ≡ none
      → resolve_uncached http dns wire r (build_query http dns wire name type_) net ≡ (ok m, net')
      → cacheable_ttl dns m ≡ some t
      → dns.to_lowercase name ≡ dns.to_lowercase name'
      → later - answered < t
      → let before = resolve http dns wire same r name type_ net asked answered meanwhile in
        resolve http dns wire same
          (record r { cache = before.cache })
          name'
          type_
          net'
          later
          done
          meanwhile'
        ≡ record {
          result = ok (age_message dns (spent_secs (later - answered)) m);
          cache = before.cache;
          net = net';
        }
  resolve_again r name name' type_ net net' asked answered later done t meanwhile meanwhile' m miss
        got held alike young =
      let key = key_new dns name type_ in
      let before = resolve http dns wire same r name type_ net asked answered meanwhile in
      let stored : before.cache ≡ (insert_at dns same (meanwhile r.cache) key m answered).0 =
        ap (λ x. x.cache) (resolve_miss r name type_ net asked answered meanwhile miss)
        ∙ ap (λ x. (keep_answer http dns wire same (meanwhile r.cache) key answered x).cache) got
        ∙ unfold keep_answer in refl in
      let keys : key_new dns name' type_ ≡ key =
        unfold key_new in ap (λ n. (n, type_)) (sym alike) in
      let fresh : ltb (later - answered) t ≡ true = lt→ltb _ _ young in
      let served : get_at dns same before.cache (key_new dns name' type_) later
          ≡ some (age_message dns (spent_secs (later - answered)) m) =
        rw (stored, keys)
          (get_at-insert_at_self dns same (meanwhile r.cache) key m answered t later held
            ∙ rw fresh refl) in
      resolve_hit (record r { cache = before.cache }) name' type_ net' later done meanwhile' _
        served

  keep_answer-IsValid :
      (c : Cache (Key dns) dns.Message) (k : Key dns) (now : ℕ)
      (r : Result ResolveError dns.Message × http.Net)
      → IsValid dns same c
      → IsValid dns same (keep_answer http dns wire same c k now r).cache
  unfolding keep_answer
  keep_answer-IsValid c k now (err e, net) v = v
  keep_answer-IsValid c k now (ok m, net) v = insert_at-IsValid dns same c k m now v

  -- A valid cache is left valid by a lookup, if the other tasks leave it valid while the request
  -- is awaited.
  resolve-IsValid :
      (r : DohResolver http dns) (name : dns.Name) (type_ : dns.RecordType) (net : http.Net)
      (asked answered : ℕ) (meanwhile : Cache (Key dns) dns.Message → Cache (Key dns) dns.Message)
      → IsValid dns same r.cache
      → IsValid dns same (meanwhile r.cache)
      → IsValid dns same
          (resolve http dns wire same r name type_ net asked answered meanwhile).cache
  resolve-IsValid r name type_ net asked answered meanwhile v v' =
      elim (Option-cases (get_at dns same r.cache (key_new dns name type_) asked)) [
        | inr (m, hit) ↦ rw (resolve_hit r name type_ net asked answered meanwhile m hit) v
        | inl miss ↦ rw (resolve_miss r name type_ net asked answered meanwhile miss) (
            keep_answer-IsValid (meanwhile r.cache) (key_new dns name type_) answered
              (resolve_uncached http dns wire r (build_query http dns wire name type_) net) v')
      ]
