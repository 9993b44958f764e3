-- ===== src/Cache/Reads.antt =====
-- cache.rs, `get_at` after `insert_at`: what is served, and for how long.
use detour.Cache.Lifetime.{cacheable_ttl_bounds}
use detour.Prelude.{
  Bool-cases, List, Option, [], arith, if◌then◌else◌, inl, inr, ltb, ltb→lt, map, none, refl, some,
  ℕ, ◌*◌, ◌-◌, ◌/◌, ◌<◌, ◌∷◌, ◌≡◌,
}
use detour.Dns.{Dns, DnsLaws}
use detour.Cache.{
  Cache, Key, age_message, age_record, cacheable_ttl, get_at, insert_at, insert_ttl, second,
  spent_secs, store,
}
use detour.Cache.Map.{map_get-map_insert_self}

module _ (dns : Dns) (same : Discrete (Key dns)) (c : Cache (Key dns) dns.Message) (k : Key dns)
    (m : dns.Message) (now : ℕ) where
  -- A cacheable response that was stored is served, aged, for its lifetime and not a nanosecond
  -- longer.
  pub get_at-insert_at_self :
      (t later : ℕ)
      → cacheable_ttl dns m ≡ some t
      → get_at dns same (insert_at dns same c k m now).0 k later ≡ (
          if ltb (later - now) t then some (age_message dns (spent_secs (later - now)) m) else none)
  unfolding get_at insert_at store
  get_at-insert_at_self t later h = rw (h, insert_ttl, map_get-map_insert_self) (ground arith)

  -- A response that is not cacheable leaves the cache as it was.
  pub insert_at_uncacheable : cacheable_ttl dns m ≡ none → insert_at dns same c k m now ≡ (c, none)
  unfolding insert_at
  insert_at_uncacheable h = rw (h, insert_ttl)

module _ (dns : Dns) (laws : DnsLaws dns) where
  ttls-age_record :
      (s : ℕ) (rs : List dns.Record)
      → map dns.ttl (map (age_record dns s) rs) ≡ map (λ r. dns.ttl r - s) rs
  unfolding age_record
  ttls-age_record s [] = refl
  ttls-age_record s (r ∷ rs) = cc (laws.ttl-set_ttl r (dns.ttl r - s), ttls-age_record s rs)

  -- Aging takes the time spent off every record of the two sections, and off no other.
  pub ttls-age_message :
      (s : ℕ) (m : dns.Message)
      → (map dns.ttl (dns.answers (age_message dns s m)) ≡ map (λ r. dns.ttl r - s) (dns.answers m))
        × (map dns.ttl (dns.name_servers (age_message dns s m))
            ≡ map (λ r. dns.ttl r - s) (dns.name_servers m))
  unfolding age_message
  ttls-age_message s m = (
    rw (laws.answers-with_name_servers, laws.answers-with_answers)
        (ttls-age_record s (dns.answers m)),
    rw (laws.name_servers-with_name_servers, laws.name_servers-with_answers)
        (ttls-age_record s (dns.name_servers m)),
  )

  -- What is served after a cacheable response was stored has every TTL of its answers and name
  -- servers lower by the whole seconds spent in the cache: the cast to 32 bits never wraps, since
  -- nothing is held for longer than an hour.
  pub served_ttls :
      (same : Discrete (Key dns)) (c : Cache (Key dns) dns.Message) (k : Key dns)
      (m served : dns.Message) (now later t : ℕ)
      → cacheable_ttl dns m ≡ some t
      → get_at dns same (insert_at dns same c k m now).0 k later ≡ some served
      → (map dns.ttl (dns.answers served)
          ≡ map (λ r. dns.ttl r - (later - now) / second) (dns.answers m))
        × (map dns.ttl (dns.name_servers served)
            ≡ map (λ r. dns.ttl r - (later - now) / second) (dns.name_servers m))
  served_ttls same c k m served now later t held got = elim (Bool-cases (ltb (later - now) t)) [
    | inl fresh ↦
        let young : later - now < 3600 * second =
          omega (arith, ltb→lt _ _ fresh, (cacheable_ttl_bounds dns m t held).1) in
        let secs : spent_secs (later - now) ≡ (later - now) / second = omega arith in
        let whole : age_message dns ((later - now) / second) m ≡ served =
          unsome (rw (get_at-insert_at_self dns same c k m now t later held, fresh, secs) at got) in
        rw (← whole) (ttls-age_message ((later - now) / second) m)
    | inr stale ↦
        absurd
          (none_ne_some (rw (get_at-insert_at_self dns same c k m now t later held, stale) at got))
  ]
    where
      unsome : {a b : dns.Message} → some a ≡ some b → a ≡ b
      unsome e = cc

      none_ne_some : ◌≡◌ {A = Option dns.Message} none (some served) → ⊥
      none_ne_some e = cc
