-- ===== src/Cache/Purge.antt =====
-- cache.rs, `purge_expired`: dropping what has expired cannot be observed.
use detour.Cache.Eviction.{IsValid}
use detour.Dns.{Dns}
use detour.Prelude.{
  Bool-cases, List, Option, [], ap, arith, if_neg, if_pos, if◌then◌else◌, inl, inr, length, ltb,
  none, refl, some, sym, ℕ, ◌∙◌, ◌∷◌, ◌≡◌, ◌≤◌,
}
use detour.Cache.{
  Cache, Entry, Key, elapsed, get_at, len, map_get, purge_expired, retain_live, serve_entry,
}
use detour.Cache.Map.{Distinct}

abbrev live : {M : Type 0} → ℕ → Option (Entry M) → Option (Entry M)
live now none = none
live now (some e) = if ltb (elapsed e now) e.ttl then some e else none

module _ {K M : Type 0} (same : Discrete K) where
  map_get-retain_live :
      (k : K) (now : ℕ) (l : List (K × Entry M))
      → Distinct same l
      → map_get same k (retain_live now l) ≡ live now (map_get same k l)
  unfolding map_get retain_live
  map_get-retain_live k now [] d = refl
  map_get-retain_live k now ((j, e) ∷ l) d = elim (same j k) [
    | yes here_ ↦ elim (Bool-cases (ltb (elapsed e now) e.ttl)) [
      | inl fresh ↦ rw (fresh, if_pos (same j k) here_, if_pos (same j k) here_) (rw fresh refl)
      | inr stale ↦
          let gone : map_get same k l ≡ none = rw (← here_) d.0 in
          let dead : live now (some e) ≡ none = rw (stale, live) refl in
          rw (stale, if_pos (same j k) here_)
            (map_get-retain_live k now l d.1 ∙ ap (live now) gone ∙ sym dead)
    ]
    | no other ↦ elim (Bool-cases (ltb (elapsed e now) e.ttl)) [
      | inl fresh ↦
          rw (fresh, if_neg (same j k) other, if_neg (same j k) other)
            (map_get-retain_live k now l d.1)
      | inr stale ↦ rw (stale, if_neg (same j k) other) (map_get-retain_live k now l d.1)
    ]
  ]

  Distinct-retain_live :
      (now : ℕ) (l : List (K × Entry M)) → Distinct same l → Distinct same (retain_live now l)
  unfolding retain_live
  Distinct-retain_live now [] d = tt
  Distinct-retain_live now ((j, e) ∷ l) d = elim (Bool-cases (ltb (elapsed e now) e.ttl)) [
    | inl fresh ↦
        rw fresh (map_get-retain_live j now l d.1 ∙ rw d.0 refl, Distinct-retain_live now l d.1)
    | inr stale ↦ rw stale (Distinct-retain_live now l d.1)
  ]

  length-retain_live-le : (now : ℕ) (l : List (K × Entry M)) → length (retain_live now l) ≤ length l
  unfolding retain_live
  length-retain_live-le now [] = omega arith
  length-retain_live-le now ((j, e) ∷ l) = ground (arith, length-retain_live-le now l)

module _ (dns : Dns) (same : Discrete (Key dns)) where
  serve-live :
      (purged later : ℕ) (o : Option (Entry dns.Message))
      → purged ≤ later
      → serve_entry dns later (live purged o) ≡ serve_entry dns later o
  unfolding serve_entry
  serve-live purged later none h = refl
  serve-live purged later (some e) h = ground arith

  -- A purge of a valid cache changes nothing that can be read at its time or later.
  pub get_at-purge_expired :
      (c : Cache (Key dns) dns.Message) (k : Key dns) (purged later : ℕ)
      → IsValid dns same c
      → purged ≤ later
      → get_at dns same (purge_expired c purged) k later ≡ get_at dns same c k later
  unfolding get_at purge_expired
  get_at-purge_expired c k purged later v h =
      ap (serve_entry dns later) (map_get-retain_live same k purged c.entries v.distinct)
      ∙ serve-live purged later (map_get same k c.entries) h

  -- It keeps the cache valid and never makes it larger.
  pub purge_expired-IsValid :
      (c : Cache (Key dns) dns.Message) (now : ℕ)
      → IsValid dns same c
      → IsValid dns same (purge_expired c now) × (len (purge_expired c now) ≤ len c)
  unfolding purge_expired len
  purge_expired-IsValid c now v = (
    record {
      distinct = Distinct-retain_live same now c.entries v.distinct;
      bounded = omega (arith, length-retain_live-le same now c.entries, v.bounded);
    },
    length-retain_live-le same now c.entries,
  )
