-- ===== src/Cache.antt =====
-- crates/dns-core/src/cache.rs: the response cache. An `Instant` and a `Duration` are numbers of
-- nanoseconds; the hash map is a list of its entries, in whatever order the map yields them.
pub mod Map
pub mod Lifetime
pub mod Reads
pub mod Eviction
pub mod Purge
mod Examples
use detour.Prelude.{
  Bool, List, Option, [], false, if◌then◌else◌, is_empty, ite, leb, length, ltb, map, max, min,
  none, not, some, true, ℕ, ◌%◌, ◌&&◌, ◌*◌, ◌-◌, ◌/◌, ◌==◌, ◌^◌, ◌∷◌,
}
use detour.Dns.{Dns}

abbrev pub second : ℕ
second = 1_000_000_000

abbrev pub max_ttl : ℕ
max_ttl = 3600 * second

abbrev pub min_ttl : ℕ
min_ttl = 5 * second

abbrev pub negative_ttl : ℕ
negative_ttl = 30 * second

pub record Entry (M : Type 0) : Type 0 where
  pub message : M
  pub stored_at : ℕ
  pub ttl : ℕ

pub record Cache (K M : Type 0) : Type 0 where
  pub entries : List (K × Entry M)
  pub capacity : ℕ

-- `elapsed.as_secs() as u32`
abbrev pub spent_secs : ℕ → ℕ
spent_secs nanos = nanos / second % 2 ^ 32

-- `HashMap::get`, `remove` and `insert`.
module _ {K V : Type 0} (same : Discrete K) where
  unfoldable pub map_get : K → List (K × V) → Option V
  map_get k [] = none
  map_get k ((j, v) ∷ l) = ite (same j k) (some v) (map_get k l)

  unfoldable pub map_remove : K → List (K × V) → List (K × V)
  map_remove k [] = []
  map_remove k ((j, v) ∷ l) = let rest = map_remove k l in ite (same j k) l ((j, v) ∷ rest)

  unfoldable pub map_insert : K → V → List (K × V) → List (K × V)
  map_insert k v [] = (k, v) ∷ []
  map_insert k v ((j, w) ∷ l) =
      let rest = map_insert k v l in ite (same j k) ((k, v) ∷ l) ((j, w) ∷ rest)

module _ {M : Type 0} where
  -- `now.saturating_duration_since(stored_at)`
  abbrev pub elapsed : Entry M → ℕ → ℕ
  elapsed e now = now - e.stored_at

  abbrev pub remaining : Entry M → ℕ → ℕ
  remaining e now = e.ttl - elapsed e now

module _ {K M : Type 0} where
  unfoldable pub new : ℕ → Cache K M
  new capacity = record { entries = []; capacity = capacity }

  abbrev sooner : ℕ → K × Entry M → Option (K × Entry M) → K × Entry M
  sooner now p none = p
  sooner now p (some q) = if leb (remaining p.1 now) (remaining q.1 now) then p else q

  -- `min_by_key` over the entries: the first one with the least time left.
  unfoldable pub soonest : ℕ → List (K × Entry M) → Option (K × Entry M)
  soonest now [] = none
  soonest now (p ∷ l) = some (sooner now p (soonest now l))

  -- `retain` of what has not expired.
  unfoldable pub retain_live : ℕ → List (K × Entry M) → List (K × Entry M)
  retain_live now [] = []
  retain_live now ((k, e) ∷ l) =
      let rest = retain_live now l in if ltb (elapsed e now) e.ttl then (k, e) ∷ rest else rest

  unfoldable pub purge_expired : Cache K M → ℕ → Cache K M
  unfolding retain_live
  purge_expired c now = record c { entries = retain_live now c.entries }

  unfoldable pub len : Cache K M → ℕ
  len c = length c.entries

  unfoldable pub clear : Cache K M → Cache K M
  clear c = record c { entries = [] }

-- `Key`: names are compared in lower case.
abbrev pub Key : Dns → Type 0
Key dns = dns.Name × dns.RecordType

pub key_discrete : (dns : Dns) → Discrete (Key dns)
key_discrete dns = hlevel (dns.name_discrete, dns.type_discrete)

unfoldable pub key_new : (dns : Dns) → dns.Name → dns.RecordType → Key dns
key_new dns name record_type = (dns.to_lowercase name, record_type)

module _ (dns : Dns) where
  abbrev least_ttl : List dns.Record → Option ℕ
  least_ttl [] = none
  least_ttl (r ∷ rs) = elim (least_ttl rs) [
    | none ↦ some (dns.ttl r)
    | some n ↦ some (min (dns.ttl r) n)
  ]

  abbrev clamped : Option ℕ → Option ℕ
  clamped none = none
  clamped (some secs) = some (max min_ttl (min (secs * second) max_ttl))

  unfoldable pub cacheable_ttl : dns.Message → Option ℕ
  cacheable_ttl m =
      ite (dns.code_discrete (dns.response_code m) dns.no_error)
        (if is_empty (dns.answers m)
          then some negative_ttl
          else clamped (least_ttl (dns.answers m)))
        (ite (dns.code_discrete (dns.response_code m) dns.nx_domain) (some negative_ttl) none)

  -- `record.set_ttl(record.ttl().saturating_sub(spent))`
  unfoldable pub age_record : ℕ → dns.Record → dns.Record
  age_record spent r = dns.set_ttl r (dns.ttl r - spent)

  unfoldable pub age_message : ℕ → dns.Message → dns.Message
  unfolding age_record
  age_message spent m =
      let m' = dns.with_answers m (map (age_record spent) (dns.answers m)) in
      dns.with_name_servers m' (map (age_record spent) (dns.name_servers m'))

  -- What `get_at` does with an entry.
  unfoldable pub serve_entry : ℕ → Option (Entry dns.Message) → Option dns.Message
  unfolding age_message
  serve_entry now none = none
  serve_entry now (some e) =
      if leb (elapsed e now) e.ttl
      then if e.ttl - elapsed e now == 0
        then none
        else some (age_message (spent_secs (elapsed e now)) e.message)
      else none

  module _ (same : Discrete (Key dns)) where
    unfoldable pub get_at : Cache (Key dns) dns.Message → Key dns → ℕ → Option dns.Message
    unfolding map_get serve_entry
    get_at c k now = serve_entry now (map_get same k c.entries)

    abbrev evicted :
        Option (Key dns × Entry dns.Message)
        → List (Key dns × Entry dns.Message)
        → List (Key dns × Entry dns.Message)
    evicted none l = l
    evicted (some (k, e)) l = map_remove same k l

    unfoldable pub evict_one : ℕ → Cache (Key dns) dns.Message → Cache (Key dns) dns.Message
    unfolding soonest map_remove
    evict_one now c = record c { entries = evicted (soonest now c.entries) c.entries }

    abbrev is_some : Option (Entry dns.Message) → Bool
    is_some none = false
    is_some (some e) = true

    -- The eviction of `insert_at`, when the cache is full and the key is new.
    unfoldable pub make_room :
        ℕ → Key dns → Cache (Key dns) dns.Message → Cache (Key dns) dns.Message
    unfolding evict_one map_get
    make_room now k c =
        if leb c.capacity (length c.entries) && not (is_some (map_get same k c.entries))
        then evict_one now c
        else c

    unfoldable pub store :
        ℕ → Key dns → dns.Message → ℕ → Cache (Key dns) dns.Message → Cache (Key dns) dns.Message
    unfolding map_insert
    store now k m ttl c = record c {
      entries = map_insert same k (record { message = m; stored_at = now; ttl = ttl }) c.entries;
    }

    unfoldable pub insert_ttl :
        Option ℕ
        → Cache (Key dns) dns.Message
        → Key dns
        → dns.Message
        → ℕ
        → Cache (Key dns) dns.Message × Option ℕ
    unfolding make_room store
    insert_ttl none c k m now = (c, none)
    insert_ttl (some ttl) c k m now = (store now k m ttl (make_room now k c), some ttl)

    unfoldable pub insert_at :
        Cache (Key dns) dns.Message
        → Key dns
        → dns.Message
        → ℕ
        → Cache (Key dns) dns.Message × Option ℕ
    unfolding insert_ttl cacheable_ttl
    insert_at c k m now = insert_ttl (cacheable_ttl m) c k m now
