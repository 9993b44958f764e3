-- ===== src/Cache/Examples.antt =====
-- cache.rs: the theorems on a cache that holds one answer.
use detour.Prelude.{[], ap, arith, map, refl, some, ℕ_discrete, ◌*◌, ◌-◌, ◌/◌, ◌∷◌, ◌≡◌, ◌≢◌}
use detour.Dns.Sample.{Packet, sample, sample-DnsLaws, two_records}
use detour.Cache.{
  Cache, Key, age_message, cacheable_ttl, get_at, insert_at, key_discrete, map_get, purge_expired,
  second,
}
use detour.Cache.Reads.{get_at-insert_at_self, served_ttls}
use detour.Cache.Eviction.{Evicts, IsValid, get_at-insert_at_ne, insert_at-IsValid}
use detour.Cache.Purge.{get_at-purge_expired}

abbrev same : Discrete (Key sample)
same = key_discrete sample

abbrev nothing_held : Cache (Key sample) Packet
nothing_held = record { entries = []; capacity = 2 }

nothing_held-IsValid : IsValid sample same nothing_held
nothing_held-IsValid = record { distinct = tt; bounded = omega arith }

held_a_minute : cacheable_ttl sample two_records ≡ some (60 * second)
unfolding cacheable_ttl ℕ_discrete
held_a_minute = refl

get_at-insert_at_self_example :
    get_at sample same
      (insert_at sample same nothing_held (7, 1) two_records 0).0
      (7, 1)
      (10 * second)
    ≡ some (age_message sample 10 two_records)
get_at-insert_at_self_example =
    get_at-insert_at_self sample same nothing_held (7, 1) two_records 0 (60 * second) (10 * second)
      held_a_minute

served_ttls_example :
    (map sample.ttl (sample.answers (age_message sample 10 two_records))
      ≡ map (λ r. r - 10 * second / second) (60 ∷ 300 ∷ []))
    × (map sample.ttl (sample.name_servers (age_message sample 10 two_records)) ≡ [])
served_ttls_example =
    served_ttls sample sample-DnsLaws same nothing_held (7, 1) two_records
      (age_message sample 10 two_records) 0 (10 * second) (60 * second) held_a_minute
      (get_at-insert_at_self sample same nothing_held (7, 1) two_records 0 (60 * second)
        (10 * second) held_a_minute)

insert_at-IsValid_example :
    IsValid sample same (insert_at sample same nothing_held (7, 1) two_records 0).0
insert_at-IsValid_example =
    insert_at-IsValid sample same nothing_held (7, 1) two_records 0 nothing_held-IsValid

room_left : ¬ Evicts sample same nothing_held (7, 1) 0 (8, 1)
room_left e = omega (arith, e.full)

seven_ne_eight : ◌≢◌ {A = Key sample} (7, 1) (8, 1)
seven_ne_eight e = omega (arith, ap (λ k. k.0) e)

get_at-insert_at_ne_example :
    get_at sample same (insert_at sample same nothing_held (7, 1) two_records 0).0 (8, 1) 5
    ≡ get_at sample same nothing_held (8, 1) 5
get_at-insert_at_ne_example =
    get_at-insert_at_ne sample same nothing_held (7, 1) (8, 1) two_records 0 5 seven_ne_eight
      room_left

-- An entry that has expired at one second.
abbrev one_held : Cache (Key sample) Packet
one_held = record {
  entries = ((7, 1), record { message = two_records; stored_at = 0; ttl = second }) ∷ [];
  capacity = 2;
}

one_held-IsValid : IsValid sample same one_held
unfolding map_get
one_held-IsValid = record { distinct = (refl, tt); bounded = omega arith }

get_at-purge_expired_example :
    get_at sample same (purge_expired one_held (2 * second)) (7, 1) (3 * second)
    ≡ get_at sample same one_held (7, 1) (3 * second)
get_at-purge_expired_example =
    get_at-purge_expired sample same one_held (7, 1) (2 * second) (3 * second) one_held-IsValid
      (omega arith)
