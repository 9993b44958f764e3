-- ===== src/Cache/Eviction.antt =====
-- cache.rs, `insert_at` and `evict_one`: the victim, the bound, and what other keys see.
use detour.Cache.Map.{
  Distinct, Distinct-map_insert, Distinct-map_remove, length-map_insert_new, length-map_insert_old,
  length-map_remove, map_get-map_insert_ne, map_get-map_remove_ne, map_get-map_remove_self,
}
use detour.Dns.{Dns}
use detour.Prelude.{
  All, All-imp, Bool, Bool-cases, List, Option, Option-cases, [], ap, arith, false, if_neg, if_pos,
  if◌then◌else◌, inl, inr, leb, leb→le, length, max, none, refl, some, subst, suc, sym, ℕ, ◌&&◌,
  ◌<◌, ◌∙◌, ◌∷◌, ◌≡◌, ◌≢◌, ◌≤◌,
}
use detour.Cache.{
  Cache, Entry, Key, cacheable_ttl, evict_one, evicted, get_at, insert_at, insert_ttl, make_room,
  map_get, map_remove, remaining, serve_entry, sooner, soonest, store,
}

module _ {K M : Type 0} where
  abbrev LeastLeft : ℕ → Entry M → List (K × Entry M) → Type 0
  LeastLeft now e l = All (λ f. remaining e now ≤ remaining (f.1) now) l

  least_step :
      (now : ℕ) (p r : K × Entry M) (l : List (K × Entry M))
      → LeastLeft now r.1 l
      → LeastLeft now (sooner now p (some r)).1 (p ∷ l)
  least_step now p r l h = elim (Bool-cases (leb (remaining p.1 now) (remaining r.1 now))) [
    | inl before ↦
        let first : sooner now p (some r) ≡ p = rw before refl in
        subst (λ v. LeastLeft now v.1 (p ∷ l)) (sym first)
          (
            omega arith,
            All-imp
                (λ f (le : remaining r.1 now ≤ remaining f.1 now). omega (arith, leb→le _ _ before))
                l h,
          )
    | inr after ↦
        let second_ : sooner now p (some r) ≡ r = rw after refl in
        subst (λ v. LeastLeft now v.1 (p ∷ l)) (sym second_) (ground arith, h)
  ]

  least-sooner :
      (now : ℕ) (p : K × Entry M) (l : List (K × Entry M))
      → LeastLeft now (sooner now p (soonest now l)).1 (p ∷ l)
  unfolding soonest
  least-sooner now p [] = omega arith
  least-sooner now p (q ∷ l) =
      least_step now p (sooner now q (soonest now l)) (q ∷ l) (least-sooner now q l)

  -- The victim has the least time left of all entries.
  pub soonest-least :
      (now : ℕ) (l : List (K × Entry M)) (victim : K × Entry M)
      → soonest now l ≡ some victim
      → LeastLeft now victim.1 l
  unfolding soonest
  soonest-least now [] victim h = tt
  soonest-least now (p ∷ l) victim h =
      subst (λ v. LeastLeft now v.1 (p ∷ l)) (unsome h) (least-sooner now p l)
    where
      unsome : {a b : K × Entry M} → some a ≡ some b → a ≡ b
      unsome e = cc

module _ {K M : Type 0} (same : Discrete K) where
  abbrev Present : K → List (K × Entry M) → Type 0
  Present k l = (w : Entry M) × (map_get same k l ≡ some w)

  Present-head : (p : K × Entry M) (l : List (K × Entry M)) → Present p.0 (p ∷ l)
  unfolding map_get
  Present-head p l = (p.1, if_pos (same p.0 p.0) refl (some p.1) (map_get same p.0 l))

  Present-tail :
      (k : K) (p : K × Entry M) (l : List (K × Entry M)) → Present k l → Present k (p ∷ l)
  unfolding map_get
  Present-tail k p l (w, h) = elim (same p.0 k) [
    | yes e ↦ (p.1, if_pos (same p.0 k) e (some p.1) (map_get same k l))
    | no d ↦ (w, if_neg (same p.0 k) d (some p.1) (map_get same k l) ∙ h)
  ]

  Present-step :
      (now : ℕ) (p r : K × Entry M) (l : List (K × Entry M))
      → Present r.0 l
      → Present (sooner now p (some r)).0 (p ∷ l)
  Present-step now p r l h = elim (Bool-cases (leb (remaining p.1 now) (remaining r.1 now))) [
    | inl before ↦ rw before (Present-head p l)
    | inr after ↦ rw after (Present-tail r.0 p l h)
  ]

  Present-sooner :
      (now : ℕ) (p : K × Entry M) (l : List (K × Entry M))
      → Present (sooner now p (soonest now l)).0 (p ∷ l)
  unfolding soonest
  Present-sooner now p [] = Present-head p []
  Present-sooner now p (q ∷ l) =
      Present-step now p (sooner now q (soonest now l)) (q ∷ l) (Present-sooner now q l)

  -- Evicting makes a map that holds anything one shorter.
  pub length-soonest :
      (now : ℕ) (l : List (K × Entry M)) (victim : K × Entry M)
      → soonest now l ≡ some victim
      → suc (length (map_remove same victim.0 l)) ≡ length l
  unfolding soonest
  length-soonest now [] victim h = absurd (ground arith)
  length-soonest now (p ∷ l) victim h =
      let (w, there_) = Present-sooner now p l in
      subst (λ v. suc (length (map_remove same v.0 (p ∷ l))) ≡ length (p ∷ l)) (unsome h)
        (length-map_remove same (sooner now p (soonest now l)).0 w (p ∷ l) there_)
    where
      unsome : {a b : K × Entry M} → some a ≡ some b → a ≡ b
      unsome e = cc

module _ (dns : Dns) (same : Discrete (Key dns)) where
  -- No key twice, and never more entries than the capacity (a cache of capacity 0 holds one).
  pub record IsValid (c : Cache (Key dns) dns.Message) : Type 0 where
    pub distinct : Distinct same c.entries
    pub bounded : length c.entries ≤ max 1 c.capacity

  soonest-none :
      (now : ℕ) (l : List (Key dns × Entry dns.Message)) → soonest now l ≡ none → length l ≡ 0
  unfolding soonest
  soonest-none now [] h = refl
  soonest-none now (p ∷ l) h = absurd (ground arith)

  abbrev HasRoom : Cache (Key dns) dns.Message → ℕ → Type 0
  HasRoom c capacity =
      Distinct same c.entries × (length c.entries < max 1 capacity) × (c.capacity ≡ capacity)

  evict_one-HasRoom :
      (now : ℕ) (c : Cache (Key dns) dns.Message)
      → IsValid c
      → HasRoom (evict_one dns same now c) c.capacity
  unfolding evict_one
  evict_one-HasRoom now c v = elim (Option-cases (soonest now c.entries)) [
    | inl nothing ↦
        rw (nothing) (v.distinct, omega (arith, soonest-none now c.entries nothing), refl)
    | inr (victim, found) ↦ rw found (
      Distinct-map_remove same victim.0 c.entries v.distinct,
      omega (arith, length-soonest same now c.entries victim found, v.bounded),
      refl,
    )
  ]

  -- A new key finds room: what was full is one entry shorter.
  make_room-HasRoom :
      (now : ℕ) (k : Key dns) (c : Cache (Key dns) dns.Message)
      → IsValid c
      → map_get same k c.entries ≡ none
      → HasRoom (make_room dns same now k c) c.capacity
  unfolding make_room
  make_room-HasRoom now k c v absent = elim (Bool-cases (leb c.capacity (length c.entries))) [
    | inl full ↦ rw (absent, full) (evict_one-HasRoom now c v)
    | inr room ↦ rw (room) (v.distinct, ground arith, refl)
  ]

  make_room_present :
      (now : ℕ) (k : Key dns) (c : Cache (Key dns) dns.Message) (e : Entry dns.Message)
      → map_get same k c.entries ≡ some e
      → make_room dns same now k c ≡ c
  unfolding make_room
  make_room_present now k c e h = rw h (if_same (leb c.capacity (length c.entries)))
    where
      if_same : (b : Bool) → (if b && false then evict_one dns same now c else c) ≡ c
      if_same b = ground arith

  remove-absent :
      (k j : Key dns) (l : List (Key dns × Entry dns.Message))
      → Distinct same l
      → map_get same k l ≡ none
      → map_get same k (map_remove same j l) ≡ none
  remove-absent k j l d h = elim (same j k) [
    | yes e ↦ rw e (map_get-map_remove_self same k l d)
    | no n ↦ map_get-map_remove_ne same j k l n ∙ h
  ]

  evict-absent :
      (now : ℕ) (k : Key dns) (c : Cache (Key dns) dns.Message)
      → Distinct same c.entries
      → map_get same k c.entries ≡ none
      → map_get same k (make_room dns same now k c).entries ≡ none
  unfolding make_room
  evict-absent now k c d h = elim (Bool-cases (leb c.capacity (length c.entries))) [
    | inl full ↦ rw (h, full) (evicted-absent (soonest now c.entries))
    | inr room ↦ rw room h
  ]
    where
      evicted-absent :
          (o : Option (Key dns × Entry dns.Message))
          → map_get same k (evicted dns same o c.entries) ≡ none
      evicted-absent none = h
      evicted-absent (some v) = remove-absent k v.0 c.entries d h

  store-IsValid :
      (now : ℕ) (k : Key dns) (m : dns.Message) (t : ℕ) (c : Cache (Key dns) dns.Message)
      → IsValid c
      → IsValid (store dns same now k m t (make_room dns same now k c))
  unfolding store
  store-IsValid now k m t c v = elim (Option-cases (map_get same k c.entries)) [
    | inl absent ↦
        let room = make_room-HasRoom now k c v absent in
        let c' = make_room dns same now k c in
        let gone = evict-absent now k c v.distinct absent in
        record {
          distinct = Distinct-map_insert same k _ c'.entries room.0;
          bounded = omega (
            arith,
            room.1,
            room.2,
            length-map_insert_new same k (record { message = m; stored_at = now; ttl = t })
                c'.entries gone,
          );
        }
    | inr (e, present) ↦ rw (make_room_present now k c e present) (record {
      distinct = Distinct-map_insert same k _ c.entries v.distinct;
      bounded = omega (
        arith,
        v.bounded,
        length-map_insert_old same k (record { message = m; stored_at = now; ttl = t }) e c.entries
            present,
      );
    })
  ]

  -- Storing keeps the cache valid, whatever the response.
  pub insert_at-IsValid :
      (c : Cache (Key dns) dns.Message) (k : Key dns) (m : dns.Message) (now : ℕ)
      → IsValid c
      → IsValid (insert_at dns same c k m now).0
  unfolding insert_at
  insert_at-IsValid c k m now v = elim (Option-cases (cacheable_ttl dns m)) [
    | inl never ↦ rw (never, insert_ttl) v
    | inr (t, held) ↦ rw (held, insert_ttl) (store-IsValid now k m t c v)
  ]

  -- Storing under a new key in a full cache drops the entry of `q`.
  pub record Evicts (c : Cache (Key dns) dns.Message) (k : Key dns) (now : ℕ) (q : Key dns)
      : Type 0 where
    pub full : c.capacity ≤ length c.entries
    pub new_key : map_get same k c.entries ≡ none
    pub victim : Entry dns.Message
    pub chosen : soonest now c.entries ≡ some (q, victim)

  get-make_room :
      (c : Cache (Key dns) dns.Message) (k : Key dns) (now : ℕ) (q : Key dns)
      → ¬ Evicts c k now q
      → map_get same q (make_room dns same now k c).entries ≡ map_get same q c.entries
  unfolding make_room evict_one
  get-make_room c k now q kept = elim (Option-cases (map_get same k c.entries)) [
    | inr (e, present) ↦ ap (λ x. map_get same q x.entries) (make_room_present now k c e present)
    | inl absent ↦ elim (Bool-cases (leb c.capacity (length c.entries))) [
      | inr room ↦ rw room refl
      | inl full ↦
          rw (absent, full) (evicted_other (leb→le _ _ full) absent (soonest now c.entries) refl)
    ]
  ]
    where
      evicted_other :
          c.capacity ≤ length c.entries
          → map_get same k c.entries ≡ none
          → (o : Option (Key dns × Entry dns.Message)) → soonest now c.entries ≡ o
          → map_get same q (evicted dns same o c.entries) ≡ map_get same q c.entries
      evicted_other full absent none e = refl
      evicted_other full absent (some v) e =
          map_get-map_remove_ne same v.0 q c.entries (λ p.
            kept (record { full = full; new_key = absent; victim = v.1; chosen = rw (← p) e }))

  -- Every other key is served as before, except the one that a full cache drops.
  pub get_at-insert_at_ne :
      (c : Cache (Key dns) dns.Message) (k q : Key dns) (m : dns.Message) (now later : ℕ)
      → k ≢ q
      → ¬ Evicts c k now q
      → get_at dns same (insert_at dns same c k m now).0 q later ≡ get_at dns same c q later
  unfolding get_at insert_at
  get_at-insert_at_ne c k q m now later other kept = elim (Option-cases (cacheable_ttl dns m)) [
    | inl never ↦ rw (never, insert_ttl) refl
    | inr (t, held) ↦
        rw (held, insert_ttl)
          (unfold store in
            ap (serve_entry dns later) (
              map_get-map_insert_ne same k q _ (make_room dns same now k c).entries other
              ∙ get-make_room c k now q kept))
  ]
