-- ===== src/Cache/Map.antt =====
-- cache.rs: the laws of the map under the cache.
use detour.Prelude.{
  List, [], arith, if_neg, if_pos, length, none, refl, some, suc, sym, ◌∙◌, ◌∷◌, ◌≡◌, ◌≢◌,
}
use detour.Cache.{map_get, map_insert, map_remove}

module _ {K V : Type 0} (same : Discrete K) where
  -- No key stands twice.
  abbrev pub Distinct : List (K × V) → Type 0
  Distinct [] = Unit
  Distinct ((k, v) ∷ l) = (map_get same k l ≡ none) × Distinct l

  pub map_get-map_insert_self :
      (k : K) (v : V) (l : List (K × V)) → map_get same k (map_insert same k v l) ≡ some v
  unfolding map_get map_insert
  map_get-map_insert_self k v [] = if_pos (same k k) refl (some v) none
  map_get-map_insert_self k v ((j, w) ∷ l) = elim (same j k) [
    | yes e ↦ rw (if_pos (same j k) e) (if_pos (same k k) refl (some v) (map_get same k l))
    | no d ↦ rw (if_neg (same j k) d) (rw (if_neg (same j k) d) (map_get-map_insert_self k v l))
  ]

  pub map_get-map_insert_ne :
      (k q : K) (v : V) (l : List (K × V))
      → k ≢ q
      → map_get same q (map_insert same k v l) ≡ map_get same q l
  unfolding map_get map_insert
  map_get-map_insert_ne k q v [] h = if_neg (same k q) h (some v) none
  map_get-map_insert_ne k q v ((j, w) ∷ l) h = elim (same j k) [
    | yes e ↦
        rw (if_pos (same j k) e)
          (rw (if_neg (same k q) h, if_neg (same j q) (λ p. h (sym e ∙ p))) refl)
    | no d ↦ rw (if_neg (same j k) d) (ground (arith, map_get-map_insert_ne k q v l h))
  ]

  pub map_get-map_remove_ne :
      (k q : K) (l : List (K × V)) → k ≢ q → map_get same q (map_remove same k l) ≡ map_get same q l
  unfolding map_get map_remove
  map_get-map_remove_ne k q [] h = refl
  map_get-map_remove_ne k q ((j, w) ∷ l) h = elim (same j k) [
    | yes e ↦
        rw (if_pos (same j k) e)
          (sym (if_neg (same j q) (λ p. h (sym e ∙ p)) (some w) (map_get same q l)))
    | no d ↦ rw (if_neg (same j k) d) (ground (arith, map_get-map_remove_ne k q l h))
  ]

  pub map_get-map_remove_self :
      (k : K) (l : List (K × V)) → Distinct l → map_get same k (map_remove same k l) ≡ none
  unfolding map_get map_remove
  map_get-map_remove_self k [] d = refl
  map_get-map_remove_self k ((j, w) ∷ l) d = elim (same j k) [
    | yes e ↦ rw (if_pos (same j k) e) (rw (← e) (d.0))
    | no n ↦ rw (if_neg (same j k) n) (rw (if_neg (same j k) n) (map_get-map_remove_self k l d.1))
  ]

  pub Distinct-map_insert :
      (k : K) (v : V) (l : List (K × V)) → Distinct l → Distinct (map_insert same k v l)
  unfolding map_get map_insert
  Distinct-map_insert k v [] d = (refl, tt)
  Distinct-map_insert k v ((j, w) ∷ l) d = elim (same j k) [
    | yes e ↦ rw (if_pos (same j k) e) (rw (← e) d.0, d.1)
    | no n ↦
        rw (if_neg (same j k) n)
          (map_get-map_insert_ne k j v l (λ p. n (sym p)) ∙ d.0, Distinct-map_insert k v l d.1)
  ]

  pub Distinct-map_remove : (k : K) (l : List (K × V)) → Distinct l → Distinct (map_remove same k l)
  unfolding map_get map_remove
  Distinct-map_remove k [] d = tt
  Distinct-map_remove k ((j, w) ∷ l) d = elim (same j k) [
    | yes e ↦ rw (if_pos (same j k) e) d.1
    | no n ↦
        rw (if_neg (same j k) n)
          (map_get-map_remove_ne k j l (λ p. n (sym p)) ∙ d.0, Distinct-map_remove k l d.1)
  ]

  pub length-map_insert_new :
      (k : K) (v : V) (l : List (K × V))
      → map_get same k l ≡ none
      → length (map_insert same k v l) ≡ suc (length l)
  unfolding map_get map_insert
  length-map_insert_new k v [] h = refl
  length-map_insert_new k v ((j, w) ∷ l) h = ground (arith, length-map_insert_new k v l)

  pub length-map_insert_old :
      (k : K) (v w : V) (l : List (K × V))
      → map_get same k l ≡ some w
      → length (map_insert same k v l) ≡ length l
  unfolding map_get map_insert
  length-map_insert_old k v w [] h = absurd (ground arith)
  length-map_insert_old k v w ((j, u) ∷ l) h = ground (arith, length-map_insert_old k v w l)

  pub length-map_remove :
      (k : K) (w : V) (l : List (K × V))
      → map_get same k l ≡ some w
      → suc (length (map_remove same k l)) ≡ length l
  unfolding map_get map_remove
  length-map_remove k w [] h = absurd (ground arith)
  length-map_remove k w ((j, u) ∷ l) h = ground (arith, length-map_remove k w l)
