-- ===== src/Cache/Lifetime.antt =====
-- cache.rs, `cacheable_ttl`: how long a response may be held.
use detour.Prelude.{
  All, All-imp, List, Option-cases, [], arith, if_neg, if_pos, if◌then◌else◌, inl, inr, is_empty,
  max, min, none, refl, some, sym, ℕ, ◌*◌, ◌↔◌, ◌∙◌, ◌∷◌, ◌≡◌, ◌≢◌, ◌≤◌,
}
use detour.Dns.{Dns}
use detour.Cache.{cacheable_ttl, clamped, least_ttl, max_ttl, min_ttl, negative_ttl, second}

module _ (dns : Dns) where
  -- Every lifetime lies between five seconds and an hour.
  pub cacheable_ttl_bounds :
      (m : dns.Message) (t : ℕ) → cacheable_ttl dns m ≡ some t → (min_ttl ≤ t) × (t ≤ max_ttl)
  unfolding cacheable_ttl
  cacheable_ttl_bounds m t h = ground arith

  least_ttl-cons : (r : dns.Record) (rs : List dns.Record) → least_ttl dns (r ∷ rs) ≢ none
  least_ttl-cons r rs h = ground arith

  no_error_held :
      (m : dns.Message) → dns.response_code m ≡ dns.no_error → cacheable_ttl dns m ≢ none
  unfolding cacheable_ttl
  no_error_held m ok h = held (dns.answers m) (sym (if_pos (dns.code_discrete _ _) ok _ _) ∙ h)
    where
      held :
          (rs : List dns.Record)
          → (if is_empty rs then some negative_ttl else clamped dns (least_ttl dns rs)) ≡ none
          → ⊥
      held [] e = cc
      held (r ∷ rs) e = ground (arith, least_ttl-cons r rs)

  -- A response is held exactly if its code is NoError or NXDomain: no transient failure is.
  cacheable_ttl-none_iff :
      (m : dns.Message)
      → (cacheable_ttl dns m ≡ none)
        ↔ ((dns.response_code m ≢ dns.no_error) × (dns.response_code m ≢ dns.nx_domain))
  unfolding cacheable_ttl
  cacheable_ttl-none_iff m = (
    λ h. (
      λ ok. no_error_held m ok h,
      λ nx. ground (arith, λ (ok : dns.response_code m ≡ dns.no_error). no_error_held m ok h),
    ),
    λ (not_ok, not_nx).
        rw (if_neg (dns.code_discrete _ _) not_ok, if_neg (dns.code_discrete _ _) not_nx) refl,
  )

  least_ttl-le :
      (rs : List dns.Record) (n : ℕ) → least_ttl dns rs ≡ some n → All (λ r. n ≤ dns.ttl r) rs
  least_ttl-le [] n h = tt
  least_ttl-le (r ∷ []) n h = (ground arith, tt)
  least_ttl-le (r ∷ s ∷ rs) n h = elim (Option-cases (least_ttl dns (s ∷ rs))) [
    | inl nothing ↦ absurd (least_ttl-cons s rs nothing)
    | inr (k, e) ↦
        let smaller : (n ≤ dns.ttl r) × (n ≤ k) = ground arith in
        (
          smaller.0,
          All-imp (λ x (le : k ≤ dns.ttl x). omega (arith, smaller.1)) (s ∷ rs)
              (least_ttl-le (s ∷ rs) k e),
        )
  ]

  -- A NoError response is not held longer than any of its answers allows, five seconds aside.
  cacheable_ttl-answers :
      (m : dns.Message) (t : ℕ)
      → dns.response_code m ≡ dns.no_error
      → cacheable_ttl dns m ≡ some t
      → All (λ r. t ≤ max min_ttl (dns.ttl r * second)) (dns.answers m)
  unfolding cacheable_ttl
  cacheable_ttl-answers m t ok h =
      bounded (dns.answers m) (sym (if_pos (dns.code_discrete _ _) ok _ _) ∙ h)
    where
      bounded :
          (rs : List dns.Record)
          → (if is_empty rs then some negative_ttl else clamped dns (least_ttl dns rs)) ≡ some t
          → All (λ r. t ≤ max min_ttl (dns.ttl r * second)) rs
      bounded [] e = tt
      bounded (r ∷ rs) e = elim (Option-cases (least_ttl dns (r ∷ rs))) [
        | inl nothing ↦ absurd (least_ttl-cons r rs nothing)
        | inr (k, least) ↦
            let value : t ≡ max min_ttl (min (k * second) max_ttl) = ground arith in
            All-imp (λ x (le : k ≤ dns.ttl x). omega (arith, value)) (r ∷ rs)
              (least_ttl-le (r ∷ rs) k least)
      ]
