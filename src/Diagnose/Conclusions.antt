-- ===== src/Diagnose/Conclusions.antt =====
-- What the conclusion of `check` says of the addresses and of what connects.
use detour.Prelude.{
  Any-append_left, Any-append_right, Bool, List, Result, Text, [], any, ap, arith, false, filter,
  here, if◌then◌else◌, inl, inr, is_empty, none, not, refl, sym, there, true, ||_true, ◌&&◌, ◌++◌,
  ◌||◌, ◌↔◌, ◌∙◌, ◌∷◌, ◌≡◌,
}
use detour.Net.{AddressText, IpAddr}
use detour.Diagnose.{
  Conclusion, LookupError, blocked_beyond_dns, compared, conclude, dns_interference, judge,
  resolution_failed, split_result,
}
use detour.Diagnose.Addresses.{contains_ip, dedup, same_set, sort}
use detour.Diagnose.Probes.{Listed, contains_ip_iff, dedup-Listed, filter-Listed, sort-Listed}

bool_ext : (a b : Bool) → (a ≡ true) ↔ (b ≡ true) → a ≡ b
bool_ext true b (to, from) = sym (to refl)
bool_ext false true (to, from) = from refl
bool_ext false false h = refl

any_of_Listed :
    (p : IpAddr → Bool) (ys : List IpAddr) (x : IpAddr) → Listed ys x → p x ≡ true → any p ys ≡ true
any_of_Listed p (y ∷ ys) x (here e) h = rw (ap p e ∙ h) refl
any_of_Listed p (y ∷ ys) x (there k) h = rw (any_of_Listed p ys x k h) (or_true (p y))
  where
    or_true : (t : Bool) → (t || true) ≡ true
    or_true t = ground arith
any_of_Listed p [] x k h = elim k [ ]

any_mono :
    (p : IpAddr → Bool) (xs ys : List IpAddr)
    → ((x : IpAddr) → Listed xs x → Listed ys x)
    → any p xs ≡ true
    → any p ys ≡ true
any_mono p [] ys sub h = absurd (ground arith)
any_mono p (x ∷ xs) ys sub h = elim (||_true (p x) (any p xs) h) [
  | inl now ↦ any_of_Listed p ys x (sub x (here refl)) now
  | inr later ↦ any_mono p xs ys (λ y k. sub y (there k)) later
]

any-append : (p : IpAddr → Bool) (xs ys : List IpAddr) → any p (xs ++ ys) ≡ (any p xs || any p ys)
any-append p [] ys = refl
any-append p (x ∷ xs) ys = ground (arith, any-append p xs ys)

is_empty-filter : (p : IpAddr → Bool) (xs : List IpAddr) → is_empty (filter p xs) ≡ not (any p xs)
is_empty-filter p [] = refl
is_empty-filter p (x ∷ xs) = ground (arith, is_empty-filter p xs)

module _ (tcp_probe : IpAddr → Bool) (isp doh : List IpAddr) where
  abbrev all_ips : List IpAddr
  all_ips = dedup (sort (isp ++ doh))

  all_ips-Listed : (x : IpAddr) → Listed all_ips x ↔ Listed (isp ++ doh) x
  all_ips-Listed x =
      let (a, b) = dedup-Listed (sort (isp ++ doh)) x in
      let (c, d) = sort-Listed (isp ++ doh) x in (λ h. c (a h), λ h. b (d h))

  -- Whether one of the addresses is among the reachable ones, of which it is if it connects.
  works :
      (xs : List IpAddr)
      → ((x : IpAddr) → Listed xs x → Listed (isp ++ doh) x)
      → any (contains_ip (filter tcp_probe all_ips)) xs ≡ any tcp_probe xs
  works [] sub = refl
  works (x ∷ xs) sub =
      let (to, from) = filter-Listed tcp_probe all_ips x in
      let (a, b) = contains_ip_iff (filter tcp_probe all_ips) x in
      let here_ : contains_ip (filter tcp_probe all_ips) x ≡ tcp_probe x =
        bool_ext _ _
          (λ h. (to (a h)).1, λ h. b (from ((all_ips-Listed x).1 (sub x (here refl)), h))) in
      rw (here_, works xs (λ y k. sub y (there k))) refl

  nothing_reachable :
      is_empty (filter tcp_probe all_ips) ≡ not (any tcp_probe isp || any tcp_probe doh)
  nothing_reachable =
      is_empty-filter tcp_probe all_ips
      ∙ ap not (
          bool_ext _ _ (
            any_mono tcp_probe all_ips (isp ++ doh) (λ x. (all_ips-Listed x).0),
            any_mono tcp_probe (isp ++ doh) all_ips (λ x. (all_ips-Listed x).1),
          )
          ∙ any-append tcp_probe isp doh)

  -- The conclusion by what connects, without the list of reachable addresses.
  by_probes : Bool → Conclusion
  by_probes same =
      if is_empty isp && is_empty doh
      then resolution_failed
      else compared (any tcp_probe isp) (any tcp_probe doh) same

  conclude-by_probes : conclude isp doh (filter tcp_probe all_ips) ≡ by_probes (same_set isp doh)
  unfolding conclude by_probes
  conclude-by_probes =
      rw
        (
          nothing_reachable,
          works isp (λ x k. Any-append_left doh k),
          works doh (λ x k. Any-append_right isp k),
        )
        (ground arith)

  empty_any : (xs : List IpAddr) → any tcp_probe xs ≡ true → is_empty xs ≡ false
  empty_any [] h = ground (arith, h)
  empty_any (x ∷ xs) h = refl

  neither_empty : (any tcp_probe doh ≡ true) → (is_empty isp && is_empty doh) ≡ false
  neither_empty h = ground (arith, empty_any doh h)

-- The table of conclusions: whether there is no address, and which side's addresses connect.
abbrev table : Bool → Bool → Bool → Bool → Conclusion
table no_address i d same = if no_address then resolution_failed else compared i d same

table-interference : (e i d s : Bool) → table e i d s ≡ dns_interference → (i ≡ false) × (d ≡ true)
table-interference false false true s h = (refl, refl)
table-interference true i d s h = ground arith
table-interference false true true true h = ground arith
table-interference false true true false h = ground arith
table-interference false true false s h = ground arith
table-interference false false false s h = ground arith

table-blocked :
    (e i d s : Bool) → table e i d s ≡ blocked_beyond_dns → (e ≡ false) × (i ≡ false) × (d ≡ false)
table-blocked false false false s h = (refl, refl, refl)
table-blocked true i d s h = ground arith
table-blocked false true true true h = ground arith
table-blocked false true true false h = ground arith
table-blocked false true false s h = ground arith
table-blocked false false true s h = ground arith

module _ (std : AddressText) (tcp_probe : IpAddr → Bool) (domain : Text)
    (isp doh : Result LookupError (List IpAddr)) where
  -- If no answer has a restriction address, the conclusion is interference exactly if no address of
  -- the network's resolver connects and one from DNS over HTTPS does, and a block beyond DNS exactly
  -- if there are addresses, be they from one side alone, and none of them connects.
  pub judge-conclusion_iff :
      (judge std tcp_probe domain isp doh).restriction ≡ none
      → (((judge std tcp_probe domain isp doh).conclusion ≡ dns_interference) ↔ (
          (any tcp_probe (split_result isp).0 ≡ false)
          × (any tcp_probe (split_result doh).0 ≡ true)))
        × (((judge std tcp_probe domain isp doh).conclusion ≡ blocked_beyond_dns) ↔ (
            ((is_empty (split_result isp).0 && is_empty (split_result doh).0) ≡ false)
            × (any tcp_probe (split_result isp).0 ≡ false)
            × (any tcp_probe (split_result doh).0 ≡ false)))
  unfolding judge by_probes
  judge-conclusion_iff free =
      let a = (split_result isp).0 in
      let b = (split_result doh).0 in
      let e = is_empty a && is_empty b in
      rw (free, conclude-by_probes tcp_probe a b)
        (
          (
            table-interference e (any tcp_probe a) (any tcp_probe b) (same_set a b),
            λ (i, d). rw (i, d, neither_empty tcp_probe a b d) refl,
          ),
          (
            table-blocked e (any tcp_probe a) (any tcp_probe b) (same_set a b),
            λ (some_, i, d). rw (some_, i, d) refl,
          ),
        )
