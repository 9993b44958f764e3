-- ===== src/Diagnose/Probes.antt =====
-- What sorting, `dedup` and the probes keep of a list of addresses.
use detour.Prelude.{
  ==→eq, Any, Bool, Bool-cases, List, [], any_iff, ap, arith, false, filter, here, inl, inr, subst,
  sym, there, true, ◌↔◌, ◌∙◌, ◌∷◌, ◌≡◌,
}
use detour.Net.{IpAddr, v4, v6}
use detour.Diagnose.Addresses.{contains_ip, dedup, dedup_step, insert_ip, ip_eq, ip_leb, sort}

abbrev pub Listed : List IpAddr → IpAddr → Type 0
Listed ips ip = Any (λ x. x ≡ ip) ips

pub ip_eq_iff : (a b : IpAddr) → (ip_eq a b ≡ true) ↔ (a ≡ b)
ip_eq_iff (v4 a) (v4 b) = (λ h. ap v4 (==→eq a b h), λ h. ground (arith, h))
ip_eq_iff (v4 a) (v6 b) = (λ h. ground arith, λ h. ground (arith, h))
ip_eq_iff (v6 a) (v4 b) = (λ h. ground arith, λ h. ground (arith, h))
ip_eq_iff (v6 a) (v6 b) = (λ h. ap v6 (==→eq a b h), λ h. ground (arith, h))

pub contains_ip_iff :
    (ips : List IpAddr) (ip : IpAddr) → (contains_ip ips ip ≡ true) ↔ Listed ips ip
unfolding contains_ip
contains_ip_iff ips ip = any_iff _ (λ x. ip_eq_iff x ip) ips

insert_ip-Listed :
    (ip x : IpAddr) (xs : List IpAddr) → Listed (insert_ip ip xs) x ↔ Listed (ip ∷ xs) x
insert_ip-Listed ip x [] = (λ h. h, λ h. h)
insert_ip-Listed ip x (y ∷ ys) =
    let (to, from) = insert_ip-Listed ip x ys in
    elim (Bool-cases (ip_leb ip y)) [
      | inl first ↦ rw first (λ h. h, λ h. h)
      | inr later ↦ rw later (forth to, back from)
    ]
  where
    forth :
        (Listed (insert_ip ip ys) x → Listed (ip ∷ ys) x)
        → Listed (y ∷ insert_ip ip ys) x
        → Listed (ip ∷ y ∷ ys) x
    forth to (here e) = there (here e)
    forth to (there h) = elim (to h) [ here e ↦ here e | there k ↦ there (there k) ]

    back :
        (Listed (ip ∷ ys) x → Listed (insert_ip ip ys) x)
        → Listed (ip ∷ y ∷ ys) x
        → Listed (y ∷ insert_ip ip ys) x
    back from (here e) = there (from (here e))
    back from (there (here e)) = here e
    back from (there (there h)) = there (from (there h))

cons-Listed :
    (a x : IpAddr) (xs ys : List IpAddr)
    → Listed xs x ↔ Listed ys x
    → Listed (a ∷ xs) x ↔ Listed (a ∷ ys) x
cons-Listed a x xs ys (to, from) = (forth xs ys to, forth ys xs from)
  where
    forth :
        (us vs : List IpAddr) → (Listed us x → Listed vs x) → Listed (a ∷ us) x → Listed (a ∷ vs) x
    forth us vs f (here e) = here e
    forth us vs f (there h) = there (f h)

pub sort-Listed : (xs : List IpAddr) (x : IpAddr) → Listed (sort xs) x ↔ Listed xs x
unfolding sort
sort-Listed [] x = (λ h. h, λ h. h)
sort-Listed (y ∷ ys) x =
    let (a, b) = insert_ip-Listed y x (sort ys) in
    let (c, d) = cons-Listed y x (sort ys) ys (sort-Listed ys x) in (λ h. c (a h), λ h. b (d h))

dedup_step-Listed :
    (a x : IpAddr) (ys : List IpAddr) → Listed (dedup_step a ys) x ↔ Listed (a ∷ ys) x
dedup_step-Listed a x [] = (λ h. h, λ h. h)
dedup_step-Listed a x (y ∷ ys) = elim (Bool-cases (ip_eq a y)) [
  | inl same ↦ rw same (λ h. there h, back ((ip_eq_iff a y).0 same))
  | inr other ↦ rw other (λ h. h, λ h. h)
]
  where
    back : a ≡ y → Listed (a ∷ y ∷ ys) x → Listed (y ∷ ys) x
    back e (here f) = here (sym e ∙ f)
    back e (there h) = h

pub dedup-Listed : (xs : List IpAddr) (x : IpAddr) → Listed (dedup xs) x ↔ Listed xs x
unfolding dedup
dedup-Listed [] x = (λ h. h, λ h. h)
dedup-Listed (y ∷ ys) x =
    let (a, b) = dedup_step-Listed y x (dedup ys) in
    let (c, d) = cons-Listed y x (dedup ys) ys (dedup-Listed ys x) in (λ h. c (a h), λ h. b (d h))

pub filter-Listed :
    (p : IpAddr → Bool) (xs : List IpAddr) (x : IpAddr)
    → Listed (filter p xs) x ↔ (Listed xs x × (p x ≡ true))
filter-Listed p [] x = (λ h. elim h [ ], λ h. h.0)
filter-Listed p (y ∷ ys) x =
    let (to, from) = filter-Listed p ys x in
    elim (Bool-cases (p y)) [
      | inl pass ↦ rw pass (forth_in pass to, back_in from)
      | inr fail ↦ rw fail (λ h. (there (to h).0, (to h).1), back_out fail from)
    ]
  where
    forth_in :
        p y ≡ true
        → (Listed (filter p ys) x → Listed ys x × (p x ≡ true))
        → Listed (y ∷ filter p ys) x
        → Listed (y ∷ ys) x × (p x ≡ true)
    forth_in pass to (here e) = (here e, subst (λ z. p z ≡ true) e pass)
    forth_in pass to (there h) = (there (to h).0, (to h).1)

    back_in :
        (Listed ys x × (p x ≡ true) → Listed (filter p ys) x)
        → Listed (y ∷ ys) x × (p x ≡ true)
        → Listed (y ∷ filter p ys) x
    back_in from (here e, q) = here e
    back_in from (there h, q) = there (from (h, q))

    back_out :
        p y ≡ false
        → (Listed ys x × (p x ≡ true) → Listed (filter p ys) x)
        → Listed (y ∷ ys) x × (p x ≡ true)
        → Listed (filter p ys) x
    back_out fail from (here e, q) = absurd (differ (sym fail ∙ ap p e ∙ q))
      where
        differ : false ≡ true → ⊥
        differ k = cc
    back_out fail from (there h, q) = from (h, q)
