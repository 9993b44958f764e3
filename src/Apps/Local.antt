-- ===== src/Apps/Local.antt =====
-- `is_local_destination` against the networks that the tunnel's rules let pass.
use detour.Tunnel.Steps.{bypass_v4, bypass_v6}
use detour.Prelude.{
  Any, List, Text, [], arith, here, if◌then◌else◌, inl, inr, ltb, split, sym, there, true, ℕ, ◌*◌,
  ◌+◌, ◌-◌, ◌/◌, ◌<◌, ◌^◌, ◌↔◌, ◌∙◌, ◌∷◌, ◌≡◌, ◌⊎◌,
}
use detour.Net.{IpAddr, v4, v6}
use detour.Apps.Sockets.{is_local_destination}

-- The number in a decimal text, for the reading of the networks below.
abbrev number : ℕ → Text → ℕ
number acc [] = acc
number acc (c ∷ s) = number (acc * 10 + (c - b'0')) s

abbrev dotted : ℕ → List Text → ℕ
dotted acc [] = acc
dotted acc (t ∷ ts) = dotted (acc * 256 + number 0 t) ts

abbrev network_of : List Text → ℕ × ℕ
network_of [] = (0, 0)
network_of (a ∷ []) = (0, 0)
network_of (a ∷ len ∷ rest) = (dotted 0 (split b'.' a), 32 - number 0 len)

-- An address is in the network of a text such as 10.0.0.0/8 if they agree before its host bits.
abbrev pub InNetwork : ℕ → Text → Type 0
InNetwork n cidr =
    let (base, host_bits) = network_of (split b'/' cidr) in n / 2 ^ host_bits ≡ base / 2 ^ host_bits

-- The same for IPv6: the groups before the gap, from the highest on, and those behind it.
abbrev hex_digit : ℕ → ℕ
hex_digit c = if ltb c b'a' then c - b'0' else 10 + (c - b'a')

abbrev group : ℕ → Text → ℕ
group acc [] = acc
group acc (c ∷ s) = group (acc * 16 + hex_digit c) s

abbrev low_groups : ℕ → List Text → ℕ
low_groups acc [] = acc
low_groups acc (t ∷ ts) = low_groups (acc * 65536 + group 0 t) ts

abbrev groups : ℕ → List Text → ℕ
groups place [] = 0
groups place ([] ∷ ts) = low_groups 0 ts
groups place ((c ∷ s) ∷ ts) = group 0 (c ∷ s) * 65536 ^ place + groups (place - 1) ts

abbrev network6_of : List Text → ℕ × ℕ
network6_of [] = (0, 0)
network6_of (a ∷ []) = (0, 0)
network6_of (a ∷ len ∷ rest) = (groups 7 (split b':' a), 128 - number 0 len)

-- An address is in the network of a text such as fc00::/7 if they agree before its host bits.
abbrev pub InNetwork6 : ℕ → Text → Type 0
InNetwork6 n cidr =
    let (base, host_bits) = network6_of (split b'/' cidr) in
    n / 2 ^ host_bits ≡ base / 2 ^ host_bits

v4_bits :
    (n : ℕ)
    → n < 2 ^ 32
    → (is_local_destination (v4 n) ≡ true) ↔ (
        (n ≡ 0)
        ⊎ (n / 2 ^ 24 ≡ 127)
        ⊎ (n / 2 ^ 24 ≡ 10)
        ⊎ (n / 2 ^ 20 ≡ 2753)
        ⊎ (n / 2 ^ 16 ≡ 49320)
        ⊎ (n / 2 ^ 16 ≡ 43518)
        ⊎ (n / 2 ^ 22 ≡ 401))
unfolding is_local_destination
v4_bits n h = (λ e. ground arith, λ k. ground arith)

v6_bits :
    (n : ℕ)
    → n < 2 ^ 128
    → (is_local_destination (v6 n) ≡ true)
      ↔ ((n ≡ 0) ⊎ (n ≡ 1) ⊎ (n / 2 ^ 121 ≡ 126) ⊎ (n / 2 ^ 118 ≡ 1018))
unfolding is_local_destination
v6_bits n h = (λ e. ground arith, λ k. ground arith)

-- The bits of an address fit.
abbrev pub InRange : IpAddr → Type 0
InRange (v4 n) = n < 2 ^ 32
InRange (v6 n) = n < 2 ^ 128

abbrev pub IsUnspecified : IpAddr → Type 0
IsUnspecified (v4 n) = n ≡ 0
IsUnspecified (v6 n) = n ≡ 0

-- The networks that the rules let pass.
abbrev pub Bypassed : IpAddr → Type 0
Bypassed (v4 n) = Any (InNetwork n) bypass_v4
Bypassed (v6 n) = Any (InNetwork6 n) bypass_v6

v4_networks :
    (n : ℕ)
    → ((n / 2 ^ 24 ≡ 127)
        ⊎ (n / 2 ^ 24 ≡ 10)
        ⊎ (n / 2 ^ 20 ≡ 2753)
        ⊎ (n / 2 ^ 16 ≡ 49320)
        ⊎ (n / 2 ^ 16 ≡ 43518)
        ⊎ (n / 2 ^ 22 ≡ 401))
      ↔ Any (InNetwork n) bypass_v4
unfolding split
v4_networks n = (forth, back)
  where
    forth :
        ((n / 2 ^ 24 ≡ 127)
          ⊎ (n / 2 ^ 24 ≡ 10)
          ⊎ (n / 2 ^ 20 ≡ 2753)
          ⊎ (n / 2 ^ 16 ≡ 49320)
          ⊎ (n / 2 ^ 16 ≡ 43518)
          ⊎ (n / 2 ^ 22 ≡ 401))
        → Any (InNetwork n) bypass_v4
    forth (inl e) = here e
    forth (inr (inl e)) = there (here e)
    forth (inr (inr (inl e))) = there (there (here e))
    forth (inr (inr (inr (inl e)))) = there (there (there (here e)))
    forth (inr (inr (inr (inr (inl e))))) = there (there (there (there (here e))))
    forth (inr (inr (inr (inr (inr e))))) = there (there (there (there (there (here e)))))

    back :
        Any (InNetwork n) bypass_v4
        → (n / 2 ^ 24 ≡ 127)
          ⊎ (n / 2 ^ 24 ≡ 10)
          ⊎ (n / 2 ^ 20 ≡ 2753)
          ⊎ (n / 2 ^ 16 ≡ 49320)
          ⊎ (n / 2 ^ 16 ≡ 43518)
          ⊎ (n / 2 ^ 22 ≡ 401)
    back (here e) = inl e
    back (there (here e)) = inr (inl e)
    back (there (there (here e))) = inr (inr (inl e))
    back (there (there (there (here e)))) = inr (inr (inr (inl e)))
    back (there (there (there (there (here e))))) = inr (inr (inr (inr (inl e))))
    back (there (there (there (there (there (here e)))))) = inr (inr (inr (inr (inr e))))
    back (there (there (there (there (there (there none_)))))) = elim none_ [ ]

v6_networks :
    (n : ℕ) → ((n ≡ 1) ⊎ (n / 2 ^ 121 ≡ 126) ⊎ (n / 2 ^ 118 ≡ 1018)) ↔ Any (InNetwork6 n) bypass_v6
unfolding split
v6_networks n = (forth, back)
  where
    whole : n / 2 ^ 0 ≡ n
    whole = ground arith

    forth : (n ≡ 1) ⊎ (n / 2 ^ 121 ≡ 126) ⊎ (n / 2 ^ 118 ≡ 1018) → Any (InNetwork6 n) bypass_v6
    forth (inl e) = here (whole ∙ e)
    forth (inr (inl e)) = there (here e)
    forth (inr (inr e)) = there (there (here e))

    back : Any (InNetwork6 n) bypass_v6 → (n ≡ 1) ⊎ (n / 2 ^ 121 ≡ 126) ⊎ (n / 2 ^ 118 ≡ 1018)
    back (here e) = inl (sym whole ∙ e)
    back (there (here e)) = inr (inl e)
    back (there (there (here e))) = inr (inr e)
    back (there (there (there none_))) = elim none_ [ ]

-- An address whose bits fit is local exactly if it is the unspecified one or in a network that the
-- rules of the tunnel let pass: a connection is left alone exactly if it never was to be tunnelled.
pub is_local_destination_iff :
    (ip : IpAddr) → InRange ip → (is_local_destination ip ≡ true) ↔ (IsUnspecified ip ⊎ Bypassed ip)
is_local_destination_iff (v4 n) h =
    let (to, from) = v4_bits n h in
    let (in_, out) = v4_networks n in
    (
      λ e. elim (to e) [ inl z ↦ inl z | inr k ↦ inr (in_ k) ],
      λ k. from (elim k [ inl z ↦ inl z | inr q ↦ inr (out q) ]),
    )
is_local_destination_iff (v6 n) h =
    let (to, from) = v6_bits n h in
    let (in_, out) = v6_networks n in
    (
      λ e. elim (to e) [ inl z ↦ inl z | inr k ↦ inr (in_ k) ],
      λ k. from (elim k [ inl z ↦ inl z | inr q ↦ inr (out q) ]),
    )
