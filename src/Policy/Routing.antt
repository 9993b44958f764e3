-- ===== src/Policy/Routing.antt =====
-- policy.rs, `Policy::route` and `set_force_doh`: the order in which the rules decide.
use detour.Prelude.{
  Any, Any-map, Any-unmap, Bool, Bool-cases, List, Text, [], any, any_iff, ap, arith, has_byte,
  has_byte_iff, if◌then◌else◌, inl, inr, map, refl, sym, to_ascii_lowercase, true, ◌++◌, ◌↔◌, ◌∙◌,
  ◌∷◌, ◌≡◌, ◌≢◌, ◌⊎◌,
}
use detour.Policy.{
  Policy, doh, is_builtin_local, is_private_reverse, local_suffixes, normalise, normalise_str,
  route, route_labels, suffix_matches, system_upstream,
}
use detour.Policy.Normal.{normalise_str-dot, normalise_str-lowercase, normalise_str_idem}
use detour.Policy.Suffix.{Covers, suffix_matches_iff}

-- One of the rules covers the name.
abbrev pub CoveredBy : List Text → Text → Type 0
CoveredBy rules name = Any (λ rule. Covers (normalise_str rule) name) rules

-- Names that only the local network knows: under a local suffix, of one label, or a reverse zone
-- of a private range.
pub data BuiltinLocal (name : Text) : Type 0 where
  suffix : CoveredBy local_suffixes name → BuiltinLocal name
  single : ((a b : Text) → name ≢ a ++ b'.' ∷ b) → BuiltinLocal name
  reverse_zone : is_private_reverse name ≡ true → BuiltinLocal name

pub any-covered :
    (rules : List Text) (name : Text)
    → (any (suffix_matches name) rules ≡ true) ↔ CoveredBy rules name
any-covered rules name = any_iff (suffix_matches name) (suffix_matches_iff name) rules

builtin→local : (name : Text) → is_builtin_local name ≡ true → BuiltinLocal name
unfolding is_builtin_local
builtin→local name h = elim (Bool-cases (any (suffix_matches name) local_suffixes)) [
  | inl covered ↦ suffix ((any-covered local_suffixes name).0 covered)
  | inr plain ↦ elim (Bool-cases (has_byte b'.' name)) [
    | inl dotted ↦ reverse_zone (rw (plain, dotted) at h)
    | inr one_label ↦ single (λ a b e. cc (one_label, (has_byte_iff b'.' name).1 (a, b, e)))
  ]
]

local→builtin : (name : Text) → BuiltinLocal name → is_builtin_local name ≡ true
unfolding is_builtin_local
local→builtin name (suffix c) = rw ((any-covered local_suffixes name).1 c) refl
local→builtin name (single none_dotted) = elim (Bool-cases (has_byte b'.' name)) [
  | inl dotted ↦ let (a, b, e) = (has_byte_iff b'.' name).0 dotted in absurd (none_dotted a b e)
  | inr one_label ↦ rw one_label (if_same (any (suffix_matches name) local_suffixes))
]
  where
    if_same : (b : Bool) → (if b then true else true) ≡ true
    if_same b = ground arith
local→builtin name (reverse_zone r) = ground (arith)

pub is_builtin_local_iff : (name : Text) → (is_builtin_local name ≡ true) ↔ BuiltinLocal name
is_builtin_local_iff name = (builtin→local name, local→builtin name)

-- The names that a policy keeps on the network's own resolver whatever else it says.
abbrev pub Stays : Policy → Text → Type 0
Stays policy name = CoveredBy policy.force_local name ⊎ BuiltinLocal name

pub route-Stays :
    (policy : Policy) (name : Text) → Stays policy name → route_labels policy name ≡ system_upstream
unfolding route_labels
route-Stays policy name (inl c) = rw ((any-covered policy.force_local name).1 c) refl
route-Stays policy name (inr b) =
    rw (local→builtin name b) (if_same (any (suffix_matches name) policy.force_local))
  where
    if_same : (t : Bool) → (if t then system_upstream else system_upstream) ≡ system_upstream
    if_same t = ground arith

route_forced :
    (policy : Policy) (name : Text)
    → ¬ Stays policy name
    → CoveredBy policy.force_doh name
    → route_labels policy name ≡ doh
unfolding route_labels
route_forced policy name free c = elim (Bool-cases (any (suffix_matches name) policy.force_local)) [
  | inl kept ↦ absurd (free (inl ((any-covered policy.force_local name).0 kept)))
  | inr open_ ↦ elim (Bool-cases (is_builtin_local name)) [
    | inl kept ↦ absurd (free (inr (builtin→local name kept)))
    | inr public ↦ rw (open_, public, (any-covered policy.force_doh name).1 c) refl
  ]
]

route_default :
    (policy : Policy) (name : Text)
    → ¬ Stays policy name
    → policy.default_doh ≡ true
    → route_labels policy name ≡ doh
unfolding route_labels
route_default policy name free d =
    elim (Bool-cases (any (suffix_matches name) policy.force_local)) [
      | inl kept ↦ absurd (free (inl ((any-covered policy.force_local name).0 kept)))
      | inr open_ ↦ elim (Bool-cases (is_builtin_local name)) [
        | inl kept ↦ absurd (free (inr (builtin→local name kept)))
        | inr public ↦ rw (open_, public, d) (if_same (any (suffix_matches name) policy.force_doh))
      ]
    ]
  where
    if_same : (t : Bool) → (if t then doh else doh) ≡ doh
    if_same t = ground arith

doh_reason :
    (policy : Policy) (name : Text)
    → route_labels policy name ≡ doh
    → CoveredBy policy.force_doh name ⊎ (policy.default_doh ≡ true)
unfolding route_labels
doh_reason policy name h = elim (Bool-cases (any (suffix_matches name) policy.force_doh)) [
  | inl c ↦ inl ((any-covered policy.force_doh name).0 c)
  | inr other ↦ inr (ground arith)
]

-- The labels that go to DoH: not kept local, and forced there or there by default.
pub route_labels_doh_iff :
    (policy : Policy) (name : Text)
    → (route_labels policy name ≡ doh)
      ↔ ((¬ Stays policy name) × (CoveredBy policy.force_doh name ⊎ (policy.default_doh ≡ true)))
route_labels_doh_iff policy name = (
  λ h. (λ stays. system_ne_doh (sym (route-Stays policy name stays) ∙ h), doh_reason policy name h),
  λ (free, why). elim why [
    | inl c ↦ route_forced policy name free c
    | inr d ↦ route_default policy name free d
  ],
)
  where
    system_ne_doh : system_upstream ≡ doh → ⊥
    system_ne_doh e = cc

module _ {Name : Type 0} (to_ascii : Name → Text) where
  -- A query goes to DoH exactly if no local rule and no built-in local zone covers its name, and
  -- a forced-DoH rule covers it or DoH is the default.
  pub route_doh_iff :
      (policy : Policy) (name : Name)
      → (route to_ascii policy name ≡ doh) ↔ (
          (¬ Stays policy (normalise to_ascii name))
          × (CoveredBy policy.force_doh (normalise to_ascii name) ⊎ (policy.default_doh ≡ true)))
  unfolding route
  route_doh_iff policy name = route_labels_doh_iff policy (normalise to_ascii name)

  -- The case of a name, and a dot at its end, do not change where it goes.
  route_case_dot :
      (policy : Policy) (name name' : Name)
      → (to_ascii_lowercase (to_ascii name) ≡ to_ascii_lowercase (to_ascii name'))
        ⊎ (to_ascii name' ≡ to_ascii name ++ b'.' ∷ [])
      → route to_ascii policy name ≡ route to_ascii policy name'
  unfolding route
  route_case_dot policy name name' (inl e) = ap (route_labels policy) (
      sym (normalise_str-lowercase (to_ascii name))
      ∙ ap normalise_str e
      ∙ normalise_str-lowercase (to_ascii name'))
  route_case_dot policy name name' (inr e) =
      ap (route_labels policy) (sym (normalise_str-dot (to_ascii name)) ∙ ap normalise_str (sym e))

-- Normalising the rules does not change what they cover.
pub CoveredBy-normalise_str :
    (rules : List Text) (name : Text)
    → CoveredBy (map normalise_str rules) name ↔ CoveredBy rules name
CoveredBy-normalise_str rules name = (
  Any-map normalise_str (λ r c. rw normalise_str_idem at c) rules,
  Any-unmap normalise_str (λ r c. rw normalise_str_idem c),
)
