-- ===== src/Config/Profiles.antt =====
-- config.rs, `policy_for`: a profile adds forced names and takes none away.
use detour.Config.{AppProfile, Config, active_profile, policy_for, with_profile}
use detour.Prelude.{
  Any-append, Any-append_left, Any-append_right, List, Option, Text, [], inl, inr, none, refl, some,
  true, ◌++◌, ◌↔◌, ◌≡◌, ◌⊎◌,
}
use detour.Policy.{Policy, doh, route_labels, set_force_doh}
use detour.Policy.Routing.{CoveredBy, CoveredBy-normalise_str, Stays, route_labels_doh_iff}

-- The domains that the chosen profile forces onto DoH, if there is such a profile.
unfoldable pub profile_domains : Option AppProfile → List Text
profile_domains none = []
profile_domains (some p) = p.domains

CoveredBy-with_profile :
    (policy : Policy) (p : Option AppProfile) (name : Text)
    → CoveredBy (with_profile policy p).force_doh name
      ↔ (CoveredBy policy.force_doh name ⊎ CoveredBy (profile_domains p) name)
unfolding with_profile set_force_doh profile_domains
CoveredBy-with_profile policy none name =
    (inl, λ c. elim c [ inl old ↦ old | inr new ↦ elim new [ ] ])
CoveredBy-with_profile policy (some p) name = (
  λ c.
      Any-append policy.force_doh
        ((CoveredBy-normalise_str (policy.force_doh ++ p.domains) name).0 c),
  λ c. (CoveredBy-normalise_str (policy.force_doh ++ p.domains) name).1 (elim c [
    | inl old ↦ Any-append_left p.domains old
    | inr new ↦ Any-append_right policy.force_doh new
  ]),
)

abbrev DohReason : Policy → Option AppProfile → Text → Type 0
DohReason policy p name =
    CoveredBy policy.force_doh name
    ⊎ CoveredBy (profile_domains p) name
    ⊎ (policy.default_doh ≡ true)

-- The reasons of the extended policy are those of the old one and the profile's.
reason_iff :
    (policy : Policy) (p : Option AppProfile) (name : Text)
    → (CoveredBy (with_profile policy p).force_doh name
        ⊎ ((with_profile policy p).default_doh ≡ true))
      ↔ DohReason policy p name
reason_iff policy p name =
    let cover = CoveredBy-with_profile policy p name in
    (
      λ why. elim why [
        | inl c ↦ elim (cover.0 c) [ inl old ↦ inl old | inr new ↦ inr (inl new) ]
        | inr d ↦ inr (inr (default_kept p d))
      ],
      λ why. elim why [
        | inl old ↦ inl (cover.1 (inl old))
        | inr more ↦ elim more [
          | inl new ↦ inl (cover.1 (inr new))
          | inr d ↦ inr (default_same p d)
        ]
      ],
    )
  where
    default_kept :
        (q : Option AppProfile)
        → (with_profile policy q).default_doh ≡ true
        → policy.default_doh ≡ true
    default_kept none d = unfold with_profile in d
    default_kept (some q) d = unfold with_profile set_force_doh in d

    default_same :
        (q : Option AppProfile)
        → policy.default_doh ≡ true
        → (with_profile policy q).default_doh ≡ true
    default_same none d = unfold with_profile in d
    default_same (some q) d = unfold with_profile set_force_doh in d

force_local-with_profile :
    (policy : Policy) (p : Option AppProfile)
    → (with_profile policy p).force_local ≡ policy.force_local
unfolding with_profile set_force_doh
force_local-with_profile policy none = refl
force_local-with_profile policy (some p) = refl

-- Under a profile a name goes to DoH exactly if the network does not keep it, and the user's own
-- list, a domain of the profile or the default sends it there.
policy_for_doh_iff :
    (c : Config) (id : Option Text) (name : Text)
    → (route_labels (policy_for c id) name ≡ doh) ↔ (
        (¬ Stays c.policy name)
        × (CoveredBy c.policy.force_doh name
            ⊎ CoveredBy (profile_domains (active_profile c id)) name
            ⊎ (c.policy.default_doh ≡ true)))
unfolding policy_for
policy_for_doh_iff c id name =
    let p : Option AppProfile = active_profile c id in
    let base = route_labels_doh_iff (with_profile c.policy p) name in
    let reasons = reason_iff c.policy p name in
    let kept = force_local-with_profile c.policy p in
    (
      λ h. (λ stays. (base.0 h).0 (rw kept stays), reasons.0 (base.0 h).1),
      λ (free, why). base.1 (λ stays. free (rw kept at stays), reasons.1 why),
    )
