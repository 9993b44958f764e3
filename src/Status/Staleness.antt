-- ===== src/Status/Staleness.antt =====
-- status.rs, `read_snapshot`: protection is shown as active only while the helper says so.
use detour.Prelude.{
  Bool-cases, Option, Option-cases, Text, ap, arith, false, inl, inr, ltb, refl, some, subst, sym,
  true, ℕ, ◌+◌, ◌-◌, ◌↔◌, ◌∙◌, ◌≡◌, ◌≤◌,
}
use detour.Status.{Snapshot, inactive, read_snapshot}

module _ {E : Type 0} (from_json : Text → Option (Snapshot E)) (file : Option Text)
    (now max_age : ℕ) where
  -- The file holds the snapshot `s`, which says that protection is active and is not too old.
  pub record IsFresh (s : Snapshot E) : Type 0 where
    pub text : Text
    pub there : file ≡ some text
    pub parses : from_json text ≡ some s
    pub says_active : s.active ≡ true
    pub young : now ≤ s.updated_at + max_age

  abbrev shown : Snapshot E
  shown = read_snapshot from_json file now max_age

  inactive_shown : {A : Type 0} → shown ≡ inactive → shown.active ≡ true → A
  inactive_shown e h = absurd (false_ne (sym (ap (λ x. x.active) e) ∙ h))
    where
      false_ne : false ≡ true → ⊥
      false_ne k = cc

  active→IsFresh : shown.active ≡ true → IsFresh shown
  unfolding read_snapshot
  active→IsFresh h = elim (Option-cases file) [
    | inl absent ↦ inactive_shown (rw (absent, read_snapshot) refl) h
    | inr (t, there_) ↦ elim (Option-cases (from_json t)) [
      | inl bad ↦ inactive_shown (rw (there_, bad, read_snapshot) refl) h
      | inr (s, good) ↦ elim (Bool-cases (ltb max_age (now - s.updated_at))) [
        | inl old ↦ inactive_shown (rw (there_, good, old, read_snapshot) refl) h
        | inr young_ ↦
            let whole : shown ≡ s = rw (there_, good, young_) refl in
            subst IsFresh (sym whole) (record {
              text = t;
              there = there_;
              parses = good;
              says_active = ap (λ x. x.active) (sym whole) ∙ h;
              young = ground arith;
            })
      ]
    ]
  ]

  IsFresh→shown : (s : Snapshot E) → IsFresh s → shown ≡ s
  unfolding read_snapshot
  IsFresh→shown s f =
      let fresh : ltb max_age (now - s.updated_at) ≡ false = ground (arith, f.young) in
      rw (f.there, f.parses, fresh) refl

  -- The front end shows protection as active exactly if the file is there, parses as a snapshot
  -- that says so, and was written no longer ago than the given age.
  pub read_snapshot-active_iff : (shown.active ≡ true) ↔ ((s : Snapshot E) × IsFresh s)
  read_snapshot-active_iff = (
    λ h. (shown, active→IsFresh h),
    λ (s, f). ap (λ x. x.active) (IsFresh→shown s f) ∙ f.says_active,
  )
