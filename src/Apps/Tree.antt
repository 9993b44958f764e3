-- ===== src/Apps/Tree.antt =====
-- `descendants` ends, and finds the processes that descend from the roots.
use mathlib.Core.List.{append-nil, append_assoc}
use detour.Prelude.{
  &&_true, ==_self, ==→eq, All, All-imp, Any, Any-append, Any-append_left, Any-append_right,
  Bool-cases, List, [], ap, arith, contains, contains_iff, false, here, if◌then◌else◌, inl, inr,
  length, length-append, not, refl, subst, suc, sym, there, true, ℕ, ◌&&◌, ◌++◌, ◌+◌, ◌<◌, ◌==◌,
  ◌∙◌, ◌∷◌, ◌≡◌, ◌≤◌, ◌⊎◌,
}
use detour.Apps.{adopt, sweep}

-- A process that is a root, or a child of one that descends from a root.
pub data Descends (roots : List ℕ) (table : List (ℕ × ℕ)) : ℕ → Type 0 where
  root : {p : ℕ} → Any (λ x. x ≡ p) roots → Descends roots table p
  child : {p q : ℕ} → Any (λ e. e ≡ (p, q)) table → Descends roots table q → Descends roots table p

-- The pairs whose process is not found yet.
abbrev pub missing : List (ℕ × ℕ) → List ℕ → ℕ
missing [] out = 0
missing (e ∷ table) out = if contains out e.0 then missing table out else suc (missing table out)

abbrev pub Found : List ℕ → ℕ → Type 0
Found out p = Any (λ x. x ≡ p) out

contains_more : (out : List ℕ) (p q : ℕ) → contains out q ≡ true → contains (out ++ p ∷ []) q ≡ true
contains_more out p q h =
    (contains_iff (out ++ p ∷ []) q).1 (Any-append_left (p ∷ []) ((contains_iff out q).0 h))

contains_new : (out : List ℕ) (p : ℕ) → contains (out ++ p ∷ []) p ≡ true
contains_new out p = (contains_iff (out ++ p ∷ []) p).1 (Any-append_right out (here refl))

missing_mono :
    (table : List (ℕ × ℕ)) (out : List ℕ) (p : ℕ)
    → missing table (out ++ p ∷ []) ≤ missing table out
missing_mono [] out p = omega arith
missing_mono (e ∷ table) out p = ground (arith, missing_mono table out p, contains_more out p e.0)

-- One that is added is missing no more.
missing_less :
    (table : List (ℕ × ℕ)) (out : List ℕ) (p q : ℕ)
    → Any (λ e. e ≡ (p, q)) table
    → contains out p ≡ false
    → missing table (out ++ p ∷ []) < missing table out
missing_less [] out p q h new = elim h [ ]
missing_less (e ∷ table) out p q (here same) new =
    let first : e.0 ≡ p = ap (λ x. x.0) same in
    rw (first, new, contains_new out p) (omega (arith, missing_mono table out p))
missing_less (e ∷ table) out p q (there later) new =
    ground (
      arith,
      missing_less table out p q later new,
      missing_mono table out p,
      contains_more out p e.0,
    )

module _ (table : List (ℕ × ℕ)) where
  -- The work left when the list is `out`.
  abbrev pub work : List ℕ → ℕ
  work out = length out + missing table out

  adopt-work :
      (parent : ℕ) (e : ℕ × ℕ) (out : List ℕ)
      → Any (λ x. x ≡ e) table
      → work (adopt parent e out) ≤ work out
  unfolding adopt
  adopt-work parent (p, q) out here_ =
      ground (arith, missing_less table out p q here_, length-append out (p ∷ []))

  pub sweep-work :
      (parent : ℕ) (part : List (ℕ × ℕ)) (out : List ℕ)
      → All (λ e. Any (λ x. x ≡ e) table) part
      → work (sweep parent part out) ≤ work out
  unfolding sweep
  sweep-work parent [] out h = omega arith
  sweep-work parent (e ∷ part) out h =
      omega (arith, sweep-work parent part (adopt parent e out) h.1, adopt-work parent e out h.0)

  adopt-kept :
      (parent : ℕ) (e : ℕ × ℕ) (out : List ℕ) (c : ℕ) → Found out c → Found (adopt parent e out) c
  unfolding adopt
  adopt-kept parent (p, q) out c h = elim (Bool-cases (q == parent && not (contains out p))) [
    | inl yes_ ↦ rw yes_ (Any-append_left (p ∷ []) h)
    | inr no_ ↦ rw no_ h
  ]

  adopt-found : (parent p : ℕ) (out : List ℕ) → Found (adopt parent (p, parent) out) p
  unfolding adopt
  adopt-found parent p out = elim (Bool-cases (contains out p)) [
    | inl old ↦ rw (==_self parent, old) ((contains_iff out p).0 old)
    | inr new ↦ rw (==_self parent, new) (Any-append_right out (here refl))
  ]

  adopt_sound :
      (parent : ℕ) (e : ℕ × ℕ) (out : List ℕ) (c : ℕ)
      → Found (adopt parent e out) c
      → Found out c ⊎ (e ≡ (c, parent))
  unfolding adopt
  adopt_sound parent (p, q) out c h = elim (Bool-cases (q == parent && not (contains out p))) [
    | inl yes_ ↦ elim (Any-append out (rw yes_ at h)) [
      | inl old ↦ inl old
      | inr new ↦ inr (pair_eq (Any-one new) (==→eq q parent (&&_true _ _ yes_).0))
    ]
    | inr no_ ↦ inl (rw no_ at h)
  ]
    where
      pair_eq : p ≡ c → q ≡ parent → ◌≡◌ {A = ℕ × ℕ} (p, q) (c, parent)
      pair_eq a b = cc

      Any-one : Any (λ x. x ≡ c) (p ∷ []) → p ≡ c
      Any-one (here e) = e
      Any-one (there e) = elim e [ ]

  pub sweep-kept :
      (parent : ℕ) (part : List (ℕ × ℕ)) (out : List ℕ) (c : ℕ)
      → Found out c
      → Found (sweep parent part out) c
  unfolding sweep
  sweep-kept parent [] out c h = h
  sweep-kept parent (e ∷ part) out c h =
      sweep-kept parent part (adopt parent e out) c (adopt-kept parent e out c h)

  pub sweep-found :
      (parent p : ℕ) (part : List (ℕ × ℕ)) (out : List ℕ)
      → Any (λ e. e ≡ (p, parent)) part
      → Found (sweep parent part out) p
  unfolding sweep
  sweep-found parent p [] out h = elim h [ ]
  sweep-found parent p (e ∷ part) out (here same) =
      sweep-kept parent part (adopt parent e out) p
        (subst (λ x. Found (adopt parent x out) p) (sym same) (adopt-found parent p out))
  sweep-found parent p (e ∷ part) out (there later) =
      sweep-found parent p part (adopt parent e out) later

  pub sweep_sound :
      (parent : ℕ) (part : List (ℕ × ℕ)) (out : List ℕ) (c : ℕ)
      → Found (sweep parent part out) c
      → Found out c ⊎ Any (λ e. e ≡ (c, parent)) part
  unfolding sweep
  sweep_sound parent [] out c h = inl h
  sweep_sound parent (e ∷ part) out c h = elim (sweep_sound parent part (adopt parent e out) c h) [
    | inl before ↦ elim (adopt_sound parent e out c before) [
      | inl old ↦ inl old
      | inr now ↦ inr (here now)
    ]
    | inr later ↦ inr (there later)
  ]

  adopt-extends :
      (parent : ℕ) (e : ℕ × ℕ) (out : List ℕ) → (new : List ℕ) × (adopt parent e out ≡ out ++ new)
  unfolding adopt
  adopt-extends parent (p, q) out = elim (Bool-cases (q == parent && not (contains out p))) [
    | inl yes_ ↦ (p ∷ [], rw yes_)
    | inr no_ ↦ ([], rw no_ (sym (append-nil out)))
  ]

  pub sweep-extends :
      (parent : ℕ) (part : List (ℕ × ℕ)) (out : List ℕ)
      → (new : List ℕ) × (sweep parent part out ≡ out ++ new)
  unfolding sweep
  sweep-extends parent [] out = ([], sym (append-nil out))
  sweep-extends parent (e ∷ part) out =
      let (a, ea) = adopt-extends parent e out in
      let (b, eb) = sweep-extends parent part (adopt parent e out) in
      (a ++ b, eb ∙ ap (λ l. l ++ b) ea ∙ append_assoc out a b)

pub All-self : {A : Type 0} (xs : List A) → All (λ e. Any (λ x. x ≡ e) xs) xs
All-self [] = tt
All-self (x ∷ xs) = (here refl, All-imp (λ e h. there h) xs (All-self xs))
