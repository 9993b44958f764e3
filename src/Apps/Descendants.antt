-- ===== src/Apps/Descendants.antt =====
-- `descendants`: the loop over the list that it extends.
use mathlib.Core.List.{append-nil, append_assoc}
use detour.Prelude.{
  Any, Any-append, Any-append_right, List, Option, [], ap, arith, get_elem?-end, get_elem?-length,
  here, inl, inr, length, length-append, refl, some, subst, suc, sym, there, zero, ℕ, ◌++◌, ◌+◌,
  ◌<◌, ◌↔◌, ◌∙◌, ◌∷◌, ◌≡◌, ◌≤◌,
}
use detour.Apps.{descendants, grow, sweep}
use detour.Apps.Tree.{
  All-self, Descends, Found, child, missing, root, sweep-extends, sweep-found, sweep-kept,
  sweep-work, sweep_sound,
}

module _ (roots : List ℕ) (table : List (ℕ × ℕ)) where
  -- What holds when the loop is about to visit `todo`.
  record Inv (done todo : List ℕ) : Type 0 where
    pub sound : (p : ℕ) → Found (done ++ todo) p → Descends roots table p
    pub rooted : (p : ℕ) → Found roots p → Found (done ++ todo) p
    pub closed : (p q : ℕ) → Found done q → Any (λ e. e ≡ (p, q)) table → Found (done ++ todo) p

  start-Inv : Inv [] roots
  start-Inv = record { sound = λ p h. root h; rooted = λ p h. h; closed = λ p q h e. elim h [ ] }

  -- What is found at the end is what descends from the roots.
  complete : (done : List ℕ) → Inv done [] → (p : ℕ) → Descends roots table p → Found done p
  complete done inv p (root h) = subst (λ l. Found l p) (append-nil done) (inv.rooted p h)
  complete done inv p (child {q = q} e d) =
      subst (λ l. Found l p) (append-nil done) (inv.closed p q (complete done inv q d) e)

  -- A round, which visits `q`.
  round-Inv :
      (done rest new : List ℕ) (q : ℕ)
      → sweep q table (done ++ q ∷ rest) ≡ done ++ (q ∷ (rest ++ new))
      → Inv done (q ∷ rest)
      → Inv (done ++ q ∷ []) (rest ++ new)
  round-Inv done rest new q e inv = record {
    sound = λ p h. elim (sweep_sound table q table out p (back p h)) [
      | inl old ↦ inv.sound p old
      | inr edge ↦ child edge (inv.sound q (Any-append_right done (here refl)))
    ];
    rooted = λ p h. forth p (sweep-kept table q table out p (inv.rooted p h));
    closed = λ p r h edge. elim (Any-append done h) [
      | inl before ↦ forth p (sweep-kept table q table out p (inv.closed p r before edge))
      | inr (here now) ↦ forth p (
          sweep-found table q p table out (subst (λ x. Any (λ y. y ≡ (p, x)) table) (sym now) edge))
      | inr (there none_) ↦ elim none_ [ ]
    ];
  }
    where
      out : List ℕ
      out = done ++ q ∷ rest

      same : sweep q table out ≡ (done ++ q ∷ []) ++ (rest ++ new)
      same = e ∙ sym (append_assoc done (q ∷ []) (rest ++ new))

      forth : (p : ℕ) → Found (sweep q table out) p → Found ((done ++ q ∷ []) ++ (rest ++ new)) p
      forth p h = subst (λ l. Found l p) same h

      back : (p : ℕ) → Found ((done ++ q ∷ []) ++ (rest ++ new)) p → Found (sweep q table out) p
      back p h = subst (λ l. Found l p) (sym same) h

  abbrev Ends : Option (List ℕ) → Type 0
  Ends r = (out : List ℕ) × (r ≡ some out) × ((p : ℕ) → Found out p ↔ Descends roots table p)

  finish :
      (fuel : ℕ) (done : List ℕ)
      → Inv done []
      → Ends (grow table (suc fuel) (length done) (done ++ []))
  unfolding grow
  finish fuel done inv =
      subst (λ l. Ends (grow table (suc fuel) (length done) l)) (sym (append-nil done))
        (rw (grow, get_elem?-end done)
          (
            done,
            refl,
            λ p. (
              λ h. inv.sound p (subst (λ l. Found l p) (sym (append-nil done)) h),
              complete done inv p,
            ),
          ))

  loop_lem :
      (fuel : ℕ) (done todo : List ℕ)
      → length todo + missing table (done ++ todo) < fuel
      → Inv done todo
      → Ends (grow table fuel (length done) (done ++ todo))
  unfolding grow
  loop_lem zero done todo h inv = absurd (omega arith)
  loop_lem (suc fuel) done [] h inv = finish fuel done inv
  loop_lem (suc fuel) done (q ∷ rest) h inv =
      let out : List ℕ = done ++ q ∷ rest in
      let (new, e) = sweep-extends table q table out in
      let grown : sweep q table out ≡ done ++ (q ∷ (rest ++ new)) =
        e ∙ append_assoc done (q ∷ rest) new in
      let regroup : sweep q table out ≡ (done ++ q ∷ []) ++ (rest ++ new) =
        grown ∙ sym (append_assoc done (q ∷ []) (rest ++ new)) in
      let less : length (rest ++ new) + missing table ((done ++ q ∷ []) ++ (rest ++ new)) < fuel =
        omega (
          arith,
          ap length regroup,
          ap (missing table) regroup,
          sweep-work table q table out (All-self table),
          length-append done (q ∷ rest),
          length-append (done ++ q ∷ []) (rest ++ new),
          length-append done (q ∷ []),
        ) in
      rw (grow, get_elem?-length done q rest)
        (subst (λ l. Ends (grow table fuel (suc (length done)) l)) (sym regroup)
          (subst (λ n. Ends (grow table fuel n ((done ++ q ∷ []) ++ (rest ++ new))))
            (omega (arith, length-append done (q ∷ [])))
            (loop_lem fuel (done ++ q ∷ []) (rest ++ new) less
              (round-Inv done rest new q grown inv))))

missing-le : (table : List (ℕ × ℕ)) (out : List ℕ) → missing table out ≤ length table
missing-le [] out = omega arith
missing-le (e ∷ table) out = ground (arith, missing-le table out)

-- `descendants` ends, with a list that has exactly the roots and the processes that descend from
-- one of them by the pairs of the table, cycles among the pairs or not.
pub descendants_iff :
    (roots : List ℕ) (table : List (ℕ × ℕ))
    → (out : List ℕ) × (descendants roots table ≡ some out)
      × ((p : ℕ) → Found out p ↔ Descends roots table p)
unfolding descendants
descendants_iff roots table =
    loop_lem roots table (suc (length roots + length table)) [] roots
      (omega (arith, missing-le table roots)) (start-Inv roots table)
