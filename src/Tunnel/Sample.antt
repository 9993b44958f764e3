-- ===== src/Tunnel/Sample.antt =====
-- A small kernel for the examples: it knows the marking, the unreachable route and the rule.
use detour.Prelude.{
  All, Any, Bool, Bool-cases, List, Text, [], arith, bytes, false, get_or, here, if◌then◌else◌, inl,
  inr, refl, subst, text_eq, there, true, ◌&&◌, ◌∙◌, ◌∷◌, ◌≡◌,
}
use detour.Tunnel.Steps.{add_rule, add_unreachable}
use detour.Tunnel.Bringup.{Ran, refused, succeeded}
use detour.Tunnel.Kernel.{KernelLaws, additions, removals}

pub record Routing : Type 0 where
  pub marked : Bool
  pub unreachable : Bool
  pub ruled : Bool

abbrev pub cold : Routing
cold = record { marked = false; unreachable = false; ruled = false }

abbrev same_words : List Text → List Text → Bool
same_words [] [] = true
same_words [] (y ∷ ys) = false
same_words (x ∷ xs) [] = false
same_words (x ∷ xs) (y ∷ ys) = text_eq x y && same_words xs ys

all_of :
    (P : List Text → Type 0) {argv : List Text} (xs : List (List Text))
    → All P xs
    → Any (λ a. a ≡ argv) xs
    → P argv
all_of P (x ∷ xs) h (here e) = subst P e h.0
all_of P (x ∷ xs) h (there k) = all_of P xs h.1 k
all_of P [] h k = elim k [ ]

-- Whether `nft -f` succeeds.
module _ (loads : Bool) where
  abbrev load : Routing → Ran × Routing
  load w =
      if loads then (succeeded, record w { marked = true }) else (refused (bytes "no cgroup"), w)

  abbrev nft : List Text → Routing → Ran × Routing
  nft argv w =
      if text_eq (get_or argv 1 []) (bytes "delete")
      then (succeeded, record w { marked = false })
      else load w

  abbrev route : List Text → Routing → Ran × Routing
  route argv w =
      if same_words argv add_unreachable
      then (succeeded, record w { unreachable = true })
      else if same_words argv add_rule
      then (succeeded, record w { ruled = true })
      else if text_eq (get_or argv 3 []) (bytes "del")
      then (succeeded, record w { ruled = false })
      else if text_eq (get_or argv 3 []) (bytes "flush")
      then (succeeded, record w { unreachable = false })
      else (succeeded, w)

  unfoldable pub sample_exec : List Text → Routing → Ran × Routing
  unfolding text_eq
  sample_exec argv w = if text_eq (get_or argv 0 []) (bytes "nft") then nft argv w else route argv w

  route-marked :
      (argv : List Text) (w : Routing) → w.marked ≡ false → (route argv w).1.marked ≡ false
  route-marked argv w h = ground arith

  other_tool :
      (tool : Text) (argv : List Text) (w : Routing)
      → text_eq tool (bytes "nft") ≡ false
      → get_or argv 0 [] ≡ tool
      → w.marked ≡ false
      → (sample_exec argv w).1.marked ≡ false
  unfolding sample_exec
  other_tool tool argv w differ e h = rw (sample_exec, e, differ) (route-marked argv w h)

  load-kept :
      (w : Routing) → ((load w).1.unreachable ≡ w.unreachable) × ((load w).1.ruled ≡ w.ruled)
  load-kept w = elim (Bool-cases loads) [ inl y ↦ rw y (refl, refl) | inr n ↦ rw n (refl, refl) ]

  removals-ruled :
      (w : Routing) → w.ruled ≡ false → All (λ a. (sample_exec a w).1.ruled ≡ false) removals
  unfolding sample_exec text_eq
  removals-ruled w h = (refl, (refl, (h, (h, (h, tt)))))

  pub sample-KernelLaws :
      KernelLaws sample_exec
        (λ w. w.marked)
        (λ w. w.unreachable)
        (λ w. w.ruled)
        (bytes "/run/t.nft")
  unfolding sample_exec text_eq
  sample-KernelLaws = record {
    deleted = λ w e. refl;
    delete_marks_nothing = λ w h. refl;
    not_loaded = λ w h failed. elim (Bool-cases loads) [
      | inl yes_ ↦ absurd (failed (rw yes_ refl))
      | inr no_ ↦ rw no_ h
    ];
    ip_unmarked = λ argv w. other_tool (bytes "ip") argv w refl;
    wg_unmarked = λ argv w. other_tool (bytes "wg") argv w refl;
    route_added = λ w e. refl;
    rule_added = λ w e. refl;
    route_kept = λ argv w in_ h.
        all_of (λ a. (sample_exec a w).1.unreachable ≡ true) (additions (bytes "/run/t.nft"))
          (h, (h, (h, ((load-kept w).0 ∙ h, tt)))) in_;
    rule_kept = λ argv w in_ h.
        all_of (λ a. (sample_exec a w).1.ruled ≡ true) (additions (bytes "/run/t.nft"))
          (refl, (h, (h, ((load-kept w).1 ∙ h, tt)))) in_;
    rule_deleted = λ w e. refl;
    rule_not_added = λ argv w in_ h.
        all_of (λ a. (sample_exec a w).1.ruled ≡ false) removals (removals-ruled w h) in_;
  }
