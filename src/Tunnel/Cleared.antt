-- ===== src/Tunnel/Cleared.antt =====
-- tunnel.rs, `down`: what it leaves marked, and whether a rule is left.
use detour.Prelude.{
  All, Any, Bool, Bool-cases, List, Text, [], arith, drop, false, here, inl, inr, refl, subst, sym,
  there, ◌∷◌, ◌≡◌,
}
use detour.Tunnel.Steps.{Step, delete_rule, delete_table, optional_step, unroute_steps}
use detour.Tunnel.Kernel.{
  CanClear, FailsClosed, IsNetwork, IsStuck, KernelLaws, Ran-cases, RuleGone, removals,
}
use detour.Tunnel.Bringup.{Machine, Ran, down, run, run_each}

module _ {W : Type 0} (exec : List Text → W → Ran × W) (marked unreachable ruled : W → Bool)
    (nft_path : Text) (laws : KernelLaws exec marked unreachable ruled nft_path) where
  abbrev pub Closed : W → Type 0
  Closed w = FailsClosed marked unreachable ruled w

  abbrev pub Off : W → Type 0
  Off w = marked w ≡ false

  -- A machine at a world with a property, whose worlds so far fail closed.
  abbrev pub At : (W → Type 0) → Machine W → Type 0
  At P m = P m.world × All Closed m.seen

  pub Off-FailsClosed : (w : W) → Off w → Closed w
  Off-FailsClosed w h k = absurd (ground (arith, h, k))

  pub network-Off : (s : Step) (w : W) → IsNetwork s → Off w → Off (exec s.argv w).1
  network-Off s w (inl e) h = laws.ip_unmarked s.argv w e h
  network-Off s w (inr e) h = laws.wg_unmarked s.argv w e h

  -- Commands of `ip` alone, whatever becomes of them.
  each-Off :
      (ss : List Step) (m : Machine W) → All IsNetwork ss → At Off m → At Off (run_each exec ss m)
  unfolding run_each run
  each-Off [] m h at = at
  each-Off (s ∷ ss) m h (off, seen) =
      let still = network-Off s m.world h.0 off in
      each-Off ss (run exec s m).1 h.1 (still, (Off-FailsClosed _ still, seen))

  deleted-Off : (w : W) → CanClear exec marked w → Off (exec delete_table w).1
  deleted-Off w (inl off) = laws.delete_marks_nothing w off
  deleted-Off w (inr gone) = laws.deleted w gone

  -- If nothing is marked, or the deletion of the table succeeds, nothing is marked after `down`, nor
  -- was on the way.
  pub down-Off :
      (m : Machine W) → CanClear exec marked m.world → All Closed m.seen → At Off (down exec m)
  unfolding down run_each run
  down-Off m clear seen =
      let off = deleted-Off m.world clear in
      each-Off unroute_steps (run exec (optional_step delete_table) m).1
        (inl refl, (inl refl, (inl refl, (inl refl, (inl refl, tt)))))
        (off, (Off-FailsClosed (exec delete_table m.world).1 off, seen))

  abbrev pub NoRule : Machine W → Type 0
  NoRule m = RuleGone exec ruled m.world m.seen

  each-NoRule :
      (ss : List Step) (m : Machine W)
      → All (λ s. Any (λ a. a ≡ s.argv) removals) ss
      → NoRule m
      → NoRule (run_each exec ss m)
  unfolding run_each run
  each-NoRule [] m h gone = gone
  each-NoRule (s ∷ ss) m h gone = each-NoRule ss (run exec s m).1 h.1 (elim gone [
    | inl off ↦ inl (laws.rule_not_added s.argv m.world h.0 off)
    | inr stuck ↦ inr (there stuck)
  ])

  -- The deletion of the rule, after that of the table has left a world.
  delete_rule-NoRule :
      (m : Machine W) (before : List W)
      → m.seen ≡ m.world ∷ before
      → NoRule (run exec (optional_step delete_rule) m).1
  unfolding run
  delete_rule-NoRule m before e = elim (Bool-cases (ruled m.world)) [
    | inr off ↦ inl (laws.rule_not_added delete_rule m.world (here refl) off)
    | inl on ↦ elim (Ran-cases (exec delete_rule m.world).0) [
      | inl fine ↦ inl (laws.rule_deleted m.world fine)
      | inr failed ↦ inr (there (subst (Any (IsStuck exec ruled)) (sym e) (here (on, failed))))
    ]
  ]

  -- After `down` no rule is left but one whose deletion failed.
  pub down-NoRule : (m : Machine W) → NoRule (down exec m)
  unfolding down run_each run
  down-NoRule m =
      let first = (run exec (optional_step delete_table) m).1 in
      each-NoRule (drop 1 unroute_steps) (run exec (optional_step delete_rule) first).1
        (
          there (here refl),
          (
            there (there (here refl)),
            (there (there (there (here refl))), (there (there (there (there (here refl)))), tt)),
          ),
        )
        (delete_rule-NoRule first m.seen refl)
