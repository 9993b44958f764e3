-- ===== src/Helper/Safety.antt =====
-- `attach` as a whole, whatever the calls answer and wherever it stops.
use mathlib.Core.List.{append_assoc}
use detour.Prelude.{
  All, All-imp, Any, Bool, Bool-cases, List, Option, Result, Text, [], ap, arith, bytes, err, false,
  inl, inr, none, ok, refl, some, starts_with→append, subst, sym, true, ℕ, ◌++◌, ◌==◌, ◌∙◌, ◌≡◌,
  ◌≢◌,
}
use detour.Helper.Attach.{
  AttachError, Host, Progress, Write, attach, attach_in, check_roots, lies_below, move_tree,
  reset_listed, rounds, slice_path, then_reset,
}
use detour.Helper.Owned.{Good, IsForeign, IsOurs, Kept, reset_all-Kept, rounds-Good}

module _ {W : Type 0} (host : Host W) (uid : ℕ) (roots : List ℕ) where
  -- A write that `attach` may do: not for root, into a file below the slice of the user, of a
  -- process that was the user's and descended from a root when that was last read.
  abbrev pub IsAllowedWrite : Write W → Type 0
  IsAllowedWrite e =
      (uid ≢ 0)
      × ((rest : Text) × (e.target ≡ (slice_path uid ++ bytes "/") ++ rest))
      × IsOurs host uid roots e.checked_in e.pid

module _ {W : Type 0} (host : Host W) (uid : ℕ) (hold : Text) (roots : List ℕ) (reset : Bool)
    (w : W) where
  abbrev Safe : Progress W → Type 0
  Safe p =
      All (IsAllowedWrite host uid roots) p.wrote
      × All (λ n. Any (λ e. e.pid ≡ n) p.wrote) p.moved
      × All (IsForeign p.moved) p.resets

  Kept-Safe : (p q : Progress W) → Kept host uid roots p q → Safe p → Safe q
  Kept-Safe p q kept (writes, moved, resets) = (
    subst (All (IsAllowedWrite host uid roots)) (sym kept.wrote) writes,
    subst (λ l. All (λ n. Any (λ e. e.pid ≡ n) l) q.moved) (sym kept.wrote)
        (subst (All (λ n. Any (λ e. e.pid ≡ n) p.wrote)) (sym kept.moved) moved),
    subst (λ l. All (IsForeign l) q.resets) (sym kept.moved) (kept.foreign resets),
  )

  reset_listed-Safe :
      (o : Option (List Text)) (p : Progress W) → Safe p → Safe (reset_listed host uid o p).1
  reset_listed-Safe none p safe = safe
  reset_listed-Safe (some ls) p safe = Kept-Safe p _ (reset_all-Kept host uid roots ls p) safe

  then_reset-Safe :
      (b : Bool) (x : Result AttachError (Unit {0}) × Progress W)
      → Safe x.1
      → Safe (then_reset host uid b x).1
  then_reset-Safe b (err e, p) safe = safe
  then_reset-Safe false (ok u, p) safe = safe
  then_reset-Safe true (ok u, p) safe = reset_listed-Safe (host.listing p.world) p safe

  start : Progress W
  start = record { world = w; moved = []; wrote = []; resets = []; reset_count = 0 }

  Good-Safe :
      (file rest : Text) (p : Progress W)
      → uid ≢ 0
      → file ≡ (slice_path uid ++ bytes "/") ++ rest
      → Good host uid roots file p
      → Safe p
  Good-Safe file rest p user below good = (
    All-imp (λ e (t, ours). (user, (rest, t ∙ below), ours)) p.wrote good.proper,
    good.written,
    subst (All (IsForeign p.moved)) (sym good.no_resets) tt,
  )

  move_tree-Safe :
      (path : Text) (r : Result AttachError (Unit {0}))
      → uid ≢ 0
      → lies_below path (slice_path uid) ≡ true
      → Safe (move_tree host uid path roots reset r start).1
  unfolding start lies_below
  move_tree-Safe path (err e) user below = (tt, tt, tt)
  move_tree-Safe path (ok u) user below =
      let file : Text = path ++ bytes "/cgroup.procs" in
      let (rest, e) = starts_with→append path (slice_path uid ++ bytes "/") below in
      let good =
        rounds-Good host uid roots file 5 start
          (record { proper = tt; written = tt; no_resets = refl }) in
      then_reset-Safe reset (rounds host uid file 5 roots start) (
        Good-Safe file (rest ++ bytes "/cgroup.procs") _ user
          (ap (λ l. l ++ bytes "/cgroup.procs") e
            ∙ append_assoc (slice_path uid ++ bytes "/") rest _)
          good)

  attach_in-Safe : (o : Option Text) → uid ≢ 0 → Safe (attach_in host uid o roots reset start).1
  unfolding start
  attach_in-Safe none user = (tt, tt, tt)
  attach_in-Safe (some path) user = elim (Bool-cases (lies_below path (slice_path uid))) [
    | inl below ↦ rw below (move_tree-Safe path (check_roots host uid roots w) user below)
    | inr other ↦ rw other (tt, tt, tt)
  ]

  attach-Safe : Safe (attach host uid hold roots reset w).1
  unfolding attach start
  attach-Safe = elim (Bool-cases (uid == 0)) [
    | inl root_ ↦ rw (attach, root_) (tt, tt, tt)
    | inr user ↦
        rw (attach, user)
          (attach_in-Safe (host.canonicalize hold w) (λ e. absurd (not_zero e user)))
  ]
    where
      not_zero : uid ≡ 0 → (uid == 0) ≡ false → ⊥
      not_zero e h = ground arith

  -- Each process id that `attach` writes, whatever the calls answer and wherever it stops, goes into
  -- a file below the tunnel slice of a user who is not root, and is that of a process which was the
  -- user's, and a root that was named or a descendant of one, in the world in which the round began.
  pub attach-IsAllowedWrite :
      All (IsAllowedWrite host uid roots) (attach host uid hold roots reset w).1.wrote
  attach-IsAllowedWrite = attach-Safe.0
