-- ===== src/Apps/Capture.antt =====
-- The capture of a Flatpak app ends.
use detour.Prelude.{
  Bool-cases, List, Option, Option-cases, Text, [], arith, false, inl, inr, ltb, none, refl, some,
  suc, zero, ℕ, ◌*◌, ◌+◌, ◌-◌, ◌/◌, ◌∷◌, ◌≡◌, ◌≤◌, ◌⊎◌,
}
use detour.Apps.Scopes.{
  Machine, Moving, capture_flatpak, capture_loop, denied, done, flatpak_scopes, gone, last_of,
  migrate, migrate_loop, procs, settled, sweep_scopes,
}

-- A sleep takes its five milliseconds, and the clock does not go back in a write.
pub record ClockLaws {W : Type 0} (machine : Machine W) : Type 0 where
  pub sleeps : (w : W) → machine.now w + 5 ≤ machine.now (machine.sleep w)
  pub writes :
      (target : Text) (pid : ℕ) (w : W)
      → machine.now w ≤ machine.now (machine.write_pid target pid w).1

Moving-cases : (m : Moving) → (m ≡ done) ⊎ (m ≡ gone) ⊎ (m ≡ denied)
Moving-cases done = inl refl
Moving-cases gone = inr (inl refl)
Moving-cases denied = inr (inr refl)

module _ {W : Type 0} (machine : Machine W) (laws : ClockLaws machine) where
  migrate_loop-now :
      (target : Text) (pids : List ℕ) (moved : ℕ) (w : W)
      → machine.now w ≤ machine.now (migrate_loop machine target pids moved w).1
  unfolding migrate_loop
  migrate_loop-now target [] moved w = omega arith
  migrate_loop-now target (pid ∷ pids) moved w =
      let w' = (machine.write_pid target pid w).1 in
      let step_ = laws.writes target pid w in
      elim (Moving-cases (machine.write_pid target pid w).0) [
        | inl e ↦
            rw (migrate_loop, e) (omega (arith, step_, migrate_loop-now target pids (suc moved) w'))
        | inr (inl e) ↦
            rw (migrate_loop, e) (omega (arith, step_, migrate_loop-now target pids moved w'))
        | inr (inr e) ↦ rw (migrate_loop, e) step_
      ]

  migrate-now : (from to : Text) (w : W) → machine.now w ≤ machine.now (migrate machine from to w).1
  unfolding migrate
  migrate-now from to w = migrate_loop-now _ (procs machine from w) 0 w

  sweep_scopes-now :
      (scopes : List Text) (hold : Text) (n : ℕ) (w : W)
      → machine.now w ≤ machine.now (sweep_scopes machine scopes hold n w).1
  unfolding sweep_scopes
  sweep_scopes-now [] hold n w = omega arith
  sweep_scopes-now (scope ∷ scopes) hold n w =
      let w' = (migrate machine scope hold w).1 in
      let step_ = migrate-now scope hold w in
      elim (Option-cases (migrate machine scope hold w).0) [
        | inl e ↦ rw (sweep_scopes, e) step_
        | inr (k, e) ↦
            rw (sweep_scopes, e) (omega (arith, step_, sweep_scopes-now scopes hold (n + k) w'))
      ]

  module _ (base app_id hold : Text) (start timeout settle : ℕ) where
    abbrev swept : W → Option ℕ × W
    swept w = sweep_scopes machine (flatpak_scopes machine base app_id w) hold 0 w

    later : (w : W) → machine.now w + 5 ≤ machine.now (machine.sleep (swept w).1)
    later w = omega (
      arith,
      sweep_scopes-now (flatpak_scopes machine base app_id w) hold 0 w,
      laws.sleeps (swept w).1,
    )

    -- Each round takes five milliseconds off what is left of the time.
    capture_loop-ends :
        (f moved : ℕ) (last_move : Option ℕ) (w : W)
        → start ≤ machine.now w
        → timeout ≤ (machine.now w - start) + 5 * f
        → (x : Option ℕ × W) × (capture_loop machine base app_id hold start timeout settle
              (suc f)
              moved
              last_move
              w
            ≡ some x)
    unfolding capture_loop
    capture_loop-ends zero moved last_move w begun enough =
        let late : ltb (machine.now w - start) timeout ≡ false = ground arith in
        ((some moved, w), rw (capture_loop, late) refl)
    capture_loop-ends (suc f) moved last_move w begun enough =
        elim (Bool-cases (ltb (machine.now w - start) timeout)) [
          | inr late ↦ ((some moved, w), rw (capture_loop, late) refl)
          | inl early ↦ elim (Option-cases (swept w).0) [
            | inl failed ↦ ((none, (swept w).1), rw (capture_loop, early, failed) refl)
            | inr (n, moved_) ↦
                let last = last_of machine n last_move (swept w).1 in
                elim (Bool-cases (settled machine settle last (swept w).1)) [
                  | inl quiet ↦ (
                    (some (moved + n), (swept w).1),
                    rw (capture_loop, early, moved_, quiet) refl,
                  )
                  | inr busy ↦
                      let (x, e) =
                        capture_loop-ends f (moved + n) last (machine.sleep (swept w).1)
                          (omega (arith, later w)) (omega (arith, later w)) in
                      (x, rw (capture_loop, early, moved_, busy) e)
                ]
          ]
        ]

  -- The capture ends, with an error of a move or with the number of processes moved, whatever the
  -- directories show and the writes answer, if a sleep takes its time and the clock does not go back.
  pub capture_flatpak_ends :
      (base app_id hold : Text) (timeout settle : ℕ) (w : W)
      → (x : Option ℕ × W) × (capture_flatpak machine base app_id hold timeout settle w ≡ some x)
  unfolding capture_flatpak
  capture_flatpak_ends base app_id hold timeout settle w =
      capture_loop-ends base app_id hold (machine.now w) timeout settle (suc (timeout / 5)) 0 none w
        (omega arith) (omega arith)
