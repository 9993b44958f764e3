-- ===== src/FilterRoute/Rollback.antt =====
-- What is redirected after `filter-route up` and `filter-route down`.
use detour.FilterRoute.{
  FilterError, delete_filter, filter_route_down, filter_route_up, install_steps, run_ignored,
  up_steps,
}
use detour.Prelude.{
  Bool, Bool-cases, List, Result, Text, arith, err, err_ne_ok, false, inl, inr, ok, refl, sym, ℕ,
  ◌==◌, ◌∙◌, ◌≡◌, ◌≢◌, ◌⊎◌,
}
use detour.Tunnel.Steps.{load_rules}
use detour.Tunnel.Bringup.{Ran, not_spawned, refused, succeeded}

-- What `nft` documents, for a world that can be asked whether the slice is redirected. A deletion of
-- the table that succeeds ends the redirect, and none begins it; a file is loaded as one transaction,
-- so that a failure to load it begins no redirect.
pub record FilterLaws {W : Type 0} (exec : List Text → W → Ran × W) (redirected : W → Bool)
    (nft_path : Text) : Type 0 where
  pub deleted :
      (w : W) → (exec delete_filter w).0 ≡ succeeded → redirected (exec delete_filter w).1 ≡ false
  pub delete_adds_nothing :
      (w : W) → redirected w ≡ false → redirected (exec delete_filter w).1 ≡ false
  pub not_loaded :
      (w : W)
      → redirected w ≡ false
      → (exec (load_rules nft_path) w).0 ≢ succeeded
      → redirected (exec (load_rules nft_path) w).1 ≡ false

Ran-cases : (r : Ran) → (r ≡ succeeded) ⊎ ((e : Text) × (r ≡ refused e)) ⊎ (r ≡ not_spawned)
Ran-cases succeeded = inl refl
Ran-cases (refused e) = inr (inl (e, refl))
Ran-cases not_spawned = inr (inr refl)

module _ {W : Type 0} (exec : List Text → W → Ran × W) (redirected : W → Bool) (nft_path : Text)
    (laws : FilterLaws exec redirected nft_path) where
  -- No earlier redirect is in place, or the deletion of one at this world succeeds.
  abbrev pub CanClear : W → Type 0
  CanClear w = (redirected w ≡ false) ⊎ ((exec delete_filter w).0 ≡ succeeded)

  -- After `down` nothing is redirected, if what was could be deleted.
  pub filter_route_down_off : (w : W) → CanClear w → redirected (filter_route_down exec w) ≡ false
  unfolding filter_route_down run_ignored
  filter_route_down_off w (inl off) = laws.delete_adds_nothing w off
  filter_route_down_off w (inr gone) = laws.deleted w gone

  abbrev EndsOff : Result FilterError (Unit {0}) × W → Type 0
  EndsOff (ok u, w) = Unit {0}
  EndsOff (err e, w) = redirected w ≡ false

  not_started : not_spawned ≢ succeeded
  not_started e = cc

  not_refused : (t : Text) → refused t ≢ succeeded
  not_refused t e = cc

  install_steps-EndsOff :
      (w : W) → redirected w ≡ false → EndsOff (install_steps exec (up_steps nft_path) w)
  unfolding install_steps run_ignored
  install_steps-EndsOff w off = elim (Ran-cases (exec (load_rules nft_path) w).0) [
    | inl e ↦ rw (install_steps, e) tt
    | inr (inl (t, e)) ↦
        rw (install_steps, e)
          (laws.delete_adds_nothing (exec (load_rules nft_path) w).1
            (laws.not_loaded w off (λ k. not_refused t (sym e ∙ k))))
    | inr (inr e) ↦ rw (install_steps, e) (laws.not_loaded w off (λ k. not_started (sym e ∙ k)))
  ]

  filter_route_up-EndsOff :
      (uid : ℕ) (dir_made written : Bool) (w : W)
      → uid ≢ 0
      → CanClear w
      → EndsOff (filter_route_up exec uid dir_made written nft_path w)
  unfolding filter_route_up filter_route_down run_ignored
  filter_route_up-EndsOff uid dir_made written w user clear =
      let off = filter_route_down_off w clear in
      rw (filter_route_up, other_user)
        (elim (Bool-cases dir_made) [
          | inr no_dir_ ↦ rw no_dir_ off
          | inl made ↦ rw made (elim (Bool-cases written) [
            | inr no_file_ ↦ rw no_file_ off
            | inl there_ ↦ rw there_ (install_steps-EndsOff (exec delete_filter w).1 off)
          ])
        ])
    where
      other_user : (uid == 0) ≡ false
      other_user = ground (arith, user)

  off_of_err :
      (x : Result FilterError (Unit {0}) × W) (e : FilterError)
      → EndsOff x
      → x.0 ≡ err e
      → redirected x.1 ≡ false
  off_of_err (ok u, w) e h f = absurd (err_ne_ok (sym f))
  off_of_err (err f, w) e h g = h

  -- If no earlier redirect is in place or the first deletion succeeds, then after every failure of
  -- `up` for a user who is not root, whether the directory or the file cannot be written, `nft` refuses
  -- the file or cannot be started, and however the deletion on a failure ends, nothing is redirected.
  pub filter_route_up-err :
      (uid : ℕ) (dir_made written : Bool) (w : W) (e : FilterError)
      → uid ≢ 0
      → CanClear w
      → (filter_route_up exec uid dir_made written nft_path w).0 ≡ err e
      → redirected (filter_route_up exec uid dir_made written nft_path w).1 ≡ false
  filter_route_up-err uid dir_made written w e user clear =
      off_of_err (filter_route_up exec uid dir_made written nft_path w) e
        (filter_route_up-EndsOff uid dir_made written w user clear)
