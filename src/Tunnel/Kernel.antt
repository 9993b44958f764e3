-- ===== src/Tunnel/Kernel.antt =====
-- The commands of the tunnel, and what the kernel tools document of them.
use detour.Prelude.{
  All, All-append, Any, Bool, List, Text, [], ap, bytes, err, err_ne_ok, false, get_or, inl, inr,
  map, ok, refl, show_uint, sym, true, ◌++◌, ◌∙◌, ◌∷◌, ◌≡◌, ◌≢◌, ◌⊎◌,
}
use detour.Tunnel.{WgConfig}
use detour.Tunnel.Steps.{
  Step, add_rule, add_rule_v6, add_unreachable, add_unreachable_v6, address_step, delete_rule,
  delete_table, line, link_steps, load_rules, mtu_of, step, unroute_steps,
}
use detour.Tunnel.Bringup.{Ran, UpError, not_spawned, refused, step_result, succeeded}

-- The commands that follow the unreachable route.
abbrev pub additions : Text → List (List Text)
additions nft_path = add_rule ∷ add_unreachable_v6 ∷ add_rule_v6 ∷ load_rules nft_path ∷ []

-- The commands that follow the deletion of the nftables table in `down`.
abbrev pub removals : List (List Text)
removals = map (λ s. s.argv) unroute_steps

-- What `nft` and `ip` document, for a world in which it can be asked whether packets of the slice
-- are marked, whether the table has the unreachable route, and whether a rule sends marked packets to
-- the table. No other rule has the priority of that one.
pub record KernelLaws {W : Type 0} (exec : List Text → W → Ran × W)
    (marked unreachable ruled : W → Bool) (nft_path : Text) : Type 0 where
  -- A deletion of the nftables table that succeeds ends the marking, and none begins it.
  pub deleted :
      (w : W) → (exec delete_table w).0 ≡ succeeded → marked (exec delete_table w).1 ≡ false
  pub delete_marks_nothing : (w : W) → marked w ≡ false → marked (exec delete_table w).1 ≡ false
  -- A file is loaded as one transaction: if that fails, no rule of it marks.
  pub not_loaded :
      (w : W)
      → marked w ≡ false
      → (exec (load_rules nft_path) w).0 ≢ succeeded
      → marked (exec (load_rules nft_path) w).1 ≡ false
  -- Only `nft` changes what is marked.
  pub ip_unmarked :
      (argv : List Text) (w : W)
      → get_or argv 0 [] ≡ bytes "ip"
      → marked w ≡ false
      → marked (exec argv w).1 ≡ false
  pub wg_unmarked :
      (argv : List Text) (w : W)
      → get_or argv 0 [] ≡ bytes "wg"
      → marked w ≡ false
      → marked (exec argv w).1 ≡ false
  pub route_added :
      (w : W)
      → (exec add_unreachable w).0 ≡ succeeded
      → unreachable (exec add_unreachable w).1 ≡ true
  pub rule_added : (w : W) → (exec add_rule w).0 ≡ succeeded → ruled (exec add_rule w).1 ≡ true
  -- Adding a rule or loading the table takes no route and no rule away.
  pub route_kept :
      (argv : List Text) (w : W)
      → Any (λ a. a ≡ argv) (additions nft_path)
      → unreachable w ≡ true
      → unreachable (exec argv w).1 ≡ true
  pub rule_kept :
      (argv : List Text) (w : W)
      → Any (λ a. a ≡ argv) (additions nft_path)
      → ruled w ≡ true
      → ruled (exec argv w).1 ≡ true
  -- A deletion of the rule that succeeds ends it, and what `down` runs after `nft` adds none.
  pub rule_deleted :
      (w : W) → (exec delete_rule w).0 ≡ succeeded → ruled (exec delete_rule w).1 ≡ false
  pub rule_not_added :
      (argv : List Text) (w : W)
      → Any (λ a. a ≡ argv) removals
      → ruled w ≡ false
      → ruled (exec argv w).1 ≡ false

-- What a command of `ip` or `wg` is.
abbrev pub IsNetwork : Step → Type 0
IsNetwork s = (get_or s.argv 0 [] ≡ bytes "ip") ⊎ (get_or s.argv 0 [] ≡ bytes "wg")

address-IsNetwork : (addrs : List Text) → All IsNetwork (map address_step addrs)
address-IsNetwork [] = tt
address-IsNetwork (a ∷ addrs) = (inl refl, address-IsNetwork addrs)

pub link-IsNetwork : (config : WgConfig) (path : Text) → All IsNetwork (link_steps config path)
unfolding link_steps
link-IsNetwork config path =
    let after_addresses : List Step =
      step (
        line (bytes "ip link set mtu")
        ++ show_uint (mtu_of config.mtu) ∷ line (bytes "up dev detour0"))
      ∷ step (line (bytes "ip -4 route add default dev detour0 table 51820"))
      ∷ [] in
    let rest : All IsNetwork after_addresses = (inl refl, (inl refl, tt)) in
    let all_addresses : All IsNetwork (map address_step config.addresses_v4) =
      address-IsNetwork config.addresses_v4 in
    let first : List Step =
      step (line (bytes "ip link add detour0 type wireguard"))
      ∷ step (line (bytes "wg setconf detour0") ++ path ∷ [])
      ∷ map address_step config.addresses_v4 in
    let before : All IsNetwork first = (inl refl, (inr refl, all_addresses)) in
    All-append IsNetwork first after_addresses before rest

pub required_ok : (argv : List Text) (r : Ran) → step_result (step argv) r ≡ ok tt → r ≡ succeeded
required_ok argv succeeded h = refl
required_ok argv (refused e) h = absurd (err_ne_ok h)
required_ok argv not_spawned h = absurd (err_ne_ok h)

pub failed-unsucceeded :
    (s : Step) (r : Ran) (e : UpError) → step_result s r ≡ err e → r ≢ succeeded
failed-unsucceeded s r e h k = err_ne_ok (sym h ∙ ap (step_result s) k)

pub Ran-cases : (r : Ran) → (r ≡ succeeded) ⊎ (r ≢ succeeded)
Ran-cases succeeded = inl refl
Ran-cases (refused t) = inr (λ e. absurd (distinct e))
  where
    distinct : refused t ≡ succeeded → ⊥
    distinct e = cc
Ran-cases not_spawned = inr (λ e. absurd (distinct e))
  where
    distinct : not_spawned ≡ succeeded → ⊥
    distinct e = cc

-- Packets are marked only while marked packets have a route that ends in the tunnel or nowhere.
abbrev pub FailsClosed : {W : Type 0} → (marked unreachable ruled : W → Bool) → W → Type 0
FailsClosed marked unreachable ruled w = marked w ≡ true → (unreachable w ≡ true) × (ruled w ≡ true)

module _ {W : Type 0} (exec : List Text → W → Ran × W) where
  -- Nothing is marked, or the deletion of the nftables table at this world succeeds.
  abbrev pub CanClear : (W → Bool) → W → Type 0
  CanClear marked w = (marked w ≡ false) ⊎ ((exec delete_table w).0 ≡ succeeded)

  -- A rule is there whose deletion at this world fails.
  abbrev pub IsStuck : (W → Bool) → W → Type 0
  IsStuck ruled w = (ruled w ≡ true) × ((exec delete_rule w).0 ≢ succeeded)

  -- No rule sends marked packets to the table, unless the deletion of one failed at a world on the
  -- way.
  abbrev pub RuleGone : (W → Bool) → W → List W → Type 0
  RuleGone ruled w seen = (ruled w ≡ false) ⊎ Any (IsStuck ruled) seen
