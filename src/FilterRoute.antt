-- ===== src/FilterRoute.antt =====
-- crates/dns-helper/src/filter_route.rs, and the command of crates/dns-helper/src/main.rs that runs
-- it: the redirect of the slice's HTTPS to the filtering proxy.
pub mod Rollback
mod Examples
use detour.Prelude.{
  Bool, List, Result, Text, [], bytes, err, if◌then◌else◌, join, not, ok, show_uint, ℕ, ◌++◌, ◌==◌,
  ◌∷◌,
}
use detour.Tunnel.Steps.{Step, line, load_rules, optional_step, slice_cgroup, step}
use detour.Tunnel.Bringup.{Ran, not_spawned, refused, succeeded}

-- The destinations that are not redirected.
abbrev bypass_v4 : List Text
bypass_v4 =
    bytes "127.0.0.0/8"
    ∷ bytes "10.0.0.0/8"
    ∷ bytes "172.16.0.0/12"
    ∷ bytes "192.168.0.0/16"
    ∷ bytes "169.254.0.0/16"
    ∷ []

unfoldable pub nft_ruleset : ℕ → ℕ → Text
unfolding slice_cgroup show_uint
nft_ruleset uid port =
    let (cgroup, level) = slice_cgroup uid in
    bytes "table ip detour_filter {\n\tchain output {\n"
    ++ bytes "\t\ttype nat hook output priority dstnat; policy accept;\n\t\tip daddr { "
    ++ join (bytes ", ") bypass_v4
    ++ bytes " } return\n\t\tmeta l4proto tcp socket cgroupv2 level "
    ++ show_uint level
    ++ bytes " \""
    ++ cgroup
    ++ bytes "\" tcp dport 443 redirect to :"
    ++ show_uint port
    ++ bytes "\n\t}\n}\n"

abbrev pub up_steps : Text → List Step
up_steps nft_path = step (load_rules nft_path) ∷ []

-- NFT_TABLE is detour_filter.
abbrev pub delete_filter : List Text
delete_filter = line (bytes "nft delete table ip detour_filter")

abbrev pub down_steps : List Step
down_steps = optional_step delete_filter ∷ []

pub data FilterError : Type 0 where
  is_root no_dir no_file : FilterError
  spawn_failed : List Text → FilterError
  command_failed : List Text → Text → FilterError

module _ {W : Type 0} (exec : List Text → W → Ran × W) where
  -- Commands whose results are not looked at.
  unfoldable pub run_ignored : List Step → W → W
  run_ignored [] w = w
  run_ignored (s ∷ ss) w = run_ignored ss (exec s.argv w).1

  -- The loop over the commands: a refused one is rolled back, one that cannot be started is not.
  unfoldable pub install_steps : List Step → W → Result FilterError (Unit {0}) × W
  unfolding run_ignored
  install_steps [] w = (ok tt, w)
  install_steps (s ∷ ss) w =
      let (how, w') = exec s.argv w in
      elim how [
        | succeeded ↦ install_steps ss w'
        | refused stderr ↦ (err (command_failed s.argv stderr), run_ignored down_steps w')
        | not_spawned ↦ (err (spawn_failed s.argv), w')
      ]

  -- What `Up` does for a user: `dir_made` and `written` are how the calls on files end, which come
  -- after the removal of an earlier redirect. The file has the text of `nft_ruleset`.
  unfoldable pub filter_route_up : ℕ → Bool → Bool → Text → W → Result FilterError (Unit {0}) × W
  unfolding install_steps
  filter_route_up uid dir_made written nft_path w =
      if uid == 0
      then (err is_root, w)
      else if not dir_made
      then (err no_dir, run_ignored down_steps w)
      else if not written
      then (err no_file, run_ignored down_steps w)
      else install_steps (up_steps nft_path) (run_ignored down_steps w)

  unfoldable pub filter_route_down : W → W
  unfolding run_ignored
  filter_route_down w = run_ignored down_steps w
