-- ===== src/Apps/Scopes.antt =====
-- crates/dns-helper/src/apps.rs: the cgroups of Flatpak apps, and the sweeping of their processes
-- into a holding scope. What the calls do to the machine is a parameter.
use detour.Prelude.{
  Bool, List, Option, Text, [], all, any, bytes, ends_with, false, filter, filter_map,
  if◌then◌else◌, is_empty, leb, ltb, map, none, not, parse_uint, some, split, starts_with,
  strip_prefix, suc, text_eq, trim, words, zero, ℕ, ◌&&◌, ◌++◌, ◌+◌, ◌-◌, ◌/◌, ◌∷◌,
}
use detour.Tunnel.Steps.{slice}
use detour.Apps.{hold_unit, u32_max}

-- How a write into `cgroup.procs` ended: `gone` is ESRCH.
pub data Moving : Type 0 where
  done gone denied : Moving

pub record Machine (W : Type 0) : Type 0 where
  -- the names in a directory, none if it cannot be read
  pub read_dir : Text → W → List Text
  -- the contents of a file, empty if it cannot be read
  pub read_file : Text → W → Text
  pub write_pid : Text → ℕ → W → Moving × W
  -- the name of a process, from `/proc/<pid>/comm`
  pub read_comm : ℕ → W → Option Text
  -- the clock in milliseconds, and a sleep of five of them
  pub now : W → ℕ
  pub sleep : W → W

-- `join` of paths.
abbrev pub within_dir : Text → Text → Text
within_dir base name = base ++ bytes "/" ++ name

unfoldable pub hold_cgroup : Text → Text → Text
unfolding hold_unit
hold_cgroup base app_name = within_dir (within_dir base slice) (hold_unit app_name)

unfoldable pub is_flatpak_scope : Text → Text → Bool
is_flatpak_scope app_id name =
    starts_with name (bytes "app-flatpak-" ++ app_id ++ bytes "-")
    && ends_with name (bytes ".scope")

abbrev pub is_sleep : Option Text → Bool
is_sleep none = false
is_sleep (some c) = text_eq c (bytes "sleep")

module _ {W : Type 0} (machine : Machine W) where
  unfoldable pub flatpak_scopes : Text → Text → W → List Text
  unfolding is_flatpak_scope
  flatpak_scopes base app_id w =
      map (within_dir (within_dir base (bytes "app.slice"))) (
        filter (is_flatpak_scope app_id) (machine.read_dir (within_dir base (bytes "app.slice")) w))

  unfoldable pub procs : Text → W → List ℕ
  procs cgroup w =
      filter_map (λ l. parse_uint u32_max (trim l))
        (split 10 (machine.read_file (within_dir cgroup (bytes "cgroup.procs")) w))

  -- The result of a sweep: an error, or how many moved.
  abbrev Swept : Type 0
  Swept = Option ℕ × W

  -- The loop over the processes, with the count so far.
  unfoldable pub migrate_loop : Text → List ℕ → ℕ → W → Swept
  migrate_loop target [] moved w = (some moved, w)
  migrate_loop target (pid ∷ pids) moved w =
      let (how, w') = machine.write_pid target pid w in
      elim how [
        | done ↦ migrate_loop target pids (suc moved) w'
        | gone ↦ migrate_loop target pids moved w'
        | denied ↦ (none, w')
      ]

  unfoldable pub migrate : Text → Text → W → Swept
  unfolding procs migrate_loop
  migrate from to w = migrate_loop (within_dir to (bytes "cgroup.procs")) (procs from w) 0 w

  -- The loop over the scopes, with the count of the round so far.
  unfoldable pub sweep_scopes : List Text → Text → ℕ → W → Swept
  unfolding migrate
  sweep_scopes [] hold this_round w = (some this_round, w)
  sweep_scopes (scope ∷ scopes) hold this_round w =
      let (moved, w') = migrate scope hold w in
      elim moved [ none ↦ (none, w') | some n ↦ sweep_scopes scopes hold (this_round + n) w' ]

  -- The time of the last move, after a round.
  abbrev pub last_of : ℕ → Option ℕ → W → Option ℕ
  last_of zero last_move w = last_move
  last_of (suc n) last_move w = some (machine.now w)

  abbrev pub settled : ℕ → Option ℕ → W → Bool
  settled settle none w = false
  settled settle (some t) w = leb settle (machine.now w - t)

  -- What a capture ends with: an error of a move, or the number of processes moved; `none` when
  -- the fuel is out.
  abbrev Captured : Type 0
  Captured = Option (Option ℕ × W)

  module _ (base app_id hold : Text) (start timeout settle : ℕ) where
    unfoldable pub capture_loop : ℕ → ℕ → Option ℕ → W → Captured
    unfolding sweep_scopes flatpak_scopes
    capture_loop zero moved last_move w = none
    capture_loop (suc fuel) moved last_move w =
        let (this_round, w') = sweep_scopes (flatpak_scopes base app_id w) hold 0 w in
        if ltb (machine.now w - start) timeout
        then elim this_round [
          | none ↦ some (none, w')
          | some n ↦
              let last = last_of n last_move w' in
              let more = capture_loop fuel (moved + n) last (machine.sleep w') in
              if settled settle last w' then some (some (moved + n), w') else more
        ]
        else some (some moved, w)

  -- Each round sleeps five milliseconds.
  unfoldable pub capture_flatpak : Text → Text → Text → ℕ → ℕ → W → Captured
  unfolding capture_loop
  capture_flatpak base app_id hold timeout settle w =
      capture_loop base app_id hold (machine.now w) timeout settle (suc (suc (timeout / 5))) 0 none
        w

  abbrev pub comm : W → ℕ → Option Text
  comm w pid = elim (machine.read_comm pid w) [ none ↦ none | some s ↦ some (trim s) ]

  -- Whether the app runs inside, and whether it runs outside.
  unfoldable pub flatpak_presence : Text → Text → Text → W → Bool × Bool
  unfolding flatpak_scopes procs hold_cgroup
  flatpak_presence base app_name app_id w = (
    any (λ pid. not (is_sleep (comm w pid))) (procs (hold_cgroup base app_name) w),
    any (λ s. not (is_empty (procs s w))) (flatpak_scopes base app_id w),
  )

  unfoldable pub is_idle : Text → W → Text → Bool
  unfolding procs
  is_idle base w name =
      starts_with name (bytes "detour-hold-")
      && all (λ pid. is_sleep (comm w pid)) (procs (within_dir (within_dir base slice) name) w)

  unfoldable pub idle_holds : Text → W → List Text
  unfolding is_idle
  idle_holds base w = filter (is_idle base w) (machine.read_dir (within_dir base slice) w)

-- The first line that starts so, without its start.
abbrev find_prefixed : Text → List Text → Option Text
find_prefixed p [] = none
find_prefixed p (l ∷ ls) = elim (strip_prefix l p) [
  | none ↦ find_prefixed p ls
  | some rest ↦ some rest
]

abbrev first_number : List Text → Option ℕ
first_number [] = none
first_number (t ∷ ts) = parse_uint u32_max t

-- The real uid, from the contents of `/proc/<pid>/status`, if it can be read.
unfoldable pub process_uid : Option Text → Option ℕ
process_uid status = elim status [
  | none ↦ none
  | some text ↦ elim (find_prefixed (bytes "Uid:") (split 10 text)) [
    | none ↦ none
    | some rest ↦ first_number (words rest)
  ]
]
