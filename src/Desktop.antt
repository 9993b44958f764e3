-- ===== src/Desktop.antt =====
-- src-tauri/src/main.rs: the commands of the window that start and stop the helper, the tunnel and
-- the redirect. The calls of the system are a record of functions on the state of the machine.
use detour.Tunnel.Steps.{line, slice}
pub mod Started
mod Examples
use detour.Prelude.{
  Bool, List, Option, Result, Text, [], bytes, err, false, if◌then◌else◌, is_empty, none, not, ok,
  show_uint, some, suc, trim, true, zero, ℕ, ◌++◌, ◌/◌, ◌==◌, ◌∷◌,
}
use detour.Status.{Snapshot}

-- The exit code of a process that a signal ended is `none`.
pub data Output : Type 0 where
  not_run : Output
  ran : Option ℕ → Text → Text → Output

pub data Message : Type 0 where
  already_running exited_early : ℕ → Message
  is_active cancelled denied terminated timed_out not_running stopped : Message

pub record StartOutcome : Type 0 where
  pub started : Bool
  pub message : Message

pub data DesktopError : Type 0 where
  no_helper no_config no_pkexec no_systemd_run no_wg_config start_filter_first : DesktopError
  auth_cancelled auth_denied : DesktopError
  stop_failed no_slice helper_failed : Text → DesktopError

-- `elapse` is a sleep of 100 milliseconds; `try_wait` looks at the process that `spawn` started, and
-- has the exit code if it sees that it ended; `which` is what `which dns-helper` writes if it succeeds.
pub record System (W E : Type 0) : Type 0 where
  pub elapse : W → W
  pub get_status : W → Snapshot E × W
  pub spawn : List Text → W → Bool × W
  pub try_wait : W → Option (Option ℕ) × W
  pub output : List Text → W → Output × W
  pub exe_dir : W → Option Text
  pub is_file : W → Text → Bool
  pub exists : W → Text → Bool
  pub which : W → Option Text
  pub config_path : W → Option Text
  pub root : Option Text

abbrev in_dir : Option Text → Text → Option Text
in_dir none name = none
in_dir (some dir) name = some (dir ++ bytes "/" ++ name)

-- The first of the paths that is a file.
unfoldable first_file : (Text → Bool) → List (Option Text) → Option Text → Option Text
first_file is_file [] last = last
first_file is_file (none ∷ ps) last = first_file is_file ps last
first_file is_file (some p ∷ ps) last = if is_file p then some p else first_file is_file ps last

abbrev trimmed_path : Option Text → Option Text
trimmed_path none = none
trimmed_path (some out) = if is_empty (trim out) then none else some (trim out)

abbrev profile_args : Option Text → List Text
profile_args none = []
profile_args (some id) = if is_empty id then [] else bytes "--profile" ∷ id ∷ []

-- The command line of the helper's `run`.
abbrev pub run_line : Text → Text → Option Text → List Text
run_line helper config profile =
    bytes "pkexec" ∷ helper ∷ bytes "--config" ∷ config ∷ bytes "run" ∷ profile_args profile

-- What a process that ended before the helper was active is reported as.
abbrev exit_message : Option ℕ → Message
exit_message none = terminated
exit_message (some code) =
    if code == 126 then cancelled else if code == 127 then denied else exited_early code

abbrev success : Output → Bool
success not_run = false
success (ran none out errors) = false
success (ran (some code) out errors) = code == 0

module _ {W E : Type 0} (sys : System W E) where
  unfoldable pub helper_path : W → Option Text
  unfolding first_file
  helper_path w =
      first_file (sys.is_file w)
        (in_dir (sys.exe_dir w) (bytes "dns-helper")
          ∷ in_dir sys.root (bytes "target/debug/dns-helper")
          ∷ in_dir sys.root (bytes "target/release/dns-helper")
          ∷ [])
        (trimmed_path (sys.which w))

  -- The loop that waits for the helper: `n` rounds are left.
  unfoldable pub wait_active : ℕ → W → StartOutcome × W
  wait_active zero w = (record { started = false; message = timed_out }, w)
  wait_active (suc n) w =
      let (s, w1) = sys.get_status (sys.elapse w) in
      let (exit, w2) = sys.try_wait w1 in
      let rest = wait_active n w2 in
      if s.active then (record { started = true; message = is_active }, w1) else elim exit [
        | none ↦ rest
        | some code ↦ (record { started = false; message = exit_message code }, w2)
      ]

  unfoldable pub start_helper : Text → Text → Option Text → W → Result DesktopError StartOutcome × W
  unfolding wait_active
  start_helper helper config profile w =
      let (spawned, w1) = sys.spawn (run_line helper config profile) w in
      if not spawned
      then (err no_pkexec, w1)
      else let (outcome, w2) = wait_active 100 w1 in (ok outcome, w2)

  unfoldable pub start_protection : Option Text → W → Result DesktopError StartOutcome × W
  unfolding start_helper helper_path
  start_protection profile w =
      let (current, w1) = sys.get_status w in
      if current.active
      then (ok (record { started = false; message = already_running current.pid }), w1)
      else elim (helper_path w1) [
        | none ↦ (err no_helper, w1)
        | some helper ↦ elim (sys.config_path w1) [
          | none ↦ (err no_config, w1)
          | some config ↦ start_helper helper config profile w1
        ]
      ]

  abbrev stop_outcome : Output → Result DesktopError StartOutcome
  stop_outcome not_run = err no_pkexec
  stop_outcome (ran code out errors) =
      if success (ran code out errors)
      then ok (record { started = false; message = stopped })
      else err (stop_failed (trim errors))

  unfoldable pub stop_protection : W → Result DesktopError StartOutcome × W
  unfolding helper_path
  stop_protection w =
      let (current, w1) = sys.get_status w in
      if not current.active
      then (ok (record { started = false; message = not_running }), w1)
      else elim (helper_path w1) [
        | none ↦ (err no_helper, w1)
        | some helper ↦
            let (o, w2) = sys.output (bytes "pkexec" ∷ helper ∷ bytes "stop" ∷ []) w1 in
            (stop_outcome o, w2)
      ]

  abbrev helper_result : Output → Result DesktopError Text
  helper_result not_run = err no_pkexec
  helper_result (ran none out errors) = err (helper_failed (trim errors))
  helper_result (ran (some code) out errors) =
      if code == 0
      then ok (trim out)
      else if code == 126
      then err auth_cancelled
      else if code == 127
      then err auth_denied
      else err (helper_failed (trim errors))

  unfoldable pub pkexec_helper : List Text → W → Result DesktopError Text × W
  unfolding helper_path
  pkexec_helper args w = elim (helper_path w) [
    | none ↦ (err no_helper, w)
    | some helper ↦
        let (o, w1) = sys.output (bytes "pkexec" ∷ helper ∷ args) w in (helper_result o, w1)
  ]

  abbrev anchor_made : Output → Result DesktopError (Unit {0})
  anchor_made not_run = err no_systemd_run
  anchor_made (ran code out errors) =
      if success (ran code out errors) then ok tt else err (no_slice (trim errors))

  -- The unit that keeps the slice there: it is started unless systemd says that it runs.
  unfoldable pub ensure_anchor : W → Result DesktopError (Unit {0}) × W
  ensure_anchor w =
      let (o, w1) =
        sys.output (line (bytes "systemctl --user is-active --quiet detourtunnel-anchor")) w in
      if success o
      then (ok tt, w1)
      else let (o', w2) =
          sys.output
            (line (
              bytes
                "systemd-run --user --quiet --unit=detourtunnel-anchor --slice=detourtunnel.slice sleep infinity"))
            w1 in
        (anchor_made o', w2)

  abbrev with_anchor : List Text → Result DesktopError (Unit {0}) × W → Result DesktopError Text × W
  with_anchor args (err e, w) = (err e, w)
  with_anchor args (ok u, w) = pkexec_helper args w

  -- `tunnel_up` with the path of the WireGuard configuration.
  unfoldable pub tunnel_up : Text → ℕ → W → Result DesktopError Text × W
  unfolding pkexec_helper ensure_anchor
  tunnel_up wg_config uid w =
      if not (sys.exists w wg_config)
      then (err no_wg_config, w)
      else with_anchor
          (bytes "tunnel"
            ∷ bytes "up"
            ∷ bytes "--wg-config"
            ∷ wg_config
            ∷ bytes "--uid"
            ∷ show_uint uid
            ∷ [])
          (ensure_anchor w)

  -- `running` is the flag of the filter's state.
  unfoldable pub filter_route_on : Bool → ℕ → W → Result DesktopError Text × W
  unfolding pkexec_helper ensure_anchor
  filter_route_on running uid w =
      if not running
      then (err start_filter_first, w)
      else with_anchor
          (bytes "filter-route"
            ∷ bytes "up"
            ∷ bytes "--uid"
            ∷ show_uint uid
            ∷ bytes "--port"
            ∷ bytes "8089"
            ∷ [])
          (ensure_anchor w)

  unfoldable pub filter_route_off : W → Result DesktopError Text × W
  unfolding pkexec_helper
  filter_route_off w = pkexec_helper (line (bytes "filter-route down")) w
