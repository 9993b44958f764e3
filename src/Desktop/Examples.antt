-- ===== src/Desktop/Examples.antt =====
-- A machine on which the helper's status is active from the third look after `pkexec` on; a state of
-- it is the number of looks that went by.
use detour.Prelude.{
  [], bytes, false, if◌then◌else◌, leb, none, ok, refl, show_uint, some, suc, true, ℕ, ◌↔◌, ◌≡◌,
}
use detour.Status.{Snapshot, inactive}
use detour.Desktop.Started.{SaysStarted, WasStarted, start_protection-started_iff}
use detour.Desktop.{
  System, ensure_anchor, first_file, helper_path, is_active, not_running, pkexec_helper, ran,
  start_helper, start_protection, stop_protection, tunnel_up, wait_active,
}

abbrev running_snapshot : Snapshot (Unit {0})
running_snapshot = record inactive { active = true; pid = 42 }

abbrev shown_after : ℕ → Snapshot (Unit {0})
shown_after n = if leb 3 n then running_snapshot else inactive

abbrev machine : System ℕ (Unit {0})
machine = record {
  elapse = λ n. n;
  get_status = λ n. (shown_after n, suc n);
  spawn = λ argv n. (true, n);
  try_wait = λ n. (none, n);
  output = λ argv n. (ran (some 0) (bytes " done\n") [], n);
  exe_dir = λ n. some (bytes "/usr/bin");
  is_file = λ n p. true;
  exists = λ n p. true;
  which = λ n. none;
  config_path = λ n. some (bytes "/home/a/config.toml");
  root = none;
}

start_test :
    start_protection machine none 0 ≡ (ok (record { started = true; message = is_active }), 4)
unfolding start_protection start_helper wait_active helper_path first_file
start_test = refl

stop_test : stop_protection machine 0 ≡ (ok (record { started = false; message = not_running }), 1)
unfolding stop_protection
stop_test = refl

tunnel_up_test : tunnel_up machine (bytes "wg.conf") 1000 0 ≡ (ok (bytes "done"), 0)
unfolding tunnel_up ensure_anchor pkexec_helper helper_path first_file show_uint
tunnel_up_test = refl

-- The witness of the theorem on `start_protection`.
start_protection-started_iff_example :
    SaysStarted machine (start_protection machine none 0).0 ↔ WasStarted machine none 0
start_protection-started_iff_example = start_protection-started_iff machine none 0
