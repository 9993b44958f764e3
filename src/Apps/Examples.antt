-- ===== src/Apps/Examples.antt =====
-- The processes and sockets of apps on small inputs.
use detour.Prelude.{
  List, Option, [], arith, bytes, contains, ends_with, if◌then◌else◌, parse_uint, refl, show_uint,
  some, split, split_once, starts_with, strip_prefix, text_eq, true, ℕ, ◌+◌, ◌==◌, ◌↔◌, ◌∷◌, ◌≡◌,
  ◌⊎◌,
}
use detour.Net.{v4}
use detour.Apps.Tree.{Descends, Found}
use detour.Apps.Descendants.{descendants_iff}
use detour.Apps.Sockets.{is_local_destination}
use detour.Apps.Scopes.{Machine, capture_flatpak, done, gone, idle_holds, process_uid}
use detour.Apps.Capture.{ClockLaws, capture_flatpak_ends}
use detour.Apps.Local.{Bypassed, IsUnspecified, is_local_destination_iff}
use detour.Apps.{descendants, flatpak_app_id, hold_unit, parse_ppid}

abbrev table : List (ℕ × ℕ)
table = (2, 1) ∷ (5, 3) ∷ (3, 2) ∷ (1, 5) ∷ (9, 8) ∷ []

descendants_cycle : descendants (1 ∷ []) table ≡ some (1 ∷ 2 ∷ 3 ∷ 5 ∷ [])
unfolding descendants contains
descendants_cycle = refl

ppid : parse_ppid (bytes "4242 (tmux: (srv) x) S 17 4242") ≡ some 17
unfolding parse_ppid parse_uint split_once
ppid = refl

app_id :
    flatpak_app_id
      (bytes "/usr/bin/flatpak")
      (bytes "run" ∷ bytes "--branch=stable" ∷ bytes "org.x.App" ∷ [])
    ≡ some (bytes "org.x.App")
unfolding flatpak_app_id split text_eq starts_with
app_id = refl

unit : hold_unit (bytes "My App-1") ≡ bytes "detour-hold-my_app_1.scope"
unfolding hold_unit
unit = refl

shown : show_uint 51820 ≡ bytes "51820"
unfolding show_uint
shown = refl

descendants_iff_example :
    (out : List ℕ) × (descendants (1 ∷ []) table ≡ some out)
    × ((p : ℕ) → Found out p ↔ Descends (1 ∷ []) table p)
descendants_iff_example = descendants_iff (1 ∷ []) table

-- 100.64.0.1, which a carrier's network uses.
is_local_destination_iff_example :
    (is_local_destination (v4 1681915905) ≡ true)
    ↔ (IsUnspecified (v4 1681915905) ⊎ Bypassed (v4 1681915905))
is_local_destination_iff_example = is_local_destination_iff (v4 1681915905) (omega arith)

-- A machine with one scope of two processes that never leave it, and a holding scope with a
-- placeholder; the world is its clock.
abbrev small_machine : Machine ℕ
small_machine = record {
  read_dir = λ dir w.
      if ends_with dir (bytes "app.slice")
      then bytes "app-flatpak-org.x-7.scope" ∷ bytes "app-other.scope" ∷ []
      else bytes "detour-hold-x.scope" ∷ bytes "run-1.scope" ∷ [];
  read_file = λ path w. bytes "20\n21\n";
  write_pid = λ target pid w. (if pid == 20 then done else gone, w);
  read_comm = λ pid w. some (bytes "sleep\n");
  now = λ w. w;
  sleep = λ w. w + 5;
}

small_machine-ClockLaws : ClockLaws small_machine
small_machine-ClockLaws = record { sleeps = λ w. omega arith; writes = λ t p w. omega arith }

-- Three rounds, at 0, 5 and 10 milliseconds, move one process each.
captured :
    capture_flatpak small_machine (bytes "/u") (bytes "org.x") (bytes "/u/hold") 12 100 0
    ≡ some (some 3, 15)
unfolding capture_flatpak starts_with ends_with split parse_uint text_eq
captured = refl

capture_flatpak_ends_example :
    (x : Option ℕ × ℕ) × (capture_flatpak small_machine
        (bytes "/u")
        (bytes "org.x")
        (bytes "/u/hold")
        12
        100
        0
      ≡ some x)
capture_flatpak_ends_example =
    capture_flatpak_ends small_machine small_machine-ClockLaws (bytes "/u") (bytes "org.x")
      (bytes "/u/hold") 12 100 0

one_idle : idle_holds small_machine (bytes "/u") 0 ≡ bytes "detour-hold-x.scope" ∷ []
unfolding idle_holds starts_with ends_with split parse_uint text_eq
one_idle = refl

uid_of_status : process_uid (some (bytes "Name:\tgame\nUid:\t1000\t1000\nGid:\t5")) ≡ some 1000
unfolding process_uid strip_prefix split parse_uint
uid_of_status = refl
