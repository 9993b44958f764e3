-- ===== src/Helper/Examples.antt =====
-- `attach` on a small machine: a process of the user with a child, and one of somebody else.
use detour.Helper.Attach.{Host, attach, slice_path}
use detour.Apps.Scopes.{done}
use detour.Apps.Sockets.{is_local_destination, parse_ss_line, ss_kill_filter}
use detour.Apps.{descendants}
use detour.Prelude.{
  All, List, Option, Text, [], arith, bytes, contains, err_ne_ok, false, if◌then◌else◌, inr, none,
  ok, parse_uint, refl, show_uint, some, split, split_text, starts_with, strip_prefix, sym, text_eq,
  trim_end_matches, true, ℕ, ◌++◌, ◌==◌, ◌||◌, ◌∙◌, ◌∷◌, ◌≡◌,
}
use detour.Net.{AddressText, SocketAddr, v4}
use detour.Proxy.{empty_log}
use detour.Dns.Sample.{sample}
use detour.Config.{Config, default_config}
use detour.Resolver.{Http, new, with_capacity}
use detour.Resolvconf.Sample.{linked_disk, small_host, small_host-JsonRoundTrip}
use detour.Resolvconf.{file, link, managed_body, reconcile_after_crash, take_over}
use detour.Helper.Run.{End, Facts, run, server_panicked, terminated}
use detour.Helper.Unrestored.{run-panicked}
use detour.Helper.Lifecycle.{run-Untouched}
use detour.Helper.Safety.{IsAllowedWrite, attach-IsAllowedWrite}

-- The processes that are in the scope.
abbrev Scope : Type 0
Scope = List ℕ

abbrev scope_path : Text
scope_path = slice_path 1000 ++ bytes "/detour-hold-game.scope"

abbrev owner_of : ℕ → Option ℕ
owner_of pid = if pid == 22 then some 0 else if pid == 20 || pid == 21 then some 1000 else none

abbrev addresses : AddressText
addresses = record {
  parse_ip = λ t. some (if text_eq t (bytes "1.1.1.1") then v4 16843009 else v4 167772161);
  show_ip = λ ip. bytes "1.1.1.1";
  parse_socket = λ t. none;
}

abbrev host : Host Scope
host = record {
  canonicalize = λ path w. some path;
  process_table = λ w. (20, 1) ∷ (21, 20) ∷ (22, 20) ∷ [];
  process_uid = λ pid w. owner_of pid;
  write_pid = λ file pid w. (done, pid ∷ w);
  listing = λ w. some (
      bytes "tcp ESTAB 0 0 10.0.0.1:5000 1.1.1.1:443 users:((\"game\",pid=21,fd=5))"
      ∷ bytes "tcp ESTAB 0 0 10.0.0.1:5001 10.0.0.1:80 users:((\"game\",pid=21,fd=6))"
      ∷ bytes "tcp ESTAB 0 0 10.0.0.1:5002 1.1.1.1:443 users:((\"other\",pid=22,fd=6))"
      ∷ []);
  kill = λ flag filter_ w. (true, w);
  std = addresses;
}

moves_two : (attach host 1000 scope_path (20 ∷ []) true []).1.moved ≡ 20 ∷ 21 ∷ []
unfolding attach starts_with show_uint descendants contains split_text parse_ss_line parse_uint
    ss_kill_filter is_local_destination text_eq trim_end_matches split
moves_two = refl

resets_one : (attach host 1000 scope_path (20 ∷ []) true []).1.reset_count ≡ 1
unfolding attach starts_with show_uint descendants contains split_text parse_ss_line parse_uint
    ss_kill_filter is_local_destination text_eq trim_end_matches split
resets_one = refl

attach-IsAllowedWrite_example :
    All (IsAllowedWrite host 1000 (20 ∷ [])) (attach host 1000 scope_path (20 ∷ []) true []).1.wrote
attach-IsAllowedWrite_example = attach-IsAllowedWrite host 1000 scope_path (20 ∷ []) true []

-- A run on a disk whose `resolv.conf` is a link.
abbrev no_http : Http
no_http = record {
  Client = Unit;
  Net = Unit;
  build = λ h pins. some tt;
  post = λ c url accept type_ body n. (none, n);
}

abbrev listening : SocketAddr
listening = record { ip = v4 2130706485; port = 53 }

abbrev run_host : detour.Resolvconf.Host
run_host = record small_host {
  std = record {
    parse_ip = λ t. some (v4 8);
    show_ip = λ a. bytes "8.8.8.8";
    parse_socket = λ t. some listening;
  };
}

abbrev run_config : Config
run_config = record (default_config run_host.std) {
  providers = record { name = bytes "P"; url = bytes "https://p/q"; bootstrap = [] } ∷ [];
}

abbrev ends_by : End → Facts
ends_by e = record {
  profile = none;
  no_takeover = false;
  pid = 7;
  now = 1;
  bound = true;
  status_written = true;
  end = e;
  later = 5;
  cached = 0;
}

ends_well :
    (run ℕ empty_log no_http sample run_host run_config
      (ends_by terminated)
      (record { disk = linked_disk; allowance = 5 })).0
    ≡ ok tt
unfolding run detour.Resolvconf.reconcile_after_crash new strip_prefix detour.Resolvconf.take_over
ends_well = refl

run-Untouched_example :
    ((run ℕ empty_log no_http sample run_host run_config
        (ends_by terminated)
        (record { disk = linked_disk; allowance = 5 })).1.machine.disk.resolv
      ≡ link (bytes "stub"))
    × ((run ℕ empty_log no_http sample run_host run_config
          (ends_by terminated)
          (record { disk = linked_disk; allowance = 5 })).1.machine.disk.nm_dropin
        ≡ none)
run-Untouched_example =
    run-Untouched ℕ empty_log no_http sample run_host run_config (ends_by terminated)
      small_host-JsonRoundTrip (bytes "nameserver 8.8.8.8") linked_disk refl refl 5 (omega arith)
      (omega arith)
      (inr
        (λ e. absurd (err_ne_ok (sym e ∙ ends_well)), λ e. absurd (err_ne_ok (sym e ∙ ends_well))))

built :
    detour.Resolver.new no_http sample run_config.providers
    ≡ ok (record {
      upstreams =
          record {
            provider = record { name = bytes "P"; url = bytes "https://p/q"; bootstrap = [] };
            client = tt;
          }
          ∷ [];
      cache = record { entries = []; capacity = 4096 };
    })
unfolding detour.Resolver.new with_capacity strip_prefix detour.Cache.new
built = refl

run-panicked_example :
    (run ℕ empty_log no_http sample run_host run_config
      (ends_by server_panicked)
      (record { disk = linked_disk; allowance = 5 })).1.machine.disk.resolv
    ≡ file (managed_body run_host (v4 2130706485))
run-panicked_example =
    run-panicked ℕ empty_log no_http sample run_host run_config (ends_by server_panicked)
      small_host-JsonRoundTrip (bytes "nameserver 8.8.8.8") linked_disk refl refl 5 (omega arith)
      listening _ refl built refl refl refl
