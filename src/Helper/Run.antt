-- ===== src/Helper/Run.antt =====
-- crates/dns-helper/src/main.rs: `run`, `restore` and `stop`, over the takeover of `resolv.conf`, the
-- resolver and the status snapshot. Between the start and the end of a run the machine may change
-- how many writes it permits.
use detour.Prelude.{
  Bool, List, Option, Result, Text, [], err, false, if◌then◌else◌, map, none, not, ok, show_uint,
  some, suc, true, zero, ℕ, ◌==◌, ◌||◌,
}
use detour.Net.{AddressText, IpAddr, SocketAddr}
use detour.Dns.{Dns}
use detour.Config.{Config, policy_for}
use detour.Resolver.{DohResolver, Http, ResolveError, new}
use detour.Proxy.{QueryLog}
use detour.Apps.Sockets.{show_socket}
use detour.Status.{Snapshot, snapshot}
use detour.Resolvconf.Nameservers.{parse_nameservers}
use detour.Resolvconf.{
  Disk, Host, Machine, ResolvError, TakeoverState, already_active, corrupt_state, failed, no_backup,
  read_node, read_state, reconcile_after_crash, restore, take_over,
}

-- How the proxy stops once it serves: by a signal, by itself, by a panic of its task, or because the
-- handler of SIGTERM cannot be installed.
pub data End : Type 0 where
  interrupted terminated server_done server_failed server_panicked no_handler : End

pub data RunError : Type 0 where
  bad_listen no_nameservers bind_failed proxy_failed proxy_panicked no_signals : RunError
  another_running : ℕ → RunError
  no_reconcile no_takeover_done no_restore : ResolvError → RunError
  no_resolver : ResolveError → RunError

-- What a run leaves: the machine and the status file.
pub record Left (E : Type 0) : Type 0 where
  pub machine : Machine
  pub published : Option (Snapshot E)

-- What is given to a run, and what it meets: whether the proxy can bind its address and the status
-- file be written, how it ends, and how many writes are possible then.
pub record Facts : Type 0 where
  pub profile : Option Text
  pub no_takeover : Bool
  pub pid : ℕ
  pub now : ℕ
  pub bound : Bool
  pub status_written : Bool
  pub end : End
  pub later : ℕ
  -- the entries of the cache when the status is written
  pub cached : ℕ

abbrev pub servers_of : AddressText → Option Text → Result ResolvError (List IpAddr)
servers_of std none = err failed
servers_of std (some text) = ok (parse_nameservers std text)

unfoldable pub current_nameservers : AddressText → Disk → Result ResolvError (List IpAddr)
current_nameservers std d = servers_of std (read_node d.resolv d.target_text)

-- `E` is the type of the entries of the log, which has the queries of the first moments.
module _ (E : Type 0) (log : QueryLog E) (http : Http) (dns : Dns) where
  abbrev provider_names : DohResolver http dns → List Text
  provider_names r = map (λ u. u.provider.name) r.upstreams

  module _ (host : Host) (config : Config) (facts : Facts) where
    abbrev Ended : Type 0
    Ended = Result RunError (Unit {0}) × Left E

    abbrev pub base_snapshot : SocketAddr → List IpAddr → DohResolver http dns → Bool → Snapshot E
    base_snapshot listen original resolver took_over = record {
      active = true;
      listen = show_socket host.std listen;
      pid = facts.pid;
      took_over_resolv_conf = took_over;
      profile = facts.profile;
      providers = provider_names resolver;
      forced_domains = (policy_for config facts.profile).force_doh;
      upstreams = map host.std.show_ip original;
      cache_entries = 0;
      queries_total = 0;
      recent_queries = [];
      updated_at = 0;
    }

    -- At the end the machine permits the writes that are possible then.
    abbrev pub at_end : Machine → Machine
    at_end m = record { disk = m.disk; allowance = facts.later }

    abbrev pub cleared : Machine → Left E
    cleared m = record { machine = m; published = none }

    abbrev pub restored : Result ResolvError (Unit {0}) × Machine → Ended
    restored (err e, m) = (err (no_restore e), cleared m)
    restored (ok u, m) = (ok tt, cleared m)

    abbrev pub shut_down : Bool → Machine → Ended
    shut_down false m = (ok tt, cleared m)
    shut_down true m = restored (restore host m)

    abbrev pub fail_down : Bool → Machine → Ended
    fail_down false m = (err proxy_failed, cleared m)
    fail_down true m = (err proxy_failed, cleared (restore host m).1)

    -- A panic of the proxy's task and a handler that is not installed return at once.
    abbrev pub finish : End → Bool → Left E → Ended
    finish no_handler took_over left = (err no_signals, left)
    finish server_panicked took_over left = (err proxy_panicked, left)
    finish server_failed took_over left = fail_down took_over (at_end left.machine)
    finish interrupted took_over left = shut_down took_over (at_end left.machine)
    finish terminated took_over left = shut_down took_over (at_end left.machine)
    finish server_done took_over left = shut_down took_over (at_end left.machine)

    abbrev pub publish : Snapshot E → Machine → Left E
    publish s m = record {
      machine = m;
      published =
          if facts.status_written then some (snapshot s log facts.cached facts.now) else none;
    }

    abbrev pub left_at : Machine → Left E
    left_at m = record { machine = m; published = none }

    abbrev pub serve_taken :
        SocketAddr
        → List IpAddr
        → DohResolver http dns
        → Result ResolvError TakeoverState × Machine
        → Ended
    serve_taken listen original resolver (err e, m) = (err (no_takeover_done e), left_at m)
    serve_taken listen original resolver (ok s, m) =
        finish facts.end true (publish (base_snapshot listen original resolver true) m)

    abbrev pub serve :
        SocketAddr → List IpAddr → Result ResolveError (DohResolver http dns) → Machine → Ended
    serve listen original (err e) m = (err (no_resolver e), left_at m)
    serve listen original (ok resolver) m =
        if not facts.bound
        then (err bind_failed, left_at m)
        else if facts.no_takeover
        then finish facts.end false (publish (base_snapshot listen original resolver false) m)
        else serve_taken listen original resolver (take_over host facts.pid facts.now listen.ip m)

    abbrev pub with_servers : SocketAddr → Result ResolvError (List IpAddr) → Machine → Ended
    with_servers listen (err e) m = (err no_nameservers, left_at m)
    with_servers listen (ok original) m =
        serve listen original (detour.Resolver.new http dns config.providers) m

    abbrev reconcile_failed : ResolvError → RunError
    reconcile_failed failed = no_reconcile failed
    reconcile_failed corrupt_state = no_reconcile corrupt_state
    reconcile_failed no_backup = no_reconcile no_backup
    reconcile_failed (already_active pid) = another_running pid

    abbrev pub reconciled : SocketAddr → Result ResolvError (Option TakeoverState) × Machine → Ended
    reconciled listen (err e, m) = (err (reconcile_failed e), left_at m)
    reconciled listen (ok s, m) = with_servers listen (current_nameservers host.std m.disk) m

    abbrev pub run_at : Option SocketAddr → Machine → Ended
    run_at none m = (err bad_listen, left_at m)
    run_at (some listen) m = reconciled listen (reconcile_after_crash host m)

    unfoldable pub run : Machine → Ended
    unfolding current_nameservers policy_for snapshot show_uint
    run m = run_at (host.std.parse_socket config.listen) m

-- `restore`: a missing backup is no failure.
abbrev restore_result :
    Result ResolvError (Unit {0}) × Machine → Result ResolvError (Unit {0}) × Machine
restore_result (ok u, m) = (ok tt, m)
restore_result (err no_backup, m) = (ok tt, m)
restore_result (err failed, m) = (err failed, m)
restore_result (err corrupt_state, m) = (err corrupt_state, m)
restore_result (err (already_active pid), m) = (err (already_active pid), m)

unfoldable pub restore_command : Host → Machine → Result ResolvError (Unit {0}) × Machine
restore_command host m = restore_result (restore host m)

pub data Stopped : Type 0 where
  nothing_running gone : Stopped
  unreadable : ResolvError → Stopped
  not_signalled still_there : ℕ → Stopped

-- The process is asked after so many times, and is there each time that the function says so.
unfoldable pub poll : ℕ → ℕ → (ℕ → Bool) → Stopped
poll zero pid alive = still_there pid
poll (suc k) pid alive = let later = poll k pid alive in if alive k then later else gone

module _ (host : Host) where
  abbrev leftover : Result ResolvError (Option TakeoverState) → Machine → Stopped × Machine
  leftover (err e) m = (unreadable e, m)
  leftover (ok none) m = (nothing_running, m)
  leftover (ok (some s)) m = (nothing_running, (restore host m).1)

  -- `signalled` tells whether SIGTERM reaches a process.
  unfoldable pub stop :
      {E : Type 0} → Snapshot E → (ℕ → Bool) → (ℕ → Bool) → Machine → Stopped × Machine
  unfolding poll
  stop s signalled alive m =
      if not s.active || s.pid == 0
      then leftover (read_state host m.disk) m
      else if not (signalled s.pid)
      then (not_signalled s.pid, m)
      else (poll 50 s.pid alive, m)
