-- ===== src/Helper/Unrestored.antt =====
-- The end of `run` on which nothing is restored.
use detour.Helper.{parsed}
use detour.Prelude.{
  List, Result, Text, ap, err, err_ne_ok, false, none, ok, refl, some, subst, sym, true, ℕ, ◌∙◌,
  ◌≡◌, ◌≤◌,
}
use detour.Net.{IpAddr, SocketAddr}
use detour.Dns.{Dns}
use detour.Config.{Config}
use detour.Resolver.{DohResolver, Http, new}
use detour.Resolvconf.Nameservers.{parse_nameservers}
use detour.Resolvconf.{
  Disk, Host, JsonRoundTrip, Machine, ResolvError, TakeoverState, file, managed_body, read_node,
}
use detour.Proxy.{QueryLog}
use detour.Resolvconf.RoundTrip.{reconcile_after_crash_free, take_over-ok}
use detour.Helper.Run.{
  Facts, base_snapshot, current_nameservers, finish, publish, run, serve_taken, server_panicked,
}

module _ (E : Type 0) (log : QueryLog E) (http : Http) (dns : Dns) (host : Host) (config : Config)
    (facts : Facts) where
  serve_taken-panicked :
      (listen : SocketAddr) (ips : List IpAddr) (r : DohResolver http dns)
      (a : Result ResolvError TakeoverState × Machine) (s : TakeoverState)
      → facts.end ≡ server_panicked
      → a.0 ≡ ok s
      → (serve_taken E log http dns host config facts listen ips r a).1.machine.disk ≡ a.1.disk
  serve_taken-panicked listen ips r (ok t, m) s panics fine =
      subst
        (λ x.
          (finish E log http dns host config facts x true (
            publish E log http dns host config facts
              (base_snapshot E log http dns host config facts listen ips r true) m)).1.machine.disk
          ≡ m.disk)
        (sym panics) refl
  serve_taken-panicked listen ips r (err x, m) s panics fine = absurd (err_ne_ok fine)

module _ (E : Type 0) (log : QueryLog E) (http : Http) (dns : Dns) (host : Host) (config : Config)
    (facts : Facts) (json : JsonRoundTrip host) (original : Text) (d : Disk) (free : d.state ≡ none)
    (reads : read_node d.resolv d.target_text ≡ some original) (n : ℕ) (start_writes : 5 ≤ n) where
  -- A run that took over and whose proxy task panics returns with `resolv.conf` still pointing at
  -- the proxy, which is gone, however many writes are possible then.
  pub run-panicked :
      (listen : SocketAddr) (r : DohResolver http dns)
      → host.std.parse_socket config.listen ≡ some listen
      → detour.Resolver.new http dns config.providers ≡ ok r
      → facts.bound ≡ true
      → facts.no_takeover ≡ false
      → facts.end ≡ server_panicked
      → (run E log http dns host config facts
          (record { disk = d; allowance = n })).1.machine.disk.resolv
        ≡ file (managed_body host listen.ip)
  unfolding run current_nameservers
  run-panicked listen r parsed built bound_ takes panics =
      let (fine, redirected) =
        take_over-ok host json facts.pid facts.now listen.ip original d free reads n start_writes in
      rw
        (
          run,
          parsed,
          reconcile_after_crash_free host json facts.pid facts.now listen.ip original d free reads
              n,
          reads,
          built,
          bound_,
          takes,
        )
        (ap (λ t. t.resolv)
            (serve_taken-panicked E log http dns host config
              (record facts { no_takeover = false; bound = true }) listen
              (parse_nameservers host.std original) r _ _ panics fine)
          ∙ redirected)
