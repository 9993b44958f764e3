-- ===== src/Helper/Lifecycle.antt =====
-- `run` from its start to its end, and what it leaves of the system's DNS.
use detour.Prelude.{
  Bool, Bool-cases, List, Option-cases, Result, Text, arith, err, err_ne_ok, false, if◌then◌else◌,
  inl, inr, none, ok, refl, some, subst, sym, true, ℕ, ◌≡◌, ◌≢◌, ◌≤◌, ◌⊎◌,
}
use detour.Net.{IpAddr, SocketAddr}
use detour.Dns.{Dns}
use detour.Config.{Config}
use detour.Resolver.{DohResolver, Http, ResolveError, new}
use detour.Resolvconf.{
  Disk, Host, JsonRoundTrip, Machine, ResolvError, TakeoverState, read_node, reconcile_after_crash,
  restore, take_over,
}
use detour.Proxy.{QueryLog}
use detour.Resolvconf.RoundTrip.{reconcile_after_crash_free, restore-take_over, take_over-ok}
use detour.Helper.Run.{
  End, Facts, Left, RunError, at_end, base_snapshot, current_nameservers, fail_down, finish,
  interrupted, no_handler, no_signals, proxy_panicked, publish, reconciled, restored, run, serve,
  serve_taken, server_done, server_failed, server_panicked, shut_down, terminated, with_servers,
}

module _ (E : Type 0) (log : QueryLog E) (http : Http) (dns : Dns) (host : Host) (config : Config)
    (facts : Facts) (json : JsonRoundTrip host) (original : Text) (d : Disk) (free : d.state ≡ none)
    (reads : read_node d.resolv d.target_text ≡ some original) (n : ℕ) (start_writes : 5 ≤ n) where
  abbrev Untouched : Disk → Type 0
  Untouched e = (e.resolv ≡ d.resolv) × (e.nm_dropin ≡ d.nm_dropin)

  same : Untouched d
  same = (refl, refl)

  abbrev machine : Machine
  machine = record { disk = d; allowance = n }

  module _ (end_writes : 5 ≤ facts.later) (listen : SocketAddr) where
    abbrev after : Result ResolvError TakeoverState × Machine
    after = take_over host facts.pid facts.now listen.ip machine

    restored_back :
        Untouched (restore host (record { disk = after.1.disk; allowance = facts.later })).1.disk
    restored_back =
        let (resolv, dropin, backup, state) =
          restore-take_over host json facts.pid facts.now listen.ip original d free reads n
            facts.later start_writes end_writes in
        (resolv, dropin)

    abbrev End_disk : Result RunError (Unit {0}) × Left E → Disk
    End_disk x = x.1.machine.disk

    restored-disk :
        (r : Result ResolvError (Unit {0}) × Machine)
        → Untouched r.1.disk
        → Untouched (End_disk (restored E log http dns host config facts r))
    restored-disk (err e, m) h = h
    restored-disk (ok u, m) h = h

    -- The run was told not to take over, or has neither of the errors on which it returns at once.
    abbrev pub Restores : Result RunError (Unit {0}) × Left E → Type 0
    Restores x = (facts.no_takeover ≡ true) ⊎ ((x.0 ≢ err proxy_panicked) × (x.0 ≢ err no_signals))

    finish-taken :
        (end : End) (left : Left E)
        → facts.no_takeover ≡ false
        → left.machine.disk ≡ after.1.disk
        → Restores (finish E log http dns host config facts end true left)
        → Untouched (End_disk (finish E log http dns host config facts end true left))
    finish-taken end left takes e = ends end
      where
        shut : Untouched (
            End_disk (
              shut_down E log http dns host config facts true
                (at_end E log http dns host config facts left.machine)))
        shut =
            subst
              (λ x. Untouched (
                End_disk (
                  restored E log http dns host config facts
                    (restore host (record { disk = x; allowance = facts.later })))))
              (sym e)
              (restored-disk
                (restore host (record { disk = after.1.disk; allowance = facts.later }))
                restored_back)

        failed_ : Untouched (
            End_disk (
              fail_down E log http dns host config facts true
                (at_end E log http dns host config facts left.machine)))
        failed_ =
            subst
              (λ x. Untouched (restore host (record { disk = x; allowance = facts.later })).1.disk)
              (sym e) restored_back

        told : facts.no_takeover ≡ true → ⊥
        told k = ground (arith, k, takes)

        ends :
            (end_ : End)
            → Restores (finish E log http dns host config facts end_ true left)
            → Untouched (End_disk (finish E log http dns host config facts end_ true left))
        ends interrupted o = shut
        ends terminated o = shut
        ends server_done o = shut
        ends server_failed o = failed_
        ends server_panicked (inl k) = absurd (told k)
        ends server_panicked (inr (not_panicked, set)) = absurd (not_panicked refl)
        ends no_handler (inl k) = absurd (told k)
        ends no_handler (inr (not_panicked, set)) = absurd (set refl)

    finish-untaken :
        (end : End) (left : Left E)
        → left.machine.disk ≡ d
        → Untouched (End_disk (finish E log http dns host config facts end false left))
    finish-untaken interrupted left e = subst Untouched (sym e) same
    finish-untaken terminated left e = subst Untouched (sym e) same
    finish-untaken server_done left e = subst Untouched (sym e) same
    finish-untaken server_failed left e = subst Untouched (sym e) same
    finish-untaken server_panicked left e = subst Untouched (sym e) same
    finish-untaken no_handler left e = subst Untouched (sym e) same

    abbrev serving :
        List IpAddr → DohResolver http dns → Machine → Result RunError (Unit {0}) × Left E
    serving ips r m = finish E log http dns host config facts facts.end true (
        publish E log http dns host config facts
          (base_snapshot E log http dns host config facts listen ips r true) m)

    serve_taken-ok :
        (ips : List IpAddr) (r : DohResolver http dns)
        (a : Result ResolvError TakeoverState × Machine) (s : TakeoverState)
        → a.0 ≡ ok s
        → serve_taken E log http dns host config facts listen ips r a ≡ serving ips r a.1
    serve_taken-ok ips r (ok t, m) s e = refl
    serve_taken-ok ips r (err x, m) s e = absurd (err_ne_ok e)

    took_over :
        (ips : List IpAddr) (r : DohResolver http dns)
        → serve_taken E log http dns host config facts listen ips r after ≡ serving ips r after.1
    took_over ips r =
        serve_taken-ok ips r after _
          (take_over-ok host json facts.pid facts.now listen.ip original d free reads n
            start_writes).0

    -- What is proved of each part of the run.
    abbrev Leaves : Result RunError (Unit {0}) × Left E → Type 0
    Leaves x = Restores x → Untouched (End_disk x)

    -- The run from the decision on the takeover on.
    abbrev taking : List IpAddr → DohResolver http dns → Bool → Result RunError (Unit {0}) × Left E
    taking ips r told =
        if told
        then finish E log http dns host config facts facts.end false (
            publish E log http dns host config facts
              (base_snapshot E log http dns host config facts listen ips r false) machine)
        else serve_taken E log http dns host config facts listen ips r after

    serve-Untouched :
        (ips : List IpAddr) (r : Result ResolveError (DohResolver http dns))
        → Leaves (serve E log http dns host config facts listen ips r machine)
    serve-Untouched ips (err e) = λ o. same
    serve-Untouched ips (ok r) = elim (Bool-cases facts.bound) [
      | inr unbound ↦ rw unbound (λ o. same)
      | inl bound_ ↦ rw bound_ (elim (Bool-cases facts.no_takeover) [
        | inl kept ↦
            subst (λ b. Leaves (taking ips r b)) (sym kept) (λ o. finish-untaken facts.end _ refl)
        | inr takes ↦
            subst (λ b. Leaves (taking ips r b)) (sym takes)
              (subst Leaves (sym (took_over ips r)) (finish-taken facts.end _ takes refl))
      ])
    ]

    with_servers-Untouched :
        (ips : Result ResolvError (List IpAddr))
        → Leaves (with_servers E log http dns host config facts listen ips machine)
    with_servers-Untouched (err e) = λ o. same
    with_servers-Untouched (ok ips) =
        serve-Untouched ips (detour.Resolver.new http dns config.providers)

    reconciled-Untouched :
        Leaves
          (reconciled E log http dns host config facts listen (reconcile_after_crash host machine))
    reconciled-Untouched =
        subst (λ x. Leaves (reconciled E log http dns host config facts listen x))
          (sym (
            reconcile_after_crash_free host json facts.pid facts.now listen.ip original d free reads
              n))
          (with_servers-Untouched (current_nameservers host.std d))

  -- With five writes or more at its start and at its end, on a disk without a recorded takeover and
  -- with a readable `resolv.conf`, a run that is told not to take over leaves `resolv.conf` and the
  -- drop-in of NetworkManager as they were, however it ends; and so does every other run, whether it
  -- fails before the takeover or serves, unless its error is that of a panic of the proxy's task or
  -- of a handler of SIGTERM that cannot be installed.
  pub run-Untouched :
      5 ≤ facts.later
      → ((facts.no_takeover ≡ true)
          ⊎ (((run E log http dns host config facts (record { disk = d; allowance = n })).0
                ≢ err proxy_panicked)
              × ((run E log http dns host config facts (record { disk = d; allowance = n })).0
                  ≢ err no_signals)))
      → ((run E log http dns host config facts
            (record { disk = d; allowance = n })).1.machine.disk.resolv
          ≡ d.resolv)
        × ((run E log http dns host config facts
              (record { disk = d; allowance = n })).1.machine.disk.nm_dropin
            ≡ d.nm_dropin)
  unfolding run
  run-Untouched end_writes = elim (Option-cases (host.std.parse_socket config.listen)) [
    | inl bad ↦ rw (run, bad) (λ o. same)
    | inr (listen, e) ↦ rw (run, e) (reconciled-Untouched end_writes listen)
  ]
