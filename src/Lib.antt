-- ===== src/Lib.antt =====
-- Detour: a local DNS proxy that resolves over HTTPS, with a filter that fragments TLS handshakes.
--
-- The program's core is the crate crates/dns-core. A query's name is put to the policy, which sends
-- it to DNS over HTTPS or to the network's own resolver; the DoH resolver serves it from its cache
-- or asks its providers in order. crates/dns-helper is the privileged helper around it; of it the
-- handling of one query, the forwarder, the takeover of resolv.conf, the status snapshot, the per-app
-- tunnel, the moving of a running app into it, the fragmenting proxy with its redirect, and the
-- diagnosis of a name are modelled.
--
-- Files and what they model:
--   Policy     crates/dns-core/src/policy.rs: Policy, Route, suffix_matches, is_builtin_local,
--              is_private_reverse, route. Proofs in Policy/Normal, Suffix, Reverse, Routing.
--   Provider   crates/dns-core/src/provider.rs: the providers, host, bootstrap_addrs. Provider/Host.
--   Config     crates/dns-core/src/config.rs: load, validate, policy_for. Config/Validation and
--              Config/Profiles.
--   Cache      crates/dns-core/src/cache.rs: the map, get_at, insert_at, evict_one, purge_expired,
--              cacheable_ttl. Cache/Map, Lifetime, Reads, Eviction, Purge.
--   Resolver   crates/dns-core/src/resolver.rs: with_capacity, query_one, resolve_uncached, resolve.
--              Resolver/Build, Query, Fallback, Caching.
--   Dpi        crates/dns-helper/src/dpi.rs: sni_split_offset, fragment_client_hello. Dpi/Scan,
--              Hello, Records, Severed.
--   Forwarder  crates/dns-helper/src/upstream.rs: try_one, forward. Forwarder/Order.
--   Proxy      crates/dns-helper/src/proxy.rs: QueryLog, handle, servfail, truncate_if_needed.
--              Proxy/Log, Privacy, Ids, Truncation.
--   Resolvconf crates/dns-helper/src/resolvconf.rs: take_over, restore, reconcile_after_crash,
--              parse_nameservers. Resolvconf/Nameservers, Recovery, Restoring, RoundTrip.
--   Tunnel     crates/dns-helper/src/tunnel.rs: WgConfig::parse (Tunnel, Keys); the rules and commands
--              (Steps), run, up and down (Bringup); what nft and ip document (Kernel). Cleared,
--              FailClosed, Secret.
--   Apps       crates/dns-helper/src/apps.rs: parse_ppid, descendants, hold_unit; Sockets has
--              parse_ss_line, is_local_destination, ss_kill_filter; Scopes has migrate,
--              capture_flatpak, idle_holds. Apps/Tree, Descendants, Local, Capture.
--   Helper     crates/dns-helper/src/main.rs: invoking_uid; Attach has attach, Run has
--              run, restore and stop. Owned, Safety, Lifecycle, Unrestored.
--   FilterRoute crates/dns-helper/src/filter_route.rs, and filter_route_cmd of main.rs. Rollback.
--   DpiProxy   crates/dns-helper/src/dpi_proxy.rs: parse_connect_target, handle, handle_transparent,
--              splice. Tunnelled.
--   Diagnose   crates/dns-helper/src/diagnose.rs: via_isp, via_doh, check, conclude.
--              Addresses (same_set), Probes, Conclusions.
--   Status     crates/dns-helper/src/status.rs: snapshot, read_snapshot. Status/Staleness.
--   Desktop    src-tauri/src/main.rs: helper_path, start_protection, stop_protection, tunnel_up,
--              filter_route_on and what they run. Desktop/Started.
--   Net, Dns   the standard library's addresses and the hickory-proto crate, as parameters.
--   Prelude    shared names, tests on numbers, lists, byte texts and results.
-- The Examples of each part hold the witnesses and run the model on small inputs.
--
-- How the code is modelled:
--   * A text is its list of bytes, a byte a number; trim takes off ASCII white space.
--   * An Instant and a Duration are numbers of nanoseconds; now - stored_at on numbers is
--     saturating_duration_since. Operations take the time as an argument, as get_at and insert_at.
--   * The hash map is a list of its entries; an order that the map yields is the list's.
--   * Names, records and messages are those of a parameter (Dns), whose accessors obey DnsLaws where
--     a theorem needs it. The HTTP client passes on the state of the network; between the two locks
--     of the cache in resolve, other tasks change the cache by any function. A handled query changes
--     the state of one proxy; queries of other tasks come before or after it.
--   * The disk of Resolvconf is the files that the code touches. A run does as many writes as its
--     allowance permits and stops there: a failing write and a crash leave the same disk. So no
--     write succeeds after one that failed.
--   * The loop over the extensions of a ClientHello has as much fuel as the message has bytes; each
--     round reads four bytes or more, so a larger bound gives the same result. trim_end_matches has
--     the length of the text as fuel: each round removes a byte at least.
--   * The loop of descendants has as much fuel as there are roots and pairs, and one more: a round
--     visits one process, and each process that it adds uses up a pair. Other loops on numbers run
--     as often as the source says (five rounds of attach). A capture has a round for each five
--     milliseconds of its time, which a round sleeps.
--   * What the commands nft, ip, wg and ss do to the kernel is a parameter, and each may fail or not
--     be started. The laws speak of a deletion only where it succeeds; of a file of rules they say
--     that nft loads all of it or nothing. The theorems on failures start where nothing is marked or
--     redirected, or where the first deletion succeeds, since down ignores one that fails.
--   * A connection of the fragmenting proxy may end after any number of the bytes of the first
--     flight, and the copying of what follows after any number of bytes.
--   * The worlds that the commands of up leave are recorded, as are the writes and resets of attach,
--     so that a theorem can speak of every moment of a run.
--   * Each address is probed once in check, so the probe is a function of the address.
--
-- Not modelled: sockets, processes and timers, the other files that dns-helper writes, the
-- other commands of src-tauri, and the text of error messages.
pub mod Apps
pub mod Prelude
pub mod Net
pub mod Policy
pub mod Provider
pub mod Config
pub mod Dns
pub mod Cache
pub mod Dpi
pub mod Resolver
pub mod Forwarder
pub mod Helper
pub mod FilterRoute
pub mod DpiProxy
pub mod Proxy
pub mod Resolvconf
pub mod Tunnel
pub mod Desktop
pub mod Diagnose
pub mod Status
