-- ===== src/Provider/Examples.antt =====
-- provider.rs: the host of a provider with a port in its URL.
use detour.Prelude.{[], bytes}
use detour.Provider.{Provider}

abbrev with_a_port : Provider
with_a_port = record { name = bytes "P"; url = bytes "https://dns.example:8443/q"; bootstrap = [] }
