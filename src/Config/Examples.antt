-- ===== src/Config/Examples.antt =====
-- config.rs: the theorems on a configuration with one provider and one profile.
use detour.Prelude.{[], bytes, false, none, some, ◌∷◌}
use detour.Net.{AddressText, v4}
use detour.Config.{Config}

-- Every text parses as the same address; `show_ip` is not used here.
abbrev one_address : AddressText
one_address = record {
  parse_ip = λ t. some (v4 1);
  show_ip = λ a. [];
  parse_socket = λ t. some (record { ip = v4 1; port = 53 });
}

abbrev one_profile : Config
one_profile = record {
  listen = bytes "127.0.0.53:53";
  providers = record { name = bytes "P"; url = bytes "https://p/q"; bootstrap = v4 1 ∷ [] } ∷ [];
  policy = record { default_doh = false; force_doh = []; force_local = [] };
  profiles =
      record {
        id = bytes "faceit";
        name = bytes "FACEIT";
        domains = bytes "faceit.com" ∷ [];
        launch_command = none;
        launch_args = [];
        notes = none;
      }
      ∷ [];
  tunnel_apps = [];
}
