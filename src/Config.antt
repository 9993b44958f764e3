-- ===== src/Config.antt =====
-- crates/dns-core/src/config.rs: the configuration, its validation, and the policy of a profile.
-- The environment, the file system and the TOML reader enter as arguments.
pub mod Validation
pub mod Profiles
mod Examples
use detour.Prelude.{
  List, Option, Text, [], all, bytes, find, if◌then◌else◌, is_empty, is_space, none, some, split,
  text_eq, ◌++◌, ◌∷◌,
}
use detour.Net.{AddressText, SocketAddr}
use detour.Policy.{Policy, default_policy, set_force_doh}
use detour.Provider.{Provider, default_providers, host}

pub record AppProfile : Type 0 where
  pub id : Text
  pub name : Text
  pub domains : List Text
  pub launch_command : Option Text
  pub launch_args : List Text
  pub notes : Option Text

pub record TunnelApp : Type 0 where
  pub name : Text
  pub command : Text
  pub args : List Text
  pub process : Option Text

abbrev pub tunnel_app_new : Text → Text → TunnelApp
tunnel_app_new name command = record { name = name; command = command; args = []; process = none }

-- `command.rsplit('/').next()`: what stands behind the last slash.
unfoldable pub last_piece : List Text → Text
last_piece [] = []
last_piece (s ∷ []) = s
last_piece (s ∷ t ∷ rest) = last_piece (t ∷ rest)

unfoldable pub basename : Text → Text
unfolding last_piece
basename command = last_piece (split b'/' command)

unfoldable pub process_name : TunnelApp → Text
unfolding basename
process_name app = elim app.process [ none ↦ basename app.command | some p ↦ p ]

abbrev pub default_tunnel_apps : List TunnelApp
default_tunnel_apps =
    tunnel_app_new (bytes "Brave") (bytes "brave")
    ∷ tunnel_app_new (bytes "Steam") (bytes "steam")
    ∷ []

pub record Config : Type 0 where
  pub listen : Text
  pub providers : List Provider
  pub policy : Policy
  pub profiles : List AppProfile
  pub tunnel_apps : List TunnelApp

unfoldable pub default_config : AddressText → Config
default_config std = record {
  listen = bytes "127.0.0.53:53";
  providers = default_providers std;
  policy = default_policy;
  profiles = [];
  tunnel_apps = default_tunnel_apps;
}

pub data ConfigError : Type 0 where
  io parse : Text → ConfigError
  no_config_dir : ConfigError

-- The results of the standard library's file operations that the code tells apart.
pub data ReadFile : Type 0 where
  contents : Text → ReadFile
  not_found other_error : ReadFile

pub data Loaded : Type 0 where
  loaded : Config → Loaded
  load_failed : ConfigError → Loaded

-- `Config::load`; `from_toml` is the `toml` crate.
unfoldable pub load : AddressText → (Text → Option Config) → Text → ReadFile → Loaded
load std from_toml path (contents text) = elim (from_toml text) [
  | none ↦ load_failed (parse path)
  | some c ↦ loaded c
]
load std from_toml path not_found = loaded (default_config std)
load std from_toml path other_error = load_failed (io path)

-- The messages of `validate`, by the provider that they name.
pub data Invalid : Type 0 where
  no_providers unnamed_provider bad_listen : Invalid
  not_https no_bootstrap : Text → Invalid

pub data Validity : Type 0 where
  valid : Validity
  invalid : Invalid → Validity

-- One round of the loop over the providers; `rest` is the rest of the function.
unfoldable pub validate_provider : Provider → Validity → Validity
validate_provider p rest = if all is_space p.name then invalid unnamed_provider else elim (host p) [
  | none ↦ invalid (not_https p.name)
  | some h ↦ if is_empty p.bootstrap then invalid (no_bootstrap p.name) else rest
]

unfoldable pub validate_providers : List Provider → Validity → Validity
unfolding validate_provider
validate_providers [] rest = rest
validate_providers (p ∷ ps) rest = validate_provider p (validate_providers ps rest)

abbrev validate_listen : Option SocketAddr → Validity
validate_listen none = invalid bad_listen
validate_listen (some addr) = valid

unfoldable pub validate : AddressText → Config → Validity
unfolding validate_providers
validate std c =
    if is_empty c.providers
    then invalid no_providers
    else validate_providers c.providers (validate_listen (std.parse_socket c.listen))

unfoldable pub tunnel_app : Config → Text → Option TunnelApp
tunnel_app c name = find (λ a. text_eq a.name name) c.tunnel_apps

unfoldable pub profile : Config → Text → Option AppProfile
profile c id = find (λ p. text_eq p.id id) c.profiles

-- `profile_id.and_then(|id| self.profile(id))`
unfoldable pub active_profile : Config → Option Text → Option AppProfile
unfolding profile
active_profile c none = none
active_profile c (some id) = profile c id

unfoldable pub with_profile : Policy → Option AppProfile → Policy
with_profile policy none = policy
with_profile policy (some p) = set_force_doh policy (policy.force_doh ++ p.domains)

unfoldable pub policy_for : Config → Option Text → Policy
unfolding with_profile
policy_for c profile_id = with_profile c.policy (active_profile c profile_id)
