-- ===== src/Tunnel/Steps.antt =====
-- crates/dns-helper/src/tunnel.rs: the texts and commands that bring the tunnel up and down. The
-- `setconf` text is its lines, as in the configuration.
use detour.Prelude.{
  Bool, List, Option, Text, [], bytes, cons_head, false, if◌then◌else◌, join, length, map, none,
  show_uint, some, split, starts_with, to_ascii_lowercase, true, ℕ, ◌++◌, ◌==◌, ◌∷◌,
}
use detour.Tunnel.{WgConfig}

abbrev pub iface : Text
iface = bytes "detour0"

abbrev pub slice : Text
slice = bytes "detourtunnel.slice"

abbrev default_mtu : ℕ
default_mtu = 1280

abbrev pub bypass_v4 : List Text
bypass_v4 =
    bytes "127.0.0.0/8"
    ∷ bytes "10.0.0.0/8"
    ∷ bytes "172.16.0.0/12"
    ∷ bytes "192.168.0.0/16"
    ∷ bytes "169.254.0.0/16"
    ∷ bytes "100.64.0.0/10"
    ∷ []

abbrev pub bypass_v6 : List Text
bypass_v6 = bytes "::1/128" ∷ bytes "fc00::/7" ∷ bytes "fe80::/10" ∷ []

abbrev endpoint_line : Text → Text → Text
endpoint_line endpoint l =
    if starts_with (to_ascii_lowercase l) (bytes "endpoint")
    then bytes "endpoint = " ++ endpoint
    else l

unfoldable pub with_endpoint : List Text → Text → List Text
with_endpoint setconf endpoint = map (endpoint_line endpoint) setconf

-- The path of the slice's cgroup, and its depth.
unfoldable pub slice_cgroup : ℕ → Text × ℕ
slice_cgroup uid =
    let path =
      bytes "user.slice/user-"
      ++ show_uint uid
      ++ bytes ".slice/user@"
      ++ show_uint uid
      ++ bytes ".service/"
      ++ slice in
    (path, length (split b'/' path))

unfoldable pub nft_ruleset : ℕ → Text
unfolding slice_cgroup
nft_ruleset uid =
    let (cgroup, level) = slice_cgroup uid in
    bytes
      "table inet detour_tunnel {\n\tchain output {\n\t\ttype route hook output priority mangle; policy accept;\n"
    ++ bytes "\t\tip daddr { "
    ++ join (bytes ", ") bypass_v4
    ++ bytes " } return\n\t\tip6 daddr { "
    ++ join (bytes ", ") bypass_v6
    ++ bytes " } return\n\t\tsocket cgroupv2 level "
    ++ show_uint level
    ++ bytes " \""
    ++ cgroup
    ++ bytes "\" meta mark set 0x5157\n\t}\n\tchain postrouting {\n"
    ++ bytes "\t\ttype nat hook postrouting priority srcnat; policy accept;\n\t\toifname \""
    ++ iface
    ++ bytes "\" masquerade\n\t}\n}\n"

pub record Step : Type 0 where
  pub argv : List Text
  pub optional : Bool

-- The words of a command that the source writes as a list.
abbrev pub line : Text → List Text
line [] = [] ∷ []
line (x ∷ s) = let rest = line s in if x == 32 then [] ∷ rest else cons_head x rest

abbrev pub step : List Text → Step
step argv = record { argv = argv; optional = false }

abbrev pub optional_step : List Text → Step
optional_step argv = record { argv = argv; optional = true }

abbrev pub address_step : Text → Step
address_step addr = step (line (bytes "ip -4 address add") ++ addr ∷ bytes "dev" ∷ iface ∷ [])

abbrev pub mtu_of : Option ℕ → ℕ
mtu_of none = default_mtu
mtu_of (some n) = n

-- The unreachable default route of the table, below the tunnel's.
abbrev pub add_unreachable : List Text
add_unreachable = line (bytes "ip -4 route add unreachable default metric 4096 table 51820")

-- The rule that sends marked packets to the table.
abbrev pub add_rule : List Text
add_rule = line (bytes "ip -4 rule add fwmark 0x5157 lookup 51820 priority 5157")

abbrev pub add_unreachable_v6 : List Text
add_unreachable_v6 = line (bytes "ip -6 route add unreachable default table 51820")

abbrev pub add_rule_v6 : List Text
add_rule_v6 = line (bytes "ip -6 rule add fwmark 0x5157 lookup 51820 priority 5157")

-- The commands before those of the routes. The constants stand in the commands as they are printed:
-- TABLE 51820, MARK 0x5157, RULE_PRIORITY 5157, IFACE detour0, NFT_TABLE detour_tunnel.
unfoldable pub link_steps : WgConfig → Text → List Step
link_steps config setconf_path =
    step (line (bytes "ip link add detour0 type wireguard"))
      ∷ step (line (bytes "wg setconf detour0") ++ setconf_path ∷ [])
      ∷ map address_step config.addresses_v4
    ++ step (
        line (bytes "ip link set mtu")
        ++ show_uint (mtu_of config.mtu) ∷ line (bytes "up dev detour0"))
      ∷ step (line (bytes "ip -4 route add default dev detour0 table 51820"))
      ∷ []

abbrev pub load_rules : Text → List Text
load_rules nft_path = line (bytes "nft -f") ++ nft_path ∷ []

unfoldable pub up_steps : WgConfig → Text → Text → List Step
unfolding link_steps
up_steps config setconf_path nft_path =
    link_steps config setconf_path
    ++ (step add_unreachable
        ∷ step add_rule
        ∷ optional_step add_unreachable_v6
        ∷ optional_step add_rule_v6
        ∷ step (load_rules nft_path)
        ∷ [])

abbrev pub delete_table : List Text
delete_table = line (bytes "nft delete table inet detour_tunnel")

abbrev pub delete_rule : List Text
delete_rule = line (bytes "ip -4 rule del priority 5157")

-- What `down` does once the marking is gone.
abbrev pub unroute_steps : List Step
unroute_steps =
    optional_step delete_rule
    ∷ optional_step (line (bytes "ip -6 rule del priority 5157"))
    ∷ optional_step (line (bytes "ip -4 route flush table 51820"))
    ∷ optional_step (line (bytes "ip -6 route flush table 51820"))
    ∷ optional_step (line (bytes "ip link del detour0"))
    ∷ []

abbrev pub down_steps : List Step
down_steps = optional_step delete_table ∷ unroute_steps
