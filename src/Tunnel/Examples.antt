-- ===== src/Tunnel/Examples.antt =====
-- tunnel.rs: a configuration with a hook command, which is dropped.
use detour.Prelude.{
  All, Text, [], bytes, ends_with, err, false, inl, none, ok, parse_uint, refl, show_uint, split,
  split_once, starts_with, text_eq, to_ascii_lowercase, true, ◌++◌, ◌↔◌, ◌∷◌, ◌≡◌, ◌≢◌,
}
use detour.Tunnel.Steps.{load_rules, nft_ruleset}
use detour.Tunnel.Bringup.{Io, Machine, command_failed, not_opened, setconf_text, up, whole}
use detour.Tunnel.Kernel.{FailsClosed, RuleGone}
use detour.Tunnel.FailClosed.{up-FailsClosed, up-err}
use detour.Tunnel.Secret.{up-setconf_file_none_iff}
use detour.Tunnel.Sample.{Routing, cold, sample-KernelLaws, sample_exec}
use detour.Tunnel.{WgConfig, is_ipv4_cidr, parse}
use detour.Tunnel.Keys.{IsAllowed, parse-IsAllowed}

abbrev with_hook : Text
with_hook =
    bytes "[Interface]\nPrivateKey = k=\nAddress = 10.0.0.2/32 # v4\nPostUp = rm\n"
    ++ bytes "[Peer]\nPublicKey=p=\n"

abbrev without_hook : WgConfig
without_hook = record {
  addresses_v4 = bytes "10.0.0.2/32" ∷ [];
  mtu = none;
  setconf =
      bytes "[Interface]" ∷ bytes "privatekey = k=" ∷ bytes "[Peer]" ∷ bytes "publickey = p=" ∷ [];
  endpoint = none;
}

hook_dropped : parse (λ s. true) with_hook ≡ ok without_hook
unfolding parse split starts_with ends_with to_ascii_lowercase split_once parse_uint
hook_dropped = refl

parse-IsAllowed_example :
    All IsAllowed without_hook.setconf
    × All (λ a. is_ipv4_cidr (λ s. true) a ≡ true) without_hook.addresses_v4
    × (without_hook.addresses_v4 ≢ [])
parse-IsAllowed_example = parse-IsAllowed (λ s. true) with_hook without_hook hook_dropped

abbrev io : Io
io = record {
  dir_made = true;
  setconf_write = whole;
  nft_write = whole;
  removed = true;
  is_socket_v4 = λ t. false;
  lookup = λ t. none;
  show_socket = λ a. [];
}

abbrev fresh : Machine Routing
fresh = record { world = cold; seen = []; setconf_file = none; nft_file = none }

abbrev nft_file_path : Text
nft_file_path = bytes "/run/t.nft"

up-FailsClosed_example :
    All
      (FailsClosed (λ w. w.marked) (λ w. w.unreachable) (λ w. w.ruled))
      (up (sample_exec true) io without_hook 1000 (bytes "/run/s") nft_file_path fresh).1.seen
up-FailsClosed_example =
    up-FailsClosed (sample_exec true) (λ w. w.marked) (λ w. w.unreachable) (λ w. w.ruled)
      nft_file_path (sample-KernelLaws true) io without_hook 1000 (bytes "/run/s") fresh refl
      (inl refl)

-- The run of the example brings the tunnel up.
up_succeeds :
    (up (sample_exec true) io without_hook 1000 (bytes "/run/s") nft_file_path fresh).1.world
    ≡ record { marked = true; unreachable = true; ruled = true }
unfolding up sample_exec text_eq nft_ruleset show_uint split
up_succeeds = refl

up_fails :
    (up (sample_exec false) io without_hook 1000 (bytes "/run/s") nft_file_path fresh).0
    ≡ err (command_failed (load_rules nft_file_path) (bytes "no cgroup"))
unfolding up sample_exec text_eq nft_ruleset show_uint split
up_fails = refl

up-err_example :
    ((up
        (sample_exec false)
        io
        without_hook
        1000
        (bytes "/run/s")
        nft_file_path
        fresh).1.world.marked
      ≡ false)
    × RuleGone
        (sample_exec false)
        (λ w. w.ruled)
        (up (sample_exec false) io without_hook 1000 (bytes "/run/s") nft_file_path fresh).1.world
        (up (sample_exec false) io without_hook 1000 (bytes "/run/s") nft_file_path fresh).1.seen
up-err_example =
    up-err (sample_exec false) (λ w. w.marked) (λ w. w.unreachable) (λ w. w.ruled) nft_file_path
      (sample-KernelLaws false) io without_hook 1000 (bytes "/run/s") fresh refl (inl refl)
      (command_failed (load_rules nft_file_path) (bytes "no cgroup")) up_fails

abbrev full_disk : Io
full_disk = record io { nft_write = not_opened }

setconf_kept : setconf_text full_disk without_hook ≡ ok without_hook.setconf
unfolding setconf_text
setconf_kept = refl

up-setconf_file_none_iff_example :
    ((up
        (sample_exec true)
        full_disk
        without_hook
        1000
        (bytes "/run/s")
        nft_file_path
        fresh).1.setconf_file
      ≡ none)
    ↔ (full_disk.nft_write ≡ whole)
up-setconf_file_none_iff_example =
    up-setconf_file_none_iff (sample_exec true) full_disk without_hook 1000 (bytes "/run/s")
      nft_file_path refl fresh without_hook.setconf refl setconf_kept refl
