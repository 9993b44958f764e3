-- ===== src/Tunnel/Bringup.antt =====
-- crates/dns-helper/src/tunnel.rs: `up` and `down`. The world is what the commands change, a
-- parameter with their running; the worlds that the commands left are recorded, the latest first.
use detour.Prelude.{
  Bool, List, Option, Result, Text, [], err, false, find, if◌then◌else◌, none, ok, some, take, true,
  ℕ, ◌∷◌,
}
use detour.Net.{SocketAddr, v4, v6}
use detour.Tunnel.{WgConfig}
use detour.Tunnel.Steps.{Step, down_steps, nft_ruleset, up_steps, with_endpoint}

-- How a command ended: with success, with what it wrote to stderr, or without being started.
pub data Ran : Type 0 where
  succeeded not_spawned : Ran
  refused : Text → Ran

-- How `write_private` ended: not at all if the file cannot be opened, or after so much of the text.
pub data Written : Type 0 where
  whole not_opened : Written
  cut_short : ℕ → Written

pub data UpError : Type 0 where
  command_failed : List Text → Text → UpError
  spawn_failed : List Text → UpError
  bad_endpoint : Text → UpError
  cannot_write : UpError

pub record Machine (W : Type 0) : Type 0 where
  pub world : W
  pub seen : List W
  -- the file with the private key, as its lines
  pub setconf_file : Option (List Text)
  pub nft_file : Option Text

-- How the calls on files end, and what the resolver of the system knows of an endpoint.
pub record Io : Type 0 where
  pub dir_made : Bool
  pub setconf_write : Written
  pub nft_write : Written
  pub removed : Bool
  pub is_socket_v4 : Text → Bool
  pub lookup : Text → Option (List SocketAddr)
  pub show_socket : SocketAddr → Text

abbrev is_ipv4 : SocketAddr → Bool
is_ipv4 a = elim a.ip [ v4 n ↦ true | v6 n ↦ false ]

abbrev first_v4 : Io → Option (List SocketAddr) → Option Text
first_v4 io none = none
first_v4 io (some addrs) = elim (find is_ipv4 addrs) [
  | none ↦ none
  | some a ↦ some (io.show_socket a)
]

unfoldable pub resolve_endpoint_v4 : Io → Text → Option Text
resolve_endpoint_v4 io endpoint =
    if io.is_socket_v4 endpoint then some endpoint else first_v4 io (io.lookup endpoint)

abbrev pinned : Io → WgConfig → Option Text → Result UpError (List Text)
pinned io config none = ok config.setconf
pinned io config (some ep) = elim (resolve_endpoint_v4 io ep) [
  | none ↦ err (bad_endpoint ep)
  | some v4_addr ↦ ok (with_endpoint config.setconf v4_addr)
]

-- The `setconf` text with the endpoint's IPv4 address.
unfoldable pub setconf_text : Io → WgConfig → Result UpError (List Text)
unfolding resolve_endpoint_v4 with_endpoint
setconf_text io config = pinned io config config.endpoint

abbrev pub step_result : Step → Ran → Result UpError (Unit {0})
step_result s succeeded = ok tt
step_result s (refused stderr) = if s.optional then ok tt else err (command_failed s.argv stderr)
step_result s not_spawned = err (spawn_failed s.argv)

module _ {W : Type 0} (exec : List Text → W → Ran × W) where
  abbrev after : W → Machine W → Machine W
  after w m = record m { world = w; seen = w ∷ m.seen }

  unfoldable pub run : Step → Machine W → Result UpError (Unit {0}) × Machine W
  run s m = (step_result s (exec s.argv m.world).0, after (exec s.argv m.world).1 m)

  -- `try_for_each(run)`
  unfoldable pub run_all : List Step → Machine W → Result UpError (Unit {0}) × Machine W
  unfolding run
  run_all [] m = (ok tt, m)
  run_all (s ∷ ss) m = elim (run s m).0 [
    | err e ↦ (err e, (run s m).1)
    | ok u ↦ run_all ss (run s m).1
  ]

  -- Each step, whatever becomes of it.
  unfoldable pub run_each : List Step → Machine W → Machine W
  unfolding run
  run_each [] m = m
  run_each (s ∷ ss) m = run_each ss (run s m).1

  unfoldable pub down : Machine W → Machine W
  unfolding run_each
  down m = run_each down_steps m

  abbrev pub roll_back :
      Result UpError (Unit {0}) × Machine W → Result UpError (Unit {0}) × Machine W
  roll_back (ok u, m) = (ok u, m)
  roll_back (err e, m) = (err e, down m)

  -- The removal of the file with the key.
  abbrev pub forget_key : Bool → Machine W → Machine W
  forget_key true m = record m { setconf_file = none }
  forget_key false m = m

  module _ (io : Io) (config : WgConfig) (uid : ℕ) (setconf_path nft_path : Text) where
    abbrev pub install : Machine W → Result UpError (Unit {0}) × Machine W
    install m =
        let (r, m') = run_all (up_steps config setconf_path nft_path) m in
        roll_back (r, forget_key io.removed m')

    abbrev pub write_nft : Written → Machine W → Result UpError (Unit {0}) × Machine W
    write_nft whole m = install (record m { nft_file = some (nft_ruleset uid) })
    write_nft not_opened m = (err cannot_write, m)
    write_nft (cut_short n) m =
        (err cannot_write, record m { nft_file = some (take n (nft_ruleset uid)) })

    abbrev pub write_setconf :
        Written → List Text → Machine W → Result UpError (Unit {0}) × Machine W
    write_setconf whole lines m = write_nft io.nft_write (record m { setconf_file = some lines })
    write_setconf not_opened lines m = (err cannot_write, m)
    write_setconf (cut_short n) lines m =
        (err cannot_write, record m { setconf_file = some (take n lines) })

    abbrev pub with_text :
        Result UpError (List Text) → Machine W → Result UpError (Unit {0}) × Machine W
    with_text (err e) m = (err e, m)
    with_text (ok lines) m = write_setconf io.setconf_write lines m

    unfoldable pub up : Machine W → Result UpError (Unit {0}) × Machine W
    unfolding down run_all up_steps setconf_text nft_ruleset
    up m =
        if io.dir_made
        then with_text (setconf_text io config) (down m)
        else (err cannot_write, down m)
