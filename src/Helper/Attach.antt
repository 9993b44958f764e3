-- ===== src/Helper/Attach.antt =====
-- crates/dns-helper/src/main.rs: `attach`, which moves the processes of an app into its holding
-- scope. The world is what the calls change, a parameter with the calls themselves.
use detour.Prelude.{
  Bool, List, Option, Result, Text, [], any, bytes, contains, err, false, filter, if◌then◌else◌,
  none, not, ok, some, starts_with, suc, text_eq, true, zero, ℕ, ◌&&◌, ◌++◌, ◌==◌, ◌∷◌,
}
use detour.Net.{AddressText}
use detour.Apps.{descendants, user_service_cgroup}
use detour.Apps.Scopes.{Moving, denied, done, gone}
use detour.Apps.Sockets.{SocketEntry, is_local_destination, parse_ss_line, ss_kill_filter}
use detour.Tunnel.Steps.{slice}

pub data AttachError : Type 0 where
  is_root no_scope outside_slice no_listing : AttachError
  wrong_owner : ℕ → ℕ → AttachError
  not_running cannot_move : ℕ → AttachError

pub record Host (W : Type 0) : Type 0 where
  pub canonicalize : Text → W → Option Text
  pub process_table : W → List (ℕ × ℕ)
  pub process_uid : ℕ → W → Option ℕ
  -- the file, the process
  pub write_pid : Text → ℕ → W → Moving × W
  -- the lines of `ss -tunpH`
  pub listing : W → Option (List Text)
  -- `ss -K` with the flag of the protocol and the filter
  pub kill : Text → Text → W → Bool × W
  pub std : AddressText

-- A write of a process id: the file, the process, and the world in which its owner was read.
pub record Write (W : Type 0) : Type 0 where
  pub target : Text
  pub pid : ℕ
  pub checked_in : W

-- `wrote` and `resets` record the calls made.
pub record Progress (W : Type 0) : Type 0 where
  pub world : W
  pub moved : List ℕ
  pub wrote : List (Write W)
  pub resets : List SocketEntry
  pub reset_count : ℕ

-- `starts_with` of paths and not the same path: the path lies below.
unfoldable pub lies_below : Text → Text → Bool
lies_below path dir = starts_with path (dir ++ bytes "/")

abbrev pub owned_by : ℕ → Option ℕ → Bool
owned_by uid none = false
owned_by uid (some owner) = owner == uid

abbrev pub tree_of : Option (List ℕ) → List ℕ
tree_of none = []
tree_of (some out) = out

-- The slice of the user.
abbrev pub slice_path : ℕ → Text
slice_path uid = user_service_cgroup uid ++ bytes "/" ++ slice

module _ {W : Type 0} (host : Host W) (uid : ℕ) where
  abbrev pub check_owner : ℕ → Option ℕ → Result AttachError (Unit {0})
  check_owner pid none = err (not_running pid)
  check_owner pid (some owner) = if owner == uid then ok tt else err (wrong_owner pid owner)

  unfoldable pub check_roots : List ℕ → W → Result AttachError (Unit {0})
  check_roots [] w = ok tt
  check_roots (pid ∷ roots) w = elim (check_owner pid (host.process_uid pid w)) [
    | err e ↦ err e
    | ok u ↦ check_roots roots w
  ]

  -- The processes of the tree that are not moved yet and belong to the user.
  unfoldable pub fresh : List ℕ → Progress W → List ℕ
  fresh roots p =
      filter (λ pid. not (contains p.moved pid) && owned_by uid (host.process_uid pid p.world))
        (tree_of (descendants roots (host.process_table p.world)))

  module _ (procs_file : Text) where
    abbrev pub noted : ℕ → W → W → Progress W → Progress W
    noted pid checked_in w p = record p {
      world = w;
      wrote = p.wrote ++ record { target = procs_file; pid = pid; checked_in = checked_in } ∷ [];
    }

    -- The loop over the fresh processes of a round, which began in the given world.
    unfoldable pub move_all : W → List ℕ → Progress W → Result AttachError (Unit {0}) × Progress W
    move_all start [] p = (ok tt, p)
    move_all start (pid ∷ pids) p =
        let (how, w) = host.write_pid procs_file pid p.world in
        let q = noted pid start w p in
        elim how [
          | done ↦ move_all start pids (record q { moved = p.moved ++ pid ∷ [] })
          | gone ↦ move_all start pids q
          | denied ↦ (err (cannot_move pid), q)
        ]

    -- At most so many rounds, until a round finds no fresh process.
    unfoldable pub rounds : ℕ → List ℕ → Progress W → Result AttachError (Unit {0}) × Progress W
    unfolding fresh move_all
    rounds zero roots p = (ok tt, p)
    rounds (suc k) roots p = elim (fresh roots p) [
      | [] ↦ (ok tt, p)
      | pid ∷ pids ↦
          let (r, q) = move_all p.world (pid ∷ pids) p in
          elim r [ err e ↦ (err e, q) | ok u ↦ rounds k roots q ]
    ]

  -- Whether a socket is reset.
  unfoldable pub to_reset : List ℕ → SocketEntry → Bool
  to_reset moved sock = any (contains moved) sock.pids && not (is_local_destination sock.peer.ip)

  abbrev proto_flag : Text → Text
  proto_flag proto = if text_eq proto (bytes "udp") then bytes "-u" else bytes "-t"

  abbrev pub reset_one : SocketEntry → Progress W → Progress W
  reset_one sock p =
      let (success, w) = host.kill (proto_flag sock.proto) (ss_kill_filter host.std sock) p.world in
      record p {
        world = w;
        resets = p.resets ++ sock ∷ [];
        reset_count = if success then suc p.reset_count else p.reset_count;
      }

  abbrev pub reset_socket : Option SocketEntry → Progress W → Progress W
  reset_socket none p = p
  reset_socket (some sock) p = if to_reset p.moved sock then reset_one sock p else p

  -- The loop over the lines of `ss`.
  unfoldable pub reset_all : List Text → Progress W → Progress W
  unfolding to_reset
  reset_all [] p = p
  reset_all (l ∷ ls) p = reset_all ls (reset_socket (parse_ss_line host.std l) p)

  abbrev pub reset_listed :
      Option (List Text) → Progress W → Result AttachError (Unit {0}) × Progress W
  reset_listed none p = (err no_listing, p)
  reset_listed (some ls) p = (ok tt, reset_all ls p)

  abbrev pub then_reset :
      Bool → Result AttachError (Unit {0}) × Progress W → Result AttachError (Unit {0}) × Progress W
  then_reset reset (err e, p) = (err e, p)
  then_reset false (ok u, p) = (ok tt, p)
  then_reset true (ok u, p) = reset_listed (host.listing p.world) p

  abbrev pub move_tree :
      Text
      → List ℕ
      → Bool
      → Result AttachError (Unit {0})
      → Progress W
      → Result AttachError (Unit {0}) × Progress W
  move_tree hold roots reset (err e) p = (err e, p)
  move_tree hold roots reset (ok u) p =
      then_reset reset (rounds (hold ++ bytes "/cgroup.procs") 5 roots p)

  abbrev pub attach_in :
      Option Text → List ℕ → Bool → Progress W → Result AttachError (Unit {0}) × Progress W
  attach_in none roots reset p = (err no_scope, p)
  attach_in (some hold) roots reset p =
      if lies_below hold (slice_path uid)
      then move_tree hold roots reset (check_roots roots p.world) p
      else (err outside_slice, p)

  unfoldable pub attach : Text → List ℕ → Bool → W → Result AttachError (Unit {0}) × Progress W
  unfolding rounds reset_all check_roots lies_below user_service_cgroup
  attach hold roots reset w =
      let start : Progress W = record {
        world = w;
        moved = [];
        wrote = [];
        resets = [];
        reset_count = 0;
      } in
      if uid == 0
      then (err is_root, start)
      else attach_in (host.canonicalize hold w) roots reset start
