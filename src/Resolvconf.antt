-- ===== src/Resolvconf.antt =====
-- crates/dns-helper/src/resolvconf.rs: taking over `/etc/resolv.conf` and giving it back. The disk
-- is the files that the code touches; a run may stop after any number of writes (`allowance`): the
-- write that fails and the process that dies there leave the same disk.
pub mod Nameservers
pub mod Recovery
pub mod Restoring
pub mod RoundTrip
pub mod Sample
mod Examples
use detour.Net.{AddressText, IpAddr}
use detour.Resolvconf.Nameservers.{parse_nameservers}
use detour.Prelude.{
  Bool, List, Option, Result, Text, [], bytes, err, false, if◌then◌else◌, none, ok, some, suc, true,
  zero, ℕ, ◌&&◌, ◌++◌, ◌==◌, ◌∷◌, ◌≡◌,
}

-- What stands at a path: nothing, a file with its text, or a symbolic link to a path.
pub data Node : Type 0 where
  missing : Node
  file link : Text → Node

pub record Disk : Type 0 where
  pub resolv : Node
  pub backup : Option Text
  pub state : Option Text
  pub nm_dropin : Option Text
  -- whether the directory of the NetworkManager fragment exists
  pub nm_dir : Bool
  -- what is read through a link
  pub target_text : Text → Option Text

pub record Machine : Type 0 where
  pub disk : Disk
  pub allowance : ℕ

pub record TakeoverState : Type 0 where
  pub pid : ℕ
  pub taken_over_at : ℕ
  pub original_nameservers : List IpAddr
  pub original_symlink_target : Option Text
  pub wrote_nm_dropin : Bool

-- `Denied` and `Io` are one here: `failed`.
pub data ResolvError : Type 0 where
  failed corrupt_state no_backup : ResolvError
  already_active : ℕ → ResolvError

-- One call that changes the disk: `write_atomic` (whose rename makes it one step), `symlink`,
-- `remove_file` and `create_dir_all`.
pub data Write : Type 0 where
  make_state_dir : Write
  put_backup put_dropin put_state put_resolv link_resolv : Text → Write
  drop_resolv drop_dropin drop_state drop_backup : Write

unfoldable pub apply : Write → Disk → Disk
apply make_state_dir d = d
apply (put_backup t) d = record d { backup = some t }
apply (put_dropin t) d = record d { nm_dropin = some t }
apply (put_state t) d = record d { state = some t }
apply (put_resolv t) d = record d { resolv = file t }
apply (link_resolv t) d = record d { resolv = link t }
apply drop_resolv d = record d { resolv = missing }
apply drop_dropin d = record d { nm_dropin = none }
apply drop_state d = record d { state = none }
apply drop_backup d = record d { backup = none }

-- The writes in order, as many as the allowance permits, and whether all were done.
unfoldable pub execute : List Write → ℕ → Disk → Bool × Machine
unfolding apply
execute [] n d = (true, record { disk = d; allowance = n })
execute (w ∷ ws) zero d = (false, record { disk = d; allowance = 0 })
execute (w ∷ ws) (suc n) d = execute ws n (apply w d)

-- `fs::read_to_string(&self.resolv_path)`
abbrev pub read_node : Node → (Text → Option Text) → Option Text
read_node missing texts = none
read_node (file t) texts = some t
read_node (link p) texts = texts p

-- `symlink_metadata(..).filter(is_symlink).and_then(read_link)`
abbrev pub link_target : Node → Option Text
link_target missing = none
link_target (file t) = none
link_target (link p) = some p

abbrev pub is_none : Option Text → Bool
is_none none = true
is_none (some t) = false

-- The drop-in is written if NetworkManager is there and no such file is.
abbrev pub needs_dropin : Disk → Bool
needs_dropin d = d.nm_dir && is_none d.nm_dropin

-- The fragment that stops NetworkManager from writing `resolv.conf`.
abbrev pub dropin_body : Text
dropin_body =
    bytes "# Written by Detour while Detour DNS protection is active.\n"
    ++ bytes "# Removed automatically when protection is turned off.\n"
    ++ bytes "[main]\n"
    ++ bytes "dns=none\n"
    ++ bytes "rc-manager=unmanaged\n"

-- What the code takes from elsewhere: the JSON form of the state, addresses as texts, the path of
-- the backup, and whether a signal reaches a process.
pub record Host : Type 0 where
  pub to_json : TakeoverState → Text
  pub from_json : Text → Option TakeoverState
  pub std : AddressText
  pub backup_path : Text
  pub signal_reaches : ℕ → Bool

-- The file that takes the place of `resolv.conf`.
abbrev pub managed_body : Host → IpAddr → Text
managed_body host listen =
    bytes "# Managed by Detour. The original file is backed up at\n# "
    ++ host.backup_path
    ++ bytes "\n# and is restored automatically when DNS protection is turned off.\nnameserver "
    ++ host.std.show_ip listen
    ++ bytes "\noptions edns0 trust-ad\n"

-- A state that was written is read back.
abbrev pub JsonRoundTrip : Host → Type 0
JsonRoundTrip host = (s : TakeoverState) → host.from_json (host.to_json s) ≡ some s

module _ (host : Host) where
  unfoldable pub process_is_alive : ℕ → Bool
  process_is_alive pid = if pid == 0 then false else host.signal_reaches pid

  abbrev parsed_state : Option TakeoverState → Result ResolvError (Option TakeoverState)
  parsed_state none = err corrupt_state
  parsed_state (some s) = ok (some s)

  abbrev read_state_file : Option Text → Result ResolvError (Option TakeoverState)
  read_state_file none = ok none
  read_state_file (some t) = parsed_state (host.from_json t)

  unfoldable pub read_state : Disk → Result ResolvError (Option TakeoverState)
  read_state d = read_state_file d.state

  -- `self.read_state().ok().flatten()`
  abbrev known_state : Result ResolvError (Option TakeoverState) → Option TakeoverState
  known_state (err e) = none
  known_state (ok s) = s

  abbrev recorded_target : Option TakeoverState → Option Text
  recorded_target none = none
  recorded_target (some s) = s.original_symlink_target

  abbrev owns_dropin : Option TakeoverState → Bool
  owns_dropin none = true
  owns_dropin (some s) = s.wrote_nm_dropin

  abbrev put_back : Option Text → Text → List Write
  put_back none contents = put_resolv contents ∷ []
  put_back (some target) contents = drop_resolv ∷ link_resolv target ∷ []

  abbrev clean_up : Bool → List Write
  clean_up true = drop_dropin ∷ drop_state ∷ drop_backup ∷ []
  clean_up false = drop_state ∷ drop_backup ∷ []

  -- What follows when `resolv.conf` is back, whose failures are ignored.
  abbrev then_clean : Bool → Bool × Machine → Result ResolvError (Unit {0}) × Machine
  then_clean owns (false, m) = (err failed, m)
  then_clean owns (true, m) = (ok tt, (execute (clean_up owns) m.allowance m.disk).1)

  abbrev restore_backup :
      Option Text → Machine → Option TakeoverState → Result ResolvError (Unit {0}) × Machine
  restore_backup none m s = (err no_backup, (execute (drop_state ∷ []) m.allowance m.disk).1)
  restore_backup (some contents) m s =
      then_clean (owns_dropin s)
        (execute (put_back (recorded_target s) contents) m.allowance m.disk)

  unfoldable pub restore : Machine → Result ResolvError (Unit {0}) × Machine
  unfolding read_state execute
  restore m = restore_backup m.disk.backup m (known_state (read_state m.disk))

  abbrev recovered :
      TakeoverState
      → Result ResolvError (Unit {0}) × Machine
      → Result ResolvError (Option TakeoverState) × Machine
  recovered s (err e, m) = (err e, m)
  recovered s (ok u, m) = (ok (some s), m)

  abbrev reconcile_state :
      Result ResolvError (Option TakeoverState)
      → Machine
      → Result ResolvError (Option TakeoverState) × Machine
  reconcile_state (err e) m = (err e, m)
  reconcile_state (ok none) m = (ok none, m)
  reconcile_state (ok (some s)) m =
      if process_is_alive s.pid then (err (already_active s.pid), m) else recovered s (restore m)

  unfoldable pub reconcile_after_crash :
      Machine → Result ResolvError (Option TakeoverState) × Machine
  unfolding restore process_is_alive
  reconcile_after_crash m = reconcile_state (read_state m.disk) m

  -- Our process id, the time, and the address of the proxy.
  module _ (pid now : ℕ) (listen : IpAddr) where
    unfoldable pub new_state : Disk → Text → TakeoverState
    new_state d original = record {
      pid = pid;
      taken_over_at = now;
      original_nameservers = parse_nameservers host.std original;
      original_symlink_target = link_target d.resolv;
      wrote_nm_dropin = needs_dropin d;
    }

    abbrev redirect : Disk → Text → List Write
    redirect d original =
        put_state (host.to_json (new_state d original)) ∷ put_resolv (managed_body host listen) ∷ []

    unfoldable pub takeover_writes : Disk → Text → List Write
    unfolding new_state
    takeover_writes d original =
        make_state_dir
        ∷ put_backup original
        ∷ (if needs_dropin d
            then put_dropin dropin_body ∷ redirect d original
            else redirect d original)

    abbrev taken : TakeoverState → Bool × Machine → Result ResolvError TakeoverState × Machine
    taken s (true, m) = (ok s, m)
    taken s (false, m) = (err failed, m)

    abbrev take_original : Option Text → Machine → Result ResolvError TakeoverState × Machine
    take_original none m = (err failed, (execute (make_state_dir ∷ []) m.allowance m.disk).1)
    take_original (some original) m =
        taken (new_state m.disk original)
          (execute (takeover_writes m.disk original) m.allowance m.disk)

    -- `take_over` once no takeover is recorded.
    unfoldable pub take_fresh : Machine → Result ResolvError TakeoverState × Machine
    unfolding takeover_writes
    take_fresh m = take_original (read_node m.disk.resolv m.disk.target_text) m

    abbrev take_restored :
        Result ResolvError (Unit {0}) × Machine → Result ResolvError TakeoverState × Machine
    take_restored (err e, m) = (err e, m)
    take_restored (ok u, m) = take_fresh m

    abbrev take_known :
        Result ResolvError (Option TakeoverState)
        → Machine
        → Result ResolvError TakeoverState × Machine
    take_known (err e) m = (err e, m)
    take_known (ok none) m = take_fresh m
    take_known (ok (some s)) m =
        if process_is_alive s.pid
        then (err (already_active s.pid), m)
        else take_restored (restore m)

    unfoldable pub take_over : Machine → Result ResolvError TakeoverState × Machine
    unfolding take_fresh
    take_over m = take_known (read_state m.disk) m
