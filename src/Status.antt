-- ===== src/Status.antt =====
-- crates/dns-helper/src/status.rs: the snapshot that the helper writes and the front end reads.
pub mod Staleness
mod Examples
use detour.Prelude.{Bool, List, Option, Text, [], false, if◌then◌else◌, ltb, none, some, ℕ, ◌-◌}
use detour.Proxy.{QueryLog, recent}

abbrev pub log_slice : ℕ
log_slice = 100

-- `E` is the type of the entries of the log.
pub record Snapshot (E : Type 0) : Type 0 where
  pub active : Bool
  pub listen : Text
  pub pid : ℕ
  pub took_over_resolv_conf : Bool
  pub profile : Option Text
  pub providers : List Text
  pub forced_domains : List Text
  pub upstreams : List Text
  pub cache_entries : ℕ
  pub queries_total : ℕ
  pub recent_queries : List E
  pub updated_at : ℕ

module _ {E : Type 0} where
  abbrev pub inactive : Snapshot E
  inactive = record {
    active = false;
    listen = [];
    pid = 0;
    took_over_resolv_conf = false;
    profile = none;
    providers = [];
    forced_domains = [];
    upstreams = [];
    cache_entries = 0;
    queries_total = 0;
    recent_queries = [];
    updated_at = 0;
  }

  -- `StatusWriter::snapshot`: the facts of the run with the counters at the time `now`.
  unfoldable pub snapshot : Snapshot E → QueryLog E → ℕ → ℕ → Snapshot E
  unfolding recent
  snapshot base log cache_len now = record base {
    recent_queries = recent log log_slice;
    queries_total = log.total;
    cache_entries = cache_len;
    updated_at = now;
  }

  abbrev fresh_or_inactive : ℕ → ℕ → Option (Snapshot E) → Snapshot E
  fresh_or_inactive now max_age none = inactive
  fresh_or_inactive now max_age (some s) = if ltb max_age (now - s.updated_at) then inactive else s

  abbrev read_text : (Text → Option (Snapshot E)) → ℕ → ℕ → Option Text → Snapshot E
  read_text from_json now max_age none = inactive
  read_text from_json now max_age (some t) = fresh_or_inactive now max_age (from_json t)

  -- `file` is what reading the file gives; `from_json` is the JSON reader; times are in seconds.
  unfoldable pub read_snapshot : (Text → Option (Snapshot E)) → Option Text → ℕ → ℕ → Snapshot E
  read_snapshot from_json file now max_age = read_text from_json now max_age file
