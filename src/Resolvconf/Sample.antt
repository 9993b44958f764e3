-- ===== src/Resolvconf/Sample.antt =====
-- A small host for the examples: a stand-in for JSON that reads back what it writes, and a disk.
use detour.Net.{IpAddr, v4, v6}
use detour.Prelude.{
  Bool, List, Option, Text, [], ap, bytes, false, map, none, refl, some, suc, true, zero, ℕ, ◌++◌,
  ◌==◌, ◌∙◌, ◌∷◌, ◌≡◌,
}
use detour.Resolvconf.{Disk, Host, JsonRoundTrip, TakeoverState, link}

-- A stand-in for JSON: the fields as texts, their bytes one higher, each text ended by a zero.
abbrev join_texts : List Text → Text
join_texts [] = []
join_texts (t ∷ ts) = map (λ c. suc c) t ++ 0 ∷ join_texts ts

abbrev cons_first : ℕ → List Text → List Text
cons_first c [] = []
cons_first c (t ∷ ts) = (c ∷ t) ∷ ts

abbrev split_texts : Text → List Text
split_texts [] = []
split_texts (zero ∷ r) = [] ∷ split_texts r
split_texts (suc c ∷ r) = cons_first c (split_texts r)

split-text : (t r : Text) → split_texts (map (λ c. suc c) t ++ 0 ∷ r) ≡ t ∷ split_texts r
split-text [] r = refl
split-text (c ∷ t) r = ap (cons_first c) (split-text t r)

split-join : (ts : List Text) → split_texts (join_texts ts) ≡ ts
split-join [] = refl
split-join (t ∷ ts) = split-text t (join_texts ts) ∙ ap (◌∷◌ t) (split-join ts)

abbrev flag : Bool → ℕ
flag true = 1
flag false = 0

abbrev optional : Option Text → Text
optional none = []
optional (some t) = 0 ∷ t

abbrev read_optional : Text → Option Text
read_optional [] = none
read_optional (c ∷ t) = some t

abbrev address_text : IpAddr → Text
address_text (v4 a) = a ∷ []
address_text (v6 a) = a ∷ 6 ∷ []

abbrev read_address : Text → IpAddr
read_address [] = v4 0
read_address (a ∷ []) = v4 a
read_address (a ∷ b ∷ t) = v6 a

read-addresses : (l : List IpAddr) → map read_address (map address_text l) ≡ l
read-addresses [] = refl
read-addresses (v4 a ∷ l) = ap (◌∷◌ (v4 a)) (read-addresses l)
read-addresses (v6 a ∷ l) = ap (◌∷◌ (v6 a)) (read-addresses l)

abbrev state_texts : TakeoverState → List Text
state_texts s =
    (s.pid ∷ s.taken_over_at ∷ flag s.wrote_nm_dropin ∷ [])
    ∷ optional s.original_symlink_target
    ∷ map address_text s.original_nameservers

abbrev read_texts : List Text → Option TakeoverState
read_texts ((pid ∷ at ∷ wrote ∷ []) ∷ target ∷ servers) = some (record {
  pid = pid;
  taken_over_at = at;
  original_nameservers = map read_address servers;
  original_symlink_target = read_optional target;
  wrote_nm_dropin = wrote == 1;
})
read_texts _ = none

-- No process is alive any more.
abbrev pub small_host : Host
small_host = record {
  to_json = λ s. join_texts (state_texts s);
  from_json = λ t. read_texts (split_texts t);
  std = record {
    parse_ip = λ t. some (v4 8);
    show_ip = λ a. bytes "8.8.8.8";
    parse_socket = λ t. none;
  };
  backup_path = bytes "/var/lib/detour/resolv.conf.backup";
  signal_reaches = λ pid. false;
}

read-optional : (o : Option Text) → read_optional (optional o) ≡ o
read-optional none = refl
read-optional (some t) = refl

read-flag : (b : Bool) → (flag b == 1) ≡ b
read-flag true = refl
read-flag false = refl

pub small_host-JsonRoundTrip : JsonRoundTrip small_host
small_host-JsonRoundTrip s =
    ap read_texts (split-join (state_texts s)) ∙ rw (read-optional, read-flag, read-addresses) refl

abbrev pub linked_disk : Disk
linked_disk = record {
  resolv = link (bytes "stub");
  backup = none;
  state = none;
  nm_dropin = none;
  nm_dir = true;
  target_text = λ p. some (bytes "nameserver 8.8.8.8");
}
