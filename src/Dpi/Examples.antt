-- ===== src/Dpi/Examples.antt =====
-- dpi.rs: the theorems on a small ClientHello and a small record.
use detour.Prelude.{
  List, [], arith, bytes, length, refl, some, suc, zero, ℕ, ◌++◌, ◌<◌, ◌∷◌, ◌≡◌, ◌≢◌,
}
use detour.Dpi.{content_handshake, ext_sni, fragment_client_hello, frame}
use detour.Dpi.Hello.{ClientHello, IsWellFormed, hello_bytes}
use detour.Dpi.Records.{IsSplittable, fragment-reassembles, read_record}
use detour.Dpi.Severed.{before_host, fragment-severs_host}

abbrev zeros : ℕ → List ℕ
zeros zero = []
zeros (suc n) = 0 ∷ zeros n

-- One extension (supported groups), then the server name `a.example`.
abbrev small_hello : ClientHello
small_hello = record {
  header = zeros 37;
  session_id = 1 ∷ 2 ∷ [];
  ciphers = 0x13 ∷ 1 ∷ [];
  compression = 0 ∷ [];
  total = 24;
  before = record { kind = 10; body = 0 ∷ 29 ∷ [] } ∷ [];
  list_high = 0;
  list_low = 14;
  size_high = 0;
  size_low = 12;
  host = bytes "a.example";
  after = [];
}

ten_ne_sni : 10 ≢ ext_sni
ten_ne_sni e = omega (arith, e)

small_hello-IsWellFormed : IsWellFormed small_hello
small_hello-IsWellFormed = record {
  header_size = refl;
  ciphers_size = omega arith;
  total_size = omega arith;
  before_kinds = ((ten_ne_sni, omega arith, omega arith), tt);
  host_min = omega arith;
  host_max = omega arith;
}

fragment-severs_host_example :
    fragment_client_hello (content_handshake ∷ 3 ∷ 1 ∷ 0 ∷ 73 ∷ hello_bytes small_hello)
    ≡ frame 3 1 (before_host small_hello ++ bytes "a.ex") ++ frame 3 1 (bytes "ample")
fragment-severs_host_example =
    fragment-severs_host small_hello 3 1 0 73 small_hello-IsWellFormed refl

abbrev small_record : List ℕ
small_record = 22 ∷ 3 ∷ 1 ∷ 0 ∷ 4 ∷ 7 ∷ 8 ∷ 9 ∷ 10 ∷ []

abbrev small_record-IsSplittable : IsSplittable small_record
small_record-IsSplittable = record {
  v = 3;
  w = 1;
  hi = 0;
  lo = 4;
  payload = 7 ∷ 8 ∷ 9 ∷ 10 ∷ [];
  shape = refl;
  declared = refl;
  cuttable = omega arith;
}

fragment-reassembles_example :
    (a b tail : List ℕ) × (read_record (fragment_client_hello small_record)
      ≡ some (record { v = 3; w = 1; payload = a }, tail))
    × (read_record tail ≡ some (record { v = 3; w = 1; payload = b }, []))
    × (a ++ b ≡ 7 ∷ 8 ∷ 9 ∷ 10 ∷ [])
    × (0 < length a)
    × (0 < length b)
fragment-reassembles_example =
    fragment-reassembles small_record small_record-IsSplittable (omega arith)

-- A record of application data.
data_not_split : ¬ IsSplittable (23 ∷ 3 ∷ 3 ∷ 0 ∷ 2 ∷ 1 ∷ 2 ∷ [])
data_not_split s = other s.shape
  where
    other : {l m : List ℕ} → ◌≡◌ {A = List ℕ} (23 ∷ l) (22 ∷ m) → ⊥
    other e = ground arith
