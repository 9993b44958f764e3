-- ===== src/Dpi.antt =====
-- crates/dns-helper/src/dpi.rs: a TLS ClientHello is cut in two records inside its host name.
-- A byte is a number; `none` is the `?` of a read out of bounds, or a `return None`.
pub mod Scan
pub mod Hello
pub mod Records
pub mod Severed
mod Examples
use detour.Prelude.{
  Bool, List, Option, drop, false, get_elem?, get_or, if◌then◌else◌, leb, length, ltb, max, none,
  not, some, suc, take, true, zero, ℕ, ◌%◌, ◌&&◌, ◌*◌, ◌++◌, ◌+◌, ◌/◌, ◌==◌, ◌||◌, ◌∷◌,
}

infixl 5 ◌>>=◌ ◌>>◌
abbrev pub ◌>>=◌ {ℓ κ} : {A : Type ℓ} {B : Type κ} → Option A → (A → Option B) → Option B
none >>= f = none
some a >>= f = f a

abbrev pub ◌>>◌ {ℓ} : {B : Type ℓ} → Option (Unit {0}) → Option B → Option B
m >> k = m >>= λ _. k

-- `if !test { return None; }`
abbrev pub guard : Bool → Option (Unit {0})
guard true = some tt
guard false = none

abbrev pub tls_header : ℕ
tls_header = 5

abbrev pub content_handshake : ℕ
content_handshake = 0x16

abbrev pub handshake_client_hello : ℕ
handshake_client_hello = 1

abbrev pub ext_sni : ℕ
ext_sni = 0

unfoldable pub u16be : List ℕ → ℕ → Option ℕ
u16be b i = do hi ← get_elem? b i; lo ← get_elem? b (i + 1); some (hi * 256 + lo)

-- The server name extension, whose data starts at `start`: an offset in the middle of the name.
unfoldable pub sni_offset : List ℕ → ℕ → Option ℕ
unfolding u16be
sni_offset p start = do
  name_type ← get_elem? p (start + 2)
  guard (name_type == 0)
  name_len ← u16be p (start + 3)
  guard (leb 2 name_len && leb (start + 5 + name_len) (length p))
  some (start + 5 + name_len / 2)

-- The loop over the extensions. Each round goes at least four bytes further, so `length p` rounds
-- are enough (`scan_fuel` in the child `Scan`).
unfoldable pub scan : ℕ → List ℕ → ℕ → Option ℕ
unfolding u16be sni_offset
scan zero p i = none
scan (suc fuel) p i =
    if leb (i + 4) (length p)
    then (do
      etype ← u16be p i
      elen ← u16be p (i + 2)
      let next : Option ℕ = scan fuel p (i + 4 + elen)
      if etype % 65536 == ext_sni then sni_offset p (i + 4) else next)
    else none

unfoldable pub sni_split_offset : List ℕ → Option ℕ
unfolding scan
sni_split_offset p = do
  kind ← get_elem? p 0
  guard (kind == handshake_client_hello)
  let i : ℕ = 1 + 3 + 2 + 32
  sid_len ← get_elem? p i
  let j : ℕ = i + (1 + sid_len)
  cipher_len ← u16be p j
  let k : ℕ = j + (2 + cipher_len)
  comp_len ← get_elem? p k
  let l : ℕ = k + (1 + comp_len)
  ext_total ← u16be p l
  scan (length p) p (l + 2)

-- One record: its type, the version, the length as two bytes (`as u16`), and its payload.
unfoldable pub frame : ℕ → ℕ → List ℕ → List ℕ
frame v w part =
    content_handshake ∷ v ∷ w ∷ (length part % 65536 / 256) ∷ (length part % 65536 % 256) ∷ part

unfoldable pub middle : ℕ → Option ℕ
middle n = if ltb n 2 then none else some (max (n / 2) 1)

-- Where to cut a payload of `n` bytes; `none` is the return with the data unchanged.
unfoldable pub choose_cut : Option ℕ → ℕ → Option ℕ
unfolding middle
choose_cut (some c) n = if ltb 0 c && ltb c n then some c else middle n
choose_cut none n = middle n

unfoldable pub cut_records : List ℕ → ℕ → ℕ → List ℕ → Option ℕ → List ℕ
unfolding frame
cut_records data_ v w payload none = data_
cut_records data_ v w payload (some cut) =
    frame v w (take cut payload) ++ frame v w (drop cut payload)

-- The data has the five bytes of a header: `content :: v :: w :: hi :: lo :: payload`.
unfoldable pub reframe : List ℕ → List ℕ → ℕ → ℕ → Option ℕ → List ℕ
unfolding cut_records choose_cut sni_split_offset
reframe data_ payload v w none = data_
reframe data_ payload v w (some rec_len) =
    if tls_header + rec_len == length data_
    then cut_records data_ v w payload (choose_cut (sni_split_offset payload) (length payload))
    else data_

unfoldable pub fragment_client_hello : List ℕ → List ℕ
unfolding reframe u16be
fragment_client_hello data_ =
    if leb (length data_) tls_header || not (get_or data_ 0 0 == content_handshake)
    then data_
    else reframe data_ (drop tls_header data_) (get_or data_ 1 0) (get_or data_ 2 0) (u16be data_ 3)
