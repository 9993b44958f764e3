-- ===== src/Config/Validation.antt =====
-- config.rs, `validate`: what a saved configuration guarantees.
use detour.Net.{AddressText, SocketAddr}
use detour.Config.{
  Config, Validity, invalid, no_providers, valid, validate, validate_listen, validate_provider,
  validate_providers,
}
use detour.Prelude.{
  All, List, Option, Option-cases, Text, [], all, arith, false, if◌then◌else◌, inl, inr, is_empty,
  is_space, none, refl, some, ◌↔◌, ◌∷◌, ◌≡◌, ◌≢◌,
}
use detour.Provider.{Provider, host}

-- A provider that can be asked: named, with an https host, and with an address to pin it to.
pub record IsUsable (p : Provider) : Type 0 where
  pub named : all is_space p.name ≡ false
  pub https : (h : Text) × (host p ≡ some h)
  pub pinned : is_empty p.bootstrap ≡ false

validate_provider_sound :
    (p : Provider) (rest : Validity)
    → validate_provider p rest ≡ valid
    → IsUsable p × (rest ≡ valid)
unfolding validate_provider
validate_provider_sound p rest h = elim (Option-cases (host p)) [
  | inl missing ↦ absurd (ground arith)
  | inr (name, found) ↦
      (record { named = ground arith; https = (name, found); pinned = ground arith }, ground arith)
]

validate_provider_complete :
    (p : Provider) (rest : Validity) → IsUsable p → rest ≡ valid → validate_provider p rest ≡ valid
unfolding validate_provider
validate_provider_complete p rest u r = rw (u.named, u.https.1, u.pinned) r

validate_providers_sound :
    (ps : List Provider) (rest : Validity)
    → validate_providers ps rest ≡ valid
    → All IsUsable ps × (rest ≡ valid)
unfolding validate_providers
validate_providers_sound [] rest h = (tt, h)
validate_providers_sound (p ∷ ps) rest h =
    let (usable, more) = validate_provider_sound p (validate_providers ps rest) h in
    let (others, last) = validate_providers_sound ps rest more in ((usable, others), last)

validate_providers_complete :
    (ps : List Provider) (rest : Validity)
    → All IsUsable ps
    → rest ≡ valid
    → validate_providers ps rest ≡ valid
unfolding validate_providers
validate_providers_complete [] rest us r = r
validate_providers_complete (p ∷ ps) rest us r =
    validate_provider_complete p (validate_providers ps rest) us.0
      (validate_providers_complete ps rest us.1 r)

listen_valid :
    (o : Option SocketAddr) → validate_listen o ≡ valid → (addr : SocketAddr) × (o ≡ some addr)
listen_valid none h = absurd (ground arith)
listen_valid (some addr) h = (addr, refl)

checked :
    (ps : List Provider) (o : Option SocketAddr)
    → (if is_empty ps then invalid no_providers else validate_providers ps (validate_listen o))
      ≡ valid
    → (ps ≢ []) × All IsUsable ps × ((addr : SocketAddr) × (o ≡ some addr))
checked [] o h = absurd (ground arith)
checked (p ∷ ps) o h =
    let (usable, listens) = validate_providers_sound (p ∷ ps) (validate_listen o) h in
    ((λ e. cc), usable, listen_valid o listens)

accepted :
    (ps : List Provider) (o : Option SocketAddr)
    → ps ≢ []
    → All IsUsable ps
    → (addr : SocketAddr) × (o ≡ some addr)
    → (if is_empty ps then invalid no_providers else validate_providers ps (validate_listen o))
      ≡ valid
accepted [] o full usable parsed = absurd (full refl)
accepted (p ∷ ps) o full usable (addr, e) =
    validate_providers_complete (p ∷ ps) (validate_listen o) usable (rw e refl)

-- A configuration passes exactly if it has a provider, every provider is named, has an https host
-- and an address to pin it to, and the listen address parses.
pub validate_iff :
    (std : AddressText) (c : Config)
    → (validate std c ≡ valid) ↔ (
        (c.providers ≢ [])
        × All IsUsable c.providers
        × ((addr : SocketAddr) × (std.parse_socket c.listen ≡ some addr)))
unfolding validate
validate_iff std c = (
  checked c.providers (std.parse_socket c.listen),
  λ (full, usable, parsed). accepted c.providers (std.parse_socket c.listen) full usable parsed,
)
