-- ===== src/Provider/Host.antt =====
-- provider.rs, `Provider::host`: the part of an https URL up to the first `/` or `:`.
use detour.Provider.{Provider, host, host_end}
use detour.Prelude.{
  ==→eq, All, Bool-cases, Option, Option-cases, Text, [], ap, arith, bytes, drop, if◌then◌else◌,
  inl, inr, length, none, refl, some, strip_prefix, strip_prefix-append, strip_prefix-eq_some, suc,
  sym, take, take-append-drop, take-length-append, true, ||_true, ℕ, ◌++◌, ◌==◌, ◌||◌, ◌↔◌, ◌∙◌,
  ◌∷◌, ◌≡◌, ◌≢◌,
}

-- No byte of the text ends a host.
abbrev pub HostBytes : Text → Type 0
HostBytes h = All (λ c. (c ≢ b'/') × (c ≢ b':')) h

-- What may follow a host: nothing, a path or a port.
pub data AfterHost : Text → Type 0 where
  nothing : AfterHost []
  path : (r : Text) → AfterHost (b'/' ∷ r)
  port : (r : Text) → AfterHost (b':' ∷ r)

host_end-cons :
    (c : ℕ) (s : Text) → host_end (c ∷ s) ≡ (if c == b'/' || c == b':' then 0 else suc (host_end s))
unfolding host_end
host_end-cons c s = ground arith

host_end-append : (h r : Text) → HostBytes h → AfterHost r → host_end (h ++ r) ≡ length h
unfolding host_end
host_end-append [] r hb nothing = refl
host_end-append [] r hb (path s) = refl
host_end-append [] r hb (port s) = refl
host_end-append (c ∷ h) r hb after =
    ground (arith, host_end-cons c (h ++ r), host_end-append h r hb.1 after)

abbrev EndsHost : ℕ → Text → Type 0
EndsHost n s = HostBytes (take n s) × AfterHost (drop n s)

delimiter_after : (c : ℕ) (s : Text) → (c == b'/' || c == b':') ≡ true → AfterHost (c ∷ s)
delimiter_after c s h = elim (||_true (c == b'/') _ h) [
  | inl slash ↦ rw (==→eq c b'/' slash) (path s)
  | inr colon ↦ rw (==→eq c b':' colon) (port s)
]

EndsHost-host_end : (s : Text) → EndsHost (host_end s) s
EndsHost-host_end [] = unfold host_end in (tt, nothing)
EndsHost-host_end (c ∷ s) = elim (Bool-cases (c == b'/' || c == b':')) [
  | inl stop ↦ rw (host_end-cons, stop) (tt, delimiter_after c s stop)
  | inr go ↦
      rw (host_end-cons, go)
        (((ground arith, ground arith), (EndsHost-host_end s).0), (EndsHost-host_end s).1)
]

host_sound :
    (p : Provider) (h : Text)
    → host p ≡ some h
    → HostBytes h × ((r : Text) × AfterHost r × (p.url ≡ bytes "https://" ++ (h ++ r)))
unfolding host
host_sound p h e = elim (Option-cases (strip_prefix p.url (bytes "https://"))) [
  | inl other ↦ absurd (none_ne_some (rw other at e))
  | inr (rest, found) ↦
      let n : ℕ = host_end rest in
      let same : take n rest ≡ h = some_eq (rw found at e) in
      let (clean, after) = EndsHost-host_end rest in
      (
        rw same at clean,
        (
          drop n rest,
          after,
          strip_prefix-eq_some p.url (bytes "https://") rest found
              ∙ ap (λ t. bytes "https://" ++ t) (sym (take-append-drop n rest))
              ∙ ap (λ t. bytes "https://" ++ (t ++ drop n rest)) same,
        ),
      )
]
  where
    none_ne_some : ◌≡◌ {A = Option Text} none (some h) → ⊥
    none_ne_some k = cc

    some_eq : {a b : Text} → some a ≡ some b → a ≡ b
    some_eq k = cc

host_complete :
    (p : Provider) (h r : Text)
    → HostBytes h
    → AfterHost r
    → p.url ≡ bytes "https://" ++ (h ++ r)
    → host p ≡ some h
unfolding host
host_complete p h r clean after e =
    rw (e, strip_prefix-append (bytes "https://") (h ++ r), host)
      (rw (host_end-append h r clean after, take-length-append h r) refl)

-- The host of a provider is `h` exactly if its URL is `https://h`, alone or followed by a path or
-- a port, and `h` has neither a slash nor a colon.
host_iff :
    (p : Provider) (h : Text)
    → (host p ≡ some h)
      ↔ (HostBytes h × ((r : Text) × AfterHost r × (p.url ≡ bytes "https://" ++ (h ++ r))))
host_iff p h = (host_sound p h, λ (clean, (r, after, e)). host_complete p h r clean after e)
