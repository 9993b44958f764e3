-- ===== src/Tunnel/Keys.antt =====
-- tunnel.rs, `WgConfig::parse`: what of a configuration file reaches `wg setconf`.
use detour.Prelude.{
  All, Bool, Bool-cases, List, Option, Result, Result-cases, Text, [], any, ap, arith, bytes,
  ends_with, err, false, filter_map, first_piece, if◌then◌else◌, inl, inr, is_empty, none, not, ok,
  parse_uint, refl, some, split, split_once, starts_with, text_eq, text_eq→eq, to_ascii_lowercase,
  trim, true, ℕ, ◌&&◌, ◌++◌, ◌∷◌, ◌≡◌, ◌≢◌, ◌⊎◌,
}
use detour.Tunnel.{
  Parsing, Section, TunnelError, WgConfig, checked, finish, interface, interface_key,
  interface_keys, is_ipv4_cidr, keep_cidr, key_line, key_value, no_section, one_of, open_section,
  parse, parse_content, parse_lines, peer, peer_key, peer_keys, section_key, set_mtu, started,
}

-- A line that `wg setconf` may be given: one of the two section headers, or a setting whose key is
-- on one of the two lists.
pub data IsAllowed (line : Text) : Type 0 where
  interface_header : to_ascii_lowercase line ≡ bytes "[interface]" → IsAllowed line
  peer_header : to_ascii_lowercase line ≡ bytes "[peer]" → IsAllowed line
  setting :
      (key value : Text)
      → line ≡ key_line key value
      → (one_of interface_keys key ≡ true) ⊎ (one_of peer_keys key ≡ true)
      → IsAllowed line

All-append {ℓ κ} :
    {A : Type ℓ} (P : A → Type κ) (xs ys : List A) → All P xs → All P ys → All P (xs ++ ys)
All-append P [] ys p q = q
All-append P (x ∷ xs) ys (p, ps) q = (p, All-append P xs ys ps q)

module _ (is_ipv4 : Text → Bool) where
  -- Every line kept is allowed, and every address kept is an IPv4 one.
  record IsClean (p : Parsing) : Type 0 where
    lines : All IsAllowed p.setconf
    addresses : All (λ a. is_ipv4_cidr is_ipv4 a ≡ true) p.addresses_v4

  abbrev IsClean-after : Result TunnelError Parsing → Type 0
  IsClean-after (err e) = Unit
  IsClean-after (ok p) = IsClean p

  kept_cidrs :
      (ts : List Text)
      → All (λ a. is_ipv4_cidr is_ipv4 a ≡ true) (filter_map (keep_cidr is_ipv4) ts)
  kept_cidrs [] = tt
  kept_cidrs (t ∷ ts) = elim (Bool-cases (is_ipv4_cidr is_ipv4 (trim t))) [
    | inl good ↦ rw good (good, kept_cidrs ts)
    | inr bad ↦ rw bad (kept_cidrs ts)
  ]

  set_mtu-IsClean :
      (p : Parsing) (value : Text) (o : Option ℕ)
      → IsClean p
      → IsClean-after (set_mtu is_ipv4 p value o)
  unfolding set_mtu
  set_mtu-IsClean p value none c = tt
  set_mtu-IsClean p value (some n) c = record { lines = c.lines; addresses = c.addresses }

  interface_key-IsClean :
      (p : Parsing) (key value : Text)
      → IsClean p
      → IsClean-after (interface_key is_ipv4 p key value)
  unfolding interface_key
  interface_key-IsClean p key value c = elim (Bool-cases (text_eq key (bytes "address"))) [
    | inl a ↦ rw a (record {
      lines = c.lines;
      addresses = All-append _ p.addresses_v4 _ c.addresses (kept_cidrs (split b',' value));
    })
    | inr not_a ↦ elim (Bool-cases (text_eq key (bytes "mtu"))) [
      | inl m ↦ rw (not_a, m) (set_mtu-IsClean p value (parse_uint 4294967295 value) c)
      | inr not_m ↦ elim (Bool-cases (one_of interface_keys key)) [
        | inl known ↦
            rw (not_a, not_m, known)
              (record {
                lines = All-append _ p.setconf _ c.lines (setting key value refl (inl known), tt);
                addresses = c.addresses;
              })
        | inr other ↦ rw (not_a, not_m, other) c
      ]
    ]
  ]

  peer_key-IsClean :
      (p : Parsing) (key value : Text) → IsClean p → IsClean-after (peer_key is_ipv4 p key value)
  unfolding peer_key
  peer_key-IsClean p key value c = elim (Bool-cases (one_of peer_keys key)) [
    | inl known ↦ rw known (record {
      lines = All-append _ p.setconf _ c.lines (setting key value refl (inr known), tt);
      addresses = c.addresses;
    })
    | inr other ↦ rw other c
  ]

  section_key-IsClean :
      (s : Section) (p : Parsing) (key value : Text)
      → IsClean p
      → IsClean-after (section_key is_ipv4 s p key value)
  unfolding section_key
  section_key-IsClean no_section p key value c = tt
  section_key-IsClean interface p key value c = interface_key-IsClean p key value c
  section_key-IsClean peer p key value c = peer_key-IsClean p key value c

  open_section-IsClean :
      (p : Parsing) (line : Text) → IsClean p → IsClean-after (open_section is_ipv4 p line)
  unfolding open_section
  open_section-IsClean p line c =
      elim (Bool-cases (text_eq (to_ascii_lowercase line) (bytes "[interface]"))) [
        | inl i ↦ rw i (record {
          lines = All-append _ p.setconf _ c.lines (interface_header (text_eq→eq _ _ i), tt);
          addresses = c.addresses;
        })
        | inr not_i ↦ elim (Bool-cases (text_eq (to_ascii_lowercase line) (bytes "[peer]"))) [
          | inl q ↦
              rw (not_i, q)
                (record {
                  lines = All-append _ p.setconf _ c.lines (peer_header (text_eq→eq _ _ q), tt);
                  addresses = c.addresses;
                })
          | inr not_q ↦ rw (not_i, not_q) tt
        ]
      ]

  key_value-IsClean :
      (p : Parsing) (line : Text) (o : Option (Text × Text))
      → IsClean p
      → IsClean-after (key_value is_ipv4 p line o)
  key_value-IsClean p line none c = tt
  key_value-IsClean p line (some kv) c = section_key-IsClean p.section p _ _ c

  parse_content-IsClean :
      (p : Parsing) (line : Text) → IsClean p → IsClean-after (parse_content is_ipv4 p line)
  unfolding parse_content
  parse_content-IsClean p [] c = c
  parse_content-IsClean p (x ∷ s) c =
      elim (Bool-cases (starts_with (x ∷ s) (bytes "[") && ends_with (x ∷ s) (bytes "]"))) [
        | inl header ↦ rw header (open_section-IsClean p (x ∷ s) c)
        | inr other ↦ rw other (key_value-IsClean p (x ∷ s) (split_once b'=' (x ∷ s)) c)
      ]

  parse_lines-IsClean :
      (ls : List Text) (p : Parsing) → IsClean p → IsClean-after (parse_lines is_ipv4 p ls)
  unfolding parse_lines
  parse_lines-IsClean [] p c = c
  parse_lines-IsClean (l ∷ ls) p c =
      let line = trim (first_piece (split b'#' l)) in
      let clean = parse_content-IsClean p line c in
      elim (Result-cases (parse_content is_ipv4 p line)) [
        | inl (e, bad) ↦ rw (parse_lines, bad) tt
        | inr (p', good) ↦ rw (parse_lines, good) (parse_lines-IsClean ls p' (rw good at clean))
      ]

  passed :
      (b : Bool) (e : TunnelError) (rest : Result TunnelError WgConfig) (c : WgConfig)
      → (if b then err e else rest) ≡ ok c
      → (b ≡ false) × (rest ≡ ok c)
  passed true e rest c h = absurd (ground arith)
  passed false e rest c h = (refl, h)

  unok : {a b : WgConfig} → ◌≡◌ {A = Result TunnelError WgConfig} (ok a) (ok b) → a ≡ b
  unok h = cc

  checked_ok :
      (p : Parsing) (c : WgConfig)
      → checked is_ipv4 p ≡ ok c
      → (p.setconf ≡ c.setconf)
        × (p.addresses_v4 ≡ c.addresses_v4)
        × (is_empty p.addresses_v4 ≡ false)
  checked_ok p c h =
      let (key, h1) = passed (not p.has_private_key) _ _ c h in
      let (some_peer, h2) = passed (is_empty p.peer_has_key) _ _ c h1 in
      let (all_keys, h3) = passed (any not p.peer_has_key) _ _ c h2 in
      let (full, h4) = passed (is_empty p.addresses_v4) _ _ c h3 in
      (ap (λ x. x.setconf) (unok h4), ap (λ x. x.addresses_v4) (unok h4), full)

  is_empty-false : (l : List Text) → is_empty l ≡ false → l ≢ []
  is_empty-false [] h = absurd (ground arith)
  is_empty-false (x ∷ l) h = λ e. cc

  -- Whatever the file says, what an accepted configuration gives to `wg setconf` is section
  -- headers and settings with the allowed keys; its addresses are IPv4 ones, and there is at
  -- least one.
  pub parse-IsAllowed :
      (text : Text) (c : WgConfig)
      → parse is_ipv4 text ≡ ok c
      → All IsAllowed c.setconf
        × All (λ a. is_ipv4_cidr is_ipv4 a ≡ true) c.addresses_v4
        × (c.addresses_v4 ≢ [])
  unfolding parse
  parse-IsAllowed text c h =
      go (parse_lines is_ipv4 started (split 10 text))
        (parse_lines-IsClean (split 10 text) started (record { lines = tt; addresses = tt })) h
    where
      go :
          (r : Result TunnelError Parsing)
          → IsClean-after r
          → finish is_ipv4 r ≡ ok c
          → All IsAllowed c.setconf
            × All (λ a. is_ipv4_cidr is_ipv4 a ≡ true) c.addresses_v4
            × (c.addresses_v4 ≢ [])
      go (err e) k h' = absurd (ground arith)
      go (ok p) k h' =
          let (lines_, addresses_, full) = checked_ok p c h' in
          (
            rw lines_ at k.lines,
            rw addresses_ at k.addresses,
            rw addresses_ at (is_empty-false p.addresses_v4 full),
          )
