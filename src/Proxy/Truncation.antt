-- ===== src/Proxy/Truncation.antt =====
-- proxy.rs, `truncate_if_needed`: the answer over UDP.
use detour.Prelude.{
  Bool-cases, List, Option-cases, [], arith, false, inl, inr, leb, length, le→leb, refl, some, true,
  ℕ, ◌<◌, ◌∙◌, ◌∷◌, ◌≡◌, ◌≤◌,
}
use detour.Dns.{Dns, DnsWire, WireLaws}
use detour.Proxy.{add_queries, advertised, truncate_if_needed, truncated}

module _ (dns : Dns) (wire : DnsWire dns) where
  advertised_bounds :
      (query : List ℕ) → (512 ≤ advertised dns wire query) × (advertised dns wire query ≤ 4096)
  unfolding advertised
  advertised_bounds query = (omega arith, omega arith)

  -- An answer of at most 512 bytes is sent as it is, whatever the query says.
  pub truncate_if_needed_small :
      (response query : List ℕ)
      → length response ≤ 512
      → truncate_if_needed dns wire response query ≡ response
  unfolding truncate_if_needed
  truncate_if_needed_small response query h =
      let fits : leb (length response) (advertised dns wire query) ≡ true =
        le→leb _ _ (omega (arith, advertised_bounds query)) in
      rw fits refl

  -- An answer of more than 4096 bytes that parses is replaced by its truncation, if that can be
  -- encoded, whatever the query says.
  pub truncate_if_needed_large :
      (response query short : List ℕ) (m : dns.Message)
      → 4096 < length response
      → wire.from_bytes response ≡ some m
      → wire.to_vec (truncated dns wire m) ≡ some short
      → truncate_if_needed dns wire response query ≡ short
  unfolding truncate_if_needed
  truncate_if_needed_large response query short m h parsed encoded =
      let over : leb (length response) (advertised dns wire query) ≡ false =
        ground (arith, advertised_bounds query) in
      rw (over, parsed, encoded) refl

  module _ (laws : WireLaws dns wire) where
    id-add_queries :
        (qs : List (dns.Name × dns.RecordType)) (m : dns.Message)
        → wire.id (add_queries dns wire qs m) ≡ wire.id m
    id-add_queries [] m = refl
    id-add_queries ((name, t) ∷ qs) m =
        id-add_queries qs (wire.add_query m name t) ∙ laws.id-add_query m name t

    id-truncated : (m : dns.Message) → wire.id (truncated dns wire m) ≡ wire.id m
    unfolding truncated
    id-truncated m = rw (
      id-add_queries, laws.id-set_truncated, laws.id-set_recursion_available,
      laws.id-copy_recursion_desired, laws.id-set_response_code, laws.id-copy_op_code,
      laws.id-set_response, laws.id-set_id,
    )

    -- Truncation keeps the id of an answer that parses, if the message library keeps the id
    -- through its setters and its wire form.
    pub truncate_if_needed-id :
        (response query : List ℕ) (m : dns.Message)
        → wire.from_bytes response ≡ some m
        → (m' : dns.Message) × (wire.from_bytes (truncate_if_needed dns wire response query)
            ≡ some m')
          × (wire.id m' ≡ wire.id m)
    unfolding truncate_if_needed
    truncate_if_needed-id response query m parsed =
        elim (Bool-cases (leb (length response) (advertised dns wire query))) [
          | inl fits ↦ rw fits (m, parsed, refl)
          | inr over ↦ elim (Option-cases (wire.to_vec (truncated dns wire m))) [
            | inl none_ ↦ rw (over, parsed, none_) (m, parsed, refl)
            | inr (b, encoded) ↦
                let (m', reparsed, same_id) = laws.id-to_vec (truncated dns wire m) b encoded in
                rw (over, parsed, encoded) (m', reparsed, same_id ∙ id-truncated m)
          ]
        ]
