-- ===== src/Dpi/Hello.antt =====
-- dpi.rs, `sni_split_offset` on a well-formed ClientHello: the middle of the host name is found.
use mathlib.Core.List.{append_assoc}
use detour.Prelude.{
  All, List, [], ap, arith, false, get_elem?, get_elem?-length, leb, length, length-append, le→leb,
  refl, some, suc, sym, true, zero, ℕ, ◌%◌, ◌++◌, ◌+◌, ◌/◌, ◌<◌, ◌==◌, ◌∙◌, ◌∷◌, ◌≡◌, ◌≢◌, ◌≤◌,
}
use detour.Dpi.{ext_sni, handshake_client_hello, scan, sni_offset, sni_split_offset, u16be}

-- A number as two bytes, the high one first.
abbrev pub be16 : ℕ → List ℕ
be16 n = n / 256 ∷ n % 256 ∷ []

pub record Extension : Type 0 where
  pub kind : ℕ
  pub body : List ℕ

abbrev pub extension_bytes : Extension → List ℕ
extension_bytes e = be16 e.kind ++ (be16 (length e.body) ++ e.body)

abbrev pub extensions_bytes : List Extension → List ℕ
extensions_bytes [] = []
extensions_bytes (e ∷ es) = extension_bytes e ++ extensions_bytes es

-- The server name extension of a host; the two lengths in front of the entry are free.
abbrev pub sni_bytes : ℕ → ℕ → ℕ → ℕ → List ℕ → List ℕ
sni_bytes e₁ e₂ l₁ l₂ host = 0 ∷ 0 ∷ e₁ ∷ e₂ ∷ l₁ ∷ l₂ ∷ 0 ∷ (be16 (length host) ++ host)

-- A ClientHello with a server name, as a browser sends it: what the parser skips is free.
pub record ClientHello : Type 0 where
  pub header : List ℕ
  pub session_id : List ℕ
  pub ciphers : List ℕ
  pub compression : List ℕ
  pub total : ℕ
  pub before : List Extension
  -- the lengths of the server name extension and of its list, which the parser does not read
  pub list_high : ℕ
  pub list_low : ℕ
  pub size_high : ℕ
  pub size_low : ℕ
  pub host : List ℕ
  pub after : List ℕ

pub record IsWellFormed (h : ClientHello) : Type 0 where
  -- 3 length, 2 version and 32 random bytes
  pub header_size : length h.header ≡ 37
  pub ciphers_size : length h.ciphers < 65536
  pub total_size : h.total < 65536
  pub before_kinds :
      All (λ e. (e.kind ≢ ext_sni) × (e.kind < 65536) × (length e.body < 65536)) h.before
  pub host_min : 2 ≤ length h.host
  pub host_max : length h.host < 65536

-- The parts in front of the extensions, each up to where the next length stands.
abbrev pub to_session_id : ClientHello → List ℕ
to_session_id h = handshake_client_hello ∷ h.header

abbrev pub to_ciphers : ClientHello → List ℕ
to_ciphers h = to_session_id h ++ length h.session_id ∷ h.session_id

abbrev pub to_compression : ClientHello → List ℕ
to_compression h = to_ciphers h ++ (be16 (length h.ciphers) ++ h.ciphers)

abbrev pub to_total : ClientHello → List ℕ
to_total h = to_compression h ++ length h.compression ∷ h.compression

abbrev pub front_bytes : ClientHello → List ℕ
front_bytes h = to_total h ++ be16 h.total

abbrev pub sni_extension : ClientHello → List ℕ
sni_extension h = sni_bytes h.list_high h.list_low h.size_high h.size_low h.host

abbrev pub hello_bytes : ClientHello → List ℕ
hello_bytes h = front_bytes h ++ (extensions_bytes h.before ++ (sni_extension h ++ h.after))

-- Where the host name starts.
abbrev pub host_start : ClientHello → ℕ
host_start h = length (front_bytes h) + length (extensions_bytes h.before) + 9

get-at :
    (p pre rest : List ℕ) (i x : ℕ) → p ≡ pre ++ x ∷ rest → i ≡ length pre → get_elem? p i ≡ some x
get-at p pre rest i x e at = rw (e, at) (get_elem?-length pre x rest)

u16be-at :
    (p pre rest : List ℕ) (i n : ℕ)
    → p ≡ pre ++ (be16 n ++ rest)
    → i ≡ length pre
    → n < 65536
    → u16be p i ≡ some n
unfolding u16be
u16be-at p pre rest i n e at small =
    let first : get_elem? p i ≡ some (n / 256) = get-at p pre (n % 256 ∷ rest) i (n / 256) e at in
    let second : get_elem? p (i + 1) ≡ some (n % 256) =
      get-at p (pre ++ n / 256 ∷ []) rest (i + 1) (n % 256)
        (e ∙ sym (append_assoc pre (n / 256 ∷ []) _))
        (omega (arith, length-append pre (n / 256 ∷ []))) in
    rw (first, second) (ap some (omega arith))

sni_offset-at :
    (p pre after : List ℕ) (i e₁ e₂ l₁ l₂ : ℕ) (host : List ℕ)
    → p ≡ pre ++ (sni_bytes e₁ e₂ l₁ l₂ host ++ after)
    → i ≡ length pre
    → 2 ≤ length host
    → length host < 65536
    → sni_offset p (i + 4) ≡ some (i + 9 + length host / 2)
unfolding sni_offset
sni_offset-at p pre after i e₁ e₂ l₁ l₂ host e at lo hi =
    let six : List ℕ = 0 ∷ 0 ∷ e₁ ∷ e₂ ∷ l₁ ∷ l₂ ∷ [] in
    let seven : List ℕ = 0 ∷ 0 ∷ e₁ ∷ e₂ ∷ l₁ ∷ l₂ ∷ 0 ∷ [] in
    let kind : get_elem? p (i + 4 + 2) ≡ some 0 =
      get-at p (pre ++ six) (be16 (length host) ++ (host ++ after)) (i + 4 + 2) 0
        (e ∙ sym (append_assoc pre six _)) (omega (arith, length-append pre six)) in
    let size : u16be p (i + 4 + 3) ≡ some (length host) =
      u16be-at p (pre ++ seven) (host ++ after) (i + 4 + 3) (length host)
        (e ∙ sym (append_assoc pre seven _)) (omega (arith, length-append pre seven)) hi in
    let whole : length p ≡ length pre + (9 + (length host + length after)) = omega (
      arith,
      ap length e,
      length-append pre (sni_bytes e₁ e₂ l₁ l₂ host ++ after),
      length-append host after,
    ) in
    let fits : leb (i + 4 + 5 + length host) (length p) ≡ true = le→leb _ _ (omega arith) in
    rw (kind, size, le→leb 2 (length host) lo, fits) (ap some (omega arith))

-- What is read where an extension other than the server name's starts.
scan-over :
    (f : ℕ) (p pre rest : List ℕ) (i : ℕ) (x : Extension)
    → p ≡ pre ++ (be16 x.kind ++ (be16 (length x.body) ++ (x.body ++ rest)))
    → i ≡ length pre
    → x.kind ≢ ext_sni
    → x.kind < 65536
    → length x.body < 65536
    → scan (suc f) p i ≡ scan f p (i + 4 + length x.body)
unfolding scan
scan-over f p pre rest i x e at other small hi =
    let kind : u16be p i ≡ some x.kind = u16be-at p pre _ i x.kind e at small in
    let size : u16be p (i + 2) ≡ some (length x.body) =
      u16be-at p (pre ++ be16 x.kind) (x.body ++ rest) (i + 2) (length x.body)
        (e ∙ sym (append_assoc pre (be16 x.kind) _))
        (omega (arith, length-append pre (be16 x.kind))) hi in
    let whole : length p ≡ length pre + (4 + (length x.body + length rest)) = omega (
      arith,
      ap length e,
      length-append pre (be16 x.kind ++ (be16 (length x.body) ++ (x.body ++ rest))),
      length-append x.body rest,
    ) in
    let fits : leb (i + 4) (length p) ≡ true = le→leb _ _ (omega arith) in
    let off : x.kind % 65536 == ext_sni ≡ false = ground arith in rw (fits, kind, size, off) refl

-- The loop stops at the server name.
scan-stop :
    (f : ℕ) (p pre after : List ℕ) (i e₁ e₂ l₁ l₂ : ℕ) (host : List ℕ)
    → p ≡ pre ++ (sni_bytes e₁ e₂ l₁ l₂ host ++ after)
    → i ≡ length pre
    → 2 ≤ length host
    → length host < 65536
    → scan (suc f) p i ≡ some (i + 9 + length host / 2)
unfolding scan u16be
scan-stop f p pre after i e₁ e₂ l₁ l₂ host e at lo hi =
    let kind : u16be p i ≡ some 0 = u16be-at p pre _ i 0 e at (omega arith) in
    let two : List ℕ = 0 ∷ 0 ∷ [] in
    let first : get_elem? p (i + 2) ≡ some e₁ =
      get-at p (pre ++ two) _ (i + 2) e₁ (e ∙ sym (append_assoc pre two _))
        (omega (arith, length-append pre two)) in
    let three : List ℕ = 0 ∷ 0 ∷ e₁ ∷ [] in
    let second : get_elem? p (i + 2 + 1) ≡ some e₂ =
      get-at p (pre ++ three) _ (i + 2 + 1) e₂ (e ∙ sym (append_assoc pre three _))
        (omega (arith, length-append pre three)) in
    let whole : length p ≡ length pre + (9 + (length host + length after)) = omega (
      arith,
      ap length e,
      length-append pre (sni_bytes e₁ e₂ l₁ l₂ host ++ after),
      length-append host after,
    ) in
    let fits : leb (i + 4) (length p) ≡ true = le→leb _ _ (omega arith) in
    rw (fits, kind, first, second) (sni_offset-at p pre after i e₁ e₂ l₁ l₂ host e at lo hi)

-- The loop passes over the extensions in front of the server name.
scan-hello :
    (before : List Extension) (f : ℕ) (p pre after : List ℕ) (i e₁ e₂ l₁ l₂ : ℕ) (host : List ℕ)
    → p ≡ pre ++ (extensions_bytes before ++ (sni_bytes e₁ e₂ l₁ l₂ host ++ after))
    → i ≡ length pre
    → length p < i + f + 4
    → All (λ e. (e.kind ≢ ext_sni) × (e.kind < 65536) × (length e.body < 65536)) before
    → 2 ≤ length host
    → length host < 65536
    → scan f p i ≡ some (i + length (extensions_bytes before) + 9 + length host / 2)
scan-hello [] zero p pre after i e₁ e₂ l₁ l₂ host e at fuel kinds lo hi =
    absurd (omega (arith, ap length e, length-append pre (sni_bytes e₁ e₂ l₁ l₂ host ++ after)))
scan-hello [] (suc f) p pre after i e₁ e₂ l₁ l₂ host e at fuel kinds lo hi =
    scan-stop f p pre after i e₁ e₂ l₁ l₂ host e at lo hi ∙ ap some (omega arith)
scan-hello (x ∷ xs) zero p pre after i e₁ e₂ l₁ l₂ host e at fuel kinds lo hi = absurd (
    omega (
      arith,
      ap length e,
      length-append pre (extensions_bytes (x ∷ xs) ++ (sni_bytes e₁ e₂ l₁ l₂ host ++ after)),
    ))
scan-hello (x ∷ xs) (suc f) p pre after i e₁ e₂ l₁ l₂ host e at fuel ((k, s, b), kinds) lo hi =
    let rest : List ℕ = extensions_bytes xs ++ (sni_bytes e₁ e₂ l₁ l₂ host ++ after) in
    let front : List ℕ = pre ++ extension_bytes x in
    let e' : p ≡ pre ++ (extension_bytes x ++ rest) =
      e ∙ ap (◌++◌ pre) (append_assoc (extension_bytes x) (extensions_bytes xs) _) in
    let e'' : p ≡ pre ++ (be16 x.kind ++ (be16 (length x.body) ++ (x.body ++ rest))) = e' in
    let at' : i + 4 + length x.body ≡ length front =
      omega (arith, length-append pre (extension_bytes x)) in
    scan-over f p pre rest i x e'' at k s b
    ∙ scan-hello xs f p front after (i + 4 + length x.body) e₁ e₂ l₁ l₂ host
        (e' ∙ sym (append_assoc pre (extension_bytes x) rest)) at' (omega arith) kinds lo hi
    ∙ ap some (omega (arith, length-append x.body (extensions_bytes xs)))

-- On a well-formed ClientHello with a server name of at least two bytes, the parser finds the
-- middle of the host name.
pub sni_split_offset-hello_bytes :
    (h : ClientHello)
    → IsWellFormed h
    → sni_split_offset (hello_bytes h) ≡ some (host_start h + length h.host / 2)
unfolding sni_split_offset
sni_split_offset-hello_bytes h ok =
    let p : List ℕ = hello_bytes h in
    let exts : List ℕ = extensions_bytes h.before ++ (sni_extension h ++ h.after) in
    let e₄ : p ≡ to_total h ++ (be16 h.total ++ exts) =
      append_assoc (to_total h) (be16 h.total) exts in
    let e₃ : p
        ≡ to_compression h ++ length h.compression ∷ (h.compression ++ (be16 h.total ++ exts)) =
      e₄ ∙ append_assoc (to_compression h) (length h.compression ∷ h.compression) _ in
    let e₂ : p
        ≡ to_ciphers h
          ++ (be16 (length h.ciphers)
              ++ (h.ciphers ++ length h.compression ∷ (h.compression ++ (be16 h.total ++ exts)))) =
      e₃ ∙ append_assoc (to_ciphers h) (be16 (length h.ciphers) ++ h.ciphers) _ in
    let e₁ : p
        ≡ to_session_id h
          ++ length h.session_id
            ∷ (h.session_id
                ++ (be16 (length h.ciphers)
                    ++ (h.ciphers
                        ++ length h.compression ∷ (h.compression ++ (be16 h.total ++ exts))))) =
      e₂ ∙ append_assoc (to_session_id h) (length h.session_id ∷ h.session_id) _ in
    let s₂ : length (to_ciphers h) ≡ 38 + (1 + length h.session_id) = omega (
      arith,
      ok.header_size,
      length-append (to_session_id h) (length h.session_id ∷ h.session_id),
    ) in
    let s₃ : length (to_compression h) ≡ length (to_ciphers h) + (2 + length h.ciphers) =
      omega (arith, length-append (to_ciphers h) (be16 (length h.ciphers) ++ h.ciphers)) in
    let s₄ : length (to_total h) ≡ length (to_compression h) + (1 + length h.compression) =
      omega (arith, length-append (to_compression h) (length h.compression ∷ h.compression)) in
    let s₅ : length (front_bytes h) ≡ length (to_total h) + 2 =
      omega (arith, length-append (to_total h) (be16 h.total)) in
    let at₂ : 38 + (1 + length h.session_id) ≡ length (to_ciphers h) = sym s₂ in
    let at₃ : 38 + (1 + length h.session_id) + (2 + length h.ciphers) ≡ length (to_compression h) =
      omega (arith, s₂, s₃) in
    let at₄ : 38 + (1 + length h.session_id) + (2 + length h.ciphers) + (1 + length h.compression)
        ≡ length (to_total h) =
      omega (arith, at₃, s₄) in
    let at₅ : 38
          + (1 + length h.session_id)
          + (2 + length h.ciphers)
          + (1 + length h.compression)
          + 2
        ≡ length (front_bytes h) =
      omega (arith, at₄, s₅) in
    let sid : get_elem? p 38 ≡ some (length h.session_id) =
      get-at p (to_session_id h) _ 38 _ e₁ (omega (arith, ok.header_size)) in
    let ciphers : u16be p (38 + (1 + length h.session_id)) ≡ some (length h.ciphers) =
      u16be-at p (to_ciphers h) _ _ _ e₂ at₂ ok.ciphers_size in
    let comp : get_elem? p (38 + (1 + length h.session_id) + (2 + length h.ciphers))
        ≡ some (length h.compression) =
      get-at p (to_compression h) _ _ _ e₃ at₃ in
    let total : u16be p
          (38 + (1 + length h.session_id) + (2 + length h.ciphers) + (1 + length h.compression))
        ≡ some h.total =
      u16be-at p (to_total h) _ _ _ e₄ at₄ ok.total_size in
    let found : scan (length p) p (length (front_bytes h))
        ≡ some (host_start h + length h.host / 2) =
      scan-hello h.before (length p) p (front_bytes h) h.after (length (front_bytes h)) _ _ _ _
        h.host refl refl (omega arith) ok.before_kinds ok.host_min ok.host_max in
    rw (sid, ciphers, comp, total, at₅) found
