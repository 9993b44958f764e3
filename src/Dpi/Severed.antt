-- ===== src/Dpi/Severed.antt =====
-- dpi.rs: `sni_split_offset` and `fragment_client_hello` together, on a browser's first bytes.
use mathlib.Core.List.{append_assoc}
use detour.Prelude.{
  List, ap, arith, drop, drop-length-append, length, length-append, length-drop, length-take, some,
  sym, take, take-append-drop, take-length-append, ℕ, ◌*◌, ◌++◌, ◌+◌, ◌-◌, ◌/◌, ◌∙◌, ◌∷◌, ◌≡◌, ◌≤◌,
}
use detour.Dpi.{choose_cut, content_handshake, fragment_client_hello, frame, sni_split_offset}
use detour.Dpi.Hello.{
  ClientHello, IsWellFormed, be16, extensions_bytes, front_bytes, hello_bytes, host_start,
  sni_split_offset-hello_bytes,
}
use detour.Dpi.Records.{choose_cut-inside, fragment_record}

-- All of a ClientHello in front of the host name.
abbrev pub before_host : ClientHello → List ℕ
before_host h =
    front_bytes h
    ++ (extensions_bytes h.before
        ++ 0 ∷ 0 ∷ h.list_high ∷ h.list_low ∷ h.size_high ∷ h.size_low ∷ 0 ∷ be16 (length h.host))

abbrev pub first_half : ClientHello → List ℕ
first_half h = take (length h.host / 2) h.host

abbrev pub second_half : ClientHello → List ℕ
second_half h = drop (length h.host / 2) h.host

halves :
    (h : ClientHello)
    → hello_bytes h ≡ (before_host h ++ first_half h) ++ (second_half h ++ h.after)
halves h =
    let head_ : List ℕ =
      0 ∷ 0 ∷ h.list_high ∷ h.list_low ∷ h.size_high ∷ h.size_low ∷ 0 ∷ be16 (length h.host) in
    let cut : h.host ++ h.after ≡ first_half h ++ (second_half h ++ h.after) =
      ap (λ l. l ++ h.after) (sym (take-append-drop (length h.host / 2) h.host))
      ∙ append_assoc (first_half h) (second_half h) h.after in
    ap (λ l. front_bytes h ++ (extensions_bytes h.before ++ (head_ ++ l))) cut
    ∙ ap (◌++◌ (front_bytes h)) (sym (append_assoc (extensions_bytes h.before) head_ _))
    ∙ sym (append_assoc (front_bytes h) (extensions_bytes h.before ++ head_) _)
    ∙ sym (append_assoc (before_host h) (first_half h) _)

length-front_part :
    (h : ClientHello) → length (before_host h ++ first_half h) ≡ host_start h + length h.host / 2
length-front_part h =
    let head_ : List ℕ =
      0 ∷ 0 ∷ h.list_high ∷ h.list_low ∷ h.size_high ∷ h.size_low ∷ 0 ∷ be16 (length h.host) in
    omega (
      arith,
      length-append (before_host h) (first_half h),
      length-append (front_bytes h) (extensions_bytes h.before ++ head_),
      length-append (extensions_bytes h.before) head_,
      length-take (length h.host / 2) h.host,
    )

-- A handshake record of exactly the length that it declares, whose payload is a well-formed
-- ClientHello with a host name of at least two bytes, leaves as two records, the first of which
-- ends with the first half of the host name while the second starts with the other half.
pub fragment-severs_host :
    (h : ClientHello) (v w hi lo : ℕ)
    → IsWellFormed h
    → hi * 256 + lo ≡ length (hello_bytes h)
    → fragment_client_hello (content_handshake ∷ v ∷ w ∷ hi ∷ lo ∷ hello_bytes h)
      ≡ frame v w (before_host h ++ first_half h) ++ frame v w (second_half h ++ h.after)
fragment-severs_host h v w hi lo ok declared =
    let a : List ℕ = before_host h ++ first_half h in
    let b : List ℕ = second_half h ++ h.after in
    let p : List ℕ = hello_bytes h in
    let two : 2 ≤ length h.host = ok.host_min in
    let size : length a ≡ host_start h + length h.host / 2 = length-front_part h in
    let whole : length p ≡ length a + length b = ap length (halves h) ∙ length-append a b in
    let back : length b ≡ length h.host - length h.host / 2 + length h.after =
      omega
        (arith, length-append (second_half h) h.after, length-drop (length h.host / 2) h.host) in
    let found : sni_split_offset p ≡ some (length a) =
      sni_split_offset-hello_bytes h ok ∙ ap some (sym size) in
    let chosen : choose_cut (sni_split_offset p) (length p) ≡ some (length a) =
      ap (λ o. choose_cut o (length p)) found
      ∙ choose_cut-inside (length a) (length p) (omega arith) (omega arith) in
    fragment_record v w hi lo (length a) p declared (omega arith) chosen
    ∙ ap (λ l. frame v w (take (length a) l) ++ frame v w (drop (length a) l)) (halves h)
    ∙ ap (λ x. frame v w x ++ frame v w (drop (length a) (a ++ b))) (take-length-append a b)
    ∙ ap (λ y. frame v w a ++ frame v w y) (drop-length-append a b)
