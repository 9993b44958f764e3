-- ===== src/Dpi/Records.antt =====
-- dpi.rs, `fragment_client_hello`: when it cuts, and how a server reads what it sends.
use detour.Prelude.{
  ==_self, ==→eq, Bool, Bool-cases, List, Option, [], ap, arith, dec_lt, drop, drop-length-append,
  false, if◌then◌else◌, inl, inr, leb, length, length-append, length-drop, length-take, le→leb, ltb,
  max, none, not, refl, some, suc, sym, take, take-append-drop, take-length-append, true, ℕ, ◌%◌,
  ◌&&◌, ◌*◌, ◌++◌, ◌+◌, ◌-◌, ◌/◌, ◌<◌, ◌==◌, ◌||◌, ◌↔◌, ◌∙◌, ◌∷◌, ◌≡◌, ◌≢◌, ◌≤◌,
}
use mathlib.Core.List.{append-nil}
use detour.Dpi.{
  choose_cut, content_handshake, cut_records, fragment_client_hello, frame, sni_split_offset,
}

-- The data is exactly one handshake record, with a payload that can be cut.
pub record IsSplittable (bytes_ : List ℕ) : Type 0 where
  pub v : ℕ
  pub w : ℕ
  pub hi : ℕ
  pub lo : ℕ
  pub payload : List ℕ
  pub shape : bytes_ ≡ content_handshake ∷ v ∷ w ∷ hi ∷ lo ∷ payload
  pub declared : hi * 256 + lo ≡ length payload
  pub cuttable : 2 ≤ length payload

-- A handshake record of a peer, and what follows it on the stream.
pub record TlsRecord : Type 0 where
  pub v : ℕ
  pub w : ℕ
  pub payload : List ℕ

pub read_record : List ℕ → Option (TlsRecord × List ℕ)
read_record (t ∷ v ∷ w ∷ hi ∷ lo ∷ rest) =
    if t == content_handshake && leb (hi * 256 + lo) (length rest)
    then some
        (record { v = v; w = w; payload = take (hi * 256 + lo) rest }, drop (hi * 256 + lo) rest)
    else none
read_record _ = none

read_record-frame :
    (v w : ℕ) (part rest : List ℕ)
    → length part < 65536
    → read_record (frame v w part ++ rest) ≡ some (record { v = v; w = w; payload = part }, rest)
unfolding read_record frame
read_record-frame v w part rest h =
    let size : length part % 65536 / 256 * 256 + length part % 65536 % 256 ≡ length part =
      omega arith in
    let fits : leb (length part) (length (part ++ rest)) ≡ true =
      le→leb _ _ (omega (arith, length-append part rest)) in
    rw (size, fits, take-length-append, drop-length-append) refl

choose_cut-in_range :
    (o : Option ℕ) (n : ℕ) → 2 ≤ n → (c : ℕ) × (choose_cut o n ≡ some c) × (0 < c) × (c < n)
unfolding choose_cut
choose_cut-in_range none n h = (max (n / 2) 1, ground arith, omega arith, omega arith)
choose_cut-in_range (some k) n h = elim (Bool-cases (ltb 0 k && ltb k n)) [
  | inl good ↦ (k, rw good refl, ground arith, ground arith)
  | inr bad ↦ (max (n / 2) 1, ground arith, omega arith, omega arith)
]

choose_cut-small : (o : Option ℕ) (n : ℕ) → n < 2 → choose_cut o n ≡ none
unfolding choose_cut
choose_cut-small none n h = ground arith
choose_cut-small (some k) n h = ground arith

pub choose_cut-inside : (c n : ℕ) → 0 < c → c < n → choose_cut (some c) n ≡ some c
unfolding choose_cut
choose_cut-inside c n low high = ground arith

pub fragment_record :
    (v w hi lo cut : ℕ) (payload : List ℕ)
    → hi * 256 + lo ≡ length payload
    → 2 ≤ length payload
    → choose_cut (sni_split_offset payload) (length payload) ≡ some cut
    → fragment_client_hello (content_handshake ∷ v ∷ w ∷ hi ∷ lo ∷ payload)
      ≡ frame v w (take cut payload) ++ frame v w (drop cut payload)
unfolding fragment_client_hello
fragment_record v w hi lo cut payload declared two chosen =
    let long : leb (5 + length payload) 5 ≡ false = ground arith in
    let size : length (content_handshake ∷ v ∷ w ∷ hi ∷ lo ∷ payload) ≡ 5 + length payload =
      omega arith in
    let exact : (5 + length payload == 5 + length payload) ≡ true = ==_self (5 + length payload) in
    rw (size, long, declared, exact, chosen, cut_records) refl

-- A splittable record becomes two records of its version, cut strictly inside the payload.
fragment_cuts :
    (bytes_ : List ℕ) (s : IsSplittable bytes_)
    → (cut : ℕ) × (0 < cut)
      × (cut < length s.payload)
      × (choose_cut (sni_split_offset s.payload) (length s.payload) ≡ some cut)
      × (fragment_client_hello bytes_
          ≡ frame s.v s.w (take cut s.payload) ++ frame s.v s.w (drop cut s.payload))
fragment_cuts bytes_ s =
    let (cut, chosen, pos, below) =
      choose_cut-in_range (sni_split_offset s.payload) (length s.payload) s.cuttable in
    (
      cut,
      pos,
      below,
      chosen,
      ap fragment_client_hello s.shape
          ∙ fragment_record s.v s.w s.hi s.lo cut s.payload s.declared s.cuttable chosen,
    )

-- A server that reads what becomes of a splittable record with a payload of less than 65536 bytes
-- finds two records of the same version, neither of them empty, whose payloads put together are
-- the original one, and nothing after them.
pub fragment-reassembles :
    (bytes_ : List ℕ) (s : IsSplittable bytes_)
    → length s.payload < 65536
    → (a b tail : List ℕ) × (read_record (fragment_client_hello bytes_)
        ≡ some (record { v = s.v; w = s.w; payload = a }, tail))
      × (read_record tail ≡ some (record { v = s.v; w = s.w; payload = b }, []))
      × (a ++ b ≡ s.payload)
      × (0 < length a)
      × (0 < length b)
fragment-reassembles bytes_ s small =
    let (cut, pos, below, chosen, e) = fragment_cuts bytes_ s in
    let front : length (take cut s.payload) ≡ cut = omega (arith, length-take cut s.payload) in
    let back : length (drop cut s.payload) ≡ length s.payload - cut = length-drop cut s.payload in
    (
      take cut s.payload,
      drop cut s.payload,
      frame s.v s.w (drop cut s.payload),
      ap read_record e ∙ read_record-frame s.v s.w _ _ (omega arith),
      ap read_record (sym (append-nil (frame s.v s.w (drop cut s.payload))))
          ∙ read_record-frame s.v s.w (drop cut s.payload) [] (omega arith),
      take-append-drop cut s.payload,
      omega arith,
      omega arith,
    )

length-frame : (v w : ℕ) (part : List ℕ) → length (frame v w part) ≡ 5 + length part
unfolding frame
length-frame v w part = omega arith

-- The data grows by exactly the second header where it is cut.
pub length-fragment :
    (bytes_ : List ℕ)
    → IsSplittable bytes_
    → length (fragment_client_hello bytes_) ≡ length bytes_ + 5
length-fragment bytes_ s =
    let (cut, pos, below, chosen, e) = fragment_cuts bytes_ s in
    let a = take cut s.payload in
    let b = drop cut s.payload in
    let whole : length bytes_ ≡ 5 + length s.payload = ap length s.shape ∙ omega arith in
    omega (
      arith,
      ap length e,
      length-append (frame s.v s.w a) (frame s.v s.w b),
      length-frame s.v s.w a,
      length-frame s.v s.w b,
      length-take cut s.payload,
      length-drop cut s.payload,
    )

unchanged_record :
    (t v w hi lo : ℕ) (payload : List ℕ)
    → ¬ IsSplittable (t ∷ v ∷ w ∷ hi ∷ lo ∷ payload)
    → fragment_client_hello (t ∷ v ∷ w ∷ hi ∷ lo ∷ payload) ≡ t ∷ v ∷ w ∷ hi ∷ lo ∷ payload
unfolding fragment_client_hello
unchanged_record t v w hi lo payload not_split =
    elim (Bool-cases (leb (suc (suc (suc (suc (suc (length payload)))))) 5 || not (t == 22))) [
      | inl out ↦ rw out refl
      | inr in_ ↦
          elim (Bool-cases (5 + (hi * 256 + lo) == suc (suc (suc (suc (suc (length payload))))))) [
            | inr other ↦ rw (in_, other) refl
            | inl exact ↦ elim (dec_lt (length payload) 2) [
              | yes small ↦
                  rw
                    (in_, exact, choose_cut-small (sni_split_offset payload) (length payload) small)
                    refl
              | no big ↦ absurd (
                  not_split (record {
                    v = v;
                    w = w;
                    hi = hi;
                    lo = lo;
                    payload = payload;
                    shape = kind (t == 22) refl in_;
                    declared = omega (arith, ==→eq _ _ exact);
                    cuttable = omega arith;
                  }))
            ]
          ]
    ]
  where
    kind :
        (b : Bool)
        → (t == 22) ≡ b
        → (leb (suc (suc (suc (suc (suc (length payload)))))) 5 || not (t == 22)) ≡ false
        → ◌≡◌ {A = List ℕ} (t ∷ v ∷ w ∷ hi ∷ lo ∷ payload) (22 ∷ v ∷ w ∷ hi ∷ lo ∷ payload)
    kind true e g = ap (λ x. x ∷ v ∷ w ∷ hi ∷ lo ∷ payload) (==→eq t 22 e)
    kind false e g = absurd (ground arith)

-- Data that is not exactly one handshake record with a payload of two bytes or more is passed on
-- as it is.
fragment_unchanged :
    (bytes_ : List ℕ) → ¬ IsSplittable bytes_ → fragment_client_hello bytes_ ≡ bytes_
unfolding fragment_client_hello
fragment_unchanged (t ∷ v ∷ w ∷ hi ∷ lo ∷ payload) h = unchanged_record t v w hi lo payload h
fragment_unchanged [] h = refl
fragment_unchanged (t ∷ []) h = ground arith
fragment_unchanged (t ∷ v ∷ []) h = ground arith
fragment_unchanged (t ∷ v ∷ w ∷ []) h = ground arith
fragment_unchanged (t ∷ v ∷ w ∷ hi ∷ []) h = ground arith

-- So the data is reported as fragmented, by its length, exactly if it was one record that can be
-- cut.
pub fragmented_iff :
    (bytes_ : List ℕ)
    → (length (fragment_client_hello bytes_) ≢ length bytes_) ↔ (¬ ¬ IsSplittable bytes_)
fragmented_iff bytes_ = (
  λ differs not_split. differs (ap length (fragment_unchanged bytes_ not_split)),
  λ splits same. splits (λ s. omega (arith, length-fragment bytes_ s, same)),
)
