-- ===== src/Dpi/Scan.antt =====
-- dpi.rs, `sni_split_offset`: the loop ends, and an offset that it finds lies inside a name.
use detour.Prelude.{
  Bool-cases, List, Option, Option-cases, ap, arith, get_elem?, inl, inr, leb, length, none, refl,
  some, suc, zero, ℕ, ◌%◌, ◌&&◌, ◌+◌, ◌-◌, ◌/◌, ◌<◌, ◌==◌, ◌∙◌, ◌≡◌, ◌≤◌,
}
use detour.Dpi.{
  ext_sni, guard, handshake_client_hello, scan, sni_offset, sni_split_offset, u16be, ◌>>=◌,
}

scan_out : (f : ℕ) (p : List ℕ) (i : ℕ) → length p < i + 4 → scan f p i ≡ none
unfolding scan
scan_out zero p i h = refl
scan_out (suc f) p i h = ground arith

scan_step :
    (f g : ℕ) (p : List ℕ) (i : ℕ)
    → ((n : ℕ) → scan f p (i + 4 + n) ≡ scan g p (i + 4 + n))
    → scan (suc f) p i ≡ scan (suc g) p i
unfolding scan
scan_step f g p i same = elim (Bool-cases (leb (i + 4) (length p))) [
  | inr out ↦ rw out refl
  | inl in_ ↦ elim (Option-cases (u16be p i)) [
    | inl none_ ↦ rw (in_, none_) refl
    | inr (t, type_) ↦ elim (Option-cases (u16be p (i + 2))) [
      | inl none_ ↦ rw (in_, type_, none_) refl
      | inr (n, len_) ↦ rw (in_, type_, len_, same n) refl
    ]
  ]
]

-- Any two fuels that exceed what is left to read after an offset, the four bytes of an extension
-- header aside, give the same result.
scan_fuel :
    (f g : ℕ) (p : List ℕ) (i : ℕ)
    → length p < i + f + 4
    → length p < i + g + 4
    → scan f p i ≡ scan g p i
scan_fuel zero g p i hf hg = rw (scan_out 0 p i (omega arith), scan_out g p i (omega arith))
scan_fuel (suc f) zero p i hf hg =
    rw (scan_out 0 p i (omega arith), scan_out (suc f) p i (omega arith))
scan_fuel (suc f) (suc g) p i hf hg =
    scan_step f g p i (λ n. scan_fuel f g p (i + 4 + n) (omega arith) (omega arith))

-- `c` lies strictly inside a host name of `n` bytes that starts at `start`: the two bytes in front
-- of the name hold its length, the name ends in the text, and its entry has the type `host_name`.
pub record InsideName (p : List ℕ) (c : ℕ) : Type 0 where
  pub start : ℕ
  pub size : ℕ
  pub starts_before : start < c
  pub ends_after : c < start + size
  pub in_bounds : start + size ≤ length p
  pub size_field : u16be p (start - 2) ≡ some size
  pub type_field : get_elem? p (start - 3) ≡ some 0

-- A `?` on something that is not there, and one on something that is.
>>=-eq_some :
    {A B : Type 0} (m : Option A) (f : A → Option B) (b : B)
    → (m >>= f) ≡ some b
    → (a : A) × (m ≡ some a) × (f a ≡ some b)
>>=-eq_some none f b h = absurd (ground arith)
>>=-eq_some (some a) f b h = (a, refl, h)

sni_offset-InsideName : (p : List ℕ) (start c : ℕ) → sni_offset p start ≡ some c → InsideName p c
unfolding sni_offset
sni_offset-InsideName p start c h =
    let (t, kind, rest) = >>=-eq_some (get_elem? p (start + 2)) _ c h in
    let (u, plain, rest') = >>=-eq_some (guard (t == 0)) _ c rest in
    let (n, size_, rest'') = >>=-eq_some (u16be p (start + 3)) _ c rest' in
    let (w, fits, last) =
      >>=-eq_some (guard (leb 2 n && leb (start + 5 + n) (length p))) _ c rest'' in
    let bounds : (2 ≤ n) × (start + 5 + n ≤ length p) = ground arith in
    let value : start + 5 + n / 2 ≡ c = ground arith in
    let zero_ : t ≡ 0 = ground arith in
    record {
      start = start + 5;
      size = n;
      starts_before = omega (arith, bounds, value);
      ends_after = omega (arith, bounds, value);
      in_bounds = bounds.1;
      size_field = rw (index_back start) size_;
      type_field = rw (index_back' start) (kind ∙ ap some zero_);
    }
  where
    index_back : (k : ℕ) → k + 5 - 2 ≡ k + 3
    index_back k = omega arith

    index_back' : (k : ℕ) → k + 5 - 3 ≡ k + 2
    index_back' k = omega arith

scan-InsideName : (f : ℕ) (p : List ℕ) (i c : ℕ) → scan f p i ≡ some c → InsideName p c
unfolding scan
scan-InsideName zero p i c h = absurd (ground arith)
scan-InsideName (suc f) p i c h = elim (Bool-cases (leb (i + 4) (length p))) [
  | inr out ↦ absurd (none_ne_some (rw out at h))
  | inl in_ ↦
      let (t, type_, rest) = >>=-eq_some (u16be p i) _ c (rw in_ at h) in
      let (n, len_, rest') = >>=-eq_some (u16be p (i + 2)) _ c rest in
      elim (Bool-cases (t % 65536 == ext_sni)) [
        | inl sni ↦ sni_offset-InsideName p (i + 4) c (rw sni at rest')
        | inr other ↦ scan-InsideName f p (i + 4 + n) c (rw other at rest')
      ]
]
  where
    none_ne_some : ◌≡◌ {A = Option ℕ} none (some c) → ⊥
    none_ne_some e = cc

-- An offset that the parser returns lies strictly inside a host name of the message.
sni_split_offset-InsideName : (p : List ℕ) (c : ℕ) → sni_split_offset p ≡ some c → InsideName p c
unfolding sni_split_offset
sni_split_offset-InsideName p c h =
    let (kind, e0, h0) = >>=-eq_some (get_elem? p 0) _ c h in
    let (u, e1, h1) = >>=-eq_some (guard (kind == handshake_client_hello)) _ c h0 in
    let (sid, e2, h2) = >>=-eq_some (get_elem? p 38) _ c h1 in
    let (ciphers, e3, h3) = >>=-eq_some (u16be p (38 + (1 + sid))) _ c h2 in
    let (comp, e4, h4) = >>=-eq_some (get_elem? p (38 + (1 + sid) + (2 + ciphers))) _ c h3 in
    let (total, e5, h5) =
      >>=-eq_some (u16be p (38 + (1 + sid) + (2 + ciphers) + (1 + comp))) _ c h4 in
    scan-InsideName (length p) p (38 + (1 + sid) + (2 + ciphers) + (1 + comp) + 2) c h5
