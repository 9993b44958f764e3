-- ===== src/Policy/Reverse.antt =====
-- policy.rs, `is_private_reverse`: which reverse zones are local.
use detour.Policy.{
  is_private_reverse, private_nibbles, private_octets, private_v6_zone, slice_end, trim_suffixes,
  two,
}
use detour.Prelude.{
  &&_true, Bool, List, Option, Text, [], arith, bytes, ends_with-append, ends_with_other, false,
  has_byte, holds_below, holds_below_lem, if◌then◌else◌, length, length-append, ltb, none, not,
  parse_uint, refl, some, split, split-append, split_last, split_piece, starts_with,
  strip_suffix-append, strip_suffix-eq_none, suc, true, zero, ℕ, ◌%◌, ◌&&◌, ◌++◌, ◌+◌, ◌-◌, ◌/◌,
  ◌<◌, ◌==◌, ◌^◌, ◌||◌, ◌∙◌, ◌∷◌, ◌≡◌, ◌≢◌,
}

-- The decimal digits of a byte.
pub decimal : ℕ → Text
decimal n =
    if ltb n 10
    then (b'0' + n) ∷ []
    else if ltb n 100
    then (b'0' + n / 10) ∷ (b'0' + n % 10) ∷ []
    else (b'0' + n / 100) ∷ (b'0' + n / 10 % 10) ∷ (b'0' + n % 10) ∷ []

-- The labels of an IPv4 address in reverse, last octet first.
pub reverse_labels : ℕ → Text
reverse_labels addr =
    decimal (addr % 256)
    ++ (b'.'
        ∷ (decimal (addr / 256 % 256)
            ++ (b'.' ∷ (decimal (addr / 65536 % 256) ++ (b'.' ∷ decimal (addr / 16777216))))))

-- The name under which an IPv4 address is looked up in reverse.
pub reverse_name : ℕ → Text
reverse_name addr = reverse_labels addr ++ bytes ".in-addr.arpa"

-- `addr` lies in the network `base/prefix`.
abbrev pub in_net : ℕ → ℕ → ℕ → Bool
in_net addr base prefix = addr / 2 ^ (32 - prefix) == base / 2 ^ (32 - prefix)

-- 10.0.0.0/8, 127.0.0.0/8, 172.16.0.0/12, 192.168.0.0/16, 169.254.0.0/16.
pub in_private_net : ℕ → Bool
in_private_net addr =
    in_net addr 167772160 8
    || in_net addr 2130706432 8
    || in_net addr 2886729728 12
    || in_net addr 3232235520 16
    || in_net addr 2851995648 16

abbrev reads_back : ℕ → Option ℕ → Bool
reads_back n none = false
reads_back n (some k) = n == k

abbrev decimal_test : ℕ → Bool
decimal_test n = reads_back n (parse_uint 255 (decimal n)) && not (has_byte b'.' (decimal n))

decimal_table : holds_below 256 decimal_test ≡ true
unfolding holds_below decimal parse_uint has_byte
decimal_table = refl

parse-decimal : (n : ℕ) → n < 256 → parse_uint 255 (decimal n) ≡ some n
parse-decimal n h =
    let (reads, plain) =
      &&_true (reads_back n (parse_uint 255 (decimal n))) _
        (holds_below_lem 256 decimal_test n decimal_table h) in
    ground arith

has_dot-decimal : (n : ℕ) → n < 256 → has_byte b'.' (decimal n) ≡ false
has_dot-decimal n h =
    let (reads, plain) =
      &&_true (reads_back n (parse_uint 255 (decimal n))) _
        (holds_below_lem 256 decimal_test n decimal_table h) in
    ground arith

split-reverse_labels :
    (addr : ℕ)
    → addr < 2 ^ 32
    → split b'.' (reverse_labels addr)
      ≡ decimal (addr % 256)
        ∷ decimal (addr / 256 % 256)
        ∷ decimal (addr / 65536 % 256)
        ∷ decimal (addr / 16777216)
        ∷ []
unfolding reverse_labels
split-reverse_labels addr h = rw (
  split_piece b'.' _ _ (has_dot-decimal (addr % 256) (omega arith)),
  split_piece b'.' _ _ (has_dot-decimal (addr / 256 % 256) (omega arith)),
  split_piece b'.' _ _ (has_dot-decimal (addr / 65536 % 256) (omega arith)),
  split_last b'.' _ (has_dot-decimal (addr / 16777216) (omega arith)),
)

private_octets-net :
    (addr : ℕ)
    → addr < 2 ^ 32
    → private_octets (some (addr / 16777216)) (some (addr / 65536 % 256)) ≡ in_private_net addr
unfolding private_octets in_private_net
private_octets-net addr h = ground arith

-- The reverse name of an IPv4 address is local exactly if the address is private, loopback or
-- link-local: in 10/8, 127/8, 172.16/12, 192.168/16 or 169.254/16.
is_private_reverse-reverse_name :
    (addr : ℕ) → addr < 2 ^ 32 → is_private_reverse (reverse_name addr) ≡ in_private_net addr
unfolding is_private_reverse reverse_name
is_private_reverse-reverse_name addr h =
    rw
      (
        strip_suffix-append (reverse_labels addr) (bytes ".in-addr.arpa"),
        split-reverse_labels addr h,
        parse-decimal (addr / 16777216) (omega arith),
        parse-decimal (addr / 65536 % 256) (omega arith),
      )
      (private_octets-net addr h)

slice_end-append : (xs : List Text) (b a : Text) → slice_end (xs ++ b ∷ a ∷ []) ≡ two b a
unfolding slice_end
slice_end-append [] b a = refl
slice_end-append (x ∷ []) b a = refl
slice_end-append (x ∷ y ∷ []) b a = refl
slice_end-append (x ∷ y ∷ z ∷ r) b a = slice_end-append (y ∷ z ∷ r) b a

module _ (rest : Text) (c d : ℕ) (c_plain : c ≢ b'.') (d_plain : d ≢ b'.') where
  -- The labels of an IPv6 reverse name, whose two leading nibbles are the digits `d` and `c`.
  abbrev nibble_labels : Text
  nibble_labels = rest ++ (b'.' ∷ c ∷ b'.' ∷ d ∷ [])

  nibble_end : slice_end (split b'.' nibble_labels) ≡ two (c ∷ []) (d ∷ [])
  nibble_end =
      rw
        (
          split-append b'.' rest (c ∷ b'.' ∷ d ∷ []),
          split_piece b'.' (c ∷ []) (d ∷ []) (has_none c c_plain),
          split_last b'.' (d ∷ []) (has_none d d_plain),
        )
        (slice_end-append (split b'.' rest) (c ∷ []) (d ∷ []))
    where
      has_none : (x : ℕ) → x ≢ b'.' → has_byte b'.' (x ∷ []) ≡ false
      has_none x h = unfold has_byte in ground arith

  trim_none : (n : ℕ) → trim_suffixes n nibble_labels (bytes ".ip6.arpa") ≡ nibble_labels
  unfolding trim_suffixes
  trim_none zero = refl
  trim_none (suc n) = rw (
    strip_suffix-eq_none nibble_labels (bytes ".ip6.arpa") (
        ends_with_other rest (b'.' ∷ c ∷ b'.' ∷ d ∷ []) (bytes ".ip6.") (bytes "arpa")
          (λ e. dot_ne_a e) refl),
    trim_suffixes,
  )
    where
      dot_ne_a : ◌≡◌ {A = Text} (b'.' ∷ c ∷ b'.' ∷ d ∷ []) (bytes "arpa") → ⊥
      dot_ne_a e = ground arith

  trim_nibbles :
      (n : ℕ)
      → trim_suffixes (suc n) (nibble_labels ++ bytes ".ip6.arpa") (bytes ".ip6.arpa")
        ≡ nibble_labels
  unfolding trim_suffixes
  trim_nibbles n =
      rw (strip_suffix-append nibble_labels (bytes ".ip6.arpa"), trim_suffixes) (trim_none n)

  private_v6_zone-nibbles :
      private_v6_zone (nibble_labels ++ bytes ".ip6.arpa") ≡ private_nibbles (two (c ∷ []) (d ∷ []))
  unfolding private_v6_zone
  private_v6_zone-nibbles =
      let size : length (nibble_labels ++ bytes ".ip6.arpa") ≡ suc (length nibble_labels + 8) =
        omega (arith, length-append nibble_labels (bytes ".ip6.arpa")) in
      rw (
        ends_with-append nibble_labels (bytes ".ip6.arpa"),
        size,
        trim_nibbles (length nibble_labels + 8),
        nibble_end,
      )

  private_nibbles-digits :
      private_nibbles (two (c ∷ []) (d ∷ [])) ≡ (d == b'f' && (c == b'c' || c == b'd'))
  unfolding private_nibbles starts_with
  private_nibbles-digits = ground arith

  -- An IPv6 reverse name that ends in two labels of one byte each, none of them a dot, and the
  -- zone, is local exactly if its two leading digits are `fc` or `fd`: of the two ranges in the
  -- code only fc00::/7 is recognised, and no name of the link-local range fe80::/10.
  pub is_private_reverse-nibbles :
      is_private_reverse (nibble_labels ++ bytes ".ip6.arpa")
      ≡ (d == b'f' && (c == b'c' || c == b'd'))
  unfolding is_private_reverse
  is_private_reverse-nibbles =
      rw
        (
          strip_suffix-eq_none (nibble_labels ++ bytes ".ip6.arpa") (bytes ".in-addr.arpa") (
              ends_with_other nibble_labels (bytes ".ip6.arpa") (bytes ".in-") (bytes "addr.arpa")
                dot_ne_a refl),
          is_private_reverse,
        )
        (private_v6_zone-nibbles ∙ private_nibbles-digits)
    where
      dot_ne_a : ◌≡◌ {A = Text} (bytes ".ip6.arpa") (bytes "addr.arpa") → ⊥
      dot_ne_a e = ground arith
