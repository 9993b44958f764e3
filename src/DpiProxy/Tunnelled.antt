-- ===== src/DpiProxy/Tunnelled.antt =====
-- What reaches the target is what the client sent, its first flight fragmented.
use mathlib.Core.List.{append_assoc}
use detour.Prelude.{
  Bool, Bool-cases, List, Option, Option-cases, Text, [], ap, arith, drop, ends_with, err, false,
  inl, inr, length, length-append, ltb, ltb→lt, min, none, ok, refl, some, suc, sym, take, true,
  zero, ||_true, ℕ, ◌++◌, ◌||◌, ◌∙◌, ◌∷◌, ◌≡◌, ◌≢◌, ◌≤◌, ◌⊎◌,
}
use detour.Dpi.{fragment_client_hello}
use detour.DpiProxy.{
  Connection, Io, Stats, bad_gateway, blank_line, count_connection, ended, established,
  first_buffer, first_flight, idle, io_failed, not_allowed, parse_connect_target, read_head, splice,
}

some_pair :
    {A B : Type 0} {a c : A} {b d : B}
    → ◌≡◌ {A = Option (A × B)} (some (a, b)) (some (c, d))
    → (a ≡ c) × (b ≡ d)
some_pair {A = A} {B = B} {a = a} {b = b} h = (ap (λ o. (got o).0) h, ap (λ o. (got o).1) h)
  where
    got : Option (A × B) → A × B
    got none = (a, b)
    got (some p) = p

within : (t : Bool) (n : ℕ) → (t || ltb 8192 n) ≡ false → n ≤ 8192
within t n h = ground arith

stopped : (t : Bool) (n : ℕ) → n ≤ 8193 → (t || ltb 8192 n) ≡ true → (t ≡ true) ⊎ (n ≡ 8193)
stopped t n short h = elim (||_true t (ltb 8192 n) h) [
  | inl e ↦ inl e
  | inr e ↦ inr (omega (arith, ltb→lt 8192 n e))
]

-- The head and what follows it are the client's bytes; the head ends at the first blank line, or
-- after 8193 bytes without one.
pub read_head_lem :
    (buf client head rest : List ℕ)
    → length buf ≤ 8192
    → read_head buf client ≡ some (head, rest)
    → (head ++ rest ≡ buf ++ client)
      × ((ends_with head blank_line ≡ true) ⊎ (length head ≡ 8193))
      × (length head ≤ 8193)
unfolding read_head
read_head_lem buf [] head rest small h = absurd (ground arith)
read_head_lem buf (byte ∷ more) head rest small h =
    let found : Bool = ends_with (buf ++ byte ∷ []) blank_line in
    let short : length (buf ++ byte ∷ []) ≤ 8193 = omega (arith, length-append buf (byte ∷ [])) in
    elim (Bool-cases (found || ltb 8192 (length (buf ++ byte ∷ [])))) [
      | inl stop ↦
          let (same_head, same_rest) = some_pair (rw stop at h) in
          rw (← same_head, ← same_rest)
            (append_assoc buf (byte ∷ []) more, stopped found _ short stop, short)
      | inr go ↦
          let (same, ended, short_) =
            read_head_lem (buf ++ byte ∷ []) more head rest (within found _ go) (rw go at h) in
          (same ∙ append_assoc buf (byte ∷ []) more, ended, short_)
    ]

take_rest : (k : ℕ) (xs : List ℕ) → take k xs ++ drop (length (take k xs)) xs ≡ xs
take_rest zero xs = refl
take_rest (suc k) [] = refl
take_rest (suc k) (x ∷ xs) = ap (◌∷◌ x) (take_rest k xs)

-- A first flight was read, and is sent in fragments, followed by as much of what comes after it as
-- is copied; or the writing of the fragments fails after some bytes of them.
pub record Delivered (io : Io) (client : List ℕ) (c : Connection) : Type 0 where
  pub rest : List ℕ
  pub whole_client : client ≡ first_flight io client ++ rest
  pub some_read : first_flight io client ≢ []
  pub what_sent :
      ((io.framed_fails ≡ none)
        × (c.sent ≡ fragment_client_hello (first_flight io client) ++ take io.copied rest)
        × (c.result ≡ ok tt))
      ⊎ ((n : ℕ) × (io.framed_fails ≡ some n)
          × (c.sent ≡ take n (fragment_client_hello (first_flight io client)))
          × (c.result ≡ err io_failed))

not_empty : (b : ℕ) (xs ys : List ℕ) → xs ≡ b ∷ ys → xs ≢ []
not_empty b xs ys e h = cc

pub splice-Delivered :
    (io : Io) (client : List ℕ) (c : Connection) (b : ℕ) (more : List ℕ)
    → first_flight io client ≡ b ∷ more
    → c.result ≡ ok tt
    → Delivered io client (splice io client c)
unfolding splice
splice-Delivered io client c b more e fine = record {
  rest = drop (length (first_flight io client)) client;
  whole_client = sym (take_rest (min io.available first_buffer) client);
  some_read = λ h. absurd (not_empty b (first_flight io client) more e h);
  what_sent = elim (Option-cases io.framed_fails) [
    | inl whole ↦ inl (whole, rw (splice, e, whole) refl, rw (splice, e, whole) fine)
    | inr (n, cut) ↦ inr (n, cut, rw (splice, e, cut) refl, rw (splice, e, cut) refl)
  ];
}

-- The bytes of a client up to the first blank line, or the first 8193 without one, and the rest.
pub record IsHead (client head body : List ℕ) : Type 0 where
  pub whole : client ≡ head ++ body
  pub ended_at : (ends_with head blank_line ≡ true) ⊎ (length head ≡ 8193)
  pub head_length : length head ≤ 8193

-- The ways in which a connection goes, each with what decides it.
module _ (io : Io) (client : List ℕ) where
  -- The head names a target, which is dialled.
  pub record Named (c : Connection) (head body : List ℕ) (target : Text) : Type 0 where
    pub is_head : IsHead client head body
    pub named : parse_connect_target (io.from_utf8_lossy head) ≡ some target
    pub dialled_target : c.dialled ≡ some target

  pub data Handled (c : Connection) : Type 0 where
    no_head : read_head [] client ≡ none → c.dialled ≡ none → c.sent ≡ [] → Handled c
    no_target :
        (head body : List ℕ)
        → IsHead client head body
        → parse_connect_target (io.from_utf8_lossy head) ≡ none
        → c.replied ≡ not_allowed
        → c.dialled ≡ none
        → c.sent ≡ []
        → Handled c
    unreached :
        (head body : List ℕ) (target : Text)
        → Named c head body target
        → io.connects target ≡ false
        → c.replied ≡ bad_gateway
        → c.sent ≡ []
        → Handled c
    untold :
        (head body : List ℕ) (target : Text)
        → Named c head body target
        → io.connects target ≡ true
        → io.reply_written ≡ false
        → c.sent ≡ []
        → Handled c
    nothing_read :
        (head body : List ℕ) (target : Text)
        → Named c head body target
        → io.connects target ≡ true
        → c.replied ≡ established
        → first_flight io body ≡ []
        → c.sent ≡ []
        → Handled c
    tunnelled :
        (head body : List ℕ) (target : Text)
        → Named c head body target
        → io.connects target ≡ true
        → c.replied ≡ established
        → Delivered io body c
        → Handled c

module _ (io : Io) (client : List ℕ) (s : Stats) (head body : List ℕ)
    (is_head_ : IsHead client head body) where
  module _ (target : Text)
      (named_ : parse_connect_target (io.from_utf8_lossy head) ≡ some target) where
    abbrev told : Connection
    told = record (idle s) {
      replied = established;
      dialled = some target;
      stats = count_connection s;
    }
