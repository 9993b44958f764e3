-- ===== src/Policy/Suffix.antt =====
-- policy.rs, `suffix_matches` against a description by labels.
use mathlib.Core.List.{append_assoc}
use detour.Prelude.{
  &&_true, ==→eq, Bool, Option-cases, Text, [], ap, arith, bytes, ends_with, ends_with-append,
  ends_with→append, get_or, get_or-length, get_or-take, inl, inr, length, length-append,
  length-take, ltb, ltb→lt, lt→ltb, none, refl, strip_prefix, strip_prefix-append,
  strip_prefix-eq_some, suc, take, take_last, text_eq, text_eq_iff, text_eq_self, true, ||_true, ℕ,
  ◌&&◌, ◌++◌, ◌+◌, ◌-◌, ◌||◌, ◌↔◌, ◌∙◌, ◌∷◌, ◌≡◌, ◌≢◌,
}
use detour.Policy.{has_label_suffix, matches_normal, normalise_str, suffix_matches}

-- `name` is `labels.suffix`.
abbrev pub Subdomain : Text → Text → Type 0
Subdomain name suffix = (labels : Text) × (name ≡ labels ++ b'.' ∷ suffix)

-- What a rule in its normal form means: `*.s` for the names below `s`, and any other rule for the
-- name itself and the names below it.
pub data Covers (rule name : Text) : Type 0 where
  wildcard : (s : Text) → rule ≡ bytes "*." ++ s → Subdomain name s → Covers rule name
  itself : strip_prefix rule (bytes "*.") ≡ none → rule ≢ [] → name ≡ rule → Covers rule name
  below : strip_prefix rule (bytes "*.") ≡ none → rule ≢ [] → Subdomain name rule → Covers rule name

subdomain→label : (name s : Text) → Subdomain name s → has_label_suffix name s ≡ true
unfolding has_label_suffix
subdomain→label name s (pre, e) =
    let len : length name ≡ length pre + suc (length s) = rw e (length-append pre (b'.' ∷ s)) in
    let gap : length name - length s - 1 ≡ length pre = omega arith in
    let longer : ltb (length s) (length name) ≡ true = lt→ltb _ _ (omega arith) in
    let ends : ends_with name s ≡ true =
      rw (e, ← append_assoc pre (b'.' ∷ []) s) (ends_with-append (pre ++ b'.' ∷ []) s) in
    rw (longer, ends, gap, e, get_or-length pre b'.' s 0) refl

label→subdomain : (name s : Text) → has_label_suffix name s ≡ true → Subdomain name s
unfolding has_label_suffix
label→subdomain name s h =
    let (front, dot) = &&_true (ltb (length s) (length name) && ends_with name s) _ h in
    let (longer, ends) = &&_true (ltb (length s) (length name)) _ front in
    let m : ℕ = length name - length s - 1 in
    let head : Text = take (length name - length s) name in
    let size : length head ≡ suc m =
      omega (arith, ltb→lt _ _ longer, length-take (length name - length s) name) in
    let last : get_or head m 0 ≡ b'.' =
      get_or-take (length name - length s) m name 0 (omega (arith, ltb→lt _ _ longer))
      ∙ ==→eq _ _ dot in
    (
      take m head,
      (ends_with→append name s ends).1
          ∙ ap (λ t. t ++ s) (take_last m head 0 size ∙ ap (λ c. take m head ++ c ∷ []) last)
          ∙ append_assoc (take m head) (b'.' ∷ []) s,
    )

pub has_label_suffix_iff : (name s : Text) → (has_label_suffix name s ≡ true) ↔ Subdomain name s
has_label_suffix_iff name s = (label→subdomain name s, subdomain→label name s)

covers→matches : (rule name : Text) → Covers rule name → matches_normal name rule ≡ true
unfolding matches_normal
covers→matches rule name (wildcard s e sub) =
    rw (e, strip_prefix-append (bytes "*.") s) (subdomain→label name s sub)
covers→matches [] name (itself plain full e) = absurd (full refl)
covers→matches (c ∷ r) name (itself plain full e) = rw (plain, e, text_eq_self (c ∷ r)) refl
covers→matches [] name (below plain full sub) = absurd (full refl)
covers→matches (c ∷ r) name (below plain full sub) =
    rw (plain, subdomain→label name (c ∷ r) sub) (or_true (text_eq name (c ∷ r)))
  where
    or_true : (b : Bool) → (b || true) ≡ true
    or_true b = ground arith

matches→covers : (rule name : Text) → matches_normal name rule ≡ true → Covers rule name
unfolding matches_normal
matches→covers [] name h = absurd (ground arith)
matches→covers (c ∷ r) name h = elim (Option-cases (strip_prefix (c ∷ r) (bytes "*."))) [
  | inl plain ↦ elim (||_true (text_eq name (c ∷ r)) _ (rw plain at h)) [
    | inl same ↦ itself plain (λ e. cc) ((text_eq_iff name (c ∷ r)).0 same)
    | inr sub ↦ below plain (λ e. cc) (label→subdomain name (c ∷ r) sub)
  ]
  | inr (s, star) ↦
      wildcard s (strip_prefix-eq_some (c ∷ r) (bytes "*.") s star)
        (label→subdomain name s (rw star at h))
]

-- A rule matches a name exactly if its normal form covers it: whole labels only, `*.s` the names
-- strictly below `s`, any other rule that is not empty the name itself and the names below it.
pub suffix_matches_iff :
    (name rule : Text) → (suffix_matches name rule ≡ true) ↔ Covers (normalise_str rule) name
unfolding suffix_matches
suffix_matches_iff name rule =
    (matches→covers (normalise_str rule) name, covers→matches (normalise_str rule) name)
