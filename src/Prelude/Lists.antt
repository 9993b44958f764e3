-- ===== src/Prelude/Lists.antt =====
-- Lists measured and indexed by native numbers, under the library's names; `any`, `all` and
-- `find_map` of Rust's iterators.
use Prim.Native.Nat.{ℕ, zero, suc, ◌+◌, ◌-◌, ◌≤◌, ◌<◌, min}
use mathlib.Core.Logic.{◌↔◌, ◌⊎◌, inl, inr}
use mathlib.Core.Path.{◌≡◌, refl, ap}
use mathlib.Core.List.{List, [], ◌∷◌, ◌++◌, map}
use mathlib.Core.Option.{Option, none, some}
use mathlib.Core.Bool.{Bool, true, false, ◌&&◌, ◌||◌}
use native.Mathlib.Omega.{arith}
use detour.Prelude.Tests.{if◌then◌else◌, ||_true}

module _ {ℓ} {A : Type ℓ} where
  abbrev pub length : List A → ℕ
  length [] = 0
  length (x ∷ xs) = suc (length xs)

  abbrev pub get_elem? : List A → ℕ → Option A
  get_elem? [] i = none
  get_elem? (x ∷ xs) zero = some x
  get_elem? (x ∷ xs) (suc i) = get_elem? xs i

  abbrev pub get_or : List A → ℕ → A → A
  get_or [] i d = d
  get_or (x ∷ xs) zero d = x
  get_or (x ∷ xs) (suc i) d = get_or xs i d

  abbrev pub take : ℕ → List A → List A
  take zero xs = []
  take (suc n) [] = []
  take (suc n) (x ∷ xs) = x ∷ take n xs

  abbrev pub drop : ℕ → List A → List A
  drop zero xs = xs
  drop (suc n) [] = []
  drop (suc n) (x ∷ xs) = drop n xs

  abbrev pub reverse : List A → List A
  reverse [] = []
  reverse (x ∷ xs) = reverse xs ++ x ∷ []

  abbrev pub is_empty : List A → Bool
  is_empty [] = true
  is_empty (x ∷ xs) = false

  -- `iter().any`, `iter().all`
  abbrev pub any : (A → Bool) → List A → Bool
  any p [] = false
  any p (x ∷ xs) = p x || any p xs

  abbrev pub all : (A → Bool) → List A → Bool
  all p [] = true
  all p (x ∷ xs) = p x && all p xs

  abbrev pub All {κ} : (A → Type κ) → List A → Type κ
  All P [] = Unit
  All P (x ∷ xs) = P x × All P xs

module _ {ℓ} {A : Type ℓ} where
  pub length-append : (xs ys : List A) → length (xs ++ ys) ≡ length xs + length ys
  length-append [] ys = omega arith
  length-append (x ∷ xs) ys = omega (arith, length-append xs ys)

  pub take-append-drop : (n : ℕ) (xs : List A) → take n xs ++ drop n xs ≡ xs
  take-append-drop zero xs = refl
  take-append-drop (suc n) [] = refl
  take-append-drop (suc n) (x ∷ xs) = rw (take-append-drop n xs)

  pub length-take : (n : ℕ) (xs : List A) → length (take n xs) ≡ min n (length xs)
  length-take zero xs = omega arith
  length-take (suc n) [] = omega arith
  length-take (suc n) (x ∷ xs) = omega (arith, length-take n xs)

  pub length-drop : (n : ℕ) (xs : List A) → length (drop n xs) ≡ length xs - n
  length-drop zero xs = omega arith
  length-drop (suc n) [] = omega arith
  length-drop (suc n) (x ∷ xs) = omega (arith, length-drop n xs)

  pub drop-length-append : (xs ys : List A) → drop (length xs) (xs ++ ys) ≡ ys
  drop-length-append [] ys = refl
  drop-length-append (x ∷ xs) ys = drop-length-append xs ys

  pub take-length-append : (xs ys : List A) → take (length xs) (xs ++ ys) ≡ xs
  take-length-append [] ys = refl
  take-length-append (x ∷ xs) ys = ap (◌∷◌ x) (take-length-append xs ys)

  pub take_all : (n : ℕ) (xs : List A) → length xs ≤ n → take n xs ≡ xs
  take_all zero [] h = refl
  take_all zero (x ∷ xs) h = absurd (omega arith)
  take_all (suc n) [] h = refl
  take_all (suc n) (x ∷ xs) h = ap (◌∷◌ x) (take_all n xs (omega arith))

  pub get_elem?-append_right :
      (xs ys : List A) (i : ℕ) → get_elem? (xs ++ ys) (length xs + i) ≡ get_elem? ys i
  get_elem?-append_right [] ys i = rw (zero_plus i)
    where
      zero_plus : (n : ℕ) → 0 + n ≡ n
      zero_plus n = omega arith
  get_elem?-append_right (x ∷ xs) ys i =
      rw (suc_plus (length xs) i) (get_elem?-append_right xs ys i)
    where
      suc_plus : (n k : ℕ) → suc n + k ≡ suc (n + k)
      suc_plus n k = omega arith

  pub get_elem?-length :
      (xs : List A) (y : A) (ys : List A) → get_elem? (xs ++ y ∷ ys) (length xs) ≡ some y
  get_elem?-length [] y ys = refl
  get_elem?-length (x ∷ xs) y ys = get_elem?-length xs y ys

  pub get_elem?-end : (xs : List A) → get_elem? xs (length xs) ≡ none
  get_elem?-end [] = refl
  get_elem?-end (x ∷ xs) = get_elem?-end xs

  pub get_elem?-drop :
      (xs : List A) (i : ℕ) (y : A) → get_elem? xs i ≡ some y → drop i xs ≡ y ∷ drop (suc i) xs
  get_elem?-drop [] i y h = absurd (ground arith)
  get_elem?-drop (x ∷ xs) zero y h = ground arith
  get_elem?-drop (x ∷ xs) (suc i) y h = get_elem?-drop xs i y h

  pub get_or-length :
      (xs : List A) (y : A) (ys : List A) (d : A) → get_or (xs ++ y ∷ ys) (length xs) d ≡ y
  get_or-length [] y ys d = refl
  get_or-length (x ∷ xs) y ys d = get_or-length xs y ys d

  -- A list ends in the element at its last place.
  pub take_last :
      (n : ℕ) (xs : List A) (d : A) → length xs ≡ suc n → xs ≡ take n xs ++ get_or xs n d ∷ []
  take_last n [] d h = absurd (omega arith)
  take_last zero (x ∷ []) d h = refl
  take_last zero (x ∷ y ∷ xs) d h = absurd (omega arith)
  take_last (suc n) (x ∷ xs) d h = ap (◌∷◌ x) (take_last n xs d (omega arith))

  pub get_or-take : (n i : ℕ) (xs : List A) (d : A) → i < n → get_or (take n xs) i d ≡ get_or xs i d
  get_or-take zero i xs d h = absurd (omega arith)
  get_or-take (suc n) i [] d h = refl
  get_or-take (suc n) zero (x ∷ xs) d h = refl
  get_or-take (suc n) (suc i) (x ∷ xs) d h = get_or-take n i xs d (omega arith)

-- A place in the list whose element satisfies `P`.
pub data Any {ℓ κ} {A : Type ℓ} (P : A → Type κ) : List A → Type (ℓ ⊔ κ) where
  here : {x : A} {xs : List A} → P x → Any P (x ∷ xs)
  there : {x : A} {xs : List A} → Any P xs → Any P (x ∷ xs)

module _ {ℓ κ} {A : Type ℓ} {P : A → Type κ} where
  pub Any-append_left : {xs : List A} (ys : List A) → Any P xs → Any P (xs ++ ys)
  Any-append_left ys (here h) = here h
  Any-append_left ys (there h) = there (Any-append_left ys h)

  pub Any-append_right : (xs : List A) {ys : List A} → Any P ys → Any P (xs ++ ys)
  Any-append_right [] h = h
  Any-append_right (x ∷ xs) h = there (Any-append_right xs h)

  pub Any-append : (xs : List A) {ys : List A} → Any P (xs ++ ys) → Any P xs ⊎ Any P ys
  Any-append [] h = inr h
  Any-append (x ∷ xs) (here h) = inl (here h)
  Any-append (x ∷ xs) (there h) = elim (Any-append xs h) [ inl l ↦ inl (there l) | inr r ↦ inr r ]

  -- `any` decides `Any`, where the test decides the predicate.
  any→Any :
      (p : A → Bool) → ((x : A) → p x ≡ true → P x) → (xs : List A) → any p xs ≡ true → Any P xs
  any→Any p dec [] h = absurd (ground arith)
  any→Any p dec (x ∷ xs) h = elim (||_true (p x) (any p xs) h) [
    | inl now ↦ here (dec x now)
    | inr later ↦ there (any→Any p dec xs later)
  ]

  Any→any :
      (p : A → Bool) → ((x : A) → P x → p x ≡ true) → {xs : List A} → Any P xs → any p xs ≡ true
  Any→any p dec (here {x = x} h) = rw (dec x h) refl
  Any→any p dec (there {x = x} {xs = xs} h) = rw (Any→any p dec h) (or_true (p x))
    where
      or_true : (b : Bool) → (b || true) ≡ true
      or_true b = ground arith

  pub any_iff :
      (p : A → Bool) → ((x : A) → (p x ≡ true) ↔ P x) → (xs : List A) → (any p xs ≡ true) ↔ Any P xs
  any_iff p dec xs = (any→Any p (λ x. (dec x).0) xs, Any→any p (λ x. (dec x).1))

module _ {ℓ κ} {A : Type ℓ} {P Q : A → Type κ} where
  pub Any-map :
      (f : A → A) → ((x : A) → P (f x) → Q x) → (xs : List A) → Any P (map f xs) → Any Q xs
  Any-map f step [] h = elim h [ ]
  Any-map f step (x ∷ xs) (here h) = here (step x h)
  Any-map f step (x ∷ xs) (there h) = there (Any-map f step xs h)

  pub Any-unmap :
      (f : A → A) → ((x : A) → Q x → P (f x)) → {xs : List A} → Any Q xs → Any P (map f xs)
  Any-unmap f step (here {x = x} h) = here (step x h)
  Any-unmap f step (there h) = there (Any-unmap f step h)

module _ {ℓ} {A : Type ℓ} where
  -- `iter().find`: the first element that passes.
  abbrev pub find : (A → Bool) → List A → Option A
  find p [] = none
  find p (x ∷ xs) = if p x then some x else find p xs

  pub find_sound : (p : A → Bool) (xs : List A) (x : A) → find p xs ≡ some x → p x ≡ true
  find_sound p [] x h = ground arith
  find_sound p (y ∷ ys) x h = ground (arith, find_sound p ys x)

module _ {κ} {B : Type κ} where
  abbrev pub keep_some : Option B → List B → List B
  keep_some none ys = ys
  keep_some (some y) ys = y ∷ ys

module _ {ℓ κ} {A : Type ℓ} {B : Type κ} where
  -- `filter_map`.
  abbrev pub filter_map : (A → Option B) → List A → List B
  filter_map f [] = []
  filter_map f (x ∷ xs) = keep_some (f x) (filter_map f xs)

module _ {ℓ κ} {A : Type ℓ} {P Q : A → Type κ} where
  pub All-imp : ((x : A) → P x → Q x) → (xs : List A) → All P xs → All Q xs
  All-imp f [] h = tt
  All-imp f (x ∷ xs) h = (f x h.0, All-imp f xs h.1)

module _ {ℓ κ} {A : Type ℓ} where
  pub All-append : (P : A → Type κ) (xs ys : List A) → All P xs → All P ys → All P (xs ++ ys)
  All-append P [] ys h k = k
  All-append P (x ∷ xs) ys h k = (h.0, All-append P xs ys h.1 k)

pub List-cases {ℓ} :
    {A : Type ℓ} (xs : List A) → (xs ≡ []) ⊎ ((y : A) × (ys : List A) × (xs ≡ y ∷ ys))
List-cases [] = inl refl
List-cases (y ∷ ys) = inr (y, ys, refl)
