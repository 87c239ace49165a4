-- ===== src/Prelude/Lists.antt =====
-- `Vec` operations as functions on lists, measured and indexed by native numbers.
use Prim.Native.Nat.{ℕ, zero, suc, ◌+◌, ◌-◌}
use mathlib.Core.Path.{◌≡◌, refl, ap}
use mathlib.Core.Logic.{◌≢◌, ◌⊎◌, inl, inr}
use mathlib.Core.Bool.{Bool, true, false, ◌||◌}
use mathlib.Core.List.{List, [], ◌∷◌, ◌++◌, map}
use mathlib.Core.Option.{Option, none, some}
use mathlib.Core.Option
use native.Mathlib.Omega.{arith}
use event_manager.Prelude.Tests.{◌==◌, if◌then◌else◌}

module _ {ℓ} {A : Type ℓ} where
  abbrev pub length : List A → ℕ
  length [] = 0
  length (x ∷ xs) = suc (length xs)

  abbrev pub get_elem? : List A → ℕ → Option A
  get_elem? [] i = none
  get_elem? (x ∷ xs) zero = some x
  get_elem? (x ∷ xs) (suc i) = get_elem? xs i

  abbrev pub replicate : ℕ → A → List A
  replicate zero a = []
  replicate (suc n) a = a ∷ replicate n a

  -- `iter().position(test)`
  abbrev pub position : (A → Bool) → List A → Option ℕ
  position test [] = none
  position test (x ∷ xs) = if test x then some 0 else Option.map suc (position test xs)

  -- `Vec::remove`, at an index in range
  abbrev pub remove_at : List A → ℕ → List A
  remove_at [] i = []
  remove_at (x ∷ xs) zero = xs
  remove_at (x ∷ xs) (suc i) = x ∷ remove_at xs i

module _ {ℓ} {A : Type ℓ} where
  pub length-append : (xs ys : List A) → length (xs ++ ys) ≡ length xs + length ys
  length-append [] ys = omega arith
  length-append (x ∷ xs) ys = omega (arith, length-append xs ys)

  pub length-replicate : (n : ℕ) (a : A) → length (replicate n a) ≡ n
  length-replicate zero a = refl
  length-replicate (suc n) a = ap suc (length-replicate n a)

  pub length-map {κ} : {B : Type κ} (f : A → B) (xs : List A) → length (map f xs) ≡ length xs
  length-map f [] = refl
  length-map f (x ∷ xs) = ap suc (length-map f xs)

  pub get_elem?-map {κ} :
      {B : Type κ} (f : A → B) (xs : List A) (i : ℕ)
      → get_elem? (map f xs) i ≡ Option.map f (get_elem? xs i)
  get_elem?-map f [] i = refl
  get_elem?-map f (x ∷ xs) zero = refl
  get_elem?-map f (x ∷ xs) (suc i) = get_elem?-map f xs i

  pub List-cases : (l : List A) → (l ≡ []) ⊎ ((x : A) × (xs : List A) × (l ≡ x ∷ xs))
  List-cases [] = inl refl
  List-cases (x ∷ xs) = inr (x, xs, refl)

-- `contains` on a list of numbers
abbrev pub contains : List ℕ → ℕ → Bool
contains [] a = false
contains (x ∷ xs) a = x == a || contains xs a

pub contains-append_self : (xs : List ℕ) (a : ℕ) → contains (xs ++ a ∷ []) a ≡ true
contains-append_self [] a = ground arith
contains-append_self (x ∷ xs) a = ground (arith, contains-append_self xs a)

pub contains-append_ne : (xs : List ℕ) (a b : ℕ) → a ≢ b → contains (xs ++ a ∷ []) b ≡ contains xs b
contains-append_ne [] a b h = ground arith
contains-append_ne (x ∷ xs) a b h = ground (arith, contains-append_ne xs a b h)

-- Removing the first occurrence of `a`, by position and index.
abbrev pub remove_first : ℕ → List ℕ → List ℕ
remove_first a xs = elim (position (λ x. x == a) xs) [ none ↦ xs | some index ↦ remove_at xs index ]

abbrev pub count : List ℕ → ℕ → ℕ
count [] a = 0
count (x ∷ xs) a = (if x == a then 1 else 0) + count xs a

pub count-append_one :
    (xs : List ℕ) (a b : ℕ) → count (xs ++ a ∷ []) b ≡ count xs b + (if a == b then 1 else 0)
count-append_one [] a b = ground arith
count-append_one (x ∷ xs) a b = ground (arith, count-append_one xs a b)

pub contains_of_count : (xs : List ℕ) (a : ℕ) → count xs a ≢ 0 → contains xs a ≡ true
contains_of_count [] a h = absurd (h refl)
contains_of_count (x ∷ xs) a h = ground (arith, contains_of_count xs a)

pub count_of_contains : (xs : List ℕ) (a : ℕ) → contains xs a ≡ true → count xs a ≢ 0
count_of_contains [] a h = cc
count_of_contains (x ∷ xs) a h = ground (arith, count_of_contains xs a)

remove_first-cons :
    (a x : ℕ) (xs : List ℕ)
    → remove_first a (x ∷ xs) ≡ (if x == a then xs else x ∷ remove_first a xs)
remove_first-cons a x xs = ground arith

pub contains-remove_first_ne :
    (a b : ℕ) (xs : List ℕ) → a ≢ b → contains (remove_first a xs) b ≡ contains xs b
contains-remove_first_ne a b [] h = refl
contains-remove_first_ne a b (x ∷ xs) h =
    rw (remove_first-cons a x xs) (ground (arith, contains-remove_first_ne a b xs h))

-- One occurrence goes, if there is one, and no other number is touched.
pub count-remove_first :
    (a b : ℕ) (xs : List ℕ) → count (remove_first a xs) b ≡ count xs b - (if a == b then 1 else 0)
count-remove_first a b [] = ground arith
count-remove_first a b (x ∷ xs) =
    rw (remove_first-cons a x xs)
      (ground (arith, count-remove_first a b xs, contains_of_count xs a))

pub count-append : (xs ys : List ℕ) (a : ℕ) → count (xs ++ ys) a ≡ count xs a + count ys a
count-append [] ys a = ground arith
count-append (x ∷ xs) ys a = ground (arith, count-append xs ys a)
