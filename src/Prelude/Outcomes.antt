-- ===== src/Prelude/Outcomes.antt =====
-- Rust's `Result`, and the outcome of code that may panic.
use mathlib.Core.Path.{◌≡◌, refl, subst}
use mathlib.Core.Logic.{◌⊎◌, inl, inr}
use mathlib.Core.Option.{Option, none, some}

pub data Result {ℓ κ} (A : Type ℓ) (E : Type κ) : Type (ℓ ⊔ κ) where
  ok : A → Result A E
  err : E → Result A E

-- `map_err`
abbrev pub map_err {ℓ κ} : {A : Type ℓ} {E F : Type κ} → (E → F) → Result A E → Result A F
map_err f (ok a) = ok a
map_err f (err e) = err (f e)

-- `ok_or`
abbrev pub ok_or {ℓ κ} : {A : Type ℓ} {E : Type κ} → Option A → E → Result A E
ok_or none e = err e
ok_or (some a) e = ok a

-- Code that returns, or panics; `unfinished` is a loop that has used up its fuel.
pub data Outcome {ℓ} (A : Type ℓ) : Type ℓ where
  returned : A → Outcome A
  panicked : Outcome A
  unfinished : Outcome A

infixl 5 ◌>>=◌
abbrev pub ◌>>=◌ {ℓ κ} : {A : Type ℓ} {B : Type κ} → Outcome A → (A → Outcome B) → Outcome B
returned a >>= f = f a
panicked >>= f = panicked
unfinished >>= f = unfinished

-- `unwrap` on an option
abbrev pub unwrap {ℓ} : {A : Type ℓ} → Option A → Outcome A
unwrap none = panicked
unwrap (some a) = returned a

pub Result-cases {ℓ κ} :
    {A : Type ℓ} {E : Type κ} (r : Result A E) → ((a : A) × (r ≡ ok a)) ⊎ ((e : E) × (r ≡ err e))
Result-cases (ok a) = inl (a, refl)
Result-cases (err e) = inr (e, refl)

-- Inversion of a bind that returns.
pub >>=-eq-returned {ℓ κ} :
    {A : Type ℓ} {B : Type κ} (m : Outcome A) (f : A → Outcome B) {b : B}
    → (m >>= f) ≡ returned b
    → (a : A) × (m ≡ returned a) × (f a ≡ returned b)
>>=-eq-returned (returned a) f h = (a, refl, h)
>>=-eq-returned panicked f h = cc
>>=-eq-returned unfinished f h = cc

pub >>=-assoc {ℓ κ ν} :
    {A : Type ℓ} {B : Type κ} {C : Type ν} (o : Outcome A) (f : A → Outcome B) (g : B → Outcome C)
    → ((o >>= f) >>= g) ≡ (o >>= (λ a. f a >>= g))
>>=-assoc (returned a) f g = refl
>>=-assoc panicked f g = refl
>>=-assoc unfinished f g = refl

-- What holds of every value that is returned.
abbrev pub Ensures {ℓ} : {A : Type ℓ} → (A → Type 0) → Outcome A → Type 0
Ensures P (returned a) = P a
Ensures P panicked = Unit
Ensures P unfinished = Unit

-- The code returns, and `P` holds of its value.
abbrev pub Returns {ℓ} : {A : Type ℓ} → (A → Type 0) → Outcome A → Type 0
Returns P (returned a) = P a
Returns P panicked = ⊥
Returns P unfinished = ⊥

module _ {ℓ κ} {A : Type ℓ} {B : Type κ} (P : A → Type 0) (Q : B → Type 0) where
  pub Ensures-bind :
      (m : Outcome A) (f : A → Outcome B)
      → Ensures P m
      → ((a : A) → P a → Ensures Q (f a))
      → Ensures Q (m >>= f)
  Ensures-bind (returned a) f p k = k a p
  Ensures-bind panicked f p k = tt
  Ensures-bind unfinished f p k = tt

  pub Returns-bind :
      (m : Outcome A) (f : A → Outcome B)
      → Returns P m
      → ((a : A) → P a → Returns Q (f a))
      → Returns Q (m >>= f)
  Returns-bind (returned a) f p k = k a p
  Returns-bind panicked f p k = absurd p
  Returns-bind unfinished f p k = absurd p

pub Ensures-returned {ℓ} :
    {A : Type ℓ} (P : A → Type 0) (m : Outcome A) {a : A} → m ≡ returned a → Ensures P m → P a
Ensures-returned P m e h = subst (Ensures P) e h

pub Returns-returned {ℓ} :
    {A : Type ℓ} (P : A → Type 0) (m : Outcome A) {a : A} → m ≡ returned a → Returns P m → P a
Returns-returned P m e h = subst (Returns P) e h

pub Returns-Ensures {ℓ} : {A : Type ℓ} (P : A → Type 0) (m : Outcome A) → Returns P m → Ensures P m
Returns-Ensures P (returned a) h = h
Returns-Ensures P panicked h = tt
Returns-Ensures P unfinished h = tt

pub Returns-and {ℓ} :
    {A : Type ℓ} (P : A → Type 0) (m : Outcome A)
    → Returns (λ _. Unit) m
    → Ensures P m
    → Returns P m
Returns-and P (returned a) r p = p
Returns-and P panicked r p = r
Returns-and P unfinished r p = r

pub Ensures-and {ℓ} :
    {A : Type ℓ} (P Q : A → Type 0) (m : Outcome A)
    → Ensures P m
    → Ensures Q m
    → Ensures (λ a. P a × Q a) m
Ensures-and P Q (returned a) p q = (p, q)
Ensures-and P Q panicked p q = tt
Ensures-and P Q unfinished p q = tt

pub Ensures-map {ℓ} :
    {A : Type ℓ} (P Q : A → Type 0) (m : Outcome A)
    → ((a : A) → P a → Q a)
    → Ensures P m
    → Ensures Q m
Ensures-map P Q (returned a) k p = k a p
Ensures-map P Q panicked k p = tt
Ensures-map P Q unfinished k p = tt

pub Ensures-true {ℓ} : {A : Type ℓ} (m : Outcome A) → Ensures (λ _. Unit) m
Ensures-true (returned a) = tt
Ensures-true panicked = tt
Ensures-true unfinished = tt

pub Returns-map {ℓ} :
    {A : Type ℓ} (P Q : A → Type 0) (m : Outcome A)
    → ((a : A) → P a → Q a)
    → Returns P m
    → Returns Q m
Returns-map P Q (returned a) k p = k a p
Returns-map P Q panicked k p = p
Returns-map P Q unfinished k p = p

pub returned_injective {ℓ} : {A : Type ℓ} {a b : A} → returned a ≡ returned b → a ≡ b
returned_injective e = cc

pub ok_unique {ℓ κ} :
    {A : Type ℓ} {E : Type κ} (r : Result A E) {a b : A} → r ≡ ok a → r ≡ ok b → a ≡ b
ok_unique r p q = cc

pub Returns-value {ℓ} :
    {A : Type ℓ} (P : A → Type 0) (m : Outcome A) → Returns P m → (a : A) × (m ≡ returned a) × P a
Returns-value P (returned a) h = (a, refl, h)
Returns-value P panicked h = absurd h
Returns-value P unfinished h = absurd h

pub Returns-self :
    {A : Type 0} (P : A → Type 0) (m : Outcome A)
    → Returns P m
    → Returns (λ a. (m ≡ returned a) × P a) m
Returns-self P (returned a) h = (refl, h)
Returns-self P panicked h = h
Returns-self P unfinished h = h

pub Ensures-self :
    {A : Type 0} (P : A → Type 0) (m : Outcome A)
    → Ensures P m
    → Ensures (λ a. (m ≡ returned a) × P a) m
Ensures-self P (returned a) h = (refl, h)
Ensures-self P panicked h = h
Ensures-self P unfinished h = h

-- The code panics, or returns something with a property.
abbrev pub Settles : {A : Type 0} → (A → Type 0) → Outcome A → Type 0
Settles P o = (o ≡ panicked) ⊎ Returns P o

pub Settles-bind :
    {A B : Type 0} (P : A → Type 0) (Q : B → Type 0) (o : Outcome A) (f : A → Outcome B)
    → Settles P o
    → ((a : A) → P a → Settles Q (f a))
    → Settles Q (o >>= f)
Settles-bind P Q (returned a) f (inl e) k = cc
Settles-bind P Q (returned a) f (inr p) k = k a p
Settles-bind P Q panicked f p k = inl refl
Settles-bind P Q unfinished f (inl e) k = cc
Settles-bind P Q unfinished f (inr p) k = absurd p

pub Settles-Ensures : {A : Type 0} (P : A → Type 0) (o : Outcome A) → Settles P o → Ensures P o
Settles-Ensures P (returned a) (inl e) = cc
Settles-Ensures P (returned a) (inr p) = p
Settles-Ensures P panicked p = tt
Settles-Ensures P unfinished p = tt
