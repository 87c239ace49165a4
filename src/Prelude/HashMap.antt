-- ===== src/Prelude/HashMap.antt =====
-- `std::collections::HashMap` with keys that are numbers, as an association list. The order of
-- the entries is never read.
use Prim.Native.Nat.{ℕ}
use mathlib.Core.Path.{◌≡◌, refl}
use mathlib.Core.Bool.{Bool}
use mathlib.Core.Option.{Option, none, some}
use mathlib.Core.List.{List, [], ◌∷◌}
use native.Mathlib.Omega.{arith}
use event_manager.Prelude.Tests.{◌==◌, if◌then◌else◌, is_some}

abbrev pub HashMap {ℓ} : Type ℓ → Type ℓ
HashMap V = List (ℕ × V)

module _ {ℓ} {V : Type ℓ} where
  unfoldable pub get : HashMap V → ℕ → Option V
  get [] k = none
  get ((j, v) ∷ m) k = if j == k then some v else get m k

  unfoldable pub insert : HashMap V → ℕ → V → HashMap V
  insert [] k v = (k, v) ∷ []
  insert ((j, w) ∷ m) k v = if j == k then (k, v) ∷ m else (j, w) ∷ insert m k v

  unfoldable pub remove : HashMap V → ℕ → HashMap V
  remove [] k = []
  remove ((j, w) ∷ m) k = let rest = remove m k in if j == k then rest else (j, w) ∷ rest

  unfoldable pub contains_key : HashMap V → ℕ → Bool
  contains_key m k = is_some (get m k)

  pub get-insert :
      (m : HashMap V) (k : ℕ) (v : V) (j : ℕ)
      → get (insert m k v) j ≡ (if k == j then some v else get m j)
  unfolding get insert
  get-insert [] k v j = refl
  get-insert ((i, w) ∷ m) k v j = ground (arith, get-insert m k v j)

  pub get-remove :
      (m : HashMap V) (k j : ℕ) → get (remove m k) j ≡ (if k == j then none else get m j)
  unfolding get remove
  get-remove [] k j = ground arith
  get-remove ((i, w) ∷ m) k j = ground (arith, get-remove m k j)

  pub contains_key_lem : (m : HashMap V) (k : ℕ) → contains_key m k ≡ is_some (get m k)
  unfolding contains_key
  contains_key_lem m k = refl

  pub remove_missing : (m : HashMap V) (k : ℕ) → get m k ≡ none → remove m k ≡ m
  unfolding get remove
  remove_missing [] k missing = refl
  remove_missing ((i, w) ∷ m) k missing = ground (arith, remove_missing m k)
