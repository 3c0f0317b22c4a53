-- ===== src/Prelude/Maps.antt =====
-- Go's maps as association lists: the first entry of a key is the one that counts.
use mathlib.Core.Path.{◌≡◌, refl}
use mathlib.Core.Option.{Option, none, some}
use mathlib.Core.List.{List, [], ◌∷◌}
use native.Mathlib.Omega.{arith}
use Prim.Native.Nat.{ℕ}
use treevial.Prelude.Tests.{if◌then◌else◌, ==_iff}
use treevial.Prelude.Lists.{has}
use treevial.Prelude.Keys.{Key, number_key}

abbrev pub Map {ℓ κ} : Type ℓ → Type κ → Type (ℓ ⊔ κ)
Map K V = List (K × V)

abbrev pub keys {ℓ κ} : {K : Type ℓ} {V : Type κ} → Map K V → List K
keys [] = []
keys ((k, _) ∷ m) = k ∷ keys m

module _ {ℓ κ} {K : Type ℓ} {V : Type κ} ⦃key : Key K⦄ where
  -- `m[k]`
  abbrev pub lookup : K → Map K V → Option V
  lookup k [] = none
  lookup k ((j, v) ∷ m) = if key.same j k then some v else lookup k m

  -- `m[k] = v`
  abbrev pub insert : K → V → Map K V → Map K V
  insert k v [] = (k, v) ∷ []
  insert k v ((j, w) ∷ m) = if key.same j k then (k, v) ∷ m else (j, w) ∷ insert k v m

  -- `delete(m, k)`: every entry of the key goes.
  abbrev pub erase : K → Map K V → Map K V
  erase k [] = []
  erase k ((j, w) ∷ m) = let rest = erase k m in if key.same j k then rest else (j, w) ∷ rest

  pub lookup-insert :
      (k j : K) (v : V) (m : Map K V)
      → lookup j (insert k v m) ≡ (if key.same k j then some v else lookup j m)
  lookup-insert k j v [] = refl
  lookup-insert k j v ((i, w) ∷ m) =
      ground (arith, key.same_iff k j, key.same_iff i k, key.same_iff i j, lookup-insert k j v m)

  pub lookup-erase :
      (k j : K) (m : Map K V) → lookup j (erase k m) ≡ (if key.same k j then none else lookup j m)
  lookup-erase k j [] = ground arith
  lookup-erase k j ((i, w) ∷ m) =
      ground (arith, key.same_iff k j, key.same_iff i k, key.same_iff i j, lookup-erase k j m)

-- A map without the keys that are not in a set of numbers.
abbrev pub keep {ℓ} : {A : Type ℓ} → List ℕ → Map ℕ A → Map ℕ A
keep live [] = []
keep live ((h, a) ∷ m) = let rest = keep live m in if has live h then (h, a) ∷ rest else rest

pub lookup-keep {ℓ} :
    {A : Type ℓ} (live : List ℕ) (x : ℕ) (m : Map ℕ A)
    → lookup x (keep live m) ≡ (if has live x then lookup x m else none)
lookup-keep live x [] = ground arith
lookup-keep live x ((h, a) ∷ m) = ground (arith, lookup-keep live x m, ==_iff h x)
