-- ===== src/Prelude/Lists.antt =====
-- Lists under native numbers, and sets of numbers as lists.
use Prim.Native.Nat.{ℕ, zero, suc, ◌+◌}
use mathlib.Core.Path.{◌≡◌, refl, sym, subst}
use mathlib.Core.Bool.{Bool, true, false, ◌||◌}
use mathlib.Core.List.{List, [], ◌∷◌, ◌++◌, Memᴰ}
use native.Mathlib.Omega.{arith}
use treevial.Prelude.Tests.{◌==◌}

-- A sequence of bytes: a Go string, or a `[]byte`.
abbrev pub Bytes : Type 0
Bytes = List ℕ

module _ {ℓ} {A : Type ℓ} where
  abbrev pub length : List A → ℕ
  length [] = 0
  length (x ∷ xs) = suc (length xs)

  abbrev pub take : ℕ → List A → List A
  take zero xs = []
  take (suc n) [] = []
  take (suc n) (x ∷ xs) = x ∷ take n xs

  abbrev pub drop : ℕ → List A → List A
  drop zero xs = xs
  drop (suc n) [] = []
  drop (suc n) (x ∷ xs) = drop n xs

  -- `len(xs) == 0`
  abbrev pub is_empty : List A → Bool
  is_empty [] = true
  is_empty (x ∷ xs) = false

  pub length-append : (xs ys : List A) → length (xs ++ ys) ≡ length xs + length ys
  length-append [] ys = omega arith
  length-append (x ∷ xs) ys = omega (arith, length-append xs ys)

  -- Each element of the list has the property.
  abbrev pub All {κ} : (A → Type κ) → List A → Type κ
  All P [] = Unit
  All P (x ∷ xs) = P x × All P xs

  pub All-Memᴰ {κ} : (P : A → Type κ) {a : A} {xs : List A} → All P xs → Memᴰ a xs → P a
  All-Memᴰ P h (Memᴰ.head e) = subst P (sym e) h.0
  All-Memᴰ P h (Memᴰ.tail m) = All-Memᴰ P h.1 m

-- Membership, as a test.
abbrev pub has : List ℕ → ℕ → Bool
has [] a = false
has (x ∷ xs) a = x == a || has xs a

pub has-append : (xs ys : List ℕ) (a : ℕ) → has (xs ++ ys) a ≡ (has xs a || has ys a)
has-append [] ys a = refl
has-append (x ∷ xs) ys a = ground (arith, has-append xs ys a)

-- No number stands twice in the list.
abbrev pub Distinct : List ℕ → Type 0
Distinct [] = Unit
Distinct (x ∷ xs) = (has xs x ≡ false) × Distinct xs

pub Distinct-concat :
    (xs : List ℕ) (a : ℕ) → Distinct xs → has xs a ≡ false → Distinct (xs ++ a ∷ [])
Distinct-concat [] a d h = (refl, tt)
Distinct-concat (x ∷ xs) a d h =
    (ground (arith, has-append xs (a ∷ []) x), Distinct-concat xs a d.1 (ground arith))

module _ {ℓ κ} {A : Type ℓ} (P : A → Type κ) where
  pub All_intro : (xs : List A) → ((a : A) → Memᴰ a xs → P a) → All P xs
  All_intro [] f = tt
  All_intro (x ∷ xs) f = (f x (Memᴰ.head refl), All_intro xs (λ a m. f a (Memᴰ.tail m)))

pub All_map {ℓ κ μ} :
    {A : Type ℓ} (P : A → Type κ) (Q : A → Type μ) (xs : List A)
    → ((a : A) → P a → Q a)
    → All P xs
    → All Q xs
All_map P Q [] f h = tt
All_map P Q (x ∷ xs) f h = (f x h.0, All_map P Q xs f h.1)
