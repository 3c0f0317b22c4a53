-- ===== src/Prelude/Keys.antt =====
-- Equality tests, for numbers and for sequences of bytes.
use Prim.Native.Nat.{ℕ}
use mathlib.Core.Path.{◌≡◌, refl}
use mathlib.Core.Logic.{◌↔◌}
use mathlib.Core.Bool.{Bool, true, false, ◌&&◌}
use mathlib.Core.List.{[], ◌∷◌}
use native.Mathlib.Omega.{arith}
use treevial.Prelude.Tests.{◌==◌, ==_iff}
use treevial.Prelude.Lists.{Bytes}

-- `same_bytes s t` is Go's `s == t`.
abbrev pub same_bytes : Bytes → Bytes → Bool
same_bytes [] [] = true
same_bytes [] (b ∷ t) = false
same_bytes (a ∷ s) [] = false
same_bytes (a ∷ s) (b ∷ t) = a == b && same_bytes s t

pub same_bytes_iff : (s t : Bytes) → (same_bytes s t ≡ true) ↔ (s ≡ t)
same_bytes_iff [] [] = (λ _. refl, λ _. refl)
same_bytes_iff [] (b ∷ t) = (λ h. cc, λ h. cc)
same_bytes_iff (a ∷ s) [] = (λ h. cc, λ h. cc)
same_bytes_iff (a ∷ s) (b ∷ t) = ground (arith, same_bytes_iff s t)

-- A type of keys, with a test that decides its equality.
pub record Key {ℓ} (K : Type ℓ) : Type ℓ where
  pub same : K → K → Bool
  pub same_iff : (j k : K) → (same j k ≡ true) ↔ (j ≡ k)

instance abbrev pub number_key : Key ℕ
number_key = record { same = ◌==◌; same_iff = ==_iff }

instance abbrev pub bytes_key : Key Bytes
bytes_key = record { same = same_bytes; same_iff = same_bytes_iff }
