-- ===== src/Prelude/Text.antt =====
-- Go's functions on strings, over bytes.
use Prim.Native.Nat.{ℕ}
use Prim.Native.Char.{code}
use Prim.Native.String.{String}
use mathlib.Core.Path.{◌≡◌, refl}
use mathlib.Core.Logic.{inl, inr}
use mathlib.Core.Bool.{Bool, true, false, ◌&&◌, ◌||◌}
use mathlib.Core.List.{List, [], ◌∷◌, ◌++◌}
use native.Mathlib.Omega.{arith}
use treevial.Prelude.Tests.{◌==◌, if◌then◌else◌, Bool-cases}
use treevial.Prelude.Lists.{Bytes, has, length, All}

-- The bytes of an ASCII literal.
abbrev pub ascii : String → Bytes
ascii String.[] = []
ascii (String.◌∷◌ c s) = code c ∷ ascii s

-- `strings.HasPrefix(s, p)`
abbrev pub has_prefix : Bytes → Bytes → Bool
has_prefix s [] = true
has_prefix [] (b ∷ p) = false
has_prefix (a ∷ s) (b ∷ p) = a == b && has_prefix s p

-- `strings.Contains(s, p)`
abbrev pub contains : Bytes → Bytes → Bool
contains [] p = has_prefix [] p
contains (a ∷ s) p = has_prefix (a ∷ s) p || contains s p

-- `strings.HasSuffix(s, p)`
abbrev pub has_suffix : Bytes → Bytes → Bool
has_suffix [] p = has_prefix p [] && length p == 0
has_suffix (a ∷ s) p = (has_prefix (a ∷ s) p && length (a ∷ s) == length p) || has_suffix s p

-- A byte in front of the first field.
abbrev pub onto_first : ℕ → List Bytes → List Bytes
onto_first a [] = (a ∷ []) ∷ []
onto_first a (f ∷ fs) = (a ∷ f) ∷ fs

-- `strings.Split(s, c)`, for a separator of one byte.
unfoldable pub split : ℕ → Bytes → List Bytes
split c [] = [] ∷ []
split c (a ∷ s) = let rest = split c s in if a == c then [] ∷ rest else onto_first a rest

-- `strings.Join(fields, c)`
unfoldable pub join : ℕ → List Bytes → Bytes
join c [] = []
join c (f ∷ []) = f
join c (f ∷ g ∷ fs) = f ++ c ∷ join c (g ∷ fs)

-- A field up to a separator is the first field.
pub split-cons : (c : ℕ) (f s : Bytes) → has f c ≡ false → split c (f ++ c ∷ s) ≡ f ∷ split c s
unfolding split
split-cons c [] s h = ground arith
split-cons c (a ∷ f) s h = ground (arith, split-cons c f s)

pub split-single : (c : ℕ) (f : Bytes) → has f c ≡ false → split c f ≡ f ∷ []
unfolding split
split-single c [] h = refl
split-single c (a ∷ f) h = ground (arith, split-single c f)

pub split-ne-nil : (c : ℕ) (s : Bytes) → split c s ≡ [] → ⊥
unfolding split
split-ne-nil c [] h = cc
split-ne-nil c (a ∷ s) h = ground (arith, split-ne-nil c s)

join-onto_first :
    (c a : ℕ) (fs : List Bytes) → (fs ≡ [] → ⊥) → join c (onto_first a fs) ≡ a ∷ join c fs
unfolding join
join-onto_first c a [] h = absurd (h refl)
join-onto_first c a (f ∷ []) h = refl
join-onto_first c a (f ∷ g ∷ fs) h = refl

join-nil_cons : (c : ℕ) (fs : List Bytes) → (fs ≡ [] → ⊥) → join c ([] ∷ fs) ≡ c ∷ join c fs
unfolding join
join-nil_cons c [] h = absurd (h refl)
join-nil_cons c (f ∷ fs) h = refl

join-split_step : (c a : ℕ) (s : Bytes) → join c (split c s) ≡ s → join c (split c (a ∷ s)) ≡ a ∷ s
unfolding split
join-split_step c a s ih =
    ground (arith, join-onto_first c a (split c s), join-nil_cons c (split c s), split-ne-nil c s)

-- Joining what was split gives the text back.
pub join-split : (c : ℕ) (s : Bytes) → join c (split c s) ≡ s
join-split c [] = unfold split join in refl
join-split c (a ∷ s) = join-split_step c a s (join-split c s)

pub has_prefix-append : (s p : Bytes) → has_prefix s p ≡ true → (rest : Bytes) × (s ≡ p ++ rest)
has_prefix-append s [] h = (s, refl)
has_prefix-append [] (b ∷ p) h = cc
has_prefix-append (a ∷ s) (b ∷ p) h =
    let (rest, e) = has_prefix-append s p (ground arith) in (rest, ground arith)

onto_first-no_separator :
    (c a : ℕ)
    → (a == c) ≡ false
    → (fs : List Bytes) → All (λ f. has f c ≡ false) fs
    → All (λ f. has f c ≡ false) (onto_first a fs)
onto_first-no_separator c a n [] h = (ground arith, tt)
onto_first-no_separator c a n (f ∷ fs) h = (ground (arith, h.0), h.1)

-- The parts of a text hold no separator.
pub split-no_separator : (c : ℕ) (s : Bytes) → All (λ f. has f c ≡ false) (split c s)
unfolding split
split-no_separator c [] = (refl, tt)
split-no_separator c (a ∷ s) = elim (Bool-cases (a == c)) [
  | inl e ↦ rw e (refl, split-no_separator c s)
  | inr n ↦ rw n (onto_first-no_separator c a n (split c s) (split-no_separator c s))
]
