-- ===== src/Prelude/Decimal.antt =====
-- Decimal numbers: `%d`, `strconv.ParseUint(s, 10, 64)` and `strconv.Atoi(s)`.
use Prim.Native.Nat.{ℕ, zero, suc, ◌+◌, ◌-◌, ◌*◌, ◌/◌, ◌%◌, ◌^◌, ◌<◌, ◌≤◌}
use mathlib.Core.Path.{◌≡◌, refl, sym, ap, ◌∙◌}
use mathlib.Core.Logic.{inl, inr}
use mathlib.Core.Bool.{Bool, false, ◌&&◌}
use mathlib.Core.Option.{Option, none, some}
use mathlib.Core.List.{[], ◌∷◌, ◌++◌, append_assoc, append-nil}
use native.Mathlib.Omega.{arith}
use treevial.Prelude.Tests.{Bool-cases, ◌==◌, ltb, leb, if◌then◌else◌}
use treevial.Prelude.Lists.{Bytes, has, has-append}
use treevial.Prelude.Int.{ℤ, pos, negsuc}

-- The digits of `n`, for fuel above `n`.
show_digits : ℕ → ℕ → Bytes
show_digits zero n = []
show_digits (suc fuel) n =
    let more = show_digits fuel (n / 10) ++ (48 + n % 10) ∷ [] in
    if ltb n 10 then (48 + n) ∷ [] else more

unfoldable pub show : ℕ → Bytes
unfolding show_digits
show n = show_digits (suc n) n

unfoldable pub is_digit : ℕ → Bool
is_digit c = leb 48 c && leb c 57

-- The digits read so far are worth `acc`.
read_digits : ℕ → Bytes → Option ℕ
unfolding is_digit
read_digits acc [] = some acc
read_digits acc (c ∷ s) = if is_digit c then read_digits (acc * 10 + (c - 48)) s else none

abbrev pub below_limit : ℕ → Option ℕ → Option ℕ
below_limit limit none = none
below_limit limit (some n) = if ltb n limit then some n else none

-- `ParseUint(s, 10, 64)`: at least one digit, nothing else, and in range.
unfoldable pub parse_uint : Bytes → Option ℕ
unfolding read_digits
parse_uint [] = none
parse_uint (c ∷ s) = below_limit (2 ^ 64) (read_digits 0 (c ∷ s))

abbrev negated : Option ℕ → Option ℤ
negated none = none
negated (some zero) = some (pos 0)
negated (some (suc n)) = some (negsuc n)

abbrev positive : Option ℕ → Option ℤ
positive none = none
positive (some n) = some (pos n)

unsigned : ℕ → Bytes → Option ℕ
unfolding read_digits
unsigned limit [] = none
unsigned limit (c ∷ s) = below_limit limit (read_digits 0 (c ∷ s))

-- `Atoi(s)`: an optional sign, and an `int` of 64 bits.
unfoldable pub atoi : Bytes → Option ℤ
unfolding unsigned
atoi [] = none
atoi (c ∷ s) =
    if c == b'-'
    then negated (unsigned (2 ^ 63 + 1) s)
    else if c == b'+'
    then positive (unsigned (2 ^ 63) s)
    else positive (unsigned (2 ^ 63) (c ∷ s))

read_digits-cons :
    (acc d : ℕ) (s : Bytes) → d < 10 → read_digits acc ((48 + d) ∷ s) ≡ read_digits (acc * 10 + d) s
unfolding read_digits
read_digits-cons acc d s h = let e : 48 + d - 48 ≡ d = omega arith in rw e (ground arith)

-- Reading goes on behind the digits of `n` with `n` at its place.
read-show_digits :
    (fuel n : ℕ) (s : Bytes) → n < fuel → read_digits 0 (show_digits fuel n ++ s) ≡ read_digits n s
unfolding show_digits
read-show_digits zero n s h = absurd (omega arith)
read-show_digits (suc fuel) n s h = elim (Bool-cases (ltb n 10)) [
  | inl small ↦
      rw small (read_digits-cons 0 n s (ground arith) ∙ ap (λ k. read_digits k s) (omega arith))
  | inr large ↦
      rw (large, append_assoc)
        (read-show_digits fuel (n / 10) ((48 + n % 10) ∷ s) (ground arith)
          ∙ read_digits-cons (n / 10) (n % 10) s (omega arith)
          ∙ ap (λ k. read_digits k s) (omega arith))
]

read_digits-show : (n : ℕ) → read_digits 0 (show n) ≡ some n
unfolding show
read_digits-show n =
    ap (read_digits 0) (sym (append-nil (show_digits (suc n) n)))
    ∙ read-show_digits (suc n) n [] (omega arith)
    ∙ unfold read_digits in refl

-- The text of a number is a digit and more digits.
show_digits-cons :
    (fuel n : ℕ)
    → n < fuel
    → (c : ℕ) × (s : Bytes) × (show_digits fuel n ≡ c ∷ s) × (48 ≤ c) × (c ≤ 57)
unfolding show_digits
show_digits-cons zero n h = absurd (omega arith)
show_digits-cons (suc fuel) n h = elim (Bool-cases (ltb n 10)) [
  | inl small ↦ (48 + n, [], rw small, omega arith, ground arith)
  | inr large ↦
      let (c, s, e, lo, hi) = show_digits-cons fuel (n / 10) (ground arith) in
      (c, s ++ (48 + n % 10) ∷ [], rw (large, e), lo, hi)
]

show-cons : (n : ℕ) → (c : ℕ) × (s : Bytes) × (show n ≡ c ∷ s) × (48 ≤ c) × (c ≤ 57)
unfolding show
show-cons n = show_digits-cons (suc n) n (omega arith)

-- No byte below the digits, such as a space, stands in the text of a number.
has-show_digits : (fuel n c : ℕ) → c < 48 → has (show_digits fuel n) c ≡ false
unfolding show_digits
has-show_digits zero n c h = refl
has-show_digits (suc fuel) n c h = elim (Bool-cases (ltb n 10)) [
  | inl small ↦ rw small (ground arith)
  | inr large ↦
      rw (large, has-append (show_digits fuel (n / 10)) ((48 + n % 10) ∷ []) c)
        (ground (arith, has-show_digits fuel (n / 10) c))
]

pub has-show : (n c : ℕ) → c < 48 → has (show n) c ≡ false
unfolding show
has-show n = has-show_digits (suc n) n

parse_uint-digits :
    (c : ℕ) (s : Bytes) (n : ℕ)
    → read_digits 0 (c ∷ s) ≡ some n
    → n < 2 ^ 64
    → parse_uint (c ∷ s) ≡ some n
unfolding parse_uint
parse_uint-digits c s n e h = rw e (ground arith)

atoi-digits :
    (c : ℕ) (s : Bytes) (n : ℕ)
    → 48 ≤ c
    → read_digits 0 (c ∷ s) ≡ some n
    → n < 2 ^ 63
    → atoi (c ∷ s) ≡ some (pos n)
unfolding atoi
atoi-digits c s n lo e h = ground arith

-- Printing a number and reading it gives it back.
pub parse_uint-show : (n : ℕ) → n < 2 ^ 64 → parse_uint (show n) ≡ some n
parse_uint-show n h =
    let (c, s, e, lo, hi) = show-cons n in
    ap parse_uint e ∙ parse_uint-digits c s n (ap (read_digits 0) (sym e) ∙ read_digits-show n) h

pub atoi-show : (n : ℕ) → n < 2 ^ 63 → atoi (show n) ≡ some (pos n)
atoi-show n h =
    let (c, s, e, lo, hi) = show-cons n in
    ap atoi e ∙ atoi-digits c s n lo (ap (read_digits 0) (sym e) ∙ read_digits-show n) h

pub show-ne-nil : (n : ℕ) → show n ≡ [] → ⊥
show-ne-nil n h = let (c, s, e, lo, hi) = show-cons n in cc (h, e)
