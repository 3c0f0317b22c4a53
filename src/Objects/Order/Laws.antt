-- ===== src/Objects/Order/Laws.antt =====
-- The loop of `compareEntries` is the order of the sort names, which is a strict total order.
use Prim.Native.Nat.{◌<◌}
use treevial.Prelude.{
  ℕ, zero, suc, ◌+◌, ◌-◌, ◌≤◌, min, true, false, [], ◌∷◌, ◌++◌, Bytes, length, ltb, ◌==◌,
  if◌then◌else◌, ◌≡◌, refl, arith, drop, length-append, ap, ◌∙◌,
}
use treevial.Prelude.Int.{ℤ, sub_ℕ, is_negative}
use treevial.Git.{TreeEntry}
use treevial.Objects.Order.{
  bytes_lt, byte_at, sort_name, earlier, sort_len, sort_byte, compare_bytes, compare_entries,
}

sort_len-eq-length : (e : TreeEntry) → sort_len e ≡ length (sort_name e)
unfolding sort_len sort_name
sort_len-eq-length e = ground (arith, length-append e.name (b'/' ∷ []))

byte_at-append :
    (s : Bytes) (c i : ℕ)
    → i ≤ length s
    → byte_at (s ++ c ∷ []) i ≡ (if ltb i (length s) then byte_at s i else c)
byte_at-append [] c zero h = refl
byte_at-append [] c (suc i) h = absurd (omega arith)
byte_at-append (a ∷ s) c zero h = ground arith
byte_at-append (a ∷ s) c (suc i) h = ground (arith, byte_at-append s c i)

sort_byte-eq-byte_at :
    (e : TreeEntry) (i : ℕ) → i < length (sort_name e) → sort_byte e i ≡ byte_at (sort_name e) i
unfolding sort_byte sort_name
sort_byte-eq-byte_at e i h =
    ground (arith, byte_at-append e.name b'/' i, length-append e.name (b'/' ∷ []))

-- Two byte sequences compared from position `i` on, for the rounds left.
compare_from : Bytes → Bytes → ℕ → ℕ → ℤ
compare_from s t zero i = sub_ℕ (length s) (length t)
compare_from s t (suc n) i =
    let rest = compare_from s t n (suc i) in
    if byte_at s i == byte_at t i then rest else sub_ℕ (byte_at s i) (byte_at t i)

compare_bytes-eq-compare_from :
    (a b : TreeEntry) (n i : ℕ)
    → n + i ≤ min (sort_len a) (sort_len b)
    → compare_bytes a b n i ≡ compare_from (sort_name a) (sort_name b) n i
unfolding compare_bytes compare_from
compare_bytes-eq-compare_from a b zero i h =
    ground (arith, sort_len-eq-length a, sort_len-eq-length b)
compare_bytes-eq-compare_from a b (suc n) i h = ground (
  arith,
  sort_len-eq-length a,
  sort_len-eq-length b,
  sort_byte-eq-byte_at a i,
  sort_byte-eq-byte_at b i,
  compare_bytes-eq-compare_from a b n (suc i),
)

byte_at-drop : (s : Bytes) (i : ℕ) → i < length s → drop i s ≡ byte_at s i ∷ drop (suc i) s
byte_at-drop [] i h = absurd (omega arith)
byte_at-drop (c ∷ s) zero h = refl
byte_at-drop (c ∷ s) (suc i) h = byte_at-drop s i (omega arith)

drop-length_lt : (s : Bytes) (i : ℕ) → length (drop i s) ≡ length s - i
drop-length_lt s zero = omega arith
drop-length_lt [] (suc i) = omega arith
drop-length_lt (c ∷ s) (suc i) = omega (arith, drop-length_lt s i)

-- One of the two has ended.
bytes_lt_end :
    (s t : Bytes) → min (length s) (length t) ≡ 0 → bytes_lt s t ≡ ltb (length s) (length t)
bytes_lt_end [] [] h = refl
bytes_lt_end [] (b ∷ t) h = ground arith
bytes_lt_end (a ∷ s) [] h = ground arith
bytes_lt_end (a ∷ s) (b ∷ t) h = absurd (omega arith)

compare_from-eq-bytes_lt :
    (s t : Bytes) (n i : ℕ)
    → n + i ≡ min (length s) (length t)
    → is_negative (compare_from s t n i) ≡ bytes_lt (drop i s) (drop i t)
unfolding compare_from
compare_from-eq-bytes_lt s t zero i h =
    ground (arith, bytes_lt_end (drop i s) (drop i t), drop-length_lt s i, drop-length_lt t i)
compare_from-eq-bytes_lt s t (suc n) i h =
    rw (byte_at-drop s i (omega arith), byte_at-drop t i (omega arith))
      (ground (arith, compare_from-eq-bytes_lt s t n (suc i) (omega arith)))

-- `compareEntries(a, b) < 0` exactly when `earlier(a, b)`: the order in which `AddTree` sorts is the
-- order by which `selectCompared` merges.
pub compare_entries-eq-earlier : (a b : TreeEntry) → is_negative (compare_entries a b) ≡ earlier a b
unfolding compare_entries earlier
compare_entries-eq-earlier a b =
    ap is_negative (compare_bytes-eq-compare_from a b _ 0 (omega arith))
    ∙ compare_from-eq-bytes_lt (sort_name a) (sort_name b) (min (sort_len a) (sort_len b)) 0
        (omega (arith, sort_len-eq-length a, sort_len-eq-length b))

bytes_lt_irrefl : (s : Bytes) → bytes_lt s s ≡ false
bytes_lt_irrefl [] = refl
bytes_lt_irrefl (a ∷ s) = ground (arith, bytes_lt_irrefl s)

bytes_lt_trans : (s t u : Bytes) → bytes_lt s t ≡ true → bytes_lt t u ≡ true → bytes_lt s u ≡ true
bytes_lt_trans [] [] u h k = cc
bytes_lt_trans [] (b ∷ t) [] h k = cc
bytes_lt_trans [] (b ∷ t) (c ∷ u) h k = refl
bytes_lt_trans (a ∷ s) [] u h k = cc
bytes_lt_trans (a ∷ s) (b ∷ t) [] h k = cc
bytes_lt_trans (a ∷ s) (b ∷ t) (c ∷ u) h k = ground (arith, bytes_lt_trans s t u)

bytes_lt_total : (s t : Bytes) → bytes_lt s t ≡ false → bytes_lt t s ≡ false → s ≡ t
bytes_lt_total [] [] h k = refl
bytes_lt_total [] (b ∷ t) h k = cc
bytes_lt_total (a ∷ s) [] h k = cc
bytes_lt_total (a ∷ s) (b ∷ t) h k = ground (arith, bytes_lt_total s t)

pub earlier_irrefl : (a : TreeEntry) → earlier a a ≡ false
unfolding earlier
earlier_irrefl a = bytes_lt_irrefl (sort_name a)

pub earlier_trans :
    (a b c : TreeEntry) → earlier a b ≡ true → earlier b c ≡ true → earlier a c ≡ true
unfolding earlier
earlier_trans a b c = bytes_lt_trans (sort_name a) (sort_name b) (sort_name c)

pub earlier_total :
    (a b : TreeEntry) → earlier a b ≡ false → earlier b a ≡ false → sort_name a ≡ sort_name b
unfolding earlier
earlier_total a b = bytes_lt_total (sort_name a) (sort_name b)
