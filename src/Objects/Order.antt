-- ===== src/Objects/Order.antt =====
-- objects/store.go and objects/select.go: git's order of the entries of a tree.
pub mod Laws
pub mod Sort
use treevial.Prelude.{
  ℕ, zero, suc, ◌+◌, min, Bool, true, false, List, [], ◌∷◌, ◌++◌, Bytes, length, ltb, ◌==◌,
  if◌then◌else◌,
}
use treevial.Prelude.Int.{ℤ, sub_ℕ, is_negative}
use treevial.Git.{TreeEntry, is_dir}

-- Go's `s < t` on strings.
abbrev pub bytes_lt : Bytes → Bytes → Bool
bytes_lt [] [] = false
bytes_lt [] (b ∷ t) = true
bytes_lt (a ∷ s) [] = false
bytes_lt (a ∷ s) (b ∷ t) = if a == b then bytes_lt s t else ltb a b

-- `s[i]`, for an index in range.
abbrev pub byte_at : Bytes → ℕ → ℕ
byte_at [] i = 0
byte_at (c ∷ s) zero = c
byte_at (c ∷ s) (suc i) = byte_at s i

unfoldable pub sort_name : TreeEntry → Bytes
sort_name e = if is_dir e then e.name ++ b'/' ∷ [] else e.name

unfoldable pub earlier : TreeEntry → TreeEntry → Bool
unfolding sort_name
earlier a b = bytes_lt (sort_name a) (sort_name b)

pub sort_len : TreeEntry → ℕ
sort_len e = if is_dir e then length e.name + 1 else length e.name

pub sort_byte : TreeEntry → ℕ → ℕ
sort_byte e i = if ltb i (length e.name) then byte_at e.name i else b'/'

-- The loop of `compareEntries`: the rounds left, and the index.
pub compare_bytes : TreeEntry → TreeEntry → ℕ → ℕ → ℤ
unfolding sort_len sort_byte
compare_bytes a b zero i = sub_ℕ (sort_len a) (sort_len b)
compare_bytes a b (suc n) i =
    let rest = compare_bytes a b n (suc i) in
    if sort_byte a i == sort_byte b i then rest else sub_ℕ (sort_byte a i) (sort_byte b i)

unfoldable pub compare_entries : TreeEntry → TreeEntry → ℤ
unfolding compare_bytes
compare_entries a b = compare_bytes a b (min (sort_len a) (sort_len b)) 0

-- `slices.IsSortedFunc(entries, compareEntries)`
pub is_sorted : List TreeEntry → Bool
is_sorted [] = true
is_sorted (a ∷ []) = true
is_sorted (a ∷ b ∷ es) = if is_negative (compare_entries b a) then false else is_sorted (b ∷ es)

-- `slices.SortFunc(entries, compareEntries)`, by insertion.
pub insert_entry : TreeEntry → List TreeEntry → List TreeEntry
insert_entry a [] = a ∷ []
insert_entry a (b ∷ es) =
    if is_negative (compare_entries a b) then a ∷ b ∷ es else b ∷ insert_entry a es

pub sort_entries : List TreeEntry → List TreeEntry
unfolding insert_entry compare_entries
sort_entries [] = []
sort_entries (a ∷ es) = insert_entry a (sort_entries es)

-- What `AddTree` puts in a tree: its argument if that is in order, and otherwise a sorted copy.
unfoldable pub in_order : List TreeEntry → List TreeEntry
unfolding is_sorted sort_entries compare_entries
in_order entries = if is_sorted entries then entries else sort_entries entries
