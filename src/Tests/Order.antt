-- ===== src/Tests/Order.antt =====
-- The order of a tree's entries, on a folder and a file whose names begin alike.
use treevial.Prelude.{[], ◌∷◌, Permᴰ, ◌≡◌, refl, arith}
use treevial.Git.{TreeEntry, dir_mode, regular_mode}
use treevial.Objects.Order.{in_order, earlier, compare_entries, sort_name}
use treevial.Objects.Order.Laws.{compare_entries-eq-earlier}
use treevial.Objects.Order.Sort.{IsOrdered, HasDistinctNames, in_order-IsOrdered, in_order-perm_eq}
use treevial.Prelude.Int.{is_negative}

abbrev folder : TreeEntry
folder = record { name = b'a' ∷ []; mode = dir_mode; hash = 1 }

abbrev file : TreeEntry
file = record { name = b'a' ∷ b'.' ∷ []; mode = regular_mode; hash = 2 }

apart : HasDistinctNames (folder ∷ file ∷ [])
unfolding sort_name
apart = (((λ e. ground arith), tt), (tt, tt))

compare_entries-eq-earlier_example : is_negative (compare_entries file folder) ≡ earlier file folder
compare_entries-eq-earlier_example = compare_entries-eq-earlier file folder

in_order-IsOrdered_example : IsOrdered (in_order (folder ∷ file ∷ []))
in_order-IsOrdered_example = in_order-IsOrdered (folder ∷ file ∷ [])

in_order-perm_eq_example : in_order (folder ∷ file ∷ []) ≡ in_order (file ∷ folder ∷ [])
in_order-perm_eq_example = in_order-perm_eq (Permᴰ.swap refl refl) apart
