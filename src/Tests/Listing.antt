-- ===== src/Tests/Listing.antt =====
-- The text of a graph, and a file that is replaced in a tree.
use treevial.Prelude.{◌+◌, [], ◌∷◌, ◌++◌, ok, err, ◌≡◌, refl}
use treevial.Prelude.Text.{ascii, split}
use treevial.Objects.Store.{no_element, entries, tree_at}
use treevial.Objects.Replace.{rebuild, replace_blob}
use treevial.Receive.Graph.{visit_entry, descend}
use treevial.Receive.Compare.{whole, compare}
use treevial.Receive.Listing.{listing, listing_since}
use treevial.Wire.{HashText}
use treevial.Tests.Toy.{toy}
use treevial.Tests.Select
use treevial.Tests.Receive.{sample}

-- One letter for each hash.
abbrev letters : HashText
letters = record { show_hash = λ h. (b'a' + h) ∷ []; new_hash = λ s. 0 }

listed_tree :
    listing letters sample 5 2
    ≡ ok (ascii "100644 blob k\ta\n" ++ ascii "040000 tree d\tb\n" ++ ascii "100644 blob l\tb/c\n")
unfolding listing descend visit_entry
listed_tree = refl

listed_change :
    listing_since letters sample 5 4 2
    ≡ ok (
        ascii "~ 100644 blob k\ta\n"
        ++ ascii "+ 040000 tree d\tb\n"
        ++ ascii "+ 100644 blob l\tb/c\n")
unfolding listing_since compare whole descend visit_entry
listed_change = refl

not_there : (replace_blob toy 2 (ascii "b/d") [] Select.sample).1 ≡ err (no_element (ascii "d") 3)
unfolding replace_blob rebuild split entries tree_at
not_there = refl
