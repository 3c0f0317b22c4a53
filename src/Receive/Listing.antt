-- ===== src/Receive/Listing.antt =====
-- receive/listing.go: a tree as text, whole and as what changed.
use treevial.Prelude.{
  ℕ, zero, suc, ◌+◌, ◌-◌, ◌/◌, ◌%◌, [], ◌∷◌, ◌++◌, Bytes, length, true, Result, ok, ◌==◌,
  if◌then◌else◌,
}
use treevial.Prelude.Text.{ascii}
use treevial.Git.{Hash, TreeEntry, is_dir}
use treevial.Objects.Store.{Fault}
use treevial.Wire.{HashText}
use treevial.Receive.Graph.{Graph, descend}
use treevial.Receive.Compare.{ChangeKind, added, modified, deleted, compare}

-- `Symbol`
abbrev pub symbol : ChangeKind → Bytes
symbol added = ascii "+"
symbol modified = ascii "~"
symbol deleted = ascii "-"

-- `%06o`: the octal digits, with fuel for those of 32 bits, behind zeros up to six.
abbrev pub octal_digits : ℕ → ℕ → Bytes → Bytes
octal_digits zero n digits = digits
octal_digits (suc fuel) n digits =
    let rest = octal_digits fuel (n / 8) ((b'0' + n % 8) ∷ digits) in
    if n == 0 then digits else rest

abbrev pub zeros : ℕ → Bytes
zeros zero = []
zeros (suc n) = b'0' ∷ zeros n

abbrev pub six_octal : ℕ → Bytes
six_octal mode = let digits = octal_digits 11 mode [] in zeros (6 - length digits) ++ digits

module _ (t : HashText) where
  abbrev pub row : Bytes → TreeEntry → Bytes → Bytes → Bytes
  row mark e path b =
      b
      ++ mark
      ++ six_octal e.mode
      ++ ascii " "
      ++ (if is_dir e then ascii "tree" else ascii "blob")
      ++ ascii " "
      ++ t.show_hash e.hash
      ++ ascii "\t"
      ++ path
      ++ ascii "\n"

  unfoldable pub listing : Graph → ℕ → Hash → Result Fault Bytes
  listing g fuel root = descend g (λ path e b. ok (true, row [] e path b)) fuel root [] []

  unfoldable pub listing_since : Graph → ℕ → Hash → Hash → Result Fault Bytes
  listing_since g fuel old new =
      compare g (λ kind e path b. ok (row (symbol kind ++ ascii " ") e path b)) fuel old new [] []
