-- ===== src/Objects/Walk/Follow.antt =====
-- A reference for `walk`: the same traversal of a fixed assignment of entries to trees, with no
-- store and no cache.
use treevial.Prelude.{
  ℕ, zero, suc, Bool, ◌&&◌, List, [], ◌∷◌, Result, ok, err, and_then, if◌then◌else◌,
}
use treevial.Git.{Hash, TreeEntry, is_dir}
use treevial.Objects.Store.{Fault, out_of_fuel}

-- The entries of each tree, or why they cannot be read.
abbrev pub Trees : Type 0
Trees = Hash → Result Fault (List TreeEntry)

module _ {V : Type 0} where
  abbrev pub follow_entries :
      (Hash → Bool → V → Result Fault V) → List TreeEntry → V → Result Fault V
  follow_entries step [] v = ok v
  follow_entries step (e ∷ es) v = and_then (step e.hash (is_dir e) v) (follow_entries step es)

  abbrev pub follow_below :
      Trees → (Hash → Bool → V → Result Fault V) → Hash → Bool → Bool × V → Result Fault V
  follow_below trees step h is_tree (carry_on, v) =
      if carry_on && is_tree then and_then (trees h) (λ es. follow_entries step es v) else ok v

  unfoldable pub follow :
      (Hash → V → Result Fault (Bool × V)) → Trees → ℕ → Hash → Bool → V → Result Fault V
  follow visit trees zero h is_tree v = err out_of_fuel
  follow visit trees (suc fuel) h is_tree v =
      and_then (visit h v) (follow_below trees (follow visit trees fuel) h is_tree)
