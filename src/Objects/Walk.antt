-- ===== src/Objects/Walk.antt =====
-- objects/select.go, `walk`: the traversal of the trees below a root, with a visitor.
pub mod Follow
pub mod Refine
pub mod Reach
pub mod Marks
pub mod Ends
use treevial.Prelude.{
  ℕ, zero, suc, Bool, true, false, ◌&&◌, List, [], ◌∷◌, Result, ok, err, Exec, pure, raise, lift,
  ◌>>=◌, if◌then◌else◌,
}
use treevial.Git.{Git, Hash, TreeEntry, is_dir}
use treevial.Objects.Store.{Fault, out_of_fuel, Store, Action, entries}

-- `visit` of the source: whether to go on below the object, and what the closure has collected.
abbrev pub Visitor : Type 0 → Type 0
Visitor V = Hash → V → Result Fault (Bool × V)

module _ {V : Type 0} (g : Git) where
  -- The loop over the entries of a tree.
  pub walk_entries : (Hash → Bool → V → Action g V) → List TreeEntry → V → Action g V
  walk_entries step [] v = pure v
  walk_entries step (e ∷ es) v = do v' ← step e.hash (is_dir e) v; walk_entries step es v'

  pub below : (Hash → Bool → V → Action g V) → Hash → Bool → Bool × V → Action g V
  unfolding walk_entries
  below step h is_tree (carry_on, v) =
      if carry_on && is_tree then (do es ← entries g h; walk_entries step es v) else pure v

  -- The closure `descend`, with a bound on the depth.
  pub descend : Visitor V → ℕ → Hash → Bool → V → Action g V
  unfolding below
  descend visit zero h is_tree v = raise out_of_fuel
  descend visit (suc fuel) h is_tree v = do
    seen ← lift (visit h v)
    below (descend visit fuel) h is_tree seen

  unfoldable pub walk : Visitor V → ℕ → Hash → V → Action g V
  unfolding descend
  walk visit fuel root v = descend visit fuel root true v
