-- ===== src/Objects/Compact.antt =====
-- objects/store.go: `Compact`, which copies what some roots reach into a new store.
pub mod Copies
pub mod Laws
pub mod Given
use treevial.Prelude.{
  ℕ, Bool, true, false, Option, none, some, List, [], ◌∷◌, length, Result, ok, err, and_then, Exec,
  pure, ◌>>=◌, if◌then◌else◌, has,
}
use treevial.Prelude.Int.{ℤ, sub_ℕ}
use treevial.Prelude.Maps.{keep}
use treevial.Git.{Git, Hash, is_zero, any_object}
use treevial.Objects.Store.{Fault, Store, Action, new_store, encoded_object, set_encoded_object}
use treevial.Objects.Walk.{Visitor, walk}

module _ (g : Git) where
  -- The keys of `live`, and the new store.
  pub record Compacting : Type 0 where
    pub live : List Hash
    pub out : Store g

  abbrev pub taken :
      Hash → List Hash → Store g × Result Fault Hash → Result Fault (Bool × Compacting)
  taken h live (out, ok _) = ok (true, record { live = h ∷ live; out = out })
  taken h live (out, err e) = err e

  -- The visitor, which moves an object from `s`.
  abbrev pub visit_compact : Store g → Visitor Compacting
  visit_compact s h c =
      if has c.live h
      then ok (false, c)
      else and_then (encoded_object g s any_object h)
          λ obj. taken h c.live (set_encoded_object g obj c.out)

  unfoldable pub compact_roots : Store g → ℕ → List Hash → Compacting → Action g Compacting
  compact_roots s fuel [] c = pure c
  compact_roots s fuel (root ∷ roots) c = do
    c' ← (if is_zero root then pure c else walk g (visit_compact s) fuel root c)
    compact_roots s fuel roots c'

  -- The memo goes along, and the count is that of the objects left behind.
  abbrev pub finish : Store g × Result Fault Compacting → Store g × Result Fault (Store g × ℤ)
  finish (s, err e) = (s, err e)
  finish (s, ok c) = (
    s,
    ok (record c.out { decoded = keep c.live s.decoded }, sub_ℕ (g.size s.storage) (length c.live)),
  )

  unfoldable pub compact : ℕ → List Hash → Action g (Store g × ℤ)
  compact fuel roots s =
      finish (compact_roots s fuel roots (record { live = []; out = new_store g }) s)
