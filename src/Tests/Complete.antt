-- ===== src/Tests/Complete.antt =====
-- A client that holds one tree is sent what it misses of another.
use treevial.Prelude.{
  Bool, true, not, some, List, [], ◌∷◌, ok, ◌≡◌, ◌≢◌, ◌⊎◌, refl, sym, ap, arith, subst, All, has,
  inl, inr, ◌==◌, Memᴰ,
}
use treevial.Git.{Hash, zero_hash, TreeEntry, is_dir}
use treevial.Objects.Order.{earlier}
use treevial.Objects.Store.{Store, entries, tree_at}
use treevial.Objects.Walk.{walk}
use treevial.Objects.Walk.Reach.{Reach, here, below, IsKinded}
use treevial.Objects.Walk.Refine.{view}
use treevial.Objects.Select.{skip_earlier, counterpart, select_since}
use treevial.Objects.Select.Compared.{NamesObjects}
use treevial.Objects.Select.Since.{Holds}
use treevial.Packread.{take_objects, scan}
use treevial.Receive.Graph.{on_tree}
use treevial.Receive.Interpret.{interpret}
use treevial.Receive.Interpret.Complete.{HasObject, Carries, interpret_completes}
use treevial.Tests.Toy.{toy, blob, tree}
use treevial.Tests.Client.{file, code, unique, second_pack, graph_1, graph_1-IsAddressed}

-- The client holds tree 2; tree 4 has the same file.
abbrev store : Store toy
store = record {
  storage = (1, blob (0 ∷ [])) ∷ (2, tree (file ∷ [])) ∷ (4, tree (file ∷ [])) ∷ [];
  decoded = [];
}

abbrev kind : Hash → Bool
kind h = not (h == 1)

selected : (select_since toy 5 2 4 store).1 ≡ ok (4 ∷ [])
unfolding select_since entries walk counterpart skip_earlier earlier
selected = refl

view_cases : (x : Hash) (es : List TreeEntry) → view toy store x ≡ ok es → es ≡ file ∷ []
unfolding view tree_at
view_cases x es read = ground arith

kinded : IsKinded (view toy store) kind
kinded x es read = subst (All (λ e. is_dir e ≡ kind e.hash)) (sym (view_cases x es read)) (refl, tt)

names : NamesObjects (view toy store)
names x es read = subst (All (λ e. e.hash ≢ zero_hash)) (sym (view_cases x es read)) (omega arith)

reached : {x : Hash} {b : Bool} → Reach (view toy store) 2 x b → (x ≡ 2) ⊎ (x ≡ 1)
reached here = inl refl
reached (below p read m) = inr (at (subst (Memᴰ _) (view_cases _ _ read) m))
  where
    at : {e : TreeEntry} → Memᴰ e (file ∷ []) → e.hash ≡ 1
    at (Memᴰ.head e) = ap (λ f. f.hash) e
    at (Memᴰ.tail m) = elim m [ ]

held : (x : Hash) → Holds (view toy store) kind 2 x → HasObject (view toy store) kind graph_1 x
held x (nz, p) = elim (reached p) [
  | inl e ↦
      subst (HasObject (view toy store) kind graph_1) (sym e)
        (record { tree = λ k es read. ap some (sym (view_cases 2 es read)); blob = λ k. cc })
  | inr e ↦
      subst (HasObject (view toy store) kind graph_1) (sym e)
        (record { tree = λ k es read. cc; blob = λ k. (0 ∷ [], refl) })
]

carried :
    (x : Hash) → has (4 ∷ []) x ≡ true → Carries code (view toy store) kind second_pack.objects x
carried x m =
    let e : 4 ≡ x = ground arith in
    subst (Carries code (view toy store) kind second_pack.objects) e (record {
      tree = λ k. (2 ∷ [], Memᴰ.head refl, refl, λ es read. ap some (sym (view_cases 4 es read)));
      blob = λ k. cc;
    })

interpreted : (interpret code second_pack graph_1).1 ≡ ok tt
unfolding interpret scan take_objects on_tree
interpreted = refl

tree_4 : view toy store 4 ≡ ok (file ∷ [])
unfolding view tree_at
tree_4 = refl

interpret_completes_example :
    HasObject (view toy store) kind (interpret code second_pack graph_1).0 1
interpret_completes_example =
    interpret_completes code unique toy store kind kinded names 2 4 5 (4 ∷ []) graph_1 second_pack
      refl refl (omega arith) selected graph_1-IsAddressed held refl carried interpreted 1
      (below here tree_4 (Memᴰ.head refl))
