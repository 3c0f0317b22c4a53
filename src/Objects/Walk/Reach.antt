-- ===== src/Objects/Walk/Reach.antt =====
-- The objects below a tree: what the hash of a root stands for.
use treevial.Prelude.{Bool, true, List, ok, ◌≡◌, sym, All, All-Memᴰ, All_intro, Memᴰ, subst}
use treevial.Git.{Hash, TreeEntry, is_dir}
use treevial.Objects.Walk.Follow.{Trees}

-- `Reach trees root h is_tree`: the object `h` is `root` or stands below it, and its entry's mode
-- says whether it is a tree.
pub data Reach (trees : Trees) (root : Hash) : Hash → Bool → Type 0 where
  here : Reach trees root root true
  below :
      {x : Hash} {es : List TreeEntry} {e : TreeEntry}
      → Reach trees root x true
      → trees x ≡ ok es
      → Memᴰ e es
      → Reach trees root e.hash (is_dir e)

-- The object stands below the root, with its kind.
abbrev pub Below : Trees → (Hash → Bool) → Hash → Hash → Type 0
Below trees kind root h = Reach trees root h (kind h)

-- The modes of entries agree about which hashes are those of trees. (Git hashes the type of an object
-- with its content.)
abbrev pub IsKinded : Trees → (Hash → Bool) → Type 0
IsKinded trees kind =
    (x : Hash) (es : List TreeEntry) → trees x ≡ ok es → All (λ e. is_dir e ≡ kind e.hash) es

module _ (trees : Trees) (kind : Hash → Bool) (kinded : IsKinded trees kind) where
  pub Reach-kind : {root h : Hash} {b : Bool} → kind root ≡ true → Reach trees root h b → b ≡ kind h
  Reach-kind is_tree here = sym is_tree
  Reach-kind is_tree (below p e m) = All-Memᴰ (λ e. is_dir e ≡ kind e.hash) (kinded _ _ e) m

  -- A property of the root that trees hand on to their entries holds of everything below.
  pub Reach_induction :
      (P : Hash → Type 0)
      → ((x : Hash) (es : List TreeEntry)
          → P x
          → kind x ≡ true
          → trees x ≡ ok es
          → All (λ e. P e.hash) es)
      → {root h : Hash} {b : Bool} → kind root ≡ true
      → P root
      → Reach trees root h b
      → P h
  Reach_induction P hand_on is_tree start here = start
  Reach_induction P hand_on is_tree start (below p e m) =
      All-Memᴰ (λ e. P e.hash)
        (hand_on _ _ (Reach_induction P hand_on is_tree start p) (sym (Reach-kind is_tree p)) e) m

  -- What stands below a root is handed on by trees.
  pub Reach_hands_on :
      (root x : Hash) (es : List TreeEntry)
      → Reach trees root x (kind x)
      → kind x ≡ true
      → trees x ≡ ok es
      → All (λ e. Reach trees root e.hash (kind e.hash)) es
  Reach_hands_on root x es p is_tree read =
      All_intro (λ e. Reach trees root e.hash (kind e.hash)) es
        λ e m.
          subst (Reach trees root e.hash)
            (All-Memᴰ (λ e. is_dir e ≡ kind e.hash) (kinded x es read) m)
            (below (subst (Reach trees root x) is_tree p) read m)
