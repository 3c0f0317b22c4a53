-- ===== src/Receive/Retain/Laws.antt =====
-- What is left of a graph after `Retain`, and when it succeeds.
use treevial.Prelude.{
  ℕ, ◌+◌, Bool, true, false, none, some, Option, List, [], ◌∷◌, Bytes, length, Result, ok, err, ◌≡◌,
  ◌≢◌, ◌↔◌, refl, sym, ◌∙◌, subst, arith, All, All-Memᴰ, All_map, All_intro, has, Bool-cases, inl,
  inr, ok_injective, number_key,
}
use treevial.Prelude.Maps.{Map, keep, lookup-keep}
use treevial.Git.{Hash, TreeEntry, zero_hash}
use treevial.Objects.Store.{Fault}
use treevial.Objects.Walk.Reach.{Below, IsKinded, Reach_induction, Reach_hands_on}
use treevial.Objects.Select.Exact.{Below-root}
use treevial.Receive.Graph.{
  Graph, get_blob, get_tree, or_missing, entries, size, mark_all, dropped, sweep_graph, retain,
}
use treevial.Receive.Retain.Live.{IsLive, IsMarked, mark_all-IsMarked}

length-keep {ℓ} :
    {A : Type ℓ} (live : List Hash) (m : Map Hash A)
    → length (keep live m) + dropped live m ≡ length m
length-keep live [] = omega arith
length-keep live ((h, a) ∷ m) = ground (arith, length-keep live m)

module _ (g : Graph) (kind : Hash → Bool) (kinded : IsKinded (entries g) kind) where
  -- Whether a root stands for a tree: each does, except for the zero hash.
  abbrev pub NamesTrees : List Hash → Type 0
  NamesTrees roots = All (λ r. r ≢ zero_hash → kind r ≡ true) roots

  IsLive-hands_on :
      (roots : List Hash) (x : Hash) (es : List TreeEntry)
      → IsLive g kind roots x
      → kind x ≡ true
      → entries g x ≡ ok es
      → NamesTrees roots
      → All (λ e. IsLive g kind roots e.hash) es
  IsLive-hands_on roots x es p k read names =
      All_map (λ e. Below (entries g) kind p.root e.hash) (λ e. IsLive g kind roots e.hash) es
        (λ e q. record { root = p.root; named = p.named; nonzero = p.nonzero; reached = q })
        (Reach_hands_on (entries g) kind kinded p.root x es p.reached k read)

  roots-IsLive :
      (roots : List Hash)
      → NamesTrees roots
      → All (λ r. r ≢ zero_hash → (kind r ≡ true) × IsLive g kind roots r) roots
  roots-IsLive roots names =
      All_intro (λ r. r ≢ zero_hash → (kind r ≡ true) × IsLive g kind roots r) roots
        λ r m nz.
          let t = All-Memᴰ (λ r. r ≢ zero_hash → kind r ≡ true) names m nz in
          (
            t,
            record {
              root = r;
              named = m;
              nonzero = nz;
              reached = Below-root (entries g) kind kinded r t;
            },
          )

  module _ (roots : List Hash) (names : NamesTrees roots) (fuel : ℕ) where
    abbrev Marked : List Hash → Type 0
    Marked live =
        IsMarked g kind kinded (IsLive g kind roots)
          (λ x es p k read. IsLive-hands_on roots x es p k read names) live

    mark_all_lem :
        (live : List Hash)
        → mark_all g fuel roots [] ≡ ok live
        → Marked live × ((x : Hash) → (has live x ≡ true) ↔ IsLive g kind roots x)
    mark_all_lem live run =
        let (marked, _, all) =
          mark_all-IsMarked g kind kinded (IsLive g kind roots)
            (λ x es p k read. IsLive-hands_on roots x es p k read names) fuel roots [] live
            (roots-IsLive roots names)
            (record { closed = λ x m. cc; sound = λ x m. cc; blobs = λ x m. cc }) run in
        (
          marked,
          λ x. (
            marked.sound x,
            λ p.
                Reach_induction (entries g) kind kinded (λ y. has live y ≡ true)
                  (λ y es m k read.
                    let (es', read', below) = marked.closed y m k in
                    subst (All (λ e. has live e.hash ≡ true)) (ok_injective (sym read' ∙ read))
                      below)
                  (All-Memᴰ (λ r. r ≢ zero_hash → kind r ≡ true) names p.named p.nonzero)
                  (All-Memᴰ (λ r. r ≢ zero_hash → has live r ≡ true) all p.named p.nonzero)
                  p.reached,
          ),
        )

    -- The objects that are live are kept, and the graph holds each of them.
    pub record Keeps (before after : Graph) (x : Hash) : Type 0 where
      pub same_blob : get_blob after x ≡ get_blob before x
      pub same_tree : get_tree after x ≡ get_tree before x
      pub has_tree : kind x ≡ true → (es : List TreeEntry) × (get_tree after x ≡ some es)
      pub has_blob : kind x ≡ false → (c : Bytes) × (get_blob after x ≡ some c)

    or_missing-ok {ℓ} :
        {A : Type ℓ} (h : Hash) (o : Option A) {a : A} → or_missing h o ≡ ok a → o ≡ some a
    or_missing-ok h none e = cc
    or_missing-ok h (some b) e = cc

    swept_graph :
        (live : List Hash)
        → mark_all g fuel roots [] ≡ ok live
        → ((x : Hash) → IsLive g kind roots x → Keeps g (sweep_graph g (ok live)).0 x)
          × ((x : Hash)
              → ¬ IsLive g kind roots x
              → (get_blob (sweep_graph g (ok live)).0 x ≡ none)
                × (get_tree (sweep_graph g (ok live)).0 x ≡ none))
    swept_graph live run =
        let (marked, iff) = mark_all_lem live run in
        (
          λ x p.
              let m = (iff x).1 p in
              let blob = lookup-keep live x g.blobs ∙ rw m refl in
              let tree = lookup-keep live x g.trees ∙ rw m refl in
              record {
                same_blob = blob;
                same_tree = tree;
                has_tree = λ k.
                    let (es, read, _) = marked.closed x m k in
                    (es, tree ∙ or_missing-ok x (get_tree g x) read);
                has_blob = λ k.
                    let (c, read) = marked.blobs x m k in
                    (c, blob ∙ or_missing-ok x (get_blob g x) read);
              },
          λ x n.
              let m : has live x ≡ false = elim (Bool-cases (has live x)) [
                | inl y ↦ absurd (n ((iff x).0 y))
                | inr z ↦ z
              ] in
              (lookup-keep live x g.blobs ∙ rw m refl, lookup-keep live x g.trees ∙ rw m refl),
        )

    -- Over a graph in which `kind` says which hashes are those of trees, with roots that are trees or the
    -- zero hash: where `Retain` succeeds, every object that a root reaches is kept as it was and is there,
    -- every other object is gone, and the count is that of the objects that are gone.
    pub retain_lem :
        (n : ℕ)
        → (retain fuel roots g).1 ≡ ok n
        → ((x : Hash) → IsLive g kind roots x → Keeps g (retain fuel roots g).0 x)
          × ((x : Hash)
              → ¬ IsLive g kind roots x
              → (get_blob (retain fuel roots g).0 x ≡ none)
                × (get_tree (retain fuel roots g).0 x ≡ none))
          × (size (retain fuel roots g).0 + n ≡ size g)
    unfolding retain
    retain_lem n = done (mark_all g fuel roots []) (λ live e. swept_graph live e) refl
      where
        done :
            (r : Result Fault (List Hash))
            → ((live : List Hash)
                → mark_all g fuel roots [] ≡ ok live
                → ((x : Hash) → IsLive g kind roots x → Keeps g (sweep_graph g (ok live)).0 x)
                  × ((x : Hash)
                      → ¬ IsLive g kind roots x
                      → (get_blob (sweep_graph g (ok live)).0 x ≡ none)
                        × (get_tree (sweep_graph g (ok live)).0 x ≡ none)))
            → mark_all g fuel roots [] ≡ r
            → (sweep_graph g r).1 ≡ ok n
            → ((x : Hash) → IsLive g kind roots x → Keeps g (sweep_graph g r).0 x)
              × ((x : Hash)
                  → ¬ IsLive g kind roots x
                  → (get_blob (sweep_graph g r).0 x ≡ none)
                    × (get_tree (sweep_graph g r).0 x ≡ none))
              × (size (sweep_graph g r).0 + n ≡ size g)
        done (err e) swept run h = cc
        done (ok live) swept run h =
            let (kept, gone) = swept live run in
            let count : dropped live g.blobs + dropped live g.trees ≡ n = ok_injective h in
            (kept, gone, omega (arith, count, length-keep live g.blobs, length-keep live g.trees))

-- Where `Retain` fails, nothing is dropped.
pub retain_refused :
    (g : Graph) (fuel : ℕ) (roots : List Hash) (e : Fault)
    → (retain fuel roots g).1 ≡ err e
    → (retain fuel roots g).0 ≡ g
unfolding retain
retain_refused g fuel roots e = refused (mark_all g fuel roots [])
  where
    refused : (r : Result Fault (List Hash)) → (sweep_graph g r).1 ≡ err e → (sweep_graph g r).0 ≡ g
    refused (ok live) h = cc
    refused (err x) h = refl
