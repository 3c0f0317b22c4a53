-- ===== src/Receive/Retain/Live.antt =====
-- What `mark_all` collects: exactly what the roots reach, all of it held by the graph.
use treevial.Prelude.{
  ℕ, Bool, true, false, ◌||◌, List, [], ◌∷◌, Bytes, ok, and_then, if◌then◌else◌, ◌≡◌, ◌≢◌, refl,
  sym, ◌∙◌, subst, arith, All, All_map, has, Bool-cases, inl, inr, ==_iff, ok_injective, ◌==◌,
  number_key, Memᴰ,
}
use treevial.Git.{Hash, TreeEntry, is_zero, zero_hash}
use treevial.Objects.Walk.Follow.{follow_entries, follow}
use treevial.Objects.Walk.Reach.{Below, IsKinded}
use treevial.Objects.Walk.Marks.{
  and_then-eq-ok, IsMarking, follow-Explored, follow_entries-Explored, follow_keeps,
  follow_entries_keeps,
}
use treevial.Receive.Graph.{Graph, entries, content, mark, mark_all}
use treevial.Receive.Retain.Marks.{visit_kinded, mark-eq-follow}

-- An object below one of the roots, the zero hash left out.
pub record IsLive (g : Graph) (kind : Hash → Bool) (roots : List Hash) (x : Hash) : Type 0 where
  pub root : Hash
  pub named : Memᴰ root roots
  pub nonzero : root ≢ zero_hash
  pub reached : Below (entries g) kind root x

module _ (g : Graph) (kind : Hash → Bool) (kinded : IsKinded (entries g) kind) where
  visit_kinded-IsMarking : IsMarking (visit_kinded g kind) has
  visit_kinded-IsMarking = record {
    stops = λ h v m. rw m refl;
    marks = λ h v seen n e. marked h v seen n (rw n at e);
  }
    where
      marked :
          (h : Hash) (v : List Hash) (seen : Bool × List Hash)
          → has v h ≡ false
          → and_then (if kind h then ok [] else content g h) (λ _. ok (true, h ∷ v)) ≡ ok seen
          → (seen.0 ≡ true) × ((x : Hash) → has seen.1 x ≡ (h == x || has v x))
      marked h v seen n e =
          let (_, _, run) =
            and_then-eq-ok (if kind h then ok [] else content g h) (λ _. ok (true, h ∷ v)) e in
          let same : (true, h ∷ v) ≡ seen = ok_injective run in
          subst (λ seen. (seen.0 ≡ true) × ((x : Hash) → has seen.1 x ≡ (h == x || has v x))) same
            (refl, λ x. refl)

  -- Every marked blob is held.
  abbrev HoldsBlobs : List Hash → Type 0
  HoldsBlobs live =
      (x : Hash) → has live x ≡ true → kind x ≡ false → (c : Bytes) × (content g x ≡ ok c)

  HoldsBlobs-cons :
      (h : Hash) (live : List Hash)
      → (kind h ≡ false → (c : Bytes) × (content g h ≡ ok c))
      → HoldsBlobs live
      → HoldsBlobs (h ∷ live)
  HoldsBlobs-cons h live new old x m k = elim (Bool-cases (h == x)) [
    | inl e ↦
        let same = (==_iff h x).0 e in
        subst (λ y. (c : Bytes) × (content g y ≡ ok c)) same
          (new (subst (λ y. kind y ≡ false) (sym same) k))
    | inr e ↦ old x (ground arith) k
  ]

  visit_kinded_keeps :
      (h : Hash) (v : List Hash) (seen : Bool × List Hash)
      → HoldsBlobs v
      → visit_kinded g kind h v ≡ ok seen
      → HoldsBlobs seen.1
  visit_kinded_keeps h v seen held e = elim (Bool-cases (has v h)) [
    | inl m ↦ subst (λ s. HoldsBlobs s.1) (ok_injective {a = (false, v)} (rw m at e)) held
    | inr n ↦
        let (_, found, run) =
          and_then-eq-ok (if kind h then ok [] else content g h) (λ _. ok (true, h ∷ v))
            (rw n at e) in
        subst (λ s. HoldsBlobs s.1) (ok_injective {a = (true, h ∷ v)} run)
          (HoldsBlobs-cons h v (λ k. (_, rw k at found)) held)
  ]

  module _ (P : Hash → Type 0)
      (hand_on : (x : Hash) (es : List TreeEntry)
        → P x
        → kind x ≡ true
        → entries g x ≡ ok es
        → All (λ e. P e.hash) es) where
    -- The marks are closed below, sound, and held.
    pub record IsMarked (live : List Hash) : Type 0 where
      pub closed :
          (x : Hash)
          → has live x ≡ true
          → kind x ≡ true
          → (es : List TreeEntry) × (entries g x ≡ ok es) × All (λ e. has live e.hash ≡ true) es
      pub sound : (x : Hash) → has live x ≡ true → P x
      pub blobs : HoldsBlobs live

    All_kept :
        (v w : List Hash) (es : List TreeEntry)
        → ((x : Hash) → has v x ≡ true → has w x ≡ true)
        → All (λ e. has v e.hash ≡ true) es
        → All (λ e. has w e.hash ≡ true) es
    All_kept v w es keeps =
        All_map (λ e. has v e.hash ≡ true) (λ e. has w e.hash ≡ true) es (λ e. keeps e.hash)

    pub mark-IsMarked :
        (fuel : ℕ) (root : Hash) (live w : List Hash)
        → kind root ≡ true
        → P root
        → IsMarked live
        → mark g fuel root live ≡ ok w
        → IsMarked w × (has w root ≡ true) × ((x : Hash) → has live x ≡ true → has w x ≡ true)
    mark-IsMarked fuel root live w t p marked run =
        let (es, read, rest) =
          and_then-eq-ok (entries g root)
            (λ es. follow_entries (follow (visit_kinded g kind) (entries g) fuel) es (root ∷ live))
            (sym (mark-eq-follow g kind kinded fuel root live) ∙ run) in
        let (ex, all) =
          follow_entries-Explored (entries g) kind kinded P hand_on (visit_kinded g kind) has
            visit_kinded-IsMarking (follow (visit_kinded g kind) (entries g) fuel)
            (follow-Explored (entries g) kind kinded P hand_on (visit_kinded g kind) has
              visit_kinded-IsMarking fuel)
            es (root ∷ live) w (kinded root es read) (hand_on root es p t read) rest in
        let stored =
          follow_entries_keeps (visit_kinded g kind) HoldsBlobs visit_kinded_keeps (entries g)
            (follow (visit_kinded g kind) (entries g) fuel)
            (follow_keeps (visit_kinded g kind) HoldsBlobs visit_kinded_keeps (entries g) fuel) es
            (root ∷ live) w (HoldsBlobs-cons root live (λ k. cc (t, k)) marked.blobs) rest in
        (
          record {
            closed = λ x m k. elim (Bool-cases (root == x)) [
              | inl e ↦
                  subst
                    (λ y.
                      (es : List TreeEntry) × (entries g y ≡ ok es)
                      × All (λ e. has w e.hash ≡ true) es)
                    ((==_iff root x).0 e) (es, read, all)
              | inr e ↦ elim (Bool-cases (has live x)) [
                | inl old ↦
                    let (es', read', all') = marked.closed x old k in
                    (es', read', All_kept live w es' (λ y n. ex.keeps y (ground arith)) all')
                | inr new ↦ ex.closed x (ground arith) m k
              ]
            ];
            sound = λ x m. elim (Bool-cases (root == x)) [
              | inl e ↦ subst P ((==_iff root x).0 e) p
              | inr e ↦ elim (Bool-cases (has live x)) [
                | inl old ↦ marked.sound x old
                | inr new ↦ ex.sound x (ground arith) m
              ]
            ];
            blobs = stored;
          },
          ex.keeps root (ground (arith, ==_iff root root)),
          λ x n. ex.keeps x (ground arith),
        )

    -- The roots, one after another.
    pub mark_all-IsMarked :
        (fuel : ℕ) (roots live w : List Hash)
        → All (λ r. r ≢ zero_hash → (kind r ≡ true) × P r) roots
        → IsMarked live
        → mark_all g fuel roots live ≡ ok w
        → IsMarked w
          × ((x : Hash) → has live x ≡ true → has w x ≡ true)
          × All (λ r. r ≢ zero_hash → has w r ≡ true) roots
    unfolding mark_all
    mark_all-IsMarked fuel [] live w good marked run =
        subst (λ l. IsMarked l × ((x : Hash) → has live x ≡ true → has l x ≡ true) × Unit {0})
          (ok_injective run) (marked, λ x m. m, tt)
    mark_all-IsMarked fuel (r ∷ roots) live w good marked run =
        let (u, first, rest) =
          and_then-eq-ok (if is_zero r then ok live else mark g fuel r live) (mark_all g fuel roots)
            run in
        elim (Bool-cases (is_zero r)) [
          | inl z ↦
              let same : live ≡ u = ok_injective (rw z at first) in
              let (m, keeps, all) =
                mark_all-IsMarked fuel roots live w good.1 marked
                  (subst (λ l. mark_all g fuel roots l ≡ ok w) (sym same) rest) in
              (m, keeps, (λ nz. absurd (nz ((==_iff r zero_hash).0 z)), all))
          | inr nz ↦
              let (t, p) = good.0 (λ e. cc ((==_iff r zero_hash).1 e, nz)) in
              let (m, root, keeps) = mark-IsMarked fuel r live u t p marked (rw nz at first) in
              let (m', keeps', all) = mark_all-IsMarked fuel roots u w good.1 m rest in
              (m', λ x n. keeps' x (keeps x n), (λ _. keeps' r root, all))
        ]
