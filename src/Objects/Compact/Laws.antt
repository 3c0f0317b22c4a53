-- ===== src/Objects/Compact/Laws.antt =====
-- The store that `Compact` gives.
use treevial.Prelude.{
  ℕ, Bool, true, false, List, [], ◌∷◌, ok, pure, if◌then◌else◌, has, ◌≡◌, ◌≢◌, refl, sym, ap, ◌∙◌,
  subst, All, All_map, Memᴰ, Bool-cases, inl, inr, ==_iff, ok_injective, number_key,
}
use treevial.Git.{Git, Hash, zero_hash, is_zero, TreeEntry}
use treevial.Objects.Store.{Store}
use treevial.Objects.Walk.{walk}
use treevial.Objects.Walk.Follow.{Trees, follow}
use treevial.Objects.Walk.Reach.{Below, IsKinded}
use treevial.Objects.Walk.Refine.{view, Shows, walk-Runs}
use treevial.Objects.Walk.Marks.{Explored, follow-Explored, follow_keeps}
use treevial.Objects.Compact.{Compacting, visit_compact, compact_roots}
use treevial.Objects.Compact.Copies.{
  IsCopying, then_run-ok, IsCopied, visit_compact-IsMarking, visit_compact_keeps,
}

-- An object below one of the roots, the zero hash left out.
pub record IsRetained (trees : Trees) (kind : Hash → Bool) (roots : List Hash) (x : Hash)
    : Type 0 where
  pub root : Hash
  pub named : Memᴰ root roots
  pub nonzero : root ≢ zero_hash
  pub reached : Below trees kind root x

module _ (g : Git) (copying : IsCopying g) (s : Store g) (kind : Hash → Bool)
    (kinded : IsKinded (view g s) kind) where
  abbrev is_live : Compacting g → Hash → Bool
  is_live c = has c.live

  module _ (P : Hash → Type 0)
      (hand_on : (x : Hash) (es : List TreeEntry)
        → P x
        → kind x ≡ true
        → view g s x ≡ ok es
        → All (λ e. P e.hash) es) where
    -- What is live is closed below, sound, and copied.
    pub record IsTaken (c : Compacting g) : Type 0 where
      pub closed :
          (x : Hash)
          → has c.live x ≡ true
          → kind x ≡ true
          → (es : List TreeEntry) × (view g s x ≡ ok es) × All (λ e. has c.live e.hash ≡ true) es
      pub sound : (x : Hash) → has c.live x ≡ true → P x
      pub copies : IsCopied g copying s c

    Explored-IsTaken :
        (c d : Compacting g)
        → IsTaken c
        → Explored (view g s) kind P is_live c d
        → IsCopied g copying s d
        → IsTaken d
    Explored-IsTaken c d t ex i = record {
      closed = λ x m k. elim (Bool-cases (has c.live x)) [
        | inl old ↦
            let (es, read, all) = t.closed x old k in
            (
              es,
              read,
              All_map (λ e. has c.live e.hash ≡ true) (λ e. has d.live e.hash ≡ true) es
                  (λ e. ex.keeps e.hash) all,
            )
        | inr new ↦ ex.closed x new m k
      ];
      sound = λ x m. elim (Bool-cases (has c.live x)) [
        | inl old ↦ t.sound x old
        | inr new ↦ ex.sound x new m
      ];
      copies = i;
    }

    -- What one root, or all of them, leave.
    pub record Took (roots : List Hash) (c d : Compacting g) (u : Store g) : Type 0 where
      pub shows : Shows g (view g s) s.storage u
      pub taken : IsTaken d
      pub keeps : (x : Hash) → has c.live x ≡ true → has d.live x ≡ true
      pub roots_live : All (λ r. r ≢ zero_hash → has d.live r ≡ true) roots

    walk-IsTaken :
        (fuel : ℕ) (root : Hash) (c d : Compacting g) (u : Store g)
        → kind root ≡ true
        → P root
        → Shows g (view g s) s.storage u
        → IsTaken c
        → (walk g (visit_compact g s) fuel root c u).1 ≡ ok d
        → Took (root ∷ []) c d (walk g (visit_compact g s) fuel root c u).0
    walk-IsTaken fuel root c d u k p shows t run =
        let runs = walk-Runs g (view g s) s.storage (visit_compact g s) fuel root c u shows in
        let follows = sym runs.result ∙ run in
        let (ex, m) =
          follow-Explored (view g s) kind kinded P hand_on (visit_compact g s) is_live
            (visit_compact-IsMarking g copying s) fuel root c d p
            (subst (λ b. follow (visit_compact g s) (view g s) fuel root b c ≡ ok d) (sym k)
              follows) in
        record {
          shows = runs.shows;
          taken = Explored-IsTaken c d t ex (
              follow_keeps (visit_compact g s) (IsCopied g copying s)
                (visit_compact_keeps g copying s) (view g s) fuel root true c d t.copies follows);
          keeps = ex.keeps;
          roots_live = (λ _. m, tt);
        }

    one_root :
        (fuel : ℕ) (root : Hash) (c d : Compacting g) (u : Store g)
        → (root ≢ zero_hash → (kind root ≡ true) × P root)
        → Shows g (view g s) s.storage u
        → IsTaken c
        → ((if is_zero root then pure c else walk g (visit_compact g s) fuel root c) u).1 ≡ ok d
        → Took
            (root ∷ [])
            c
            d
            ((if is_zero root then pure c else walk g (visit_compact g s) fuel root c) u).0
    one_root fuel root c d u good shows t run = at (is_zero root) refl run
      where
        at :
            (b : Bool)
            → is_zero root ≡ b
            → ((if b then pure c else walk g (visit_compact g s) fuel root c) u).1 ≡ ok d
            → Took
                (root ∷ [])
                c
                d
                ((if b then pure c else walk g (visit_compact g s) fuel root c) u).0
        at true z run =
            subst (λ e. Took (root ∷ []) c e u) (ok_injective run)
              (record {
                shows = shows;
                taken = t;
                keeps = λ x m. m;
                roots_live = (λ nz. absurd (nz ((==_iff root zero_hash).0 z)), tt);
              })
        at false nz run =
            let (k, p) = good (λ e. cc ((==_iff root zero_hash).1 e, nz)) in
            walk-IsTaken fuel root c d u k p shows t run

    pub compact_roots-Took :
        (fuel : ℕ) (roots : List Hash) (c d : Compacting g) (u v : Store g)
        → All (λ r. r ≢ zero_hash → (kind r ≡ true) × P r) roots
        → Shows g (view g s) s.storage u
        → IsTaken c
        → compact_roots g s fuel roots c u ≡ (v, ok d)
        → Took roots c d v
    unfolding compact_roots
    compact_roots-Took fuel [] c d u v good shows t run =
        let same : u ≡ v = ap (λ r. r.0) run in
        let ended : c ≡ d = ok_injective (ap (λ r. r.1) run) in
        subst (λ v. Took [] c d v) same
          (subst (λ d. Took [] c d u) ended
            (record { shows = shows; taken = t; keeps = λ x m. m; roots_live = tt }))
    compact_roots-Took fuel (root ∷ roots) c d u v good shows t run =
        let first = (if is_zero root then pure c else walk g (visit_compact g s) fuel root c) u in
        let (e, ran, rest) = then_run-ok first.0 v first.1 (compact_roots g s fuel roots) run in
        let one = one_root fuel root c e u good.0 shows t ran in
        let more = compact_roots-Took fuel roots e d first.0 v good.1 one.shows one.taken rest in
        record {
          shows = more.shows;
          taken = more.taken;
          keeps = λ x m. more.keeps x (one.keeps x m);
          roots_live = (λ nz. more.keeps root (one.roots_live.0 nz), more.roots_live);
        }
