-- ===== src/Objects/Compact/Copies.antt =====
-- What `Compact` copies: exactly what the roots reach.
use treevial.Prelude.{
  Bool, true, false, ◌||◌, Option, none, some, ◌∷◌, Result, ok, err, Exec, then_run, if◌then◌else◌,
  has, ◌≡◌, refl, sym, ap, ◌∙◌, subst, arith, Bool-cases, inl, inr, ◌==◌, ==_iff, ok_injective,
  number_key,
}
use treevial.Git.{Git, Hash, ObjectType, any_object}
use treevial.Objects.Store.{
  Fault, missing, not_stored, Store, encoded_object, set_encoded_object, or_fault,
}
use treevial.Objects.Walk.Marks.{and_then-eq-ok, IsMarking}
use treevial.Objects.Compact.{Compacting, taken, visit_compact}

-- A new storage is empty, and an object that was read at a hash is stored at that hash, as what it was.
pub record IsCopying (g : Git) : Type 0 where
  pub empty : (t : ObjectType) (h : Hash) → g.find g.new_storage t h ≡ none
  pub copied :
      (m m' m'' : g.Storage) (o : g.Encoded) (h k : Hash)
      → g.find m any_object h ≡ some o
      → g.set_object m' o ≡ some (m'', k)
      → (t : ObjectType) (j : Hash)
      → g.find m'' t j ≡ (if h == j then g.find m t j else g.find m' t j)

pub then_run-ok :
    {S A B : Type 0} (u u' : S) (r : Result Fault A) (f : A → Exec S Fault B) {b : B}
    → then_run u r f ≡ (u', ok b)
    → (a : A) × (r ≡ ok a) × (f a u ≡ (u', ok b))
then_run-ok u u' (ok a) f h = (a, refl, h)
then_run-ok u u' (err e) f h = cc

module _ (g : Git) (copying : IsCopying g) (s : Store g) where
  -- The new store holds what is live, as the old one does, and nothing else.
  pub record IsCopied (c : Compacting g) : Type 0 where
    pub same :
        (t : ObjectType) (x : Hash)
        → g.find c.out.storage t x ≡ (if has c.live x then g.find s.storage t x else none)
    pub found :
        (x : Hash)
        → has c.live x ≡ true
        → (o : g.Encoded) × (g.find s.storage any_object x ≡ some o)

  found_at :
      (h : Hash) (o : g.Encoded)
      → encoded_object g s any_object h ≡ ok o
      → g.find s.storage any_object h ≡ some o
  found_at h o e = ok_of (g.find s.storage any_object h) e
    where
      ok_of : (r : Option g.Encoded) → or_fault r (missing h) ≡ ok o → r ≡ some o
      ok_of none e = cc
      ok_of (some a) e = cc

  -- What the visitor did with an object that was not live.
  pub record Visited (h : Hash) (c : Compacting g) (seen : Bool × Compacting g) : Type 0 where
    pub goes_on : seen.0 ≡ true
    pub object : g.Encoded
    pub read : g.find s.storage any_object h ≡ some object
    pub live_now : seen.1.live ≡ h ∷ c.live
    pub stored : Hash
    pub put : g.set_object c.out.storage object ≡ some (seen.1.out.storage, stored)

  visit_compact-Visited :
      (h : Hash) (c : Compacting g) (seen : Bool × Compacting g)
      → has c.live h ≡ false
      → visit_compact g s h c ≡ ok seen
      → Visited h c seen
  visit_compact-Visited h c seen n e =
      let (o, read, rest) =
        and_then-eq-ok (encoded_object g s any_object h)
          (λ obj. taken g h c.live (set_encoded_object g obj c.out)) (rw n at e) in
      at o (found_at h o read) (g.set_object c.out.storage o) refl
        (unfold set_encoded_object in rest)
    where
      at :
          (o : g.Encoded)
          → g.find s.storage any_object h ≡ some o
          → (r : Option (g.Storage × Hash)) → g.set_object c.out.storage o ≡ r
          → taken g h c.live (elim r [
            | none ↦ (c.out, err not_stored)
            | some (storage', k) ↦ (record c.out { storage = storage' }, ok k)
          ])
            ≡ ok seen
          → Visited h c seen
      at o read none put e = cc
      at o read (some (m, k)) put e = subst (Visited h c) (ok_injective e) (record {
        goes_on = refl;
        object = o;
        read = read;
        live_now = refl;
        stored = k;
        put = put;
      })

  pub visit_compact-IsMarking : IsMarking (visit_compact g s) (λ c. has c.live)
  visit_compact-IsMarking = record {
    stops = λ h c m. rw m refl;
    marks = λ h c seen n e.
        let v = visit_compact-Visited h c seen n e in
        (v.goes_on, λ x. ap (λ l. has l x) v.live_now);
  }

  Visited-IsCopied :
      (h : Hash) (c : Compacting g) (seen : Bool × Compacting g)
      → Visited h c seen
      → IsCopied c
      → IsCopied seen.1
  Visited-IsCopied h c seen v i = record {
    same = λ t x.
        copying.copied s.storage c.out.storage seen.1.out.storage v.object h v.stored v.read v.put t
          x
        ∙ ap (λ r. if h == x then g.find s.storage t x else r) (i.same t x)
        ∙ split (h == x) (has c.live x) (g.find s.storage t x)
        ∙ ap (λ l. if has l x then g.find s.storage t x else none) (sym v.live_now);
    found = λ x m. elim (Bool-cases (h == x)) [
      | inl e ↦
          subst (λ y. (o : g.Encoded) × (g.find s.storage any_object y ≡ some o)) ((==_iff h x).0 e)
            (v.object, v.read)
      | inr e ↦ i.found x (
          let q : has (h ∷ c.live) x ≡ true = subst (λ l. has l x ≡ true) v.live_now m in
          ground arith)
    ];
  }
    where
      split :
          (a b : Bool) (r : Option g.Encoded)
          → (if a then r else (if b then r else none)) ≡ (if a || b then r else none)
      split true b r = refl
      split false b r = refl

  pub visit_compact_keeps :
      (h : Hash) (c : Compacting g) (seen : Bool × Compacting g)
      → IsCopied c
      → visit_compact g s h c ≡ ok seen
      → IsCopied seen.1
  visit_compact_keeps h c seen i e = elim (Bool-cases (has c.live h)) [
    | inl m ↦ subst (λ r. IsCopied r.1) (ok_injective {a = (false, c)} (rw m at e)) i
    | inr n ↦ Visited-IsCopied h c seen (visit_compact-Visited h c seen n e) i
  ]
