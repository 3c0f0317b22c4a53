-- ===== src/Receive/Compare/Paths.antt =====
-- Paths as texts: what stands at a path below a tree.
use mathlib.Core.List.{append_assoc}
use treevial.Prelude.{
  ℕ, zero, suc, true, false, Option, none, some, List, [], ◌∷◌, ◌++◌, Bytes, ◌≡◌, refl, sym, ap,
  ◌∙◌, subst, arith, if◌then◌else◌, ◌==◌, ==_refl, same_bytes, same_bytes_iff, has, Bool-cases, inl,
  inr, ◌⊎◌, bytes_key, number_key,
}
use treevial.Prelude.Maps.{Map, lookup, insert, lookup-insert}
use treevial.Prelude.Text.{ascii}
use treevial.Git.{Hash, TreeEntry, is_dir}
use treevial.Receive.Graph.{Graph}
use treevial.Receive.Compare.{index, ordered}

-- What follows a text in a longer one.
abbrev pub strip : Bytes → Bytes → Option Bytes
strip [] p = some p
strip (c ∷ s) [] = none
strip (c ∷ s) (d ∷ p) = let rest = strip s p in if c == d then rest else none

pub strip-append : (s a q : Bytes) → strip (s ++ a) (s ++ q) ≡ strip a q
strip-append [] a q = refl
strip-append (c ∷ s) a q = rw (==_refl c) (strip-append s a q)

pub strip-some : (s p q : Bytes) → strip s p ≡ some q → p ≡ s ++ q
strip-some [] p q h = cc
strip-some (c ∷ s) [] q h = cc
strip-some (c ∷ s) (d ∷ p) q h = ground (arith, strip-some s p q)

-- The first part of a path.
abbrev pub first_part : Bytes → Bytes
first_part [] = []
first_part (c ∷ p) = let rest = first_part p in if c == b'/' then [] else c ∷ rest

pub first_part-name : (n : Bytes) → has n b'/' ≡ false → first_part n ≡ n
first_part-name [] h = refl
first_part-name (c ∷ n) h = ground (arith, first_part-name n)

pub first_part-append : (n q : Bytes) → has n b'/' ≡ false → first_part (n ++ b'/' ∷ q) ≡ n
first_part-append [] q h = refl
first_part-append (c ∷ n) q h = ground (arith, first_part-append n q)

abbrev pub or_else {ℓ} : {A : Type ℓ} → Option A → Option A → Option A
or_else none b = b
or_else (some a) b = some a

abbrev pub find_name : Bytes → List TreeEntry → Option TreeEntry
find_name n [] = none
find_name n (e ∷ es) = if same_bytes e.name n then some e else find_name n es

-- The names in a tree are distinct, and none holds a slash.
abbrev pub HasNames : List TreeEntry → Type 0
HasNames [] = Unit
HasNames (e ∷ es) = (find_name e.name es ≡ none) × (has e.name b'/' ≡ false) × HasNames es

pub lookup-index :
    (n : Bytes) (es : List TreeEntry) (m : Map Bytes TreeEntry)
    → HasNames es
    → lookup n (index es m) ≡ or_else (find_name n es) (lookup n m)
lookup-index n [] m h = refl
lookup-index n (e ∷ es) m h =
    lookup-index n es (insert e.name e m) h.2
    ∙ ap (or_else (find_name n es)) (lookup-insert e.name n e m)
    ∙ chosen (Bool-cases (same_bytes e.name n))
  where
    chosen :
        (same_bytes e.name n ≡ true) ⊎ (same_bytes e.name n ≡ false)
        → or_else (find_name n es) (if same_bytes e.name n then some e else lookup n m)
          ≡ or_else (if same_bytes e.name n then some e else find_name n es) (lookup n m)
    chosen (inl t) =
        let none_left : find_name n es ≡ none =
          subst (λ k. find_name k es ≡ none) ((same_bytes_iff e.name n).0 t) h.0 in
        rw (t, none_left) refl
    chosen (inr f) = rw f refl

-- Below a directory of this name.
abbrev pub under {ℓ} : {A : Type ℓ} → Bytes → (Bytes → Option A) → Bytes → Option A
under n f q = elim (strip (n ++ ascii "/") q) [ none ↦ none | some rest ↦ f rest ]

abbrev pub leaf_entry : (Hash → Bytes → Option TreeEntry) → TreeEntry → Bytes → Option TreeEntry
leaf_entry step e q =
    if is_dir e then under e.name (step e.hash) q else if same_bytes e.name q then some e else none

abbrev pub leaf_entries :
    (Hash → Bytes → Option TreeEntry) → List TreeEntry → Bytes → Option TreeEntry
leaf_entries step [] q = none
leaf_entries step (e ∷ es) q = or_else (leaf_entry step e q) (leaf_entries step es q)

-- The entry of the blob at a path below a tree; the zero hash is an empty tree.
unfoldable pub leaf_at : Graph → ℕ → Hash → Bytes → Option TreeEntry
leaf_at g zero h q = none
leaf_at g (suc fuel) h q = leaf_entries (leaf_at g fuel) (ordered g h) q

-- An entry has something at a path only if the path begins with its name.
pub leaf_entry-other :
    (step : Hash → Bytes → Option TreeEntry) (e : TreeEntry) (q : Bytes)
    → has e.name b'/' ≡ false
    → same_bytes e.name (first_part q) ≡ false
    → leaf_entry step e q ≡ none
leaf_entry-other step e q clean other = elim (Bool-cases (is_dir e)) [
  | inl d ↦ rw d (apart (strip (e.name ++ ascii "/") q) refl)
  | inr f ↦ rw f (elim (Bool-cases (same_bytes e.name q)) [
    | inl t ↦
        let same : e.name ≡ q = (same_bytes_iff e.name q).0 t in
        let first : first_part q ≡ e.name =
          subst (λ k. first_part k ≡ e.name) same (first_part-name e.name clean) in
        absurd (cc ((same_bytes_iff e.name (first_part q)).1 (sym first), other))
    | inr n ↦ rw n refl
  ])
]
  where
    apart :
        (o : Option Bytes)
        → strip (e.name ++ ascii "/") q ≡ o
        → elim o [ none ↦ none | some rest ↦ step e.hash rest ] ≡ none
    apart none s = refl
    apart (some rest) s =
        let whole : q ≡ (e.name ++ ascii "/") ++ rest = strip-some (e.name ++ ascii "/") q rest s in
        let first : first_part q ≡ e.name =
          ap first_part (whole ∙ append_assoc e.name (ascii "/") rest)
          ∙ first_part-append e.name rest clean in
        absurd (cc ((same_bytes_iff e.name (first_part q)).1 (sym first), other))

abbrev pub at_entry :
    (Hash → Bytes → Option TreeEntry) → Option TreeEntry → Bytes → Option TreeEntry
at_entry step none q = none
at_entry step (some e) q = leaf_entry step e q

-- So the entry that its first part names decides what stands at a path.
pub leaf_entries-find_name :
    (step : Hash → Bytes → Option TreeEntry) (es : List TreeEntry) (q : Bytes)
    → HasNames es
    → leaf_entries step es q ≡ at_entry step (find_name (first_part q) es) q
leaf_entries-find_name step [] q h = refl
leaf_entries-find_name step (e ∷ es) q h = elim (Bool-cases (same_bytes e.name (first_part q))) [
  | inl t ↦
      let gone : find_name (first_part q) es ≡ none =
        subst (λ k. find_name k es ≡ none) ((same_bytes_iff e.name (first_part q)).0 t) h.0 in
      ap (or_else (leaf_entry step e q))
        (leaf_entries-find_name step es q h.2 ∙ ap (λ o. at_entry step o q) gone)
      ∙ or_else-none (leaf_entry step e q)
      ∙ rw t refl
  | inr f ↦
      ap (λ o. or_else o (leaf_entries step es q)) (leaf_entry-other step e q h.1 f)
      ∙ leaf_entries-find_name step es q h.2
      ∙ rw f refl
]
  where
    or_else-none : (o : Option TreeEntry) → or_else o none ≡ o
    or_else-none none = refl
    or_else-none (some a) = refl
