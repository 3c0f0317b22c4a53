-- ===== src/Receive/Compare/Between.antt =====
-- What a comparison of two trees reports: at each path, how the leaf of the one differs from that of the other.
use treevial.Prelude.{
  Bool, true, false, not, Option, none, some, List, [], ◌∷◌, ◌++◌, Bytes, ◌≡◌, ◌⊎◌, refl, sym, ap,
  ◌∙◌, subst, arith, if◌then◌else◌, same_bytes, same_bytes_iff, Bool-cases, inl, inr, number_key,
  ==_refl,
}
use treevial.Prelude.Text.{ascii}
use treevial.Git.{Hash, TreeEntry, is_dir}
use treevial.Receive.Compare.{ChangeKind, added, modified, deleted, unmoved, swapped}
use treevial.Receive.Compare.Paths.{strip, under, leaf_entry}
use treevial.Receive.Compare.Emits.{below_name, only}
use treevial.Receive.Compare.Whole.{told, entry_changes}

-- How what is at a path in the older tree and in the newer one differ.
abbrev pub between : Option TreeEntry → Option TreeEntry → List (ChangeKind × TreeEntry)
between none none = []
between none (some e) = (added, e) ∷ []
between (some e) none = (deleted, e) ∷ []
between (some before) (some e) = if unmoved before e then [] else (modified, e) ∷ []

pub between_same : (o : Option TreeEntry) → between o o ≡ []
between_same none = refl
between_same (some e) = rw (==_refl e.hash, ==_refl e.mode) refl

pub between-none : (o : Option TreeEntry) → between none o ≡ told added o
between-none none = refl
between-none (some e) = refl

pub none-between : (o : Option TreeEntry) → between o none ≡ told deleted o
none-between none = refl
none-between (some e) = refl

between_apart :
    (a b : Option TreeEntry)
    → (a ≡ none) ⊎ (b ≡ none)
    → told deleted a ++ told added b ≡ between a b
between_apart none b h = sym (between-none b)
between_apart (some a) none h = refl
between_apart (some a) (some b) (inl h) = cc
between_apart (some a) (some b) (inr h) = cc

strip_own_slash : (n : Bytes) → strip (n ++ ascii "/") n ≡ none
strip_own_slash [] = refl
strip_own_slash (c ∷ n) = rw (==_refl c) (strip_own_slash n)

-- No path is that of a file and below a directory of the same name.
under_own :
    (n q : Bytes) (f : Bytes → Option TreeEntry) → same_bytes n q ≡ true → under n f q ≡ none
under_own n q f t =
    ap (under n f) (sym ((same_bytes_iff n q).0 t))
    ∙ ap (λ o. elim o [ none ↦ none | some rest ↦ f rest ]) (strip_own_slash n)

module _ (step : Hash → Bytes → Option TreeEntry) where
  -- What an entry has at a path, with its name and whether it is a directory given.
  abbrev leaf_named : Bytes → Bool → TreeEntry → Bytes → Option TreeEntry
  leaf_named n b e q =
      if b then under n (step e.hash) q else if same_bytes n q then some e else none

  -- An entry that has not moved has the same below it.
  pub unmoved-between :
      (before e : TreeEntry) (q : Bytes)
      → before.name ≡ e.name
      → unmoved before e ≡ true
      → between (leaf_entry step before q) (leaf_entry step e q) ≡ []
  unmoved-between before e q name same =
      ap (λ n. between (leaf_named n (is_dir before) before q) (leaf_entry step e q)) name
      ∙ at (is_dir before) (is_dir e) (ap (λ m. is_dir (record e { mode = m })) mode)
    where
      hash : before.hash ≡ e.hash
      hash = ground (arith, same)

      mode : before.mode ≡ e.mode
      mode = ground (arith, same)

      file :
          (b : Bool) → between (if b then some before else none) (if b then some e else none) ≡ []
      file true = rw same refl
      file false = refl

      at :
          (b c : Bool)
          → b ≡ c
          → between (leaf_named e.name b before q) (leaf_named e.name c e q) ≡ []
      at true true k =
          ap (λ h. between (under e.name (step h) q) (under e.name (step e.hash) q)) hash
          ∙ between_same (under e.name (step e.hash) q)
      at true false k = cc
      at false true k = cc
      at false false k = file (same_bytes e.name q)

  pub swapped-between :
      (before e : TreeEntry) (q : Bytes)
      → before.name ≡ e.name
      → swapped before e ≡ true
      → told deleted (leaf_entry step before q) ++ told added (leaf_entry step e q)
        ≡ between (leaf_entry step before q) (leaf_entry step e q)
  swapped-between before e q name swap =
      between_apart (leaf_entry step before q) (leaf_entry step e q) (
        subst (λ n. (leaf_named n (is_dir before) before q ≡ none) ⊎ (leaf_entry step e q ≡ none))
          (sym name) (at (is_dir before) (is_dir e) swap))
    where
      apart :
          (f : Bytes → Option TreeEntry) (d : TreeEntry)
          → (under e.name f q ≡ none) ⊎ ((if same_bytes e.name q then some d else none) ≡ none)
      apart f d = elim (Bool-cases (same_bytes e.name q)) [
        | inl t ↦ inl (under_own e.name q f t)
        | inr n ↦ inr (rw n refl)
      ]

      at :
          (b c : Bool)
          → (if b then not c else c) ≡ true
          → (leaf_named e.name b before q ≡ none) ⊎ (leaf_named e.name c e q ≡ none)
      at true true k = cc
      at true false k = apart (step before.hash) e
      at false true k = elim (apart (step e.hash) before) [ inl h ↦ inr h | inr h ↦ inl h ]
      at false false k = cc

  pub modified-between :
      (before e : TreeEntry) (q : Bytes)
      → before.name ≡ e.name
      → unmoved before e ≡ false
      → swapped before e ≡ false
      → entry_changes modified e (λ r. between (step before.hash r) (step e.hash r)) q
        ≡ between (leaf_entry step before q) (leaf_entry step e q)
  modified-between before e q name differ swap =
      at (is_dir before) (is_dir e) swap
      ∙ ap (λ n. between (leaf_named n (is_dir before) before q) (leaf_entry step e q)) (sym name)
    where
      file :
          (b : Bool)
          → only b (modified, e)
            ≡ between (if b then some before else none) (if b then some e else none)
      file true = rw differ refl
      file false = refl

      tree :
          (o : Option Bytes)
          → below_name (λ r. between (step before.hash r) (step e.hash r)) o
            ≡ between
                (elim o [ none ↦ none | some r ↦ step before.hash r ])
                (elim o [ none ↦ none | some r ↦ step e.hash r ])
      tree none = refl
      tree (some r) = refl

      at :
          (b c : Bool)
          → (if b then not c else c) ≡ false
          → (if c
              then below_name
                  (λ r. between (step before.hash r) (step e.hash r))
                  (strip (e.name ++ ascii "/") q)
              else only (same_bytes e.name q) (modified, e))
            ≡ between (leaf_named e.name b before q) (leaf_named e.name c e q)
      at true true k = tree (strip (e.name ++ ascii "/") q)
      at true false k = cc
      at false true k = cc
      at false false k = file (same_bytes e.name q)
