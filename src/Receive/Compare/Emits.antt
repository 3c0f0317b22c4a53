-- ===== src/Receive/Compare/Emits.antt =====
-- Comparisons as what they report at each path.
use mathlib.Core.List.{append_assoc, map-append}
use treevial.Prelude.{
  Bool, true, false, Option, none, some, List, [], ◌∷◌, ◌++◌, map, Bytes, Result, ok, and_then, ◌≡◌,
  refl, sym, ap, ◌∙◌, arith, if◌then◌else◌, same_bytes, same_bytes_iff, ==_refl, Bool-cases, inl,
  inr, ok_injective,
}
use treevial.Prelude.Text.{ascii}
use treevial.Git.{TreeEntry}
use treevial.Objects.Store.{Fault}
use treevial.Objects.Walk.Marks.{and_then-eq-ok}
use treevial.Receive.Graph.{Graph, get_blob}
use treevial.Receive.Compare.{ChangeKind, added, modified, deleted, Change}
use treevial.Receive.Compare.Paths.{strip, strip-some}

-- The changes at a path.
abbrev pub at_path : Bytes → List Change → List Change
at_path p [] = []
at_path p (c ∷ cs) = if same_bytes c.path p then c ∷ at_path p cs else at_path p cs

pub at_path-append :
    (p : Bytes) (cs ds : List Change) → at_path p (cs ++ ds) ≡ at_path p cs ++ at_path p ds
at_path-append p [] ds = refl
at_path-append p (c ∷ cs) ds = elim (Bool-cases (same_bytes c.path p)) [
  | inl t ↦ rw t (ap (λ l. c ∷ l) (at_path-append p cs ds))
  | inr f ↦ rw f (at_path-append p cs ds)
]

-- A step adds to the changes so far, at each path what `F` says.
abbrev pub Emits : (Bytes → List Change) → (List Change → Result Fault (List Change)) → Type 0
Emits F run =
    (out after : List Change)
    → run out ≡ ok after
    → (cs : List Change) × (after ≡ out ++ cs) × ((p : Bytes) → at_path p cs ≡ F p)

append-empty : (out : List Change) → out ≡ out ++ []
append-empty [] = refl
append-empty (c ∷ out) = ap (λ l. c ∷ l) (append-empty out)

pub Emits-nothing : Emits (λ p. []) (λ out. ok out)
Emits-nothing out after e = ([], sym (ok_injective e) ∙ append-empty out, λ p. refl)

pub Emits-same :
    {F G : Bytes → List Change} {run : List Change → Result Fault (List Change)}
    → Emits F run
    → ((p : Bytes) → F p ≡ G p)
    → Emits G run
Emits-same emits same out after e =
    let (cs, grown, at) = emits out after e in (cs, grown, λ p. at p ∙ same p)

pub Emits-then :
    {F G : Bytes → List Change} {first second : List Change → Result Fault (List Change)}
    → Emits F first
    → Emits G second
    → Emits (λ p. F p ++ G p) (λ out. and_then (first out) second)
Emits-then {F = F} {first = first} {second = second} f g out after e =
    let (mid, one, two) = and_then-eq-ok (first out) second e in
    let (cs, grown, at) = f out mid one in
    let (ds, more, at') = g mid after two in
    (
      cs ++ ds,
      more ∙ ap (λ l. l ++ ds) grown ∙ append_assoc out cs ds,
      λ p. at_path-append p cs ds ∙ ap (λ l. l ++ at_path p ds) (at p) ∙ ap (λ l. F p ++ l) (at' p),
    )

-- What a kind of change and an entry say of a path; a deletion has no content.
abbrev pub new_content : Graph → ChangeKind → TreeEntry → Option Bytes
new_content g deleted e = none
new_content g added e = get_blob g e.hash
new_content g modified e = get_blob g e.hash

abbrev pub change_at : Graph → Bytes → ChangeKind × TreeEntry → Change
change_at g p (k, e) = record { kind = k; path = p; hash = e.hash; content = new_content g k e }

abbrev pub made_rest :
    Graph → Bytes → (Bytes → List (ChangeKind × TreeEntry)) → Option Bytes → List Change
made_rest g p f none = []
made_rest g p f (some q) = map (change_at g p) (f q)

-- The changes below a prefix, from what there is below it.
abbrev pub made : Graph → Bytes → (Bytes → List (ChangeKind × TreeEntry)) → Bytes → List Change
made g prefix f p = made_rest g p f (strip prefix p)

pub made_same :
    (g : Graph) (prefix : Bytes) (f f' : Bytes → List (ChangeKind × TreeEntry))
    → ((q : Bytes) → f q ≡ f' q)
    → (p : Bytes) → made g prefix f p ≡ made g prefix f' p
made_same g prefix f f' same p = at (strip prefix p)
  where
    at : (o : Option Bytes) → made_rest g p f o ≡ made_rest g p f' o
    at none = refl
    at (some q) = ap (map (change_at g p)) (same q)

pub made-append :
    (g : Graph) (prefix : Bytes) (f f' : Bytes → List (ChangeKind × TreeEntry)) (p : Bytes)
    → made g prefix f p ++ made g prefix f' p ≡ made g prefix (λ q. f q ++ f' q) p
made-append g prefix f f' p = at (strip prefix p)
  where
    at :
        (o : Option Bytes)
        → made_rest g p f o ++ made_rest g p f' o ≡ made_rest g p (λ q. f q ++ f' q) o
    at none = refl
    at (some q) = sym (map-append (change_at g p) (f q) (f' q))

pub made_nothing : (g : Graph) (prefix p : Bytes) → made g prefix (λ q. []) p ≡ []
made_nothing g prefix p = at (strip prefix p)
  where
    at : (o : Option Bytes) → made_rest g p (λ q. []) o ≡ []
    at none = refl
    at (some q) = refl

-- Below a directory: the path of the directory, the name and a slash are stripped one by one.
abbrev pub below_name {ℓ} : {A : Type ℓ} → (Bytes → List A) → Option Bytes → List A
below_name f none = []
below_name f (some rest) = f rest

pub made_below :
    (g : Graph) (prefix name : Bytes) (f : Bytes → List (ChangeKind × TreeEntry)) (p : Bytes)
    → made g ((prefix ++ name) ++ ascii "/") f p
      ≡ made g prefix (λ q. below_name f (strip (name ++ ascii "/") q)) p
made_below g prefix name f p =
    ap (λ s. made g s f p) (append_assoc prefix name (ascii "/")) ∙ at prefix p
  where
    at :
        (s t : Bytes)
        → made_rest g p f (strip (s ++ (name ++ ascii "/")) t)
          ≡ made_rest g p (λ q. below_name f (strip (name ++ ascii "/") q)) (strip s t)
    at [] t = last (strip (name ++ ascii "/") t)
      where
        last : (o : Option Bytes) → made_rest g p f o ≡ map (change_at g p) (below_name f o)
        last none = refl
        last (some q) = refl
    at (c ∷ s) [] = refl
    at (c ∷ s) (d ∷ t) = ground (arith, at s t)

-- One change at a path.
abbrev pub only {ℓ} : {A : Type ℓ} → Bool → A → List A
only b a = if b then a ∷ [] else []

same_bytes-append : (s a b : Bytes) → same_bytes (s ++ a) (s ++ b) ≡ same_bytes a b
same_bytes-append [] a b = refl
same_bytes-append (c ∷ s) a b = rw (==_refl c) (same_bytes-append s a b)

pub same_bytes_refl : (s : Bytes) → same_bytes s s ≡ true
same_bytes_refl s = (same_bytes_iff s s).1 refl

strip-own : (s q : Bytes) → strip s (s ++ q) ≡ some q
strip-own [] q = refl
strip-own (c ∷ s) q = rw (==_refl c) (strip-own s q)

pub made-only :
    (g : Graph) (prefix name : Bytes) (k : ChangeKind) (e : TreeEntry) (p : Bytes)
    → at_path p (change_at g (prefix ++ name) (k, e) ∷ [])
      ≡ made g prefix (λ q. only (same_bytes name q) (k, e)) p
made-only g prefix name k e p = elim (Bool-cases (same_bytes (prefix ++ name) p)) [
  | inl t ↦
      let same : prefix ++ name ≡ p = (same_bytes_iff (prefix ++ name) p).0 t in
      rw t (ap (λ p. change_at g p (k, e) ∷ []) same ∙ sym (there same))
  | inr f ↦ rw f (sym (elsewhere f (strip prefix p) refl))
]
  where
    there :
        prefix ++ name ≡ p
        → made g prefix (λ q. only (same_bytes name q) (k, e)) p ≡ change_at g p (k, e) ∷ []
    there same =
        ap (made_rest g p (λ q. only (same_bytes name q) (k, e)))
          (ap (strip prefix) (sym same) ∙ strip-own prefix name)
        ∙ ap (λ b. map (change_at g p) (only b (k, e))) (same_bytes_refl name)

    elsewhere :
        same_bytes (prefix ++ name) p ≡ false
        → (o : Option Bytes) → strip prefix p ≡ o
        → made_rest g p (λ q. only (same_bytes name q) (k, e)) o ≡ []
    elsewhere f none s = refl
    elsewhere f (some q) s =
        ap (λ b. map (change_at g p) (only b (k, e)))
          (sym (same_bytes-append prefix name q)
            ∙ ap (same_bytes (prefix ++ name)) (sym (strip-some prefix p q s))
            ∙ f)
