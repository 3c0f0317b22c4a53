-- ===== src/Receive/Compare/Sorted.antt =====
-- The order of a listing.
use treevial.Prelude.{
  Bool, true, false, List, [], ◌∷◌, Bytes, ◌≡◌, refl, sym, ap, ◌∙◌, subst, arith, if◌then◌else◌,
  same_bytes, same_bytes_iff, Bool-cases, inl, inr, ==_refl,
}
use treevial.Objects.Order.{bytes_lt}
use treevial.Receive.Compare.{Change, insert_change, sort_changes}
use treevial.Receive.Compare.Emits.{at_path}

-- Sorting by path keeps the changes at each path, in their order.
bytes_lt_irrefl : (s : Bytes) → bytes_lt s s ≡ false
bytes_lt_irrefl [] = refl
bytes_lt_irrefl (c ∷ s) = rw (==_refl c) (bytes_lt_irrefl s)

at_path-insert :
    (p : Bytes) (c : Change) (ds : List Change)
    → at_path p (insert_change c ds) ≡ at_path p (c ∷ ds)
at_path-insert p c [] = refl
at_path-insert p c (d ∷ ds) = elim (Bool-cases (bytes_lt d.path c.path)) [
  | inl t ↦
      rw t (ap (λ l. if same_bytes d.path p then d ∷ l else l) (at_path-insert p c ds) ∙ swap t)
  | inr f ↦ rw f refl
]
  where
    swap :
        bytes_lt d.path c.path ≡ true
        → (if same_bytes d.path p
            then d ∷ (if same_bytes c.path p then c ∷ at_path p ds else at_path p ds)
            else (if same_bytes c.path p then c ∷ at_path p ds else at_path p ds))
          ≡ (if same_bytes c.path p
              then c ∷ (if same_bytes d.path p then d ∷ at_path p ds else at_path p ds)
              else (if same_bytes d.path p then d ∷ at_path p ds else at_path p ds))
    swap t = at (same_bytes d.path p) (same_bytes c.path p) apart
      where
        apart : same_bytes d.path p ≡ true → same_bytes c.path p ≡ true → ⊥
        apart one other =
            let same : d.path ≡ c.path =
              (same_bytes_iff d.path p).0 one ∙ sym ((same_bytes_iff c.path p).0 other) in
            cc (t, ap (bytes_lt d.path) (sym same), bytes_lt_irrefl d.path)

        at :
            (a b : Bool)
            → (a ≡ true → b ≡ true → ⊥)
            → (if a
                then d ∷ (if b then c ∷ at_path p ds else at_path p ds)
                else (if b then c ∷ at_path p ds else at_path p ds))
              ≡ (if b
                  then c ∷ (if a then d ∷ at_path p ds else at_path p ds)
                  else (if a then d ∷ at_path p ds else at_path p ds))
        at true true n = absurd (n refl refl)
        at true false n = refl
        at false true n = refl
        at false false n = refl

pub at_path-sort_changes :
    (p : Bytes) (cs : List Change) → at_path p (sort_changes cs) ≡ at_path p cs
at_path-sort_changes p [] = refl
at_path-sort_changes p (c ∷ cs) =
    at_path-insert p c (sort_changes cs)
    ∙ ap (λ l. if same_bytes c.path p then c ∷ l else l) (at_path-sort_changes p cs)

-- Each path is not before the one that stands in front of it.
abbrev pub IsInPathOrder : List Change → Type 0
IsInPathOrder [] = Unit
IsInPathOrder (c ∷ []) = Unit
IsInPathOrder (c ∷ d ∷ ds) = (bytes_lt d.path c.path ≡ false) × IsInPathOrder (d ∷ ds)

bytes_lt_asym : (s t : Bytes) → bytes_lt s t ≡ true → bytes_lt t s ≡ false
bytes_lt_asym [] [] h = refl
bytes_lt_asym [] (b ∷ t) h = refl
bytes_lt_asym (a ∷ s) [] h = cc
bytes_lt_asym (a ∷ s) (b ∷ t) h = ground (arith, bytes_lt_asym s t)

insert_change-IsInPathOrder :
    (c : Change) (ds : List Change) → IsInPathOrder ds → IsInPathOrder (insert_change c ds)
insert_change-IsInPathOrder c [] h = tt
insert_change-IsInPathOrder c (d ∷ []) h = elim (Bool-cases (bytes_lt d.path c.path)) [
  | inl t ↦
      subst (λ b. IsInPathOrder (if b then d ∷ c ∷ [] else c ∷ d ∷ [])) (sym t)
        (bytes_lt_asym d.path c.path t, tt)
  | inr f ↦ subst (λ b. IsInPathOrder (if b then d ∷ c ∷ [] else c ∷ d ∷ [])) (sym f) (f, tt)
]
insert_change-IsInPathOrder c (d ∷ e ∷ ds) h =
    at (bytes_lt d.path c.path) (bytes_lt e.path c.path) refl
      (insert_change-IsInPathOrder c (e ∷ ds) h.1)
  where
    at :
        (x y : Bool)
        → bytes_lt d.path c.path ≡ x
        → IsInPathOrder (if y then e ∷ insert_change c ds else c ∷ e ∷ ds)
        → IsInPathOrder
            (if x then d ∷ (if y then e ∷ insert_change c ds else c ∷ e ∷ ds) else c ∷ d ∷ e ∷ ds)
    at true true k rest = (h.0, rest)
    at true false k rest = (bytes_lt_asym d.path c.path k, rest)
    at false y k rest = (k, h)

pub sort_changes-IsInPathOrder : (cs : List Change) → IsInPathOrder (sort_changes cs)
sort_changes-IsInPathOrder [] = tt
sort_changes-IsInPathOrder (c ∷ cs) =
    insert_change-IsInPathOrder c (sort_changes cs) (sort_changes-IsInPathOrder cs)
