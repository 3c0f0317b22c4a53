-- ===== src/Objects/Order/Sort.antt =====
-- `slices.SortFunc` over `compareEntries`: the result holds the same entries, is in order, and does
-- not depend on the order in which the entries were given.
use mathlib.Core.List.Perm
use treevial.Prelude.{
  true, false, List, [], ◌∷◌, if◌then◌else◌, ◌≡◌, ◌≢◌, refl, arith, Bool-cases, inl, inr, All,
  Permᴰ, Perm, ap, sym, subst, ◌∙◌,
}
use treevial.Prelude.Int.{is_negative}
use treevial.Git.{TreeEntry}
use treevial.Objects.Order.{
  sort_name, earlier, compare_entries, is_sorted, insert_entry, sort_entries, in_order,
}
use treevial.Objects.Order.Laws.{
  compare_entries-eq-earlier, earlier_irrefl, earlier_trans, earlier_total,
}

-- `insert_entry` by the order of the sort names.
insert_entry-cons :
    (a b : TreeEntry) (es : List TreeEntry)
    → insert_entry a (b ∷ es) ≡ (if earlier a b then a ∷ b ∷ es else b ∷ insert_entry a es)
unfolding insert_entry
insert_entry-cons a b es = rw (compare_entries-eq-earlier a b)

insert_entry-perm : (a : TreeEntry) (es : List TreeEntry) → Perm (insert_entry a es) (a ∷ es)
unfolding insert_entry
insert_entry-perm a [] = Perm.refl _
insert_entry-perm a (b ∷ es) = elim (Bool-cases (is_negative (compare_entries a b))) [
  | inl e ↦ rw e (Perm.refl _)
  | inr e ↦ rw e (Perm.trans (Perm.cons b (insert_entry-perm a es)) (Perm.swap a b es))
]

sort_entries-perm : (es : List TreeEntry) → Perm (sort_entries es) es
unfolding sort_entries
sort_entries-perm [] = Perm.refl _
sort_entries-perm (a ∷ es) =
    Perm.trans (insert_entry-perm a (sort_entries es)) (Perm.cons a (sort_entries-perm es))

-- No entry is earlier than the one before it.
abbrev pub IsOrdered : List TreeEntry → Type 0
IsOrdered [] = Unit
IsOrdered (a ∷ []) = Unit
IsOrdered (a ∷ b ∷ es) = (earlier b a ≡ false) × IsOrdered (b ∷ es)

earlier_asymm : (a b : TreeEntry) → earlier a b ≡ true → earlier b a ≡ false
earlier_asymm a b h = elim (Bool-cases (earlier b a)) [
  | inl k ↦ cc (earlier_irrefl a, earlier_trans a b a h k)
  | inr k ↦ k
]

insert_entry-IsOrdered :
    (a : TreeEntry) (es : List TreeEntry) → IsOrdered es → IsOrdered (insert_entry a es)
insert_entry-IsOrdered a [] h = unfold insert_entry in tt
insert_entry-IsOrdered a (b ∷ []) h =
    rw (insert_entry-cons a b []) (unfold insert_entry in ground (arith, earlier_asymm a b))
insert_entry-IsOrdered a (b ∷ c ∷ es) h = rw (insert_entry-cons a b (c ∷ es)) (
    ground
      (arith, earlier_asymm a b, insert_entry-cons a c es, insert_entry-IsOrdered a (c ∷ es) h.1))

sort_entries-IsOrdered : (es : List TreeEntry) → IsOrdered (sort_entries es)
unfolding sort_entries
sort_entries-IsOrdered [] = tt
sort_entries-IsOrdered (a ∷ es) = insert_entry-IsOrdered a _ (sort_entries-IsOrdered es)

is_sorted-IsOrdered : (es : List TreeEntry) → is_sorted es ≡ true → IsOrdered es
unfolding is_sorted
is_sorted-IsOrdered [] h = tt
is_sorted-IsOrdered (a ∷ []) h = tt
is_sorted-IsOrdered (a ∷ b ∷ es) h =
    ground (arith, compare_entries-eq-earlier b a, is_sorted-IsOrdered (b ∷ es))

-- Whatever it is given, what `AddTree` puts in a tree is in git's order.
pub in_order-IsOrdered : (es : List TreeEntry) → IsOrdered (in_order es)
unfolding in_order
in_order-IsOrdered es = elim (Bool-cases (is_sorted es)) [
  | inl e ↦ rw e (is_sorted-IsOrdered es e)
  | inr e ↦ rw e (sort_entries-IsOrdered es)
]

-- It holds the entries that were given, each as often.
pub in_order-perm : (es : List TreeEntry) → Perm (in_order es) es
unfolding in_order
in_order-perm es = elim (Bool-cases (is_sorted es)) [
  | inl e ↦ rw e (Perm.refl es)
  | inr e ↦ rw e (sort_entries-perm es)
]

insert_entry_swap :
    (a b : TreeEntry) (es : List TreeEntry)
    → sort_name a ≢ sort_name b
    → insert_entry a (insert_entry b es) ≡ insert_entry b (insert_entry a es)
insert_entry_swap a b [] ne =
    unfold insert_entry in
    ground (
      arith,
      compare_entries-eq-earlier a b,
      compare_entries-eq-earlier b a,
      earlier_total a b,
      earlier_asymm a b,
    )
insert_entry_swap a b (c ∷ es) ne = ground (
  arith,
  insert_entry-cons a c es,
  insert_entry-cons b c es,
  insert_entry-cons a b (c ∷ es),
  insert_entry-cons b a (c ∷ es),
  insert_entry-cons a c (insert_entry b es),
  insert_entry-cons b c (insert_entry a es),
  earlier_total a b,
  earlier_asymm a b,
  earlier_trans a b c,
  earlier_trans b a c,
  insert_entry_swap a b es ne,
)

-- The sort names of the entries differ from one another.
abbrev pub HasDistinctNames : List TreeEntry → Type 0
HasDistinctNames [] = Unit
HasDistinctNames (a ∷ es) = All (λ b. sort_name a ≢ sort_name b) es × HasDistinctNames es

-- A list in order is its own sorting.
insert_entry-IsOrdered_eq :
    (a : TreeEntry) (es : List TreeEntry)
    → IsOrdered (a ∷ es)
    → HasDistinctNames (a ∷ es)
    → insert_entry a es ≡ a ∷ es
insert_entry-IsOrdered_eq a [] h d = unfold insert_entry in refl
insert_entry-IsOrdered_eq a (b ∷ es) h d =
    ground (arith, insert_entry-cons a b es, earlier_total a b, d.0.0)

sort_entries-IsOrdered_eq :
    (es : List TreeEntry) → IsOrdered es → HasDistinctNames es → sort_entries es ≡ es
unfolding sort_entries
sort_entries-IsOrdered_eq [] h d = refl
sort_entries-IsOrdered_eq (a ∷ []) h d = unfold insert_entry in refl
sort_entries-IsOrdered_eq (a ∷ b ∷ es) h d =
    ap (insert_entry a) (sort_entries-IsOrdered_eq (b ∷ es) h.1 d.1)
    ∙ insert_entry-IsOrdered_eq a (b ∷ es) h d

in_order-eq-sort_entries :
    (es : List TreeEntry) → HasDistinctNames es → in_order es ≡ sort_entries es
unfolding in_order
in_order-eq-sort_entries es d =
    ground (arith, is_sorted-IsOrdered es, λ (h : IsOrdered es). sort_entries-IsOrdered_eq es h d)

All-perm :
    (a : TreeEntry) {xs ys : List TreeEntry}
    → Permᴰ xs ys
    → All (λ b. sort_name a ≢ sort_name b) xs
    → All (λ b. sort_name a ≢ sort_name b) ys
All-perm a Permᴰ.nil h = tt
All-perm a (Permᴰ.cons e p) h = (rw (← e) h.0, All-perm a p h.1)
All-perm a (Permᴰ.swap e f) h = (rw (← f) h.1.0, (rw (← e) h.0, h.1.1))
All-perm a (Permᴰ.trans p q) h = All-perm a q (All-perm a p h)

differs_from :
    {a b : TreeEntry} (es : List TreeEntry)
    → a ≡ b
    → All (λ c. sort_name a ≢ sort_name c) es
    → All (λ c. sort_name b ≢ sort_name c) es
differs_from es e h = subst (λ a. All (λ c. sort_name a ≢ sort_name c) es) e h

HasDistinctNames-perm :
    {xs ys : List TreeEntry} → Permᴰ xs ys → HasDistinctNames xs → HasDistinctNames ys
HasDistinctNames-perm Permᴰ.nil h = tt
HasDistinctNames-perm (Permᴰ.cons e p) h =
    (differs_from _ e (All-perm _ p h.0), HasDistinctNames-perm p h.1)
HasDistinctNames-perm (Permᴰ.swap e f) h =
    ((rw (← e, ← f) (λ k. h.0.0 (sym k)), differs_from _ f h.1.0), (differs_from _ e h.0.1, h.1.1))
HasDistinctNames-perm (Permᴰ.trans p q) h = HasDistinctNames-perm q (HasDistinctNames-perm p h)

sort_entries-perm_eq :
    {xs ys : List TreeEntry} → Permᴰ xs ys → HasDistinctNames xs → sort_entries xs ≡ sort_entries ys
unfolding sort_entries
sort_entries-perm_eq Permᴰ.nil d = refl
sort_entries-perm_eq (Permᴰ.cons e p) d = rw (e, sort_entries-perm_eq p d.1)
sort_entries-perm_eq (Permᴰ.swap {l = es} e f) d =
    rw (← e, ← f) (insert_entry_swap _ _ (sort_entries es) d.0.0)
sort_entries-perm_eq (Permᴰ.trans p q) d =
    sort_entries-perm_eq p d ∙ sort_entries-perm_eq q (HasDistinctNames-perm p d)

-- Of entries with distinct sort names, any order of giving them leads to the same tree.
pub in_order-perm_eq :
    {xs ys : List TreeEntry} → Permᴰ xs ys → HasDistinctNames xs → in_order xs ≡ in_order ys
in_order-perm_eq {xs} {ys} p d =
    in_order-eq-sort_entries xs d
    ∙ sort_entries-perm_eq p d
    ∙ sym (in_order-eq-sort_entries ys (HasDistinctNames-perm p d))
