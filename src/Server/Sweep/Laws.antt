-- ===== src/Server/Sweep/Laws.antt =====
-- What a sweep makes of each subscriber and of each ref.
use treevial.Prelude.{
  ℕ, Bool, true, false, not, ◌&&◌, Option, none, some, List, [], ◌∷◌, Bytes, Memᴰ, if◌then◌else◌,
  bytes_key, ◌==◌, ==_refl, ==_iff, ◌≡◌, ◌⊎◌, inl, inr, refl, sym, ◌∙◌, ap, subst, arith, has,
  Distinct, Bool-cases,
}
use treevial.Prelude.Maps.{Map, lookup}
use treevial.Git.{Git, Hash, zero_hash, is_zero}
use treevial.Objects.Store.{Store, has_object}
use treevial.Server.Head.{Head, StoreId, RefId, SubscriberId, RefState, set_store, install, move}
use treevial.Server.Registry.{Subscriber, Server, set_state, reset, wake}
use treevial.Server.Sweep.{sweep_member, sweep_members, has_moved, swept, sweep_ref, sweep_refs}

abbrev pub ids : Map Bytes RefId → List RefId
ids [] = []
ids ((ref, i) ∷ refs) = i ∷ ids refs

module _ (g : Git) (stores : StoreId → Store g) (store : StoreId) where
  -- The subscriber can be served from the store: it holds nothing, or a tree of the store.
  abbrev pub IsServable : Subscriber → Type 0
  IsServable sub = (is_zero sub.synced ≡ true) ⊎ (has_object g (stores store) sub.synced ≡ true)

  -- The tree that a subscriber still has after the sweep: the zero hash, if the store does not hold it.
  abbrev kept : Hash → Hash
  kept x = if not (is_zero x) && not (has_object g (stores store) x) then zero_hash else x

  sweep_member-synced :
      (moved : Bool) (c d : SubscriberId) (acc : Server × ℕ)
      → ((sweep_member g stores store moved c acc).0.subscribers d).synced
        ≡ (if c == d then kept (acc.0.subscribers c).synced else (acc.0.subscribers d).synced)
  unfolding sweep_member reset wake
  sweep_member-synced moved c d (s, n) = ground arith

  kept-IsServable :
      (x : Hash) → (is_zero (kept x) ≡ true) ⊎ (has_object g (stores store) (kept x) ≡ true)
  kept-IsServable x = elim (Bool-cases (is_zero x)) [
    | inl z ↦ inl (ground arith)
    | inr z ↦ elim (Bool-cases (has_object g (stores store) x)) [
      | inl y ↦ inr (rw (z, y) y)
      | inr y ↦ inl (rw (z, y) refl)
    ]
  ]

  abbrev IsServed : Hash → Type 0
  IsServed x = (is_zero x ≡ true) ⊎ (has_object g (stores store) x ≡ true)

  sweep_member-IsServable :
      (moved : Bool) (c : SubscriberId) (acc : Server × ℕ)
      → IsServable ((sweep_member g stores store moved c acc).0.subscribers c)
  sweep_member-IsServable moved c acc =
      subst IsServed (sym (sweep_member-synced moved c c acc ∙ rw (==_refl c) refl))
        (kept-IsServable (acc.0.subscribers c).synced)

  sweep_member_keeps :
      (moved : Bool) (c d : SubscriberId) (acc : Server × ℕ)
      → IsServable (acc.0.subscribers d)
      → IsServable ((sweep_member g stores store moved c acc).0.subscribers d)
  sweep_member_keeps moved c d acc h =
      subst IsServed (sym (sweep_member-synced moved c d acc)) (elim (Bool-cases (c == d)) [
        | inl e ↦ rw e (kept-IsServable (acc.0.subscribers c).synced)
        | inr e ↦ rw e h
      ])

  sweep_member-states :
      (moved : Bool) (c : SubscriberId) (acc : Server × ℕ)
      → (sweep_member g stores store moved c acc).0.states ≡ acc.0.states
  unfolding sweep_member reset wake
  sweep_member-states moved c (s, n) = ground arith

  sweep_members-states :
      (moved : Bool) (cs : List SubscriberId) (acc : Server × ℕ)
      → (sweep_members g stores store moved cs acc).0.states ≡ acc.0.states
  unfolding sweep_members
  sweep_members-states moved [] acc = refl
  sweep_members-states moved (c ∷ cs) acc =
      sweep_members-states moved cs (sweep_member g stores store moved c acc)
      ∙ sweep_member-states moved c acc

  sweep_members_keep :
      (moved : Bool) (cs : List SubscriberId) (d : SubscriberId) (acc : Server × ℕ)
      → IsServable (acc.0.subscribers d)
      → IsServable ((sweep_members g stores store moved cs acc).0.subscribers d)
  unfolding sweep_members
  sweep_members_keep moved [] d acc h = h
  sweep_members_keep moved (c ∷ cs) d acc h =
      sweep_members_keep moved cs d (sweep_member g stores store moved c acc)
        (sweep_member_keeps moved c d acc h)

  sweep_members-IsServable :
      (moved : Bool) (cs : List SubscriberId) (d : SubscriberId) (acc : Server × ℕ)
      → Memᴰ d cs
      → IsServable ((sweep_members g stores store moved cs acc).0.subscribers d)
  unfolding sweep_members
  sweep_members-IsServable moved [] d acc m = elim m [ ]
  sweep_members-IsServable moved (c ∷ cs) d acc (Memᴰ.head e) =
      sweep_members_keep moved cs d (sweep_member g stores store moved c acc) (
        subst (λ x. IsServable ((sweep_member g stores store moved c acc).0.subscribers x)) (sym e)
          (sweep_member-IsServable moved c acc))
  sweep_members-IsServable moved (c ∷ cs) d acc (Memᴰ.tail m) =
      sweep_members-IsServable moved cs d (sweep_member g stores store moved c acc) m

  -- The refs, one after another.
  sweep_ref-state :
      (heads : Map Bytes Head) (ref : Bytes) (i j : RefId) (acc : Server × ℕ)
      → (sweep_ref g stores store heads ref i acc).0.states j
        ≡ (if i == j then (swept store (lookup ref heads) (acc.0.states i)).0 else acc.0.states j)
  unfolding sweep_ref
  sweep_ref-state heads ref i j (s, n) =
      let new = swept store (lookup ref heads) (s.states i) in
      ap (λ f. f j) (sweep_members-states (has_moved new.1) new.0.members (set_state i new.0 s, n))

  sweep_ref_keeps :
      (heads : Map Bytes Head) (ref : Bytes) (i : RefId) (d : SubscriberId) (acc : Server × ℕ)
      → IsServable (acc.0.subscribers d)
      → IsServable ((sweep_ref g stores store heads ref i acc).0.subscribers d)
  unfolding sweep_ref
  sweep_ref_keeps heads ref i d (s, n) h =
      let new = swept store (lookup ref heads) (s.states i) in
      sweep_members_keep (has_moved new.1) new.0.members d (set_state i new.0 s, n) h

  swept-members :
      (named : Option Head) (st : RefState) → (swept store named st).0.members ≡ st.members
  unfolding swept set_store install move
  swept-members none st = refl
  swept-members (some h) st = ground arith

  sweep_ref-IsServable :
      (heads : Map Bytes Head) (ref : Bytes) (i : RefId) (d : SubscriberId) (acc : Server × ℕ)
      → Memᴰ d (acc.0.states i).members
      → IsServable ((sweep_ref g stores store heads ref i acc).0.subscribers d)
  unfolding sweep_ref
  sweep_ref-IsServable heads ref i d (s, n) m =
      let new = swept store (lookup ref heads) (s.states i) in
      sweep_members-IsServable (has_moved new.1) new.0.members d (set_state i new.0 s, n)
        (subst (λ l. Memᴰ d l) (sym (swept-members (lookup ref heads) (s.states i))) m)

  sweep_refs_keep :
      (heads : Map Bytes Head) (refs : Map Bytes RefId) (d : SubscriberId) (acc : Server × ℕ)
      → IsServable (acc.0.subscribers d)
      → IsServable ((sweep_refs g stores store heads refs acc).0.subscribers d)
  unfolding sweep_refs
  sweep_refs_keep heads [] d acc h = h
  sweep_refs_keep heads ((ref, i) ∷ refs) d acc h =
      sweep_refs_keep heads refs d (sweep_ref g stores store heads ref i acc)
        (sweep_ref_keeps heads ref i d acc h)

  sweep_refs-state_other :
      (heads : Map Bytes Head) (refs : Map Bytes RefId) (j : RefId) (acc : Server × ℕ)
      → has (ids refs) j ≡ false
      → (sweep_refs g stores store heads refs acc).0.states j ≡ acc.0.states j
  unfolding sweep_refs
  sweep_refs-state_other heads [] j acc h = refl
  sweep_refs-state_other heads ((ref, i) ∷ refs) j acc h =
      sweep_refs-state_other heads refs j (sweep_ref g stores store heads ref i acc) (ground arith)
      ∙ sweep_ref-state heads ref i j acc
      ∙ (let e : (i == j) ≡ false = ground arith in rw e refl)

  -- What a published ref has become.
  pub sweep_refs-state :
      (heads : Map Bytes Head) (refs : Map Bytes RefId) (ref : Bytes) (i : RefId) (acc : Server × ℕ)
      → Distinct (ids refs)
      → Memᴰ (ref, i) refs
      → (sweep_refs g stores store heads refs acc).0.states i
        ≡ (swept store (lookup ref heads) (acc.0.states i)).0
  unfolding sweep_refs
  sweep_refs-state heads [] ref i acc d m = elim m [ ]
  sweep_refs-state heads ((r, k) ∷ refs) ref i acc d (Memᴰ.head e) =
      let same : i ≡ k = ap (λ p. p.1) e in
      let ref_same : ref ≡ r = ap (λ p. p.0) e in
      sweep_refs-state_other heads refs i (sweep_ref g stores store heads r k acc)
        (subst (λ x. has (ids refs) x ≡ false) (sym same) d.0)
      ∙ sweep_ref-state heads r k i acc
      ∙ (let t : (k == i) ≡ true = ground arith in rw (t, ref_same, same) refl)
  sweep_refs-state heads ((r, k) ∷ refs) ref i acc d (Memᴰ.tail m) =
      sweep_refs-state heads refs ref i (sweep_ref g stores store heads r k acc) d.1 m
      ∙ ap (λ st. (swept store (lookup ref heads) st).0)
          (sweep_ref-state heads r k i acc
            ∙ (let t : (k == i) ≡ false = apart refs ref i k d.0 m in rw t refl))
    where
      apart :
          (ps : Map Bytes RefId) (r : Bytes) (i k : RefId)
          → has (ids ps) k ≡ false
          → Memᴰ (r, i) ps
          → (k == i) ≡ false
      apart [] r i k f m = elim m [ ]
      apart ((q, j) ∷ ps) r i k f (Memᴰ.head e) = let s : i ≡ j = ap (λ p. p.1) e in ground arith
      apart ((q, j) ∷ ps) r i k f (Memᴰ.tail m) = apart ps r i k (ground arith) m

  pub sweep_refs-IsServable :
      (heads : Map Bytes Head) (refs : Map Bytes RefId) (ref : Bytes) (i : RefId) (d : SubscriberId)
      (acc : Server × ℕ)
      → Memᴰ (ref, i) refs
      → Memᴰ d (acc.0.states i).members
      → IsServable ((sweep_refs g stores store heads refs acc).0.subscribers d)
  unfolding sweep_refs
  sweep_refs-IsServable heads [] ref i d acc m n = elim m [ ]
  sweep_refs-IsServable heads ((r, k) ∷ refs) ref i d acc (Memᴰ.head e) n =
      sweep_refs_keep heads refs d (sweep_ref g stores store heads r k acc)
        (sweep_ref-IsServable heads r k d acc (subst (λ p. Memᴰ d (acc.0.states p.1).members) e n))
  sweep_refs-IsServable heads ((r, k) ∷ refs) ref i d acc (Memᴰ.tail m) n =
      sweep_refs-IsServable heads refs ref i d (sweep_ref g stores store heads r k acc) m
        (subst (λ st. Memᴰ d st.members) (sym (sweep_ref-state heads r k i acc)) (members_kept r k))
    where
      members_kept :
          (r : Bytes) (k : RefId)
          → Memᴰ d
              (if k == i
                then (swept store (lookup r heads) (acc.0.states k)).0
                else acc.0.states i).members
      members_kept r k = elim (Bool-cases (k == i)) [
        | inl t ↦ rw (t, swept-members (lookup r heads) (acc.0.states k), (==_iff k i).0 t) n
        | inr t ↦ rw t n
      ]
