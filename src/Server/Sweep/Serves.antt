-- ===== src/Server/Sweep/Serves.antt =====
-- What a refused `Sweep` leaves, and what one that succeeds does.
use treevial.Prelude.{
  ℕ, true, Option, none, some, [], ◌∷◌, Bytes, Result, ok, err, and_then, Memᴰ, bytes_key, ◌≡◌, ◌⊎◌,
  inl, inr, refl, sym, ◌∙◌, ap, subst, arith, Distinct, Bool-cases,
}
use treevial.Prelude.Maps.{Map, lookup}
use treevial.Git.{Git, Hash, is_zero}
use treevial.Objects.Store.{Store, has_object}
use treevial.Server.Head.{
  Head, StoreId, RefId, SubscriberId, ServerFault, RefState, would_move, install, move, set_store,
}
use treevial.Server.Registry.{Server}
use treevial.Server.Sweep.{
  published_of, head_or, check_advance, check_head, check_published, swept, sweep_refs, checked,
  sweep_checked, sweep, check_named,
}
use treevial.Server.Sweep.Laws.{ids, IsServable, sweep_refs-state, sweep_refs-IsServable}

swept-store :
    (store : StoreId) (named : Option Head) (st : RefState)
    → (swept store named st).0.store ≡ some store
unfolding swept set_store install move
swept-store store none st = refl
swept-store store (some h) st = ground arith

swept-head :
    (store : StoreId) (named : Option Head) (st : RefState)
    → check_advance named st ≡ ok tt
    → (swept store named st).0.head ≡ head_or named st
unfolding swept set_store install move would_move
swept-head store none st h = refl
swept-head store (some k) st h = ground arith

module _ (g : Git) (stores : StoreId → Store g) (store : StoreId) (heads : Map Bytes Head) where
  -- The head can be served from the store: it is void, or a tree of the store.
  abbrev pub IsHeld : Hash → Type 0
  IsHeld h = (is_zero h ≡ true) ⊎ (has_object g (stores store) h ≡ true)

  check_head-IsHeld :
      (named : Option Head) (st : RefState)
      → check_head g stores store named st ≡ ok tt
      → IsHeld (head_or named st).hash × (check_advance named st ≡ ok tt)
  unfolding check_head
  check_head-IsHeld named st h = elim (Bool-cases (is_zero (head_or named st).hash)) [
    | inl z ↦ (inl z, ground arith)
    | inr z ↦ elim (Bool-cases (has_object g (stores store) (head_or named st).hash)) [
      | inl y ↦ (inr y, ground arith)
      | inr y ↦ absurd (ground arith)
    ]
  ]

  check_published-each :
      (s : Server) (refs : Map Bytes RefId) (ref : Bytes) (i : RefId)
      → check_published g stores store heads s refs ≡ ok tt
      → Memᴰ (ref, i) refs
      → check_head g stores store (lookup ref heads) (s.states i) ≡ ok tt
  unfolding check_published
  check_published-each s [] ref i h m = elim m [ ]
  check_published-each s ((r, k) ∷ refs) ref i h (Memᴰ.head e) =
      subst (λ p. check_head g stores store (lookup p.0 heads) (s.states p.1) ≡ ok tt) (sym e)
        (ground arith)
  check_published-each s ((r, k) ∷ refs) ref i h (Memᴰ.tail m) =
      check_published-each s refs ref i (ground arith) m

  -- After the sweep from `s` to `t`, the published ref with the state `i` has the new store, the head
  -- named for it or else its own, and can be served, as can each of those who follow it.
  pub record Serves (s t : Server) (ref : Bytes) (i : RefId) : Type 0 where
    pub store_of : (t.states i).store ≡ some store
    pub head_of : (t.states i).head ≡ head_or (lookup ref heads) (s.states i)
    pub head_held : IsHeld (t.states i).head.hash
    pub members_served :
        (c : SubscriberId)
        → Memᴰ c (s.states i).members
        → IsServable g stores store (t.subscribers c)

  sweep_checked-Serves :
      (s : Server) (ref : Bytes) (i : RefId)
      → check_published g stores store heads s (published_of s.states s.refs) ≡ ok tt
      → Distinct (ids (published_of s.states s.refs))
      → Memᴰ (ref, i) (published_of s.states s.refs)
      → Serves s (sweep_refs g stores store heads (published_of s.states s.refs) (s, 0)).0 ref i
  sweep_checked-Serves s ref i run d m =
      let sound =
        check_head-IsHeld (lookup ref heads) (s.states i)
          (check_published-each s (published_of s.states s.refs) ref i run m) in
      let state =
        sweep_refs-state g stores store heads (published_of s.states s.refs) ref i (s, 0) d m in
      let head =
        ap (λ st. st.head) state ∙ swept-head store (lookup ref heads) (s.states i) sound.1 in
      record {
        store_of = ap (λ st. st.store) state ∙ swept-store store (lookup ref heads) (s.states i);
        head_of = head;
        head_held = subst IsHeld (sym (ap (λ h. h.hash) head)) sound.0;
        members_served = λ c n.
            sweep_refs-IsServable g stores store heads (published_of s.states s.refs) ref i c (s, 0)
              m n;
      }

-- A sweep that is refused, for whatever reason, leaves the server exactly as it was.
pub sweep_refused :
    (g : Git) (stores : StoreId → Store g) (store : Option StoreId) (heads : Map Bytes Head)
    (s : Server) (e : ServerFault)
    → (sweep g stores store heads s).1 ≡ err e
    → (sweep g stores store heads s).0 ≡ s
unfolding sweep sweep_checked
sweep_refused g stores none heads s e h = refl
sweep_refused g stores (some store) heads s e h = refused (checked g stores store heads s) h
  where
    refused :
        (r : Result ServerFault (Unit {0}))
        → (sweep_checked g stores store heads s r).1 ≡ err e
        → (sweep_checked g stores store heads s r).0 ≡ s
    refused (ok _) h = absurd (ground arith)
    refused (err _) h = refl

-- After a sweep that succeeds, on a server whose published refs have distinct states, every published ref
-- has the new store, and the head that was named for it or else the one it had; that head is void or an
-- object of the new store; and everyone who follows the ref holds nothing or a tree of the new store.
pub sweep-Serves :
    (g : Git) (stores : StoreId → Store g) (store : StoreId) (heads : Map Bytes Head) (s : Server)
    (n : ℕ)
    → Distinct (ids (published_of s.states s.refs))
    → (sweep g stores (some store) heads s).1 ≡ ok n
    → (ref : Bytes) (i : RefId) → Memᴰ (ref, i) (published_of s.states s.refs)
    → Serves g stores store heads s (sweep g stores (some store) heads s).0 ref i
unfolding sweep checked sweep_checked
sweep-Serves g stores store heads s n d run ref i m =
    served (check_named s heads)
      (check_published g stores store heads s (published_of s.states s.refs)) refl run
  where
    served :
        (a b : Result ServerFault (Unit {0}))
        → check_published g stores store heads s (published_of s.states s.refs) ≡ b
        → (sweep_checked g stores store heads s (and_then a (λ _. b))).1 ≡ ok n
        → Serves g stores store heads s
            (sweep_checked g stores store heads s (and_then a (λ _. b))).0
            ref
            i
    served (ok _) (ok _) e h = sweep_checked-Serves g stores store heads s ref i e d m
    served (ok _) (err _) e h = absurd (ground arith)
    served (err _) b e h = absurd (ground arith)
