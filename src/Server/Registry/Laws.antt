-- ===== src/Server/Registry/Laws.antt =====
-- What the operations on the refs of a server do: wake-ups, and the moves of heads.
use treevial.Prelude.{
  ℕ, true, false, Option, none, some, List, [], ◌∷◌, Bytes, ok, err, has, ◌==◌, ==_iff, ==_refl,
  if◌then◌else◌, bytes_key, ◌≡◌, ◌⊎◌, inl, inr, refl, sym, ap, ◌∙◌, subst, arith, Bool-cases,
}
use treevial.Server.Head.{Head, RefId, SubscriberId, ServerFault}
use treevial.Server.Head.Laws.{Takes, taken, move_lem}
use treevial.Server.Registry.{
  Server, put, set_state, wake, wake_all, living, gather, apply_head, set_head, set_gathered,
  gathered,
}

wake-subscriber :
    (c d : SubscriberId) (s : Server)
    → (wake c s).subscribers d
      ≡ (if c == d then record (s.subscribers d) { notify = true } else s.subscribers d)
unfolding wake
wake-subscriber c d s = elim (Bool-cases (c == d)) [
  | inl e ↦ rw (e, (==_iff c d).0 e) refl
  | inr e ↦ rw e refl
]

wake_all-member :
    (cs : List SubscriberId) (d : SubscriberId) (s : Server)
    → ((s.subscribers d).notify ≡ true) ⊎ (has cs d ≡ true)
    → ((wake_all cs s).subscribers d).notify ≡ true
wake_all-member [] d s h = ground arith
wake_all-member (c ∷ cs) d s h = wake_all-member cs d (wake c s) (notified (Bool-cases (c == d)))
  where
    notified :
        ((c == d) ≡ true) ⊎ ((c == d) ≡ false)
        → (((wake c s).subscribers d).notify ≡ true) ⊎ (has cs d ≡ true)
    notified (inl e) = inl (ap (λ x. x.notify) (wake-subscriber c d s) ∙ rw e refl)
    notified (inr e) = elim h [
      | inl n ↦ inl (ap (λ x. x.notify) (wake-subscriber c d s) ∙ rw e n)
      | inr m ↦ inr (ground arith)
    ]

wake_all-other :
    (cs : List SubscriberId) (d : SubscriberId) (s : Server)
    → has cs d ≡ false
    → (wake_all cs s).subscribers d ≡ s.subscribers d
wake_all-other [] d s h = refl
wake_all-other (c ∷ cs) d s h =
    wake_all-other cs d (wake c s) (ground arith)
    ∙ wake-subscriber c d s
    ∙ (let e : (c == d) ≡ false = ground arith in rw e refl)

wake_all-states : (cs : List SubscriberId) (s : Server) → (wake_all cs s).states ≡ s.states
unfolding wake
wake_all-states [] s = refl
wake_all-states (c ∷ cs) s = wake_all-states cs (wake c s)

pub put_same {ℓ} : {A : Type ℓ} (f : ℕ → A) (i : ℕ) (a : A) → put f i a i ≡ a
put_same f i a = rw (==_refl i) refl

put_self {ℓ} : {A : Type ℓ} (f : ℕ → A) (i j : ℕ) → put f i (f i) j ≡ f j
put_self f i j = elim (Bool-cases (i == j)) [
  | inl e ↦ rw (e, (==_iff i j).0 e) refl
  | inr e ↦ rw e refl
]

-- Once the subscribers have been gathered, a head that the ref takes becomes its head; those who were
-- gathered are notified, and every other subscriber is as before, also one that follows the ref by now.
pub apply_head_lem :
    (i : RefId) (following : List SubscriberId) (h : Head) (s : Server)
    → Takes h (s.states i)
    → ((apply_head i following h s).1 ≡ ok tt)
      × ((apply_head i following h s).0.states i ≡ taken h (s.states i))
      × ((c : SubscriberId)
          → (has following c ≡ true → ((apply_head i following h s).0.subscribers c).notify ≡ true)
            × (has following c ≡ false
                → (apply_head i following h s).0.subscribers c ≡ s.subscribers c))
unfolding apply_head
apply_head_lem i following h s takes =
    let moved = (move_lem h (s.states i)).0 takes in
    rw moved (
      refl,
      ap (λ f. f i) (wake_all-states following (set_state i (taken h (s.states i)) s))
          ∙ put_same s.states i (taken h (s.states i)),
      λ c. (
        λ m. wake_all-member following c (set_state i (taken h (s.states i)) s) (inr m),
        λ m. wake_all-other following c (set_state i (taken h (s.states i)) s) m,
      ),
    )

apply_head-refused :
    (i : RefId) (following : List SubscriberId) (h : Head) (s : Server) (e : ServerFault)
    → (apply_head i following h s).1 ≡ err e
    → ((j : RefId) → (apply_head i following h s).0.states j ≡ s.states j)
      × ((apply_head i following h s).0.subscribers ≡ s.subscribers)
      × ((apply_head i following h s).0.refs ≡ s.refs)
unfolding apply_head
apply_head-refused i following h s e f = elim (move_lem h (s.states i)).3 [
  | inl takes ↦ absurd (moves takes f)
  | inr (inl stale) ↦
      rw ((move_lem h (s.states i)).1 stale) (λ j. put_self s.states i j, refl, refl)
  | inr (inr mixed) ↦
      rw ((move_lem h (s.states i)).2 mixed) (λ j. put_self s.states i j, refl, refl)
]
  where
    moves : Takes h (s.states i) → ¬ ((apply_head i following h s).1 ≡ err e)
    moves takes f = let r = (apply_head_lem i following h s takes).0 in cc

gather-living :
    (ref : Bytes) (s : Server) (i : RefId)
    → living ref s ≡ some i
    → gather ref s ≡ some (i, (s.states i).members)
unfolding gather
gather-living ref s i e = ap (gathered s) e

-- On a ref that the server holds, a head that the ref takes becomes its head, every one of its members is
-- notified, and nobody else is touched.
pub set_head_lem :
    (ref : Bytes) (i : RefId) (h : Head) (s : Server)
    → living ref s ≡ some i
    → Takes h (s.states i)
    → ((set_head ref h s).1 ≡ ok tt)
      × ((set_head ref h s).0.states i ≡ taken h (s.states i))
      × ((c : SubscriberId)
          → (has (s.states i).members c ≡ true → ((set_head ref h s).0.subscribers c).notify ≡ true)
            × (has (s.states i).members c ≡ false
                → (set_head ref h s).0.subscribers c ≡ s.subscribers c))
unfolding set_head
set_head_lem ref i h s e takes =
    subst
      (λ o.
        ((set_gathered o h s).1 ≡ ok tt)
        × ((set_gathered o h s).0.states i ≡ taken h (s.states i))
        × ((c : SubscriberId)
            → (has (s.states i).members c ≡ true
                → ((set_gathered o h s).0.subscribers c).notify ≡ true)
              × (has (s.states i).members c ≡ false
                  → (set_gathered o h s).0.subscribers c ≡ s.subscribers c)))
      (sym (gather-living ref s i e)) (apply_head_lem i (s.states i).members h s takes)

-- Where `SetHead` fails, whether the ref is unknown, the head is late or it is of another kind, no ref, no
-- state of a ref and no subscriber has changed.
pub set_head_refused :
    (ref : Bytes) (h : Head) (s : Server) (e : ServerFault)
    → (set_head ref h s).1 ≡ err e
    → ((j : RefId) → (set_head ref h s).0.states j ≡ s.states j)
      × ((set_head ref h s).0.subscribers ≡ s.subscribers)
      × ((set_head ref h s).0.refs ≡ s.refs)
unfolding set_head
set_head_refused ref h s e = refused (gather ref s)
  where
    refused :
        (o : Option (RefId × List SubscriberId))
        → (set_gathered o h s).1 ≡ err e
        → ((j : RefId) → (set_gathered o h s).0.states j ≡ s.states j)
          × ((set_gathered o h s).0.subscribers ≡ s.subscribers)
          × ((set_gathered o h s).0.refs ≡ s.refs)
    refused none f = (λ j. refl, refl, refl)
    refused (some (i, following)) f = apply_head-refused i following h s e f
