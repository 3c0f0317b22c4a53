-- ===== src/Server/Connect/Laws.antt =====
-- Leaving a ref, releasing it, and a preparation that fails.
use treevial.Prelude.{
  is_empty, true, false, none, some, List, [], ◌∷◌, ◌++◌, Bytes, ==_refl, if◌then◌else◌, bytes_key,
  same_bytes, ◌≡◌, ◌≢◌, has, ◌==◌, sym, subst, ◌⊎◌, inl, inr, refl, ◌∙◌, ap, arith, Bool-cases,
}
use treevial.Prelude.Maps.{lookup, lookup-erase}
use treevial.Server.Head.{RefId, SubscriberId, RefState, not_prepared}
use treevial.Server.Registry.{Server, set_state, without, forget, same_ref}
use treevial.Server.Connect.{
  is_last, remove_member, retire, leave, give_back, release, disconnect, prepare,
}

-- Those who still follow the ref of a subscriber once it has left.
abbrev pub remaining : SubscriberId → Server → List SubscriberId
remaining c s = without c (s.states (s.subscribers c).state).members

is_empty-cons : (cs : List SubscriberId) → cs ≢ [] → is_empty cs ≡ false
is_empty-cons [] n = absurd (n refl)
is_empty-cons (c ∷ cs) n = refl

remove_member-state :
    (i : RefId) (c : SubscriberId) (s : Server)
    → (remove_member i c s).states i
      ≡ record (s.states i) { members = without c (s.states i).members }
remove_member-state i c s = rw (==_refl i) refl

leave-kept :
    (c : SubscriberId) (s : Server)
    → is_last
        (s.subscribers c).state
        (lookup (s.subscribers c).ref s.refs)
        (record (s.states (s.subscribers c).state) { members = remaining c s })
      ≡ false
    → leave c s ≡ (remove_member (s.subscribers c).state c s, false)
unfolding leave
leave-kept c s e =
    ap (λ b. retire b (s.subscribers c).state (remove_member (s.subscribers c).state c s))
      (ap (is_last (s.subscribers c).state (lookup (s.subscribers c).ref s.refs))
          (remove_member-state (s.subscribers c).state c s)
        ∙ e)

disconnect-removed :
    (c : SubscriberId) (s : Server)
    → ((s.states (s.subscribers c).state).published ≡ true) ⊎ (remaining c s ≢ [])
    → disconnect c s ≡ remove_member (s.subscribers c).state c s
unfolding disconnect
disconnect-removed c s h = rw (leave-kept c s (kept h)) refl
  where
    kept :
        ((s.states (s.subscribers c).state).published ≡ true) ⊎ (remaining c s ≢ [])
        → is_last
            (s.subscribers c).state
            (lookup (s.subscribers c).ref s.refs)
            (record (s.states (s.subscribers c).state) { members = remaining c s })
          ≡ false
    kept (inl p) = ground arith
    kept (inr n) = let e = is_empty-cons (remaining c s) n in ground arith

has-without :
    (c d : SubscriberId) (cs : List SubscriberId)
    → has (without c cs) d ≡ (if d == c then false else has cs d)
has-without c d [] = ground arith
has-without c d (e ∷ cs) = let rest = has-without c d cs in ground arith

-- What a server is like once a subscriber has left a ref that stays: the members of the ref are those from
-- before without the subscriber, and nothing else has changed.
pub record HasLeft (c : SubscriberId) (i : RefId) (s s' : Server) : Type 0 where
  pub members :
      (d : SubscriberId)
      → has (s'.states i).members d ≡ (if d == c then false else has (s.states i).members d)
  pub state : record (s'.states i) { members = [] } ≡ record (s.states i) { members = [] }
  pub others : (j : RefId) → j ≢ i → s'.states j ≡ s.states j
  pub subscribers : s'.subscribers ≡ s.subscribers
  pub refs : s'.refs ≡ s.refs
  pub released : s'.released ≡ s.released

remove_member-HasLeft :
    (c : SubscriberId) (i : RefId) (s : Server) → HasLeft c i s (remove_member i c s)
remove_member-HasLeft c i s = record {
  members = λ d.
      ap (λ st. has st.members d) (remove_member-state i c s)
      ∙ has-without c d (s.states i).members;
  state =
      ap {A = RefState} {B = RefState} (λ st. record st { members = [] })
        (remove_member-state i c s);
  others = λ j n. let e : (i == j) ≡ false = ground arith in rw e refl;
  subscribers = refl;
  refs = refl;
  released = refl;
}

-- While the ref of a subscriber is published, or has another member, a subscriber that disconnects is no
-- longer among the members of the ref, every other member still is, and that is all: nothing else in the
-- state of the ref changes, no state of another ref, no subscriber and no name of a ref, and nothing goes
-- back to the provider.
pub disconnect-kept :
    (c : SubscriberId) (s : Server)
    → ((s.states (s.subscribers c).state).published ≡ true)
      ⊎ ((d : SubscriberId) × (d ≢ c) × (has (s.states (s.subscribers c).state).members d ≡ true))
    → HasLeft c (s.subscribers c).state s (disconnect c s)
disconnect-kept c s h =
    subst (HasLeft c (s.subscribers c).state s) (sym (disconnect-removed c s (stays h)))
      (remove_member-HasLeft c (s.subscribers c).state s)
  where
    stays :
        ((s.states (s.subscribers c).state).published ≡ true)
          ⊎ ((d : SubscriberId) × (d ≢ c)
              × (has (s.states (s.subscribers c).state).members d ≡ true))
        → ((s.states (s.subscribers c).state).published ≡ true) ⊎ (remaining c s ≢ [])
    stays (inl p) = inl p
    stays (inr (d, n, m)) = inr λ e.
        let here = has-without c d (s.states (s.subscribers c).state).members in
        let gone : has (remaining c s) d ≡ false = ap (λ l. has l d) e in ground arith

leave-last :
    (c : SubscriberId) (s : Server)
    → is_last
        (s.subscribers c).state
        (lookup (s.subscribers c).ref s.refs)
        (record (s.states (s.subscribers c).state) { members = remaining c s })
      ≡ true
    → leave c s ≡ (
      set_state
          (s.subscribers c).state
          (record (s.states (s.subscribers c).state) { members = remaining c s; retiring = true })
          (remove_member (s.subscribers c).state c s),
      true,
    )
unfolding leave
leave-last c s e =
    ap (λ b. retire b (s.subscribers c).state (remove_member (s.subscribers c).state c s))
      (ap (is_last (s.subscribers c).state (lookup (s.subscribers c).ref s.refs))
          (remove_member-state (s.subscribers c).state c s)
        ∙ e)
    ∙ ap
        (λ st. (
          set_state (s.subscribers c).state (record st { retiring = true })
              (remove_member (s.subscribers c).state c s),
          true,
        ))
        (remove_member-state (s.subscribers c).state c s)

-- What a release leaves of the refs, and of what the provider has back.
release-refs :
    (ref r : Bytes) (i : RefId) (s : Server)
    → lookup ref s.refs ≡ some i
    → lookup r (release ref i s).refs ≡ (if same_bytes ref r then none else lookup r s.refs)
unfolding release forget
release-refs ref r i s e = elim (Bool-cases (s.states i).prepared) [
  | inl p ↦ rw (p, e, ==_refl i) (lookup-erase ref r s.refs)
  | inr p ↦ rw (p, e, ==_refl i) (lookup-erase ref r s.refs)
]

forget-released : (ref : Bytes) (i : RefId) (s : Server) → (forget ref i s).released ≡ s.released
unfolding forget
forget-released ref i s = elim (Bool-cases (same_ref (lookup ref s.refs) i)) [
  | inl e ↦ rw e refl
  | inr e ↦ rw e refl
]

release-released :
    (ref : Bytes) (i : RefId) (s : Server)
    → (release ref i s).released
      ≡ (if (s.states i).prepared then s.released ++ ref ∷ [] else s.released)
unfolding release forget
release-released ref i s =
    forget-released ref i (give_back (s.states i).prepared ref s)
    ∙ elim (Bool-cases (s.states i).prepared) [ inl p ↦ rw p refl | inr p ↦ rw p refl ]

-- When the last subscriber of a ref that is not published disconnects, and the ref is still the one that it
-- joined, the ref is no longer held and every other ref is held as before; if its objects had been
-- prepared they go back to the provider, once.
pub disconnect-last :
    (c : SubscriberId) (s : Server)
    → (s.states (s.subscribers c).state).published ≡ false
    → remaining c s ≡ []
    → lookup (s.subscribers c).ref s.refs ≡ some (s.subscribers c).state
    → ((r : Bytes)
        → lookup r (disconnect c s).refs
          ≡ (if same_bytes (s.subscribers c).ref r then none else lookup r s.refs))
      × ((disconnect c s).released ≡ (
          if (s.states (s.subscribers c).state).prepared
          then s.released ++ (s.subscribers c).ref ∷ []
          else s.released))
unfolding disconnect
disconnect-last c s p n e =
    let i = (s.subscribers c).state in
    let t =
      set_state i (record (s.states i) { members = remaining c s; retiring = true })
        (remove_member i c s) in
    let prepared : (t.states i).prepared ≡ (s.states i).prepared = rw (==_refl i) refl in
    let empty : is_empty (remaining c s) ≡ true = ap is_empty n in
    let joined : same_ref (lookup (s.subscribers c).ref s.refs) i ≡ true =
      ap (λ o. same_ref o i) e ∙ ==_refl i in
    rw (leave-last c s (rw (p, empty, joined) refl)) (
      λ r. release-refs (s.subscribers c).ref r i t e,
      release-released (s.subscribers c).ref i t
          ∙ ap (λ b. if b then s.released ++ (s.subscribers c).ref ∷ [] else s.released) prepared,
    )

-- A preparation that fails frees the ref, so that the next who asks has it prepared again; those who wait
-- on this one are let through, and every other ref is held as before.
pub prepare_failed :
    (ref : Bytes) (i : RefId) (s : Server)
    → lookup ref s.refs ≡ some i
    → ((r : Bytes)
        → lookup r (prepare ref i none s).refs
          ≡ (if same_bytes ref r then none else lookup r s.refs))
      × (((prepare ref i none s).states i).ready ≡ true)
      × (((prepare ref i none s).states i).failed ≡ some not_prepared)
unfolding prepare forget
prepare_failed ref i s e =
    rw (e, ==_refl i) (λ r. lookup-erase ref r s.refs, refl, rw (==_refl i) refl)
