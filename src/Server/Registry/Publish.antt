-- ===== src/Server/Registry/Publish.antt =====
-- server/publish.go: what `Publish` does with a ref.
use treevial.Prelude.{
  true, false, Option, none, some, [], Bytes, Result, ok, err, ◌==◌, if◌then◌else◌, bytes_key,
  same_bytes, ◌≡◌, ◌≢◌, ◌↔◌, refl, sym, subst, arith,
}
use treevial.Prelude.Maps.{lookup, lookup-insert}
use treevial.Ids.{Checked, validate_ref}
use treevial.Server.Head.{
  Head, StoreId, RefId, ServerFault, bad_name, nil_store, ref_held, RefState, move, set_store,
}
use treevial.Server.Head.Laws.{taken}
use treevial.Server.Registry.{
  Server, put, publish, publish_new, publish_free, publish_valid, settle, published_state,
}
use treevial.Server.Registry.Laws.{put_same}

-- A ref that is published stands on the next state that is allocated.
publish_new-lookup :
    (ref r : Bytes) (store : StoreId) (h : Head) (s : Server)
    → lookup r (publish_new ref store h s).0.refs
      ≡ (if same_bytes ref r then some s.next else lookup r s.refs)
unfolding publish_new settle move set_store
publish_new-lookup ref r store h s = lookup-insert ref r s.next s.refs

-- A state that a ref has just been published on, with its store and its head, and that nobody follows.
pub record IsFresh (store : StoreId) (h : Head) (st : RefState) : Type 0 where
  pub ready : st.ready ≡ true
  pub prepared : st.prepared ≡ true
  pub published : st.published ≡ true
  pub served : st.store ≡ some store
  pub head : st.head ≡ h
  pub installed : st.installed ≡ true
  pub sequenced : (st.sequenced ≡ true) ↔ (h.sequence ≢ 0)
  pub working : st.failed ≡ none
  pub kept : (st.retiring ≡ false) × (st.retired ≡ false)
  pub members : st.members ≡ []

publish_new-state :
    (ref : Bytes) (store : StoreId) (h : Head) (s : Server)
    → (publish_new ref store h s).0.states s.next
      ≡ record (taken h (published_state store)) { ready = true }
unfolding publish_new settle move set_store
publish_new-state ref store h s = put_same (put s.states s.next (published_state store)) s.next _

publish_new-IsFresh :
    (ref : Bytes) (store : StoreId) (h : Head) (s : Server)
    → IsFresh store h ((publish_new ref store h s).0.states s.next)
publish_new-IsFresh ref store h s =
    subst (IsFresh store h) (sym (publish_new-state ref store h s)) (
      unfold set_store in
      record {
        ready = refl;
        prepared = refl;
        published = refl;
        served = refl;
        head = refl;
        installed = refl;
        sequenced = (λ e z. ground arith, λ n. ground arith);
        working = refl;
        kept = (refl, refl);
        members = refl;
      })

publish_new-others :
    (ref : Bytes) (store : StoreId) (h : Head) (s : Server)
    → ((j : RefId) → j ≢ s.next → (publish_new ref store h s).0.states j ≡ s.states j)
      × ((publish_new ref store h s).0.subscribers ≡ s.subscribers)
      × ((publish_new ref store h s).0.released ≡ s.released)
unfolding publish_new settle move set_store
publish_new-others ref store h s =
    (λ j n. let e : (s.next == j) ≡ false = ground arith in rw e refl, refl, refl)

publish_new-ok :
    (ref : Bytes) (store : StoreId) (h : Head) (s : Server)
    → ((publish_new ref store h s).1 ≡ ok tt)
unfolding publish_new settle move set_store
publish_new-ok ref store h s = refl

-- A ref that is published from now on, and what stays.
pub record IsPublished (ref : Bytes) (store : StoreId) (h : Head) (s : Server)
    (run : Server × Result ServerFault (Unit {0})) : Type 0 where
  pub succeeded : run.1 ≡ ok tt
  pub state : IsFresh store h (run.0.states s.next)
  pub refs :
      (r : Bytes)
      → lookup r run.0.refs ≡ (if same_bytes ref r then some s.next else lookup r s.refs)
  pub others : (j : RefId) → j ≢ s.next → run.0.states j ≡ s.states j
  pub subscribers : run.0.subscribers ≡ s.subscribers
  pub released : run.0.released ≡ s.released

-- What `Publish` does, by the check of the name, the store, and the ref that is held.
abbrev pub Publishes :
    Bytes
    → Head
    → Server
    → Checked
    → Option StoreId
    → Option RefId
    → Server × Result ServerFault (Unit {0})
    → Type 0
Publishes ref h s (err e) store held run = run ≡ (s, err bad_name)
Publishes ref h s (ok _) none held run = run ≡ (s, err nil_store)
Publishes ref h s (ok _) (some store) (some i) run = run ≡ (s, err ref_held)
Publishes ref h s (ok _) (some store) none run = IsPublished ref store h s run

-- `Publish` refuses a name that is not valid, no store, and a ref that is held, in this order, and leaves
-- the server exactly as it was. Otherwise it succeeds: the ref is held from then on, on a new state that is
-- ready, prepared and published, with the given store and head, and without members; every other ref is
-- held as before, and no other state, no subscriber and nothing that went back to the provider changes.
pub publish_lem :
    (ref : Bytes) (store : Option StoreId) (h : Head) (s : Server)
    → Publishes ref h s (validate_ref ref) store (lookup ref s.refs) (publish ref store h s)
unfolding publish
publish_lem ref store h s = at (validate_ref ref) store
  where
    free :
        (o : Option RefId) (i : StoreId)
        → Publishes ref h s (ok tt) (some i) o (publish_free o ref i h s)
    free (some _) i = refl
    free none i =
        let (others, subscribers, released) = publish_new-others ref i h s in
        record {
          succeeded = publish_new-ok ref i h s;
          state = publish_new-IsFresh ref i h s;
          refs = λ r. publish_new-lookup ref r i h s;
          others = others;
          subscribers = subscribers;
          released = released;
        }

    at :
        (v : Checked) (store : Option StoreId)
        → Publishes ref h s v store (lookup ref s.refs) (publish_valid v ref store h s)
    at (err _) store = refl
    at (ok _) none = refl
    at (ok _) (some i) = free (lookup ref s.refs) i

-- Where `Publish` fails, the server is exactly as it was.
pub publish_refused :
    (ref : Bytes) (store : Option StoreId) (h : Head) (s : Server) (e : ServerFault)
    → (publish ref store h s).1 ≡ err e
    → (publish ref store h s).0 ≡ s
unfolding publish
publish_refused ref store h s e = refused (validate_ref ref) store
  where
    free :
        (o : Option RefId) (i : StoreId)
        → (publish_free o ref i h s).1 ≡ err e
        → (publish_free o ref i h s).0 ≡ s
    free (some _) i f = refl
    free none i f = let r = publish_new-ok ref i h s in absurd (ground arith)

    refused :
        (v : Checked) (store : Option StoreId)
        → (publish_valid v ref store h s).1 ≡ err e
        → (publish_valid v ref store h s).0 ≡ s
    refused (err _) store f = refl
    refused (ok _) none f = refl
    refused (ok _) (some i) f = free (lookup ref s.refs) i f
