-- ===== src/Tests/Server.antt =====
-- A server with one published ref and one subscriber: its head moves, and it is swept.
use treevial.Prelude.{
  ℕ, true, false, some, [], ◌∷◌, Bytes, ok, err, has, ◌≡◌, refl, inr, Memᴰ, ◌==◌, if◌then◌else◌,
  arith, bytes_key,
}
use treevial.Prelude.Maps.{Map}
use treevial.Prelude.Text.{ascii, split}
use treevial.Ids.{validate_ref}
use treevial.Objects.Store.{Store, has_object}
use treevial.Server.Head.{
  Head, RefState, new_ref_state, StoreId, SubscriberId, ref_held, not_advancing, not_in_store, move,
  set_store, would_move,
}
use treevial.Server.Head.Laws.{taken}
use treevial.Server.Registry.{Subscriber, Server, living, gather, apply_head, set_head, publish}
use treevial.Server.Registry.Laws.{apply_head_lem, set_head_lem, set_head_refused}
use treevial.Server.Registry.Publish.{IsPublished, publish_lem}
use treevial.Server.Sweep.{checked, sweep_refs, sweep}
use treevial.Server.Sweep.Serves.{Serves, sweep_refused, sweep-Serves}
use treevial.Tests.Toy.{toy, tree}

abbrev main_ref : Bytes
main_ref = ascii "refs/heads/main"

abbrev side_ref : Bytes
side_ref = ascii "refs/heads/side"

abbrev head_at : ℕ → ℕ → Head
head_at h n = record { hash = h; sequence = n }

abbrev main_state : RefState
main_state = record new_ref_state {
  ready = true;
  prepared = true;
  published = true;
  members = 0 ∷ [];
  head = head_at 1 3;
  store = some 1;
  sequenced = true;
  installed = true;
}

abbrev follower : Subscriber
follower = record {
  ref = main_ref;
  client_id = [];
  state = 0;
  announced = true;
  notify = false;
  synced = 1;
  closed = false;
}

abbrev server : Server
server = record {
  has_provider = false;
  refs = (main_ref, 0) ∷ [];
  states = λ i. main_state;
  subscribers = λ c. follower;
  next = 1;
  released = [];
}

-- Store 1 holds an old tree and a new one, every other store the new one alone.
abbrev stores : StoreId → Store toy
stores i =
    if i == 1
    then record { storage = (1, tree []) ∷ (2, tree []) ∷ []; decoded = [] }
    else record { storage = (2, tree []) ∷ []; decoded = [] }

main_living : living main_ref server ≡ some 0
unfolding living
main_living = refl

set_head_lem_example :
    ((set_head main_ref (head_at 2 4) server).1 ≡ ok tt)
    × ((set_head main_ref (head_at 2 4) server).0.states 0 ≡ taken (head_at 2 4) main_state)
    × ((c : SubscriberId)
        → (has (0 ∷ []) c ≡ true
            → ((set_head main_ref (head_at 2 4) server).0.subscribers c).notify ≡ true)
          × (has (0 ∷ []) c ≡ false
              → (set_head main_ref (head_at 2 4) server).0.subscribers c ≡ follower))
set_head_lem_example =
    set_head_lem main_ref 0 (head_at 2 4) server main_living (inr (refl, λ t. ground arith))

-- A follower that came after the others were gathered is not notified.
apply_head_lem_example :
    ((apply_head 0 [] (head_at 2 4) server).1 ≡ ok tt)
    × ((apply_head 0 [] (head_at 2 4) server).0.states 0 ≡ taken (head_at 2 4) main_state)
    × ((c : SubscriberId)
        → (has [] c ≡ true → ((apply_head 0 [] (head_at 2 4) server).0.subscribers c).notify ≡ true)
          × (has [] c ≡ false → (apply_head 0 [] (head_at 2 4) server).0.subscribers c ≡ follower))
apply_head_lem_example = apply_head_lem 0 [] (head_at 2 4) server (inr (refl, λ t. ground arith))

late : (set_head main_ref (head_at 2 3) server).1 ≡ err not_advancing
unfolding set_head gather living apply_head move
late = refl

set_head_refused_example :
    ((j : ℕ) → (set_head main_ref (head_at 2 3) server).0.states j ≡ main_state)
    × ((set_head main_ref (head_at 2 3) server).0.subscribers ≡ server.subscribers)
    × ((set_head main_ref (head_at 2 3) server).0.refs ≡ server.refs)
set_head_refused_example = set_head_refused main_ref (head_at 2 3) server not_advancing late

publish_lem_example :
    IsPublished side_ref 1 (head_at 1 0) server (publish side_ref (some 1) (head_at 1 0) server)
unfolding validate_ref split
publish_lem_example = publish_lem side_ref (some 1) (head_at 1 0) server

held_already : (publish main_ref (some 1) (head_at 1 0) server).1 ≡ err ref_held
unfolding publish validate_ref split
held_already = refl

abbrev forward : Map Bytes Head
forward = (main_ref, head_at 2 4) ∷ []

-- The one subscriber loses the old tree.
swept_one : (sweep toy stores (some 2) forward server).1 ≡ ok 1
unfolding sweep has_object living would_move
swept_one = refl

sweep-Serves_example :
    Serves toy stores 2 forward server (sweep toy stores (some 2) forward server).0 main_ref 0
sweep-Serves_example =
    sweep-Serves toy stores 2 forward server 1 (refl, tt) swept_one main_ref 0 (Memᴰ.head refl)

-- Without a head for the ref, it would keep one that the store does not hold.
not_swept : (sweep toy stores (some 2) [] server).1 ≡ err not_in_store
unfolding sweep has_object
not_swept = refl

sweep_refused_example : (sweep toy stores (some 2) [] server).0 ≡ server
sweep_refused_example = sweep_refused toy stores (some 2) [] server not_in_store not_swept

-- The second half of a `SetHead`, to a tree that store 1 does not hold.
abbrev moved_between : Server
moved_between = (apply_head 0 (0 ∷ []) (head_at 3 5) server).0

-- A sweep that moves no head passes its checks; if the head moves before the new store is put in place, the
-- ref is left with a head that its store does not hold.
swept_checked : checked toy stores 1 [] server ≡ ok tt
unfolding checked has_object living
swept_checked = refl

swept_between :
    ((sweep_refs toy stores 1 [] ((main_ref, 0) ∷ []) (moved_between, 0)).0.states 0).head
    ≡ head_at 3 5
unfolding sweep_refs apply_head move has_object set_store
swept_between = refl

swept_missing : has_object toy (stores 1) 3 ≡ false
unfolding has_object
swept_missing = refl
