-- ===== src/Tests/Connect.antt =====
-- Subscribers that leave a ref: one of two, and the last.
use treevial.Prelude.{
  true, false, none, List, [], ◌∷◌, Bytes, ◌≡◌, refl, inr, arith, if◌then◌else◌, bytes_key,
  same_bytes,
}
use treevial.Prelude.Maps.{lookup}
use treevial.Prelude.Text.{ascii}
use treevial.Server.Head.{new_ref_state, SubscriberId}
use treevial.Server.Registry.{Subscriber, Server}
use treevial.Server.Connect.{disconnect}
use treevial.Server.Connect.Laws.{HasLeft, disconnect-kept, disconnect-last}

abbrev device_ref : Bytes
device_ref = ascii "refs/devices/7"

abbrev follower : Subscriber
follower = record {
  ref = device_ref;
  client_id = [];
  state = 0;
  announced = true;
  notify = false;
  synced = 0;
  closed = false;
}

-- A server whose provider has prepared one ref for some subscribers.
abbrev followed_by : List SubscriberId → Server
followed_by members = record {
  has_provider = true;
  refs = (device_ref, 0) ∷ [];
  states = λ i. record new_ref_state { ready = true; prepared = true; members = members };
  subscribers = λ c. follower;
  next = 1;
  released = [];
}

disconnect-kept_example :
    HasLeft 5 0 (followed_by (5 ∷ 6 ∷ [])) (disconnect 5 (followed_by (5 ∷ 6 ∷ [])))
disconnect-kept_example =
    disconnect-kept 5 (followed_by (5 ∷ 6 ∷ [])) (inr (6, λ e. absurd (omega arith), refl))

disconnect-last_example :
    ((r : Bytes)
      → lookup r (disconnect 5 (followed_by (5 ∷ []))).refs
        ≡ (if same_bytes device_ref r then none else lookup r ((device_ref, 0) ∷ [])))
    × ((disconnect 5 (followed_by (5 ∷ []))).released ≡ device_ref ∷ [])
disconnect-last_example = disconnect-last 5 (followed_by (5 ∷ [])) refl refl refl
