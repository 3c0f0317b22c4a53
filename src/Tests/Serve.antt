-- ===== src/Tests/Serve.antt =====
-- One connection: a client registers, is pushed two trees and a file, and acknowledges.
use treevial.Prelude.{true, false, none, some, [], ◌∷◌, ok, ◌≡◌, ap, arith, map}
use treevial.Ids.Laws.{IsRef, IsOneField}
use treevial.Wire.{
  register, ClientMessage, write_register, write_ack, write_update, read_server_message,
}
use treevial.Wire.RoundTrip.{update_of}
use treevial.Server.Head.{Head, new_ref_state}
use treevial.Server.Registry.{Server}
use treevial.Server.Registry
use treevial.Server.Serve.{open_registration, read_acks, announcement, push}
use treevial.Server.Serve.Laws.{
  open_registration-IsRef, open_registration-write_register, push-announces, read_acks-first,
}
use treevial.Tests.Toy.{toy}
use treevial.Tests.Select.{sample, sent}
use treevial.Tests.Wire.{
  hex_text, hex_text-IsHashText, main_ref, client_name, main_ref_valid, client_name_valid,
}

abbrev opening : ClientMessage
opening = record { type = register; ref = main_ref; client_id = client_name; hash = 1 }

opened : open_registration hex_text (write_register hex_text main_ref 1 client_name) ≡ ok opening
opened =
    open_registration-write_register hex_text hex_text-IsHashText main_ref client_name 1
      main_ref_valid client_name_valid (omega arith)

open_registration-IsRef_example : (register ≡ register) × IsRef main_ref × IsOneField client_name
open_registration-IsRef_example =
    open_registration-IsRef hex_text (write_register hex_text main_ref 1 client_name) opening opened

abbrev head : Head
head = record { hash = 2; sequence = 7 }

pushed : (push hex_text toy 5 1 head sample).1 ≡ ok (write_update hex_text 2 3 7, 2 ∷ 3 ∷ 11 ∷ [])
unfolding push
pushed = ap (announcement hex_text head) sent

push-announces_example :
    read_server_message hex_text (write_update hex_text 2 3 7)
    ≡ ok (update_of hex_text hex_text-IsHashText 2 3 7)
push-announces_example =
    push-announces hex_text hex_text-IsHashText toy 5 1 head sample (write_update hex_text 2 3 7)
      (2 ∷ 3 ∷ 11 ∷ []) pushed (omega arith) (omega arith) (omega arith)

read_acks-first_example :
    read_acks hex_text (map (write_ack hex_text) (5 ∷ 6 ∷ [])) none ≡ (some 5, ok tt)
read_acks-first_example = read_acks-first hex_text hex_text-IsHashText 5 (6 ∷ []) (omega arith)

abbrev server : Server
server = record {
  has_provider = false;
  refs = (main_ref, 0) ∷ [];
  states = λ i. record new_ref_state { store = some 1 };
  subscribers = λ c. record {
    ref = main_ref;
    client_id = [];
    state = 0;
    announced = true;
    notify = false;
    synced = 1;
    closed = false;
  };
  next = 1;
  released = [];
}
