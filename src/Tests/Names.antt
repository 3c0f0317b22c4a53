-- ===== src/Tests/Names.antt =====
-- The names that the protocol accepts, and some that it refuses.
use treevial.Prelude.{Bytes, ok, ◌≡◌, refl}
use treevial.Prelude.Text.{ascii, split}
use treevial.Ids.{validate_ref, validate_client_id, validate_server_id}
use treevial.Ids.Laws.{IsRef, validate_ref-IsRef}

abbrev main_ref : Bytes
main_ref = ascii "refs/heads/main"

abbrev node_name : Bytes
node_name = ascii "node-3"

main_ref_valid : validate_ref main_ref ≡ ok tt
unfolding validate_ref split
main_ref_valid = refl

node_name_client : validate_client_id node_name ≡ ok tt
unfolding validate_client_id
node_name_client = refl

node_name_server : validate_server_id node_name ≡ ok tt
unfolding validate_server_id
node_name_server = refl

validate_ref-IsRef_example : IsRef main_ref
validate_ref-IsRef_example = validate_ref-IsRef main_ref main_ref_valid
