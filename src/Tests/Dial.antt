-- ===== src/Tests/Dial.antt =====
-- A client that is dialled and registers.
use treevial.Prelude.{true, [], ◌∷◌, List, ok, ◌≡◌, refl, arith}
use treevial.Prelude.Int.{pos}
use treevial.Ids.{validate_client_id}
use treevial.Keepalive.{default_period}
use treevial.Server.Options.{with_dead_peer_timeout, tune, plain, IsTuned}
use treevial.Server.Serve.{open_registration}
use treevial.Wire.{register, write_register}
use treevial.Client.{Client, ClientOption, with_id, with_history, dial, resume}
use treevial.Client.Dial.{HasOptions, KeepsSome, dial_lem, open_registration-resume}
use treevial.Tests.Wire.{hex_text, hex_text-IsHashText, main_ref, client_name, main_ref_valid}

abbrev options : List ClientOption
options = with_history (pos 2) ∷ with_id client_name ∷ []

abbrev dialled : Client
dialled = record { id = client_name; history = pos 2; sweeping = true; dead_peer = pos 0 }

dialled_plainly : dial options ≡ ok (dialled, plain default_period)
unfolding dial with_dead_peer_timeout tune validate_client_id
dialled_plainly = refl

resumed : resume hex_text dialled main_ref 1 ≡ ok (write_register hex_text main_ref 1 client_name)
unfolding resume
resumed = rw main_ref_valid refl

open_registration-resume_example :
    open_registration hex_text (write_register hex_text main_ref 1 client_name)
    ≡ ok (record { type = register; ref = main_ref; client_id = client_name; hash = 1 })
open_registration-resume_example =
    open_registration-resume hex_text hex_text-IsHashText options dialled (plain default_period)
      main_ref (write_register hex_text main_ref 1 client_name) 1 dialled_plainly resumed
      (omega arith)

dial_lem_example :
    HasOptions options dialled
    × (validate_client_id dialled.id ≡ ok tt)
    × KeepsSome dialled.sweeping dialled.history
    × IsTuned dialled.dead_peer (plain default_period)
dial_lem_example = dial_lem options dialled (plain default_period) dialled_plainly
