-- ===== src/Tests/Wire.antt =====
-- The lines and the packs of the protocol, with hexadecimal hashes and a connection that fails never.
use treevial.Prelude.{
  ℕ, zero, suc, ◌+◌, ◌*◌, ◌/◌, ◌%◌, ◌<◌, true, false, some, List, [], ◌∷◌, ◌++◌, Bytes, length, ok,
  has, ltb, if◌then◌else◌, ◌≡◌, refl, ap, ◌∙◌, arith, ◌-◌,
}
use treevial.Prelude.Text.{ascii, split}
use treevial.Ids.{validate_ref, validate_client_id}
use treevial.Wire.{HashText, IsHashText, write_update, read_server_message}
use treevial.Wire.RoundTrip.{read-write_update, update_of}
use treevial.Wire.Pack.{Encoder, PackWriter, eof, write, write_all, close, read_all}
use treevial.Wire.Pack.Laws.{concat}
use treevial.Wire.Pack.Ends.{write_all-close_succeed}
use treevial.Wire.Pack.Reads.{read-written_pack}

abbrev digit : ℕ → ℕ
digit d = if ltb d 10 then b'0' + d else 87 + d

abbrev value : ℕ → ℕ
value c = if ltb c 97 then c - b'0' else c - 87

-- The last `n` hexadecimal digits of a number, in front of `s`.
abbrev hex : ℕ → ℕ → Bytes → Bytes
hex zero h s = s
hex (suc n) h s = hex n (h / 16) (digit (h % 16) ∷ s)

abbrev unhex : ℕ → Bytes → ℕ
unhex v [] = v
unhex v (c ∷ s) = unhex (v * 16 + value c) s

length-hex : (n h : ℕ) (s : Bytes) → length (hex n h s) ≡ n + length s
length-hex zero h s = omega arith
length-hex (suc n) h s = omega (arith, length-hex n (h / 16) (digit (h % 16) ∷ s))

has-hex : (n h : ℕ) (s : Bytes) → has s b' ' ≡ false → has (hex n h s) b' ' ≡ false
has-hex zero h s e = e
has-hex (suc n) h s e = has-hex n (h / 16) (digit (h % 16) ∷ s) (ground arith)

value-digit : (d : ℕ) → d < 16 → value (digit d) ≡ d
value-digit d l = ground arith

-- A number with `n` hexadecimal zeros put behind it.
abbrev scale : ℕ → ℕ → ℕ
scale zero v = v
scale (suc n) v = scale n v * 16

unhex-hex : (n h v : ℕ) (s : Bytes) → h < scale n 1 → unhex v (hex n h s) ≡ unhex (scale n v + h) s
unhex-hex zero h v s l = ap (λ k. unhex k s) (omega arith)
unhex-hex (suc n) h v s l =
    unhex-hex n (h / 16) v (digit (h % 16) ∷ s) (omega arith)
    ∙ ap (λ k. unhex k s) (omega (arith, value-digit (h % 16) (omega arith)))

abbrev pub hex_text : HashText
hex_text = record { show_hash = λ h. hex 40 h []; new_hash = unhex 0 }

pub hex_text-IsHashText : IsHashText hex_text
hex_text-IsHashText = record {
  length_text = λ h l. length-hex 40 h [];
  no_space = λ h l. has-hex 40 h [] refl;
  named = λ h l. unhex-hex 40 h 0 [] l ∙ omega arith;
}

abbrev pub main_ref : Bytes
main_ref = ascii "refs/heads/main"

abbrev pub client_name : Bytes
client_name = ascii "edge-7"

pub main_ref_valid : validate_ref main_ref ≡ ok tt
unfolding validate_ref split
main_ref_valid = refl

pub client_name_valid : validate_client_id client_name ≡ ok tt
unfolding validate_client_id
client_name_valid = refl

read-write_update_example :
    read_server_message hex_text (write_update hex_text 0xabc 12 7)
    ≡ ok (update_of hex_text hex_text-IsHashText 0xabc 12 7)
read-write_update_example =
    read-write_update hex_text hex_text-IsHashText 0xabc 12 7 (omega arith) (omega arith)
      (omega arith)

abbrev steady : Encoder
steady sent p = some (sent ++ p ∷ [])

abbrev pieces : List Bytes
pieces = (1 ∷ 2 ∷ 3 ∷ []) ∷ (4 ∷ []) ∷ []

abbrev before_close : PackWriter
before_close = record { sent = (1 ∷ 2 ∷ []) ∷ (3 ∷ 4 ∷ []) ∷ []; buf = [] }

abbrev after_close : PackWriter
after_close = record { sent = (1 ∷ 2 ∷ []) ∷ (3 ∷ 4 ∷ []) ∷ [] ∷ []; buf = [] }

pieces_written : write_all steady 2 pieces (record { sent = []; buf = [] }) ≡ (before_close, ok tt)
unfolding write_all write
pieces_written = refl

pieces_closed : close steady 2 before_close ≡ (after_close, ok tt)
unfolding close
pieces_closed = refl

read-written_pack_example :
    read_all 5 3 (record {
      incoming = after_close.sent ++ (9 ∷ []) ∷ [];
      rest = [];
      done = false;
      broken = true;
    })
    ≡ record {
      reader = record { incoming = (9 ∷ []) ∷ []; rest = []; done = true; broken = true };
      ended = some eof;
      bytes = 1 ∷ 2 ∷ 3 ∷ 4 ∷ [];
    }
read-written_pack_example =
    read-written_pack steady 2 (λ sent p sent' e. appended sent p sent' e) pieces before_close
      after_close ((9 ∷ []) ∷ []) 5 3 true (omega arith) pieces_written pieces_closed (omega arith)
      (omega arith)
  where
    appended :
        (sent : List Bytes) (p : Bytes) (sent' : List Bytes)
        → steady sent p ≡ some sent'
        → sent' ≡ sent ++ p ∷ []
    appended sent p sent' e = cc

-- A flush has failed before, and left a full buffer.
abbrev full_buffer : PackWriter
full_buffer = record { sent = []; buf = 8 ∷ 9 ∷ [] }

write_all-close_succeed_example :
    (n : Unit {0}) × ((write_all steady 2 pieces full_buffer).1 ≡ ok n)
    × ((close steady 2 (write_all steady 2 pieces full_buffer).0).1 ≡ ok tt)
    × (payloads : List Bytes) × ((close steady 2 (write_all steady 2 pieces full_buffer).0).0.sent
        ≡ ([] ++ payloads) ++ [] ∷ [])
    × (concat payloads ≡ 8 ∷ 9 ∷ 1 ∷ 2 ∷ 3 ∷ 4 ∷ [])
write_all-close_succeed_example =
    write_all-close_succeed steady 2 (omega arith) (λ sent p. refl) pieces full_buffer (omega arith)
