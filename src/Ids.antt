-- ===== src/Ids.antt =====
-- treevial.go: the names that both sides exchange, the rules they obey, and the errors that travel.
pub mod Laws
use treevial.Prelude.{
  ℕ, Bool, true, false, not, ◌||◌, ◌&&◌, List, [], ◌∷◌, Bytes, length, Result, ok, err, has, leb,
  ltb, ◌==◌, if◌then◌else◌, same_bytes,
}
use treevial.Prelude.Text.{ascii, has_prefix, has_suffix, contains, split}

-- The codes are strings, and a client takes whichever it is sent.
abbrev pub ErrorCode : Type 0
ErrorCode = Bytes

abbrev pub code_invalid : ErrorCode
code_invalid = ascii "invalid"

abbrev pub code_internal : ErrorCode
code_internal = ascii "internal"

-- `*treevial.Error`
pub record Error : Type 0 where
  pub code : ErrorCode
  pub message : Bytes

abbrev pub max_ref_length : ℕ
max_ref_length = 512

abbrev pub max_client_id_length : ℕ
max_client_id_length = 128

abbrev pub max_server_id_length : ℕ
max_server_id_length = 128

-- Why a name is refused.
pub data NameFault : Type 0 where
  too_long : NameFault
  bad_byte : ℕ → NameFault
  empty_ref not_under_refs has_dots has_at_brace names_nothing : NameFault
  empty_component dot_component lock_component : Bytes → NameFault

abbrev pub Checked : Type 0
Checked = Result NameFault (Unit {0})

-- A loop over the bytes of a name. (The source's loop is over runes: each test is on ASCII
-- characters, which are runes of one byte, and every byte of another rune passes.)
abbrev pub check_bytes : (ℕ → Bool) → Bytes → Checked
check_bytes bad [] = ok tt
check_bytes bad (c ∷ s) = let rest = check_bytes bad s in if bad c then err (bad_byte c) else rest

unfoldable pub bad_in_id : ℕ → Bool
bad_in_id r = leb r b' ' || r == 0x7f

unfoldable pub validate_id : Bytes → ℕ → Checked
unfolding bad_in_id
validate_id id limit = if ltb limit (length id) then err too_long else check_bytes bad_in_id id

unfoldable pub validate_server_id : Bytes → Checked
unfolding validate_id
validate_server_id id = validate_id id max_server_id_length

unfoldable pub validate_client_id : Bytes → Checked
unfolding validate_id
validate_client_id id = validate_id id max_client_id_length

unfoldable pub bad_in_ref : ℕ → Bool
bad_in_ref r = ltb r 0x20 || r == 0x7f || has (ascii " ~^:?*[\\") r

-- The loop over the components.
unfoldable pub check_components : List Bytes → Checked
check_components [] = ok tt
check_components (c ∷ cs) =
    let rest = check_components cs in
    if same_bytes c []
    then err (empty_component c)
    else if has_prefix c (ascii ".")
    then err (dot_component c)
    else if has_suffix c (ascii ".lock")
    then err (lock_component c)
    else rest

unfoldable pub check_split : List Bytes → Checked
unfolding check_components
check_split components =
    if ltb (length components) 3 then err names_nothing else check_components components

unfoldable pub check_parts : Bytes → Checked → Checked
unfolding check_split
check_parts ref (ok _) = check_split (split b'/' ref)
check_parts ref (err e) = err e

unfoldable pub validate_ref : Bytes → Checked
unfolding bad_in_ref check_parts
validate_ref ref =
    if same_bytes ref []
    then err empty_ref
    else if ltb max_ref_length (length ref)
    then err too_long
    else if not (has_prefix ref (ascii "refs/"))
    then err not_under_refs
    else if contains ref (ascii "..")
    then err has_dots
    else if contains ref (ascii "@{")
    then err has_at_brace
    else check_parts ref (check_bytes bad_in_ref ref)
