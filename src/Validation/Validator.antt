-- ===== src/Validation/Validator.antt =====
-- `Validator` (src/common/validator.cc, include/common/validator.h). `std::isalnum` and
-- `std::isxdigit` are those of the C locale, which the server never changes.
pub mod Laws
mod Tests
use linux_server.Base.{
  ℕ, Bool, true, false, not, ◌&&◌, ◌||◌, List, [], ◌∷◌, ◌++◌, Option, none, some, Bytes, codes,
  length, is_empty, leb, ltb, nat_beq, if◌then◌else◌,
}
use linux_server.Validation.Utf8.{decode_utf8}

pub record ValidationResult : Type 0 where
  pub valid : Bool
  pub message : Bytes

abbrev pub ok : ValidationResult
ok = record { valid = true; message = [] }

abbrev pub invalid : Bytes → ValidationResult
invalid message = record { valid = false; message = message }

abbrev pub username_min_length : ℕ
username_min_length = 3

abbrev pub username_max_length : ℕ
username_max_length = 32

abbrev pub register_password_min_length : ℕ
register_password_min_length = 6

abbrev pub password_max_length : ℕ
password_max_length = 72

abbrev pub nickname_max_length : ℕ
nickname_max_length = 64

abbrev pub message_max_bytes : ℕ
message_max_bytes = 4096

abbrev pub id_max_length : ℕ
id_max_length = 64

unfoldable pub has_nul : Bytes → Bool
has_nul [] = false
has_nul (c ∷ cs) = nat_beq c 0 || has_nul cs

abbrev pub is_digit : ℕ → Bool
is_digit c = leb b'0' c && leb c b'9'

abbrev pub is_alnum : ℕ → Bool
is_alnum c = is_digit c || (leb b'A' c && leb c b'Z') || (leb b'a' c && leb c b'z')

abbrev pub is_xdigit : ℕ → Bool
is_xdigit c = is_digit c || (leb b'A' c && leb c b'F') || (leb b'a' c && leb c b'f')

unfoldable pub is_valid_identifier : Bytes → Bool
is_valid_identifier [] = true
is_valid_identifier (c ∷ cs) =
    (is_alnum c || nat_beq c b'_' || nat_beq c b'-') && is_valid_identifier cs

unfoldable pub required_identifier : Bytes → Bytes → ValidationResult
required_identifier value field =
    if is_empty value
    then invalid (field ++ codes " is empty")
    else if ltb id_max_length (length value)
    then invalid (field ++ codes " exceeds maximum length")
    else if not (is_valid_identifier value)
    then invalid (field ++ codes " contains invalid characters")
    else ok

unfoldable pub username : Bytes → ValidationResult
username name =
    if ltb (length name) username_min_length || ltb username_max_length (length name)
    then invalid (codes "username length must be between 3 and 32")
    else if not (is_valid_identifier name)
    then invalid (codes "username contains invalid characters")
    else ok

unfoldable pub register_password : Bytes → ValidationResult
register_password password =
    if has_nul password
    then invalid (codes "password contains NUL")
    else if ltb (length password) register_password_min_length
        || ltb password_max_length (length password)
    then invalid (codes "password length must be between 6 and 72")
    else ok

unfoldable pub login_password : Bytes → ValidationResult
login_password password =
    if has_nul password
    then invalid (codes "password contains NUL")
    else if is_empty password || ltb password_max_length (length password)
    then invalid (codes "password length must be between 1 and 72")
    else ok

nickname_decoded : Option (ℕ × Bool) → ValidationResult
nickname_decoded none = invalid (codes "nickname is not valid UTF-8")
nickname_decoded (some (code_points, has_control)) =
    if ltb nickname_max_length code_points
    then invalid (codes "nickname exceeds maximum length")
    else if has_control
    then invalid (codes "nickname contains control characters")
    else ok

unfoldable pub nickname : Bytes → ValidationResult
unfolding nickname_decoded
nickname name =
    if is_empty name
    then invalid (codes "nickname is empty")
    else nickname_decoded (decode_utf8 name)

unfoldable pub message_content : Bytes → ValidationResult
message_content content =
    if is_empty content
    then invalid (codes "message content is empty")
    else if ltb message_max_bytes (length content)
    then invalid (codes "message content exceeds maximum length")
    else if has_nul content
    then invalid (codes "message content contains NUL")
    else ok

unfoldable pub client_message_id : Bytes → ValidationResult
client_message_id id = required_identifier id (codes "client_msg_id")

unfoldable pub message_id : Bytes → ValidationResult
message_id id = required_identifier id (codes "message_id")

unfoldable pub conversation_id : Bytes → ValidationResult
conversation_id id = required_identifier id (codes "conversation_id")

unfoldable pub cursor : Bytes → ValidationResult
cursor value = if is_empty value then ok else required_identifier value (codes "cursor")

unfoldable pub all_xdigits : Bytes → Bool
all_xdigits [] = true
all_xdigits (c ∷ cs) = is_xdigit c && all_xdigits cs

unfoldable pub token : Bytes → ValidationResult
token value =
    if not (nat_beq (length value) 64)
    then invalid (codes "token must contain 64 hexadecimal characters")
    else if not (all_xdigits value)
    then invalid (codes "token must contain 64 hexadecimal characters")
    else ok
