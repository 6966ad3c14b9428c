-- ===== src/Validation/Validator/Tests.antt =====
-- Runs of the validator (src/common/validator.cc), and its theorem at a concrete input.
use linux_server.Base.{◌≡◌, refl, true, codes, [], ◌∷◌, Bytes, arith}
use linux_server.Validation.Utf8.{
  decode_utf8, decode_loop, decode_one, lead_length, continuations, is_malformed, is_control,
}
use linux_server.Validation.Validator.{
  nickname, message_content, has_nul, invalid, username, is_valid_identifier, ok,
}
use linux_server.Validation.Validator.Laws.{IsNickname, nickname_iff}

-- "é中"
abbrev name : Bytes
name = 0xc3 ∷ 0xa9 ∷ 0xe4 ∷ 0xb8 ∷ 0xad ∷ []

name_accepted : (nickname name).valid ≡ true
unfolding nickname decode_utf8 decode_loop decode_one lead_length continuations is_malformed
    is_control
name_accepted = refl

nickname_iff_example :
    ((nickname name).valid ≡ true → IsNickname name)
    × (IsNickname name → (nickname name).valid ≡ true)
nickname_iff_example = nickname_iff name (omega arith)

nul_rejected : message_content (97 ∷ 0 ∷ []) ≡ invalid (codes "message content contains NUL")
unfolding message_content has_nul
nul_rejected = refl

username_accepted : username (codes "ann_7") ≡ ok
unfolding username is_valid_identifier
username_accepted = refl
