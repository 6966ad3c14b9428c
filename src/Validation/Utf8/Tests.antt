-- ===== src/Validation/Utf8/Tests.antt =====
-- Runs of `DecodeUtf8` (src/common/validator.cc), and its theorems at concrete inputs.
use linux_server.Base.{
  ℕ, ◌≡◌, refl, Bool, false, List, [], ◌∷◌, some, none, Bytes, arith, All, length,
}
use linux_server.Validation.Utf8.{
  decode_utf8, decode_loop, decode_one, lead_length, continuations, is_malformed, is_control,
}
use linux_server.Validation.Utf8.Encoding.{encode_all, IsScalar, any_control}
use linux_server.Validation.Utf8.Decoding.{decode_utf8-encode_all, decode_utf8_sound}

-- "A", "é", "中" and an emoji.
abbrev scalars : List ℕ
scalars = 0x41 ∷ 0xe9 ∷ 0x4e2d ∷ 0x1f600 ∷ []

abbrev text : Bytes
text = 0x41 ∷ 0xc3 ∷ 0xa9 ∷ 0xe4 ∷ 0xb8 ∷ 0xad ∷ 0xf0 ∷ 0x9f ∷ 0x98 ∷ 0x80 ∷ []

text_accepted : decode_utf8 text ≡ some (4, false)
unfolding decode_utf8 decode_loop decode_one lead_length continuations is_malformed is_control
text_accepted = refl

overlong_rejected : decode_utf8 (0xc0 ∷ 0x80 ∷ []) ≡ none
unfolding decode_utf8 decode_loop decode_one lead_length continuations is_malformed is_control
overlong_rejected = refl

surrogate_rejected : decode_utf8 (0xed ∷ 0xa0 ∷ 0x80 ∷ []) ≡ none
unfolding decode_utf8 decode_loop decode_one lead_length continuations is_malformed is_control
surrogate_rejected = refl

scalars-IsScalar : All IsScalar scalars
scalars-IsScalar = omega arith

decode_utf8-encode_all_example : decode_utf8 text ≡ some (4, any_control scalars)
decode_utf8-encode_all_example = decode_utf8-encode_all scalars scalars-IsScalar

decode_utf8_sound_example :
    (cs : List ℕ) × All IsScalar cs
    × (text ≡ encode_all cs)
    × (◌≡◌ {A = ℕ × Bool} (4, false) (length cs, any_control cs))
decode_utf8_sound_example = decode_utf8_sound text (4, false) (omega arith) text_accepted
