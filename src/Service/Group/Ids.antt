-- ===== src/Service/Group/Ids.antt =====
-- The ids of groups and of their messages (src/service/group_service.cc), and that the checks of
-- `Validator` let them pass.
use linux_server.Base.{
  ℕ, [], ◌∷◌, ◌++◌, Option, none, some, Bytes, codes, is_empty, nat_beq, ℤ, to_uint64, shift_left,
  hex_fixed, hex_bytes, to_string, if◌then◌else◌,
}
use Prim.Native.Nat.{bit_xor}
use linux_server.Service.Ids.{Draw}

-- `RandomHex` on the bytes that `getrandom` gave, `none` where it failed.
unfoldable pub random_hex : Option Bytes → Bytes
random_hex none = []
random_hex (some bytes) = hex_bytes bytes

unfoldable pub build_group_id : Option Bytes → Bytes
build_group_id bytes =
    let random = random_hex bytes in if is_empty random then [] else codes "grp_" ++ random

unfoldable pub build_group_conversation_id : Bytes → Bytes
build_group_conversation_id group_id = codes "gconv_" ++ group_id

unfoldable pub build_group_message_id : Draw → ℤ → ℤ → Bytes
build_group_message_id d from_user_id to_user_id =
    let time_and_process = bit_xor (shift_left (to_uint64 d.now) 32) (shift_left d.pid 16) in
    let with_users =
      bit_xor (bit_xor time_and_process (to_uint64 from_user_id))
        (shift_left (to_uint64 to_user_id) 8) in
    let mixed_part = bit_xor with_users d.msg_seq in
    codes "gmsg_" ++ (hex_fixed 16 mixed_part ++ hex_fixed 16 d.random_part)

-- The digits without the zeros in front; `std::hex` writes at least one.
unfoldable pub strip_zeros : Bytes → Bytes
strip_zeros [] = codes "0"
strip_zeros (c ∷ cs) = let rest = strip_zeros cs in if nat_beq c b'0' then rest else c ∷ cs

unfoldable pub build_recipient_client_message_id : (Bytes → ℕ) → Bytes → Bytes → ℤ → Bytes
build_recipient_client_message_id hash group_id client_msg_id to_user_id =
    let raw = group_id ++ (codes ":" ++ (client_msg_id ++ (codes ":" ++ to_string to_user_id))) in
    codes "gcm_" ++ strip_zeros (hex_fixed 16 (hash raw))
