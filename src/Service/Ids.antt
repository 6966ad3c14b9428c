-- ===== src/Service/Ids.antt =====
-- The ids that the chat service gives out (`BuildConversationId` and `BuildMessageId` of
-- src/service/chat_service.cc). The clock, the process id, the counter and the random number are
-- arguments.
use linux_server.Base.{
  ℕ, true, [], ◌∷◌, ◌++◌, Bytes, codes, length, ltb, ℤ, pos, int_ltb, to_string, hex_fixed,
  shift_left, to_uint64, int_eq, nat_eq, list_eq, if◌then◌else◌, ◌≡◌, refl, sym, ap, ◌∙◌, ◌⊎◌, inl,
  inr, arith, drop, length-append, All, nat_to_string, nat_to_string-injective,
  nat_to_string-IsDecimal, decimal_split, hex_fixed-All, length-hex_fixed, is_lower_hex, Bool-cases,
}
use Prim.Native.Nat.{bit_xor}
use linux_server.Validation.Validator.{
  ValidationResult, message_content, client_message_id, message_max_bytes, cursor,
  required_identifier, is_valid_identifier,
}
use linux_server.Validation.Validator

-- What a call reads of its surroundings.
pub record Draw : Type 0 where
  pub now : ℤ
  pub pid : ℕ
  pub msg_seq : ℕ
  pub random_part : ℕ

unfoldable pub build_conversation_id : ℤ → ℤ → Bytes
build_conversation_id user_a user_b =
    let min_id = if int_ltb user_b user_a then user_b else user_a in
    let max_id = if int_ltb user_a user_b then user_b else user_a in
    codes "conv_" ++ (to_string min_id ++ (codes "_" ++ to_string max_id))

-- `msg_seq` is the counter after `++msg_seq`.
unfoldable pub build_message_id : Draw → ℤ → Bytes
build_message_id d from_user_id =
    let time_and_process = bit_xor (shift_left (to_uint64 d.now) 32) (shift_left d.pid 16) in
    let mixed_part = bit_xor (bit_xor time_and_process (to_uint64 from_user_id)) d.msg_seq in
    codes "msg_" ++ (hex_fixed 16 mixed_part ++ hex_fixed 16 d.random_part)

abbrev lower : ℕ → ℕ → ℕ
lower a b = if ltb b a then b else a

abbrev upper : ℕ → ℕ → ℕ
upper a b = if ltb a b then b else a

abbrev pair_text : ℕ → ℕ → Bytes
pair_text lo hi = nat_to_string lo ++ b'_' ∷ nat_to_string hi

conversation_text :
    (a b : ℕ)
    → build_conversation_id (pos a) (pos b) ≡ codes "conv_" ++ pair_text (lower a b) (upper a b)
unfolding build_conversation_id to_string
conversation_text a b = elim (Bool-cases (ltb a b)) [
  | inl e ↦ elim (Bool-cases (ltb b a)) [ inl f ↦ absurd (ground arith) | inr f ↦ rw (e, f) refl ]
  | inr e ↦ elim (Bool-cases (ltb b a)) [ inl f ↦ rw (e, f) refl | inr f ↦ rw (e, f) refl ]
]

pair_text-injective : (a b c d : ℕ) → pair_text a b ≡ pair_text c d → (a ≡ c) × (b ≡ d)
pair_text-injective a b c d e =
    let (first, second) =
      decimal_split b'_' (nat_to_string a) (nat_to_string c) (nat_to_string b) (nat_to_string d)
        refl (nat_to_string-IsDecimal a) (nat_to_string-IsDecimal c) e in
    (nat_to_string-injective a c first, nat_to_string-injective b d second)

-- Two users with ids that are not negative share a conversation id with two others exactly if
-- they are the same two users, in either order.
pub build_conversation_id_iff :
    (a b c d : ℕ)
    → (build_conversation_id (pos a) (pos b) ≡ build_conversation_id (pos c) (pos d)
        → ((a ≡ c) × (b ≡ d)) ⊎ ((a ≡ d) × (b ≡ c)))
      × (((a ≡ c) × (b ≡ d)) ⊎ ((a ≡ d) × (b ≡ c))
          → build_conversation_id (pos a) (pos b) ≡ build_conversation_id (pos c) (pos d))
build_conversation_id_iff a b c d = (distinct, same)
  where
    distinct :
        build_conversation_id (pos a) (pos b) ≡ build_conversation_id (pos c) (pos d)
        → ((a ≡ c) × (b ≡ d)) ⊎ ((a ≡ d) × (b ≡ c))
    distinct e =
        let texts = sym (conversation_text a b) ∙ e ∙ conversation_text c d in
        let (lo, hi) =
          pair_text-injective (lower a b) (upper a b) (lower c d) (upper c d) (ap (drop 5) texts) in
        ground arith

    swapped :
        lower a b ≡ lower c d
        → upper a b ≡ upper c d
        → build_conversation_id (pos a) (pos b) ≡ build_conversation_id (pos c) (pos d)
    swapped lo hi =
        conversation_text a b
        ∙ ap (λ p. codes "conv_" ++ pair_text p (upper a b)) lo
        ∙ ap (λ p. codes "conv_" ++ pair_text (lower c d) p) hi
        ∙ sym (conversation_text c d)

    same :
        ((a ≡ c) × (b ≡ d)) ⊎ ((a ≡ d) × (b ≡ c))
        → build_conversation_id (pos a) (pos b) ≡ build_conversation_id (pos c) (pos d)
    same p = swapped (ground arith) (ground arith)

is_valid_identifier-append :
    (xs ys : Bytes)
    → is_valid_identifier xs ≡ true
    → is_valid_identifier ys ≡ true
    → is_valid_identifier (xs ++ ys) ≡ true
unfolding is_valid_identifier
is_valid_identifier-append [] ys h k = k
is_valid_identifier-append (x ∷ xs) ys h k = ground (arith, is_valid_identifier-append xs ys)

is_valid_identifier_hex :
    (xs : Bytes) → All (λ c. is_lower_hex c ≡ true) xs → is_valid_identifier xs ≡ true
unfolding is_valid_identifier
is_valid_identifier_hex [] h = refl
is_valid_identifier_hex (x ∷ xs) h = ground (arith, is_valid_identifier_hex xs h.1)

hex_pair-valid : (m n : ℕ) → is_valid_identifier (hex_fixed 16 m ++ hex_fixed 16 n) ≡ true
hex_pair-valid m n =
    is_valid_identifier-append (hex_fixed 16 m) (hex_fixed 16 n)
      (is_valid_identifier_hex (hex_fixed 16 m) (hex_fixed-All 16 m))
      (is_valid_identifier_hex (hex_fixed 16 n) (hex_fixed-All 16 n))

length-hex_pair : (m n : ℕ) → length (hex_fixed 16 m ++ hex_fixed 16 n) ≡ 32
length-hex_pair m n = omega (
  arith,
  length-append (hex_fixed 16 m) (hex_fixed 16 n),
  length-hex_fixed 16 m,
  length-hex_fixed 16 n,
)

message_text_valid :
    (body : Bytes)
    → is_valid_identifier body ≡ true
    → length body ≡ 32
    → (Validator.message_id (codes "msg_" ++ body)).valid ≡ true
unfolding Validator.message_id required_identifier is_valid_identifier
message_text_valid body h k = ground arith

-- Every id that BuildMessageId makes has 36 characters and passes the check of a message id.
pub message_id-build_message_id :
    (d : Draw) (from : ℤ)
    → (length (build_message_id d from) ≡ 36)
      × ((Validator.message_id (build_message_id d from)).valid ≡ true)
unfolding build_message_id
message_id-build_message_id d from = (
  omega (arith, length-hex_pair _ d.random_part),
  message_text_valid _ (hex_pair-valid _ d.random_part) (length-hex_pair _ d.random_part),
)
