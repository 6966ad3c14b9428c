-- ===== src/Validation/Utf8.antt =====
-- `DecodeUtf8` (src/common/validator.cc). `value` and `i` are the bytes from `i` on; each round takes
-- at least one, so as many rounds as there are bytes reach the end. A shift by six followed by an
-- or with six bits is written as the sum that it is.
pub mod Tables
pub mod Encoding
pub mod Decoding
mod Tests
use linux_server.Base.{
  ℕ, zero, suc, ◌+◌, ◌*◌, ◌%◌, Bool, true, false, ◌&&◌, ◌||◌, List, [], ◌∷◌, Option, none, some,
  Bytes, length, leb, ltb, nat_beq, if◌then◌else◌,
}
use Prim.Native.Nat.{bit_and}

-- What the lead byte says: the length of the sequence and the first bits of the code point.
unfoldable pub lead_length : ℕ → Option (ℕ × ℕ)
lead_length lead =
    if leb lead 0x7f
    then some (1, lead)
    else if nat_beq (bit_and lead 0xe0) 0xc0
    then some (2, lead % 32)
    else if nat_beq (bit_and lead 0xf0) 0xe0
    then some (3, lead % 16)
    else if nat_beq (bit_and lead 0xf8) 0xf0
    then some (4, lead % 8)
    else none

-- The inner loop over the continuation bytes, and the bytes behind them.
unfoldable pub continuations : ℕ → ℕ → Bytes → Option (ℕ × Bytes)
continuations zero code_point bytes = some (code_point, bytes)
continuations (suc n) code_point [] = none
continuations (suc n) code_point (c ∷ bytes) =
    let later = continuations n (code_point * 64 + c % 64) bytes in
    if nat_beq (bit_and c 0xc0) 0x80 then later else none

-- Overlong forms, values past the last plane and surrogates.
unfoldable pub is_malformed : ℕ → ℕ → Bool
is_malformed len code_point =
    (nat_beq len 2 && ltb code_point 0x80)
    || (nat_beq len 3 && ltb code_point 0x800)
    || (nat_beq len 4 && ltb code_point 0x10000)
    || ltb 0x10ffff code_point
    || (leb 0xd800 code_point && leb code_point 0xdfff)

unfoldable pub is_control : ℕ → Bool
is_control code_point = leb code_point 0x1f || (leb 0x7f code_point && leb code_point 0x9f)

accept : ℕ → Option (ℕ × Bytes) → Option (ℕ × Bytes)
accept len none = none
accept len (some (code_point, rest)) =
    if is_malformed len code_point then none else some (code_point, rest)

sequence : ℕ → Bytes → Option (ℕ × ℕ) → Option (ℕ × Bytes)
unfolding accept
sequence size bytes none = none
sequence size bytes (some (zero, code_point)) = none
sequence size bytes (some (suc n, code_point)) =
    if ltb size (suc n) then none else accept (suc n) (continuations n code_point bytes)

-- One round of the outer loop: the code point, and the bytes from the next `i` on.
unfoldable pub decode_one : Bytes → Option (ℕ × Bytes)
unfolding sequence
decode_one [] = none
decode_one (lead ∷ bytes) = sequence (length (lead ∷ bytes)) bytes (lead_length lead)

-- `code_points` and `has_control` as they come out, or `none` for `false`.
unfoldable pub decode_loop : ℕ → Bytes → ℕ → Bool → Option (ℕ × Bool)
decode_loop fuel [] code_points has_control = some (code_points, has_control)
decode_loop zero (c ∷ cs) code_points has_control = none
decode_loop (suc fuel) (c ∷ cs) code_points has_control = elim (decode_one (c ∷ cs)) [
  | none ↦ none
  | some (code_point, rest) ↦
      decode_loop fuel rest (code_points + 1) (has_control || is_control code_point)
]

unfoldable pub decode_utf8 : Bytes → Option (ℕ × Bool)
decode_utf8 value = decode_loop (length value) value 0 false
